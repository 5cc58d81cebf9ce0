-- ===== src/Client/Numbering.antt =====
-- Every watcher that a client holds has a number below the next one, in whatever order the
-- operations are called, so that no two watchers of it are confused.
use python_server_sdk.Base.{
  ◌≡◌, refl, none, some, List, [], ℕ, Text, text_eq, ◌==◌, arith, if◌then◌else◌, Option-cases,
  Bool-cases, inl, inr, subst, sym, ap, ◌∙◌,
}
use python_server_sdk.Base.Dict
use python_server_sdk.Base.Dict.{Dict}
use python_server_sdk.Client.{
  client_ready, configs_updated, config_evaluated, Watcher, Client, new, apply_bundle, unwatch,
  unwatch_all, remove_watcher, on, off, close, edit_watchers, remove_ident, remove_handled,
}
use python_server_sdk.Client.Watchers.{
  IsNumbered, IsOlder, get-edit_watchers, remove_ident-IsOlder, remove_handled-IsOlder,
  watch-IsNumbered,
}
use python_server_sdk.Client.Lifecycle.{
  Step, bundle_step, watch_step, unwatch_step, unwatch_all_step, remove_watcher_step, on_step,
  off_step, close_step, Reach, here, next,
}

module _ {V C : Type 0} where
  edited :
      (n : ℕ) (key k : Text) (edit : List (Watcher V C) → List (Watcher V C))
      (watchers : Dict Text (List (Watcher V C)))
      → ((entries : List (Watcher V C)) → IsOlder n entries → IsOlder n (edit entries))
      → ((j : Text) (entries : List (Watcher V C))
          → Dict.get j watchers ≡ some entries
          → IsOlder n entries)
      → (entries : List (Watcher V C)) → Dict.get k (edit_watchers key edit watchers) ≡ some entries
      → IsOlder n entries
  unfolding edit_watchers
  edited n key k edit watchers keeps older entries e = elim (Option-cases (Dict.get key watchers)) [
    | inl missing ↦ older k entries (untouched missing)
    | inr (old, found) ↦
        replaced old (get-edit_watchers key k edit watchers old found)
          (keeps old (older key old found))
  ]
    where
      untouched : Dict.get key watchers ≡ none → Dict.get k watchers ≡ some entries
      untouched missing = ground (arith, missing, e)

      replaced :
          (old : List (Watcher V C))
          → Dict.get k (edit_watchers key edit watchers)
            ≡ (if key == k then some (edit old) else Dict.get k watchers)
          → IsOlder n (edit old)
          → IsOlder n entries
      replaced old g new = elim (Bool-cases (key == k)) [
        | inl same ↦ subst (IsOlder n) (ground (arith, same)) new
        | inr other ↦ older k entries (ground (arith, other))
      ]

module _ {F V : Type 0} where
  same-IsNumbered :
      (c d : Client F V)
      → d.watchers ≡ c.watchers
      → d.next_ident ≡ c.next_ident
      → IsNumbered c
      → IsNumbered d
  same-IsNumbered c d p q h = record {
    older = λ k entries e. rw q (h.older k entries (ap (Dict.get k) (sym p) ∙ e));
  }

  unwatched-IsNumbered : (d : Client F V) → d.watchers ≡ [] → IsNumbered d
  unfolding Dict.get
  unwatched-IsNumbered d p = record {
    older = λ k entries e.
        let none_left : Dict.get k d.watchers ≡ none = rw p refl in ground (arith, none_left, e);
  }

  Step-IsNumbered : {c d : Client F V} → Step c d → IsNumbered c → IsNumbered d
  unfolding apply_bundle unwatch unwatch_all remove_watcher on off close
  Step-IsNumbered {c} (bundle_step b) h =
      same-IsNumbered c (apply_bundle b c).0 (ground arith) (ground arith) h
  Step-IsNumbered {c} (watch_step k d f x) h = watch-IsNumbered k d f x c h
  Step-IsNumbered {c} (unwatch_step key none) h = record {
    older = λ k entries e.
        edited c.next_ident key k (λ entries. []) c.watchers (λ old o. tt) h.older entries e;
  }
  Step-IsNumbered {c} (unwatch_step key (some f)) h = record {
    older = λ k entries e.
        edited c.next_ident key k (remove_handled f) c.watchers
          (λ old o. remove_handled-IsOlder c.next_ident f old o) h.older entries e;
  }
  Step-IsNumbered {c} unwatch_all_step h = unwatched-IsNumbered (unwatch_all c) refl
  Step-IsNumbered {c} (remove_watcher_step key w) h = record {
    older = λ k entries e.
        edited c.next_ident key k (remove_ident w.ident) c.watchers
          (λ old o. remove_ident-IsOlder c.next_ident w.ident old o) h.older entries e;
  }
  Step-IsNumbered (on_step client_ready f) h = record { older = h.older }
  Step-IsNumbered (on_step configs_updated f) h = record { older = h.older }
  Step-IsNumbered (on_step config_evaluated f) h = record { older = h.older }
  Step-IsNumbered (off_step client_ready none) h = record { older = h.older }
  Step-IsNumbered (off_step configs_updated none) h = record { older = h.older }
  Step-IsNumbered (off_step config_evaluated none) h = record { older = h.older }
  Step-IsNumbered (off_step client_ready (some f)) h = record { older = h.older }
  Step-IsNumbered (off_step configs_updated (some f)) h = record { older = h.older }
  Step-IsNumbered (off_step config_evaluated (some f)) h = record { older = h.older }
  Step-IsNumbered {c} close_step h = elim (Bool-cases c.closed) [
    | inl shut ↦ same-IsNumbered c (close c) (ground arith) (ground arith) h
    | inr running ↦ unwatched-IsNumbered (close c) (ground arith)
  ]

  -- Of a new client, whatever is called on it, in whatever order: every watcher that it holds has a
  -- number below the next one that it gives.
  pub Reach-IsNumbered : {c : Client F V} → Reach new c → IsNumbered c
  unfolding new
  Reach-IsNumbered here = unwatched-IsNumbered new refl
  Reach-IsNumbered (next r s) = Step-IsNumbered s (Reach-IsNumbered r)
