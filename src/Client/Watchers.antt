-- ===== src/Client/Watchers.antt =====
-- The watchers and the event handlers that the client holds.
use python_server_sdk.Base.{
  ◌≡◌, Option, none, some, List, [], ◌∷◌, ◌++◌, ℕ, ◌<◌, ◌≤◌, ◌+◌, Text, text_eq, nat_eq, ◌==◌,
  arith, if◌then◌else◌, subst, Bool-cases, ==_refl, Option-cases, inl, inr,
}
use python_server_sdk.Base.Dict
use python_server_sdk.Base.Dict.{Dict, Distinct, get-set, set-Distinct}
use python_server_sdk.Evaluation.Types.{Context}
use python_server_sdk.Client.{
  Watcher, Client, watch, remove_watcher, append_watcher, edit_watchers, remove_ident,
  remove_handled,
}

-- The entries of a key, none if there is no list for it.
pub entries_of : {W : Type 0} → Option (List W) → List W
entries_of none = []
entries_of (some entries) = entries

module _ {V C : Type 0} where
  -- Every watcher of the list was created before the number `n`.
  abbrev pub IsOlder : ℕ → List (Watcher V C) → Type 0
  IsOlder n [] = Unit
  IsOlder n (w ∷ entries) = (w.ident < n) × IsOlder n entries

  remove_ident-snoc :
      (w : Watcher V C) (entries : List (Watcher V C))
      → IsOlder w.ident entries
      → remove_ident w.ident (entries ++ w ∷ []) ≡ entries
  unfolding remove_ident
  remove_ident-snoc w [] h = ground arith
  remove_ident-snoc w (v ∷ entries) h = ground (arith, h.0, remove_ident-snoc w entries h.1)

  IsOlder-mono :
      (m n : ℕ) (entries : List (Watcher V C)) → m ≤ n → IsOlder m entries → IsOlder n entries
  IsOlder-mono m n [] le h = tt
  IsOlder-mono m n (w ∷ entries) le h = (omega arith, IsOlder-mono m n entries le h.1)

  IsOlder-snoc :
      (n : ℕ) (entries : List (Watcher V C)) (w : Watcher V C)
      → IsOlder n entries
      → w.ident < n
      → IsOlder n (entries ++ w ∷ [])
  IsOlder-snoc n [] w h lt = (lt, tt)
  IsOlder-snoc n (v ∷ entries) w h lt = (h.0, IsOlder-snoc n entries w h.1 lt)

  pub remove_ident-IsOlder :
      (n ident : ℕ) (entries : List (Watcher V C))
      → IsOlder n entries
      → IsOlder n (remove_ident ident entries)
  unfolding remove_ident
  remove_ident-IsOlder n ident [] h = tt
  remove_ident-IsOlder n ident (w ∷ entries) h =
      ground (arith, remove_ident-IsOlder n ident entries h.1)

  pub remove_handled-IsOlder :
      (n callback : ℕ) (entries : List (Watcher V C))
      → IsOlder n entries
      → IsOlder n (remove_handled callback entries)
  unfolding remove_handled
  remove_handled-IsOlder n callback [] h = tt
  remove_handled-IsOlder n callback (w ∷ entries) h =
      ground (arith, remove_handled-IsOlder n callback entries h.1)

module _ {W : Type 0} where
  get-append_watcher :
      (key j : Text) (w : W) (watchers : Dict Text (List W))
      → Dict.get j (append_watcher key w watchers) ≡ (
          if key == j
          then some (entries_of (Dict.get key watchers) ++ w ∷ [])
          else Dict.get j watchers)
  unfolding append_watcher entries_of
  get-append_watcher key j w watchers = ground (
    arith,
    get-set key j (w ∷ []) watchers,
    get-set key j (entries_of (Dict.get key watchers) ++ w ∷ []) watchers,
  )

  pub get-edit_watchers :
      (key j : Text) (edit : List W → List W) (watchers : Dict Text (List W)) (entries : List W)
      → Dict.get key watchers ≡ some entries
      → Dict.get j (edit_watchers key edit watchers)
        ≡ (if key == j then some (edit entries) else Dict.get j watchers)
  unfolding edit_watchers
  get-edit_watchers key j edit watchers entries h =
      ground (arith, h, get-set key j (edit entries) watchers)

module _ {F V : Type 0} where
  -- Every watcher that the client holds was created by it.
  pub record IsNumbered (c : Client F V) : Type 0 where
    pub older :
        (key : Text) (entries : List (Watcher V (Context F)))
        → Dict.get key c.watchers ≡ some entries
        → IsOlder c.next_ident entries

  IsOlder-entries :
      (c : Client F V)
      → IsNumbered c
      → (key : Text) → IsOlder c.next_ident (entries_of (Dict.get key c.watchers))
  unfolding entries_of
  IsOlder-entries c h key = elim (Option-cases (Dict.get key c.watchers)) [
    | inl e ↦ rw e tt
    | inr (entries, e) ↦ rw e (h.older key entries e)
  ]

  -- Cancelling the subscription that `watch` returned takes back that watch alone: afterwards the
  -- key has the watchers that it had before, in order, and the other keys have theirs.
  pub remove_watcher-watch :
      (key j : Text) (default : V) (callback : ℕ) (context : Option (Context F)) (c : Client F V)
      → IsNumbered c
      → Dict.get j
          (remove_watcher key
            (watch key default callback context c).0
            (watch key default callback context c).1).watchers
        ≡ (if key == j then some (entries_of (Dict.get key c.watchers)) else Dict.get j c.watchers)
  unfolding watch remove_watcher entries_of
  remove_watcher-watch key j default callback context c h =
      let w : Watcher V (Context F) = record {
        ident = c.next_ident;
        handler = callback;
        default = default;
        context = context;
      } in
      let old = entries_of (Dict.get key c.watchers) in
      let after = append_watcher key w c.watchers in
      let found : Dict.get key after ≡ some (old ++ w ∷ []) =
        ground (arith, get-append_watcher key key w c.watchers, ==_refl key) in
      let back : remove_ident w.ident (old ++ w ∷ []) ≡ old =
        remove_ident-snoc w old (IsOlder-entries c h key) in
      ground (
        arith,
        get-edit_watchers key j (remove_ident c.next_ident) after (old ++ w ∷ []) found,
        back,
        get-append_watcher key j w c.watchers,
      )

  -- A watch keeps the watchers numbered.
  pub watch-IsNumbered :
      (key : Text) (default : V) (callback : ℕ) (context : Option (Context F)) (c : Client F V)
      → IsNumbered c
      → IsNumbered (watch key default callback context c).1
  unfolding watch
  watch-IsNumbered key default callback context c h = record {
    older = λ k entries e.
        let w : Watcher V (Context F) = record {
          ident = c.next_ident;
          handler = callback;
          default = default;
          context = context;
        } in
        let old = entries_of (Dict.get key c.watchers) in
        appended key k w old entries (get-append_watcher key k w c.watchers) e
          (IsOlder-snoc (c.next_ident + 1) old w
            (IsOlder-mono c.next_ident (c.next_ident + 1) old (omega arith)
              (IsOlder-entries c h key))
            (omega arith))
          (λ at.
            IsOlder-mono c.next_ident (c.next_ident + 1) entries (omega arith)
              (h.older k entries at));
  }
    where
      appended :
          (key k : Text) (w : Watcher V (Context F)) (old entries : List (Watcher V (Context F)))
          → Dict.get k (append_watcher key w c.watchers)
            ≡ (if key == k then some (old ++ w ∷ []) else Dict.get k c.watchers)
          → Dict.get k (append_watcher key w c.watchers) ≡ some entries
          → IsOlder (c.next_ident + 1) (old ++ w ∷ [])
          → (Dict.get k c.watchers ≡ some entries → IsOlder (c.next_ident + 1) entries)
          → IsOlder (c.next_ident + 1) entries
      appended key k w old entries g e new kept = elim (Bool-cases (key == k)) [
        | inl same ↦ subst (IsOlder (c.next_ident + 1)) (ground (arith, same)) new
        | inr other ↦ kept (ground (arith, other))
      ]
