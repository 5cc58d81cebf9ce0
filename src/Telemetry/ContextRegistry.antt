-- ===== src/Telemetry/ContextRegistry.antt =====
-- `ContextRegistry` of configdirector-server-sdk/src/configdirector/_telemetry/queue.py, over any
-- keys and contexts.
use python_server_sdk.Base.{
  ℕ, suc, ◌+◌, ◌-◌, ◌≤◌, ◌<◌, ◌≡◌, ap, some, List, [], ◌∷◌, length, drop, ltb, length-drop, arith,
  Eq, Bool-cases, inl, inr, if◌then◌else◌,
}
use python_server_sdk.Base.Dict
use python_server_sdk.Base.Dict.{
  Dict, Distinct, values, get-set, has-set, length-set, set-Distinct, drop-Distinct,
  get-drop-set_absent, get-set_self, has-get, get-eq-none,
}

pub record ContextRegistry (K C : Type 0) : Type 0 where
  pub limit : ℕ
  pub contexts : Dict K C
  pub dropped_count : ℕ

module _ {K C : Type 0} where
  -- `while len(contexts) > limit: del contexts[next(iter(contexts))]`, with the count of the deleted
  unfoldable pub evict : ℕ → Dict K C → ℕ → Dict K C × ℕ
  evict limit [] dropped = ([], dropped)
  evict limit (entry ∷ contexts) dropped =
      let rest = evict limit contexts (dropped + 1) in
      if ltb limit (suc (length contexts)) then rest else (entry ∷ contexts, dropped)

  unfoldable pub new : ℕ → ContextRegistry K C
  new limit = record { limit = limit; contexts = []; dropped_count = 0 }

  -- `_reset`, which is also all that `clear` does
  unfoldable pub reset : ContextRegistry K C → ContextRegistry K C
  reset r = record r { contexts = []; dropped_count = 0 }

  unfoldable pub take_snapshot : ContextRegistry K C → (List C × ℕ) × ContextRegistry K C
  unfolding reset
  take_snapshot r = ((values r.contexts, r.dropped_count), reset r)

module _ {K C : Type 0} ⦃e : Eq K⦄ where
  unfoldable pub add : K → C → ContextRegistry K C → ContextRegistry K C
  unfolding evict
  add key context r =
      let (contexts, dropped) = evict r.limit (Dict.set key context r.contexts) r.dropped_count in
      record r { contexts = contexts; dropped_count = dropped }

module _ {K C : Type 0} where
  drop-within : (limit : ℕ) (d : Dict K C) → length d ≤ limit → d ≡ drop (length d - limit) d
  drop-within limit d h = let none_over : length d - limit ≡ 0 = omega arith in rw none_over

  -- The loop deletes the oldest entries, as many as are over the limit.
  evict_lem :
      (limit : ℕ) (d : Dict K C) (n : ℕ)
      → ((evict limit d n).0 ≡ drop (length d - limit) d)
        × ((evict limit d n).1 ≡ n + (length d - limit))
  unfolding evict
  evict_lem limit [] n = (drop-within limit [] (omega arith), omega arith)
  evict_lem limit (entry ∷ d) n = elim (Bool-cases (ltb limit (suc (length d)))) [
    | inl over ↦
        let step : suc (length d) - limit ≡ suc (length d - limit) = ground arith in
        rw (over, step)
          ((evict_lem limit d (n + 1)).0, omega (arith, (evict_lem limit d (n + 1)).1))
    | inr within ↦ rw within (drop-within limit (entry ∷ d) (ground arith), ground arith)
  ]

module _ {K C : Type 0} ⦃e : Eq K⦄ where
  pub record IsValid (r : ContextRegistry K C) : Type 0 where
    pub bounded : length r.contexts ≤ r.limit
    pub distinct : Distinct r.contexts

  -- Of the contexts with the new one set, the newest are kept, and the others are counted.
  add_lem :
      (k : K) (c : C) (r : ContextRegistry K C)
      → ((add k c r).contexts
          ≡ drop (length (Dict.set k c r.contexts) - r.limit) (Dict.set k c r.contexts))
        × ((add k c r).dropped_count
            ≡ r.dropped_count + (length (Dict.set k c r.contexts) - r.limit))
  unfolding add
  add_lem k c r = evict_lem r.limit (Dict.set k c r.contexts) r.dropped_count

  -- A registry within its limit stays within it and keeps one entry for a key.
  pub add-IsValid : (k : K) (c : C) (r : ContextRegistry K C) → IsValid r → IsValid (add k c r)
  unfolding add
  add-IsValid k c r v = record {
    bounded = rw ((add_lem k c r).0, length-drop) (omega arith);
    distinct = rw ((add_lem k c r).0) (
        drop-Distinct (length (Dict.set k c r.contexts) - r.limit) (Dict.set k c r.contexts)
          (set-Distinct k c r.contexts v.distinct));
  }

  -- From a valid registry with room for at least one entry, the context just added is held under
  -- its key, and what is held and what was dropped grow together by one exactly if the key is new.
  pub add_keeps :
      (k : K) (c : C) (r : ContextRegistry K C)
      → IsValid r
      → 0 < r.limit
      → (Dict.get k (add k c r).contexts ≡ some c)
        × (length (add k c r).contexts + (add k c r).dropped_count
            ≡ length r.contexts + r.dropped_count + (if Dict.has k r.contexts then 0 else 1))
  add_keeps k c r v room = (
    rw ((add_lem k c r).0) (elim (Bool-cases (Dict.has k r.contexts)) [
      | inl known ↦
          let none_over : length after - r.limit ≡ 0 = ground (arith, length-set k c r.contexts) in
          rw none_over (get-set_self k c r.contexts)
      | inr fresh ↦
          get-drop-set_absent k c (length after - r.limit) r.contexts fresh
            (ground (arith, length-set k c r.contexts))
    ]),
    ground (
      arith,
      ap length (add_lem k c r).0,
      (add_lem k c r).1,
      length-drop (length after - r.limit) after,
      length-set k c r.contexts,
    ),
  )
    where
      after : Dict K C
      after = Dict.set k c r.contexts
