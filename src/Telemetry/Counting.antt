-- ===== src/Telemetry/Counting.antt =====
-- A dictionary of counts, as `collections.Counter` and the counts of
-- configdirector-server-sdk/src/configdirector/_telemetry/queue.py keep it, and `aggregate`.
use python_server_sdk.Base.{
  ℕ, suc, ◌+◌, ◌≡◌, refl, ◌∙◌, Bool, true, false, ◌||◌, all, Exc, ok, raised, ◌>>=◌, type_error,
  Bool-cases, inl, inr, ◌⊎◌, List, [], ◌∷◌, ◌++◌, Eq, ◌==◌, length, arith, if◌then◌else◌,
}
use mathlib.Core.Option
use python_server_sdk.Base.Dict
use python_server_sdk.Base.Dict.{
  Dict, Distinct, get-set, has-set, length-set, get-eq-none, set-Distinct,
}

module _ {K : Type 0} ⦃e : Eq K⦄ where
  -- `d[k] += 1` where a missing key counts as 0
  unfoldable pub increment : K → Dict K ℕ → Dict K ℕ
  increment k d = Dict.set k (Option.get_or (Dict.get k d) 0 + 1) d

module _ {K : Type 0} where
  -- The sum of the counts.
  abbrev pub total : Dict K ℕ → ℕ
  total [] = 0
  total ((k, n) ∷ d) = n + total d

module _ {K : Type 0} ⦃e : Eq K⦄ where
  -- How often an item stands in a list.
  unfoldable pub occurrences : K → List K → ℕ
  occurrences k [] = 0
  occurrences k (j ∷ items) = (if j == k then 1 else 0) + occurrences k items

module _ {K : Type 0} ⦃e : Eq K⦄ where
  pub occurrences-snoc :
      (k j : K) (items : List K)
      → occurrences k (items ++ j ∷ []) ≡ occurrences k items + (if j == k then 1 else 0)
  unfolding occurrences
  occurrences-snoc k j [] = omega arith
  occurrences-snoc k j (i ∷ items) = omega (arith, occurrences-snoc k j items)

  total-set :
      (k : K) (n : ℕ) (d : Dict K ℕ)
      → total (Dict.set k n d) + Option.get_or (Dict.get k d) 0 ≡ total d + n
  unfolding Dict.set Dict.get
  total-set k n [] = omega arith
  total-set k n ((j, m) ∷ d) = ground (arith, total-set k n d)

  pub total-increment : (k : K) (d : Dict K ℕ) → total (increment k d) ≡ total d + 1
  unfolding increment
  total-increment k d = omega (arith, total-set k (Option.get_or (Dict.get k d) 0 + 1) d)

  pub get-increment :
      (k j : K) (d : Dict K ℕ)
      → Option.get_or (Dict.get j (increment k d)) 0
        ≡ Option.get_or (Dict.get j d) 0 + (if k == j then 1 else 0)
  unfolding increment
  get-increment k j d =
      ground (arith, get-set k j (Option.get_or (Dict.get k d) 0 + 1) d, e.same_iff k j)

  pub has-increment :
      (k j : K) (d : Dict K ℕ)
      → Dict.has j (increment k d) ≡ (if k == j then true else Dict.has j d)
  unfolding increment
  has-increment k j d = has-set k j (Option.get_or (Dict.get k d) 0 + 1) d

  pub length-increment :
      (k : K) (d : Dict K ℕ)
      → length (increment k d) ≡ (if Dict.has k d then length d else suc (length d))
  unfolding increment
  length-increment k d = length-set k (Option.get_or (Dict.get k d) 0 + 1) d

  -- A key that is counted for the first time.
  pub increment_new : (k : K) (d : Dict K ℕ) → Dict.has k d ≡ false → Dict.set k 1 d ≡ increment k d
  unfolding increment
  increment_new k d h = rw (get-eq-none k d h)

  pub increment-Distinct : (k : K) (d : Dict K ℕ) → Distinct d → Distinct (increment k d)
  unfolding increment
  increment-Distinct k d h = set-Distinct k (Option.get_or (Dict.get k d) 0 + 1) d h

-- A line of a report: an event, and how often it was recorded in the interval.
pub record AggregatedEvent (E : Type 0) : Type 0 where
  pub start_time : ℕ
  pub end_time : ℕ
  pub count : ℕ
  pub event : E

module _ {E : Type 0} where
  abbrev pub aggregated : ℕ → ℕ → Dict E ℕ → List (AggregatedEvent E)
  aggregated start_time end_time [] = []
  aggregated start_time end_time ((event, count) ∷ counts) =
      record { start_time = start_time; end_time = end_time; count = count; event = event }
      ∷ aggregated start_time end_time counts

  -- The evaluations that the lines of a report stand for.
  abbrev pub reported : List (AggregatedEvent E) → ℕ
  reported [] = 0
  reported (a ∷ lines) = a.count + reported lines

  reported-aggregated :
      (start_time end_time : ℕ) (d : Dict E ℕ)
      → reported (aggregated start_time end_time d) ≡ total d
  reported-aggregated start_time end_time [] = refl
  reported-aggregated start_time end_time ((k, n) ∷ d) =
      omega (arith, reported-aggregated start_time end_time d)

-- What a dictionary asks of its keys: whether `hash` takes a value, and whether two are one key.
pub record Keys (E : Type 0) : Type 0 where
  pub hashable : E → Bool
  pub same : E → E → Bool

-- `==` of keys is symmetric and transitive; a key with a NaN need not be its own.
pub record IsKeys {E : Type 0} (keys : Keys E) : Type 0 where
  pub symmetric : (a b : E) → keys.same a b ≡ keys.same b a
  pub transitive : (a b c : E) → keys.same a b ≡ true → keys.same b c ≡ true → keys.same a c ≡ true

module _ {E : Type 0} (keys : Keys E) where
  -- One more of an event, behind the others if it is new.
  unfoldable pub tally : E → Dict E ℕ → Dict E ℕ
  tally k [] = (k, 1) ∷ []
  tally k ((j, n) ∷ counts) =
      let rest = tally k counts in if keys.same j k then (j, n + 1) ∷ counts else (j, n) ∷ rest

  -- `Counter(events)`, from the counts so far; an event that cannot be hashed raises TypeError.
  unfoldable pub count_all : Dict E ℕ → List E → Exc (Dict E ℕ)
  unfolding tally
  count_all counts [] = ok counts
  count_all counts (k ∷ events) =
      let rest = count_all (tally k counts) events in
      if keys.hashable k then rest else raised type_error

  unfoldable pub aggregate : List E → ℕ → ℕ → Exc (List (AggregatedEvent E))
  unfolding count_all
  aggregate events start_time end_time = do
    counts ← count_all [] events
    ok (aggregated start_time end_time counts)

  -- How many of the events are the same as one.
  pub occurs : E → List E → ℕ
  occurs k [] = 0
  occurs k (j ∷ events) = (if keys.same j k then 1 else 0) + occurs k events

  -- The count that the lines of a report give for an event, over all its lines.
  pub reported_of : E → List (AggregatedEvent E) → ℕ
  reported_of k [] = 0
  reported_of k (a ∷ lines) = (if keys.same a.event k then a.count else 0) + reported_of k lines

  -- No event has a line before another line.
  pub has_line : E → List (AggregatedEvent E) → Bool
  has_line k [] = false
  has_line k (a ∷ lines) = keys.same k a.event || has_line k lines

  pub IsMerged : List (AggregatedEvent E) → Type 0
  unfolding has_line
  IsMerged [] = Unit
  IsMerged (a ∷ lines) = (has_line a.event lines ≡ false) × IsMerged lines

  total-tally : (k : E) (d : Dict E ℕ) → total (tally k d) ≡ total d + 1
  unfolding tally
  total-tally k [] = omega arith
  total-tally k ((j, n) ∷ d) = ground (arith, total-tally k d)

  same_for : (laws : IsKeys keys) (j k i : E) → keys.same j k ≡ true → keys.same j i ≡ keys.same k i
  same_for laws j k i h =
      ground (arith, h, laws.symmetric j k, laws.transitive j k i h, laws.transitive k j i)

  reported_of-tally :
      (laws : IsKeys keys) (s t : ℕ) (i k : E) (d : Dict E ℕ)
      → reported_of i (aggregated s t (tally k d))
        ≡ reported_of i (aggregated s t d) + (if keys.same k i then 1 else 0)
  unfolding tally reported_of
  reported_of-tally laws s t i k [] = ground arith
  reported_of-tally laws s t i k ((j, n) ∷ d) =
      ground (arith, reported_of-tally laws s t i k d, same_for laws j k i)

  has_line-tally :
      (s t : ℕ) (i k : E) (d : Dict E ℕ)
      → keys.same i k ≡ false
      → has_line i (aggregated s t (tally k d)) ≡ has_line i (aggregated s t d)
  unfolding tally has_line
  has_line-tally s t i k [] h = ground (arith, h)
  has_line-tally s t i k ((j, n) ∷ d) h = ground (arith, h, has_line-tally s t i k d h)

  tally-IsMerged :
      (s t : ℕ) (k : E) (d : Dict E ℕ)
      → IsMerged (aggregated s t d)
      → IsMerged (aggregated s t (tally k d))
  unfolding tally IsMerged has_line
  tally-IsMerged s t k [] h = (refl, tt)
  tally-IsMerged s t k ((j, n) ∷ d) h = elim (Bool-cases (keys.same j k)) [
    | inl known ↦ rw known h
    | inr new ↦ rw new (has_line-tally s t j k d new ∙ h.0, tally-IsMerged s t k d h.1)
  ]

  -- The counts, from those so far, of a report from `s` to `t`.
  record Counts (s t : ℕ) (d : Dict E ℕ) (events : List E) (c : Dict E ℕ) : Type 0 where
    each :
        (k : E)
        → reported_of k (aggregated s t c) ≡ reported_of k (aggregated s t d) + occurs k events
    all_of : total c ≡ total d + length events
    merged : IsMerged (aggregated s t c)

  Counted : ℕ → ℕ → Dict E ℕ → List E → Type 0
  Counted s t d events =
      ((c : Dict E ℕ) × (all keys.hashable events ≡ true)
        × (count_all d events ≡ ok c)
        × Counts s t d events c)
      ⊎ ((all keys.hashable events ≡ false) × (count_all d events ≡ raised type_error))

  count_all-Counted :
      (laws : IsKeys keys) (s t : ℕ) (d : Dict E ℕ) (events : List E)
      → IsMerged (aggregated s t d)
      → Counted s t d events
  unfolding count_all Counted occurs
  count_all-Counted laws s t d [] h =
      inl (d, refl, refl, record { each = λ k. omega arith; all_of = omega arith; merged = h })
  count_all-Counted laws s t d (k ∷ events) h = elim (Bool-cases (keys.hashable k)) [
    | inr f ↦ rw f (inr (refl, refl))
    | inl hashed ↦
        rw hashed (elim (count_all-Counted laws s t (tally k d) events (tally-IsMerged s t k d h)) [
          | inr bad ↦ inr bad
          | inl (c, fine, found, counts) ↦ inl (
            c,
            fine,
            found,
            record {
              each = λ i. omega (arith, counts.each i, reported_of-tally laws s t i k d);
              all_of = omega (arith, counts.all_of, total-tally k d);
              merged = counts.merged;
            },
          )
        ])
  ]

  -- If `==` of the events is symmetric and transitive, and all of them can be hashed, a report has one
  -- line for the events that are the same, which counts them, and nothing else: the lines for an
  -- event add up to its occurrences, no two lines are for the same event, and all lines add up to the
  -- number of events. If one of them cannot be hashed, TypeError is raised.
  pub aggregate_counts :
      (laws : IsKeys keys) (events : List E) (start_time end_time : ℕ)
      → ((lines : List (AggregatedEvent E)) × (all keys.hashable events ≡ true)
          × (aggregate events start_time end_time ≡ ok lines)
          × ((k : E) → reported_of k lines ≡ occurs k events)
          × (reported lines ≡ length events)
          × IsMerged lines)
        ⊎ ((all keys.hashable events ≡ false)
            × (aggregate events start_time end_time ≡ raised type_error))
  unfolding aggregate Counted reported_of IsMerged
  aggregate_counts laws events s t = elim (count_all-Counted laws s t [] events tt) [
    | inr (bad, found) ↦ inr (bad, rw found refl)
    | inl (c, fine, found, counts) ↦ inl (
      aggregated s t c,
      fine,
      rw found refl,
      (λ k. omega (arith, counts.each k)),
      omega (arith, reported-aggregated s t c, counts.all_of),
      counts.merged,
    )
  ]

  total-count_all :
      (d : Dict E ℕ) (events : List E)
      → all keys.hashable events ≡ true
      → (c : Dict E ℕ) × (count_all d events ≡ ok c) × (total c ≡ total d + length events)
  unfolding count_all
  total-count_all d [] h = (d, refl, omega arith)
  total-count_all d (k ∷ events) h =
      let (c, found, n) = total-count_all (tally k d) events (ground (arith, h)) in
      let hashed : keys.hashable k ≡ true = ground (arith, h) in
      rw hashed (c, found, omega (arith, n, total-tally k d))

  -- The number of events is counted whatever `==` is.
  pub aggregate-reported :
      (events : List E) (start_time end_time : ℕ)
      → all keys.hashable events ≡ true
      → (lines : List (AggregatedEvent E)) × (aggregate events start_time end_time ≡ ok lines)
        × (reported lines ≡ length events)
  unfolding aggregate
  aggregate-reported events s t h =
      let (c, found, n) = total-count_all [] events h in
      (aggregated s t c, rw found refl, omega (arith, reported-aggregated s t c, n))
