-- ===== src/Telemetry/InvalidContexts.antt =====
-- `InvalidContextSubmissions` of configdirector-server-sdk/src/configdirector/_telemetry/queue.py.
use python_server_sdk.Base.{
  ℕ, suc, ◌+◌, ◌≤◌, ◌<◌, ◌≡◌, refl, true, false, Option, none, some, List, [], ◌∷◌, ◌++◌, length,
  length-append, ◌⊎◌, ltb, eqb, arith, Text, text_eq, Bool-cases, inl, inr, if◌then◌else◌,
}
use mathlib.Core.Option
use python_server_sdk.Base.Dict
use python_server_sdk.Base.Dict.{Dict, Distinct, get-eq-none, length-set}
use python_server_sdk.Telemetry.Counting.{
  increment, total, occurrences, occurrences-snoc, total-increment, get-increment, has-increment,
  increment-Distinct, length-increment, increment_new,
}

abbrev pub kind_sample_limit : ℕ
kind_sample_limit = 20

pub data InvalidContextRecording : Type 0 where
  new_kind_sample known_kind_sample first_beyond_sample_limit beyond_sample_limit :
      InvalidContextRecording

pub record InvalidContextSubmissions : Type 0 where
  pub counts_by_kind_sample : Dict Text ℕ
  pub count_beyond_sample_limit : ℕ
  pub start_time : Option ℕ

pub record InvalidContextEntry : Type 0 where
  pub start_time : ℕ
  pub end_time : ℕ
  pub count : ℕ
  pub kind_sample : Option Text

unfoldable pub new : InvalidContextSubmissions
new = record { counts_by_kind_sample = []; count_beyond_sample_limit = 0; start_time = none }

-- The method `record`
unfoldable pub record_kind :
    ℕ → Text → InvalidContextSubmissions → InvalidContextRecording × InvalidContextSubmissions
record_kind now sample s =
    let started = record s { start_time = some (Option.get_or s.start_time now) } in
    if Dict.has sample s.counts_by_kind_sample
    then (
      known_kind_sample,
      record started { counts_by_kind_sample = increment sample s.counts_by_kind_sample },
    )
    else if ltb (length s.counts_by_kind_sample) kind_sample_limit
    then (
      new_kind_sample,
      record started { counts_by_kind_sample = Dict.set sample 1 s.counts_by_kind_sample },
    )
    else (
      if eqb (s.count_beyond_sample_limit + 1) 1
          then first_beyond_sample_limit
          else beyond_sample_limit,
      record started { count_beyond_sample_limit = s.count_beyond_sample_limit + 1 },
    )

-- `_reset`, which is also all that `clear` does
unfoldable pub reset : InvalidContextSubmissions → InvalidContextSubmissions
reset s = record s { counts_by_kind_sample = []; count_beyond_sample_limit = 0; start_time = none }

-- The entries of the kinds that have a sample, in the order in which they were first seen.
entries_of : ℕ → ℕ → Dict Text ℕ → List InvalidContextEntry
entries_of start_time end_time [] = []
entries_of start_time end_time ((sample, count) ∷ counts) =
    record {
      start_time = start_time;
      end_time = end_time;
      count = count;
      kind_sample = some sample;
    }
    ∷ entries_of start_time end_time counts

unfoldable pub take_snapshot :
    ℕ → InvalidContextSubmissions → List InvalidContextEntry × InvalidContextSubmissions
unfolding entries_of reset
take_snapshot now s =
    let start_time = Option.get_or s.start_time now in
    let entries = entries_of start_time now s.counts_by_kind_sample in
    (
      if ltb 0 s.count_beyond_sample_limit
          then entries
            ++ record {
              start_time = start_time;
              end_time = now;
              count = s.count_beyond_sample_limit;
              kind_sample = none;
            }
              ∷ []
          else entries,
      reset s,
    )

-- The submissions that a list of entries stands for.
abbrev pub submitted : List InvalidContextEntry → ℕ
submitted [] = 0
submitted (entry ∷ entries) = entry.count + submitted entries

-- The state after the samples `history` were recorded: at most `kind_sample_limit` of them are
-- counted by name, each exactly as often as it was recorded, and all others together.
pub record Tracks (s : InvalidContextSubmissions) (history : List Text) : Type 0 where
  pub bounded : length s.counts_by_kind_sample ≤ kind_sample_limit
  pub distinct : Distinct s.counts_by_kind_sample
  pub all_counted : total s.counts_by_kind_sample + s.count_beyond_sample_limit ≡ length history
  pub by_name :
      (k : Text)
      → Dict.has k s.counts_by_kind_sample ≡ true
      → Option.get_or (Dict.get k s.counts_by_kind_sample) 0 ≡ occurrences k history
  pub unseen :
      (k : Text)
      → Dict.has k s.counts_by_kind_sample ≡ false
      → length s.counts_by_kind_sample < kind_sample_limit
      → occurrences k history ≡ 0

module _ (now : ℕ) (sample : Text) (s : InvalidContextSubmissions) (history : List Text)
    (t : Tracks s history) where
  abbrev counts : Dict Text ℕ
  counts = s.counts_by_kind_sample

  -- A sample that is counted by name, known or with room for it.
  counted-Tracks :
      (Dict.has sample counts ≡ true) ⊎ (suc (length counts) ≤ kind_sample_limit)
      → Tracks
          (record s {
            counts_by_kind_sample = increment sample counts;
            start_time = some (Option.get_or s.start_time now);
          })
          (history ++ sample ∷ [])
  counted-Tracks h = record {
    bounded = ground (arith, length-increment sample counts);
    distinct = increment-Distinct sample counts t.distinct;
    all_counted =
        omega (
          arith,
          t.all_counted,
          total-increment sample counts,
          length-append history (sample ∷ []),
        );
    by_name = λ k p. ground (
      arith,
      t.by_name k,
      t.unseen k,
      t.unseen sample,
      get-increment sample k counts,
      has-increment sample k counts,
      occurrences-snoc k sample history,
      get-eq-none k counts,
      text_eq.same_iff sample k,
      Bool-cases (Dict.has sample counts),
    );
    unseen = λ k p room. ground (
      arith,
      t.unseen k,
      has-increment sample k counts,
      length-increment sample counts,
      occurrences-snoc k sample history,
      text_eq.same_iff sample k,
    );
  }

  beyond-Tracks :
      Dict.has sample counts ≡ false
      → ltb (length counts) kind_sample_limit ≡ false
      → Tracks
          (record s {
            count_beyond_sample_limit = s.count_beyond_sample_limit + 1;
            start_time = some (Option.get_or s.start_time now);
          })
          (history ++ sample ∷ [])
  beyond-Tracks fresh full = record {
    bounded = t.bounded;
    distinct = t.distinct;
    all_counted = omega (arith, t.all_counted, length-append history (sample ∷ []));
    by_name = λ k p.
        ground (arith, t.by_name k p, occurrences-snoc k sample history, text_eq.same_iff sample k);
    unseen = λ k p room. absurd (ground arith);
  }

  -- Recording a sample keeps the counts exact: at most 20 samples are counted by name, each as
  -- often as it was recorded, and every other submission in the one common count.
  pub record_kind-Tracks : Tracks (record_kind now sample s).1 (history ++ sample ∷ [])
  unfolding record_kind
  record_kind-Tracks = elim (Bool-cases (Dict.has sample counts)) [
    | inl known ↦ rw known (counted-Tracks (inl known))
    | inr fresh ↦ elim (Bool-cases (ltb (length counts) kind_sample_limit)) [
      | inl room ↦
          rw (fresh, room, increment_new sample counts fresh) (counted-Tracks (inr (ground arith)))
      | inr full ↦ rw (fresh, full) (beyond-Tracks fresh full)
    ]
  ]

submitted-append :
    (xs ys : List InvalidContextEntry) → submitted (xs ++ ys) ≡ submitted xs + submitted ys
submitted-append [] ys = omega arith
submitted-append (x ∷ xs) ys = omega (arith, submitted-append xs ys)

entries_of_lem :
    (start_time end_time : ℕ) (d : Dict Text ℕ)
    → (submitted (entries_of start_time end_time d) ≡ total d)
      × (length (entries_of start_time end_time d) ≡ length d)
unfolding entries_of
entries_of_lem start_time end_time [] = (refl, refl)
entries_of_lem start_time end_time ((k, n) ∷ d) =
    let (sums, sizes) = entries_of_lem start_time end_time d in (omega arith, omega arith)

pub new-Tracks : Tracks new []
unfolding new occurrences Dict.get
new-Tracks = record {
  bounded = omega arith;
  distinct = tt;
  all_counted = refl;
  by_name = λ k p. refl;
  unseen = λ k p room. refl;
}

-- The entries of a snapshot stand for every submission since the last one, and there are at most
-- 21 of them; then the count starts over.
pub take_entries-Tracks :
    (now : ℕ) (s : InvalidContextSubmissions) (history : List Text)
    → Tracks s history
    → (submitted (take_snapshot now s).0 ≡ length history)
      × (length (take_snapshot now s).0 ≤ 21)
      × Tracks (take_snapshot now s).1 []
unfolding take_snapshot occurrences Dict.get
take_entries-Tracks now s history t =
    let start = Option.get_or s.start_time now in
    let entries = entries_of start now s.counts_by_kind_sample in
    let beyond : InvalidContextEntry = record {
      start_time = start;
      end_time = now;
      count = s.count_beyond_sample_limit;
      kind_sample = none;
    } in
    (
      ground (
        arith,
        (entries_of_lem start now s.counts_by_kind_sample).0,
        submitted-append entries (beyond ∷ []),
        t.all_counted,
      ),
      ground (
        arith,
        (entries_of_lem start now s.counts_by_kind_sample).1,
        length-append entries (beyond ∷ []),
        t.bounded,
      ),
      record {
        bounded = omega arith;
        distinct = tt;
        all_counted = refl;
        by_name = λ k p. refl;
        unseen = λ k p room. refl;
      },
    )
