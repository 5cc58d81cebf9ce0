-- ===== src/Evaluation/Percent/Shares.antt =====
-- A bucket of a whole percentage has exactly its share of the hash values.
use python_server_sdk.Base.{
  ◌≡◌, ap, sym, ◌∙◌, true, false, none, some, List, [], ◌∷◌, ◌++◌, ℕ, ◌+◌, ◌*◌, ◌≤◌, ◌<◌, ltb,
  arith,
}
use mathlib.Core.List.{append-nil}
use python_server_sdk.Base.Python.{Python}
use python_server_sdk.Evaluation.Types.{Percentage}
use python_server_sdk.Evaluation.Percent.{find_bucket}

-- What IEEE 754 gives for the percentages from 0 to 100 that are whole: their sums are exact, and
-- so is their order against a tenth, which is rounded correctly.
pub record IsExact (py : Python) : Type 0 where
  pub add_whole :
      (a b : ℕ) → a + b ≤ 100 → py.float_add (py.whole a) (py.whole b) ≡ py.whole (a + b)
  pub tenths_lt :
      (h n : ℕ) → h < 1000 → n ≤ 100 → py.float_lt (py.tenths h) (py.whole n) ≡ ltb h (n * 10)

abbrev pub sum : List ℕ → ℕ
sum [] = 0
sum (n ∷ ns) = n + sum ns

module _ (py : Python) (exact : IsExact py) where
  open py use {Float}

  -- The buckets have these whole percentages.
  abbrev pub HasShares : List (Percentage Float) → List ℕ → Type 0
  HasShares [] [] = Unit
  HasShares (p ∷ ps) (n ∷ ns) = (p.percentage ≡ py.whole n) × HasShares ps ns
  HasShares _ _ = ⊥

  -- The test of the loop, and the total after it.
  bucket_test :
      (h total n : ℕ) (p : Percentage Float)
      → h < 1000
      → total + n ≤ 100
      → p.percentage ≡ py.whole n
      → (py.float_lt (py.tenths h) (py.float_add p.percentage (py.whole total))
          ≡ ltb h ((n + total) * 10))
        × (py.float_add (py.whole total) p.percentage ≡ py.whole (total + n))
  bucket_test h total n p lt le e = (
    rw (e, exact.add_whole n total (omega arith)) (exact.tenths_lt h (n + total) lt (omega arith)),
    rw e (exact.add_whole total n le),
  )

  -- `find_bucket` behind buckets that end at or below the hash value.
  find_bucket-skip :
      (h total : ℕ) (before after : List (Percentage Float)) (ns : List ℕ)
      → h < 1000
      → HasShares before ns
      → total + sum ns ≤ 100
      → (total + sum ns) * 10 ≤ h
      → find_bucket py (py.tenths h) (py.whole total) (before ++ after)
        ≡ find_bucket py (py.tenths h) (py.whole (total + sum ns)) after
  unfolding find_bucket
  find_bucket-skip h total [] after [] lt s le above =
      ap (λ t. find_bucket py (py.tenths h) (py.whole t) after) (omega arith)
  find_bucket-skip h total (p ∷ before) after (n ∷ ns) lt s le above =
      let (test, next) = bucket_test h total n p lt (omega arith) s.0 in
      let past : ltb h ((n + total) * 10) ≡ false = ground arith in
      rw (test, past, next)
        (find_bucket-skip h (total + n) before after ns lt s.1 (omega arith) (omega arith)
          ∙ ap (λ t. find_bucket py (py.tenths h) (py.whole t) after) (omega arith))
  find_bucket-skip h total [] after (n ∷ ns) lt s le above = absurd s
  find_bucket-skip h total (p ∷ before) after [] lt s le above = absurd s

  skip_first :
      (h : ℕ) (before after : List (Percentage Float)) (ns : List ℕ)
      → h < 1000
      → HasShares before ns
      → sum ns ≤ 100
      → sum ns * 10 ≤ h
      → find_bucket py (py.tenths h) (py.whole 0) (before ++ after)
        ≡ find_bucket py (py.tenths h) (py.whole (sum ns)) after
  skip_first h before after ns lt s le above =
      find_bucket-skip h 0 before after ns lt s (omega arith) (omega arith)
      ∙ ap (λ t. find_bucket py (py.tenths h) (py.whole t) after) (omega arith)

  -- If floats are exact on whole percentages, and the buckets up to one have whole percentages of 100
  -- in total at most, then that bucket is chosen for every hash value from ten times the percentages
  -- before it, included, to ten times those with its own, excluded.
  pub find_bucket_share :
      (h n : ℕ) (before after : List (Percentage Float)) (bucket : Percentage Float) (ns : List ℕ)
      → h < 1000
      → HasShares before ns
      → bucket.percentage ≡ py.whole n
      → sum ns + n ≤ 100
      → sum ns * 10 ≤ h
      → h < (sum ns + n) * 10
      → find_bucket py (py.tenths h) (py.whole 0) (before ++ bucket ∷ after) ≡ some bucket
  unfolding find_bucket
  find_bucket_share h n before after bucket ns lt s e le above below =
      let (test, next) = bucket_test h (sum ns) n bucket lt le e in
      let within : ltb h ((n + sum ns) * 10) ≡ true = ground arith in
      skip_first h before (bucket ∷ after) ns lt s (omega arith) above ∙ rw (test, within)

  -- If floats are exact on whole percentages, and the buckets have whole percentages of 100 in total
  -- at most, then a hash value at or above ten times their sum is in no bucket.
  pub find_bucket-none :
      (h : ℕ) (buckets : List (Percentage Float)) (ns : List ℕ)
      → h < 1000
      → HasShares buckets ns
      → sum ns ≤ 100
      → sum ns * 10 ≤ h
      → find_bucket py (py.tenths h) (py.whole 0) buckets ≡ none
  unfolding find_bucket
  find_bucket-none h buckets ns lt s le above =
      ap (find_bucket py (py.tenths h) (py.whole 0)) (sym (append-nil buckets))
      ∙ skip_first h buckets [] ns lt s le above
