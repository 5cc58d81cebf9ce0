-- ===== src/Evaluation/Config/Sorting.antt =====
-- `sorted(rules, key=...)` of config_evaluator.py: a stable sort by the order, where a rule without
-- one comes last, and the first match in the sorted list.
use python_server_sdk.Base.{
  ◌≡◌, refl, Bool, true, false, Option, none, some, List, [], ◌∷◌, if◌then◌else◌, Bool-cases, inl,
  inr, arith,
}
use python_server_sdk.Base.Int.{ℤ, pos, negsuc, ≤ℤ?}

-- `<=` on the sort keys: nothing stands for `_LAST`.
unfoldable pub order_le : Option ℤ → Option ℤ → Bool
order_le a none = true
order_le none (some b) = false
order_le (some a) (some b) = ≤ℤ? a b

pub order_le_total : (a b : Option ℤ) → order_le a b ≡ false → order_le b a ≡ true
unfolding order_le
order_le_total none (some b) h = refl
order_le_total (some (pos a)) (some (pos b)) h = ground arith
order_le_total (some (pos a)) (some (negsuc b)) h = refl
order_le_total (some (negsuc a)) (some (pos b)) h = ground arith
order_le_total (some (negsuc a)) (some (negsuc b)) h = ground arith
order_le_total a none h = ground arith

pub order_le_trans :
    (a b c : Option ℤ) → order_le a b ≡ true → order_le b c ≡ true → order_le a c ≡ true
unfolding order_le
order_le_trans a b none h k = refl
order_le_trans a none (some c) h k = ground arith
order_le_trans none (some b) (some c) h k = ground arith
order_le_trans (some (pos a)) (some (pos b)) (some (pos c)) h k = ground arith
order_le_trans (some (negsuc a)) (some (negsuc b)) (some (negsuc c)) h k = ground arith
order_le_trans (some (negsuc a)) (some b) (some (pos c)) h k = refl
order_le_trans (some (pos a)) (some (negsuc b)) (some c) h k = ground arith
order_le_trans (some (pos a)) (some (pos b)) (some (negsuc c)) h k = ground arith
order_le_trans (some (negsuc a)) (some (pos b)) (some (negsuc c)) h k = ground arith

module _ {A : Type 0} (key : A → Option ℤ) where
  -- An element goes in front of those that are not smaller, so that equal keys keep their order.
  unfoldable pub insert : A → List A → List A
  unfolding order_le
  insert a [] = a ∷ []
  insert a (b ∷ rest) = if order_le (key a) (key b) then a ∷ b ∷ rest else b ∷ insert a rest

  unfoldable pub sorted : List A → List A
  unfolding insert
  sorted [] = []
  sorted (a ∷ rest) = insert a (sorted rest)

module _ {A : Type 0} (key : A → Option ℤ) where
  -- No key of the list is smaller.
  abbrev pub IsBelow : Option ℤ → List A → Type 0
  IsBelow k [] = Unit
  IsBelow k (a ∷ rest) = (order_le k (key a) ≡ true) × IsBelow k rest

  abbrev pub IsSorted : List A → Type 0
  IsSorted [] = Unit
  IsSorted (a ∷ rest) = IsBelow (key a) rest × IsSorted rest

  pub IsBelow-trans :
      (j k : Option ℤ) (l : List A) → order_le j k ≡ true → IsBelow k l → IsBelow j l
  IsBelow-trans j k [] h b = tt
  IsBelow-trans j k (a ∷ l) h b = (order_le_trans j k (key a) h b.0, IsBelow-trans j k l h b.1)

  IsBelow-insert :
      (k : Option ℤ) (a : A) (l : List A)
      → order_le k (key a) ≡ true
      → IsBelow k l
      → IsBelow k (insert key a l)
  unfolding insert
  IsBelow-insert k a [] h b = (h, tt)
  IsBelow-insert k a (c ∷ l) h b = elim (Bool-cases (order_le (key a) (key c))) [
    | inl le ↦ rw le (h, b)
    | inr gt ↦ rw gt (b.0, IsBelow-insert k a l h b.1)
  ]

  insert-IsSorted : (a : A) (l : List A) → IsSorted l → IsSorted (insert key a l)
  unfolding insert
  insert-IsSorted a [] s = (tt, tt)
  insert-IsSorted a (c ∷ l) s = elim (Bool-cases (order_le (key a) (key c))) [
    | inl le ↦ rw le ((le, IsBelow-trans (key a) (key c) l le s.0), s)
    | inr gt ↦ rw gt (
      IsBelow-insert (key c) a l (order_le_total (key a) (key c) gt) s.0,
      insert-IsSorted a l s.1,
    )
  ]

  pub sorted-IsSorted : (l : List A) → IsSorted (sorted key l)
  unfolding sorted
  sorted-IsSorted [] = tt
  sorted-IsSorted (a ∷ l) = insert-IsSorted a (sorted key l) (sorted-IsSorted l)
