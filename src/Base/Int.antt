-- ===== src/Base/Int.antt =====
-- Python's `int`, and the order on it.
use Prim.Native.Nat.{ℕ, zero, suc, ◌+◌, ◌/◌, ◌%◌, ◌<◌}
use mathlib.Core.Path.{◌≡◌, refl}
use mathlib.Core.Logic.{inl, inr}
use native.Mathlib.Omega.{arith}
use python_server_sdk.Base.Lists.{is_empty, all}
use mathlib.Core.Bool.{Bool, true, false}
use mathlib.Core.List.{List, [], ◌∷◌}
use python_server_sdk.Base.Tests.{leb, ltb, Bool-cases, if◌then◌else◌}

-- `negsuc n` is -(n + 1).
pub data ℤ : Type 0 where
  pos : ℕ → ℤ
  negsuc : ℕ → ℤ

abbrev pub ≤ℤ? : ℤ → ℤ → Bool
≤ℤ? (pos a) (pos b) = leb a b
≤ℤ? (pos a) (negsuc b) = false
≤ℤ? (negsuc a) (pos b) = true
≤ℤ? (negsuc a) (negsuc b) = leb b a

-- The decimal digits of a number in front of a text; the number itself is fuel enough.
decimal_onto : ℕ → ℕ → List ℕ → List ℕ
decimal_onto zero n text = text
decimal_onto (suc fuel) n text =
    let more = decimal_onto fuel (n / 10) ((b'0' + n % 10) ∷ text) in
    if ltb n 10 then (b'0' + n) ∷ text else more

-- `str(n)`
unfoldable pub str_ℕ : ℕ → List ℕ
unfolding decimal_onto
str_ℕ n = decimal_onto (suc n) n []

unfoldable pub str_ℤ : ℤ → List ℕ
unfolding str_ℕ
str_ℤ (pos n) = str_ℕ n
str_ℤ (negsuc n) = b'-' ∷ str_ℕ (suc n)

filled-decimal_onto :
    (fuel n : ℕ) (text : List ℕ)
    → is_empty text ≡ false
    → is_empty (decimal_onto fuel n text) ≡ false
unfolding decimal_onto
filled-decimal_onto zero n text h = h
filled-decimal_onto (suc fuel) n text h =
    ground (arith, filled-decimal_onto fuel (n / 10) ((b'0' + n % 10) ∷ text) refl)

-- `str` writes at least one character.
pub filled-str_ℤ : (n : ℤ) → is_empty (str_ℤ n) ≡ false
unfolding str_ℤ decimal_onto
filled-str_ℤ (pos n) = ground (arith, filled-decimal_onto n (n / 10) ((b'0' + n % 10) ∷ []) refl)
filled-str_ℤ (negsuc n) = refl

all-decimal_onto :
    (p : ℕ → Bool) (fuel n : ℕ) (text : List ℕ)
    → ((d : ℕ) → d < 10 → p (b'0' + d) ≡ true)
    → all p text ≡ true
    → all p (decimal_onto fuel n text) ≡ true
unfolding decimal_onto
all-decimal_onto p zero n text digits h = h
all-decimal_onto p (suc fuel) n text digits h = elim (Bool-cases (ltb n 10)) [
  | inl small ↦ rw small (ground (arith, digits n (ground (arith, small)), h))
  | inr large ↦ rw large (
      all-decimal_onto p fuel (n / 10) ((b'0' + n % 10) ∷ text) digits
        (ground (arith, digits (n % 10) (omega arith), h)))
]

-- What holds of the digits and of the sign holds of all that `str` writes.
pub all-str_ℤ :
    (p : ℕ → Bool) (n : ℤ)
    → ((d : ℕ) → d < 10 → p (b'0' + d) ≡ true)
    → p b'-' ≡ true
    → all p (str_ℤ n) ≡ true
unfolding str_ℤ str_ℕ
all-str_ℤ p (pos n) digits sign = all-decimal_onto p (suc n) n [] digits refl
all-str_ℤ p (negsuc n) digits sign =
    ground (arith, sign, all-decimal_onto p (suc (suc n)) (suc n) [] digits refl)
