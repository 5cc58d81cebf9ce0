-- ===== src/Telemetry/ValueId.antt =====
-- configdirector-server-sdk/src/configdirector/_telemetry/value_id.py, and the reading of what it writes.
-- SHA-256 is an argument.
use Prim.Native.Nat.pow
use native.Mathlib.Nat.{mul-le-mul_right, pow-le-pow_right}
use python_server_sdk.Base.{
  ◌≡◌, refl, ap, ◌∙◌, ℕ, zero, suc, ◌+◌, ◌-◌, ◌*◌, ◌/◌, ◌%◌, ◌≤◌, ◌<◌, ◌^◌, Bool, true, List, [],
  ◌∷◌, ◌++◌, Text, length, take, eqb, ltb, all, length-append, if◌then◌else◌, arith, Bool-cases,
  inl, inr,
}
use python_server_sdk.Base.Python.{Python}

-- The character of `_BASE62` at a place, from the digits over the upper to the lower case.
unfoldable pub digit : ℕ → ℕ
digit d = if ltb d 10 then 48 + d else if ltb d 36 then 55 + d else 61 + d

-- The loop of `_to_base62`, with the number itself as fuel, onto the digits so far.
unfoldable pub digits_onto : ℕ → ℕ → Text → Text
unfolding digit
digits_onto zero n digits = digits
digits_onto (suc fuel) n digits =
    let more = digits_onto fuel (n / 62) (digit (n % 62) ∷ digits) in
    if eqb n 0 then digits else more

-- `number` copies of `0`
unfoldable pub zeros : ℕ → Text
zeros zero = []
zeros (suc number) = b'0' ∷ zeros number

-- `_to_base62`
unfoldable pub to_base62 : ℕ → Text
unfolding digits_onto zeros
to_base62 n = let digits = digits_onto n n [] in zeros (22 - length digits) ++ digits

-- `int.from_bytes(digest, "big")`, from the number of the bytes before
unfoldable pub from_bytes : ℕ → List ℕ → ℕ
from_bytes n [] = n
from_bytes n (b ∷ bytes) = from_bytes (n * 256 + b) bytes

-- `generate_value_id`
unfoldable pub generate_value_id : Python → (List ℕ → List ℕ) → Text → Text
unfolding to_base62 from_bytes
generate_value_id py sha256 value = to_base62 (from_bytes 0 (take 16 (sha256 (py.utf8 value))))

-- The place of a character in `_BASE62`.
place : ℕ → ℕ
place c = if ltb c 58 then c - 48 else if ltb c 91 then c - 55 else c - 61

place-digit : (d : ℕ) → d < 62 → place (digit d) ≡ d
unfolding place digit
place-digit d h = ground (arith, h)

-- The number that a text of `_BASE62` writes, behind one that was read.
pub number_of : ℕ → Text → ℕ
unfolding place
number_of n [] = n
number_of n (c ∷ text) = number_of (n * 62 + place c) text

number_of-digits_onto :
    (fuel n : ℕ) (digits : Text)
    → n ≤ fuel
    → number_of 0 (digits_onto fuel n digits) ≡ number_of n digits
unfolding digits_onto number_of
number_of-digits_onto zero n digits h = ap (λ m. number_of m digits) (omega (arith, h))
number_of-digits_onto (suc fuel) n digits h = elim (Bool-cases (eqb n 0)) [
  | inl none_left ↦ rw none_left (ap (λ m. number_of m digits) (ground (arith, none_left)))
  | inr more ↦ rw more (
      number_of-digits_onto fuel (n / 62) (digit (n % 62) ∷ digits) (ground (arith, more, h))
      ∙ ap (λ m. number_of m digits) (omega (arith, place-digit (n % 62) (omega arith))))
]

number_of-zeros : (k : ℕ) (text : Text) → number_of 0 (zeros k ++ text) ≡ number_of 0 text
unfolding zeros number_of place
number_of-zeros zero text = refl
number_of-zeros (suc k) text = number_of-zeros k text

length-zeros : (k : ℕ) → length (zeros k) ≡ k
unfolding zeros
length-zeros zero = refl
length-zeros (suc k) = ap suc (length-zeros k)

-- A number below the power of a place needs no more digits than that.
length-digits_onto :
    (fuel n k : ℕ) (digits : Text)
    → n < 62 ^ k
    → length (digits_onto fuel n digits) ≤ k + length digits
unfolding digits_onto
length-digits_onto zero n k digits h = omega arith
length-digits_onto (suc fuel) n zero digits h = ground (arith, h)
length-digits_onto (suc fuel) n (suc k) digits h = elim (Bool-cases (eqb n 0)) [
  | inl none_left ↦ rw none_left (omega arith)
  | inr more ↦
      let below : n / 62 < 62 ^ k = omega (arith, h, pow.suc 62 k) in
      rw more (omega (arith, length-digits_onto fuel (n / 62) k (digit (n % 62) ∷ digits) below))
]

number_of-to_base62 :
    (n : ℕ) → n < 2 ^ 128 → (number_of 0 (to_base62 n) ≡ n) × (length (to_base62 n) ≡ 22)
unfolding to_base62 number_of
number_of-to_base62 n h =
    let digits = digits_onto n n [] in
    let short : length digits ≤ 22 + 0 = length-digits_onto n n 22 [] (omega (arith, h)) in
    (
      number_of-zeros (22 - length digits) digits ∙ number_of-digits_onto n n [] (omega arith),
      omega (
        arith,
        short,
        length-append (zeros (22 - length digits)) digits,
        length-zeros (22 - length digits),
      ),
    )

from_bytes_below :
    (n : ℕ) (bytes : List ℕ)
    → all (λ b. ltb b 256) bytes ≡ true
    → from_bytes n bytes < (n + 1) * 256 ^ length bytes
unfolding from_bytes
from_bytes_below n [] h = omega arith
from_bytes_below n (b ∷ bytes) h =
    let small : b < 256 = ground (arith, h) in
    let rest = from_bytes_below (n * 256 + b) bytes (ground (arith, h)) in
    let more : (n * 256 + b + 1) * 256 ^ length bytes ≤ ((n + 1) * 256) * 256 ^ length bytes =
      mul-le-mul_right (256 ^ length bytes) (omega (arith, small)) in
    let power : (n + 1) * 256 ^ suc (length bytes) ≡ ((n + 1) * 256) * 256 ^ length bytes =
      ap (λ x. (n + 1) * x) (pow.suc 256 (length bytes)) ∙ omega arith in
    let total : from_bytes (n * 256 + b) bytes < (n + 1) * 256 ^ suc (length bytes) =
      omega (arith, rest, more, power) in
    total

length-take : (n : ℕ) (l : List ℕ) → length (take n l) ≤ n
length-take zero l = omega arith
length-take (suc n) [] = omega arith
length-take (suc n) (a ∷ l) = omega (arith, length-take n l)

all-take : (p : ℕ → Bool) (n : ℕ) (l : List ℕ) → all p l ≡ true → all p (take n l) ≡ true
all-take p zero l h = refl
all-take p (suc n) [] h = refl
all-take p (suc n) (a ∷ l) h = ground (arith, h, all-take p n l)

-- With a hash that gives bytes, the identifier of a value has exactly 22 characters, and as a number
-- of base 62 it is the number that the first 16 bytes of the hash write: two values have the same
-- identifier only if those bytes write the same number.
pub number_of-generate_value_id :
    (py : Python) (sha256 : List ℕ → List ℕ) (value : Text)
    → ((bytes : List ℕ) → all (λ b. ltb b 256) (sha256 bytes) ≡ true)
    → (number_of 0 (generate_value_id py sha256 value)
        ≡ from_bytes 0 (take 16 (sha256 (py.utf8 value))))
      × (length (generate_value_id py sha256 value) ≡ 22)
unfolding generate_value_id
number_of-generate_value_id py sha256 value h =
    let digest = sha256 (py.utf8 value) in
    let bytes = take 16 digest in
    let below =
      from_bytes_below 0 bytes (all-take (λ b. ltb b 256) 16 digest (h (py.utf8 value))) in
    let most : 256 ^ length bytes ≤ 256 ^ 16 =
      pow-le-pow_right {n = 256} (omega arith) (length-take 16 digest) in
    number_of-to_base62 (from_bytes 0 bytes) (omega (arith, below, most))
