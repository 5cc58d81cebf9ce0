-- ===== src/Evaluation/Rapidhash.antt =====
-- configdirector-server-sdk/src/configdirector/_evaluation/_rapidhash.py, over a list of bytes.
mod Vectors
use Prim.Native.Nat.{bit_xor, bit_or, bit_and}
use python_server_sdk.Base.{
  ◌≡◌, refl, Bool, true, false, Option, none, some, List, [], ◌∷◌, ℕ, zero, suc, ◌+◌, ◌-◌, ◌*◌, ◌/◌,
  ◌%◌, ◌^◌, ◌<◌, ◌≤◌, length, drop, take, leb, ltb, if◌then◌else◌, arith,
}

abbrev pub word : ℕ
word = 2 ^ 64

abbrev secret0 : ℕ
secret0 = 0x2D358DCCAA6C78A5

abbrev secret1 : ℕ
secret1 = 0x8BB84B93962EACC9

abbrev secret2 : ℕ
secret2 = 0x4B33A62ED433D4A3

abbrev secret7 : ℕ
secret7 = 0xAAAAAAAAAAAAAAAA

-- `_mix`
mix : ℕ → ℕ → ℕ
mix a b = let m = a * b in bit_xor (m % word) (m / word)

-- `int.from_bytes(data, "little")`
from_bytes : List ℕ → ℕ
from_bytes [] = 0
from_bytes (b ∷ bytes) = b + 256 * from_bytes bytes

read64 : List ℕ → ℕ → ℕ
unfolding from_bytes
read64 bytes offset = from_bytes (take 8 (drop offset bytes))

read32 : List ℕ → ℕ → ℕ
unfolding from_bytes
read32 bytes offset = from_bytes (take 4 (drop offset bytes))

byte_at : List ℕ → ℕ → ℕ
byte_at [] i = 0
byte_at (b ∷ bytes) zero = b
byte_at (b ∷ bytes) (suc i) = byte_at bytes i

read_small : List ℕ → ℕ → ℕ
unfolding byte_at
read_small bytes n =
    let v = byte_at bytes 0 in
    bit_or (bit_or (byte_at bytes (n - 1)) ((v * 32) % 256 * 2 ^ 40)) (v / 8 * 2 ^ 48)

epilogue : ℕ → ℕ → ℕ → ℕ
epilogue a b i =
    let m0 = a * b in
    let m1 = bit_xor (m0 % word) secret7 * (bit_xor (bit_xor (m0 / word) secret1) i % word) in
    bit_xor (m1 % word) (m1 / word)

-- The seven accumulators of the loop over blocks of 112 bytes.
pub record Lanes : Type 0 where
  pub seed : ℕ
  pub see1 : ℕ
  pub see2 : ℕ
  pub see3 : ℕ
  pub see4 : ℕ
  pub see5 : ℕ
  pub see6 : ℕ

abbrev secret3 : ℕ
secret3 = 0x4D5A2DA51DE1AA47

abbrev secret4 : ℕ
secret4 = 0xA0761D6478BD642F

abbrev secret5 : ℕ
secret5 = 0xE7037ED1A0B428DB

abbrev secret6 : ℕ
secret6 = 0x90ED1765281C388C

block : List ℕ → ℕ → Lanes → Lanes
unfolding mix read64
block bytes p l = record {
  seed = mix (bit_xor (read64 bytes p) secret0) (bit_xor (read64 bytes (p + 8)) l.seed);
  see1 = mix (bit_xor (read64 bytes (p + 16)) secret1) (bit_xor (read64 bytes (p + 24)) l.see1);
  see2 = mix (bit_xor (read64 bytes (p + 32)) secret2) (bit_xor (read64 bytes (p + 40)) l.see2);
  see3 = mix (bit_xor (read64 bytes (p + 48)) secret3) (bit_xor (read64 bytes (p + 56)) l.see3);
  see4 = mix (bit_xor (read64 bytes (p + 64)) secret4) (bit_xor (read64 bytes (p + 72)) l.see4);
  see5 = mix (bit_xor (read64 bytes (p + 80)) secret5) (bit_xor (read64 bytes (p + 88)) l.see5);
  see6 = mix (bit_xor (read64 bytes (p + 96)) secret6) (bit_xor (read64 bytes (p + 104)) l.see6);
}

-- The loop: the position behind the last block, the bytes that are left, and the lanes. A round
-- takes 112 bytes, so that `length bytes` is fuel enough.
blocks : ℕ → List ℕ → ℕ → ℕ → Lanes → ℕ × ℕ × Lanes
unfolding block
blocks zero bytes p i l = (p, i, l)
blocks (suc fuel) bytes p i l =
    let l' = block bytes p l in
    let more = blocks fuel bytes (p + 112) (i - 112) l' in
    if leb (i - 112) 112 then (p + 112, i - 112, l') else more

fold_lanes : Lanes → ℕ
fold_lanes l =
    let seed1 = bit_xor l.seed l.see1 in
    let see2 = bit_xor l.see2 l.see3 in
    let see4 = bit_xor l.see4 l.see5 in
    let seed6 = bit_xor seed1 l.see6 in bit_xor seed6 (bit_xor see2 see4)

-- The chain of tests on the 16 to 112 bytes behind the blocks, the steps that are left as a list
-- of their thresholds, offsets and secrets.
tail_steps : List ℕ → ℕ → ℕ → List (ℕ × ℕ × ℕ) → ℕ → ℕ
unfolding mix read64
tail_steps bytes p i [] seed = seed
tail_steps bytes p i ((threshold, offset, secret) ∷ steps) seed =
    let next =
      mix (bit_xor (read64 bytes (p + offset)) secret)
        (bit_xor (read64 bytes (p + offset + 8)) seed) in
    let rest = tail_steps bytes p i steps next in if ltb threshold i then rest else seed

abbrev steps : List (ℕ × ℕ × ℕ)
steps =
    (16, 0, secret2)
    ∷ (32, 16, secret2)
    ∷ (48, 32, secret1)
    ∷ (64, 48, secret1)
    ∷ (80, 64, secret2)
    ∷ (96, 80, secret1)
    ∷ []

short_hash : List ℕ → ℕ → ℕ
unfolding read64 read32 read_small byte_at epilogue
short_hash bytes seed =
    let n = length bytes in
    let finish = λ (a : ℕ) (b : ℕ) (s : ℕ). epilogue (bit_xor a secret1) (bit_xor b s) n in
    if leb 4 n
    then (let s = bit_xor seed n in
        if leb 8 n
        then finish (read64 bytes 0) (read64 bytes (n - 8)) s
        else finish (read32 bytes 0) (read32 bytes (n - 4)) s)
    else if ltb 0 n
    then finish (read_small bytes n) (byte_at bytes (n / 2)) seed
    else finish 0 0 seed

long_hash : List ℕ → ℕ → ℕ
unfolding read64 blocks fold_lanes tail_steps epilogue
long_hash bytes seed =
    let n = length bytes in
    let lanes : Lanes = record {
      seed = seed;
      see1 = seed;
      see2 = seed;
      see3 = seed;
      see4 = seed;
      see5 = seed;
      see6 = seed;
    } in
    let looped = blocks n bytes 0 n lanes in
    let state : ℕ × ℕ × ℕ =
      if ltb 112 n then (looped.0, looped.1, fold_lanes looped.2) else (0, n, seed) in
    let (p, i, seed0) = state in
    let seed1 = tail_steps bytes p i steps seed0 in
    let a = bit_xor (read64 bytes (p + i - 16)) i in
    let b = read64 bytes (p + i - 8) in epilogue (bit_xor a secret1) (bit_xor b seed1) i

unfoldable pub rapidhash : List ℕ → ℕ → ℕ
unfolding mix short_hash long_hash
rapidhash bytes seed =
    let s = bit_xor seed (mix (bit_xor seed secret2) secret1) in
    if leb (length bytes) 16 then short_hash bytes s else long_hash bytes s
