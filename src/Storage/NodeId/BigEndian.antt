-- ===== src/Storage/NodeId/BigEndian.antt =====
-- The bytes of a big integer, which storage/types.go has for a path: their parts, and the bits of
-- one byte.
use Prim.Native.Nat.{bit_and, bit_or}
use mathlib.Core.Path.{ap₂}
use native.Mathlib.Nat.{
  le-div_iff_mul-le, div-lt_iff_lt-mul, mul-le-mul_right, suc-mul, zero-mul, pow-suc, suc-add,
  zero-add, div-div-eq-div-mul, mul-div_cancel,
}
use trillian.Prelude.{
  ℕ, zero, suc, ◌+◌, ◌-◌, ◌*◌, ◌/◌, ◌%◌, ◌^◌, ◌<◌, ◌≤◌, ◌≡◌, refl, sym, ap, ◌∙◌, [], ◌∷◌, ◌++◌,
  Bytes, Bool, true, false, length, replicate, ◌==◌, if◌then◌else◌, arith, ==_iff, dec_lt,
  Bool-cases, inl, inr, subst,
}
use trillian.Prelude.Bits.{two-pow_pos}
use trillian.Storage.NodeId.Coords.{two-pow_bytes}
use trillian.Storage.NodeId.Paths.{be_bytes, set_bytes, left_mask}

pub length-be_bytes : (k x : ℕ) → length (be_bytes k x) ≡ k
length-be_bytes zero x = refl
length-be_bytes (suc k) x = ap suc (length-be_bytes k x)

-- What all numbers below a bound are tested for.
abbrev all_below : ℕ → (ℕ → Bool) → Bool
all_below zero f = true
all_below (suc n) f = if f n then all_below n f else false

all_below-test : (n : ℕ) (f : ℕ → Bool) → all_below n f ≡ true → (i : ℕ) → i < n → f i ≡ true
all_below-test zero f h i p = absurd (omega arith)
all_below-test (suc n) f h i p = elim (Bool-cases (f n)) [
  | inl last ↦ elim (dec_lt i n) [
    | yes before ↦ all_below-test n f (rw last at h) i before
    | no past ↦ subst (λ j. f j ≡ true) (omega arith) last
  ]
  | inr failed ↦ absurd (let wrong = rw failed at h in cc)
]

abbrev mask_test : ℕ → ℕ → Bool
mask_test r b = bit_and b (left_mask ((8 - r) % 8)) == b / 2 ^ r * 2 ^ r

mask_tests : all_below 8 (λ r. all_below 256 (mask_test r)) ≡ true
mask_tests = refl

abbrev flip_test : ℕ → ℕ → Bool
flip_test r b =
    if b / 2 ^ r % 2 == 0
    then bit_or b (2 ^ r) == b + 2 ^ r
    else bit_and b (255 - 2 ^ r) + 2 ^ r == b

flip_tests : all_below 8 (λ r. all_below 256 (flip_test r)) ≡ true
flip_tests = refl

-- A byte under a mask for its left bits.
pub masked_byte :
    (r b : ℕ) → r < 8 → b < 256 → bit_and b (left_mask ((8 - r) % 8)) ≡ b / 2 ^ r * 2 ^ r
masked_byte r b short small =
    let row = all_below-test 8 (λ q. all_below 256 (mask_test q)) mask_tests r short in
    (==_iff (bit_and b (left_mask ((8 - r) % 8))) (b / 2 ^ r * 2 ^ r)).0
      (all_below-test 256 (mask_test r) row b small)

-- A byte with one bit flipped.
pub set_bit_of_byte : (r b : ℕ) → r < 8 → b < 256 → b / 2 ^ r % 2 ≡ 0 → bit_or b (2 ^ r) ≡ b + 2 ^ r
set_bit_of_byte r b short small zero_bit =
    let row = all_below-test 8 (λ q. all_below 256 (flip_test q)) flip_tests r short in
    let off : b / 2 ^ r % 2 == 0 ≡ true = (==_iff (b / 2 ^ r % 2) 0).1 zero_bit in
    (==_iff (bit_or b (2 ^ r)) (b + 2 ^ r)).0
      (rw off at (all_below-test 256 (flip_test r) row b small))

pub clear_bit_of_byte :
    (r b : ℕ) → r < 8 → b < 256 → b / 2 ^ r % 2 ≡ 1 → bit_and b (255 - 2 ^ r) + 2 ^ r ≡ b
clear_bit_of_byte r b short small one_bit =
    let row = all_below-test 8 (λ q. all_below 256 (flip_test q)) flip_tests r short in
    let on : b / 2 ^ r % 2 == 0 ≡ false = rw one_bit refl in
    (==_iff (bit_and b (255 - 2 ^ r) + 2 ^ r) b).0
      (rw on at (all_below-test 256 (flip_test r) row b small))

times_256 : (c p q : ℕ) → q ≡ p * 256 → c * q ≡ c * 256 * p
times_256 c p q e = rw e (grind arith)

power_256 : (i j : ℕ) → 256 ^ (i + j) ≡ 256 ^ j * 256 ^ i
power_256 zero j = omega (arith, ap (λ (n : ℕ). 256 ^ n) (zero-add j))
power_256 (suc i) j =
    let left = ap (λ (n : ℕ). 256 ^ n) (suc-add i j) in
    let moved = times_256 (256 ^ j) (256 ^ i) (256 ^ suc i) (pow-suc 256 i) in
    let scaled : 256 ^ j * 256 * 256 ^ i ≡ 256 ^ j * 256 ^ i * 256 = grind arith in
    omega (arith, pow-suc 256 (i + j), power_256 i j, left, moved, scaled)

-- The bytes of a number are those of its high part and those of its low part.
pub be_bytes-append : (i j x : ℕ) → be_bytes (i + j) x ≡ be_bytes i (x / 256 ^ j) ++ be_bytes j x
be_bytes-append zero j x = ap (λ (n : ℕ). be_bytes n x) (zero-add j)
be_bytes-append (suc i) j x =
    let head : x / 256 ^ (i + j) ≡ x / 256 ^ j / 256 ^ i =
      ap (λ (m : ℕ). x / m) (power_256 i j) ∙ sym (div-div-eq-div-mul x (256 ^ j) (256 ^ i)) in
    rw (suc-add i j, head)
      (ap (λ (bs : Bytes). (x / 256 ^ j / 256 ^ i % 256) ∷ bs) (be_bytes-append i j x))

pub be_bytes-zeros : (j c : ℕ) → be_bytes j (c * 256 ^ j) ≡ replicate j 0
be_bytes-zeros zero c = refl
be_bytes-zeros (suc j) c =
    let shifted : c * 256 ^ suc j ≡ c * 256 * 256 ^ j =
      times_256 c (256 ^ j) (256 ^ suc j) (pow-suc 256 j) in
    let positive : 0 < 256 ^ j = omega (arith, two-pow_bytes j, two-pow_pos (j * 8)) in
    let head : c * 256 ^ suc j / 256 ^ j % 256 ≡ 0 =
      ap (λ (n : ℕ). n / 256 ^ j % 256) shifted
      ∙ ap (λ (n : ℕ). n % 256) (mul-div_cancel (c * 256) positive)
      ∙ omega arith in
    rw head (
      ap (λ (bs : Bytes). 0 ∷ bs)
        (ap (λ (n : ℕ). be_bytes j n) shifted ∙ be_bytes-zeros j (c * 256)))

-- The numbers of a slice are bytes.
abbrev pub AreBytes : Bytes → Type 0
AreBytes [] = Unit {0}
AreBytes (b ∷ bs) = (b < 256) × AreBytes bs

shift_256 : (v b p q : ℕ) → q ≡ p * 256 → (v * 256 + b) * p ≡ v * q + b * p
shift_256 v b p q e = rw e (grind arith)

pub set_bytes-zeros : (k v : ℕ) → set_bytes v (replicate k 0) ≡ v * 256 ^ k
set_bytes-zeros zero v = omega arith
set_bytes-zeros (suc k) v =
    let moved = shift_256 v 0 (256 ^ k) (256 ^ suc k) (pow-suc 256 k) in
    set_bytes-zeros k (v * 256 + 0) ∙ moved ∙ (let none_left = zero-mul (256 ^ k) in omega arith)

pub set_bytes-append :
    (v : ℕ) (xs ys : Bytes) → set_bytes v (xs ++ ys) ≡ set_bytes (set_bytes v xs) ys
set_bytes-append v [] ys = refl
set_bytes-append v (x ∷ xs) ys = set_bytes-append (v * 256 + x) xs ys

-- The byte after `v` leaves what is below the next `v`.
byte_below : (v b p q : ℕ) → q ≡ p * 256 → b < 256 → suc (v * 256 + b) * p ≤ suc v * q
byte_below v b p q e small =
    let room : suc b * p ≤ 256 * p = mul-le-mul_right p (omega arith) in
    omega (arith, shift_256 v b p q e, suc-mul (v * 256 + b) p, suc-mul b p, suc-mul v q)

pub set_bytes_bound : (v : ℕ) (bs : Bytes) → AreBytes bs → set_bytes v bs < suc v * 256 ^ length bs
set_bytes_bound v [] h = omega arith
set_bytes_bound v (b ∷ bs) (first, rest) =
    let next = set_bytes_bound (v * 256 + b) bs rest in
    let power = pow-suc 256 (length bs) in
    let room = byte_below v b (256 ^ length bs) (256 ^ suc (length bs)) power first in omega arith

set_bytes_least : (v : ℕ) (bs : Bytes) → v * 256 ^ length bs ≤ set_bytes v bs
set_bytes_least v [] = omega arith
set_bytes_least v (b ∷ bs) =
    let next = set_bytes_least (v * 256 + b) bs in
    let moved = shift_256 v b (256 ^ length bs) (256 ^ suc (length bs)) (pow-suc 256 (length bs)) in
    omega arith

high_part : (v : ℕ) (bs : Bytes) → AreBytes bs → set_bytes v bs / 256 ^ length bs ≡ v
high_part v bs small =
    let n = set_bytes v bs in
    let positive : 0 < 256 ^ length bs =
      omega (arith, two-pow_bytes (length bs), two-pow_pos (length bs * 8)) in
    let low = (le-div_iff_mul-le {x = v} {y = n} positive).1 (set_bytes_least v bs) in
    let high = (div-lt_iff_lt-mul {x = n} {y = suc v} positive).1 (set_bytes_bound v bs small) in
    omega arith

-- A path is the bytes of its number.
pub be_bytes-set_bytes :
    (v : ℕ) (bs : Bytes) → AreBytes bs → be_bytes (length bs) (set_bytes v bs) ≡ bs
be_bytes-set_bytes v [] small = refl
be_bytes-set_bytes v (b ∷ bs) (first, rest) =
    let head : set_bytes (v * 256 + b) bs / 256 ^ length bs % 256 ≡ b =
      ap (λ (n : ℕ). n % 256) (high_part (v * 256 + b) bs rest) ∙ omega arith in
    ap₂ (λ (x : ℕ) (xs : Bytes). x ∷ xs) head (be_bytes-set_bytes (v * 256 + b) bs rest)
