-- ===== src/Merkle/BitLen.antt =====
-- bitLen, which merkle/compact_merkle_tree.go and storage/types.go both have.
use trillian.Prelude.{
  ℕ, zero, suc, ◌-◌, ◌/◌, ◌^◌, ◌<◌, ◌≤◌, ◌≡◌, refl, ltb, if◌then◌else◌, arith, Bool-cases, inl, inr,
  true, ap, dec_lt,
}
use trillian.Prelude.Bits.{two-pow-suc}

-- The rounds of `for x > 0 { r++; x >>= 1 }`; a number has at most as many bits as its value.
pub bit_len_loop : ℕ → ℕ → ℕ
bit_len_loop zero x = 0
bit_len_loop (suc f) x = let rest = bit_len_loop f (x / 2) in if ltb 0 x then suc rest else 0

unfoldable pub bit_len : ℕ → ℕ
unfolding bit_len_loop
bit_len x = bit_len_loop x x

bit_len_loop-fuel : (f g x : ℕ) → x ≤ f → x ≤ g → bit_len_loop f x ≡ bit_len_loop g x
unfolding bit_len_loop
bit_len_loop-fuel zero zero x p q = refl
bit_len_loop-fuel zero (suc g) x p q = ground arith
bit_len_loop-fuel (suc f) zero x p q = ground arith
bit_len_loop-fuel (suc f) (suc g) x p q = elim (Bool-cases (ltb 0 x)) [
  | inl more ↦ rw more (ap suc (bit_len_loop-fuel f g (x / 2) (ground arith) (ground arith)))
  | inr done ↦ rw done
]

pub bit_len_zero : bit_len 0 ≡ 0
unfolding bit_len
bit_len_zero = refl

-- One bit more than the half has.
pub bit_len-half : (x : ℕ) → 0 < x → bit_len x ≡ suc (bit_len (x / 2))
unfolding bit_len
bit_len-half zero h = absurd (omega arith)
bit_len-half (suc x) h =
    let positive : ltb 0 (suc x) ≡ true = ground arith in
    rw positive (ap suc (bit_len_loop-fuel x (suc x / 2) (suc x / 2) (omega arith) (omega arith)))

bit_len_bounds_fuel : (f x : ℕ) → 0 < x → x ≤ f → (2 ^ (bit_len x - 1) ≤ x) × (x < 2 ^ bit_len x)
bit_len_bounds_fuel zero x h p = absurd (omega arith)
bit_len_bounds_fuel (suc f) x h p = elim (dec_lt 1 x) [
  | no few ↦ let one : x ≡ 1 = omega arith in rw (bit_len-half x h, one, bit_len_zero) (omega arith)
  | yes several ↦
      let half = bit_len_bounds_fuel f (x / 2) (omega arith) (omega arith) in
      let k = bit_len (x / 2 / 2) in
      let e = bit_len-half (x / 2) (omega arith) in
      let below : 2 ^ (suc k - 1) ≡ 2 ^ k = ap (λ (n : ℕ). 2 ^ n) (omega arith) in
      let below' : 2 ^ (suc (suc k) - 1) ≡ 2 ^ suc k = ap (λ (n : ℕ). 2 ^ n) (omega arith) in
      let half' = rw (e, below) at half in
      rw (bit_len-half x h, e, below')
        (omega (arith, half'.0, two-pow-suc k), omega (arith, half'.1, two-pow-suc (suc k)))
]

-- bitLen counts the binary digits: a positive number lies between two powers of two.
pub bit_len_bounds : (x : ℕ) → 0 < x → (2 ^ (bit_len x - 1) ≤ x) × (x < 2 ^ bit_len x)
bit_len_bounds x h = bit_len_bounds_fuel x x h (omega arith)
