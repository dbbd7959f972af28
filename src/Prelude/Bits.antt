-- ===== src/Prelude/Bits.antt =====
-- Powers of two, and what `x & (1 << k)` is at a variable `x`: the tactics take a call of `bit_and`
-- for an unknown.
use Prim.Native.Nat.{min, bit_and, digits, bit_and-bitwise}
use native.Mathlib.Nat.{pow-suc, div-div-eq-div-mul, zero-div}
use trillian.Prelude.{ℕ, zero, suc, ◌*◌, ◌/◌, ◌%◌, ◌^◌, ◌≤◌, ◌<◌, ◌≡◌, refl, ap, ◌∙◌, sym, arith}

pub two-pow-suc : (k : ℕ) → 2 ^ suc k ≡ 2 * 2 ^ k
two-pow-suc k = omega (arith, pow-suc 2 k)

pub two-pow_pos : (k : ℕ) → 0 < 2 ^ k
two-pow_pos zero = omega arith
two-pow_pos (suc k) = omega (arith, two-pow-suc k, two-pow_pos k)

-- The digit by digit conjunction that `bit_and` stands for, with a bound on the digits.
abbrev masked : ℕ → ℕ → ℕ → ℕ
masked bound x mask = digits (λ rest. zero) min bound x mask

no_mask : (bound x : ℕ) → x ≤ bound → masked bound x 0 ≡ 0
no_mask zero zero within = refl
no_mask (suc bound) zero within = refl
no_mask zero (suc x) within = absurd (omega arith)
no_mask (suc bound) (suc x) within = omega (arith, no_mask bound (suc x / 2) (omega arith))

one_bit_mask : (k bound x : ℕ) → x ≤ bound → masked bound x (2 ^ k) ≡ 2 ^ k * (x / 2 ^ k % 2)
one_bit_mask k zero zero within =
    omega (arith, zero-div (2 ^ k), ap (λ (q : ℕ). 2 ^ k * (q % 2)) (zero-div (2 ^ k)))
one_bit_mask k (suc bound) zero within =
    omega (arith, zero-div (2 ^ k), ap (λ (q : ℕ). 2 ^ k * (q % 2)) (zero-div (2 ^ k)))
one_bit_mask k zero (suc x) within = absurd (omega arith)
one_bit_mask zero (suc bound) (suc x) within =
    omega (arith, no_mask bound (suc x / 2) (omega arith))
one_bit_mask (suc k) (suc bound) (suc x) within =
    let power = two-pow-suc k in
    let half : 2 ^ suc k / 2 ≡ 2 ^ k = omega (arith, power) in
    let deeper : suc x / 2 / 2 ^ k ≡ suc x / 2 ^ suc k =
      div-div-eq-div-mul (suc x) 2 (2 ^ k) ∙ ap (λ (m : ℕ). suc x / m) (sym power) in
    let above = rw deeper at (one_bit_mask k bound (suc x / 2) (omega arith)) in
    let even : 2 ^ suc k % 2 ≡ 0 = omega (arith, power) in
    let next = ap (masked bound (suc x / 2)) half ∙ above in
    let scaled = ap (λ (p : ℕ). p * (suc x / 2 ^ suc k % 2)) power in
    omega (arith, next, even, scaled)

-- `x & (1 << k)` keeps the bit `k` of `x`.
pub bit_and-pow : (k x : ℕ) → bit_and x (2 ^ k) ≡ 2 ^ k * (x / 2 ^ k % 2)
bit_and-pow k x = bit_and-bitwise x (2 ^ k) ∙ one_bit_mask k x x (omega arith)
