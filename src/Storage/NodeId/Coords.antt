-- ===== src/Storage/NodeId/Coords.antt =====
-- Tree coordinates and node identifiers: what NewNodeIDForTreeCoords writes, CoordString reads.
use native.Mathlib.Nat.{
  pow-le-pow_right, mul-lt-mul_of_pos_right, mul-div_cancel, zero-add, suc-add, mod-eq_of_lt,
  pow-suc,
}
use trillian.Prelude.{
  not, ℕ, zero, suc, ◌+◌, ◌-◌, ◌*◌, ◌/◌, ◌%◌, ◌^◌, ◌<◌, ◌≤◌, ◌≡◌, refl, sym, ap, ◌∙◌, [], ◌∷◌, ◌++◌,
  Bytes, append_assoc, append-nil, ok, length, length-append, set, set-append, replicate, ltb, true,
  false, ◌==◌, ◌||◌, arith, length-replicate, dec_lt,
}
use trillian.Prelude.Bits.{two-pow-suc, two-pow_pos}
use trillian.Merkle.BitLen.{bit_len, bit_len_bounds, bit_len_zero}
use trillian.Prelude.Int.{pos}
use trillian.Storage.NodeId.{
  NodeId, path_len_bits, new_empty_node_id, write_index, uint64_mod, coords_node_id,
  new_node_id_for_tree_coords, read_index, coord_string,
}

-- The last `k` bytes of a number, the most significant first.
big_endian : ℕ → ℕ → Bytes
big_endian zero u = []
big_endian (suc k) u = big_endian k (u / 256) ++ (u % 256) ∷ []

length-big_endian : (k u : ℕ) → length (big_endian k u) ≡ k
unfolding big_endian
length-big_endian zero u = refl
length-big_endian (suc k) u =
    omega (
      arith,
      length-append (big_endian k (u / 256)) ((u % 256) ∷ []),
      length-big_endian k (u / 256),
    )

replicate-append :
    (k x : ℕ) (tail : Bytes) → replicate (suc k) x ++ tail ≡ replicate k x ++ x ∷ tail
replicate-append zero x tail = refl
replicate-append (suc k) x tail = ap (◌∷◌ x) (replicate-append k x tail)

big_endian_zero : (k : ℕ) → big_endian k 0 ≡ replicate k 0
unfolding big_endian
big_endian_zero zero = refl
big_endian_zero (suc k) =
    rw (big_endian_zero k) (sym (replicate-append k 0 []) ∙ append-nil (replicate (suc k) 0))

-- Over zeros the loop may stop at a zero: the bytes that it leaves are the number's.
write_index-big_endian :
    (k u : ℕ) (tail : Bytes) → write_index k (replicate k 0 ++ tail) u ≡ big_endian k u ++ tail
unfolding write_index big_endian
write_index-big_endian zero u tail = refl
write_index-big_endian (suc k) u tail = elim (dec_lt 0 u) [
  | yes h ↦
      let ih = write_index-big_endian k (u / 256) ((u % 256) ∷ tail) in
      let placed : set (replicate (suc k) 0 ++ tail) k (u % 256)
          ≡ replicate k 0 ++ (u % 256) ∷ tail =
        ap (λ (path : Bytes). set path k (u % 256)) (replicate-append k 0 tail)
        ∙ rw (length-replicate {A = ℕ} k 0) at (set-append (replicate k 0) 0 tail (u % 256)) in
      let positive : ltb 0 u ≡ true = ground arith in
      rw (positive, placed, ih) (sym (append_assoc (big_endian k (u / 256)) ((u % 256) ∷ []) tail))
  | no h ↦
      let nothing : u ≡ 0 = omega arith in
      rw nothing (ap (λ (path : Bytes). path ++ tail) (sym (big_endian_zero (suc k))))
]

read_index-append :
    (i : ℕ) (xs ys : Bytes) → read_index i (xs ++ ys) ≡ read_index (read_index i xs) ys
unfolding read_index
read_index-append i [] ys = refl
read_index-append i (x ∷ xs) ys = read_index-append ((i * 256 + x) % uint64_mod) xs ys

read_index-big_endian : (k u : ℕ) → u < 256 ^ k → u < uint64_mod → read_index 0 (big_endian k u) ≡ u
unfolding read_index big_endian
read_index-big_endian zero u h w = omega arith
read_index-big_endian (suc k) u h w =
    let ih = read_index-big_endian k (u / 256) (omega (arith, pow-suc 256 k)) (omega arith) in
    rw (read_index-append 0 (big_endian k (u / 256)) ((u % 256) ∷ []), ih) (omega arith)

pub two-pow-add : (a b : ℕ) → 2 ^ (a + b) ≡ 2 ^ a * 2 ^ b
two-pow-add zero b = omega (arith, ap (λ (n : ℕ). 2 ^ n) (zero-add b))
two-pow-add (suc a) b =
    let left = ap (λ (n : ℕ). 2 ^ n) (suc-add a b) in
    let right = ap (λ (p : ℕ). p * 2 ^ b) (two-pow-suc a) in
    grind (arith, two-pow-suc (a + b), two-pow-add a b)

pub two-pow_bytes : (k : ℕ) → 2 ^ (k * 8) ≡ 256 ^ k
two-pow_bytes zero = refl
two-pow_bytes (suc k) =
    let eight : suc k * 8 ≡ 8 + k * 8 = omega arith in
    let split = ap (λ (n : ℕ). 2 ^ n) eight in
    omega (arith, two-pow-add 8 (k * 8), two-pow_bytes k, pow-suc 256 k)

-- A positive number below a power of two has at most as many bits as the exponent says.
pub bit_len-below : (x e : ℕ) → x < 2 ^ e → bit_len x ≤ e
bit_len-below zero e below = omega (arith, bit_len_zero)
bit_len-below (suc x) e below = elim (dec_lt e (bit_len (suc x))) [
  | yes long ↦
      let bounds = (bit_len_bounds (suc x) (omega arith)).0 in
      let mono : 2 ^ e ≤ 2 ^ (bit_len (suc x) - 1) = pow-le-pow_right (omega arith) (omega arith) in
      absurd (omega arith)
  | no h ↦ omega arith
]

shifted_below :
    (depth index max : ℕ) → depth ≤ max → index < 2 ^ (max - depth) → index * 2 ^ depth < 2 ^ max
shifted_below depth index max deep small =
    let product : 2 ^ (max - depth) * 2 ^ depth ≡ 2 ^ max =
      sym (two-pow-add (max - depth) depth) ∙ ap (λ (n : ℕ). 2 ^ n) (omega arith) in
    let below : index * 2 ^ depth < 2 ^ (max - depth) * 2 ^ depth =
      mul-lt-mul_of_pos_right small (two-pow_pos depth) in
    omega arith

new_empty_node_id_aligned :
    (max : ℕ)
    → max % 8 ≡ 0
    → new_empty_node_id max ≡ ok (record { path = replicate (max / 8) 0; prefix_len_bits = 0 })
unfolding new_empty_node_id
new_empty_node_id_aligned max bytes = rw bytes refl

-- For coordinates that fit a path of whole bytes and at most 64 bits, CoordString of the identifier
-- that NewNodeIDForTreeCoords returns has the depth and the index, and the path has the length
-- that was asked for.
pub coord_string-new_node_id_for_tree_coords :
    (depth index max : ℕ)
    → depth ≤ max
    → index < 2 ^ (max - depth)
    → max % 8 ≡ 0
    → max ≤ 64
    → (n : NodeId) × (new_node_id_for_tree_coords (pos depth) (pos index) max ≡ ok n)
      × (coord_string n ≡ (depth, index))
      × (path_len_bits n ≡ max)
unfolding new_node_id_for_tree_coords coords_node_id coord_string path_len_bits
coord_string-new_node_id_for_tree_coords depth index max deep small bytes short =
    let k = max / 8 in
    let whole : k * 8 ≡ max = omega arith in
    let u = index * 2 ^ depth in
    let under : u < 2 ^ max = shifted_below depth index max deep small in
    let word : 2 ^ max ≤ uint64_mod = pow-le-pow_right (omega arith) short in
    let size : 2 ^ max ≡ 256 ^ k = ap (λ (n : ℕ). 2 ^ n) (sym whole) ∙ two-pow_bytes k in
    let kept : u % uint64_mod ≡ u = mod-eq_of_lt (omega arith) in
    let written : write_index k (replicate k 0) u ≡ big_endian k u =
      rw (append-nil {A = ℕ} (replicate k 0), append-nil (big_endian k u)) at
        (write_index-big_endian k u []) in
    let fits : (ltb max (bit_len index + depth) || not (max % 8 == 0)) ≡ false =
      let bits = bit_len-below index (max - depth) small in ground arith in
    let size_of : length (big_endian k u) * 8 ≡ max =
      ap (λ (l : ℕ). l * 8) (length-big_endian k u) ∙ whole in
    let coords : (
      length (big_endian k u) * 8 - (max - depth),
      read_index 0 (big_endian k u) / 2 ^ (length (big_endian k u) * 8 - (max - depth)),
    )
        ≡ (depth, index) =
      let at_depth : length (big_endian k u) * 8 - (max - depth) ≡ depth = omega arith in
      rw
        (
          at_depth,
          read_index-big_endian k u (omega arith) (omega arith),
          mul-div_cancel index (two-pow_pos depth),
        )
        refl in
    (
      record { path = big_endian k u; prefix_len_bits = max - depth },
      rw (fits, kept, new_empty_node_id_aligned max bytes, length-replicate {A = ℕ} k 0, written)
          refl,
      coords,
      size_of,
    )
