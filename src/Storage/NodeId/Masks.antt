-- ===== src/Storage/NodeId/Masks.antt =====
-- The masks and the neighbours of a path, of storage/types.go, by the number that the path is. A
-- height of `j * 8 + r` is in the byte that has `j` bytes behind it.
use Prim.Native.Nat.{bit_and, bit_or}
use native.Mathlib.Nat.{zero-add, suc-add}
use trillian.Prelude.{
  ℕ, zero, suc, ◌+◌, ◌-◌, ◌*◌, ◌/◌, ◌%◌, ◌^◌, ◌<◌, ◌≡◌, refl, ap, [], ◌∷◌, ◌++◌, Bytes, ok, true,
  false, length, get_or, take, replicate, ltb, ◌==◌, if◌then◌else◌, length-append, set-append,
  get_elem?-append, arith,
}
use trillian.Storage.NodeId.{path_len_bits, bytes_for_bits, bit, set_bit, set_bit_byte}
use trillian.Storage.NodeId.Paths.{copy_bytes, left_mask, masked_path}

length_parts :
    (pre post : Bytes) (b : ℕ) → length (pre ++ b ∷ post) ≡ length pre + suc (length post)
length_parts pre post b = length-append pre (b ∷ post)

take_parts : (pre post : Bytes) (b : ℕ) → take (suc (length pre)) (pre ++ b ∷ post) ≡ pre ++ b ∷ []
take_parts [] post b = refl
take_parts (x ∷ pre) post b = ap (λ (bs : Bytes). x ∷ bs) (take_parts pre post b)

pub copy_bytes-nil : (xs : Bytes) → copy_bytes xs [] ≡ xs
copy_bytes-nil [] = refl
copy_bytes-nil (x ∷ xs) = refl

pub copy_bytes-zeros :
    (prefix : Bytes) (k : ℕ)
    → copy_bytes (replicate (length prefix + k) 0) prefix ≡ prefix ++ replicate k 0
copy_bytes-zeros [] k = rw (zero-add k) (copy_bytes-nil (replicate k 0))
copy_bytes-zeros (x ∷ prefix) k =
    rw (suc-add (length prefix) k) (ap (λ (ys : Bytes). x ∷ ys) (copy_bytes-zeros prefix k))

copy_parts :
    (pre post : Bytes) (b : ℕ)
    → copy_bytes (replicate (length (pre ++ b ∷ post)) 0) (pre ++ b ∷ [])
      ≡ pre ++ b ∷ replicate (length post) 0
copy_parts [] post b = ap (λ (bs : Bytes). b ∷ bs) (copy_bytes-nil (replicate (length post) 0))
copy_parts (x ∷ pre) post b = ap (λ (bs : Bytes). x ∷ bs) (copy_parts pre post b)

get_or_parts : (pre post : Bytes) (b d : ℕ) → get_or (pre ++ b ∷ post) (length pre) d ≡ b
get_or_parts [] post b d = refl
get_or_parts (x ∷ pre) post b d = get_or_parts pre post b d

pub masked_path_parts :
    (pre post : Bytes) (b d : ℕ)
    → bytes_for_bits (suc d) ≡ suc (length pre)
    → masked_path (pre ++ b ∷ post) (suc d)
      ≡ ok (pre ++ bit_and b (left_mask (suc d % 8)) ∷ replicate (length post) 0)
unfolding masked_path
masked_path_parts pre post b d size =
    let rest : Bytes = replicate (length post) 0 in
    let long : ltb (length (pre ++ b ∷ post)) (suc (length pre)) ≡ false =
      (let total = length_parts pre post b in ground arith) in
    let last : suc (length pre) - 1 ≡ length pre = omega arith in
    rw (size, long, take_parts pre post b, copy_parts pre post b, last)
      (rw (get_or_parts pre rest b 0)
        (ap (λ (p : Bytes). ok p) (set-append pre b rest (bit_and b (left_mask (suc d % 8))))))

pub bit_parts :
    (pre post : Bytes) (b prefix_len r : ℕ)
    → r < 8
    → bit (record { path = pre ++ b ∷ post; prefix_len_bits = prefix_len }) (length post * 8 + r)
      ≡ ok (b / 2 ^ r % 2)
unfolding bit path_len_bits
bit_parts pre post b prefix_len r short =
    let total = length_parts pre post b in
    let size = length (pre ++ b ∷ post) * 8 in
    let inside : ltb size (length post * 8 + r + 1) ≡ false = ground arith in
    let place : (size - (length post * 8 + r) - 1) / 8 ≡ length pre = omega arith in
    let in_byte : (length post * 8 + r) % 8 ≡ r = omega arith in
    rw (inside, place, get_elem?-append pre b post, in_byte) refl

pub set_bit_parts :
    (pre post : Bytes) (b prefix_len r v : ℕ)
    → r < 8
    → set_bit
        (record { path = pre ++ b ∷ post; prefix_len_bits = prefix_len })
        (length post * 8 + r)
        v
      ≡ ok (record {
        path = pre ++ (if v == 0 then bit_and b (255 - 2 ^ r) else bit_or b (2 ^ r)) ∷ post;
        prefix_len_bits = prefix_len;
      })
unfolding set_bit path_len_bits set_bit_byte
set_bit_parts pre post b prefix_len r v short =
    let total = length_parts pre post b in
    let size = length (pre ++ b ∷ post) * 8 in
    let inside : ltb (length post * 8 + r) size ≡ true = ground arith in
    let place : (size - (length post * 8 + r) - 1) / 8 ≡ length pre = omega arith in
    let in_byte : (length post * 8 + r) % 8 ≡ r = omega arith in
    let new = if v == 0 then bit_and b (255 - 2 ^ r) else bit_or b (2 ^ r) in
    rw (inside, place, get_elem?-append pre b post, in_byte)
      (ap (λ (p : Bytes). ok (record { path = p; prefix_len_bits = prefix_len }))
        (set-append pre b post new))

-- The node next to a node at its depth.
abbrev pub sibling_slot : ℕ → ℕ
sibling_slot s = if s % 2 == 0 then suc s else s - 1

-- What is tested for each bit of a byte.
pub each_bit :
    (P : ℕ → Type 0) → P 0 → P 1 → P 2 → P 3 → P 4 → P 5 → P 6 → P 7 → (r : ℕ) → r < 8 → P r
each_bit P a b c d e f g h zero p = a
each_bit P a b c d e f g h (suc zero) p = b
each_bit P a b c d e f g h (suc (suc zero)) p = c
each_bit P a b c d e f g h (suc (suc (suc zero))) p = d
each_bit P a b c d e f g h (suc (suc (suc (suc zero)))) p = e
each_bit P a b c d e f g h (suc (suc (suc (suc (suc zero))))) p = f
each_bit P a b c d e f g h (suc (suc (suc (suc (suc (suc zero)))))) p = g
each_bit P a b c d e f g h (suc (suc (suc (suc (suc (suc (suc zero))))))) p = h
each_bit P a b c d e f g h (suc (suc (suc (suc (suc (suc (suc (suc r)))))))) p =
    absurd (omega arith)

abbrev pub Floors : ℕ → ℕ → Type 0
Floors q r =
    (q / 2 ^ r * 2 ^ r / 256 ≡ q / 256) × (q / 2 ^ r * 2 ^ r % 256 ≡ q % 256 / 2 ^ r * 2 ^ r)

pub floors : (q r : ℕ) → r < 8 → Floors q r
floors q =
    each_bit (Floors q) (omega arith, omega arith) (omega arith, omega arith)
      (omega arith, omega arith) (omega arith, omega arith) (omega arith, omega arith)
      (omega arith, omega arith) (omega arith, omega arith) (omega arith, omega arith)

-- The byte of a slot and that of its sibling, which differ in one bit.
abbrev pub Pairs : ℕ → ℕ → Type 0
Pairs m r =
    (suc (2 * m) * 2 ^ r / 256 ≡ 2 * m * 2 ^ r / 256)
    × (suc (2 * m) * 2 ^ r % 256 ≡ 2 * m * 2 ^ r % 256 + 2 ^ r)
    × (2 * m * 2 ^ r % 256 / 2 ^ r % 2 ≡ 0)
    × (suc (2 * m) * 2 ^ r % 256 / 2 ^ r % 2 ≡ 1)

pub pairs : (m r : ℕ) → r < 8 → Pairs m r
pairs m =
    each_bit (Pairs m) (omega arith, omega arith, omega arith, omega arith)
      (omega arith, omega arith, omega arith, omega arith)
      (omega arith, omega arith, omega arith, omega arith)
      (omega arith, omega arith, omega arith, omega arith)
      (omega arith, omega arith, omega arith, omega arith)
      (omega arith, omega arith, omega arith, omega arith)
      (omega arith, omega arith, omega arith, omega arith)
      (omega arith, omega arith, omega arith, omega arith)
