-- ===== src/Storage/NodeId/Siblings.antt =====
-- Siblings and bits of an identifier, of storage/types.go, by the slots of the nodes: a path of
-- `k` bytes at the height `e` has the slot `x / 2 ^ e` in it.
use Prim.Native.Nat.{bit_and, bit_or}
use native.Mathlib.Nat.{div-div-eq-div-mul, mul-div_cancel, pow-suc}
use trillian.Prelude.{
  false, ℕ, zero, suc, ◌+◌, ◌-◌, ◌*◌, ◌/◌, ◌%◌, ◌^◌, ◌<◌, ◌≡◌, refl, sym, ap, ◌∙◌, subst, List, [],
  ◌∷◌, ◌++◌, Bytes, ok, length, replicate, ltb, ◌==◌, if◌then◌else◌, length-replicate, arith,
  Bool-cases, inl, inr,
}
use mathlib.Core.Path.{ap₂}
use trillian.Prelude.Bits.{two-pow_pos}
use trillian.Storage.NodeId.{NodeId, path_len_bits, bytes_for_bits, bit, set_bit}
use trillian.Storage.NodeId.Coords.{two-pow-add, two-pow_bytes}
use trillian.Storage.NodeId.Paths.{
  be_bytes, left_mask, masked_path, mask_left, flip_right_bit, neighbor, siblings_from, siblings,
}
use trillian.Storage.NodeId.BigEndian.{
  length-be_bytes, masked_byte, set_bit_of_byte, clear_bit_of_byte, be_bytes-append, be_bytes-zeros,
}
use trillian.Storage.NodeId.Masks.{
  sibling_slot, each_bit, masked_path_parts, bit_parts, set_bit_parts, floors, pairs,
}

positive_256 : (j : ℕ) → 0 < 256 ^ j
positive_256 j = omega (arith, two-pow_bytes j, two-pow_pos (j * 8))

div_256 : (x j : ℕ) → x / 256 ^ suc j ≡ x / 256 ^ j / 256
div_256 x j = ap (λ (m : ℕ). x / m) (pow-suc 256 j) ∙ sym (div-div-eq-div-mul x (256 ^ j) 256)

height_split : (j r : ℕ) → 2 ^ (j * 8 + r) ≡ 256 ^ j * 2 ^ r
height_split j r = two-pow-add (j * 8) r ∙ ap (λ (n : ℕ). n * 2 ^ r) (two-pow_bytes j)

-- The bytes of a number around the one with `j` bytes behind it.
parts :
    (i j x : ℕ)
    → be_bytes (i + suc j) x ≡ be_bytes i (x / 256 ^ j / 256) ++ (x / 256 ^ j % 256) ∷ be_bytes j x
parts i j x =
    be_bytes-append i (suc j) x
    ∙ ap (λ (n : ℕ). be_bytes i n ++ (x / 256 ^ j % 256) ∷ be_bytes j x) (div_256 x j)

-- The same for the first leaf below a slot.
pub slot_parts :
    (i j r s : ℕ)
    → be_bytes (i + suc j) (s * 2 ^ (j * 8 + r))
      ≡ be_bytes i (s * 2 ^ r / 256) ++ (s * 2 ^ r % 256) ∷ replicate j 0
slot_parts i j r s =
    let first : s * 2 ^ (j * 8 + r) ≡ s * 2 ^ r * 256 ^ j =
      (let split = height_split j r in grind arith) in
    let high : s * 2 ^ r * 256 ^ j / 256 ^ j ≡ s * 2 ^ r =
      mul-div_cancel (s * 2 ^ r) (positive_256 j) in
    rw first (rw (high, be_bytes-zeros j (s * 2 ^ r)) at (parts i j (s * 2 ^ r * 256 ^ j)))

slot_of_high : (x j r : ℕ) → x / 2 ^ (j * 8 + r) ≡ x / 256 ^ j / 2 ^ r
slot_of_high x j r =
    ap (λ (m : ℕ). x / m) (height_split j r) ∙ sym (div-div-eq-div-mul x (256 ^ j) (2 ^ r))

-- MaskLeft of a path keeps the slot at the height of the mask.
masked_path-slot :
    (i j r x : ℕ)
    → r < 8
    → masked_path (be_bytes (i + suc j) x) (suc (i * 8 + 7 - r))
      ≡ ok (be_bytes (i + suc j) (x / 2 ^ (j * 8 + r) * 2 ^ (j * 8 + r)))
unfolding bytes_for_bits
masked_path-slot i j r x short =
    let q = x / 256 ^ j in
    let pre = be_bytes i (q / 256) in
    let post = be_bytes j x in
    let size : bytes_for_bits (suc (i * 8 + 7 - r)) ≡ suc (length pre) =
      (let total = length-be_bytes i (q / 256) in omega arith) in
    let mask : suc (i * 8 + 7 - r) % 8 ≡ (8 - r) % 8 = omega arith in
    let floor = floors q r short in
    let byte : bit_and (q % 256) (left_mask (suc (i * 8 + 7 - r) % 8)) ≡ q / 2 ^ r * 2 ^ r % 256 =
      ap (λ (n : ℕ). bit_and (q % 256) (left_mask n)) mask
      ∙ masked_byte r (q % 256) short (omega arith)
      ∙ sym floor.1 in
    let rest : replicate {A = ℕ} (length post) 0 ≡ replicate j 0 =
      ap (λ (n : ℕ). replicate n 0) (length-be_bytes j x) in
    let target = slot_parts i j r (q / 2 ^ r) in
    let moved : ◌≡◌ {A = Bytes}
        (pre ++ bit_and (q % 256) (left_mask (suc (i * 8 + 7 - r) % 8)) ∷ replicate (length post) 0)
        (be_bytes (i + suc j) (x / 2 ^ (j * 8 + r) * 2 ^ (j * 8 + r))) =
      ap₂ (λ (b : ℕ) (bs : Bytes). pre ++ b ∷ bs) byte rest
      ∙ ap (λ (n : ℕ). be_bytes i n ++ (q / 2 ^ r * 2 ^ r % 256) ∷ replicate j 0) (sym floor.0)
      ∙ sym target
      ∙ ap (λ (n : ℕ). be_bytes (i + suc j) (n * 2 ^ (j * 8 + r))) (sym (slot_of_high x j r)) in
    ap (λ (p : Bytes). masked_path p (suc (i * 8 + 7 - r))) (parts i j x)
    ∙ masked_path_parts pre post (q % 256) (i * 8 + 7 - r) size
    ∙ ap (λ (p : Bytes). ok p) moved

abbrev Parity : ℕ → ℕ → Type 0
Parity q r = q % 256 / 2 ^ r % 2 ≡ q / 2 ^ r % 2

byte-Parity : (q r : ℕ) → r < 8 → Parity q r
byte-Parity q =
    each_bit (Parity q) (omega arith) (omega arith) (omega arith) (omega arith) (omega arith)
      (omega arith) (omega arith) (omega arith)

-- A bit of a path is the parity of the slot at its height.
bit-slot :
    (i j r x prefix_len : ℕ)
    → r < 8
    → bit (record { path = be_bytes (i + suc j) x; prefix_len_bits = prefix_len }) (j * 8 + r)
      ≡ ok (x / 2 ^ (j * 8 + r) % 2)
bit-slot i j r x prefix_len short =
    let q = x / 256 ^ j in
    let pre = be_bytes i (q / 256) in
    let post = be_bytes j x in
    let place : length post * 8 + r ≡ j * 8 + r = ap (λ (n : ℕ). n * 8 + r) (length-be_bytes j x) in
    let read = rw place at (bit_parts pre post (q % 256) prefix_len r short) in
    let parity : q % 256 / 2 ^ r % 2 ≡ x / 2 ^ (j * 8 + r) % 2 =
      byte-Parity q r short ∙ ap (λ (n : ℕ). n % 2) (sym (slot_of_high x j r)) in
    ap (λ (p : Bytes). bit (record { path = p; prefix_len_bits = prefix_len }) (j * 8 + r))
      (parts i j x)
    ∙ read
    ∙ ap (λ (n : ℕ). ok n) parity

module _ (i j r prefix_len : ℕ) (short : r < 8) where
  abbrev at : ℕ → NodeId
  at s = record { path = be_bytes (i + suc j) (s * 2 ^ (j * 8 + r)); prefix_len_bits = prefix_len }

  slot_bit : (s : ℕ) → bit (at s) (j * 8 + r) ≡ ok (s % 2)
  slot_bit s =
      bit-slot i j r (s * 2 ^ (j * 8 + r)) prefix_len short
      ∙ ap (λ (n : ℕ). ok (n % 2)) (mul-div_cancel s (two-pow_pos (j * 8 + r)))

  -- SetBit at the height of a slot writes the one byte.
  set_slot_bit :
      (s v : ℕ)
      → (let b = s * 2 ^ r % 256 in
          let new = if v == 0 then bit_and b (255 - 2 ^ r) else bit_or b (2 ^ r) in
          set_bit (at s) (j * 8 + r) v
          ≡ ok (record {
            path = be_bytes i (s * 2 ^ r / 256) ++ new ∷ replicate j 0;
            prefix_len_bits = prefix_len;
          }))
  set_slot_bit s v =
      let pre = be_bytes i (s * 2 ^ r / 256) in
      let post : Bytes = replicate j 0 in
      let place : length post * 8 + r ≡ j * 8 + r =
        ap (λ (n : ℕ). n * 8 + r) (length-replicate j 0) in
      ap (λ (p : Bytes). set_bit (record { path = p; prefix_len_bits = prefix_len }) (j * 8 + r) v)
        (slot_parts i j r s)
      ∙ rw place at (set_bit_parts pre post (s * 2 ^ r % 256) prefix_len r v short)

  flip_even : (m : ℕ) → flip_right_bit (at (2 * m)) (j * 8 + r) ≡ ok (at (suc (2 * m)))
  unfolding flip_right_bit
  flip_even m =
      let pair = pairs m r short in
      let b = 2 * m * 2 ^ r % 256 in
      let new : bit_or b (2 ^ r) ≡ suc (2 * m) * 2 ^ r % 256 =
        set_bit_of_byte r b short (omega arith) pair.2 ∙ sym pair.1 in
      let off : 2 * m % 2 ≡ 0 = omega arith in
      rw (slot_bit (2 * m), off, set_slot_bit (2 * m) 1)
        (ap (λ (p : Bytes). ok (record { path = p; prefix_len_bits = prefix_len }))
          (ap₂ (λ (n b' : ℕ). be_bytes i n ++ b' ∷ replicate j 0) (sym pair.0) new
            ∙ sym (slot_parts i j r (suc (2 * m)))))

  flip_odd : (m : ℕ) → flip_right_bit (at (suc (2 * m))) (j * 8 + r) ≡ ok (at (2 * m))
  unfolding flip_right_bit
  flip_odd m =
      let pair = pairs m r short in
      let b = suc (2 * m) * 2 ^ r % 256 in
      let cleared = clear_bit_of_byte r b short (omega arith) pair.3 in
      let new : bit_and b (255 - 2 ^ r) ≡ 2 * m * 2 ^ r % 256 = omega (arith, pair.1) in
      let on : suc (2 * m) % 2 ≡ 1 = omega arith in
      rw (slot_bit (suc (2 * m)), on, set_slot_bit (suc (2 * m)) 0)
        (ap (λ (p : Bytes). ok (record { path = p; prefix_len_bits = prefix_len }))
          (ap₂ (λ (n b' : ℕ). be_bytes i n ++ b' ∷ replicate j 0) pair.0 new
            ∙ sym (slot_parts i j r (2 * m))))

  flip_slot : (s : ℕ) → flip_right_bit (at s) (j * 8 + r) ≡ ok (at (sibling_slot s))
  flip_slot s = elim (Bool-cases (s % 2 == 0)) [
    | inl even ↦
        let half : 2 * (s / 2) ≡ s = ground arith in
        rw even (
          subst (λ n. flip_right_bit (at n) (j * 8 + r) ≡ ok (at (suc n))) half (flip_even (s / 2)))
    | inr odd ↦
        let half : suc (2 * (s / 2)) ≡ s = ground arith in
        let below : 2 * (s / 2) ≡ s - 1 = omega arith in
        rw odd (
          ap (λ (n : ℕ). flip_right_bit (at n) (j * 8 + r)) (sym half)
          ∙ flip_odd (s / 2)
          ∙ ap (λ (n : ℕ). ok (at n)) below)
  ]

module _ (k x h : ℕ) (inside : h < k * 8) where
  -- The byte of the path that has the bit, from the left.
  before : ℕ
  before = k - 1 - h / 8

  whole_path : before + suc (h / 8) ≡ k
  unfolding before
  whole_path = omega arith

  height : h / 8 * 8 + h % 8 ≡ h
  height = omega arith

  -- The paths of MaskLeft and FlipRightBit, and Bit.
  pub masked_path-height :
      masked_path (be_bytes k x) (k * 8 - h) ≡ ok (be_bytes k (x / 2 ^ h * 2 ^ h))
  unfolding before
  masked_path-height =
      let depth : suc (before * 8 + 7 - h % 8) ≡ k * 8 - h = omega arith in
      rw (depth, whole_path, height) at (masked_path-slot before (h / 8) (h % 8) x (omega arith))

  pub flip_right_bit-height :
      (s prefix_len : ℕ)
      → flip_right_bit (record { path = be_bytes k (s * 2 ^ h); prefix_len_bits = prefix_len }) h
        ≡ ok (record { path = be_bytes k (sibling_slot s * 2 ^ h); prefix_len_bits = prefix_len })
  flip_right_bit-height s prefix_len =
      rw (whole_path, height) at (flip_slot before (h / 8) (h % 8) prefix_len (omega arith) s)

  pub bit-height :
      (prefix_len : ℕ)
      → bit (record { path = be_bytes k x; prefix_len_bits = prefix_len }) h ≡ ok (x / 2 ^ h % 2)
  bit-height prefix_len =
      rw (whole_path, height) at (bit-slot before (h / 8) (h % 8) x prefix_len (omega arith))

  -- The sibling of the node at a height.
  pub neighbor-mask_left :
      (masked : NodeId) × (mask_left
          (record { path = be_bytes k x; prefix_len_bits = k * 8 })
          (k * 8 - h)
        ≡ ok masked)
      × (neighbor masked
          ≡ ok (record {
            path = be_bytes k (sibling_slot (x / 2 ^ h) * 2 ^ h);
            prefix_len_bits = k * 8 - h;
          }))
  unfolding mask_left neighbor path_len_bits
  neighbor-mask_left =
      let shorter : (if ltb (k * 8 - h) (k * 8) then k * 8 - h else k * 8) ≡ k * 8 - h =
        ground arith in
      let size : length (be_bytes k (x / 2 ^ h * 2 ^ h)) * 8 - (k * 8 - h) ≡ h =
        (let total = length-be_bytes k (x / 2 ^ h * 2 ^ h) in omega arith) in
      let within : ltb (length (be_bytes k (x / 2 ^ h * 2 ^ h)) * 8) (k * 8 - h) ≡ false =
        (let total = length-be_bytes k (x / 2 ^ h * 2 ^ h) in ground arith) in
      (
        record { path = be_bytes k (x / 2 ^ h * 2 ^ h); prefix_len_bits = k * 8 - h },
        rw (masked_path-height, shorter) refl,
        rw (within, size) (flip_right_bit-height (x / 2 ^ h) (k * 8 - h)),
      )

-- The siblings of the nodes from a height on, for `m` heights.
abbrev pub sibling_ids : ℕ → ℕ → ℕ → ℕ → List NodeId
sibling_ids k x h zero = []
sibling_ids k x h (suc m) =
    record { path = be_bytes k (sibling_slot (x / 2 ^ h) * 2 ^ h); prefix_len_bits = k * 8 - h }
    ∷ sibling_ids k x (suc h) m

siblings_from_lem :
    (k x h m : ℕ)
    → h + m ≡ k * 8
    → siblings_from (record { path = be_bytes k x; prefix_len_bits = k * 8 }) h m
      ≡ ok (sibling_ids k x h m)
unfolding siblings_from
siblings_from_lem k x h zero total = refl
siblings_from_lem k x h (suc m) total =
    let here = neighbor-mask_left k x h (omega arith) in
    rw (here.1, here.2, siblings_from_lem k x (suc h) m (omega arith)) refl

-- Siblings of an identifier of `k` bytes that is used to its end: at each height, the first leaf of
-- the node next to the path's, with the bits above the height.
pub siblings_lem :
    (k x : ℕ)
    → siblings (record { path = be_bytes k x; prefix_len_bits = k * 8 })
      ≡ ok (sibling_ids k x 0 (k * 8))
unfolding siblings
siblings_lem k x = siblings_from_lem k x 0 (k * 8) (omega arith)
