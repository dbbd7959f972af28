-- ===== src/Storage/NodeId/SplitJoin.antt =====
-- NewNodeIDFromPrefixSuffix of storage/types.go undoes Split.
use Prim.Native.Nat.{bit_and}
use mathlib.Core.Path.{ap₂}
use trillian.Prelude.{
  ℕ, suc, ◌+◌, ◌-◌, ◌*◌, ◌/◌, ◌%◌, ◌^◌, ◌<◌, ◌≤◌, ◌≡◌, refl, sym, ap, ◌∙◌, [], ◌∷◌, ◌++◌, Bytes, ok,
  false, length, take, drop, replicate, ltb, leb, ◌==◌, length-append, set-append, get_elem?-append,
  append_assoc, arith,
}
use trillian.Storage.NodeId.{NodeId, bytes_for_bits}
use trillian.Storage.NodeId.Paths.{
  Suffix, be_bytes, left_mask, copy_bytes, copy_at, new_node_id_from_prefix_suffix, split, split_at,
}
use trillian.Storage.NodeId.BigEndian.{masked_byte, length-be_bytes, be_bytes-append}
use trillian.Storage.NodeId.Masks.{copy_bytes-zeros, each_bit}
use trillian.Storage.NodeId.Siblings.{slot_parts}

take_prefix : (a rest : Bytes) → take (length a) (a ++ rest) ≡ a
take_prefix [] rest = refl
take_prefix (x ∷ a) rest = ap (λ (bs : Bytes). x ∷ bs) (take_prefix a rest)

drop_prefix : (a rest : Bytes) → drop (length a) (a ++ rest) ≡ rest
drop_prefix [] rest = refl
drop_prefix (x ∷ a) rest = drop_prefix a rest

take_one_more : (b rest : Bytes) (x : ℕ) → take (suc (length b)) (b ++ x ∷ rest) ≡ b ++ x ∷ []
take_one_more [] rest x = refl
take_one_more (y ∷ b) rest x = ap (λ (bs : Bytes). y ∷ bs) (take_one_more b rest x)

-- The path of NewNodeIDFromPrefixSuffix.
joined_path :
    (a b : Bytes) (j : ℕ)
    → copy_at (copy_bytes (replicate (length a + (length b + j)) 0) a) (length a) b
      ≡ ok (a ++ (b ++ replicate j 0))
joined_path a b j =
    let zeros : Bytes = replicate (length b + j) 0 in
    let long : ltb (length (a ++ zeros)) (length a) ≡ false =
      (let total = length-append a zeros in ground arith) in
    rw (copy_bytes-zeros a (length b + j))
      (rw (long, take_prefix a zeros, drop_prefix a zeros, copy_bytes-zeros b j) refl)

abbrev Mask : ℕ → Type 0
Mask r = left_mask ((8 - r) % 8) ≡ (2 ^ (8 - r) - 1) * 2 ^ r

masks : (r : ℕ) → r < 8 → Mask r
masks = each_bit Mask refl refl refl refl refl refl refl refl

abbrev Multiple : ℕ → ℕ → Type 0
Multiple q r = q * 2 ^ r % 256 / 2 ^ r * 2 ^ r ≡ q * 2 ^ r % 256

multiples : (q r : ℕ) → r < 8 → Multiple q r
multiples q =
    each_bit (Multiple q) (omega arith) (omega arith) (omega arith) (omega arith) (omega arith)
      (omega arith) (omega arith) (omega arith)

-- Split keeps the last byte of a suffix whose low bits are 0.
kept_byte :
    (q r : ℕ) → r < 8 → bit_and (q * 2 ^ r % 256) ((2 ^ (8 - r) - 1) * 2 ^ r) ≡ q * 2 ^ r % 256
kept_byte q r short =
    ap (bit_and (q * 2 ^ r % 256)) (sym (masks r short))
    ∙ masked_byte r (q * 2 ^ r % 256) short (omega arith)
    ∙ multiples q r short

-- Split of a path into the bytes before and the bytes of the suffix.
split_at_parts :
    (a b : Bytes) (q r j prefix_len : ℕ)
    → r < 8
    → suc (length b) * 8 - r < 256
    → split_at
        (record {
          path = a ++ (b ++ (q * 2 ^ r % 256) ∷ replicate j 0);
          prefix_len_bits = prefix_len;
        })
        (length a)
        (suc (length b) * 8 - r)
      ≡ ok (a, record { bits = suc (length b) * 8 - r; path = b ++ (q * 2 ^ r % 256) ∷ [] })
unfolding bytes_for_bits
split_at_parts a b q r j prefix_len short fits =
    let byte = q * 2 ^ r % 256 in
    let zeros : Bytes = replicate j 0 in
    let bits = suc (length b) * 8 - r in
    let path = a ++ (b ++ byte ∷ zeros) in
    let size : (bits + 7) / 8 ≡ suc (length b) = omega arith in
    let last : (bits - 1) / 8 ≡ length b = omega arith in
    let low : (bits % 256 + 255) % 256 % 8 + 1 ≡ 8 - r = omega arith in
    let high : 8 - (8 - r) ≡ r = omega arith in
    let whole : bits % 256 ≡ bits = omega arith in
    let long : ltb (length path) (length a + suc (length b)) ≡ false =
      (let total = length-append a (b ++ byte ∷ zeros) in
        let rest = length-append b (byte ∷ zeros) in ground arith) in
    rw (size, long, last, low, high, drop_prefix a (b ++ byte ∷ zeros), take_one_more b zeros byte)
      (rw
        (
          get_elem?-append b byte [],
          kept_byte q r short,
          set-append b byte [] byte,
          whole,
          take_prefix a (b ++ byte ∷ zeros),
        )
        refl)

-- An identifier of `p` bytes of prefix and `suc m * 8 - r` further bits, `j` bytes before its end.
abbrev pub node_id : ℕ → ℕ → ℕ → ℕ → ℕ → NodeId
node_id p m j r s = record {
  path = be_bytes (p + m + suc j) (s * 2 ^ (j * 8 + r));
  prefix_len_bits = p * 8 + (suc m * 8 - r);
}

node_id_path :
    (p m j r s : ℕ)
    → (node_id p m j r s).path
      ≡ be_bytes p (s * 2 ^ r / 256 / 256 ^ m)
        ++ (be_bytes m (s * 2 ^ r / 256) ++ (s * 2 ^ r % 256) ∷ replicate j 0)
node_id_path p m j r s =
    let x = s * 2 ^ r / 256 in
    let rest : Bytes = (s * 2 ^ r % 256) ∷ replicate j 0 in
    slot_parts (p + m) j r s
    ∙ ap (λ (bs : Bytes). bs ++ rest) (be_bytes-append p m x)
    ∙ append_assoc (be_bytes p (x / 256 ^ m)) (be_bytes m x) rest

-- NewNodeIDFromPrefixSuffix undoes Split: for an identifier whose path is 0 after its bits, of which
-- there are more than the prefix has, at most the suffix's and fewer than 256 after the prefix, Split
-- returns a prefix and a suffix of which NewNodeIDFromPrefixSuffix makes the identifier.
pub new_node_id_from_prefix_suffix-split :
    (p m j r s suffix_bits : ℕ)
    → r < 8
    → suc m * 8 - r ≤ suffix_bits
    → suc m * 8 - r < 256
    → (prefix : Bytes) × (suffix : Suffix) × (split (node_id p m j r s) p suffix_bits
        ≡ ok (prefix, suffix))
      × (new_node_id_from_prefix_suffix prefix suffix ((p + m + suc j) * 8)
          ≡ ok (node_id p m j r s))
unfolding split new_node_id_from_prefix_suffix
new_node_id_from_prefix_suffix-split p m j r s suffix_bits short within fits =
    let bits = suc m * 8 - r in
    let a = be_bytes p (s * 2 ^ r / 256 / 256 ^ m) in
    let b = be_bytes m (s * 2 ^ r / 256) in
    let byte = s * 2 ^ r % 256 in
    let long_a : length a ≡ p = length-be_bytes p (s * 2 ^ r / 256 / 256 ^ m) in
    let long_b : length b ≡ m = length-be_bytes m (s * 2 ^ r / 256) in
    let some_bits : p * 8 + bits == 0 ≡ false = ground arith in
    let not_long : ltb (suffix_bits + p * 8) (p * 8 + bits) ≡ false = ground arith in
    let not_short : leb (p * 8 + bits) (p * 8) ≡ false = ground arith in
    let left : p * 8 + bits - p * 8 ≡ bits = omega arith in
    let parts =
      rw (long_a, long_b) at (split_at_parts a b s r j (p * 8 + bits) short (rw long_b fits)) in
    let whole = node_id_path p m j r s in
    let bytes : (p + m + suc j) * 8 / 8 ≡ length a + (length (b ++ byte ∷ []) + j) =
      (let total = length-append b (byte ∷ []) in omega arith) in
    let path : a ++ ((b ++ byte ∷ []) ++ replicate j 0) ≡ (node_id p m j r s).path =
      ap (λ (bs : Bytes). a ++ bs) (append_assoc b (byte ∷ []) (replicate j 0)) ∙ sym whole in
    (
      a,
      record { bits = bits; path = b ++ byte ∷ [] },
      ap
            (λ (path' : Bytes).
              split (record { path = path'; prefix_len_bits = p * 8 + bits }) p suffix_bits)
            whole
          ∙ rw (some_bits, not_long, not_short, left) parts,
      rw (bytes, joined_path a (b ++ byte ∷ []) j)
          (ap₂
            (λ (path' : Bytes) (n : ℕ).
              ok (record { path = path'; prefix_len_bits = n * 8 + bits }))
            path long_a),
    )
