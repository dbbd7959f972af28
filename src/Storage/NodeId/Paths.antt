-- ===== src/Storage/NodeId/Paths.antt =====
-- storage/types.go and storage/suffix.go: identifiers made of prefixes, suffixes and big integers,
-- and the nodes next to a path. A big integer is a number; a slice out of range panics.
use Prim.Native.Nat.{bit_and}
use trillian.Prelude.{
  ℕ, zero, suc, ◌+◌, ◌-◌, ◌*◌, ◌/◌, ◌%◌, ◌^◌, List, [], ◌∷◌, ◌++◌, Bytes, Outcome, ok, err, panic,
  out_of_fuel, ◌>>=◌, or_panic, ◌||◌, not, length, get_elem?, get_or, set, take, drop, replicate,
  ltb, leb, ◌==◌, if◌then◌else◌,
}
use trillian.Storage.NodeId.{NodeId, Error, path_len_bits, bytes_for_bits, bit, set_bit}

-- A function here has no error: it panics where the model has one.
abbrev pub no_error : {E A : Type 0} → Outcome Error A → Outcome E A
no_error (ok a) = ok a
no_error (err e) = panic
no_error panic = panic
no_error out_of_fuel = out_of_fuel

-- `Suffix`
pub record Suffix : Type 0 where
  pub bits : ℕ
  pub path : Bytes

-- The `k` low bytes of a number, the most significant first.
abbrev pub be_bytes : ℕ → ℕ → Bytes
be_bytes zero v = []
be_bytes (suc k) v = (v / 256 ^ k % 256) ∷ be_bytes k v

unfoldable pub new_node_id_from_big_int : ℕ → ℕ → ℕ → Outcome Error NodeId
new_node_id_from_big_int depth index total_depth =
    if not (total_depth % 8 == 0) || not (ltb index (256 ^ (total_depth / 8)))
    then panic
    else ok (record { path = be_bytes (total_depth / 8) index; prefix_len_bits = depth })

-- SetBytes of a big integer.
abbrev pub set_bytes : ℕ → Bytes → ℕ
set_bytes v [] = v
set_bytes v (b ∷ bs) = set_bytes (v * 256 + b) bs

abbrev pub big_int : NodeId → ℕ
big_int n = set_bytes 0 n.path

-- `copy` to the start of a slice.
abbrev pub copy_bytes : Bytes → Bytes → Bytes
copy_bytes [] source = []
copy_bytes (x ∷ dest) [] = x ∷ dest
copy_bytes (x ∷ dest) (y ∷ source) = y ∷ copy_bytes dest source

-- `copy(path[k:], source)`
abbrev pub copy_at : Bytes → ℕ → Bytes → Outcome Error Bytes
copy_at path k source =
    if ltb (length path) k then panic else ok (take k path ++ copy_bytes (drop k path) source)

unfoldable pub new_node_id_from_prefix_suffix : Bytes → Suffix → ℕ → Outcome Error NodeId
new_node_id_from_prefix_suffix prefix suffix max_path_bits = do
  path ← copy_at (copy_bytes (replicate (max_path_bits / 8) 0) prefix) (length prefix) suffix.path
  ok (record { path = path; prefix_len_bits = length prefix * 8 + suffix.bits })

unfoldable pub flip_right_bit : NodeId → ℕ → Outcome Error NodeId
flip_right_bit n i = do b ← bit n i; set_bit n i (1 - b)

abbrev pub left_mask : ℕ → ℕ
left_mask k = get_or (0xFF ∷ 0x80 ∷ 0xC0 ∷ 0xE0 ∷ 0xF0 ∷ 0xF8 ∷ 0xFC ∷ 0xFE ∷ []) k 0

-- The path of MaskLeft.
unfoldable pub masked_path : Bytes → ℕ → Outcome Error Bytes
masked_path path zero = ok (replicate (length path) 0)
masked_path path (suc d) =
    let depth_bytes = bytes_for_bits (suc d) in
    let r = copy_bytes (replicate (length path) 0) (take depth_bytes path) in
    let last = get_or r (depth_bytes - 1) 0 in
    if ltb (length path) depth_bytes
    then panic
    else ok (set r (depth_bytes - 1) (bit_and last (left_mask (suc d % 8))))

unfoldable pub mask_left : NodeId → ℕ → Outcome Error NodeId
mask_left n depth = do
  path ← masked_path n.path depth
  ok (record {
    path = path;
    prefix_len_bits = if ltb depth n.prefix_len_bits then depth else n.prefix_len_bits;
  })

-- A prefix that is longer than the path makes the index of the bit negative.
unfoldable pub neighbor : NodeId → Outcome Error NodeId
neighbor n =
    let flipped = flip_right_bit n (path_len_bits n - n.prefix_len_bits) in
    if ltb (path_len_bits n) n.prefix_len_bits then panic else flipped

-- The loop of Siblings from a height on, for `k` more heights.
unfoldable pub siblings_from : NodeId → ℕ → ℕ → Outcome Error (List NodeId)
siblings_from n height zero = ok []
siblings_from n height (suc k) = do
  masked ← mask_left n (n.prefix_len_bits - height)
  sib ← neighbor masked
  rest ← siblings_from n (suc height) k
  ok (sib ∷ rest)

unfoldable pub siblings : NodeId → Outcome Error (List NodeId)
siblings n = siblings_from n 0 n.prefix_len_bits

-- Split, where the prefix is within the path: the low bits past the suffix are set to 0.
abbrev pub split_at : NodeId → ℕ → ℕ → Outcome Error (Bytes × Suffix)
split_at n prefix_bytes bits =
    let suffix_bytes = bytes_for_bits bits in
    let path = take suffix_bytes (drop prefix_bytes n.path) in
    let low_bits = (bits % 256 + 255) % 256 % 8 + 1 in
    let mask = (2 ^ low_bits - 1) * 2 ^ (8 - low_bits) in
    if ltb (length n.path) (prefix_bytes + suffix_bytes) then panic else (do
      last ← or_panic (get_elem? path ((bits - 1) / 8))
      ok (
        take prefix_bytes n.path,
        record { bits = bits % 256; path = set path ((bits - 1) / 8) (bit_and last mask) },
      ))

unfoldable pub split : NodeId → ℕ → ℕ → Outcome Error (Bytes × Suffix)
split n prefix_bytes suffix_bits =
    let root : Bytes × Suffix = ([], record { bits = 0; path = 0 ∷ [] }) in
    if n.prefix_len_bits == 0
    then ok root
    else if ltb (suffix_bits + prefix_bytes * 8) n.prefix_len_bits
    then panic
    else if leb n.prefix_len_bits (prefix_bytes * 8)
    then panic
    else split_at n prefix_bytes (n.prefix_len_bits - prefix_bytes * 8)
