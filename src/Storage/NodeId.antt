-- ===== src/Storage/NodeId.antt =====
-- storage/types.go: the identifiers of Merkle tree nodes. A byte is a number below 256, a
-- `uint64` is kept below 2 ^ 64 by a remainder, and an index out of a path's range panics.
pub mod Coords
pub mod Paths
pub mod BigEndian
pub mod Masks
pub mod Siblings
pub mod SplitJoin
mod Tests
use Prim.Native.Nat.{bit_and, bit_or}
use trillian.Prelude.{
  ℕ, zero, suc, ◌+◌, ◌-◌, ◌*◌, ◌/◌, ◌%◌, ◌^◌, List, [], ◌∷◌, ◌++◌, Bytes, bytes_equal, Outcome, ok,
  err, panic, out_of_fuel, ◌>>=◌, or_panic, Option, none, some, Bool, ◌||◌, not, length, get_elem?,
  set, take, drop, replicate, ltb, leb, ◌==◌, if◌then◌else◌,
}
use trillian.Prelude.Int.{ℤ, pos, negsuc}
use trillian.Merkle.BitLen.{bit_len}

-- `NodeID`
pub record NodeId : Type 0 where
  pub path : Bytes
  pub prefix_len_bits : ℕ

-- `Node`
pub record Node : Type 0 where
  pub id : NodeId
  pub hash : Bytes
  pub revision : ℤ

-- The one error of the package's functions here: coordinates out of range.
pub data Error : Type 0 where
  coords_out_of_range : Error

unfoldable pub path_len_bits : NodeId → ℕ
path_len_bits n = length n.path * 8

unfoldable pub bytes_for_bits : ℕ → ℕ
bytes_for_bits num_bits = (num_bits + 7) / 8

unfoldable pub new_node_id_from_hash : Bytes → NodeId
new_node_id_from_hash h = record { path = h; prefix_len_bits = length h * 8 }

unfoldable pub new_empty_node_id : ℕ → Outcome Error NodeId
new_empty_node_id max_len_bits =
    if not (max_len_bits % 8 == 0)
    then panic
    else ok (record { path = replicate (max_len_bits / 8) 0; prefix_len_bits = 0 })

-- The loop of NewNodeIDForTreeCoords that writes the index from the last byte on; `k` is `i + 1`.
unfoldable pub write_index : ℕ → Bytes → ℕ → Bytes
write_index zero path uidx = path
write_index (suc k) path uidx =
    let rest = write_index k (set path k (uidx % 256)) (uidx / 256) in
    if ltb 0 uidx then rest else path

abbrev pub uint64_mod : ℕ
uint64_mod = 2 ^ 64

-- NewNodeIDForTreeCoords for coordinates that are not negative.
unfoldable pub coords_node_id : ℕ → ℕ → ℕ → Outcome Error NodeId
coords_node_id depth index max_path_bits =
    if ltb max_path_bits (bit_len index + depth) || not (max_path_bits % 8 == 0)
    then err coords_out_of_range
    else (do
      r ← new_empty_node_id max_path_bits
      ok (record {
        path = write_index (length r.path) r.path (index * 2 ^ depth % uint64_mod);
        prefix_len_bits = max_path_bits - depth;
      }))

unfoldable pub new_node_id_for_tree_coords : ℤ → ℤ → ℕ → Outcome Error NodeId
new_node_id_for_tree_coords (negsuc _) index max_path_bits = err coords_out_of_range
new_node_id_for_tree_coords (pos _) (negsuc _) max_path_bits = err coords_out_of_range
new_node_id_for_tree_coords (pos depth) (pos index) max_path_bits =
    coords_node_id depth index max_path_bits

-- The loop of CoordString over the path's bytes.
unfoldable pub read_index : ℕ → Bytes → ℕ
read_index i [] = i
read_index i (p ∷ path) = read_index ((i * 256 + p) % uint64_mod) path

-- The depth and the index that CoordString prints.
unfoldable pub coord_string : NodeId → ℕ × ℕ
coord_string n = let d = path_len_bits n - n.prefix_len_bits in (d, read_index 0 n.path / 2 ^ d)

unfoldable pub bit : NodeId → ℕ → Outcome Error ℕ
bit n i = if ltb (path_len_bits n) (i + 1) then panic else (do
  b ← or_panic (get_elem? n.path ((path_len_bits n - i - 1) / 8))
  ok (b / 2 ^ (i % 8) % 2))

-- The byte that SetBit writes, `(PathLenBits - i - 1) / 8`, which Go rounds towards 0; none if it is
-- negative.
unfoldable pub set_bit_byte : ℕ → ℕ → Option ℕ
set_bit_byte len_bits i =
    if ltb i len_bits
    then some ((len_bits - i - 1) / 8)
    else if ltb (i + 1 - len_bits) 8
    then some 0
    else none

-- SetBit: `^(1 << k)` of a byte is 255 less the bit.
unfoldable pub set_bit : NodeId → ℕ → ℕ → Outcome Error NodeId
set_bit n i b = do
  b_index ← or_panic (set_bit_byte (path_len_bits n) i)
  old ← or_panic (get_elem? n.path b_index)
  let new = if b == 0 then bit_and old (255 - 2 ^ (i % 8)) else bit_or old (2 ^ (i % 8))
  ok (record n { path = set n.path b_index new })

-- String reads the bits from the most significant down; `k` are still to be read.
unfoldable pub bits_from : NodeId → ℕ → ℕ → Outcome Error (List ℕ)
bits_from n i zero = ok []
bits_from n i (suc k) = do b ← bit n (i + k); rest ← bits_from n i k; ok (b ∷ rest)

-- String: the bits, as numbers, in place of their characters.
unfoldable pub string : NodeId → Outcome Error (List ℕ)
string n = bits_from n (path_len_bits n - n.prefix_len_bits) n.prefix_len_bits

-- Equivalent compares the two printed forms.
unfoldable pub equivalent : NodeId → NodeId → Outcome Error Bool
equivalent n other = do a ← string n; b ← string other; ok (bytes_equal a b)
