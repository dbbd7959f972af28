-- ===== src/Storage/NodeId/Tests.antt =====
-- Runs of the node identifiers of storage/types.go.
use trillian.Prelude.{Bytes, ◌≡◌, refl, [], ◌∷◌, ok, err, panic, arith}
use trillian.Prelude.Int.{pos, negsuc}
use trillian.Merkle.BitLen.{bit_len}
use trillian.Storage.NodeId.{
  NodeId, coords_out_of_range, path_len_bits, new_empty_node_id, write_index, coords_node_id,
  new_node_id_for_tree_coords, read_index, coord_string, bit, set_bit, set_bit_byte, bits_from,
  string,
}
use trillian.Storage.NodeId.Paths.{Suffix, siblings, split, new_node_id_from_prefix_suffix}
use trillian.Storage.NodeId.SplitJoin.{node_id, new_node_id_from_prefix_suffix-split}
use trillian.Storage.NodeId.Siblings.{sibling_ids, siblings_lem}
use trillian.Storage.NodeId.Coords.{coord_string-new_node_id_for_tree_coords}

abbrev eighth_at_four : NodeId
eighth_at_four = record { path = 0 ∷ 128 ∷ []; prefix_len_bits = 12 }

from_coords : new_node_id_for_tree_coords (pos 4) (pos 8) 16 ≡ ok eighth_at_four
unfolding new_node_id_for_tree_coords coords_node_id new_empty_node_id write_index bit_len
from_coords = refl

to_coords : coord_string eighth_at_four ≡ (4, 8)
unfolding coord_string path_len_bits read_index
to_coords = refl

too_wide : new_node_id_for_tree_coords (pos 4) (pos 4096) 16 ≡ err coords_out_of_range
unfolding new_node_id_for_tree_coords coords_node_id bit_len
too_wide = refl

below_the_leaves : new_node_id_for_tree_coords (negsuc 0) (pos 0) 16 ≡ err coords_out_of_range
unfolding new_node_id_for_tree_coords
below_the_leaves = refl

printed :
    string (record { path = 0 ∷ 128 ∷ []; prefix_len_bits = 9 })
    ≡ ok (0 ∷ 0 ∷ 0 ∷ 0 ∷ 0 ∷ 0 ∷ 0 ∷ 0 ∷ 1 ∷ [])
unfolding string bits_from bit path_len_bits
printed = refl

-- An index just past the path: SetBit writes the first byte, Bit panics.
set_past_the_end :
    set_bit (record { path = 0 ∷ 128 ∷ []; prefix_len_bits = 16 }) 17 1
    ≡ ok (record { path = 2 ∷ 128 ∷ []; prefix_len_bits = 16 })
unfolding set_bit set_bit_byte path_len_bits
set_past_the_end = refl

bit_past_the_end : bit (record { path = 0 ∷ 128 ∷ []; prefix_len_bits = 16 }) 17 ≡ panic
unfolding bit path_len_bits
bit_past_the_end = refl

coord_string-new_node_id_for_tree_coords_example :
    (n : NodeId) × (new_node_id_for_tree_coords (pos 4) (pos 8) 16 ≡ ok n)
    × (coord_string n ≡ (4, 8))
    × (path_len_bits n ≡ 16)
coord_string-new_node_id_for_tree_coords_example =
    coord_string-new_node_id_for_tree_coords 4 8 16 (omega arith) (omega arith) refl (omega arith)

siblings_lem_example :
    siblings (record { path = 0x12 ∷ 0x34 ∷ []; prefix_len_bits = 16 })
    ≡ ok (sibling_ids 2 0x1234 0 16)
siblings_lem_example = siblings_lem 2 0x1234

-- 20 bits of a path of 3 bytes, after a prefix of one byte.
new_node_id_from_prefix_suffix-split_example :
    (prefix : Bytes) × (suffix : Suffix) × (split (node_id 1 1 0 4 0x12345) 1 16
      ≡ ok (prefix, suffix))
    × (new_node_id_from_prefix_suffix prefix suffix 24 ≡ ok (node_id 1 1 0 4 0x12345))
new_node_id_from_prefix_suffix-split_example =
    new_node_id_from_prefix_suffix-split 1 1 0 4 0x12345 16 (omega arith) (omega arith)
      (omega arith)
