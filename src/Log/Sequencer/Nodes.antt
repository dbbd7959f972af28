-- ===== src/Log/Sequencer/Nodes.antt =====
-- log/sequencer.go: the callback that records the nodes of a batch does not fail below 2 ^ 63 leaves.
use native.Mathlib.Nat.{pow-le-pow_right, mul-le-mul_right}
use trillian.Prelude.{
  ℕ, zero, suc, ◌+◌, ◌-◌, ◌*◌, ◌%◌, ◌^◌, ◌≤◌, ◌≡◌, refl, ◌||◌, ltb, false, some, arith, dec_lt,
  replicate,
}
use trillian.Prelude.Bits.{two-pow-suc, two-pow_pos}
use trillian.Merkle.BitLen.{bit_len, bit_len_zero, bit_len_bounds}
use trillian.Merkle.Compact.Root.{Quiet}
use trillian.Storage.NodeId.{
  NodeId, new_node_id_for_tree_coords, coords_node_id, new_empty_node_id, write_index, uint64_mod,
}
use trillian.Storage.NodeId.Coords.{two-pow-add}
use trillian.Log.Sequencer.{tree_node_id, record_node}

pub exponent-le : (a b : ℕ) → 2 ^ a ≤ 2 ^ b → a ≤ b
exponent-le a b h = elim (dec_lt b a) [
  | yes more ↦
      let mono : 2 ^ suc b ≤ 2 ^ a = pow-le-pow_right (omega arith) more in
      absurd (omega (arith, two-pow-suc b, two-pow_pos b))
  | no h ↦ omega arith
]

bits_within :
    (depth index : ℕ)
    → index * 2 ^ depth ≤ 2 ^ 63
    → 2 ^ depth ≤ 2 * 2 ^ 63
    → bit_len index + depth ≤ 64
bits_within depth zero first half =
    let deep = exponent-le depth 64 half in omega (arith, bit_len_zero)
bits_within depth (suc index) first half =
    let bits = (bit_len_bounds (suc index) (omega arith)).0 in
    let shifted : 2 ^ (bit_len (suc index) - 1) * 2 ^ depth ≤ suc index * 2 ^ depth =
      mul-le-mul_right (2 ^ depth) bits in
    let sum = two-pow-add (bit_len (suc index) - 1) depth in
    let fits = exponent-le (bit_len (suc index) - 1 + depth) 63 (omega arith) in omega arith

fits :
    (depth index : ℕ)
    → bit_len index + depth ≤ 64
    → (n : NodeId) × (tree_node_id depth index ≡ some n)
unfolding tree_node_id new_node_id_for_tree_coords coords_node_id new_empty_node_id
fits depth index h =
    let in_range : (ltb 64 (bit_len index + depth) || false) ≡ false = ground arith in
    (
      record {
        path = write_index 8 (replicate 8 0) (index * 2 ^ depth % uint64_mod);
        prefix_len_bits = 64 - depth;
      },
      rw (tree_node_id, in_range) refl,
    )

-- Below 2 ^ 63 leaves every node has coordinates that fit a path of 64 bits.
pub tree_node_id-within :
    (depth index : ℕ)
    → index * 2 ^ depth ≤ 2 ^ 63
    → 2 ^ depth ≤ 2 * 2 ^ 63
    → (n : NodeId) × (tree_node_id depth index ≡ some n)
tree_node_id-within depth index first half = fits depth index (bits_within depth index first half)

pub record_node-Quiet : Quiet (2 ^ 63) record_node
unfolding record_node
record_node-Quiet depth index hash node_map first half =
    rw (record_node, (tree_node_id-within depth index first half).1) refl
