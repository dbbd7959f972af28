-- ===== src/Merkle/MerklePath.antt =====
-- merkle/merkle_path.go: the addresses of the nodes of a proof. Sizes, levels and node numbers are
-- not negative behind the guards and are natural numbers there.
pub mod Skip
pub mod Addresses
pub mod Ends
mod Tests
use Prim.Native.Nat.{bit_and}
use trillian.Prelude.{
  ℕ, zero, suc, ◌+◌, ◌-◌, ◌*◌, ◌/◌, ◌%◌, ◌^◌, List, [], ◌∷◌, ◌++◌, Outcome, ok, err, panic,
  out_of_fuel, ◌>>=◌, ◌>>◌, Bool, true, false, not, ◌&&◌, ◌||◌, ltb, ◌==◌, if◌then◌else◌,
}
use trillian.Prelude.Int.{ℤ, pos, negsuc, ltb_ℤ}
use trillian.Storage.NodeId
use trillian.Storage.NodeId.{NodeId, new_node_id_for_tree_coords}

pub record NodeFetch : Type 0 where
  pub id : NodeId
  pub rehash : Bool

pub data Error : Type 0 where
  snapshot_below_one snapshot_past_tree index_past_snapshot negative_index bad_max_bit_len
        snapshots_out_of_order :
      Error
  past_snapshot_missing nothing_recomputed invalid_rehash mismatched_rehash : Error
  bad_coords : NodeId.Error → Error

abbrev pub Fetches : Type 0
Fetches = Outcome Error (List NodeFetch)

-- `n ^ 1`
abbrev pub xor_one : ℕ → ℕ
xor_one n = if n % 2 == 0 then n + 1 else n - 1

abbrev pub coords_result : Outcome NodeId.Error NodeId → Outcome Error NodeId
coords_result (ok n) = ok n
coords_result (err e) = err (bad_coords e)
coords_result panic = panic
coords_result out_of_fuel = out_of_fuel

abbrev pub tree_coords : ℕ → ℕ → ℕ → Outcome Error NodeId
tree_coords max_bit_len level node =
    coords_result (new_node_id_for_tree_coords (pos level) (pos node) max_bit_len)

abbrev pub fetch_of : Bool → NodeId → NodeFetch
fetch_of rehash n = record { id = n; rehash = rehash }

-- The size is positive wherever this is called.
unfoldable pub last_node_present : ℕ → ℕ → Bool
last_node_present level ts =
    if level == 0 then true else not (bit_and (ts - 1) (2 ^ (level - 1)) == 0)

-- The loop of skipMissingLevels, which goes down one level a round.
unfoldable pub skip_loop : ℕ → ℕ → ℕ → ℕ → ℕ × ℕ
skip_loop snapshot zero last_node sibling = (0, sibling)
skip_loop snapshot (suc level) last_node sibling =
    let deeper = skip_loop snapshot level ((snapshot - 1) / 2 ^ level) (sibling * 2) in
    if sibling == last_node && not (last_node_present (suc level) snapshot)
    then deeper
    else (suc level, sibling)

abbrev pub skip_missing_levels : ℕ → ℕ → ℕ → ℕ → ℕ × ℕ
skip_missing_levels snapshot last_node level node =
    skip_loop snapshot level last_node (xor_one node)

unfoldable pub sibling_id_skip_levels : ℕ → ℕ → ℕ → ℕ → ℕ → Outcome Error NodeId
sibling_id_skip_levels snapshot last_node level node max_bit_len =
    let found = skip_missing_levels snapshot last_node level node in
    tree_coords max_bit_len found.0 found.1

-- Whether some fetch has another mark than the first.
abbrev pub mismatched : Bool → List NodeFetch → Bool
mismatched rehash [] = false
mismatched true (f ∷ fs) = not f.rehash || mismatched true fs
mismatched false (f ∷ fs) = f.rehash || mismatched false fs

unfoldable pub check_recomputation : List NodeFetch → Outcome Error (Unit {0})
check_recomputation [] = err nothing_recomputed
check_recomputation (f ∷ []) = if f.rehash then err invalid_rehash else ok tt
check_recomputation (f ∷ g ∷ fs) =
    if mismatched f.rehash (g ∷ fs) then err mismatched_rehash else ok tt

module _ (snapshot tree_size node_level max_bit_len : ℕ) where
  -- The state of the second loop of recomputePastSnapshot.
  pub record Rehashing : Type 0 where
    pub rehash : Bool
    pub sub_root_emitted : Bool
    pub fetches : List NodeFetch

  -- The part of a round for a node with a left sibling.
  unfoldable pub rehash_node : NodeId → ℕ → ℕ → ℕ → Rehashing → Outcome Error Rehashing
  rehash_node saved level last_node last_at_level s = if last_node % 2 == 0 then ok s else (do
    n ← sibling_id_skip_levels snapshot last_at_level level (xor_one (last_node - 1)) max_bit_len
    let first = not s.rehash && not s.sub_root_emitted
    let before = if first then s.fetches ++ fetch_of true saved ∷ [] else s.fetches
    ok (record {
      rehash = true;
      sub_root_emitted = first || s.sub_root_emitted;
      fetches = before ++ fetch_of true n ∷ [];
    }))

  unfoldable pub rehash_loop : ℕ → NodeId → ℕ → ℕ → ℕ → Rehashing → Fetches
  rehash_loop zero saved level last_node last_at_level s = out_of_fuel
  rehash_loop (suc f) saved level last_node last_at_level s =
      let rest = rehash_loop f saved (suc level) (last_node / 2) (last_at_level / 2) in
      if last_node == 0 then ok s.fetches else (do
        t ← rehash_node saved level last_node last_at_level s
        if node_level == suc level && not t.sub_root_emitted
            then ok (t.fetches ++ fetch_of t.rehash saved ∷ [])
            else if suc level == node_level
            then ok t.fetches
            else rest t)

  -- From the left sibling without a right one on.
  unfoldable pub rehash_from : ℕ → ℕ → ℕ → Fetches
  rehash_from level last_node last_at_level = do
    saved ← sibling_id_skip_levels snapshot last_at_level level (xor_one last_node) max_bit_len
    if node_level == level
        then ok (fetch_of true saved ∷ [])
        else rehash_loop (suc last_node) saved level last_node last_at_level
            (record { rehash = false; sub_root_emitted = false; fetches = [] })

  unfoldable pub climb_loop : ℕ → ℕ → ℕ → ℕ → Fetches
  climb_loop zero level last_node last_at_level = out_of_fuel
  climb_loop (suc f) level last_node last_at_level =
      let rest = climb_loop f (suc level) (last_node / 2) (last_at_level / 2) in
      if last_node % 2 == 0
      then rehash_from level last_node last_at_level
      else if node_level == level
      then (do
        n ← sibling_id_skip_levels snapshot last_at_level level (xor_one last_node) max_bit_len
        ok (fetch_of false n ∷ []))
      else rest

  unfoldable pub recompute_past_snapshot : Fetches
  recompute_past_snapshot =
      if snapshot == tree_size
      then ok []
      else if ltb tree_size snapshot
      then err past_snapshot_missing
      else climb_loop snapshot 0 (snapshot - 1) (tree_size - 1)

module _ (snapshot tree_size max_bit_len : ℕ) where
  -- What a round of pathFromNodeToRootAtSnapshot adds to the proof.
  unfoldable pub sibling_fetches : ℕ → ℕ → ℕ → Fetches
  sibling_fetches node level last_node =
      if ltb (xor_one node) last_node
      then (do n ← tree_coords max_bit_len level (xor_one node); ok (fetch_of false n ∷ []))
      else if xor_one node == last_node
      then if snapshot == tree_size
        then (do
          n ← sibling_id_skip_levels snapshot last_node level node max_bit_len
          ok (fetch_of false n ∷ []))
        else (do
          rehash_fetches ← recompute_past_snapshot snapshot tree_size level max_bit_len
          check_recomputation rehash_fetches
          ok rehash_fetches)
      else ok []

  unfoldable pub path_loop : ℕ → ℕ → ℕ → ℕ → Fetches
  path_loop zero node level last_node = out_of_fuel
  path_loop (suc f) node level last_node =
      let rest = path_loop f (node / 2) (suc level) (last_node / 2) in
      if last_node == 0
      then ok []
      else (do here ← sibling_fetches node level last_node; above ← rest; ok (here ++ above))

  unfoldable pub path_from_node_to_root_at_snapshot : ℕ → ℕ → Fetches
  path_from_node_to_root_at_snapshot node level =
      let last_node = (snapshot - 1) / 2 ^ level in
      if snapshot == 0 then ok [] else path_loop (suc last_node) node level last_node
