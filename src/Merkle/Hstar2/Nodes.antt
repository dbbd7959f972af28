-- ===== src/Merkle/Hstar2/Nodes.antt =====
-- HStar2Nodes of merkle/hstar2.go: the update of the subtree at a prefix, whose old nodes are read
-- and whose new ones are written by two functions.
use trillian.Prelude.{
  ℕ, zero, suc, ◌+◌, ◌-◌, ◌*◌, ◌/◌, ◌%◌, ◌^◌, ◌<◌, ◌≡◌, refl, sym, ap, ◌∙◌, subst, List, [], ◌∷◌,
  ◌++◌, Bytes, Outcome, ok, err, panic, out_of_fuel, Option, none, some, false, length, replicate,
  take, drop, ltb, length-append, arith,
}
use trillian.Storage.NodeId.{NodeId}
use trillian.Storage.NodeId.Coords.{two-pow-add, two-pow_bytes}
use trillian.Storage.NodeId.BigEndian.{AreBytes, set_bytes-zeros, set_bytes-append, set_bytes_bound}
use trillian.Storage.NodeId.Masks.{copy_bytes-nil, copy_bytes-zeros}
use trillian.Storage.NodeId.Paths.{
  new_node_id_from_prefix_suffix, set_bytes, big_int, copy_bytes, copy_at,
}
use trillian.Prelude.Int.{ℤ}
use trillian.Merkle.MapHasher.{MapHasher}
use trillian.Merkle.Hstar2.{
  LeafHash, SparseGetNodeFunc, SparseSetNodeFunc, Sorting, get_result, or_empty, get_node,
  ignore_error, hstar2_nodes,
}
use trillian.Merkle.Hstar2.Tree.{node_value, node}
use trillian.Merkle.Hstar2.Sorted.{All, Sorts, Searches}
use trillian.Merkle.Hstar2.Levels.{Within}
use trillian.Merkle.Hstar2.Placed.{Apart}
use trillian.Merkle.Hstar2.Correct.{Yields, Yields-after, Reads, Writes, hstar2b-node}
use trillian.Merkle.Hstar2.Written.{written, sort-Placed}
use trillian.Merkle.Hstar2.Root.{empty_hash-node}

take-drop : (k : ℕ) (xs : Bytes) → take k xs ++ copy_bytes (drop k xs) [] ≡ xs
take-drop zero xs = copy_bytes-nil xs
take-drop (suc k) [] = refl
take-drop (suc k) (x ∷ xs) = ap (λ (ys : Bytes). x ∷ ys) (take-drop k xs)

prefix_path :
    (prefix : Bytes) (k : ℕ)
    → copy_at (copy_bytes (replicate (length prefix + k) 0) prefix) (length prefix) []
      ≡ ok (prefix ++ replicate k 0)
prefix_path prefix k =
    let path = prefix ++ replicate k 0 in
    let long : ltb (length path) (length prefix) ≡ false =
      let size = length-append prefix (replicate k 0) in ground arith in
    rw (copy_bytes-zeros prefix k)
      (rw long (ap (λ (p : Bytes). ok p) (take-drop (length prefix) path)))

-- The identifier of the first leaf below a prefix.
prefix_id :
    (prefix : Bytes) (k max : ℕ)
    → max / 8 ≡ length prefix + k
    → (id : NodeId) × (new_node_id_from_prefix_suffix prefix (record { bits = 0; path = [] }) max
        ≡ ok id)
      × (big_int id ≡ set_bytes 0 prefix * 256 ^ k)
unfolding new_node_id_from_prefix_suffix
prefix_id prefix k max size = (
  record { path = prefix ++ replicate k 0; prefix_len_bits = length prefix * 8 + 0 },
  rw (size, prefix_path prefix k) refl,
  set_bytes-append 0 prefix (replicate k 0) ∙ set_bytes-zeros k (set_bytes 0 prefix),
)

module _ {S E : Type 0} (hasher : MapHasher E) (tree_id : ℤ) (w : ℕ) (P : S → Type 0)
    (new : ℕ → Option Bytes) where
  -- The function that gets nodes gives the old hash of a node that did not change, or none.
  abbrev pub Gets : (ℕ → Option Bytes) → SparseGetNodeFunc S E → Type 0
  Gets old getter =
      (n d j : ℕ) (s : S)
      → d + n + w ≡ hasher.bit_len
      → j < 2 ^ d
      → P s
      → node hasher tree_id new n d j ≡ node hasher tree_id old n d j
      → Yields P (node hasher tree_id old n d j) (getter d (j * 2 ^ (n + w)) s)

  -- The function that sets nodes takes the new value of a node.
  abbrev pub Sets : SparseSetNodeFunc S E → Type 0
  Sets setter =
      (n d j : ℕ) (s : S)
      → d + n + w ≡ hasher.bit_len
      → j < 2 ^ d
      → P s
      → Yields P tt (
          setter d (j * 2 ^ (n + w)) (node_value hasher tree_id d j (node hasher tree_id new n d j))
            s)

get_result-Yields :
    {S E A : Type 0} {P : S → Type 0} (x : A) (p : S × Outcome E A)
    → Yields P x p
    → Yields P x (get_result p)
get_result-Yields x (s, ok y) h = record { state = h.state; returned = (let e = h.returned in cc) }
get_result-Yields x (s, err e) h = absurd (let f = h.returned in cc)
get_result-Yields x (s, panic) h = absurd (let f = h.returned in cc)
get_result-Yields x (s, out_of_fuel) h = absurd (let f = h.returned in cc)

set_result-Yields :
    {S E : Type 0} {P : S → Type 0} (p : S × Outcome E (Unit {0}))
    → Yields P tt p
    → Yields P tt (ignore_error p)
set_result-Yields (s, ok tt) h = record { state = h.state; returned = refl }
set_result-Yields (s, err e) h = record { state = h.state; returned = refl }
set_result-Yields (s, panic) h = absurd (let f = h.returned in cc)
set_result-Yields (s, out_of_fuel) h = absurd (let f = h.returned in cc)

module _ {S E : Type 0} (hasher : MapHasher E) (tree_id : ℤ) (w : ℕ) (P : S → Type 0) where
  -- What is not stored is an empty subtree's hash.
  or_empty-Yields :
      (n d j : ℕ) (x : Option Bytes) (s : S)
      → hasher.bit_len % 8 ≡ 0
      → d + n + w ≡ hasher.bit_len
      → j < 2 ^ d
      → P s
      → Yields P
          (node_value hasher tree_id d j x)
          (or_empty hasher tree_id (j * (2 ^ n * 2 ^ w)) d x s)
  or_empty-Yields n d j none s bytes levels small p = record {
    state = p;
    returned = empty_hash-node hasher tree_id bytes n d j w levels small;
  }
  or_empty-Yields n d j (some x) s bytes levels small p = record { state = p; returned = refl }

  getter-Reads :
      (old new : ℕ → Option Bytes) (getter : SparseGetNodeFunc S E)
      → hasher.bit_len % 8 ≡ 0
      → Gets hasher tree_id w P new old getter
      → Reads hasher tree_id w P old new (some getter)
  getter-Reads old new getter bytes gets n d j s levels small p same =
      let x = node hasher tree_id old n d j in
      let index = j * (2 ^ n * 2 ^ w) in
      let read : Yields P x (getter d index s) =
        subst (λ i. Yields P x (getter d (j * i) s)) (two-pow-add n w)
          (gets n d j s levels small p same) in
      let result : Yields P (node_value hasher tree_id d j x)
          (get_node hasher tree_id (some getter) index d s) =
        Yields-after x (get_result (getter d index s)) (or_empty hasher tree_id index d)
          (get_result-Yields x (getter d index s) read)
          (λ t q. or_empty-Yields n d j x t bytes levels small q) in
      subst
        (λ y.
          Yields P (node_value hasher tree_id d j y)
            (get_node hasher tree_id (some getter) index d s))
        (sym same) result

  setter-Writes :
      (new : ℕ → Option Bytes) (setter : SparseSetNodeFunc S E)
      → Sets hasher tree_id w P new setter
      → Writes hasher tree_id w P new (some setter)
  setter-Writes new setter sets n d j s levels small p =
      let h = node_value hasher tree_id d j (node hasher tree_id new n d j) in
      let index = j * (2 ^ n * 2 ^ w) in
      set_result-Yields (setter d index h s) (
        subst (λ i. Yields P tt (setter d (j * i) h s)) (two-pow-add n w)
          (sets n d j s levels small p))

-- HStar2Nodes of values below the prefix, in any order and no two of them at one leaf, returns the
-- hash of the node at the prefix in the full tree whose leaves are the old ones with these values
-- written, where the function that gets nodes gives the old hash of each node that did not change,
-- and the two functions succeed and keep what they rely on.
pub hstar2_nodes_lem :
    {S E : Type 0} (hasher : MapHasher E) (tree_id : ℤ) (sorting : Sorting)
    → Sorts sorting
    → Searches sorting
    → (prefix : Bytes) (depth w : ℕ) (old : ℕ → Option Bytes) (values : List LeafHash)
      (P : S → Type 0) (getter : SparseGetNodeFunc S E) (setter : SparseSetNodeFunc S E) (s : S)
    → hasher.bit_len % 8 ≡ 0
    → length prefix * 8 + depth + w ≡ hasher.bit_len
    → AreBytes prefix
    → All (Within (2 ^ w) depth (set_bytes 0 prefix)) values
    → Apart (2 ^ w) values
    → Gets hasher tree_id w P (written (2 ^ w) values old) old getter
    → Sets hasher tree_id w P (written (2 ^ w) values old) setter
    → P s
    → Yields P
        (node_value hasher tree_id (length prefix * 8) (set_bytes 0 prefix) (
          node hasher tree_id
            (written (2 ^ w) values old)
            depth
            (length prefix * 8)
            (set_bytes 0 prefix)))
        (hstar2_nodes hasher tree_id sorting prefix depth values (some getter) (some setter) s)
unfolding hstar2_nodes
hstar2_nodes_lem hasher tree_id sorting sorts searches prefix depth w old values P getter setter s
      bytes whole octets within apart gets sets p =
    let j = set_bytes 0 prefix in
    let new = written (2 ^ w) values old in
    let k = hasher.bit_len / 8 - length prefix in
    let id = prefix_id prefix k hasher.bit_len (omega arith) in
    let room : ltb hasher.bit_len (length prefix * 8 + depth) ≡ false = ground arith in
    let place : big_int id.0 ≡ j * (2 ^ depth * 2 ^ w) =
      id.2
      ∙ ap (λ (x : ℕ). j * x)
          (sym (two-pow_bytes k) ∙ ap (λ (x : ℕ). 2 ^ x) (omega arith) ∙ two-pow-add depth w) in
    let small : j < 2 ^ (length prefix * 8) =
      let bound = set_bytes_bound 0 prefix octets in omega (arith, two-pow_bytes (length prefix)) in
    let result =
      hstar2b-node hasher tree_id sorting searches w P old new (some getter) (some setter)
        (getter-Reads hasher tree_id w P old new getter bytes gets)
        (setter-Writes hasher tree_id w P new setter sets) depth (length prefix * 8) j
        (sorting.sort values) s whole small
        (sort-Placed sorting sorts (2 ^ w) depth j values old within apart) p in
    rw (room, id.1, place) result
