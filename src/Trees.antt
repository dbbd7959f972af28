-- ===== src/Trees.antt =====
-- trees/trees.go: the access to a tree. The tree of a context and the read of admin storage are
-- parameters; of a tree stand the fields that this code reads.
pub mod Access
mod Tests
use trillian.Prelude.{
  ℕ, List, [], ◌∷◌, Outcome, ok, err, ◌>>=◌, ◌>>◌, Option, none, some, Bool, true, false, not, ◌&&◌,
  length, ltb, if◌then◌else◌, map,
}
use trillian.Prelude.Int.{ℤ, eqb_ℤ}

pub data TreeType : Type 0 where
  unknown_tree_type log map_tree preordered_log : TreeType

pub data TreeState : Type 0 where
  unknown_tree_state active frozen deprecated_soft_deleted deprecated_hard_deleted : TreeState

pub record Tree : Type 0 where
  pub tree_id : ℤ
  pub tree_state : TreeState
  pub tree_type : TreeType
  pub deleted : Bool

pub data Error : Type 0 where
  type_not_allowed permission_denied not_found storage_failed : Error

-- The map of tree types is the list of its entries.
pub record GetOpts : Type 0 where
  pub tree_types : List (TreeType × Bool)
  pub readonly : Bool

abbrev pub tree_type_eq : TreeType → TreeType → Bool
tree_type_eq unknown_tree_type unknown_tree_type = true
tree_type_eq log log = true
tree_type_eq map_tree map_tree = true
tree_type_eq preordered_log preordered_log = true
tree_type_eq a b = false

-- The map's value at a type, `false` if it has no entry.
abbrev pub allows : List (TreeType × Bool) → TreeType → Bool
allows [] t = false
allows ((a, value) ∷ rest) t =
    let others = allows rest t in if tree_type_eq a t then value else others

abbrev pub is_frozen : TreeState → Bool
is_frozen frozen = true
is_frozen s = false

abbrev pub new_get_opts : Bool → List TreeType → GetOpts
new_get_opts readonly types = record {
  tree_types = map (λ (t : TreeType). (t, true)) types;
  readonly = readonly;
}

unfoldable pub validate : GetOpts → Tree → Outcome Error (Unit {0})
validate o tree =
    if ltb 0 (length o.tree_types) && not (allows o.tree_types tree.tree_type)
    then err type_not_allowed
    else if is_frozen tree.tree_state && not o.readonly
    then err permission_denied
    else ok tt

-- The tree of the context if it has the asked id, or else the one in storage.
unfoldable pub find_tree : Option Tree → (ℤ → Outcome Error Tree) → ℤ → Outcome Error Tree
find_tree none stored_tree tree_id = stored_tree tree_id
find_tree (some tree) stored_tree tree_id =
    if eqb_ℤ tree.tree_id tree_id then ok tree else stored_tree tree_id

unfoldable pub get_tree : Option Tree → (ℤ → Outcome Error Tree) → ℤ → GetOpts → Outcome Error Tree
get_tree context stored_tree tree_id opts = do
  tree ← find_tree context stored_tree tree_id
  validate opts tree
  if tree.deleted then err not_found else ok tree
