-- ===== src/Storage/TreeValidation.antt =====
-- storage/tree_validation.go: the checks of a tree that is created or updated, and the update masks
-- of server/admin/admin_server.go. A nil pointer is `none`, an enumeration that is only compared is
-- its number, and keys and messages that are decoded are functions of the record `Decoders`.
pub mod Switch
pub mod Fields
pub mod Updates
mod Tests
use trillian.Prelude.{
  ℕ, List, [], ◌∷◌, Bytes, bytes_equal, Option, none, some, Bool, true, false, not, ◌&&◌, length,
  ltb, ◌==◌, if◌then◌else◌,
}
use trillian.Prelude.Int.{ℤ, pos, eqb_ℤ, ltb_ℤ}
use trillian.Trees.{
  TreeType, TreeState, unknown_tree_type, log, map_tree, preordered_log, unknown_tree_state, active,
  frozen, deprecated_soft_deleted, deprecated_hard_deleted, tree_type_eq,
}

-- A `Timestamp` or a `Duration`.
pub record Time : Type 0 where
  pub seconds : ℤ
  pub nanos : ℤ

-- `trillian.Tree`
pub record Tree : Type 0 where
  pub tree_id : ℤ
  pub tree_state : TreeState
  pub tree_type : TreeType
  pub hash_strategy : ℕ
  pub hash_algorithm : ℕ
  pub signature_algorithm : ℕ
  pub display_name : Bytes
  pub description : Bytes
  pub create_time : Option Time
  pub update_time : Option Time
  pub private_key : Option Bytes
  pub storage_settings : Option Bytes
  pub public_key : Option Bytes
  pub max_root_duration : Option Time
  pub deleted : Bool
  pub delete_time : Option Time

pub data Error : Type 0 where
  tree_required invalid_tree_state invalid_tree_type invalid_hash_strategy : Error
  invalid_hash_algorithm invalid_signature_algorithm private_key_required : Error
  public_key_required invalid_deleted invalid_delete_time : Error
  tree_id_changed tree_type_changed hash_strategy_changed hash_algorithm_changed : Error
  signature_algorithm_changed create_time_changed update_time_changed : Error
  public_key_changed deleted_changed delete_time_changed : Error
  display_name_too_big description_too_big : Error
  duration_malformed duration_negative invalid_storage_settings : Error
  invalid_private_key keys_not_a_pair : Error
  mask_required invalid_path : Error

-- The decoding of a duration to nanoseconds and of an `Any`, and the public key of a private key.
pub record Decoders : Type 0 where
  pub duration : Option Time → Option ℤ
  pub is_any : Bytes → Bool
  pub public_der : Bytes → Option Bytes

abbrev pub is_active : TreeState → Bool
is_active active = true
is_active s = false

abbrev pub is_unknown_state : TreeState → Bool
is_unknown_state unknown_tree_state = true
is_unknown_state s = false

abbrev pub is_some : {A : Type 0} → Option A → Bool
is_some none = false
is_some (some a) = true

-- proto.Equal of two times, and of two keys.
abbrev pub time_equal : Option Time → Option Time → Bool
time_equal none none = true
time_equal (some a) (some b) = eqb_ℤ a.seconds b.seconds && eqb_ℤ a.nanos b.nanos
time_equal a b = false

abbrev pub key_equal : Option Bytes → Option Bytes → Bool
key_equal none none = true
key_equal (some a) (some b) = bytes_equal a b
key_equal a b = false

abbrev pub bool_equal : Bool → Bool → Bool
bool_equal true b = b
bool_equal false b = not b

-- The first test of a switch that holds, or what comes after it.
abbrev pub first : List (Bool × Error) → Option Error → Option Error
first [] rest = rest
first ((fails, e) ∷ tests) rest = let others = first tests rest in if fails then some e else others

abbrev pub der_of : Option Bytes → Bytes
der_of none = []
der_of (some der) = der

module _ (d : Decoders) where
  -- The public key that a private key gives is the tree's.
  abbrev pub pair_error : Option Bytes → Option Bytes → Option Error
  pair_error none public_key = some invalid_private_key
  pair_error (some der) public_key =
      if bytes_equal der (der_of public_key) then none else some keys_not_a_pair

  -- The private key is decoded and gives the public key.
  abbrev pub key_error : Option Bytes → Option Bytes → Option Error
  key_error none public_key = some invalid_private_key
  key_error (some key) public_key = pair_error (d.public_der key) public_key

  abbrev pub duration_error : Option ℤ → Option Error → Option Error
  duration_error none rest = some duration_malformed
  duration_error (some n) rest = if ltb_ℤ n (pos 0) then some duration_negative else rest

  abbrev pub settings_malformed : Option Bytes → Bool
  settings_malformed none = false
  settings_malformed (some any) = not (d.is_any any)

  -- The first switch of validateMutableTreeFields, and its test of the storage settings.
  abbrev pub size_tests : Tree → List (Bool × Error)
  size_tests tree =
      (is_unknown_state tree.tree_state, invalid_tree_state)
      ∷ (ltb 20 (length tree.display_name), display_name_too_big)
      ∷ (ltb 200 (length tree.description), description_too_big)
      ∷ []

  abbrev pub settings_tests : Tree → List (Bool × Error)
  settings_tests tree = (settings_malformed tree.storage_settings, invalid_storage_settings) ∷ []

  unfoldable pub validate_mutable_tree_fields : Tree → Option Error
  validate_mutable_tree_fields tree = first (size_tests tree) (
      duration_error (d.duration tree.max_root_duration)
        (first (settings_tests tree) (key_error tree.private_key tree.public_key)))

  unfoldable pub validate_tree_for_creation : Option Tree → Option Error
  validate_tree_for_creation none = some tree_required
  validate_tree_for_creation (some tree) =
      first
        ((not (is_active tree.tree_state), invalid_tree_state)
          ∷ (tree_type_eq tree.tree_type unknown_tree_type, invalid_tree_type)
          ∷ (tree.hash_strategy == 0, invalid_hash_strategy)
          ∷ (tree.hash_algorithm == 0, invalid_hash_algorithm)
          ∷ (tree.signature_algorithm == 0, invalid_signature_algorithm)
          ∷ (not (is_some tree.private_key), private_key_required)
          ∷ (not (is_some tree.public_key), public_key_required)
          ∷ (tree.deleted, invalid_deleted)
          ∷ (is_some tree.delete_time, invalid_delete_time)
          ∷ [])
        (validate_mutable_tree_fields tree)

  -- The checks of the readonly fields.
  abbrev pub readonly_tests : Tree → Tree → List (Bool × Error)
  readonly_tests stored new_tree =
      (not (eqb_ℤ stored.tree_id new_tree.tree_id), tree_id_changed)
      ∷ (not (tree_type_eq stored.tree_type new_tree.tree_type), tree_type_changed)
      ∷ (not (stored.hash_strategy == new_tree.hash_strategy), hash_strategy_changed)
      ∷ (not (stored.hash_algorithm == new_tree.hash_algorithm), hash_algorithm_changed)
      ∷ (
        not (stored.signature_algorithm == new_tree.signature_algorithm),
        signature_algorithm_changed,
      )
      ∷ (not (time_equal stored.create_time new_tree.create_time), create_time_changed)
      ∷ (not (time_equal stored.update_time new_tree.update_time), update_time_changed)
      ∷ (not (key_equal stored.public_key new_tree.public_key), public_key_changed)
      ∷ (not (bool_equal stored.deleted new_tree.deleted), deleted_changed)
      ∷ (not (time_equal stored.delete_time new_tree.delete_time), delete_time_changed)
      ∷ []

  unfoldable pub validate_tree_for_update : Tree → Tree → Option Error
  validate_tree_for_update stored new_tree =
      first (readonly_tests stored new_tree) (validate_mutable_tree_fields new_tree)

-- The paths of an update mask that the server knows.
pub data MaskPath : Type 0 where
  tree_state_path display_name_path description_path storage_settings_path : MaskPath
  max_root_duration_path private_key_path other_path : MaskPath

-- A known path's field is copied.
abbrev pub copy_field : Tree → Tree → MaskPath → Option Tree
copy_field source to tree_state_path = some (record to { tree_state = source.tree_state })
copy_field source to display_name_path = some (record to { display_name = source.display_name })
copy_field source to description_path = some (record to { description = source.description })
copy_field source to storage_settings_path =
    some (record to { storage_settings = source.storage_settings })
copy_field source to max_root_duration_path =
    some (record to { max_root_duration = source.max_root_duration })
copy_field source to private_key_path = some (record to { private_key = source.private_key })
copy_field source to other_path = none

-- The loop of applyUpdateMask: the tree, and the error if there is one.
unfoldable pub copy_fields : Tree → Tree → List MaskPath → Tree × Option Error
copy_fields source to [] = (to, none)
copy_fields source to (path ∷ paths) = elim (copy_field source to path) [
  | none ↦ (to, some invalid_path)
  | some copied ↦ copy_fields source copied paths
]

abbrev pub apply_update_mask : Tree → Tree → List MaskPath → Tree × Option Error
apply_update_mask source to [] = (to, some mask_required)
apply_update_mask source to (path ∷ paths) = copy_fields source to (path ∷ paths)
