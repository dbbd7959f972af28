-- ===== src/Storage/TreeValidation/Tests.antt =====
-- Runs of storage/tree_validation.go.
use trillian.Prelude.{◌≡◌, ◌↔◌, refl, [], ◌∷◌, Option, none, some, true, false}
use trillian.Prelude.Int.{ℤ, pos, negsuc}
use trillian.Trees.{log, active, frozen}
use trillian.Storage.TreeValidation.{
  Time, Tree, Decoders, deleted_changed, duration_negative, keys_not_a_pair, tree_state_path,
  display_name_path, copy_fields, apply_update_mask, validate_mutable_tree_fields,
  validate_tree_for_creation, validate_tree_for_update,
}
use trillian.Storage.TreeValidation.Fields.{MutableValid}
use trillian.Storage.TreeValidation.Updates.{
  ReadonlySame, validate_tree_for_update_iff, validate_tree_for_update-apply_update_mask,
}

abbrev nanoseconds : Option Time → Option ℤ
nanoseconds none = none
nanoseconds (some t) = some t.nanos

abbrev decoders : Decoders
decoders = record { duration = nanoseconds; is_any = λ any. true; public_der = λ key. some key }

abbrev a_log : Tree
a_log = record {
  tree_id = pos 5;
  tree_state = active;
  tree_type = log;
  hash_strategy = 1;
  hash_algorithm = 4;
  signature_algorithm = 3;
  display_name = [];
  description = [];
  create_time = none;
  update_time = none;
  private_key = some (7 ∷ []);
  storage_settings = none;
  public_key = some (7 ∷ []);
  max_root_duration = some (record { seconds = pos 0; nanos = pos 0 });
  deleted = false;
  delete_time = none;
}

abbrev source : Tree
source = record a_log { tree_id = pos 6; tree_state = frozen; deleted = true }

created : validate_tree_for_creation decoders (some a_log) ≡ none
unfolding validate_tree_for_creation validate_mutable_tree_fields
created = refl

other_key :
    validate_tree_for_creation decoders (some (record a_log { public_key = some [] }))
    ≡ some keys_not_a_pair
unfolding validate_tree_for_creation validate_mutable_tree_fields
other_key = refl

deletion :
    validate_tree_for_update decoders a_log (record a_log { deleted = true }) ≡ some deleted_changed
unfolding validate_tree_for_update
deletion = refl

negative_duration :
    validate_tree_for_update decoders a_log
      (record a_log { max_root_duration = some (record { seconds = pos 0; nanos = negsuc 0 }) })
    ≡ some duration_negative
unfolding validate_tree_for_update validate_mutable_tree_fields
negative_duration = refl

state_copied : (apply_update_mask source a_log (tree_state_path ∷ [])).0.tree_state ≡ frozen
unfolding copy_fields
state_copied = refl

validate_tree_for_update_iff_example :
    (validate_tree_for_update decoders a_log (record a_log { tree_state = frozen }) ≡ none) ↔ (
      ReadonlySame a_log (record a_log { tree_state = frozen })
      × MutableValid decoders (record a_log { tree_state = frozen }))
validate_tree_for_update_iff_example =
    validate_tree_for_update_iff decoders a_log (record a_log { tree_state = frozen })

validate_tree_for_update-apply_update_mask_example :
    validate_tree_for_update decoders a_log
      (apply_update_mask source a_log (tree_state_path ∷ display_name_path ∷ [])).0
    ≡ validate_mutable_tree_fields decoders
        (apply_update_mask source a_log (tree_state_path ∷ display_name_path ∷ [])).0
validate_tree_for_update-apply_update_mask_example =
    validate_tree_for_update-apply_update_mask decoders source a_log
      (tree_state_path ∷ display_name_path ∷ [])
