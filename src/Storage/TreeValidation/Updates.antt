-- ===== src/Storage/TreeValidation/Updates.antt =====
-- Updates of a tree, storage/tree_validation.go with server/admin/admin_server.go: the fields that
-- stay as they are.
use mathlib.Core.Path.{ap₂}
use trillian.Prelude.{
  ℕ, ◌≡◌, ◌↔◌, refl, ◌∙◌, ap, List, [], ◌∷◌, Bytes, bytes_equal→eq, bytes_equal_refl, Option, none,
  some, Bool, true, false, not, ◌==◌, ==_iff, arith,
}
use trillian.Prelude.Int.{ℤ, pos, negsuc, eqb_ℤ, eqb_ℤ-eq}
use trillian.Trees.{
  TreeType, unknown_tree_state, unknown_tree_type, log, map_tree, preordered_log, tree_type_eq,
}
use trillian.Storage.TreeValidation.Switch.{AllPass, first-AllPass, AllPass-first, passed, passes}
use trillian.Storage.TreeValidation.Fields.{MutableValid, validate_mutable_tree_fields_iff}
use trillian.Storage.TreeValidation.{
  Time, Tree, Decoders, time_equal, key_equal, bool_equal, validate_mutable_tree_fields,
  readonly_tests, validate_tree_for_update, MaskPath, tree_state_path, display_name_path,
  description_path, storage_settings_path, max_root_duration_path, private_key_path, other_path,
  copy_fields, apply_update_mask,
}

-- The fields that an update may not change.
pub record ReadonlySame (a b : Tree) : Type 0 where
  pub tree_id : a.tree_id ≡ b.tree_id
  pub tree_type : a.tree_type ≡ b.tree_type
  pub hash_strategy : a.hash_strategy ≡ b.hash_strategy
  pub hash_algorithm : a.hash_algorithm ≡ b.hash_algorithm
  pub signature_algorithm : a.signature_algorithm ≡ b.signature_algorithm
  pub create_time : a.create_time ≡ b.create_time
  pub update_time : a.update_time ≡ b.update_time
  pub public_key : a.public_key ≡ b.public_key
  pub deleted : a.deleted ≡ b.deleted
  pub delete_time : a.delete_time ≡ b.delete_time

eqb_ℤ_refl : (a : ℤ) → eqb_ℤ a a ≡ true
eqb_ℤ_refl (pos n) = ground arith
eqb_ℤ_refl (negsuc n) = ground arith

time_equal_refl : (t : Option Time) → time_equal t t ≡ true
time_equal_refl none = refl
time_equal_refl (some t) = rw (eqb_ℤ_refl t.seconds, eqb_ℤ_refl t.nanos) refl

time_of : ℤ → ℤ → Time
time_of seconds nanos = record { seconds = seconds; nanos = nanos }

time_equal-eq : (a b : Option Time) → time_equal a b ≡ true → a ≡ b
unfolding time_of
time_equal-eq none none h = refl
time_equal-eq none (some b) h = cc
time_equal-eq (some a) none h = cc
time_equal-eq (some a) (some b) h = ap some (
    ap₂ time_of (eqb_ℤ-eq a.seconds b.seconds (ground arith))
      (eqb_ℤ-eq a.nanos b.nanos (ground arith)))

key_equal_refl : (k : Option Bytes) → key_equal k k ≡ true
key_equal_refl none = refl
key_equal_refl (some k) = bytes_equal_refl k

key_equal-eq : (a b : Option Bytes) → key_equal a b ≡ true → a ≡ b
key_equal-eq none none h = refl
key_equal-eq none (some b) h = cc
key_equal-eq (some a) none h = cc
key_equal-eq (some a) (some b) h = ap some (bytes_equal→eq a b h)

tree_type_eq_refl : (t : TreeType) → tree_type_eq t t ≡ true
tree_type_eq_refl unknown_tree_type = refl
tree_type_eq_refl log = refl
tree_type_eq_refl map_tree = refl
tree_type_eq_refl preordered_log = refl

tree_type_eq-eq : (a b : TreeType) → tree_type_eq a b ≡ true → a ≡ b
tree_type_eq-eq a b h = ground arith

bool_equal_refl : (b : Bool) → bool_equal b b ≡ true
bool_equal_refl true = refl
bool_equal_refl false = refl

bool_equal-eq : (a b : Bool) → bool_equal a b ≡ true → a ≡ b
bool_equal-eq true true h = refl
bool_equal-eq true false h = cc
bool_equal-eq false true h = cc
bool_equal-eq false false h = refl

same_passes :
    {A : Type 0} (eq : A → A → Bool) (a b : A) → eq a a ≡ true → a ≡ b → not (eq a b) ≡ false
same_passes eq a b itself h = rw (← h) (passes (eq a a) itself)

ReadonlySame-AllPass :
    (d : Decoders) (a b : Tree) → ReadonlySame a b → AllPass (readonly_tests d a b)
ReadonlySame-AllPass d a b h =
    let number = λ (x y : ℕ). x == y in
    let number_refl = λ (x : ℕ). (==_iff x x).1 refl in
    (
      same_passes eqb_ℤ a.tree_id b.tree_id (eqb_ℤ_refl a.tree_id) h.tree_id,
      (
        same_passes tree_type_eq a.tree_type b.tree_type (tree_type_eq_refl a.tree_type)
            h.tree_type,
        (
          same_passes number a.hash_strategy b.hash_strategy (number_refl a.hash_strategy)
              h.hash_strategy,
          (
            same_passes number a.hash_algorithm b.hash_algorithm (number_refl a.hash_algorithm)
                h.hash_algorithm,
            (
              same_passes number a.signature_algorithm b.signature_algorithm
                  (number_refl a.signature_algorithm) h.signature_algorithm,
              (
                same_passes time_equal a.create_time b.create_time (time_equal_refl a.create_time)
                    h.create_time,
                (
                  same_passes time_equal a.update_time b.update_time (time_equal_refl a.update_time)
                      h.update_time,
                  (
                    same_passes key_equal a.public_key b.public_key (key_equal_refl a.public_key)
                        h.public_key,
                    (
                      same_passes bool_equal a.deleted b.deleted (bool_equal_refl a.deleted)
                          h.deleted,
                      (
                        same_passes time_equal a.delete_time b.delete_time
                            (time_equal_refl a.delete_time) h.delete_time,
                        tt,
                      ),
                    ),
                  ),
                ),
              ),
            ),
          ),
        ),
      ),
    )

AllPass-ReadonlySame :
    (d : Decoders) (a b : Tree) → AllPass (readonly_tests d a b) → ReadonlySame a b
AllPass-ReadonlySame d a b (t₁, (t₂, (t₃, (t₄, (t₅, (t₆, (t₇, (t₈, (t₉, (t₁₀, _)))))))))) = record {
  tree_id = eqb_ℤ-eq a.tree_id b.tree_id (passed _ t₁);
  tree_type = tree_type_eq-eq a.tree_type b.tree_type (passed _ t₂);
  hash_strategy = (==_iff a.hash_strategy b.hash_strategy).0 (passed _ t₃);
  hash_algorithm = (==_iff a.hash_algorithm b.hash_algorithm).0 (passed _ t₄);
  signature_algorithm = (==_iff a.signature_algorithm b.signature_algorithm).0 (passed _ t₅);
  create_time = time_equal-eq a.create_time b.create_time (passed _ t₆);
  update_time = time_equal-eq a.update_time b.update_time (passed _ t₇);
  public_key = key_equal-eq a.public_key b.public_key (passed _ t₈);
  deleted = bool_equal-eq a.deleted b.deleted (passed _ t₉);
  delete_time = time_equal-eq a.delete_time b.delete_time (passed _ t₁₀);
}

-- A tree without the fields that an update may change.
abbrev readonly_fields : Tree → Tree
readonly_fields t = record t {
  tree_state = unknown_tree_state;
  display_name = [];
  description = [];
  private_key = none;
  storage_settings = none;
  max_root_duration = none;
}

readonly_fields-ReadonlySame :
    (a b : Tree) → readonly_fields a ≡ readonly_fields b → ReadonlySame a b
readonly_fields-ReadonlySame a b h = record {
  tree_id = ap (λ (t : Tree). t.tree_id) h;
  tree_type = ap (λ (t : Tree). t.tree_type) h;
  hash_strategy = ap (λ (t : Tree). t.hash_strategy) h;
  hash_algorithm = ap (λ (t : Tree). t.hash_algorithm) h;
  signature_algorithm = ap (λ (t : Tree). t.signature_algorithm) h;
  create_time = ap (λ (t : Tree). t.create_time) h;
  update_time = ap (λ (t : Tree). t.update_time) h;
  public_key = ap (λ (t : Tree). t.public_key) h;
  deleted = ap (λ (t : Tree). t.deleted) h;
  delete_time = ap (λ (t : Tree). t.delete_time) h;
}

-- The fields that a mask may name are others.
copy_fields_keeps :
    (source to a : Tree) (mask : List MaskPath)
    → readonly_fields a ≡ readonly_fields to
    → readonly_fields a ≡ readonly_fields (copy_fields source to mask).0
unfolding copy_fields
copy_fields_keeps source to a [] h = h
copy_fields_keeps source to a (tree_state_path ∷ mask) h =
    copy_fields_keeps source (record to { tree_state = source.tree_state }) a mask h
copy_fields_keeps source to a (display_name_path ∷ mask) h =
    copy_fields_keeps source (record to { display_name = source.display_name }) a mask h
copy_fields_keeps source to a (description_path ∷ mask) h =
    copy_fields_keeps source (record to { description = source.description }) a mask h
copy_fields_keeps source to a (storage_settings_path ∷ mask) h =
    copy_fields_keeps source (record to { storage_settings = source.storage_settings }) a mask h
copy_fields_keeps source to a (max_root_duration_path ∷ mask) h =
    copy_fields_keeps source (record to { max_root_duration = source.max_root_duration }) a mask h
copy_fields_keeps source to a (private_key_path ∷ mask) h =
    copy_fields_keeps source (record to { private_key = source.private_key }) a mask h
copy_fields_keeps source to a (other_path ∷ mask) h = h

apply_update_mask-ReadonlySame :
    (source to : Tree) (mask : List MaskPath) → ReadonlySame to (apply_update_mask source to mask).0
apply_update_mask-ReadonlySame source to [] = readonly_fields-ReadonlySame to to refl
apply_update_mask-ReadonlySame source to (path ∷ mask) =
    readonly_fields-ReadonlySame to (copy_fields source to (path ∷ mask)).0
      (copy_fields_keeps source to to (path ∷ mask) refl)

-- ValidateTreeForUpdate accepts a tree exactly if its readonly fields are those of the stored tree,
-- its state is known, its display name has at most 20 bytes and its description at most 200, its
-- duration decodes to a number that is not negative, its storage settings are nil or decode, and its
-- private key decodes to one whose public key is the tree's.
pub validate_tree_for_update_iff :
    (d : Decoders) (stored new_tree : Tree)
    → (validate_tree_for_update d stored new_tree ≡ none)
      ↔ (ReadonlySame stored new_tree × MutableValid d new_tree)
unfolding validate_tree_for_update
validate_tree_for_update_iff d stored new_tree =
    let mutable = validate_mutable_tree_fields_iff d new_tree in
    (
      λ accepted.
          let (pass, good) =
            first-AllPass (readonly_tests d stored new_tree)
              (validate_mutable_tree_fields d new_tree) accepted in
          (AllPass-ReadonlySame d stored new_tree pass, mutable.0 good),
      λ (same, good).
          AllPass-first (readonly_tests d stored new_tree) (validate_mutable_tree_fields d new_tree)
            (ReadonlySame-AllPass d stored new_tree same)
          ∙ mutable.1 good,
    )

-- Whatever the mask and the tree that its fields are copied from, ValidateTreeForUpdate judges the
-- masked tree by the fields that may change: no update mask changes a readonly field.
pub validate_tree_for_update-apply_update_mask :
    (d : Decoders) (source stored : Tree) (mask : List MaskPath)
    → validate_tree_for_update d stored (apply_update_mask source stored mask).0
      ≡ validate_mutable_tree_fields d (apply_update_mask source stored mask).0
unfolding validate_tree_for_update
validate_tree_for_update-apply_update_mask d source stored mask =
    let masked = (apply_update_mask source stored mask).0 in
    AllPass-first (readonly_tests d stored masked) (validate_mutable_tree_fields d masked)
      (ReadonlySame-AllPass d stored masked (apply_update_mask-ReadonlySame source stored mask))
