-- ===== src/Storage/TreeValidation/Fields.antt =====
-- The fields that an update may change, storage/tree_validation.go: what validateMutableTreeFields
-- accepts.
use trillian.Prelude.{
  ℕ, ◌≤◌, ◌≡◌, ◌≢◌, ◌↔◌, refl, ◌∙◌, Bytes, bytes_equal, bytes_equal→eq, bytes_equal_refl, Option,
  none, some, ◌⊎◌, inl, inr, true, false, length, ltb, arith, Bool-cases, ap,
}
use trillian.Prelude.Int.{ℤ, pos, negsuc, ltb_ℤ}
use trillian.Trees.{
  TreeState, unknown_tree_state, active, frozen, deprecated_soft_deleted, deprecated_hard_deleted,
}
use trillian.Storage.TreeValidation.{
  Tree, Error, Decoders, is_unknown_state, first, der_of, duration_error, settings_malformed,
  key_error, pair_error, size_tests, settings_tests, duration_negative, keys_not_a_pair,
  validate_mutable_tree_fields,
}
use trillian.Storage.TreeValidation.Switch.{passed, passes, first-AllPass}

-- What is asked of the fields that an update may change.
pub record MutableValid (d : Decoders) (tree : Tree) : Type 0 where
  pub known_state : tree.tree_state ≢ unknown_tree_state
  pub short_name : length tree.display_name ≤ 20
  pub short_description : length tree.description ≤ 200
  pub duration : (n : ℕ) × (d.duration tree.max_root_duration ≡ some (pos n))
  pub settings :
      (tree.storage_settings ≡ none)
      ⊎ ((any : Bytes) × (tree.storage_settings ≡ some any) × (d.is_any any ≡ true))
  pub keys :
      (key : Bytes) × (tree.private_key ≡ some key)
      × (d.public_der key ≡ some (der_of tree.public_key))

is_unknown_state_iff : (s : TreeState) → (is_unknown_state s ≡ false) ↔ (s ≢ unknown_tree_state)
is_unknown_state_iff unknown_tree_state = (λ h. absurd (cc), λ h. absurd (h refl))
is_unknown_state_iff active = (λ h e. absurd (cc), λ h. refl)
is_unknown_state_iff frozen = (λ h e. absurd (cc), λ h. refl)
is_unknown_state_iff deprecated_soft_deleted = (λ h e. absurd (cc), λ h. refl)
is_unknown_state_iff deprecated_hard_deleted = (λ h e. absurd (cc), λ h. refl)

ltb-false_iff : (a b : ℕ) → (ltb a b ≡ false) ↔ (b ≤ a)
ltb-false_iff a b = (λ h. ground arith, λ h. ground arith)

same_some : {A : Type 0} (a b : A) → ◌≡◌ {A = Option A} (some a) (some b) → a ≡ b
same_some a b h = cc

pos_passes : (n : ℕ) → ltb_ℤ (pos n) (pos 0) ≡ false
pos_passes n = ground arith

negsuc_fails : (n : ℕ) → ltb_ℤ (negsuc n) (pos 0) ≡ true
negsuc_fails n = ground arith

some_error : (e : Error) → ◌≡◌ {A = Option Error} (some e) none → ⊥
some_error e h = absurd (cc)

duration_error-eq-none :
    (d : Decoders) (n : Option ℤ) (rest : Option Error)
    → duration_error d n rest ≡ none
    → ((k : ℕ) × (n ≡ some (pos k))) × (rest ≡ none)
duration_error-eq-none d none rest h = absurd (cc)
duration_error-eq-none d (some (pos n)) rest h = ((n, refl), rw (pos_passes n) at h)
duration_error-eq-none d (some (negsuc n)) rest h =
    absurd (some_error duration_negative (rw (negsuc_fails n) at h))

settings_accepted :
    (d : Decoders) (settings : Option Bytes)
    → settings_malformed d settings ≡ false
    → (settings ≡ none) ⊎ ((any : Bytes) × (settings ≡ some any) × (d.is_any any ≡ true))
settings_accepted d none h = inl refl
settings_accepted d (some any) h = inr (any, refl, passed (d.is_any any) h)

settings_accepted_rev :
    (d : Decoders) (settings : Option Bytes)
    → (settings ≡ none) ⊎ ((any : Bytes) × (settings ≡ some any) × (d.is_any any ≡ true))
    → settings_malformed d settings ≡ false
settings_accepted_rev d settings (inl e) = rw e refl
settings_accepted_rev d settings (inr (any, same, decodes)) =
    rw same (passes (d.is_any any) decodes)

pair_error-eq-none :
    (d : Decoders) (der public_key : Option Bytes)
    → pair_error d der public_key ≡ none
    → der ≡ some (der_of public_key)
pair_error-eq-none d none public_key h = absurd (cc)
pair_error-eq-none d (some der) public_key h =
    elim (Bool-cases (bytes_equal der (der_of public_key))) [
      | inl same ↦ ap some (bytes_equal→eq der (der_of public_key) same)
      | inr other ↦ absurd (some_error keys_not_a_pair (rw other at h))
    ]

pair_error_refl :
    (d : Decoders) (public_key : Option Bytes)
    → pair_error d (some (der_of public_key)) public_key ≡ none
pair_error_refl d public_key = rw (bytes_equal_refl (der_of public_key)) refl

key_error-eq-none :
    (d : Decoders) (private_key public_key : Option Bytes)
    → key_error d private_key public_key ≡ none
    → (key : Bytes) × (private_key ≡ some key) × (d.public_der key ≡ some (der_of public_key))
key_error-eq-none d none public_key h = absurd (cc)
key_error-eq-none d (some key) public_key h =
    (key, refl, pair_error-eq-none d (d.public_der key) public_key h)

eq-none-key_error :
    (d : Decoders) (private_key public_key : Option Bytes) (key : Bytes)
    → private_key ≡ some key
    → d.public_der key ≡ some (der_of public_key)
    → key_error d private_key public_key ≡ none
eq-none-key_error d private_key public_key key same pair =
    ap (λ (k : Option Bytes). key_error d k public_key) same
    ∙ ap (λ (der : Option Bytes). pair_error d der public_key) pair
    ∙ pair_error_refl d public_key

-- validateMutableTreeFields accepts a tree exactly if its mutable fields are valid.
pub validate_mutable_tree_fields_iff :
    (d : Decoders) (tree : Tree)
    → (validate_mutable_tree_fields d tree ≡ none) ↔ MutableValid d tree
unfolding validate_mutable_tree_fields
validate_mutable_tree_fields_iff d tree = (
  λ accepted.
      let keys_result = key_error d tree.private_key tree.public_key in
      let after_time = first (settings_tests d tree) keys_result in
      let (sizes, timed) =
        first-AllPass (size_tests d tree)
          (duration_error d (d.duration tree.max_root_duration) after_time) accepted in
      let (length_of_time, others) =
        duration_error-eq-none d (d.duration tree.max_root_duration) after_time timed in
      let (settings, keys) = first-AllPass (settings_tests d tree) keys_result others in
      record {
        known_state = (is_unknown_state_iff tree.tree_state).0 sizes.0;
        short_name = (ltb-false_iff 20 (length tree.display_name)).0 sizes.1.0;
        short_description = (ltb-false_iff 200 (length tree.description)).0 sizes.1.1.0;
        duration = length_of_time;
        settings = settings_accepted d tree.storage_settings settings.0;
        keys = key_error-eq-none d tree.private_key tree.public_key keys;
      },
  λ valid.
      let (key, is_key, pair) = valid.keys in
      rw
        (
          (is_unknown_state_iff tree.tree_state).1 valid.known_state,
          (ltb-false_iff 20 (length tree.display_name)).1 valid.short_name,
          (ltb-false_iff 200 (length tree.description)).1 valid.short_description,
          valid.duration.1,
          pos_passes valid.duration.0,
          settings_accepted_rev d tree.storage_settings valid.settings,
        )
        (eq-none-key_error d tree.private_key tree.public_key key is_key pair),
)
