-- ===== src/Trees/Access.antt =====
-- What GetTree of trees/trees.go gives access to.
use trillian.Prelude.{
  subst, List, [], ◌∷◌, Outcome, ok, err, panic, out_of_fuel, ◌>>=◌, ◌>>◌, Option, none, some, Bool,
  true, false, not, ◌&&◌, length, ltb, if◌then◌else◌, ◌≡◌, ◌≢◌, refl, sym, ap, ◌∙◌, ◌⊎◌, inl, inr,
  arith, Bool-cases,
}
use trillian.Prelude.Int.{eqb_ℤ-eq, ℤ, eqb_ℤ}
use trillian.Trees.{
  TreeType, unknown_tree_type, log, map_tree, preordered_log, TreeState, frozen, Tree, Error,
  type_not_allowed, permission_denied, not_found, GetOpts, tree_type_eq, allows, is_frozen,
  validate, find_tree, get_tree,
}

-- The first entry for the type is `true`.
unfoldable pub OneOf : TreeType → List (TreeType × Bool) → Type 0
OneOf t [] = ⊥
OneOf t ((a, value) ∷ rest) = ((a ≡ t) × (value ≡ true)) ⊎ ((a ≢ t) × OneOf t rest)

-- The options allow the tree's type, by having no entries or `true` for this one, a frozen tree is
-- only read, and the tree is not deleted.
unfoldable pub Permitted : GetOpts → Tree → Type 0
Permitted o tree =
    ((o.tree_types ≡ []) ⊎ OneOf tree.tree_type o.tree_types)
    × ((tree.tree_state ≢ frozen) ⊎ (o.readonly ≡ true))
    × (tree.deleted ≡ false)

tree_type_eq-same : (t : TreeType) → tree_type_eq t t ≡ true
tree_type_eq-same unknown_tree_type = refl
tree_type_eq-same log = refl
tree_type_eq-same map_tree = refl
tree_type_eq-same preordered_log = refl

same_type : (a t : TreeType) → tree_type_eq a t ≡ true → a ≡ t
same_type unknown_tree_type unknown_tree_type h = refl
same_type log log h = refl
same_type map_tree map_tree h = refl
same_type preordered_log preordered_log h = refl
same_type a t h = absurd (cc)

other_type : (a t : TreeType) → tree_type_eq a t ≡ false → a ≢ t
other_type a t h same =
    let itself = subst (λ (x : TreeType). tree_type_eq x t ≡ false) same h in
    absurd (cc (itself, tree_type_eq-same t))

allows-OneOf :
    (types : List (TreeType × Bool)) (t : TreeType) → allows types t ≡ true → OneOf t types
unfolding OneOf
allows-OneOf [] t h = absurd (cc)
allows-OneOf ((a, value) ∷ rest) t h = elim (Bool-cases (tree_type_eq a t)) [
  | inl same ↦ inl (same_type a t same, rw same at h)
  | inr other ↦ inr (other_type a t other, allows-OneOf rest t (rw other at h))
]

is_frozen-same : (s : TreeState) → is_frozen s ≡ true → s ≡ frozen
is_frozen-same frozen h = refl
is_frozen-same s h = absurd (cc)

type_passes-OneOf :
    (types : List (TreeType × Bool)) (t : TreeType)
    → (ltb 0 (length types) && not (allows types t)) ≡ false
    → (types ≡ []) ⊎ OneOf t types
type_passes-OneOf [] t h = inl refl
type_passes-OneOf (a ∷ rest) t h = elim (Bool-cases (allows (a ∷ rest) t)) [
  | inl allowed ↦ inr (allows-OneOf (a ∷ rest) t allowed)
  | inr refused ↦ absurd (ground arith)
]

frozen_passes :
    (s : TreeState) (readonly : Bool)
    → (is_frozen s && not readonly) ≡ false
    → (s ≢ frozen) ⊎ (readonly ≡ true)
frozen_passes s true h = inr refl
frozen_passes s false h = inl (λ same. absurd (is_it (rw same at h)))
  where
    is_it : (is_frozen frozen && not false) ≡ false → ⊥
    is_it h = absurd (cc)

three_tests :
    (named closed gone : Bool) (tree t : Tree)
    → ◌≡◌ {A = Outcome Error Tree}
        ((if named then err type_not_allowed else if closed then err permission_denied else ok tt)
          >> (if gone then err not_found else ok tree))
        (ok t)
    → (named ≡ false) × (closed ≡ false) × (gone ≡ false) × (tree ≡ t)
three_tests false false false tree t h = (refl, refl, refl, cc)
three_tests false false true tree t h = absurd (cc)
three_tests false true gone tree t h = absurd (cc)
three_tests true closed gone tree t h = absurd (cc)

find_tree-id :
    (context : Option Tree) (stored_tree : ℤ → Outcome Error Tree) (id : ℤ)
    → ((i : ℤ) (tree : Tree) → stored_tree i ≡ ok tree → tree.tree_id ≡ i)
    → (tree : Tree) → find_tree context stored_tree id ≡ ok tree
    → tree.tree_id ≡ id
unfolding find_tree
find_tree-id none stored_tree id law tree found = law id tree found
find_tree-id (some t) stored_tree id law tree found = elim (Bool-cases (eqb_ℤ t.tree_id id)) [
  | inl same ↦
      let here : t ≡ tree = injected t tree (rw same at found) in
      ap (λ (x : Tree). x.tree_id) (sym here) ∙ eqb_ℤ-eq t.tree_id id same
  | inr other ↦ law id tree (rw other at found)
]
  where
    injected : (a b : Tree) → ◌≡◌ {A = Outcome Error Tree} (ok a) (ok b) → a ≡ b
    injected a b h = cc

found_sound :
    (found : Outcome Error Tree) (opts : GetOpts) (t : Tree)
    → (found >>= λ tree. (validate opts tree >> (if tree.deleted then err not_found else ok tree)))
      ≡ ok t
    → (found ≡ ok t) × Permitted opts t
unfolding validate Permitted
found_sound (ok tree) o t h =
    let tests =
      three_tests (ltb 0 (length o.tree_types) && not (allows o.tree_types tree.tree_type))
        (is_frozen tree.tree_state && not o.readonly) tree.deleted tree t h in
    let allowed : Permitted o tree = (
      type_passes-OneOf o.tree_types tree.tree_type tests.0,
      frozen_passes tree.tree_state o.readonly tests.1,
      tests.2,
    ) in
    (ap ok tests.3, subst (Permitted o) tests.3 allowed)
found_sound (err e) opts t h = absurd (cc)
found_sound panic opts t h = absurd (cc)
found_sound out_of_fuel opts t h = absurd (cc)

-- If storage returns only trees of the id that is asked for and GetTree returns a tree, then it is
-- the one that the context or storage has, its id is the one asked for, and it is permitted.
pub get_tree_sound :
    (context : Option Tree) (stored_tree : ℤ → Outcome Error Tree) (id : ℤ) (opts : GetOpts)
    (t : Tree)
    → ((i : ℤ) (tree : Tree) → stored_tree i ≡ ok tree → tree.tree_id ≡ i)
    → get_tree context stored_tree id opts ≡ ok t
    → (find_tree context stored_tree id ≡ ok t) × (t.tree_id ≡ id) × Permitted opts t
unfolding get_tree
get_tree_sound context stored_tree id opts t law got =
    let both = found_sound (find_tree context stored_tree id) opts t got in
    (both.0, find_tree-id context stored_tree id law t both.0, both.1)
