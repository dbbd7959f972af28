-- ===== src/Merkle/Hstar2/Repeated.antt =====
-- HStar2Root of merkle/hstar2.go, where two values are at one leaf of the tree.
use mathlib.Core.Path.{ap₂}
use mathlib.Core.List.Permᴰ
use trillian.Prelude.{
  ℕ, zero, suc, ◌+◌, ◌-◌, ◌*◌, ◌%◌, ◌^◌, ◌<◌, ◌≤◌, ◌≡◌, ◌≢◌, ◌⊎◌, inl, inr, refl, sym, subst, List,
  [], ◌∷◌, Bytes, Outcome, ok, err, none, false, take, drop, leb, arith, ℕ_discrete,
}
use native.Mathlib.Nat.{zero-mul}
use trillian.Prelude.Bits.{two-pow-suc, two-pow_pos}
use trillian.Prelude.Int.{ℤ}
use trillian.Log.Tx.{Action, after, return, ◌>>=◌, ◌>>◌}
use trillian.Merkle.MapHasher.{MapHasher}
use trillian.Merkle.Hstar2.{
  LeafHash, Error, leaves_at_one_index, Sorting, split_index, set_node, hstar2b, hstar2_root,
}
use trillian.Merkle.Hstar2.Sorted.{
  All, Ascending, Sorts, Searches, Pairwise-take, Pairwise-drop, All-Permᴰ, Pairwise-Permᴰ,
}
use trillian.Merkle.Hstar2.Levels.{
  slot_of, Within, Within-Below, left_offset, right_offset, right-Missed, All-parts,
}
use trillian.Merkle.Hstar2.Placed.{Apart, left_part, right_part}
use trillian.Merkle.Hstar2.Correct.{hstar2b-node}
use trillian.Merkle.Hstar2.Written.{written, Ascending-Placed}
use trillian.Merkle.Hstar2.Root.{no_leaves, no_getter-Reads, no_setter-Writes, in_tree}

dec_missed :
    (u k : ℕ) (vs : List LeafHash)
    → All (λ v. k ≢ slot_of u v) vs ⊎ (All (λ v. k ≢ slot_of u v) vs → ⊥)
dec_missed u k [] = inl tt
dec_missed u k (v ∷ vs) = elim (ℕ_discrete k (slot_of u v)) [
  | yes e ↦ inr (λ h. h.0 e)
  | no e ↦ elim (dec_missed u k vs) [ inl h ↦ inl (e, h) | inr h ↦ inr (λ g. h g.1) ]
]

pub dec-Apart : (u : ℕ) (vs : List LeafHash) → Apart u vs ⊎ (Apart u vs → ⊥)
dec-Apart u [] = inl tt
dec-Apart u (v ∷ vs) = elim (dec_missed u (slot_of u v) vs) [
  | inl h ↦ elim (dec-Apart u vs) [ inl g ↦ inl (h, g) | inr g ↦ inr (λ f. g f.1) ]
  | inr h ↦ inr (λ f. h f.0)
]

missed-sym :
    (u k : ℕ) (vs : List LeafHash) → All (λ v. slot_of u v ≢ k) vs → All (λ v. k ≢ slot_of u v) vs
missed-sym u k [] h = tt
missed-sym u k (v ∷ vs) (first, rest) = ((λ e. first (sym e)), missed-sym u k vs rest)

-- Values on the two sides of the split are at different places.
Apart-parts :
    (u n j i : ℕ) (vs : List LeafHash)
    → 0 < u
    → All (Within u n (2 * j)) (take i vs)
    → All (Within u n (suc (2 * j))) (drop i vs)
    → Apart u (take i vs)
    → Apart u (drop i vs)
    → Apart u vs
Apart-parts u n j zero vs positive lefts rights first second = second
Apart-parts u n j (suc i) [] positive lefts rights first second = tt
Apart-parts u n j (suc i) (v ∷ vs) positive (l, lefts) rights (f, first) second =
    let here = slot_of u v in
    let below = Within-Below u n (2 * j) v positive l in
    (
      All-parts (λ x. here ≢ slot_of u x) i vs f
          (missed-sym u here (drop i vs)
            (right-Missed u n j here (drop i vs) positive below rights)),
      Apart-parts u n j i vs positive lefts rights first second,
    )

after_ok :
    {S E A B : Type 0} (p : S × Outcome E A) (k : A → Action S E B) (s : S) (a : A) (e : E)
    → p ≡ (s, ok a)
    → k a s ≡ (s, err e)
    → after p k ≡ (s, err e)
after_ok p k s a e first next = rw first next

after_err :
    {S E A B : Type 0} (p : S × Outcome E A) (k : A → Action S E B) (s : S) (e : E)
    → p ≡ (s, err e)
    → after p k ≡ (s, err e)
after_err p k s e first = rw first refl

module _ {S E : Type 0} (hasher : MapHasher E) (tree_id : ℤ) (sorting : Sorting)
    (searches : Searches sorting) (bytes : hasher.bit_len % 8 ≡ 0) (w : ℕ) where
  -- hStar2b of leaves at different places returns a hash and leaves the state alone.
  distinct :
      (n d j : ℕ) (vs : List LeafHash) (s : S)
      → d + n + w ≡ hasher.bit_len
      → j < 2 ^ d
      → All (Within (2 ^ w) n j) vs
      → Ascending vs
      → Apart (2 ^ w) vs
      → (h : Bytes) × (hstar2b hasher tree_id sorting n d vs (j * (2 ^ n * 2 ^ w)) none none s
          ≡ (s, ok h))
  distinct n d j vs s levels small within ascending apart =
      let new = written (2 ^ w) vs no_leaves in
      let result =
        hstar2b-node hasher tree_id sorting searches w (λ t. t ≡ s) no_leaves new none none
          (no_getter-Reads hasher tree_id bytes w s new)
          (no_setter-Writes hasher tree_id bytes w s new) n d j vs s levels small
          (Ascending-Placed (2 ^ w) n j vs no_leaves within ascending apart) refl in
      (_, ap₂ (λ t r. (t, r)) result.state result.returned)

  repeated :
      (n d j : ℕ) (vs : List LeafHash) (s : S)
      → d + n + w ≡ hasher.bit_len
      → j < 2 ^ d
      → All (Within (2 ^ w) n j) vs
      → Ascending vs
      → (Apart (2 ^ w) vs → ⊥)
      → hstar2b hasher tree_id sorting n d vs (j * (2 ^ n * 2 ^ w)) none none s
        ≡ (s, err leaves_at_one_index)
  unfolding hstar2b
  repeated zero d j [] s levels small within ascending twice = absurd (twice tt)
  repeated zero d j (v ∷ []) s levels small within ascending twice = absurd (twice (tt, tt))
  repeated zero d j (x ∷ y ∷ vs) s levels small within ascending twice = refl
  repeated (suc n) d j [] s levels small within ascending twice = absurd (twice tt)
  repeated (suc n) d j (v ∷ vs) s levels small within ascending twice =
      let split = 2 ^ (hasher.bit_len - d - 1) + j * (2 ^ suc n * 2 ^ w) in
      let i = split_index sorting (v ∷ vs) split in
      let middle = right_offset hasher.bit_len w n d j levels in
      let room : leb hasher.bit_len d ≡ false = ground arith in
      let deeper : suc d + n + w ≡ hasher.bit_len = omega arith in
      let wide = two-pow-suc d in
      let lefts = left_part sorting searches (2 ^ w) n j (v ∷ vs) split middle ascending within in
      let rights = right_part sorting searches (2 ^ w) n j (v ∷ vs) split middle ascending within in
      let order = λ (x y : LeafHash). x.index ≤ y.index in
      let first = Pairwise-take order i (v ∷ vs) ascending in
      let second = Pairwise-drop order i (v ∷ vs) ascending in
      let offset = sym (left_offset w n j) in
      let left : ℕ → Action S (Error E) Bytes =
        λ x. hstar2b hasher tree_id sorting n (suc d) (take i (v ∷ vs)) x none none in
      let right : ℕ → Action S (Error E) Bytes =
        λ x. hstar2b hasher tree_id sorting n (suc d) (drop i (v ∷ vs)) x none none in
      let top : Bytes → Bytes → Action S (Error E) Bytes = λ l r.
        set_node none (j * (2 ^ suc n * 2 ^ w)) d (hasher.hash_children l r)
        >> return (hasher.hash_children l r) in
      let next : Bytes → Action S (Error E) Bytes = λ l. right split >>= top l in
      rw room (elim (dec-Apart (2 ^ w) (take i (v ∷ vs))) [
        | inr again ↦ after_err (left (j * (2 ^ suc n * 2 ^ w)) s) next s leaves_at_one_index (
            subst (λ x. left x s ≡ (s, err leaves_at_one_index)) offset
              (repeated n (suc d) (2 * j) (take i (v ∷ vs)) s deeper (omega arith) lefts first
                again))
        | inl apart ↦
            let lhs =
              distinct n (suc d) (2 * j) (take i (v ∷ vs)) s deeper (omega arith) lefts first
                apart in
            let again : Apart (2 ^ w) (drop i (v ∷ vs)) → ⊥ = λ g.
              twice (Apart-parts (2 ^ w) n j i (v ∷ vs) (two-pow_pos w) lefts rights apart g) in
            after_ok (left (j * (2 ^ suc n * 2 ^ w)) s) next s lhs.0 leaves_at_one_index
              (subst (λ x. left x s ≡ (s, ok lhs.0)) offset lhs.1)
              (after_err (right split s) (top lhs.0) s leaves_at_one_index (
                subst (λ x. right x s ≡ (s, err leaves_at_one_index)) (sym middle)
                  (repeated n (suc d) (suc (2 * j)) (drop i (v ∷ vs)) s deeper (omega arith) rights
                    second again)))
      ])

-- HStar2Root fails with the error of leaves at one index, where two of the values are at one leaf
-- of the tree of the depth, whatever their order. The indices and the depth are at most the
-- hasher's, which are whole bytes.
pub hstar2_root-err :
    {S E : Type 0} (hasher : MapHasher E) (tree_id : ℤ) (sorting : Sorting)
    → Sorts sorting
    → Searches sorting
    → (depth w : ℕ) (values : List LeafHash) (s : S) → hasher.bit_len % 8 ≡ 0
    → depth + w ≡ hasher.bit_len
    → All (λ v. v.index < 2 ^ (depth + w)) values
    → (Apart (2 ^ w) values → ⊥)
    → hstar2_root hasher tree_id sorting depth values s ≡ (s, err leaves_at_one_index)
unfolding hstar2_root
hstar2_root-err hasher tree_id sorting sorts searches depth w values s bytes whole inside twice =
    let perm = sorts.permutes values in
    let within = All-Permᴰ (Within (2 ^ w) depth 0) perm (in_tree depth w values inside) in
    let differ : LeafHash → LeafHash → Type 0 = λ x y. slot_of (2 ^ w) x ≢ slot_of (2 ^ w) y in
    let again : Apart (2 ^ w) (sorting.sort values) → ⊥ =
      λ g. twice (Pairwise-Permᴰ differ (λ a b h e. h (sym e)) (Permᴰ.symm perm) g) in
    rw (zero-mul (2 ^ depth * 2 ^ w)) at (
      repeated hasher tree_id sorting searches bytes w depth 0 0 (sorting.sort values) s
        (omega arith) (omega arith) within (sorts.ascending values) again)
