-- ===== src/Merkle/Hstar2/Written.antt =====
-- The tree that merkle/hstar2.go updates, after the update: its leaves, and what hStar2b is called
-- with for all of the values.
use mathlib.Core.List.Permᴰ
use trillian.Prelude.{
  ℕ, ◌/◌, ◌≡◌, ◌≢◌, refl, sym, List, [], ◌∷◌, Bytes, Option, some, true, false, ◌==◌, if◌then◌else◌,
  arith,
}
use trillian.Merkle.Hstar2.{LeafHash, Sorting}
use trillian.Merkle.Hstar2.Sorted.{All, Ascending, Sorts, All-Permᴰ, Pairwise-Permᴰ}
use trillian.Merkle.Hstar2.Levels.{slot_of, Within}
use trillian.Merkle.Hstar2.Placed.{Apart, Placed}

-- The leaves after an update, where a leaf has `u` indices.
abbrev pub written : ℕ → List LeafHash → (ℕ → Option Bytes) → ℕ → Option Bytes
written u [] old k = old k
written u (v ∷ vs) old k = if v.index / u == k then some v.leaf_hash else written u vs old k

written-kept :
    (u : ℕ) (vs : List LeafHash) (old : ℕ → Option Bytes) (k : ℕ)
    → All (λ v. slot_of u v ≢ k) vs
    → written u vs old k ≡ old k
written-kept u [] old k missed = refl
written-kept u (v ∷ vs) old k (first, rest) =
    let other : v.index / u == k ≡ false = ground arith in rw other (written-kept u vs old k rest)

written-cons :
    (u : ℕ) (v : LeafHash) (vs : List LeafHash) (old : ℕ → Option Bytes) (ws : List LeafHash)
    → All (λ x. slot_of u v ≢ slot_of u x) ws
    → All (λ x. written u vs old (slot_of u x) ≡ some x.leaf_hash) ws
    → All (λ x. written u (v ∷ vs) old (slot_of u x) ≡ some x.leaf_hash) ws
written-cons u v vs old [] apart h = tt
written-cons u v vs old (x ∷ ws) (a, apart) (h, hs) =
    let other : v.index / u == x.index / u ≡ false = ground arith in
    (rw other h, written-cons u v vs old ws apart hs)

written-at :
    (u : ℕ) (vs : List LeafHash) (old : ℕ → Option Bytes)
    → Apart u vs
    → All (λ v. written u vs old (slot_of u v) ≡ some v.leaf_hash) vs
written-at u [] old apart = tt
written-at u (v ∷ vs) old (first, rest) =
    let here : v.index / u == v.index / u ≡ true = ground arith in
    (rw here refl, written-cons u v vs old vs first (written-at u vs old rest))

-- A sorted slice of values at different places.
pub Ascending-Placed :
    (u n j : ℕ) (vs : List LeafHash) (old : ℕ → Option Bytes)
    → All (Within u n j) vs
    → Ascending vs
    → Apart u vs
    → Placed u old (written u vs old) n j vs
Ascending-Placed u n j vs old within ascending apart = record {
  within = within;
  ascending = ascending;
  apart = apart;
  written = written-at u vs old apart;
  kept = λ k b missed. written-kept u vs old k missed;
}

-- Values at different places, in any order, are what a sorted slice must be.
pub sort-Placed :
    (sorting : Sorting)
    → Sorts sorting
    → (u n j : ℕ) (values : List LeafHash) (old : ℕ → Option Bytes) → All (Within u n j) values
    → Apart u values
    → Placed u old (written u values old) n j (sorting.sort values)
sort-Placed sorting sorts u n j values old within apart =
    let new = written u values old in
    let perm = sorts.permutes values in
    record {
      within = All-Permᴰ (Within u n j) perm within;
      ascending = sorts.ascending values;
      apart = Pairwise-Permᴰ (λ v w. slot_of u v ≢ slot_of u w) (λ a b h e. h (sym e)) perm apart;
      written =
          All-Permᴰ (λ v. new (slot_of u v) ≡ some v.leaf_hash) perm
            (written-at u values old apart);
      kept = λ k b missed.
          written-kept u values old k (All-Permᴰ (λ v. slot_of u v ≢ k) (Permᴰ.symm perm) missed);
    }
