-- ===== src/Merkle/Hstar2/Sorted.antt =====
-- What merkle/hstar2.go relies on of the library's sort.Sort and sort.Search, and the two halves of
-- a sorted slice.
use mathlib.Core.List.{Permᴰ}
use trillian.Prelude.{
  ℕ, zero, suc, ◌+◌, ◌-◌, ◌<◌, ◌≤◌, ◌≡◌, sym, subst, List, [], ◌∷◌, Bool, true, false, length, take,
  drop, leb, leb→le, arith,
}
use trillian.Merkle.Hstar2.{LeafHash, Sorting, index_at, split_index}

abbrev pub All : (LeafHash → Type 0) → List LeafHash → Type 0
All P [] = Unit {0}
All P (v ∷ vs) = P v × All P vs

abbrev pub Pairwise : (LeafHash → LeafHash → Type 0) → List LeafHash → Type 0
Pairwise R [] = Unit {0}
Pairwise R (v ∷ vs) = All (R v) vs × Pairwise R vs

abbrev pub Ascending : List LeafHash → Type 0
Ascending = Pairwise (λ v w. v.index ≤ w.index)

-- sort.Sort permutes a slice, and no element is before a smaller one.
pub record Sorts (sorting : Sorting) : Type 0 where
  pub ascending : (values : List LeafHash) → Ascending (sorting.sort values)
  pub permutes : (values : List LeafHash) → Permᴰ (sorting.sort values) values

abbrev pub Monotone : ℕ → (ℕ → Bool) → Type 0
Monotone n f = (j : ℕ) → suc j < n → f j ≡ true → f (suc j) ≡ true

-- sort.Search gives the smallest index at which a monotone test holds, or the length.
pub record Searches (sorting : Sorting) : Type 0 where
  pub within : (n : ℕ) (f : ℕ → Bool) → Monotone n f → sorting.search n f ≤ n
  pub before :
      (n : ℕ) (f : ℕ → Bool) → Monotone n f → (j : ℕ) → j < sorting.search n f → f j ≡ false
  pub found :
      (n : ℕ) (f : ℕ → Bool) → Monotone n f → sorting.search n f < n → f (sorting.search n f) ≡ true

pub All-take : (P : LeafHash → Type 0) (i : ℕ) (vs : List LeafHash) → All P vs → All P (take i vs)
All-take P zero vs h = tt
All-take P (suc i) [] h = tt
All-take P (suc i) (v ∷ vs) (first, rest) = (first, All-take P i vs rest)

pub All-drop : (P : LeafHash → Type 0) (i : ℕ) (vs : List LeafHash) → All P vs → All P (drop i vs)
All-drop P zero vs h = h
All-drop P (suc i) [] h = tt
All-drop P (suc i) (v ∷ vs) (first, rest) = All-drop P i vs rest

pub Pairwise-take :
    (R : LeafHash → LeafHash → Type 0) (i : ℕ) (vs : List LeafHash)
    → Pairwise R vs
    → Pairwise R (take i vs)
Pairwise-take R zero vs h = tt
Pairwise-take R (suc i) [] h = tt
Pairwise-take R (suc i) (v ∷ vs) (first, rest) =
    (All-take (R v) i vs first, Pairwise-take R i vs rest)

pub Pairwise-drop :
    (R : LeafHash → LeafHash → Type 0) (i : ℕ) (vs : List LeafHash)
    → Pairwise R vs
    → Pairwise R (drop i vs)
Pairwise-drop R zero vs h = h
Pairwise-drop R (suc i) [] h = tt
Pairwise-drop R (suc i) (v ∷ vs) (first, rest) = Pairwise-drop R i vs rest

pub All-Permᴰ : (P : LeafHash → Type 0) {vs ws : List LeafHash} → Permᴰ vs ws → All P ws → All P vs
All-Permᴰ P Permᴰ.nil h = h
All-Permᴰ P (Permᴰ.cons e d) (first, rest) = (subst P (sym e) first, All-Permᴰ P d rest)
All-Permᴰ P (Permᴰ.swap e f) (first, (second, rest)) =
    (subst P (sym e) second, (subst P (sym f) first, rest))
All-Permᴰ P (Permᴰ.trans d e) h = All-Permᴰ P d (All-Permᴰ P e h)

pub Pairwise-Permᴰ :
    (R : LeafHash → LeafHash → Type 0) {vs ws : List LeafHash}
    → ((a b : LeafHash) → R a b → R b a)
    → Permᴰ vs ws
    → Pairwise R ws
    → Pairwise R vs
Pairwise-Permᴰ R turn Permᴰ.nil h = h
Pairwise-Permᴰ R turn (Permᴰ.cons {a} {b} {l₁} {l₂} e d) (first, rest) =
    (subst (λ x. All (R x) l₁) (sym e) (All-Permᴰ (R b) d first), Pairwise-Permᴰ R turn d rest)
Pairwise-Permᴰ R turn (Permᴰ.swap {a} {b} {a'} {b'} {l} e f) ((first, rest), (second, more)) =
    let ab = subst (λ x. R x a') (sym e) (turn a' b' first) in
    (
      (subst (R a) (sym f) ab, subst (λ x. All (R x) l) (sym e) second),
      (subst (λ x. All (R x) l) (sym f) rest, more),
    )
Pairwise-Permᴰ R turn (Permᴰ.trans d e) h = Pairwise-Permᴰ R turn d (Pairwise-Permᴰ R turn e h)

-- From the first index at which a monotone test holds on, it holds.
holds_after : (n i k : ℕ) (f : ℕ → Bool) → Monotone n f → f i ≡ true → k + i < n → f (k + i) ≡ true
holds_after n i zero f up first h = subst (λ j. f j ≡ true) (omega arith) first
holds_after n i (suc k) f up first h =
    subst (λ j. f j ≡ true) (omega arith)
      (up (k + i) (omega arith) (holds_after n i k f up first (omega arith)))

index_at-least :
    (P : ℕ → Type 0) (vs : List LeafHash)
    → ((j : ℕ) → j < length vs → P (index_at vs j))
    → All (λ v. P v.index) vs
index_at-least P [] h = tt
index_at-least P (v ∷ vs) h =
    (h 0 (omega arith), index_at-least P vs (λ j p. h (suc j) (omega arith)))

index_at-take :
    (P : ℕ → Type 0) (i : ℕ) (vs : List LeafHash)
    → ((j : ℕ) → j < i → j < length vs → P (index_at vs j))
    → All (λ v. P v.index) (take i vs)
index_at-take P zero vs h = tt
index_at-take P (suc i) [] h = tt
index_at-take P (suc i) (v ∷ vs) h = (
  h 0 (omega arith) (omega arith),
  index_at-take P i vs (λ j p q. h (suc j) (omega arith) (omega arith)),
)

index_at-drop :
    (P : ℕ → Type 0) (i : ℕ) (vs : List LeafHash)
    → ((j : ℕ) → i ≤ j → j < length vs → P (index_at vs j))
    → All (λ v. P v.index) (drop i vs)
index_at-drop P zero vs h = index_at-least P vs (λ j p. h j (omega arith) p)
index_at-drop P (suc i) [] h = tt
index_at-drop P (suc i) (v ∷ vs) h =
    index_at-drop P i vs (λ j p q. h (suc j) (omega arith) (omega arith))

index_at_step :
    (vs : List LeafHash) (j : ℕ)
    → Ascending vs
    → suc j < length vs
    → index_at vs j ≤ index_at vs (suc j)
index_at_step [] j h p = absurd (omega arith)
index_at_step (v ∷ []) j h p = absurd (omega arith)
index_at_step (v ∷ w ∷ vs) zero h p = h.0.0
index_at_step (v ∷ w ∷ vs) (suc j) h p = index_at_step (w ∷ vs) j h.1 (omega arith)

module _ (sorting : Sorting) (searches : Searches sorting) (vs : List LeafHash)
    (ascending : Ascending vs) (split : ℕ) where
  abbrev test : ℕ → Bool
  test i = leb split (index_at vs i)

  test-Monotone : Monotone (length vs) test
  test-Monotone j p h = let step = index_at_step vs j ascending p in ground arith

  -- The values before the split are below it.
  pub left_half : All (λ v. v.index < split) (take (split_index sorting vs split) vs)
  left_half =
      index_at-take (λ x. x < split) (split_index sorting vs split) vs
        (λ j p q. let below = searches.before (length vs) test test-Monotone j p in ground arith)

  -- The values from the split on are not below it.
  pub right_half : All (λ v. split ≤ v.index) (drop (split_index sorting vs split) vs)
  right_half =
      let i = split_index sorting vs split in
      index_at-drop (λ x. split ≤ x) i vs
        (λ j p q.
          let first = searches.found (length vs) test test-Monotone (omega arith) in
          let here = holds_after (length vs) i (j - i) test test-Monotone first (omega arith) in
          let at_j : leb split (index_at vs j) ≡ true =
            subst (λ k. test k ≡ true) (omega arith) here in
          leb→le split (index_at vs j) at_j)
