-- ===== src/Merkle/Hstar2/Insertion.antt =====
-- A sort and a search that do what merkle/hstar2.go relies on of the library's.
use mathlib.Core.List.Permᴰ
use mathlib.Core.List.{Permᴰ}
use trillian.Prelude.{
  ℕ, zero, suc, ◌<◌, ◌≤◌, ◌≡◌, refl, List, [], ◌∷◌, Bool, true, false, leb, if◌then◌else◌, arith,
  Bool-cases, inl, inr,
}
use trillian.Merkle.Hstar2.{LeafHash, Sorting}
use trillian.Merkle.Hstar2.Sorted.{All, Ascending, Sorts, Searches}

abbrev insert : LeafHash → List LeafHash → List LeafHash
insert v [] = v ∷ []
insert v (x ∷ xs) = let rest = insert v xs in if leb v.index x.index then v ∷ x ∷ xs else x ∷ rest

abbrev insertion_sort : List LeafHash → List LeafHash
insertion_sort [] = []
insertion_sort (v ∷ vs) = insert v (insertion_sort vs)

abbrev linear_search : ℕ → (ℕ → Bool) → ℕ
linear_search zero f = 0
linear_search (suc n) f = let rest = linear_search n (λ i. f (suc i)) in if f 0 then 0 else suc rest

abbrev pub insertion : Sorting
insertion = record { sort = insertion_sort; search = linear_search }

insert-All :
    (P : LeafHash → Type 0) (v : LeafHash) (xs : List LeafHash)
    → P v
    → All P xs
    → All P (insert v xs)
insert-All P v [] p h = (p, tt)
insert-All P v (x ∷ xs) p (first, rest) = elim (Bool-cases (leb v.index x.index)) [
  | inl small ↦ rw small (p, (first, rest))
  | inr large ↦ rw large (first, insert-All P v xs p rest)
]

All-weaken :
    (P Q : LeafHash → Type 0) (xs : List LeafHash)
    → ((x : LeafHash) → P x → Q x)
    → All P xs
    → All Q xs
All-weaken P Q [] weaker h = tt
All-weaken P Q (x ∷ xs) weaker (first, rest) = (weaker x first, All-weaken P Q xs weaker rest)

insert-Ascending : (v : LeafHash) (xs : List LeafHash) → Ascending xs → Ascending (insert v xs)
insert-Ascending v [] h = (tt, tt)
insert-Ascending v (x ∷ xs) (first, rest) = elim (Bool-cases (leb v.index x.index)) [
  | inl small ↦
      let here : v.index ≤ x.index = ground arith in
      rw small (
        (
          here,
          All-weaken (λ y. x.index ≤ y.index) (λ y. v.index ≤ y.index) xs (λ y h. omega arith)
              first,
        ),
        (first, rest),
      )
  | inr large ↦
      rw large
        (insert-All (λ y. x.index ≤ y.index) v xs (ground arith) first, insert-Ascending v xs rest)
]

insert-Permᴰ : (v : LeafHash) (xs : List LeafHash) → Permᴰ (insert v xs) (v ∷ xs)
insert-Permᴰ v [] = Permᴰ.refl (v ∷ [])
insert-Permᴰ v (x ∷ xs) = elim (Bool-cases (leb v.index x.index)) [
  | inl small ↦ rw small (Permᴰ.refl (v ∷ x ∷ xs))
  | inr large ↦
      rw large (Permᴰ.trans (Permᴰ.cons refl (insert-Permᴰ v xs)) (Permᴰ.swap {l = xs} refl refl))
]

sort-Ascending : (vs : List LeafHash) → Ascending (insertion_sort vs)
sort-Ascending [] = tt
sort-Ascending (v ∷ vs) = insert-Ascending v (insertion_sort vs) (sort-Ascending vs)

sort-Permᴰ : (vs : List LeafHash) → Permᴰ (insertion_sort vs) vs
sort-Permᴰ [] = Permᴰ.nil
sort-Permᴰ (v ∷ vs) =
    Permᴰ.trans (insert-Permᴰ v (insertion_sort vs)) (Permᴰ.cons refl (sort-Permᴰ vs))

pub insertion-Sorts : Sorts insertion
insertion-Sorts = record { ascending = sort-Ascending; permutes = sort-Permᴰ }

search-within : (n : ℕ) (f : ℕ → Bool) → linear_search n f ≤ n
search-within zero f = omega arith
search-within (suc n) f = elim (Bool-cases (f 0)) [
  | inl here ↦ rw here (omega arith)
  | inr later ↦ let rest = search-within n (λ i. f (suc i)) in rw later (omega arith)
]

search-before : (n : ℕ) (f : ℕ → Bool) (j : ℕ) → j < linear_search n f → f j ≡ false
search-before zero f j h = absurd (omega arith)
search-before (suc n) f zero h = elim (Bool-cases (f 0)) [
  | inl here ↦ absurd (let past = rw here at h in omega arith)
  | inr later ↦ later
]
search-before (suc n) f (suc j) h = elim (Bool-cases (f 0)) [
  | inl here ↦ absurd (let past = rw here at h in omega arith)
  | inr later ↦ search-before n (λ i. f (suc i)) j (let rest = rw later at h in omega arith)
]

search-found : (n : ℕ) (f : ℕ → Bool) → linear_search n f < n → f (linear_search n f) ≡ true
search-found zero f h = absurd (omega arith)
search-found (suc n) f h = elim (Bool-cases (f 0)) [
  | inl here ↦ rw here here
  | inr later ↦ rw later (search-found n (λ i. f (suc i)) (let rest = rw later at h in omega arith))
]

pub insertion-Searches : Searches insertion
insertion-Searches = record {
  within = λ n f up. search-within n f;
  before = λ n f up j h. search-before n f j h;
  found = λ n f up h. search-found n f h;
}
