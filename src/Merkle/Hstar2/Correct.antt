-- ===== src/Merkle/Hstar2/Correct.antt =====
-- What hStar2b of merkle/hstar2.go returns for the leaves below a node: the hash of the node in the
-- tree with all its leaves.
use trillian.Prelude.{
  ℕ, zero, suc, ◌+◌, ◌-◌, ◌*◌, ◌^◌, ◌<◌, ◌≡◌, refl, sym, ap, ◌∙◌, subst, List, [], ◌∷◌, Bytes,
  Outcome, ok, err, panic, out_of_fuel, Option, some, false, take, drop, leb, arith,
}
use trillian.Prelude.Bits.{two-pow-suc, two-pow_pos}
use trillian.Prelude.Int.{ℤ}
use trillian.Log.Tx.{Action, after, return, ◌>>=◌, ◌>>◌}
use trillian.Merkle.MapHasher.{MapHasher}
use trillian.Merkle.Hstar2.{
  LeafHash, Error, SparseGetNodeFunc, SparseSetNodeFunc, Sorting, split_index, get_node, set_node,
  hstar2b,
}
use trillian.Merkle.Hstar2.Tree.{node_value, node, node-eq}
use trillian.Merkle.Hstar2.Sorted.{Searches}
use trillian.Merkle.Hstar2.Levels.{
  slot_of, Within-Below, Below-zero, left_offset, right_offset, node_value-join, node-none,
}
use trillian.Merkle.Hstar2.Placed.{Placed, left-Placed, right-Placed}

-- An action returns a value and leaves a state where `P` holds.
pub record Yields {S E A : Type 0} (P : S → Type 0) (a : A) (p : S × Outcome E A) : Type 0 where
  pub state : P p.0
  pub returned : p.1 ≡ ok a

pub Yields-after :
    {S E A B : Type 0} {P : S → Type 0} {b : B} (a : A) (p : S × Outcome E A) (k : A → Action S E B)
    → Yields P a p
    → ((s : S) → P s → Yields P b (k a s))
    → Yields P b (after p k)
Yields-after {P = P} {b} a (s, ok x) k first next =
    let same : x ≡ a = (let e = first.returned in cc) in
    subst (λ y. Yields P b (k y s)) (sym same) (next s first.state)
Yields-after a (s, err e) k first next = absurd (let e = first.returned in cc)
Yields-after a (s, panic) k first next = absurd (let e = first.returned in cc)
Yields-after a (s, out_of_fuel) k first next = absurd (let e = first.returned in cc)

module _ {S E : Type 0} (hasher : MapHasher E) (tree_id : ℤ) (w : ℕ) (P : S → Type 0) where
  -- A node's value is read, where it did not change.
  abbrev pub Reads :
      (ℕ → Option Bytes) → (ℕ → Option Bytes) → Option (SparseGetNodeFunc S E) → Type 0
  Reads old new get =
      (n d j : ℕ) (s : S)
      → d + n + w ≡ hasher.bit_len
      → j < 2 ^ d
      → P s
      → node hasher tree_id new n d j ≡ node hasher tree_id old n d j
      → Yields P (node_value hasher tree_id d j (node hasher tree_id new n d j))
          (get_node hasher tree_id get (j * (2 ^ n * 2 ^ w)) d s)

  -- A node's value is written.
  abbrev pub Writes : (ℕ → Option Bytes) → Option (SparseSetNodeFunc S E) → Type 0
  Writes new set =
      (n d j : ℕ) (s : S)
      → d + n + w ≡ hasher.bit_len
      → j < 2 ^ d
      → P s
      → Yields {E = Error E} P tt (
          set_node set (j * (2 ^ n * 2 ^ w)) d
            (node_value hasher tree_id d j (node hasher tree_id new n d j)) s)

module _ {S E : Type 0} (hasher : MapHasher E) (tree_id : ℤ) (sorting : Sorting)
    (searches : Searches sorting) (w : ℕ) (P : S → Type 0) (old new : ℕ → Option Bytes)
    (get : Option (SparseGetNodeFunc S E)) (set : Option (SparseSetNodeFunc S E))
    (reads : Reads hasher tree_id w P old new get)
    (writes : Writes hasher tree_id w P new set) where
  abbrev Result : ℕ → ℕ → ℕ → List LeafHash → S → Type 0
  Result n d j vs s =
      Yields P (node_value hasher tree_id d j (node hasher tree_id new n d j))
        (hstar2b hasher tree_id sorting n d vs (j * (2 ^ n * 2 ^ w)) get set s)

  empty_slice :
      (n d j : ℕ) (s : S)
      → d + n + w ≡ hasher.bit_len
      → j < 2 ^ d
      → Placed (2 ^ w) old new n j []
      → P s
      → Yields P
          (node_value hasher tree_id d j (node hasher tree_id new n d j))
          (get_node hasher tree_id get (j * (2 ^ n * 2 ^ w)) d s)
  empty_slice n d j s levels small placed p =
      reads n d j s levels small p
        (node-eq hasher tree_id old new n d j (λ k b. placed.kept k b tt))

  single_leaf :
      (d j : ℕ) (v : LeafHash)
      → Placed (2 ^ w) old new 0 j (v ∷ [])
      → v.leaf_hash ≡ node_value hasher tree_id d j (node hasher tree_id new 0 d j)
  unfolding node
  single_leaf d j v placed =
      let at =
        Below-zero j (slot_of (2 ^ w) v)
          (Within-Below (2 ^ w) 0 j v (two-pow_pos w) placed.within.0) in
      let here : new j ≡ some v.leaf_hash =
        subst (λ k. new k ≡ some v.leaf_hash) at placed.written.0 in
      ap (node_value hasher tree_id d j) (sym here)

  two_leaves :
      (j : ℕ) (x y : LeafHash) (vs : List LeafHash) → Placed (2 ^ w) old new 0 j (x ∷ y ∷ vs) → ⊥
  two_leaves j x y vs placed =
      let first =
        Below-zero j (slot_of (2 ^ w) x)
          (Within-Below (2 ^ w) 0 j x (two-pow_pos w) placed.within.0) in
      let second =
        Below-zero j (slot_of (2 ^ w) y)
          (Within-Below (2 ^ w) 0 j y (two-pow_pos w) placed.within.1.0) in
      placed.apart.0.0 (first ∙ sym second)

  -- The value of a node with a leaf below it is the hash of its children's.
  above_leaf :
      (n d j : ℕ) (v : LeafHash) (vs : List LeafHash)
      → Placed (2 ^ w) old new (suc n) j (v ∷ vs)
      → node_value hasher tree_id d j (node hasher tree_id new (suc n) d j)
        ≡ hasher.hash_children
            (node_value hasher tree_id (suc d) (2 * j) (node hasher tree_id new n (suc d) (2 * j)))
            (node_value hasher tree_id
              (suc d)
              (suc (2 * j))
              (node hasher tree_id new n (suc d) (suc (2 * j))))
  unfolding node
  above_leaf n d j v vs placed =
      node_value-join hasher tree_id d j (node hasher tree_id new n (suc d) (2 * j))
        (node hasher tree_id new n (suc d) (suc (2 * j)))
        (λ e.
          let below = Within-Below (2 ^ w) (suc n) j v (two-pow_pos w) placed.within.0 in
          let missing = node-none hasher tree_id new (suc n) d j (slot_of (2 ^ w) v) below e in
          let there = placed.written.0 in absurd (cc))

  -- The hash that hStar2b stores and returns.
  stored :
      (n d j : ℕ) (v : LeafHash) (vs : List LeafHash)
      → d + suc n + w ≡ hasher.bit_len
      → j < 2 ^ d
      → Placed (2 ^ w) old new (suc n) j (v ∷ vs)
      → (t : S) → P t
      → (let lhs =
            node_value hasher tree_id (suc d) (2 * j) (node hasher tree_id new n (suc d) (2 * j)) in
          let rhs =
            node_value hasher tree_id
              (suc d)
              (suc (2 * j))
              (node hasher tree_id new n (suc d) (suc (2 * j))) in
          let h = hasher.hash_children lhs rhs in
          Yields P
            (node_value hasher tree_id d j (node hasher tree_id new (suc n) d j))
            ((set_node set (j * (2 ^ suc n * 2 ^ w)) d h >> return {E = Error E} h) t))
  stored n d j v vs levels small placed t p =
      let value = node_value hasher tree_id d j (node hasher tree_id new (suc n) d j) in
      let h : Action S (Error E) Bytes =
        set_node set (j * (2 ^ suc n * 2 ^ w)) d value >> return value in
      let done : Yields P value (h t) =
        Yields-after tt (set_node set (j * (2 ^ suc n * 2 ^ w)) d value t) (λ u. return value)
          (writes (suc n) d j t levels small p) (λ u q. record { state = q; returned = refl }) in
      subst
        (λ x.
          Yields {E = Error E} P value ((set_node set (j * (2 ^ suc n * 2 ^ w)) d x >> return x) t))
        (above_leaf n d j v vs placed) done

  pub hstar2b-node :
      (n d j : ℕ) (vs : List LeafHash) (s : S)
      → d + n + w ≡ hasher.bit_len
      → j < 2 ^ d
      → Placed (2 ^ w) old new n j vs
      → P s
      → Result n d j vs s
  unfolding hstar2b
  hstar2b-node zero d j [] s levels small placed p = empty_slice 0 d j s levels small placed p
  hstar2b-node zero d j (v ∷ []) s levels small placed p = record {
    state = p;
    returned = ap ok (single_leaf d j v placed);
  }
  hstar2b-node zero d j (x ∷ y ∷ vs) s levels small placed p = absurd (two_leaves j x y vs placed)
  hstar2b-node (suc n) d j [] s levels small placed p =
      empty_slice (suc n) d j s levels small placed p
  hstar2b-node (suc n) d j (v ∷ vs) s levels small placed p =
      let split = 2 ^ (hasher.bit_len - d - 1) + j * (2 ^ suc n * 2 ^ w) in
      let i = split_index sorting (v ∷ vs) split in
      let middle = right_offset hasher.bit_len w n d j levels in
      let room : leb hasher.bit_len d ≡ false = ground arith in
      let deeper : suc d + n + w ≡ hasher.bit_len = omega arith in
      let wide = two-pow-suc d in
      let lhs =
        node_value hasher tree_id (suc d) (2 * j) (node hasher tree_id new n (suc d) (2 * j)) in
      let rhs =
        node_value hasher tree_id (suc d) (suc (2 * j))
          (node hasher tree_id new n (suc d) (suc (2 * j))) in
      let left : (t : S)
          → P t
          → Yields P lhs (
              hstar2b hasher tree_id sorting n (suc d) (take i (v ∷ vs)) (j * (2 ^ suc n * 2 ^ w))
                get set t) =
        λ t q.
          subst
            (λ x.
              Yields P lhs (hstar2b hasher tree_id sorting n (suc d) (take i (v ∷ vs)) x get set t))
            (sym (left_offset w n j))
            (hstar2b-node n (suc d) (2 * j) (take i (v ∷ vs)) t deeper (omega arith)
              (left-Placed sorting searches (2 ^ w) (two-pow_pos w) old new n j (v ∷ vs) split
                middle placed)
              q) in
      let right : (t : S)
          → P t
          → Yields P rhs
              (hstar2b hasher tree_id sorting n (suc d) (drop i (v ∷ vs)) split get set t) =
        λ t q.
          subst
            (λ x.
              Yields P rhs (hstar2b hasher tree_id sorting n (suc d) (drop i (v ∷ vs)) x get set t))
            (sym middle)
            (hstar2b-node n (suc d) (suc (2 * j)) (drop i (v ∷ vs)) t deeper (omega arith)
              (right-Placed sorting searches (2 ^ w) (two-pow_pos w) old new n j (v ∷ vs) split
                middle placed)
              q) in
      let first = left s p in
      let more : (t : S)
          → P t
          → Yields P (node_value hasher tree_id d j (node hasher tree_id new (suc n) d j)) (
              after (hstar2b hasher tree_id sorting n (suc d) (drop i (v ∷ vs)) split get set t)
                (λ r.
                  set_node set (j * (2 ^ suc n * 2 ^ w)) d (hasher.hash_children lhs r)
                  >> return (hasher.hash_children lhs r))) =
        λ t q.
          Yields-after rhs
            (hstar2b hasher tree_id sorting n (suc d) (drop i (v ∷ vs)) split get set t)
            (λ r.
              set_node set (j * (2 ^ suc n * 2 ^ w)) d (hasher.hash_children lhs r)
              >> return (hasher.hash_children lhs r))
            (right t q) (stored n d j v vs levels small placed) in
      rw room (
        Yields-after lhs
          (hstar2b hasher tree_id sorting n (suc d) (take i (v ∷ vs)) (j * (2 ^ suc n * 2 ^ w)) get
            set s)
          (λ l. hstar2b hasher tree_id sorting n (suc d) (drop i (v ∷ vs)) split get set >>= λ r.
            set_node set (j * (2 ^ suc n * 2 ^ w)) d (hasher.hash_children l r)
            >> return (hasher.hash_children l r))
          first more)
