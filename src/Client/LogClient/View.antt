-- ===== src/Client/LogClient/View.antt =====
-- The view of a client: what a trusted root says of a later one.
use trillian.Prelude.{
  ℕ, suc, ◌+◌, ◌-◌, ◌<◌, ◌≤◌, ◌≡◌, ◌⊎◌, inl, inr, refl, sym, ◌∙◌, ap, List, Bytes, take, length,
  take_all, take-take, length-take, ok, true, false, ltb, ◌==◌, Bool-cases, bytes_equal,
  bytes_equal→eq, dec_lt, arith,
}
use trillian.Prelude.Int.{ℤ, pos, negsuc, ltb_ℤ}
use trillian.Merkle.Tree.{mth}
use trillian.Merkle.Tree.Collision.{Collision}
use trillian.Merkle.LogVerifier.{verify_consistency_proof}
use trillian.Merkle.LogVerifier.Consistency.Sound.{verify_consistency_proof_sound}
use trillian.Client.LogVerifier.{SignedLogRoot}

module _ (hc : Bytes → Bytes → Bytes) (e : Bytes) where
  -- The root is that of a list of leaf hashes.
  pub record Commits (root : SignedLogRoot) (l : List Bytes) : Type 0 where
    pub size : root.tree_size ≡ pos (length l)
    pub hash : root.root_hash ≡ mth hc e l

  -- A later root of a log that only grows, as far as it was checked: where `a` is not empty, `b` is
  -- not smaller, and whatever leaves `b` has, `a` has the first ones of them.
  pub record AppendOnly (a b : SignedLogRoot) : Type 0 where
    pub grows : (m : ℕ) → a.tree_size ≡ pos (suc m) → (k : ℕ) × (b.tree_size ≡ pos k) × (m < k)
    pub prefix :
        (m : ℕ)
        → a.tree_size ≡ pos (suc m)
        → (l : List Bytes) → Commits b l
        → Commits a (take (suc m) l) ⊎ Collision hc

  pos_eq : (a b : ℕ) → pos a ≡ pos b → a ≡ b
  pos_eq a b h = cc

  pub AppendOnly-refl : (a : SignedLogRoot) → AppendOnly a a
  AppendOnly-refl a = record {
    grows = λ m h. (suc m, h, omega arith);
    prefix = λ m h l c.
        let n : suc m ≡ length l = pos_eq (suc m) (length l) (sym h ∙ c.size) in
        inl (rw (take_all (suc m) l (omega arith)) c);
  }

  -- The first leaves of a list, of which there are enough.
  first-Commits :
      (a : SignedLogRoot) (m : ℕ) (l : List Bytes)
      → a.tree_size ≡ pos m
      → m ≤ length l
      → a.root_hash ≡ mth hc e (take m l)
      → Commits a (take m l)
  first-Commits a m l size fits hash = record {
    size = size ∙ ap pos (omega (arith, length-take m l));
    hash = hash;
  }

  pub AppendOnly-trans : (a b c : SignedLogRoot) → AppendOnly a b → AppendOnly b c → AppendOnly a c
  AppendOnly-trans a b c x y = record {
    grows = λ m h.
        let (k, hb, lt) = x.grows m h in
        let (n, hc', lt') = y.grows (k - 1) (hb ∙ ap pos (omega arith)) in (n, hc', omega arith);
    prefix = λ m h l w.
        let (k, hb, lt) = x.grows m h in
        let hb' : b.tree_size ≡ pos (suc (k - 1)) = hb ∙ ap pos (omega arith) in
        elim (y.prefix (k - 1) hb' l w) [
          | inr clash ↦ inr clash
          | inl v ↦ elim (x.prefix m h (take (suc (k - 1)) l) v) [
            | inr clash ↦ inr clash
            | inl u ↦ inl (rw (take-take (suc m) (suc (k - 1)) l (omega arith)) at u)
          ]
        ];
  }

  -- An accepted consistency proof, whatever the two sizes.
  accepted_prefix :
      (m : ℕ) (l : List Bytes) (r : Bytes) (proof : List Bytes)
      → suc m ≤ length l
      → verify_consistency_proof hc (pos (suc m)) (pos (length l)) r (mth hc e l) proof ≡ ok tt
      → (r ≡ mth hc e (take (suc m) l)) ⊎ Collision hc
  unfolding verify_consistency_proof
  accepted_prefix m l r proof fits w = elim (dec_lt (suc m) (length l)) [
    | yes less ↦ elim (verify_consistency_proof_sound hc e (suc m) l r proof (omega arith) less w) [
      | inl s ↦ inl s.0
      | inr clash ↦ inr clash
    ]
    | no all ↦
        let ordered : ltb (length l) (suc m) ≡ false = ground arith in
        let same : (suc m == length l) ≡ true = ground arith in
        elim (Bool-cases (bytes_equal r (mth hc e l))) [
          | inl eq ↦ inl (
              bytes_equal→eq r (mth hc e l) eq
              ∙ ap (mth hc e) (sym (take_all (suc m) l (omega arith))))
          | inr ne ↦ cc (rw (ordered, same, ne) at w)
        ]
  ]

  -- What a client has checked of a later root `b`, where it trusts a root `a` that is not empty.
  pub data Checked (a b : SignedLogRoot) : Type 0 where
    unchanged : b.tree_size ≡ a.tree_size → b.root_hash ≡ a.root_hash → Checked a b
    empty : ltb_ℤ (pos 0) b.tree_size ≡ false → Checked a b
    consistent :
        (proof : List Bytes)
        → verify_consistency_proof hc a.tree_size b.tree_size a.root_hash b.root_hash proof ≡ ok tt
        → Checked a b

  Checked-prefix :
      (a b : SignedLogRoot) (m k : ℕ) (l : List Bytes)
      → Checked a b
      → a.tree_size ≡ pos (suc m)
      → b.tree_size ≡ pos k
      → m < k
      → Commits b l
      → Commits a (take (suc m) l) ⊎ Collision hc
  Checked-prefix a b m k l (unchanged size hash) ha hb lt c =
      let n : suc m ≡ length l = pos_eq (suc m) (length l) (sym ha ∙ sym size ∙ c.size) in
      inl (
        first-Commits a (suc m) l ha (omega arith)
          (rw (take_all (suc m) l (omega arith)) (sym hash ∙ c.hash)))
  Checked-prefix a b m k l (empty none) ha hb lt c =
      absurd (let z : ltb 0 (k + 0) ≡ false = rw hb at none in ground arith)
  Checked-prefix a b m k l (consistent proof w) ha hb lt c =
      let n : k ≡ length l = pos_eq k (length l) (sym hb ∙ c.size) in
      elim (accepted_prefix m l a.root_hash proof (omega arith) (rw (ha, c.size, c.hash) at w)) [
        | inl hash ↦ inl (first-Commits a (suc m) l ha (omega arith) hash)
        | inr clash ↦ inr clash
      ]

  -- A size that is not smaller than a positive one.
  not_smaller : (m : ℕ) (b : ℤ) → ltb_ℤ b (pos (suc m)) ≡ false → (k : ℕ) × (b ≡ pos k) × (m < k)
  not_smaller m (pos k) h = (k, refl, ground arith)
  not_smaller m (negsuc k) h = absurd (ground arith)

  -- A root that was checked where the older one is not empty, and is not smaller.
  pub Checked-AppendOnly :
      (a b : SignedLogRoot)
      → ((m : ℕ) → a.tree_size ≡ pos (suc m) → Checked a b)
      → ltb_ℤ b.tree_size a.tree_size ≡ false
      → AppendOnly a b
  Checked-AppendOnly a b checked ordered =
      let later =
        λ (m : ℕ) (ha : a.tree_size ≡ pos (suc m)). not_smaller m b.tree_size (rw ha at ordered) in
      record {
        grows = later;
        prefix = λ m ha l c.
            let (k, hb, lt) = later m ha in Checked-prefix a b m k l (checked m ha) ha hb lt c;
      }
