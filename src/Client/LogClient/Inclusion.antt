-- ===== src/Client/LogClient/Inclusion.antt =====
-- Inclusion checks of client/log_client.go: what they show of the data.
use trillian.Prelude.{
  ℕ, zero, suc, ◌<◌, ◌≡◌, ◌⊎◌, inl, inr, ◌∙◌, ap, subst, List, [], ◌∷◌, Bytes, Outcome, ok, err,
  panic, out_of_fuel, bind_ok, Option, none, some, false, ltb, length, get_or,
}
use trillian.Prelude.Int.{ℤ, pos}
use trillian.Log.Tx.{Action, fail, lift}
use trillian.Log.Tx.Returned.{value}
use trillian.Log.Tx.Ends.{
  Ends, Ends-into, Ends-after, Ends-return, Ends-fail, Ends-lift, Ends-if, Ends-weaken,
}
use trillian.Merkle.Tree.Collision.{Collision}
use trillian.Merkle.LogVerifier.{verify_inclusion_proof}
use trillian.Merkle.LogVerifier.Soundness.{verify_inclusion_proof_sound}
use trillian.Client.LogVerifier.{
  Error, no_inclusion_proof, SignedLogRoot, Proof, LogLeaf, proof_result, LogVerifier, build_leaf,
  verify_inclusion_by_hash, verify_inclusion_at_index,
}
use trillian.Client.LogClient.{
  TrillianLog, LogClient, code, deref, wrap_error, call, update_root, wait_for_root_update,
  verify_each, get_and_verify_inclusion_proof, is_not_found, after_check, increment,
  inclusion_rounds, wait_for_inclusion, verify_inclusion, get_and_verify_inclusion_at_index,
  queue_leaf, add_leaf,
}
use trillian.Client.LogClient.View.{Commits}
use trillian.Client.LogClient.Latest.{proof_result-ok, Ends-call, Ends-deref}
use trillian.Client.LogClient.Updates
use trillian.Client.LogClient.Updates.{
  Ends-wrap, IsTrusted, update_root-Later, wait_for_root_update-Later,
}

module _ {R : Type 0} (v : LogVerifier) (s : TrillianLog R) (a : SignedLogRoot) where
  abbrev hc : Bytes → Bytes → Bytes
  hc = v.hasher.hash_children

  abbrev Later : SignedLogRoot → Type 0
  Later = Updates.Later v s a

  -- The leaf hash is one of the tree's.
  abbrev pub Included : Bytes → SignedLogRoot → Type 0
  Included leaf_hash root =
      (l : List Bytes)
      → Commits hc v.hasher.empty_root root l
      → 0 < length l
      → ((i : ℕ) × (i < length l) × (leaf_hash ≡ get_or l i [])) ⊎ Collision hc

  verify_inclusion_by_hash_sound :
      (root : SignedLogRoot) (leaf_hash : Bytes) (proof : Option Proof)
      → verify_inclusion_by_hash v (some root) leaf_hash proof ≡ ok tt
      → Included leaf_hash root
  unfolding verify_inclusion_by_hash
  verify_inclusion_by_hash_sound root leaf_hash none w l c p = absurd (cc)
  verify_inclusion_by_hash_sound root leaf_hash (some proof) w l c p =
      let accepted =
        proof_result-ok
          (verify_inclusion_proof hc proof.leaf_index root.tree_size proof.hashes root.root_hash
            leaf_hash)
          tt w in
      let (i, _, inside, found) =
        verify_inclusion_proof_sound hc v.hasher.empty_root l proof.leaf_index proof.hashes
          leaf_hash p (rw (c.size, c.hash) at accepted) in
      elim found [ inl same ↦ inl (i, inside, same.0) | inr clash ↦ inr clash ]

  -- The root is the trusted one.
  abbrev Holds : SignedLogRoot → SignedLogRoot → Type 0
  Holds root r = (root ≡ r) × Later r

  verify_each-Later :
      (root : SignedLogRoot) (leaf_hash : Bytes) (proofs : List (Option Proof)) (c : LogClient R)
      → Holds root c.root
      → Ends
          (λ c'. Holds root c'.root)
          (λ (u : Unit {0}) c'. ltb (length proofs) 1 ≡ false → Included leaf_hash root)
          (verify_each v s root leaf_hash proofs c)
  verify_each-Later root leaf_hash [] c h = Ends-return tt c h (λ w. absurd (cc))
  verify_each-Later root leaf_hash (proof ∷ proofs) c h =
      let r = verify_inclusion_by_hash v (some root) leaf_hash proof in
      Ends-after (wrap_error (lift r c)) _
        (Ends-wrap (lift r c) (Ends-lift {S = λ c'. Holds root c'.root} r c h))
        (λ u c₁ h₁ accept.
          Ends-weaken _ (verify_each-Later root leaf_hash proofs c₁ h₁) (λ x. x)
            (λ u' h₂ _ _. verify_inclusion_by_hash_sound root leaf_hash proof accept))

  pub inclusion_proof-Later :
      (leaf_hash : Bytes) (root : SignedLogRoot) (c : LogClient R)
      → Holds root c.root
      → Ends
          (λ c'. Later c'.root)
          (λ (u : Unit {0}) c'. Included leaf_hash c'.root)
          (get_and_verify_inclusion_proof v s leaf_hash root c)
  unfolding get_and_verify_inclusion_proof
  inclusion_proof-Later leaf_hash root c h =
      let ask = λ (id : ℤ). s.get_inclusion_proof_by_hash id leaf_hash root.tree_size in
      Ends-into (call v s ask c) _ (λ c' h'. h'.1) (Ends-call v s (Holds root) ask c h)
        (λ proofs c₁ h₁ _.
          Ends-if (ltb (length proofs) 1) (fail no_inclusion_proof)
            (verify_each v s root leaf_hash proofs) c₁ (λ few. Ends-fail no_inclusion_proof c₁ h₁.1)
            (λ some_proof.
              Ends-weaken _ (verify_each-Later root leaf_hash proofs c₁ h₁) (λ x. x.1)
                (λ u h₂ found. subst (Included leaf_hash) h₂.0 (found some_proof))))

  after_check-Later :
      (leaf_hash : Bytes) (again : Action (LogClient R) Error (Unit {0}))
      (p : LogClient R × Outcome Error (Unit {0}))
      → Ends (λ c'. Later c'.root) (λ u c'. Included leaf_hash c'.root) p
      → ((c' : LogClient R)
          → Later c'.root
          → Ends (λ c'. Later c'.root) (λ u c'. Included leaf_hash c'.root) (again c'))
      → Ends (λ c'. Later c'.root) (λ u c'. Included leaf_hash c'.root) (after_check v s again p)
  after_check-Later leaf_hash again (c, ok u) first next = first
  after_check-Later leaf_hash again (c, err e) first next =
      Ends-if (is_not_found v s (code e)) again (fail e) c (λ yes. next c first.state)
        (λ no. Ends-fail e c first.state)
  after_check-Later leaf_hash again (c, panic) first next = first
  after_check-Later leaf_hash again (c, out_of_fuel) first next = first

  inclusion_rounds-Later :
      (rounds fuel : ℕ) (leaf_hash : Bytes) (root : SignedLogRoot) (c : LogClient R)
      → Holds root c.root
      → Ends
          (λ c'. Later c'.root)
          (λ u c'. Included leaf_hash c'.root)
          (inclusion_rounds v s rounds fuel leaf_hash root c)
  unfolding inclusion_rounds
  inclusion_rounds-Later zero fuel leaf_hash root c h = record {
    state = h.1;
    holds = λ x e. absurd (cc);
  }
  inclusion_rounds-Later (suc rounds) fuel leaf_hash root c h =
      after_check-Later leaf_hash _ (get_and_verify_inclusion_proof v s leaf_hash root c)
        (inclusion_proof-Later leaf_hash root c h)
        (λ c' later.
          Ends-after (wait_for_root_update v s fuel (increment root.tree_size) c') _
            (wait_for_root_update-Later v s a fuel (increment root.tree_size) c' later)
            (λ newer c₁ later₁ trusted.
              inclusion_rounds-Later rounds fuel leaf_hash newer c₁ (trusted, later₁)))

  -- The data's leaf hash is one of the tree's.
  abbrev pub DataIncluded : Bytes → SignedLogRoot → Type 0
  DataIncluded d root = (h : Bytes) × (v.hasher.hash_leaf d ≡ ok h) × Included h root

  build_leaf_hash :
      (d : Bytes) (leaf : LogLeaf)
      → build_leaf v d ≡ ok leaf
      → v.hasher.hash_leaf d ≡ ok leaf.merkle_leaf_hash
  unfolding build_leaf
  build_leaf_hash d leaf w =
      let made : Bytes → LogLeaf =
        λ h. record { leaf_value = d; merkle_leaf_hash = h; leaf_index = pos 0 } in
      let (h, hash, same) = bind_ok (v.hasher.hash_leaf d) (λ h. ok (made h)) leaf w in
      hash ∙ ap (λ (x : LogLeaf). ok x.merkle_leaf_hash) (value (made h) leaf same)

  pub wait_for_inclusion-Later :
      (fuel : ℕ) (d : Bytes) (c : LogClient R)
      → Later c.root
      → Ends
          (λ c'. Later c'.root)
          (λ (u : Unit {0}) c'. DataIncluded d c'.root)
          (wait_for_inclusion v s fuel d c)
  unfolding wait_for_inclusion
  wait_for_inclusion-Later fuel d c later =
      Ends-after (lift (build_leaf v d) c) _
        (Ends-lift {S = λ c'. Later c'.root} (build_leaf v d) c later)
        (λ leaf c₁ later₁ built.
          Ends-after (wait_for_root_update v s fuel (pos 1) c₁) _
            (wait_for_root_update-Later v s a fuel (pos 1) c₁ later₁)
            (λ root c₂ later₂ trusted.
              Ends-weaken _
                (inclusion_rounds-Later fuel fuel leaf.merkle_leaf_hash root c₂ (trusted, later₂))
                (λ x. x)
                (λ u h found. (leaf.merkle_leaf_hash, build_leaf_hash d leaf built, found))))

  pub verify_inclusion-Later :
      (d : Bytes) (c : LogClient R)
      → Later c.root
      → Ends
          (λ c'. Later c'.root)
          (λ (u : Unit {0}) c'. DataIncluded d c'.root)
          (verify_inclusion v s d c)
  unfolding verify_inclusion
  verify_inclusion-Later d c later =
      Ends-after (lift (build_leaf v d) c) _
        (Ends-lift {S = λ c'. Later c'.root} (build_leaf v d) c later)
        (λ leaf c₁ later₁ built.
          Ends-after (wrap_error (update_root v s c₁)) _
            (Ends-wrap (update_root v s c₁) (update_root-Later v s a c₁ later₁))
            (λ root c₂ later₂ trusted.
              Ends-weaken _ (inclusion_proof-Later leaf.merkle_leaf_hash root c₂ (trusted, later₂))
                (λ x. x)
                (λ u h found. (leaf.merkle_leaf_hash, build_leaf_hash d leaf built, found))))

  pub queue_leaf-Later :
      (d : Bytes) (c : LogClient R)
      → Later c.root
      → Ends (λ c'. Later c'.root) (λ (u : Unit {0}) c'. Unit {0}) (queue_leaf v s d c)
  unfolding queue_leaf
  queue_leaf-Later d c later =
      Ends-after (lift (build_leaf v d) c) _
        (Ends-lift {S = λ c'. Later c'.root} (build_leaf v d) c later)
        (λ leaf c₁ later₁ built. Ends-call v s Later (λ id. s.queue_leaf id leaf) c₁ later₁)

  pub add_leaf-Later :
      (fuel : ℕ) (d : Bytes) (c : LogClient R)
      → Later c.root
      → Ends
          (λ c'. Later c'.root)
          (λ (u : Unit {0}) c'. DataIncluded d c'.root)
          (add_leaf v s fuel d c)
  unfolding add_leaf
  add_leaf-Later fuel d c later =
      Ends-after (wrap_error (queue_leaf v s d c)) _
        (Ends-wrap (queue_leaf v s d c) (queue_leaf-Later d c later))
        (λ u c₁ later₁ _.
          Ends-wrap (wait_for_inclusion v s fuel d c₁) (wait_for_inclusion-Later fuel d c₁ later₁))

  -- The data's leaf hash is the one at an index of the tree.
  abbrev pub DataAt : Bytes → ℤ → SignedLogRoot → Type 0
  DataAt d index root =
      (l : List Bytes)
      → Commits hc v.hasher.empty_root root l
      → 0 < length l
      → (i : ℕ) × (index ≡ pos i)
        × (i < length l)
        × ((v.hasher.hash_leaf d ≡ ok (get_or l i [])) ⊎ Collision hc)

  verify_inclusion_at_index_sound :
      (root : SignedLogRoot) (d : Bytes) (index : ℤ) (proof : List Bytes)
      → verify_inclusion_at_index v (some root) d index proof ≡ ok tt
      → DataAt d index root
  unfolding verify_inclusion_at_index
  verify_inclusion_at_index_sound root d index proof w l c p =
      let check = λ (leaf : LogLeaf).
        verify_inclusion_proof hc index root.tree_size proof root.root_hash leaf.merkle_leaf_hash in
      let (leaf, built, w') = bind_ok (build_leaf v d) (λ leaf. proof_result (check leaf)) tt w in
      let accepted : check leaf ≡ ok tt = proof_result-ok (check leaf) tt w' in
      let (i, where_, inside, found) =
        verify_inclusion_proof_sound hc v.hasher.empty_root l index proof leaf.merkle_leaf_hash p
          (rw (c.size, c.hash) at accepted) in
      (
        i,
        where_,
        inside,
        elim found [
          | inl same ↦ inl (build_leaf_hash d leaf built ∙ ap ok same.0)
          | inr clash ↦ inr clash
        ],
      )

  pub at_index-Later :
      (d : Bytes) (index : ℤ) (c : LogClient R)
      → Later c.root
      → Ends
          (λ c'. Later c'.root)
          (λ (u : Unit {0}) c'. DataAt d index c'.root)
          (get_and_verify_inclusion_at_index v s d index c)
  unfolding get_and_verify_inclusion_at_index
  at_index-Later d index c later =
      Ends-after (wrap_error (update_root v s c)) _
        (Ends-wrap (update_root v s c) (update_root-Later v s a c later))
        (λ root c₁ later₁ trusted.
          let ask = λ (id : ℤ). s.get_inclusion_proof id index root.tree_size in
          Ends-into (call v s ask c₁) _ (λ c' h'. h'.1)
            (Ends-call v s (Holds root) ask c₁ (trusted, later₁))
            (λ answer c₂ h₂ _.
              Ends-into (deref answer c₂) _ (λ c' h'. h'.1)
                (Ends-deref v s (Holds root) answer c₂ h₂)
                (λ proof c₃ h₃ _.
                  let r = verify_inclusion_at_index v (some root) d index proof.hashes in
                  Ends-weaken (lift r c₃) (Ends-lift {S = λ c'. Holds root c'.root} r c₃ h₃)
                    (λ x. x.1)
                    (λ u h accepted.
                      subst (DataAt d index) h.0
                        (verify_inclusion_at_index_sound root d index proof.hashes accepted)))))
