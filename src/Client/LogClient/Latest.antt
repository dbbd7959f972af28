-- ===== src/Client/LogClient/Latest.antt =====
-- getLatestRoot of client/log_client.go: what was checked of the root that it returns.
use trillian.Prelude.{
  ℕ, suc, ◌≡◌, inl, inr, ap, List, Bytes, Outcome, ok, err, panic, out_of_fuel, bind_ok, ◌>>=◌,
  Option, none, some, true, false, ◌&&◌, if◌then◌else◌, Bool-cases, bytes_equal, bytes_equal→eq,
  arith,
}
use trillian.Prelude.Int.{ℤ, pos, eqb_ℤ, eqb_ℤ-eq, ltb_ℤ}
use trillian.Log.Tx.{Action, return, lift}
use trillian.Log.Tx.Ends.{Ends, Ends-after, Ends-return, Ends-lift, Ends-if, Ends-weaken}
use trillian.Log.Tx.Returned.{value}
use trillian.Merkle.LogVerifier
use trillian.Merkle.LogVerifier.{verify_consistency_proof}
use trillian.Client.LogVerifier.{
  Error, SignedLogRoot, Proof, LogVerifier as Verifier, proof_result, verify_root, check_update,
  hash_log_root,
}
use trillian.Client.LogClient.{
  TrillianLog, LogClient, get_hashes, get_tree_size, deref, call, not_updated, fetch_consistency,
  get_latest_root,
}
use trillian.Client.LogClient.View.{Checked, unchanged, empty, consistent}

pub proof_result-ok :
    {A : Type 0} (r : Outcome LogVerifier.Error A) (a : A) → proof_result r ≡ ok a → r ≡ ok a
proof_result-ok (ok b) a h = cc
proof_result-ok (err e) a h = cc
proof_result-ok panic a h = cc
proof_result-ok out_of_fuel a h = cc

-- Where VerifyRoot accepts a root after one that is not empty, the consistency proof is accepted.
verify_root_consistent :
    (v : Verifier) (m : ℕ) (trusted root : SignedLogRoot) (proof : List Bytes)
    → trusted.tree_size ≡ pos (suc m)
    → verify_root v (some trusted) (some root) proof ≡ ok tt
    → verify_consistency_proof v.hasher.hash_children trusted.tree_size root.tree_size
        trusted.root_hash root.root_hash proof
      ≡ ok tt
unfolding verify_root
verify_root_consistent v m trusted root proof ht w =
    let checked = λ (u : Unit {0}). check_update v trusted root proof in
    let signed = λ (h : Bytes). v.verify h root.signature >>= checked in
    let (h, hash, w') = bind_ok (hash_log_root v root) signed tt w in
    let (u, signature, w'') = bind_ok (v.verify h root.signature) checked tt w' in
    let nonempty : eqb_ℤ trusted.tree_size (pos 0) ≡ false = rw ht (ground arith) in
    proof_result-ok
      (verify_consistency_proof v.hasher.hash_children trusted.tree_size root.tree_size
        trusted.root_hash root.root_hash proof)
      tt (rw nonempty at w'')

-- Actions of a client that leave the root that it trusts alone.
module _ {R : Type 0} (v : Verifier) (s : TrillianLog R) (P : SignedLogRoot → Type 0) where
  pub Ends-call :
      {A : Type 0} (m : ℤ → Action R Error A) (c : LogClient R)
      → P c.root
      → Ends (λ c'. P c'.root) (λ a c'. Unit {0}) (call v s m c)
  Ends-call m c h = record { state = h; holds = λ a e. tt }

  pub Ends-deref :
      {A : Type 0} (o : Option A) (c : LogClient R)
      → P c.root
      → Ends (λ c'. P c'.root) (λ a c'. o ≡ some a) (deref o c)
  Ends-deref none c h = record { state = h; holds = λ a e. absurd (cc) }
  Ends-deref (some x) c h = record { state = h; holds = λ a e. ap some (value x a e) }

  -- The root that is the same by size and hash.
  abbrev Same : SignedLogRoot → Option SignedLogRoot → Type 0
  Same trusted latest =
      (root : SignedLogRoot)
      → latest ≡ some root
      → (root.tree_size ≡ trusted.tree_size) × (root.root_hash ≡ trusted.root_hash)

  not_updated_sound :
      (trusted : SignedLogRoot) (latest : Option SignedLogRoot) (c : LogClient R)
      → P c.root
      → Ends
          (λ c'. P c'.root)
          (λ same c'. same ≡ true → Same trusted latest)
          (not_updated v s trusted latest c)
  not_updated_sound trusted none c h =
      Ends-if (ltb_ℤ (pos 0) trusted.tree_size) (λ t. (t, panic)) (return false) c
        (λ positive. record { state = h; holds = λ same e. absurd (cc) })
        (λ first. Ends-return false c h (λ w. absurd (cc)))
  not_updated_sound trusted (some r) c h =
      let same = eqb_ℤ r.tree_size trusted.tree_size && bytes_equal r.root_hash trusted.root_hash in
      Ends-if (ltb_ℤ (pos 0) trusted.tree_size) (return same) (return false) c
        (λ positive. Ends-return same c h (λ w root eq.
          let which : r ≡ root = cc in
          rw (← which) (
            eqb_ℤ-eq r.tree_size trusted.tree_size (ground arith),
            bytes_equal→eq r.root_hash trusted.root_hash (ground arith),
          )))
        (λ first. Ends-return false c h (λ w. absurd (cc)))

  fetch_consistency_keeps :
      (trusted : SignedLogRoot) (latest : Option SignedLogRoot) (c : LogClient R)
      → P c.root
      → Ends (λ c'. P c'.root) (λ proof c'. Unit {0}) (fetch_consistency v s trusted latest c)
  fetch_consistency_keeps trusted none c h =
      Ends-if (ltb_ℤ (pos 0) trusted.tree_size) (λ t. (t, panic)) (return none) c
        (λ positive. record { state = h; holds = λ proof e. tt }) (λ first. Ends-return none c h tt)
  fetch_consistency_keeps trusted (some r) c h =
      let ask = call v s (λ id. s.get_consistency_proof id trusted.tree_size r.tree_size) in
      Ends-if (ltb_ℤ (pos 0) trusted.tree_size) ask (return none) c
        (λ positive. Ends-call (λ id. s.get_consistency_proof id trusted.tree_size r.tree_size) c h)
        (λ first. Ends-return none c h tt)

  -- The check of a root that is not empty.
  verified :
      (trusted : SignedLogRoot) (latest : Option SignedLogRoot) (consistency : Option Proof)
      (c : LogClient R)
      → P c.root
      → Ends
          (λ c'. P c'.root)
          (λ (u : Unit {0}) c'.
            ltb_ℤ (pos 0) (get_tree_size latest) ≡ true
            → verify_root v (some trusted) latest (get_hashes consistency) ≡ ok tt)
          ((if ltb_ℤ (pos 0) (get_tree_size latest)
              then lift (verify_root v (some trusted) latest (get_hashes consistency))
              else return tt)
            c)
  verified trusted latest consistency c h =
      let r = verify_root v (some trusted) latest (get_hashes consistency) in
      Ends-if (ltb_ℤ (pos 0) (get_tree_size latest)) (lift r) (return tt) c
        (λ positive.
          Ends-weaken {S = λ c'. P c'.root} (lift r c) (Ends-lift r c h) (λ p. p) (λ u p e _. e))
        (λ no_leaf. Ends-return tt c h (λ positive. absurd (cc)))

  -- What was checked of a root.
  abbrev pub AllChecked : SignedLogRoot → Option SignedLogRoot → Type 0
  AllChecked trusted latest =
      (root : SignedLogRoot)
      → latest ≡ some root
      → (m : ℕ) → trusted.tree_size ≡ pos (suc m)
      → Checked v.hasher.hash_children v.hasher.empty_root trusted root

  checked_by_proof :
      (trusted : SignedLogRoot) (latest : Option SignedLogRoot) (proof : List Bytes)
      → (ltb_ℤ (pos 0) (get_tree_size latest) ≡ true
          → verify_root v (some trusted) latest proof ≡ ok tt)
      → AllChecked trusted latest
  checked_by_proof trusted none proof accept root eq m ht = absurd (cc)
  checked_by_proof trusted (some r) proof accept root eq m ht =
      let which : r ≡ root = cc in
      rw (← which) (elim (Bool-cases (ltb_ℤ (pos 0) r.tree_size)) [
        | inr no_leaf ↦ empty no_leaf
        | inl positive ↦
            consistent proof (verify_root_consistent v m trusted r proof ht (accept positive))
      ])

  pub get_latest_root_checked :
      (trusted : SignedLogRoot) (c : LogClient R)
      → P c.root
      → Ends
          (λ c'. P c'.root)
          (λ latest c'. AllChecked trusted latest)
          (get_latest_root v s trusted c)
  unfolding get_latest_root
  get_latest_root_checked trusted c h =
      Ends-after (call v s s.get_latest_signed_log_root c) _
        (Ends-call s.get_latest_signed_log_root c h)
        (λ latest c₁ h₁ _.
          Ends-after (not_updated v s trusted latest c₁) _ (not_updated_sound trusted latest c₁ h₁)
            (λ same c₂ h₂ is_same.
              Ends-if same (return latest) _ c₂
                (λ yes.
                  Ends-return latest c₂ h₂
                    (λ root eq m ht. let (size, hash) = is_same yes root eq in unchanged size hash))
                (λ no.
                  Ends-after (fetch_consistency v s trusted latest c₂) _
                    (fetch_consistency_keeps trusted latest c₂ h₂)
                    (λ consistency c₃ h₃ _.
                      Ends-after _ _ (verified trusted latest consistency c₃ h₃) (λ u c₄ h₄ accept.
                        Ends-return latest c₄ h₄
                          (checked_by_proof trusted latest (get_hashes consistency) accept))))))
