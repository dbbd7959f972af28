-- ===== src/Merkle/LogVerifier/Tests.antt =====
-- Runs of the verifier of merkle/log_verifier.go, with a hash of the children that keeps them.
use trillian.Prelude.{
  ℕ, ◌≡◌, ◌⊎◌, ◌<◌, refl, List, [], ◌∷◌, ◌++◌, Bytes, ok, err, take, get_or, arith,
}
use trillian.Prelude.Int.{ℤ, pos, negsuc}
use trillian.Merkle.Tree.{
  siblings, siblings_fuel, sibling, up, extension, mth, mth_fuel, split_point,
}
use trillian.Merkle.Tree.Collision.{Collision}
use trillian.Merkle.LogVerifier.{
  invalid_proof, negative_leaf_index, leaf_index_not_in_tree, insufficient_proof,
  proof_of_empty_snapshot, root_from_inclusion_proof, verify_inclusion_proof,
  verify_consistency_proof,
}
use trillian.Merkle.MerklePath.Ends.{Ends}
use trillian.Merkle.LogVerifier.Total.{verify_consistency_proof-Ends, verify_inclusion_proof-Ends}
use trillian.Merkle.LogVerifier.Inclusion.{verify_inclusion_proof-siblings}
use trillian.Merkle.LogVerifier.Soundness.{verify_inclusion_proof_sound}
use trillian.Merkle.LogVerifier.Consistency.Complete.{verify_consistency_proof-extension}

abbrev hc : Bytes → Bytes → Bytes
hc l r = 1 ∷ l ++ r

abbrev five : List Bytes
five = (10 ∷ []) ∷ (11 ∷ []) ∷ (12 ∷ []) ∷ (13 ∷ []) ∷ (14 ∷ []) ∷ []

five_root : mth hc [] five ≡ 1 ∷ 1 ∷ 1 ∷ 10 ∷ 11 ∷ 1 ∷ 12 ∷ 13 ∷ 14 ∷ []
unfolding mth mth_fuel split_point
five_root = refl

proof_of_third : siblings hc 2 five ≡ (13 ∷ []) ∷ (1 ∷ 10 ∷ 11 ∷ []) ∷ (14 ∷ []) ∷ []
unfolding siblings siblings_fuel sibling up
proof_of_third = refl

rejects_short : root_from_inclusion_proof hc (pos 2) (pos 5) [] (12 ∷ []) ≡ err insufficient_proof
unfolding root_from_inclusion_proof
rejects_short = refl

rejects_long : root_from_inclusion_proof hc (pos 0) (pos 1) ([] ∷ []) (12 ∷ []) ≡ err invalid_proof
unfolding root_from_inclusion_proof
rejects_long = refl

rejects_outside : root_from_inclusion_proof hc (pos 5) (pos 5) [] [] ≡ err leaf_index_not_in_tree
unfolding root_from_inclusion_proof
rejects_outside = refl

rejects_negative : root_from_inclusion_proof hc (negsuc 0) (pos 5) [] [] ≡ err negative_leaf_index
unfolding root_from_inclusion_proof
rejects_negative = refl

rejects_empty :
    verify_consistency_proof hc (pos 0) (pos 5) [] [] ([] ∷ []) ≡ err proof_of_empty_snapshot
unfolding verify_consistency_proof
rejects_empty = refl

accepts_third :
    verify_inclusion_proof hc (pos 2) (pos 5) (siblings hc 2 five) (mth hc [] five) (12 ∷ [])
    ≡ ok tt
unfolding verify_inclusion_proof root_from_inclusion_proof siblings mth siblings_fuel sibling up
    mth_fuel split_point
accepts_third = refl

verify_inclusion_proof-siblings_example :
    verify_inclusion_proof hc (pos 4) (pos 5) (siblings hc 4 five) (mth hc [] five) (14 ∷ [])
    ≡ ok tt
verify_inclusion_proof-siblings_example = verify_inclusion_proof-siblings hc [] five 4 (omega arith)

verify_inclusion_proof_sound_example :
    (i : ℕ) × (◌≡◌ {A = ℤ} (pos 2) (pos i))
    × (i < 5)
    × (((12 ∷ [] ≡ get_or five i []) × (siblings hc 2 five ≡ siblings hc i five)) ⊎ Collision hc)
verify_inclusion_proof_sound_example =
    verify_inclusion_proof_sound hc [] five (pos 2) (siblings hc 2 five) (12 ∷ []) (omega arith)
      accepts_third

verify_consistency_proof-extension_example :
    verify_consistency_proof hc
      (pos 3)
      (pos 5)
      (mth hc [] (take 3 five))
      (mth hc [] five)
      (extension hc 3 five)
    ≡ ok tt
verify_consistency_proof-extension_example =
    verify_consistency_proof-extension hc [] 3 five (omega arith) (omega arith)

-- A proof that is too long is refused, not read past its end.
verify_consistency_proof-Ends_example :
    Ends (verify_consistency_proof hc (pos 3) (pos 5) [] [] ([] ∷ [] ∷ [] ∷ [] ∷ []))
verify_consistency_proof-Ends_example =
    verify_consistency_proof-Ends hc (pos 3) (pos 5) [] [] ([] ∷ [] ∷ [] ∷ [] ∷ [])

verify_inclusion_proof-Ends_example :
    Ends (verify_inclusion_proof hc (pos 2) (pos 5) ([] ∷ []) [] (12 ∷ []))
verify_inclusion_proof-Ends_example =
    verify_inclusion_proof-Ends hc (pos 2) (pos 5) ([] ∷ []) [] (12 ∷ [])
