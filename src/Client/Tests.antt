-- ===== src/Client/Tests.antt =====
-- Runs of client/log_client.go against a service with a tree of three leaves.
use trillian.Prelude.{
  ℕ, ◌+◌, ◌≡◌, ◌⊎◌, ◌<◌, refl, List, [], ◌∷◌, ◌++◌, Bytes, Outcome, ok, panic, none, some, true,
  get_or, take, arith,
}
use trillian.Prelude.Int.{pos}
use trillian.Merkle.Tree.{mth, mth_fuel, split_point}
use trillian.Merkle.Tree.Collision.{Collision}
use trillian.Merkle.LogVerifier.{
  root_from_inclusion_proof, verify_inclusion_proof, verify_consistency_proof, check_consistency,
  check_from, check_roots, check_newer, climb, older_loop, newer_loop, inclusion_loop,
}
use trillian.Client.LogVerifier.{
  Error, SignedLogRoot, LogVerifier, verify_root, build_leaf, verify_inclusion_by_hash,
  verify_inclusion_at_index,
}
use trillian.Client.LogClient.{
  TrillianLog, LogClient, get_latest_root, update_root, wait_for_root_update,
  get_and_verify_inclusion_proof, inclusion_rounds, wait_for_inclusion, queue_leaf, add_leaf,
  get_and_verify_inclusion_at_index,
}
use trillian.Client.LogClient.View.{Commits}
use trillian.Client.LogClient.History.{
  updates, changes, runs, runs_prefix, runs_size, add_leaf_sound,
  get_and_verify_inclusion_at_index_sound,
}

abbrev hc : Bytes → Bytes → Bytes
hc l r = 1 ∷ l ++ r

abbrev verifier : LogVerifier
verifier = record {
  hasher = record { empty_root = []; hash_leaf = λ d. ok (0 ∷ d); hash_children = hc; size = 1 };
  object_hash = λ hash time size. ok hash;
  verify = λ hash signature. ok tt;
}

abbrev three : List Bytes
three = (0 ∷ 7 ∷ []) ∷ (0 ∷ 8 ∷ []) ∷ (0 ∷ 9 ∷ []) ∷ []

abbrev root_of : ℕ → Bytes → SignedLogRoot
root_of size hash = record {
  root_hash = hash;
  timestamp_nanos = pos size;
  tree_size = pos size;
  log_id = [];
  tree_revision = pos 1;
  signature = some [];
}

abbrev three_root : SignedLogRoot
three_root = root_of 3 (1 ∷ 1 ∷ 0 ∷ 7 ∷ 0 ∷ 8 ∷ 0 ∷ 9 ∷ [])

-- The service counts the roots that it has given out.
abbrev service : TrillianLog ℕ
service = record {
  get_latest_signed_log_root = λ id n. (n + 1, ok (some three_root));
  get_consistency_proof = λ id first second n.
      (n, ok (some (record { leaf_index = pos 0; hashes = (0 ∷ 9 ∷ []) ∷ [] })));
  get_inclusion_proof = λ id index size n.
      (n, ok (some (record { leaf_index = index; hashes = (1 ∷ 0 ∷ 7 ∷ 0 ∷ 8 ∷ []) ∷ [] })));
  get_inclusion_proof_by_hash = λ id hash size n.
      (n, ok (some (record { leaf_index = pos 2; hashes = (1 ∷ 0 ∷ 7 ∷ 0 ∷ 8 ∷ []) ∷ [] }) ∷ []));
  queue_leaf = λ id leaf n. (n, ok tt);
  get_leaves_by_index = λ id indices n. (n, ok []);
  get_leaves_by_range = λ id start count n. (n, ok []);
  wait = λ n. (n, true);
}

abbrev client : LogClient ℕ
client = record { log_id = pos 1; remote = 0; root = root_of 2 (1 ∷ 0 ∷ 7 ∷ 0 ∷ 8 ∷ []) }

updated :
    runs verifier service (updates ∷ changes 4 ∷ []) client
    ≡ record client { remote = 4; root = three_root }
unfolding update_root get_latest_root verify_root verify_consistency_proof check_consistency
    check_from check_roots check_newer climb older_loop newer_loop
updated = refl

-- A service that answers without a root makes the client panic.
nil_root :
    (update_root verifier
      (record service { get_latest_signed_log_root = λ id n. (n, ok none) })
      client).1
    ≡ panic
unfolding update_root get_latest_root
nil_root = refl

committed : Commits hc [] (runs verifier service (updates ∷ changes 4 ∷ []) client).root three
unfolding update_root get_latest_root verify_root verify_consistency_proof check_consistency
    check_from check_roots check_newer climb older_loop newer_loop mth mth_fuel split_point
committed = record { size = refl; hash = refl }

runs_prefix_example : Commits hc [] client.root (take 2 three) ⊎ Collision hc
runs_prefix_example =
    runs_prefix verifier service (updates ∷ changes 4 ∷ []) client 1 three refl committed

runs_size_example :
    (k : ℕ) × ((runs verifier service (updates ∷ changes 4 ∷ []) client).root.tree_size ≡ pos k)
    × (1 < k)
runs_size_example = runs_size verifier service (updates ∷ changes 4 ∷ []) client 1 refl

added : (add_leaf verifier service 1 (9 ∷ []) client).1 ≡ ok tt
unfolding update_root get_latest_root verify_root verify_consistency_proof check_consistency
    check_from check_roots check_newer climb older_loop newer_loop add_leaf queue_leaf build_leaf
    wait_for_inclusion wait_for_root_update inclusion_rounds get_and_verify_inclusion_proof
    verify_inclusion_by_hash verify_inclusion_proof root_from_inclusion_proof inclusion_loop
added = refl

added-Commits : Commits hc [] (add_leaf verifier service 1 (9 ∷ []) client).0.root three
unfolding update_root get_latest_root verify_root verify_consistency_proof check_consistency
    check_from check_roots check_newer climb older_loop newer_loop add_leaf queue_leaf build_leaf
    wait_for_inclusion wait_for_root_update inclusion_rounds get_and_verify_inclusion_proof
    verify_inclusion_by_hash verify_inclusion_proof root_from_inclusion_proof inclusion_loop mth
    mth_fuel split_point
added-Commits = record { size = refl; hash = refl }

add_leaf_sound_example :
    ((i : ℕ) × (i < 3) × (◌≡◌ {A = Outcome Error Bytes} (ok (0 ∷ 9 ∷ [])) (ok (get_or three i []))))
    ⊎ Collision hc
add_leaf_sound_example =
    add_leaf_sound verifier service 1 (9 ∷ []) client three added added-Commits (omega arith)

at_index : (get_and_verify_inclusion_at_index verifier service (9 ∷ []) (pos 2) client).1 ≡ ok tt
unfolding update_root get_latest_root verify_root verify_consistency_proof check_consistency
    check_from check_roots check_newer climb older_loop newer_loop build_leaf
    get_and_verify_inclusion_at_index verify_inclusion_at_index verify_inclusion_proof
    root_from_inclusion_proof inclusion_loop
at_index = refl

at_index-Commits :
    Commits hc []
      (get_and_verify_inclusion_at_index verifier service (9 ∷ []) (pos 2) client).0.root
      three
unfolding update_root get_latest_root verify_root verify_consistency_proof check_consistency
    check_from check_roots check_newer climb older_loop newer_loop build_leaf
    get_and_verify_inclusion_at_index verify_inclusion_at_index verify_inclusion_proof
    root_from_inclusion_proof inclusion_loop mth mth_fuel split_point
at_index-Commits = record { size = refl; hash = refl }

get_and_verify_inclusion_at_index_sound_example :
    (i : ℕ) × (pos 2 ≡ pos i)
    × (i < 3)
    × ((◌≡◌ {A = Outcome Error Bytes} (ok (0 ∷ 9 ∷ [])) (ok (get_or three i []))) ⊎ Collision hc)
get_and_verify_inclusion_at_index_sound_example =
    get_and_verify_inclusion_at_index_sound verifier service (9 ∷ []) (pos 2) client three at_index
      at_index-Commits (omega arith)
