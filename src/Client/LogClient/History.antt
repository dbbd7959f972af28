-- ===== src/Client/LogClient/History.antt =====
-- A client of client/log_client.go over its life: any of its methods, in any order, against a
-- service that answers and changes as it likes.
use trillian.Prelude.{
  ℕ, suc, ◌<◌, ◌≡◌, ◌⊎◌, inl, inr, ◌∙◌, ap, List, [], ◌∷◌, Bytes, ok, length, get_or, take, ◌==◌,
}
use trillian.Prelude.Int.{ℤ, pos, ltb_ℤ}
use trillian.Merkle.Tree.Collision.{Collision}
use trillian.Log.Tx.{return, fail}
use trillian.Log.Tx.Ends.{Ends, Ends-after, Ends-return, Ends-fail, Ends-if}
use trillian.Client.LogVerifier.{
  SignedLogRoot, LogLeaf, wrong_leaf_count, wrong_leaf_index, LogVerifier,
}
use trillian.Client.LogClient.{
  TrillianLog, LogClient, call, one_leaf, out_of_place, get_by_index, list_by_index, update_root,
  wait_for_root_update, wait_for_inclusion, verify_inclusion, get_and_verify_inclusion_at_index,
  queue_leaf, add_leaf,
}
use trillian.Client.LogClient.View.{Commits, AppendOnly, AppendOnly-refl}
use trillian.Client.LogClient.Latest.{Ends-call}
use trillian.Client.LogClient.Updates.{update_root-Later, wait_for_root_update-Later}
use trillian.Client.LogClient.Inclusion.{
  wait_for_inclusion-Later, verify_inclusion-Later, at_index-Later, queue_leaf-Later,
  add_leaf-Later,
}

-- A call of a method, or anything that changes the service.
pub data Operation (R : Type 0) : Type 0 where
  gets : ℤ → Operation R
  lists : ℤ → ℤ → Operation R
  updates : Operation R
  waits_for_root : ℕ → ℤ → Operation R
  waits_for_inclusion : ℕ → Bytes → Operation R
  verifies : Bytes → Operation R
  verifies_at : Bytes → ℤ → Operation R
  queues : Bytes → Operation R
  adds : ℕ → Bytes → Operation R
  changes : R → Operation R

module _ {R : Type 0} (v : LogVerifier) (s : TrillianLog R) where
  abbrev hc : Bytes → Bytes → Bytes
  hc = v.hasher.hash_children

  abbrev pub run : Operation R → LogClient R → LogClient R
  run (gets index) c = (get_by_index v s index c).0
  run (lists start count) c = (list_by_index v s start count c).0
  run updates c = (update_root v s c).0
  run (waits_for_root fuel n) c = (wait_for_root_update v s fuel n c).0
  run (waits_for_inclusion fuel d) c = (wait_for_inclusion v s fuel d c).0
  run (verifies d) c = (verify_inclusion v s d c).0
  run (verifies_at d index) c = (get_and_verify_inclusion_at_index v s d index c).0
  run (queues d) c = (queue_leaf v s d c).0
  run (adds fuel d) c = (add_leaf v s fuel d c).0
  run (changes r) c = record c { remote = r }

  abbrev pub runs : List (Operation R) → LogClient R → LogClient R
  runs [] c = c
  runs (op ∷ ops) c = runs ops (run op c)

  module _ (a : SignedLogRoot) where
    abbrev Later : SignedLogRoot → Type 0
    Later = AppendOnly hc v.hasher.empty_root a

    one_leaf-Later :
        (leaves : List LogLeaf) (c : LogClient R)
        → Later c.root
        → Ends (λ c'. Later c'.root) (λ leaf c'. Unit {0}) (one_leaf leaves c)
    one_leaf-Later [] c h = Ends-fail wrong_leaf_count c h
    one_leaf-Later (l ∷ rest) c h =
        Ends-if (length rest == 0) (return l) (fail wrong_leaf_count) c
          (λ one. Ends-return l c h tt) (λ more. Ends-fail wrong_leaf_count c h)

    get_by_index-Later :
        (index : ℤ) (c : LogClient R)
        → Later c.root
        → Ends (λ c'. Later c'.root) (λ leaf c'. Unit {0}) (get_by_index v s index c)
    unfolding get_by_index
    get_by_index-Later index c h =
        let ask = λ (id : ℤ). s.get_leaves_by_index id (index ∷ []) in
        Ends-after (call v s ask c) _ (Ends-call v s Later ask c h)
          (λ leaves c₁ h₁ _. one_leaf-Later leaves c₁ h₁)

    list_by_index-Later :
        (start count : ℤ) (c : LogClient R)
        → Later c.root
        → Ends (λ c'. Later c'.root) (λ leaves c'. Unit {0}) (list_by_index v s start count c)
    unfolding list_by_index
    list_by_index-Later start count c h =
        let ask = λ (id : ℤ). s.get_leaves_by_range id start count in
        Ends-after (call v s ask c) _ (Ends-call v s Later ask c h) (λ leaves c₁ h₁ _.
          Ends-if (ltb_ℤ (pos (length leaves)) count) (fail wrong_leaf_count) _ c₁
            (λ few. Ends-fail wrong_leaf_count c₁ h₁)
            (λ enough.
              Ends-if (out_of_place start leaves) (fail wrong_leaf_index) (return leaves) c₁
                (λ bad. Ends-fail wrong_leaf_index c₁ h₁) (λ good. Ends-return leaves c₁ h₁ tt)))

    run-Later : (op : Operation R) (c : LogClient R) → Later c.root → Later (run op c).root
    run-Later (gets index) c h = (get_by_index-Later index c h).state
    run-Later (lists start count) c h = (list_by_index-Later start count c h).state
    run-Later updates c h = (update_root-Later v s a c h).state
    run-Later (waits_for_root fuel n) c h = (wait_for_root_update-Later v s a fuel n c h).state
    run-Later (waits_for_inclusion fuel d) c h = (wait_for_inclusion-Later v s a fuel d c h).state
    run-Later (verifies d) c h = (verify_inclusion-Later v s a d c h).state
    run-Later (verifies_at d index) c h = (at_index-Later v s a d index c h).state
    run-Later (queues d) c h = (queue_leaf-Later v s a d c h).state
    run-Later (adds fuel d) c h = (add_leaf-Later v s a fuel d c h).state
    run-Later (changes r) c h = h

    runs-Later :
        (ops : List (Operation R)) (c : LogClient R) → Later c.root → Later (runs ops c).root
    runs-Later [] c h = h
    runs-Later (op ∷ ops) c h = runs-Later ops (run op c) (run-Later op c h)

  -- After any methods in any order, against a service that answers and changes as it likes: where
  -- the client trusted a root of `m + 1` leaves and now trusts the root of a list of leaf hashes,
  -- the root from before is that of the list's first `m + 1` ones; or two different pairs of nodes
  -- have one hash.
  pub runs_prefix :
      (ops : List (Operation R)) (c : LogClient R) (m : ℕ) (l : List Bytes)
      → c.root.tree_size ≡ pos (suc m)
      → Commits hc v.hasher.empty_root (runs ops c).root l
      → Commits hc v.hasher.empty_root c.root (take (suc m) l) ⊎ Collision hc
  runs_prefix ops c m l size now =
      (runs-Later c.root ops c (AppendOnly-refl hc v.hasher.empty_root c.root)).prefix m size l now

  -- After any methods in any order: where the client trusted a root of `m + 1` leaves, the root
  -- that it trusts has at least as many.
  pub runs_size :
      (ops : List (Operation R)) (c : LogClient R) (m : ℕ)
      → c.root.tree_size ≡ pos (suc m)
      → (k : ℕ) × ((runs ops c).root.tree_size ≡ pos k) × (m < k)
  runs_size ops c m size =
      (runs-Later c.root ops c (AppendOnly-refl hc v.hasher.empty_root c.root)).grows m size

  -- Where AddLeaf returns without an error and the root that is then trusted is that of a list of
  -- leaf hashes that is not empty, the data has a leaf hash and it is in the list; or two different
  -- pairs of nodes have one hash.
  pub add_leaf_sound :
      (fuel : ℕ) (d : Bytes) (c : LogClient R) (l : List Bytes)
      → (add_leaf v s fuel d c).1 ≡ ok tt
      → Commits hc v.hasher.empty_root (add_leaf v s fuel d c).0.root l
      → 0 < length l
      → ((i : ℕ) × (i < length l) × (v.hasher.hash_leaf d ≡ ok (get_or l i []))) ⊎ Collision hc
  add_leaf_sound fuel d c l done now some_leaf =
      let start = AppendOnly-refl hc v.hasher.empty_root c.root in
      let (h, hash, found) = (add_leaf-Later v s c.root fuel d c start).holds tt done in
      elim (found l now some_leaf) [
        | inl (i, inside, same) ↦ inl (i, inside, hash ∙ ap ok same)
        | inr clash ↦ inr clash
      ]

  -- Where GetAndVerifyInclusionAtIndex returns without an error and the root that is then trusted
  -- is that of a list of leaf hashes that is not empty, the index is in the list and the data's
  -- leaf hash stands there; or it is in the list and two different pairs of nodes have one hash.
  pub get_and_verify_inclusion_at_index_sound :
      (d : Bytes) (index : ℤ) (c : LogClient R) (l : List Bytes)
      → (get_and_verify_inclusion_at_index v s d index c).1 ≡ ok tt
      → Commits hc v.hasher.empty_root (get_and_verify_inclusion_at_index v s d index c).0.root l
      → 0 < length l
      → (i : ℕ) × (index ≡ pos i)
        × (i < length l)
        × ((v.hasher.hash_leaf d ≡ ok (get_or l i [])) ⊎ Collision hc)
  get_and_verify_inclusion_at_index_sound d index c l done now some_leaf =
      let start = AppendOnly-refl hc v.hasher.empty_root c.root in
      (at_index-Later v s c.root d index c start).holds tt done l now some_leaf
