-- ===== src/Client/LogClient.antt =====
-- client/log_client.go: a client of one log and the root that it trusts. The state `R` of the
-- service and of the call's context stands in the client; a call of the service changes it. Loops
-- that a context ends run on fuel.
pub mod View
pub mod Latest
pub mod Updates
pub mod Inclusion
pub mod History
use trillian.Prelude.{
  ℕ, zero, suc, ◌-◌, ◌^◌, List, [], ◌∷◌, Bytes, bytes_equal, Outcome, ok, err, panic, out_of_fuel,
  Option, none, some, Bool, true, false, not, ◌&&◌, ◌==◌, length, ltb, if◌then◌else◌,
}
use trillian.Prelude.Int.{ℤ, pos, negsuc, ◌+ℤ◌, eqb_ℤ, ltb_ℤ}
use trillian.Log.Tx.{Action, ◌>>=◌, ◌>>◌, return, fail, lift}
use trillian.Client.LogVerifier.{
  Code, unavailable, not_found, failed_precondition, deadline_exceeded, other_code, Error, status,
  wrapped, wrong_leaf_count, wrong_leaf_index, no_inclusion_proof, SignedLogRoot, Proof, LogLeaf,
  LogVerifier, verify_root, build_leaf, verify_inclusion_at_index, verify_inclusion_by_hash,
}

-- `TrillianLogClient` on a state `R`, as far as it is called, and the context: `wait` sleeps until
-- the backoff is over, or gives true if the context is done.
pub record TrillianLog (R : Type 0) : Type 0 where
  pub get_latest_signed_log_root : ℤ → Action R Error (Option SignedLogRoot)
  pub get_consistency_proof : ℤ → ℤ → ℤ → Action R Error (Option Proof)
  pub get_inclusion_proof : ℤ → ℤ → ℤ → Action R Error (Option Proof)
  pub get_inclusion_proof_by_hash : ℤ → Bytes → ℤ → Action R Error (List (Option Proof))
  pub queue_leaf : ℤ → LogLeaf → Action R Error (Unit {0})
  pub get_leaves_by_index : ℤ → List ℤ → Action R Error (List LogLeaf)
  pub get_leaves_by_range : ℤ → ℤ → ℤ → Action R Error (List LogLeaf)
  pub wait : R → R × Bool

pub record LogClient (R : Type 0) : Type 0 where
  pub log_id : ℤ
  pub remote : R
  pub root : SignedLogRoot

-- status.Code of an error.
abbrev pub code : Error → Code
code (status c) = c
code e = other_code 2

-- GetProof().GetHashes(), also of a nil proof.
abbrev pub get_hashes : Option Proof → List Bytes
get_hashes none = []
get_hashes (some proof) = proof.hashes

abbrev pub get_tree_size : Option SignedLogRoot → ℤ
get_tree_size none = pos 0
get_tree_size (some root) = root.tree_size

-- A field of a nil pointer panics.
abbrev pub deref : {T A : Type 0} → Option A → Action T Error A
deref none t = (t, panic)
deref (some a) t = (t, ok a)

-- An error under another one's message.
abbrev pub wrap_error : {T A : Type 0} → T × Outcome Error A → T × Outcome Error A
wrap_error (t, ok a) = (t, ok a)
wrap_error (t, err e) = (t, err (wrapped e))
wrap_error (t, panic) = (t, panic)
wrap_error (t, out_of_fuel) = (t, out_of_fuel)

abbrev pub wrap : {T A : Type 0} → Action T Error A → Action T Error A
wrap m t = wrap_error (m t)

-- `+ 1` on an `int64`.
abbrev pub increment : ℤ → ℤ
increment n = if eqb_ℤ n (pos (2 ^ 63 - 1)) then negsuc (2 ^ 63 - 1) else n +ℤ pos 1

-- An index that is not the next one from `want` on.
abbrev pub out_of_place : ℤ → List LogLeaf → Bool
out_of_place want [] = false
out_of_place want (l ∷ leaves) =
    let rest = out_of_place (increment want) leaves in
    if not (eqb_ℤ l.leaf_index want) then true else rest

abbrev pub one_leaf : {T : Type 0} → List LogLeaf → Action T Error LogLeaf
one_leaf [] = fail wrong_leaf_count
one_leaf (l ∷ rest) = if length rest == 0 then return l else fail wrong_leaf_count

module _ {R : Type 0} (v : LogVerifier) (s : TrillianLog R) where
  abbrev pub call : {A : Type 0} → (ℤ → Action R Error A) → Action (LogClient R) Error A
  call m c = let (r, out) = m c.log_id c.remote in (record c { remote = r }, out)

  abbrev pub get_root : Action (LogClient R) Error SignedLogRoot
  get_root c = (c, ok c.root)

  abbrev pub set_root : SignedLogRoot → Action (LogClient R) Error (Unit {0})
  set_root root c = (record c { root = root }, ok tt)

  unfoldable pub get_by_index : ℤ → Action (LogClient R) Error LogLeaf
  get_by_index index = do
    leaves ← call (λ id. s.get_leaves_by_index id (index ∷ []))
    one_leaf leaves

  unfoldable pub list_by_index : ℤ → ℤ → Action (LogClient R) Error (List LogLeaf)
  list_by_index start count = do
    leaves ← call (λ id. s.get_leaves_by_range id start count)
    if ltb_ℤ (pos (length leaves)) count
        then fail wrong_leaf_count
        else if out_of_place start leaves
        then fail wrong_leaf_index
        else return leaves

  -- The tree has not changed: the same size and root hash as a root that was seen before.
  abbrev pub not_updated : SignedLogRoot → Option SignedLogRoot → Action (LogClient R) Error Bool
  not_updated trusted latest =
      if ltb_ℤ (pos 0) trusted.tree_size
      then (do
        root ← deref latest
        return (
            eqb_ℤ root.tree_size trusted.tree_size && bytes_equal root.root_hash trusted.root_hash))
      else return false

  -- The consistency proof for a root that is not the first one seen.
  abbrev pub fetch_consistency :
      SignedLogRoot → Option SignedLogRoot → Action (LogClient R) Error (Option Proof)
  fetch_consistency trusted latest =
      if ltb_ℤ (pos 0) trusted.tree_size
      then (do
        root ← deref latest
        call (λ id. s.get_consistency_proof id trusted.tree_size root.tree_size))
      else return none

  unfoldable pub get_latest_root : SignedLogRoot → Action (LogClient R) Error (Option SignedLogRoot)
  get_latest_root trusted = do
    latest ← call s.get_latest_signed_log_root
    same ← not_updated trusted latest
    (if same then return latest else do
      consistency ← fetch_consistency trusted latest
      (if ltb_ℤ (pos 0) (get_tree_size latest)
          then lift (verify_root v (some trusted) latest (get_hashes consistency))
          else return tt)
      return latest)

  unfoldable pub update_root : Action (LogClient R) Error SignedLogRoot
  update_root = do
    currently_trusted ← get_root
    latest ← get_latest_root currently_trusted
    new_trusted ← deref latest
    (if ltb_ℤ currently_trusted.timestamp_nanos new_trusted.timestamp_nanos
          && not (ltb_ℤ new_trusted.tree_size currently_trusted.tree_size)
        then set_root new_trusted
        else return tt)
    get_root

  -- The `select` between the context and the backoff, and the loop after it.
  abbrev pub sleep_then :
      Action (LogClient R) Error SignedLogRoot → Action (LogClient R) Error SignedLogRoot
  sleep_then again = do
    done ← (λ c. let (r, d) = s.wait c.remote in (record c { remote = r }, ok d))
    if done then fail (status deadline_exceeded) else again

  -- The errors that a loop tries again after.
  abbrev pub retried : Code → Bool
  retried unavailable = true
  retried not_found = true
  retried failed_precondition = true
  retried deadline_exceeded = false
  retried (other_code n) = false

  -- What the loop does with the result of UpdateRoot.
  abbrev pub after_update :
      ℤ
      → Action (LogClient R) Error SignedLogRoot
      → LogClient R × Outcome Error SignedLogRoot
      → LogClient R × Outcome Error SignedLogRoot
  after_update wait_for_tree_size again (c, ok root) =
      (if ltb_ℤ root.tree_size wait_for_tree_size then sleep_then again else return root) c
  after_update wait_for_tree_size again (c, err e) =
      (if retried (code e) then sleep_then again else fail e) c
  after_update wait_for_tree_size again (c, panic) = (c, panic)
  after_update wait_for_tree_size again (c, out_of_fuel) = (c, out_of_fuel)

  unfoldable pub wait_for_root_update : ℕ → ℤ → Action (LogClient R) Error SignedLogRoot
  wait_for_root_update zero wait_for_tree_size c = (c, out_of_fuel)
  wait_for_root_update (suc fuel) wait_for_tree_size c =
      after_update wait_for_tree_size (wait_for_root_update fuel wait_for_tree_size) (update_root c)

  abbrev pub verify_each :
      SignedLogRoot → Bytes → List (Option Proof) → Action (LogClient R) Error (Unit {0})
  verify_each sth leaf_hash [] = return tt
  verify_each sth leaf_hash (proof ∷ proofs) = do
    wrap (lift (verify_inclusion_by_hash v (some sth) leaf_hash proof))
    verify_each sth leaf_hash proofs

  unfoldable pub get_and_verify_inclusion_proof :
      Bytes → SignedLogRoot → Action (LogClient R) Error (Unit {0})
  get_and_verify_inclusion_proof leaf_hash sth = do
    proofs ← call (λ id. s.get_inclusion_proof_by_hash id leaf_hash sth.tree_size)
    if ltb (length proofs) 1 then fail no_inclusion_proof else verify_each sth leaf_hash proofs

  abbrev pub is_not_found : Code → Bool
  is_not_found not_found = true
  is_not_found c = false

  -- What the loop of WaitForInclusion does with the result of the check.
  abbrev pub after_check :
      Action (LogClient R) Error (Unit {0})
      → LogClient R × Outcome Error (Unit {0})
      → LogClient R × Outcome Error (Unit {0})
  after_check again (c, ok u) = (c, ok u)
  after_check again (c, err e) = (if is_not_found (code e) then again else fail e) c
  after_check again (c, panic) = (c, panic)
  after_check again (c, out_of_fuel) = (c, out_of_fuel)

  -- The loop of WaitForInclusion, with the fuel of the waits in it.
  unfoldable pub inclusion_rounds :
      ℕ → ℕ → Bytes → SignedLogRoot → Action (LogClient R) Error (Unit {0})
  inclusion_rounds zero fuel leaf_hash root c = (c, out_of_fuel)
  inclusion_rounds (suc rounds) fuel leaf_hash root c =
      after_check
        (wait_for_root_update fuel (increment root.tree_size) >>= λ newer.
          inclusion_rounds rounds fuel leaf_hash newer)
        (get_and_verify_inclusion_proof leaf_hash root c)

  unfoldable pub wait_for_inclusion : ℕ → Bytes → Action (LogClient R) Error (Unit {0})
  wait_for_inclusion fuel leaf_data = do
    leaf ← lift (build_leaf v leaf_data)
    root ← wait_for_root_update fuel (pos 1)
    inclusion_rounds fuel fuel leaf.merkle_leaf_hash root

  unfoldable pub verify_inclusion : Bytes → Action (LogClient R) Error (Unit {0})
  verify_inclusion leaf_data = do
    leaf ← lift (build_leaf v leaf_data)
    root ← wrap update_root
    get_and_verify_inclusion_proof leaf.merkle_leaf_hash root

  unfoldable pub get_and_verify_inclusion_at_index :
      Bytes → ℤ → Action (LogClient R) Error (Unit {0})
  get_and_verify_inclusion_at_index leaf_data index = do
    root ← wrap update_root
    answer ← call (λ id. s.get_inclusion_proof id index root.tree_size)
    proof ← deref answer
    lift (verify_inclusion_at_index v (some root) leaf_data index proof.hashes)

  unfoldable pub queue_leaf : Bytes → Action (LogClient R) Error (Unit {0})
  queue_leaf leaf_data = do leaf ← lift (build_leaf v leaf_data); call (λ id. s.queue_leaf id leaf)

  unfoldable pub add_leaf : ℕ → Bytes → Action (LogClient R) Error (Unit {0})
  add_leaf fuel leaf_data = do wrap (queue_leaf leaf_data); wrap (wait_for_inclusion fuel leaf_data)
