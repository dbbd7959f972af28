-- ===== src/Client/LogClient/Updates.antt =====
-- The operations of client/log_client.go that change the trusted root or check an inclusion.
use trillian.Prelude.{
  ℕ, zero, suc, ◌≡◌, refl, sym, subst, Bytes, Outcome, ok, err, panic, out_of_fuel, Bool, true,
  false, not, ◌&&◌, if◌then◌else◌, arith,
}
use trillian.Prelude.Int.{ℤ, pos, ltb_ℤ}
use trillian.Log.Tx.{Action, return, fail}
use trillian.Log.Tx.Ends.{Ends, Ends-into, Ends-after, Ends-return, Ends-fail, Ends-if}
use trillian.Client.LogVerifier.{
  Error, status, deadline_exceeded, wrapped, SignedLogRoot, LogVerifier,
}
use trillian.Client.LogClient.{
  TrillianLog, LogClient, code, deref, wrap_error, set_root, get_latest_root, update_root,
  sleep_then, retried, after_update, wait_for_root_update,
}
use trillian.Client.LogClient.View.{Checked, AppendOnly, AppendOnly-trans, Checked-AppendOnly}
use trillian.Client.LogClient.Latest.{Ends-deref, get_latest_root_checked}

not-eq : (b : Bool) → not b ≡ true → b ≡ false
not-eq true h = cc
not-eq false h = refl

-- An error that is wrapped changes no value.
pub Ends-wrap :
    {T A : Type 0} {S : T → Type 0} {Q : A → T → Type 0} (p : T × Outcome Error A)
    → Ends S Q p
    → Ends S Q (wrap_error p)
Ends-wrap (c, ok x) h = h
Ends-wrap (c, err e) h = Ends-fail (wrapped e) c h.state
Ends-wrap (c, panic) h = record { state = h.state; holds = λ x e. absurd (cc) }
Ends-wrap (c, out_of_fuel) h = record { state = h.state; holds = λ x e. absurd (cc) }

module _ {R : Type 0} (v : LogVerifier) (s : TrillianLog R) (a : SignedLogRoot) where
  abbrev pub hc : Bytes → Bytes → Bytes
  hc = v.hasher.hash_children

  -- A later view of the log than that of `a`.
  abbrev pub Later : SignedLogRoot → Type 0
  Later = AppendOnly hc v.hasher.empty_root a

  -- The value is the root that the client trusts.
  abbrev pub IsTrusted : SignedLogRoot → LogClient R → Type 0
  IsTrusted root c = root ≡ c.root

  -- The end of UpdateRoot.
  store :
      (old root : SignedLogRoot) (c : LogClient R)
      → c.root ≡ old
      → Later old
      → ((m : ℕ) → old.tree_size ≡ pos (suc m) → Checked hc v.hasher.empty_root old root)
      → Ends
          (λ c'. Later c'.root)
          (λ u c'. Unit {0})
          ((if ltb_ℤ old.timestamp_nanos root.timestamp_nanos
                && not (ltb_ℤ root.tree_size old.tree_size)
              then set_root v s root
              else return tt)
            c)
  store old root c same later checked =
      let newer =
        ltb_ℤ old.timestamp_nanos root.timestamp_nanos
        && not (ltb_ℤ root.tree_size old.tree_size) in
      Ends-if newer (set_root v s root) (return tt) c
        (λ yes.
          let longer =
            Checked-AppendOnly hc v.hasher.empty_root old root checked
              (not-eq (ltb_ℤ root.tree_size old.tree_size) (ground arith)) in
          record {
            state = AppendOnly-trans hc v.hasher.empty_root a old root later longer;
            holds = λ u e. tt;
          })
        (λ no. Ends-return tt c (subst Later (sym same) later) tt)

  pub update_root-Later :
      (c : LogClient R) → Later c.root → Ends (λ c'. Later c'.root) IsTrusted (update_root v s c)
  unfolding update_root
  update_root-Later c later =
      let back = λ (c' : LogClient R) (same : c'.root ≡ c.root). subst Later (sym same) later in
      Ends-into (get_latest_root v s c.root c) _ back
        (get_latest_root_checked v s (λ r. r ≡ c.root) c.root c refl)
        (λ latest c₁ same checked.
          Ends-into (deref latest c₁) _ back (Ends-deref v s (λ r. r ≡ c.root) latest c₁ same)
            (λ root c₂ same₂ found.
              Ends-after _ _ (store c.root root c₂ same₂ later (checked root found))
                (λ u c₃ later₃ _. Ends-return c₃.root c₃ later₃ refl)))

  sleep_then-Later :
      (again : Action (LogClient R) Error SignedLogRoot) (c : LogClient R)
      → Later c.root
      → ((c' : LogClient R) → Later c'.root → Ends (λ c'. Later c'.root) IsTrusted (again c'))
      → Ends (λ c'. Later c'.root) IsTrusted (sleep_then v s again c)
  sleep_then-Later again c later next =
      let c' = record c { remote = (s.wait c.remote).0 } in
      Ends-if (s.wait c.remote).1 (fail (status deadline_exceeded)) again c'
        (λ done. Ends-fail (status deadline_exceeded) c' later) (λ more. next c' later)

  after_update-Later :
      (n : ℤ) (again : Action (LogClient R) Error SignedLogRoot)
      (p : LogClient R × Outcome Error SignedLogRoot)
      → Ends (λ c'. Later c'.root) IsTrusted p
      → ((c' : LogClient R) → Later c'.root → Ends (λ c'. Later c'.root) IsTrusted (again c'))
      → Ends (λ c'. Later c'.root) IsTrusted (after_update v s n again p)
  after_update-Later n again (c, ok root) first next =
      Ends-if (ltb_ℤ root.tree_size n) (sleep_then v s again) (return root) c
        (λ small. sleep_then-Later again c first.state next) (λ enough. first)
  after_update-Later n again (c, err e) first next =
      Ends-if (retried v s (code e)) (sleep_then v s again) (fail e) c
        (λ yes. sleep_then-Later again c first.state next) (λ no. Ends-fail e c first.state)
  after_update-Later n again (c, panic) first next = first
  after_update-Later n again (c, out_of_fuel) first next = first

  pub wait_for_root_update-Later :
      (fuel : ℕ) (n : ℤ) (c : LogClient R)
      → Later c.root
      → Ends (λ c'. Later c'.root) IsTrusted (wait_for_root_update v s fuel n c)
  unfolding wait_for_root_update
  wait_for_root_update-Later zero n c later = record { state = later; holds = λ a e. absurd (cc) }
  wait_for_root_update-Later (suc fuel) n c later =
      after_update-Later n (wait_for_root_update v s fuel n) (update_root v s c)
        (update_root-Later c later) (wait_for_root_update-Later fuel n)
