-- ===== src/Log/Tx.antt =====
-- Actions on a storage transaction: they change its state and may fail.
pub mod Returned
pub mod Returns
pub mod Ends
use trillian.Prelude.{ℕ, zero, suc, Outcome, ok, err, panic, out_of_fuel}

abbrev pub Action : Type 0 → Type 0 → Type 0 → Type 0
Action T E A = T → T × Outcome E A

abbrev pub after : {T E A B : Type 0} → T × Outcome E A → (A → Action T E B) → T × Outcome E B
after (t, ok a) k = k a t
after (t, err e) k = (t, err e)
after (t, panic) k = (t, panic)
after (t, out_of_fuel) k = (t, out_of_fuel)

infixl 5 ◌>>=◌ ◌>>◌
abbrev pub ◌>>=◌ : {T E A B : Type 0} → Action T E A → (A → Action T E B) → Action T E B
◌>>=◌ m k t = after (m t) k

abbrev pub ◌>>◌ : {T E B : Type 0} → Action T E (Unit {0}) → Action T E B → Action T E B
m >> k = m >>= λ _. k

abbrev pub return : {T E A : Type 0} → A → Action T E A
return a t = (t, ok a)

abbrev pub fail : {T E A : Type 0} → E → Action T E A
fail e t = (t, err e)

-- A result that does not depend on the transaction.
abbrev pub lift : {T E A : Type 0} → Outcome E A → Action T E A
lift r t = (t, r)

abbrev pub rolled_back : {T E A : Type 0} → T → T × Outcome E A → T × Outcome E A
rolled_back t (t', ok a) = (t', ok a)
rolled_back t (t', err e) = (t, err e)
rolled_back t (t', panic) = (t, panic)
rolled_back t (t', out_of_fuel) = (t, out_of_fuel)

-- A transaction in memory: what a failing action wrote is dropped.
unfoldable pub atomically : {T E A : Type 0} → Action T E A → Action T E A
atomically m t = rolled_back t (m t)

-- How a storage begins, commits and rolls back its transactions, and how often it tries again. A
-- log without a root begins without an error.
pub record Transactions (T E : Type 0) : Type 0 where
  pub begin : Action T E (Unit {0})
  pub commit : Action T E (Unit {0})
  pub rollback : T → T
  pub retries : ℕ

-- The deferred Close, which rolls back what was not committed; a failing commit commits nothing.
abbrev pub closed : {T E A : Type 0} → (T → T) → T × Outcome E A → T × Outcome E A
closed rollback (t, ok a) = (t, ok a)
closed rollback (t, err e) = (rollback t, err e)
closed rollback (t, panic) = (rollback t, panic)
closed rollback (t, out_of_fuel) = (t, out_of_fuel)

-- A single try of ReadWriteTransaction, storage/mysql/log_storage.go.
unfoldable pub attempt : {T E A : Type 0} → Transactions T E → Action T E A → Action T E A
attempt tx m = tx.begin >> (λ t. closed tx.rollback ((m >>= λ a. (tx.commit >> return a)) t))

abbrev pub unless_ok : {T E A : Type 0} → T × Outcome E A → Action T E A → T × Outcome E A
unless_ok (t, ok a) again = (t, ok a)
unless_ok (t, err e) again = again t
unless_ok (t, panic) again = (t, panic)
unless_ok (t, out_of_fuel) again = (t, out_of_fuel)

unfoldable pub tries : {T E A : Type 0} → ℕ → Transactions T E → Action T E A → Action T E A
tries zero tx m t = attempt tx m t
tries (suc n) tx m t = let again = tries n tx m in unless_ok (attempt tx m t) again

-- ReadWriteTransaction of storage/log_storage.go: an implementation may try again with a new
-- transaction after an error.
abbrev pub read_write_transaction :
    {T E A : Type 0} → Transactions T E → Action T E A → Action T E A
read_write_transaction tx m = tries tx.retries tx m
