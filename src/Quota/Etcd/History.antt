-- ===== src/Quota/Etcd/History.antt =====
-- The operations of quota/etcd/storage/quota_storage.go in any order.
use trillian.Prelude.{
  ℕ, ◌≡◌, refl, List, [], ◌∷◌, Bytes, Option, none, some, Bool, not, if◌then◌else◌,
}
use trillian.Prelude.Int.{ℤ, pos, ◌-ℤ◌, ltb_ℤ}
use trillian.Log.Tx.{Action, fail, atomically}
use trillian.Log.Tx.Ends.{
  Ends, Ends-after, Ends-return, Ends-fail, Ends-if, Ends-weaken, Ends-rolled_back,
}
use trillian.Quota.Etcd.{
  Config, Store, Error, invalid_tokens, invalid_name, Patterns, full_bucket, mod_bucket,
  find_config, ForNamesMode, default_mode, emit_infinite, each_name, update_transaction,
  update_configs, names_valid, for_names, mod_config, mod_tokens, get, put, peek_config, peek,
  reset_config, reset_tokens,
}
use trillian.Quota.Etcd.Bounds.{
  IsValid, IsBounded, max-InRange, found-IsBounded, Reading, mod_bucket-Reading, put_bucket-Reading,
  each_name-Reading,
}
use trillian.Quota.Etcd.Updates.{update_transaction-IsValid}

pub data Operation : Type 0 where
  updates : Bool → Option (List Config → List Config) → ℕ → Operation
  gets puts : List Bytes → ℤ → ℕ → Operation
  peeks resets : List Bytes → ℕ → Operation

module _ (p : Patterns) where
  abbrev pub run : Operation → Store → Store
  run (updates reset update now) s = (update_configs p reset update now s).0
  run (gets names tokens now) s = (get p names tokens now s).0
  run (puts names tokens now) s = (put p names tokens now s).0
  run (peeks names now) s = (peek p names now s).0
  run (resets names now) s = (reset_tokens p names now s).0

  abbrev pub runs : List Operation → Store → Store
  runs [] s = s
  runs (op ∷ ops) s = runs ops (run op s)

  -- A function that forNames may call: it keeps the buckets within their bounds.
  abbrev Calls : {A : Type 0} → (Bytes → Option Config → Action Store Error A) → Type 0
  Calls fn =
      (cfgs : List Config) (name : Bytes) (o : Option Config) (s : Store)
      → ((cfg : Config) → o ≡ some cfg → find_config name cfgs ≡ some cfg)
      → Reading cfgs s
      → Ends (Reading cfgs) (λ a t. Unit {0}) (fn name o s)

  for_names-IsValid :
      {A : Type 0} (fn : Bytes → Option Config → Action Store Error A) (mode : ForNamesMode)
      (names : List Bytes) (s : Store)
      → Calls fn
      → IsValid s
      → Ends IsValid (λ l t. Unit {0}) (for_names p fn mode names s)
  unfolding for_names atomically
  for_names-IsValid fn mode names s calls valid =
      Ends-if (not (names_valid p names)) (fail invalid_name) _ s
        (λ bad. Ends-fail invalid_name s valid)
        (λ good.
          let start : Reading s.configs s = record {
            same = refl;
            distinct = valid.distinct;
            bounded = valid.bounded;
          } in
          let loop = each_name-Reading s.configs fn (calls s.configs) mode [] names s start in
          Ends-rolled_back {U = Reading s.configs} s (each_name fn mode s.configs [] names s) valid
            (Ends-weaken (each_name fn mode s.configs [] names s) loop (λ h. h)
              (λ l h _. record { distinct = rw h.same h.distinct; bounded = rw h.same h.bounded })))

  mod_config-Calls : (now : ℕ) (add : ℤ) → Calls (mod_config p now add)
  mod_config-Calls now add cfgs name none s found h = Ends-return (pos 0) s h tt
  mod_config-Calls now add cfgs name (some cfg) s found h =
      Ends-weaken (mod_bucket cfg now add s)
        (mod_bucket-Reading cfgs name cfg now add s (found cfg refl) h) (λ x. x) (λ a r _. tt)

  peek_config-Calls : (now : ℕ) → Calls (peek_config p now)
  peek_config-Calls now cfgs name none s found h = Ends-return _ s h tt
  peek_config-Calls now cfgs name (some cfg) s found h =
      Ends-weaken (mod_bucket cfg now (pos 0) s)
        (mod_bucket-Reading cfgs name cfg now (pos 0) s (found cfg refl) h) (λ x. x) (λ a r _. tt)

  reset_config-Calls : (now : ℕ) → Calls (reset_config p now)
  reset_config-Calls now cfgs name none s found h = Ends-return tt s h tt
  reset_config-Calls now cfgs name (some cfg) s found h =
      let positive =
        (found-IsBounded name cfg s.buckets cfgs (found cfg refl) h.bounded).positive in
      put_bucket-Reading cfgs name cfg (full_bucket cfg now) s (found cfg refl)
        (max-InRange cfg.max_tokens positive) h

  mod_tokens-IsValid :
      (names : List Bytes) (add : ℤ) (now : ℕ) (s : Store)
      → IsValid s
      → Ends IsValid (λ u t. Unit {0}) (mod_tokens p names add now s)
  unfolding mod_tokens
  mod_tokens-IsValid names add now s h =
      Ends-after (for_names p (mod_config p now add) default_mode names s) _
        (for_names-IsValid (mod_config p now add) default_mode names s (mod_config-Calls now add) h)
        (λ l t h' _. Ends-return tt t h' tt)

  tokens-IsValid :
      (names : List Bytes) (tokens add : ℤ) (now : ℕ) (s : Store)
      → IsValid s
      → Ends IsValid
          (λ u t. Unit {0})
          ((if ltb_ℤ tokens (pos 0) then fail invalid_tokens else mod_tokens p names add now) s)
  tokens-IsValid names tokens add now s h =
      Ends-if (ltb_ℤ tokens (pos 0)) (fail invalid_tokens) (mod_tokens p names add now) s
        (λ negative. Ends-fail invalid_tokens s h)
        (λ some_tokens. mod_tokens-IsValid names add now s h)

  update_configs-IsValid :
      (reset : Bool) (update : Option (List Config → List Config)) (now : ℕ) (s : Store)
      → IsValid s
      → IsValid (update_configs p reset update now s).0
  unfolding update_configs atomically
  update_configs-IsValid reset none now s h = h
  update_configs-IsValid reset (some update) now s h =
      (Ends-rolled_back s (update_transaction p reset update now s) h
        (update_transaction-IsValid p reset update now s h)).state

  reset_tokens-IsValid :
      (names : List Bytes) (now : ℕ) (s : Store)
      → IsValid s
      → Ends IsValid (λ u t. Unit {0}) (reset_tokens p names now s)
  unfolding reset_tokens
  reset_tokens-IsValid names now s h =
      Ends-after (for_names p (reset_config p now) default_mode names s) _
        (for_names-IsValid (reset_config p now) default_mode names s (reset_config-Calls now) h)
        (λ l t h' _. Ends-return tt t h' tt)

  run-IsValid : (op : Operation) (s : Store) → IsValid s → IsValid (run op s)
  unfolding get put peek
  run-IsValid (updates reset update now) s h = update_configs-IsValid reset update now s h
  run-IsValid (gets names tokens now) s h =
      (tokens-IsValid names tokens (pos 0 -ℤ tokens) now s h).state
  run-IsValid (puts names tokens now) s h = (tokens-IsValid names tokens tokens now s h).state
  run-IsValid (peeks names now) s h =
      (for_names-IsValid (peek_config p now) emit_infinite names s (peek_config-Calls now) h).state
  run-IsValid (resets names now) s h = (reset_tokens-IsValid names now s h).state

  runs-IsValid : (ops : List Operation) (s : Store) → IsValid s → IsValid (runs ops s)
  runs-IsValid [] s h = h
  runs-IsValid (op ∷ ops) s h = runs-IsValid ops (run op s) (run-IsValid op s h)

  -- After any operations in any order on a store whose configs have different names and maxima
  -- above 0 and whose buckets are in range, the bucket of every config that is then found by its
  -- name holds no less than nothing and no more than the config's maximum, which is above 0.
  pub runs-IsBounded :
      (ops : List Operation) (s : Store) (name : Bytes) (cfg : Config)
      → IsValid s
      → find_config name (runs ops s).configs ≡ some cfg
      → IsBounded (runs ops s).buckets cfg
  runs-IsBounded ops s name cfg valid found =
      found-IsBounded name cfg (runs ops s).buckets (runs ops s).configs found
        (runs-IsValid ops s valid).bounded
