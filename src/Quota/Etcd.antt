-- ===== src/Quota/Etcd.antt =====
-- quota/etcd/storage/quota_storage.go: the token buckets of quotas. The state of an etcd transaction
-- holds the configs and a bucket for each name, which is empty if its key is missing; a transaction
-- that fails is not committed. A time is the nanoseconds since 1970.
pub mod Bounds
pub mod Updates
pub mod History
pub mod Taken
mod Tests
use trillian.Prelude.{
  ℕ, zero, suc, ◌+◌, ◌-◌, ◌/◌, ◌^◌, List, [], ◌∷◌, ◌++◌, Bytes, bytes_equal, Outcome, ok, err,
  panic, out_of_fuel, Option, none, some, Bool, true, false, not, ◌&&◌, ◌||◌, length, ltb, ◌==◌,
  if◌then◌else◌,
}
use trillian.Prelude.Int.{ℤ, pos, negsuc, ◌+ℤ◌, ◌-ℤ◌, ltb_ℤ}
use trillian.Log.Tx.{Action, ◌>>=◌, ◌>>◌, return, fail, lift, atomically}

-- `storagepb.Config` and its parts.
pub data State : Type 0 where
  unknown_config_state enabled disabled : State

pub data ReplenishmentStrategy : Type 0 where
  unset sequencing_based : ReplenishmentStrategy
  -- The tokens and the seconds.
  time_based : ℤ → ℤ → ReplenishmentStrategy

pub record Config : Type 0 where
  pub name : Bytes
  pub state : State
  pub max_tokens : ℤ
  pub replenishment_strategy : ReplenishmentStrategy

-- `storagepb.Bucket`
pub record Bucket : Type 0 where
  pub tokens : ℤ
  pub last_replenish_millis : ℕ

pub record Store : Type 0 where
  pub configs : List Config
  pub buckets : Bytes → Bucket

pub data Error : Type 0 where
  update_required invalid_tokens insufficient_tokens invalid_name : Error
  name_required name_malformed state_invalid max_tokens_invalid : Error
  sequencing_for_user sequencing_for_read time_tokens_invalid time_interval_invalid : Error
  unsupported_strategy duplicate_name : Error

-- The patterns and the other texts that names are compared with.
pub record Patterns : Type 0 where
  pub global_pattern : Bytes → Bool
  pub users_pattern : Bytes → Bool
  pub trees_pattern : Bytes → Bool
  -- The second part of the name is an `int64`.
  pub tree_id_fits : Bytes → Bool
  pub has_read_suffix : Bytes → Bool

-- Addition of two `int64`.
abbrev pub wrap_int64 : ℤ → ℤ
wrap_int64 (pos n) = if ltb n (2 ^ 63) then pos n else negsuc (2 ^ 64 - n - 1)
wrap_int64 (negsuc n) = if ltb n (2 ^ 63) then negsuc n else pos (2 ^ 64 - n - 1)

abbrev pub add_int64 : ℤ → ℤ → ℤ
add_int64 a b = wrap_int64 (a +ℤ b)

abbrev pub to_millis : ℕ → ℕ
to_millis now = now / 1000000

abbrev pub to_seconds : ℕ → ℕ
to_seconds now = now / 1000000000

abbrev pub put_bucket : Bytes → Bucket → Action Store Error (Unit {0})
put_bucket name b s =
    (record s { buckets = λ n. if bytes_equal n name then b else s.buckets n }, ok tt)

-- The bucket of a time-based quota that is due gets its tokens.
abbrev pub replenished : Config → ℕ → Bucket → Bucket
replenished cfg now b = elim cfg.replenishment_strategy [
  | unset ↦ b
  | sequencing_based ↦ b
  | time_based tokens interval ↦
      let more = add_int64 b.tokens tokens in
      if ltb_ℤ (pos (to_seconds now)) (add_int64 (pos (b.last_replenish_millis / 1000)) interval)
      then b
      else record {
        tokens = if ltb_ℤ cfg.max_tokens more then cfg.max_tokens else more;
        last_replenish_millis = to_millis now;
      }
]

-- Tokens are not put back into a time-based quota.
abbrev pub allowed_add : Config → ℤ → ℤ
allowed_add cfg add = elim cfg.replenishment_strategy [
  | unset ↦ add
  | sequencing_based ↦ add
  | time_based tokens interval ↦ if ltb_ℤ (pos 0) add then pos 0 else add
]

-- The end of modBucket, for the bucket's new tokens.
abbrev pub store_tokens : Config → Bucket → ℤ → Action Store Error ℤ
store_tokens cfg b tokens =
    let kept = if ltb_ℤ cfg.max_tokens tokens then cfg.max_tokens else tokens in
    if ltb_ℤ tokens (pos 0)
    then fail insufficient_tokens
    else (do put_bucket cfg.name (record b { tokens = kept }); return kept)

unfoldable pub mod_bucket : Config → ℕ → ℤ → Action Store Error ℤ
mod_bucket cfg now add s =
    let b = replenished cfg now (s.buckets cfg.name) in
    store_tokens cfg b (add_int64 b.tokens (allowed_add cfg add)) s

-- The config of a name: the first one in the list.
abbrev pub find_config : Bytes → List Config → Option Config
find_config name [] = none
find_config name (c ∷ cs) =
    let rest = find_config name cs in if bytes_equal c.name name then some c else rest

abbrev pub is_enabled : State → Bool
is_enabled enabled = true
is_enabled disabled = false
is_enabled unknown_config_state = false

abbrev pub if_enabled : Option Config → Option Config
if_enabled none = none
if_enabled (some c) = if is_enabled c.state then some c else none

abbrev pub elem : Bytes → List Bytes → Bool
elem n [] = false
elem n (m ∷ ms) = let rest = elem n ms in if bytes_equal m n then true else rest

-- `forNamesMode`
pub data ForNamesMode : Type 0 where
  default_mode emit_infinite : ForNamesMode

module _ {A : Type 0} (fn : Bytes → Option Config → Action Store Error A) where
  -- One name: the call of `fn`, if there is one.
  abbrev pub emit : ForNamesMode → Bytes → Option Config → Action Store Error (List (Bytes × A))
  emit mode name (some cfg) = do a ← fn name (some cfg); return ((name, a) ∷ [])
  emit default_mode name none = return []
  emit emit_infinite name none = do a ← fn name none; return ((name, a) ∷ [])

  -- The loop of forNames over the names, with those that were seen before.
  unfoldable pub each_name :
      ForNamesMode → List Config → List Bytes → List Bytes → Action Store Error (List (Bytes × A))
  each_name mode cfgs seen [] = return []
  each_name mode cfgs seen (name ∷ names) =
      if elem name seen then each_name mode cfgs seen names else (do
        first ← emit mode name (if_enabled (find_config name cfgs))
        rest ← each_name mode cfgs (name ∷ seen) names
        return (first ++ rest))

-- The cases of UpdateConfigs that set a bucket to its maximum.
abbrev pub is_new_bucket : Bool → Option Config → Bool
is_new_bucket reset none = true
is_new_bucket reset (some prev) = elim prev.state [
  | unknown_config_state ↦ reset
  | enabled ↦ reset
  | disabled ↦ true
]

abbrev pub is_lowered : Config → Option Config → Bool
is_lowered cfg none = false
is_lowered cfg (some prev) = ltb_ℤ cfg.max_tokens prev.max_tokens

abbrev pub full_bucket : Config → ℕ → Bucket
full_bucket cfg now = record { tokens = cfg.max_tokens; last_replenish_millis = to_millis now }

-- A round of the loop of UpdateConfigs over the new configs.
unfoldable pub update_bucket : Bool → ℕ → Config → Option Config → Action Store Error (Unit {0})
update_bucket reset now cfg prev =
    if is_new_bucket reset prev
    then put_bucket cfg.name (full_bucket cfg now)
    else if is_lowered cfg prev
    then (do tokens ← mod_bucket cfg now (pos 0); return tt)
    else return tt

unfoldable pub update_buckets : Bool → ℕ → List Config → List Config → Action Store Error (Unit {0})
update_buckets reset now previous [] = return tt
update_buckets reset now previous (cfg ∷ cfgs) = do
  update_bucket reset now cfg (find_config cfg.name previous)
  update_buckets reset now previous cfgs

abbrev pub set_configs : List Config → Action Store Error (Unit {0})
set_configs cfgs s = (record s { configs = cfgs }, ok tt)

abbrev pub get_configs : Action Store Error (List Config)
get_configs s = (s, ok s.configs)

module _ (p : Patterns) where
  unfoldable pub is_name_valid : Bytes → Bool
  is_name_valid name =
      p.global_pattern name || p.users_pattern name || (p.trees_pattern name && p.tree_id_fits name)

  abbrev pub names_valid : List Bytes → Bool
  names_valid [] = true
  names_valid (n ∷ names) = is_name_valid n && names_valid names

  abbrev pub strategy_error : Config → Option Error
  strategy_error cfg = elim cfg.replenishment_strategy [
    | unset ↦ some unsupported_strategy
    | sequencing_based ↦
        if p.users_pattern cfg.name
        then some sequencing_for_user
        else if p.has_read_suffix cfg.name
        then some sequencing_for_read
        else none
    | time_based tokens interval ↦
        if not (ltb_ℤ (pos 0) tokens)
        then some time_tokens_invalid
        else if not (ltb_ℤ (pos 0) interval)
        then some time_interval_invalid
        else none
  ]

  abbrev pub state_known : State → Bool
  state_known unknown_config_state = false
  state_known enabled = true
  state_known disabled = true

  -- A round of the loop of validate, with the names before it.
  abbrev pub config_error : List Bytes → Config → Option Error
  config_error names cfg =
      if length cfg.name == 0
      then some name_required
      else if not (is_name_valid cfg.name)
      then some name_malformed
      else if not (state_known cfg.state)
      then some state_invalid
      else if not (ltb_ℤ (pos 0) cfg.max_tokens)
      then some max_tokens_invalid
      else elim (strategy_error cfg) [
        | some e ↦ some e
        | none ↦ if elem cfg.name names then some duplicate_name else none
      ]

  abbrev pub first_error : Option Error → Option Error → Option Error
  first_error none rest = rest
  first_error (some e) rest = some e

  unfoldable pub validate : List Bytes → List Config → Option Error
  validate names [] = none
  validate names (cfg ∷ cfgs) =
      let rest = validate (cfg.name ∷ names) cfgs in first_error (config_error names cfg) rest

  abbrev pub check : Option Error → Action Store Error (Unit {0})
  check none = return tt
  check (some e) = fail e

  unfoldable pub update_transaction :
      Bool → (List Config → List Config) → ℕ → Action Store Error (List Config)
  update_transaction reset update now = do
    previous ← get_configs
    check (validate [] (update previous))
    set_configs (update previous)
    update_buckets reset now previous (update previous)
    return (update previous)

  unfoldable pub update_configs :
      Bool → Option (List Config → List Config) → ℕ → Action Store Error (List Config)
  update_configs reset none now = fail update_required
  update_configs reset (some update) now = atomically (update_transaction reset update now)

  unfoldable pub for_names :
      {A : Type 0}
      → (Bytes → Option Config → Action Store Error A)
      → ForNamesMode
      → List Bytes
      → Action Store Error (List (Bytes × A))
  for_names fn mode names =
      if not (names_valid names)
      then fail invalid_name
      else atomically (λ s. each_name fn mode s.configs [] names s)

  -- The function that mod passes to forNames; a config that is missing is not emitted.
  abbrev pub mod_config : ℕ → ℤ → Bytes → Option Config → Action Store Error ℤ
  mod_config now add name none = return (pos 0)
  mod_config now add name (some cfg) = mod_bucket cfg now add

  unfoldable pub mod_tokens : List Bytes → ℤ → ℕ → Action Store Error (Unit {0})
  mod_tokens names add now = do done ← for_names (mod_config now add) default_mode names; return tt

  unfoldable pub get : List Bytes → ℤ → ℕ → Action Store Error (Unit {0})
  get names tokens now =
      if ltb_ℤ tokens (pos 0) then fail invalid_tokens else mod_tokens names (pos 0 -ℤ tokens) now

  unfoldable pub put : List Bytes → ℤ → ℕ → Action Store Error (Unit {0})
  put names tokens now =
      if ltb_ℤ tokens (pos 0) then fail invalid_tokens else mod_tokens names tokens now

  -- `quota.MaxTokens`
  abbrev pub max_tokens : ℤ
  max_tokens = pos (2 ^ 63 - 1)

  abbrev pub peek_config : ℕ → Bytes → Option Config → Action Store Error ℤ
  peek_config now name none = return max_tokens
  peek_config now name (some cfg) = mod_bucket cfg now (pos 0)

  unfoldable pub peek : List Bytes → ℕ → Action Store Error (List (Bytes × ℤ))
  peek names now = for_names (peek_config now) emit_infinite names

  abbrev pub reset_config : ℕ → Bytes → Option Config → Action Store Error (Unit {0})
  reset_config now name none = return tt
  reset_config now name (some cfg) = put_bucket cfg.name (full_bucket cfg now)

  unfoldable pub reset_tokens : List Bytes → ℕ → Action Store Error (Unit {0})
  reset_tokens names now = do done ← for_names (reset_config now) default_mode names; return tt
