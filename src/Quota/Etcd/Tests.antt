-- ===== src/Quota/Etcd/Tests.antt =====
-- Runs of quota/etcd/storage/quota_storage.go on a store with one quota.
use trillian.Prelude.{
  ◌-◌, ◌^◌, ◌≡◌, refl, [], ◌∷◌, bytes_equal, ok, err, some, true, false, if◌then◌else◌, arith,
}
use trillian.Prelude.Int.{ℤ, pos}
use trillian.Quota.Etcd.{
  Config, Bucket, Store, Patterns, enabled, sequencing_based, time_based, insufficient_tokens,
  duplicate_name, mod_bucket, find_config, each_name, update_bucket, update_buckets, is_name_valid,
  validate, update_transaction, update_configs, for_names, mod_tokens, get, put, peek,
}
use trillian.Quota.Etcd.Bounds.{IsBounded, IsValid}
use trillian.Quota.Etcd.History.{gets, updates, runs, runs-IsBounded}
use trillian.Quota.Etcd.Taken.{Took, get-Took}
use trillian.Log.Tx.{atomically}

abbrev patterns : Patterns
patterns = record {
  global_pattern = λ n. true;
  users_pattern = λ n. false;
  trees_pattern = λ n. false;
  tree_id_fits = λ n. false;
  has_read_suffix = λ n. false;
}

abbrev writes : Config
writes = record {
  name = 1 ∷ [];
  state = enabled;
  max_tokens = pos 10;
  replenishment_strategy = sequencing_based;
}

abbrev bucket : ℤ → Bucket
bucket tokens = record { tokens = tokens; last_replenish_millis = 0 }

abbrev store : Store
store = record { configs = writes ∷ []; buckets = λ n. bucket (pos 7) }

store-IsValid : IsValid store
store-IsValid = record {
  distinct = (tt, tt);
  bounded = (record { positive = refl; range = record { floor = refl; ceiling = refl } }, tt);
}

abbrev after_get : Store
after_get = record store {
  buckets = λ n. if bytes_equal n (1 ∷ []) then bucket (pos 2) else bucket (pos 7);
}

-- A name that is given twice is charged once.
got : get patterns ((1 ∷ []) ∷ (1 ∷ []) ∷ []) (pos 5) 0 store ≡ (after_get, ok tt)
unfolding get mod_tokens for_names atomically each_name mod_bucket is_name_valid
got = refl

refused : get patterns ((1 ∷ []) ∷ []) (pos 8) 0 store ≡ (store, err insufficient_tokens)
unfolding get mod_tokens for_names atomically each_name mod_bucket is_name_valid
refused = refl

unknown_is_infinite :
    peek patterns ((2 ∷ []) ∷ []) 0 store ≡ (store, ok ((2 ∷ [], pos (2 ^ 63 - 1)) ∷ []))
unfolding peek for_names atomically each_name is_name_valid
unknown_is_infinite = refl

repeated :
    update_configs patterns false (some (λ cfgs. writes ∷ cfgs)) 0 store
    ≡ (store, err duplicate_name)
unfolding update_configs update_transaction atomically validate is_name_valid
repeated = refl

-- Replenishing by more than the word can hold wraps around: the quota then refuses a Put.
overflow :
    (put patterns ((1 ∷ []) ∷ []) (pos 0) 5000000000 (record store {
      configs =
          record writes { replenishment_strategy = time_based (pos (2 ^ 63 - 1)) (pos 1) } ∷ [];
    })).1
    ≡ err insufficient_tokens
unfolding put mod_tokens for_names atomically each_name mod_bucket is_name_valid
overflow = refl

abbrev lowered : Config
lowered = record writes { max_tokens = pos 3 }

lowered_found :
    find_config
      (1 ∷ [])
      (runs patterns
        (updates false (some (λ cfgs. lowered ∷ [])) 0 ∷ gets ((1 ∷ []) ∷ []) (pos 2) 0 ∷ [])
        store).configs
    ≡ some lowered
unfolding update_configs update_transaction atomically validate is_name_valid update_buckets
    update_bucket mod_bucket get mod_tokens for_names each_name
lowered_found = refl

runs-IsBounded_example :
    IsBounded
      (runs patterns
        (updates false (some (λ cfgs. lowered ∷ [])) 0 ∷ gets ((1 ∷ []) ∷ []) (pos 2) 0 ∷ [])
        store).buckets
      lowered
runs-IsBounded_example =
    runs-IsBounded patterns
      (updates false (some (λ cfgs. lowered ∷ [])) 0 ∷ gets ((1 ∷ []) ∷ []) (pos 2) 0 ∷ []) store
      (1 ∷ []) lowered store-IsValid lowered_found

get-Took_example : Took 5 (bucket (pos 7)) (bucket (pos 2))
get-Took_example =
    get-Took patterns ((1 ∷ []) ∷ (1 ∷ []) ∷ []) 5 0 store after_get (1 ∷ []) writes 10
      store-IsValid got refl refl refl refl refl (omega arith) (omega arith)
