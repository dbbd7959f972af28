-- ===== src/Quota/Etcd/Bounds.antt =====
-- The buckets of quotas stay between nothing and the maximum of their config.
use trillian.Prelude.{
  ℕ, ◌≡◌, inl, inr, sym, ◌∙◌, ap, subst, List, [], ◌∷◌, ◌++◌, Bytes, bytes_equal, bytes_equal→eq,
  bytes_equal_refl, Option, none, some, true, false, if◌then◌else◌, Bool-cases, arith,
}
use trillian.Prelude.Int.{ℤ, pos, negsuc, ltb_ℤ}
use trillian.Log.Tx.{Action, fail}
use trillian.Log.Tx.Ends.{Ends, Ends-after, Ends-return, Ends-fail, Ends-if}
use trillian.Quota.Etcd.{
  Config, Bucket, Store, Error, insufficient_tokens, replenished, allowed_add, add_int64,
  put_bucket, store_tokens, mod_bucket, find_config, is_enabled, if_enabled, elem, ForNamesMode,
  default_mode, emit_infinite, emit, each_name,
}

-- A number of tokens that is not negative and not above a maximum.
pub record InRange (max tokens : ℤ) : Type 0 where
  pub floor : ltb_ℤ tokens (pos 0) ≡ false
  pub ceiling : ltb_ℤ max tokens ≡ false

pub record IsBounded (buckets : Bytes → Bucket) (cfg : Config) : Type 0 where
  pub positive : ltb_ℤ (pos 0) cfg.max_tokens ≡ true
  pub range : InRange cfg.max_tokens (buckets cfg.name).tokens

abbrev pub AllBounded : (Bytes → Bucket) → List Config → Type 0
AllBounded f [] = Unit {0}
AllBounded f (c ∷ cs) = IsBounded f c × AllBounded f cs

-- No config has the name.
abbrev pub IsNew : Bytes → List Config → Type 0
IsNew name [] = Unit {0}
IsNew name (c ∷ cs) = (bytes_equal c.name name ≡ false) × IsNew name cs

abbrev pub Distinct : List Config → Type 0
Distinct [] = Unit {0}
Distinct (c ∷ cs) = IsNew c.name cs × Distinct cs

-- The names of the configs differ, and each config's bucket is within its bounds.
pub record IsValid (s : Store) : Type 0 where
  pub distinct : Distinct s.configs
  pub bounded : AllBounded s.buckets s.configs

pub max_self : (m : ℤ) → ltb_ℤ m m ≡ false
max_self (pos n) = ground arith
max_self (negsuc n) = ground arith

pub max_floor : (m : ℤ) → ltb_ℤ (pos 0) m ≡ true → ltb_ℤ m (pos 0) ≡ false
max_floor (pos n) h = ground arith
max_floor (negsuc n) h = absurd (ground arith)

-- A maximum above 0 is itself in range.
pub max-InRange : (m : ℤ) → ltb_ℤ (pos 0) m ≡ true → InRange m m
max-InRange m h = record { floor = max_floor m h; ceiling = max_self m }

-- What is kept of a number of tokens is in range.
pub kept-InRange :
    (max tokens : ℤ)
    → ltb_ℤ (pos 0) max ≡ true
    → ltb_ℤ tokens (pos 0) ≡ false
    → InRange max (if ltb_ℤ max tokens then max else tokens)
kept-InRange max tokens positive floor = elim (Bool-cases (ltb_ℤ max tokens)) [
  | inl above ↦ rw above (max-InRange max positive)
  | inr within ↦ rw within (record { floor = floor; ceiling = within })
]

-- The buckets after a write.
abbrev pub written : Bytes → Bucket → (Bytes → Bucket) → Bytes → Bucket
written name b f n = if bytes_equal n name then b else f n

pub written_new :
    (name : Bytes) (b : Bucket) (f : Bytes → Bucket) (cs : List Config)
    → IsNew name cs
    → AllBounded f cs
    → AllBounded (written name b f) cs
written_new name b f [] new h = tt
written_new name b f (c ∷ cs) (other, new) (first, rest) = (
  record { positive = first.positive; range = rw other first.range },
  written_new name b f cs new rest,
)

pub find_config-name :
    (name : Bytes) (cfg : Config) (cs : List Config)
    → find_config name cs ≡ some cfg
    → cfg.name ≡ name
find_config-name name cfg [] found = absurd (cc)
find_config-name name cfg (c ∷ cs) found = elim (Bool-cases (bytes_equal c.name name)) [
  | inl here ↦
      let same : c ≡ cfg = cc (rw here at found) in
      ap (λ (x : Config). x.name) (sym same) ∙ bytes_equal→eq c.name name here
  | inr there ↦ find_config-name name cfg cs (rw there at found)
]

pub written_found :
    (name : Bytes) (cfg : Config) (b : Bucket) (f : Bytes → Bucket) (cs : List Config)
    → find_config name cs ≡ some cfg
    → InRange cfg.max_tokens b.tokens
    → Distinct cs
    → AllBounded f cs
    → AllBounded (written cfg.name b f) cs
written_found name cfg b f [] found range d h = absurd (cc)
written_found name cfg b f (c ∷ cs) found range (new, d) (first, rest) =
    elim (Bool-cases (bytes_equal c.name name)) [
      | inl here ↦
          let same : c ≡ cfg = cc (rw here at found) in
          subst (λ (x : Config). AllBounded (written x.name b f) (c ∷ cs)) same
            (
              record {
                positive = first.positive;
                range = rw (bytes_equal_refl c.name) (rw (← same) at range);
              },
              written_new c.name b f cs new rest,
            )
      | inr there ↦
          let elsewhere : find_config name cs ≡ some cfg = rw there at found in
          let other : bytes_equal c.name cfg.name ≡ false =
            rw (find_config-name name cfg cs elsewhere) there in
          (
            record { positive = first.positive; range = rw other first.range },
            written_found name cfg b f cs elsewhere range d rest,
          )
    ]

-- A config that is found is within its bounds.
pub found-IsBounded :
    (name : Bytes) (cfg : Config) (f : Bytes → Bucket) (cs : List Config)
    → find_config name cs ≡ some cfg
    → AllBounded f cs
    → IsBounded f cfg
found-IsBounded name cfg f [] found h = absurd (cc)
found-IsBounded name cfg f (c ∷ cs) found (first, rest) =
    elim (Bool-cases (bytes_equal c.name name)) [
      | inl here ↦ let same : c ≡ cfg = cc (rw here at found) in rw (← same) first
      | inr there ↦ found-IsBounded name cfg f cs (rw there at found) rest
    ]

pub if_enabled-eq : (o : Option Config) (cfg : Config) → if_enabled o ≡ some cfg → o ≡ some cfg
if_enabled-eq none cfg h = cc
if_enabled-eq (some c) cfg h = elim (Bool-cases (is_enabled c.state)) [
  | inl on ↦ rw on at h
  | inr off ↦ cc (rw off at h)
]

module _ (cfgs : List Config) where
  -- A state of a transaction over the configs that it has read.
  pub record Reading (s : Store) : Type 0 where
    pub same : s.configs ≡ cfgs
    pub distinct : Distinct cfgs
    pub bounded : AllBounded s.buckets cfgs

  pub put_bucket-Reading :
      (name : Bytes) (cfg : Config) (b : Bucket) (s : Store)
      → find_config name cfgs ≡ some cfg
      → InRange cfg.max_tokens b.tokens
      → Reading s
      → Ends Reading (λ (u : Unit {0}) t. Unit {0}) (put_bucket cfg.name b s)
  put_bucket-Reading name cfg b s found range h = record {
    state = record {
      same = h.same;
      distinct = h.distinct;
      bounded = written_found name cfg b s.buckets cfgs found range h.distinct h.bounded;
    };
    holds = λ u e. tt;
  }

  store_tokens-Reading :
      (name : Bytes) (cfg : Config) (b : Bucket) (tokens : ℤ) (s : Store)
      → find_config name cfgs ≡ some cfg
      → Reading s
      → Ends Reading (λ kept t. InRange cfg.max_tokens kept) (store_tokens cfg b tokens s)
  store_tokens-Reading name cfg b tokens s found h =
      let positive = (found-IsBounded name cfg s.buckets cfgs found h.bounded).positive in
      let kept = if ltb_ℤ cfg.max_tokens tokens then cfg.max_tokens else tokens in
      Ends-if (ltb_ℤ tokens (pos 0)) (fail insufficient_tokens) _ s
        (λ few. Ends-fail insufficient_tokens s h)
        (λ enough.
          let range = kept-InRange cfg.max_tokens tokens positive enough in
          Ends-after (put_bucket cfg.name (record b { tokens = kept }) s) _
            (put_bucket-Reading name cfg (record b { tokens = kept }) s found range h)
            (λ u t h' _. Ends-return kept t h' range))

  pub mod_bucket-Reading :
      (name : Bytes) (cfg : Config) (now : ℕ) (add : ℤ) (s : Store)
      → find_config name cfgs ≡ some cfg
      → Reading s
      → Ends Reading (λ kept t. InRange cfg.max_tokens kept) (mod_bucket cfg now add s)
  unfolding mod_bucket
  mod_bucket-Reading name cfg now add s found h =
      let b = replenished cfg now (s.buckets cfg.name) in
      store_tokens-Reading name cfg b (add_int64 b.tokens (allowed_add cfg add)) s found h

  module _ {A : Type 0} (fn : Bytes → Option Config → Action Store Error A)
      (calls : (name : Bytes) (o : Option Config) (s : Store)
        → ((cfg : Config) → o ≡ some cfg → find_config name cfgs ≡ some cfg)
        → Reading s
        → Ends Reading (λ a t. Unit {0}) (fn name o s)) where
    emit-Reading :
        (mode : ForNamesMode) (name : Bytes) (o : Option Config) (s : Store)
        → ((cfg : Config) → o ≡ some cfg → find_config name cfgs ≡ some cfg)
        → Reading s
        → Ends Reading (λ l t. Unit {0}) (emit fn mode name o s)
    emit-Reading mode name (some cfg) s found h =
        Ends-after (fn name (some cfg) s) _ (calls name (some cfg) s found h)
          (λ a t h' _. Ends-return ((name, a) ∷ []) t h' tt)
    emit-Reading default_mode name none s found h = Ends-return [] s h tt
    emit-Reading emit_infinite name none s found h =
        Ends-after (fn name none s) _ (calls name none s found h)
          (λ a t h' _. Ends-return ((name, a) ∷ []) t h' tt)

    pub each_name-Reading :
        (mode : ForNamesMode) (seen names : List Bytes) (s : Store)
        → Reading s
        → Ends Reading (λ l t. Unit {0}) (each_name fn mode cfgs seen names s)
    unfolding each_name
    each_name-Reading mode seen [] s h = Ends-return [] s h tt
    each_name-Reading mode seen (name ∷ names) s h =
        let o = if_enabled (find_config name cfgs) in
        Ends-if (elem name seen) (each_name fn mode cfgs seen names) _ s
          (λ again. each_name-Reading mode seen names s h)
          (λ fresh.
            Ends-after (emit fn mode name o s) _
              (emit-Reading mode name o s (if_enabled-eq (find_config name cfgs)) h)
              (λ first t h' _.
                Ends-after (each_name fn mode cfgs (name ∷ seen) names t) _
                  (each_name-Reading mode (name ∷ seen) names t h')
                  (λ rest t' h'' _. Ends-return (first ++ rest) t' h'' tt)))
