-- ===== src/Quota/Etcd/Updates.antt =====
-- UpdateConfigs of quota/etcd/storage/quota_storage.go: the configs that it accepts, and their
-- buckets.
use trillian.Prelude.{
  ℕ, ◌≡◌, inl, inr, refl, sym, ◌∙◌, subst, List, [], ◌∷◌, Bytes, bytes_equal, bytes_equal→eq,
  bytes_equal_refl, Option, none, some, Bool, true, false, if◌then◌else◌, Bool-cases, arith,
}
use trillian.Prelude.Int.{ℤ, pos, negsuc, ltb_ℤ}
use trillian.Log.Tx.{return, fail}
use trillian.Log.Tx.Ends.{Ends, Ends-into, Ends-after, Ends-return, Ends-fail, Ends-if, Ends-weaken}
use trillian.Quota.Etcd.{
  Config, Bucket, Store, Error, Patterns, insufficient_tokens, replenished, allowed_add, add_int64,
  put_bucket, full_bucket, mod_bucket, find_config, elem, is_new_bucket, is_lowered, update_bucket,
  update_buckets, check, update_transaction, config_error, first_error, validate,
}
use trillian.Quota.Etcd.Bounds.{
  IsValid, InRange, IsBounded, AllBounded, IsNew, Distinct, max-InRange, kept-InRange,
  find_config-name, found-IsBounded,
}

pub bytes_differ : (a b : Bytes) → bytes_equal a b ≡ false → bytes_equal b a ≡ false
bytes_differ a b h = elim (Bool-cases (bytes_equal b a)) [
  | inr differ ↦ differ
  | inl equal ↦
      let same : b ≡ a = bytes_equal→eq b a equal in
      let other : bytes_equal a a ≡ false = rw same at h in cc (bytes_equal_refl a)
]

max_trans : (t m n : ℤ) → ltb_ℤ m t ≡ false → ltb_ℤ n m ≡ false → ltb_ℤ n t ≡ false
max_trans (pos t) (pos m) (pos n) h k = ground arith
max_trans (pos t) (pos m) (negsuc n) h k = absurd (ground arith)
max_trans (pos t) (negsuc m) n h k = absurd (ground arith)
max_trans (negsuc t) (pos m) (pos n) h k = ground arith
max_trans (negsuc t) (pos m) (negsuc n) h k = absurd (ground arith)
max_trans (negsuc t) (negsuc m) (pos n) h k = ground arith
max_trans (negsuc t) (negsuc m) (negsuc n) h k = ground arith

abbrev pub AllPositive : List Config → Type 0
AllPositive [] = Unit {0}
AllPositive (c ∷ cs) = (ltb_ℤ (pos 0) c.max_tokens ≡ true) × AllPositive cs

module _ (p : Patterns) where
  -- Names that are not in a list.
  abbrev Unseen : List Bytes → List Config → Type 0
  Unseen names [] = Unit {0}
  Unseen names (c ∷ cs) = (elem c.name names ≡ false) × Unseen names cs

  Unseen-IsNew :
      (name : Bytes) (names : List Bytes) (cs : List Config)
      → Unseen (name ∷ names) cs
      → IsNew name cs × Unseen names cs
  Unseen-IsNew name names [] h = (tt, tt)
  Unseen-IsNew name names (c ∷ cs) (first, rest) =
      let (new, unseen) = Unseen-IsNew name names cs rest in
      elim (Bool-cases (bytes_equal name c.name)) [
        | inl same ↦ cc (rw same at first)
        | inr other ↦ ((bytes_differ name c.name other, new), (rw other at first, unseen))
      ]

  config_error-none :
      (names : List Bytes) (c : Config)
      → config_error p names c ≡ none
      → (ltb_ℤ (pos 0) c.max_tokens ≡ true) × (elem c.name names ≡ false)
  config_error-none names c h = ground arith

  first_error-none : (a b : Option Error) → first_error p a b ≡ none → (a ≡ none) × (b ≡ none)
  first_error-none none b h = (refl, h)
  first_error-none (some e) b h = cc

  pub validate-Distinct :
      (names : List Bytes) (cs : List Config)
      → validate p names cs ≡ none
      → Unseen names cs × Distinct cs × AllPositive cs
  unfolding validate
  validate-Distinct names [] h = (tt, tt, tt)
  validate-Distinct names (c ∷ cs) h =
      let (good, more_good) =
        first_error-none (config_error p names c) (validate p (c.name ∷ names) cs) h in
      let (unseen, distinct, positive) = validate-Distinct (c.name ∷ names) cs more_good in
      let (new, others) = Unseen-IsNew c.name names cs unseen in
      let (more, fresh) = config_error-none names c good in
      ((fresh, others), (new, distinct), (more, positive))

-- What a step for one config changes.
pub record Touched (cfg : Config) (s t : Store) : Type 0 where
  pub same : t.configs ≡ s.configs
  pub range : InRange cfg.max_tokens (t.buckets cfg.name).tokens
  pub others : (n : Bytes) → bytes_equal cfg.name n ≡ false → t.buckets n ≡ s.buckets n

abbrev Anything : Store → Type 0
Anything t = Unit {0}

put_bucket-Touched :
    (cfg : Config) (b : Bucket) (s : Store)
    → InRange cfg.max_tokens b.tokens
    → Ends Anything (λ (u : Unit {0}) t. Touched cfg s t) (put_bucket cfg.name b s)
put_bucket-Touched cfg b s range = record {
  state = tt;
  holds = λ u e. record {
    same = refl;
    range = rw (bytes_equal_refl cfg.name) range;
    others = λ n other. rw (bytes_differ cfg.name n other) refl;
  };
}

pub mod_bucket-Touched :
    (cfg : Config) (now : ℕ) (add : ℤ) (s : Store)
    → ltb_ℤ (pos 0) cfg.max_tokens ≡ true
    → Ends Anything (λ kept t. Touched cfg s t) (mod_bucket cfg now add s)
unfolding mod_bucket
mod_bucket-Touched cfg now add s positive =
    let b = replenished cfg now (s.buckets cfg.name) in
    let tokens = add_int64 b.tokens (allowed_add cfg add) in
    let kept = if ltb_ℤ cfg.max_tokens tokens then cfg.max_tokens else tokens in
    Ends-if (ltb_ℤ tokens (pos 0)) (fail insufficient_tokens) _ s
      (λ few. Ends-fail insufficient_tokens s tt)
      (λ enough.
        Ends-after (put_bucket cfg.name (record b { tokens = kept }) s) _
          (put_bucket-Touched cfg (record b { tokens = kept }) s
            (kept-InRange cfg.max_tokens tokens positive enough))
          (λ u t _ touched. Ends-return kept t tt touched))

-- The bucket of a config from before, if there was one, is within that config's bounds.
abbrev WasBounded : (Bytes → Bucket) → Option Config → Type 0
WasBounded f none = Unit {0}
WasBounded f (some prev) = IsBounded f prev

-- A config that is kept, or whose maximum is raised.
unchanged-Touched :
    (reset : Bool) (cfg : Config) (prevs : List Config) (o : Option Config) (s : Store)
    → find_config cfg.name prevs ≡ o
    → is_new_bucket reset o ≡ false
    → is_lowered cfg o ≡ false
    → WasBounded s.buckets o
    → Touched cfg s s
unchanged-Touched reset cfg prevs none s found new lower was = absurd (cc)
unchanged-Touched reset cfg prevs (some prev) s found new lower was = record {
  same = refl;
  range =
      let name : prev.name ≡ cfg.name = find_config-name cfg.name prev prevs found in
      let range : InRange prev.max_tokens (s.buckets cfg.name).tokens = rw name at was.range in
      record {
        floor = range.floor;
        ceiling =
            max_trans (s.buckets cfg.name).tokens prev.max_tokens cfg.max_tokens range.ceiling
              lower;
      };
  others = λ n other. refl;
}

update_bucket-Touched :
    (reset : Bool) (now : ℕ) (cfg : Config) (prevs : List Config) (s : Store)
    → ltb_ℤ (pos 0) cfg.max_tokens ≡ true
    → WasBounded s.buckets (find_config cfg.name prevs)
    → Ends Anything
        (λ (u : Unit {0}) t. Touched cfg s t)
        (update_bucket reset now cfg (find_config cfg.name prevs) s)
unfolding update_bucket
update_bucket-Touched reset now cfg prevs s positive was =
    let o = find_config cfg.name prevs in
    Ends-if (is_new_bucket reset o) (put_bucket cfg.name (full_bucket cfg now)) _ s
      (λ new. put_bucket-Touched cfg (full_bucket cfg now) s (max-InRange cfg.max_tokens positive))
      (λ old.
        Ends-if (is_lowered cfg o) _ (return tt) s
          (λ lower.
            Ends-after (mod_bucket cfg now (pos 0) s) _
              (mod_bucket-Touched cfg now (pos 0) s positive)
              (λ tokens t _ touched. Ends-return tt t tt touched))
          (λ kept. Ends-return tt s tt (unchanged-Touched reset cfg prevs o s refl old kept was)))

abbrev AllWereBounded : List Config → (Bytes → Bucket) → List Config → Type 0
AllWereBounded prevs f [] = Unit {0}
AllWereBounded prevs f (c ∷ cs) =
    WasBounded f (find_config c.name prevs) × AllWereBounded prevs f cs

-- A step for one config leaves the buckets of other names alone.
WasBounded-Touched :
    (cfg : Config) (s t : Store) (name : Bytes) (prevs : List Config) (o : Option Config)
    → Touched cfg s t
    → bytes_equal name cfg.name ≡ false
    → find_config name prevs ≡ o
    → WasBounded s.buckets o
    → WasBounded t.buckets o
WasBounded-Touched cfg s t name prevs none touched other found was = tt
WasBounded-Touched cfg s t name prevs (some prev) touched other found was =
    let same : prev.name ≡ name = find_config-name name prev prevs found in
    let kept = touched.others prev.name (rw same (bytes_differ name cfg.name other)) in
    record { positive = was.positive; range = rw kept was.range }

AllWereBounded-Touched :
    (cfg : Config) (s t : Store) (prevs cs : List Config)
    → Touched cfg s t
    → IsNew cfg.name cs
    → AllWereBounded prevs s.buckets cs
    → AllWereBounded prevs t.buckets cs
AllWereBounded-Touched cfg s t prevs [] touched new was = tt
AllWereBounded-Touched cfg s t prevs (c ∷ cs) touched (other, new) (first, rest) = (
  WasBounded-Touched cfg s t c.name prevs (find_config c.name prevs) touched other refl first,
  AllWereBounded-Touched cfg s t prevs cs touched new rest,
)

-- What the loop over the new configs leaves.
pub record Updated (cs : List Config) (s t : Store) : Type 0 where
  pub same : t.configs ≡ s.configs
  pub bounded : AllBounded t.buckets cs
  pub others : (n : Bytes) → IsNew n cs → t.buckets n ≡ s.buckets n

Updated-cons :
    (c : Config) (cs : List Config) (s t t' : Store)
    → ltb_ℤ (pos 0) c.max_tokens ≡ true
    → IsNew c.name cs
    → Touched c s t
    → Updated cs t t'
    → Updated (c ∷ cs) s t'
Updated-cons c cs s t t' positive new touched updated = record {
  same = updated.same ∙ touched.same;
  bounded = (
    record { positive = positive; range = rw (updated.others c.name new) touched.range },
    updated.bounded,
  );
  others = λ n fresh. updated.others n fresh.1 ∙ touched.others n fresh.0;
}

update_buckets-Updated :
    (reset : Bool) (now : ℕ) (prevs cs : List Config) (s : Store)
    → Distinct cs
    → AllPositive cs
    → AllWereBounded prevs s.buckets cs
    → Ends Anything (λ (u : Unit {0}) t. Updated cs s t) (update_buckets reset now prevs cs s)
unfolding update_buckets
update_buckets-Updated reset now prevs [] s distinct positive was =
    Ends-return tt s tt (record { same = refl; bounded = tt; others = λ n fresh. refl })
update_buckets-Updated reset now prevs (c ∷ cs) s (new, distinct) (more, positive) (first, rest) =
    Ends-after (update_bucket reset now c (find_config c.name prevs) s) _
      (update_bucket-Touched reset now c prevs s more first)
      (λ u t _ touched.
        Ends-weaken (update_buckets reset now prevs cs t)
          (update_buckets-Updated reset now prevs cs t distinct positive
            (AllWereBounded-Touched c s t prevs cs touched new rest))
          (λ x. x) (λ u' _ updated. Updated-cons c cs s t _ more new touched updated))

AllBounded-AllWereBounded :
    (prevs cs : List Config) (f : Bytes → Bucket) → AllBounded f prevs → AllWereBounded prevs f cs
AllBounded-AllWereBounded prevs [] f h = tt
AllBounded-AllWereBounded prevs (c ∷ cs) f h =
    (was (find_config c.name prevs) refl, AllBounded-AllWereBounded prevs cs f h)
  where
    was : (o : Option Config) → find_config c.name prevs ≡ o → WasBounded f o
    was none found = tt
    was (some prev) found = found-IsBounded c.name prev f prevs found h

check-none :
    (p : Patterns) (o : Option Error) (s : Store)
    → Ends (λ t. t ≡ s) (λ (u : Unit {0}) t. o ≡ none) (check p o s)
check-none p none s = Ends-return tt s refl refl
check-none p (some e) s = Ends-fail e s refl

-- Where UpdateConfigs runs to its end, the store is valid again.
pub update_transaction-IsValid :
    (p : Patterns) (reset : Bool) (update : List Config → List Config) (now : ℕ) (s : Store)
    → IsValid s
    → Ends Anything (λ cfgs t. IsValid t) (update_transaction p reset update now s)
unfolding update_transaction
update_transaction-IsValid p reset update now s valid =
    let cfgs = update s.configs in
    Ends-into (check p (validate p [] cfgs) s) _ (λ t h. tt) (check-none p (validate p [] cfgs) s)
      (λ u t same good.
        let (_, distinct, positive) = validate-Distinct p [] cfgs good in
        let start : Store = record { configs = cfgs; buckets = t.buckets } in
        let were =
          subst (λ (x : Store). AllWereBounded s.configs x.buckets cfgs) (sym same)
            (AllBounded-AllWereBounded s.configs cfgs s.buckets valid.bounded) in
        Ends-after (update_buckets reset now s.configs cfgs start) _
          (update_buckets-Updated reset now s.configs cfgs start distinct positive were)
          (λ u' t' _ updated. Ends-return cfgs t' tt (record {
            distinct = rw updated.same distinct;
            bounded = rw updated.same updated.bounded;
          })))
