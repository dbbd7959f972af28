-- ===== src/Quota/Etcd/Taken.antt =====
-- Get of quota/etcd/storage/quota_storage.go: what it takes, and from which quotas.
use trillian.Prelude.{
  ℕ, ◌-◌, ◌^◌, ◌<◌, ◌≤◌, ◌≡◌, refl, sym, ◌∙◌, ap, subst, List, [], ◌∷◌, ◌++◌, Bytes, bytes_equal,
  bytes_equal→eq, bytes_equal_refl, Outcome, ok, err, panic, out_of_fuel, Option, none, some, true,
  false, Bool-cases, inl, inr, dec_lt, arith,
}
use trillian.Prelude.Int.{ℤ, pos, negsuc, ◌-ℤ◌, ltb_ℤ}
use trillian.Log.Tx.{Action, ◌>>=◌, after, return, fail, rolled_back, atomically}
use trillian.Log.Tx.Ends.{Ends, Ends-after, Ends-return, Ends-fail, Ends-if, Ends-both}
use trillian.Quota.Etcd.{
  Config, Bucket, Store, Error, Patterns, sequencing_based, add_int64, insufficient_tokens,
  store_tokens, mod_bucket, find_config, if_enabled, is_enabled, elem, each_name, emit,
  default_mode, mod_config, for_names, mod_tokens, names_valid, get,
}
use trillian.Quota.Etcd.Bounds.{
  IsValid, InRange, find_config-name, found-IsBounded, if_enabled-eq, Reading, mod_bucket-Reading,
}
use trillian.Quota.Etcd.Updates.{mod_bucket-Touched}

-- What taking `k` tokens from a bucket of `n` leaves, in the arithmetic of the code.
take_tokens :
    (max n k : ℕ)
    → n ≤ max
    → max < 2 ^ 63
    → k ≤ n
    → add_int64 (pos n) (pos 0 -ℤ pos k) ≡ pos (n - k)
take_tokens max n k fits word enough = ground arith

too_few :
    (max n k : ℕ)
    → n ≤ max
    → max < 2 ^ 63
    → k < 2 ^ 63
    → n < k
    → ltb_ℤ (add_int64 (pos n) (pos 0 -ℤ pos k)) (pos 0) ≡ true
too_few max n k fits word small short = ground arith

-- `k` tokens are taken from a bucket.
pub data Took (k : ℕ) (before after : Bucket) : Type 0 where
  took : (n : ℕ) → before.tokens ≡ pos n → after.tokens ≡ pos (n - k) → k ≤ n → Took k before after

-- Taking `k` tokens from a quota that is not time-based.
module _ (cfg : Config) (k m : ℕ) (sequencing : cfg.replenishment_strategy ≡ sequencing_based)
    (max : cfg.max_tokens ≡ pos m) (word : m < 2 ^ 63) where
  module _ (small : k < 2 ^ 63) where
    store_tokens-Took :
        (b : Bucket) (n : ℕ) (s : Store)
        → n ≤ m
        → b.tokens ≡ pos n
        → Ends
            (λ t. Unit {0})
            (λ kept t. Took k b (t.buckets cfg.name))
            (store_tokens cfg b (add_int64 b.tokens (pos 0 -ℤ pos k)) s)
    store_tokens-Took b n s fits held =
        let tokens = add_int64 b.tokens (pos 0 -ℤ pos k) in
        let same : tokens ≡ add_int64 (pos n) (pos 0 -ℤ pos k) =
          ap (λ (x : ℤ). add_int64 x (pos 0 -ℤ pos k)) held in
        Ends-if (ltb_ℤ tokens (pos 0)) (fail insufficient_tokens) _ s
          (λ few. Ends-fail insufficient_tokens s tt)
          (λ enough. elim (dec_lt n k) [
            | yes short ↦
                let below : ltb_ℤ tokens (pos 0) ≡ true =
                  ap (λ (x : ℤ). ltb_ℤ x (pos 0)) same ∙ too_few m n k fits word small short in
                cc
            | no long ↦
                let left : tokens ≡ pos (n - k) =
                  same ∙ take_tokens m n k fits word (omega arith) in
                let within : ltb_ℤ cfg.max_tokens tokens ≡ false = rw (max, left) (ground arith) in
                record {
                  state = tt;
                  holds = λ kept e.
                      took n held (rw (bytes_equal_refl cfg.name) (rw within left)) (omega arith);
                }
          ])

    mod_bucket_sequencing :
        (now : ℕ) (add : ℤ) (s : Store)
        → mod_bucket cfg now add s
          ≡ store_tokens cfg (s.buckets cfg.name) (add_int64 (s.buckets cfg.name).tokens add) s
    unfolding mod_bucket
    mod_bucket_sequencing now add s = rw sequencing refl

    mod_bucket-Took :
        (now : ℕ) (s : Store) (n : ℕ)
        → (s.buckets cfg.name).tokens ≡ pos n
        → n ≤ m
        → Ends
            (λ t. Unit {0})
            (λ kept t. Took k (s.buckets cfg.name) (t.buckets cfg.name))
            (mod_bucket cfg now (pos 0 -ℤ pos k) s)
    mod_bucket-Took now s n held fits =
        rw mod_bucket_sequencing (store_tokens-Took (s.buckets cfg.name) n s fits held)

-- A number in range of a maximum.
in_range : (m : ℕ) (x : ℤ) → InRange (pos m) x → (n : ℕ) × (x ≡ pos n) × (n ≤ m)
in_range m (pos n) h = let above = h.ceiling in (n, refl, ground arith)
in_range m (negsuc n) h = let below = h.floor in absurd (ground arith)

Took-kept : (k : ℕ) (a b c : Bucket) → Took k a b → c ≡ b → Took k a c
Took-kept k a b c (took n before after enough) same =
    took n before (ap (λ (x : Bucket). x.tokens) same ∙ after) enough

Took-later : (k : ℕ) (a b c : Bucket) → b ≡ a → Took k b c → Took k a c
Took-later k a b c same (took n before after enough) =
    took n (ap (λ (x : Bucket). x.tokens) (sym same) ∙ before) after enough

module _ (p : Patterns) (cfgs : List Config) (name : Bytes) (cfg : Config) (now k : ℕ)
    (found : find_config name cfgs ≡ some cfg) where
  abbrev fn : Bytes → Option Config → Action Store Error ℤ
  fn = mod_config p now (pos 0 -ℤ pos k)

  abbrev Kept : Store → Store → Type 0
  Kept s t = t.buckets name ≡ s.buckets name

  -- The step for another name.
  emit_other :
      (other : Bytes) (o : Option Config) (s : Store)
      → bytes_equal other name ≡ false
      → ((c : Config) → o ≡ some c → find_config other cfgs ≡ some c)
      → Reading cfgs s
      → Ends (Reading cfgs) (λ l t. Kept s t) (emit fn default_mode other o s)
  emit_other other none s differ known h = Ends-return [] s h refl
  emit_other other (some c) s differ known h =
      let at_other = known c refl in
      let positive = (found-IsBounded other c s.buckets cfgs at_other h.bounded).positive in
      let add = pos 0 -ℤ pos k in
      Ends-after (mod_bucket c now add s) _
        (Ends-both (mod_bucket c now add s) (mod_bucket-Reading cfgs other c now add s at_other h)
          (mod_bucket-Touched c now add s positive))
        (λ kept t h' touched.
          let apart : bytes_equal c.name name ≡ false =
            rw (find_config-name other c cfgs at_other) differ in
          Ends-return ((other, kept) ∷ []) t h' (touched.1.others name apart))

  elem-cons :
      (other : Bytes) (seen : List Bytes) → elem name seen ≡ true → elem name (other ∷ seen) ≡ true
  elem-cons other seen h = ground arith

  -- A name that was seen is not called again.
  each_name-Kept :
      (seen names : List Bytes) (s : Store)
      → elem name seen ≡ true
      → Reading cfgs s
      → Ends (Reading cfgs) (λ l t. Kept s t) (each_name fn default_mode cfgs seen names s)
  unfolding each_name
  each_name-Kept seen [] s again h = Ends-return [] s h refl
  each_name-Kept seen (other ∷ names) s again h =
      let o = if_enabled (find_config other cfgs) in
      Ends-if (elem other seen) (each_name fn default_mode cfgs seen names) _ s
        (λ old. each_name-Kept seen names s again h)
        (λ new. elim (Bool-cases (bytes_equal other name)) [
          | inl same ↦
              let same_name : other ≡ name = bytes_equal→eq other name same in
              let unseen : elem name seen ≡ false =
                subst (λ x. elem x seen ≡ false) same_name new in
              cc
          | inr differ ↦
              Ends-after (emit fn default_mode other o s) _
                (emit_other other o s differ (if_enabled-eq (find_config other cfgs)) h)
                (λ first t h' kept.
                  Ends-after (each_name fn default_mode cfgs (other ∷ seen) names t) _
                    (each_name-Kept (other ∷ seen) names t (elem-cons other seen again) h')
                    (λ rest t' h'' more. Ends-return (first ++ rest) t' h'' (more ∙ kept)))
        ])

  module _ (m : ℕ) (sequencing : cfg.replenishment_strategy ≡ sequencing_based)
      (max : cfg.max_tokens ≡ pos m) (word : m < 2 ^ 63) (small : k < 2 ^ 63)
      (on : is_enabled cfg.state ≡ true) where
    emit_self :
        (s : Store)
        → Reading cfgs s
        → Ends
            (Reading cfgs)
            (λ l t. Took k (s.buckets name) (t.buckets name))
            (emit fn default_mode name (if_enabled (find_config name cfgs)) s)
    emit_self s h =
        let bounds = (found-IsBounded name cfg s.buckets cfgs found h.bounded).range in
        let (n, held, fits) = in_range m (s.buckets cfg.name).tokens (rw max at bounds) in
        let named = find_config-name name cfg cfgs found in
        let add = pos 0 -ℤ pos k in
        rw (found, on)
          (Ends-after (mod_bucket cfg now add s) _
            (Ends-both (mod_bucket cfg now add s)
              (mod_bucket-Reading cfgs name cfg now add s found h)
              (mod_bucket-Took cfg k m sequencing max word small now s n held fits))
            (λ kept t h' taken.
              Ends-return ((name, kept) ∷ []) t h'
                (subst (λ x. Took k (s.buckets x) (t.buckets x)) named taken.1)))

    -- The first time that the name comes.
    first_time :
        (seen names : List Bytes) (s : Store)
        → Reading cfgs s
        → Ends
            (Reading cfgs)
            (λ l t. Took k (s.buckets name) (t.buckets name))
            ((emit fn default_mode name (if_enabled (find_config name cfgs)) >>= λ first.
                each_name fn default_mode cfgs (name ∷ seen) names >>= λ rest.
                return (first ++ rest))
              s)
    first_time seen names s h =
        Ends-after (emit fn default_mode name (if_enabled (find_config name cfgs)) s) _
          (emit_self s h)
          (λ first t h' taken.
            Ends-after (each_name fn default_mode cfgs (name ∷ seen) names t) _
              (each_name-Kept (name ∷ seen) names t (rw (bytes_equal_refl name) refl) h')
              (λ rest t' h'' kept.
                Ends-return (first ++ rest) t' h''
                  (Took-kept k (s.buckets name) (t.buckets name) (t'.buckets name) taken kept)))

    each_name-Took :
        (seen names : List Bytes) (s : Store)
        → elem name seen ≡ false
        → elem name names ≡ true
        → Reading cfgs s
        → Ends
            (Reading cfgs)
            (λ l t. Took k (s.buckets name) (t.buckets name))
            (each_name fn default_mode cfgs seen names s)
    unfolding each_name
    each_name-Took seen [] s new asked h = absurd (cc)
    each_name-Took seen (other ∷ names) s new asked h =
        let o = if_enabled (find_config other cfgs) in
        Ends-if (elem other seen) (each_name fn default_mode cfgs seen names) _ s
          (λ old. elim (Bool-cases (bytes_equal other name)) [
            | inl same ↦
                let same_name : other ≡ name = bytes_equal→eq other name same in
                let again : elem name seen ≡ true = subst (λ x. elem x seen ≡ true) same_name old in
                cc
            | inr differ ↦
                let later : elem name names ≡ true = rw differ at asked in
                each_name-Took seen names s new later h
          ])
          (λ fresh. elim (Bool-cases (bytes_equal other name)) [
            | inl same ↦
                subst
                  (λ x.
                    Ends (Reading cfgs) (λ l t. Took k (s.buckets name) (t.buckets name))
                      ((emit fn default_mode x (if_enabled (find_config x cfgs)) >>= λ first.
                          each_name fn default_mode cfgs (x ∷ seen) names >>= λ rest.
                          return (first ++ rest))
                        s))
                  (sym (bytes_equal→eq other name same)) (first_time seen names s h)
            | inr differ ↦
                let later : elem name names ≡ true = rw differ at asked in
                let unseen : elem name (other ∷ seen) ≡ false = rw differ new in
                Ends-after (emit fn default_mode other o s) _
                  (emit_other other o s differ (if_enabled-eq (find_config other cfgs)) h)
                  (λ first t h' kept.
                    Ends-after (each_name fn default_mode cfgs (other ∷ seen) names t) _
                      (each_name-Took (other ∷ seen) names t unseen later h')
                      (λ rest t' h'' taken. Ends-return (first ++ rest) t' h'' (
                        Took-later k (s.buckets name) (t.buckets name) (t'.buckets name) kept
                          taken)))
          ])

module _ (p : Patterns) where
  -- A transaction that returns is committed.
  committed :
      {A : Type 0} (s t : Store) (q : Store × Outcome Error A)
      (k : A → Action Store Error (Unit {0}))
      → ((a : A) (x : Store) → k a x ≡ (x, ok tt))
      → after (rolled_back s q) k ≡ (t, ok tt)
      → (a : A) × (q ≡ (t, ok a))
  committed s t (x, ok a) k returns done =
      (a, ap (λ y. (y, ok a)) (ap (λ q. q.0) (sym (returns a x) ∙ done)))
  committed s t (x, err e) k returns done = cc
  committed s t (x, panic) k returns done = cc
  committed s t (x, out_of_fuel) k returns done = cc

  -- Where Get of `k` tokens returns without an error on a store whose configs have different names
  -- and whose buckets are in range, each quota that is asked for, enabled and not time-based, with
  -- `k` and its maximum below 2 ^ 63, had that many tokens and has `k` less, however often it was
  -- named.
  pub get-Took :
      (names : List Bytes) (k now : ℕ) (s t : Store) (name : Bytes) (cfg : Config) (m : ℕ)
      → IsValid s
      → get p names (pos k) now s ≡ (t, ok tt)
      → elem name names ≡ true
      → find_config name s.configs ≡ some cfg
      → is_enabled cfg.state ≡ true
      → cfg.replenishment_strategy ≡ sequencing_based
      → cfg.max_tokens ≡ pos m
      → m < 2 ^ 63
      → k < 2 ^ 63
      → Took k (s.buckets name) (t.buckets name)
  unfolding get mod_tokens for_names atomically
  get-Took names k now s t name cfg m valid done asked found on sequencing max word small =
      let not_negative : ltb_ℤ (pos k) (pos 0) ≡ false = ground arith in
      let start : Reading s.configs s = record {
        same = refl;
        distinct = valid.distinct;
        bounded = valid.bounded;
      } in
      let loop = each_name (mod_config p now (pos 0 -ℤ pos k)) default_mode s.configs [] names s in
      elim (Bool-cases (names_valid p names)) [
        | inr malformed ↦ cc (rw (not_negative, malformed) at done)
        | inl well_formed ↦
            let (l, ended) =
              committed s t loop (λ l. return tt) (λ a x. refl)
                (rw (not_negative, well_formed) at done) in
            let taken =
              each_name-Took p s.configs name cfg now k found m sequencing max word small on []
                names s refl asked start in
            subst (λ q. Took k (s.buckets name) (q.buckets name)) (ap (λ q. q.0) ended)
              (taken.holds l (ap (λ q. q.1) ended))
      ]
