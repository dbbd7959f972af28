-- ===== src/Server/Validate/Sequenced.antt =====
-- What validateAddSequencedLeavesRequest of server/validate.go accepts: leaves with values, whose
-- indices count up from the first one's.
use trillian.Prelude.{
  subst, ℕ, suc, ◌<◌, ◌^◌, ◌≡◌, refl, ap, ◌∙◌, List, [], ◌∷◌, Bytes, ok, err, panic, out_of_fuel,
  ◌>>◌, Option, none, some, Bool, true, false, not, length, ◌==◌, arith, Bool-cases, inl, inr, ◌-◌,
}
use trillian.Prelude.Int.{ℤ, pos, negsuc, eqb_ℤ}
use trillian.Server.Validate.{
  LogLeaf, Status, invalid_argument_at, invalid_argument, leaves, leaf_value, leaf_index,
  failed_precondition_at, Check, refuse_if, negative, validate_log_leaf, validate_each_leaf,
  validate_log_leaves, next_int64, validate_sequence, sequence_from_first,
  validate_add_sequenced_leaves_request,
}

next_int64_wraps : (n : ℕ) → (suc n == 2 ^ 63) ≡ true → next_int64 (pos n) ≡ negsuc (2 ^ 63 - 1)
unfolding next_int64
next_int64_wraps n h = rw h refl

next_int64_goes_on : (n : ℕ) → (suc n == 2 ^ 63) ≡ false → next_int64 (pos n) ≡ pos (suc n)
unfolding next_int64
next_int64_goes_on n h = rw h refl

-- Leaves with these values and with indices that count up from `start`.
unfoldable pub numbered : ℕ → List Bytes → List (Option LogLeaf)
numbered start [] = []
numbered start (v ∷ vs) =
    some (record { leaf_value = v; leaf_index = pos start }) ∷ numbered (suc start) vs

unfoldable pub AllFilled : List Bytes → Type 0
AllFilled [] = Unit {0}
AllFilled (v ∷ vs) = (0 < length v) × AllFilled vs

both_accept : (m k : Check) → (m >> k) ≡ ok tt → (m ≡ ok tt) × (k ≡ ok tt)
both_accept (ok tt) k h = (refl, h)
both_accept (err e) k h = absurd (cc)
both_accept panic k h = absurd (cc)
both_accept out_of_fuel k h = absurd (cc)

not_refused : (b : Bool) (s : Status) → refuse_if b s ≡ ok tt → b ≡ false
not_refused false s h = refl
not_refused true s h = absurd (cc)

not_negative : (index : ℤ) → negative index ≡ false → (n : ℕ) × (index ≡ pos n)
not_negative (pos n) h = (n, refl)
not_negative (negsuc n) h = absurd (ground arith)

accepted_leaf :
    (i : ℕ) (v : Bytes) (index : ℤ)
    → validate_log_leaf i (some (record { leaf_value = v; leaf_index = index })) ≡ ok tt
    → (0 < length v) × ((n : ℕ) × (index ≡ pos n))
unfolding validate_log_leaf
accepted_leaf i v index h =
    let parts =
      both_accept (refuse_if (length v == 0) (invalid_argument_at i leaf_value))
        (refuse_if (negative index) (invalid_argument_at i leaf_index)) h in
    let value_kept = not_refused (length v == 0) (invalid_argument_at i leaf_value) parts.0 in
    (
      ground arith,
      not_negative index (not_refused (negative index) (invalid_argument_at i leaf_index) parts.1),
    )

accepted_index : (index : ℤ) (n : ℕ) → (not (eqb_ℤ index (pos n))) ≡ false → index ≡ pos n
accepted_index (pos k) n h = ap pos (ground arith)
accepted_index (negsuc k) n h = absurd (ground arith)

-- The two checks of one leaf, apart.
accepted_step :
    (i : ℕ) (index next_index : ℤ) (rest : Check)
    → (refuse_if (not (eqb_ℤ index next_index)) (failed_precondition_at i leaf_index) >> rest)
      ≡ ok tt
    → (not (eqb_ℤ index next_index) ≡ false) × (rest ≡ ok tt)
accepted_step i index next_index rest h =
    let parts =
      both_accept (refuse_if (not (eqb_ℤ index next_index)) (failed_precondition_at i leaf_index))
        rest h in
    (
      not_refused (not (eqb_ℤ index next_index)) (failed_precondition_at i leaf_index) parts.0,
      parts.1,
    )

-- After the last int64 no leaf is accepted.
none_after_wrap :
    (i j m : ℕ) (ls : List (Option LogLeaf))
    → validate_each_leaf j ls ≡ ok tt
    → validate_sequence i (negsuc m) ls ≡ ok tt
    → ls ≡ []
unfolding validate_each_leaf validate_sequence
none_after_wrap i j m [] each seq = refl
none_after_wrap i j m (none ∷ ls) each seq = absurd (cc)
none_after_wrap i j m (some l ∷ ls) each seq =
    let checked = both_accept (validate_log_leaf j (some l)) (validate_each_leaf (suc j) ls) each in
    let index = (accepted_leaf j l.leaf_value l.leaf_index checked.0).1 in
    let same =
      (accepted_step i l.leaf_index (negsuc m)
        (validate_sequence (suc i) (next_int64 (negsuc m)) ls) seq).0 in
    absurd (differs index.0 (rw (index.1) at (same)))
  where
    differs : (n : ℕ) → not (eqb_ℤ (pos n) (negsuc m)) ≡ false → ⊥
    differs n h = ground arith

counted :
    (i j start : ℕ) (ls : List (Option LogLeaf))
    → validate_each_leaf j ls ≡ ok tt
    → validate_sequence i (pos start) ls ≡ ok tt
    → (vs : List Bytes) × (ls ≡ numbered start vs) × AllFilled vs
unfolding validate_each_leaf validate_sequence numbered AllFilled
counted i j start [] each seq = ([], refl, tt)
counted i j start (none ∷ ls) each seq = absurd (cc)
counted i j start (some l ∷ ls) each seq =
    let checked = both_accept (validate_log_leaf j (some l)) (validate_each_leaf (suc j) ls) each in
    let filled = (accepted_leaf j l.leaf_value l.leaf_index checked.0).0 in
    let step =
      accepted_step i l.leaf_index (pos start)
        (validate_sequence (suc i) (next_int64 (pos start)) ls) seq in
    let index = accepted_index l.leaf_index start step.0 in
    let others : (vs : List Bytes) × (ls ≡ numbered (suc start) vs) × AllFilled vs =
      elim (Bool-cases (suc start == 2 ^ 63)) [
        | inl wraps ↦
            let after : next_int64 (pos start) ≡ negsuc (2 ^ 63 - 1) =
              next_int64_wraps start wraps in
            (
              [],
              none_after_wrap (suc i) (suc j) (2 ^ 63 - 1) ls checked.1 (rw after at (step.1)),
              tt,
            )
        | inr goes_on ↦
            let after : next_int64 (pos start) ≡ pos (suc start) =
              next_int64_goes_on start goes_on in
            counted (suc i) (suc j) (suc start) ls checked.1 (rw after at (step.1))
      ] in
    (
      l.leaf_value ∷ others.0,
      ap (λ (n : ℤ). some (record { leaf_value = l.leaf_value; leaf_index = n }) ∷ ls) index
          ∙ ap
              (λ (rest : List (Option LogLeaf)).
                some (record { leaf_value = l.leaf_value; leaf_index = pos start }) ∷ rest)
              others.1,
      (filled, others.2),
    )

leaves_given :
    (l : Option LogLeaf) (ls : List (Option LogLeaf))
    → validate_log_leaves (l ∷ ls) ≡ validate_each_leaf 0 (l ∷ ls)
unfolding validate_log_leaves
leaves_given l ls =
    let given : (length (l ∷ ls) == 0) ≡ false = ground arith in
    ap (λ (b : Bool). refuse_if b (invalid_argument leaves) >> validate_each_leaf 0 (l ∷ ls)) given

has_values :
    (start : ℕ) (vs : List Bytes) (l : Option LogLeaf) (ls : List (Option LogLeaf))
    → l ∷ ls ≡ numbered start vs
    → 0 < length vs
unfolding numbered
has_values start [] l ls e = absurd (cc)
has_values start (v ∷ vs) l ls e = omega arith

no_leaves : (validate_log_leaves [] >> sequence_from_first []) ≡ ok tt → ⊥
unfolding validate_log_leaves
no_leaves h = absurd (cc)

nil_leaf :
    (ls : List (Option LogLeaf))
    → ◌≡◌ {A = Check} (validate_each_leaf 0 (none ∷ ls) >> panic) (ok tt)
    → ⊥
unfolding validate_each_leaf validate_log_leaf
nil_leaf ls h = absurd (cc)

first_index :
    (l : LogLeaf) (ls : List (Option LogLeaf))
    → validate_each_leaf 0 (some l ∷ ls) ≡ ok tt
    → (n : ℕ) × (l.leaf_index ≡ pos n)
unfolding validate_each_leaf
first_index l ls each =
    let first = both_accept (validate_log_leaf 0 (some l)) (validate_each_leaf 1 ls) each in
    (accepted_leaf 0 l.leaf_value l.leaf_index first.0).1

-- If validateAddSequencedLeavesRequest accepts, there is a leaf, every leaf has a value, and the
-- indices are not negative and count up from the first.
pub validate_add_sequenced_leaves_request_sound :
    (ls : List (Option LogLeaf))
    → validate_add_sequenced_leaves_request ls ≡ ok tt
    → (start : ℕ) × (vs : List Bytes) × (ls ≡ numbered start vs) × (0 < length vs) × AllFilled vs
unfolding validate_add_sequenced_leaves_request sequence_from_first
validate_add_sequenced_leaves_request_sound [] accepted = absurd (no_leaves accepted)
validate_add_sequenced_leaves_request_sound (none ∷ ls) accepted =
    absurd (nil_leaf ls (rw (leaves_given none ls) at accepted))
validate_add_sequenced_leaves_request_sound (some l ∷ ls) accepted =
    let parts =
      both_accept (validate_each_leaf 0 (some l ∷ ls))
        (validate_sequence 0 l.leaf_index (some l ∷ ls))
        (rw (leaves_given (some l) ls) at accepted) in
    let index = first_index l ls parts.0 in
    let sequence =
      subst (λ (n : ℤ). ◌≡◌ {A = Check} (validate_sequence 0 n (some l ∷ ls)) (ok tt)) index.1
        parts.1 in
    let counts = counted 0 0 index.0 (some l ∷ ls) parts.0 sequence in
    (index.0, counts.0, counts.1, has_values index.0 counts.0 (some l) ls counts.1, counts.2)
