-- ===== src/Util/Tracker/Counts.antt =====
-- The count of util/tracker.go is that of the ids that are held.
use trillian.Prelude.{
  ℕ, suc, ◌+◌, ◌≡◌, refl, sym, ap, ◌∙◌, List, [], ◌∷◌, Bool, true, false, not, ◌&&◌, leb, length,
  if◌then◌else◌, arith, Bool-cases, inl, inr,
}
use trillian.Prelude.Int.{ℤ, pos, ◌+ℤ◌, ◌-ℤ◌, eqb_ℤ}
use trillian.Util.Tracker.{
  MasterTracker, get, put, or_false, track, new_master_tracker, set, count, held_ids, held,
}

-- The calls of Set, in order.
abbrev pub sets : List (ℤ × Bool) → MasterTracker → MasterTracker
sets [] mt = mt
sets ((id, val) ∷ calls) mt = sets calls (set id val mt)

abbrev one_if : Bool → ℕ
one_if true = 1
one_if false = 0

replaced :
    (k : ℤ) (v val : Bool) (entries : List (ℤ × Bool))
    → length (held_ids ((k, val) ∷ entries)) + one_if v
      ≡ length (held_ids ((k, v) ∷ entries)) + one_if val
replaced k true true entries = refl
replaced k true false entries = omega arith
replaced k false true entries = omega arith
replaced k false false entries = refl

kept :
    (v val existing : Bool) (k : ℤ) (new entries : List (ℤ × Bool))
    → length (held_ids new) + one_if existing ≡ length (held_ids entries) + one_if val
    → length (held_ids ((k, v) ∷ new)) + one_if existing
      ≡ length (held_ids ((k, v) ∷ entries)) + one_if val
kept true val existing k new entries same = omega arith
kept false val existing k new entries same = same

-- Writing an entry changes the number of held ids by that entry.
length-held_ids :
    (entries : List (ℤ × Bool)) (id : ℤ) (val : Bool)
    → length (held_ids (put entries id val)) + one_if (or_false (get entries id))
      ≡ length (held_ids entries) + one_if val
length-held_ids [] id true = refl
length-held_ids [] id false = refl
length-held_ids ((k, v) ∷ entries) id val = elim (Bool-cases (eqb_ℤ k id)) [
  | inl here ↦ rw here (replaced k v val entries)
  | inr later ↦ rw later (
      kept v val (or_false (get entries id)) k (put entries id val) entries
        (length-held_ids entries id val))
]

one_more : (n : ℕ) → pos n +ℤ pos 1 ≡ pos (suc n)
one_more n =
    let positive : leb 0 (n + 1) ≡ true = ground arith in rw positive (ap pos (omega arith))

one_less : (n : ℕ) → pos (suc n) -ℤ pos 1 ≡ pos n
one_less n =
    let positive : leb 1 (suc n + 0) ≡ true = ground arith in rw positive (ap pos (omega arith))

-- The count and the entries agree.
abbrev pub Counted : MasterTracker → Type 0
Counted mt = count mt ≡ pos (length (held_ids mt.master_for))

counted :
    (c : ℤ) (before after : ℕ) (existing val : Bool)
    → c ≡ pos before
    → after + one_if existing ≡ before + one_if val
    → (if val && not existing then c +ℤ pos 1 else if not val && existing then c -ℤ pos 1 else c)
      ≡ pos after
counted c before after true true now same = now ∙ ap pos (omega arith)
counted c before after false true now same =
    ap (λ (x : ℤ). x +ℤ pos 1) now ∙ one_more before ∙ ap pos (omega arith)
counted c before after true false now same =
    ap (λ (x : ℤ). x -ℤ pos 1) (now ∙ ap pos (omega arith)) ∙ one_less after
counted c before after false false now same = now ∙ ap pos (omega arith)

set-Counted : (id : ℤ) (val : Bool) (mt : MasterTracker) → Counted mt → Counted (set id val mt)
unfolding set
set-Counted id val mt now =
    counted mt.master_count (length (held_ids mt.master_for))
      (length (held_ids (put mt.master_for id val))) (or_false (get mt.master_for id)) val now
      (length-held_ids mt.master_for id val)

sets-Counted : (calls : List (ℤ × Bool)) (mt : MasterTracker) → Counted mt → Counted (sets calls mt)
sets-Counted [] mt now = now
sets-Counted ((id, val) ∷ calls) mt now =
    sets-Counted calls (set id val mt) (set-Counted id val mt now)

track-none :
    (ids : List ℤ) (entries : List (ℤ × Bool))
    → length (held_ids entries) ≡ 0
    → length (held_ids (track ids entries)) ≡ 0
track-none [] entries nothing = nothing
track-none (id ∷ ids) entries nothing =
    let written = length-held_ids entries id false in
    track-none ids (put entries id false) (omega arith)

-- After any calls of Set on a new tracker, Count is the number of ids that Held returns, where the
-- sort keeps the length.
pub count-sets :
    (sort : List ℤ → List ℤ) (ids : List ℤ) (calls : List (ℤ × Bool))
    → ((xs : List ℤ) → length (sort xs) ≡ length xs)
    → count (sets calls (new_master_tracker ids))
      ≡ pos (length (held sort (sets calls (new_master_tracker ids))))
unfolding new_master_tracker held
count-sets sort ids calls same_length =
    let start : Counted (new_master_tracker ids) = ap pos (sym (track-none ids [] refl)) in
    let mt = sets calls (new_master_tracker ids) in
    sets-Counted calls (new_master_tracker ids) start
    ∙ ap pos (sym (same_length (held_ids mt.master_for)))
