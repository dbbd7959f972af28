-- ===== src/Merkle/MerklePath/Skip.antt =====
-- merkle/merkle_path.go: the node that skipMissingLevels comes to is the highest on the way down
-- that storage has.
use Prim.Native.Nat.{bit_and}
use native.Mathlib.Nat.{mul_assoc, le-div_iff_mul-le, div-div-eq-div-mul, div-one}
use trillian.Prelude.{
  ℕ, zero, suc, ◌-◌, ◌*◌, ◌/◌, ◌%◌, ◌^◌, ◌≤◌, ◌<◌, ◌≡◌, ◌≢◌, refl, ap, ◌∙◌, true, false, not, ◌&&◌,
  ◌↔◌, subst, sym, ◌⊎◌, inl, inr, ◌==◌, Bool-cases, arith,
}
use trillian.Prelude.Bits.{two-pow-suc, two-pow_pos, bit_and-pow}
use trillian.Merkle.MerklePath.{last_node_present, skip_loop, skip_missing_levels, xor_one}

-- Storage has a node of a tree of this size, at this level and place: a leaf of the tree, or a node
-- whose right child is not empty, since the first leaf below that child, at `2 * node + 1` times the
-- leaves below a child, is one of the tree.
unfoldable pub Stored : ℕ → ℕ → ℕ → Type 0
Stored snapshot zero node = node < snapshot
Stored snapshot (suc level) node = suc (2 * node) * 2 ^ level < snapshot

-- A node on the left edge below another: so many levels down, and as many times doubled.
unfoldable pub LeftmostBelow : ℕ → ℕ → ℕ → ℕ → Type 0
LeftmostBelow level node l n = (l ≤ level) × (n ≡ node * 2 ^ (level - l))

-- The nodes of the left edge down to a level, that level left out, are not stored.
unfoldable pub MissingAbove : ℕ → ℕ → ℕ → ℕ → Type 0
MissingAbove snapshot level node l =
    (k n : ℕ) → l < k → LeftmostBelow level node k n → Stored snapshot k n → ⊥

LeftmostBelow-here : (level node : ℕ) → LeftmostBelow level node level node
unfolding LeftmostBelow
LeftmostBelow-here level node =
    let none_down : 2 ^ (level - level) ≡ 1 =
      let gone : level - level ≡ 0 = omega arith in ap (λ (e : ℕ). 2 ^ e) gone in
    (omega arith, rw none_down (omega arith))

LeftmostBelow-down :
    (level node l n : ℕ) → LeftmostBelow level (node * 2) l n → LeftmostBelow (suc level) node l n
unfolding LeftmostBelow
LeftmostBelow-down level node l n (above, doubled) =
    let one_more : suc level - l ≡ suc (level - l) = omega arith in
    let power : 2 ^ (suc level - l) ≡ 2 * 2 ^ (level - l) =
      ap (λ (e : ℕ). 2 ^ e) one_more ∙ two-pow-suc (level - l) in
    (omega arith, rw power (doubled ∙ mul_assoc node 2 (2 ^ (level - l))))

-- A node of the left edge is the first one or is below its left child.
LeftmostBelow-cases :
    (level node l n : ℕ)
    → LeftmostBelow (suc level) node l n
    → ((l ≡ suc level) × (n ≡ node)) ⊎ LeftmostBelow level (node * 2) l n
unfolding LeftmostBelow
LeftmostBelow-cases level node l n (above, doubled) = elim (Bool-cases (l == suc level)) [
  | inl same ↦
      let top : l ≡ suc level = ground arith in
      let none_down : 2 ^ (suc level - l) ≡ 1 =
        let gone : suc level - l ≡ 0 = omega arith in ap (λ (e : ℕ). 2 ^ e) gone in
      let once : n ≡ node * 1 = doubled ∙ ap (λ (p : ℕ). node * p) none_down in
      inl (top, omega (arith, once))
  | inr other ↦
      let below : l ≤ level = ground arith in
      let one_more : suc level - l ≡ suc (level - l) = omega arith in
      let power : 2 ^ (suc level - l) ≡ 2 * 2 ^ (level - l) =
        ap (λ (e : ℕ). 2 ^ e) one_more ∙ two-pow-suc (level - l) in
      inr
        (below, doubled ∙ ap (λ (p : ℕ). node * p) power ∙ sym (mul_assoc node 2 (2 ^ (level - l))))
]

-- The last node of the level above.
last_above : (last level : ℕ) → last / 2 ^ suc level ≡ last / 2 ^ level / 2
last_above last level =
    ap (λ (p : ℕ). last / p) (two-pow-suc level ∙ omega arith)
    ∙ sym (div-div-eq-div-mul last (2 ^ level) 2)

not_zero_iff : (power bit : ℕ) → 0 < power → bit < 2 → (not (power * bit == 0) ≡ true) ↔ (bit ≡ 1)
not_zero_iff power zero positive small = (λ h. ground arith, λ h. cc)
not_zero_iff power (suc zero) positive small = (λ h. refl, λ h. ground arith)
not_zero_iff power (suc (suc b)) positive small = absurd (omega arith)

not_leaves : (level : ℕ) → (suc level == 0) ≡ false
not_leaves level = ground arith

-- `lastNodePresent` above the leaves: the last node of the level below is a right child.
last_node_present_iff :
    (level snapshot : ℕ)
    → (last_node_present (suc level) snapshot ≡ true) ↔ ((snapshot - 1) / 2 ^ level % 2 ≡ 1)
unfolding last_node_present
last_node_present_iff level snapshot =
    let one_less : suc level - 1 ≡ level = omega arith in
    let tested : last_node_present (suc level) snapshot
        ≡ not (2 ^ level * ((snapshot - 1) / 2 ^ level % 2) == 0) =
      rw (not_leaves level) refl
      ∙ ap (λ (e : ℕ). not (bit_and (snapshot - 1) (2 ^ e) == 0)) one_less
      ∙ ap (λ (x : ℕ). not (x == 0)) (bit_and-pow level (snapshot - 1)) in
    let bit =
      not_zero_iff (2 ^ level) ((snapshot - 1) / 2 ^ level % 2) (two-pow_pos level) (omega arith) in
    (λ h. bit.0 (sym tested ∙ h), λ h. tested ∙ bit.1 h)

-- A node has a right child if that child's number is at most the last of its level.
Stored-iff :
    (level snapshot node : ℕ)
    → 0 < snapshot
    → Stored snapshot (suc level) node ↔ (suc (2 * node) ≤ (snapshot - 1) / 2 ^ level)
unfolding Stored
Stored-iff level snapshot node nonempty =
    let bound = le-div_iff_mul-le {x = suc (2 * node)} {y = snapshot - 1} (two-pow_pos level) in
    (
      λ stored. bound.1 (omega (arith, stored, nonempty)),
      λ first. let fits = bound.0 first in omega (arith, fits, nonempty),
    )

skip_loop-Stored :
    (snapshot level last_node sibling : ℕ)
    → 0 < snapshot
    → last_node ≡ (snapshot - 1) / 2 ^ level
    → sibling ≤ last_node
    → let found = skip_loop snapshot level last_node sibling in
      Stored snapshot found.0 found.1
      × LeftmostBelow level sibling found.0 found.1
      × MissingAbove snapshot level sibling found.0
unfolding skip_loop MissingAbove Stored LeftmostBelow
skip_loop-Stored snapshot zero last_node sibling nonempty last within = (
  let same : last_node ≡ snapshot - 1 = last ∙ div-one (snapshot - 1) in omega arith,
  LeftmostBelow-here 0 sibling,
  λ k n above below stored. omega (arith, above, below.0),
)
skip_loop-Stored snapshot (suc level) last_node sibling nonempty last within =
    let q = (snapshot - 1) / 2 ^ level in
    let halved : last_node ≡ q / 2 = last ∙ last_above (snapshot - 1) level in
    let present = last_node_present_iff level snapshot in
    let right_child = Stored-iff level snapshot sibling nonempty in
    elim (Bool-cases (sibling == last_node && not (last_node_present (suc level) snapshot))) [
      | inl missing ↦
          let at_last : sibling ≡ last_node = ground arith in
          let even : q % 2 ≢ 1 = λ odd. let shown = present.1 odd in ground arith in
          let here_missing : Stored snapshot (suc level) sibling → ⊥ = λ stored.
            let first = right_child.0 stored in omega (arith, first, at_last, halved, even) in
          let found =
            skip_loop-Stored snapshot level q (sibling * 2) nonempty refl
              (omega (arith, at_last, halved)) in
          let reached = skip_loop snapshot level q (sibling * 2) in
          rw missing (
            found.0,
            LeftmostBelow-down level sibling reached.0 reached.1 found.1,
            λ k n above below stored. elim (LeftmostBelow-cases level sibling k n below) [
              | inl (top, same) ↦ here_missing (
                  subst (λ (x : ℕ). Stored snapshot (suc level) x) same
                    (subst (λ (x : ℕ). Stored snapshot x n) top stored))
              | inr deeper ↦ found.2 k n above deeper stored
            ],
          )
      | inr there ↦ rw there (
        right_child.1 (elim (Bool-cases (last_node_present (suc level) snapshot)) [
          | inl is ↦ let odd = present.0 is in omega (arith, odd, halved, within)
          | inr is_not ↦
              let apart : sibling ≢ last_node = λ same. ground arith in
              omega (arith, apart, halved, within)
        ]),
        LeftmostBelow-here (suc level) sibling,
        λ k n above below stored. omega (arith, above, below.0),
      )
    ]

-- If a tree is not empty and the sibling of a node is at most the last node of its level, then
-- skipMissingLevels, from that last node, comes to a node that storage has: a leaf of the tree, or a
-- node with a right child that is not empty. It is the sibling itself or the first node, so many
-- levels below it, and it is the highest such node: storage has none of those passed on the way.
pub skip_missing_levels-Stored :
    (snapshot level node : ℕ)
    → 0 < snapshot
    → xor_one node ≤ (snapshot - 1) / 2 ^ level
    → let found = skip_missing_levels snapshot ((snapshot - 1) / 2 ^ level) level node in
      Stored snapshot found.0 found.1
      × LeftmostBelow level (xor_one node) found.0 found.1
      × MissingAbove snapshot level (xor_one node) found.0
skip_missing_levels-Stored snapshot level node nonempty within =
    skip_loop-Stored snapshot level ((snapshot - 1) / 2 ^ level) (xor_one node) nonempty refl within
