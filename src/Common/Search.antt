-- ===== src/Common/Search.antt =====
-- The loop that looks for the first unused index of a table.
use Prim.Native.Nat.{ℕ, zero, suc, ◌+◌, ◌≤◌, ◌<◌}
use mathlib.Core.Bool.{Bool, true, false, not}
use mathlib.Core.Option.{Option, none, some}
use mathlib.Core.Path.{◌≡◌, refl, ap, sym, ◌∙◌}
use mathlib.Core.Logic.{inl, inr}
use native.Mathlib.Omega.{arith}
use slate_language.Common.Tests.{if◌then◌else◌, Bool-cases, eq-cases}

-- Over `n` indices from `i` on.
unfoldable pub first_unused : ℕ → (ℕ → Bool) → ℕ → Option ℕ
first_unused zero used i = none
first_unused (suc n) used i =
    let later = first_unused n used (i + 1) in if not (used i) then some i else later

pub first_unused-some :
    (n : ℕ) (used : ℕ → Bool) (k i : ℕ)
    → first_unused n used k ≡ some i
    → (used i ≡ false) × (k ≤ i) × (i < k + n) × ((j : ℕ) → k ≤ j → j < i → used j ≡ true)
unfolding first_unused
first_unused-some zero used k i e = absurd (ground arith)
first_unused-some (suc n) used k i e = elim (Bool-cases (used k)) [
  | inl v ↦
      let r = first_unused-some n used (k + 1) i (rw v at e) in
      (
        r.0,
        omega (arith, r.1),
        omega (arith, r.2),
        λ j lo hi. elim (eq-cases j k) [
          | inl same ↦ ap used same ∙ v
          | inr other ↦ r.3 j (omega arith) hi
        ],
      )
  | inr f ↦
      let at_k : k ≡ i = ap (λ (o : Option ℕ). elim o [ none ↦ k | some v ↦ v ]) (rw f at e) in
      (
        ap used (sym at_k) ∙ f,
        omega (arith, at_k),
        omega (arith, at_k),
        λ j lo hi. absurd (omega (arith, at_k)),
      )
]

pub first_unused-none :
    (n : ℕ) (used : ℕ → Bool) (k : ℕ)
    → first_unused n used k ≡ none
    → (j : ℕ) → k ≤ j
    → j < k + n
    → used j ≡ true
unfolding first_unused
first_unused-none zero used k e j lo hi = absurd (omega arith)
first_unused-none (suc n) used k e j lo hi = elim (Bool-cases (used k)) [
  | inl v ↦ elim (eq-cases j k) [
    | inl same ↦ ap used same ∙ v
    | inr other ↦ first_unused-none n used (k + 1) (rw v at e) j (omega arith) (omega arith)
  ]
  | inr f ↦ absurd (ground (arith, rw f at e))
]

-- The search finds the same index when the tests change only where they stay behind it.
pub first_unused-same :
    (n : ℕ) (used used' : ℕ → Bool) (k j : ℕ)
    → first_unused n used k ≡ some j
    → used' j ≡ false
    → ((i : ℕ) → used i ≡ true → used' i ≡ true)
    → first_unused n used' k ≡ some j
unfolding first_unused
first_unused-same zero used used' k j e at still = absurd (ground arith)
first_unused-same (suc n) used used' k j e at still = elim (Bool-cases (used k)) [
  | inl v ↦ rw (still k v) (first_unused-same n used used' (k + 1) j (rw v at e) at still)
  | inr f ↦
      let at_k : k ≡ j = ap (λ (o : Option ℕ). elim o [ none ↦ k | some v ↦ v ]) (rw f at e) in
      rw (ap used' at_k ∙ at) (rw f at e)
]

pub first_unused-used :
    (n : ℕ) (used : ℕ → Bool) (k : ℕ)
    → ((i : ℕ) → k ≤ i → i < k + n → used i ≡ true)
    → first_unused n used k ≡ none
unfolding first_unused
first_unused-used zero used k all = refl
first_unused-used (suc n) used k all =
    rw (all k (omega arith) (omega arith))
      (first_unused-used n used (k + 1) (λ i lo hi. all i (omega arith) (omega arith)))
