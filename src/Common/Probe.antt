-- ===== src/Common/Probe.antt =====
-- Probing in a table with open addressing: from a start to the end, and then from 0 to the start.
use Prim.Native.Nat.{ℕ, zero, suc, ◌+◌, ◌-◌, ◌≤◌, ◌<◌}
use mathlib.Core.Bool.{Bool, true, false, not, false≢true}
use mathlib.Core.Option.{Option, none, some}
use mathlib.Core.Path.{◌≡◌, refl, ap, sym, ◌∙◌}
use mathlib.Core.Logic.{◌≢◌, ◌⊎◌, inl, inr}
use native.Mathlib.Omega.{arith}
use slate_language.Common.Tests.{if◌then◌else◌, Bool-cases, eq-cases, Option-cases}
use slate_language.Common.Search.{
  first_unused, first_unused-some, first_unused-none, first_unused-same, first_unused-used,
}

-- A walk finds an entry, meets an empty one, or passes its range.
pub data Walk : Type 0 where
  found : ℕ → Walk
  ended : Walk
  passed : Walk

unfoldable pub walk : (ℕ → Bool) → (ℕ → Bool) → ℕ → ℕ → Walk
walk matches empty zero i = passed
walk matches empty (suc n) i =
    let rest = walk matches empty n (i + 1) in
    if matches i then found i else (if empty i then ended else rest)

abbrev pub wrapped : Walk → Walk → Option ℕ
wrapped (found i) again = some i
wrapped ended again = none
wrapped passed (found i) = some i
wrapped passed ended = none
wrapped passed passed = none

-- The entry that matches.
unfoldable pub probe : (ℕ → Bool) → (ℕ → Bool) → ℕ → ℕ → Option ℕ
probe matches empty size start =
    wrapped (walk matches empty (size - start) start) (walk matches empty start 0)

abbrev pub or_else : Option ℕ → Option ℕ → Option ℕ
or_else none b = b
or_else (some i) b = some i

-- The first empty entry.
unfoldable pub probe_empty : (ℕ → Bool) → ℕ → ℕ → Option ℕ
probe_empty empty size start =
    or_else (first_unused (size - start) (λ i. not (empty i)) start)
      (first_unused start (λ i. not (empty i)) 0)

Walk-cases : (w : Walk) → ((i : ℕ) × (w ≡ found i)) ⊎ ((w ≡ ended) ⊎ (w ≡ passed))
Walk-cases (found i) = inl (i, refl)
Walk-cases ended = inr (inl refl)
Walk-cases passed = inr (inr refl)

ended≢found : (j : ℕ) → ended ≢ found j
ended≢found j e = ground arith

ended≢passed : ended ≢ passed
ended≢passed e = ground arith

found≢passed : (i : ℕ) → found i ≢ passed
found≢passed i e = ground arith

-- A walk on a range without an empty entry does not end at one.
not_ended :
    (matches empty : ℕ → Bool) (n i : ℕ)
    → first_unused n (λ j. not (empty j)) i ≡ none
    → walk matches empty n i ≢ ended
unfolding walk first_unused
not_ended matches empty zero i f w = absurd (ended≢passed (sym w))
not_ended matches empty (suc n) i f w = elim (Bool-cases (matches i)) [
  | inl t ↦ absurd (ended≢found i (sym (rw t at w)))
  | inr mf ↦ elim (Bool-cases (empty i)) [
    | inl t ↦ absurd (ground (arith, rw (first_unused, t) at f))
    | inr ef ↦ not_ended matches empty n (i + 1) (rw (first_unused, ef) at f) (rw (mf, ef) at w)
  ]
]

-- The entry at `k` is filled.
module _ (matches empty matches' empty' : ℕ → Bool) (k : ℕ)
    (same : (j : ℕ) → j ≢ k → (matches' j ≡ matches j) × (empty' j ≡ empty j)) where
  -- A walk on a range without `k` is the same.
  walk_outside :
      (n i : ℕ)
      → ((j : ℕ) → i ≤ j → j < i + n → j ≢ k)
      → walk matches' empty' n i ≡ walk matches empty n i
  unfolding walk
  walk_outside zero i out = refl
  walk_outside (suc n) i out =
      let at_i = same i (out i (omega arith) (omega arith)) in
      rw (at_i.0, at_i.1, walk_outside n (i + 1) (λ j lo hi. out j (omega arith) (omega arith)))
        refl

  -- The walk that found nothing finds `k`, its first empty entry.
  walk_filled :
      (n i : ℕ)
      → matches' k ≡ true
      → ((j : ℕ) → walk matches empty n i ≢ found j)
      → first_unused n (λ j. not (empty j)) i ≡ some k
      → walk matches' empty' n i ≡ found k
  unfolding walk first_unused
  walk_filled zero i m absent f = absurd (ground arith)
  walk_filled (suc n) i m absent f = elim (eq-cases i k) [
    | inl e ↦ rw (e, m) refl
    | inr ne ↦
        let at_i = same i ne in
        elim (Bool-cases (matches i)) [
          | inl t ↦ absurd (absent i (rw (walk, t) refl))
          | inr mf ↦ elim (Bool-cases (empty i)) [
            | inl t ↦ absurd (
                ne (
                  ap (λ (o : Option ℕ). elim o [ none ↦ i | some v ↦ v ])
                    (rw (first_unused, t) at f)))
            | inr ef ↦
                rw (at_i.0, at_i.1, mf, ef)
                  (walk_filled n (i + 1) m (λ j w. absent j (rw (walk, mf, ef) w))
                    (rw (first_unused, ef) at f))
          ]
        ]
  ]

  -- A walk that stops before the empty entry `k` stops there again.
  walk_other :
      (n i j : ℕ)
      → matches' k ≡ false
      → matches k ≡ false
      → empty k ≡ true
      → walk matches empty n i ≡ found j
      → walk matches' empty' n i ≡ found j
  unfolding walk
  walk_other zero i j m' m e w = w
  walk_other (suc n) i j m' m e w = elim (eq-cases i k) [
    | inl at_k ↦ absurd (ended≢found j (rw (at_k, m, e) at w))
    | inr ne ↦
        let at_i = same i ne in
        elim (Bool-cases (matches i)) [
          | inl t ↦ rw (at_i.0, t) (rw t at w)
          | inr mf ↦ elim (Bool-cases (empty i)) [
            | inl t ↦ absurd (ended≢found j (rw (mf, t) at w))
            | inr ef ↦
                rw (at_i.0, at_i.1, mf, ef) (walk_other n (i + 1) j m' m e (rw (mf, ef) at w))
          ]
        ]
  ]

  -- And one that passes its range passes it again.
  walk_passed :
      (n i : ℕ)
      → matches' k ≡ false
      → matches k ≡ false
      → empty k ≡ true
      → walk matches empty n i ≡ passed
      → walk matches' empty' n i ≡ passed
  unfolding walk
  walk_passed zero i m' m e w = refl
  walk_passed (suc n) i m' m e w = elim (eq-cases i k) [
    | inl at_k ↦ absurd (ended≢passed (rw (at_k, m, e) at w))
    | inr ne ↦
        let at_i = same i ne in
        elim (Bool-cases (matches i)) [
          | inl t ↦ absurd (found≢passed i (rw t at w))
          | inr mf ↦ elim (Bool-cases (empty i)) [
            | inl t ↦ absurd (ended≢passed (rw (mf, t) at w))
            | inr ef ↦ rw (at_i.0, at_i.1, mf, ef) (walk_passed n (i + 1) m' m e (rw (mf, ef) at w))
          ]
        ]
  ]

  -- Another entry that was found is found again.
  pub probe_other :
      (size start j : ℕ)
      → matches' k ≡ false
      → matches k ≡ false
      → empty k ≡ true
      → probe matches empty size start ≡ some j
      → probe matches' empty' size start ≡ some j
  unfolding probe
  probe_other size start j m' m e p = elim (Walk-cases (walk matches empty (size - start) start)) [
    | inl (i, w) ↦ rw (probe, walk_other (size - start) start i m' m e w) (rw w at p)
    | inr (inl w) ↦ absurd (ground (arith, rw w at p))
    | inr (inr w) ↦ elim (Walk-cases (walk matches empty start 0)) [
      | inl (i, v) ↦
          rw (probe, walk_passed (size - start) start m' m e w, walk_other start 0 i m' m e v)
            (rw (w, v) at p)
      | inr (inl v) ↦ absurd (ground (arith, rw (w, v) at p))
      | inr (inr v) ↦ absurd (ground (arith, rw (w, v) at p))
    ]
  ]

  -- An entry that was not there is found where it was put.
  pub probe_filled :
      (size start : ℕ)
      → matches' k ≡ true
      → probe matches empty size start ≡ none
      → probe_empty empty size start ≡ some k
      → probe matches' empty' size start ≡ some k
  unfolding probe probe_empty
  probe_filled size start m p e =
      let free = λ (j : ℕ). not (empty j) in
      elim (Option-cases (first_unused (size - start) free start)) [
        | inr (i, f) ↦
            let at_k : i ≡ k =
              ap (λ (o : Option ℕ). elim o [ none ↦ i | some v ↦ v ]) (rw f at e) in
            rw
              (
                probe,
                walk_filled (size - start) start m
                    (λ j w. absurd (ground (arith, rw (probe, w) at p))) (f ∙ ap some at_k),
              )
              refl
        | inl f ↦
            let second : first_unused start free 0 ≡ some k = rw f at e in
            let at_k = first_unused-some start free 0 k second in
            let outside =
              walk_outside (size - start) start
                (λ j lo hi same_k. absurd (omega (arith, same_k, at_k.2))) in
            elim (Walk-cases (walk matches empty (size - start) start)) [
              | inl (i, w) ↦ absurd (ground (arith, rw w at p))
              | inr (inl w) ↦ absurd (not_ended matches empty (size - start) start f w)
              | inr (inr w) ↦
                  rw
                    (
                      probe,
                      outside,
                      w,
                      walk_filled start 0 m (λ j v. absurd (ground (arith, rw (w, v) at p))) second,
                    )
                    refl
            ]
      ]

-- What the search for an empty entry returns.
pub probe_empty_lem :
    (empty : ℕ → Bool) (size start k : ℕ)
    → start < size
    → probe_empty empty size start ≡ some k
    → (empty k ≡ true) × (k < size)
unfolding probe_empty
probe_empty_lem empty size start k lt e =
    let free = λ (j : ℕ). not (empty j) in
    elim (Option-cases (first_unused (size - start) free start)) [
      | inr (i, f) ↦
          let at_k : i ≡ k = ap (λ (o : Option ℕ). elim o [ none ↦ i | some v ↦ v ]) (rw f at e) in
          let r = first_unused-some (size - start) free start k (f ∙ ap some at_k) in
          (ground (arith, r.0), omega (arith, r.2))
      | inl f ↦
          let r = first_unused-some start free 0 k (rw f at e) in
          (ground (arith, r.0), omega (arith, r.2))
    ]

not_still : (a b : Bool) → (a ≡ false → b ≡ false) → not a ≡ true → not b ≡ true
not_still true b f u = absurd (false≢true u)
not_still false b f u = rw (f refl) refl

-- The same entry is found when no other one becomes empty.
pub probe_empty-same :
    (empty empty' : ℕ → Bool) (size start j : ℕ)
    → probe_empty empty size start ≡ some j
    → empty' j ≡ true
    → ((i : ℕ) → empty i ≡ false → empty' i ≡ false)
    → probe_empty empty' size start ≡ some j
unfolding probe_empty
probe_empty-same empty empty' size start j e at still =
    let free = λ (i : ℕ). not (empty i) in
    let free' = λ (i : ℕ). not (empty' i) in
    let at' : free' j ≡ false = rw at refl in
    let still' = λ (i : ℕ) (u : free i ≡ true). not_still (empty i) (empty' i) (still i) u in
    elim (Option-cases (first_unused (size - start) free start)) [
      | inr (i, f) ↦
          let here : i ≡ j = ap (λ (o : Option ℕ). elim o [ none ↦ i | some v ↦ v ]) (rw f at e) in
          rw (first_unused-same (size - start) free free' start j (f ∙ ap some here) at' still')
            refl
      | inl f ↦
          let used = λ (i : ℕ) (lo : start ≤ i) (hi : i < start + (size - start)).
            still' i (first_unused-none (size - start) free start f i lo hi) in
          rw (first_unused-used (size - start) free' start used)
            (first_unused-same start free free' 0 j (rw f at e) at' still')
    ]
