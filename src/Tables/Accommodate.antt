-- ===== src/Tables/Accommodate.antt =====
-- The size that slot_table_accommodate and role_table_accommodate (src/vm/object.cpp) choose.
use slate_language.Common.{
  ℕ, zero, suc, ◌+◌, ◌*◌, ◌/◌, ◌≤◌, ◌<◌, ◌≡◌, refl, ◌&&◌, none, true, ◌^◌, some, ltb, ◌==◌,
  if◌then◌else◌, arith, Bool-cases, inl, inr, ltb→lt, ltb→ge, eq-cases, ◌≢◌,
}
use slate_language.Tables.{shrink, enlarge, accommodate, slot_table_accommodate}

shrink-le : (fuel size requested : ℕ) → size ≤ fuel → shrink fuel size requested ≤ requested
unfolding shrink
shrink-le zero size requested h = omega arith
shrink-le (suc n) size requested h = elim (Bool-cases (ltb requested size)) [
  | inl t ↦ rw t (shrink-le n (size / 2) requested (ground arith))
  | inr f ↦ rw f (ltb→ge requested size f)
]

-- A size that is not more than what is requested stays.
shrink_stays : (fuel size requested : ℕ) → size ≤ requested → shrink fuel size requested ≡ size
unfolding shrink
shrink_stays zero size requested h = refl
shrink_stays (suc n) size requested h = ground arith

shrink_positive :
    (fuel size requested : ℕ) → 1 ≤ requested → 1 ≤ size → 1 ≤ shrink fuel size requested
unfolding shrink
shrink_positive zero size requested r h = h
shrink_positive (suc n) size requested r h = elim (Bool-cases (ltb requested size)) [
  | inl t ↦ rw t (shrink_positive n (size / 2) requested r (ground arith))
  | inr f ↦ rw f h
]

enlarged : (fuel size requested : ℕ) → requested < size → enlarge fuel size requested ≡ some size
unfolding enlarge
enlarged zero size requested h = ground arith
enlarged (suc n) size requested h = ground arith

enlarge_enough :
    (fuel size requested : ℕ)
    → 1 ≤ size
    → requested ≤ size + fuel
    → requested ≤ 2 ^ 62
    → size ≤ requested
    → (r : ℕ) × (enlarge fuel size requested ≡ some r) × (requested ≤ r) × (r ≤ requested * 2)
unfolding enlarge
enlarge_enough zero size requested one h max le = (size, ground arith, omega arith, omega arith)
enlarge_enough (suc n) size requested one h max le = elim (Bool-cases (ltb size requested)) [
  | inl t ↦
      let small : ltb size (2 ^ 62) ≡ true = ground (arith, t) in
      elim (Bool-cases (ltb requested (size * 2))) [
        | inl over ↦ (
          size * 2,
          rw (t, small) (enlarged n (size * 2) requested (ltb→lt requested (size * 2) over)),
          ground arith,
          ground arith,
        )
        | inr under ↦
            rw (t, small)
              (enlarge_enough n (size * 2) requested (omega arith) (omega arith) max
                (ltb→ge requested (size * 2) under))
      ]
  | inr f ↦ (size, rw f refl, ltb→ge size requested f, omega arith)
]

started-le :
    (size requested : ℕ)
    → (if shrink size size requested == 0 && ltb 1 requested then 1 else shrink size size requested)
      ≤ requested
started-le size requested = ground (arith, shrink-le size size requested (omega arith))

started_positive :
    (size requested : ℕ)
    → 1 ≤ requested
    → (size ≡ 0 → requested ≢ 1)
    → 1 ≤ (
        if shrink size size requested == 0 && ltb 1 requested
        then 1
        else shrink size size requested)
started_positive zero requested r h =
    ground (arith, h refl, shrink_stays 0 0 requested (omega arith))
started_positive (suc n) requested r h =
    ground (arith, shrink_positive (suc n) (suc n) requested r (omega arith))

nothing_requested : (size : ℕ) → slot_table_accommodate size 0 ≡ some 0
unfolding slot_table_accommodate accommodate enlarge
nothing_requested size = ground (arith, shrink-le size size 0 (omega arith))

enlarge_zero : (fuel : ℕ) → enlarge fuel 0 1 ≡ none
unfolding enlarge
enlarge_zero zero = refl
enlarge_zero (suc n) = enlarge_zero n

-- For at most 2 ^ 62 requested entries, if it is not an empty table of which one entry is
-- requested, both loops end without an overflow, and the size they choose is at least the
-- requested one and at most twice that.
pub slot_table_accommodate_lem :
    (size requested : ℕ)
    → requested ≤ 2 ^ 62
    → (size ≡ 0 → requested ≢ 1)
    → (r : ℕ) × (slot_table_accommodate size requested ≡ some r)
      × (requested ≤ r)
      × (r ≤ requested * 2)
unfolding slot_table_accommodate accommodate
slot_table_accommodate_lem size requested max h = elim (eq-cases requested 0) [
  | inl z ↦ (0, rw z (nothing_requested size), omega arith, omega arith)
  | inr n ↦
      enlarge_enough requested _ requested (started_positive size requested (omega arith) h)
        (omega arith) max (started-le size requested)
]

-- For an empty table of which one entry is requested, the choice of the size does not end after
-- any number of doublings.
pub slot_table_accommodate_stuck : (fuel : ℕ) → accommodate fuel 0 1 ≡ none
unfolding accommodate shrink
slot_table_accommodate_stuck fuel = enlarge_zero fuel
