-- ===== src/Containers.antt =====
-- What the virtual machine uses of the C++ containers: `std::set` as a list in ascending order,
-- `std::map` as a function, as the standard describes them.
use slate_language.Common.{
  ℕ, ◌≡◌, refl, true, ◌||◌, ◌&&◌, not, List, [], ◌∷◌, Option, none, some, ltb, ◌==◌, if◌then◌else◌,
  has, arith, update, ◌<◌, Bool-cases, inl, inr,
}

unfoldable pub set_insert : ℕ → List ℕ → List ℕ
set_insert x [] = x ∷ []
set_insert x (y ∷ ys) =
    if x == y then y ∷ ys else (if ltb x y then x ∷ y ∷ ys else y ∷ set_insert x ys)

unfoldable pub set_erase : ℕ → List ℕ → List ℕ
set_erase x [] = []
set_erase x (y ∷ ys) = if x == y then ys else y ∷ set_erase x ys

abbrev pub Map : Type 0 → Type 0
Map V = ℕ → Option V

abbrev pub empty_map : {V : Type 0} → Map V
empty_map k = none

abbrev pub map_get : {V : Type 0} → V → Map V → ℕ → V
map_get d f k = elim (f k) [ none ↦ d | some v ↦ v ]

abbrev pub map_set : {V : Type 0} → Map V → ℕ → V → Map V
map_set f k v = update f k (some v)

abbrev pub map_erase : {V : Type 0} → Map V → ℕ → Map V
map_erase f k = update f k none

pub has-set_insert : (x y : ℕ) (ys : List ℕ) → has x (set_insert y ys) ≡ (x == y || has x ys)
unfolding set_insert
has-set_insert x y [] = refl
has-set_insert x y (z ∷ zs) = ground (arith, has-set_insert x y zs)

-- Ascending, each element once.
abbrev pub Ascending : List ℕ → Type 0
Ascending [] = Unit
Ascending (x ∷ xs) = ((y : ℕ) → has y xs ≡ true → x < y) × Ascending xs

pub set_insert-Ascending : (x : ℕ) (xs : List ℕ) → Ascending xs → Ascending (set_insert x xs)
unfolding set_insert
set_insert-Ascending x [] a = (λ y h. absurd (ground arith), tt)
set_insert-Ascending x (y ∷ ys) a = elim (Bool-cases (x == y)) [
  | inl e ↦ rw e a
  | inr n ↦ elim (Bool-cases (ltb x y)) [
    | inl l ↦ rw (n, l) (λ z h. ground (arith, a.0 z), a)
    | inr g ↦
        rw (n, g)
          (λ z h. ground (arith, has-set_insert z x ys, a.0 z), set_insert-Ascending x ys a.1)
  ]
]

pub has-set_erase :
    (x y : ℕ) (ys : List ℕ) → Ascending ys → has x (set_erase y ys) ≡ (not (x == y) && has x ys)
unfolding set_erase
has-set_erase x y [] a = ground arith
has-set_erase x y (z ∷ zs) a = ground (arith, has-set_erase x y zs, a.0 x)
