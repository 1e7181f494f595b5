-- ===== src/Memory/Bytes.antt =====
-- The bytes of a memory of words, and those of a byte array (byte_array_elements and the access to
-- elements in src/vm/object.cpp). The lowest byte of a word comes first.
use slate_language.Common.{
  ℕ, zero, suc, ◌+◌, ◌-◌, ◌*◌, ◌/◌, ◌%◌, ◌≡◌, ◌≢◌, refl, List, [], ◌∷◌, arith, ◌<◌, length, get_or,
  ◌==◌, if◌then◌else◌, update, update_self, update_other, eq-cases, inl, inr, ap, ◌∙◌, sym,
  ==-eq_false,
}
use slate_language.Memory.{Memory, object_array_offset}

-- The byte at a place of a word, and the word with another one there.
unfoldable pub digit : ℕ → ℕ → ℕ
digit word zero = word % 256
digit word (suc i) = digit (word / 256) i

unfoldable pub set_digit : ℕ → ℕ → ℕ → ℕ
set_digit word zero v = word - word % 256 + v % 256
set_digit word (suc i) v = word % 256 + set_digit (word / 256) i v * 256

unfoldable pub byte : Memory → ℕ → ℕ
unfolding digit
byte m a = digit (m (a - a % 8)) (a % 8)

unfoldable pub set_byte : Memory → ℕ → ℕ → Memory
unfolding set_digit
set_byte m a v = update m (a - a % 8) (set_digit (m (a - a % 8)) (a % 8) v)

unfoldable pub byte_array_elements : Memory → ℕ → ℕ
unfolding object_array_offset
byte_array_elements m o = o + object_array_offset m o

-- `n` bytes from `src` to `dst`, which do not overlap.
unfoldable pub copy_bytes : ℕ → Memory → ℕ → ℕ → Memory
unfolding byte set_byte
copy_bytes zero m src dst = m
copy_bytes (suc n) m src dst = copy_bytes n (set_byte m dst (byte m src)) (src + 1) (dst + 1)

-- Bytes that follow one another.
unfoldable pub write_bytes : Memory → ℕ → List ℕ → Memory
unfolding set_byte
write_bytes m a [] = m
write_bytes m a (x ∷ xs) = write_bytes (set_byte m a x) (a + 1) xs

digit-set_digit :
    (w i j v : ℕ) → digit (set_digit w i v) j ≡ (if i == j then v % 256 else digit w j)
unfolding digit set_digit
digit-set_digit w zero zero v = omega arith
digit-set_digit w zero (suc j) v =
    let high : (w - w % 256 + v % 256) / 256 ≡ w / 256 = omega arith in
    ap (λ (x : ℕ). digit x j) high ∙ ground arith
digit-set_digit w (suc i) zero v = ground arith
digit-set_digit w (suc i) (suc j) v =
    let high : (w % 256 + set_digit (w / 256) i v * 256) / 256 ≡ set_digit (w / 256) i v =
      omega arith in
    ap (λ (x : ℕ). digit x j) high ∙ digit-set_digit (w / 256) i j v ∙ ground arith

pub byte-set_byte :
    (m : Memory) (a b v : ℕ) → byte (set_byte m a v) b ≡ (if a == b then v % 256 else byte m b)
unfolding byte set_byte
byte-set_byte m a b v = elim (eq-cases (a - a % 8) (b - b % 8)) [
  | inl same ↦
      let word = set_digit (m (a - a % 8)) (a % 8) v in
      let hit : update m (a - a % 8) word (b - b % 8) ≡ word =
        ap (update m (a - a % 8) word) (sym same) ∙ update_self m (a - a % 8) word in
      ap (λ (x : ℕ). digit x (b % 8)) hit
      ∙ digit-set_digit (m (a - a % 8)) (a % 8) (b % 8) v
      ∙ elim (eq-cases a b) [
        | inl e ↦ ground arith
        | inr n ↦
            let apart : a % 8 ≢ b % 8 = λ e. absurd (omega (arith, e, same, n)) in
            rw (==-eq_false (a % 8) (b % 8) apart, ==-eq_false a b n, same) refl
      ]
  | inr other ↦
      let apart : a ≢ b = λ e. absurd (other (ap (λ (x : ℕ). x - x % 8) e)) in
      ap (λ (x : ℕ). digit x (b % 8))
        (update_other m (a - a % 8) (set_digit (m (a - a % 8)) (a % 8) v) (b - b % 8)
          (λ e. absurd (other (sym e))))
      ∙ rw (==-eq_false a b apart) refl
]

-- Whole words outside the byte's stay.
pub set_byte_other : (m : Memory) (a v x : ℕ) → x ≢ a - a % 8 → set_byte m a v x ≡ m x
unfolding set_byte
set_byte_other m a v x n = update_other m (a - a % 8) (set_digit (m (a - a % 8)) (a % 8) v) x n

pub byte-write_bytes_below :
    (m : Memory) (a b : ℕ) (xs : List ℕ) → b < a → byte (write_bytes m a xs) b ≡ byte m b
unfolding write_bytes
byte-write_bytes_below m a b [] lt = refl
byte-write_bytes_below m a b (x ∷ xs) lt =
    byte-write_bytes_below (set_byte m a x) (a + 1) b xs (omega arith)
    ∙ byte-set_byte m a b x
    ∙ rw (==-eq_false a b (λ e. absurd (omega (arith, e)))) refl

-- The bytes stand where they were written.
pub byte-write_bytes :
    (m : Memory) (a k : ℕ) (xs : List ℕ)
    → k < length xs
    → byte (write_bytes m a xs) (a + k) ≡ get_or xs k 0 % 256
unfolding write_bytes
byte-write_bytes m a k [] lt = absurd (omega arith)
byte-write_bytes m a zero (x ∷ xs) lt =
    byte-write_bytes_below (set_byte m a x) (a + 1) (a + 0) xs (omega arith)
    ∙ byte-set_byte m a (a + 0) x
    ∙ ground arith
byte-write_bytes m a (suc k) (x ∷ xs) lt =
    ap (byte (write_bytes (set_byte m a x) (a + 1) xs)) (omega arith)
    ∙ byte-write_bytes (set_byte m a x) (a + 1) k xs (omega arith)

-- Words before the written ones stay.
pub write_bytes_before :
    (m : Memory) (a x : ℕ) (xs : List ℕ) → x < a - a % 8 → write_bytes m a xs x ≡ m x
unfolding write_bytes
write_bytes_before m a x [] lt = refl
write_bytes_before m a x (y ∷ ys) lt =
    write_bytes_before (set_byte m a y) (a + 1) x ys (omega arith)
    ∙ set_byte_other m a y x (λ e. absurd (omega (arith, e)))
