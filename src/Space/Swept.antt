-- ===== src/Space/Swept.antt =====
-- What a sweep promises for the blocks from `obj` on, after the block `prev`; and how the promise
-- for the rest of the region gives that for one block more.
use slate_language.Common.{
  ℕ, ◌+◌, ◌≤◌, ◌<◌, ◌≡◌, refl, Bool, true, false, List, [], ◌∷◌, arith, All, Bool-cases, inl, inr,
  ap, sym, ◌∙◌, ◌⊎◌, leb,
}
use mathlib.Core.Bool.{false≢true}
use slate_language.Header
use slate_language.Header.{id_hash_reserved}
use slate_language.Memory.{Memory, object_is_free, object_word_size, object_after}
use slate_language.Memory.Frame.{SameSizes, object_after_congr, object_word_size_congr}
use slate_language.Space.Blocks.{Tiles, SameFrom, SameFrom-SameSizes, object_after-ge, Tiles-le}
use slate_language.Space.Sweep.{is_garbage, merged, SameFrom-is_garbage, SameFrom-merged}

-- The words of every live object of `os` are as before.
abbrev pub Kept : Memory → ℕ → Memory → List ℕ → Type 0
Kept m c n os =
    All (λ o. is_garbage m c o ≡ false → (a : ℕ) → o ≤ a → a < object_after m o → n a ≡ m a) os

-- The blocks `bs` are free or used as they were garbage or live.
abbrev pub Freed : Memory → ℕ → Memory → List ℕ → Type 0
Freed m c n bs = All (λ o. object_is_free n o ≡ is_garbage m c o) bs

pub record Swept (m : Memory) (c prev end : ℕ) (after_free : Bool) (obj : ℕ) (os : List ℕ)
    (n : Memory) : Type 0 where
  pub tiles : Tiles n prev (prev ∷ merged m c after_free os) end
  pub prev_free : object_is_free n prev ≡ after_free
  pub below : (a : ℕ) → a < prev → n a ≡ m a
  pub above : (a : ℕ) → end ≤ a → n a ≡ m a
  pub prev_kept : after_free ≡ false → (a : ℕ) → a < obj → n a ≡ m a
  pub kept : Kept m c n os
  pub freed : Freed m c n (merged m c after_free os)

module _ (m k n : Memory) (c : ℕ) where
  pub SameFrom-Kept :
      (s : ℕ) (os : List ℕ) (e : ℕ)
      → SameFrom m k s
      → Tiles m s os e
      → Kept k c n os
      → Kept m c n os
  SameFrom-Kept s [] e same t h = tt
  SameFrom-Kept s (o ∷ os) e same t h = (
    λ live a lo hi.
        h.0 (SameFrom-is_garbage m k s c o same (omega arith) ∙ live) a lo
          (rw (object_after_congr o (SameFrom-SameSizes s o same (omega arith))) hi)
        ∙ same a (omega arith),
    SameFrom-Kept (object_after m o) os e (λ a le. same a (omega (arith, object_after-ge m o t.1)))
        t.2 h.1,
  )

  pub SameFrom-Freed :
      (s : ℕ) (f : Bool) (os : List ℕ) (e : ℕ)
      → SameFrom m k s
      → Tiles m s os e
      → Freed k c n (merged k c f os)
      → Freed m c n (merged m c f os)
  unfolding merged
  SameFrom-Freed s f [] e same t h = tt
  SameFrom-Freed s true (o ∷ os) e same t h =
      let rest = λ (f' : Bool).
        SameFrom-Freed (object_after m o) f' os e
          (λ a le. same a (omega (arith, object_after-ge m o t.1))) t.2 in
      let eq = SameFrom-is_garbage m k s c o same (omega arith) in
      elim (Bool-cases (is_garbage m c o)) [
        | inl g ↦
            let h' : Freed k c n (merged k c true os) = rw (eq, g) at h in rw g ((rest true h'))
        | inr g ↦
            let h' : Freed k c n (o ∷ merged k c false os) = rw (eq, g) at h in
            rw g (h'.0 ∙ eq, rest false h'.1)
      ]
  SameFrom-Freed s false (o ∷ os) e same t h =
      let rest = λ (f' : Bool).
        SameFrom-Freed (object_after m o) f' os e
          (λ a le. same a (omega (arith, object_after-ge m o t.1))) t.2 in
      let eq = SameFrom-is_garbage m k s c o same (omega arith) in
      elim (Bool-cases (is_garbage m c o)) [
        | inl g ↦
            let h' : Freed k c n (o ∷ merged k c true os) = rw (eq, g) at h in
            rw g ((h'.0 ∙ eq, rest true h'.1))
        | inr g ↦
            let h' : Freed k c n (o ∷ merged k c false os) = rw (eq, g) at h in
            rw g (h'.0 ∙ eq, rest false h'.1)
      ]

-- The block `prev` keeps its sizes when no word below the next block changes.
pub SameBelow-SameSizes :
    {m n : Memory} (prev o : ℕ) → ((a : ℕ) → a < o → n a ≡ m a) → prev + 32 ≤ o → SameSizes m n prev
unfolding Header.format
SameBelow-SameSizes prev o same le = record {
  type = ground (arith, same prev (omega arith));
  size = same (prev + 8) (omega arith);
  payload = same (prev + 16) (omega arith);
}

merged_alone :
    (m : Memory) (c o : ℕ) (os : List ℕ) (f g : Bool)
    → is_garbage m c o ≡ g
    → (f ≡ false) ⊎ (g ≡ false)
    → merged m c f (o ∷ os) ≡ o ∷ merged m c g os
unfolding merged
merged_alone m c o os f false hg a = rw hg
merged_alone m c o os false true hg a = rw hg
merged_alone m c o os true true hg (inl x) = absurd (false≢true (sym x))
merged_alone m c o os true true hg (inr x) = absurd (false≢true (sym x))

module _ (m k n : Memory) (c prev o e : ℕ) (os : List ℕ) (next : object_after m prev ≡ o)
    (room : 4 ≤ object_word_size m prev) (t : Tiles m o (o ∷ os) e) where
  prev_room : prev + 32 ≤ o
  prev_room = omega (arith, object_after-ge m prev room)

  o_room : o + 32 ≤ object_after m o
  o_room = object_after-ge m o t.1

  after-le : object_after m o ≤ e
  after-le = Tiles-le m (object_after m o) os e t.2

  -- A block that is not joined to `prev`.
  pub alone-Swept :
      (f g : Bool)
      → object_is_free m prev ≡ f
      → is_garbage m c o ≡ g
      → (f ≡ false) ⊎ (g ≡ false)
      → ((a : ℕ) → a < o → k a ≡ m a)
      → SameFrom m k (o + 32)
      → (g ≡ false → (a : ℕ) → k a ≡ m a)
      → Swept k c o e g (object_after m o) os n
      → Swept m c prev e f o (o ∷ os) n
  alone-Swept f g hf hg alone low high live s =
      let from : SameFrom m k (object_after m o) = λ a le. high a (omega (arith, o_room)) in
      let eq = merged_alone m c o os f g hg alone in
      let under : (a : ℕ) → a < o → n a ≡ m a = λ a lt. s.below a lt ∙ low a lt in
      let sizes = SameBelow-SameSizes prev o under prev_room in
      let tiles = rw (SameFrom-merged m k (object_after m o) c g os e from t.2) at s.tiles in
      let freed = SameFrom-Freed m k n c (object_after m o) g os e from t.2 s.freed in
      record {
        tiles = rw eq (
          refl,
          rw (object_word_size_congr prev sizes) room,
          (sym next ∙ sym (object_after_congr prev sizes), tiles.1, tiles.2),
        );
        prev_free =
            ap (λ (v : ℕ). leb id_hash_reserved (Header.hash v))
              (under prev (omega (arith, prev_room)))
            ∙ hf;
        below = λ a lt. under a (omega (arith, prev_room));
        above = λ a le. s.above a le ∙ high a (omega (arith, o_room, after-le));
        prev_kept = λ _ a lt. under a lt;
        kept = (
          λ l a lo hi. s.prev_kept (sym hg ∙ l) a hi ∙ live (sym hg ∙ l) a,
          SameFrom-Kept m k n c (object_after m o) os e from t.2 s.kept,
        );
        freed = rw eq (s.prev_free ∙ sym hg, freed);
      }

  -- A free block that is joined to the free block `prev`.
  pub joined-Swept :
      is_garbage m c o ≡ true
      → ((a : ℕ) → a < prev → k a ≡ m a)
      → SameFrom m k (o + 32)
      → Swept k c prev e true (object_after m o) os n
      → Swept m c prev e true o (o ∷ os) n
  unfolding merged
  joined-Swept hg low high s =
      let from : SameFrom m k (object_after m o) = λ a le. high a (omega (arith, o_room)) in
      record {
        tiles = rw hg (rw (SameFrom-merged m k (object_after m o) c true os e from t.2) at s.tiles);
        prev_free = s.prev_free;
        below = λ a lt. s.below a lt ∙ low a lt;
        above = λ a le. s.above a le ∙ high a (omega (arith, o_room, after-le));
        prev_kept = λ f. absurd (false≢true (sym f));
        kept = (
          λ l. absurd (false≢true (sym l ∙ hg)),
          SameFrom-Kept m k n c (object_after m o) os e from t.2 s.kept,
        );
        freed = rw hg (SameFrom-Freed m k n c (object_after m o) true os e from t.2 s.freed);
      }
