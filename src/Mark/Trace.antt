-- ===== src/Mark/Trace.antt =====
-- The mark loop visits exactly what is reachable, and ends.
use slate_language.Common.{
  ℕ, ◌+◌, ◌≡◌, List, ◌∷◌, arith, Bool, true, false, not, ◌||◌, has, All, length, ==→eq, Bool-cases,
  inl, inr, ◌⊎◌, sym, ap, ◌∙◌, subst, has-All, All-has, All-mono, eq-cases,
}
use mathlib.Core.Bool.{false≢true, or-true}
use slate_language.Heap.{ObjectHeap, object_is_old}
use slate_language.Memory.Objects.{MarksOnly, WellFormed, pointers}
use slate_language.Mark.Step.{IsColor, is_marked, to_visit}
use slate_language.Mark.Fields.{
  mark_each, SameHeap, SameHeap-mark_each, is_marked-mark_each, MarksOnly-mark_each,
  mark_each_stack, mark_each_stacked,
}

-- Whether the loop goes on from an object: in a collection of the young space only, not from an
-- old one.
abbrev pub is_traced : ObjectHeap → Bool → ℕ → Bool
is_traced h mark_old o = mark_old || not (object_is_old h o)

-- Reachable from the objects of `objs` that were marked at the start.
pub data Reachable (h : ObjectHeap) (objs : List ℕ) (mark_old : Bool) : ℕ → Type 0 where
  marked : {o : ℕ} → has o objs ≡ true → is_marked h o ≡ true → Reachable h objs mark_old o
  field :
      {o f : ℕ}
      → Reachable h objs mark_old o
      → is_traced h mark_old o ≡ true
      → has f (pointers h.mem o) ≡ true
      → Reachable h objs mark_old f

module _ (start : ObjectHeap) (objs : List ℕ) (mark_old : Bool) where
  -- The state of the loop after any number of rounds.
  pub record Tracing (h : ObjectHeap) : Type 0 where
    pub frame : SameHeap start h
    pub marks : MarksOnly start.mem h.mem objs
    pub stacked : All (λ o. (has o objs ≡ true) × (is_marked h o ≡ true)) h.mark_stack
    pub grey :
        (o : ℕ)
        → is_marked h o ≡ true
        → has o objs ≡ true
        → is_traced start mark_old o ≡ true
        → (has o h.mark_stack ≡ true)
          ⊎ ((f : ℕ) → has f (pointers start.mem o) ≡ true → is_marked h f ≡ true)
    pub sound : (o : ℕ) → has o objs ≡ true → is_marked h o ≡ true → Reachable start objs mark_old o
    pub kept : (o : ℕ) → is_marked start o ≡ true → is_marked h o ≡ true

  module _ (w : WellFormed start.mem objs) (c : IsColor start.mark_color) where
    pub color : (h : ObjectHeap) → SameHeap start h → h.mark_color ≡ start.mark_color
    color h s = ap (λ (g : ObjectHeap). g.mark_color) s

    pub old :
        (h : ObjectHeap) (o : ℕ) → SameHeap start h → object_is_old h o ≡ object_is_old start o
    old h o s = ap (λ (g : ObjectHeap). object_is_old g o) s

    abbrev pub popped : ObjectHeap → List ℕ → ObjectHeap
    popped h rest = record h { mark_stack = rest }

    module _ (h : ObjectHeap) (obj : ℕ) (rest : List ℕ) (e : h.mark_stack ≡ obj ∷ rest)
        (t : Tracing h) where
      pub stacked' : All (λ o. (has o objs ≡ true) × (is_marked h o ≡ true)) (obj ∷ rest)
      unfolding is_marked
      stacked' = rw e at t.stacked

      pub pop_to_visit : to_visit (popped h rest) objs + 1 ≡ to_visit h objs
      unfolding to_visit
      pop_to_visit = omega (arith, ap length e)

      pub pop-IsColor : IsColor h.mark_color
      pop-IsColor = subst IsColor (sym (color h t.frame)) c

      pub pop_frame : SameHeap start (popped h rest)
      pop_frame = cc t.frame

      pop_has : (o : ℕ) → has o h.mark_stack ≡ true → (o ≡ obj) ⊎ (has o rest ≡ true)
      pop_has o s = ground (arith, ==→eq o obj)

      is_traced_congr :
          (o : ℕ) → o ≡ obj → is_traced start mark_old o ≡ is_traced start mark_old obj
      is_traced_congr o same = ap (is_traced start mark_old) same

      -- An old object is left unscanned in a collection of the young space.
      pub skip_round : is_traced start mark_old obj ≡ false → Tracing (popped h rest)
      unfolding is_marked
      skip_round skipped = record {
        frame = pop_frame;
        marks = t.marks;
        stacked = stacked'.1;
        grey = λ o m i tr. elim (t.grey o m i tr) [
          | inl s ↦ inl (elim (pop_has o s) [
            | inl same ↦ absurd (false≢true (sym skipped ∙ sym (is_traced_congr o same) ∙ tr))
            | inr r ↦ r
          ])
          | inr f ↦ inr f
        ];
        sound = t.sound;
        kept = t.kept;
      }

      unfoldable pub traced : ObjectHeap
      traced = mark_each (popped h rest) (pointers start.mem obj)

      traced_marked :
          (y : ℕ) → is_marked traced y ≡ (has y (pointers start.mem obj) || is_marked h y)
      unfolding traced is_marked
      traced_marked y = is_marked-mark_each (popped h rest) (pointers start.mem obj) y pop-IsColor

      traced_old : (y : ℕ) → is_marked h y ≡ true → is_marked traced y ≡ true
      traced_old y m = rw (traced_marked y, m) (or-true _)

      traced_new : (y : ℕ) → has y (pointers start.mem obj) ≡ true → is_marked traced y ≡ true
      traced_new y m = rw (traced_marked y, m)

      traced_stack :
          (y : ℕ)
          → (has y rest ≡ true → has y traced.mark_stack ≡ true)
            × (is_marked h y ≡ false → is_marked traced y ≡ true → has y traced.mark_stack ≡ true)
      unfolding traced is_marked
      traced_stack y = mark_each_stack (popped h rest) (pointers start.mem obj) y pop-IsColor

      traced_grey :
          (o : ℕ)
          → is_marked traced o ≡ true
          → has o objs ≡ true
          → is_traced start mark_old o ≡ true
          → (has o traced.mark_stack ≡ true)
            ⊎ ((f : ℕ) → has f (pointers start.mem o) ≡ true → is_marked traced f ≡ true)
      traced_grey o m i tr = elim (eq-cases o obj) [
        | inl same ↦
            inr (λ f p. traced_new f (subst (λ x. has f (pointers start.mem x) ≡ true) same p))
        | inr other ↦ elim (Bool-cases (is_marked h o)) [
          | inr new ↦ inl ((traced_stack o).1 new m)
          | inl was ↦ elim (t.grey o was i tr) [
            | inr fs ↦ inr (λ f p. traced_old f (fs f p))
            | inl s ↦ inl (
                (traced_stack o).0
                  (elim (pop_has o s) [ inl same ↦ absurd (other same) | inr r ↦ r ]))
          ]
        ]
      ]

      -- One round on an object that is traced.
      pub trace_round : is_traced start mark_old obj ≡ true → Tracing traced
      unfolding traced
      trace_round scanned = record {
        frame = SameHeap-mark_each start (popped h rest) (pointers start.mem obj) pop_frame;
        marks = MarksOnly-mark_each (popped h rest) _ (w.closed obj stacked'.0.0) t.marks;
        stacked =
            mark_each_stacked _ (popped h rest) _
              (All-has _ (pointers start.mem obj) (λ f p. (
                has-All (λ x. has x objs ≡ true) f (pointers start.mem obj)
                    (w.closed obj stacked'.0.0) p,
                traced_new f p,
              )))
              (All-mono rest (λ o p. (p.0, traced_old o p.1)) stacked'.1);
        grey = traced_grey;
        sound = λ o i m. elim (Bool-cases (has o (pointers start.mem obj))) [
          | inl p ↦ field (t.sound obj stacked'.0.0 stacked'.0.1) scanned p
          | inr p ↦ t.sound o i (ground (arith, traced_marked o))
        ];
        kept = λ o m. traced_old o (t.kept o m);
      }
