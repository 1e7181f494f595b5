-- ===== src/Dispatch/Cached.antt =====
-- A dispatch and the global method cache (method_dispatch_on in src/vm/method.cpp).
use slate_language.Common.{
  ℕ, suc, ◌+◌, ◌^◌, ◌<◌, ◌≡◌, refl, true, ◌&&◌, List, [], ◌∷◌, Option, none, some, length, map, leb,
  ◌==◌, arith, Option-cases, ap, ◌∙◌, sym, subst, inl, inr, length-set, if_elim, set,
}
use slate_language.Dispatch.{Search, def_slot_accessor}
use slate_language.Dispatch.Visit.{
  Call, Dispatched, DispatchState, argument_maps, check_cache, finish_dispatch, finish_with,
  method_dispatch_on, search_dispatch, visit_arguments, numbered, first_search, is_cached,
}
use slate_language.Memory.{object_hash, object_map}
use slate_language.MethodCache.{object_get_map}
use slate_language.MethodCache.Saved.{method_check_cache-save}
use slate_language.Word.{object_to_smallint}

length-map : (f : ℕ → ℕ) (xs : List ℕ) → length (map f xs) ≡ length xs
length-map f [] = refl
length-map f (x ∷ xs) = ap suc (length-map f xs)

-- The positions of the selector's methods are among the arguments.
abbrev pub MaskFits : Call → Dispatched → Type 0
MaskFits c r = object_to_smallint (r.state.mem (c.name + 32)) < 2 ^ length r.args

finish_with-cached :
    (c : Call) (s : DispatchState) (args : List ℕ) (w : Search) (def : ℕ)
    → MaskFits c (finish_with c s args w true def)
    → let r = finish_with c s args w true def in (check_cache c r.state r.args).1 ≡ some def
unfolding finish_with check_cache
finish_with-cached c s args w def fits =
    let r = finish_with c s args w true def in
    let maps = argument_maps c r.state.mem r.args in
    let mask = object_to_smallint (r.state.mem (c.name + 32)) in
    method_check_cache-save (object_hash r.state.mem) s.cache def c.name mask maps (
      subst (λ (n : ℕ). mask < 2 ^ n)
        (sym (
          length-map (object_get_map r.state.mem (object_map r.state.mem c.smallint_proto)) r.args))
        fits)

-- What is known of a dispatch that found `def` and was saved.
abbrev Remembered : Call → List ℕ → ℕ → Dispatched → Type 0
Remembered c args def r =
    ((check_cache c r.state r.args).1 ≡ some def) × (length r.args ≡ length args)

finish_with-length :
    (c : Call) (s : DispatchState) (args : List ℕ) (w : Search) (def : ℕ)
    → length (finish_with c s args w true def).args ≡ length args
unfolding finish_with
finish_with-length c s args w def =
    if_elim (λ (xs : List ℕ). length xs ≡ length args) (def_slot_accessor w.mem def == c.nil) args
      (set args 0 w.slot_location) (λ e. refl) (λ e. length-set args 0 w.slot_location)

finish_dispatch-Remembered :
    (c : Call) (s : DispatchState) (args : List ℕ) (w : Search) (def : ℕ)
    → (finish_dispatch c s args w true).method ≡ some def
    → MaskFits c (finish_dispatch c s args w true)
    → Remembered c args def (finish_dispatch c s args w true)
unfolding finish_dispatch finish_with
finish_dispatch-Remembered c s args w def is fits = elim (Option-cases w.dispatch) [
  | inl no_def ↦ absurd (ground (arith, no_def, is))
  | inr (d, one) ↦
      let same : finish_dispatch c s args w true ≡ finish_with c s args w true d = rw one refl in
      subst (λ (r : Dispatched). r.method ≡ some def → MaskFits c r → Remembered c args def r)
        (sym same)
        (λ found fit.
          (finish_with-cached c s args w d fit ∙ found, finish_with-length c s args w d))
        is fits
]

search_dispatch-Remembered :
    (fuel : ℕ) (c : Call) (s : DispatchState) (args : List ℕ) (r : Dispatched) (def : ℕ)
    → search_dispatch fuel c s args ≡ some r
    → r.method ≡ some def
    → c.resend ≡ 0
    → length args < 6
    → MaskFits c r
    → Remembered c args def r
unfolding search_dispatch
search_dispatch-Remembered fuel c s args r def e is no_resend few fits =
    elim (Option-cases
      (visit_arguments fuel c (numbered s).current_dispatch_id 0 (first_search c s) args)) [
        | inl stuck ↦ absurd (ground (arith, stuck, e))
        | inr ((early, w), v) ↦
            let saved : is_cached c args early ≡ true = ground (arith, no_resend, few) in
            let at : search_dispatch fuel c s args
                ≡ some (finish_dispatch c (numbered s) args w true) =
              rw (search_dispatch, v, saved) refl in
            let same : finish_dispatch c (numbered s) args w true ≡ r =
              ap (λ (o : Option Dispatched). elim o [ none ↦ r | some x ↦ x ]) (sym at ∙ e) in
            subst (λ (x : Dispatched). x.method ≡ some def → MaskFits c x → Remembered c args def x)
              same (finish_dispatch-Remembered c (numbered s) args w def) is fits
      ]

first_allowed :
    (c : Call) (args : List ℕ)
    → c.resend ≡ 0
    → length args < 6
    → (c.resend == 0 && leb (length args) 6) ≡ true
first_allowed c args no_resend few = ground (arith, no_resend, few)

-- Let a dispatch that is no resend, of fewer than six arguments that are not in the cache, find
-- a definition, and let the selector's cache mask then be below 2 to the power of their number.
-- Then the dispatch of the arguments it leaves finds the same definition, without a search even
-- with no fuel, changes neither the arguments nor the memory.
pub method_dispatch_on-again :
    (fuel again : ℕ) (c : Call) (s : DispatchState) (args : List ℕ) (r : Dispatched) (def : ℕ)
    → (check_cache c s args).1 ≡ none
    → method_dispatch_on fuel c s args ≡ some r
    → r.method ≡ some def
    → c.resend ≡ 0
    → length args < 6
    → MaskFits c r
    → (q : Dispatched) × ((method_dispatch_on again c r.state r.args ≡ some q)
        × ((q.method ≡ some def) × ((q.args ≡ r.args) × (q.state.mem ≡ r.state.mem))))
unfolding method_dispatch_on
method_dispatch_on-again fuel again c s args r def miss e is no_resend few fits =
    let searched : search_dispatch fuel c (record s { cache = (check_cache c s args).0 }) args
        ≡ some r =
      sym (rw (first_allowed c args no_resend few, miss) refl) ∙ e in
    let (hit, same) =
      search_dispatch-Remembered fuel c (record s { cache = (check_cache c s args).0 }) args r def
        searched is no_resend few fits in
    (
      record {
        state = record r.state { cache = (check_cache c r.state r.args).0 };
        args = r.args;
        method = some def;
      },
      (rw (first_allowed c r.args no_resend (rw same few), hit) refl, (refl, (refl, refl))),
    )
