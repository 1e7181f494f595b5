-- ===== src/Optimizer/Edits.antt =====
-- What inserting and deleting code does to the words around it (src/vm/optimizer.cpp).
use slate_language.Common.{
  ℕ, zero, suc, ◌+◌, ◌≤◌, ◌<◌, ◌≡◌, refl, Bool, true, ◌≢◌, get_or-set, sym, ==_refl, ==-eq_false,
  ◌&&◌, List, [], ◌∷◌, ◌++◌, length, get_or, take, drop, ltb, leb, arith, length-append,
  length-take, length-drop, length-set, Bool-cases, inl, inr, ◌∙◌, ap, if_elim,
}
use slate_language.Optimizer.Arguments.{jump_ops, opcode_jump_offset-base_length}
use slate_language.Optimizer.Opcodes.{
  code_at, opcode_arg_length, opcode_can_jump, opcode_jump_offset, opcode_length,
}
use slate_language.Optimizer.{
  optimizer_offset_value, fix_jumps, jump_target, optimizer_insert_code, optimizer_delete_code,
}
use slate_language.Word.Tagging.{smallint_fits_object_iff}
use slate_language.Word.{
  add_word, sub_word, object_to_smallint, smallint_to_object, smallint_fits_object,
}

length-offset_value :
    (code : List ℕ) (pos offset : ℕ) → length (optimizer_offset_value code pos offset) ≡ length code
unfolding optimizer_offset_value
length-offset_value code pos offset = length-set code pos _

length-fix_jumps :
    (fuel : ℕ) (range : ℕ → Bool) (amount end i : ℕ) (code : List ℕ)
    → length (fix_jumps fuel range amount end i code) ≡ length code
unfolding fix_jumps
length-fix_jumps zero range amount end i code = refl
length-fix_jumps (suc fuel) range amount end i code = elim (Bool-cases (ltb i end)) [
  | inr f ↦ rw (fix_jumps, f) refl
  | inl t ↦
      rw (fix_jumps, t)
        (length-fix_jumps fuel range amount end _ _
          ∙ if_elim (λ (c : List ℕ). length c ≡ length code)
              (opcode_can_jump (code_at code i) && range (jump_target code i)) _ code
              (λ _. length-offset_value code _ amount) (λ _. refl))
]

get_or-before : (xs ys : List ℕ) (i : ℕ) → i < length xs → get_or (xs ++ ys) i 0 ≡ get_or xs i 0
get_or-before [] ys i lt = absurd (omega arith)
get_or-before (x ∷ xs) ys zero lt = refl
get_or-before (x ∷ xs) ys (suc i) lt = get_or-before xs ys i (omega arith)

add_suc : (n i : ℕ) → suc n + i ≡ suc (n + i)
add_suc n i = omega arith

get_or-inserted :
    (offset : ℕ) (code new_code : List ℕ) (i : ℕ)
    → offset ≤ length code
    → i < length new_code
    → get_or (take offset code ++ new_code ++ drop offset code) (offset + i) 0 ≡ get_or new_code i 0
unfolding take drop
get_or-inserted zero code new_code i le lt =
    ap (λ (j : ℕ). get_or (new_code ++ code) j 0) (omega arith) ∙ get_or-before new_code code i lt
get_or-inserted (suc n) [] new_code i le lt = absurd (omega arith)
get_or-inserted (suc n) (c ∷ code) new_code i le lt =
    ap (λ (j : ℕ). get_or (c ∷ (take n code ++ new_code ++ drop n code)) j 0) (add_suc n i)
    ∙ get_or-inserted n code new_code i (omega arith) lt

length-inserted :
    (offset : ℕ) (code new_code : List ℕ)
    → offset ≤ length code
    → length (take offset code ++ new_code ++ drop offset code) ≡ length code + length new_code
length-inserted offset code new_code le = omega (
  arith,
  length-append (take offset code ++ new_code) (drop offset code),
  length-append (take offset code) new_code,
  length-take offset code le,
  length-drop offset code,
)

-- Inserting code at an offset that is at most the length of the code makes it longer by the
-- length of the new code, and the new code stands at the offset, word for word.
optimizer_insert_code_lem :
    (code new_code : List ℕ) (offset : ℕ)
    → offset ≤ length code
    → let r = optimizer_insert_code code offset new_code in
      (length r ≡ length code + length new_code)
      × ((i : ℕ) → i < length new_code → get_or r (offset + i) 0 ≡ get_or new_code i 0)
unfolding optimizer_insert_code
optimizer_insert_code_lem code new_code offset le =
    let over = fix_jumps (offset + 1) (λ t. ltb offset t) (length new_code) offset 0 code in
    let back =
      fix_jumps (length code + 1) (λ t. ltb t offset) (sub_word 0 (length new_code)) (length code)
        offset over in
    let same : length back ≡ length code =
      length-fix_jumps (length code + 1) (λ t. ltb t offset) (sub_word 0 (length new_code))
        (length code) offset over
      ∙ length-fix_jumps (offset + 1) (λ t. ltb offset t) (length new_code) offset 0 code in
    (
      length-inserted offset back new_code (omega (arith, same)) ∙ omega (arith, same),
      λ i lt. get_or-inserted offset back new_code i (omega (arith, same)) lt,
    )

-- Deleting an amount of words that lie inside the code makes it shorter by that amount.
optimizer_delete_code_lem :
    (code : List ℕ) (offset amount : ℕ)
    → offset + amount ≤ length code
    → length (optimizer_delete_code code offset amount) + amount ≡ length code
unfolding optimizer_delete_code
optimizer_delete_code_lem code offset amount le =
    let over = fix_jumps (offset + 1) (λ t. ltb offset t) (sub_word 0 amount) offset 0 code in
    let back = fix_jumps (length code + 1) (λ t. leb t offset) amount (length code) offset over in
    let same : length back ≡ length code =
      length-fix_jumps (length code + 1) (λ t. leb t offset) amount (length code) offset over
      ∙ length-fix_jumps (offset + 1) (λ t. ltb offset t) (sub_word 0 amount) offset 0 code in
    omega (
      arith,
      length-append (take offset back) (drop (offset + amount) back),
      length-take offset back (omega (arith, same)),
      length-drop (offset + amount) back,
      same,
    )

-- The place of the jump's parameter.
abbrev pub parameter_at : List ℕ → ℕ → ℕ
parameter_at code i = i + opcode_jump_offset (code_at code i)

-- The number of arguments does not depend on the jump's parameter.
same_arguments :
    (code moved : List ℕ) (i : ℕ)
    → opcode_can_jump (code_at code i) ≡ true
    → code_at moved i ≡ code_at code i
    → ((k : ℕ) → k ≢ parameter_at code i → code_at moved k ≡ code_at code k)
    → opcode_arg_length moved i ≡ opcode_arg_length code i
unfolding opcode_arg_length opcode_jump_offset
same_arguments code moved i jump op others = elim (jump_ops (code_at code i) jump) [
  | inl e ↦ rw (op, e) refl
  | inr (inl e) ↦ rw (op, e) refl
  | inr (inr (inl e)) ↦ rw (op, e) refl
  | inr (inr (inr (inl e))) ↦
      let at_5 : opcode_jump_offset (code_at code i) ≡ 5 = ap opcode_jump_offset e in
      let same : code_at moved (i + 4) ≡ code_at code (i + 4) =
        others (i + 4) (λ q. absurd (omega (arith, q, at_5))) in
      rw (op, e, same) refl
  | inr (inr (inr (inr e))) ↦
      let at_3 : opcode_jump_offset (code_at code i) ≡ 3 = ap opcode_jump_offset e in
      let same : code_at moved (i + 2) ≡ code_at code (i + 2) =
        others (i + 2) (λ q. absurd (omega (arith, q, at_3))) in
      rw (op, e, same) refl
]

-- Let the instruction at a place be one that can jump, with its parameter inside the code, and
-- let the parameter and an amount have a sum that fits in a small integer. Then offsetting the
-- parameter by the amount moves the target of the jump by it, round 2 ^ 64, and leaves the
-- length of the code and every other word.
pub jump_target-offset_value :
    (code : List ℕ) (i amount : ℕ)
    → opcode_can_jump (code_at code i) ≡ true
    → parameter_at code i < length code
    → smallint_fits_object
        (add_word (object_to_smallint (code_at code (parameter_at code i))) amount)
      ≡ true
    → let moved = optimizer_offset_value code (parameter_at code i) amount in
      (jump_target moved i ≡ add_word (jump_target code i) amount)
      × (length moved ≡ length code)
      × ((k : ℕ) → k ≢ parameter_at code i → code_at moved k ≡ code_at code k)
unfolding jump_target optimizer_offset_value opcode_length
jump_target-offset_value code i amount jump inside small =
    let place = parameter_at code i in
    let parameter = object_to_smallint (code_at code place) in
    let written = smallint_to_object (add_word parameter amount) in
    let moved = optimizer_offset_value code place amount in
    let others : (k : ℕ) → k ≢ place → code_at moved k ≡ code_at code k = λ k n.
      get_or-set code place k written 0 inside ∙ rw (==-eq_false place k (λ e. n (sym e))) refl in
    let behind = (opcode_jump_offset-base_length (code_at code i) jump).0 in
    let op : code_at moved i ≡ code_at code i = others i (λ e. absurd (omega (arith, e, behind))) in
    let new : object_to_smallint (code_at moved place) ≡ add_word parameter amount =
      ap object_to_smallint (get_or-set code place place written 0 inside ∙ rw (==_refl place) refl)
      ∙ (smallint_fits_object_iff (add_word parameter amount) (omega arith)).0 small in
    (
      rw (op, same_arguments code moved i jump op others, new) (omega arith),
      length-offset_value code place amount,
      others,
    )
