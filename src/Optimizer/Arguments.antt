-- ===== src/Optimizer/Arguments.antt =====
-- The tables of the operation codes (src/vm/optimizer.cpp) fit one another.
use slate_language.Common.{
  ℕ, ◌-◌, ◌/◌, ◌%◌, ◌^◌, ◌≤◌, ◌<◌, ◌≡◌, refl, true, arith, inl, inr, eq-cases, subst, sym, ◌⊎◌,
}
use slate_language.Optimizer.Opcodes.{
  opcode_base_length, opcode_jump_offset, opcode_can_jump, opcode_register_locations, op_jump_to,
  op_branch_if_true, op_branch_if_false, op_inline_primitive_check, op_inline_method_check,
}

-- For every word, the bits of its register arguments are below the bit of the number of its
-- base arguments: the registers are among the base arguments.
opcode_register_locations-base_length :
    (op : ℕ) → opcode_register_locations op < 2 ^ opcode_base_length op
unfolding opcode_register_locations opcode_base_length
opcode_register_locations-base_length op = ground arith

-- Where the jump of an operation stands.
abbrev JumpFits : ℕ → Type 0
JumpFits op =
    (1 ≤ opcode_jump_offset op)
    × (opcode_jump_offset op ≤ opcode_base_length op)
    × (opcode_register_locations op / 2 ^ (opcode_jump_offset op - 1) % 2 ≡ 0)

pub jump_ops :
    (op : ℕ)
    → opcode_can_jump op ≡ true
    → (op ≡ op_jump_to)
      ⊎ ((op ≡ op_branch_if_true)
          ⊎ ((op ≡ op_branch_if_false)
              ⊎ ((op ≡ op_inline_primitive_check) ⊎ (op ≡ op_inline_method_check))))
unfolding opcode_can_jump
jump_ops op jump = elim (eq-cases op op_jump_to) [
  | inl e ↦ inl e
  | inr a ↦ elim (eq-cases op op_branch_if_true) [
    | inl e ↦ inr (inl e)
    | inr b ↦ elim (eq-cases op op_branch_if_false) [
      | inl e ↦ inr (inr (inl e))
      | inr c ↦ elim (eq-cases op op_inline_primitive_check) [
        | inl e ↦ inr (inr (inr (inl e)))
        | inr d ↦ inr (inr (inr (inr (ground arith))))
      ]
    ]
  ]
]

-- The jump of an operation that can jump is one of its base arguments, and not a register.
pub opcode_jump_offset-base_length :
    (op : ℕ)
    → opcode_can_jump op ≡ true
    → (1 ≤ opcode_jump_offset op)
      × (opcode_jump_offset op ≤ opcode_base_length op)
      × (opcode_register_locations op / 2 ^ (opcode_jump_offset op - 1) % 2 ≡ 0)
unfolding opcode_jump_offset opcode_register_locations opcode_base_length
opcode_jump_offset-base_length op jump = elim (jump_ops op jump) [
  | inl e ↦ subst JumpFits (sym e) (omega arith, omega arith, refl)
  | inr (inl e) ↦ subst JumpFits (sym e) (omega arith, omega arith, refl)
  | inr (inr (inl e)) ↦ subst JumpFits (sym e) (omega arith, omega arith, refl)
  | inr (inr (inr (inl e))) ↦ subst JumpFits (sym e) (omega arith, omega arith, refl)
  | inr (inr (inr (inr e))) ↦ subst JumpFits (sym e) (omega arith, omega arith, refl)
]
