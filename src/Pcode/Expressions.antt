-- ===== src/Pcode/Expressions.antt =====
-- core/pcode.py: `_expr`, `_call` and `_stmt`, which lower AIL to operations.
use angr_ghidra_core.Prelude.{
  ℕ, ◌/◌, Bool, true, false, List, [], ◌∷◌, Option, none, some, ltb, ◌==◌, if◌then◌else◌,
}
use angr_ghidra_core.Prelude.Int.{ℤ, pos}
use Prim.Native.String.{String}
use text.Mathlib.Text.{◌==◌ as str_eq}
use angr_ghidra_core.Pcode.{
  copy, branch, cbranch, call_op, return_op, int_equal, int_notequal, int_sless, int_less, int_zext,
  int_sext, int_add, int_sub, int_2comp, int_negate, int_xor, int_and, int_or, int_left, int_right,
  int_sright, int_mult, bool_and, bool_or, subpiece,
}
use angr_ghidra_core.Pcode.Ail.{
  Expr, virtual_variable, const, binary_op, unary_op, convert, load, call, unmodelled, Exprs, nil,
  cons, Operand, absent, present, Statement, assignment, store, conditional_jump, jump, ret,
  call_statement, ignored,
}
use angr_ghidra_core.Pcode.State.{Step, ◌>>=◌, pure, new_const, temp, or_else, Lookup, vvar, emit}

-- `_BINOP.get(op)`
unfoldable pub binop : String → Option ℕ
binop op =
    if str_eq op "Add"
    then some int_add
    else if str_eq op "Sub"
    then some int_sub
    else if str_eq op "Mul"
    then some int_mult
    else if str_eq op "And"
    then some int_and
    else if str_eq op "Or"
    then some int_or
    else if str_eq op "Xor"
    then some int_xor
    else if str_eq op "Shl"
    then some int_left
    else if str_eq op "Shr"
    then some int_right
    else if str_eq op "Sar"
    then some int_sright
    else if str_eq op "CmpEQ"
    then some int_equal
    else if str_eq op "CmpNE"
    then some int_notequal
    else if str_eq op "CmpLT"
    then some int_less
    else if str_eq op "CmpLE"
    then some int_less
    else if str_eq op "CmpGT"
    then some int_less
    else if str_eq op "CmpGE"
    then some int_less
    else if str_eq op "CmpLTs"
    then some int_sless
    else if str_eq op "CmpLEs"
    then some int_sless
    else if str_eq op "CmpGTs"
    then some int_sless
    else if str_eq op "CmpGEs"
    then some int_sless
    else if str_eq op "LogicalAnd"
    then some bool_and
    else if str_eq op "LogicalOr"
    then some bool_or
    else none

abbrev pub opcode_or_copy : Option ℕ → ℕ
opcode_or_copy none = copy
opcode_or_copy (some opcode) = opcode

unfoldable pub unop : String → ℕ
unop op =
    if str_eq op "Neg"
    then int_2comp
    else if str_eq op "Not"
    then int_negate
    else if str_eq op "BitwiseNeg"
    then int_negate
    else copy

-- `_const_value`
abbrev pub const_value : Option ℤ → ℤ
const_value none = pos 0
const_value (some v) = v

-- `_ins_addr(e) or ins_addr`
abbrev pub own_addr : ℕ → ℕ → ℕ
own_addr tag ins_addr = if tag == 0 then ins_addr else tag

abbrev pub bytes_of_bits : ℕ → ℕ
bytes_of_bits to_bits = (if to_bits == 0 then 8 else to_bits) / 8

abbrev pub is_shorter : ℕ → ℕ → Bool
is_shorter from_bits to_bits = ltb to_bits from_bits

abbrev pub convert_opcode : ℕ → ℕ → Bool → ℕ
convert_opcode from_bits to_bits is_signed =
    if ltb from_bits to_bits
    then (if is_signed then int_sext else int_zext)
    else if is_shorter from_bits to_bits
    then subpiece
    else copy

-- `[src] if opcode != SUBPIECE else [src, self._const(0, 4)]`
unfoldable pub convert_inputs : Bool → ℕ → Step (List ℕ)
unfolding ◌>>=◌ pure new_const
convert_inputs true src = do low ← new_const (pos 0) 4; pure (src ∷ low ∷ [])
convert_inputs false src = pure (src ∷ [])

-- `ins or [self._const(0, e.size or 1)]`
unfoldable pub inputs_or_zero : List ℕ → ℕ → Step (List ℕ)
unfolding ◌>>=◌ pure new_const
inputs_or_zero [] size = do zero_ref ← new_const (pos 0) size; pure (zero_ref ∷ [])
inputs_or_zero (r ∷ rs) size = pure (r ∷ rs)

-- An operation with an output of its own, which is the value.
unfoldable pub emit_to : ℕ → ℕ → ℕ → List ℕ → Step ℕ
unfolding ◌>>=◌ pure emit
emit_to opcode ins_addr out inputs = do time ← emit opcode ins_addr (some out) inputs; pure out

module _ (reg_lookup : Lookup) where
  unfoldable mutual
    unfolding ◌>>=◌ pure new_const temp vvar emit_to inputs_or_zero convert_inputs binop unop

    -- `_expr`
    pub expr : Expr → ℕ → Step ℕ
    expr (virtual_variable tag v) ins_addr = vvar reg_lookup v
    expr (const tag value size) ins_addr = new_const (const_value value) (or_else size 1)
    expr (binary_op tag op operands size) ins_addr = do
      ins ← first_two operands (own_addr tag ins_addr)
      out ← temp (or_else size 1)
      inputs ← inputs_or_zero ins (or_else size 1)
      emit_to (opcode_or_copy (binop op)) (own_addr tag ins_addr) out inputs
    expr (unary_op tag op operands size) ins_addr = do
      src ← first_operand operands (or_else size 1) (own_addr tag ins_addr)
      out ← temp (or_else size 1)
      emit_to (unop op) (own_addr tag ins_addr) out (src ∷ [])
    expr (convert tag operands from_bits to_bits is_signed) ins_addr = do
      src ← first_operand operands 1 (own_addr tag ins_addr)
      out ← temp (bytes_of_bits to_bits)
      inputs ← convert_inputs (is_shorter from_bits to_bits) src
      emit_to (convert_opcode from_bits to_bits is_signed) (own_addr tag ins_addr) out inputs
    expr (load tag addr size) ins_addr = do
      src ← operand addr 8 (own_addr tag ins_addr)
      out ← temp (or_else size 1)
      emit_to copy (own_addr tag ins_addr) out (src ∷ [])
    expr (call tag target args size) ins_addr = do
      tref ← call_target target (own_addr tag ins_addr)
      arg_refs ← exprs args (own_addr tag ins_addr)
      out ← temp (or_else size 8)
      emit_to call_op (own_addr tag ins_addr) out (tref ∷ arg_refs)
    expr (unmodelled size) ins_addr = temp (or_else size 1)

    -- An attribute, or `self._const(0, size)` where it is None.
    pub operand : Operand → ℕ → ℕ → Step ℕ
    operand absent size ins_addr = new_const (pos 0) size
    operand (present e) size ins_addr = expr e ins_addr

    -- `(operands or [None])[0]`
    pub first_operand : Exprs → ℕ → ℕ → Step ℕ
    first_operand nil size ins_addr = new_const (pos 0) size
    first_operand (cons e es) size ins_addr = expr e ins_addr

    -- `[self._expr(o, ins_addr) for o in ops[:2]]`
    pub first_two : Exprs → ℕ → Step (List ℕ)
    first_two nil ins_addr = pure []
    first_two (cons e nil) ins_addr = do a ← expr e ins_addr; pure (a ∷ [])
    first_two (cons e (cons e' es)) ins_addr = do
      a ← expr e ins_addr
      b ← expr e' ins_addr
      pure (a ∷ b ∷ [])

    pub exprs : Exprs → ℕ → Step (List ℕ)
    exprs nil ins_addr = pure []
    exprs (cons e es) ins_addr = do a ← expr e ins_addr; rest ← exprs es ins_addr; pure (a ∷ rest)

    -- The first lines of `_call`.
    pub call_target : Operand → ℕ → Step ℕ
    call_target absent ins_addr = new_const (pos 0) 8
    call_target (present (const tag value size)) ins_addr =
        new_const (const_value value) (or_else size 8)
    call_target (present e) ins_addr = expr e ins_addr

  -- `_expr` for what it leaves in the translator.
  unfoldable pub drop_operand : Operand → ℕ → Step (Unit {0})
  unfolding ◌>>=◌ pure expr
  drop_operand absent ins_addr = pure tt
  drop_operand (present e) ins_addr = do value ← expr e ins_addr; pure tt

  -- An operation without an output.
  unfoldable pub emit_effect : ℕ → ℕ → List ℕ → Step (Unit {0})
  unfolding ◌>>=◌ pure emit
  emit_effect opcode ins_addr inputs = do time ← emit opcode ins_addr none inputs; pure tt

  -- The value that is copied to a variable.
  unfoldable pub assigned : Expr → ℕ → Step ℕ
  unfolding vvar new_const expr
  assigned (virtual_variable tag v) ins_addr = vvar reg_lookup v
  assigned (const tag value size) ins_addr = new_const (const_value value) (or_else size 1)
  assigned e ins_addr = expr e ins_addr

  unfoldable pub assign : Expr → Expr → ℕ → Step (Unit {0})
  unfolding ◌>>=◌ pure expr vvar emit_to assigned
  assign (virtual_variable tag v) src ins_addr = do
    out ← vvar reg_lookup v
    val ← assigned src ins_addr
    dst ← emit_to copy ins_addr out (val ∷ [])
    pure tt
  assign dst src ins_addr = do value ← expr src ins_addr; pure tt

  -- `_stmt`
  unfoldable pub stmt : Statement → Step (Unit {0})
  unfolding ◌>>=◌ pure new_const expr assign drop_operand emit_effect
  stmt (assignment ins_addr dst src) = assign dst src ins_addr
  stmt (store ins_addr addr content) = do
    a ← drop_operand addr ins_addr
    drop_operand content ins_addr
  stmt (conditional_jump ins_addr condition) = do
    cref ← operand condition 1 ins_addr
    dest ← new_const (pos ins_addr) 8
    emit_effect cbranch ins_addr (dest ∷ cref ∷ [])
  stmt (jump ins_addr) = do
    dest ← new_const (pos ins_addr) 8
    emit_effect branch ins_addr (dest ∷ [])
  stmt (ret ins_addr ret_exprs) = do
    first ← new_const (pos 0) 8
    rest ← exprs ret_exprs ins_addr
    emit_effect return_op ins_addr (first ∷ rest)
  stmt (call_statement ins_addr target args) = do
    tref ← call_target target ins_addr
    rest ← exprs args ins_addr
    emit_effect call_op ins_addr (tref ∷ rest)
  stmt (ignored ins_addr) = pure tt
