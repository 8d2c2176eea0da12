-- ===== src/Pcode/Lowered.antt =====
-- core/pcode.py: `_expr`, `_stmt` and `translate` keep the invariant of PcodeTranslator.
use angr_ghidra_core.Prelude.{ℕ, Bool, true, false, List, [], ◌∷◌, none, some, All, arith}
use angr_ghidra_core.Prelude.Int.{pos}
use angr_ghidra_core.Pcode.{copy, branch, cbranch, call_op, return_op}
use angr_ghidra_core.Pcode.Ail.{
  Expr, virtual_variable, const, binary_op, unary_op, convert, load, call, unmodelled, Exprs, nil,
  cons, Operand, absent, present, Statement, assignment, store, conditional_jump, jump, ret,
  call_statement, ignored,
}
use angr_ghidra_core.Pcode.State.{Step, ◌>>=◌, temp, or_else, Lookup}
use angr_ghidra_core.Pcode.Expressions.{
  binop, opcode_or_copy, unop, const_value, own_addr, bytes_of_bits, is_shorter, convert_opcode,
  convert_inputs, inputs_or_zero, emit_to, expr, operand, first_operand, first_two, exprs,
  call_target, drop_operand, emit_effect, assigned, assign, stmt,
}
use angr_ghidra_core.Pcode.Invariant.{Keeps, IsRef, NoMatter, bind-Keeps}
use angr_ghidra_core.Pcode.Grown.{AreRefs-grown}
use angr_ghidra_core.Pcode.Kept.{new_const-Keeps, temp-Keeps, emit-Keeps, pure-Keeps}
use angr_ghidra_core.Pcode.Tables.{vvar-Keeps}

-- Refs that stay handed out.
abbrev pub AreRefs : ℕ → List ℕ → Type 0
AreRefs n rs = All (IsRef n) rs

emit_to-Keeps :
    (opcode ins_addr out : ℕ) (inputs : List ℕ) (n : ℕ)
    → IsRef n out
    → AreRefs n inputs
    → Keeps n IsRef (emit_to opcode ins_addr out inputs)
unfolding emit_to
emit_to-Keeps opcode ins_addr out inputs n o is =
    bind-Keeps NoMatter IsRef n _ _ (emit-Keeps opcode ins_addr (some out) inputs n o is)
      (λ _ m h _. pure-Keeps IsRef out m (λ k g. (o.0, omega arith)))

convert_inputs-Keeps :
    (low : Bool) (src n : ℕ) → IsRef n src → Keeps n AreRefs (convert_inputs low src)
unfolding convert_inputs
convert_inputs-Keeps true src n r =
    bind-Keeps IsRef AreRefs n _ _ (new_const-Keeps (pos 0) 4 n) (λ a m h q.
      pure-Keeps AreRefs (src ∷ a ∷ []) m (λ k g. ((r.0, omega arith), ((q.0, omega arith), tt))))
convert_inputs-Keeps false src n r =
    pure-Keeps AreRefs (src ∷ []) n (λ k g. ((r.0, omega arith), tt))

inputs_or_zero-Keeps :
    (ins : List ℕ) (size n : ℕ) → AreRefs n ins → Keeps n AreRefs (inputs_or_zero ins size)
unfolding inputs_or_zero
inputs_or_zero-Keeps [] size n r =
    bind-Keeps IsRef AreRefs n _ _ (new_const-Keeps (pos 0) size n)
      (λ a m h q. pure-Keeps AreRefs (a ∷ []) m (λ k g. ((q.0, omega arith), tt)))
inputs_or_zero-Keeps (x ∷ xs) size n r =
    pure-Keeps AreRefs (x ∷ xs) n (λ k g. AreRefs-grown n k g (x ∷ xs) r)

-- A temporary for the value of an operation on one input.
emit_one-Keeps :
    (size opcode ins_addr : ℕ) (m : Step ℕ) (n : ℕ)
    → Keeps n IsRef m
    → Keeps n IsRef (do src ← m; out ← temp size; emit_to opcode ins_addr out (src ∷ []))
emit_one-Keeps size opcode ins_addr m n first = bind-Keeps IsRef IsRef n m _ first (λ src n' h r.
    bind-Keeps IsRef IsRef n' (temp size) _ (temp-Keeps size n')
      (λ out n'' g q. emit_to-Keeps opcode ins_addr out (src ∷ []) n'' q ((r.0, omega arith), tt)))

module _ (reg_lookup : Lookup) where
  mutual
    unfolding expr operand first_operand first_two exprs call_target

    expr_kept : (e : Expr) (ia n : ℕ) → Keeps n IsRef (expr reg_lookup e ia)
    expr_kept (virtual_variable tag v) ia n = vvar-Keeps reg_lookup v n
    expr_kept (const tag value size) ia n = new_const-Keeps (const_value value) (or_else size 1) n
    expr_kept (binary_op tag op operands size) ia n =
        bind-Keeps AreRefs IsRef n _ _ (first_two_kept operands (own_addr tag ia) n) (λ ins n' h r.
          bind-Keeps IsRef IsRef n' _ _ (temp-Keeps (or_else size 1) n') (λ out n'' g q.
            bind-Keeps AreRefs IsRef n'' _ _
              (inputs_or_zero-Keeps ins (or_else size 1) n'' (AreRefs-grown n' n'' g ins r))
              (λ inputs n''' f is.
                emit_to-Keeps (opcode_or_copy (binop op)) (own_addr tag ia) out inputs n'''
                  (q.0, omega arith) is)))
    expr_kept (unary_op tag op operands size) ia n =
        emit_one-Keeps (or_else size 1) (unop op) (own_addr tag ia) _ n
          (first_operand_kept operands (or_else size 1) (own_addr tag ia) n)
    expr_kept (convert tag operands from_bits to_bits is_signed) ia n =
        bind-Keeps IsRef IsRef n _ _ (first_operand_kept operands 1 (own_addr tag ia) n)
          (λ src n' h r.
            bind-Keeps IsRef IsRef n' _ _ (temp-Keeps (bytes_of_bits to_bits) n') (λ out n'' g q.
              bind-Keeps AreRefs IsRef n'' _ _
                (convert_inputs-Keeps (is_shorter from_bits to_bits) src n'' (r.0, omega arith))
                (λ inputs n''' f is.
                  emit_to-Keeps (convert_opcode from_bits to_bits is_signed) (own_addr tag ia) out
                    inputs n''' (q.0, omega arith) is)))
    expr_kept (load tag addr size) ia n =
        emit_one-Keeps (or_else size 1) copy (own_addr tag ia) _ n
          (operand_kept addr 8 (own_addr tag ia) n)
    expr_kept (call tag target args size) ia n =
        bind-Keeps IsRef IsRef n _ _ (call_target_kept target (own_addr tag ia) n) (λ tref n' h r.
          bind-Keeps AreRefs IsRef n' _ _ (exprs_kept args (own_addr tag ia) n') (λ rest n'' g rs.
            bind-Keeps IsRef IsRef n'' _ _ (temp-Keeps (or_else size 8) n'') (λ out n''' f q.
              emit_to-Keeps call_op (own_addr tag ia) out (tref ∷ rest) n''' q
                ((r.0, omega arith), AreRefs-grown n'' n''' f rest rs))))
    expr_kept (unmodelled size) ia n = temp-Keeps (or_else size 1) n

    operand_kept : (o : Operand) (size ia n : ℕ) → Keeps n IsRef (operand reg_lookup o size ia)
    operand_kept absent size ia n = new_const-Keeps (pos 0) size n
    operand_kept (present e) size ia n = expr_kept e ia n

    first_operand_kept :
        (es : Exprs) (size ia n : ℕ) → Keeps n IsRef (first_operand reg_lookup es size ia)
    first_operand_kept nil size ia n = new_const-Keeps (pos 0) size n
    first_operand_kept (cons e es) size ia n = expr_kept e ia n

    first_two_kept : (es : Exprs) (ia n : ℕ) → Keeps n AreRefs (first_two reg_lookup es ia)
    first_two_kept nil ia n = pure-Keeps AreRefs [] n (λ k g. tt)
    first_two_kept (cons e nil) ia n =
        bind-Keeps IsRef AreRefs n _ _ (expr_kept e ia n)
          (λ a m h q. pure-Keeps AreRefs (a ∷ []) m (λ k g. ((q.0, omega arith), tt)))
    first_two_kept (cons e (cons e' es)) ia n =
        bind-Keeps IsRef AreRefs n _ _ (expr_kept e ia n) (λ a m h q.
          bind-Keeps IsRef AreRefs m _ _ (expr_kept e' ia m) (λ b m' g p.
            pure-Keeps AreRefs (a ∷ b ∷ []) m'
              (λ k f. ((q.0, omega arith), ((p.0, omega arith), tt)))))

    exprs_kept : (es : Exprs) (ia n : ℕ) → Keeps n AreRefs (exprs reg_lookup es ia)
    exprs_kept nil ia n = pure-Keeps AreRefs [] n (λ k g. tt)
    exprs_kept (cons e es) ia n = bind-Keeps IsRef AreRefs n _ _ (expr_kept e ia n) (λ a m h q.
        bind-Keeps AreRefs AreRefs m _ _ (exprs_kept es ia m) (λ rest m' g rs.
          pure-Keeps AreRefs (a ∷ rest) m'
            (λ k f. ((q.0, omega arith), AreRefs-grown m' k f rest rs))))

    call_target_kept : (o : Operand) (ia n : ℕ) → Keeps n IsRef (call_target reg_lookup o ia)
    call_target_kept absent ia n = new_const-Keeps (pos 0) 8 n
    call_target_kept (present (const tag value size)) ia n =
        new_const-Keeps (const_value value) (or_else size 8) n
    call_target_kept (present e) ia n = expr_kept e ia n

  drop_operand-Keeps : (o : Operand) (ia n : ℕ) → Keeps n NoMatter (drop_operand reg_lookup o ia)
  unfolding drop_operand
  drop_operand-Keeps absent ia n = pure-Keeps NoMatter tt n (λ k g. tt)
  drop_operand-Keeps (present e) ia n =
      bind-Keeps IsRef NoMatter n _ _ (expr_kept e ia n)
        (λ a m h q. pure-Keeps NoMatter tt m (λ k g. tt))

  emit_effect-Keeps :
      (opcode ia : ℕ) (inputs : List ℕ) (n : ℕ)
      → AreRefs n inputs
      → Keeps n NoMatter (emit_effect reg_lookup opcode ia inputs)
  unfolding emit_effect
  emit_effect-Keeps opcode ia inputs n is =
      bind-Keeps NoMatter NoMatter n _ _ (emit-Keeps opcode ia none inputs n tt is)
        (λ a m h q. pure-Keeps NoMatter tt m (λ k g. tt))

  assigned-Keeps : (e : Expr) (ia n : ℕ) → Keeps n IsRef (assigned reg_lookup e ia)
  unfolding assigned
  assigned-Keeps (virtual_variable tag v) ia n = vvar-Keeps reg_lookup v n
  assigned-Keeps (const tag value size) ia n =
      new_const-Keeps (const_value value) (or_else size 1) n
  assigned-Keeps e ia n = expr_kept e ia n

  assign-Keeps : (dst src : Expr) (ia n : ℕ) → Keeps n NoMatter (assign reg_lookup dst src ia)
  unfolding assign
  assign-Keeps (virtual_variable tag v) src ia n =
      bind-Keeps IsRef NoMatter n _ _ (vvar-Keeps reg_lookup v n) (λ out n' h r.
        bind-Keeps IsRef NoMatter n' _ _ (assigned-Keeps src ia n') (λ val n'' g q.
          bind-Keeps IsRef NoMatter n'' _ _
            (emit_to-Keeps copy ia out (val ∷ []) n'' (r.0, omega arith) (q, tt))
            (λ a m f p. pure-Keeps NoMatter tt m (λ k e. tt))))
  assign-Keeps dst src ia n =
      bind-Keeps IsRef NoMatter n _ _ (expr_kept src ia n)
        (λ a m h q. pure-Keeps NoMatter tt m (λ k g. tt))

  pub stmt-Keeps : (st : Statement) (n : ℕ) → Keeps n NoMatter (stmt reg_lookup st)
  unfolding stmt
  stmt-Keeps (assignment ia dst src) n = assign-Keeps dst src ia n
  stmt-Keeps (store ia addr content) n =
      bind-Keeps NoMatter NoMatter n _ _ (drop_operand-Keeps addr ia n)
        (λ a m h q. drop_operand-Keeps content ia m)
  stmt-Keeps (conditional_jump ia condition) n =
      bind-Keeps IsRef NoMatter n _ _ (operand_kept condition 1 ia n) (λ cref m h r.
        bind-Keeps IsRef NoMatter m _ _ (new_const-Keeps (pos ia) 8 m) (λ dest m' g q.
          emit_effect-Keeps cbranch ia (dest ∷ cref ∷ []) m' (q, ((r.0, omega arith), tt))))
  stmt-Keeps (jump ia) n =
      bind-Keeps IsRef NoMatter n _ _ (new_const-Keeps (pos ia) 8 n)
        (λ dest m g q. emit_effect-Keeps branch ia (dest ∷ []) m (q, tt))
  stmt-Keeps (ret ia ret_exprs) n =
      bind-Keeps IsRef NoMatter n _ _ (new_const-Keeps (pos 0) 8 n) (λ a m h q.
        bind-Keeps AreRefs NoMatter m _ _ (exprs_kept ret_exprs ia m)
          (λ rest m' g rs. emit_effect-Keeps return_op ia (a ∷ rest) m' ((q.0, omega arith), rs)))
  stmt-Keeps (call_statement ia target args) n =
      bind-Keeps IsRef NoMatter n _ _ (call_target_kept target ia n) (λ a m h q.
        bind-Keeps AreRefs NoMatter m _ _ (exprs_kept args ia m)
          (λ rest m' g rs. emit_effect-Keeps call_op ia (a ∷ rest) m' ((q.0, omega arith), rs)))
  stmt-Keeps (ignored ia) n = pure-Keeps NoMatter tt n (λ k g. tt)
