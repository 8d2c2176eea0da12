-- ===== src/Pcode/Ail.antt =====
-- What core/pcode.py reads of angr's intermediate language (AIL): the attributes of the objects, with
-- none or nil where an attribute may be missing. An address of 0 is a missing `ins_addr` tag.
use angr_ghidra_core.Prelude.{ℕ, Bool, List, Option}
use angr_ghidra_core.Prelude.Int.{ℤ}
use Prim.Native.String.{String}

-- `oident` holds the items of the attribute where it is a tuple.
pub record VirtualVariable : Type 0 where
  pub varid : ℕ
  pub size : Option ℕ
  pub was_stack : Bool
  pub stack_offset : ℤ
  pub was_reg : Bool
  pub reg_offset : Option ℕ
  pub oident : Option (List ℕ)

-- The first argument is the `ins_addr` of the tags. A constant's value is none where `int` raises.
mutual
  pub data Expr : Type 0 where
    virtual_variable : ℕ → VirtualVariable → Expr
    const : ℕ → Option ℤ → Option ℕ → Expr
    binary_op : ℕ → String → Exprs → Option ℕ → Expr
    unary_op : ℕ → String → Exprs → Option ℕ → Expr
    convert : ℕ → Exprs → (from_bits to_bits : ℕ) → (is_signed : Bool) → Expr
    load : ℕ → Operand → Option ℕ → Expr
    call : ℕ → (target : Operand) → (args : Exprs) → Option ℕ → Expr
    unmodelled : Option ℕ → Expr

  pub data Exprs : Type 0 where
    nil : Exprs
    cons : Expr → Exprs → Exprs

  -- An attribute that may be None.
  pub data Operand : Type 0 where
    absent : Operand
    present : Expr → Operand

pub data Statement : Type 0 where
  assignment : ℕ → (dst src : Expr) → Statement
  store : ℕ → (addr content : Operand) → Statement
  conditional_jump : ℕ → (condition : Operand) → Statement
  jump : ℕ → Statement
  ret : ℕ → (ret_exprs : Exprs) → Statement
  call_statement : ℕ → (target : Operand) → (args : Exprs) → Statement
  -- Label, NoOp and what the translator does not know.
  ignored : ℕ → Statement

-- `ident` is the identity of the object, `id(b)`.
pub record AilBlock : Type 0 where
  pub ident : ℕ
  pub addr : ℕ
  pub idx : Option ℕ
  pub statements : List Statement

pub record AilGraph : Type 0 where
  pub nodes : List AilBlock
  pub edges : List (ℕ × ℕ)
