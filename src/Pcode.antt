-- ===== src/Pcode.antt =====
-- angr_ghidra_core/core/pcode.py: the opcodes, what the translator makes, and its state.
pub mod Ail
pub mod State
pub mod Expressions
pub mod Graph
pub mod Invariant
pub mod Grown
pub mod Kept
pub mod Tables
pub mod Lowered
pub mod Blocks
pub mod Translated
pub mod Sharing
pub mod Representatives
mod Tests
use angr_ghidra_core.Prelude.{ℕ, List, [], Option}
use angr_ghidra_core.Prelude.Int.{ℤ}
use angr_ghidra_core.Dynahash.{Space}

abbrev pub copy : ℕ
copy = 1

abbrev pub branch : ℕ
branch = 4

abbrev pub cbranch : ℕ
cbranch = 5

abbrev pub call_op : ℕ
call_op = 7

abbrev pub return_op : ℕ
return_op = 10

abbrev pub int_equal : ℕ
int_equal = 11

abbrev pub int_notequal : ℕ
int_notequal = 12

abbrev pub int_sless : ℕ
int_sless = 13

abbrev pub int_less : ℕ
int_less = 15

abbrev pub int_zext : ℕ
int_zext = 17

abbrev pub int_sext : ℕ
int_sext = 18

abbrev pub int_add : ℕ
int_add = 19

abbrev pub int_sub : ℕ
int_sub = 20

abbrev pub int_2comp : ℕ
int_2comp = 24

abbrev pub int_negate : ℕ
int_negate = 25

abbrev pub int_xor : ℕ
int_xor = 26

abbrev pub int_and : ℕ
int_and = 27

abbrev pub int_or : ℕ
int_or = 28

abbrev pub int_left : ℕ
int_left = 29

abbrev pub int_right : ℕ
int_right = 30

abbrev pub int_sright : ℕ
int_sright = 31

abbrev pub int_mult : ℕ
int_mult = 32

abbrev pub bool_and : ℕ
bool_and = 39

abbrev pub bool_or : ℕ
bool_or = 40

abbrev pub subpiece : ℕ
subpiece = 63

pub record Varnode : Type 0 where
  pub ref : ℕ
  pub space : Space
  pub offset : ℤ
  pub size : ℕ

-- `space_input` is None in every operation that the translator makes, and left out.
pub record Op : Type 0 where
  pub opcode : ℕ
  pub ins_addr : ℕ
  pub time : ℕ
  pub output : Option ℕ
  pub inputs : List ℕ

pub record Block : Type 0 where
  pub index : ℕ
  pub addr : ℕ
  pub addr_last : ℕ
  pub op_times : List ℕ
  pub in_edges : List (ℕ × ℕ)

-- The fields of PcodeTranslator. The two caches are none until their first use.
pub record Translator : Type 0 where
  pub varnodes : List Varnode
  pub ops : List Op
  pub blocks : List Block
  pub vvar_ref : List (ℕ × ℕ)
  pub by_ref : List (ℕ × Varnode)
  pub stack_rep : List (ℤ × ℕ)
  pub reg_rep : List (ℤ × ℕ)
  pub stack_members : List (ℤ × List ℕ)
  pub reg_members : List (ℤ × List ℕ)
  pub next_ref : ℕ
  pub next_time : ℕ
  pub next_unique : ℕ
  pub ops_by_time : Option (List (ℕ × Op))
  pub op_at_addr : Option (List (ℕ × ℕ))

-- `__init__`
abbrev pub new_translator : Translator
new_translator = record {
  varnodes = [];
  ops = [];
  blocks = [];
  vvar_ref = [];
  by_ref = [];
  stack_rep = [];
  reg_rep = [];
  stack_members = [];
  reg_members = [];
  next_ref = 0x300;
  next_time = 1;
  next_unique = 0x10000000;
  ops_by_time = Option.none;
  op_at_addr = Option.none;
}
