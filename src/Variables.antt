-- ===== src/Variables.antt =====
-- angr_ghidra_core/core/variables.py: VariableSymbolTable. What it reads of angr's objects is data: a
-- chunk of the generated C is a variable's occurrence or another one. `translate_register_name` of
-- archinfo and the resolver of register names are parameters.
pub mod Build
pub mod Made
pub mod Grouped
pub mod Disjoint
pub mod Shared
mod Tests
use angr_ghidra_core.Prelude.{
  ℕ, zero, suc, ◌+◌, ◌-◌, Bool, true, false, ◌&&◌, List, [], ◌∷◌, ◌++◌, map, Option, none, some,
  leb, ltb, ◌==◌, if◌then◌else◌, length,
}
use angr_ghidra_core.Prelude.Int.{ℤ, pos, negsuc}
use angr_ghidra_core.Prelude.Text.{codes, decimal}
use angr_ghidra_core.Prelude.Result.{Result, ok, err}
use angr_ghidra_core.Packed.{Bytes}
use angr_ghidra_core.Dynahash.{Space, stack_space, register_space}

unfoldable pub undef_type_for_size : ℕ → Bytes × ℕ
undef_type_for_size size =
    if leb 1 size && leb size 8
    then (codes "undefined" ++ decimal size, size)
    else if ltb 8 size
    then (codes "undefined8", 8)
    else (codes "undefined1", 1)

-- A SimVariable: its identity, `id(var)`, and its class with what the class adds.
pub data Place : Type 0 where
  on_stack : ℤ → Place
  in_register : ℕ → Place
  elsewhere : Place

pub record SimVariable : Type 0 where
  pub var_id : ℕ
  pub name : Option Bytes
  pub ident : Option Bytes
  pub place : Place
  pub size : ℕ

-- A CVariable: `unified_name` is the name of `unified_variable`.
pub record CVariable : Type 0 where
  pub variable : Option SimVariable
  pub unified_name : Option Bytes
  pub vvar_id : Option ℕ

pub data Chunk : Type 0 where
  occurrence : CVariable → Chunk
  other_chunk : Chunk

-- `cat_index` is -1, or the index of a parameter, as ints; so is `category`.
pub record VarSymbol : Type 0 where
  pub sym_id : ℕ
  pub name : Bytes
  pub category : ℤ
  pub cat_index : ℤ
  pub type_name : Bytes
  pub type_size : ℕ
  pub storage_kind : Space
  pub space : ℕ
  pub offset : ℤ
  pub size : ℕ
  pub varnode_ref : ℕ
  pub member_refs : List ℕ

abbrev pub is_zero : ℤ → Bool
is_zero (pos zero) = true
is_zero other = false

unfoldable pub high_class : VarSymbol → Bytes
high_class sym = if is_zero sym.category then codes "p" else codes "l"

-- The fields of VariableSymbolTable. `by_var_id` holds the place of a symbol in `symbols`, for the
-- object that both share.
pub record Table : Type 0 where
  pub by_var_id : List (ℕ × ℕ)
  pub symbols : List VarSymbol
  pub next_id : ℕ
  pub next_ref : ℕ

abbrev pub new_table : Table
new_table = record { by_var_id = []; symbols = []; next_id = 0x1001; next_ref = 0x200 }

-- What the table asks of archinfo and of Ghidra, and the index of the register space.
pub record Registers : Type 0 where
  pub translate_register_name : ℕ → ℕ → Bytes
  pub resolve_register : Bytes → Result (ℕ × ℕ)
  pub space_register : ℕ

-- `str.upper` on ASCII letters.
abbrev upper_byte : ℕ → ℕ
upper_byte c = if leb b'a' c && leb c b'z' then c - 32 else c

-- `x or d` for an optional name.
abbrev name_or : Option Bytes → Bytes → Bytes
name_or none d = d
name_or (some []) d = d
name_or (some (c ∷ cs)) d = c ∷ cs

unfoldable pub starts_with : Bytes → Bytes → Bool
starts_with [] s = true
starts_with (p ∷ ps) [] = false
starts_with (p ∷ ps) (c ∷ cs) = p == c && starts_with ps cs

abbrev pub display_name : CVariable → SimVariable → ℕ → Bytes
display_name obj var count =
    name_or obj.unified_name (name_or var.name (codes "var_" ++ decimal count))

abbrev pub is_param : SimVariable → Bool
is_param var = starts_with (codes "arg_") (name_or var.ident [])

abbrev pub stack_symbol : ℕ → Bytes → ℤ → ℕ → VarSymbol
stack_symbol sym_id name offset size = record {
  sym_id = sym_id;
  name = name;
  category = negsuc 0;
  cat_index = negsuc 0;
  type_name = (undef_type_for_size size).0;
  type_size = (undef_type_for_size size).1;
  storage_kind = stack_space;
  space = 0;
  offset = offset;
  size = size;
  varnode_ref = 0;
  member_refs = [];
}

abbrev pub register_symbol : ℕ → Bytes → Bool → ℕ → ℕ → ℕ → ℕ → VarSymbol
register_symbol sym_id name param param_index space off size = record {
  sym_id = sym_id;
  name = name;
  category = if param then pos 0 else negsuc 0;
  cat_index = if param then pos param_index else negsuc 0;
  type_name = (undef_type_for_size size).0;
  type_size = (undef_type_for_size size).1;
  storage_kind = register_space;
  space = space;
  offset = pos off;
  size = size;
  varnode_ref = 0;
  member_refs = [];
}

-- The symbol of a register that Ghidra names, and the next parameter's index.
abbrev pub resolved : Result (ℕ × ℕ) → SimVariable → Bytes → ℕ → ℕ → ℕ → Option VarSymbol × ℕ
resolved (err e) var name sym_id param_index space = (none, param_index)
resolved (ok (off, _)) var name sym_id param_index space = (
  some (register_symbol sym_id name (is_param var) param_index space off var.size),
  if is_param var then param_index + 1 else param_index,
)

-- The three branches of `_make_symbol`.
abbrev pub made_at : Registers → Place → SimVariable → Bytes → ℕ → ℕ → Option VarSymbol × ℕ
made_at regs (on_stack offset) var name sym_id param_index =
    (some (stack_symbol sym_id name offset var.size), param_index)
made_at regs (in_register reg) var name sym_id param_index =
    resolved (regs.resolve_register (map upper_byte (regs.translate_register_name reg var.size)))
      var name sym_id param_index regs.space_register
made_at regs elsewhere var name sym_id param_index = (none, param_index)

-- `_make_symbol` for a table with `count` symbols and the next id `sym_id`: the symbol, if there is
-- one, for which the id is then used up, and the next parameter's index.
unfoldable pub make_symbol : Registers → CVariable → SimVariable → ℕ → ℕ → ℕ → Option VarSymbol × ℕ
unfolding undef_type_for_size starts_with
make_symbol regs obj var count sym_id param_index =
    made_at regs var.place var (display_name obj var count) sym_id param_index
