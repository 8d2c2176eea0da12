-- ===== src/Variables/Tests.antt =====
-- The variables of a small function, and the properties at them.
use angr_ghidra_core.Prelude.{
  ℕ, ◌≤◌, ◌≡◌, refl, List, [], ◌∷◌, ◌++◌, none, some, map, min, max, All,
}
use angr_ghidra_core.Prelude.Dicts.{get, put, set_default, add_member}
use angr_ghidra_core.Prelude.Int.{negsuc}
use angr_ghidra_core.Prelude.Text.{codes, decimal}
use angr_ghidra_core.Prelude.Result.{ok}
use angr_ghidra_core.Pcode.{new_translator}
use angr_ghidra_core.Pcode.State.{occurrence_ref}
use angr_ghidra_core.Pcode.Invariant.{IsValid}
use angr_ghidra_core.Pcode.Blocks.{new_translator-IsShared}
use angr_ghidra_core.Variables.{
  SimVariable, Place, on_stack, in_register, Chunk, occurrence, other_chunk, VarSymbol, Registers,
  new_table, undef_type_for_size,
}
use angr_ghidra_core.Variables.Build.{build_with, build_without}
use angr_ghidra_core.Variables.Made.{undef_type_bounds}
use angr_ghidra_core.Variables.Grouped.{IsPlaced}
use angr_ghidra_core.Variables.Disjoint.{members}
use angr_ghidra_core.Variables.Shared.{HasRepresentative, build_with-IsPlaced}

abbrev variable : ℕ → Place → SimVariable
variable var_id place = record {
  var_id = var_id;
  name = none;
  ident = some (codes "arg_0");
  place = place;
  size = 4;
}

abbrev shown : SimVariable → Chunk
shown var = occurrence (record { variable = some var; unified_name = none; vvar_id = some 1 })

-- Two variables at one stack offset, and a register.
abbrev three_variables : List Chunk
three_variables =
    shown (variable 1 (on_stack (negsuc 7)))
    ∷ other_chunk
    ∷ shown (variable 2 (on_stack (negsuc 7)))
    ∷ shown (variable 3 (in_register 16))
    ∷ shown (variable 1 (on_stack (negsuc 7)))
    ∷ []

abbrev two_registers : Registers
two_registers = record {
  translate_register_name = λ reg size. codes "rdi";
  resolve_register = λ name. ok (0x38, 8);
  space_register = 3;
}

abbrev refs_of : VarSymbol → List ℕ
refs_of s = s.member_refs

abbrev name_of : VarSymbol → List ℕ
name_of s = s.name

-- The two variables of one storage get a varnode each.
three_groups :
    map refs_of (build_with two_registers three_variables new_translator new_table).0.symbols
    ≡ (0x300 ∷ []) ∷ (0x301 ∷ []) ∷ (0x302 ∷ []) ∷ []
unfolding build_with get put set_default add_member occurrence_ref
three_groups = refl

three_names :
    map name_of (build_without two_registers three_variables new_table).symbols
    ≡ codes "var_0" ∷ codes "var_1" ∷ codes "var_2" ∷ []
unfolding build_without get put decimal
three_names = refl

build_with-IsPlaced_example :
    IsValid (build_with two_registers three_variables new_translator new_table).1
    × All HasRepresentative
        (build_with two_registers three_variables new_translator new_table).0.symbols
    × All
        (IsPlaced (build_with two_registers three_variables new_translator new_table).1)
        (build_with two_registers three_variables new_translator new_table).0.symbols
    × (members 0x300 (build_with two_registers three_variables new_translator new_table).0.symbols
        ≤ 1)
build_with-IsPlaced_example =
    build_with-IsPlaced two_registers three_variables new_translator 0x300
      new_translator-IsShared.valid

undef_type_bounds_example :
    (1 ≤ (undef_type_for_size 16).1)
    × ((undef_type_for_size 16).1 ≤ 8)
    × ((undef_type_for_size 16).1 ≡ max 1 (min 16 8))
    × ((undef_type_for_size 16).0 ≡ codes "undefined" ++ decimal (undef_type_for_size 16).1)
undef_type_bounds_example = undef_type_bounds 16
