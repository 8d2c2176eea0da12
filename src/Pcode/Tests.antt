-- ===== src/Pcode/Tests.antt =====
-- Small AIL graphs through the translator, and the properties at them.
use angr_ghidra_core.Prelude.{ℕ, ◌+◌, ◌≡◌, refl, false, true, List, [], ◌∷◌, none, some, map}
use angr_ghidra_core.Prelude.Int.{pos, negsuc}
use angr_ghidra_core.Prelude.Dicts.{get, put, set_default}
use angr_ghidra_core.Prelude.Result.{ok}
use angr_ghidra_core.Dynahash.{stack_space}
use angr_ghidra_core.Pcode.{Op, Translator, new_translator}
use angr_ghidra_core.Pcode.Ail.{
  VirtualVariable, virtual_variable, const, binary_op, nil, cons, present, assignment,
  conditional_jump, ret, AilBlock, AilGraph,
}
use angr_ghidra_core.Pcode.State.{
  Lookup, variable_representative, op_time_at, register_representative,
}
use angr_ghidra_core.Pcode.Graph.{translate, add_blocks, sort_blocks}
use angr_ghidra_core.Pcode.Invariant.{IsValid, Later}
use angr_ghidra_core.Pcode.Blocks.{IsShared, new_translator-IsShared}
use angr_ghidra_core.Pcode.Translated.{has_node, translate-IsShared}
use angr_ghidra_core.Pcode.Sharing.{ops_of_blocks, ops_of_blocks-translate}
use angr_ghidra_core.Pcode.Tables.{LiesAt}
use angr_ghidra_core.Pcode.Representatives.{storage, representative-Represented}

abbrev local : VirtualVariable
local = record {
  varid = 1;
  size = some 4;
  was_stack = true;
  stack_offset = negsuc 7;
  was_reg = false;
  reg_offset = none;
  oident = none;
}

abbrev in_register : VirtualVariable
in_register = record {
  varid = 2;
  size = some 4;
  was_stack = false;
  stack_offset = pos 0;
  was_reg = true;
  reg_offset = some 16;
  oident = none;
}

-- local = reg + 1; if (local) goto 0x40
abbrev first_block : AilBlock
first_block = record {
  ident = 70;
  addr = 0x10;
  idx = none;
  statements =
      assignment 0x10 (virtual_variable 0 local) (
        binary_op 0x12 "Add"
          (cons (virtual_variable 0 in_register) (cons (const 0 (some (pos 1)) (some 4)) nil))
          (some 4))
      ∷ conditional_jump 0x14 (present (virtual_variable 0 local))
      ∷ [];
}

-- return local
abbrev last_block : AilBlock
last_block = record {
  ident = 80;
  addr = 0x40;
  idx = none;
  statements = ret 0x40 (cons (virtual_variable 0 local) nil) ∷ [];
}

abbrev two_blocks : AilGraph
two_blocks = record { nodes = last_block ∷ first_block ∷ []; edges = (70, 80) ∷ (70, 70) ∷ [] }

abbrev registers : Lookup
registers offset size = some (offset + 0x1000)

abbrev inputs_of : Op → List ℕ
inputs_of op = op.inputs

abbrev lowered : Translator
lowered = add_blocks registers 0 (sort_blocks [] two_blocks.nodes) new_translator

translated_inputs :
    map inputs_of lowered.ops
    ≡ (0x301 ∷ 0x302 ∷ []) ∷ (0x303 ∷ []) ∷ (0x304 ∷ 0x300 ∷ []) ∷ (0x305 ∷ 0x300 ∷ []) ∷ []
unfolding add_blocks sort_blocks get put
translated_inputs = refl

op_at_12 : (op_time_at 0x12 lowered).0 ≡ some 1
unfolding add_blocks sort_blocks op_time_at put
op_at_12 = refl

register_of_16 : register_representative (pos 0x1010) lowered ≡ some 0x301
unfolding add_blocks sort_blocks register_representative put set_default
register_of_16 = refl

translate-IsShared_example :
    (t : Translator) × (translate registers two_blocks new_translator ≡ ok t) × IsShared t
unfolding has_node
translate-IsShared_example =
    translate-IsShared registers two_blocks ((refl, refl), ((refl, refl), tt))

ops_of_blocks-translate_example :
    (t : Translator) × (translate registers two_blocks new_translator ≡ ok t)
    × ((ops_of_blocks t.blocks t).0 ≡ t.ops)
unfolding has_node
ops_of_blocks-translate_example =
    ops_of_blocks-translate registers two_blocks ((refl, refl), ((refl, refl), tt))

representative-Represented_example :
    IsValid (variable_representative stack_space (negsuc 7) 4 new_translator).1
    × Later new_translator (variable_representative stack_space (negsuc 7) 4 new_translator).1
    × LiesAt
        (storage stack_space)
        (negsuc 7)
        (variable_representative stack_space (negsuc 7) 4 new_translator).0
        (variable_representative stack_space (negsuc 7) 4 new_translator).1
    × (variable_representative stack_space
          (negsuc 7)
          8
          (variable_representative stack_space (negsuc 7) 4 new_translator).1
        ≡ variable_representative stack_space (negsuc 7) 4 new_translator)
representative-Represented_example =
    representative-Represented stack_space (negsuc 7) 4 8 new_translator
      new_translator-IsShared.valid
