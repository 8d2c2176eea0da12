-- ===== src/Edits/Tests.antt =====
-- A function with one renamed symbol, at the stack offset -8.
use angr_ghidra_core.Prelude.{[], ◌∷◌, some, none, true, false, ◌≡◌, refl, arith}
use angr_ghidra_core.Prelude.Int.{pos, negsuc}
use angr_ghidra_core.Prelude.Result.{ok}
use angr_ghidra_core.Packed.{bool, int, special_space, text}
use angr_ghidra_core.Packed.Encoder.{mask_u64}
use angr_ghidra_core.Ids.{known, name_in, element_names, element_name}
use angr_ghidra_core.Ids.ElementNames.{element_names_low, element_names_high}
use angr_ghidra_core.Dump.{Element, element, nil, cons}
use angr_ghidra_core.Dump.Access.{attr, first}
use angr_ghidra_core.Edits.{
  UserEdit, parse_mapsym, parse_mapsyms, parse_user_edits, no_storage, edit_of,
}
use angr_ghidra_core.Dynahash.{Graph, Varnode, const_space, register_space, stack_space}
use angr_ghidra_core.Dynahash.Lookup.{Best}
use angr_ghidra_core.Edits.Locked.{parse_mapsym-stack}

abbrev renamed : Element
renamed = element 6 ((known "namelock", bool true) ∷ (known "name", text (b'n' ∷ [])) ∷ []) nil

abbrev place : Element
place =
    element 11
      ((known "space", special_space 0) ∷ (known "offset", int (pos (mask_u64 (negsuc 7)))) ∷ [])
      nil

abbrev mapped : Element
mapped = element 76 [] (cons renamed (cons place nil))

abbrev function : Element
function = element 116 [] (
    cons (element 228 [] (cons (element 80 [] (cons (element 81 [] (cons mapped nil)) nil)) nil))
      nil)

edits_found :
    parse_user_edits (some function)
    ≡ ok (
        edit_of renamed true false
          (record (no_storage (int (pos 0))) { stack_offset = some (negsuc 7) })
        ∷ [])
unfolding parse_user_edits parse_mapsyms parse_mapsym element_name name_in element_names
    element_names_low element_names_high
edits_found = refl

renamed_found : first mapped "symbol" ≡ some renamed
unfolding element_name name_in element_names element_names_low element_names_high
renamed_found = refl

place_found : first mapped "addr" ≡ some place
unfolding element_name name_in element_names element_names_low element_names_high
place_found = refl

parse_mapsym-stack_example :
    (edit : UserEdit) × (parse_mapsym mapped ≡ ok (some edit))
    × (edit.name ≡ attr renamed "name")
    × (edit.stack_offset ≡ some (negsuc 7))
    × (edit.reg_offset ≡ none)
    × (edit.hash_val ≡ none)
parse_mapsym-stack_example =
    parse_mapsym-stack mapped renamed place 0 (negsuc 7) renamed_found refl place_found refl refl
      (omega arith)

-- 3 = 1 + 2 at 0x1000, where 3 is the stack slot at -16.
abbrev slot : Varnode
slot = record { space = stack_space; offset = negsuc 15; size = 4 }

abbrev sample : Graph
sample = record {
  by_ref =
      (1, record { space = register_space; offset = pos 0; size = 4 })
      ∷ (2, record { space = const_space; offset = pos 7; size = 4 })
      ∷ (3, slot)
      ∷ [];
  blocks = (0 ∷ []) ∷ [];
  ops =
      record { time = 0; opcode = 19; ins_addr = 0x1000; output = some 3; inputs = 1 ∷ 2 ∷ [] }
      ∷ [];
}

abbrev best : Best
best = record { champion = some (3 ∷ []); hash = 2746518273346; addr = some 0x1000 }

abbrev unplaced : UserEdit
unplaced = edit_of renamed true false (no_storage (int (pos 0)))
