-- ===== src/HighFunc/Tests.antt =====
-- The model of a small function, written and read back.
use angr_ghidra_core.Prelude.{◌≡◌, refl, true, false, List, [], ◌∷◌, none, some}
use angr_ghidra_core.Prelude.Dicts.{get}
use angr_ghidra_core.Prelude.Int.{pos, negsuc}
use angr_ghidra_core.Prelude.Text.{codes}
use angr_ghidra_core.Prelude.Result.{ok}
use angr_ghidra_core.Packed.{Bytes, int}
use angr_ghidra_core.Ids.{known, attribute_name}
use angr_ghidra_core.Dump.{Element, element, Elements, parse_tree, cons, nil}
use angr_ghidra_core.Dump.Checked.{is_tree, is_tree-IsTree}
use angr_ghidra_core.Dynahash.{stack_space}
use angr_ghidra_core.Pcode.{Translator, new_translator}
use angr_ghidra_core.Pcode.State.{ops_by_block, op_time_at, occurrence_ref}
use angr_ghidra_core.Variables.{Table, high_class}
use angr_ghidra_core.Emit.{Emitter, CChunk}
use angr_ghidra_core.Emit.Tokens.{color_for, type_parts, split_lines, lstrip, varref_of, opref_of}
use angr_ghidra_core.Emit.Model.{typeref_name}
use angr_ghidra_core.Emit.Document.{emit_doc}
use angr_ghidra_core.Emit.Parsed.{doc_tree}
use angr_ghidra_core.Clang.{split_decompile_response}
use angr_ghidra_core.HighFunc.{decode_high_function, collect_token_attr}
use angr_ghidra_core.HighFunc.Decoded.{IsRead, decode_high_function-emit_doc}

abbrev emitter : Emitter
emitter = record {
  space_ram = 1;
  space_register = 3;
  space_unique = 4;
  return_register = (pos 0, pos 8);
  coretype_ids = (codes "undefined8", pos 77) ∷ (codes "undefined4", pos 76) ∷ [];
  wide_alnum = λ part. false;
}

abbrev one_symbol : Table
one_symbol = record {
  by_var_id = (9, 0) ∷ [];
  symbols =
      record {
        sym_id = 0x1001;
        name = codes "x";
        category = negsuc 0;
        cat_index = negsuc 0;
        type_name = codes "undefined4";
        type_size = 4;
        storage_kind = stack_space;
        space = 0;
        offset = negsuc 7;
        size = 4;
        varnode_ref = 0x300;
        member_refs = 0x300 ∷ [];
      }
      ∷ [];
  next_id = 0x1002;
  next_ref = 0x200;
}

abbrev one_op : Translator
one_op = record new_translator {
  ops = record { opcode = 1; ins_addr = 0x10; time = 1; output = some 0x300; inputs = [] } ∷ [];
  blocks =
      record { index = 0; addr = 0x10; addr_last = 0x10; op_times = 1 ∷ []; in_edges = (0, 0) ∷ [] }
      ∷ [];
}

abbrev chunks : List CChunk
chunks = (codes "int", none) ∷ (codes " x;\n  y", none) ∷ []

sample_IsTree :
    is_tree (doc_tree emitter (codes "f") (pos 0x10) 4 chunks (some one_symbol) (some one_op))
    ≡ true
unfolding is_tree ops_by_block op_time_at occurrence_ref high_class color_for type_parts split_lines
    lstrip varref_of opref_of typeref_name get
sample_IsTree = refl

decode_high_function-emit_doc_example :
    (bs : Bytes) × (roots : Elements) × (model : Element) × (markup : Element) × (emit_doc emitter
        (codes "f")
        (pos 0x10)
        4
        chunks
        (some one_symbol)
        (some one_op)
      ≡ ok bs)
    × (parse_tree bs ≡ ok roots)
    × (split_decompile_response roots ≡ (some model, some markup))
    × IsRead emitter (codes "f") (pos 0x10) 4 one_symbol one_op (decode_high_function model)
decode_high_function-emit_doc_example =
    decode_high_function-emit_doc emitter (codes "f") (pos 0x10) 4 chunks one_symbol one_op _ _ refl
      (is_tree-IsTree _ sample_IsTree)

-- The values of an attribute stand in the order of the document.
opref_values :
    collect_token_attr
      (element 1 [] (
        cons
          (element 2 ((known "opref", int (pos 5)) ∷ []) nil)
          (cons (element 3 ((known "opref", int (pos 7)) ∷ []) nil) nil)))
      "opref"
    ≡ int (pos 5) ∷ int (pos 7) ∷ []
unfolding collect_token_attr attribute_name
opref_values = refl
