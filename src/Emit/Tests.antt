-- ===== src/Emit/Tests.antt =====
-- A small function through the emitter, and the properties at it.
use angr_ghidra_core.Prelude.{◌≡◌, refl, true, false, List, [], ◌∷◌, Option, none, some}
use angr_ghidra_core.Prelude.Dicts.{get}
use angr_ghidra_core.Prelude.Int.{pos, negsuc}
use angr_ghidra_core.Prelude.Text.{codes}
use angr_ghidra_core.Prelude.Result.{ok}
use angr_ghidra_core.Packed.{Bytes}
use Prim.Native.String.{String}
use angr_ghidra_core.Dump.{parse_tree, cons, nil}
use angr_ghidra_core.Dump.Trees.{view}
use angr_ghidra_core.Dump.Checked.{is_tree, is_tree-IsTree}
use angr_ghidra_core.Dynahash.{stack_space}
use angr_ghidra_core.Pcode.{Translator, new_translator}
use angr_ghidra_core.Pcode.State.{ops_by_block, op_time_at, occurrence_ref}
use angr_ghidra_core.Variables.{Table, high_class}
use angr_ghidra_core.Emit.{Emitter, Node, CChunk}
use angr_ghidra_core.Emit.Tokens.{color_for, type_parts, split_lines, lstrip, varref_of, opref_of}
use angr_ghidra_core.Emit.Model.{Measure, emit_parammeasures, typeref_name}
use angr_ghidra_core.Emit.Shapes.{parammeasures_tree}
use angr_ghidra_core.Emit.Document.{emit_doc}
use angr_ghidra_core.Emit.Parsed.{doc_tree, parse_tree-emit_doc, parse_tree-emit_parammeasures}

abbrev emitter : Emitter
emitter = record {
  space_ram = 1;
  space_register = 3;
  space_unique = 4;
  return_register = (pos 0, pos 8);
  coretype_ids = (codes "undefined8", pos 77) ∷ (codes "undefined4", pos 76) ∷ [];
  wide_alnum = λ part. false;
}

abbrev one_symbol : Table
one_symbol = record {
  by_var_id = (9, 0) ∷ [];
  symbols =
      record {
        sym_id = 0x1001;
        name = codes "x";
        category = negsuc 0;
        cat_index = negsuc 0;
        type_name = codes "undefined4";
        type_size = 4;
        storage_kind = stack_space;
        space = 0;
        offset = negsuc 7;
        size = 4;
        varnode_ref = 0x300;
        member_refs = 0x300 ∷ [];
      }
      ∷ [];
  next_id = 0x1002;
  next_ref = 0x200;
}

abbrev one_op : Translator
one_op = record new_translator {
  ops = record { opcode = 1; ins_addr = 0x10; time = 1; output = some 0x300; inputs = [] } ∷ [];
  blocks =
      record { index = 0; addr = 0x10; addr_last = 0x10; op_times = 1 ∷ []; in_edges = (0, 0) ∷ [] }
      ∷ [];
}

abbrev object : String → Option Node
object name =
    some (record { class_name = codes name; variable = none; vvar_id = none; ins_addr = some 0x10 })

abbrev unsigned_int_x : List CChunk
unsigned_int_x =
    (codes "unsigned int", object "SimTypeInt") ∷ (codes " x;\n  y", none) ∷ ([], none) ∷ []

sample_IsTree :
    is_tree
      (doc_tree emitter (codes "f") (pos 0x10) 4 unsigned_int_x (some one_symbol) (some one_op))
    ≡ true
unfolding is_tree ops_by_block op_time_at occurrence_ref high_class color_for type_parts split_lines
    lstrip varref_of opref_of typeref_name get
sample_IsTree = refl

parse_tree-emit_doc_example :
    (bs : Bytes) × (emit_doc emitter
        (codes "f")
        (pos 0x10)
        4
        unsigned_int_x
        (some one_symbol)
        (some one_op)
      ≡ ok bs)
    × (parse_tree bs
        ≡ ok (
            cons
              (view (
                doc_tree emitter
                  (codes "f")
                  (pos 0x10)
                  4
                  unsigned_int_x
                  (some one_symbol)
                  (some one_op)))
              nil))
parse_tree-emit_doc_example =
    parse_tree-emit_doc emitter (codes "f") (pos 0x10) 4 unsigned_int_x (some one_symbol)
      (some one_op) (is_tree-IsTree _ sample_IsTree)

abbrev one_input : List Measure
one_input =
    record { space = some 3; offset = pos 0x38; size = pos 8; type_name = codes "undefined8" } ∷ []

measures_IsTree : is_tree (parammeasures_tree emitter (codes "f") (pos 0x10) one_input none) ≡ true
unfolding is_tree typeref_name get
measures_IsTree = refl

parse_tree-emit_parammeasures_example :
    (bs : Bytes) × (emit_parammeasures emitter (codes "f") (pos 0x10) one_input none [] ≡ ok bs)
    × (parse_tree bs
        ≡ ok (cons (view (parammeasures_tree emitter (codes "f") (pos 0x10) one_input none)) nil))
parse_tree-emit_parammeasures_example =
    parse_tree-emit_parammeasures emitter (codes "f") (pos 0x10) one_input none
      (is_tree-IsTree _ measures_IsTree)
