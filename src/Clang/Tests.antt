-- ===== src/Clang/Tests.antt =====
-- The C text of a small response.
use angr_ghidra_core.Prelude.{◌≡◌, refl, false, true, List, [], ◌∷◌, ◌++◌, none, some}
use angr_ghidra_core.Prelude.Dicts.{get}
use angr_ghidra_core.Prelude.Int.{pos}
use angr_ghidra_core.Prelude.Text.{codes}
use angr_ghidra_core.Prelude.Result.{ok, err, type_error}
use angr_ghidra_core.Packed.{Bytes, Value, text}
use angr_ghidra_core.Ids.{known, element_name}
use angr_ghidra_core.Dump.{Element, element, Elements, nil, parse_tree}
use angr_ghidra_core.Dump.Checked.{is_tree, is_tree-IsTree}
use angr_ghidra_core.Emit.{Emitter, CChunk}
use angr_ghidra_core.Emit.Tokens.{color_for, type_parts, split_lines, lstrip, varref_of, opref_of}
use angr_ghidra_core.Emit.Model.{typeref_name}
use angr_ghidra_core.Emit.Document.{emit_doc}
use angr_ghidra_core.Emit.Parsed.{doc_tree}
use angr_ghidra_core.Clang.{strip_newlines, walk, render_c, split_decompile_response}
use angr_ghidra_core.Clang.Shown.{c_text}
use angr_ghidra_core.Clang.Answered.{render_c-emit_doc}

abbrev emitter : Emitter
emitter = record {
  space_ram = 1;
  space_register = 3;
  space_unique = 4;
  return_register = (pos 0, pos 8);
  coretype_ids = (codes "undefined8", pos 77) ∷ [];
  wide_alnum = λ part. false;
}

abbrev typed : CChunk
typed = (
  codes "unsigned int",
  some (record {
    class_name = codes "SimTypeInt";
    variable = none;
    vvar_id = none;
    ins_addr = none;
  }),
)

abbrev chunks : List CChunk
chunks = typed ∷ (codes " x;\n  y\n", none) ∷ []

abbrev no_show : Value → Bytes
no_show v = []

sample_IsTree : is_tree (doc_tree emitter (codes "f") (pos 0x10) 4 chunks none none) ≡ true
unfolding is_tree color_for type_parts split_lines lstrip varref_of opref_of typeref_name get
sample_IsTree = refl

render_c-emit_doc_example :
    (bs : Bytes) × (roots : Elements) × (model : Element) × (markup : Element) × (emit_doc emitter
        (codes "f")
        (pos 0x10)
        4
        chunks
        none
        none
      ≡ ok bs)
    × (parse_tree bs ≡ ok roots)
    × (split_decompile_response roots ≡ (some model, some markup))
    × (render_c no_show markup ≡ ok (strip_newlines (c_text chunks) ++ 10 ∷ []))
render_c-emit_doc_example =
    render_c-emit_doc no_show emitter (codes "f") (pos 0x10) 4 chunks none none
      (is_tree-IsTree _ sample_IsTree)

shown_text : strip_newlines (c_text chunks) ≡ codes "unsigned int x;\n  y"
shown_text = refl

-- An indentation that is a text raises TypeError.
bad_indent :
    walk no_show (element 17 ((known "indent", text (codes "2")) ∷ []) nil) ≡ err type_error
unfolding walk element_name
bad_indent = refl
