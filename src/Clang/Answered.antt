-- ===== src/Clang/Answered.antt =====
-- The C text on its way: emitted by core/emit.py, parsed by ghidra_wire/dump.py, taken out of the
-- response and flattened by ghidra_wire/clang.py.
use angr_ghidra_core.Prelude.{ℕ, ◌≡◌, refl, ap, ◌∙◌, List, [], ◌∷◌, ◌++◌, Option, some}
use angr_ghidra_core.Prelude.Int.{ℤ}
use angr_ghidra_core.Prelude.Result.{Result, ok, ◌>>=◌}
use angr_ghidra_core.Packed.{Bytes, Value}
use angr_ghidra_core.Ids.{element_name}
use angr_ghidra_core.Pcode.{Translator}
use angr_ghidra_core.Variables.{Table}
use angr_ghidra_core.Dump.{Element, Elements, cons, nil, parse_tree}
use angr_ghidra_core.Dump.Trees.{IsTree, view, view_all}
use angr_ghidra_core.Emit.{Emitter, CChunk}
use angr_ghidra_core.Emit.Ast.{model_tree}
use angr_ghidra_core.Emit.Markup.{markup_tree, chunks_trees}
use angr_ghidra_core.Emit.Document.{emit_doc}
use angr_ghidra_core.Emit.Parsed.{doc_tree, parse_tree-emit_doc}
use angr_ghidra_core.Clang.{strip_newlines, walk, walk_all, render_c, split_decompile_response}
use angr_ghidra_core.Clang.Shown.{c_text, chunks-Shows}

module _ (show : Value → Bytes) (em : Emitter) (name : Bytes) (entry : ℤ) (size : ℕ)
    (chunks : List CChunk) (table : Option Table) (translator : Option Translator) where
  split-doc :
      split_decompile_response
        (cons (view (doc_tree em name entry size chunks table translator)) nil)
      ≡ (
        some (view (model_tree em name entry size table translator)),
        some (view (markup_tree em table chunks translator)),
      )
  unfolding split_decompile_response element_name
  split-doc = refl

  walk-markup :
      walk show (view (markup_tree em table chunks translator))
      ≡ walk_all show (view_all (chunks_trees em table chunks translator))
  unfolding walk element_name
  walk-markup = refl

  rendered :
      render_c show (view (markup_tree em table chunks translator))
      ≡ ok (strip_newlines (c_text chunks) ++ 10 ∷ [])
  unfolding render_c
  rendered =
      ap (λ (r : Result Bytes). r >>= λ out. ok (strip_newlines out ++ 10 ∷ []))
        (walk-markup ∙ chunks-Shows show em table chunks translator)

  -- The C text that angr generates comes out at the reader of the response. `emit_doc` raises nothing;
  -- `parse_tree` reads its bytes; `split_decompile_response` finds a model and a markup in them; and
  -- `render_c` of the markup is the text of the chunks, without the newlines at its two ends and
  -- with one behind it. However the text is cut into chunks, lines, runs of a type and tokens with
  -- links, nothing of it is lost or moved. It holds where the texts are UTF-8 and the numbers fit
  -- the encoding.
  pub render_c-emit_doc :
      IsTree (doc_tree em name entry size chunks table translator)
      → (bs : Bytes) × (roots : Elements) × (model : Element) × (markup : Element) × (emit_doc em
            name entry size chunks table translator
          ≡ ok bs)
        × (parse_tree bs ≡ ok roots)
        × (split_decompile_response roots ≡ (some model, some markup))
        × (render_c show markup ≡ ok (strip_newlines (c_text chunks) ++ 10 ∷ []))
  render_c-emit_doc h =
      let (bs, written, read) = parse_tree-emit_doc em name entry size chunks table translator h in
      (
        bs,
        cons (view (doc_tree em name entry size chunks table translator)) nil,
        view (model_tree em name entry size table translator),
        view (markup_tree em table chunks translator),
        written,
        read,
        split-doc,
        rendered,
      )
