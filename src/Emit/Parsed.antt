-- ===== src/Emit/Parsed.antt =====
-- core/emit.py with ghidra_wire/dump.py: what the parser finds in the responses that are emitted.
use angr_ghidra_core.Prelude.{ℕ, ◌≡◌, ◌∙◌, List, [], Option}
use angr_ghidra_core.Prelude.Int.{ℤ}
use angr_ghidra_core.Prelude.Result.{ok}
use angr_ghidra_core.Packed.{Bytes}
use angr_ghidra_core.Ids.Consts.{elem_doc}
use angr_ghidra_core.Pcode.{Translator}
use angr_ghidra_core.Variables.{Table}
use angr_ghidra_core.Dump.{cons, nil, parse_tree}
use angr_ghidra_core.Dump.Trees.{Tree, node, also, IsTree, view, write_attrs}
use angr_ghidra_core.Dump.RoundTrip.{parse_tree-emit_all}
use angr_ghidra_core.Emit.{Emitter, CChunk}
use angr_ghidra_core.Emit.Writer.{one, Action, Writes, within-Writes, then_kids}
use angr_ghidra_core.Emit.Model.{Measure, emit_parammeasures}
use angr_ghidra_core.Emit.Shapes.{parammeasures_tree, parammeasures-Writes}
use angr_ghidra_core.Emit.Ast.{model_tree, model-Writes}
use angr_ghidra_core.Emit.Markup.{markup_tree, emit_markup_function-Writes}
use angr_ghidra_core.Emit.Document.{emit_doc}

-- The document of a decompilation: the model of the function, and the tokens of its C text.
abbrev pub doc_tree :
    Emitter → Bytes → ℤ → ℕ → List CChunk → Option Table → Option Translator → Tree
doc_tree em name entry size chunks table translator = node elem_doc [] (
    also (model_tree em name entry size table translator)
      (one (markup_tree em table chunks translator)))

pub parse_tree-Writes :
    (f : Action) (t : Tree)
    → Writes f [] (one t)
    → IsTree t
    → (bs : Bytes) × (f [] ≡ ok bs) × (parse_tree bs ≡ ok (cons (view t) nil))
unfolding write_attrs
parse_tree-Writes f t w h =
    let (bs, written, read) = parse_tree-emit_all (one t) (h, tt) in (bs, w.run [] ∙ written, read)

-- The response to a decompilation is read back: `emit_doc` raises nothing, and `parse_tree` finds in
-- its bytes one document with the two functions, the model with its symbols, varnodes, blocks,
-- operations and edges, and the tokens of the C text, each with its attributes. It holds where the
-- texts are UTF-8 and the numbers fit the encoding.
pub parse_tree-emit_doc :
    (em : Emitter) (name : Bytes) (entry : ℤ) (size : ℕ) (chunks : List CChunk)
    (table : Option Table) (translator : Option Translator)
    → IsTree (doc_tree em name entry size chunks table translator)
    → (bs : Bytes) × (emit_doc em name entry size chunks table translator ≡ ok bs)
      × (parse_tree bs ≡ ok (cons (view (doc_tree em name entry size chunks table translator)) nil))
unfolding emit_doc
parse_tree-emit_doc em name entry size chunks table translator h =
    parse_tree-Writes _ (doc_tree em name entry size chunks table translator)
      (within-Writes elem_doc _ _ _ (
        then_kids _ _ (one (model_tree em name entry size table translator))
          (one (markup_tree em table chunks translator))
          (model-Writes em name entry size table translator)
          (emit_markup_function-Writes em table chunks translator)))
      h

-- The recovered parameters are read back: `parse_tree` finds in the bytes of `emit_parammeasures` the
-- name, the entry, each input with its storage, type and rank in order, and the output if there is
-- one. It holds where the texts are UTF-8 and the numbers fit the encoding.
pub parse_tree-emit_parammeasures :
    (em : Emitter) (name : Bytes) (entry : ℤ) (inputs : List Measure) (output : Option Measure)
    → IsTree (parammeasures_tree em name entry inputs output)
    → (bs : Bytes) × (emit_parammeasures em name entry inputs output [] ≡ ok bs)
      × (parse_tree bs ≡ ok (cons (view (parammeasures_tree em name entry inputs output)) nil))
parse_tree-emit_parammeasures em name entry inputs output h =
    parse_tree-Writes (emit_parammeasures em name entry inputs output)
      (parammeasures_tree em name entry inputs output)
      (parammeasures-Writes em name entry inputs output) h
