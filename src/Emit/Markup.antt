-- ===== src/Emit/Markup.antt =====
-- core/emit.py: the tree of tokens that `_emit_markup_function` writes.
use angr_ghidra_core.Prelude.{
  ℕ, ◌-◌, List, [], ◌∷◌, ◌++◌, Option, none, some, ◌==◌, if◌then◌else◌, length, inl, inr,
  Bool-cases,
}
use angr_ghidra_core.Prelude.Int.{pos}
use angr_ghidra_core.Packed.{Bytes}
use angr_ghidra_core.Packed.Encoder.{write_unsigned, write_string}
use angr_ghidra_core.Packed.Wire.{signed, unsigned, string}
use angr_ghidra_core.Dump.Trees.{Tree, node, Trees, done, also}
use angr_ghidra_core.Ids.Consts.{
  elem_break, elem_funcname, elem_function, elem_op, elem_syntax, elem_type, elem_variable,
  attrib_color, attrib_content, attrib_indent, attrib_opref, attrib_varref,
}
use angr_ghidra_core.Pcode.{Translator}
use angr_ghidra_core.Variables.{Table}
use angr_ghidra_core.Emit.{Emitter, CChunk, type_color, function_color, variable_color}
use angr_ghidra_core.Emit.Writer.{
  ◌>>◌, within, ◌+++◌, one, all_of, opt_attr, Writes, skip-Writes, attrs-Writes, within-Writes,
  each-Writes, unsigned-Writes, signed-Writes, string-Writes, opt-Writes, then_attr, then_kids,
}
use angr_ghidra_core.Emit.Tokens.{
  type_parts, is_word, emit_type_part, emit_type_token, emit_colored, emit_token, split_lines,
  lstrip, Links, emit_segment, emit_line, emit_segments, opref_of, links_of, emit_chunks,
  emit_markup_function,
}

-- A token without attributes but its text, and one with a color.
abbrev pub plain : ℕ → Bytes → Tree
plain id text = node id ((attrib_content, string text) ∷ []) done

abbrev pub colored : ℕ → ℕ → Bytes → Tree
colored id color text =
    node id ((attrib_color, unsigned (pos color)) ∷ (attrib_content, string text) ∷ []) done

abbrev pub type_part_tree : Emitter → Bytes → Tree
type_part_tree em part =
    if is_word em part then colored elem_type type_color part else plain elem_syntax part

abbrev pub type_part_trees : Emitter → Bytes → Trees
type_part_trees em part = one (type_part_tree em part)

abbrev pub variable_tree : ℕ → Option ℕ → Option ℕ → Bytes → Tree
variable_tree color varref opref text =
    node elem_variable
      ((attrib_color, unsigned (pos color))
        ∷ (opt_attr attrib_varref varref
            ++ (opt_attr attrib_opref opref ++ (attrib_content, string text) ∷ [])))
      done

abbrev pub funcname_tree : ℕ → Option ℕ → Bytes → Tree
funcname_tree color opref text =
    node elem_funcname
      ((attrib_color, unsigned (pos color))
        ∷ (opt_attr attrib_opref opref ++ (attrib_content, string text) ∷ []))
      done

abbrev pub colored_trees : Emitter → Bytes → ℕ → Option ℕ → Option ℕ → Trees
colored_trees em text color varref opref =
    if color == variable_color
    then one (variable_tree color varref opref text)
    else if color == function_color
    then one (funcname_tree color opref text)
    else if color == type_color
    then all_of (type_part_trees em) (type_parts text)
    else one (colored elem_syntax color text)

abbrev pub token_trees : Emitter → Bytes → Option ℕ → Option ℕ → Option ℕ → Trees
token_trees em text (some color) varref opref = colored_trees em text color varref opref
token_trees em text none varref (some opref) =
    one (
      node elem_op ((attrib_opref, unsigned (pos opref)) ∷ (attrib_content, string text) ∷ []) done)
token_trees em text none varref none = one (plain elem_syntax text)

abbrev pub segment_trees : Emitter → Links → Bytes → Trees
segment_trees em k [] = done
segment_trees em k (c ∷ cs) = token_trees em (c ∷ cs) k.color k.varref k.opref

abbrev pub break_tree : Bytes → Tree
break_tree seg =
    node elem_break ((attrib_indent, signed (pos (length seg - length (lstrip seg)))) ∷ []) done

abbrev pub line_trees : Emitter → Links → Bytes → Trees
line_trees em k seg = also (break_tree seg) (segment_trees em k (lstrip seg))

abbrev pub segments_trees : Emitter → Links → List Bytes → Trees
segments_trees em k [] = done
segments_trees em k (seg ∷ segs) = segment_trees em k seg +++ all_of (line_trees em k) segs

abbrev pub chunks_trees : Emitter → Option Table → List CChunk → Option Translator → Trees
chunks_trees em table [] translator = done
chunks_trees em table (([], obj) ∷ cs) translator = chunks_trees em table cs translator
chunks_trees em table ((c ∷ text, obj) ∷ cs) translator =
    segments_trees em (links_of table translator obj) (split_lines (c ∷ text))
    +++ chunks_trees em table cs (opref_of translator obj).1

abbrev pub markup_tree : Emitter → Option Table → List CChunk → Option Translator → Tree
markup_tree em table chunks translator =
    node elem_function [] (chunks_trees em table chunks translator)

colored-Writes :
    (id color : ℕ) (text : Bytes)
    → Writes
        (within id (write_unsigned attrib_color (pos color) >> write_string attrib_content text))
        []
        (one (colored id color text))
colored-Writes id color text = within-Writes id _ _ _ (
    then_attr _ _ _ _ _ _ (unsigned-Writes attrib_color (pos color))
      (string-Writes attrib_content text))

plain-Writes :
    (id : ℕ) (text : Bytes)
    → Writes (within id (write_string attrib_content text)) [] (one (plain id text))
plain-Writes id text = within-Writes id _ _ _ (string-Writes attrib_content text)

emit_type_part-Writes :
    (em : Emitter) (part : Bytes) → Writes (emit_type_part em part) [] (type_part_trees em part)
unfolding emit_type_part
emit_type_part-Writes em part = elim (Bool-cases (is_word em part)) [
  | inl word ↦ rw word (colored-Writes elem_type type_color part)
  | inr other ↦ rw other (plain-Writes elem_syntax part)
]

emit_type_token-Writes :
    (em : Emitter) (text : Bytes)
    → Writes (emit_type_token em text) [] (all_of (type_part_trees em) (type_parts text))
unfolding emit_type_token
emit_type_token-Writes em text =
    each-Writes (emit_type_part em) (type_part_trees em) (type_parts text)
      (emit_type_part-Writes em)

emit_colored-Writes :
    (em : Emitter) (text : Bytes) (color : ℕ) (varref opref : Option ℕ)
    → Writes (emit_colored em text color varref opref) [] (colored_trees em text color varref opref)
unfolding emit_colored
emit_colored-Writes em text color varref opref = elim (Bool-cases (color == variable_color)) [
  | inl variable ↦ rw variable (
      within-Writes elem_variable _ _ _ (
        then_attr _ _ _ _ _ _ (unsigned-Writes attrib_color (pos color)) (
          attrs-Writes _ _ _ _ _ (opt-Writes attrib_varref varref) (
            attrs-Writes _ _ _ _ _ (opt-Writes attrib_opref opref)
              (string-Writes attrib_content text)))))
  | inr other ↦ rw other (elim (Bool-cases (color == function_color)) [
    | inl function ↦ rw function (
        within-Writes elem_funcname _ _ _ (
          then_attr _ _ _ _ _ _ (unsigned-Writes attrib_color (pos color)) (
            attrs-Writes _ _ _ _ _ (opt-Writes attrib_opref opref)
              (string-Writes attrib_content text))))
    | inr others ↦ rw others (elim (Bool-cases (color == type_color)) [
      | inl type ↦ rw type (emit_type_token-Writes em text)
      | inr rest ↦ rw rest (colored-Writes elem_syntax color text)
    ])
  ])
]

emit_token-Writes :
    (em : Emitter) (text : Bytes) (color varref opref : Option ℕ)
    → Writes (emit_token em text color varref opref) [] (token_trees em text color varref opref)
unfolding emit_token
emit_token-Writes em text (some color) varref opref = emit_colored-Writes em text color varref opref
emit_token-Writes em text none varref (some opref) = within-Writes elem_op _ _ _ (
    then_attr _ _ _ _ _ _ (unsigned-Writes attrib_opref (pos opref))
      (string-Writes attrib_content text))
emit_token-Writes em text none varref none = plain-Writes elem_syntax text

emit_segment-Writes :
    (em : Emitter) (k : Links) (seg : Bytes)
    → Writes (emit_segment em k seg) [] (segment_trees em k seg)
unfolding emit_segment
emit_segment-Writes em k [] = skip-Writes
emit_segment-Writes em k (c ∷ cs) = emit_token-Writes em (c ∷ cs) k.color k.varref k.opref

emit_line-Writes :
    (em : Emitter) (k : Links) (seg : Bytes) → Writes (emit_line em k seg) [] (line_trees em k seg)
unfolding emit_line
emit_line-Writes em k seg =
    then_kids _ _ (one (break_tree seg)) _
      (within-Writes elem_break _ _ _
        (signed-Writes attrib_indent (pos (length seg - length (lstrip seg)))))
      (emit_segment-Writes em k (lstrip seg))

emit_segments-Writes :
    (em : Emitter) (k : Links) (segs : List Bytes)
    → Writes (emit_segments em k segs) [] (segments_trees em k segs)
unfolding emit_segments
emit_segments-Writes em k [] = skip-Writes
emit_segments-Writes em k (seg ∷ segs) =
    then_kids _ _ (segment_trees em k seg) (all_of (line_trees em k) segs)
      (emit_segment-Writes em k seg)
      (each-Writes (emit_line em k) (line_trees em k) segs (emit_line-Writes em k))

emit_chunks-Writes :
    (em : Emitter) (table : Option Table) (chunks : List CChunk) (translator : Option Translator)
    → Writes (emit_chunks em table chunks translator) [] (chunks_trees em table chunks translator)
unfolding emit_chunks
emit_chunks-Writes em table [] translator = skip-Writes
emit_chunks-Writes em table (([], obj) ∷ cs) translator = emit_chunks-Writes em table cs translator
emit_chunks-Writes em table ((c ∷ text, obj) ∷ cs) translator =
    then_kids _ _ (segments_trees em (links_of table translator obj) (split_lines (c ∷ text)))
      (chunks_trees em table cs (opref_of translator obj).1)
      (emit_segments-Writes em (links_of table translator obj) (split_lines (c ∷ text)))
      (emit_chunks-Writes em table cs (opref_of translator obj).1)

pub emit_markup_function-Writes :
    (em : Emitter) (table : Option Table) (chunks : List CChunk) (translator : Option Translator)
    → Writes
        (emit_markup_function em table chunks translator)
        []
        (one (markup_tree em table chunks translator))
unfolding emit_markup_function
emit_markup_function-Writes em table chunks translator =
    within-Writes elem_function _ _ _ (emit_chunks-Writes em table chunks translator)
