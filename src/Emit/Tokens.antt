-- ===== src/Emit/Tokens.antt =====
-- core/emit.py: the tokens of the C markup, `_emit_token`, `_emit_type_token` and the loop of
-- `_emit_markup_function`.
use angr_ghidra_core.Prelude.{
  ℕ, ◌-◌, Bool, true, false, ◌&&◌, ◌||◌, List, [], ◌∷◌, Option, none, some, leb, ltb, ◌==◌,
  if◌then◌else◌, length, get_elem?,
}
use angr_ghidra_core.Prelude.Int.{pos}
use angr_ghidra_core.Prelude.Dicts.{get}
use angr_ghidra_core.Prelude.Text.{codes}
use angr_ghidra_core.Packed.{Bytes}
use angr_ghidra_core.Packed.Encoder.{write_signed, write_unsigned, write_string}
use angr_ghidra_core.Ids.Consts.{
  elem_break, elem_funcname, elem_function, elem_op, elem_syntax, elem_type, elem_variable,
  attrib_color, attrib_content, attrib_indent, attrib_opref, attrib_varref,
}
use angr_ghidra_core.Dynahash.{contains}
use angr_ghidra_core.Pcode.{Translator}
use angr_ghidra_core.Pcode.State.{occurrence_ref, op_time_at}
use angr_ghidra_core.Variables.{SimVariable, VarSymbol, Table, starts_with}
use angr_ghidra_core.Emit.{
  Emitter, Node, CChunk, type_color, function_color, variable_color, const_color, same_bytes,
}
use angr_ghidra_core.Emit.Writer.{Action, skip, ◌>>◌, within, each, write_opt}

-- `_color_for`
unfoldable pub color_for : Option Node → Option ℕ
unfolding starts_with
color_for none = none
color_for (some obj) =
    if same_bytes obj.class_name (codes "CFunction")
      || same_bytes obj.class_name (codes "CFunctionCall")
    then some function_color
    else if same_bytes obj.class_name (codes "CVariable")
    then some variable_color
    else if same_bytes obj.class_name (codes "CConstant")
    then some const_color
    else if starts_with (codes "SimType") obj.class_name
    then some type_color
    else if same_bytes obj.class_name (codes "CStructField")
    then some variable_color
    else none

-- `[A-Za-z0-9_]`
abbrev pub is_word_byte : ℕ → Bool
is_word_byte c =
    (leb b'A' c && leb c b'Z')
    || ((leb b'a' c && leb c b'z') || ((leb b'0' c && leb c b'9') || c == b'_'))

abbrev pub same_bool : Bool → Bool → Bool
same_bool true b = b
same_bool false true = false
same_bool false false = true

abbrev pub join_part : ℕ → List Bytes → List Bytes
join_part c [] = (c ∷ []) ∷ []
join_part c ([] ∷ ps) = (c ∷ []) ∷ ps
join_part c ((d ∷ ds) ∷ ps) =
    if same_bool (is_word_byte c) (is_word_byte d)
    then (c ∷ d ∷ ds) ∷ ps
    else (c ∷ []) ∷ (d ∷ ds) ∷ ps

-- `_TYPE_SPLIT.findall`: the runs of letters of one kind.
unfoldable pub type_parts : Bytes → List Bytes
type_parts [] = []
type_parts (c ∷ cs) = join_part c (type_parts cs)

abbrev pub is_word : Emitter → Bytes → Bool
is_word em [] = false
is_word em (c ∷ cs) = if ltb c 128 then is_word_byte c else em.wide_alnum (c ∷ cs)

unfoldable pub emit_type_part : Emitter → Bytes → Action
unfolding within ◌>>◌
emit_type_part em part =
    if is_word em part
    then within elem_type
        (write_unsigned attrib_color (pos type_color) >> write_string attrib_content part)
    else within elem_syntax (write_string attrib_content part)

-- `_emit_type_token`
unfoldable pub emit_type_token : Emitter → Bytes → Action
unfolding each emit_type_part type_parts
emit_type_token em text = each (emit_type_part em) (type_parts text)

-- `_emit_token` with a color.
unfoldable pub emit_colored : Emitter → Bytes → ℕ → Option ℕ → Option ℕ → Action
unfolding within ◌>>◌ write_opt emit_type_token
emit_colored em text color varref opref =
    if color == variable_color
    then within elem_variable (
        write_unsigned attrib_color (pos color)
        >> write_opt attrib_varref varref
        >> write_opt attrib_opref opref
        >> write_string attrib_content text)
    else if color == function_color
    then within elem_funcname (
        write_unsigned attrib_color (pos color)
        >> write_opt attrib_opref opref
        >> write_string attrib_content text)
    else if color == type_color
    then emit_type_token em text
    else within elem_syntax
        (write_unsigned attrib_color (pos color) >> write_string attrib_content text)

-- `_emit_token`
unfoldable pub emit_token : Emitter → Bytes → Option ℕ → Option ℕ → Option ℕ → Action
unfolding within ◌>>◌ emit_colored
emit_token em text (some color) varref opref = emit_colored em text color varref opref
emit_token em text none varref (some opref) =
    within elem_op (write_unsigned attrib_opref (pos opref) >> write_string attrib_content text)
emit_token em text none varref none = within elem_syntax (write_string attrib_content text)

abbrev pub push_byte : ℕ → List Bytes → List Bytes
push_byte c [] = (c ∷ []) ∷ []
push_byte c (l ∷ ls) = (c ∷ l) ∷ ls

-- `text.split("\n")`
unfoldable pub split_lines : Bytes → List Bytes
split_lines [] = [] ∷ []
split_lines (c ∷ cs) = let rest = split_lines cs in if c == 10 then [] ∷ rest else push_byte c rest

-- `seg.lstrip(" ")`
unfoldable pub lstrip : Bytes → Bytes
lstrip [] = []
lstrip (c ∷ cs) = let rest = lstrip cs in if c == b' ' then rest else c ∷ cs

-- What a chunk's tokens share.
pub record Links : Type 0 where
  pub color : Option ℕ
  pub varref : Option ℕ
  pub opref : Option ℕ

unfoldable pub emit_segment : Emitter → Links → Bytes → Action
unfolding skip emit_token
emit_segment em k [] = skip
emit_segment em k (c ∷ cs) = emit_token em (c ∷ cs) k.color k.varref k.opref

-- A segment behind a newline.
unfoldable pub emit_line : Emitter → Links → Bytes → Action
unfolding within ◌>>◌ emit_segment lstrip
emit_line em k seg =
    within elem_break (write_signed attrib_indent (pos (length seg - length (lstrip seg))))
    >> emit_segment em k (lstrip seg)

unfoldable pub emit_segments : Emitter → Links → List Bytes → Action
unfolding skip ◌>>◌ each emit_segment emit_line
emit_segments em k [] = skip
emit_segments em k (seg ∷ segs) = emit_segment em k seg >> each (emit_line em k) segs

-- The varref of an occurrence of a symbol.
abbrev pub preferred : Option ℕ → VarSymbol → Option ℕ
preferred none s = some s.varnode_ref
preferred (some occ) s = if contains s.member_refs occ then some occ else some s.varnode_ref

abbrev pub occurrence_of : Option Translator → Node → VarSymbol → Option ℕ
occurrence_of none obj s = none
occurrence_of (some t) obj s = occurrence_ref obj.vvar_id s.storage_kind s.offset t

-- `var_table.by_var_id.get(id(obj.variable))`
abbrev pub symbol_of : Table → Option SimVariable → Option VarSymbol
symbol_of table none = none
symbol_of table (some var) = elim (get ◌==◌ var.var_id table.by_var_id) [
  | none ↦ none
  | some place ↦ get_elem? table.symbols place
]

unfoldable pub varref_of : Option Table → Option Translator → Option Node → Option ℕ
unfolding get occurrence_ref
varref_of (some table) translator (some obj) =
    if same_bytes obj.class_name (codes "CVariable")
    then elim (symbol_of table obj.variable) [
      | none ↦ none
      | some s ↦ preferred (occurrence_of translator obj s) s
    ]
    else none
varref_of table translator obj = none

-- `op_time_at` of a tag, and the translator, which keeps its cache.
abbrev pub opref_at : Translator → Option ℕ → Option ℕ × Option Translator
opref_at t none = (none, some t)
opref_at t (some ia) = let (time, t') = op_time_at ia t in (time, some t')

unfoldable pub opref_of : Option Translator → Option Node → Option ℕ × Option Translator
unfolding op_time_at
opref_of (some t) (some obj) = opref_at t obj.ins_addr
opref_of translator obj = (none, translator)

abbrev pub links_of : Option Table → Option Translator → Option Node → Links
links_of table translator obj = record {
  color = color_for obj;
  varref = varref_of table translator obj;
  opref = (opref_of translator obj).0;
}

-- The loop of `_emit_markup_function`; a chunk without text is passed over.
unfoldable pub emit_chunks : Emitter → Option Table → List CChunk → Option Translator → Action
unfolding skip ◌>>◌ emit_segments split_lines color_for varref_of opref_of
emit_chunks em table [] translator = skip
emit_chunks em table (([], obj) ∷ cs) translator = emit_chunks em table cs translator
emit_chunks em table ((c ∷ text, obj) ∷ cs) translator =
    emit_segments em (links_of table translator obj) (split_lines (c ∷ text))
    >> emit_chunks em table cs (opref_of translator obj).1

-- `_emit_markup_function`
unfoldable pub emit_markup_function :
    Emitter → Option Table → List CChunk → Option Translator → Action
unfolding within emit_chunks
emit_markup_function em table chunks translator =
    within elem_function (emit_chunks em table chunks translator)
