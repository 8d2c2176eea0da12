-- ===== src/Clang/Shown.antt =====
-- core/emit.py with ghidra_wire/clang.py: the tokens that are emitted show the text of the chunks.
mod Texts
unfoldable pub use Texts.*
use angr_ghidra_core.Prelude.{
  ℕ, zero, suc, ◌-◌, ◌≤◌, ◌≡◌, refl, sym, ap, ap₂, ◌∙◌, List, [], ◌∷◌, ◌++◌, append-nil,
  append_assoc, Option, none, some, ◌==◌, ==_iff, length, arith, inl, inr, Bool-cases,
}
use angr_ghidra_core.Prelude.Int.{pos}
use angr_ghidra_core.Prelude.Result.{Error, Result, ok, err, ◌>>=◌}
use angr_ghidra_core.Packed.{Bytes, Value}
use angr_ghidra_core.Packed.Wire.{string, unsigned}
use angr_ghidra_core.Ids.{element_name, attribute_name}
use angr_ghidra_core.Ids.Consts.{elem_op, elem_syntax, elem_type, attrib_opref, attrib_content}
use angr_ghidra_core.Dump.Trees.{node, Trees, done, also, view, view_all}
use angr_ghidra_core.Pcode.{Translator}
use angr_ghidra_core.Variables.{Table}
use angr_ghidra_core.Emit.{Emitter, CChunk, type_color, function_color, variable_color}
use angr_ghidra_core.Emit.Writer.{◌+++◌, one, all_of}
use angr_ghidra_core.Emit.Tokens.{
  type_parts, join_part, is_word, is_word_byte, split_lines, push_byte, lstrip, Links, opref_of,
  links_of, same_bool,
}
use angr_ghidra_core.Emit.Markup.{
  plain, colored, type_part_trees, variable_tree, funcname_tree, colored_trees, token_trees,
  segment_trees, break_tree, line_trees, segments_trees, chunks_trees,
}
use angr_ghidra_core.Clang.{spaces, walk, walk_all}

-- The text of the generated C.
abbrev pub c_text : List CChunk → Bytes
c_text [] = []
c_text ((text, _) ∷ cs) = text ++ c_text cs

err-ne-ok : {e : Error} {bs : Bytes} → ¬ (◌≡◌ {A = Result Bytes} (err e) (ok bs))
err-ne-ok h = cc

module _ (show : Value → Bytes) where
  -- The text of trees, one behind the other.
  abbrev Shows : Trees → Bytes → Type 0
  Shows ts bs = walk_all show (view_all ts) ≡ ok bs

  inverted :
      (r q : Result Bytes) (bs : Bytes)
      → (r >>= λ here. q >>= λ rest. ok (here ++ rest)) ≡ ok bs
      → (x : Bytes) × (y : Bytes) × (r ≡ ok x) × (q ≡ ok y) × (bs ≡ x ++ y)
  inverted (ok x) (ok y) bs h = (x, y, refl, refl, cc)
  inverted (ok x) (err e) bs h = absurd (err-ne-ok h)
  inverted (err e) q bs h = absurd (err-ne-ok h)

  walk_all-append :
      (ts us : Trees) (bs cs : Bytes) → Shows ts bs → Shows us cs → Shows (ts +++ us) (bs ++ cs)
  unfolding walk_all
  walk_all-append done us bs cs a b =
      b ∙ ap (λ (r : Result Bytes). r >>= λ before. ok (before ++ cs)) a
  walk_all-append (also t ts) us bs cs a b =
      let (x, y, first, rest, e) =
        inverted (walk show (view t)) (walk_all show (view_all ts)) bs a in
      rw (first, walk_all-append ts us y cs rest b)
        (ap ok (sym (append_assoc x y cs) ∙ ap (λ q. q ++ cs) (sym e)))

  syntax-Shows : (s : Bytes) → Shows (one (plain elem_syntax s)) s
  unfolding walk_all element_name attribute_name
  syntax-Shows s = ap ok (append-nil s)

  colored_syntax-Shows : (color : ℕ) (s : Bytes) → Shows (one (colored elem_syntax color s)) s
  unfolding walk_all element_name attribute_name
  colored_syntax-Shows color s = ap ok (append-nil s)

  colored_type-Shows : (color : ℕ) (s : Bytes) → Shows (one (colored elem_type color s)) s
  unfolding walk_all element_name attribute_name
  colored_type-Shows color s = ap ok (append-nil s)

  variable-Shows :
      (color : ℕ) (varref opref : Option ℕ) (s : Bytes)
      → Shows (one (variable_tree color varref opref s)) s
  unfolding walk_all element_name attribute_name
  variable-Shows color none none s = ap ok (append-nil s)
  variable-Shows color none (some o) s = ap ok (append-nil s)
  variable-Shows color (some r) none s = ap ok (append-nil s)
  variable-Shows color (some r) (some o) s = ap ok (append-nil s)

  funcname-Shows :
      (color : ℕ) (opref : Option ℕ) (s : Bytes) → Shows (one (funcname_tree color opref s)) s
  unfolding walk_all element_name attribute_name
  funcname-Shows color none s = ap ok (append-nil s)
  funcname-Shows color (some o) s = ap ok (append-nil s)

  type_part-Shows : (em : Emitter) (part : Bytes) → Shows (type_part_trees em part) part
  type_part-Shows em part = elim (Bool-cases (is_word em part)) [
    | inl word ↦ rw word (colored_type-Shows type_color part)
    | inr other ↦ rw other (syntax-Shows part)
  ]

  all-Shows :
      (tree : Bytes → Trees) (parts : List Bytes)
      → ((part : Bytes) → Shows (tree part) part)
      → Shows (all_of tree parts) (concat parts)
  unfolding walk_all
  all-Shows tree [] h = refl
  all-Shows tree (p ∷ ps) h =
      walk_all-append (tree p) (all_of tree ps) p (concat ps) (h p) (all-Shows tree ps h)

  colored-Shows :
      (em : Emitter) (text : Bytes) (color : ℕ) (varref opref : Option ℕ)
      → Shows (colored_trees em text color varref opref) text
  colored-Shows em text color varref opref = elim (Bool-cases (color == variable_color)) [
    | inl variable ↦ rw variable (variable-Shows color varref opref text)
    | inr other ↦ rw other (elim (Bool-cases (color == function_color)) [
      | inl function ↦ rw function (funcname-Shows color opref text)
      | inr others ↦ rw others (elim (Bool-cases (color == type_color)) [
        | inl type ↦ rw type (
            all-Shows (type_part_trees em) (type_parts text) (type_part-Shows em)
            ∙ ap ok (concat-type_parts text))
        | inr rest ↦ rw rest (colored_syntax-Shows color text)
      ])
    ])
  ]

  op-Shows :
      (opref : ℕ) (s : Bytes)
      → Shows
          (one (
            node elem_op
              ((attrib_opref, unsigned (pos opref)) ∷ (attrib_content, string s) ∷ [])
              done))
          s
  unfolding walk_all element_name attribute_name
  op-Shows opref s = ap ok (append-nil s)

  token-Shows :
      (em : Emitter) (text : Bytes) (color varref opref : Option ℕ)
      → Shows (token_trees em text color varref opref) text
  token-Shows em text (some color) varref opref = colored-Shows em text color varref opref
  token-Shows em text none varref (some opref) = op-Shows opref text
  token-Shows em text none varref none = syntax-Shows text

  segment-Shows : (em : Emitter) (k : Links) (seg : Bytes) → Shows (segment_trees em k seg) seg
  unfolding walk_all
  segment-Shows em k [] = refl
  segment-Shows em k (c ∷ cs) = token-Shows em (c ∷ cs) k.color k.varref k.opref

  break-Shows :
      (seg : Bytes) → Shows (one (break_tree seg)) (10 ∷ spaces (length seg - length (lstrip seg)))
  unfolding walk_all element_name attribute_name
  break-Shows seg = ap ok (append-nil (10 ∷ spaces (length seg - length (lstrip seg))))

  line-Shows : (em : Emitter) (k : Links) (seg : Bytes) → Shows (line_trees em k seg) (10 ∷ seg)
  line-Shows em k seg =
      walk_all-append (one (break_tree seg)) (segment_trees em k (lstrip seg)) _ (lstrip seg)
        (break-Shows seg) (segment-Shows em k (lstrip seg))
      ∙ ap (λ bs. ok (10 ∷ bs)) (spaces-lstrip seg)

  lines-Shows :
      (em : Emitter) (k : Links) (segs : List Bytes)
      → Shows (all_of (line_trees em k) segs) (behind_newline segs)
  unfolding walk_all
  lines-Shows em k [] = refl
  lines-Shows em k (seg ∷ segs) =
      walk_all-append (line_trees em k seg) (all_of (line_trees em k) segs) (10 ∷ seg)
        (behind_newline segs) (line-Shows em k seg) (lines-Shows em k segs)

  segments-Shows :
      (em : Emitter) (k : Links) (segs : List Bytes)
      → Shows (segments_trees em k segs) (unsplit segs)
  unfolding walk_all
  segments-Shows em k [] = refl
  segments-Shows em k (seg ∷ segs) =
      walk_all-append (segment_trees em k seg) (all_of (line_trees em k) segs) seg
        (behind_newline segs) (segment-Shows em k seg) (lines-Shows em k segs)

  pub chunks-Shows :
      (em : Emitter) (table : Option Table) (chunks : List CChunk) (translator : Option Translator)
      → walk_all show (view_all (chunks_trees em table chunks translator)) ≡ ok (c_text chunks)
  unfolding walk_all
  chunks-Shows em table [] translator = refl
  chunks-Shows em table (([], obj) ∷ cs) translator = chunks-Shows em table cs translator
  chunks-Shows em table ((c ∷ text, obj) ∷ cs) translator =
      walk_all-append (segments_trees em (links_of table translator obj) (split_lines (c ∷ text)))
        (chunks_trees em table cs (opref_of translator obj).1) (c ∷ text) (c_text cs)
        (segments-Shows em (links_of table translator obj) (split_lines (c ∷ text))
          ∙ ap ok (unsplit-split_lines (c ∷ text)))
        (chunks-Shows em table cs (opref_of translator obj).1)
