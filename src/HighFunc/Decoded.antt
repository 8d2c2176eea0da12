-- ===== src/HighFunc/Decoded.antt =====
-- ghidra_wire/highfunc.py at the end of the way: what `decode_high_function` returns for the model of
-- an emitted response.
use angr_ghidra_core.Prelude.{ℕ, max, ◌≡◌, refl, sym, ap, ◌∙◌, true, List, [], ◌∷◌, some, map}
use mathlib.Core.Path.{subst}
use angr_ghidra_core.Prelude.Int.{ℤ, pos}
use angr_ghidra_core.Prelude.Result.{ok}
use angr_ghidra_core.Packed.{Bytes, int, text}
use angr_ghidra_core.Packed.Wire.{signed, string, unsigned, read_back}
use angr_ghidra_core.Ids.{element_name, attribute_name}
use angr_ghidra_core.Dump.{Element, Elements, parse_tree, cons, nil}
use angr_ghidra_core.Dump.Access.{has_name}
use angr_ghidra_core.Dump.Trees.{Tree, node, also, IsTree, view}
use angr_ghidra_core.Pcode.{Translator}
use angr_ghidra_core.Pcode as Pcode
use angr_ghidra_core.Ids.Consts.{attrib_name, attrib_size, elem_function}
use angr_ghidra_core.Variables.{VarSymbol, Table}
use angr_ghidra_core.Emit.{Emitter, CChunk}
use angr_ghidra_core.Emit.Writer.{◌+++◌, one}
use angr_ghidra_core.Emit.Shapes.{entry_tree}
use angr_ghidra_core.Emit.Function.{mapsym_tree}
use angr_ghidra_core.Emit.Ast.{graph_of, localdb_tree, prototype_tree, model_tree}
use angr_ghidra_core.Emit.Markup.{markup_tree}
use angr_ghidra_core.Emit.Document.{emit_doc}
use angr_ghidra_core.Emit.Parsed.{doc_tree, parse_tree-emit_doc}
use angr_ghidra_core.Clang.{split_decompile_response}
use angr_ghidra_core.HighFunc.{
  HighFunction, decode_mapsym, decode_varnode, decode_high, decode_high_function,
}
use angr_ghidra_core.HighFunc.Emitted.{
  seen_symbol, seen_varnode, seen_high, with_name-all_of, map-pointwise, decode-mapsym,
  varnode_tree, decode-varnode, high_tree, decode-high,
}

-- What the reader is to find.
pub record IsRead (em : Emitter) (name : Bytes) (entry : ℤ) (size : ℕ) (table : Table)
    (t : Translator) (hf : HighFunction) : Type 0 where
  pub named : hf.name ≡ some (text name)
  pub entered : hf.entry_offset ≡ some (read_back (unsigned entry))
  pub in_ram : hf.entry_space ≡ some (int (pos em.space_ram))
  pub sized : hf.size ≡ some (int (pos (max size 1)))
  pub symbols : hf.symbols ≡ map (seen_symbol em) table.symbols
  pub varnodes : hf.varnodes ≡ map (seen_varnode em) t.varnodes
  pub highs : hf.highs ≡ map (seen_high em) table.symbols

mapsym-named : (em : Emitter) (s : VarSymbol) → has_name "mapsym" (view (mapsym_tree em s)) ≡ true
unfolding element_name
mapsym-named em s = refl

addr-named :
    (em : Emitter) (table : Table) (vn : Pcode.Varnode)
    → has_name "addr" (view (varnode_tree em table vn)) ≡ true
unfolding element_name
addr-named em table vn = refl

high-named : (em : Emitter) (s : VarSymbol) → has_name "high" (view (high_tree em s)) ≡ true
unfolding element_name
high-named em s = refl

-- The model, with the symbols that decide on its graph taken out.
abbrev model_of : List VarSymbol → Emitter → Bytes → ℤ → ℕ → Table → Translator → Tree
model_of symbols em name entry size table t =
    node elem_function ((attrib_name, string name) ∷ (attrib_size, signed (pos (max size 1))) ∷ [])
      (also (entry_tree em entry) (
        also (localdb_tree em name (some table))
          (graph_of em symbols table (some t) +++ one (prototype_tree em))))

model_of-IsRead :
    (s : VarSymbol) (ss : List VarSymbol) (em : Emitter) (name : Bytes) (entry : ℤ) (size : ℕ)
    (table : Table) (t : Translator)
    → IsRead em name entry size table t
        (decode_high_function (view (model_of (s ∷ ss) em name entry size table t)))
unfolding decode_high_function element_name attribute_name
model_of-IsRead s ss em name entry size table t = record {
  named = refl;
  entered = refl;
  in_ram = refl;
  sized = refl;
  symbols =
      ap (map decode_mapsym)
        (with_name-all_of (mapsym_tree em) "mapsym" table.symbols (mapsym-named em))
      ∙ map-pointwise decode_mapsym (λ x. view (mapsym_tree em x)) (seen_symbol em) table.symbols
          (decode-mapsym em);
  varnodes =
      ap (map decode_varnode)
        (with_name-all_of (varnode_tree em table) "addr" t.varnodes (addr-named em table))
      ∙ map-pointwise decode_varnode (λ x. view (varnode_tree em table x)) (seen_varnode em)
          t.varnodes (decode-varnode em table);
  highs =
      ap (map decode_high) (with_name-all_of (high_tree em) "high" table.symbols (high-named em))
      ∙ map-pointwise decode_high (λ x. view (high_tree em x)) (seen_high em) table.symbols
          (decode-high em);
}

-- The model of a function comes out at its reader. For a table that has symbols and a translator,
-- `emit_doc` raises nothing, `parse_tree` reads its bytes, `split_decompile_response` finds a model
-- and a markup, and `decode_high_function` of the model has the name, the entry and the size, the
-- symbols of the table with their types and storages, the varnodes of the translator, and for each
-- symbol the variable with its representative and its members, all in order. It holds where the texts
-- are UTF-8 and the numbers fit the encoding.
pub decode_high_function-emit_doc :
    (em : Emitter) (name : Bytes) (entry : ℤ) (size : ℕ) (chunks : List CChunk) (table : Table)
    (t : Translator) (s : VarSymbol) (ss : List VarSymbol)
    → table.symbols ≡ s ∷ ss
    → IsTree (doc_tree em name entry size chunks (some table) (some t))
    → (bs : Bytes) × (roots : Elements) × (model : Element) × (markup : Element) × (emit_doc em name
          entry size chunks
          (some table)
          (some t)
        ≡ ok bs)
      × (parse_tree bs ≡ ok roots)
      × (split_decompile_response roots ≡ (some model, some markup))
      × IsRead em name entry size table t (decode_high_function model)
unfolding split_decompile_response element_name
decode_high_function-emit_doc em name entry size chunks table t s ss some_symbols h =
    let (bs, written, read) =
      parse_tree-emit_doc em name entry size chunks (some table) (some t) h in
    (
      bs,
      cons (view (doc_tree em name entry size chunks (some table) (some t))) nil,
      view (model_tree em name entry size (some table) (some t)),
      view (markup_tree em (some table) chunks (some t)),
      written,
      read,
      refl,
      subst
          (λ symbols.
            IsRead em name entry size table t
              (decode_high_function (view (model_of symbols em name entry size table t))))
          (sym some_symbols) (model_of-IsRead s ss em name entry size table t),
    )
