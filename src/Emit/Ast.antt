-- ===== src/Emit/Ast.antt =====
-- core/emit.py: the tree of the blocks and of the whole function's model.
use angr_ghidra_core.Prelude.{ℕ, max, true, false, List, [], ◌∷◌, Option, none, some}
use angr_ghidra_core.Prelude.Int.{ℤ, pos}
use angr_ghidra_core.Prelude.Text.{codes}
use angr_ghidra_core.Packed.{Bytes}
use angr_ghidra_core.Packed.Wire.{boolean, signed, unsigned, string, space, special}
use angr_ghidra_core.Dump.Trees.{Tree, node, Trees, done, also}
use angr_ghidra_core.Ids.Consts.{
  attrib_end, attrib_extrapop, attrib_first, attrib_id, attrib_index, attrib_last, attrib_lock,
  attrib_main, attrib_model, attrib_name, attrib_offset, attrib_rev, attrib_size, attrib_space,
  elem_addr, elem_ast, elem_block, elem_blockedge, elem_edge, elem_function, elem_localdb,
  elem_parent, elem_prototype, elem_range, elem_rangelist, elem_returnsym, elem_scope,
  elem_symbollist, elem_varnodes,
}
use angr_ghidra_core.Pcode.{Op, Block, Translator}
use angr_ghidra_core.Pcode.State.{ops_by_block}
use angr_ghidra_core.Variables.{VarSymbol, Table}
use angr_ghidra_core.Emit.{Emitter}
use angr_ghidra_core.Emit.Writer.{
  ◌+++◌, one, all_of, Writes, skip-Writes, attrs-Writes, within-Writes, each-Writes, bool-Writes,
  unsigned-Writes, signed-Writes, string-Writes, space-Writes, special-Writes, then_kids,
}
use angr_ghidra_core.Emit.Model.{
  emit_mapsym, emit_pcode_varnode, emit_pcode_op, emit_block, emit_blocks, emit_edge, emit_edges,
  emit_block_edges, emit_representative, emit_ast, symbols_of, emit_graph_of, emit_graph,
  emit_localdb, emit_prototype, emit_model_function,
}
use angr_ghidra_core.Emit.Shapes.{leaf, typeref_tree, typeref-Writes, entry_tree, entry-Writes}
use angr_ghidra_core.Emit.Function.{
  storage_tree, storage-Writes, mapsym_trees, mapsym-Writes, highlist_tree, highlist-Writes,
  varnode_trees, varnode-Writes, op_trees, op-Writes,
}

abbrev pub block_tree : Emitter → Block → List Op → Tree
block_tree em blk ops = node elem_block ((attrib_index, signed (pos blk.index)) ∷ []) (
    also
      (node elem_rangelist [] (
        one (
          leaf elem_range (
            (attrib_space, space em.space_ram)
            ∷ (attrib_first, unsigned (pos blk.addr))
            ∷ (attrib_last, unsigned (pos blk.addr_last))
            ∷ []))))
      (all_of (op_trees em) ops))

block-Writes :
    (em : Emitter) (blk : Block) (ops : List Op)
    → Writes (emit_block em blk ops) [] (one (block_tree em blk ops))
unfolding emit_block
block-Writes em blk ops = within-Writes elem_block _ _ _ (
    attrs-Writes _ _ _ _ _ (signed-Writes attrib_index (pos blk.index)) (
      then_kids _ _ _ _
        (within-Writes elem_rangelist _ _ _ (
          within-Writes elem_range _ _ _ (
            attrs-Writes _ _ _ _ _ (space-Writes attrib_space em.space_ram) (
              attrs-Writes _ _ _ _ _ (unsigned-Writes attrib_first (pos blk.addr))
                (unsigned-Writes attrib_last (pos blk.addr_last))))))
        (each-Writes (emit_pcode_op em) (op_trees em) ops (op-Writes em))))

abbrev pub blocks_trees : Emitter → List Block → Translator → Trees
blocks_trees em [] t = done
blocks_trees em (b ∷ bs) t =
    also (block_tree em b (ops_by_block b t).0) (blocks_trees em bs (ops_by_block b t).1)

blocks-Writes :
    (em : Emitter) (bs : List Block) (t : Translator)
    → Writes (emit_blocks em bs t) [] (blocks_trees em bs t)
unfolding emit_blocks
blocks-Writes em [] t = skip-Writes
blocks-Writes em (b ∷ bs) t =
    then_kids _ _ (one (block_tree em b (ops_by_block b t).0)) _
      (block-Writes em b (ops_by_block b t).0) (blocks-Writes em bs (ops_by_block b t).1)

abbrev pub edge_trees : ℕ × ℕ → Trees
edge_trees (src_index, rev) =
    one
      (leaf elem_edge ((attrib_end, signed (pos src_index)) ∷ (attrib_rev, signed (pos rev)) ∷ []))

edge-Writes : (e : ℕ × ℕ) → Writes (emit_edge e) [] (edge_trees e)
unfolding emit_edge
edge-Writes (src_index, rev) = within-Writes elem_edge _ _ _ (
    attrs-Writes _ _ _ _ _ (signed-Writes attrib_end (pos src_index))
      (signed-Writes attrib_rev (pos rev)))

abbrev pub edges_trees : ℕ → List (ℕ × ℕ) → Trees
edges_trees index [] = done
edges_trees index (e ∷ es) =
    one (node elem_blockedge ((attrib_index, signed (pos index)) ∷ []) (all_of edge_trees (e ∷ es)))

edges-Writes :
    (index : ℕ) (es : List (ℕ × ℕ)) → Writes (emit_edges index es) [] (edges_trees index es)
unfolding emit_edges
edges-Writes index [] = skip-Writes
edges-Writes index (e ∷ es) = within-Writes elem_blockedge _ _ _ (
    attrs-Writes _ _ _ _ _ (signed-Writes attrib_index (pos index))
      (each-Writes emit_edge edge_trees (e ∷ es) edge-Writes))

abbrev pub block_edges_trees : Block → Trees
block_edges_trees blk = edges_trees blk.index blk.in_edges

abbrev pub representative_trees : VarSymbol → Trees
representative_trees s = one (storage_tree s (some s.varnode_ref) true)

abbrev pub ast_tree : Emitter → Table → Option Translator → Tree
ast_tree em table none =
    node elem_ast [] (one (node elem_varnodes [] (all_of representative_trees table.symbols)))
ast_tree em table (some t) = node elem_ast [] (
    also (node elem_varnodes [] (all_of (varnode_trees em table) t.varnodes))
      (blocks_trees em t.blocks t +++ all_of block_edges_trees t.blocks))

ast-Writes :
    (em : Emitter) (table : Table) (translator : Option Translator)
    → Writes (emit_ast em table translator) [] (one (ast_tree em table translator))
unfolding emit_ast
ast-Writes em table none = within-Writes elem_ast _ _ _ (
    within-Writes elem_varnodes _ _ _ (
      each-Writes emit_representative representative_trees table.symbols
        (λ s. storage-Writes s (some s.varnode_ref) true)))
ast-Writes em table (some t) = within-Writes elem_ast _ _ _ (
    then_kids _ _ (one (node elem_varnodes [] (all_of (varnode_trees em table) t.varnodes))) _
      (within-Writes elem_varnodes _ _ _ (
        each-Writes (emit_pcode_varnode em table) (varnode_trees em table) t.varnodes
          (varnode-Writes em table)))
      (then_kids _ _ (blocks_trees em t.blocks t) _ (blocks-Writes em t.blocks t) (
        each-Writes emit_block_edges block_edges_trees t.blocks
          (λ b. edges-Writes b.index b.in_edges))))

abbrev pub graph_of : Emitter → List VarSymbol → Table → Option Translator → Trees
graph_of em [] table translator = done
graph_of em (s ∷ ss) table translator =
    also (ast_tree em table translator) (one (highlist_tree em table))

abbrev pub graph_trees : Emitter → Option Table → Option Translator → Trees
graph_trees em none translator = done
graph_trees em (some table) translator = graph_of em table.symbols table translator

abbrev pub localdb_tree : Emitter → Bytes → Option Table → Tree
localdb_tree em name table =
    node elem_localdb ((attrib_lock, boolean false) ∷ (attrib_main, special 0) ∷ []) (
      one (
        node elem_scope ((attrib_name, string name) ∷ (attrib_id, unsigned (pos 1)) ∷ []) (
          also (leaf elem_parent ((attrib_id, unsigned (pos 0)) ∷ [])) (
            also (leaf elem_rangelist [])
              (one (node elem_symbollist [] (all_of (mapsym_trees em) (symbols_of table))))))))

localdb-Writes :
    (em : Emitter) (name : Bytes) (table : Option Table)
    → Writes (emit_localdb em name table) [] (one (localdb_tree em name table))
unfolding emit_localdb
localdb-Writes em name table = within-Writes elem_localdb _ _ _ (
    attrs-Writes _ _ _ _ _ (bool-Writes attrib_lock false) (
      attrs-Writes _ _ _ _ _ (special-Writes attrib_main 0) (
        within-Writes elem_scope _ _ _ (
          attrs-Writes _ _ _ _ _ (string-Writes attrib_name name) (
            attrs-Writes _ _ _ _ _ (unsigned-Writes attrib_id (pos 1)) (
              then_kids _ _ _ _
                (within-Writes elem_parent _ _ _ (unsigned-Writes attrib_id (pos 0)))
                (then_kids _ _ _ _ (within-Writes elem_rangelist _ _ _ skip-Writes) (
                  within-Writes elem_symbollist _ _ _ (
                    each-Writes (emit_mapsym em) (mapsym_trees em) (symbols_of table)
                      (mapsym-Writes em))))))))))

abbrev pub prototype_tree : Emitter → Tree
prototype_tree em =
    node elem_prototype
      ((attrib_extrapop, string (codes "unknown")) ∷ (attrib_model, string (codes "unknown")) ∷ [])
      (one (
        node elem_returnsym [] (
          also
            (leaf elem_addr (
              (attrib_space, space em.space_register)
              ∷ (attrib_offset, unsigned em.return_register.0)
              ∷ (attrib_size, signed em.return_register.1)
              ∷ []))
            (one (typeref_tree em (codes "undefined8"))))))

prototype-Writes : (em : Emitter) → Writes (emit_prototype em) [] (one (prototype_tree em))
unfolding emit_prototype
prototype-Writes em = within-Writes elem_prototype _ _ _ (
    attrs-Writes _ _ _ _ _ (string-Writes attrib_extrapop (codes "unknown")) (
      attrs-Writes _ _ _ _ _ (string-Writes attrib_model (codes "unknown")) (
        within-Writes elem_returnsym _ _ _ (
          then_kids _ _ _ _
            (within-Writes elem_addr _ _ _ (
              attrs-Writes _ _ _ _ _ (space-Writes attrib_space em.space_register) (
                attrs-Writes _ _ _ _ _ (unsigned-Writes attrib_offset em.return_register.0)
                  (signed-Writes attrib_size em.return_register.1))))
            (typeref-Writes em (codes "undefined8"))))))

graph_of-Writes :
    (em : Emitter) (symbols : List VarSymbol) (table : Table) (translator : Option Translator)
    → Writes (emit_graph_of em symbols table translator) [] (graph_of em symbols table translator)
unfolding emit_graph_of
graph_of-Writes em [] table translator = skip-Writes
graph_of-Writes em (s ∷ ss) table translator =
    then_kids _ _ (one (ast_tree em table translator)) (one (highlist_tree em table))
      (ast-Writes em table translator) (highlist-Writes em table)

graph-Writes :
    (em : Emitter) (table : Option Table) (translator : Option Translator)
    → Writes (emit_graph em table translator) [] (graph_trees em table translator)
unfolding emit_graph
graph-Writes em none translator = skip-Writes
graph-Writes em (some table) translator = graph_of-Writes em table.symbols table translator

abbrev pub model_tree : Emitter → Bytes → ℤ → ℕ → Option Table → Option Translator → Tree
model_tree em name entry size table translator =
    node elem_function ((attrib_name, string name) ∷ (attrib_size, signed (pos (max size 1))) ∷ [])
      (also (entry_tree em entry) (
        also (localdb_tree em name table)
          (graph_trees em table translator +++ one (prototype_tree em))))

pub model-Writes :
    (em : Emitter) (name : Bytes) (entry : ℤ) (size : ℕ) (table : Option Table)
    (translator : Option Translator)
    → Writes
        (emit_model_function em name entry size table translator)
        []
        (one (model_tree em name entry size table translator))
unfolding emit_model_function
model-Writes em name entry size table translator = within-Writes elem_function _ _ _ (
    attrs-Writes _ _ _ _ _ (string-Writes attrib_name name) (
      attrs-Writes _ _ _ _ _ (signed-Writes attrib_size (pos (max size 1))) (
        then_kids _ _ (one (entry_tree em entry)) _ (entry-Writes em entry) (
          then_kids _ _ (one (localdb_tree em name table)) _ (localdb-Writes em name table) (
            then_kids _ _ (graph_trees em table translator) (one (prototype_tree em))
              (graph-Writes em table translator) (prototype-Writes em))))))
