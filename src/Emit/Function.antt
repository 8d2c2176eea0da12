-- ===== src/Emit/Function.antt =====
-- core/emit.py: the tree of the function's model, with its variables and its p-code.
use angr_ghidra_core.Prelude.{ℕ, Bool, true, false, ◌&&◌, List, [], ◌∷◌, ◌++◌, Option, none, some}
use angr_ghidra_core.Prelude.Int.{ℤ, pos, negsuc}
use angr_ghidra_core.Packed.Encoder.{
  mask_u64, write_bool, write_signed, write_unsigned, write_string,
}
use angr_ghidra_core.Packed.Wire.{Write, boolean, signed, unsigned, string, space, opcode}
use angr_ghidra_core.Dump.Trees.{Tree, node, Trees, done, also}
use angr_ghidra_core.Ids.Consts.{
  attrib_addrtied, attrib_cat, attrib_class, attrib_code, attrib_id, attrib_index, attrib_name,
  attrib_namelock, attrib_offset, attrib_ref, attrib_repref, attrib_size, attrib_space,
  attrib_symref, attrib_typelock, attrib_uniq, elem_addr, elem_high, elem_highlist, elem_mapsym,
  elem_op, elem_rangelist, elem_seqnum, elem_symbol, elem_void,
}
use angr_ghidra_core.Pcode.{Varnode, Op}
use angr_ghidra_core.Pcode.State.{is_stack}
use angr_ghidra_core.Variables.{VarSymbol, Table, high_class}
use angr_ghidra_core.Emit.{Emitter}
use angr_ghidra_core.Emit.Writer.{
  ◌>>◌, within, ◌+++◌, one, all_of, opt_attr, Writes, skip-Writes, attrs-Writes, within-Writes,
  each-Writes, bool-Writes, unsigned-Writes, signed-Writes, string-Writes, space-Writes,
  opcode-Writes, opt-Writes, then_kids,
}
use angr_ghidra_core.Emit.Model.{
  emit_typeref, symbol_space, write_tied, emit_var_storage_addr, write_cat_index, emit_mapsym,
  emit_ref, refs_or, emit_high, emit_highlist, varnode_space, at_offset, emit_pcode_varnode,
  emit_op_output, emit_pcode_op,
}
use angr_ghidra_core.Emit.Shapes.{
  leaf, typeref_tree, typeref-Writes, space_attr, storage_space-Writes,
}

abbrev pub tied_attr : Bool → List (ℕ × Write)
tied_attr true = (attrib_addrtied, boolean true) ∷ []
tied_attr false = []

tied-Writes : (b : Bool) → Writes (write_tied b) (tied_attr b) done
unfolding write_tied
tied-Writes true = bool-Writes attrib_addrtied true
tied-Writes false = skip-Writes

abbrev pub storage_tree : VarSymbol → Option ℕ → Bool → Tree
storage_tree s ref addrtied = leaf elem_addr (
    opt_attr attrib_ref ref
    ++ space_attr (symbol_space s)
      ∷ (attrib_offset, unsigned (pos (mask_u64 s.offset)))
      ∷ (attrib_size, signed (pos s.size))
      ∷ tied_attr (addrtied && is_stack s.storage_kind))

pub storage-Writes :
    (s : VarSymbol) (ref : Option ℕ) (addrtied : Bool)
    → Writes (emit_var_storage_addr s ref addrtied) [] (one (storage_tree s ref addrtied))
unfolding emit_var_storage_addr
storage-Writes s ref addrtied = within-Writes elem_addr _ _ _ (
    attrs-Writes _ _ _ _ _ (opt-Writes attrib_ref ref) (
      attrs-Writes _ _ _ _ _ (storage_space-Writes (symbol_space s)) (
        attrs-Writes _ _ _ _ _ (unsigned-Writes attrib_offset (pos (mask_u64 s.offset))) (
          attrs-Writes _ _ _ _ _ (signed-Writes attrib_size (pos s.size))
            (tied-Writes (addrtied && is_stack s.storage_kind))))))

abbrev pub cat_index_attr : ℤ → List (ℕ × Write)
cat_index_attr (pos i) = (attrib_index, unsigned (pos i)) ∷ []
cat_index_attr (negsuc n) = []

cat_index-Writes : (i : ℤ) → Writes (write_cat_index i) (cat_index_attr i) done
unfolding write_cat_index
cat_index-Writes (pos i) = unsigned-Writes attrib_index (pos i)
cat_index-Writes (negsuc n) = skip-Writes

abbrev pub symbol_tree : Emitter → VarSymbol → Tree
symbol_tree em s =
    node elem_symbol
      ((attrib_id, unsigned (pos s.sym_id))
        ∷ (attrib_name, string s.name)
        ∷ (attrib_typelock, boolean false)
        ∷ (attrib_namelock, boolean false)
        ∷ (attrib_cat, signed s.category)
        ∷ (cat_index_attr s.cat_index ++ []))
      (one (typeref_tree em s.type_name))

abbrev pub mapsym_tree : Emitter → VarSymbol → Tree
mapsym_tree em s =
    node elem_mapsym []
      (also (symbol_tree em s) (also (storage_tree s none false) (one (leaf elem_rangelist []))))

abbrev pub mapsym_trees : Emitter → VarSymbol → Trees
mapsym_trees em s = one (mapsym_tree em s)

symbol-Writes :
    (em : Emitter) (s : VarSymbol)
    → Writes
        (within elem_symbol (
          write_unsigned attrib_id (pos s.sym_id)
          >> write_string attrib_name s.name
          >> write_bool attrib_typelock false
          >> write_bool attrib_namelock false
          >> write_signed attrib_cat s.category
          >> write_cat_index s.cat_index
          >> emit_typeref em s.type_name))
        []
        (one (symbol_tree em s))
symbol-Writes em s = within-Writes elem_symbol _ _ _ (
    attrs-Writes _ _ _ _ _ (unsigned-Writes attrib_id (pos s.sym_id)) (
      attrs-Writes _ _ _ _ _ (string-Writes attrib_name s.name) (
        attrs-Writes _ _ _ _ _ (bool-Writes attrib_typelock false) (
          attrs-Writes _ _ _ _ _ (bool-Writes attrib_namelock false) (
            attrs-Writes _ _ _ _ _ (signed-Writes attrib_cat s.category) (
              attrs-Writes _ _ _ _ _ (cat_index-Writes s.cat_index)
                (typeref-Writes em s.type_name)))))))

pub mapsym-Writes :
    (em : Emitter) (s : VarSymbol) → Writes (emit_mapsym em s) [] (mapsym_trees em s)
unfolding emit_mapsym
mapsym-Writes em s = within-Writes elem_mapsym _ _ _ (
    then_kids _ _ _ _ (symbol-Writes em s) (
      then_kids _ _ _ _ (storage-Writes s none false)
        (within-Writes elem_rangelist _ _ _ skip-Writes)))

abbrev pub ref_trees : ℕ → Trees
ref_trees ref = one (leaf elem_addr ((attrib_ref, unsigned (pos ref)) ∷ []))

pub ref-Writes : (ref : ℕ) → Writes (emit_ref ref) [] (ref_trees ref)
unfolding emit_ref
ref-Writes ref = within-Writes elem_addr _ _ _ (unsigned-Writes attrib_ref (pos ref))

abbrev pub high_trees : Emitter → VarSymbol → Trees
high_trees em s = one (
    node elem_high
      ((attrib_class, string (high_class s))
        ∷ (attrib_symref, unsigned (pos s.sym_id))
        ∷ (attrib_repref, unsigned (pos s.varnode_ref))
        ∷ [])
      (also (typeref_tree em s.type_name) (all_of ref_trees (refs_or s.member_refs s.varnode_ref))))

high-Writes : (em : Emitter) (s : VarSymbol) → Writes (emit_high em s) [] (high_trees em s)
unfolding emit_high
high-Writes em s = within-Writes elem_high _ _ _ (
    attrs-Writes _ _ _ _ _ (string-Writes attrib_class (high_class s)) (
      attrs-Writes _ _ _ _ _ (unsigned-Writes attrib_symref (pos s.sym_id)) (
        attrs-Writes _ _ _ _ _ (unsigned-Writes attrib_repref (pos s.varnode_ref)) (
          then_kids _ _ (one (typeref_tree em s.type_name)) _ (typeref-Writes em s.type_name)
            (each-Writes emit_ref ref_trees (refs_or s.member_refs s.varnode_ref) ref-Writes)))))

abbrev pub highlist_tree : Emitter → Table → Tree
highlist_tree em table = node elem_highlist [] (all_of (high_trees em) table.symbols)

pub highlist-Writes :
    (em : Emitter) (table : Table)
    → Writes (emit_highlist em table) [] (one (highlist_tree em table))
unfolding emit_highlist
highlist-Writes em table =
    within-Writes elem_highlist _ _ _
      (each-Writes (emit_high em) (high_trees em) table.symbols (high-Writes em))

abbrev pub varnode_trees : Emitter → Table → Varnode → Trees
varnode_trees em table vn = one (
    leaf elem_addr (
      (attrib_ref, unsigned (pos vn.ref))
      ∷ space_attr (varnode_space em vn.space)
      ∷ (attrib_offset, unsigned (pos (mask_u64 vn.offset)))
      ∷ (attrib_size, signed (pos vn.size))
      ∷ tied_attr (is_stack vn.space && at_offset vn.offset table.symbols)))

pub varnode-Writes :
    (em : Emitter) (table : Table) (vn : Varnode)
    → Writes (emit_pcode_varnode em table vn) [] (varnode_trees em table vn)
unfolding emit_pcode_varnode
varnode-Writes em table vn = within-Writes elem_addr _ _ _ (
    attrs-Writes _ _ _ _ _ (unsigned-Writes attrib_ref (pos vn.ref)) (
      attrs-Writes _ _ _ _ _ (storage_space-Writes (varnode_space em vn.space)) (
        attrs-Writes _ _ _ _ _ (unsigned-Writes attrib_offset (pos (mask_u64 vn.offset))) (
          attrs-Writes _ _ _ _ _ (signed-Writes attrib_size (pos vn.size))
            (tied-Writes (is_stack vn.space && at_offset vn.offset table.symbols))))))

abbrev pub op_output_trees : Option ℕ → Trees
op_output_trees none = one (leaf elem_void [])
op_output_trees (some ref) = ref_trees ref

op_output-Writes : (o : Option ℕ) → Writes (emit_op_output o) [] (op_output_trees o)
unfolding emit_op_output
op_output-Writes none = within-Writes elem_void _ _ _ skip-Writes
op_output-Writes (some ref) = ref-Writes ref

abbrev pub op_trees : Emitter → Op → Trees
op_trees em op = one (
    node elem_op ((attrib_code, opcode op.opcode) ∷ []) (
      also
        (leaf elem_seqnum (
          (attrib_uniq, unsigned (pos op.time))
          ∷ (attrib_space, space em.space_ram)
          ∷ (attrib_offset, unsigned (pos op.ins_addr))
          ∷ []))
        (op_output_trees op.output +++ all_of ref_trees op.inputs)))

pub op-Writes : (em : Emitter) (op : Op) → Writes (emit_pcode_op em op) [] (op_trees em op)
unfolding emit_pcode_op
op-Writes em op = within-Writes elem_op _ _ _ (
    attrs-Writes _ _ _ _ _ (opcode-Writes attrib_code op.opcode) (
      then_kids _ _ _ _
        (within-Writes elem_seqnum _ _ _ (
          attrs-Writes _ _ _ _ _ (unsigned-Writes attrib_uniq (pos op.time)) (
            attrs-Writes _ _ _ _ _ (space-Writes attrib_space em.space_ram)
              (unsigned-Writes attrib_offset (pos op.ins_addr)))))
        (then_kids _ _ (op_output_trees op.output) _ (op_output-Writes op.output)
          (each-Writes emit_ref ref_trees op.inputs ref-Writes))))
