-- ===== src/Emit/Model.antt =====
-- core/emit.py: the model of a function, `_emit_model_function` and what it calls.
mod Parameters
unfoldable pub use Parameters.*
use angr_ghidra_core.Prelude.{
  ℕ, ◌+◌, max, Bool, true, false, ◌&&◌, List, [], ◌∷◌, Option, none, some, if◌then◌else◌,
}
use angr_ghidra_core.Prelude.Int.{ℤ, pos, negsuc}
use angr_ghidra_core.Prelude.Dicts.{get, eq_int}
use angr_ghidra_core.Prelude.Text.{codes}
use angr_ghidra_core.Packed.{Bytes}
use angr_ghidra_core.Packed.Encoder.{
  mask_u64, write_bool, write_signed, write_unsigned, write_string, write_space,
  write_special_space, write_opcode,
}
use angr_ghidra_core.Ids.Consts.{
  attrib_addrtied, attrib_cat, attrib_class, attrib_code, attrib_end, attrib_extrapop, attrib_first,
  attrib_id, attrib_index, attrib_last, attrib_lock, attrib_main, attrib_model, attrib_name,
  attrib_namelock, attrib_offset, attrib_ref, attrib_repref, attrib_rev, attrib_size, attrib_space,
  attrib_symref, attrib_typelock, attrib_uniq, attrib_val, elem_addr, elem_ast, elem_block,
  elem_blockedge, elem_doc, elem_edge, elem_function, elem_high, elem_highlist, elem_input,
  elem_localdb, elem_mapsym, elem_op, elem_output, elem_parammeasures, elem_parent, elem_proto,
  elem_prototype, elem_range, elem_rangelist, elem_rank, elem_returnsym, elem_scope, elem_seqnum,
  elem_symbol, elem_symbollist, elem_typeref, elem_varnodes, elem_void,
}
use angr_ghidra_core.Dynahash.{Space, const_space, stack_space, register_space, unique_space}
use angr_ghidra_core.Pcode.{Varnode, Op, Block, Translator}
use angr_ghidra_core.Pcode.State.{is_stack, ops_by_block}
use angr_ghidra_core.Variables.{VarSymbol, Table, high_class}
use angr_ghidra_core.Emit.{Emitter, space_const, same_bytes}
use angr_ghidra_core.Emit.Writer.{Action, skip, ◌>>◌, within, each, write_opt}

-- The space of a symbol's storage.
abbrev pub symbol_space : VarSymbol → Option ℕ
symbol_space s = if is_stack s.storage_kind then none else some s.space

unfoldable pub write_tied : Bool → Action
unfolding skip
write_tied true = write_bool attrib_addrtied true
write_tied false = skip

-- `_emit_var_storage_addr`
unfoldable pub emit_var_storage_addr : VarSymbol → Option ℕ → Bool → Action
unfolding within ◌>>◌ write_opt write_storage_space write_tied
emit_var_storage_addr s ref addrtied = within elem_addr (
    write_opt attrib_ref ref
    >> write_storage_space (symbol_space s)
    >> write_unsigned attrib_offset (pos (mask_u64 s.offset))
    >> write_signed attrib_size (pos s.size)
    >> write_tied (addrtied && is_stack s.storage_kind))

unfoldable pub write_cat_index : ℤ → Action
unfolding skip
write_cat_index (pos i) = write_unsigned attrib_index (pos i)
write_cat_index (negsuc n) = skip

unfoldable pub emit_mapsym : Emitter → VarSymbol → Action
unfolding within ◌>>◌ skip write_cat_index emit_typeref emit_var_storage_addr
emit_mapsym em s = within elem_mapsym (
    within elem_symbol (
      write_unsigned attrib_id (pos s.sym_id)
      >> write_string attrib_name s.name
      >> write_bool attrib_typelock false
      >> write_bool attrib_namelock false
      >> write_signed attrib_cat s.category
      >> write_cat_index s.cat_index
      >> emit_typeref em s.type_name)
    >> emit_var_storage_addr s none false
    >> within elem_rangelist skip)

-- `<addr ref=…/>`
unfoldable pub emit_ref : ℕ → Action
unfolding within
emit_ref ref = within elem_addr (write_unsigned attrib_ref (pos ref))

-- `sym.member_refs or [sym.varnode_ref]`
abbrev pub refs_or : List ℕ → ℕ → List ℕ
refs_or [] ref = ref ∷ []
refs_or (r ∷ rs) ref = r ∷ rs

unfoldable pub emit_high : Emitter → VarSymbol → Action
unfolding within ◌>>◌ each emit_ref emit_typeref high_class
emit_high em s = within elem_high (
    write_string attrib_class (high_class s)
    >> write_unsigned attrib_symref (pos s.sym_id)
    >> write_unsigned attrib_repref (pos s.varnode_ref)
    >> emit_typeref em s.type_name
    >> each emit_ref (refs_or s.member_refs s.varnode_ref))

unfoldable pub emit_highlist : Emitter → Table → Action
unfolding within each emit_high
emit_highlist em table = within elem_highlist (each (emit_high em) table.symbols)

abbrev pub varnode_space : Emitter → Space → Option ℕ
varnode_space em const_space = some space_const
varnode_space em stack_space = none
varnode_space em register_space = some em.space_register
varnode_space em unique_space = some em.space_unique

-- `vn.offset in stack_reps`
abbrev pub at_offset : ℤ → List VarSymbol → Bool
at_offset offset [] = false
at_offset offset (s ∷ ss) =
    let rest = at_offset offset ss in
    if is_stack s.storage_kind && eq_int s.offset offset then true else rest

unfoldable pub emit_pcode_varnode : Emitter → Table → Varnode → Action
unfolding within ◌>>◌ write_storage_space write_tied
emit_pcode_varnode em table vn = within elem_addr (
    write_unsigned attrib_ref (pos vn.ref)
    >> write_storage_space (varnode_space em vn.space)
    >> write_unsigned attrib_offset (pos (mask_u64 vn.offset))
    >> write_signed attrib_size (pos vn.size)
    >> write_tied (is_stack vn.space && at_offset vn.offset table.symbols))

unfoldable pub emit_op_output : Option ℕ → Action
unfolding within skip emit_ref
emit_op_output none = within elem_void skip
emit_op_output (some ref) = emit_ref ref

unfoldable pub emit_pcode_op : Emitter → Op → Action
unfolding within ◌>>◌ each emit_ref emit_op_output
emit_pcode_op em op = within elem_op (
    write_opcode attrib_code op.opcode
    >> within elem_seqnum (
        write_unsigned attrib_uniq (pos op.time)
        >> write_space attrib_space em.space_ram
        >> write_unsigned attrib_offset (pos op.ins_addr))
    >> emit_op_output op.output
    >> each emit_ref op.inputs)

unfoldable pub emit_block : Emitter → Block → List Op → Action
unfolding within ◌>>◌ each emit_pcode_op
emit_block em blk ops = within elem_block (
    write_signed attrib_index (pos blk.index)
    >> within elem_rangelist (
        within elem_range (
          write_space attrib_space em.space_ram
          >> write_unsigned attrib_first (pos blk.addr)
          >> write_unsigned attrib_last (pos blk.addr_last)))
    >> each (emit_pcode_op em) ops)

-- The loop over the blocks; the translator keeps the cache of `ops_by_block`.
unfoldable pub emit_blocks : Emitter → List Block → Translator → Action
unfolding skip ◌>>◌ emit_block ops_by_block
emit_blocks em [] t = skip
emit_blocks em (b ∷ bs) t =
    emit_block em b (ops_by_block b t).0 >> emit_blocks em bs (ops_by_block b t).1

unfoldable pub emit_edge : ℕ × ℕ → Action
unfolding within ◌>>◌
emit_edge (src_index, rev) =
    within elem_edge (write_signed attrib_end (pos src_index) >> write_signed attrib_rev (pos rev))

unfoldable pub emit_edges : ℕ → List (ℕ × ℕ) → Action
unfolding within ◌>>◌ skip each emit_edge
emit_edges index [] = skip
emit_edges index (e ∷ es) =
    within elem_blockedge (write_signed attrib_index (pos index) >> each emit_edge (e ∷ es))

abbrev pub emit_block_edges : Block → Action
emit_block_edges blk = emit_edges blk.index blk.in_edges

abbrev pub emit_representative : VarSymbol → Action
emit_representative s = emit_var_storage_addr s (some s.varnode_ref) true

-- `_emit_ast`
unfoldable pub emit_ast : Emitter → Table → Option Translator → Action
unfolding within ◌>>◌ each emit_var_storage_addr emit_pcode_varnode emit_blocks emit_edges
emit_ast em table none =
    within elem_ast (within elem_varnodes (each emit_representative table.symbols))
emit_ast em table (some t) = within elem_ast (
    within elem_varnodes (each (emit_pcode_varnode em table) t.varnodes)
    >> emit_blocks em t.blocks t
    >> each emit_block_edges t.blocks)

-- `for sym in var_table.symbols` where there is a table.
abbrev pub symbols_of : Option Table → List VarSymbol
symbols_of none = []
symbols_of (some table) = table.symbols

-- `if var_table.symbols:`, by the list.
unfoldable pub emit_graph_of : Emitter → List VarSymbol → Table → Option Translator → Action
unfolding skip ◌>>◌ emit_ast emit_highlist
emit_graph_of em [] table translator = skip
emit_graph_of em (s ∷ ss) table translator = emit_ast em table translator >> emit_highlist em table

-- `if var_table is not None and var_table.symbols:`
unfoldable pub emit_graph : Emitter → Option Table → Option Translator → Action
unfolding skip emit_graph_of
emit_graph em none translator = skip
emit_graph em (some table) translator = emit_graph_of em table.symbols table translator

unfoldable pub emit_localdb : Emitter → Bytes → Option Table → Action
unfolding within ◌>>◌ skip each emit_mapsym
emit_localdb em name table = within elem_localdb (
    write_bool attrib_lock false
    >> write_special_space attrib_main 0
    >> within elem_scope (
        write_string attrib_name name
        >> write_unsigned attrib_id (pos 1)
        >> within elem_parent (write_unsigned attrib_id (pos 0))
        >> within elem_rangelist skip
        >> within elem_symbollist (each (emit_mapsym em) (symbols_of table))))

unfoldable pub emit_prototype : Emitter → Action
unfolding within ◌>>◌ emit_typeref
emit_prototype em = within elem_prototype (
    write_string attrib_extrapop (codes "unknown")
    >> write_string attrib_model (codes "unknown")
    >> within elem_returnsym (
        within elem_addr (
          write_space attrib_space em.space_register
          >> write_unsigned attrib_offset em.return_register.0
          >> write_signed attrib_size em.return_register.1)
        >> emit_typeref em (codes "undefined8")))

-- `_emit_model_function`
unfoldable pub emit_model_function :
    Emitter → Bytes → ℤ → ℕ → Option Table → Option Translator → Action
unfolding within ◌>>◌ emit_entry emit_localdb emit_graph emit_prototype
emit_model_function em name entry size table translator = within elem_function (
    write_string attrib_name name
    >> write_signed attrib_size (pos (max size 1))
    >> emit_entry em entry
    >> emit_localdb em name table
    >> emit_graph em table translator
    >> emit_prototype em)
