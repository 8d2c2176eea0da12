-- ===== src/Emit/Model/Parameters.antt =====
-- core/emit.py: references to types, `emit_parammeasures` and what it calls.
use angr_ghidra_core.Prelude.{
  ℕ, ◌+◌, Bool, true, false, List, [], ◌∷◌, Option, none, some, if◌then◌else◌,
}
use angr_ghidra_core.Prelude.Int.{ℤ, pos}
use angr_ghidra_core.Prelude.Dicts.{get}
use angr_ghidra_core.Prelude.Text.{codes}
use angr_ghidra_core.Packed.{Bytes}
use angr_ghidra_core.Packed.Encoder.{
  mask_u64, write_signed, write_unsigned, write_string, write_space, write_special_space,
}
use angr_ghidra_core.Ids.Consts.{
  attrib_extrapop, attrib_id, attrib_model, attrib_name, attrib_offset, attrib_size, attrib_space,
  attrib_val, elem_addr, elem_doc, elem_input, elem_output, elem_parammeasures, elem_proto,
  elem_rank, elem_typeref,
}
use angr_ghidra_core.Emit.{Emitter, same_bytes}
use angr_ghidra_core.Emit.Writer.{Action, skip, ◌>>◌, within}

abbrev pub has_type : Emitter → Bytes → Bool
has_type em name = elim (get same_bytes name em.coretype_ids) [ some id ↦ true | none ↦ false ]

abbrev pub first_type : List (Bytes × ℤ) → Bytes → Bytes
first_type [] name = name
first_type ((n, _) ∷ rest) name = n

-- The name that a typeref resolves against the core types.
unfoldable pub typeref_name : Emitter → Bytes → Bytes
unfolding get
typeref_name em name =
    if has_type em name
    then name
    else if has_type em (codes "undefined8")
    then codes "undefined8"
    else first_type em.coretype_ids name

unfoldable pub write_type_id : Option ℤ → Action
unfolding skip
write_type_id none = skip
write_type_id (some tid) = write_unsigned attrib_id tid

abbrev pub type_id : Emitter → Bytes → Option ℤ
type_id em name = get same_bytes (typeref_name em name) em.coretype_ids

-- `_typeref`
unfoldable pub emit_typeref : Emitter → Bytes → Action
unfolding within ◌>>◌ typeref_name get write_type_id
emit_typeref em name =
    within elem_typeref
      (write_string attrib_name (typeref_name em name) >> write_type_id (type_id em name))

-- The space "stack", or an index.
unfoldable pub write_storage_space : Option ℕ → Action
write_storage_space none = write_special_space attrib_space 0
write_storage_space (some i) = write_space attrib_space i

-- `(space, offset, size, type_name)`
pub record Measure : Type 0 where
  pub space : Option ℕ
  pub offset : ℤ
  pub size : ℤ
  pub type_name : Bytes

unfoldable pub emit_parammeasure : Emitter → ℕ → Measure → ℕ → Action
unfolding within ◌>>◌ write_storage_space emit_typeref
emit_parammeasure em elem m rank = within elem (
    within elem_addr (
      write_storage_space m.space
      >> write_unsigned attrib_offset (pos (mask_u64 m.offset))
      >> write_signed attrib_size m.size)
    >> emit_typeref em m.type_name
    >> within elem_rank (write_signed attrib_val (pos rank)))

-- The loop over `enumerate(inputs)`.
unfoldable pub emit_inputs : Emitter → ℕ → List Measure → Action
unfolding skip ◌>>◌ emit_parammeasure
emit_inputs em rank [] = skip
emit_inputs em rank (m ∷ ms) =
    emit_parammeasure em elem_input m rank >> emit_inputs em (rank + 1) ms

unfoldable pub emit_output : Emitter → Option Measure → Action
unfolding skip emit_parammeasure
emit_output em none = skip
emit_output em (some m) = emit_parammeasure em elem_output m 0

-- `<addr>` of the entry.
unfoldable pub emit_entry : Emitter → ℤ → Action
unfolding within ◌>>◌
emit_entry em entry =
    within elem_addr (write_space attrib_space em.space_ram >> write_unsigned attrib_offset entry)

unfoldable pub emit_parammeasures : Emitter → Bytes → ℤ → List Measure → Option Measure → Action
unfolding within ◌>>◌ emit_entry emit_inputs emit_output
emit_parammeasures em name entry inputs output = within elem_doc (
    within elem_parammeasures (
      write_string attrib_name name
      >> emit_entry em entry
      >> within elem_proto (
          write_string attrib_model (codes "unknown")
          >> write_string attrib_extrapop (codes "unknown"))
      >> emit_inputs em 0 inputs
      >> emit_output em output))
