-- ===== src/Oracle/Registers.antt =====
-- core/angr_core.py with harness/oracle.py: a register's storage through the oracle.
use angr_ghidra_core.Prelude.{ℕ, List, [], ◌∷◌, ◌++◌, append-nil, some, ◌≡◌, refl, sym, ◌∙◌, ap}
use angr_ghidra_core.Prelude.Dicts.{get}
use angr_ghidra_core.Prelude.Int.{pos}
use angr_ghidra_core.Prelude.Result.{ok}
use angr_ghidra_core.Packed.{Bytes, int}
use angr_ghidra_core.Packed.Decoder.{Decoder, init, open_element, attributes}
use angr_ghidra_core.Packed.Encoder.{mask_u64}
use angr_ghidra_core.Packed.Groups.{Ahead}
use angr_ghidra_core.Packed.Wire.{Write, unsigned, signed, space}
use angr_ghidra_core.Dump.Trees.{
  Tree, done, IsTree, tree_bytes, forest_bytes, write_attrs, emit_all-bytes,
}
use angr_ghidra_core.Dump.Skipping.{open-attributes-close_expected}
use angr_ghidra_core.Server.{string}
use angr_ghidra_core.Core.Queries.{register_storage, storage_opened, storage_in}
use angr_ghidra_core.Emit.{same_bytes}
use angr_ghidra_core.Emit.Writer.{one}
use angr_ghidra_core.Ids.Consts.{elem_addr, attrib_space, attrib_offset, attrib_size}
use angr_ghidra_core.Oracle.{PypcodeOracle, space_register}
use angr_ghidra_core.Oracle.Answers.{storage_tree, storage-Writes}
use angr_ghidra_core.Oracle.Tables.{answer_register, query_getregister}

abbrev pub register_tree : ℕ → ℕ → Tree
register_tree offset size = storage_tree space_register offset size

abbrev writes : ℕ → ℕ → List (ℕ × Write)
writes offset size =
    (attrib_space, space space_register)
    ∷ (attrib_offset, unsigned (pos offset))
    ∷ (attrib_size, signed (pos size))
    ∷ []

register_storage-opened :
    (bs : Bytes) (inside : Decoder)
    → open_element (some elem_addr) (init bs) ≡ (ok elem_addr, inside)
    → register_storage (string bs) ≡ storage_in (attributes inside)
unfolding register_storage open_element attributes
register_storage-opened [] inside h = cc
register_storage-opened (b ∷ bs) inside h = ap storage_opened h

-- The core learns a register's storage from the oracle: for a register of the oracle's table,
-- `query_getregister` raises nothing, and from its bytes `_query_register` takes the offset, modulo
-- 2 ^ 64, and the size. It holds where the offset and the size fit the encoding.
pub register_storage-query_getregister :
    (o : PypcodeOracle) (name : Bytes) (offset size : ℕ)
    → get same_bytes name o.reg_by_name ≡ some (offset, size)
    → IsTree (register_tree offset size)
    → (bs : Bytes) × (query_getregister o name ≡ ok bs)
      × (register_storage (string bs) ≡ ok (int (pos (mask_u64 (pos offset))), int (pos size)))
unfolding query_getregister forest_bytes write_attrs answer_register
register_storage-query_getregister o name offset size e h =
    let bs = tree_bytes (register_tree offset size) in
    let ahead : Ahead bs 0 (bs ++ []) = record { suffix = sym (append-nil bs) } in
    let (inside, opens, attrs, closes) =
      open-attributes-close_expected (some elem_addr) elem_addr (writes offset size) done (init bs)
        [] refl h ahead in
    (
      bs,
      rw e (
          (storage-Writes space_register offset size).run []
          ∙ emit_all-bytes (one (register_tree offset size)) [] (h, tt)
          ∙ ap ok (append-nil bs)),
      register_storage-opened bs inside opens ∙ ap storage_in attrs,
    )
