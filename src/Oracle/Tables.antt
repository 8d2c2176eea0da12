-- ===== src/Oracle/Tables.antt =====
-- harness/oracle.py: the queries that PypcodeOracle answers from its tables, or always alike.
use angr_ghidra_core.Prelude.{ℕ, List, [], Option, none, some, ◌==◌}
use angr_ghidra_core.Prelude.Dicts.{get}
use angr_ghidra_core.Prelude.Int.{ℤ, pos, negsuc}
use angr_ghidra_core.Prelude.Result.{Result, err, runtime_error}
use angr_ghidra_core.Packed.{Bytes}
use angr_ghidra_core.Packed.Encoder.{write_space, write_unsigned}
use angr_ghidra_core.Address.{AddrSpace, index, special, Addr}
use angr_ghidra_core.Emit.{same_bytes}
use angr_ghidra_core.Emit.Writer.{Action, skip, ◌>>◌, within}
use angr_ghidra_core.Ids.Consts.{
  attrib_offset, attrib_space, elem_tracked_pointset, elem_parent, elem_val, elem_commentdb,
}
use angr_ghidra_core.Oracle.{
  PypcodeOracle, space_ram, space_register, encode_storage, encode_function_symbol,
}

unfoldable pub answer_register : Option (ℕ × ℕ) → Result Bytes
unfolding encode_storage
answer_register none = err runtime_error
answer_register (some (offset, size)) = encode_storage space_register offset size []

-- `query_getregister`, of the name that it reads.
unfoldable pub query_getregister : PypcodeOracle → Bytes → Result Bytes
unfolding get answer_register
query_getregister o name = answer_register (get same_bytes name o.reg_by_name)

-- `dict.get`, at an address that may be negative.
abbrev at_address : {V : Type 0} → ℤ → List (ℕ × V) → Option V
unfolding get
at_address (pos a) table = get ◌==◌ a table
at_address (negsuc n) table = none

-- `query_getcodelabel`
unfoldable pub query_getcodelabel : PypcodeOracle → Addr → Bytes
unfolding at_address
query_getcodelabel o addr = elim (at_address addr.offset o.labels) [ none ↦ [] | some name ↦ name ]

-- `query_getexternalref`: None, or an encoder.
unfoldable pub query_getexternalref : PypcodeOracle → Addr → Option (Result Bytes)
unfolding at_address encode_function_symbol
query_getexternalref o addr = elim (at_address addr.offset o.functions) [
  | none ↦ none
  | some f ↦ some (encode_function_symbol o f [])
]

-- `addr.space if isinstance(addr.space, int) else SPACE_RAM`
abbrev index_or_ram : AddrSpace → ℕ
index_or_ram (index i) = i
index_or_ram (special code) = space_ram

-- `query_gettrackedregisters`
unfoldable pub query_gettrackedregisters : Addr → Action
unfolding within ◌>>◌
query_gettrackedregisters addr =
    within elem_tracked_pointset (
      write_space attrib_space (index_or_ram addr.space)
      >> write_unsigned attrib_offset addr.offset)

-- `query_getnamespacepath`
unfoldable pub query_getnamespacepath : Action
unfolding within skip
query_getnamespacepath = within elem_parent (within elem_val skip)

-- `query_getcomments`
unfoldable pub query_getcomments : Action
unfolding within skip
query_getcomments = within elem_commentdb skip
