-- ===== src/Edits/Hashed.antt =====
-- angr_ghidra_core/core/edits.py: `resolve_hash_edits`, which gives the edits with a dynamic hash the
-- storage of the varnode that the hash identifies. `addr_bytes` and the graph
-- are those of the DynamicHasher.
use angr_ghidra_core.Prelude.{ℕ, suc, true, false, List, [], ◌∷◌, Option, none, some, if◌then◌else◌}
use angr_ghidra_core.Prelude.Int.{pos, negsuc}
use angr_ghidra_core.Prelude.Result.{Result, ok, err, type_error, ◌>>=◌}
use angr_ghidra_core.Packed.{Value, bool, int}
use angr_ghidra_core.Packed.Encoder.{mask_u64}
use angr_ghidra_core.Dynahash.{Graph, Varnode, stack_space, register_space, find_ref}
use angr_ghidra_core.Dynahash.Lookup.{find_varnode}
use angr_ghidra_core.Edits.{UserEdit, truth}

-- The hash as `find_varnode` reads it: 55 low bits of an int.
abbrev pub hash_bits : Value → Result ℕ
hash_bits (int (pos n)) = ok n
hash_bits (int (negsuc n)) = ok (mask_u64 (negsuc n))
hash_bits (bool true) = ok 1
hash_bits (bool false) = ok 0
hash_bits _ = err type_error

-- The address as a key of `_ops_at`, which are no negative ints and no texts.
abbrev pub address_key : Value → Option ℕ
address_key (int (pos n)) = some n
address_key (bool true) = some 1
address_key (bool false) = some 0
address_key _ = none

-- `find_varnode`; an address that is no key has no operations.
abbrev pub find_by : ℕ → Graph → Value → Value → Result (Option ℕ)
find_by addr_bytes g pc_addr hash_val = do
  h ← hash_bits hash_val
  elim (address_key pc_addr) [ none ↦ ok none | some addr ↦ find_varnode addr_bytes g addr h ]

abbrev pub value_size : UserEdit → Varnode → Value
value_size edit vn = if truth (some edit.size) then edit.size else int (pos vn.size)

-- The edit with the storage of the varnode, or `none` for a varnode without one.
abbrev pub placed_edit : UserEdit → Varnode → Option UserEdit
placed_edit edit vn = elim vn.space [
  | stack_space ↦ some (record edit { stack_offset = some vn.offset; size = value_size edit vn })
  | register_space ↦
      some (record edit { reg_offset = some (int vn.offset); size = value_size edit vn })
  | _ ↦ none
]

-- One edit: with its storage, or `none` where it is left as it is.
abbrev pub placed_ref : Graph → UserEdit → Option ℕ → Option UserEdit
placed_ref g edit none = none
placed_ref g edit (some ref) = elim (find_ref g.by_ref ref) [
  | none ↦ none
  | some vn ↦ placed_edit edit vn
]

unfoldable pub resolve_edit : ℕ → Graph → UserEdit → Result (Option UserEdit)
resolve_edit addr_bytes g edit = elim edit.hash_val [
  | none ↦ ok none
  | some hash_val ↦ elim edit.pc_addr [
    | none ↦ ok none
    | some pc_addr ↦ (do ref ← find_by addr_bytes g pc_addr hash_val; ok (placed_ref g edit ref))
  ]
]

-- The edits after the loop and the number of those that were resolved.
unfoldable pub resolve_all : ℕ → Graph → List UserEdit → Result (List UserEdit × ℕ)
resolve_all addr_bytes g [] = ok ([], 0)
resolve_all addr_bytes g (edit ∷ edits) = do
  resolved ← resolve_edit addr_bytes g edit
  (rest, count) ← resolve_all addr_bytes g edits
  ok (elim resolved [ none ↦ (edit ∷ rest, count) | some placed ↦ (placed ∷ rest, suc count) ])

-- `resolve_hash_edits`; without a translator nothing is resolved.
unfoldable pub resolve_hash_edits : ℕ → Option Graph → List UserEdit → Result (List UserEdit × ℕ)
resolve_hash_edits addr_bytes none edits = ok (edits, 0)
resolve_hash_edits addr_bytes (some g) edits = resolve_all addr_bytes g edits
