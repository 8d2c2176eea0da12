-- ===== src/Edits.antt =====
-- angr_ghidra_core/core/edits.py: `parse_user_edits`, the renames and retypes that a user has locked in
-- the symbols of a function. A missing attribute is `none`; a value that is no
-- int and is compared with one raises TypeError.
pub mod Locked
pub mod Hashed
mod Tests
use angr_ghidra_core.Prelude.{
  ℕ, zero, suc, ◌+◌, ◌-◌, ◌^◌, Bool, true, false, ◌||◌, List, [], ◌∷◌, Option, none, some, leb,
  if◌then◌else◌,
}
use angr_ghidra_core.Prelude.Int.{ℤ, pos, negsuc}
use angr_ghidra_core.Prelude.Result.{Result, ok, err, type_error, ◌>>=◌}
use Prim.Native.String.{String}
use angr_ghidra_core.Packed.{Value, bool, int, special_space, text}
use angr_ghidra_core.Dump.{Element, Elements, element, nil, cons}
use angr_ghidra_core.Dump.Access.{attr, find, first}

pub record UserEdit : Type 0 where
  pub name : Option Value
  pub type_el : Option Element
  pub stack_offset : Option ℤ
  pub reg_offset : Option Value
  pub size : Value
  pub hash_val : Option Value
  pub pc_addr : Option Value

-- `bool(v)` of an attribute's value or None.
abbrev pub truth : Option Value → Bool
truth none = false
truth (some (bool b)) = b
truth (some (int (pos zero))) = false
truth (some (int z)) = true
truth (some (special_space c)) = true
truth (some (text [])) = false
truth (some (text s)) = true

abbrev pub number_zero : Value
number_zero = int (pos 0)

-- `v or 0`
abbrev pub or_zero : Option Value → Value
or_zero v = if truth v then elim v [ none ↦ number_zero | some x ↦ x ] else number_zero

-- z - 2 ^ 64 of a natural number z.
abbrev pub below_u64 : ℕ → ℤ
below_u64 n = if leb (2 ^ 64) n then pos (n - 2 ^ 64) else negsuc (2 ^ 64 - 1 - n)

-- `offset - _U64 if offset >= (_U64 >> 1) else offset`
abbrev pub signed_offset : ℤ → ℤ
signed_offset (negsuc n) = negsuc n
signed_offset (pos n) = if leb (2 ^ 63) n then below_u64 n else pos n

-- The same of a value; a bool is the int 0 or 1.
abbrev pub stack_offset_of : Value → Result ℤ
stack_offset_of (int z) = ok (signed_offset z)
stack_offset_of (bool true) = ok (pos 1)
stack_offset_of (bool false) = ok (pos 0)
stack_offset_of _ = err type_error

-- The storage of an edit: stack, register (or ram), neither, or a dynamic hash.
pub record Storage : Type 0 where
  pub stack_offset : Option ℤ
  pub reg_offset : Option Value
  pub size : Value
  pub hash_val : Option Value
  pub pc_addr : Option Value

abbrev pub no_storage : Value → Storage
no_storage size = record {
  stack_offset = none;
  reg_offset = none;
  size = size;
  hash_val = none;
  pc_addr = none;
}

-- By the `space` of an `addr` element.
abbrev pub in_space : Option Value → Value → Value → Result Storage
in_space (some (special_space c)) offset size = do
  stack ← stack_offset_of offset
  ok (record (no_storage size) { stack_offset = some stack })
in_space (some (int z)) offset size = ok (record (no_storage size) { reg_offset = some offset })
in_space (some (bool b)) offset size = ok (record (no_storage size) { reg_offset = some offset })
in_space _ offset size = ok (no_storage size)

abbrev pub addr_storage : Element → Result Storage
addr_storage addr_el =
    in_space (attr addr_el "space") (or_zero (attr addr_el "offset"))
      (or_zero (attr addr_el "size"))

-- `x.first(name)` where x may be None.
abbrev pub first_of : Option Element → String → Option Element
first_of none name = none
first_of (some e) name = first e name

-- The dynamic hash of a `mapsym`, or `none` where the symbol is passed over.
abbrev pub hash_storage : Element → Option Storage
hash_storage mapsym = elim (first mapsym "hash") [
  | none ↦ none
  | some hash_el ↦ elim (first_of (first mapsym "rangelist") "range") [
    | none ↦ none
    | some rng ↦ some (record (no_storage number_zero) {
      hash_val = some (or_zero (attr hash_el "val"));
      pc_addr = some (or_zero (attr rng "first"));
    })
  ]
]

abbrev pub storage_of : Element → Result (Option Storage)
storage_of mapsym = elim (first mapsym "addr") [
  | some addr_el ↦ (do s ← addr_storage addr_el; ok (some s))
  | none ↦ ok (hash_storage mapsym)
]

-- `sym.first("type") or sym.first("typeref")`
abbrev pub type_of : Element → Option Element
type_of sym = elim (first sym "type") [ some t ↦ some t | none ↦ first sym "typeref" ]

abbrev pub edit_of : Element → Bool → Bool → Storage → UserEdit
edit_of sym namelock typelock s = record {
  name = if namelock then attr sym "name" else none;
  type_el = if typelock then type_of sym else none;
  stack_offset = s.stack_offset;
  reg_offset = s.reg_offset;
  size = s.size;
  hash_val = s.hash_val;
  pc_addr = s.pc_addr;
}

abbrev pub locked_edit : Element → Element → Bool → Bool → Result (Option UserEdit)
locked_edit mapsym sym namelock typelock = do
  storage ← storage_of mapsym
  ok (elim storage [ none ↦ none | some s ↦ some (edit_of sym namelock typelock s) ])

-- One round of the loop: the edit of a `mapsym`, or `none` where it is passed over.
unfoldable pub parse_mapsym : Element → Result (Option UserEdit)
parse_mapsym mapsym = elim (first mapsym "symbol") [
  | none ↦ ok none
  | some sym ↦
      let namelock = truth (attr sym "namelock") in
      let typelock = truth (attr sym "typelock") in
      if namelock || typelock then locked_edit mapsym sym namelock typelock else ok none
]

unfoldable pub parse_mapsyms : List Element → Result (List UserEdit)
parse_mapsyms [] = ok []
parse_mapsyms (m ∷ ms) = do
  edit ← parse_mapsym m
  edits ← parse_mapsyms ms
  ok (elim edit [ none ↦ edits | some e ↦ e ∷ edits ])

unfoldable pub parse_user_edits : Option Element → Result (List UserEdit)
parse_user_edits fn_el =
    elim (first_of (first_of (first_of fn_el "localdb") "scope") "symbollist") [
      | none ↦ ok []
      | some symlist ↦ parse_mapsyms (find symlist "mapsym")
    ]
