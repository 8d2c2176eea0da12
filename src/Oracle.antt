-- ===== src/Oracle.antt =====
-- angr_ghidra_core/harness/oracle.py: PypcodeOracle, which answers a core's queries in place of
-- Ghidra, over the tables that its constructor takes from the loaded binary. A handler takes what it
-- reads from its decoder first: an address with a space that is an index or special, or a name.
mod Answers
mod Tables
mod Registers
mod Queried
mod Tests
use angr_ghidra_core.Prelude.{
  ℕ, suc, bit_or, ◌+◌, ◌-◌, max, Bool, true, false, ◌&&◌, List, [], ◌∷◌, Option, none, some, ltb,
  leb, ◌==◌, if◌then◌else◌, length,
}
use angr_ghidra_core.Prelude.Dicts.{eq_int, get, put}
use angr_ghidra_core.Prelude.Int.{ℤ, pos, negsuc}
use angr_ghidra_core.Prelude.Result.{Result, ok, err, runtime_error, key_error}
use angr_ghidra_core.Prelude.Text.{codes}
use angr_ghidra_core.Packed.{Bytes}
use angr_ghidra_core.Packed.Encoder.{
  write_bool, write_signed, write_unsigned, write_string, write_space, write_special_space,
}
use angr_ghidra_core.Address.{AddrSpace, index, special, Addr}
use angr_ghidra_core.Emit.{same_bytes}
use angr_ghidra_core.Emit.Writer.{Action, skip, ◌>>◌, within}
use angr_ghidra_core.Ids.Consts.{
  attrib_extrapop, attrib_first, attrib_id, attrib_last, attrib_lock, attrib_main, attrib_model,
  attrib_name, attrib_offset, attrib_readonly, attrib_size, attrib_space, elem_addr, elem_doc,
  elem_function, elem_hole, elem_localdb, elem_mapsym, elem_parent, elem_prototype, elem_rangelist,
  elem_returnsym, elem_scope, elem_symbollist, elem_typeref,
}

abbrev pub space_ram : ℕ
space_ram = 2

abbrev pub space_register : ℕ
space_register = 3

abbrev pub builtin_id_header : ℕ
builtin_id_header = 0xc000000000000000

abbrev pub global_namespace_id : ℕ
global_namespace_id = 0

-- The names of CORE_TYPES, whose places give the ids.
abbrev pub core_types : List Bytes
core_types =
    codes "void"
    ∷ codes "bool"
    ∷ codes "uint"
    ∷ codes "byte"
    ∷ codes "ushort"
    ∷ codes "ulong"
    ∷ codes "int"
    ∷ codes "char"
    ∷ codes "sbyte"
    ∷ codes "short"
    ∷ codes "long"
    ∷ codes "float"
    ∷ codes "double"
    ∷ codes "float10"
    ∷ codes "float16"
    ∷ codes "undefined1"
    ∷ codes "undefined2"
    ∷ codes "undefined3"
    ∷ codes "undefined4"
    ∷ codes "undefined5"
    ∷ codes "undefined6"
    ∷ codes "undefined7"
    ∷ codes "undefined8"
    ∷ codes "code"
    ∷ codes "wchar_t"
    ∷ codes "wchar16"
    ∷ codes "xunknown1"
    ∷ []

pub record Function : Type 0 where
  pub addr : ℕ
  pub name : Bytes
  pub size : ℕ
  pub symbol_id : ℕ

pub record PypcodeOracle : Type 0 where
  pub functions : List (ℕ × Function)
  pub labels : List (ℕ × Bytes)
  pub reg_by_name : List (Bytes × (ℕ × ℕ))
  pub return_register : ℕ × ℕ

-- `add_function`
unfoldable pub add_function : ℕ → Bytes → ℕ → PypcodeOracle → PypcodeOracle
unfolding put
add_function addr name size o = record o {
  functions =
      put ◌==◌ addr
        (record { addr = addr; name = name; size = size; symbol_id = 0x10000 + length o.functions })
        o.functions;
}

-- `f.addr <= addr < f.addr + f.size`
abbrev pub spans : Function → ℤ → Bool
spans f (pos a) = leb f.addr a && ltb a (f.addr + f.size)
spans f (negsuc n) = false

-- `function_containing`, over the values of the dict.
unfoldable pub function_containing : List (ℕ × Function) → ℤ → Option Function
function_containing [] addr = none
function_containing ((key, f) ∷ rest) addr =
    if spans f addr then some f else function_containing rest addr

-- `coretype_ids[name]`, with the names from the place `i` on.
abbrev pub coretype_id : Bytes → ℕ → List Bytes → Option ℕ
coretype_id name i [] = none
coretype_id name i (n ∷ ns) =
    if same_bytes n name
    then some (bit_or builtin_id_header (i + 0x10))
    else coretype_id name (suc i) ns

abbrev pub write_coretype : Option ℕ → Action
write_coretype none buf = err key_error
write_coretype (some id) buf = write_unsigned attrib_id (pos id) buf

-- `_encode_typeref`
unfoldable pub encode_typeref : Bytes → Action
unfolding within ◌>>◌
encode_typeref name =
    within elem_typeref
      (write_string attrib_name name >> write_coretype (coretype_id name 0 core_types))

unfoldable pub encode_storage : ℕ → ℕ → ℕ → Action
unfolding within ◌>>◌
encode_storage space offset size = within elem_addr (
    write_space attrib_space space
    >> write_unsigned attrib_offset (pos offset)
    >> write_signed attrib_size (pos size))

-- `<localdb lock=false main=stack>`
unfoldable pub encode_localdb : Bytes → Action
unfolding within ◌>>◌ skip
encode_localdb name = within elem_localdb (
    write_bool attrib_lock false
    >> write_special_space attrib_main 0
    >> within elem_scope (
        write_string attrib_name name
        >> within elem_parent (write_unsigned attrib_id (pos global_namespace_id))
        >> within elem_rangelist skip
        >> within elem_symbollist skip))

-- `<prototype extrapop="unknown" model="unknown">`
unfoldable pub encode_prototype : PypcodeOracle → Action
unfolding within ◌>>◌ encode_typeref encode_storage
encode_prototype o = within elem_prototype (
    write_string attrib_extrapop (codes "unknown")
    >> write_string attrib_model (codes "unknown")
    >> within elem_returnsym (
        encode_storage space_register o.return_register.0 o.return_register.1
        >> encode_typeref (codes "undefined8")))

-- `_encode_function_symbol`
unfoldable pub encode_function_symbol : PypcodeOracle → Function → Action
unfolding within ◌>>◌ skip encode_localdb encode_prototype encode_storage
encode_function_symbol o f = within elem_doc (
    write_unsigned attrib_id (pos global_namespace_id)
    >> within elem_mapsym (
        within elem_function (
          write_unsigned attrib_id (pos f.symbol_id)
          >> write_string attrib_name f.name
          >> write_signed attrib_size (pos (max f.size 1))
          >> within elem_addr
              (write_space attrib_space space_ram >> write_unsigned attrib_offset (pos f.addr))
          >> encode_localdb f.name
          >> encode_prototype o)
        >> encode_storage space_ram f.addr (max f.size 1)
        >> within elem_rangelist skip))

unfoldable pub write_readonly : Bool → Action
unfolding skip
write_readonly true = write_bool attrib_readonly true
write_readonly false = skip

-- `_encode_hole`
unfoldable pub encode_hole : ℕ → ℤ → ℤ → Bool → Action
unfolding within ◌>>◌ write_readonly
encode_hole space first last readonly = within elem_hole (
    write_readonly readonly
    >> write_space attrib_space space
    >> write_unsigned attrib_first first
    >> write_unsigned attrib_last last)

-- What `query_getmappedsymbols` answers in the space of the program: the function that starts at the
-- address, or a hole, up to the end of the function that the address lies in.
unfoldable pub mapped_symbol : PypcodeOracle → Option Function → ℤ → Action
unfolding encode_function_symbol encode_hole
mapped_symbol o none offset = encode_hole space_ram offset offset false
mapped_symbol o (some f) offset =
    if eq_int offset (pos f.addr)
    then encode_function_symbol o f
    else encode_hole space_ram offset (pos (f.addr + f.size - 1)) true

unfoldable pub query_getmappedsymbols : PypcodeOracle → Addr → Result Bytes
unfolding function_containing encode_hole mapped_symbol
query_getmappedsymbols o addr = elim addr.space [
  | special c ↦ encode_hole space_ram addr.offset addr.offset false []
  | index i ↦
      if i == space_ram
      then mapped_symbol o (function_containing o.functions addr.offset) addr.offset []
      else encode_hole i addr.offset addr.offset false []
]
