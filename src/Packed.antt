-- ===== src/Packed.antt =====
-- angr_ghidra_core/ghidra_wire/packed.py: the constants of the packed encoding and the values that
-- it carries. A Python `bytes` is a list of numbers, and a Python `str` is the list of its UTF-8
-- bytes (Utf8 says which lists are texts).
pub mod Utf8
pub mod Encoder
pub mod Decoder
pub mod Groups
pub mod Wire
pub mod Values
pub mod Progress
pub mod Search
pub mod NonZero
mod Tests
use angr_ghidra_core.Prelude.{ℕ, ◌-◌, ◌^◌, ◌<◌, Bool, List}
use angr_ghidra_core.Prelude.Int.{ℤ}

abbrev pub Bytes : Type 0
Bytes = List ℕ

abbrev pub IsByte : ℕ → Type 0
IsByte b = b < 256

abbrev pub header_mask : ℕ
header_mask = 0xc0

abbrev pub element_start : ℕ
element_start = 0x40

abbrev pub element_end : ℕ
element_end = 0x80

abbrev pub attribute : ℕ
attribute = 0xc0

abbrev pub headerextend_mask : ℕ
headerextend_mask = 0x20

abbrev pub elementid_mask : ℕ
elementid_mask = 0x1f

abbrev pub rawdata_mask : ℕ
rawdata_mask = 0x7f

abbrev pub rawdata_bitsperbyte : ℕ
rawdata_bitsperbyte = 7

abbrev pub rawdata_marker : ℕ
rawdata_marker = 0x80

abbrev pub typecode_shift : ℕ
typecode_shift = 4

abbrev pub lengthcode_mask : ℕ
lengthcode_mask = 0xf

abbrev pub typecode_boolean : ℕ
typecode_boolean = 1

abbrev pub typecode_signedint_positive : ℕ
typecode_signedint_positive = 2

abbrev pub typecode_signedint_negative : ℕ
typecode_signedint_negative = 3

abbrev pub typecode_unsignedint : ℕ
typecode_unsignedint = 4

abbrev pub typecode_addressspace : ℕ
typecode_addressspace = 5

abbrev pub typecode_specialspace : ℕ
typecode_specialspace = 6

abbrev pub typecode_string : ℕ
typecode_string = 7

-- `_U64`
abbrev pub max_u64 : ℕ
max_u64 = 2 ^ 64 - 1

-- What `_attr_value` returns: a bool, an int, a `SpecialSpace(code)` or a str.
pub data Value : Type 0 where
  bool : Bool → Value
  int : ℤ → Value
  special_space : ℕ → Value
  text : Bytes → Value
