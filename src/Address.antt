-- ===== src/Address.antt =====
-- angr_ghidra_core/ghidra_wire/address.py: addresses as elements.
pub mod RoundTrip
mod Tests
use angr_ghidra_core.Prelude.{ℕ, List, [], ◌∷◌, Option, none, some, ◌==◌, if◌then◌else◌}
use angr_ghidra_core.Prelude.Int.{ℤ, pos}
use angr_ghidra_core.Prelude.Result.{Result, ok, err, ◌>>=◌}
use angr_ghidra_core.Packed.{Bytes, Value, int}
use angr_ghidra_core.Packed.Encoder
use angr_ghidra_core.Packed.Encoder.{
  close_element, write_signed, write_unsigned, write_space, write_special_space,
}
use angr_ghidra_core.Packed.Decoder.{
  Decoder, Method, open_element, attributes, close_element_skipping,
}
use angr_ghidra_core.Ids.Consts.{elem_addr, attrib_space, attrib_offset, attrib_size}

-- `int | SpecialSpace`
pub data AddrSpace : Type 0 where
  index special : ℕ → AddrSpace

pub record Addr : Type 0 where
  pub space : AddrSpace
  pub offset : ℤ

abbrev pub encode_space : AddrSpace → Bytes → Result Bytes
encode_space (special code) buf = write_special_space attrib_space code buf
encode_space (index i) buf = write_space attrib_space i buf

abbrev pub encode_size : Option ℤ → Bytes → Result Bytes
encode_size none buf = ok buf
encode_size (some size) buf = write_signed attrib_size size buf

unfoldable pub encode_addr_attributes : Addr → Option ℤ → Bytes → Result Bytes
encode_addr_attributes addr size buf = do
  spaced ← encode_space addr.space buf
  placed ← write_unsigned attrib_offset addr.offset spaced
  encode_size size placed

unfoldable pub encode_addr : Addr → Bytes → Result Bytes
encode_addr addr buf = do
  opened ← Encoder.open_element elem_addr buf
  filled ← encode_addr_attributes addr none opened
  close_element elem_addr filled

-- `dict(attributes).get(id)`: the last attribute with the id.
abbrev pub get : List (ℕ × Value) → ℕ → Option Value
get [] id = none
get ((k, v) ∷ rest) id = elim (get rest id) [
  | some later ↦ some later
  | none ↦ if k == id then some v else none
]

-- `attrs.get(id, 0)`
abbrev pub get_or_zero : List (ℕ × Value) → ℕ → Value
get_or_zero attrs id = elim (get attrs id) [ none ↦ int (pos 0) | some v ↦ v ]

-- What a decoder finds: the two fields of an `Addr`, whatever the types of the attributes are.
pub record Decoded : Type 0 where
  pub space : Option Value
  pub offset : Value

abbrev pub addr_in : List (ℕ × Value) → Decoded
addr_in attrs = record { space = get attrs attrib_space; offset = get_or_zero attrs attrib_offset }

-- What is returned when the element is closed, which happens when its attributes could be decoded.
abbrev pub Found : Type 0
Found = Result (Decoded × List (ℕ × Value)) × Decoder

abbrev pub closed_addr : List (ℕ × Value) → Result (Unit {0}) × Decoder → Found
closed_addr attrs (err e, d) = (err e, d)
closed_addr attrs (ok done, d) = (ok (addr_in attrs, attrs), d)

abbrev pub close_addr : ℕ → Decoder → Result (List (ℕ × Value)) → Found
close_addr el d (err e) = (err e, d)
close_addr el d (ok attrs) = closed_addr attrs (close_element_skipping el d)

abbrev pub opened_addr : Result ℕ × Decoder → Found
opened_addr (err e, d) = (err e, d)
opened_addr (ok el, d) = close_addr el d (attributes d)

unfoldable pub decode_addr : Method (Decoded × List (ℕ × Value))
decode_addr d = opened_addr (open_element none d)

unfoldable pub decode_addr_in_element : Decoder → Result Decoded
decode_addr_in_element d = do attrs ← attributes d; ok (addr_in attrs)
