-- ===== src/Packed/Decoder.antt =====
-- `PackedDecoder`: positions in a buffer. A method takes the decoder and returns its result, or the
-- exception, beside the decoder as it is then: what was moved before a raise stays moved.
use angr_ghidra_core.Prelude.{
  ℕ, zero, suc, ◌+◌, ◌*◌, ◌/◌, ◌^◌, bit_and, bit_or, Bool, true, false, not, List, [], ◌∷◌, Option,
  none, some, leb, ◌==◌, if◌then◌else◌, length, get_elem?, take, drop,
}
use angr_ghidra_core.Prelude.Int.{ℤ, pos, neg_ℕ}
use angr_ghidra_core.Prelude.Result.{
  Result, ok, err, decoder_error, index_error, out_of_fuel, ◌>>=◌,
}
use angr_ghidra_core.Packed.{
  Bytes, header_mask, element_start, element_end, attribute, headerextend_mask, elementid_mask,
  rawdata_mask, rawdata_bitsperbyte, typecode_shift, lengthcode_mask, typecode_boolean,
  typecode_signedint_positive, typecode_signedint_negative, typecode_unsignedint,
  typecode_addressspace, typecode_specialspace, typecode_string, Value, bool, int, special_space,
  text,
}
use angr_ghidra_core.Packed.Utf8.{decode_utf8}

-- `_byte`
unfoldable pub byte : Bytes → ℕ → Result ℕ
byte buf at = elim (get_elem? buf at) [ none ↦ err decoder_error | some b ↦ ok b ]

-- `_read_id`: the id and the position after it
unfoldable pub read_id : Bytes → ℕ → Result (ℕ × ℕ)
unfolding byte
read_id buf at = do
  header ← byte buf at
  let ident = bit_and header elementid_mask
  if bit_and header headerextend_mask == 0 then ok (ident, at + 1) else do
    low ← byte buf (at + 1)
    ok (bit_or (ident * 2 ^ rawdata_bitsperbyte) (bit_and low rawdata_mask), at + 2)

-- The loop of `_read_integer` with `n` bytes left.
unfoldable pub read_groups : Bytes → ℕ → ℕ → ℕ → Result (ℕ × ℕ)
unfolding byte
read_groups buf at zero res = ok (res, at)
read_groups buf at (suc n) res = do
  b ← byte buf at
  read_groups buf (at + 1) n (bit_or (res * 2 ^ rawdata_bitsperbyte) (bit_and b rawdata_mask))

-- `_read_integer`
unfoldable pub read_integer : Bytes → ℕ → ℕ → Result (ℕ × ℕ)
unfolding read_groups
read_integer buf at n = read_groups buf at n 0

-- `_skip_attr_value`
unfoldable pub skip_attr_value : Bytes → ℕ → Result ℕ
unfolding byte read_integer
skip_attr_value buf at = do
  type_byte ← byte buf at
  let typecode = type_byte / 2 ^ typecode_shift
  let n = bit_and type_byte lengthcode_mask
  if typecode == typecode_boolean
      then ok (at + 1)
      else if typecode == typecode_specialspace
      then ok (at + 1)
      else if typecode == typecode_string
      then (do (strlen, at') ← read_integer buf (at + 1) n; ok (at' + strlen))
      else ok (at + 1 + n)

-- The four integer branches of `_attr_value`.
abbrev int_value : Bytes → ℕ → ℕ → (ℕ → ℤ) → Result Value
int_value buf at n sign = do (val, _) ← read_integer buf at n; ok (int (sign val))

-- `_attr_value`
unfoldable pub attr_value : Bytes → ℕ → Result Value
unfolding byte read_integer decode_utf8
attr_value buf at = do
  type_byte ← byte buf at
  let typecode = type_byte / 2 ^ typecode_shift
  let n = bit_and type_byte lengthcode_mask
  if typecode == typecode_boolean
      then ok (bool (not (n == 0)))
      else if typecode == typecode_signedint_positive
      then int_value buf (at + 1) n pos
      else if typecode == typecode_signedint_negative
      then int_value buf (at + 1) n neg_ℕ
      else if typecode == typecode_unsignedint
      then int_value buf (at + 1) n pos
      else if typecode == typecode_addressspace
      then int_value buf (at + 1) n pos
      else if typecode == typecode_specialspace
      then ok (special_space n)
      else if typecode == typecode_string
      then (do
        (strlen, at') ← read_integer buf (at + 1) n
        str ← decode_utf8 (take strlen (drop at' buf))
        ok (text str))
      else err decoder_error

-- `pos < len(data) and (data[pos] & HEADER_MASK) == kind`
abbrev pub is_at : ℕ → Bytes → ℕ → Bool
is_at kind buf at = elim (get_elem? buf at) [
  | none ↦ false
  | some b ↦ bit_and b header_mask == kind
]

-- One step over an attribute: its id, where its value stands, and where the next header stands.
unfoldable pub read_attr : Bytes → ℕ → Result (ℕ × Value × ℕ)
unfolding read_id attr_value skip_attr_value
read_attr buf at = do
  (ident, vpos) ← read_id buf at
  value ← attr_value buf vpos
  at' ← skip_attr_value buf vpos
  ok (ident, value, at')

unfoldable pub skip_attr : Bytes → ℕ → Result ℕ
unfolding read_id skip_attr_value
skip_attr buf at = do (_, vpos) ← read_id buf at; skip_attr_value buf vpos

-- The `while` loop of `open_element`, which skips the attribute run.
unfoldable pub skip_attrs : ℕ → Bytes → ℕ → Result ℕ
unfolding skip_attr
skip_attrs zero buf at = err out_of_fuel
skip_attrs (suc fuel) buf at =
    let rest = (do at' ← skip_attr buf at; skip_attrs fuel buf at') in
    if is_at attribute buf at then rest else ok at

-- The generator `attributes`, run to its end.
unfoldable pub attributes_from : ℕ → Bytes → ℕ → Result (List (ℕ × Value))
unfolding read_attr
attributes_from zero buf at = err out_of_fuel
attributes_from (suc fuel) buf at =
    let rest = (do
      (ident, value, at') ← read_attr buf at
      more ← attributes_from fuel buf at'
      ok ((ident, value) ∷ more)) in
    if is_at attribute buf at then rest else ok []

-- The loop of `read_attribute`, `read_opt` and `has_attribute`, which leaves the generator at the
-- first attribute with the id: what follows it is not read, nor is the end of its value.
unfoldable pub find_attr : ℕ → Bytes → ℕ → ℕ → Result (Option Value)
unfolding read_id attr_value skip_attr_value
find_attr zero buf at attrib_id = err out_of_fuel
find_attr (suc fuel) buf at attrib_id =
    let rest = (do
      (ident, vpos) ← read_id buf at
      value ← attr_value buf vpos
      let next = (do at' ← skip_attr_value buf vpos; find_attr fuel buf at' attrib_id)
      if ident == attrib_id then ok (some value) else next) in
    if is_at attribute buf at then rest else ok none

-- A loop that moves forward makes at most `len(data)` rounds and one that ends it.
abbrev pub rounds : Bytes → ℕ
rounds buf = suc (length buf)

-- The decoder. Python appends to `_attr_start`; here its last element is the head.
pub record Decoder : Type 0 where
  pub buf : Bytes
  pub at : ℕ
  pub attr_start : List ℕ

abbrev pub init : Bytes → Decoder
init bytes = record { buf = bytes; at = 0; attr_start = [] }

abbrev pub Method : Type 0 → Type 0
Method A = Decoder → Result A × Decoder

unfoldable pub at_end : Decoder → Bool
at_end d = leb (length d.buf) d.at

-- `peek_element`
unfoldable pub peek_element : Decoder → Result ℕ
unfolding read_id
peek_element d =
    if is_at element_start d.buf d.at then (do (ident, _) ← read_id d.buf d.at; ok ident) else ok 0

-- `expect is not None and ident != expect`
abbrev pub unexpected : Option ℕ → ℕ → Bool
unexpected none ident = false
unexpected (some e) ident = not (ident == e)

-- After the id is read: the position has moved, the check may raise, then the run is skipped.
unfoldable pub open_run : Option ℕ → ℕ → Decoder → Result ℕ × Decoder
open_run expect ident d =
    if unexpected expect ident
    then (err decoder_error, d)
    else let inside = record d { attr_start = d.at ∷ d.attr_start } in
      elim (skip_attrs (rounds d.buf) d.buf d.at) [
        | ok at' ↦ (ok ident, record inside { at = at' })
        | err e ↦ (err e, inside)
      ]

unfoldable pub open_element : Option ℕ → Method ℕ
open_element expect d = elim (byte d.buf d.at) [
  | err e ↦ (err e, d)
  | ok header ↦
      if bit_and header header_mask == element_start
      then elim (read_id d.buf d.at) [
        | err e ↦ (err e, d)
        | ok (ident, at') ↦ open_run expect ident (record d { at = at' })
      ]
      else (err decoder_error, d)
]

-- `self._attr_start.pop()`
abbrev pub pop_start : Decoder → Result (Unit {0}) × Decoder
pop_start d = elim d.attr_start [
  | [] ↦ (err index_error, d)
  | _ ∷ below ↦ (ok tt, record d { attr_start = below })
]

unfoldable pub close_element : ℕ → Method (Unit {0})
close_element elem_id d = elim (byte d.buf d.at) [
  | err e ↦ (err e, d)
  | ok header ↦
      if bit_and header header_mask == element_end
      then elim (read_id d.buf d.at) [
        | err e ↦ (err e, d)
        | ok (ident, at') ↦
            let moved = record d { at = at' } in
            if ident == elem_id then pop_start moved else (err decoder_error, moved)
      ]
      else (err decoder_error, d)
]

-- The loop of `close_element_skipping` at a depth.
unfoldable pub skip_to_end : ℕ → ℕ → ℕ → Method (Unit {0})
skip_to_end zero depth elem_id d = (err out_of_fuel, d)
skip_to_end (suc fuel) depth elem_id d = elim (byte d.buf d.at) [
  | err e ↦ (err e, d)
  | ok header ↦
      let kind = bit_and header header_mask in
      let down : Result (Unit {0}) × Decoder = elim (read_id d.buf d.at) [
        | err e ↦ (err e, d)
        | ok (_, at') ↦ skip_to_end fuel (depth + 1) elem_id (record d { at = at' })
      ] in
      let up : Result (Unit {0}) × Decoder = elim (read_id d.buf d.at) [
        | err e ↦ (err e, d)
        | ok (ident, at') ↦
            let moved = record d { at = at' } in
            elim depth [
              | zero ↦ if ident == elem_id then pop_start moved else (err decoder_error, moved)
              | suc depth' ↦ skip_to_end fuel depth' elem_id moved
            ]
      ] in
      let over : Result (Unit {0}) × Decoder = elim (skip_attr d.buf d.at) [
        | err e ↦ (err e, d)
        | ok at' ↦ skip_to_end fuel depth elem_id (record d { at = at' })
      ] in
      if kind == element_start
      then down
      else if kind == element_end
      then up
      else if kind == attribute
      then over
      else (err decoder_error, d)
]

unfoldable pub close_element_skipping : ℕ → Method (Unit {0})
close_element_skipping elem_id d = skip_to_end (rounds d.buf) 0 elem_id d

unfoldable pub skip_element : Method (Unit {0})
skip_element d =
    let (opened, d') = open_element none d in
    elim opened [ err e ↦ (err e, d') | ok ident ↦ close_element_skipping ident d' ]

-- `self._attr_start[-1]`
abbrev pub run_start : Decoder → Result ℕ
run_start d = elim d.attr_start [ [] ↦ err index_error | at ∷ _ ↦ ok at ]

unfoldable pub attributes : Decoder → Result (List (ℕ × Value))
unfolding attributes_from
attributes d = do at ← run_start d; attributes_from (rounds d.buf) d.buf at

unfoldable pub read_opt : ℕ → Decoder → Result (Option Value)
unfolding find_attr
read_opt attrib_id d = do at ← run_start d; find_attr (rounds d.buf) d.buf at attrib_id

unfoldable pub read_attribute : ℕ → Decoder → Result Value
unfolding read_opt
read_attribute attrib_id d = do
  found ← read_opt attrib_id d
  elim found [ none ↦ err decoder_error | some value ↦ ok value ]

unfoldable pub has_attribute : ℕ → Decoder → Result Bool
unfolding read_opt
has_attribute attrib_id d = do
  found ← read_opt attrib_id d
  elim found [ none ↦ ok false | some _ ↦ ok true ]
