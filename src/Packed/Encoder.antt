-- ===== src/Packed/Encoder.antt =====
-- `PackedEncoder`: each method takes the buffer and returns the buffer with what it appended, or
-- the exception that it raises. An encoder that raised is not read again, so its buffer is dropped.
use angr_ghidra_core.Prelude.{
  ℕ, zero, suc, ◌+◌, ◌-◌, ◌*◌, ◌/◌, ◌%◌, ◌^◌, bit_and, bit_or, Bool, [], ◌∷◌, ◌++◌, ltb, ◌==◌,
  if◌then◌else◌, length,
}
use angr_ghidra_core.Prelude.Int.{ℤ, pos, negsuc}
use angr_ghidra_core.Prelude.Result.{Result, ok, err, value_error, assertion_error, ◌>>=◌}
use angr_ghidra_core.Packed.{
  Bytes, element_start, element_end, attribute, headerextend_mask, rawdata_mask,
  rawdata_bitsperbyte, rawdata_marker, typecode_shift, typecode_signedint_positive,
  typecode_signedint_negative, typecode_unsignedint, typecode_addressspace, typecode_specialspace,
  typecode_string, max_u64,
}

-- `bytearray.append` raises ValueError on what is no byte.
unfoldable pub append : ℕ → Bytes → Result Bytes
append b buf = if ltb b 256 then ok (buf ++ b ∷ []) else err value_error

-- `_header`
unfoldable pub put_header : ℕ → ℕ → Bytes → Result Bytes
unfolding append
put_header header ident buf =
    if ltb 0x1f ident
    then (do
      buf' ← append (bit_or (bit_or header headerextend_mask) (ident / 2 ^ rawdata_bitsperbyte)) buf
      append (bit_or (bit_and ident rawdata_mask) rawdata_marker) buf')
    else append (bit_or header ident) buf

unfoldable pub bits : ℕ → ℕ → ℕ
bits zero v = 0
bits (suc fuel) v = let rest = bits fuel (v / 2) in if v == 0 then 0 else suc rest

-- `int.bit_length`; a number has fewer binary digits than its value, so it is its own fuel.
unfoldable pub bit_length : ℕ → ℕ
unfolding bits
bit_length v = bits v v

-- The loop of `_integer`, with `n` groups left: `for i in range(len_code - 1, -1, -1)`.
unfoldable pub put_groups : ℕ → ℕ → Bytes → Result Bytes
unfolding append
put_groups zero val buf = ok buf
put_groups (suc i) val buf = do
  buf' ←
      append (bit_or (bit_and (val / 2 ^ (i * rawdata_bitsperbyte)) rawdata_mask) rawdata_marker)
        buf
  put_groups i val buf'

abbrev pub len_code : ℕ → ℕ
len_code val = (bit_length val + rawdata_bitsperbyte - 1) / rawdata_bitsperbyte

-- `_integer`
unfoldable pub put_integer : ℕ → ℕ → Bytes → Result Bytes
unfolding append put_groups bit_length
put_integer type_byte val buf = if ltb max_u64 val then err assertion_error else (do
  buf' ← append (bit_or type_byte (len_code val)) buf
  put_groups (len_code val) val buf')

unfoldable pub open_element : ℕ → Bytes → Result Bytes
unfolding put_header
open_element elem_id buf = put_header element_start elem_id buf

unfoldable pub close_element : ℕ → Bytes → Result Bytes
unfolding put_header
close_element elem_id buf = put_header element_end elem_id buf

unfoldable pub write_bool : ℕ → Bool → Bytes → Result Bytes
unfolding put_header append
write_bool attrib_id val buf = do
  buf' ← put_header attribute attrib_id buf
  append (if val then 0x11 else 0x10) buf'

unfoldable pub write_signed : ℕ → ℤ → Bytes → Result Bytes
unfolding put_header put_integer
write_signed attrib_id (negsuc n) buf = do
  buf' ← put_header attribute attrib_id buf
  put_integer (typecode_signedint_negative * 2 ^ typecode_shift) (suc n) buf'
write_signed attrib_id (pos n) buf = do
  buf' ← put_header attribute attrib_id buf
  put_integer (typecode_signedint_positive * 2 ^ typecode_shift) n buf'

-- `val & _U64` on a Python int, which is two's complement without end.
abbrev pub mask_u64 : ℤ → ℕ
mask_u64 (pos n) = n % 2 ^ 64
mask_u64 (negsuc n) = max_u64 - n % 2 ^ 64

unfoldable pub write_unsigned : ℕ → ℤ → Bytes → Result Bytes
unfolding put_header put_integer
write_unsigned attrib_id val buf = do
  buf' ← put_header attribute attrib_id buf
  put_integer (typecode_unsignedint * 2 ^ typecode_shift) (mask_u64 val) buf'

unfoldable pub write_string : ℕ → Bytes → Bytes → Result Bytes
unfolding put_header put_integer
write_string attrib_id content buf = do
  buf' ← put_header attribute attrib_id buf
  buf'' ← put_integer (typecode_string * 2 ^ typecode_shift) (length content) buf'
  ok (buf'' ++ content)

unfoldable pub write_space : ℕ → ℕ → Bytes → Result Bytes
unfolding put_header put_integer
write_space attrib_id index buf = do
  buf' ← put_header attribute attrib_id buf
  put_integer (typecode_addressspace * 2 ^ typecode_shift) index buf'

unfoldable pub write_special_space : ℕ → ℕ → Bytes → Result Bytes
unfolding put_header append
write_special_space attrib_id code buf = do
  buf' ← put_header attribute attrib_id buf
  append (bit_or (typecode_specialspace * 2 ^ typecode_shift) code) buf'

unfoldable pub write_opcode : ℕ → ℕ → Bytes → Result Bytes
unfolding put_header put_integer
write_opcode attrib_id opcode buf = do
  buf' ← put_header attribute attrib_id buf
  put_integer (typecode_signedint_positive * 2 ^ typecode_shift) opcode buf'
