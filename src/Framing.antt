-- ===== src/Framing.antt =====
-- angr_ghidra_core/ghidra_wire/framing.py: burst markers, and the reader and the writer of bursts.
-- A stream to be read is the list of the bytes that are still to come (`read(1)` at its end raises
-- ProtocolError); a stream to be written is the list of the bytes that were written.
pub mod Reader
pub mod Doubling
mod Tests
use angr_ghidra_core.Prelude.{
  ℕ, suc, ◌+◌, ◌-◌, ◌*◌, ◌/◌, ◌%◌, ◌^◌, bit_and, bit_or, Bool, true, false, ◌&&◌, ◌||◌, List, [],
  ◌∷◌, ◌++◌, ltb, ◌==◌, if◌then◌else◌, length,
}
use angr_ghidra_core.Prelude.Result.{Result, ok, err, protocol_error, value_error, ◌>>=◌}
use angr_ghidra_core.Packed.{Bytes}

abbrev pub command_start : ℕ
command_start = 2

abbrev pub command_end : ℕ
command_end = 3

abbrev pub query_start : ℕ
query_start = 4

abbrev pub query_end : ℕ
query_end = 5

abbrev pub response_start : ℕ
response_start = 6

abbrev pub response_end : ℕ
response_end = 7

abbrev pub query_response_start : ℕ
query_response_start = 8

abbrev pub query_response_end : ℕ
query_response_end = 9

abbrev pub exception_start : ℕ
exception_start = 10

abbrev pub exception_end : ℕ
exception_end = 11

abbrev pub bytes_start : ℕ
bytes_start = 12

abbrev pub bytes_end : ℕ
bytes_end = 13

abbrev pub string_start : ℕ
string_start = 14

abbrev pub string_end : ℕ
string_end = 15

abbrev pub error_start : ℕ
error_start = 16

abbrev pub error_end : ℕ
error_end = 17

abbrev pub warning_start : ℕ
warning_start = 18

abbrev pub warning_end : ℕ
warning_end = 19

-- `marker`
abbrev pub marker : ℕ → Bytes
marker code = 0 ∷ 0 ∷ 1 ∷ code ∷ []

-- `_read1`
abbrev pub read1 : Bytes → Result (ℕ × Bytes)
read1 [] = err protocol_error
read1 (b ∷ rest) = ok (b, rest)

-- The loop of `read_to_burst`: over payload bytes, or (`zeros`) over the padding of a marker. A
-- byte other than 0 and 1 after the padding is stray, and the scan goes on behind it.
unfoldable pub scan_to_burst : Bool → Bytes → Result (ℕ × Bytes)
scan_to_burst zeros [] = err protocol_error
scan_to_burst zeros (cur ∷ rest) =
    let on = scan_to_burst (cur == 0) rest in if zeros && cur == 1 then read1 rest else on

unfoldable pub read_to_burst : Bytes → Result (ℕ × Bytes)
read_to_burst stream = scan_to_burst false stream

-- The loop of `read_payload`. A marker with the code 0 ends nothing: its bytes are dropped.
unfoldable pub scan_payload : Bool → Bytes → Bytes → Result (Bytes × ℕ × Bytes)
scan_payload zeros out [] = err protocol_error
scan_payload false out (cur ∷ rest) =
    scan_payload (cur == 0) (if cur == 0 then out else out ++ cur ∷ []) rest
scan_payload true out (cur ∷ []) = err protocol_error
scan_payload true out (cur ∷ code ∷ rest) =
    let padding = scan_payload true out (code ∷ rest) in
    let stray = scan_payload false out (code ∷ rest) in
    let no_code = scan_payload false out rest in
    if cur == 0
    then padding
    else if cur == 1
    then (if code == 0 then no_code else ok (out, code, rest))
    else stray

unfoldable pub read_payload : Bytes → Result (Bytes × ℕ × Bytes)
read_payload stream = scan_payload false [] stream

-- `write_string_stream` on bytes (a str is its UTF-8 bytes).
abbrev pub string_stream : Bytes → Bytes
string_stream payload = marker string_start ++ (payload ++ marker string_end)

-- The doubled bytes of `write_byte_stream`: a letter from A to P for each nibble.
unfoldable pub doubled : Bytes → Bytes
doubled [] = []
doubled (b ∷ rest) = (bit_and (b / 2 ^ 4) 0xf + 0x41) ∷ (bit_and b 0xf + 0x41) ∷ doubled rest

abbrev pub byte_stream : Bytes → Bytes
byte_stream raw = marker bytes_start ++ (doubled raw ++ marker bytes_end)

-- One assignment of the loop of `decode_byte_stream`: a letter below A makes the value negative, and
-- a bytearray takes neither that nor a value above 255 (ValueError).
abbrev pub joined : ℕ → ℕ → Result ℕ
joined high low =
    if ltb high 0x41 || ltb low 0x41
    then err value_error
    else let b = bit_or ((high - 0x41) * 2 ^ 4) (low - 0x41) in
      if ltb b 256 then ok b else err value_error

unfoldable pub decode_pairs : Bytes → Result Bytes
decode_pairs (high ∷ low ∷ rest) = do b ← joined high low; bs ← decode_pairs rest; ok (b ∷ bs)
decode_pairs _ = ok []

unfoldable pub decode_byte_stream : Bytes → Result Bytes
decode_byte_stream payload =
    if length payload % 2 == 0 then decode_pairs payload else err protocol_error
