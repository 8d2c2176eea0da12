-- ===== src/Framing/Doubling.antt =====
-- The hex doubling of byte streams and its inverse.
use angr_ghidra_core.Prelude.{
  ℕ, ◌+◌, ◌-◌, ◌*◌, ◌/◌, ◌%◌, ◌^◌, ◌<◌, bit_and, bit_or, false, [], ◌∷◌, ltb, length, All, ◌≡◌,
  refl, ◌∙◌, arith, lt→ltb,
}
use angr_ghidra_core.Prelude.Bits.{bit_or_fields, bit_and_mask}
use angr_ghidra_core.Prelude.Result.{ok}
use angr_ghidra_core.Packed.{Bytes, IsByte}
use angr_ghidra_core.Packed.NonZero.{IsPayload}
use angr_ghidra_core.Framing.{doubled, joined, decode_pairs, decode_byte_stream}

high_nibble : (b : ℕ) → b < 256 → bit_and (b / 2 ^ 4) 0xf ≡ b / 16
high_nibble b h = bit_and_mask 4 (b / 2 ^ 4) ∙ omega arith

low_nibble : (b : ℕ) → bit_and b 0xf ≡ b % 16
low_nibble b = bit_and_mask 4 b

-- The letters of the two nibbles join to the byte.
joined-nibbles : (b : ℕ) → b < 256 → joined (b / 16 + 0x41) (b % 16 + 0x41) ≡ ok b
joined-nibbles b h =
    let high : ltb (b / 16 + 0x41) 0x41 ≡ false = ground arith in
    let low : ltb (b % 16 + 0x41) 0x41 ≡ false = ground arith in
    let high_value : b / 16 + 0x41 - 0x41 ≡ b / 16 = omega arith in
    let low_value : b % 16 + 0x41 - 0x41 ≡ b % 16 = omega arith in
    let whole : bit_or (b / 16 * 2 ^ 4) (b % 16) ≡ b =
      bit_or_fields 4 (b / 16) (b % 16) (omega arith) ∙ omega arith in
    rw (high, low, high_value, low_value, whole, lt→ltb b 256 h) refl

decode_pairs-doubled : (raw : Bytes) → All IsByte raw → decode_pairs (doubled raw) ≡ ok raw
unfolding decode_pairs doubled
decode_pairs-doubled [] h = refl
decode_pairs-doubled (b ∷ raw) h =
    rw (high_nibble b h.0, low_nibble b, joined-nibbles b h.0, decode_pairs-doubled raw h.1) refl

length-doubled : (raw : Bytes) → length (doubled raw) % 2 ≡ 0
unfolding doubled
length-doubled [] = refl
length-doubled (b ∷ raw) = omega (arith, length-doubled raw)

-- What `write_byte_stream` writes for bytes, `decode_byte_stream` reads back.
pub decode_byte_stream-doubled :
    (raw : Bytes) → All IsByte raw → decode_byte_stream (doubled raw) ≡ ok raw
unfolding decode_byte_stream
decode_byte_stream-doubled raw h = rw (length-doubled raw) (decode_pairs-doubled raw h)

-- Doubled bytes are letters: none is zero.
pub doubled-IsPayload : (raw : Bytes) → IsPayload (doubled raw)
unfolding doubled
doubled-IsPayload [] = tt
doubled-IsPayload (b ∷ raw) =
    let high = bit_and_mask 4 (b / 2 ^ 4) in
    let low = bit_and_mask 4 b in
    ((omega arith, omega arith), ((omega arith, omega arith), doubled-IsPayload raw))
