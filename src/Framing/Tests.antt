-- ===== src/Framing/Tests.antt =====
-- Concrete streams, and the theorems on bursts at them.
use angr_ghidra_core.Prelude.{[], ◌∷◌, ◌++◌, ◌≡◌, refl, arith}
use angr_ghidra_core.Prelude.Result.{ok}
use angr_ghidra_core.Packed.{Bytes}
use angr_ghidra_core.Packed.NonZero.{IsPayload}
use angr_ghidra_core.Framing.{
  marker, read_payload, read_to_burst, doubled, decode_byte_stream, scan_to_burst,
}
use angr_ghidra_core.Framing.Reader.{
  IsBurst, read_payload-marker, read_to_burst-marker, read_to_burst-IsBurst,
}
use angr_ghidra_core.Framing.Doubling.{decode_byte_stream-doubled}

abbrev hi : Bytes
hi = b'h' ∷ b'i' ∷ []

hi-IsPayload : IsPayload hi
hi-IsPayload = ((omega arith, omega arith), ((omega arith, omega arith), tt))

payload_read : read_payload (hi ++ (marker 15 ++ (7 ∷ []))) ≡ ok (hi, 15, 7 ∷ [])
payload_read = read_payload-marker hi 15 (7 ∷ []) hi-IsPayload (omega arith)

burst_read : read_to_burst (hi ++ (marker 2 ++ (7 ∷ []))) ≡ ok (2, 7 ∷ [])
burst_read = read_to_burst-marker hi 2 (7 ∷ []) hi-IsPayload

-- A stray byte and a false start stand before the marker.
abbrev stray : Bytes
stray = 9 ∷ 0 ∷ 5 ∷ 0 ∷ 0 ∷ 1 ∷ 4 ∷ 7 ∷ []

stray-read : read_to_burst stray ≡ ok (4, 7 ∷ [])
unfolding read_to_burst scan_to_burst
stray-read = refl

read_to_burst-IsBurst_example : IsBurst stray 4 (7 ∷ [])
read_to_burst-IsBurst_example = read_to_burst-IsBurst stray 4 (7 ∷ []) stray-read

decode_byte_stream-doubled_example :
    decode_byte_stream (doubled (0 ∷ 255 ∷ 18 ∷ [])) ≡ ok (0 ∷ 255 ∷ 18 ∷ [])
decode_byte_stream-doubled_example =
    decode_byte_stream-doubled (0 ∷ 255 ∷ 18 ∷ []) (omega arith, (omega arith, (omega arith, tt)))
