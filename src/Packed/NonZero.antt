-- ===== src/Packed/NonZero.antt =====
-- The encoder writes no zero byte, so that a zero in the stream starts a marker.
use angr_ghidra_core.Prelude.{
  ℕ, zero, suc, ◌^◌, ◌<◌, true, false, ltb, length, All, All-append, arith, Bool-cases, inl, inr,
}
use angr_ghidra_core.Prelude.Int.{pos, negsuc}
use angr_ghidra_core.Packed.{Bytes}
use angr_ghidra_core.Packed.Encoder.{mask_u64, len_code}
use angr_ghidra_core.Packed.Groups.{groups, integer_bytes, len_code-le}
use angr_ghidra_core.Packed.Wire.{
  Write, boolean, signed, unsigned, string, space, special, opcode, IsWritable, IsId, header_bytes,
  value_bytes,
}
use angr_ghidra_core.Packed.Values.{attr_bytes, mask_u64-lt}

-- A payload byte: neither zero nor out of range.
abbrev pub IsPayloadByte : ℕ → Type 0
IsPayloadByte b = (0 < b) × (b < 256)

abbrev pub IsPayload : Bytes → Type 0
IsPayload bs = All IsPayloadByte bs

-- The strings of a call hold no zero byte.
abbrev pub IsZeroFree : Write → Type 0
IsZeroFree (string s) = IsPayload s
IsZeroFree _ = Unit

groups-IsPayload : (n v : ℕ) → IsPayload (groups n v)
unfolding groups
groups-IsPayload zero v = tt
groups-IsPayload (suc i) v = ((omega arith, omega arith), groups-IsPayload i v)

integer_bytes-IsPayload : (t v : ℕ) → 0 < t → t < 8 → v < 2 ^ 64 → IsPayload (integer_bytes t v)
integer_bytes-IsPayload t v lo hi h =
    let small = len_code-le v h in ((omega arith, omega arith), groups-IsPayload (len_code v) v)

pub header_bytes-IsPayload : (c id : ℕ) → 0 < c → c < 4 → IsId id → IsPayload (header_bytes c id)
unfolding header_bytes
header_bytes-IsPayload c id lo hi h = elim (Bool-cases (ltb 0x1f id)) [
  | inl big ↦ rw big ((omega arith, omega arith), ((omega arith, omega arith), tt))
  | inr small ↦ let low : id < 32 = ground arith in rw small ((omega arith, omega arith), tt)
]

value_bytes-IsPayload : (w : Write) → IsWritable w → IsZeroFree w → IsPayload (value_bytes w)
unfolding value_bytes
value_bytes-IsPayload (boolean true) k z = ((omega arith, omega arith), tt)
value_bytes-IsPayload (boolean false) k z = ((omega arith, omega arith), tt)
value_bytes-IsPayload (signed (pos n)) k z =
    integer_bytes-IsPayload 2 n (omega arith) (omega arith) k
value_bytes-IsPayload (signed (negsuc n)) k z =
    integer_bytes-IsPayload 3 (suc n) (omega arith) (omega arith) k
value_bytes-IsPayload (unsigned n) k z =
    integer_bytes-IsPayload 4 (mask_u64 n) (omega arith) (omega arith) (mask_u64-lt n)
value_bytes-IsPayload (string s) k z =
    All-append IsPayloadByte (integer_bytes 7 (length s)) s
      (integer_bytes-IsPayload 7 (length s) (omega arith) (omega arith) k.0) z
value_bytes-IsPayload (space n) k z = integer_bytes-IsPayload 5 n (omega arith) (omega arith) k
value_bytes-IsPayload (special c) k z = ((omega arith, omega arith), tt)
value_bytes-IsPayload (opcode n) k z = integer_bytes-IsPayload 2 n (omega arith) (omega arith) k

pub attr_bytes-IsPayload :
    (id : ℕ) (w : Write) → IsId id → IsWritable w → IsZeroFree w → IsPayload (attr_bytes id w)
attr_bytes-IsPayload id w h k z =
    All-append IsPayloadByte (header_bytes 3 id) (value_bytes w)
      (header_bytes-IsPayload 3 id (omega arith) (omega arith) h) (value_bytes-IsPayload w k z)
