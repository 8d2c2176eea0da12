-- ===== src/Packed/Wire.antt =====
-- The bytes that the writing methods of `PackedEncoder` append, and how the low-level readers of
-- `PackedDecoder` take them apart.
use angr_ghidra_core.Prelude.{
  ℕ, suc, ◌+◌, ◌*◌, ◌/◌, ◌%◌, ◌^◌, ◌≤◌, ◌<◌, bit_and, bit_or, Bool, true, [], ◌∷◌, ◌++◌, some, ltb,
  if◌then◌else◌, length, get_elem?, append_assoc, ◌≡◌, refl, ap, ◌∙◌, arith, Bool-cases, inl, inr,
}
use angr_ghidra_core.Prelude.Int.{ℤ, pos, negsuc}
use angr_ghidra_core.Prelude.Bits.{bit_or_fields, bit_and_mask, agree_below, same_below}
use angr_ghidra_core.Prelude.Result.{Result, ok}
use angr_ghidra_core.Packed.{Bytes, Value, int, special_space, text}
use angr_ghidra_core.Packed.Utf8.{is_utf8}
use angr_ghidra_core.Packed.Encoder.{
  put_header, mask_u64, write_bool, write_signed, write_unsigned, write_string, write_space,
  write_special_space, write_opcode,
}
use angr_ghidra_core.Packed.Decoder.{byte, read_id}
use angr_ghidra_core.Packed.Groups.{
  Ahead, get_elem?-Ahead, byte-Ahead, Ahead-suc, append_lem, integer_bytes, mark_low,
}

-- One call of a writing method.
pub data Write : Type 0 where
  boolean : Bool → Write
  signed unsigned : ℤ → Write
  string : Bytes → Write
  space special opcode : ℕ → Write

unfoldable pub write : ℕ → Write → Bytes → Result Bytes
unfolding write_bool write_signed write_unsigned write_string write_space write_special_space
    write_opcode
write id (boolean b) = write_bool id b
write id (signed z) = write_signed id z
write id (unsigned z) = write_unsigned id z
write id (string s) = write_string id s
write id (space i) = write_space id i
write id (special c) = write_special_space id c
write id (opcode n) = write_opcode id n

-- The arguments that the encoding can carry.
abbrev pub IsWritable : Write → Type 0
IsWritable (boolean b) = Unit
IsWritable (signed (pos n)) = n < 2 ^ 64
IsWritable (signed (negsuc n)) = suc n < 2 ^ 64
IsWritable (unsigned z) = Unit
IsWritable (string s) = (length s < 2 ^ 64) × (is_utf8 s ≡ true)
IsWritable (space i) = i < 2 ^ 64
IsWritable (special c) = c < 16
IsWritable (opcode n) = n < 2 ^ 64

-- Ids that fit the two header bytes.
abbrev pub IsId : ℕ → Type 0
IsId id = id < 4096

-- What a reader finds: an unsigned integer comes back modulo 2 ^ 64.
abbrev pub read_back : Write → Value
read_back (boolean b) = Value.bool b
read_back (signed z) = int z
read_back (unsigned z) = int (pos (mask_u64 z))
read_back (string s) = text s
read_back (space i) = int (pos i)
read_back (special c) = special_space c
read_back (opcode n) = int (pos n)

-- The header of kind `c * 64`.
unfoldable pub header_bytes : ℕ → ℕ → Bytes
header_bytes c ident =
    if ltb 0x1f ident
    then (c * 64 + 32 + ident / 128) ∷ (ident % 128 + 128) ∷ []
    else (c * 64 + ident) ∷ []

unfoldable pub value_bytes : Write → Bytes
value_bytes (boolean b) = (if b then 0x11 else 0x10) ∷ []
value_bytes (signed (pos n)) = integer_bytes 2 n
value_bytes (signed (negsuc n)) = integer_bytes 3 (suc n)
value_bytes (unsigned z) = integer_bytes 4 (mask_u64 z)
value_bytes (string s) = integer_bytes 7 (length s) ++ s
value_bytes (space i) = integer_bytes 5 i
value_bytes (special c) = (96 + c) ∷ []
value_bytes (opcode n) = integer_bytes 2 n

pub put_header-bytes :
    (c ident : ℕ) (buf : Bytes)
    → c < 4
    → IsId ident
    → put_header (c * 64) ident buf ≡ ok (buf ++ header_bytes c ident)
unfolding put_header header_bytes
put_header-bytes c ident buf hc hi = elim (Bool-cases (ltb 0x1f ident)) [
  | inl big ↦
      let both : bit_or (c * 64 + 32) (ident / 128) ≡ c * 64 + 32 + ident / 128 =
        ap (λ (k : ℕ). bit_or k (ident / 128)) {x = c * 64 + 32} {y = (c * 2 + 1) * 2 ^ 5}
          (omega arith)
        ∙ bit_or_fields 5 (c * 2 + 1) (ident / 128) (omega arith)
        ∙ omega arith in
      rw (big, bit_or_fields 6 c 32 (omega arith), both, mark_low ident)
        (rw (append_lem (c * 64 + 32 + ident / 128) buf (omega arith)) (
          append_lem (ident % 128 + 128) (buf ++ (c * 64 + 32 + ident / 128) ∷ []) (omega arith)
          ∙ ap ok (append_assoc buf ((c * 64 + 32 + ident / 128) ∷ []) ((ident % 128 + 128) ∷ []))))
  | inr small ↦
      let low : ident < 32 = ground arith in
      rw (small, bit_or_fields 6 c ident (omega arith))
        (append_lem (c * 64 + ident) buf (omega arith))
]

-- The mask of the kind, and the bit that extends an id.
kind_table : same_below (λ b. bit_and b 0xc0) (λ b. b / 64 * 64) 256 ≡ true
unfolding same_below
kind_table = refl

pub kind_lem : (b : ℕ) → b < 256 → bit_and b 0xc0 ≡ b / 64 * 64
kind_lem b h = agree_below (λ x. bit_and x 0xc0) (λ x. x / 64 * 64) 256 kind_table b h

extend_table : same_below (λ b. bit_and b 0x20) (λ b. b / 32 % 2 * 32) 256 ≡ true
unfolding same_below
extend_table = refl

pub extend_lem : (b : ℕ) → b < 256 → bit_and b 0x20 ≡ b / 32 % 2 * 32
extend_lem b h = agree_below (λ x. bit_and x 0x20) (λ x. x / 32 % 2 * 32) 256 extend_table b h

pub length-header_bytes :
    (c ident : ℕ) → (1 ≤ length (header_bytes c ident)) × (length (header_bytes c ident) ≤ 2)
unfolding header_bytes
length-header_bytes c ident = ground arith

-- `_read_id` reads the id back.
pub read_id-bytes :
    (c ident : ℕ) {buf : Bytes} {at : ℕ} (rest : Bytes)
    → c < 4
    → IsId ident
    → Ahead buf at (header_bytes c ident ++ rest)
    → read_id buf at ≡ ok (ident, at + length (header_bytes c ident))
unfolding read_id header_bytes
read_id-bytes c ident {buf} {at} rest hc hi h = elim (Bool-cases (ltb 0x1f ident)) [
  | inl big ↦
      let head : Ahead buf at ((c * 64 + 32 + ident / 128) ∷ (ident % 128 + 128) ∷ rest) =
        rw big at h in
      let b = c * 64 + 32 + ident / 128 in
      let joined : bit_or (bit_and b 0x1f * 2 ^ 7) (bit_and (ident % 128 + 128) 0x7f) ≡ ident =
        rw
          (
            bit_and_mask 5 b,
            bit_and_mask 7 (ident % 128 + 128),
            bit_or_fields 7 (b % 32) ((ident % 128 + 128) % 128) (omega arith),
          )
          (omega arith) in
      let extended : bit_and b 0x20 ≡ 32 = extend_lem b (omega arith) ∙ omega arith in
      rw (big, byte-Ahead head, byte-Ahead (Ahead-suc head), extended, joined) refl
  | inr small ↦
      let low : ident < 32 = ground arith in
      let head : Ahead buf at ((c * 64 + ident) ∷ rest) = rw small at h in
      let plain : bit_and (c * 64 + ident) 0x20 ≡ 0 =
        extend_lem (c * 64 + ident) (omega arith) ∙ omega arith in
      let id : bit_and (c * 64 + ident) 0x1f ≡ ident =
        bit_and_mask 5 (c * 64 + ident) ∙ omega arith in
      rw (small, byte-Ahead head, plain, id) refl
]

header_head :
    (c ident : ℕ)
    → c < 4
    → IsId ident
    → (b : ℕ) × (b < 256) × (b / 64 ≡ c) × ((t : Bytes) × (header_bytes c ident ≡ b ∷ t))
unfolding header_bytes
header_head c ident hc hi = elim (Bool-cases (ltb 0x1f ident)) [
  | inl big ↦
      (c * 64 + 32 + ident / 128, omega arith, omega arith, ((ident % 128 + 128) ∷ [], rw big))
  | inr small ↦
      let low : ident < 32 = ground arith in
      (c * 64 + ident, omega arith, omega arith, ([], rw small))
]

-- The first byte of a header shows its kind.
pub header_kind :
    (c ident : ℕ) {buf : Bytes} {at : ℕ} (rest : Bytes)
    → c < 4
    → IsId ident
    → Ahead buf at (header_bytes c ident ++ rest)
    → (b : ℕ) × (get_elem? buf at ≡ some b) × (bit_and b 0xc0 ≡ c * 64) × (byte buf at ≡ ok b)
header_kind c ident {buf} {at} rest hc hi h =
    let (b, small, kind, (t, e)) = header_head c ident hc hi in
    let first : Ahead buf at (b ∷ (t ++ rest)) = rw e at h in
    (b, get_elem?-Ahead first, kind_lem b small ∙ ap (λ (k : ℕ). k * 64) kind, byte-Ahead first)
