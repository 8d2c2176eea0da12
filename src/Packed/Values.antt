-- ===== src/Packed/Values.antt =====
-- Attributes written by `PackedEncoder` and read by `PackedDecoder`: the value comes back, and the
-- skipping reader stops where the value ends.
use angr_ghidra_core.Prelude.{
  ℕ, suc, ◌+◌, ◌*◌, ◌/◌, ◌^◌, ◌<◌, bit_and, true, false, [], ◌∷◌, ◌++◌, ◌==◌, length, take, drop,
  take-append, length-append, append_assoc, ◌≡◌, refl, ap, ◌∙◌, arith,
}
use angr_ghidra_core.Prelude.Int.{ℤ, pos, negsuc}
use angr_ghidra_core.Prelude.Bits.{bit_or_fields, bit_and_mask}
use angr_ghidra_core.Prelude.Result.{ok, ◌>>=◌}
use angr_ghidra_core.Packed.{Bytes}
use angr_ghidra_core.Packed.Utf8.{decode_utf8}
use angr_ghidra_core.Packed.Encoder.{put_header, put_integer, append, len_code, mask_u64}
use angr_ghidra_core.Packed.Decoder.{byte, read_id, read_integer, attr_value, skip_attr_value}
use angr_ghidra_core.Packed.Groups.{
  Ahead, byte-Ahead, Ahead-suc, Ahead-append, append_lem, length-groups, integer_bytes,
  put_integer-bytes, read_integer-groups, len_code-le,
}
use angr_ghidra_core.Packed.Wire.{
  Write, boolean, signed, unsigned, string, space, special, opcode, write, IsWritable, IsId,
  read_back, header_bytes, value_bytes, put_header-bytes, read_id-bytes,
}

-- The two fields of a type byte.
type_code : (t n : ℕ) → n < 16 → (t * 16 + n) / 2 ^ 4 ≡ t
type_code t n h = omega arith

length_code : (t n : ℕ) → n < 16 → bit_and (t * 16 + n) 0xf ≡ n
length_code t n h = bit_and_mask 4 (t * 16 + n) ∙ omega arith

pub mask_u64-lt : (z : ℤ) → mask_u64 z < 2 ^ 64
mask_u64-lt (pos n) = omega arith
mask_u64-lt (negsuc n) = omega arith

-- The bytes of one attribute.
abbrev pub attr_bytes : ℕ → Write → Bytes
attr_bytes id w = header_bytes 3 id ++ value_bytes w

module _ (id : ℕ) (buf : Bytes) (h : IsId id) where
  put_both :
      (t v : ℕ)
      → t < 8
      → v < 2 ^ 64
      → (do b ← put_header 0xc0 id buf; put_integer (t * 16) v b)
        ≡ ok (buf ++ (header_bytes 3 id ++ integer_bytes t v))
  put_both t v ht hv = rw (put_header-bytes 3 id buf (omega arith) h) (
      put_integer-bytes t v (buf ++ header_bytes 3 id) ht hv
      ∙ ap ok (append_assoc buf (header_bytes 3 id) (integer_bytes t v)))

  put_string :
      (s : Bytes)
      → length s < 2 ^ 64
      → (do b ← put_header 0xc0 id buf; c ← put_integer 0x70 (length s) b; ok (c ++ s))
        ≡ ok (buf ++ (header_bytes 3 id ++ (integer_bytes 7 (length s) ++ s)))
  put_string s hs =
      rw
        (
          put_header-bytes 3 id buf (omega arith) h,
          put_integer-bytes 7 (length s) (buf ++ header_bytes 3 id) (omega arith) hs,
        )
        (ap ok (
          append_assoc (buf ++ header_bytes 3 id) (integer_bytes 7 (length s)) s
          ∙ append_assoc buf (header_bytes 3 id) (integer_bytes 7 (length s) ++ s)))

  put_byte :
      (b : ℕ)
      → b < 256
      → (do c ← put_header 0xc0 id buf; append b c) ≡ ok (buf ++ (header_bytes 3 id ++ b ∷ []))
  put_byte b hb =
      rw (put_header-bytes 3 id buf (omega arith) h, append_lem b (buf ++ header_bytes 3 id) hb)
        (ap ok (append_assoc buf (header_bytes 3 id) (b ∷ [])))

-- Each method appends the header and the bytes of its value, and raises nothing.
pub write-bytes :
    (id : ℕ) (w : Write) (buf : Bytes)
    → IsId id
    → IsWritable w
    → write id w buf ≡ ok (buf ++ attr_bytes id w)
unfolding write value_bytes
write-bytes id (boolean true) buf h k = put_byte id buf h 0x11 (omega arith)
write-bytes id (boolean false) buf h k = put_byte id buf h 0x10 (omega arith)
write-bytes id (signed (pos n)) buf h k = put_both id buf h 2 n (omega arith) k
write-bytes id (signed (negsuc n)) buf h k = put_both id buf h 3 (suc n) (omega arith) k
write-bytes id (unsigned z) buf h k = put_both id buf h 4 (mask_u64 z) (omega arith) (mask_u64-lt z)
write-bytes id (string s) buf h k = put_string id buf h s k.0
write-bytes id (space i) buf h k = put_both id buf h 5 i (omega arith) k
write-bytes id (special c) buf h k =
    rw (bit_or_fields 4 6 c k) (put_byte id buf h (96 + c) (omega arith))
write-bytes id (opcode n) buf h k = put_both id buf h 2 n (omega arith) k

module _ {buf : Bytes} {at : ℕ} where
  -- The integer behind a type byte, when the fields of that byte are known.
  integer_parts :
      (t v : ℕ) (rest : Bytes)
      → Ahead buf at (integer_bytes t v ++ rest)
      → v < 2 ^ 64
      → (byte buf at ≡ ok (t * 16 + len_code v))
        × ((t * 16 + len_code v) / 2 ^ 4 ≡ t)
        × (bit_and (t * 16 + len_code v) 0xf ≡ len_code v)
        × (read_integer buf (at + 1) (len_code v) ≡ ok (v, at + 1 + len_code v))
  integer_parts t v rest h hv =
      let small : len_code v < 16 = omega (arith, len_code-le v hv) in
      (
        byte-Ahead h,
        type_code t (len_code v) small,
        length_code t (len_code v) small,
        read_integer-groups v buf (at + 1) rest (Ahead-suc h),
      )

length-integer_bytes : (t v : ℕ) → length (integer_bytes t v) ≡ suc (len_code v)
length-integer_bytes t v = ap suc (length-groups (len_code v) v)

pub attr_value-bytes :
    (w : Write) {buf : Bytes} {at : ℕ} (rest : Bytes)
    → IsWritable w
    → Ahead buf at (value_bytes w ++ rest)
    → attr_value buf at ≡ ok (read_back w)
unfolding attr_value value_bytes decode_utf8
attr_value-bytes (boolean true) rest k h = rw (byte-Ahead h)
attr_value-bytes (boolean false) rest k h = rw (byte-Ahead h)
attr_value-bytes (signed (pos n)) rest k h =
    let i = integer_parts 2 n rest h k in rw (i.0, i.1, i.2, i.3)
attr_value-bytes (signed (negsuc n)) rest k h =
    let i = integer_parts 3 (suc n) rest h k in rw (i.0, i.1, i.2, i.3)
attr_value-bytes (unsigned z) rest k h =
    let i = integer_parts 4 (mask_u64 z) rest h (mask_u64-lt z) in rw (i.0, i.1, i.2, i.3)
attr_value-bytes (string s) {buf} {at} rest k h =
    let h' : Ahead buf at (integer_bytes 7 (length s) ++ (s ++ rest)) =
      rw (append_assoc (integer_bytes 7 (length s)) s rest) at h in
    let i = integer_parts 7 (length s) (s ++ rest) h' k.0 in
    let behind = Ahead-append (integer_bytes 7 (length s)) (s ++ rest) h' in
    let slice : take (length s) (drop (at + 1 + len_code (length s)) buf) ≡ s =
      ap (λ (p : ℕ). take (length s) (drop p buf)) {x = at + 1 + len_code (length s)}
        {y = at + length (integer_bytes 7 (length s))}
        (omega (arith, length-integer_bytes 7 (length s)))
      ∙ ap (take (length s)) behind.suffix
      ∙ take-append s rest in
    rw (i.0, i.1, i.2, i.3, slice, k.1) refl
attr_value-bytes (space n) rest k h = let i = integer_parts 5 n rest h k in rw (i.0, i.1, i.2, i.3)
attr_value-bytes (special c) rest k h = rw (byte-Ahead h, type_code 6 c k, length_code 6 c k)
attr_value-bytes (opcode n) rest k h = let i = integer_parts 2 n rest h k in rw (i.0, i.1, i.2, i.3)

module _ {buf : Bytes} {at : ℕ} where
  skip_integer :
      (t v : ℕ) (rest : Bytes)
      → (t == 1) ≡ false
      → (t == 6) ≡ false
      → (t == 7) ≡ false
      → v < 2 ^ 64
      → Ahead buf at (integer_bytes t v ++ rest)
      → skip_attr_value buf at ≡ ok (at + length (integer_bytes t v))
  unfolding skip_attr_value
  skip_integer t v rest n1 n6 n7 hv h =
      let i = integer_parts t v rest h hv in
      rw (i.0, i.1, i.2, n1, n6, n7)
        (ap ok {x = at + 1 + len_code v} (omega (arith, length-integer_bytes t v)))

-- `_skip_attr_value` stops behind the bytes of the value.
pub skip_attr_value-bytes :
    (w : Write) {buf : Bytes} {at : ℕ} (rest : Bytes)
    → IsWritable w
    → Ahead buf at (value_bytes w ++ rest)
    → skip_attr_value buf at ≡ ok (at + length (value_bytes w))
unfolding skip_attr_value value_bytes
skip_attr_value-bytes (boolean true) rest k h = rw (byte-Ahead h)
skip_attr_value-bytes (boolean false) rest k h = rw (byte-Ahead h)
skip_attr_value-bytes (signed (pos n)) rest k h = skip_integer 2 n rest refl refl refl k h
skip_attr_value-bytes (signed (negsuc n)) rest k h = skip_integer 3 (suc n) rest refl refl refl k h
skip_attr_value-bytes (unsigned z) rest k h =
    skip_integer 4 (mask_u64 z) rest refl refl refl (mask_u64-lt z) h
skip_attr_value-bytes (string s) {buf} {at} rest k h =
    let h' : Ahead buf at (integer_bytes 7 (length s) ++ (s ++ rest)) =
      rw (append_assoc (integer_bytes 7 (length s)) s rest) at h in
    let i = integer_parts 7 (length s) (s ++ rest) h' k.0 in
    rw (i.0, i.1, i.2, i.3)
      (ap ok {x = at + 1 + len_code (length s) + length s} (
        omega
          (arith, length-integer_bytes 7 (length s), length-append (integer_bytes 7 (length s)) s)))
skip_attr_value-bytes (space n) rest k h = skip_integer 5 n rest refl refl refl k h
skip_attr_value-bytes (special c) rest k h = rw (byte-Ahead h, type_code 6 c k)
skip_attr_value-bytes (opcode n) rest k h = skip_integer 2 n rest refl refl refl k h

-- One attribute is read back whole, and the reader stops behind it.
pub read_attr-bytes :
    (id : ℕ) (w : Write) {buf : Bytes} {at : ℕ} (rest : Bytes)
    → IsId id
    → IsWritable w
    → Ahead buf at (attr_bytes id w ++ rest)
    → (read_id buf at ≡ ok (id, at + length (header_bytes 3 id)))
      × (attr_value buf (at + length (header_bytes 3 id)) ≡ ok (read_back w))
      × (skip_attr_value buf (at + length (header_bytes 3 id)) ≡ ok (at + length (attr_bytes id w)))
read_attr-bytes id w {buf} {at} rest hi hw h =
    let h' : Ahead buf at (header_bytes 3 id ++ (value_bytes w ++ rest)) =
      rw (append_assoc (header_bytes 3 id) (value_bytes w) rest) at h in
    let behind = Ahead-append (header_bytes 3 id) (value_bytes w ++ rest) h' in
    (
      read_id-bytes 3 id (value_bytes w ++ rest) (omega arith) hi h',
      attr_value-bytes w rest hw behind,
      skip_attr_value-bytes w rest hw behind
          ∙ ap ok {x = at + length (header_bytes 3 id) + length (value_bytes w)}
              (omega (arith, length-append (header_bytes 3 id) (value_bytes w))),
    )
