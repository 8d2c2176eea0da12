-- ===== src/Packed/Groups.antt =====
-- The seven-bit groups of `_integer` and `_read_integer`, and the bytes of `_header` and `_read_id`.
use angr_ghidra_core.Prelude.{
  ℕ, zero, suc, ◌+◌, ◌*◌, ◌/◌, ◌%◌, ◌^◌, ◌≤◌, ◌<◌, bit_and, bit_or, true, [], ◌∷◌, ◌++◌, length,
  get_elem?, some, drop, drop-drop, drop-append, append-nil, append_assoc, lt→ltb, le→ltb, ◌≡◌,
  refl, sym, ap, ◌∙◌, arith,
}
use angr_ghidra_core.Prelude.Bits.{bit_or_fields, bit_and_mask, pow-add, agree_below, same_below}
use angr_ghidra_core.Prelude.Result.{ok}
use angr_ghidra_core.Packed.{Bytes, max_u64}
use angr_ghidra_core.Packed.Encoder.{append, put_groups, put_integer, bit_length, len_code, bits}
use angr_ghidra_core.Packed.Decoder.{byte, read_groups, read_integer}
use native.Mathlib.Nat.{pow-suc, div-div-eq-div-mul, pow-le-pow_right, div-eq_of_lt}

-- The bytes from a position on.
pub record Ahead (buf : Bytes) (at : ℕ) (bs : Bytes) : Type 0 where
  pub suffix : drop at buf ≡ bs

byte_head :
    (buf : Bytes) (at b : ℕ) (rest : Bytes) → drop at buf ≡ b ∷ rest → get_elem? buf at ≡ some b
byte_head [] zero b rest h = cc h
byte_head [] (suc at) b rest h = cc h
byte_head (x ∷ xs) zero b rest h = cc h
byte_head (x ∷ xs) (suc at) b rest h = byte_head xs at b rest h

-- Reading one byte, and what stands behind it.
module _ {buf : Bytes} {at : ℕ} {b : ℕ} {rest : Bytes} where
  pub get_elem?-Ahead : Ahead buf at (b ∷ rest) → get_elem? buf at ≡ some b
  get_elem?-Ahead h = byte_head buf at b rest h.suffix

  pub byte-Ahead : Ahead buf at (b ∷ rest) → byte buf at ≡ ok b
  unfolding byte
  byte-Ahead h = rw (get_elem?-Ahead h, byte)

  pub Ahead-suc : Ahead buf at (b ∷ rest) → Ahead buf (at + 1) rest
  Ahead-suc h = record { suffix = sym (drop-drop at 1 buf) ∙ ap (drop 1) h.suffix }

pub Ahead-append :
    {buf : Bytes} {at : ℕ} (bs rest : Bytes)
    → Ahead buf at (bs ++ rest)
    → Ahead buf (at + length bs) rest
Ahead-append {buf} {at} bs rest h = record {
  suffix =
      sym (drop-drop at (length bs) buf) ∙ ap (drop (length bs)) h.suffix ∙ drop-append bs rest;
}

pub append_lem : (b : ℕ) (buf : Bytes) → b < 256 → append b buf ≡ ok (buf ++ b ∷ [])
unfolding append
append_lem b buf h = rw (lt→ltb b 256 h)

-- The marked byte of a group.
mark_table : same_below (λ x. bit_or x 0x80) (λ x. x + 128) 128 ≡ true
unfolding same_below
mark_table = refl

pub mark_low : (x : ℕ) → bit_or (bit_and x 0x7f) 0x80 ≡ x % 128 + 128
mark_low x =
    rw (bit_and_mask 7 x)
      (agree_below (λ y. bit_or y 0x80) (λ y. y + 128) 128 mark_table (x % 128) (omega arith))

-- The groups of `v`, `n` of them, highest first.
unfoldable pub groups : ℕ → ℕ → Bytes
groups zero v = []
groups (suc i) v = (v / 2 ^ (i * 7) % 128 + 128) ∷ groups i v

pub length-groups : (n v : ℕ) → length (groups n v) ≡ n
unfolding groups
length-groups zero v = refl
length-groups (suc n) v = ap suc (length-groups n v)

pub put_groups-groups : (n v : ℕ) (buf : Bytes) → put_groups n v buf ≡ ok (buf ++ groups n v)
unfolding put_groups groups
put_groups-groups zero v buf = rw append-nil
put_groups-groups (suc i) v buf =
    let x = v / 2 ^ (i * 7) in
    rw (mark_low x, append_lem (x % 128 + 128) buf (omega arith))
      (put_groups-groups i v (buf ++ (x % 128 + 128) ∷ [])
        ∙ ap ok (append_assoc buf ((x % 128 + 128) ∷ []) (groups i v)))

-- One more group above the groups that are read.
pub add_group :
    (i v : ℕ)
    → bit_or (v / 2 ^ (suc i * 7) * 2 ^ 7) (bit_and (v / 2 ^ (i * 7) % 128 + 128) 0x7f)
      ≡ v / 2 ^ (i * 7)
add_group i v =
    let x = v / 2 ^ (i * 7) in
    let shift : v / 2 ^ (suc i * 7) ≡ x / 128 =
      ap (λ (k : ℕ). v / 2 ^ k) {x = suc i * 7} {y = i * 7 + 7} (omega arith)
      ∙ ap (λ (k : ℕ). v / k) (pow-add 2 (i * 7) 7)
      ∙ sym (div-div-eq-div-mul v (2 ^ (i * 7)) 128) in
    rw
      (
        shift,
        bit_and_mask 7 (x % 128 + 128),
        bit_or_fields 7 (x / 128) ((x % 128 + 128) % 128) (omega arith),
      )
      (omega arith)

pub read_groups-groups :
    (n v : ℕ) (buf : Bytes) (at : ℕ) (rest : Bytes)
    → Ahead buf at (groups n v ++ rest)
    → read_groups buf at n (v / 2 ^ (n * 7)) ≡ ok (v, at + n)
unfolding read_groups groups
read_groups-groups zero v buf at rest h = ap ok (ap₂' (omega arith) (omega arith))
  where
    ap₂' : {a b c d : ℕ} → a ≡ b → c ≡ d → ◌≡◌ {A = ℕ × ℕ} (a, c) (b, d)
    ap₂' p q = λ i. (p i, q i)
read_groups-groups (suc i) v buf at rest h =
    rw (byte-Ahead h, add_group i v)
      (read_groups-groups i v buf (at + 1) rest (Ahead-suc h)
        ∙ ap (λ (k : ℕ). ok (v, k)) {x = at + 1 + i} {y = at + suc i} (omega arith))

-- `bit_length` is enough, and no more than 64 for a 64-bit number.
bits_enough : (fuel v : ℕ) → v ≤ fuel → v < 2 ^ bits fuel v
unfolding bits
bits_enough zero v h = omega arith
bits_enough (suc fuel) v h = ground (arith, bits_enough fuel (v / 2), pow-suc 2 (bits fuel (v / 2)))

bits_least : (fuel v k : ℕ) → v < 2 ^ k → bits fuel v ≤ k
unfolding bits
bits_least zero v k h = omega arith
bits_least (suc fuel) v zero h = ground arith
bits_least (suc fuel) v (suc k) h = ground (arith, bits_least fuel (v / 2) k, pow-suc 2 k)

pub len_code-le : (v : ℕ) → v < 2 ^ 64 → len_code v ≤ 10
unfolding bit_length
len_code-le v h = omega (arith, bits_least v v 64 h)

pub len_code_enough : (v : ℕ) → v < 2 ^ (len_code v * 7)
unfolding bit_length
len_code_enough v =
    let mono : 2 ^ bits v v ≤ 2 ^ (len_code v * 7) =
      pow-le-pow_right {n = 2} (omega arith) {i = bits v v} {j = len_code v * 7} (omega arith) in
    omega (arith, bits_enough v v (omega arith), mono)

-- `_read_integer` reads back the groups of an integer.
pub read_integer-groups :
    (v : ℕ) (buf : Bytes) (at : ℕ) (rest : Bytes)
    → Ahead buf at (groups (len_code v) v ++ rest)
    → read_integer buf at (len_code v) ≡ ok (v, at + len_code v)
unfolding read_integer
read_integer-groups v buf at rest h =
    rw (sym (div-eq_of_lt (len_code_enough v))) (read_groups-groups (len_code v) v buf at rest h)

-- The bytes that `_integer` appends for a type code `t`.
abbrev pub integer_bytes : ℕ → ℕ → Bytes
integer_bytes t v = (t * 16 + len_code v) ∷ groups (len_code v) v

pub put_integer-bytes :
    (t v : ℕ) (buf : Bytes)
    → t < 8
    → v < 2 ^ 64
    → put_integer (t * 16) v buf ≡ ok (buf ++ integer_bytes t v)
unfolding put_integer
put_integer-bytes t v buf ht hv =
    let low = len_code-le v hv in
    rw
      (
        le→ltb max_u64 v (omega arith),
        bit_or_fields 4 t (len_code v) (omega arith),
        append_lem (t * 16 + len_code v) buf (omega arith),
      )
      (put_groups-groups (len_code v) v (buf ++ (t * 16 + len_code v) ∷ [])
        ∙ ap ok (append_assoc buf ((t * 16 + len_code v) ∷ []) (groups (len_code v) v)))
