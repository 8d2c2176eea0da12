-- ===== src/Edits/Locked.antt =====
-- The edits that are parsed.
use angr_ghidra_core.Prelude.{
  ℕ, zero, suc, ◌-◌, ◌%◌, ◌^◌, ◌<◌, true, false, leb, none, some, ◌≡◌, refl, ap, ◌∙◌, arith,
}
use angr_ghidra_core.Prelude.Int.{ℤ, pos, negsuc}
use angr_ghidra_core.Packed.Encoder.{mask_u64}
use angr_ghidra_core.Prelude.Result.{ok}
use angr_ghidra_core.Packed.{Value, int, special_space}
use angr_ghidra_core.Dump.{Element}
use angr_ghidra_core.Dump.Access.{attr, first}
use angr_ghidra_core.Edits.{
  UserEdit, Storage, truth, or_zero, no_storage, stack_offset_of, addr_storage, storage_of, edit_of,
  locked_edit, parse_mapsym, signed_offset,
}

-- The signed numbers of 64 bits.
abbrev pub IsI64 : ℤ → Type 0
IsI64 (pos n) = n < 2 ^ 63
IsI64 (negsuc n) = n < 2 ^ 63

-- A stack offset is read back from the unsigned attribute that carries it: of a signed 64-bit number,
-- which the encoder writes modulo 2 ^ 64, the number itself.
pub signed_offset-mask_u64 : (z : ℤ) → IsI64 z → signed_offset (pos (mask_u64 z)) ≡ z
signed_offset-mask_u64 (pos n) h =
    let same : n % 2 ^ 64 ≡ n = omega arith in
    let low : leb (2 ^ 63) n ≡ false = ground arith in rw (same, low) refl
signed_offset-mask_u64 (negsuc n) h =
    let written : 2 ^ 64 - 1 - n % 2 ^ 64 ≡ 2 ^ 64 - 1 - n = omega arith in
    let high : leb (2 ^ 63) (2 ^ 64 - 1 - n) ≡ true = ground arith in
    let fits : leb (2 ^ 64) (2 ^ 64 - 1 - n) ≡ false = ground arith in
    let back : 2 ^ 64 - 1 - (2 ^ 64 - 1 - n) ≡ n = omega arith in
    rw (written, high, fits, back) refl

or_zero-int : (n : ℕ) → or_zero (some (int (pos n))) ≡ int (pos n)
or_zero-int zero = refl
or_zero-int (suc n) = refl

-- The storage of a symbol on the stack.
abbrev stack_storage : ℤ → Value → Storage
stack_storage z size = record (no_storage size) { stack_offset = some z }

addr_storage-stack :
    (addr_el : Element) (code : ℕ) (z : ℤ)
    → attr addr_el "space" ≡ some (special_space code)
    → attr addr_el "offset" ≡ some (int (pos (mask_u64 z)))
    → IsI64 z
    → addr_storage addr_el ≡ ok (stack_storage z (or_zero (attr addr_el "size")))
addr_storage-stack addr_el code z in_stack at h =
    let offset : or_zero (attr addr_el "offset") ≡ int (pos (mask_u64 z)) =
      ap or_zero at ∙ or_zero-int (mask_u64 z) in
    let signed : signed_offset (pos (mask_u64 z)) ≡ z = signed_offset-mask_u64 z h in
    rw (addr_storage, in_stack, offset, stack_offset_of, signed) refl

-- A user's name of a variable on the stack is taken with its place: of a `mapsym` whose symbol is
-- name-locked and whose address is in a special space at a signed 64-bit offset, written modulo
-- 2 ^ 64, the edit has the symbol's name, the signed offset, no register and no hash.
pub parse_mapsym-stack :
    (mapsym sym addr_el : Element) (code : ℕ) (z : ℤ)
    → first mapsym "symbol" ≡ some sym
    → truth (attr sym "namelock") ≡ true
    → first mapsym "addr" ≡ some addr_el
    → attr addr_el "space" ≡ some (special_space code)
    → attr addr_el "offset" ≡ some (int (pos (mask_u64 z)))
    → IsI64 z
    → (edit : UserEdit) × (parse_mapsym mapsym ≡ ok (some edit))
      × (edit.name ≡ attr sym "name")
      × (edit.stack_offset ≡ some z)
      × (edit.reg_offset ≡ none)
      × (edit.hash_val ≡ none)
unfolding parse_mapsym
parse_mapsym-stack mapsym sym addr_el code z symbol locked address in_stack at h =
    let typelock = truth (attr sym "typelock") in
    let storage = stack_storage z (or_zero (attr addr_el "size")) in
    let edit = edit_of sym true typelock storage in
    let stored : storage_of mapsym ≡ ok (some storage) =
      rw (storage_of, address, addr_storage-stack addr_el code z in_stack at h) refl in
    (
      edit,
      rw (parse_mapsym, symbol, locked, locked_edit, stored)
          (ap (λ l. ok (some (edit_of sym l typelock storage))) locked),
      refl,
      refl,
      refl,
      refl,
    )
