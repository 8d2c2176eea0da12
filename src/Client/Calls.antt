-- ===== src/Client/Calls.antt =====
-- ghidra_wire/client.py: the commands of DecompClient, by what they send and what they make of the
-- output of the response, without `decompile_at`, which returns it as it is.
use angr_ghidra_core.Prelude.{
  ℕ, zero, suc, ◌+◌, ◌-◌, ◌*◌, Bool, true, false, ◌&&◌, ◌||◌, List, [], ◌∷◌, Option, none, some,
  leb, ◌==◌, if◌then◌else◌,
}
use angr_ghidra_core.Prelude.Int.{ℤ, pos, negsuc}
use angr_ghidra_core.Prelude.Result.{Result, ok, err, value_error}
use angr_ghidra_core.Prelude.Text.{codes}
use angr_ghidra_core.Packed.{Bytes}
use angr_ghidra_core.Packed.Utf8.{decode_utf8}
use angr_ghidra_core.Emit.{same_bytes}

-- Python's white space below 128.
abbrev pub is_space : ℕ → Bool
is_space c = c == b' ' || (leb 9 c && leb c 13) || (leb 28 c && leb c 31)

abbrev pub all_space : Bytes → Bool
all_space [] = true
all_space (c ∷ cs) = is_space c && all_space cs

abbrev pub is_digit : ℕ → Bool
is_digit c = leb b'0' c && leb c b'9'

-- The digits of a number, with single underscores between them, and white space behind.
abbrev pub int_digits : ℕ → Bool → Bytes → Option ℕ
int_digits n ends [] = if ends then some n else none
int_digits n ends (c ∷ cs) =
    let digit = int_digits (n * 10 + (c - b'0')) true cs in
    let joined = int_digits n false cs in
    if is_digit c
    then digit
    else if ends && c == b'_'
    then joined
    else if ends && is_space c && all_space cs
    then some n
    else none

abbrev pub negated : ℕ → ℤ
negated zero = pos 0
negated (suc n) = negsuc n

abbrev pub signed : Bool → Option ℕ → Result ℤ
signed minus none = err value_error
signed true (some n) = ok (negated n)
signed false (some n) = ok (pos n)

abbrev pub int_signed : Bytes → Result ℤ
int_signed [] = err value_error
int_signed (c ∷ cs) =
    if c == b'-'
    then signed true (int_digits 0 false cs)
    else if c == b'+'
    then signed false (int_digits 0 false cs)
    else signed false (int_digits 0 false (c ∷ cs))

-- `int(text)` of a text in ASCII.
unfoldable pub int_of : Bytes → Result ℤ
int_of [] = err value_error
int_of (c ∷ cs) = let rest = int_of cs in if is_space c then rest else int_signed (c ∷ cs)

pub data Call : Type 0 where
  register_program : Bytes → Bytes → Bytes → Bytes → Call
  deregister_program : Call
  set_action : Bytes → Bytes → Call
  set_options : Bytes → Call
  flush_native : Call

pub data Called : Type 0 where
  named : Bytes → Called
  truth : Bool → Called
  number : ℤ → Called

-- The parameters of `_send_command`, for a client that has the arch id.
abbrev pub request : Bytes → Call → List Bytes
request arch_id (register_program pspec cspec tspec coretypes) =
    codes "registerProgram" ∷ pspec ∷ cspec ∷ tspec ∷ coretypes ∷ []
request arch_id deregister_program = codes "deregisterProgram" ∷ arch_id ∷ []
request arch_id (set_action action printconfig) =
    codes "setAction" ∷ arch_id ∷ action ∷ printconfig ∷ []
request arch_id (set_options options) = codes "setOptions" ∷ arch_id ∷ options ∷ []
request arch_id flush_native = codes "flushNative" ∷ arch_id ∷ []

-- `int(output.decode())`
abbrev pub int_decoded : Result Bytes → Result Called
int_decoded (err e) = err e
int_decoded (ok text) = elim (int_of text) [ ok n ↦ ok (number n) | err e ↦ err e ]

abbrev pub id_decoded : Result Bytes → Result Called
id_decoded (err e) = err e
id_decoded (ok text) = ok (named text)

-- What the call returns or raises for the output.
abbrev pub result_of : Call → Bytes → Result Called
result_of (register_program _ _ _ _) output = id_decoded (decode_utf8 output)
result_of deregister_program output = int_decoded (decode_utf8 output)
result_of (set_action _ _) output = ok (truth (same_bytes output (codes "t")))
result_of (set_options _) output = ok (truth (same_bytes output (codes "t")))
result_of flush_native output = int_decoded (decode_utf8 output)
