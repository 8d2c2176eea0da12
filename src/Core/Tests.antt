-- ===== src/Core/Tests.antt =====
-- A session of three commands, the second of which exits.
use angr_ghidra_core.Prelude.{
  ℕ, suc, Bool, true, ◌↔◌, List, [], ◌∷◌, Option, none, some, All, ◌==◌, ltb, if◌then◌else◌, ◌≡◌,
  refl, arith,
}
use angr_ghidra_core.Prelude.Int.{ℤ, pos, negsuc}
use angr_ghidra_core.Prelude.Result.{Result, Error, ok, err, value_error}
use angr_ghidra_core.Prelude.Text.{codes}
use angr_ghidra_core.Packed.{Bytes}
use angr_ghidra_core.Packed.Decoder.{Decoder}
use angr_ghidra_core.Packed.NonZero.{IsPayload}
use angr_ghidra_core.Client.{Answer, nothing}
use angr_ghidra_core.Client.Calls.{Call, register_program, named, request, int_of}
use angr_ghidra_core.Core.Called.{ascii-IsPayload, IsCall, called, call-expected}
use angr_ghidra_core.Core.Commands.{AngrCore, new_core, cmd}
use angr_ghidra_core.Core.Names.{Cleans, clean_symbol_name, clean_symbol_name-Cleans}
use angr_ghidra_core.Core.Thumb.{HasShort, asked, thumb_rounds, thumb_rounds-HasShort}
use angr_ghidra_core.Core.Exchange.{exchange, exchange-handled}
use angr_ghidra_core.Packed.Utf8.{is_utf8, is_utf8_ascii}
use angr_ghidra_core.Transport.Bursts.{pipe}
use angr_ghidra_core.Core.{Handler, returned, exits, failed, serve, low_level_error}
use angr_ghidra_core.ImageCache.Run.{read_range}
use angr_ghidra_core.Core.Window.{IsWindow, fetch_window, fetch_window-IsWindow}
use angr_ghidra_core.Core.Serving.{
  Command, IsCommand, Quiet, quiet, all_commands, ended, session, serve-session,
}

-- The command "f" counts its calls, "d" exits, and there is no other.
abbrev counting_of : ℕ → Option (Quiet ℕ)
counting_of letter =
    if letter == b'f'
    then some (λ params calls. (returned (some (b'1' ∷ [])), suc calls))
    else if letter == b'd'
    then some (λ params calls. (exits, calls))
    else none

abbrev counting : Bytes → Option (Quiet ℕ)
counting [] = none
counting (letter ∷ rest) = counting_of letter

abbrev calls : List Command
calls = (b'f' ∷ [], (b'0' ∷ []) ∷ []) ∷ (b'd' ∷ [], []) ∷ (b'x' ∷ [], []) ∷ []

calls-IsCommand : All IsCommand calls
calls-IsCommand = (
  (
    is_utf8_ascii (b'f' ∷ []) (omega arith, tt),
    (((omega arith, omega arith), tt), (((omega arith, omega arith), tt), tt)),
  ),
  (
    (is_utf8_ascii (b'd' ∷ []) (omega arith, tt), (((omega arith, omega arith), tt), tt)),
    ((is_utf8_ascii (b'x' ∷ []) (omega arith, tt), (((omega arith, omega arith), tt), tt)), tt),
  ),
)

serve-session_example :
    serve (quiet counting) 4 0 (pipe (all_commands calls) [])
    ≡ ended counting [] (session counting 0 calls)
serve-session_example = serve-session counting calls 0 [] 4 calls-IsCommand (omega arith)

-- The addresses below 0x30 hold ones.
abbrev small : ℕ → Option ℕ
small addr = if ltb addr 0x30 then some 1 else none

fetch_window-IsWindow_example : IsWindow small 0x21 (fetch_window (read_range small) 0x21)
fetch_window-IsWindow_example = fetch_window-IsWindow small 0x21

abbrev no_queries : ℕ → Decoder → Answer
no_queries ident d = nothing

exchange-handled_example :
    exchange (quiet counting) no_queries ((b'f' ∷ []) ∷ (b'0' ∷ []) ∷ []) 4
    ≡ (ok (b'1' ∷ [], none), 5)
exchange-handled_example =
    exchange-handled no_queries (quiet counting) (counting (b'f' ∷ [])) (b'f' ∷ [])
      ((b'0' ∷ []) ∷ []) 4 refl calls-IsCommand.0 (ascii-IsPayload (b'1' ∷ []) refl)

-- Specifications that are parsed to a number, and exceptions without a text.
abbrev parse : Bytes → Bytes → Bytes → Bytes → Result ℕ
parse pspec cspec tspec coretypes = ok 5

abbrev no_text : Error → Bytes
no_text e = []

abbrev printing : (e : Error) → IsPayload (low_level_error (no_text e))
printing e = ascii-IsPayload (low_level_error []) refl

abbrev registering : Call
registering = register_program (codes "p") (codes "c") (codes "t") (codes "d")

abbrev fresh : AngrCore ℕ ℕ ℕ
fresh = new_core

-- A decompiler that always fails.
abbrev no_decompiler : Handler (AngrCore ℕ ℕ ℕ)
no_decompiler params s t = (failed [], s, t)

registering-IsCall : IsCall (codes "0") registering
unfolding is_utf8
registering-IsCall = (
  (ascii-IsPayload (codes "p") refl, refl),
  (ascii-IsPayload (codes "c") refl, refl),
  (ascii-IsPayload (codes "t") refl, refl),
  (ascii-IsPayload (codes "d") refl, refl),
)

call-expected_example :
    called registering (
      exchange (cmd parse no_text no_decompiler) no_queries (request (codes "0") registering) fresh)
    ≡ (ok (named (codes "0")), none, record fresh { spec = some 5; emitter = some none })
call-expected_example =
    call-expected parse no_text no_decompiler no_queries (codes "0") printing registering fresh
      registering-IsCall

-- "int" of some texts.
ints :
    (int_of (codes " -1_000 ") ≡ ok (negsuc 999))
    × (int_of (codes "12") ≡ ok (pos 12))
    × (int_of [] ≡ err value_error)
    × (int_of (codes "1__0") ≡ err value_error)
unfolding int_of
ints = (refl, refl, refl, refl)

-- The first instruction has four bytes, and the second has two.
abbrev lengths : ℕ → Option ℤ
lengths addr = if addr == 16 then some (pos 4) else if addr == 20 then some (pos 2) else none

thumb_rounds-HasShort_example :
    (b : Bool) × (thumb_rounds {S = ℕ} (asked lengths) 8 16 3 ≡ (ok b, 3))
    × ((b ≡ true) ↔ HasShort lengths 8 16)
thumb_rounds-HasShort_example = thumb_rounds-HasShort lengths 3 8 16

clean_symbol_name-Cleans_example :
    (Cleans (codes "<EXTERNAL>_<a>_atoi") (codes "atoi"))
    ↔ (codes "atoi" ≡ clean_symbol_name (codes "<EXTERNAL>_<a>_atoi"))
clean_symbol_name-Cleans_example =
    clean_symbol_name-Cleans (codes "<EXTERNAL>_<a>_atoi") (codes "atoi")

cleaned :
    (clean_symbol_name (codes "<EXTERNAL>_<a>_atoi") ≡ codes "atoi")
    × (clean_symbol_name (codes "<none>") ≡ codes "<none>")
    × (clean_symbol_name (codes "<EXTERNAL>_libc.so.6_atoi") ≡ codes "libc.so.6_atoi")
unfolding clean_symbol_name
cleaned = (refl, refl, refl)
