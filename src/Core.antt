-- ===== src/Core.antt =====
-- angr_ghidra_core/core/angr_core.py: `AngrCore.serve`, the loop over the commands. The handlers
-- `cmd_...` are the argument `handler`, from a command's name to what it does, over a state of their
-- own and the pipe.
mod Called
mod Commands
mod Exchange
mod Names
mod Thumb
pub mod Queries
pub mod Serving
pub mod Window
mod Tests
use angr_ghidra_core.Prelude.{
  ℕ, zero, suc, Bool, true, false, List, [], ◌∷◌, ◌++◌, Option, none, some, ◌==◌, ◌&&◌,
  if◌then◌else◌, length,
}
use angr_ghidra_core.Prelude.Text.{codes}
use angr_ghidra_core.Prelude.Result.{Result, Error, ok, err, eof_error, out_of_fuel}
use angr_ghidra_core.Packed.{Bytes}
use angr_ghidra_core.Transport.{Transport}
use angr_ghidra_core.Server.{read_command, begin_response, end_response}

-- What a handler does: it returns a payload or None, raises SystemExit, or raises an exception with
-- a text.
pub data Outcome : Type 0 where
  returned : Option Bytes → Outcome
  exits : Outcome
  failed : Bytes → Outcome

abbrev pub Handler : Type 0 → Type 0
Handler S = List Bytes → S → Transport → Outcome × S × Transport

abbrev pub bad_command : Bytes → Bytes
bad_command name = codes "Low-level Error: Bad command " ++ name

abbrev pub low_level_error : Bytes → Bytes
low_level_error text = codes "Low-level Error: " ++ text

-- How a round of the loop ends: with the next command, or with a return or an exception.
pub data Round (S : Type 0) : Type 0 where
  again : S → Transport → Round S
  stopped : Result (Unit {0}) → S → Transport → Round S

-- What follows a handler: its response is closed, also when it raised.
abbrev pub close_round : {S : Type 0} → Outcome × S × Transport → Round S
close_round (returned payload, s, t) = again s (end_response payload [] t).1
close_round (exits, s, t) = stopped (ok tt) s (end_response none [] t).1
close_round (failed text, s, t) = again s (end_response none (low_level_error text) t).1

-- A command is answered.
abbrev pub run_command :
    {S : Type 0} → Option (Handler S) → Bytes → List Bytes → S → Transport → Round S
run_command none name params s t = again s (end_response none (bad_command name) t).1
run_command (some f) name params s t = close_round (f params s t)

abbrev pub is_eof : Error → Bool
is_eof eof_error = true
is_eof _ = false

-- A command that was read is answered; its response begins before the handler runs.
abbrev pub answer :
    {S : Type 0}
    → (Bytes → Option (Handler S))
    → S
    → Result (Bytes × List Bytes) × Transport
    → Round S
answer handler s (err e, t) = stopped (if is_eof e then ok tt else err e) s t
answer handler s (ok (name, params), t) =
    run_command (handler name) name params s (begin_response t).1

abbrev pub Served : Type 0 → Type 0
Served S = Result (Unit {0}) × S × Transport

-- The rest of the loop behind a round.
abbrev pub go_on : {S : Type 0} → (S → Transport → Served S) → Round S → Served S
go_on next (again s t) = next s t
go_on next (stopped r s t) = (r, s, t)

-- `serve`, `fuel` commands of it at most.
unfoldable pub serve : {S : Type 0} → (Bytes → Option (Handler S)) → ℕ → S → Transport → Served S
serve handler zero s t = (err out_of_fuel, s, t)
serve handler (suc fuel) s t = go_on (serve handler fuel) (answer handler s (read_command t))
