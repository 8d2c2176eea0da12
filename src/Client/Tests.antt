-- ===== src/Client/Tests.antt =====
-- The theorems on the client's loops at concrete streams.
use angr_ghidra_core.Prelude.{ℕ, [], ◌∷◌, ◌++◌, ◌≡◌, ◌≢◌, arith}
use angr_ghidra_core.Prelude.Result.{err, protocol_error, out_of_fuel}
use angr_ghidra_core.Packed.{Bytes}
use angr_ghidra_core.Packed.Decoder.{Decoder}
use angr_ghidra_core.Framing.{marker, response_start, string_start}
use angr_ghidra_core.Transport.Bursts.{pipe}
use angr_ghidra_core.Client.{Answer, nothing, read_response}
use angr_ghidra_core.Client.Failures.{warning_bytes, read_response-warning}
use angr_ghidra_core.Client.Termination.{read_response-ne-out_of_fuel}

abbrev silent : ℕ → Decoder → Answer
silent ident decoder = nothing

abbrev hi : Bytes
hi = b'h' ∷ b'i' ∷ []

read_response-warning_example :
    read_response silent
      (pipe (marker response_start ++ (warning_bytes hi ++ (marker string_start ++ (9 ∷ [])))) [])
    ≡ (err protocol_error, pipe (9 ∷ []) [])
read_response-warning_example =
    read_response-warning silent hi string_start (9 ∷ []) []
      ((omega arith, omega arith), ((omega arith, omega arith), tt)) (omega arith) (omega arith)

read_response-ne-out_of_fuel_example :
    (read_response silent (pipe (0 ∷ 1 ∷ 6 ∷ 0 ∷ 1 ∷ 4 ∷ []) [])).0 ≢ err out_of_fuel
read_response-ne-out_of_fuel_example =
    read_response-ne-out_of_fuel silent (pipe (0 ∷ 1 ∷ 6 ∷ 0 ∷ 1 ∷ 4 ∷ []) [])
