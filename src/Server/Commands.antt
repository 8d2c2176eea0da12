-- ===== src/Server/Commands.antt =====
-- What the client sends as a command, the server reads back.
use angr_ghidra_core.Prelude.{
  ℕ, zero, suc, ◌<◌, ◌≤◌, true, List, [], ◌∷◌, ◌++◌, append-nil, append_assoc, ◌≡◌, refl, ◌∙◌, ap,
  arith, length, All, length-append,
}
use angr_ghidra_core.Prelude.Result.{ok}
use angr_ghidra_core.Packed.{Bytes}
use angr_ghidra_core.Packed.NonZero.{IsPayload}
use angr_ghidra_core.Packed.Utf8.{is_utf8, decode_utf8}
use angr_ghidra_core.Framing.{marker, command_start, command_end, string_end}
use angr_ghidra_core.Framing
use angr_ghidra_core.Transport.{read_to_burst, after}
use angr_ghidra_core.Transport.Bursts.{pipe, read_payload-closed}
use angr_ghidra_core.Server.{read_params, read_command, closed_payload, named}
use angr_ghidra_core.Client.{send_command, command_bytes, param_streams}

read_params-streams :
    (ps acc : List Bytes) (fuel : ℕ) (rest output : Bytes)
    → All IsPayload ps
    → length ps < fuel
    → read_params fuel acc (pipe (param_streams ps ++ (marker command_end ++ rest)) output)
      ≡ (ok (acc ++ ps), pipe rest output)
unfolding read_params read_to_burst Framing.read_to_burst Framing.scan_to_burst
read_params-streams ps acc zero rest output hp hf = absurd (omega arith)
read_params-streams [] acc (suc fuel) rest output hp hf = rw append-nil refl
read_params-streams (p ∷ ps) acc (suc fuel) rest output hp hf =
    let tail = param_streams ps ++ (marker command_end ++ rest) in
    let framed = read_payload-closed p string_end tail output hp.0 (omega arith) in
    let later = read_params-streams ps (acc ++ p ∷ []) fuel rest output hp.1 (omega arith) in
    rw (append_assoc (p ++ marker string_end))
      (rw (closed_payload, framed) (rw (later, append_assoc) refl))

length-streams : (ps : List Bytes) → length ps ≤ length (param_streams ps)
length-streams [] = omega arith
length-streams (p ∷ ps) = simp length-append (omega (arith, length-streams ps))

read_command-stream :
    (ps : List Bytes) (rest output : Bytes)
    → All IsPayload ps
    → read_command
        (pipe (marker command_start ++ (param_streams ps ++ (marker command_end ++ rest))) output)
      ≡ after named (ok ps, pipe rest output)
unfolding read_command read_to_burst Framing.read_to_burst Framing.scan_to_burst
read_command-stream ps rest output h =
    let stream = param_streams ps ++ (marker command_end ++ rest) in
    let enough : length ps < suc (length stream) =
      simp length-append (omega (arith, length-streams ps)) in
    rw (read_params-streams ps [] (suc (length stream)) rest output h enough) refl

-- The bytes that the client writes for a command whose texts hold no zero byte and whose name is
-- UTF-8 are read by the server as that name and those parameters, and nothing behind them is taken.
pub read_command-send_command :
    (name : Bytes) (params : List Bytes) (rest input output : Bytes)
    → is_utf8 name ≡ true
    → All IsPayload (name ∷ params)
    → read_command (pipe ((send_command (name ∷ params) (pipe input [])).1.output ++ rest) output)
      ≡ (ok (name, params), pipe rest output)
unfolding send_command decode_utf8
read_command-send_command name params rest input output hu h =
    let ps = name ∷ params in
    let written : command_bytes ps ++ rest
        ≡ marker command_start ++ (param_streams ps ++ (marker command_end ++ rest)) =
      ap (λ s. marker command_start ++ s)
        (append_assoc (param_streams ps) (marker command_end) rest) in
    ap (λ s. read_command (pipe s output)) written
    ∙ read_command-stream ps rest output h
    ∙ rw hu refl
