-- ===== src/Core/Exchange.antt =====
-- ghidra_wire/client.py with core/angr_core.py: a command through both ends of the pipe, where the
-- handlers ask no queries.
use angr_ghidra_core.Prelude.{ℕ, List, [], ◌∷◌, append-nil, Option, none, some, ◌≡◌, sym, ◌∙◌, ap}
use angr_ghidra_core.Prelude.Result.{Result, ok}
use angr_ghidra_core.Packed.{Bytes}
use angr_ghidra_core.Packed.NonZero.{IsPayload}
use angr_ghidra_core.Packed.Decoder.{Decoder}
use angr_ghidra_core.Packed.Utf8.{decode_replace}
use angr_ghidra_core.Transport.Bursts.{pipe}
use angr_ghidra_core.Server.{read_command, begin_response, end_response}
use angr_ghidra_core.Server.Commands.{read_command-send_command}
use angr_ghidra_core.Server.Responses.{IsOutput, received, read_response-response}
use angr_ghidra_core.Client.{Answer, or_none, send_command, read_response}
use angr_ghidra_core.Core.{
  Outcome, returned, exits, failed, Handler, Round, again, stopped, bad_command, low_level_error,
  close_round, run_command, answer,
}
use angr_ghidra_core.Core.Serving.{IsCommand, Quiet, lifted, response}

-- What the client gets from `_read_response`: the output, and the error message or None.
abbrev pub Received : Type 0
Received = Bytes × Option Bytes

-- The client reads what a round of the core's loop has written.
abbrev pub reply_to : {S : Type 0} → (ℕ → Decoder → Answer) → Round S → Result Received × S
reply_to oracle (again s t) = ((read_response oracle (pipe t.output [])).0, s)
reply_to oracle (stopped result s t) = ((read_response oracle (pipe t.output [])).0, s)

-- The client sends a command, the core reads and answers it, and the client reads the response.
abbrev pub exchange :
    {S : Type 0}
    → (Bytes → Option (Handler S))
    → (ℕ → Decoder → Answer)
    → List Bytes
    → S
    → Result Received × S
exchange handlers oracle params s =
    reply_to oracle
      (answer handlers s (read_command (pipe (send_command params (pipe [] [])).1.output [])))

abbrev pub message : Bytes → Option Bytes
message error = or_none (decode_replace error)

-- What the client is to get for what a handler does.
abbrev pub replied : Outcome → Received
replied (returned none) = ([], none)
replied (returned (some payload)) = (payload, none)
replied exits = ([], none)
replied (failed text) = ([], message (low_level_error text))

abbrev pub IsReplied : Outcome → Type 0
IsReplied (returned payload) = IsOutput payload
IsReplied exits = Unit
IsReplied (failed text) = IsPayload (low_level_error text)

-- What the client is to get for a command, and where it leaves the state.
abbrev pub handled : {S : Type 0} → Option (Quiet S) → Bytes → List Bytes → S → Received × S
handled none name params s = (([], message (bad_command name)), s)
handled (some f) name params s = (replied (f params s).0, (f params s).1)

abbrev pub IsHandled : {S : Type 0} → Option (Quiet S) → Bytes → List Bytes → S → Type 0
IsHandled none name params s = IsPayload (bad_command name)
IsHandled (some f) name params s = IsReplied (f params s).0

abbrev pub lifted_handler : {S : Type 0} → Option (Quiet S) → Option (Handler S)
lifted_handler none = none
lifted_handler (some f) = some (lifted f)

module _ (oracle : ℕ → Decoder → Answer) where
  read_end :
      (payload : Option Bytes) (error : Bytes)
      → IsOutput payload
      → IsPayload error
      → read_response oracle (pipe (response payload error) [])
        ≡ (ok ((received payload error).main, message error), pipe [] [])
  unfolding begin_response end_response
  read_end payload error hp he =
      ap (λ bs. read_response oracle (pipe bs [])) (sym (append-nil (response payload error)))
      ∙ read_response-response oracle [] payload error [] [] tt hp he

  closed :
      {S : Type 0} (s : S) (payload : Option Bytes) (error : Bytes)
      → IsOutput payload
      → IsPayload error
      → reply_to oracle (again s (end_response payload error (begin_response (pipe [] [])).1).1)
        ≡ (ok ((received payload error).main, message error), s)
  unfolding begin_response end_response
  closed s payload error hp he = ap (λ r. (r.0, s)) (read_end payload error hp he)

  answered :
      {S : Type 0} (s : S) (outcome : Outcome)
      → IsReplied outcome
      → reply_to oracle (close_round (outcome, s, (begin_response (pipe [] [])).1))
        ≡ (ok (replied outcome), s)
  unfolding decode_replace
  answered s (returned none) h = closed s none [] tt tt
  answered s (returned (some payload)) h = closed s (some payload) [] h tt
  answered s exits h = closed s none [] tt tt
  answered s (failed text) h = closed s none (low_level_error text) tt h

  sent :
      (name : Bytes) (params : List Bytes)
      → IsCommand (name, params)
      → read_command (pipe (send_command (name ∷ params) (pipe [] [])).1.output [])
        ≡ (ok (name, params), pipe [] [])
  sent name params h =
      let bytes = (send_command (name ∷ params) (pipe [] [])).1.output in
      ap (λ bs. read_command (pipe bs [])) (sym (append-nil bytes))
      ∙ read_command-send_command name params [] [] [] h.0 h.1

  ran :
      {S : Type 0} (handler : Option (Quiet S)) (name : Bytes) (params : List Bytes) (s : S)
      → IsHandled handler name params s
      → reply_to oracle
          (run_command (lifted_handler handler) name params s (begin_response (pipe [] [])).1)
        ≡ (ok (handled handler name params s).0, (handled handler name params s).1)
  ran none name params s h = closed s none (bad_command name) tt h
  ran (some f) name params s h = answered (f params s).1 (f params s).0 h

  -- A command gets its answer. What the client sends is read by the core as that command; its handler
  -- runs on the parameters; and `_read_response` returns the payload that the handler returned, or
  -- nothing and "Low-level Error: " with the text of what the handler raised, or with the name of a
  -- command that there is not. It holds for UTF-8 names, texts without a zero byte, and a handler that
  -- asks no queries.
  pub exchange-handled :
      {S : Type 0} (handlers : Bytes → Option (Handler S)) (handler : Option (Quiet S))
      (name : Bytes) (params : List Bytes) (s : S)
      → handlers name ≡ lifted_handler handler
      → IsCommand (name, params)
      → IsHandled handler name params s
      → exchange handlers oracle (name ∷ params) s
        ≡ (ok (handled handler name params s).0, (handled handler name params s).1)
  exchange-handled handlers handler name params s e h hr =
      ap (λ r. reply_to oracle (answer handlers s r)) (sent name params h)
      ∙ ap (λ f. reply_to oracle (run_command f name params s (begin_response (pipe [] [])).1)) e
      ∙ ran handler name params s hr
