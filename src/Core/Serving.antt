-- ===== src/Core/Serving.antt =====
-- A whole session of `serve` over commands that the client has sent before it closes the pipe, with
-- handlers that ask no queries.
use angr_ghidra_core.Prelude.{
  ℕ, zero, suc, ◌<◌, true, List, [], ◌∷◌, ◌++◌, Option, none, some, append-nil, append_assoc, ◌≡◌,
  refl, sym, ◌∙◌, ap, arith, length, All, Option-cases, inl, inr,
}
use angr_ghidra_core.Prelude.Result.{Result, ok}
use angr_ghidra_core.Packed.{Bytes}
use angr_ghidra_core.Packed.NonZero.{IsPayload}
use angr_ghidra_core.Packed.Utf8.{is_utf8}
use angr_ghidra_core.Framing.{marker, response_start}
use angr_ghidra_core.Framing
use angr_ghidra_core.Transport.{Transport, read_to_burst}
use angr_ghidra_core.Transport.Bursts.{pipe}
use angr_ghidra_core.Server.{read_command, begin_response, end_response, end_bytes}
use angr_ghidra_core.Server.Commands.{read_command-send_command}
use angr_ghidra_core.Client.{send_command, command_bytes}
use angr_ghidra_core.Core.{
  Outcome, returned, exits, failed, Handler, bad_command, low_level_error, close_round, run_command,
  answer, go_on, serve,
}

-- A command: its name and its parameters.
abbrev pub Command : Type 0
Command = Bytes × List Bytes

abbrev pub IsCommand : Command → Type 0
IsCommand (name, params) = (is_utf8 name ≡ true) × All IsPayload (name ∷ params)

-- A handler that leaves the pipe alone.
abbrev pub Quiet : Type 0 → Type 0
Quiet S = List Bytes → S → Outcome × S

abbrev pub lifted : {S : Type 0} → Quiet S → Handler S
lifted f params s t = let (outcome, s') = f params s in (outcome, s', t)

abbrev pub quiet : {S : Type 0} → (Bytes → Option (Quiet S)) → Bytes → Option (Handler S)
quiet commands name = elim (commands name) [ none ↦ none | some f ↦ some (lifted f) ]

-- The bytes that a client has written for the commands.
abbrev pub all_commands : List Command → Bytes
all_commands [] = []
all_commands ((name, params) ∷ cs) = command_bytes (name ∷ params) ++ all_commands cs

abbrev pub response : Option Bytes → Bytes → Bytes
response payload error = marker response_start ++ end_bytes payload error

-- What a session is to write, where it leaves the state, and the commands that it leaves unread.
pub record Session (S : Type 0) : Type 0 where
  pub written : Bytes
  pub state : S
  pub unread : List Command

abbrev pub behind : {S : Type 0} → Bytes → Session S → Session S
behind bs session = record session { written = bs ++ session.written }

-- Each command is answered by one response, up to a command whose handler exits, whose response is
-- the last.
abbrev pub answered : {S : Type 0} → Outcome → S → Session S → List Command → Session S
answered (returned payload) s later cs = behind (response payload []) later
answered (failed text) s later cs = behind (response none (low_level_error text)) later
answered exits s later cs = record { written = response none []; state = s; unread = cs }

unfoldable pub session : {S : Type 0} → (Bytes → Option (Quiet S)) → S → List Command → Session S
session commands s [] = record { written = []; state = s; unread = [] }
session commands s ((name, params) ∷ cs) = elim (commands name) [
  | none ↦ behind (response none (bad_command name)) (session commands s cs)
  | some f ↦ let (outcome, s') = f params s in answered outcome s' (session commands s' cs) cs
]

module _ {S : Type 0} (commands : Bytes → Option (Quiet S)) where
  read_one :
      (name : Bytes) (params : List Bytes) (cs : List Command) (output : Bytes)
      → IsCommand (name, params)
      → read_command (pipe (all_commands ((name, params) ∷ cs)) output)
        ≡ (ok (name, params), pipe (all_commands cs) output)
  unfolding send_command
  read_one name params cs output h =
      read_command-send_command name params (all_commands cs) [] output h.0 h.1

  -- What the session is to be, as the loop returns it.
  abbrev pub ended : Bytes → Session S → Result (Unit {0}) × S × Transport
  ended output session =
      (ok tt, session.state, pipe (all_commands session.unread) (output ++ session.written))

  serve_end :
      (s : S) (output : Bytes) (fuel : ℕ)
      → serve (quiet commands) (suc fuel) s (pipe [] output) ≡ (ok tt, s, pipe [] output)
  unfolding serve read_command read_to_burst Framing.read_to_burst Framing.scan_to_burst
  serve_end s output fuel = refl

  after_round :
      (fuel : ℕ) (s : S) (t : Transport) (name : Bytes) (params : List Bytes) (t' : Transport)
      → read_command t ≡ (ok (name, params), t')
      → serve (quiet commands) (suc fuel) s t
        ≡ go_on
            (serve (quiet commands) fuel)
            (run_command (quiet commands name) name params s (begin_response t').1)
  unfolding serve
  after_round fuel s t name params t' h =
      ap (λ g. go_on (serve (quiet commands) fuel) (answer (quiet commands) s g)) h

  -- The bytes of a response are appended to what was written.
  responded :
      (input output : Bytes) (payload : Option Bytes) (error : Bytes)
      → (end_response payload error (begin_response (pipe input output)).1).1
        ≡ pipe input (output ++ response payload error)
  unfolding begin_response end_response
  responded input output payload error =
      ap (λ o. pipe input o) (append_assoc output (marker response_start) (end_bytes payload error))

  -- Behind a response the loop goes on with the other commands.
  goes_on :
      (fuel : ℕ) (cs : List Command) (s : S) (output : Bytes) (payload : Option Bytes)
      (error : Bytes)
      → ((output' : Bytes)
          → serve (quiet commands) fuel s (pipe (all_commands cs) output')
            ≡ ended output' (session commands s cs))
      → serve
          (quiet commands)
          fuel
          s
          (end_response payload error (begin_response (pipe (all_commands cs) output)).1).1
        ≡ ended output (behind (response payload error) (session commands s cs))
  goes_on fuel cs s output payload error later =
      let rest = session commands s cs in
      ap (λ t. serve (quiet commands) fuel s t) (responded (all_commands cs) output payload error)
      ∙ later (output ++ response payload error)
      ∙ ap (λ o. (ok tt, rest.state, pipe (all_commands rest.unread) o))
          (append_assoc output (response payload error) rest.written)

  closes :
      (fuel : ℕ) (cs : List Command) (outcome : Outcome) (s : S) (output : Bytes)
      → ((output' : Bytes)
          → serve (quiet commands) fuel s (pipe (all_commands cs) output')
            ≡ ended output' (session commands s cs))
      → go_on
          (serve (quiet commands) fuel)
          (close_round (outcome, s, (begin_response (pipe (all_commands cs) output)).1))
        ≡ ended output (answered outcome s (session commands s cs) cs)
  closes fuel cs (returned payload) s output later = goes_on fuel cs s output payload [] later
  closes fuel cs (failed text) s output later =
      goes_on fuel cs s output none (low_level_error text) later
  closes fuel cs exits s output later =
      ap (λ t. (ok tt, s, t)) (responded (all_commands cs) output none [])

  -- A session of the loop is the session that is promised: every command gets one response, in order,
  -- and the loop returns at the end of the input or behind the command whose handler exits. It holds
  -- for UTF-8 names, texts without a zero byte, and handlers that ask no queries.
  pub serve-session :
      (cs : List Command) (s : S) (output : Bytes) (fuel : ℕ)
      → All IsCommand cs
      → length cs < fuel
      → serve (quiet commands) fuel s (pipe (all_commands cs) output)
        ≡ ended output (session commands s cs)
  unfolding session
  serve-session cs s output zero h enough = absurd (omega arith)
  serve-session [] s output (suc fuel) h enough =
      serve_end s output fuel ∙ ap (λ o. (ok tt, s, pipe [] o)) (sym (append-nil output))
  serve-session ((name, params) ∷ cs) s output (suc fuel) (hc, h) enough =
      let started = (begin_response (pipe (all_commands cs) output)).1 in
      after_round fuel s (pipe (all_commands ((name, params) ∷ cs)) output) name params
        (pipe (all_commands cs) output) (read_one name params cs output hc)
      ∙ elim (Option-cases (commands name)) [
        | inl e ↦
            let rest = session commands s cs in
            let promised : session commands s ((name, params) ∷ cs)
                ≡ behind (response none (bad_command name)) rest =
              rw (session, e) refl in
            let none_here : quiet commands name ≡ none = rw (quiet, e) refl in
            ap (λ o. go_on (serve (quiet commands) fuel) (run_command o name params s started))
              none_here
            ∙ goes_on fuel cs s output none (bad_command name)
                (λ output'. serve-session cs s output' fuel h (omega arith))
            ∙ ap (ended output) (sym promised)
        | inr (f, e) ↦
            let (outcome, s') = f params s in
            let promised : session commands s ((name, params) ∷ cs)
                ≡ answered outcome s' (session commands s' cs) cs =
              rw (session, e) refl in
            let here : quiet commands name ≡ some (lifted f) = rw (quiet, e) refl in
            ap (λ o. go_on (serve (quiet commands) fuel) (run_command o name params s started)) here
            ∙ closes fuel cs outcome s' output
                (λ output'. serve-session cs s' output' fuel h (omega arith))
            ∙ ap (ended output) (sym promised)
      ]
