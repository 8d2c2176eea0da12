-- ===== src/Server/Responses.antt =====
-- A command's response: what the server writes around its queries, the client reads.
mod Frames
unfoldable pub use Frames.*
use angr_ghidra_core.Prelude.{
  ℕ, suc, ◌+◌, ◌-◌, ◌≤◌, List, [], ◌∷◌, ◌++◌, Option, none, some, append-nil, append_assoc, ◌≡◌,
  refl, sym, ◌∙◌, ap, arith, length, All, length-append,
}
use angr_ghidra_core.Prelude.Result.{Result, ok, err}
use angr_ghidra_core.Packed.{Bytes}
use angr_ghidra_core.Packed.NonZero.{IsPayload}
use angr_ghidra_core.Packed.Utf8.{decode_replace}
use angr_ghidra_core.Packed.Decoder.{Decoder, init, open_element}
use angr_ghidra_core.Framing.{
  marker, string_stream, query_start, query_end, response_start, response_end, string_start,
  string_end, error_start, error_end, warning_start, warning_end,
}
use angr_ghidra_core.Framing
use angr_ghidra_core.Transport.{Transport, Run, ◌>>=◌, pure, read_to_burst, after}
use angr_ghidra_core.Transport.Bursts.{pipe, read_payload-closed}
use angr_ghidra_core.Server.{query_bytes, begin_response, end_response, end_bytes}
use angr_ghidra_core.Server.Callbacks.{IsAnswer, written, service_query-query}
use angr_ghidra_core.Client.{
  Answer, answer_to, service_query, Response, init_response, no_target, or_none, next_burst,
  end_error, on_burst, read_bursts, read_response, await_response,
}

-- A query of the server, with what the client's decoder makes of its first element.

-- What the server writes for a response without its queries.
abbrev pub response_bytes : List Query → Option Bytes → Bytes → Bytes
response_bytes qs payload error =
    (begin_response (pipe [] [])).1.output
    ++ (all_queries qs ++ (end_response payload error (pipe [] [])).1.output)

pub length-all_queries : (qs : List Query) → length qs ≤ length (all_queries qs)
length-all_queries [] = omega arith
length-all_queries (q ∷ qs) = simp length-append (omega (arith, length-all_queries qs))

-- A stream that begins with a marker, and is long enough behind it.
pub record Starts (stream : Bytes) (rounds : ℕ) : Type 0 where
  pub code : ℕ
  pub behind : Bytes
  pub splits : stream ≡ marker code ++ behind
  pub enough : rounds ≤ suc (length behind)

response-Starts :
    (qs : List Query) (payload : Option Bytes) (error rest : Bytes)
    → Starts (all_queries qs ++ (end_bytes payload error ++ rest)) (length qs + 5)
response-Starts [] none error rest = record {
  code = error_start;
  behind = (error ++ (marker error_end ++ marker response_end)) ++ rest;
  splits = refl;
  enough = simp length-append (omega arith);
}
response-Starts [] (some p) error rest = record {
  code = string_start;
  behind =
      ((p ++ marker string_end)
        ++ (marker error_start ++ (error ++ (marker error_end ++ marker response_end))))
      ++ rest;
  splits = refl;
  enough = simp length-append (omega arith);
}
response-Starts (q ∷ qs) payload error rest = record {
  code = query_start;
  behind =
      ((string_stream q.payload ++ marker query_end) ++ all_queries qs)
      ++ (end_bytes payload error ++ rest);
  splits = refl;
  enough = simp length-append (omega (arith, length-all_queries qs));
}

respond :
    (handler : ℕ → Decoder → Answer) (stream output : Bytes) (rounds : ℕ) (r : Response)
    (t : Transport) (h : Starts stream rounds)
    → go handler (suc (length h.behind)) init_response (pipe stream output) ≡ (ok r, t)
    → read_response handler (pipe (marker response_start ++ stream) output)
      ≡ (ok (r.main, r.error_message), t)
unfolding read_response await_response read_to_burst Framing.read_to_burst Framing.scan_to_burst
respond handler stream output rounds r t h run =
    let ran : read_bursts handler (suc (length h.behind)) h.code init_response
          (pipe h.behind output)
        ≡ (ok r, t) =
      rw h.splits at run in
    rw h.splits (rw ran refl)

-- A response of the server is read by the client: `begin_response`, any number of queries, and
-- `end_response` with an output or none and an error message. The client services every query in
-- order, returns the output and the message (None where it is empty), and takes no byte behind the
-- response. The texts hold no zero byte, the queries can be opened, and their answers are of the
-- kinds that the protocol can carry.
pub read_response-response :
    (handler : ℕ → Decoder → Answer) (qs : List Query) (payload : Option Bytes)
    (error rest output : Bytes)
    → All (IsQuery handler) qs
    → IsOutput payload
    → IsPayload error
    → read_response handler (pipe (response_bytes qs payload error ++ rest) output) ≡ (
      ok ((received payload error).main, (received payload error).error_message),
      pipe rest (output ++ all_answers handler qs),
    )
unfolding begin_response end_response
read_response-response handler qs payload error rest output hq hp he =
    let stream = all_queries qs ++ (end_bytes payload error ++ rest) in
    let starts = response-Starts qs payload error rest in
    let spare = suc (length starts.behind) - (length qs + 5) in
    let rounds : suc (length starts.behind) ≡ length qs + suc (suc (suc (suc (suc spare)))) =
      omega (arith, starts.enough) in
    let answered = output ++ all_answers handler qs in
    let run : go handler (suc (length starts.behind)) init_response (pipe stream output)
        ≡ (ok (received payload error), pipe rest answered) =
      ap (λ n. go handler n init_response (pipe stream output)) rounds
      ∙ query_frames handler qs (end_bytes payload error ++ rest) output
          (suc (suc (suc (suc (suc spare))))) hq
      ∙ end_frame handler payload error rest answered spare hp he in
    ap (λ i. read_response handler (pipe (marker response_start ++ i) output))
      (append_assoc (all_queries qs) (end_bytes payload error) rest)
    ∙ respond handler stream output (length qs + 5) (received payload error) (pipe rest answered)
        starts run
