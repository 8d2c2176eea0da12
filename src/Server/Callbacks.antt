-- ===== src/Server/Callbacks.antt =====
-- A callback query: the server's `query`, the client's `_service_query`, and the answer's way back.
mod Answers
unfoldable pub use Answers.*
use angr_ghidra_core.Prelude.{
  ℕ, true, false, [], ◌∷◌, ◌++◌, none, append_assoc, ◌≡◌, refl, ◌∙◌, ap, arith, All,
}
use angr_ghidra_core.Prelude.Result.{Result, ok, err, callback_error}
use angr_ghidra_core.Packed.{Bytes, IsByte}
use angr_ghidra_core.Packed.NonZero.{IsPayload}
use angr_ghidra_core.Packed.Utf8.{decode_replace}
use angr_ghidra_core.Packed.Decoder.{Decoder, init, open_element}
use angr_ghidra_core.Framing.{
  marker, string_stream, byte_stream, doubled, decode_byte_stream, bytes_start,
  query_response_start, query_start, query_end, string_end, bytes_end, exception_end,
  query_response_end,
}
use angr_ghidra_core.Framing.Doubling.{decode_byte_stream-doubled, doubled-IsPayload}
use angr_ghidra_core.Framing
use angr_ghidra_core.Transport.{Transport, Run, read_to_burst, pure, ◌>>=◌}
use angr_ghidra_core.Transport.Bursts.{pipe, read_to_burst-marker, read_payload-closed}
use angr_ghidra_core.Server.{
  Reply, string, bytes, empty, read_reply, read_answer, read_exception, exception_part, join_parts,
  query, query_bytes,
}
use angr_ghidra_core.Client
use angr_ghidra_core.Client.{
  Answer, encoder, bytes, encoded, string, truth, nothing, other, raised, exception_bytes,
  write_answer, answer_to, service_query, open_query, read_query_param,
}

-- The answers that the protocol can carry: no zero byte in a text, and bytes in a byte string.

framed :
    (stream output : Bytes)
    → ((output ++ marker query_response_start) ++ stream) ++ marker query_response_end
      ≡ output ++ ((marker query_response_start ++ stream) ++ marker query_response_end)
framed stream output = simp append_assoc refl

-- What the client writes does not depend on what it has written before.
write_answer-output :
    (answer : Answer) (input output : Bytes)
    → IsAnswer answer
    → write_answer answer (pipe input output) ≡ (ok tt, pipe input (output ++ written answer))
unfolding write_answer
write_answer-output (encoder []) input output h = ap (λ o. (ok tt, pipe input o)) (framed [] output)
write_answer-output (encoder (b ∷ bs)) input output h =
    ap (λ o. (ok tt, pipe input o)) (framed (string_stream (b ∷ bs)) output)
write_answer-output (truth true) input output h =
    ap (λ o. (ok tt, pipe input o)) (framed (string_stream (b't' ∷ [])) output)
write_answer-output (truth false) input output h =
    ap (λ o. (ok tt, pipe input o)) (framed (string_stream (b'f' ∷ [])) output)
write_answer-output (Client.bytes []) input output h =
    ap (λ o. (ok tt, pipe input o)) (framed [] output)
write_answer-output (Client.bytes (b ∷ bs)) input output h =
    ap (λ o. (ok tt, pipe input o)) (framed (byte_stream (b ∷ bs)) output)
write_answer-output (encoded bs) input output h =
    ap (λ o. (ok tt, pipe input o)) (framed (marker bytes_start ++ (bs ++ marker bytes_end)) output)
write_answer-output (Client.string s) input output h =
    ap (λ o. (ok tt, pipe input o)) (framed (string_stream s) output)
write_answer-output nothing input output h = ap (λ o. (ok tt, pipe input o)) (framed [] output)
write_answer-output other input output h = absurd h
write_answer-output (raised kind message) input output h = refl

read_query_param-stream :
    (payload rest output : Bytes)
    → IsPayload payload
    → read_query_param (pipe (string_stream payload ++ rest) output)
      ≡ (ok payload, pipe rest output)
unfolding read_query_param read_to_burst Framing.read_to_burst Framing.scan_to_burst
read_query_param-stream payload rest output h =
    rw (read_payload-closed payload string_end rest output h (omega arith)) refl

pub service_query-query :
    (handler : ℕ → Decoder → Answer) (payload rest output : Bytes) (ident : ℕ) (decoder : Decoder)
    → IsPayload payload
    → open_element none (init payload) ≡ (ok ident, decoder)
    → IsAnswer (answer_to handler ident decoder)
    → service_query handler (pipe (string_stream payload ++ (marker query_end ++ rest)) output)
      ≡ (ok tt, pipe rest (output ++ written (answer_to handler ident decoder)))
unfolding service_query
service_query-query handler payload rest output ident decoder h opens answers =
    let answer = answer_to handler ident decoder in
    let param = read_query_param-stream payload (marker query_end ++ rest) output h in
    let opened : open_query payload (pipe (marker query_end ++ rest) output)
        ≡ (ok (ident, decoder), pipe (marker query_end ++ rest) output) =
      rw (open_query, ap (λ p. p.0) opens, ap (λ p. p.1) opens) refl in
    rw param (
      rw opened (
        rw (write_answer-output answer (marker query_end ++ rest) output answers)
          (rw (read_to_burst-marker query_end rest (output ++ written answer)) refl)))

query-written : (payload : Bytes) → (query payload (pipe [] [])).1.output ≡ query_bytes payload
unfolding query read_answer read_to_burst Framing.read_to_burst Framing.scan_to_burst
query-written payload = refl

-- The client at a query: its first marker is read, and the rest is serviced.
abbrev pub take_query : (ℕ → Decoder → Answer) → Run Transport ℕ
take_query handler = do code ← read_to_burst; _ ← service_query handler; pure code

taken :
    (handler : ℕ → Decoder → Answer) (payload rest answered : Bytes)
    → service_query handler (pipe ((string_stream payload ++ marker query_end) ++ rest) [])
      ≡ (ok tt, pipe rest answered)
    → take_query handler (pipe (query_bytes payload ++ rest) [])
      ≡ (ok query_start, pipe rest answered)
unfolding read_to_burst Framing.read_to_burst Framing.scan_to_burst
taken handler payload rest answered h = rw h refl

-- A query is answered. The server writes it with `query`; the client takes its first marker, services
-- it, and stands behind the query in its input; what it has written makes the server's `query` return
-- what the handler's answer means, or raise CallbackException where the handler raises. It holds for
-- queries without a zero byte whose first element can be opened, and for answers of the kinds that
-- the protocol can carry.
pub query-service_query :
    (handler : ℕ → Decoder → Answer) (payload rest later output : Bytes) (ident : ℕ)
    (decoder : Decoder)
    → IsPayload payload
    → open_element none (init payload) ≡ (ok ident, decoder)
    → IsAnswer (answer_to handler ident decoder)
    → (answered : Bytes) × (take_query handler
          (pipe ((query payload (pipe [] [])).1.output ++ rest) [])
        ≡ (ok query_start, pipe rest answered))
      × (query payload (pipe (answered ++ later) output)
          ≡ (outcome (answer_to handler ident decoder), pipe later (output ++ query_bytes payload)))
unfolding query
query-service_query handler payload rest later output ident decoder h opens answers =
    let answer = answer_to handler ident decoder in
    let stream : (string_stream payload ++ marker query_end) ++ rest
        ≡ string_stream payload ++ (marker query_end ++ rest) =
      append_assoc (string_stream payload) (marker query_end) rest in
    let serviced = service_query-query handler payload rest [] ident decoder h opens answers in
    (
      written answer,
      rw (query-written payload) (taken handler payload rest (written answer) (rw stream serviced)),
      read_answer-written answer later (output ++ query_bytes payload) answers,
    )
