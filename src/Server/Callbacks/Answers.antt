-- ===== src/Server/Callbacks/Answers.antt =====
-- `read_answer` on what the client writes for an answer.
use angr_ghidra_core.Prelude.{
  true, false, [], ◌∷◌, ◌++◌, append_assoc, ◌≡◌, refl, ◌∙◌, ap, arith, All,
}
use angr_ghidra_core.Prelude.Result.{Result, ok, err, callback_error}
use angr_ghidra_core.Packed.{Bytes, IsByte}
use angr_ghidra_core.Packed.NonZero.{IsPayload}
use angr_ghidra_core.Packed.Utf8.{decode_replace}
use angr_ghidra_core.Framing.{
  marker, string_stream, byte_stream, doubled, decode_byte_stream, bytes_start,
  query_response_start, query_start, query_end, string_end, bytes_end, exception_end,
  query_response_end,
}
use angr_ghidra_core.Framing.Doubling.{decode_byte_stream-doubled, doubled-IsPayload}
use angr_ghidra_core.Framing
use angr_ghidra_core.Transport.{read_to_burst}
use angr_ghidra_core.Transport.Bursts.{pipe, read_payload-closed}
use angr_ghidra_core.Server.{
  Reply, string, bytes, empty, read_reply, read_answer, read_exception, exception_part, join_parts,
}
use angr_ghidra_core.Client
use angr_ghidra_core.Client.{
  Answer, encoder, bytes, encoded, string, truth, nothing, other, raised, exception_bytes,
  write_answer, answer_to, service_query, open_query, read_query_param,
}

abbrev pub IsAnswer : Answer → Type 0
IsAnswer (encoder bs) = IsPayload bs
IsAnswer (Client.string s) = IsPayload s
IsAnswer (Client.bytes bs) = All IsByte bs
IsAnswer (encoded bs) = (raw : Bytes) × All IsByte raw × (bs ≡ doubled raw)
IsAnswer (truth b) = Unit
IsAnswer nothing = Unit
IsAnswer other = ⊥
IsAnswer (raised kind message) = IsPayload kind × IsPayload message

-- What `query` is to make of an answer.
abbrev pub outcome : Answer → Result Reply
outcome (encoder []) = ok empty
outcome (encoder bs) = ok (string bs)
outcome (truth true) = ok (string (b't' ∷ []))
outcome (truth false) = ok (string (b'f' ∷ []))
outcome (Client.bytes []) = ok empty
outcome (Client.bytes bs) = ok (bytes bs)
outcome (encoded bs) = elim (decode_byte_stream bs) [ ok raw ↦ ok (bytes raw) | err e ↦ err e ]
outcome (Client.string s) = ok (string s)
outcome (raised kind message) =
    err (callback_error (join_parts (decode_replace kind) (decode_replace message)))
outcome _ = ok empty

-- The bytes that a run of the client writes.
abbrev pub written : Answer → Bytes
written answer = (write_answer answer (pipe [] [])).1.output

read_string :
    (s rest output : Bytes)
    → IsPayload s
    → read_reply (pipe (string_stream s ++ (marker query_response_end ++ rest)) output)
      ≡ (ok (string s), pipe rest output)
unfolding read_reply read_to_burst Framing.read_to_burst Framing.scan_to_burst
read_string s rest output h =
    rw (read_payload-closed s string_end (marker query_response_end ++ rest) output h (omega arith))
      refl

read_bytes :
    (bs raw rest output : Bytes)
    → IsPayload bs
    → decode_byte_stream bs ≡ ok raw
    → read_reply (
        pipe
          ((marker bytes_start ++ (bs ++ marker bytes_end)) ++ (marker query_response_end ++ rest))
          output)
      ≡ (ok (bytes raw), pipe rest output)
unfolding read_reply read_to_burst Framing.read_to_burst Framing.scan_to_burst
read_bytes bs raw rest output h decodes =
    rw
      (
        read_payload-closed bs bytes_end (marker query_response_end ++ rest) output h (omega arith),
        decodes,
      )
      refl

read_exception-bytes :
    (kind message rest output : Bytes)
    → IsPayload kind
    → IsPayload message
    → read_exception (
        pipe
          (string_stream kind ++ (string_stream message ++ (marker exception_end ++ rest)))
          output)
      ≡ (ok (join_parts (decode_replace kind) (decode_replace message)), pipe rest output)
unfolding read_exception read_to_burst Framing.read_to_burst Framing.scan_to_burst
read_exception-bytes kind message rest output hk hm =
    let tail = marker exception_end ++ rest in
    rw
      (
        exception_part,
        read_payload-closed kind string_end (string_stream message ++ tail) output hk (omega arith),
      )
      (rw (exception_part, read_payload-closed message string_end tail output hm (omega arith))
        refl)

read_empty :
    (rest output : Bytes)
    → read_reply (pipe (marker query_response_end ++ rest) output) ≡ (ok empty, pipe rest output)
unfolding read_reply read_to_burst Framing.read_to_burst Framing.scan_to_burst
read_empty rest output = refl

replied :
    (stream rest output : Bytes) (reply : Reply)
    → read_reply (pipe (stream ++ (marker query_response_end ++ rest)) output)
      ≡ (ok reply, pipe rest output)
    → read_answer (
        pipe
          (((marker query_response_start ++ stream) ++ marker query_response_end) ++ rest)
          output)
      ≡ (ok reply, pipe rest output)
unfolding read_answer read_to_burst Framing.read_to_burst Framing.scan_to_burst
replied stream rest output reply h =
    ap (λ i. read_reply (pipe i output)) (append_assoc stream (marker query_response_end) rest) ∙ h

raised_bytes :
    (kind message rest output : Bytes)
    → IsPayload kind
    → IsPayload message
    → read_answer (pipe (exception_bytes kind message ++ rest) output)
      ≡ (outcome (raised kind message), pipe rest output)
unfolding read_answer read_to_burst Framing.read_to_burst Framing.scan_to_burst
raised_bytes kind message rest output hk hm =
    let tail = string_stream message ++ marker exception_end in
    let frame : (string_stream kind ++ tail) ++ rest
        ≡ string_stream kind ++ (string_stream message ++ (marker exception_end ++ rest)) =
      append_assoc (string_stream kind) tail rest
      ∙ ap (λ s. string_stream kind ++ s)
          (append_assoc (string_stream message) (marker exception_end) rest) in
    rw (frame, read_exception-bytes kind message rest output hk hm) refl

-- An answer that the client writes, the server's `query` makes of it what it is to make, and it
-- leaves the bytes behind it.
pub read_answer-written :
    (answer : Answer) (rest output : Bytes)
    → IsAnswer answer
    → read_answer (pipe (written answer ++ rest) output) ≡ (outcome answer, pipe rest output)
unfolding write_answer
read_answer-written (encoder []) rest output h =
    replied [] rest output empty (read_empty rest output)
read_answer-written (encoder (b ∷ bs)) rest output h =
    replied (string_stream (b ∷ bs)) rest output (string (b ∷ bs))
      (read_string (b ∷ bs) rest output h)
read_answer-written (truth true) rest output h =
    replied (string_stream (b't' ∷ [])) rest output (string (b't' ∷ []))
      (read_string (b't' ∷ []) rest output (omega arith))
read_answer-written (truth false) rest output h =
    replied (string_stream (b'f' ∷ [])) rest output (string (b'f' ∷ []))
      (read_string (b'f' ∷ []) rest output (omega arith))
read_answer-written (Client.bytes []) rest output h =
    replied [] rest output empty (read_empty rest output)
read_answer-written (Client.bytes (b ∷ bs)) rest output h =
    let raw = b ∷ bs in
    replied (byte_stream raw) rest output (bytes raw) (
      read_bytes (doubled raw) raw rest output (doubled-IsPayload raw)
        (decode_byte_stream-doubled raw h))
read_answer-written (encoded bs) rest output (raw, hr, e) =
    let decodes : decode_byte_stream bs ≡ ok raw = rw e (decode_byte_stream-doubled raw hr) in
    rw (outcome, decodes)
      (replied (marker bytes_start ++ (bs ++ marker bytes_end)) rest output (bytes raw)
        (read_bytes bs raw rest output (rw e (doubled-IsPayload raw)) decodes))
read_answer-written (Client.string s) rest output h =
    replied (string_stream s) rest output (string s) (read_string s rest output h)
read_answer-written nothing rest output h = replied [] rest output empty (read_empty rest output)
read_answer-written other rest output h = absurd h
read_answer-written (raised kind message) rest output h =
    raised_bytes kind message rest output h.0 h.1
