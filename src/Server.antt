-- ===== src/Server.antt =====
-- angr_ghidra_core/ghidra_wire/server.py: `ServerTransport`, the core's end of the pipe.
pub mod Commands
pub mod Termination
pub mod Callbacks
pub mod Responses
mod Tests
use angr_ghidra_core.Prelude.{
  ℕ, zero, suc, Bool, true, false, List, [], ◌∷◌, ◌++◌, Option, none, some, ◌==◌, if◌then◌else◌,
  length,
}
use angr_ghidra_core.Prelude.Result.{
  Result, ok, err, protocol_error, eof_error, callback_error, out_of_fuel,
}
use angr_ghidra_core.Packed.{Bytes}
use angr_ghidra_core.Packed.Utf8.{decode_utf8, decode_replace}
use angr_ghidra_core.Framing.{
  command_start, command_end, query_start, query_end, response_start, response_end,
  query_response_start, query_response_end, exception_start, bytes_start, bytes_end, string_start,
  string_end, error_start, error_end, marker, string_stream, decode_byte_stream,
}
use angr_ghidra_core.Transport.{
  Transport, Run, ◌>>=◌, pure, raise, read_to_burst, read_payload, write,
}

-- A result of the pure helpers inside a method.
abbrev pub lift : {S A : Type 0} → Result A → Run S A
lift r s = (r, s)

-- A payload whose closing marker is checked.
abbrev pub closed_payload : ℕ → Run Transport Bytes
closed_payload close = do
  (payload, end) ← read_payload
  if end == close then pure payload else raise protocol_error

-- The loop of `read_command`, `fuel` rounds of it at most.
unfoldable pub read_params : ℕ → List Bytes → Run Transport (List Bytes)
read_params zero params = raise out_of_fuel
read_params (suc fuel) params = do
  code ← read_to_burst
  if code == command_end
      then pure params
      else if code == string_start
      then (do payload ← closed_payload string_end; read_params fuel (params ++ payload ∷ []))
      else raise protocol_error

-- `params[0].decode("utf-8"), params[1:]`
abbrev pub named : List Bytes → Run Transport (Bytes × List Bytes)
named [] = raise protocol_error
named (name ∷ params) = do text ← lift (decode_utf8 name); pure (text, params)

-- A ProtocolError of the first read becomes an EOFError.
abbrev pub first_burst : Run Transport ℕ
first_burst t =
    let (got, t') = read_to_burst t in
    elim got [ ok code ↦ (ok code, t') | err e ↦ (err eof_error, t') ]

-- A round reads at least one byte, so the input's length bounds the rounds.
unfoldable pub read_command : Run Transport (Bytes × List Bytes)
read_command = do
  code ← first_burst
  if code == command_start
      then (λ t. (read_params (suc (length t.input)) [] >>= named) t)
      else raise protocol_error

-- One of the two strings of an exception: `some` text, or `none` where the loop is left.
abbrev pub exception_part : Run Transport (Option Bytes)
exception_part = do
  code ← read_to_burst
  if code == string_start
      then (do (payload, _) ← read_payload; pure (some (decode_replace payload)))
      else pure none

-- `": ".join(p for p in parts if p)`
abbrev pub join_parts : Bytes → Bytes → Bytes
join_parts [] message = message
join_parts kind [] = kind
join_parts kind message = kind ++ (b':' ∷ b' ' ∷ message)

-- `_read_exception`
unfoldable pub read_exception : Run Transport Bytes
read_exception = do
  kind ← exception_part
  message ← elim kind [ none ↦ pure none | some _ ↦ exception_part ]
  _ ← read_to_burst
  pure (elim kind [ none ↦ [] | some k ↦ join_parts k (elim message [ none ↦ [] | some m ↦ m ]) ])

-- What `query` returns: a packed reply, the decoded bytes, or (None, None).
pub data Reply : Type 0 where
  string bytes : Bytes → Reply
  empty : Reply

-- The last marker of a reply.
abbrev pub end_reply : Reply → Run Transport Reply
end_reply reply = do
  code ← read_to_burst
  if code == query_response_end then pure reply else raise protocol_error

unfoldable pub read_reply : Run Transport Reply
read_reply = do
  code ← read_to_burst
  if code == string_start
      then (do payload ← closed_payload string_end; end_reply (string payload))
      else if code == bytes_start
      then (do
        raw ← closed_payload bytes_end
        payload ← lift (decode_byte_stream raw)
        end_reply (bytes payload))
      else if code == query_response_end
      then pure empty
      else raise protocol_error

-- The bytes of a query: its markers around the encoder's bytes.
abbrev pub query_bytes : Bytes → Bytes
query_bytes payload = marker query_start ++ (string_stream payload ++ marker query_end)

-- The second half of `query`: the answer is read.
unfoldable pub read_answer : Run Transport Reply
read_answer = do
  code ← read_to_burst
  if code == exception_start
      then (do message ← read_exception; raise (callback_error message))
      else if code == query_response_start
      then read_reply
      else raise protocol_error

unfoldable pub query : Bytes → Run Transport Reply
query payload = do _ ← write (query_bytes payload); read_answer

unfoldable pub begin_response : Run Transport (Unit {0})
begin_response = write (marker response_start)

abbrev pub output_bytes : Option Bytes → Bytes
output_bytes none = []
output_bytes (some payload) = marker string_start ++ (payload ++ marker string_end)

-- The error frame is always written; an empty message adds nothing to it.
abbrev pub end_bytes : Option Bytes → Bytes → Bytes
end_bytes payload error =
    output_bytes payload
    ++ (marker error_start ++ (error ++ (marker error_end ++ marker response_end)))

unfoldable pub end_response : Option Bytes → Bytes → Run Transport (Unit {0})
end_response payload error = write (end_bytes payload error)
