-- ===== src/Client.antt =====
-- angr_ghidra_core/ghidra_wire/client.py: `DecompClient`, Ghidra's end of the pipe. The oracle that
-- answers the queries is code of the caller: `handler` stands for `getattr(oracle, "query_" + name)`
-- of the name that QUERY_NAMES has for the element's id, called on the decoder.
pub mod Calls
pub mod Failures
pub mod Termination
mod Tests
use angr_ghidra_core.Prelude.{
  bit_and, ℕ, zero, suc, ◌+◌, ◌/◌, ◌%◌, Bool, true, false, ◌||◌, List, [], ◌∷◌, ◌++◌, Option, none,
  some, ◌==◌, if◌then◌else◌, length,
}
use angr_ghidra_core.Prelude.Text.{codes, decimal}
use angr_ghidra_core.Prelude.Result.{
  Result, ok, err, protocol_error, core_error, type_error, attribute_error, out_of_fuel,
}
use angr_ghidra_core.Packed.{Bytes}
use angr_ghidra_core.Packed.Utf8.{decode_replace}
use angr_ghidra_core.Packed.Decoder.{Decoder, init, open_element}
use angr_ghidra_core.Ids.Consts.{
  elem_command_isnameused, elem_command_getbytes, elem_command_getcallfixup,
  elem_command_getcallmech, elem_command_getcallotherfixup, elem_command_getcodelabel,
  elem_command_getcomments, elem_command_getcpoolref, elem_command_getdatatype,
  elem_command_getexternalref, elem_command_getmappedsymbols, elem_command_getnamespacepath,
  elem_command_getpcode, elem_command_getpcodeexecutable, elem_command_getregister,
  elem_command_getregistername, elem_command_getstringdata, elem_command_gettrackedregisters,
  elem_command_getuseropname,
}
use angr_ghidra_core.Framing.{
  command_start, command_end, query_start, response_start, response_end, query_response_start,
  query_response_end, exception_start, exception_end, bytes_start, bytes_end, string_start,
  string_end, error_start, warning_start, warning_end, marker, string_stream, byte_stream,
}
use angr_ghidra_core.Transport.{
  Transport, Run, ◌>>=◌, pure, raise, read_to_burst, read_payload, write,
}

-- The parameters' bytes: a PackedEncoder gives its bytes.
abbrev pub param_streams : List Bytes → Bytes
param_streams [] = []
param_streams (p ∷ ps) = string_stream p ++ param_streams ps

abbrev pub command_bytes : List Bytes → Bytes
command_bytes params = marker command_start ++ (param_streams params ++ marker command_end)

unfoldable pub send_command : List Bytes → Run Transport (Unit {0})
send_command params = write (command_bytes params)

unfoldable pub read_query_param : Run Transport Bytes
read_query_param = do
  code ← read_to_burst
  if code == string_start
      then (do
        (payload, end) ← read_payload
        if end == string_end then pure payload else raise protocol_error)
      else raise protocol_error

unfoldable pub raise_exception : {A : Type 0} → Run Transport A
raise_exception = do
  extype ← read_query_param
  message ← read_query_param
  _ ← read_to_burst
  raise (core_error (decode_replace extype) (decode_replace message))

-- The keys of QUERY_NAMES.
abbrev pub query_ids : List ℕ
query_ids =
    elem_command_isnameused ∷ elem_command_getbytes ∷ elem_command_getcallfixup
    ∷ elem_command_getcallmech ∷ elem_command_getcallotherfixup ∷ elem_command_getcodelabel
    ∷ elem_command_getcomments ∷ elem_command_getcpoolref ∷ elem_command_getdatatype
    ∷ elem_command_getexternalref ∷ elem_command_getmappedsymbols ∷ elem_command_getnamespacepath
    ∷ elem_command_getpcode ∷ elem_command_getpcodeexecutable ∷ elem_command_getregister
    ∷ elem_command_getregistername ∷ elem_command_getstringdata ∷ elem_command_gettrackedregisters
    ∷ elem_command_getuseropname ∷ []

abbrev pub has_id : List ℕ → ℕ → Bool
has_id [] ident = false
has_id (i ∷ rest) ident = (i == ident) || has_id rest ident

-- What a handler does: it returns a PackedEncoder, a bool, bytes, a tuple, a str, None or something
-- else, or it raises an exception with a type's name and a text.
pub data Answer : Type 0 where
  encoder bytes encoded string : Bytes → Answer
  truth : Bool → Answer
  nothing other : Answer
  raised : Bytes → Bytes → Answer

abbrev pub unsupported : ℕ → Bytes
unsupported ident = codes "Unsupported decompiler query " ++ decimal ident

abbrev pub value_error_name : Bytes
value_error_name = codes "ValueError"

-- The whole frame of an exception.
abbrev pub exception_bytes : Bytes → Bytes → Bytes
exception_bytes kind message =
    marker exception_start
    ++ (string_stream kind ++ (string_stream message ++ marker exception_end))

-- The stream of an answer inside a query response; `none` for a TypeError.
abbrev pub answer_stream : Answer → Option Bytes
answer_stream (encoder []) = some []
answer_stream (encoder bs) = some (string_stream bs)
answer_stream (truth true) = some (string_stream (b't' ∷ []))
answer_stream (truth false) = some (string_stream (b'f' ∷ []))
answer_stream (bytes []) = some []
answer_stream (bytes bs) = some (byte_stream bs)
answer_stream (encoded bs) = some (marker bytes_start ++ (bs ++ marker bytes_end))
answer_stream (string s) = some (string_stream s)
answer_stream nothing = some []
answer_stream _ = none

-- A TypeError leaves the response open.
unfoldable pub write_answer : Answer → Run Transport (Unit {0})
write_answer (raised kind message) = write (exception_bytes kind message)
write_answer answer = do
  _ ← write (marker query_response_start)
  elim (answer_stream answer) [
    | none ↦ raise type_error
    | some stream ↦ (do _ ← write stream; write (marker query_response_end))
  ]

-- The answer to the query in `decoder` whose element has the id.
abbrev pub answer_to : (ℕ → Decoder → Answer) → ℕ → Decoder → Answer
answer_to handler ident decoder =
    if has_id query_ids ident
    then handler ident decoder
    else raised value_error_name (unsupported ident)

abbrev pub open_query : Bytes → Run Transport (ℕ × Decoder)
open_query payload t =
    let (opened, decoder) = open_element none (init payload) in
    elim opened [ ok ident ↦ (ok (ident, decoder), t) | err e ↦ (err e, t) ]

unfoldable pub service_query : (ℕ → Decoder → Answer) → Run Transport (Unit {0})
service_query handler = do
  payload ← read_query_param
  (ident, decoder) ← open_query payload
  _ ← write_answer (answer_to handler ident decoder)
  _ ← read_to_burst
  pure tt

-- `readToResponse`: the loop before a response, `fuel` rounds of it at most.
unfoldable pub await_response : ℕ → Run Transport (Unit {0})
await_response zero = raise out_of_fuel
await_response (suc fuel) = do
  code ← read_to_burst
  if bit_and code 1 == 1
      then await_response fuel
      else if code == exception_start
      then raise_exception
      else if code == response_start
      then pure tt
      else raise protocol_error

-- `current`: None, the main output, or another bytearray.
pub data Current : Type 0 where
  no_target main_output : Current
  text : Bytes → Current

-- The locals of `_read_response` and `self.error_message`, which is returned beside the output.
pub record Response : Type 0 where
  pub main : Bytes
  pub current : Current
  pub error_message : Option Bytes

abbrev pub init_response : Response
init_response = record { main = []; current = no_target; error_message = none }

-- `s or None`
abbrev pub or_none : Bytes → Option Bytes
or_none [] = none
or_none s = some s

-- `current is not None`, and then `main.clear()`
abbrev pub cleared : Current → Bytes → Bytes
cleared no_target main = main
cleared _ main = []

-- The code 17, by `current`: `current.decode` of None raises.
abbrev pub ended_text : Current → Response → Run Transport Response
ended_text no_target r = raise attribute_error
ended_text main_output r = pure (record r { current = no_target })
ended_text (text s) r =
    pure (record r { current = no_target; error_message = or_none (decode_replace s) })

unfoldable pub end_error : Response → Run Transport Response
end_error r = ended_text r.current r

-- `current.extend(payload)`
abbrev pub extend : Response → Bytes → Response
extend r payload = elim r.current [
  | no_target ↦ r
  | main_output ↦ record r { main = r.main ++ payload }
  | text s ↦ record r { current = text (s ++ payload) }
]

-- The read at the end of the loop's body, by `current`.
abbrev pub next_for : Current → Response → Run Transport (ℕ × Response)
next_for no_target r = do code ← read_to_burst; pure (code, r)
next_for _ r = do (payload, code) ← read_payload; pure (code, extend r payload)

unfoldable pub next_burst : Response → Run Transport (ℕ × Response)
next_burst r = next_for r.current r

-- The code 18: `continue` after a warning goes on with the same code.
abbrev pub on_warning : ℕ → Response → Run Transport (ℕ × Response)
on_warning code r = do
  (payload, end) ← read_payload
  if end == warning_end then pure (code, r) else raise protocol_error

-- The body of the loop of `_read_response` for a code.
unfoldable pub on_burst : (ℕ → Decoder → Answer) → ℕ → Response → Run Transport (ℕ × Response)
on_burst handler code r =
    if code == query_start
    then (do _ ← service_query handler; next_burst r)
    else if code == exception_start
    then raise_exception
    else if code == string_start
    then next_burst (record r { current = main_output })
    else if code == string_end
    then next_burst (record r { current = no_target })
    else if code == error_start
    then next_burst (record r { main = cleared r.current r.main; current = text [] })
    else if code == error_start + 1
    then (do r' ← end_error r; next_burst r')
    else if code == warning_start
    then on_warning code r
    else raise protocol_error

unfoldable pub read_bursts : (ℕ → Decoder → Answer) → ℕ → ℕ → Response → Run Transport Response
read_bursts handler zero code r = raise out_of_fuel
read_bursts handler (suc fuel) code r =
    if code == response_end
    then pure r
    else (do (code', r') ← on_burst handler code r; read_bursts handler fuel code' r')

-- A round reads at least one byte, so the input's length bounds the rounds.
unfoldable pub read_response : (ℕ → Decoder → Answer) → Run Transport (Bytes × Option Bytes)
read_response handler = do
  _ ← (λ t. await_response (suc (length t.input)) t)
  code ← read_to_burst
  r ← (λ t. read_bursts handler (suc (length t.input)) code init_response t)
  pure (r.main, r.error_message)
