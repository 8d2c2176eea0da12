-- ===== src/Server/Tests.antt =====
-- The protocol's theorems at concrete commands, queries and responses.
use angr_ghidra_core.Prelude.{ℕ, List, [], ◌∷◌, ◌++◌, none, some, All, ◌≡◌, ◌≢◌, refl, arith}
use angr_ghidra_core.Prelude.Result.{ok, err, attribute_error, out_of_fuel}
use angr_ghidra_core.Packed.{Bytes}
use angr_ghidra_core.Packed.NonZero.{IsPayload}
use angr_ghidra_core.Packed.Utf8.{is_utf8_ascii}
use angr_ghidra_core.Packed.Decoder.{
  Decoder, init, open_element, open_run, byte, read_id, skip_attrs, skip_attr_value,
}
use angr_ghidra_core.Framing.{marker, query_start, response_start, error_end}
use angr_ghidra_core.Transport.Bursts.{pipe}
use angr_ghidra_core.Server.{query, query_bytes, read_command}
use angr_ghidra_core.Server.Commands.{read_command-send_command}
use angr_ghidra_core.Server.Callbacks.{take_query, outcome, query-service_query}
use angr_ghidra_core.Server.Responses.{
  Query, IsQuery, response_bytes, received, all_queries, all_answers, read_response-response,
}
use angr_ghidra_core.Server.Termination.{read_command-ne-out_of_fuel}
use angr_ghidra_core.Client.Failures.{complete, read_response-error_end}
use angr_ghidra_core.Client.{Answer, string, answer_to, send_command, read_response}

abbrev hi : Bytes
hi = b'h' ∷ b'i' ∷ []

hi-IsPayload : IsPayload hi
hi-IsPayload = ((omega arith, omega arith), ((omega arith, omega arith), tt))

read_command-send_command_example :
    read_command (pipe ((send_command (hi ∷ hi ∷ []) (pipe [] [])).1.output ++ (9 ∷ [])) [])
    ≡ (ok (hi, hi ∷ []), pipe (9 ∷ []) [])
read_command-send_command_example =
    read_command-send_command hi (hi ∷ []) (9 ∷ []) [] []
      (is_utf8_ascii hi (omega arith, (omega arith, tt))) (hi-IsPayload, (hi-IsPayload, tt))

read_command-ne-out_of_fuel_example :
    (read_command (pipe (0 ∷ 1 ∷ 2 ∷ 5 ∷ 0 ∷ []) [])).0 ≢ err out_of_fuel
read_command-ne-out_of_fuel_example = read_command-ne-out_of_fuel (pipe (0 ∷ 1 ∷ 2 ∷ 5 ∷ 0 ∷ []) [])

-- An oracle that answers every query with a text.
abbrev says_hi : ℕ → Decoder → Answer
says_hi ident decoder = string hi

-- <command_getbytes/>, whose id is 240.
abbrev getbytes : Bytes
getbytes = 0x61 ∷ 0xf0 ∷ 0xa1 ∷ 0xf0 ∷ []

abbrev inside : Decoder
inside = record { buf = getbytes; at = 2; attr_start = 2 ∷ [] }

getbytes-opens : open_element none (init getbytes) ≡ (ok 240, inside)
unfolding open_element open_run byte read_id skip_attrs skip_attr_value
getbytes-opens = refl

getbytes-IsPayload : IsPayload getbytes
getbytes-IsPayload = (
  (omega arith, omega arith),
  ((omega arith, omega arith), ((omega arith, omega arith), ((omega arith, omega arith), tt))),
)

query-service_query_example :
    (answered : Bytes) × (take_query says_hi
        (pipe ((query getbytes (pipe [] [])).1.output ++ []) [])
      ≡ (ok query_start, pipe [] answered))
    × (query getbytes (pipe (answered ++ []) [])
        ≡ (outcome (answer_to says_hi 240 inside), pipe [] ([] ++ query_bytes getbytes)))
query-service_query_example =
    query-service_query says_hi getbytes [] [] [] 240 inside getbytes-IsPayload getbytes-opens
      hi-IsPayload

abbrev asks : List Query
asks = record { payload = getbytes; ident = 240; decoder = inside } ∷ []

asks-IsQuery : All (IsQuery says_hi) asks
asks-IsQuery = (
  record { payload_bytes = getbytes-IsPayload; opens = getbytes-opens; answers = hi-IsPayload },
  tt,
)

read_response-response_example :
    read_response says_hi (pipe (response_bytes asks (some hi) [] ++ (9 ∷ [])) []) ≡ (
      ok ((received (some hi) []).main, (received (some hi) []).error_message),
      pipe (9 ∷ []) ([] ++ all_answers says_hi asks),
    )
read_response-response_example =
    read_response-response says_hi asks (some hi) [] (9 ∷ []) [] asks-IsQuery hi-IsPayload tt

read_response-error_end_example :
    read_response says_hi (
      pipe
        (marker response_start
          ++ (all_queries asks ++ (complete (some hi) ++ (marker error_end ++ (9 ∷ [])))))
        [])
    ≡ (err attribute_error, pipe (9 ∷ []) ([] ++ all_answers says_hi asks))
read_response-error_end_example =
    read_response-error_end says_hi asks (some hi) (9 ∷ []) [] asks-IsQuery hi-IsPayload
