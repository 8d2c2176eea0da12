-- ===== src/Server/Responses/Frames.antt =====
-- `_read_response` over the frames of a response.
use angr_ghidra_core.Prelude.{
  ℕ, suc, ◌+◌, List, [], ◌∷◌, ◌++◌, Option, none, some, append-nil, append_assoc, ◌≡◌, refl, sym,
  ◌∙◌, ap, arith, length, All,
}
use angr_ghidra_core.Prelude.Result.{Result, ok, err}
use angr_ghidra_core.Packed.{Bytes}
use angr_ghidra_core.Packed.NonZero.{IsPayload}
use angr_ghidra_core.Packed.Utf8.{decode_replace}
use angr_ghidra_core.Packed.Decoder.{Decoder, init, open_element}
use angr_ghidra_core.Framing.{
  marker, string_stream, query_start, query_end, response_start, response_end, string_start,
  string_end, error_start, error_end, warning_start, warning_end,
}
use angr_ghidra_core.Framing
use angr_ghidra_core.Transport.{Transport, Run, ◌>>=◌, pure, read_to_burst, after}
use angr_ghidra_core.Transport.Bursts.{pipe, read_payload-closed}
use angr_ghidra_core.Server.{query_bytes, end_bytes}
use angr_ghidra_core.Server.Callbacks.{IsAnswer, written, service_query-query}
use angr_ghidra_core.Client.{
  Answer, answer_to, service_query, Response, init_response, no_target, or_none, next_burst,
  end_error, on_burst, read_bursts,
}

pub record Query : Type 0 where
  pub payload : Bytes
  pub ident : ℕ
  pub decoder : Decoder

pub record IsQuery (handler : ℕ → Decoder → Answer) (q : Query) : Type 0 where
  pub payload_bytes : IsPayload q.payload
  pub opens : open_element none (init q.payload) ≡ (ok q.ident, q.decoder)
  pub answers : IsAnswer (answer_to handler q.ident q.decoder)

abbrev pub all_queries : List Query → Bytes
all_queries [] = []
all_queries (q ∷ qs) = query_bytes q.payload ++ all_queries qs

-- What the client writes for the queries.
abbrev pub all_answers : (ℕ → Decoder → Answer) → List Query → Bytes
all_answers handler [] = []
all_answers handler (q ∷ qs) =
    written (answer_to handler q.ident q.decoder) ++ all_answers handler qs

abbrev pub go : (ℕ → Decoder → Answer) → ℕ → Response → Run Transport Response
go handler fuel r = do code ← read_to_burst; read_bursts handler fuel code r

-- What the client has read at the end.
abbrev pub received : Option Bytes → Bytes → Response
received payload error = record {
  main = elim payload [ none ↦ [] | some p ↦ p ];
  current = no_target;
  error_message = or_none (decode_replace error);
}

abbrev pub IsOutput : Option Bytes → Type 0
IsOutput none = Unit
IsOutput (some p) = IsPayload p

module _ (handler : ℕ → Decoder → Answer) where
  error_frame :
      (main error rest output : Bytes) (fuel : ℕ)
      → IsPayload error
      → read_bursts handler
          (suc (suc (suc fuel)))
          error_start
          (record { main = main; current = no_target; error_message = none })
          (pipe ((error ++ marker error_end) ++ (marker response_end ++ rest)) output)
        ≡ (ok (received (some main) error), pipe rest output)
  unfolding read_bursts on_burst next_burst end_error read_to_burst Framing.read_to_burst
      Framing.scan_to_burst
  error_frame main error rest output fuel h =
      rw (read_payload-closed error error_end (marker response_end ++ rest) output h (omega arith))
        refl

  error_tail :
      (main error rest output : Bytes) (fuel : ℕ)
      → IsPayload error
      → read_bursts handler
          (suc (suc (suc fuel)))
          error_start
          (record { main = main; current = no_target; error_message = none })
          (pipe ((error ++ (marker error_end ++ marker response_end)) ++ rest) output)
        ≡ (ok (received (some main) error), pipe rest output)
  error_tail main error rest output fuel h =
      let frames : (error ++ (marker error_end ++ marker response_end)) ++ rest
          ≡ (error ++ marker error_end) ++ (marker response_end ++ rest) =
        append_assoc error (marker error_end ++ marker response_end) rest
        ∙ sym (append_assoc error (marker error_end) (marker response_end ++ rest)) in
      rw frames (error_frame main error rest output fuel h)

  on_output :
      (p tail output : Bytes) (fuel : ℕ)
      → IsPayload p
      → read_bursts handler
          (suc (suc fuel))
          string_start
          init_response
          (pipe ((p ++ marker string_end) ++ (marker error_start ++ tail)) output)
        ≡ read_bursts handler fuel error_start
            (record { main = p; current = no_target; error_message = none })
            (pipe tail output)
  unfolding read_bursts on_burst next_burst read_to_burst Framing.read_to_burst
      Framing.scan_to_burst
  on_output p tail output fuel h =
      rw (read_payload-closed p string_end (marker error_start ++ tail) output h (omega arith)) refl

  pub end_frame :
      (payload : Option Bytes) (error rest output : Bytes) (fuel : ℕ)
      → IsOutput payload
      → IsPayload error
      → go handler
          (suc (suc (suc (suc (suc fuel)))))
          init_response
          (pipe (end_bytes payload error ++ rest) output)
        ≡ (ok (received payload error), pipe rest output)
  unfolding read_to_burst Framing.read_to_burst Framing.scan_to_burst
  end_frame none error rest output fuel hp h = error_tail [] error rest output (suc (suc fuel)) h
  end_frame (some p) error rest output fuel hp h =
      let tail = (error ++ (marker error_end ++ marker response_end)) ++ rest in
      let frames : (p ++ marker string_end)
            ++ ((marker error_start ++ (error ++ (marker error_end ++ marker response_end)))
                ++ rest)
          ≡ (p ++ marker string_end) ++ (marker error_start ++ tail) =
        refl in
      ap
        (λ i.
          read_bursts handler (suc (suc (suc (suc (suc fuel))))) string_start init_response
            (pipe i output))
        (append_assoc (p ++ marker string_end)
          (marker error_start ++ (error ++ (marker error_end ++ marker response_end))) rest)
      ∙ on_output p tail output (suc (suc (suc fuel))) hp
      ∙ error_tail p error rest output fuel h

  returned :
      (fuel : ℕ) (got : Result ℕ × Transport)
      → after
          (λ (x : ℕ × Response). read_bursts handler fuel x.0 x.1)
          (after (λ (code : ℕ). pure (code, init_response)) got)
        ≡ after (λ (code : ℕ). read_bursts handler fuel code init_response) got
  returned fuel (ok code, t) = refl
  returned fuel (err e, t) = refl

  on_query :
      (before after' : Transport) (fuel : ℕ)
      → service_query handler before ≡ (ok tt, after')
      → read_bursts handler (suc fuel) query_start init_response before
        ≡ go handler fuel init_response after'
  unfolding read_bursts on_burst next_burst
  on_query before after' fuel h = rw h (returned fuel (read_to_burst after'))

  query_frame :
      (q : Query) (rest output : Bytes) (fuel : ℕ)
      → IsQuery handler q
      → go handler (suc fuel) init_response (pipe (query_bytes q.payload ++ rest) output)
        ≡ go handler fuel init_response
            (pipe rest (output ++ written (answer_to handler q.ident q.decoder)))
  unfolding read_to_burst Framing.read_to_burst Framing.scan_to_burst
  query_frame q rest output fuel h =
      let answered = output ++ written (answer_to handler q.ident q.decoder) in
      ap (λ i. read_bursts handler (suc fuel) query_start init_response (pipe i output))
        (append_assoc (string_stream q.payload) (marker query_end) rest)
      ∙ on_query (pipe (string_stream q.payload ++ (marker query_end ++ rest)) output)
          (pipe rest answered) fuel
          (service_query-query handler q.payload rest output q.ident q.decoder h.payload_bytes
            h.opens h.answers)

  pub query_frames :
      (qs : List Query) (rest output : Bytes) (fuel : ℕ)
      → All (IsQuery handler) qs
      → go handler (length qs + fuel) init_response (pipe (all_queries qs ++ rest) output)
        ≡ go handler fuel init_response (pipe rest (output ++ all_answers handler qs))
  query_frames [] rest output fuel h =
      let nothing_left : length {A = Query} [] + fuel ≡ fuel = omega arith in
      rw (nothing_left, append-nil output) refl
  query_frames (q ∷ qs) rest output fuel h =
      let one = written (answer_to handler q.ident q.decoder) in
      let round : length (q ∷ qs) + fuel ≡ suc (length qs + fuel) = omega arith in
      ap (λ n. go handler n init_response (pipe (all_queries (q ∷ qs) ++ rest) output)) round
      ∙ ap (λ i. go handler (suc (length qs + fuel)) init_response (pipe i output))
          (append_assoc (query_bytes q.payload) (all_queries qs) rest)
      ∙ query_frame q (all_queries qs ++ rest) output (length qs + fuel) h.0
      ∙ query_frames qs rest (output ++ one) fuel h.1
      ∙ ap (λ o. go handler fuel init_response (pipe rest o))
          (append_assoc output one (all_answers handler qs))
