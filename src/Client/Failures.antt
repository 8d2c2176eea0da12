-- ===== src/Client/Failures.antt =====
-- Responses that the client's loop cannot read.
use angr_ghidra_core.Prelude.{
  ℕ, suc, ◌+◌, ◌-◌, ◌<◌, ◌≤◌, false, List, [], ◌∷◌, ◌++◌, Option, none, some, All, ◌≡◌, ◌≢◌, refl,
  ◌∙◌, ap, arith, length, length-append, ◌==◌,
}
use angr_ghidra_core.Prelude.Result.{Error, err, protocol_error, attribute_error}
use angr_ghidra_core.Packed.{Bytes}
use angr_ghidra_core.Packed.NonZero.{IsPayload}
use angr_ghidra_core.Packed.Decoder.{Decoder}
use angr_ghidra_core.Framing.{
  marker, response_start, warning_start, warning_end, error_end, string_start, string_end,
  string_stream, query_start, query_end,
}
use angr_ghidra_core.Framing
use angr_ghidra_core.Transport.{Transport, read_to_burst}
use angr_ghidra_core.Transport.Bursts.{pipe, read_payload-closed}
use angr_ghidra_core.Server.Responses.{
  Query, IsQuery, IsOutput, Starts, all_queries, all_answers, length-all_queries, go, query_frames,
}
use angr_ghidra_core.Client.{
  Answer, init_response, end_error, next_burst, on_burst, read_bursts, read_response,
  await_response,
}

abbrev pub warning_bytes : Bytes → Bytes
warning_bytes text = marker warning_start ++ (text ++ marker warning_end)

-- The frame of an output that is complete, if there is one, and the rounds that read it and a marker.
abbrev pub complete : Option Bytes → Bytes
complete none = []
complete (some p) = string_stream p

abbrev frame_rounds : Option Bytes → ℕ
frame_rounds none = 1
frame_rounds (some p) = 3

frame_rounds_le : (payload : Option Bytes) → frame_rounds payload ≤ 3
frame_rounds_le none = omega arith
frame_rounds_le (some p) = omega arith

stray-Starts :
    (qs : List Query) (payload : Option Bytes) (rest : Bytes)
    → Starts
        (all_queries qs ++ (complete payload ++ (marker error_end ++ rest)))
        (length qs + frame_rounds payload)
stray-Starts [] none rest = record {
  code = error_end;
  behind = rest;
  splits = refl;
  enough = omega arith;
}
stray-Starts [] (some p) rest = record {
  code = string_start;
  behind = (p ++ marker string_end) ++ (marker error_end ++ rest);
  splits = refl;
  enough = simp length-append (omega arith);
}
stray-Starts (q ∷ qs) payload rest = record {
  code = query_start;
  behind =
      ((string_stream q.payload ++ marker query_end) ++ all_queries qs)
      ++ (complete payload ++ (marker error_end ++ rest));
  splits = refl;
  enough = simp length-append (omega (arith, length-all_queries qs, frame_rounds_le payload));
}

module _ (handler : ℕ → Decoder → Answer) where
  second_round :
      (code : ℕ) (rest output : Bytes) (fuel : ℕ)
      → 0 < code
      → code ≢ warning_end
      → read_bursts handler
          (suc fuel)
          warning_start
          init_response
          (pipe (marker code ++ rest) output)
        ≡ (err protocol_error, pipe rest output)
  unfolding read_bursts on_burst
  second_round code rest output fuel hc hw =
      let differs : (code == warning_end) ≡ false = ground arith in
      rw (read_payload-closed [] code rest output tt hc) (rw differs refl)

  -- The loop keeps the code of a warning that it has read.
  first_round :
      (text next output : Bytes) (fuel : ℕ)
      → IsPayload text
      → read_bursts handler
          (suc fuel)
          warning_start
          init_response
          (pipe ((text ++ marker warning_end) ++ next) output)
        ≡ read_bursts handler fuel warning_start init_response (pipe next output)
  unfolding read_bursts on_burst
  first_round text next output fuel h =
      rw (read_payload-closed text warning_end next output h (omega arith)) refl

  after_start :
      (code : ℕ) (rest output : Bytes) (e : Error) (t : Transport)
      → read_bursts handler (suc (length rest)) code init_response (pipe rest output) ≡ (err e, t)
      → read_response handler (pipe (marker response_start ++ (marker code ++ rest)) output)
        ≡ (err e, t)
  unfolding read_response await_response read_to_burst Framing.read_to_burst Framing.scan_to_burst
  after_start code rest output e t h = rw h refl

  -- A response with a warning frame at its start, behind which no other warning ends, fails with
  -- ProtocolError: the loop does not read the next code after a warning, so it takes what follows
  -- for another warning. The warning's text holds no zero byte, and what follows is a marker.
  pub read_response-warning :
      (text : Bytes) (code : ℕ) (rest output : Bytes)
      → IsPayload text
      → 0 < code
      → code ≢ warning_end
      → read_response handler
          (pipe (marker response_start ++ (warning_bytes text ++ (marker code ++ rest))) output)
        ≡ (err protocol_error, pipe rest output)
  read_response-warning text code rest output h hc hw =
      let next = marker code ++ rest in
      let stream = (text ++ marker warning_end) ++ next in
      let again : length stream ≡ suc (length stream - 1) = simp length-append (omega arith) in
      after_start warning_start stream output protocol_error (pipe rest output) (
        ap (λ n. read_bursts handler (suc n) warning_start init_response (pipe stream output)) again
        ∙ first_round text next output (suc (length stream - 1)) h
        ∙ second_round code rest output (length stream - 1) hc hw)

  -- The end of an error message, behind an output that is complete or without one.
  stray_end :
      (payload : Option Bytes) (rest output : Bytes) (fuel : ℕ)
      → IsOutput payload
      → go handler
          (frame_rounds payload + fuel)
          init_response
          (pipe (complete payload ++ (marker error_end ++ rest)) output)
        ≡ (err attribute_error, pipe rest output)
  unfolding read_bursts on_burst end_error next_burst read_to_burst Framing.read_to_burst
      Framing.scan_to_burst
  stray_end none rest output fuel h =
      let counts : 1 + fuel ≡ suc fuel = omega arith in
      let stream = marker error_end ++ rest in
      ap (λ n. go handler n init_response (pipe stream output)) counts ∙ refl
  stray_end (some p) rest output fuel h =
      let counts : 3 + fuel ≡ suc (suc (suc fuel)) = omega arith in
      let tail = marker error_end ++ rest in
      ap (λ n. go handler n init_response (pipe (string_stream p ++ tail) output)) counts
      ∙ rw (read_payload-closed p string_end tail output h (omega arith)) refl

  fails :
      (stream output : Bytes) (n : ℕ) (e : Error) (t : Transport) (h : Starts stream n)
      → go handler (suc (length h.behind)) init_response (pipe stream output) ≡ (err e, t)
      → read_response handler (pipe (marker response_start ++ stream) output) ≡ (err e, t)
  unfolding read_to_burst Framing.read_to_burst Framing.scan_to_burst
  fails stream output n e t h run =
      let ran : read_bursts handler (suc (length h.behind)) h.code init_response
            (pipe h.behind output)
          ≡ (err e, t) =
        rw h.splits at run in
      rw h.splits (after_start h.code h.behind output e t ran)

  -- A response in which an error message ends that has not begun fails with AttributeError: the
  -- client decodes None. It does so behind any number of queries, which are answered, and behind an
  -- output that is complete or without one, and takes no byte behind the marker. The texts hold no
  -- zero byte, the queries can be opened, and their answers are of the kinds that the protocol can
  -- carry.
  pub read_response-error_end :
      (qs : List Query) (payload : Option Bytes) (rest output : Bytes)
      → All (IsQuery handler) qs
      → IsOutput payload
      → read_response handler (
          pipe
            (marker response_start
              ++ (all_queries qs ++ (complete payload ++ (marker error_end ++ rest))))
            output)
        ≡ (err attribute_error, pipe rest (output ++ all_answers handler qs))
  read_response-error_end qs payload rest output hq hp =
      let tail = complete payload ++ (marker error_end ++ rest) in
      let starts = stray-Starts qs payload rest in
      let spare = suc (length starts.behind) - (length qs + frame_rounds payload) in
      let enough : suc (length starts.behind) ≡ length qs + (frame_rounds payload + spare) =
        omega (arith, starts.enough) in
      fails (all_queries qs ++ tail) output (length qs + frame_rounds payload) attribute_error
        (pipe rest (output ++ all_answers handler qs)) starts
        (ap (λ n. go handler n init_response (pipe (all_queries qs ++ tail) output)) enough
          ∙ query_frames handler qs tail output (frame_rounds payload + spare) hq
          ∙ stray_end payload rest (output ++ all_answers handler qs) spare hp)
