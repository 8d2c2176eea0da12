-- ===== src/Client/Termination.antt =====
-- The loops of `_read_response` end.
use angr_ghidra_core.Prelude.{
  ℕ, zero, suc, ◌+◌, ◌<◌, ◌≤◌, true, false, [], ◌∷◌, none, ◌≡◌, ◌≢◌, refl, arith, length, bit_and,
  ◌==◌, Bool-cases, inl, inr, Bool, Option-cases, get_elem?, if◌then◌else◌,
}
use angr_ghidra_core.Prelude.Result.{err, out_of_fuel, Result-cases}
use angr_ghidra_core.Packed.{Bytes, header_mask, element_start}
use angr_ghidra_core.Packed.Decoder.{
  Decoder, init, open_element, open_run, byte, read_id, skip_attrs, rounds,
}
use angr_ghidra_core.Packed.Progress.{fuel_case, skip_attrs-Reaches, read_id-Reaches}
use angr_ghidra_core.Framing.{
  query_start, response_start, response_end, exception_start, string_start, string_end, error_start,
  warning_start, warning_end,
}
use angr_ghidra_core.Transport.{Transport, Run, read_to_burst, read_payload}
use angr_ghidra_core.Transport.Shortening.{
  Left, Left-le, Left-ne, after-Left, read_to_burst-Left, read_payload-Left,
}
use angr_ghidra_core.Client.{
  Answer, answer_to, read_query_param, raise_exception, open_query, write_answer, service_query,
  await_response, Response, Current, next_for, ended_text, no_target, main_output, text,
  init_response, end_error, next_burst, on_warning, on_burst, read_bursts, read_response, raised,
  encoder, bytes, encoded, string, truth, nothing, other,
}

read_query_param-Left : (t : Transport) (n : ℕ) → length t.input ≤ n → Left n (read_query_param t)
unfolding read_query_param
read_query_param-Left t n h =
    after-Left n n _ (read_to_burst t) (read_to_burst-Left t n h) (λ code t' less.
      elim (Bool-cases (code == string_start)) [
        | inr ne ↦ rw ne refl
        | inl e ↦ rw e (
            after-Left n n _ (read_payload t') (read_payload-Left t' n (omega arith))
              (λ (payload, end) t2 less2. elim (Bool-cases (end == string_end)) [
                | inl e ↦ rw e less2
                | inr e ↦ rw e refl
              ]))
      ])

raise_exception-Left :
    (A : Type 0) (t : Transport) (n : ℕ) → length t.input ≤ n → Left n (raise_exception {A = A} t)
unfolding raise_exception
raise_exception-Left A t n h =
    after-Left n n _ (read_query_param t) (read_query_param-Left t n h) (λ kind t1 less1.
      after-Left n n _ (read_query_param t1) (read_query_param-Left t1 n (omega arith))
        (λ message t2 less2.
          after-Left n n _ (read_to_burst t2) (read_to_burst-Left t2 n (omega arith))
            (λ code t3 less3. refl)))

write_answer-Left :
    (answer : Answer) (t : Transport) (n : ℕ) → length t.input < n → Left n (write_answer answer t)
unfolding write_answer
write_answer-Left (encoder []) t n h = h
write_answer-Left (encoder (b ∷ bs)) t n h = h
write_answer-Left (truth true) t n h = h
write_answer-Left (truth false) t n h = h
write_answer-Left (bytes []) t n h = h
write_answer-Left (bytes (b ∷ bs)) t n h = h
write_answer-Left (encoded bs) t n h = h
write_answer-Left (string s) t n h = h
write_answer-Left nothing t n h = h
write_answer-Left other t n h = refl
write_answer-Left (raised kind message) t n h = h

next_for-Left :
    (c : Current) (r : Response) (t : Transport) (n : ℕ)
    → length t.input ≤ n
    → Left n (next_for c r t)
next_for-Left no_target r t n h =
    after-Left n n _ (read_to_burst t) (read_to_burst-Left t n h) (λ code t' less. less)
next_for-Left main_output r t n h =
    after-Left n n _ (read_payload t) (read_payload-Left t n h) (λ p t' less. less)
next_for-Left (text s) r t n h =
    after-Left n n _ (read_payload t) (read_payload-Left t n h) (λ p t' less. less)

next_burst-Left :
    (r : Response) (t : Transport) (n : ℕ) → length t.input ≤ n → Left n (next_burst r t)
unfolding next_burst
next_burst-Left r t n h = next_for-Left r.current r t n h

ended_text-Left :
    (c : Current) (r : Response) (t : Transport) (n : ℕ)
    → length t.input < n
    → Left n (ended_text c r t)
ended_text-Left no_target r t n h = refl
ended_text-Left main_output r t n h = h
ended_text-Left (text s) r t n h = h

open_run-fuel_case : (ident : ℕ) (d : Decoder) → fuel_case (open_run none ident d).0 ≡ false
unfolding open_run
open_run-fuel_case ident d =
    let reaches = skip_attrs-Reaches (rounds d.buf) d.buf d.at (omega arith) (omega arith) in
    elim (Result-cases (skip_attrs (rounds d.buf) d.buf d.at)) [
      | inl (at, e) ↦ rw e refl
      | inr (x, e) ↦ rw e (rw e at reaches)
    ]

byte-fuel_case : (buf : Bytes) (at : ℕ) → fuel_case (byte buf at) ≡ false
unfolding byte
byte-fuel_case buf at = elim (Option-cases (get_elem? buf at)) [
  | inl e ↦ rw (byte, e) refl
  | inr (b, e) ↦ rw (byte, e) refl
]

-- Opening an element never runs out of rounds.
open_element-fuel_case : (d : Decoder) → fuel_case (open_element none d).0 ≡ false
unfolding open_element
open_element-fuel_case d = elim (Result-cases (byte d.buf d.at)) [
  | inr (x, e) ↦ rw (open_element, e) (rw e at (byte-fuel_case d.buf d.at))
  | inl (header, e) ↦ elim (Bool-cases (bit_and header header_mask == element_start)) [
    | inr closed ↦ rw (open_element, e, closed) refl
    | inl opening ↦ elim (Result-cases (read_id d.buf d.at)) [
      | inr (x, f) ↦ rw (open_element, e, opening, f) (rw f at (read_id-Reaches d.buf d.at))
      | inl (p, f) ↦ rw (open_element, e, opening, f) (open_run-fuel_case p.0 _)
    ]
  ]
]

open_query-Left :
    (payload : Bytes) (t : Transport) (n : ℕ) → length t.input < n → Left n (open_query payload t)
open_query-Left payload t n h =
    let opens = open_element-fuel_case (init payload) in
    elim (Result-cases (open_element none (init payload)).0) [
      | inl (ident, e) ↦ rw (open_query, e) h
      | inr (x, e) ↦ rw (open_query, e) (rw e at opens)
    ]

service_query-Left :
    (handler : ℕ → Decoder → Answer) (t : Transport) (n : ℕ)
    → length t.input ≤ n
    → Left n (service_query handler t)
unfolding service_query
service_query-Left handler t n h =
    after-Left n n _ (read_query_param t) (read_query_param-Left t n h) (λ payload t1 less1.
      after-Left n n _ (open_query payload t1) (open_query-Left payload t1 n less1)
        (λ (ident, decoder) t2 less2.
          let answer = answer_to handler ident decoder in
          after-Left n n _ (write_answer answer t2) (write_answer-Left answer t2 n less2)
            (λ done t3 less3.
              after-Left n n _ (read_to_burst t3) (read_to_burst-Left t3 n (omega arith))
                (λ code t4 less4. less4))))

await_response-Left :
    (fuel : ℕ) (t : Transport) → length t.input < fuel → Left fuel (await_response fuel t)
unfolding await_response
await_response-Left zero t h = absurd (omega arith)
await_response-Left (suc fuel) t h =
    after-Left fuel (suc fuel) _ (read_to_burst t) (read_to_burst-Left t fuel (omega arith))
      (λ code t' less. elim (Bool-cases (bit_and code 1 == 1)) [
        | inl odd ↦ rw odd (
            Left-le fuel (suc fuel) (await_response fuel t') (await_response-Left fuel t' less)
              (omega arith))
        | inr even ↦ elim (Bool-cases (code == exception_start)) [
          | inl e ↦ rw (even, e) (raise_exception-Left _ t' (suc fuel) (omega arith))
          | inr ne ↦ elim (Bool-cases (code == response_start)) [
            | inl e ↦ rw (even, ne, e) (omega arith)
            | inr nothing_else ↦ rw (even, ne, nothing_else) refl
          ]
        ]
      ])

choose-Left :
    {A : Type 0} (b : Bool) (n : ℕ) (t : Transport) (x y : Run Transport A)
    → Left n (x t)
    → Left n (y t)
    → Left n ((if b then x else y) t)
choose-Left true n t x y hx hy = hx
choose-Left false n t x y hx hy = hy

end_error-Left :
    (r : Response) (t : Transport) (n : ℕ) → length t.input < n → Left n (end_error r t)
unfolding end_error
end_error-Left r t n h = ended_text-Left r.current r t n h

warning-Left :
    (code : ℕ) (r : Response) (t : Transport) (n : ℕ)
    → length t.input ≤ n
    → Left n (on_warning code r t)
warning-Left code r t n h =
    after-Left n n _ (read_payload t) (read_payload-Left t n h)
      (λ (payload, end) t' less. choose-Left (end == warning_end) n t' _ _ less refl)

on_burst-Left :
    (handler : ℕ → Decoder → Answer) (code : ℕ) (r : Response) (t : Transport) (n : ℕ)
    → length t.input ≤ n
    → Left n (on_burst handler code r t)
unfolding on_burst
on_burst-Left handler code r t n h =
    let next : (r' : Response) → Left n (next_burst r' t) = λ r'. next_burst-Left r' t n h in
    let serviced =
      after-Left n n _ (service_query handler t) (service_query-Left handler t n h)
        (λ done t' less. next_burst-Left r t' n (omega arith)) in
    let ended =
      after-Left (suc n) n _ (end_error r t) (end_error-Left r t (suc n) (omega arith))
        (λ r' t' less. next_burst-Left r' t' n (omega arith)) in
    choose-Left (code == query_start) n t _ _ serviced (
      choose-Left (code == exception_start) n t _ _ (raise_exception-Left _ t n h) (
        choose-Left (code == string_start) n t _ _ (next _) (
          choose-Left (code == string_end) n t _ _ (next _) (
            choose-Left (code == error_start) n t _ _ (next _) (
              choose-Left (code == error_start + 1) n t _ _ ended
                (choose-Left (code == warning_start) n t _ _ (warning-Left code r t n h) refl))))))

read_bursts-Left :
    (handler : ℕ → Decoder → Answer) (fuel code : ℕ) (r : Response) (t : Transport)
    → length t.input < fuel
    → Left fuel (read_bursts handler fuel code r t)
unfolding read_bursts
read_bursts-Left handler zero code r t h = absurd (omega arith)
read_bursts-Left handler (suc fuel) code r t h =
    choose-Left (code == response_end) (suc fuel) t _ _ h (
      after-Left fuel (suc fuel) _ (on_burst handler code r t)
        (on_burst-Left handler code r t fuel (omega arith))
        (λ (code', r') t' less.
          Left-le fuel (suc fuel) (read_bursts handler fuel code' r' t')
            (read_bursts-Left handler fuel code' r' t' less) (omega arith)))

-- Whatever stands in the input and whatever the oracle answers, reading a response ends: with the
-- output and the message or with a Python exception.
pub read_response-ne-out_of_fuel :
    (handler : ℕ → Decoder → Answer) (t : Transport) → (read_response handler t).0 ≢ err out_of_fuel
unfolding read_response
read_response-ne-out_of_fuel handler t =
    let n = suc (length t.input) in
    Left-ne n (read_response handler t) (
      after-Left n n _ (await_response n t) (await_response-Left n t (omega arith))
        (λ done t1 less1.
          after-Left n n _ (read_to_burst t1) (read_to_burst-Left t1 n (omega arith))
            (λ code t2 less2.
              let fuel = suc (length t2.input) in
              after-Left fuel n _ (read_bursts handler fuel code init_response t2)
                (read_bursts-Left handler fuel code init_response t2 (omega arith))
                (λ r t3 less3. omega arith))))
