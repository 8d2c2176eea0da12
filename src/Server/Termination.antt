-- ===== src/Server/Termination.antt =====
-- The loop of `read_command` ends.
use angr_ghidra_core.Prelude.{
  ℕ, zero, suc, ◌<◌, ◌≤◌, List, [], ◌∷◌, ◌++◌, ◌≢◌, refl, arith, length, ◌==◌, Bool-cases, inl, inr,
}
use angr_ghidra_core.Prelude.Result.{Result, ok, err, eof_error, out_of_fuel}
use angr_ghidra_core.Packed.{Bytes}
use angr_ghidra_core.Packed.Utf8.{is_utf8, decode_utf8}
use angr_ghidra_core.Framing.{command_start, command_end, string_start, string_end}
use angr_ghidra_core.Transport.{Transport, read_to_burst, read_payload}
use angr_ghidra_core.Transport.Shortening.{
  Left, Left-le, Left-ne, after-Left, read_to_burst-Left, read_payload-Left,
}
use angr_ghidra_core.Server.{closed_payload, read_params, read_command, named, first_burst}

closed_payload-Left :
    (close : ℕ) (t : Transport) (n : ℕ) → length t.input ≤ n → Left n (closed_payload close t)
closed_payload-Left close t n h =
    after-Left n n _ (read_payload t) (read_payload-Left t n h) (λ (payload, end) t' less.
      elim (Bool-cases (end == close)) [ inl e ↦ rw e less | inr e ↦ rw e refl ])

read_params-Left :
    (fuel : ℕ) (params : List Bytes) (t : Transport)
    → length t.input < fuel
    → Left fuel (read_params fuel params t)
unfolding read_params
read_params-Left zero params t h = absurd (omega arith)
read_params-Left (suc fuel) params t h =
    after-Left fuel (suc fuel) _ (read_to_burst t) (read_to_burst-Left t fuel (omega arith))
      (λ code t' less. elim (Bool-cases (code == command_end)) [
        | inl e ↦ rw e (omega arith)
        | inr ne ↦ elim (Bool-cases (code == string_start)) [
          | inr e ↦ rw (ne, e) refl
          | inl e ↦
              rw (ne, e)
                (after-Left fuel (suc fuel) _ (closed_payload string_end t')
                  (closed_payload-Left string_end t' fuel (omega arith))
                  (λ payload t2 less2.
                    Left-le fuel (suc fuel) (read_params fuel (params ++ payload ∷ []) t2)
                      (read_params-Left fuel (params ++ payload ∷ []) t2 less2) (omega arith)))
        ]
      ])

ended :
    (n : ℕ) (r : Result ℕ × Transport)
    → Left n r
    → Left {A = ℕ} n
        (let (got, t') = r in elim got [ ok code ↦ (ok code, t') | err e ↦ (err eof_error, t') ])
ended n (ok code, t) h = h
ended n (err e, t) h = refl

first_burst-Left : (t : Transport) (n : ℕ) → length t.input ≤ n → Left n (first_burst t)
first_burst-Left t n h = ended n (read_to_burst t) (read_to_burst-Left t n h)

named-Left :
    (params : List Bytes) (t : Transport) (n : ℕ) → length t.input < n → Left n (named params t)
unfolding decode_utf8
named-Left [] t n h = refl
named-Left (name ∷ params) t n h = elim (Bool-cases (is_utf8 name)) [
  | inl e ↦ rw (named, e) h
  | inr e ↦ rw (named, e) refl
]

-- Whatever stands in the input, reading a command ends: with a name and its parameters or with a
-- Python exception.
pub read_command-ne-out_of_fuel : (t : Transport) → (read_command t).0 ≢ err out_of_fuel
unfolding read_command
read_command-ne-out_of_fuel t =
    let limit = suc (length t.input) in
    Left-ne limit (read_command t) (
      after-Left limit limit _ (first_burst t) (first_burst-Left t limit (omega arith))
        (λ code t' less. elim (Bool-cases (code == command_start)) [
          | inr ne ↦ rw ne refl
          | inl e ↦
              let fuel = suc (length t'.input) in
              rw e (
                after-Left fuel limit named (read_params fuel [] t')
                  (read_params-Left fuel [] t' (omega arith))
                  (λ params t2 less2. named-Left params t2 limit (omega arith)))
        ]))
