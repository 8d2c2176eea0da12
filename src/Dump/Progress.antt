-- ===== src/Dump/Progress.antt =====
-- `parse_tree` ends on every input: each round of its loop moves forward.
use angr_ghidra_core.Prelude.{
  ℕ, zero, suc, ◌+◌, ◌≤◌, ◌<◌, ltb, ltb→lt, length, ◌≢◌, refl, arith, Bool-cases, Option-cases, inl,
  inr, get_elem?,
}
use angr_ghidra_core.Prelude.Result.{Result, ok, err, out_of_fuel, Result-cases}
use angr_ghidra_core.Packed.{Bytes}
use angr_ghidra_core.Packed.Decoder.{rounds, byte, read_id}
use angr_ghidra_core.Packed.Progress.{
  Reaches, Reaches-ne, second, read_id-Reaches, skip_attr_value-Reaches, attr_value-Reaches,
}
use angr_ghidra_core.Dump.{State, step, parse_loop, parse_tree, initial}

abbrev Forward : State → Result State → Type 0
Forward s = Reaches (s.at + 1) (λ t. t.at)

pub step-Forward : (buf : Bytes) (s : State) → Forward s (step buf s)
unfolding step
step-Forward buf s = elim (Result-cases (read_id buf s.at)) [
  | inl ((ident, at'), e) ↦
      let past : Reaches (s.at + 1) second (ok (ident, at')) = rw e at (read_id-Reaches buf s.at) in
      elim (Option-cases (get_elem? buf s.at)) [
        | inl n ↦ rw (n, byte) refl
        | inr (b, n) ↦
            rw (e, n, byte)
              (ground (arith, past, attr_value-Reaches buf at', skip_attr_value-Reaches buf at'))
      ]
  | inr (x, e) ↦
      let fault : Reaches {A = ℕ × ℕ} (s.at + 1) second (err x) =
        rw e at (read_id-Reaches buf s.at) in
      elim (Option-cases (get_elem? buf s.at)) [
        | inl n ↦ rw (n, byte) refl
        | inr (b, n) ↦ rw (e, n, byte) (ground (arith, fault))
      ]
]

parse_loop-Reaches :
    (fuel : ℕ) (buf : Bytes) (s : State)
    → 0 < fuel
    → length buf < s.at + fuel
    → Reaches 0 (λ _. 0) (parse_loop fuel buf s)
unfolding parse_loop
parse_loop-Reaches zero buf s z h = absurd (omega arith)
parse_loop-Reaches (suc fuel) buf s z h = elim (Bool-cases (ltb s.at (length buf))) [
  | inr stop ↦ rw stop (omega arith)
  | inl more ↦ elim (Result-cases (step buf s)) [
    | inr (x, e) ↦ rw (more, e) (rw e at (step-Forward buf s))
    | inl (t, e) ↦
        let moved : s.at + 1 ≤ t.at = rw e at (step-Forward buf s) in
        let inside = ltb→lt s.at (length buf) more in
        rw (more, e) (parse_loop-Reaches fuel buf t (omega arith) (omega arith))
  ]
]

-- `parse_tree` ends on every input, well formed or not: it returns or raises a Python exception.
pub parse_tree-ne-out_of_fuel : (buf : Bytes) → parse_tree buf ≢ err out_of_fuel
unfolding parse_tree
parse_tree-ne-out_of_fuel buf =
    Reaches-ne 0 (λ _. 0) (parse_loop (rounds buf) buf initial)
      (parse_loop-Reaches (rounds buf) buf initial (omega arith) (omega arith))
