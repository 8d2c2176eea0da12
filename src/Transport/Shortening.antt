-- ===== src/Transport/Shortening.antt =====
-- Reads shorten the input, which bounds the rounds of every loop that reads.
use angr_ghidra_core.Prelude.{
  ℕ, ◌<◌, ◌≤◌, Bool, true, false, ◌&&◌, [], ◌∷◌, ◌≡◌, ◌≢◌, refl, sym, arith, length, ◌==◌,
  Bool-cases, inl, inr, ap,
}
use angr_ghidra_core.Prelude.Result.{Result, ok, err, out_of_fuel, Result-cases}
use mathlib.Core.Path.{subst}
use angr_ghidra_core.Packed.{Bytes}
use angr_ghidra_core.Packed.Progress.{is_fuel, fuel_case}
use angr_ghidra_core.Framing.{read1}
use angr_ghidra_core.Framing
use angr_ghidra_core.Transport.{Transport, after, read_to_burst, read_payload}

-- What a reader of bytes leaves is shorter than `n`, or it raised a Python exception.
abbrev Rest : {A : Type 0} → ℕ → (A → Bytes) → Result A → Type 0
Rest n left (ok a) = length (left a) < n
Rest n left (err e) = is_fuel e ≡ false

abbrev behind : ℕ × Bytes → Bytes
behind p = p.1

abbrev behind_payload : Bytes × ℕ × Bytes → Bytes
behind_payload p = p.2

read1-Rest : (stream : Bytes) (n : ℕ) → length stream ≤ n → Rest n behind (read1 stream)
read1-Rest [] n h = refl
read1-Rest (b ∷ rest) n h = omega arith

scan_to_burst-Rest :
    (zeros : Bool) (stream : Bytes) (n : ℕ)
    → length stream ≤ n
    → Rest n behind (Framing.scan_to_burst zeros stream)
unfolding Framing.scan_to_burst
scan_to_burst-Rest zeros [] n h = refl
scan_to_burst-Rest zeros (cur ∷ rest) n h =
    let on = scan_to_burst-Rest (cur == 0) rest n (omega arith) in
    elim (Bool-cases (zeros && cur == 1)) [
      | inl one ↦ rw one (read1-Rest rest n (omega arith))
      | inr more ↦ rw more on
    ]

scan_payload-Rest :
    (zeros : Bool) (out stream : Bytes) (n : ℕ)
    → length stream ≤ n
    → Rest n behind_payload (Framing.scan_payload zeros out stream)
unfolding Framing.scan_payload
scan_payload-Rest zeros out [] n h = refl
scan_payload-Rest false out (cur ∷ rest) n h = scan_payload-Rest (cur == 0) _ rest n (omega arith)
scan_payload-Rest true out (cur ∷ []) n h = refl
scan_payload-Rest true out (cur ∷ code ∷ rest) n h =
    let padding = scan_payload-Rest true out (code ∷ rest) n (omega arith) in
    let stray = scan_payload-Rest false out (code ∷ rest) n (omega arith) in
    let no_code = scan_payload-Rest false out rest n (omega arith) in
    elim (Bool-cases (cur == 0)) [
      | inl z ↦ rw z padding
      | inr nz ↦ elim (Bool-cases (cur == 1)) [
        | inr other ↦ rw (nz, other) stray
        | inl one ↦ elim (Bool-cases (code == 0)) [
          | inl none_there ↦ rw (nz, one, none_there) no_code
          | inr there ↦ rw (nz, one, there) (omega arith)
        ]
      ]
    ]

-- The input that a method leaves is shorter than `n`, or the method raised a Python exception.
abbrev pub Left : {A : Type 0} → ℕ → Result A × Transport → Type 0
Left n (ok a, t) = length t.input < n
Left n (err e, t) = is_fuel e ≡ false

pub after-Left :
    {A B : Type 0} (n m : ℕ) (k : A → Transport → Result B × Transport) (r : Result A × Transport)
    → Left n r
    → ((a : A) (t : Transport) → length t.input < n → Left m (k a t))
    → Left m (after k r)
after-Left n m k (ok a, t) h then_less = then_less a t h
after-Left n m k (err e, t) h then_less = h

pub Left-le : {A : Type 0} (n m : ℕ) (r : Result A × Transport) → Left n r → n ≤ m → Left m r
Left-le n m (ok a, t) h le = omega arith
Left-le n m (err e, t) h le = h

pub read_to_burst-Left : (t : Transport) (n : ℕ) → length t.input ≤ n → Left n (read_to_burst t)
unfolding read_to_burst Framing.read_to_burst
read_to_burst-Left t n h =
    let shorter = scan_to_burst-Rest false t.input n h in
    elim (Result-cases (Framing.scan_to_burst false t.input)) [
      | inl (p, e) ↦
          let read : read_to_burst t ≡ (ok p.0, record t { input = p.1 }) =
            rw (read_to_burst, e) refl in
          subst (λ r. Left n r) (sym read) (rw e at shorter)
      | inr (x, e) ↦
          let raised : read_to_burst t ≡ (err x, record t { input = [] }) =
            rw (read_to_burst, e) refl in
          subst (λ r. Left n r) (sym raised) (rw e at shorter)
    ]

pub read_payload-Left : (t : Transport) (n : ℕ) → length t.input ≤ n → Left n (read_payload t)
unfolding read_payload Framing.read_payload
read_payload-Left t n h =
    let shorter = scan_payload-Rest false [] t.input n h in
    elim (Result-cases (Framing.scan_payload false [] t.input)) [
      | inl (p, e) ↦
          let read : read_payload t ≡ (ok (p.0, p.1), record t { input = p.2 }) =
            rw (read_payload, e) refl in
          subst (λ r. Left n r) (sym read) (rw e at shorter)
      | inr (x, e) ↦
          let raised : read_payload t ≡ (err x, record t { input = [] }) =
            rw (read_payload, e) refl in
          subst (λ r. Left n r) (sym raised) (rw e at shorter)
    ]

-- A method that leaves a bounded input did not run out of rounds.
pub Left-ne : {A : Type 0} (n : ℕ) (r : Result A × Transport) → Left n r → r.0 ≢ err out_of_fuel
Left-ne n (ok a, t) h = λ e. cc e
Left-ne n (err x, t) h = λ e. cc (ap fuel_case e)
