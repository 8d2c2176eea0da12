-- ===== src/Framing/Reader.antt =====
-- What the reader of bursts finds in a stream.
use angr_ghidra_core.Prelude.{
  ℕ, ◌<◌, true, false, [], ◌∷◌, ◌++◌, append-nil, append_assoc, ◌==◌, ◌≡◌, refl, ap, ◌∙◌, arith,
  Bool-cases, inl, inr,
}
use angr_ghidra_core.Prelude.Result.{ok}
use angr_ghidra_core.Packed.{Bytes}
use angr_ghidra_core.Packed.NonZero.{IsPayload}
use angr_ghidra_core.Framing.{
  marker, read1, scan_to_burst, read_to_burst, scan_payload, read_payload,
}

scan_payload-marker :
    (data' out : Bytes) (code : ℕ) (rest : Bytes)
    → IsPayload data'
    → 0 < code
    → scan_payload false out (data' ++ (marker code ++ rest)) ≡ ok (out ++ data', code, rest)
unfolding scan_payload
scan_payload-marker [] out code rest h hc = rw append-nil (ground arith)
scan_payload-marker (b ∷ bs) out code rest h hc =
    let nonzero : (b == 0) ≡ false = ground arith in
    rw nonzero (scan_payload-marker bs (out ++ b ∷ []) code rest h.1 hc ∙ rw append_assoc)

-- Payload bytes up to a marker are read whole, with the marker's code, and what follows is left.
pub read_payload-marker :
    (payload : Bytes) (code : ℕ) (rest : Bytes)
    → IsPayload payload
    → 0 < code
    → read_payload (payload ++ (marker code ++ rest)) ≡ ok (payload, code, rest)
unfolding read_payload
read_payload-marker payload code rest h hc = scan_payload-marker payload [] code rest h hc

-- Payload bytes before a marker are skipped.
pub read_to_burst-marker :
    (junk : Bytes) (code : ℕ) (rest : Bytes)
    → IsPayload junk
    → read_to_burst (junk ++ (marker code ++ rest)) ≡ ok (code, rest)
unfolding read_to_burst scan_to_burst
read_to_burst-marker [] code rest h = refl
read_to_burst-marker (b ∷ bs) code rest h =
    let nonzero : (b == 0) ≡ false = ground arith in
    rw nonzero (read_to_burst-marker bs code rest h.1)

-- How a stream is read up to a marker: `before` ends with a zero, then 1 and the code.
pub record IsBurst (stream : Bytes) (code : ℕ) (rest : Bytes) : Type 0 where
  pub before : Bytes
  pub splits : stream ≡ before ++ (0 ∷ 1 ∷ code ∷ rest)

cons-IsBurst :
    (b : ℕ) {stream : Bytes} {code : ℕ} {rest : Bytes}
    → IsBurst stream code rest
    → IsBurst (b ∷ stream) code rest
cons-IsBurst b h = record { before = b ∷ h.before; splits = ap (λ s. b ∷ s) h.splits }

read1-IsBurst :
    (stream : Bytes) (code : ℕ) (rest : Bytes)
    → read1 stream ≡ ok (code, rest)
    → IsBurst (0 ∷ 1 ∷ stream) code rest
read1-IsBurst [] code rest h = cc h
read1-IsBurst (c ∷ stream) code rest h = record { before = []; splits = cc h }

-- Either mode of the loop finds a marker; in the padding a zero was read before.
scan_to_burst-IsBurst :
    (stream : Bytes) (code : ℕ) (rest : Bytes)
    → ((scan_to_burst false stream ≡ ok (code, rest)) → IsBurst stream code rest)
      × ((scan_to_burst true stream ≡ ok (code, rest)) → IsBurst (0 ∷ stream) code rest)
unfolding scan_to_burst
scan_to_burst-IsBurst [] code rest = (λ h. cc h, λ h. cc h)
scan_to_burst-IsBurst (cur ∷ stream) code rest =
    let (payload, padding) = scan_to_burst-IsBurst stream code rest in
    elim (Bool-cases (cur == 0)) [
      | inl z ↦
          let is_zero : cur ≡ 0 = ground arith in
          let not_one : (cur == 1) ≡ false = ground arith in
          (
            λ h. rw is_zero (padding (rw z at h)),
            λ h. rw is_zero (cons-IsBurst 0 (padding (rw (not_one, z) at h))),
          )
      | inr nz ↦ (
        λ h. cons-IsBurst cur (payload (rw nz at h)),
        λ h. elim (Bool-cases (cur == 1)) [
          | inl one ↦
              let is_one : cur ≡ 1 = ground arith in
              rw is_one (read1-IsBurst stream code rest (rw one at h))
          | inr other ↦ cons-IsBurst 0 (cons-IsBurst cur (payload (rw (other, nz) at h)))
        ],
      )
    ]

-- A code that `read_to_burst` returns stands in the stream behind a zero and a one, and what is left
-- is what follows it.
pub read_to_burst-IsBurst :
    (stream : Bytes) (code : ℕ) (rest : Bytes)
    → read_to_burst stream ≡ ok (code, rest)
    → IsBurst stream code rest
unfolding read_to_burst
read_to_burst-IsBurst stream code rest h = (scan_to_burst-IsBurst stream code rest).0 h
