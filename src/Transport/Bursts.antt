-- ===== src/Transport/Bursts.antt =====
-- What the reader of a pipe does at markers and at framed payloads.
use angr_ghidra_core.Prelude.{ℕ, ◌<◌, ◌++◌, append_assoc, ◌≡◌, refl}
use angr_ghidra_core.Prelude.Result.{ok}
use angr_ghidra_core.Packed.{Bytes}
use angr_ghidra_core.Packed.NonZero.{IsPayload}
use angr_ghidra_core.Framing.{marker}
use angr_ghidra_core.Framing
use angr_ghidra_core.Framing.Reader
use angr_ghidra_core.Transport.{Transport, read_to_burst, read_payload}

abbrev pub pipe : Bytes → Bytes → Transport
pipe input output = record { input = input; output = output }

pub read_to_burst-marker :
    (code : ℕ) (rest output : Bytes)
    → read_to_burst (pipe (marker code ++ rest) output) ≡ (ok code, pipe rest output)
unfolding read_to_burst Framing.read_to_burst Framing.scan_to_burst
read_to_burst-marker code rest output = refl

-- A payload and its closing marker, as a stream is written.
pub read_payload-closed :
    (payload : Bytes) (code : ℕ) (rest output : Bytes)
    → IsPayload payload
    → 0 < code
    → read_payload (pipe ((payload ++ marker code) ++ rest) output)
      ≡ (ok (payload, code), pipe rest output)
unfolding read_payload
read_payload-closed payload code rest output h hc =
    rw
      (
        read_payload,
        append_assoc payload (marker code) rest,
        Framing.Reader.read_payload-marker payload code rest h hc,
      )
      refl
