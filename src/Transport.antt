-- ===== src/Transport.antt =====
-- The two ends of a pipe as state: the bytes that can still be read and the bytes written so far,
-- and methods that change an object and may raise (angr_ghidra_core/ghidra_wire/framing.py, the
-- calls of BurstReader and BurstWriter in server.py and client.py).
pub mod Bursts
pub mod Shortening
use angr_ghidra_core.Prelude.{ℕ, [], ◌∷◌, ◌++◌}
use angr_ghidra_core.Prelude.Result.{Error, Result, ok, err}
use angr_ghidra_core.Packed.{Bytes}
use angr_ghidra_core.Framing

pub record Transport : Type 0 where
  pub input : Bytes
  pub output : Bytes

-- A method of an object with the state `S`: what a raise leaves of the state is kept.
abbrev pub Run : Type 0 → Type 0 → Type 0
Run S A = S → Result A × S

abbrev pub after : {S A B : Type 0} → (A → Run S B) → Result A × S → Result B × S
after k (ok a, s) = k a s
after k (err e, s) = (err e, s)

infixl 5 ◌>>=◌
abbrev pub ◌>>=◌ : {S A B : Type 0} → Run S A → (A → Run S B) → Run S B
(m >>= k) s = after k (m s)

abbrev pub pure : {S A : Type 0} → A → Run S A
pure a s = (ok a, s)

abbrev pub raise : {S A : Type 0} → Error → Run S A
raise e s = (err e, s)

-- `self.reader.read_to_burst()`. The reader raises only at the end of its stream.
unfoldable pub read_to_burst : Run Transport ℕ
read_to_burst t = elim (Framing.read_to_burst t.input) [
  | ok (code, rest) ↦ (ok code, record t { input = rest })
  | err e ↦ (err e, record t { input = [] })
]

-- `self.reader.read_payload()`
unfoldable pub read_payload : Run Transport (Bytes × ℕ)
read_payload t = elim (Framing.read_payload t.input) [
  | ok (payload, code, rest) ↦ (ok (payload, code), record t { input = rest })
  | err e ↦ (err e, record t { input = [] })
]

-- A write to the stream, `self.writer` or `self.writer.stream`.
abbrev pub write : Bytes → Run Transport (Unit {0})
write bs t = (ok tt, record t { output = t.output ++ bs })
