-- ===== src/Core/Window.antt =====
-- angr_ghidra_core/core/angr_core.py: `_fetch_window`, the readable bytes from a function's entry on.
-- `get_bytes` stands for the callback `_get_bytes`.
use angr_ghidra_core.Prelude.{
  ℕ, zero, suc, ◌+◌, ◌*◌, ◌/◌, ◌<◌, ◌≤◌, false, List, [], ◌∷◌, ◌++◌, length-append, Option, none,
  some, ltb, ◌==◌, if◌then◌else◌, length, ◌≡◌, refl, ap, ◌∙◌, arith, Bool-cases, Option-cases, inl,
  inr, All,
}
use angr_ghidra_core.Prelude.Result.{Result, ok, err, runtime_error, out_of_fuel}
use angr_ghidra_core.Packed.{Bytes}
use angr_ghidra_core.ImageCache.{GetBytes}
use angr_ghidra_core.ImageCache.Run.{read_range, length-read_range, read_range-append, nothing_read}

abbrev pub window : ℕ
window = 0x2000

abbrev pub chunk : ℕ
chunk = 0x100

-- The loop of `_fetch_window`. A round that goes on adds a whole chunk.
unfoldable pub fetch_chunks : GetBytes → ℕ → ℕ → Bytes → Result Bytes
fetch_chunks get_bytes zero addr out = err out_of_fuel
fetch_chunks get_bytes (suc fuel) addr out =
    if ltb (length out) window
    then elim (get_bytes addr chunk) [
      | none ↦ ok out
      | some c ↦
          let more = fetch_chunks get_bytes fuel (addr + length c) (out ++ c) in
          if ltb (length c) chunk then ok (out ++ c) else more
    ]
    else ok out

-- The smaller reads at the entry, the largest first.
unfoldable pub try_sizes : GetBytes → ℕ → List ℕ → Result Bytes
try_sizes get_bytes entry [] = err runtime_error
try_sizes get_bytes entry (size ∷ sizes) =
    let smaller = try_sizes get_bytes entry sizes in
    elim (get_bytes entry size) [
      | none ↦ smaller
      | some c ↦ if length c == 0 then smaller else ok c
    ]

abbrev pub or_sizes : GetBytes → ℕ → Result Bytes → Result Bytes
or_sizes get_bytes entry (err e) = err e
or_sizes get_bytes entry (ok []) = try_sizes get_bytes entry (0x80 ∷ 0x40 ∷ 0x10 ∷ 0x8 ∷ 0x1 ∷ [])
or_sizes get_bytes entry (ok out) = ok out

unfoldable pub fetch_window : GetBytes → ℕ → Result Bytes
fetch_window get_bytes entry =
    or_sizes get_bytes entry (fetch_chunks get_bytes (suc (window / chunk)) entry [])

-- What `_fetch_window` is to return for an entry: bytes of the memory from the entry on, at least one
-- and no more than the window; it raises RuntimeError only where the entry is unmapped.
abbrev pub IsWindow : (ℕ → Option ℕ) → ℕ → Result Bytes → Type 0
IsWindow mem entry (ok bs) =
    (0 < length bs) × (length bs ≤ window) × (read_range mem entry (length bs) ≡ some bs)
IsWindow mem entry (err e) = (e ≡ runtime_error) × (mem entry ≡ none)

module _ (mem : ℕ → Option ℕ) (entry : ℕ) where
  fetch_chunks-reads :
      (fuel blocks : ℕ) (out : Bytes)
      → length out ≡ blocks * chunk
      → blocks ≤ 32
      → 32 < blocks + fuel
      → read_range mem entry (length out) ≡ some out
      → (bs : Bytes) × (fetch_chunks (read_range mem) fuel (entry + length out) out ≡ ok bs)
        × (length bs ≤ window)
        × (read_range mem entry (length bs) ≡ some bs)
  unfolding fetch_chunks
  fetch_chunks-reads zero blocks out size le enough reads = absurd (omega arith)
  fetch_chunks-reads (suc fuel) blocks out size le enough reads =
      elim (Bool-cases (ltb (length out) window)) [
        | inr full ↦ (out, rw (fetch_chunks, full) refl, omega arith, reads)
        | inl room ↦ elim (Option-cases (read_range mem (entry + length out) chunk)) [
          | inl e ↦ (out, rw (fetch_chunks, room, e) refl, omega arith, reads)
          | inr (c, e) ↦
              let whole : length c ≡ chunk = length-read_range mem (entry + length out) chunk c e in
              let long : ltb (length c) chunk ≡ false = ground arith in
              let below : length out < window = ground arith in
              let grown : length (out ++ c) ≡ length out + chunk =
                length-append out c ∙ ap (λ n. length out + n) whole in
              let joined = read_range-append mem entry (length out) chunk out c reads e in
              let (bs, fetched, bounded, read) =
                fetch_chunks-reads fuel (suc blocks) (out ++ c) (omega (arith, grown))
                  (omega (arith, below)) (omega arith)
                  (ap (λ n. read_range mem entry n) grown ∙ joined) in
              let next : entry + length out + length c ≡ entry + length (out ++ c) =
                omega (arith, grown, whole) in
              (bs, rw (fetch_chunks, room, e, long, next) fetched, bounded, read)
        ]
      ]

  one-IsWindow : IsWindow mem entry (try_sizes (read_range mem) entry (1 ∷ []))
  unfolding try_sizes read_range
  one-IsWindow = elim (Option-cases (mem entry)) [
    | inl e ↦ rw (try_sizes, read_range, e) (refl, e)
    | inr (b, e) ↦
        let read : read_range mem entry 1 ≡ some (b ∷ []) = rw (read_range, e) refl in
        rw (try_sizes, read) (omega arith, omega arith, read)
  ]

  try_sizes-IsWindow :
      (sizes : List ℕ)
      → All (λ size. size ≤ window) sizes
      → IsWindow mem entry (try_sizes (read_range mem) entry (sizes ++ 1 ∷ []))
  unfolding try_sizes
  try_sizes-IsWindow [] h = one-IsWindow
  try_sizes-IsWindow (size ∷ sizes) (le, h) =
      let smaller = try_sizes-IsWindow sizes h in
      elim (Option-cases (read_range mem entry size)) [
        | inl e ↦ rw (try_sizes, e) smaller
        | inr (c, e) ↦ elim (Bool-cases (length c == 0)) [
          | inl empty ↦ rw (try_sizes, e, empty) smaller
          | inr there ↦
              let measured : length c ≡ size = length-read_range mem entry size c e in
              rw (try_sizes, e, there)
                (
                  ground arith,
                  omega (arith, measured),
                  ap (λ n. read_range mem entry n) measured ∙ e,
                )
        ]
      ]

  or_sizes-IsWindow :
      (bs : Bytes)
      → length bs ≤ window
      → read_range mem entry (length bs) ≡ some bs
      → IsWindow mem entry (or_sizes (read_range mem) entry (ok bs))
  or_sizes-IsWindow [] le read =
      try_sizes-IsWindow (0x80 ∷ 0x40 ∷ 0x10 ∷ 0x8 ∷ [])
        (omega arith, (omega arith, (omega arith, (omega arith, tt))))
  or_sizes-IsWindow (b ∷ bs) le read = (omega arith, le, read)

  -- For every memory where a read fails if a byte of it is unmapped, and every entry, `_fetch_window`
  -- returns bytes of the memory from the entry on, at least one and at most 0x2000, or it raises
  -- RuntimeError and the entry is unmapped.
  pub fetch_window-IsWindow : IsWindow mem entry (fetch_window (read_range mem) entry)
  unfolding fetch_window
  fetch_window-IsWindow =
      let (bs, fetched, bounded, read) =
        fetch_chunks-reads 33 0 [] refl (omega arith) (omega arith) (nothing_read mem entry) in
      let from : entry + length {A = ℕ} [] ≡ entry = omega arith in
      let run : fetch_chunks (read_range mem) 33 entry [] ≡ ok bs = rw from at fetched in
      rw (or_sizes, run) (or_sizes-IsWindow bs bounded read)
