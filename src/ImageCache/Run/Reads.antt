-- ===== src/ImageCache/Run/Reads.antt =====
-- The walks of `probe_image` read a range of the memory.
use angr_ghidra_core.Prelude.{
  ℕ, zero, suc, ◌+◌, ◌*◌, ◌<◌, ◌≤◌, false, [], ◌∷◌, ◌++◌, length-append, Option, none, some, ltb,
  leb, ◌==◌, length, ◌≡◌, refl, sym, ap, ◌∙◌, arith, Bool-cases, Option-cases, ◌⊎◌, inl, inr,
}
use angr_ghidra_core.Packed.{Bytes}
use angr_ghidra_core.ImageCache.{
  page, GetBytes, Pages, bytes_of, walk_down, walk_up, content_of, base_of,
}

unfoldable pub read_range : (ℕ → Option ℕ) → GetBytes
read_range mem addr zero = some []
read_range mem addr (suc n) = elim (mem addr) [
  | none ↦ none
  | some b ↦ elim (read_range mem (addr + 1) n) [ none ↦ none | some bs ↦ some (b ∷ bs) ]
]

module _ (mem : ℕ → Option ℕ) where
  pub length-read_range :
      (addr n : ℕ) (bs : Bytes) → read_range mem addr n ≡ some bs → length bs ≡ n
  unfolding read_range
  length-read_range addr zero bs h = ground arith
  length-read_range addr (suc n) bs h = elim (Option-cases (mem addr)) [
    | inl e ↦ cc (rw (read_range, e) at h)
    | inr (b, e) ↦ elim (Option-cases (read_range mem (addr + 1) n)) [
      | inl f ↦ cc (rw (read_range, e, f) at h)
      | inr (rest, f) ↦
          let whole : b ∷ rest ≡ bs = cc (rw (read_range, e, f) at h) in
          sym (ap length whole) ∙ ap suc (length-read_range (addr + 1) n rest f)
    ]
  ]

  -- Reads of adjacent ranges join.
  pub read_range-append :
      (addr m n : ℕ) (xs ys : Bytes)
      → read_range mem addr m ≡ some xs
      → read_range mem (addr + m) n ≡ some ys
      → read_range mem addr (m + n) ≡ some (xs ++ ys)
  unfolding read_range
  read_range-append addr zero n xs ys hx hy =
      let empty : [] ≡ xs = cc hx in
      let from : addr + 0 ≡ addr = omega arith in
      let size : 0 + n ≡ n = omega arith in rw (size, sym empty) (rw from at hy)
  read_range-append addr (suc m) n xs ys hx hy = elim (Option-cases (mem addr)) [
    | inl e ↦ cc (rw (read_range, e) at hx)
    | inr (b, e) ↦ elim (Option-cases (read_range mem (addr + 1) m)) [
      | inl f ↦ cc (rw (read_range, e, f) at hx)
      | inr (rest, f) ↦
          let whole : b ∷ rest ≡ xs = cc (rw (read_range, e, f) at hx) in
          let from : addr + suc m ≡ addr + 1 + m = omega arith in
          let size : suc m + n ≡ suc (m + n) = omega arith in
          let joined = read_range-append (addr + 1) m n rest ys f (rw from at hy) in
          rw (size, sym whole) (rw (read_range, e, joined) refl)
    ]
  ]

  -- A page is read whole or not at all.
  pub page_read :
      (addr : ℕ)
      → (bytes_of (read_range mem addr page) ≡ [])
        ⊎ ((b : Bytes) × (read_range mem addr page ≡ some b) × (length b ≡ page))
  page_read addr = elim (Option-cases (read_range mem addr page)) [
    | inl e ↦ inl (rw (bytes_of, e) refl)
    | inr (b, e) ↦ inr (b, e, length-read_range addr page b e)
  ]

  pub nothing_read : (addr : ℕ) → read_range mem addr 0 ≡ some []
  unfolding read_range
  nothing_read addr = refl

  -- Pages that were read are adjacent, from `base` up to `end`.
  pub record IsRun (pages : Pages) (base end : ℕ) : Type 0 where
    pub reads : read_range mem base (length (content_of pages)) ≡ some (content_of pages)
    pub ends : base + length (content_of pages) ≡ end
    pub first : (default : ℕ) → base_of default pages ≡ base

  pub cons-IsRun :
      (addr : ℕ) (b : Bytes) (pages : Pages) (end : ℕ)
      → read_range mem addr page ≡ some b
      → length b ≡ page
      → read_range mem (addr + page) (length (content_of pages)) ≡ some (content_of pages)
      → addr + page + length (content_of pages) ≡ end
      → IsRun ((addr, b) ∷ pages) addr end
  cons-IsRun addr b pages end read size reads ends = record {
    reads =
        let grown : length (b ++ content_of pages) ≡ page + length (content_of pages) =
          simp length-append (omega (arith, size)) in
        rw grown
          (read_range-append addr page (length (content_of pages)) b (content_of pages) read reads);
    ends = simp length-append (omega (arith, ends, size));
    first = λ default. refl;
  }

  -- The pages below are a run that ends where it ended.
  pub walk_down-IsRun :
      (max_size n total : ℕ) (pages : Pages) (end : ℕ)
      → IsRun pages (n * page) end
      → total ≡ length (content_of pages)
      → (base : ℕ) × IsRun (walk_down (read_range mem) max_size n total pages).0 base end
        × (base ≤ n * page)
        × ((walk_down (read_range mem) max_size n total pages).1
            ≡ length (content_of (walk_down (read_range mem) max_size n total pages).0))
  unfolding walk_down
  walk_down-IsRun max_size zero total pages end run size = (zero * page, run, omega arith, size)
  walk_down-IsRun max_size (suc n) total pages end run size =
      elim (Bool-cases (leb (total + page) max_size)) [
        | inr full ↦ rw (walk_down, full) (suc n * page, run, omega arith, size)
        | inl room ↦ elim (page_read (n * page)) [
          | inl none_there ↦ rw (walk_down, room, none_there) (suc n * page, run, omega arith, size)
          | inr (b, read, whole) ↦
              let there : bytes_of (read_range mem (n * page) page) ≡ b =
                rw (bytes_of, read) refl in
              let long : ltb (length b) page ≡ false = ground arith in
              let up : suc n * page ≡ n * page + page = omega arith in
              let grown : total + length b ≡ length (content_of ((n * page, b) ∷ pages)) =
                simp length-append (omega (arith, size)) in
              let (base, lower, le, measured) =
                walk_down-IsRun max_size n (total + length b) ((n * page, b) ∷ pages) end
                  (cons-IsRun (n * page) b pages end read whole (rw up at run.reads)
                    (rw up at run.ends))
                  grown in
              rw (walk_down, room, there, long) (base, lower, omega arith, measured)
        ]
      ]

  -- The pages above are read from `addr` on, and enough rounds are made.
  pub walk_up-run :
      (max_size fuel addr total : ℕ)
      → 0 < fuel
      → max_size < total + fuel * page
      → (above : Pages) × (walk_up (read_range mem) max_size fuel addr total ≡ some above)
        × (read_range mem addr (length (content_of above)) ≡ some (content_of above))
  unfolding walk_up
  walk_up-run max_size zero addr total positive enough = absurd (omega arith)
  walk_up-run max_size (suc fuel) addr total positive enough =
      elim (Bool-cases (leb (total + page) max_size)) [
        | inr full ↦ ([], rw (walk_up, full) refl, nothing_read addr)
        | inl room ↦ elim (page_read addr) [
          | inl none_there ↦ ([], rw (walk_up, room, none_there) refl, nothing_read addr)
          | inr (b, read, whole) ↦
              let there : bytes_of (read_range mem addr page) ≡ b = rw (bytes_of, read) refl in
              let some_there : (length b == 0) ≡ false = ground arith in
              let long : ltb (length b) page ≡ false = ground arith in
              let fits : total + page ≤ max_size = ground arith in
              let (above, further, reads) =
                walk_up-run max_size fuel (addr + page) (total + length b) (omega (arith, fits))
                  (omega arith) in
              let grown : length (b ++ content_of above) ≡ page + length (content_of above) =
                simp length-append (omega (arith, whole)) in
              (
                (addr, b) ∷ above,
                rw (walk_up, room, there, some_there, long, further)
                    (ap (λ x. some ((addr, x) ∷ above)) there),
                rw grown (
                    read_range-append addr page (length (content_of above)) b (content_of above)
                      read reads),
              )
        ]
      ]
