-- ===== src/ImageCache/Run.antt =====
-- What `probe_image` finds in a memory where a read fails if any byte of its range is unmapped.
mod Reads
unfoldable pub use Reads.*
use angr_ghidra_core.Prelude.{
  ℕ, zero, suc, ◌+◌, ◌*◌, ◌/◌, ◌<◌, ◌≤◌, false, [], ◌∷◌, ◌++◌, append-nil, append_assoc,
  length-append, Option, none, some, ltb, leb, ◌==◌, length, ◌≡◌, ◌≢◌, refl, sym, ap, ◌∙◌, arith,
  Bool-cases, Option-cases, ◌⊎◌, inl, inr,
}
use mathlib.Core.Path.{subst₂}
use angr_ghidra_core.Packed.{Bytes}
use angr_ghidra_core.ImageCache.{
  page, GetBytes, Pages, bytes_of, walk_down, walk_up, content_of, base_of, image, no_image,
  out_of_rounds, finish, probe_image,
}

-- The bytes from an address, if all of them are mapped.

content_of-append :
    (below above : Pages) → content_of (below ++ above) ≡ content_of below ++ content_of above
content_of-append [] above = refl
content_of-append ((addr, b) ∷ below) above =
    ap (λ t. b ++ t) (content_of-append below above)
    ∙ sym (append_assoc b (content_of below) (content_of above))

-- What an image is to be for an entry.
pub record IsImage (mem : ℕ → Option ℕ) (entry max_size base : ℕ) (content : Bytes) : Type 0 where
  pub starts : base ≤ entry
  pub covers : entry < base + length content
  pub bounded : length content ≤ max_size
  pub reads : read_range mem base (length content) ≡ some content

module _ (mem : ℕ → Option ℕ) (entry max_size : ℕ) where
  finish-IsImage :
      (below above : Pages) (start base : ℕ)
      → start ≡ entry / page * page
      → IsRun mem below base (start + page)
      → base ≤ start
      → read_range mem (start + page) (length (content_of above)) ≡ some (content_of above)
      → (base' : ℕ) (content : Bytes)
      → finish max_size start below (some above) ≡ image base' content
      → IsImage mem entry max_size base' content
  finish-IsImage below above start base at run le reads base' content h =
      let all = content_of (below ++ above) in
      elim (Bool-cases (ltb max_size (length all))) [
        | inl over ↦ cc (rw over at h)
        | inr fits ↦
            let found : image (base_of start below) all ≡ image base' content = rw fits at h in
            let whole : all ≡ content = cc found in
            let from : base_of start below ≡ base' = cc found in
            let lowest : base ≡ base' = sym (run.first start) ∙ from in
            let joined : all ≡ content_of below ++ content_of above =
              content_of-append below above in
            let measured : length all ≡ length (content_of below) + length (content_of above) =
              ap length joined ∙ length-append (content_of below) (content_of above) in
            let small : length all ≤ max_size = ground arith in
            let above_reads : read_range mem (base + length (content_of below))
                  (length (content_of above))
                ≡ some (content_of above) =
              rw run.ends reads in
            let all_read : read_range mem base (length all) ≡ some all =
              rw (measured, joined)
                (read_range-append mem base (length (content_of below)) (length (content_of above))
                  (content_of below) (content_of above) run.reads above_reads) in
            subst₂ (λ b c. IsImage mem entry max_size b c) lowest whole
              (record {
                starts = omega arith;
                covers = omega (arith, run.ends, measured);
                bounded = small;
                reads = all_read;
              })
      ]

  -- The walks of `probe_image` for an entry whose page is mapped.
  mapped :
      (b : Bytes)
      → read_range mem (entry / page * page) page ≡ some b
      → length b ≡ page
      → (base : ℕ) × (below : Pages) × (above : Pages) × (probe_image
            (read_range mem)
            entry
            max_size
          ≡ finish max_size (entry / page * page) below (some above))
        × IsRun mem below base (entry / page * page + page)
        × (base ≤ entry / page * page)
        × (read_range mem (entry / page * page + page) (length (content_of above))
            ≡ some (content_of above))
  unfolding probe_image
  mapped b read whole =
      let start = entry / page * page in
      let there : bytes_of (read_range mem start page) ≡ b = rw (bytes_of, read) refl in
      let some_there : (length b == 0) ≡ false = ground arith in
      let end_of : start + page + length {A = ℕ} [] ≡ start + page = omega arith in
      let single : length b ≡ length (content_of ((start, b) ∷ [])) =
        ap length (sym (append-nil b)) in
      let run =
        cons-IsRun mem start b [] (start + page) read whole (nothing_read mem (start + page))
          end_of in
      let (base, lower, le, measured) =
        walk_down-IsRun mem max_size (entry / page) (length b) ((start, b) ∷ []) (start + page) run
          single in
      let walked =
        walk_down (read_range mem) max_size (entry / page) (length b) ((start, b) ∷ []) in
      let (above, up, reads) =
        walk_up-run mem max_size (suc (max_size / page)) (start + page) walked.1 (omega arith)
          (omega arith) in
      (base, walked.0, above, rw (there, some_there, up) refl, lower, le, reads)

  unmapped :
      bytes_of (read_range mem (entry / page * page) page) ≡ []
      → probe_image (read_range mem) entry max_size ≡ no_image
  unfolding probe_image
  unmapped h = rw h refl

  ended :
      (below above : Pages)
      → finish max_size (entry / page * page) below (some above) ≢ out_of_rounds
  ended below above h = elim (Bool-cases (ltb max_size (length (content_of (below ++ above))))) [
    | inl over ↦ cc (rw over at h)
    | inr fits ↦ cc (rw fits at h)
  ]

  -- An image holds the entry, is no longer than `max_size`, and is what the memory holds from its
  -- base on, without a gap. It holds for a memory where a read fails if a byte of it is unmapped.
  pub probe_image-IsImage :
      (base : ℕ) (content : Bytes)
      → probe_image (read_range mem) entry max_size ≡ image base content
      → IsImage mem entry max_size base content
  probe_image-IsImage base content h = elim (page_read mem (entry / page * page)) [
    | inl empty ↦ cc (h, unmapped empty)
    | inr (b, read, whole) ↦
        let (lowest, below, above, probed, run, le, reads) = mapped b read whole in
        finish-IsImage below above (entry / page * page) lowest refl run le reads base content
          (sym probed ∙ h)
  ]

  -- The two walks end for every memory, entry and bound.
  pub probe_image-ne-out_of_rounds : probe_image (read_range mem) entry max_size ≢ out_of_rounds
  probe_image-ne-out_of_rounds h = elim (page_read mem (entry / page * page)) [
    | inl empty ↦ cc (h, unmapped empty)
    | inr (b, read, whole) ↦
        let (lowest, below, above, probed, run, le, reads) = mapped b read whole in
        ended below above (sym probed ∙ h)
  ]
