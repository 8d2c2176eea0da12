-- ===== src/ImageCache/Tests.antt =====
-- A memory of one mapped page.
use angr_ghidra_core.Prelude.{
  ℕ, zero, suc, ◌∷◌, [], Option, none, some, ltb, if◌then◌else◌, ◌≡◌, ◌≢◌, refl,
}
use angr_ghidra_core.Packed.{Bytes}
use angr_ghidra_core.ImageCache.{image, out_of_rounds, walk_down, walk_up, probe_image}
use angr_ghidra_core.ImageCache.Run.{
  read_range, IsImage, probe_image-IsImage, probe_image-ne-out_of_rounds,
}

-- The addresses below 0x1000 hold ones.
abbrev ones : ℕ → Option ℕ
ones addr = if ltb addr 0x1000 then some 1 else none

abbrev ones_of : ℕ → Bytes
ones_of zero = []
ones_of (suc n) = 1 ∷ ones_of n

probed : probe_image (read_range ones) 7 0x3000 ≡ image 0 (ones_of 0x1000)
unfolding probe_image read_range walk_down walk_up
probed = refl

probe_image-IsImage_example : IsImage ones 7 0x3000 0 (ones_of 0x1000)
probe_image-IsImage_example = probe_image-IsImage ones 7 0x3000 0 (ones_of 0x1000) probed

probe_image-ne-out_of_rounds_example : probe_image (read_range ones) 7 0x3000 ≢ out_of_rounds
probe_image-ne-out_of_rounds_example = probe_image-ne-out_of_rounds ones 7 0x3000
