-- ===== src/ImageCache.antt =====
-- angr_ghidra_core/core/imagecache.py: `probe_image`, the readable run of pages around an entry.
-- `get_bytes` is a callback of the session: the bytes at an address, or None.
pub mod Run
mod Tests
use angr_ghidra_core.Prelude.{
  ℕ, zero, suc, ◌+◌, ◌-◌, ◌*◌, ◌/◌, Bool, true, false, List, [], ◌∷◌, ◌++◌, Option, none, some, ltb,
  leb, ◌==◌, if◌then◌else◌, length,
}
use angr_ghidra_core.Packed.{Bytes}

abbrev pub page : ℕ
page = 0x1000

abbrev pub default_max_size : ℕ
default_max_size = 500 * 1024

-- `get_bytes(addr, size)`
abbrev pub GetBytes : Type 0
GetBytes = ℕ → ℕ → Option Bytes

-- Pages are kept in the order of their addresses, the lowest first; what Python sorts is in order
-- already.
abbrev pub Pages : Type 0
Pages = List (ℕ × Bytes)

-- `if not b`: None and b"" alike.
abbrev pub bytes_of : Option Bytes → Bytes
bytes_of none = []
bytes_of (some b) = b

-- The walk down from `addr`, of which `n` pages are left above address 0: a short page stops it.
unfoldable pub walk_down : GetBytes → ℕ → ℕ → ℕ → Pages → Pages × ℕ
walk_down get_bytes max_size zero total pages = (pages, total)
walk_down get_bytes max_size (suc n) total pages =
    let b = bytes_of (get_bytes (n * page) page) in
    let further = walk_down get_bytes max_size n (total + length b) ((n * page, b) ∷ pages) in
    if leb (total + page) max_size
    then (if ltb (length b) page then (pages, total) else further)
    else (pages, total)

-- The walk up from `addr`: a short page is the last. A round that goes on adds a page to `total`, so
-- that `fuel` above `max_size / page` is enough.
unfoldable pub walk_up : GetBytes → ℕ → ℕ → ℕ → ℕ → Option Pages
walk_up get_bytes max_size zero addr total = none
walk_up get_bytes max_size (suc fuel) addr total =
    let b = bytes_of (get_bytes addr page) in
    let further = walk_up get_bytes max_size fuel (addr + page) (total + length b) in
    if leb (total + page) max_size
    then (if length b == 0
        then some []
        else if ltb (length b) page
        then some ((addr, b) ∷ [])
        else elim further [ none ↦ none | some above ↦ some ((addr, b) ∷ above) ])
    else some []

abbrev pub content_of : Pages → Bytes
content_of [] = []
content_of ((addr, b) ∷ pages) = b ++ content_of pages

-- `min(pages)`, the address of the first.
abbrev pub base_of : ℕ → Pages → ℕ
base_of start [] = start
base_of start ((addr, b) ∷ pages) = addr

-- What `probe_image` returns, or `out_of_rounds` for a walk of the model that used up its rounds.
pub data Probe : Type 0 where
  image : ℕ → Bytes → Probe
  no_image out_of_rounds : Probe

abbrev pub finish : ℕ → ℕ → Pages → Option Pages → Probe
finish max_size start below none = out_of_rounds
finish max_size start below (some above) =
    let content = content_of (below ++ above) in
    if ltb max_size (length content) then no_image else image (base_of start below) content

unfoldable pub probe_image : GetBytes → ℕ → ℕ → Probe
probe_image get_bytes entry max_size =
    let index = entry / page in
    let start = index * page in
    let first = bytes_of (get_bytes start page) in
    let (below, total) = walk_down get_bytes max_size index (length first) ((start, first) ∷ []) in
    let above = walk_up get_bytes max_size (suc (max_size / page)) (start + page) total in
    if length first == 0 then no_image else finish max_size start below above
