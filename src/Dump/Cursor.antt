-- ===== src/Dump/Cursor.antt =====
-- The cursor of `PackedDecoder` over what the encoder wrote: opening an element, reading its
-- attributes, and leaving it past children that were not read.
use angr_ghidra_core.Prelude.{
  ℕ, zero, suc, ◌+◌, ◌≤◌, ◌<◌, true, false, List, [], ◌∷◌, ◌++◌, append_assoc, length-append,
  length, All, ◌≡◌, refl, sym, ap, arith,
}
use mathlib.Core.Path.{subst}
use angr_ghidra_core.Prelude.Result.{ok}
use angr_ghidra_core.Packed.{Bytes, Value, attribute}
use angr_ghidra_core.Packed.Decoder.{is_at, skip_attr, read_attr, skip_attrs, attributes_from}
use angr_ghidra_core.Packed.Groups.{Ahead, Ahead-append}
use angr_ghidra_core.Packed.Wire.{
  Write, IsId, read_back, header_bytes, value_bytes, header_kind, length-header_bytes,
}
use angr_ghidra_core.Packed.Values.{attr_bytes, read_attr-bytes}
use angr_ghidra_core.Packed.Progress.{get_elem?_cases}
use angr_ghidra_core.Dump.Trees.{
  Trees, node, done, also, IsAttr, AreTrees, attrs_bytes, tree_bytes, forest_bytes,
}

-- The attributes of a tree as the decoder yields them.
abbrev pub yields : List (ℕ × Write) → List (ℕ × Value)
yields [] = []
yields ((id, w) ∷ ws) = (id, read_back w) ∷ yields ws

-- No attribute follows: the run ends here.
abbrev pub Stops : Bytes → ℕ → Type 0
Stops buf at = is_at attribute buf at ≡ false

header-Stops :
    (c id : ℕ) {buf : Bytes} {at : ℕ} (rest : Bytes)
    → c < 3
    → IsId id
    → Ahead buf at (header_bytes c id ++ rest)
    → Stops buf at
header-Stops c id rest hc hi h =
    let (b, e, k, first) = header_kind c id rest (omega arith) hi h in
    rw (is_at, e, k) (ground arith)

pub forest-Stops :
    (ts : Trees) (c id : ℕ) {buf : Bytes} {at : ℕ} (rest : Bytes)
    → c < 3
    → IsId id
    → AreTrees ts
    → Ahead buf at (forest_bytes ts ++ (header_bytes c id ++ rest))
    → Stops buf at
unfolding forest_bytes tree_bytes
forest-Stops done c id rest hc hi ht h = header-Stops c id rest hc hi h
forest-Stops (also (node i ws ts) us) c id rest hc hi ht h =
    header-Stops 1 i _ (omega arith) ht.0.0 (simp append_assoc at h)

-- Enough fuel for a run: a round for each byte that is left and one that ends it.
abbrev pub Fuels : ℕ → Bytes → ℕ → Type 0
Fuels fuel buf at = (0 < fuel) × (length buf < at + fuel)

pub attr-inside :
    (id : ℕ) (w : Write) {buf : Bytes} {at : ℕ} (rest : Bytes)
    → IsId id
    → Ahead buf at (attr_bytes id w ++ rest)
    → (at < length buf) × (is_at attribute buf at ≡ true) × (1 ≤ length (attr_bytes id w))
attr-inside id w {buf} {at} rest hi h =
    let h' : Ahead buf at (header_bytes 3 id ++ (value_bytes w ++ rest)) =
      rw (append_assoc (header_bytes 3 id) (value_bytes w) rest) at h in
    let (b, e, k, first) = header_kind 3 id (value_bytes w ++ rest) (omega arith) hi h' in
    (
      ground (arith, get_elem?_cases buf at, e),
      rw (is_at, e, k) refl,
      omega (arith, length-append (header_bytes 3 id) (value_bytes w), length-header_bytes 3 id),
    )

pub skip_attrs-bytes :
    (ws : List (ℕ × Write)) (fuel : ℕ) {buf : Bytes} (at : ℕ) (rest : Bytes)
    → Fuels fuel buf at
    → All IsAttr ws
    → Ahead buf at (attrs_bytes ws ++ rest)
    → Stops buf (at + length (attrs_bytes ws))
    → skip_attrs fuel buf at ≡ ok (at + length (attrs_bytes ws))
unfolding skip_attrs attrs_bytes skip_attr
skip_attrs-bytes ws zero at rest f h k s = absurd (omega arith)
skip_attrs-bytes [] (suc fuel) {buf} at rest f h k s =
    let same : at + 0 ≡ at = omega arith in
    let stop : Stops buf at = subst (Stops buf) same s in rw stop (ap ok (sym same))
skip_attrs-bytes ((id, w) ∷ ws) (suc fuel) {buf} at rest f h k s =
    let k' : Ahead buf at (attr_bytes id w ++ (attrs_bytes ws ++ rest)) =
      rw (append_assoc (attr_bytes id w) (attrs_bytes ws) rest) at k in
    let (inside, more, long) = attr-inside id w (attrs_bytes ws ++ rest) h.0.0 k' in
    let r = read_attr-bytes id w (attrs_bytes ws ++ rest) h.0.0 h.0.1 k' in
    let at' = at + length (attr_bytes id w) in
    let same : at + length (attr_bytes id w ++ attrs_bytes ws) ≡ at' + length (attrs_bytes ws) =
      omega (arith, length-append (attr_bytes id w) (attrs_bytes ws)) in
    rw (more, r.0, r.2, same)
      (skip_attrs-bytes ws fuel at' rest (omega arith, omega arith) h.1
        (Ahead-append (attr_bytes id w) _ k') (subst (Stops buf) same s))

pub attributes_from-bytes :
    (ws : List (ℕ × Write)) (fuel : ℕ) {buf : Bytes} (at : ℕ) (rest : Bytes)
    → Fuels fuel buf at
    → All IsAttr ws
    → Ahead buf at (attrs_bytes ws ++ rest)
    → Stops buf (at + length (attrs_bytes ws))
    → attributes_from fuel buf at ≡ ok (yields ws)
unfolding attributes_from attrs_bytes read_attr
attributes_from-bytes ws zero at rest f h k s = absurd (omega arith)
attributes_from-bytes [] (suc fuel) {buf} at rest f h k s =
    let same : at + 0 ≡ at = omega arith in
    let stop : Stops buf at = subst (Stops buf) same s in rw stop
attributes_from-bytes ((id, w) ∷ ws) (suc fuel) {buf} at rest f h k s =
    let k' : Ahead buf at (attr_bytes id w ++ (attrs_bytes ws ++ rest)) =
      rw (append_assoc (attr_bytes id w) (attrs_bytes ws) rest) at k in
    let (inside, more, long) = attr-inside id w (attrs_bytes ws ++ rest) h.0.0 k' in
    let r = read_attr-bytes id w (attrs_bytes ws ++ rest) h.0.0 h.0.1 k' in
    let at' = at + length (attr_bytes id w) in
    let same : at + length (attr_bytes id w ++ attrs_bytes ws) ≡ at' + length (attrs_bytes ws) =
      omega (arith, length-append (attr_bytes id w) (attrs_bytes ws)) in
    rw
      (
        more,
        r.0,
        r.1,
        r.2,
        attributes_from-bytes ws fuel at' rest (omega arith, omega arith) h.1
            (Ahead-append (attr_bytes id w) _ k') (subst (Stops buf) same s),
      )
      refl
