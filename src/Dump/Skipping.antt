-- ===== src/Dump/Skipping.antt =====
-- `open_element` and `close_element_skipping` over what the encoder wrote.
mod Passing
unfoldable pub use Passing.*
use angr_ghidra_core.Prelude.{
  ℕ, zero, suc, ◌+◌, ◌<◌, List, [], ◌∷◌, ◌++◌, append_assoc, length-append, length, All, ◌≡◌, refl,
  ap, ◌∙◌, arith, Option, none, false, ==_refl,
}
use mathlib.Core.Path.{subst}
use angr_ghidra_core.Prelude.Result.{ok}
use angr_ghidra_core.Packed.{Bytes}
use angr_ghidra_core.Packed.Decoder.{
  Decoder, rounds, skip_attr, open_run, unexpected, open_element, attributes, skip_to_end,
  close_element_skipping, pop_start,
}
use angr_ghidra_core.Packed.Groups.{Ahead, Ahead-append}
use angr_ghidra_core.Packed.Wire.{
  Write, IsWritable, IsId, header_bytes, value_bytes, read_id-bytes, header_kind,
  length-header_bytes,
}
use angr_ghidra_core.Packed.Values.{attr_bytes, read_attr-bytes}
use angr_ghidra_core.Packed.Progress.{get_elem?_cases}
use angr_ghidra_core.Dump.Trees.{
  Tree, Trees, node, done, also, IsAttr, IsTree, AreTrees, attrs_bytes, tree_bytes, forest_bytes,
}
use angr_ghidra_core.Dump.Cursor.{
  Fuels, Stops, yields, forest-Stops, attr-inside, skip_attrs-bytes, attributes_from-bytes,
}

-- `skip_to_end` gets from a depth and a position to others, if its fuel is enough at the first.

-- With the decoder at an element that the encoder wrote, `open_element`, which may expect its id,
-- returns the id, `attributes` then yields its attributes in order, and `close_element_skipping` leaves the decoder behind the
-- element's end marker, its stack of attribute runs as it was, whatever the children are.
pub open-attributes-close_expected :
    (expect : Option ℕ) (id : ℕ) (ws : List (ℕ × Write)) (ts : Trees) (d : Decoder) (rest : Bytes)
    → unexpected expect id ≡ false
    → IsTree (node id ws ts)
    → Ahead d.buf d.at (tree_bytes (node id ws ts) ++ rest)
    → (inside : Decoder) × (open_element expect d ≡ (ok id, inside))
      × (attributes inside ≡ ok (yields ws))
      × (close_element_skipping id inside
          ≡ (ok tt, record d { at = d.at + length (tree_bytes (node id ws ts)) }))
unfolding tree_bytes open_element open_run attributes close_element_skipping
open-attributes-close_expected expect id ws ts d rest is_expected (hi, hw, ht) h =
    let h1 : Ahead d.buf d.at (
        header_bytes 1 id ++ (attrs_bytes ws ++ (forest_bytes ts ++ (header_bytes 2 id ++ rest)))) =
      simp append_assoc at h in
    let h2 = Ahead-append (header_bytes 1 id) _ h1 in
    let h3 = Ahead-append (attrs_bytes ws) _ h2 in
    let h4 = Ahead-append (forest_bytes ts) _ h3 in
    let a1 = d.at + length (header_bytes 1 id) in
    let a2 = a1 + length (attrs_bytes ws) in
    let a3 = a2 + length (forest_bytes ts) in
    let stop : Stops d.buf a2 = forest-Stops ts 2 id rest (omega arith) hi ht h3 in
    let fuels : Fuels (rounds d.buf) d.buf a1 = (omega arith, omega arith) in
    let (b, e, kind, first) = header_kind 1 id _ (omega arith) hi h1 in
    let run = skip_attrs-bytes ws (rounds d.buf) a1 _ fuels hw h2 stop in
    let inside : Decoder = record d { at = a2; attr_start = a1 ∷ d.attr_start } in
    let passes = forest-Passes ts id inside 0 a2 _ ht h3 in
    let left = passes.later (rounds d.buf) (omega arith, omega arith) in
    (
      inside,
      rw
          (
            first,
            open_element,
            kind,
            read_id-bytes 1 id _ (omega arith) hi h1,
            open_run,
            is_expected,
            run,
          )
          refl,
      attributes_from-bytes ws (rounds d.buf) a1 _ fuels hw h2 stop,
      passes.same (rounds d.buf) (omega arith, omega arith)
          ∙ skip_last_any id inside (passes.fuel (rounds d.buf)) a3 rest left.0 hi h4
          ∙ ap (λ (k : ℕ). (ok tt, record d { at = k })) {x = a3 + length (header_bytes 2 id)}
              (simp length-append (omega arith)),
    )

-- With the decoder at an element that the encoder wrote, `open_element` returns its id, `attributes`
-- then yields its attributes in order, and `close_element_skipping` leaves the decoder behind the
-- element's end marker, its stack of attribute runs as it was, whatever the children are.
pub open-attributes-close :
    (id : ℕ) (ws : List (ℕ × Write)) (ts : Trees) (d : Decoder) (rest : Bytes)
    → IsTree (node id ws ts)
    → Ahead d.buf d.at (tree_bytes (node id ws ts) ++ rest)
    → (inside : Decoder) × (open_element none d ≡ (ok id, inside))
      × (attributes inside ≡ ok (yields ws))
      × (close_element_skipping id inside
          ≡ (ok tt, record d { at = d.at + length (tree_bytes (node id ws ts)) }))
open-attributes-close id ws ts d rest = open-attributes-close_expected none id ws ts d rest refl
