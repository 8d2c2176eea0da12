-- ===== src/Dump/Tests.antt =====
-- Concrete runs of `parse_tree`, and its theorems at concrete inputs.
use angr_ghidra_core.Prelude.{
  ℕ, ◌+◌, List, [], ◌∷◌, append-nil, length, none, sym, ◌≡◌, ◌≢◌, refl, arith, All,
}
use angr_ghidra_core.Prelude.Int.{negsuc}
use angr_ghidra_core.Prelude.Result.{ok, err, value_error, out_of_fuel}
use angr_ghidra_core.Packed.{Bytes}
use angr_ghidra_core.Packed.Utf8.{is_utf8_ascii}
use angr_ghidra_core.Packed.Wire.{Write, signed, string, space}
use angr_ghidra_core.Dump.{element, nil, cons, parse_tree}
use angr_ghidra_core.Dump.Trees.{
  IsAttr, Tree, tree_bytes, Trees, node, done, also, emit_all, emit_all-bytes, forest_bytes,
  AreTrees, view_all,
}
use angr_ghidra_core.Packed.NonZero.{IsPayload}
use angr_ghidra_core.Dump.NonZero.{AreZeroFree, emit_all-IsPayload}
use angr_ghidra_core.Dump.RoundTrip.{parse_tree-emit_all}
use angr_ghidra_core.Packed.Decoder.{
  Decoder, init, open_element, attributes, close_element_skipping,
}
use angr_ghidra_core.Dump.Cursor.{yields}
use angr_ghidra_core.Dump.Skipping.{open-attributes-close}
use angr_ghidra_core.Dump.Progress.{parse_tree-ne-out_of_fuel}

-- <addr space=3 offset=-2 name="hi"><void/></addr>
abbrev forest : Trees
forest =
    also
      (node 11 ((22, space 3) ∷ (300, signed (negsuc 1)) ∷ (14, string (b'h' ∷ b'i' ∷ [])) ∷ [])
        (also (node 10 [] done) done))
      done

abbrev sample_writes : List (ℕ × Write)
sample_writes = (22, space 3) ∷ (300, signed (negsuc 1)) ∷ (14, string (b'h' ∷ b'i' ∷ [])) ∷ []

abbrev sample_tree : Tree
sample_tree = node 11 sample_writes (also (node 10 [] done) done)

abbrev before_sample : Decoder
before_sample = init (tree_bytes sample_tree)

-- A stray element end is refused, and an element that is never closed is kept.
stray_end : parse_tree (0x8b ∷ []) ≡ err value_error
unfolding parse_tree
stray_end = refl

unclosed :
    parse_tree (0x4b ∷ 0x4a ∷ []) ≡ ok (cons (element 11 [] (cons (element 10 [] nil) nil)) nil)
unfolding parse_tree
unclosed = refl

forest_attrs :
    All IsAttr ((22, space 3) ∷ (300, signed (negsuc 1)) ∷ (14, string (b'h' ∷ b'i' ∷ [])) ∷ [])
forest_attrs = (
  (omega arith, omega arith),
  (
    (omega arith, omega arith),
    ((omega arith, (omega arith, is_utf8_ascii (b'h' ∷ b'i' ∷ []) (omega arith))), tt),
  ),
)

forest-AreTrees : AreTrees forest
forest-AreTrees = ((omega arith, forest_attrs, ((omega arith, tt, tt), tt)), tt)

parse_tree-emit_all_example :
    (bs : Bytes) × (emit_all forest [] ≡ ok bs) × (parse_tree bs ≡ ok (view_all forest))
parse_tree-emit_all_example = parse_tree-emit_all forest forest-AreTrees

parse_tree-ne-out_of_fuel_example : parse_tree (0xc7 ∷ 0x7f ∷ []) ≢ err out_of_fuel
parse_tree-ne-out_of_fuel_example = parse_tree-ne-out_of_fuel (0xc7 ∷ 0x7f ∷ [])

forest-AreZeroFree : AreZeroFree forest
forest-AreZeroFree = (((tt, (tt, (hi-IsPayload, tt))), ((tt, tt), tt)), tt)
  where
    hi-IsPayload : IsPayload (b'h' ∷ b'i' ∷ [])
    hi-IsPayload = ((omega arith, omega arith), ((omega arith, omega arith), tt))

emit_all-IsPayload_example : IsPayload (forest_bytes forest)
emit_all-IsPayload_example =
    emit_all-IsPayload forest (forest_bytes forest) forest-AreTrees forest-AreZeroFree
      (emit_all-bytes forest [] forest-AreTrees)

-- <addr space=3 offset=-2 name="hi"><void/></addr> read by a decoder that stands before it.
open-attributes-close_example :
    (inside : Decoder) × (open_element none before_sample ≡ (ok 11, inside))
    × (attributes inside ≡ ok (yields sample_writes))
    × (close_element_skipping 11 inside
        ≡ (ok tt, record before_sample { at = 0 + length (tree_bytes sample_tree) }))
open-attributes-close_example =
    open-attributes-close 11 sample_writes (also (node 10 [] done) done) before_sample []
      forest-AreTrees.0 (record { suffix = sym (append-nil (tree_bytes sample_tree)) })
