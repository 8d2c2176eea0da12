-- ===== src/Dump/Trees.antt =====
-- Trees of elements as programs write them with `PackedEncoder`, their bytes, and what `parse_tree`
-- is to find in them.
use angr_ghidra_core.Prelude.{
  ℕ, List, [], ◌∷◌, ◌++◌, append-nil, append_assoc, All, ◌≡◌, sym, ap, ◌∙◌, arith,
}
use angr_ghidra_core.Prelude.Result.{Result, ok, ◌>>=◌}
use angr_ghidra_core.Packed.{Bytes, Value}
use angr_ghidra_core.Packed.Encoder.{open_element, close_element}
use angr_ghidra_core.Packed.Wire.{
  Write, write, IsWritable, IsId, read_back, header_bytes, put_header-bytes,
}
use angr_ghidra_core.Packed.Values.{attr_bytes, write-bytes}
use angr_ghidra_core.Ids.{Name, attribute_name}
use angr_ghidra_core.Dump.{Element, element, Elements, nil, cons}

-- What a program writes: an id, attributes by the writing methods, and child elements.
mutual
  pub data Tree : Type 0 where
    node : ℕ → List (ℕ × Write) → Trees → Tree

  pub data Trees : Type 0 where
    done : Trees
    also : Tree → Trees → Trees

unfoldable pub write_attrs : List (ℕ × Write) → Bytes → Result Bytes
write_attrs [] buf = ok buf
write_attrs ((id, w) ∷ ws) buf = do buf' ← write id w buf; write_attrs ws buf'

-- The calls that write a tree.
unfoldable mutual
  pub emit : Tree → Bytes → Result Bytes
  emit (node id ws ts) buf = do
    opened ← open_element id buf
    attributed ← write_attrs ws opened
    filled ← emit_all ts attributed
    close_element id filled

  pub emit_all : Trees → Bytes → Result Bytes
  emit_all done buf = ok buf
  emit_all (also t ts) buf = do buf' ← emit t buf; emit_all ts buf'

abbrev pub IsAttr : ℕ × Write → Type 0
IsAttr a = IsId a.0 × IsWritable a.1

abbrev mutual
  pub IsTree : Tree → Type 0
  IsTree (node id ws ts) = IsId id × All IsAttr ws × AreTrees ts

  pub AreTrees : Trees → Type 0
  AreTrees done = Unit
  AreTrees (also t ts) = IsTree t × AreTrees ts

abbrev pub view_attrs : List (ℕ × Write) → List (Name × Value)
view_attrs [] = []
view_attrs ((id, w) ∷ ws) = (attribute_name id, read_back w) ∷ view_attrs ws

-- What `parse_tree` makes of it.
abbrev mutual
  pub view : Tree → Element
  view (node id ws ts) = element id (view_attrs ws) (view_all ts)

  pub view_all : Trees → Elements
  view_all done = nil
  view_all (also t ts) = cons (view t) (view_all ts)

unfoldable pub attrs_bytes : List (ℕ × Write) → Bytes
attrs_bytes [] = []
attrs_bytes ((id, w) ∷ ws) = attr_bytes id w ++ attrs_bytes ws

unfoldable mutual
  pub tree_bytes : Tree → Bytes
  tree_bytes (node id ws ts) =
      header_bytes 1 id ++ (attrs_bytes ws ++ (forest_bytes ts ++ header_bytes 2 id))

  pub forest_bytes : Trees → Bytes
  forest_bytes done = []
  forest_bytes (also t ts) = tree_bytes t ++ forest_bytes ts

pub write_attrs-bytes :
    (ws : List (ℕ × Write)) (buf : Bytes)
    → All IsAttr ws
    → write_attrs ws buf ≡ ok (buf ++ attrs_bytes ws)
unfolding write_attrs attrs_bytes
write_attrs-bytes [] buf h = ap ok (sym (append-nil buf))
write_attrs-bytes ((id, w) ∷ ws) buf h = rw (write-bytes id w buf h.0.0 h.0.1) (
    write_attrs-bytes ws (buf ++ attr_bytes id w) h.1
    ∙ ap ok (append_assoc buf (attr_bytes id w) (attrs_bytes ws)))

-- The encoder appends the bytes of a tree and raises nothing.
mutual
  unfolding emit emit_all tree_bytes forest_bytes open_element close_element

  pub emit-bytes : (t : Tree) (buf : Bytes) → IsTree t → emit t buf ≡ ok (buf ++ tree_bytes t)
  emit-bytes (node id ws ts) buf (hi, hw, ht) =
      rw
        (
          put_header-bytes 1 id buf (omega arith) hi,
          write_attrs-bytes ws (buf ++ header_bytes 1 id) hw,
          emit_all-bytes ts (buf ++ header_bytes 1 id ++ attrs_bytes ws) ht,
        )
        (put_header-bytes 2 id (buf ++ header_bytes 1 id ++ attrs_bytes ws ++ forest_bytes ts)
            (omega arith) hi
          ∙ simp append_assoc)

  pub emit_all-bytes :
      (ts : Trees) (buf : Bytes) → AreTrees ts → emit_all ts buf ≡ ok (buf ++ forest_bytes ts)
  emit_all-bytes done buf h = ap ok (sym (append-nil buf))
  emit_all-bytes (also t ts) buf (h, hs) = rw (emit-bytes t buf h) (
      emit_all-bytes ts (buf ++ tree_bytes t) hs
      ∙ ap ok (append_assoc buf (tree_bytes t) (forest_bytes ts)))
