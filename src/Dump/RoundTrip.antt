-- ===== src/Dump/RoundTrip.antt =====
-- `parse_tree` on what the encoder wrote: the elements come back with their attributes and children.
mod Stepping
unfoldable pub use Stepping.*
use angr_ghidra_core.Prelude.{
  ℕ, zero, suc, ◌+◌, ◌≤◌, ◌<◌, List, [], ◌∷◌, ◌++◌, append-nil, append_assoc, length-append, lt→ltb,
  le→ltb, length, All, ◌≡◌, refl, sym, ap, ◌∙◌, arith, inl, inr, ==_refl,
}
use angr_ghidra_core.Prelude.Result.{ok}
use mathlib.Core.Path.{subst₂}
use angr_ghidra_core.Packed.{Bytes, Value}
use angr_ghidra_core.Packed.Decoder.{rounds, byte}
use angr_ghidra_core.Packed.Groups.{Ahead, Ahead-append}
use angr_ghidra_core.Packed.Wire.{
  Write, IsWritable, IsId, read_back, header_bytes, value_bytes, read_id-bytes, header_kind,
}
use angr_ghidra_core.Packed.Values.{attr_bytes, read_attr-bytes}
use angr_ghidra_core.Packed.Progress.{get_elem?_cases}
use angr_ghidra_core.Ids.{Name, attribute_name}
use angr_ghidra_core.Dump.{
  Element, element, Elements, nil, cons, snoc, Frame, State, attach, step, close_all, parse_loop,
  initial, parse_tree,
}
use angr_ghidra_core.Dump.Trees.{
  Tree, Trees, node, done, also, emit_all, emit_all-bytes, IsAttr, IsTree, AreTrees, view_attrs,
  view, view_all, attrs_bytes, tree_bytes, forest_bytes,
}
use angr_ghidra_core.Dump.Progress.{step-Forward}

-- Rounds of the loop of `parse_tree`.

-- The rounds over an attribute run, over a tree, and over a forest.
abbrev at_state : ℕ → Elements × List Frame → State
at_state at p = record { at = at; roots = p.0; stack = p.1 }

move :
    {buf : Bytes} {s : State} {p q : Elements × List Frame} (a b : ℕ)
    → Steps buf s (at_state a p)
    → a ≡ b
    → p ≡ q
    → Steps buf s (at_state b q)
move {buf} {s} a b r e p = subst₂ (λ (x : ℕ) y. Steps buf s (at_state x y)) e p r

attrs-Steps :
    (ws : List (ℕ × Write)) {buf : Bytes} (at : ℕ) (roots : Elements) (f : Frame)
    (below : List Frame) (rest : Bytes)
    → All IsAttr ws
    → Ahead buf at (attrs_bytes ws ++ rest)
    → Steps buf (at_state at (roots, f ∷ below)) (
        at_state
          (at + length (attrs_bytes ws))
          (roots, record f { attrs = f.attrs ++ view_attrs ws } ∷ below))
unfolding attrs_bytes
attrs-Steps [] at roots f below rest h k =
    move at (at + 0) here (omega arith)
      (ap (λ l. (roots, record f { attrs = l } ∷ below)) (sym (append-nil f.attrs)))
attrs-Steps ((id, w) ∷ ws) at roots f below rest h k =
    let k' : Ahead _ at (attr_bytes id w ++ (attrs_bytes ws ++ rest)) =
      rw (append_assoc (attr_bytes id w) (attrs_bytes ws) rest) at k in
    let a : Name × Value = (attribute_name id, read_back w) in
    let g : Frame = record f { attrs = f.attrs ++ a ∷ [] } in
    next (step-attr id w at roots f below (attrs_bytes ws ++ rest) h.0.0 h.0.1 k') (
      move _ _
        (attrs-Steps ws (at + length (attr_bytes id w)) roots g below rest h.1
          (Ahead-append (attr_bytes id w) (attrs_bytes ws ++ rest) k'))
        (omega (arith, length-append (attr_bytes id w) (attrs_bytes ws)))
        (ap (λ l. (roots, record f { attrs = l } ∷ below))
          (append_assoc f.attrs (a ∷ []) (view_attrs ws))))

abbrev blank : ℕ → Frame
blank id = record { ident = id; attrs = []; children = nil }

mutual
  unfolding tree_bytes forest_bytes

  tree-Steps :
      (t : Tree) (buf : Bytes) (at : ℕ) (roots : Elements) (stack : List Frame) (rest : Bytes)
      → IsTree t
      → Ahead buf at (tree_bytes t ++ rest)
      → Steps buf
          (at_state at (roots, stack))
          (at_state (at + length (tree_bytes t)) (attach (view t) roots stack))
  tree-Steps (node id ws ts) buf at roots stack rest (hi, hw, ht) h =
      let h1 : Ahead buf at (
          header_bytes 1 id
          ++ (attrs_bytes ws ++ (forest_bytes ts ++ (header_bytes 2 id ++ rest)))) =
        simp append_assoc at h in
      let h2 = Ahead-append (header_bytes 1 id) _ h1 in
      let h3 = Ahead-append (attrs_bytes ws) _ h2 in
      let h4 = Ahead-append (forest_bytes ts) _ h3 in
      let a1 = at + length (header_bytes 1 id) in
      let a2 = a1 + length (attrs_bytes ws) in
      let a3 = a2 + length (forest_bytes ts) in
      let full : Frame = record (blank id) { attrs = view_attrs ws } in
      next (step-open id (at_state at (roots, stack)) _ hi h1) (
        Steps-trans (attrs-Steps ws a1 roots (blank id) stack _ hw h2) (
          Steps-trans
            (move a3 a3 (forest-Steps ts buf a2 roots (full ∷ stack) _ ht h3) refl
              (attach_all-frame (view_all ts) roots full stack))
            (next (step-close id a3 roots (view_attrs ws) (view_all ts) stack rest hi h4)
              (move _ _ here (simp length-append (omega arith)) refl))))

  forest-Steps :
      (ts : Trees) (buf : Bytes) (at : ℕ) (roots : Elements) (stack : List Frame) (rest : Bytes)
      → AreTrees ts
      → Ahead buf at (forest_bytes ts ++ rest)
      → Steps buf
          (at_state at (roots, stack))
          (at_state (at + length (forest_bytes ts)) (attach_all (view_all ts) roots stack))
  forest-Steps done buf at roots stack rest h k = move at (at + 0) here (omega arith) refl
  forest-Steps (also t ts) buf at roots stack rest (h, hs) k =
      let k' : Ahead buf at (tree_bytes t ++ (forest_bytes ts ++ rest)) =
        rw (append_assoc (tree_bytes t) (forest_bytes ts) rest) at k in
      let p = attach (view t) roots stack in
      Steps-trans (tree-Steps t buf at roots stack _ h k') (
        move _ _
          (forest-Steps ts buf (at + length (tree_bytes t)) p.0 p.1 rest hs
            (Ahead-append (tree_bytes t) _ k'))
          (omega (arith, length-append (tree_bytes t) (forest_bytes ts))) refl)

-- What the encoder wrote is parsed back: for ids and arguments that the encoding can carry, the
-- writing methods raise nothing, and `parse_tree` of what they wrote has the same elements with the
-- same attributes and children, in order (an unsigned integer modulo 2 ^ 64).
pub parse_tree-emit_all :
    (ts : Trees)
    → AreTrees ts
    → (bs : Bytes) × (emit_all ts [] ≡ ok bs) × (parse_tree bs ≡ ok (view_all ts))
unfolding parse_tree close_all
parse_tree-emit_all ts h =
    let bs = forest_bytes ts in
    let ahead : Ahead bs 0 (bs ++ []) = record { suffix = sym (append-nil bs) } in
    let run =
      move {buf = bs} {s = initial} (0 + length bs) (length bs)
        (forest-Steps ts bs 0 nil [] [] h ahead) (omega arith)
        (attach_all-roots (view_all ts) nil) in
    (bs, emit_all-bytes ts [] h, parse_loop-Steps (rounds bs) run (omega arith) (omega arith) refl)
