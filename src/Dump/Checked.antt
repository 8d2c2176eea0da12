-- ===== src/Dump/Checked.antt =====
-- A test whether the encoding can carry a tree.
use angr_ghidra_core.Prelude.{
  ℕ, suc, ◌^◌, ◌≡◌, refl, Bool, true, false, ◌&&◌, List, [], ◌∷◌, ltb, ltb→lt, length, All,
}
use angr_ghidra_core.Prelude.Int.{pos, negsuc}
use angr_ghidra_core.Packed.Utf8.{is_utf8}
use angr_ghidra_core.Packed.Wire.{
  Write, boolean, signed, unsigned, string, space, special, opcode, IsWritable,
}
use angr_ghidra_core.Dump.Trees.{Tree, node, Trees, done, also, IsAttr, IsTree, AreTrees}

unfoldable pub is_writable : Write → Bool
unfolding is_utf8
is_writable (boolean b) = true
is_writable (signed (pos n)) = ltb n (2 ^ 64)
is_writable (signed (negsuc n)) = ltb (suc n) (2 ^ 64)
is_writable (unsigned z) = true
is_writable (string s) = ltb (length s) (2 ^ 64) && is_utf8 s
is_writable (space i) = ltb i (2 ^ 64)
is_writable (special c) = ltb c 16
is_writable (opcode n) = ltb n (2 ^ 64)

unfoldable pub are_attrs : List (ℕ × Write) → Bool
unfolding is_writable
are_attrs [] = true
are_attrs ((id, w) ∷ ws) = (ltb id 4096 && is_writable w) && are_attrs ws

unfoldable mutual
  unfolding are_attrs

  pub is_tree : Tree → Bool
  is_tree (node id ws ts) = ltb id 4096 && (are_attrs ws && are_trees ts)

  pub are_trees : Trees → Bool
  are_trees done = true
  are_trees (also t ts) = is_tree t && are_trees ts

both : (a b : Bool) → (a && b) ≡ true → (a ≡ true) × (b ≡ true)
both true b h = (refl, h)
both false b h = cc

is_writable-IsWritable : (w : Write) → is_writable w ≡ true → IsWritable w
unfolding is_writable
is_writable-IsWritable (boolean b) h = tt
is_writable-IsWritable (signed (pos n)) h = ltb→lt n (2 ^ 64) h
is_writable-IsWritable (signed (negsuc n)) h = ltb→lt (suc n) (2 ^ 64) h
is_writable-IsWritable (unsigned z) h = tt
is_writable-IsWritable (string s) h =
    let (short, utf8) = both (ltb (length s) (2 ^ 64)) (is_utf8 s) h in
    (ltb→lt (length s) (2 ^ 64) short, utf8)
is_writable-IsWritable (space i) h = ltb→lt i (2 ^ 64) h
is_writable-IsWritable (special c) h = ltb→lt c 16 h
is_writable-IsWritable (opcode n) h = ltb→lt n (2 ^ 64) h

are_attrs-IsAttr : (ws : List (ℕ × Write)) → are_attrs ws ≡ true → All IsAttr ws
unfolding are_attrs
are_attrs-IsAttr [] h = tt
are_attrs-IsAttr ((id, w) ∷ ws) h =
    let (head, tail) = both (ltb id 4096 && is_writable w) (are_attrs ws) h in
    let (known, carried) = both (ltb id 4096) (is_writable w) head in
    ((ltb→lt id 4096 known, is_writable-IsWritable w carried), are_attrs-IsAttr ws tail)

mutual
  unfolding is_tree are_trees

  pub is_tree-IsTree : (t : Tree) → is_tree t ≡ true → IsTree t
  is_tree-IsTree (node id ws ts) h =
      let (known, rest) = both (ltb id 4096) (are_attrs ws && are_trees ts) h in
      let (attrs, kids) = both (are_attrs ws) (are_trees ts) rest in
      (ltb→lt id 4096 known, are_attrs-IsAttr ws attrs, are_trees-AreTrees ts kids)

  pub are_trees-AreTrees : (ts : Trees) → are_trees ts ≡ true → AreTrees ts
  are_trees-AreTrees done h = tt
  are_trees-AreTrees (also t ts) h =
      let (head, tail) = both (is_tree t) (are_trees ts) h in
      (is_tree-IsTree t head, are_trees-AreTrees ts tail)
