-- ===== src/Dump/NonZero.antt =====
-- What the encoder writes for a tree holds no zero byte.
use angr_ghidra_core.Prelude.{ℕ, List, [], ◌∷◌, All, All-append, ◌≡◌, arith}
use angr_ghidra_core.Prelude.Result.{ok}
use angr_ghidra_core.Packed.{Bytes}
use angr_ghidra_core.Packed.Wire.{Write, header_bytes}
use angr_ghidra_core.Packed.Values.{attr_bytes}
use angr_ghidra_core.Packed.NonZero.{
  IsPayload, IsPayloadByte, IsZeroFree, header_bytes-IsPayload, attr_bytes-IsPayload,
}
use angr_ghidra_core.Dump.Trees.{
  Tree, Trees, node, done, also, IsAttr, IsTree, AreTrees, attrs_bytes, tree_bytes, forest_bytes,
  emit_all, emit_all-bytes,
}

abbrev mutual
  pub IsZeroFreeTree : Tree → Type 0
  IsZeroFreeTree (node id ws ts) = All (λ a. IsZeroFree a.1) ws × AreZeroFree ts

  pub AreZeroFree : Trees → Type 0
  AreZeroFree done = Unit
  AreZeroFree (also t ts) = IsZeroFreeTree t × AreZeroFree ts

attrs_bytes-IsPayload :
    (ws : List (ℕ × Write))
    → All IsAttr ws
    → All (λ a. IsZeroFree a.1) ws
    → IsPayload (attrs_bytes ws)
unfolding attrs_bytes
attrs_bytes-IsPayload [] h z = tt
attrs_bytes-IsPayload ((id, w) ∷ ws) h z =
    All-append IsPayloadByte (attr_bytes id w) (attrs_bytes ws)
      (attr_bytes-IsPayload id w h.0.0 h.0.1 z.0) (attrs_bytes-IsPayload ws h.1 z.1)

mutual
  unfolding tree_bytes forest_bytes

  tree_bytes-IsPayload : (t : Tree) → IsTree t → IsZeroFreeTree t → IsPayload (tree_bytes t)
  tree_bytes-IsPayload (node id ws ts) (hi, hw, ht) (zw, zt) =
      All-append IsPayloadByte (header_bytes 1 id) _
        (header_bytes-IsPayload 1 id (omega arith) (omega arith) hi)
        (All-append IsPayloadByte (attrs_bytes ws) _ (attrs_bytes-IsPayload ws hw zw) (
          All-append IsPayloadByte (forest_bytes ts) (header_bytes 2 id)
            (forest_bytes-IsPayload ts ht zt)
            (header_bytes-IsPayload 2 id (omega arith) (omega arith) hi)))

  pub forest_bytes-IsPayload :
      (ts : Trees) → AreTrees ts → AreZeroFree ts → IsPayload (forest_bytes ts)
  forest_bytes-IsPayload done h z = tt
  forest_bytes-IsPayload (also t ts) (h, hs) (z, zs) =
      All-append IsPayloadByte (tree_bytes t) (forest_bytes ts) (tree_bytes-IsPayload t h z)
        (forest_bytes-IsPayload ts hs zs)

-- For ids and arguments that the encoding can carry, and strings without a zero byte, every byte
-- that the encoder writes for a forest lies between 1 and 255.
pub emit_all-IsPayload :
    (ts : Trees) (bs : Bytes) → AreTrees ts → AreZeroFree ts → emit_all ts [] ≡ ok bs → IsPayload bs
emit_all-IsPayload ts bs h z e =
    let same : forest_bytes ts ≡ bs = cc (e, emit_all-bytes ts [] h) in
    rw same at (forest_bytes-IsPayload ts h z)
