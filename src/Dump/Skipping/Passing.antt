-- ===== src/Dump/Skipping/Passing.antt =====
-- `skip_to_end` over what the encoder wrote.
use angr_ghidra_core.Prelude.{
  ℕ, zero, suc, ◌+◌, ◌<◌, List, [], ◌∷◌, ◌++◌, append_assoc, length-append, length, All, ◌≡◌, refl,
  ap, ◌∙◌, arith, ==_refl,
}
use mathlib.Core.Path.{subst}
use angr_ghidra_core.Packed.{Bytes}
use angr_ghidra_core.Packed.Decoder.{Decoder, skip_attr, skip_to_end, pop_start}
use angr_ghidra_core.Packed.Groups.{Ahead, Ahead-append}
use angr_ghidra_core.Packed.Wire.{
  Write, IsWritable, IsId, header_bytes, value_bytes, read_id-bytes, header_kind,
  length-header_bytes,
}
use angr_ghidra_core.Packed.Values.{attr_bytes, read_attr-bytes}
use angr_ghidra_core.Packed.Progress.{get_elem?_cases}
use angr_ghidra_core.Dump.Trees.{
  Tree, Trees, node, done, also, IsAttr, IsTree, AreTrees, attrs_bytes, tree_bytes, forest_bytes,
}
use angr_ghidra_core.Dump.Cursor.{Fuels, attr-inside}

pub record Passes (id : ℕ) (d : Decoder) (depth from depth' to : ℕ) : Type 0 where
  pub fuel : ℕ → ℕ
  pub later : (f : ℕ) → Fuels f d.buf from → Fuels (fuel f) d.buf to
  pub same :
      (f : ℕ)
      → Fuels f d.buf from
      → skip_to_end f depth id (record d { at = from })
        ≡ skip_to_end (fuel f) depth' id (record d { at = to })

Passes-refl : (id : ℕ) (d : Decoder) (depth at : ℕ) → Passes id d depth at depth at
Passes-refl id d depth at = record { fuel = λ f. f; later = λ f h. h; same = λ f h. refl }

Passes-trans :
    {id : ℕ} {d : Decoder} {i a j b k c : ℕ}
    → Passes id d i a j b
    → Passes id d j b k c
    → Passes id d i a k c
Passes-trans p q = record {
  fuel = λ f. q.fuel (p.fuel f);
  later = λ f h. q.later (p.fuel f) (p.later f h);
  same = λ f h. p.same f h ∙ q.same (p.fuel f) (p.later f h);
}

pred_fuel : ℕ → ℕ
pred_fuel zero = zero
pred_fuel (suc f) = f

-- A round that moves forward from inside the buffer.
Passes-round :
    {id : ℕ} {d : Decoder} (depth a depth' b : ℕ)
    → a < length d.buf
    → a < b
    → ((f : ℕ)
        → skip_to_end (suc f) depth id (record d { at = a })
          ≡ skip_to_end f depth' id (record d { at = b }))
    → Passes id d depth a depth' b
unfolding pred_fuel
Passes-round {id} {d} depth a depth' b inside moved step = record {
  fuel = pred_fuel;
  later = later';
  same = same';
}
  where
    later' : (f : ℕ) → Fuels f d.buf a → Fuels (pred_fuel f) d.buf b
    later' zero k = absurd (omega arith)
    later' (suc f) k = (omega arith, omega arith)

    same' :
        (f : ℕ)
        → Fuels f d.buf a
        → skip_to_end f depth id (record d { at = a })
          ≡ skip_to_end (pred_fuel f) depth' id (record d { at = b })
    same' zero k = absurd (omega arith)
    same' (suc f) k = step f

module _ (id0 : ℕ) (d : Decoder) where
  skip-attr :
      (f depth id : ℕ) (w : Write) (at : ℕ) (rest : Bytes)
      → IsId id
      → IsWritable w
      → Ahead d.buf at (attr_bytes id w ++ rest)
      → skip_to_end (suc f) depth id0 (record d { at = at })
        ≡ skip_to_end f depth id0 (record d { at = at + length (attr_bytes id w) })
  unfolding skip_to_end skip_attr
  skip-attr f depth id w at rest hi hw h =
      let r = read_attr-bytes id w rest hi hw h in
      let h' : Ahead d.buf at (header_bytes 3 id ++ (value_bytes w ++ rest)) =
        rw (append_assoc (header_bytes 3 id) (value_bytes w) rest) at h in
      let (b, e, kind, first) = header_kind 3 id (value_bytes w ++ rest) (omega arith) hi h' in
      rw (first, skip_to_end, kind, skip_attr, r.0, r.2) refl

  skip_start :
      (f depth id : ℕ) (at : ℕ) (rest : Bytes)
      → IsId id
      → Ahead d.buf at (header_bytes 1 id ++ rest)
      → skip_to_end (suc f) depth id0 (record d { at = at })
        ≡ skip_to_end f (suc depth) id0 (record d { at = at + length (header_bytes 1 id) })
  unfolding skip_to_end
  skip_start f depth id at rest hi h =
      let (b, e, kind, first) = header_kind 1 id rest (omega arith) hi h in
      rw (first, skip_to_end, kind, read_id-bytes 1 id rest (omega arith) hi h)
        (ap (λ (k : ℕ). skip_to_end f k id0 (record d { at = at + length (header_bytes 1 id) }))
          {x = depth + 1} {y = suc depth} (omega arith))

  skip_end :
      (f depth id : ℕ) (at : ℕ) (rest : Bytes)
      → IsId id
      → Ahead d.buf at (header_bytes 2 id ++ rest)
      → skip_to_end (suc f) (suc depth) id0 (record d { at = at })
        ≡ skip_to_end f depth id0 (record d { at = at + length (header_bytes 2 id) })
  unfolding skip_to_end
  skip_end f depth id at rest hi h =
      let (b, e, kind, first) = header_kind 2 id rest (omega arith) hi h in
      rw (first, skip_to_end, kind, read_id-bytes 2 id rest (omega arith) hi h) refl

  skip_last :
      (f : ℕ) (at : ℕ) (rest : Bytes)
      → IsId id0
      → Ahead d.buf at (header_bytes 2 id0 ++ rest)
      → skip_to_end (suc f) 0 id0 (record d { at = at })
        ≡ pop_start (record d { at = at + length (header_bytes 2 id0) })
  unfolding skip_to_end
  skip_last f at rest hi h =
      let (b, e, kind, first) = header_kind 2 id0 rest (omega arith) hi h in
      rw (first, skip_to_end, kind, read_id-bytes 2 id0 rest (omega arith) hi h, ==_refl id0) refl

  pub skip_last_any :
      (f : ℕ) (at : ℕ) (rest : Bytes)
      → 0 < f
      → IsId id0
      → Ahead d.buf at (header_bytes 2 id0 ++ rest)
      → skip_to_end f 0 id0 (record d { at = at })
        ≡ pop_start (record d { at = at + length (header_bytes 2 id0) })
  skip_last_any zero at rest z hi h = absurd (omega arith)
  skip_last_any (suc f) at rest z hi h = skip_last f at rest hi h

  -- A header stands inside the buffer.
  header-inside :
      (c id at : ℕ) (rest : Bytes)
      → c < 4
      → IsId id
      → Ahead d.buf at (header_bytes c id ++ rest)
      → at < length d.buf
  header-inside c id at rest hc hi h =
      let (b, e, kind, first) = header_kind c id rest hc hi h in
      ground (arith, get_elem?_cases d.buf at, e)

  attrs-Passes :
      (ws : List (ℕ × Write)) (depth at : ℕ) (rest : Bytes)
      → All IsAttr ws
      → Ahead d.buf at (attrs_bytes ws ++ rest)
      → Passes id0 d depth at depth (at + length (attrs_bytes ws))
  unfolding attrs_bytes
  attrs-Passes [] depth at rest h k =
      subst (Passes id0 d depth at depth) {x = at} {y = at + 0} (omega arith)
        (Passes-refl id0 d depth at)
  attrs-Passes ((id, w) ∷ ws) depth at rest h k =
      let k' : Ahead d.buf at (attr_bytes id w ++ (attrs_bytes ws ++ rest)) =
        rw (append_assoc (attr_bytes id w) (attrs_bytes ws) rest) at k in
      let (inside, more, long) = attr-inside id w (attrs_bytes ws ++ rest) h.0.0 k' in
      let at' = at + length (attr_bytes id w) in
      let same : at' + length (attrs_bytes ws) ≡ at + length (attr_bytes id w ++ attrs_bytes ws) =
        omega (arith, length-append (attr_bytes id w) (attrs_bytes ws)) in
      subst (Passes id0 d depth at depth) same (
        Passes-trans
          (Passes-round depth at depth at' inside (omega arith)
            (λ f. skip-attr f depth id w at (attrs_bytes ws ++ rest) h.0.0 h.0.1 k'))
          (attrs-Passes ws depth at' rest h.1 (Ahead-append (attr_bytes id w) _ k')))

-- A tree is passed at any depth, and so is a forest.
mutual
  unfolding tree_bytes forest_bytes

  tree-Passes :
      (t : Tree) (id0 : ℕ) (d : Decoder) (depth at : ℕ) (rest : Bytes)
      → IsTree t
      → Ahead d.buf at (tree_bytes t ++ rest)
      → Passes id0 d depth at depth (at + length (tree_bytes t))
  tree-Passes (node id ws ts) id0 d depth at rest (hi, hw, ht) h =
      let h1 : Ahead d.buf at (
          header_bytes 1 id
          ++ (attrs_bytes ws ++ (forest_bytes ts ++ (header_bytes 2 id ++ rest)))) =
        simp append_assoc at h in
      let h2 = Ahead-append (header_bytes 1 id) _ h1 in
      let h3 = Ahead-append (attrs_bytes ws) _ h2 in
      let h4 = Ahead-append (forest_bytes ts) _ h3 in
      let a1 = at + length (header_bytes 1 id) in
      let a2 = a1 + length (attrs_bytes ws) in
      let a3 = a2 + length (forest_bytes ts) in
      let a4 = a3 + length (header_bytes 2 id) in
      let start =
        Passes-round {id = id0} {d = d} depth at (suc depth) a1
          (header-inside id0 d 1 id at _ (omega arith) hi h1)
          (omega (arith, length-header_bytes 1 id)) (λ f. skip_start id0 d f depth id at _ hi h1) in
      let end =
        Passes-round {id = id0} {d = d} (suc depth) a3 depth a4
          (header-inside id0 d 2 id a3 rest (omega arith) hi h4)
          (omega (arith, length-header_bytes 2 id))
          (λ f. skip_end id0 d f depth id a3 rest hi h4) in
      subst (Passes id0 d depth at depth) {x = a4} (simp length-append (omega arith)) (
        Passes-trans start (
          Passes-trans (attrs-Passes id0 d ws (suc depth) a1 _ hw h2)
            (Passes-trans (forest-Passes ts id0 d (suc depth) a2 _ ht h3) end)))

  pub forest-Passes :
      (ts : Trees) (id0 : ℕ) (d : Decoder) (depth at : ℕ) (rest : Bytes)
      → AreTrees ts
      → Ahead d.buf at (forest_bytes ts ++ rest)
      → Passes id0 d depth at depth (at + length (forest_bytes ts))
  forest-Passes done id0 d depth at rest h k =
      subst (Passes id0 d depth at depth) {x = at} {y = at + 0} (omega arith)
        (Passes-refl id0 d depth at)
  forest-Passes (also t ts) id0 d depth at rest (h, hs) k =
      let k' : Ahead d.buf at (tree_bytes t ++ (forest_bytes ts ++ rest)) =
        rw (append_assoc (tree_bytes t) (forest_bytes ts) rest) at k in
      let at' = at + length (tree_bytes t) in
      subst (Passes id0 d depth at depth) {x = at' + length (forest_bytes ts)}
        (omega (arith, length-append (tree_bytes t) (forest_bytes ts)))
        (Passes-trans (tree-Passes t id0 d depth at _ h k')
          (forest-Passes ts id0 d depth at' rest hs (Ahead-append (tree_bytes t) _ k')))
