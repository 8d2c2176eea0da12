-- ===== src/Pcode/Sharing.antt =====
-- core/pcode.py: `ops_by_block`, over all blocks of a translation.
use angr_ghidra_core.Prelude.{
  ℕ, zero, suc, ◌+◌, ◌-◌, ◌≤◌, ◌<◌, ◌≡◌, refl, sym, ap, ap₂, ◌∙◌, false, ◌==◌, ==_refl, List, [],
  ◌∷◌, ◌++◌, Option, none, some, append-nil, append_assoc, Option-cases, inl, inr, All, arith, map,
}
use mathlib.Core.Path.{subst}
use angr_ghidra_core.Prelude.Dicts.{get, put}
use angr_ghidra_core.Prelude.Result.{ok}
use angr_ghidra_core.Pcode.{Op, Block, Translator, new_translator}
use angr_ghidra_core.Pcode.Ail.{AilGraph}
use angr_ghidra_core.Pcode.State.{Step, Lookup, ◌>>=◌, pure, ops_by_block, index_by_time, at_times}
use angr_ghidra_core.Pcode.Graph.{range_from, translate}
use angr_ghidra_core.Pcode.Invariant.{Timed}
use angr_ghidra_core.Pcode.Blocks.{times_of, IsShared}
use angr_ghidra_core.Pcode.Translated.{Joins, translate-IsShared}

-- The operations of the blocks, asked for one block after the other.
unfoldable pub ops_of_blocks : List Block → Step (List Op)
unfolding ◌>>=◌ pure ops_by_block
ops_of_blocks [] = pure []
ops_of_blocks (b ∷ bs) = do ops ← ops_by_block b; rest ← ops_of_blocks bs; pure (ops ++ rest)

at_times-append :
    (d : List (ℕ × Op)) (ts us : List ℕ) → at_times d (ts ++ us) ≡ at_times d ts ++ at_times d us
unfolding at_times
at_times-append d [] us = refl
at_times-append d (t ∷ ts) us = elim (Option-cases (get ◌==◌ t d)) [
  | inl missing ↦ rw (missing, at_times) (at_times-append d ts us)
  | inr (op, found) ↦ rw (found, at_times) (ap (λ ops. op ∷ ops) (at_times-append d ts us))
]

ops_by_block_cached :
    (b : Block) (t : Translator) (d : List (ℕ × Op))
    → t.ops_by_time ≡ some d
    → ops_by_block b t ≡ (at_times d b.op_times, t)
unfolding ops_by_block
ops_by_block_cached b t d h =
    ap
      (λ (o : Option (List (ℕ × Op))). elim o [
        | some index ↦ (at_times index b.op_times, t)
        | none ↦
            let index = index_by_time t.ops [] in
            (at_times index b.op_times, record t { ops_by_time = some index })
      ])
      h

ops_by_block_first :
    (b : Block) (t : Translator)
    → t.ops_by_time ≡ none
    → ops_by_block b t ≡ (
      at_times (index_by_time t.ops []) b.op_times,
      record t { ops_by_time = some (index_by_time t.ops []) },
    )
unfolding ops_by_block
ops_by_block_first b t h =
    ap
      (λ (o : Option (List (ℕ × Op))). elim o [
        | some index ↦ (at_times index b.op_times, t)
        | none ↦
            let index = index_by_time t.ops [] in
            (at_times index b.op_times, record t { ops_by_time = some index })
      ])
      h

-- The first call fills the cache, and the later ones read it.
ops_of_blocks_cached :
    (bs : List Block) (t : Translator) (d : List (ℕ × Op))
    → t.ops_by_time ≡ some d
    → (ops_of_blocks bs t).0 ≡ at_times d (times_of bs)
unfolding ops_of_blocks times_of ops_by_block at_times ◌>>=◌ pure
ops_of_blocks_cached [] t d h = refl
ops_of_blocks_cached (b ∷ bs) t d h = rw (ops_by_block_cached b t d h) (
    ap (λ ops. at_times d b.op_times ++ ops) (ops_of_blocks_cached bs t d h)
    ∙ sym (at_times-append d b.op_times (times_of bs)))

ops_of_blocks_first :
    (bs : List Block) (t : Translator)
    → t.ops_by_time ≡ none
    → (ops_of_blocks bs t).0 ≡ at_times (index_by_time t.ops []) (times_of bs)
unfolding ops_of_blocks times_of ops_by_block at_times ◌>>=◌ pure
ops_of_blocks_first [] t h = refl
ops_of_blocks_first (b ∷ bs) t h = rw (ops_by_block_first b t h) (
    ap (λ ops. at_times (index_by_time t.ops []) b.op_times ++ ops)
      (ops_of_blocks_cached bs _ (index_by_time t.ops []) refl)
    ∙ sym (at_times-append (index_by_time t.ops []) b.op_times (times_of bs)))

-- No entry of a dict has a time from `from` on.
abbrev AllBelow : ℕ → List (ℕ × Op) → Type 0
AllBelow from d = All (λ (e : ℕ × Op). e.0 < from) d

AllBelow-suc :
    (from : ℕ) (op : Op) (d : List (ℕ × Op))
    → AllBelow from d
    → AllBelow (from + 1) (d ++ (from, op) ∷ [])
AllBelow-suc from op [] h = (omega arith, tt)
AllBelow-suc from op (e ∷ d) h = (omega arith, AllBelow-suc from op d h.1)

put-new :
    (from : ℕ) (op : Op) (d : List (ℕ × Op))
    → AllBelow from d
    → put ◌==◌ from op d ≡ d ++ (from, op) ∷ []
unfolding put
put-new from op [] h = refl
put-new from op ((j, o) ∷ d) h =
    let other : (j == from) ≡ false = ground arith in
    rw other (ap (λ r. (j, o) ∷ r) (put-new from op d h.1))

get-new :
    (from : ℕ) (op : Op) (d e : List (ℕ × Op))
    → AllBelow from d
    → get ◌==◌ from (d ++ (from, op) ∷ e) ≡ some op
unfolding get
get-new from op [] e h = rw (==_refl from)
get-new from op ((j, o) ∷ d) e h =
    let other : (j == from) ≡ false = ground arith in rw other (get-new from op d e h.1)

abbrev by_time : Op → ℕ × Op
by_time op = (op.time, op)

index_by_time-Timed :
    (from next : ℕ) (ops : List Op) (d : List (ℕ × Op))
    → Timed from ops next
    → AllBelow from d
    → index_by_time ops d ≡ d ++ map by_time ops
unfolding index_by_time
index_by_time-Timed from next [] d h b = sym (append-nil d)
index_by_time-Timed from next (op ∷ ops) d h b =
    let below = subst (λ (n : ℕ). AllBelow n d) (sym h.0) b in
    let still =
      subst (λ (n : ℕ). AllBelow n (d ++ by_time op ∷ [])) (ap (λ n. n + 1) h.0)
        (AllBelow-suc op.time op d below) in
    ap (index_by_time ops) (put-new op.time op d below)
    ∙ index_by_time-Timed (from + 1) next ops (d ++ by_time op ∷ []) h.1 still
    ∙ append_assoc d (by_time op ∷ []) (map by_time ops)

Timed-le : (from next : ℕ) (ops : List Op) → Timed from ops next → from ≤ next
Timed-le from next [] h = omega arith
Timed-le from next (op ∷ ops) h = omega (arith, Timed-le (from + 1) next ops h.1)

range_from-cons :
    (from next : ℕ)
    → from + 1 ≤ next
    → range_from from (next - from) ≡ from ∷ range_from (from + 1) (next - (from + 1))
unfolding range_from
range_from-cons from next h = ap (range_from from) {y = suc (next - (from + 1))} (omega arith)

at_times-found :
    (from : ℕ) (op : Op) (d : List (ℕ × Op)) (ts : List ℕ)
    → get ◌==◌ from d ≡ some op
    → at_times d (from ∷ ts) ≡ op ∷ at_times d ts
unfolding at_times
at_times-found from op d ts found = rw (found, at_times)

at_times-range_from :
    (from next : ℕ) (ops : List Op) (d : List (ℕ × Op))
    → Timed from ops next
    → AllBelow from d
    → at_times (d ++ map by_time ops) (range_from from (next - from)) ≡ ops
unfolding range_from at_times
at_times-range_from from next [] d h b =
    ap (λ (n : ℕ). at_times (d ++ []) (range_from from n)) {y = zero} (omega arith)
at_times-range_from from next (op ∷ ops) d h b =
    let below = subst (λ (n : ℕ). AllBelow n d) (sym h.0) b in
    let still =
      subst (λ (n : ℕ). AllBelow n (d ++ by_time op ∷ [])) (ap (λ n. n + 1) h.0)
        (AllBelow-suc op.time op d below) in
    let found : get ◌==◌ from (d ++ by_time op ∷ map by_time ops) ≡ some op =
      subst (λ (n : ℕ). get ◌==◌ n (d ++ by_time op ∷ map by_time ops) ≡ some op) h.0
        (get-new op.time op d (map by_time ops) below) in
    ap (at_times (d ++ by_time op ∷ map by_time ops))
      (range_from-cons from next (Timed-le (from + 1) next ops h.1))
    ∙ at_times-found from op (d ++ by_time op ∷ map by_time ops)
        (range_from (from + 1) (next - (from + 1))) found
    ∙ ap (λ e. op ∷ at_times e (range_from (from + 1) (next - (from + 1))))
        (sym (append_assoc d (by_time op ∷ []) (map by_time ops)))
    ∙ ap (λ os. op ∷ os) (at_times-range_from (from + 1) next ops (d ++ by_time op ∷ []) h.1 still)

ops_of_blocks-IsShared : (t : Translator) → IsShared t → (ops_of_blocks t.blocks t).0 ≡ t.ops
ops_of_blocks-IsShared t s =
    ops_of_blocks_first t.blocks t s.no_index
    ∙ ap₂ at_times (index_by_time-Timed 1 t.next_time t.ops [] s.valid.timed tt) s.shared
    ∙ at_times-range_from 1 t.next_time t.ops [] s.valid.timed tt

-- The blocks of a translation share out its operations. Where the edges of the graph join nodes of
-- it, `translate` returns, and `ops_by_block`, asked for one block after the other, returns all
-- operations, each once and in the order in which they were made.
pub ops_of_blocks-translate :
    (reg_lookup : Lookup) (graph : AilGraph)
    → Joins graph.nodes graph.edges
    → (t : Translator) × (translate reg_lookup graph new_translator ≡ ok t)
      × ((ops_of_blocks t.blocks t).0 ≡ t.ops)
ops_of_blocks-translate reg_lookup graph joins =
    let (t, done, shared) = translate-IsShared reg_lookup graph joins in
    (t, done, ops_of_blocks-IsShared t shared)
