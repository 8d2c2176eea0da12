-- ===== src/Pcode/Translated.antt =====
-- core/pcode.py: what `translate` returns for a graph, and the operations of its blocks.
use angr_ghidra_core.Prelude.{
  ℕ, ◌+◌, ◌<◌, ◌≡◌, refl, sym, ap, ◌∙◌, Bool, true, false, ◌||◌, ◌==◌, List, [], ◌∷◌, some, length,
  All, arith, inl, inr, Bool-cases,
}
use angr_ghidra_core.Prelude.Dicts.{get, put}
use angr_ghidra_core.Prelude.Result.{ok}
use angr_ghidra_core.Pcode.{Block, Translator, new_translator}
use angr_ghidra_core.Pcode.Ail.{AilBlock, AilGraph}
use angr_ghidra_core.Pcode.State.{Lookup}
use angr_ghidra_core.Pcode.Graph.{
  add_blocks, append_edge, index_at, count_at, add_edges, translate, sort_blocks, insert_block,
  index_blocks, is_before,
}
use angr_ghidra_core.Pcode.Blocks.{
  times_of, IsShared, new_translator-IsShared, with_blocks-IsValid, add_blocks-IsShared,
  length-add_blocks, append_edge_kept,
}

-- A node of the graph has the identity.
unfoldable pub has_node : ℕ → List AilBlock → Bool
has_node ident [] = false
has_node ident (b ∷ bs) = b.ident == ident || has_node ident bs

or_swap : (a b c : Bool) → (a || (b || c)) ≡ (b || (a || c))
or_swap true true c = refl
or_swap true false c = refl
or_swap false b c = refl

has_node-insert_block :
    (ident : ℕ) (b : AilBlock) (bs : List AilBlock)
    → has_node ident (insert_block b bs) ≡ (b.ident == ident || has_node ident bs)
unfolding has_node insert_block
has_node-insert_block ident b [] = refl
has_node-insert_block ident b (c ∷ cs) = elim (Bool-cases (is_before b c)) [
  | inl first ↦ rw first
  | inr later ↦ rw later (
      ap (λ r. c.ident == ident || r) (has_node-insert_block ident b cs)
      ∙ or_swap (c.ident == ident) (b.ident == ident) (has_node ident cs))
]

or_false : (a : Bool) → (a || false) ≡ a
or_false true = refl
or_false false = refl

or_comm : (a b c : Bool) → ((b || a) || c) ≡ (a || (b || c))
or_comm true true c = refl
or_comm true false c = refl
or_comm false true c = refl
or_comm false false c = refl

has_node-sort_blocks :
    (ident : ℕ) (sorted bs : List AilBlock)
    → has_node ident (sort_blocks sorted bs) ≡ (has_node ident sorted || has_node ident bs)
unfolding sort_blocks has_node
has_node-sort_blocks ident sorted [] = sym (or_false (has_node ident sorted))
has_node-sort_blocks ident sorted (b ∷ bs) =
    has_node-sort_blocks ident (insert_block b sorted) bs
    ∙ ap (λ r. r || has_node ident bs) (has_node-insert_block ident b sorted)
    ∙ or_comm (has_node ident sorted) (b.ident == ident) (has_node ident bs)

-- The place of a node that is there.
get-index_blocks :
    (ident i : ℕ) (bs : List AilBlock)
    → has_node ident bs ≡ true
    → (j : ℕ) × (get ◌==◌ ident (index_blocks bs i) ≡ some j) × (j < i + length bs)
unfolding get index_blocks has_node
get-index_blocks ident i [] h = cc
get-index_blocks ident i (b ∷ bs) h = elim (Bool-cases (b.ident == ident)) [
  | inl here ↦ (i, rw here, omega arith)
  | inr there ↦
      let (j, found, below) = get-index_blocks ident (i + 1) bs (rw there at h) in
      (j, rw there found, omega arith)
]

abbrev pub Joins : List AilBlock → List (ℕ × ℕ) → Type 0
Joins nodes edges =
    All (λ (e : ℕ × ℕ). (has_node e.0 nodes ≡ true) × (has_node e.1 nodes ≡ true)) edges

step_edge :
    (index edges out_count : List (ℕ × ℕ)) (bs cs : List Block) (src dst si di : ℕ)
    → get ◌==◌ src index ≡ some si
    → get ◌==◌ dst index ≡ some di
    → append_edge di (si, count_at out_count si) bs ≡ ok cs
    → add_edges index ((src, dst) ∷ edges) out_count bs
      ≡ add_edges index edges (put ◌==◌ si (count_at out_count si + 1) out_count) cs
unfolding add_edges
step_edge index edges out_count bs cs src dst si di at_src at_dst added =
    rw (add_edges, index_at, at_src, at_dst, added)

add_edges_total :
    (nodes : List AilBlock) (edges out_count : List (ℕ × ℕ)) (bs : List Block)
    → Joins nodes edges
    → length nodes ≡ length bs
    → (cs : List Block) × (add_edges (index_blocks nodes 0) edges out_count bs ≡ ok cs)
      × (times_of cs ≡ times_of bs)
unfolding add_edges
add_edges_total nodes [] out_count bs h e = (bs, refl, refl)
add_edges_total nodes ((src, dst) ∷ edges) out_count bs h e =
    let (si, at_src, _) = get-index_blocks src 0 nodes h.0.0 in
    let (di, at_dst, below) = get-index_blocks dst 0 nodes h.0.1 in
    let (cs, added, same, long) =
      append_edge_kept di (si, count_at out_count si) bs (omega arith) in
    let (ds, rest, kept) =
      add_edges_total nodes edges (put ◌==◌ si (count_at out_count si + 1) out_count) cs h.1
        (omega arith) in
    (
      ds,
      step_edge (index_blocks nodes 0) edges out_count bs cs src dst si di at_src at_dst added
          ∙ rest,
      kept ∙ same,
    )

Joins-sort_blocks :
    (nodes : List AilBlock) (edges : List (ℕ × ℕ))
    → Joins nodes edges
    → Joins (sort_blocks [] nodes) edges
unfolding has_node
Joins-sort_blocks nodes [] h = tt
Joins-sort_blocks nodes ((src, dst) ∷ edges) h = (
  (has_node-sort_blocks src [] nodes ∙ h.0.0, has_node-sort_blocks dst [] nodes ∙ h.0.1),
  Joins-sort_blocks nodes edges h.1,
)

-- The edges and the blocks of a translation.
with_blocks-IsShared :
    (t : Translator) (cs : List Block)
    → IsShared t
    → times_of cs ≡ times_of t.blocks
    → IsShared (record t { blocks = cs })
with_blocks-IsShared t cs s same = record {
  valid = with_blocks-IsValid cs t s.valid;
  begun = s.begun;
  shared = same ∙ s.shared;
  no_index = s.no_index;
}

-- Whatever AIL graph is given, if its edges join nodes of it, `translate` raises nothing. The refs of
-- the varnodes are 0x300 and on and the times of the operations 1 and on, in order and each once; no
-- two temporaries overlap; every operation reads and writes varnodes that exist; and the
-- representatives and members of a storage location are varnodes that lie there. The blocks list
-- every time that was given once, in order.
pub translate-IsShared :
    (reg_lookup : Lookup) (graph : AilGraph)
    → Joins graph.nodes graph.edges
    → (t : Translator) × (translate reg_lookup graph new_translator ≡ ok t) × IsShared t
unfolding translate
translate-IsShared reg_lookup graph joins =
    let nodes = sort_blocks [] graph.nodes in
    let s = add_blocks-IsShared reg_lookup 0 nodes new_translator new_translator-IsShared in
    let (cs, added, same) =
      add_edges_total nodes graph.edges [] (add_blocks reg_lookup 0 nodes new_translator).blocks
        (Joins-sort_blocks graph.nodes graph.edges joins)
        (omega (
          arith,
          length-add_blocks reg_lookup 0 nodes new_translator new_translator-IsShared.valid,
        )) in
    (
      record (add_blocks reg_lookup 0 nodes new_translator) { blocks = cs },
      rw added,
      with_blocks-IsShared (add_blocks reg_lookup 0 nodes new_translator) cs s same,
    )
