-- ===== src/Pcode/Graph.antt =====
-- core/pcode.py: `translate`, over the blocks of an AIL graph in the order of their addresses.
use angr_ghidra_core.Prelude.{
  ℕ, zero, suc, ◌+◌, ◌-◌, max, Bool, List, [], ◌∷◌, ◌++◌, Option, none, some, ltb, ◌==◌,
  if◌then◌else◌, ◌&&◌, ◌||◌,
}
use angr_ghidra_core.Prelude.Dicts.{get, put}
use angr_ghidra_core.Prelude.Result.{Result, ok, err, key_error, index_error, ◌>>=◌}
use angr_ghidra_core.Pcode.{Block, Translator}
use angr_ghidra_core.Pcode.Ail.{
  Statement, assignment, store, conditional_jump, jump, ret, call_statement, ignored, AilBlock,
  AilGraph,
}
use angr_ghidra_core.Pcode.State.{Step, Lookup}
use angr_ghidra_core.Pcode.Expressions.{stmt}

-- `_ins_addr` of a statement.
abbrev pub ins_addr_of : Statement → ℕ
ins_addr_of (assignment a _ _) = a
ins_addr_of (store a _ _) = a
ins_addr_of (conditional_jump a _) = a
ins_addr_of (jump a) = a
ins_addr_of (ret a _) = a
ins_addr_of (call_statement a _ _) = a
ins_addr_of (ignored a) = a

-- `sorted(nodes, key=(addr, idx or 0))`, which keeps the order of equal keys.
abbrev idx_or_zero : Option ℕ → ℕ
idx_or_zero none = 0
idx_or_zero (some i) = i

unfoldable pub is_before : AilBlock → AilBlock → Bool
is_before a b =
    ltb a.addr b.addr || (a.addr == b.addr && ltb (idx_or_zero a.idx) (idx_or_zero b.idx))

unfoldable pub insert_block : AilBlock → List AilBlock → List AilBlock
unfolding is_before
insert_block b [] = b ∷ []
insert_block b (c ∷ cs) = if is_before b c then b ∷ c ∷ cs else c ∷ insert_block b cs

unfoldable pub sort_blocks : List AilBlock → List AilBlock → List AilBlock
unfolding insert_block
sort_blocks sorted [] = sorted
sort_blocks sorted (b ∷ bs) = sort_blocks (insert_block b sorted) bs

-- `index_of`
unfoldable pub index_blocks : List AilBlock → ℕ → List (ℕ × ℕ)
index_blocks [] i = []
index_blocks (b ∷ bs) i = (b.ident, i) ∷ index_blocks bs (i + 1)

-- `list(range(first, first + n))`
unfoldable pub range_from : ℕ → ℕ → List ℕ
range_from first zero = []
range_from first (suc n) = first ∷ range_from (first + 1) n

module _ (reg_lookup : Lookup) where
  -- The loop over the statements of a block, with its `addr_last`.
  unfoldable pub stmts : List Statement → ℕ → Step ℕ
  unfolding stmt
  stmts [] addr_last t = (addr_last, t)
  stmts (st ∷ sts) addr_last t =
      stmts sts (if ins_addr_of st == 0 then addr_last else max addr_last (ins_addr_of st))
        (stmt reg_lookup st t).1

  abbrev pub block_of : ℕ → AilBlock → ℕ → ℕ → ℕ → Block
  block_of i blk addr_last first_time next_time = record {
    index = i;
    addr = blk.addr;
    addr_last = addr_last;
    op_times = range_from first_time (next_time - first_time);
    in_edges = [];
  }

  unfoldable pub add_block : ℕ → AilBlock → Translator → Translator
  unfolding stmts range_from
  add_block i blk t =
      let (addr_last, t') = stmts blk.statements blk.addr t in
      record t' { blocks = t'.blocks ++ block_of i blk addr_last t.next_time t'.next_time ∷ [] }

  unfoldable pub add_blocks : ℕ → List AilBlock → Translator → Translator
  unfolding add_block
  add_blocks i [] t = t
  add_blocks i (b ∷ bs) t = add_blocks (i + 1) bs (add_block i b t)

-- `blocks[di].in_edges.append(edge)`
unfoldable pub append_edge : ℕ → ℕ × ℕ → List Block → Result (List Block)
append_edge di edge [] = err index_error
append_edge zero edge (b ∷ bs) = ok (record b { in_edges = b.in_edges ++ edge ∷ [] } ∷ bs)
append_edge (suc di) edge (b ∷ bs) = elim (append_edge di edge bs) [
  | ok bs' ↦ ok (b ∷ bs')
  | err e ↦ err e
]

abbrev pub index_at : List (ℕ × ℕ) → ℕ → Result ℕ
index_at index ident = elim (get ◌==◌ ident index) [ some i ↦ ok i | none ↦ err key_error ]

abbrev pub count_at : List (ℕ × ℕ) → ℕ → ℕ
count_at out_count si = elim (get ◌==◌ si out_count) [ some n ↦ n | none ↦ 0 ]

-- The loop over the edges, with `out_count`.
unfoldable pub add_edges :
    List (ℕ × ℕ) → List (ℕ × ℕ) → List (ℕ × ℕ) → List Block → Result (List Block)
unfolding get put append_edge
add_edges index [] out_count blocks = ok blocks
add_edges index ((src, dst) ∷ edges) out_count blocks = do
  si ← index_at index src
  di ← index_at index dst
  blocks' ← append_edge di (si, count_at out_count si) blocks
  add_edges index edges (put ◌==◌ si (count_at out_count si + 1) out_count) blocks'

unfoldable pub translate : Lookup → AilGraph → Translator → Result Translator
unfolding sort_blocks index_blocks add_blocks add_edges
translate reg_lookup graph t =
    let blocks = sort_blocks [] graph.nodes in
    let t' = add_blocks reg_lookup 0 blocks t in
    (do
      blocks' ← add_edges (index_blocks blocks 0) graph.edges [] t'.blocks
      ok (record t' { blocks = blocks' }))
