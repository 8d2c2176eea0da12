-- ===== src/Pcode/Blocks.antt =====
-- core/pcode.py: `translate` keeps the invariant of PcodeTranslator, and the blocks share out its
-- operations.
use angr_ghidra_core.Prelude.{
  ℕ, zero, suc, ◌+◌, ◌-◌, ◌≤◌, ◌<◌, ◌≡◌, refl, sym, ap, ap₂, ◌∙◌, ◌==◌, List, [], ◌∷◌, ◌++◌, none,
  append-nil, append_assoc, length, length-append, arith, max, if◌then◌else◌,
}
use angr_ghidra_core.Prelude.Result.{ok}
use angr_ghidra_core.Pcode.{Block, Translator, new_translator}
use angr_ghidra_core.Pcode.Ail.{Statement, AilBlock}
use angr_ghidra_core.Pcode.State.{Lookup}
use angr_ghidra_core.Pcode.Expressions.{stmt}
use angr_ghidra_core.Pcode.Graph.{
  ins_addr_of, range_from, stmts, block_of, add_block, add_blocks, append_edge,
}
use angr_ghidra_core.Pcode.Invariant.{IsValid, Later, Later-refl, Later-trans}
use angr_ghidra_core.Pcode.Lowered.{stmt-Keeps}

-- The times that the blocks list, one block behind the other.
unfoldable pub times_of : List Block → List ℕ
times_of [] = []
times_of (b ∷ bs) = b.op_times ++ times_of bs

pub times_of-append : (bs cs : List Block) → times_of (bs ++ cs) ≡ times_of bs ++ times_of cs
unfolding times_of
times_of-append [] cs = refl
times_of-append (b ∷ bs) cs =
    ap (λ ts. b.op_times ++ ts) (times_of-append bs cs)
    ∙ sym (append_assoc b.op_times (times_of bs) (times_of cs))

range_from-append :
    (m n first : ℕ) → range_from first m ++ range_from (first + m) n ≡ range_from first (m + n)
unfolding range_from
range_from-append zero n first = ap₂ range_from {x = first + 0} (omega arith) (omega arith)
range_from-append (suc m) n first =
    ap (λ ts. first ∷ ts)
      (ap (λ (k : ℕ). range_from (first + 1) m ++ range_from k n) {x = first + suc m} (omega arith)
        ∙ range_from-append m n (first + 1))
    ∙ ap (range_from first) {x = suc (m + n)} (omega arith)

-- Every time that was given belongs to one block, in order.
pub record IsShared (t : Translator) : Type 0 where
  pub valid : IsValid t
  pub begun : 1 ≤ t.next_time
  pub shared : times_of t.blocks ≡ range_from 1 (t.next_time - 1)
  pub no_index : t.ops_by_time ≡ none

pub new_translator-IsShared : IsShared new_translator
unfolding times_of range_from
new_translator-IsShared = record {
  valid = record {
    numbered = refl;
    timed = refl;
    laid_out = refl;
    indexed = refl;
    closed = tt;
    vvars = tt;
    stack_reps = tt;
    reg_reps = tt;
    stack_lists = tt;
    reg_lists = tt;
  };
  begun = omega arith;
  shared = refl;
  no_index = refl;
}

-- The blocks are no part of the invariant.
pub with_blocks-IsValid :
    (bs : List Block) (t : Translator) → IsValid t → IsValid (record t { blocks = bs })
with_blocks-IsValid bs t v = record {
  numbered = v.numbered;
  timed = v.timed;
  laid_out = v.laid_out;
  indexed = v.indexed;
  closed = v.closed;
  vvars = v.vvars;
  stack_reps = v.stack_reps;
  reg_reps = v.reg_reps;
  stack_lists = v.stack_lists;
  reg_lists = v.reg_lists;
}

-- A block with the times from `m` to `n` goes behind blocks with the times up to `m`.
times_of-snoc :
    (bs : List Block) (b : Block) (m n : ℕ)
    → 1 ≤ m
    → m ≤ n
    → times_of bs ≡ range_from 1 (m - 1)
    → b.op_times ≡ range_from m (n - m)
    → times_of (bs ++ b ∷ []) ≡ range_from 1 (n - 1)
unfolding times_of
times_of-snoc bs b m n h g shared own =
    times_of-append bs (b ∷ [])
    ∙ ap₂ ◌++◌ shared (append-nil b.op_times ∙ own)
    ∙ ap (λ (k : ℕ). range_from 1 (m - 1) ++ range_from k (n - m)) {x = m} (omega arith)
    ∙ range_from-append (m - 1) (n - m) 1
    ∙ ap (range_from 1) {x = m - 1 + (n - m)} (omega arith)

module _ (reg_lookup : Lookup) where
  stmts_kept :
      (sts : List Statement) (addr_last : ℕ) (t : Translator)
      → IsValid t
      → IsValid (stmts reg_lookup sts addr_last t).1 × Later t (stmts reg_lookup sts addr_last t).1
  unfolding stmts
  stmts_kept [] addr_last t v = (v, Later-refl t)
  stmts_kept (st ∷ sts) addr_last t v =
      let (v', l, _) = (stmt-Keeps reg_lookup st 0).run t v (omega arith) in
      let (v'', l') =
        stmts_kept sts (if ins_addr_of st == 0 then addr_last else max addr_last (ins_addr_of st))
          (stmt reg_lookup st t).1 v' in
      (v'', Later-trans t (stmt reg_lookup st t).1 _ l l')

  add_block-IsShared :
      (i : ℕ) (b : AilBlock) (t : Translator) → IsShared t → IsShared (add_block reg_lookup i b t)
  unfolding add_block
  add_block-IsShared i b t s =
      let (v, l) = stmts_kept b.statements b.addr t s.valid in
      let t' : Translator = (stmts reg_lookup b.statements b.addr t).1 in
      record {
        valid = with_blocks-IsValid _ t' v;
        begun = omega (arith, s.begun, l.more_times);
        shared =
            times_of-snoc t'.blocks
              (block_of reg_lookup i b (stmts reg_lookup b.statements b.addr t).0 t.next_time
                t'.next_time)
              t.next_time t'.next_time s.begun l.more_times (ap times_of l.same_blocks ∙ s.shared)
              refl;
        no_index = l.same_index ∙ s.no_index;
      }

  pub add_blocks-IsShared :
      (i : ℕ) (bs : List AilBlock) (t : Translator)
      → IsShared t
      → IsShared (add_blocks reg_lookup i bs t)
  unfolding add_blocks
  add_blocks-IsShared i [] t s = s
  add_blocks-IsShared i (b ∷ bs) t s =
      add_blocks-IsShared (i + 1) bs (add_block reg_lookup i b t) (add_block-IsShared i b t s)

  -- Each node gives a block.
  pub length-add_blocks :
      (i : ℕ) (bs : List AilBlock) (t : Translator)
      → IsValid t
      → length (add_blocks reg_lookup i bs t).blocks ≡ length t.blocks + length bs
  unfolding add_blocks add_block
  length-add_blocks i [] t v = omega arith
  length-add_blocks i (b ∷ bs) t v =
      let (v', l) = stmts_kept b.statements b.addr t v in
      omega (
        arith,
        length-add_blocks (i + 1) bs (add_block reg_lookup i b t) (with_blocks-IsValid _ _ v'),
        length-append (stmts reg_lookup b.statements b.addr t).1.blocks (
            block_of reg_lookup i b (stmts reg_lookup b.statements b.addr t).0 t.next_time
              (stmts reg_lookup b.statements b.addr t).1.next_time
            ∷ []),
        ap length l.same_blocks,
      )

-- An edge changes no times, and finds its block.
pub append_edge_kept :
    (di : ℕ) (edge : ℕ × ℕ) (bs : List Block)
    → di < length bs
    → (cs : List Block) × (append_edge di edge bs ≡ ok cs)
      × (times_of cs ≡ times_of bs)
      × (length cs ≡ length bs)
unfolding append_edge times_of
append_edge_kept di edge [] h = absurd (omega arith)
append_edge_kept zero edge (b ∷ bs) h =
    (record b { in_edges = b.in_edges ++ edge ∷ [] } ∷ bs, refl, refl, refl)
append_edge_kept (suc di) edge (b ∷ bs) h =
    let (cs, found, same, long) = append_edge_kept di edge bs (omega arith) in
    (b ∷ cs, rw found, ap (λ ts. b.op_times ++ ts) same, ap suc long)
