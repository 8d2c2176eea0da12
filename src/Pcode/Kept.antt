-- ===== src/Pcode/Kept.antt =====
-- core/pcode.py: the methods that make varnodes, enter them in the tables and append operations keep
-- the invariant of PcodeTranslator.
use angr_ghidra_core.Prelude.{
  append-nil, ℕ, ◌+◌, ◌≤◌, max, refl, sym, List, [], ◌∷◌, Option, All, All-append, arith,
}
use angr_ghidra_core.Prelude.Int.{ℤ}
use mathlib.Core.List.{map-append}
use angr_ghidra_core.Dynahash.{Space, const_space, stack_space, register_space, unique_space}
use angr_ghidra_core.Pcode.{Varnode, Op, Translator}
use angr_ghidra_core.Pcode.State.{pure, new_varnode, new_const, temp, emit}
use angr_ghidra_core.Pcode.Invariant.{
  IsValid, Keeps, Later-refl, later_of, IsRef, OutputIsRef, OpIsClosed, Located, NoMatter, behind,
  PlacedAt, keyed, Numbered-append, Timed-append, LaidOut-append,
}
use angr_ghidra_core.Pcode.Grown.{
  get-fresh, Numbered-le, OutputIsRef-grown, AreRefs-grown, OpIsClosed-grown, RefsOf-grown,
  Represents-grown, Lists-grown,
}

-- A new varnode, with the counter of the temporaries moved behind it.
pub new_varnode-IsValid :
    (space : Space) (offset : ℤ) (size : ℕ) (t : Translator)
    → IsValid t
    → PlacedAt space t.next_unique offset
    → IsValid
        (new_varnode space offset size
          (record t { next_unique = behind space t.next_unique size })).1
unfolding new_varnode
new_varnode-IsValid space offset size t v p = record {
  numbered = Numbered-append 0x300 t.next_ref t.varnodes vn v.numbered refl;
  timed = v.timed;
  laid_out = LaidOut-append 0x10000000 t.next_unique t.varnodes vn v.laid_out p;
  indexed = rw (v.indexed) (sym (map-append keyed t.varnodes (vn ∷ [])));
  closed = OpIsClosed-grown t.next_ref (t.next_ref + 1) (omega arith) t.ops v.closed;
  vvars = RefsOf-grown t.next_ref (t.next_ref + 1) (omega arith) t.vvar_ref v.vvars;
  stack_reps =
      Represents-grown t.next_ref (t.next_ref + 1) (omega arith) t.by_ref more stack_space
        t.stack_rep v.stack_reps;
  reg_reps =
      Represents-grown t.next_ref (t.next_ref + 1) (omega arith) t.by_ref more register_space
        t.reg_rep v.reg_reps;
  stack_lists =
      Lists-grown t.next_ref (t.next_ref + 1) (omega arith) t.by_ref more stack_space
        t.stack_members v.stack_lists;
  reg_lists =
      Lists-grown t.next_ref (t.next_ref + 1) (omega arith) t.by_ref more register_space
        t.reg_members v.reg_lists;
}
  where
    vn : Varnode
    vn = record { ref = t.next_ref; space = space; offset = offset; size = size }

    more : List (ℕ × Varnode)
    more = (t.next_ref, vn) ∷ []

-- Where the new varnode lies.
pub new_varnode-Located :
    (space : Space) (offset : ℤ) (size : ℕ) (t : Translator)
    → IsValid t
    → Located (t.next_ref + 1) (new_varnode space offset size t).1.by_ref space offset t.next_ref
unfolding new_varnode
new_varnode-Located space offset size t v = (
  (Numbered-le 0x300 t.next_ref t.varnodes v.numbered, omega arith),
  (
    record { ref = t.next_ref; space = space; offset = offset; size = size },
    rw v.indexed (get-fresh 0x300 t.next_ref t.varnodes _ v.numbered),
    refl,
    refl,
  ),
)

pub new_const-Keeps : (value : ℤ) (size n : ℕ) → Keeps n IsRef (new_const value size)
unfolding new_const new_varnode
new_const-Keeps value size n = record {
  run = λ t v h. (
    new_varnode-IsValid const_space _ (max size 1) t v tt,
    later_of t _ (omega arith) (omega arith) refl refl _ refl,
    (Numbered-le 0x300 t.next_ref t.varnodes v.numbered, omega arith),
  );
}

pub temp-Keeps : (size n : ℕ) → Keeps n IsRef (temp size)
unfolding temp new_varnode
temp-Keeps size n = record {
  run = λ t v h. (
    new_varnode-IsValid unique_space _ (max size 1) t v refl,
    later_of t _ (omega arith) (omega arith) refl refl _ refl,
    (Numbered-le 0x300 t.next_ref t.varnodes v.numbered, omega arith),
  );
}

emit-IsValid :
    (opcode ins_addr : ℕ) (output : Option ℕ) (inputs : List ℕ) (t : Translator)
    → IsValid t
    → OutputIsRef t.next_ref output
    → All (IsRef t.next_ref) inputs
    → IsValid (emit opcode ins_addr output inputs t).1
unfolding emit
emit-IsValid opcode ins_addr output inputs t v out ins = record {
  numbered = v.numbered;
  timed = Timed-append 1 t.next_time t.ops op v.timed refl;
  laid_out = v.laid_out;
  indexed = v.indexed;
  closed = All-append (OpIsClosed t.next_ref) t.ops (op ∷ []) v.closed ((out, ins), tt);
  vvars = v.vvars;
  stack_reps = v.stack_reps;
  reg_reps = v.reg_reps;
  stack_lists = v.stack_lists;
  reg_lists = v.reg_lists;
}
  where
    op : Op
    op = record {
      opcode = opcode;
      ins_addr = ins_addr;
      time = t.next_time;
      output = output;
      inputs = inputs;
    }

pub emit-Keeps :
    (opcode ins_addr : ℕ) (output : Option ℕ) (inputs : List ℕ) (n : ℕ)
    → OutputIsRef n output
    → All (IsRef n) inputs
    → Keeps n NoMatter (emit opcode ins_addr output inputs)
unfolding emit
emit-Keeps opcode ins_addr output inputs n out ins = record {
  run = λ t v h. (
    emit-IsValid opcode ins_addr output inputs t v (OutputIsRef-grown n t.next_ref h output out)
        (AreRefs-grown n t.next_ref h inputs ins),
    later_of t _ (omega arith) (omega arith) refl refl [] (sym (append-nil t.by_ref)),
    tt,
  );
}

pub pure-Keeps :
    {A : Type 0} (R : ℕ → A → Type 0) (a : A) (n : ℕ)
    → ((m : ℕ) → n ≤ m → R m a)
    → Keeps n R (pure a)
unfolding pure
pure-Keeps R a n r = record { run = λ t v h. (v, Later-refl t, r t.next_ref h) }
