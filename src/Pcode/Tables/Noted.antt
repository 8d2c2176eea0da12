-- ===== src/Pcode/Tables/Noted.antt =====
-- The tables of the representatives after a varnode is noted in them.
use angr_ghidra_core.Prelude.{[], append-nil, sym, ◌∙◌, ℕ, ◌≡◌, refl, arith}
use angr_ghidra_core.Prelude.Int.{ℤ}
use angr_ghidra_core.Prelude.Dicts.{
  eq_int, eq_int-eq, put-Entries, set_default-Entries, add_member-Entries,
}
use angr_ghidra_core.Dynahash.{Space, stack_space, register_space}
use angr_ghidra_core.Pcode.{Translator}
use angr_ghidra_core.Pcode.State.{
  Step, ◌>>=◌, new_varnode, note_stack, note_register, set_stack_rep, set_register_rep,
  add_stack_member, add_register_member,
}
use angr_ghidra_core.Pcode.Invariant.{IsValid, Later, later_of, Later-trans, Located}
use angr_ghidra_core.Pcode.Kept.{new_varnode-IsValid, new_varnode-Located}

abbrev pub LiesAt : Space → ℤ → ℕ → Translator → Type 0
LiesAt space offset r t = Located t.next_ref t.by_ref space offset r

module _ (offset : ℤ) (ref : ℕ) (t : Translator) (v : IsValid t) where
  module _ (at : LiesAt stack_space offset ref t) where
    pub note_stack-IsValid : IsValid (note_stack offset ref t).1
    note_stack-IsValid = record {
      numbered = v.numbered;
      timed = v.timed;
      laid_out = v.laid_out;
      indexed = v.indexed;
      closed = v.closed;
      vvars = v.vvars;
      stack_reps = set_default-Entries eq_int _ eq_int-eq offset ref t.stack_rep at v.stack_reps;
      reg_reps = v.reg_reps;
      stack_lists =
          add_member-Entries eq_int _ eq_int-eq offset ref t.stack_members at v.stack_lists;
      reg_lists = v.reg_lists;
    }

    pub set_stack_rep-IsValid : IsValid (set_stack_rep offset ref t).1
    set_stack_rep-IsValid = record {
      numbered = v.numbered;
      timed = v.timed;
      laid_out = v.laid_out;
      indexed = v.indexed;
      closed = v.closed;
      vvars = v.vvars;
      stack_reps = put-Entries eq_int _ eq_int-eq offset ref t.stack_rep at v.stack_reps;
      reg_reps = v.reg_reps;
      stack_lists =
          add_member-Entries eq_int _ eq_int-eq offset ref t.stack_members at v.stack_lists;
      reg_lists = v.reg_lists;
    }

    pub add_stack_member-IsValid : IsValid (add_stack_member offset ref t).1
    add_stack_member-IsValid = record {
      numbered = v.numbered;
      timed = v.timed;
      laid_out = v.laid_out;
      indexed = v.indexed;
      closed = v.closed;
      vvars = v.vvars;
      stack_reps = v.stack_reps;
      reg_reps = v.reg_reps;
      stack_lists =
          add_member-Entries eq_int _ eq_int-eq offset ref t.stack_members at v.stack_lists;
      reg_lists = v.reg_lists;
    }

  module _ (at : LiesAt register_space offset ref t) where
    pub note_register-IsValid : IsValid (note_register offset ref t).1
    note_register-IsValid = record {
      numbered = v.numbered;
      timed = v.timed;
      laid_out = v.laid_out;
      indexed = v.indexed;
      closed = v.closed;
      vvars = v.vvars;
      stack_reps = v.stack_reps;
      reg_reps = set_default-Entries eq_int _ eq_int-eq offset ref t.reg_rep at v.reg_reps;
      stack_lists = v.stack_lists;
      reg_lists = add_member-Entries eq_int _ eq_int-eq offset ref t.reg_members at v.reg_lists;
    }

    pub set_register_rep-IsValid : IsValid (set_register_rep offset ref t).1
    set_register_rep-IsValid = record {
      numbered = v.numbered;
      timed = v.timed;
      laid_out = v.laid_out;
      indexed = v.indexed;
      closed = v.closed;
      vvars = v.vvars;
      stack_reps = v.stack_reps;
      reg_reps = put-Entries eq_int _ eq_int-eq offset ref t.reg_rep at v.reg_reps;
      stack_lists = v.stack_lists;
      reg_lists = add_member-Entries eq_int _ eq_int-eq offset ref t.reg_members at v.reg_lists;
    }

    pub add_register_member-IsValid : IsValid (add_register_member offset ref t).1
    add_register_member-IsValid = record {
      numbered = v.numbered;
      timed = v.timed;
      laid_out = v.laid_out;
      indexed = v.indexed;
      closed = v.closed;
      vvars = v.vvars;
      stack_reps = v.stack_reps;
      reg_reps = v.reg_reps;
      stack_lists = v.stack_lists;
      reg_lists = add_member-Entries eq_int _ eq_int-eq offset ref t.reg_members at v.reg_lists;
    }

-- A change of the tables alone.
pub quiet :
    (t u : Translator)
    → t.next_ref ≡ u.next_ref
    → t.next_time ≡ u.next_time
    → u.blocks ≡ t.blocks
    → u.ops_by_time ≡ t.ops_by_time
    → u.by_ref ≡ t.by_ref
    → Later t u
quiet t u a b c d e =
    later_of t u (omega arith) (omega arith) c d [] (e ∙ sym (append-nil t.by_ref))

pub fresh_stack :
    (offset : ℤ) (size : ℕ) (t : Translator)
    → IsValid t
    → IsValid (new_varnode stack_space offset size t).1
fresh_stack offset size t v = new_varnode-IsValid stack_space offset size t v tt

pub fresh_register :
    (offset : ℤ) (size : ℕ) (t : Translator)
    → IsValid t
    → IsValid (new_varnode register_space offset size t).1
fresh_register offset size t v = new_varnode-IsValid register_space offset size t v tt

-- The result is the ref of a varnode at the location, and is handed out from then on.
abbrev pub Represented : Space → ℤ → Step ℕ → Type 0
Represented space offset m =
    (t : Translator)
    → IsValid t
    → IsValid (m t).1 × Later t (m t).1 × LiesAt space offset (m t).0 (m t).1

pub stored-Represented :
    (space : Space) (offset : ℤ) (size : ℕ) (note : ℕ → Step ℕ)
    → ((t : Translator) → IsValid t → IsValid (new_varnode space offset size t).1)
    → ((ref : ℕ) (t : Translator)
        → IsValid t
        → LiesAt space offset ref t
        → IsValid (note ref t).1
          × Later t (note ref t).1
          × LiesAt space offset (note ref t).0 (note ref t).1)
    → Represented space offset (new_varnode space offset size >>= note)
unfolding ◌>>=◌ new_varnode
stored-Represented space offset size note fresh keeps t v =
    let at = new_varnode-Located space offset size t v in
    let (v', same, it) =
      keeps (new_varnode space offset size t).0 (new_varnode space offset size t).1 (fresh t v)
        at in
    (
      v',
      Later-trans t (new_varnode space offset size t).1
          (note (new_varnode space offset size t).0 (new_varnode space offset size t).1).1
          (later_of t _ (omega arith) (omega arith) refl refl _ refl) same,
      it,
    )
