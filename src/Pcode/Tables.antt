-- ===== src/Pcode/Tables.antt =====
-- core/pcode.py: `_vvar`, `variable_representative` and `new_storage_varnode` keep the invariant of
-- PcodeTranslator, and the representative of a storage location lies there.
mod Noted
unfoldable pub use Noted.*
use angr_ghidra_core.Prelude.{
  [], append-nil, sym, ◌∙◌, ℕ, ◌≤◌, max, ◌≡◌, refl, ◌||◌, ◌==◌, Option, none, some, arith, inl, inr,
  Bool-cases, Option-cases, ==_iff,
}
use angr_ghidra_core.Prelude.Int.{ℤ, pos}
use angr_ghidra_core.Prelude.Dicts.{
  eq_int, eq_int-eq, get, get-Entries, put-Entries, set_default-Entries, add_member-Entries,
}
use angr_ghidra_core.Dynahash.{Space, stack_space, register_space}
use angr_ghidra_core.Pcode.{Translator}
use angr_ghidra_core.Pcode.Ail.{VirtualVariable}
use angr_ghidra_core.Pcode.State.{
  Step, ◌>>=◌, new_varnode, vvar, vvar_varnode, register_varnode, Lookup, note_stack, note_register,
  note_vvar, looked_up, is_register, reg_offset_of, or_else, set_stack_rep, set_register_rep,
  add_stack_member, add_register_member,
}
use angr_ghidra_core.Pcode.Invariant.{
  IsValid, Keeps, Later, later_of, Later-refl, Later-trans, IsRef, Located, bind-Keeps,
}
use angr_ghidra_core.Pcode.Kept.{new_varnode-IsValid, new_varnode-Located, temp-Keeps}

-- The ref of a varnode at a location, in a state of the translator.

Represented-Keeps :
    (space : Space) (offset : ℤ) (m : Step ℕ) (n : ℕ) → Represented space offset m → Keeps n IsRef m
Represented-Keeps space offset m n h = record {
  run = λ t v _. let (v', l, at) = h t v in (v', l, at.0);
}

register_varnode-Keeps : (g : Option ℕ) (size n : ℕ) → Keeps n IsRef (register_varnode g size)
unfolding register_varnode
register_varnode-Keeps none size n = temp-Keeps size n
register_varnode-Keeps (some g_off) size n = Represented-Keeps register_space (pos g_off) _ n (
    stored-Represented register_space (pos g_off) size _ (fresh_register (pos g_off) size)
      (λ ref t v at. (
        note_register-IsValid (pos g_off) ref t v at,
        quiet t (note_register (pos g_off) ref t).1 refl refl refl refl refl,
        at,
      )))

vvar_varnode-Keeps :
    (reg_lookup : Lookup) (w : VirtualVariable) (size n : ℕ)
    → Keeps n IsRef (vvar_varnode reg_lookup w size)
unfolding vvar_varnode
vvar_varnode-Keeps reg_lookup w size n = elim (Bool-cases w.was_stack) [
  | inl on_stack ↦ rw on_stack (
      Represented-Keeps stack_space w.stack_offset _ n (
        stored-Represented stack_space w.stack_offset size _ (fresh_stack w.stack_offset size)
          (λ ref t v at. (
            note_stack-IsValid w.stack_offset ref t v at,
            quiet t (note_stack w.stack_offset ref t).1 refl refl refl refl refl,
            at,
          ))))
  | inr elsewhere ↦ rw elsewhere (elim (Bool-cases (w.was_reg || is_register w)) [
    | inl in_register ↦
        rw in_register (register_varnode-Keeps (looked_up reg_lookup (reg_offset_of w) size) size n)
    | inr nowhere ↦ rw nowhere (temp-Keeps size n)
  ])
]

note_vvar-IsValid :
    (varid ref : ℕ) (t : Translator)
    → IsValid t
    → IsRef t.next_ref ref
    → IsValid (note_vvar varid ref t).1
note_vvar-IsValid varid ref t v r = record {
  numbered = v.numbered;
  timed = v.timed;
  laid_out = v.laid_out;
  indexed = v.indexed;
  closed = v.closed;
  vvars =
      put-Entries ◌==◌ (λ k. IsRef t.next_ref) (λ j k. (==_iff j k).0) varid ref t.vvar_ref r
        v.vvars;
  stack_reps = v.stack_reps;
  reg_reps = v.reg_reps;
  stack_lists = v.stack_lists;
  reg_lists = v.reg_lists;
}

note_vvar-Keeps : (varid ref n : ℕ) → IsRef n ref → Keeps n IsRef (note_vvar varid ref)
note_vvar-Keeps varid ref n r = record {
  run = λ t v h. (
    note_vvar-IsValid varid ref t v (r.0, omega arith),
    later_of t _ (omega arith) (omega arith) refl refl [] (sym (append-nil t.by_ref)),
    (r.0, omega arith),
  );
}

vvar_kept :
    (reg_lookup : Lookup) (w : VirtualVariable) (size n : ℕ) (t : Translator)
    → size ≡ max (or_else w.size 1) 1
    → IsValid t
    → n ≤ t.next_ref
    → IsValid (vvar reg_lookup w t).1
      × Later t (vvar reg_lookup w t).1
      × IsRef (vvar reg_lookup w t).1.next_ref (vvar reg_lookup w t).0
unfolding vvar
vvar_kept reg_lookup w size n t s v h = elim (Option-cases (get ◌==◌ w.varid t.vvar_ref)) [
  | inl new ↦
      rw (new, vvar, ← s)
        ((bind-Keeps IsRef IsRef n (vvar_varnode reg_lookup w size) (note_vvar w.varid)
            (vvar_varnode-Keeps reg_lookup w size n)
            (λ ref n' _ r. note_vvar-Keeps w.varid ref n' r)).run
          t v h)
  | inr (ref, old) ↦
      rw (old, vvar)
        (
          v,
          Later-refl t,
          get-Entries ◌==◌ (λ k. IsRef t.next_ref) (λ j k. (==_iff j k).0) w.varid ref t.vvar_ref
              v.vvars old,
        )
]

pub vvar-Keeps :
    (reg_lookup : Lookup) (w : VirtualVariable) (n : ℕ) → Keeps n IsRef (vvar reg_lookup w)
vvar-Keeps reg_lookup w n = record { run = λ t v h. vvar_kept reg_lookup w _ n t refl v h }
