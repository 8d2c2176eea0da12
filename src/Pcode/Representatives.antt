-- ===== src/Pcode/Representatives.antt =====
-- core/pcode.py: the representatives of storage locations: `variable_representative`,
-- `new_storage_varnode` and `occurrence_ref`.
use angr_ghidra_core.Prelude.{
  ℕ, ◌≡◌, refl, sym, ap, ◌∙◌, true, false, ◌==◌, Option, none, some, inl, inr, Bool-cases,
  Option-cases, ==_iff,
}
use mathlib.Core.Path.{subst}
use angr_ghidra_core.Prelude.Int.{ℤ}
use angr_ghidra_core.Prelude.Dicts.{eq_int, eq_int-eq, eq_int_refl, get-put_self, get, get-Entries}
use angr_ghidra_core.Dynahash.{Space, const_space, stack_space, register_space, unique_space}
use angr_ghidra_core.Pcode.{Varnode, Translator}
use angr_ghidra_core.Pcode.State.{
  ◌>>=◌, new_varnode, set_stack_rep, set_register_rep, add_stack_member, add_register_member,
  variable_representative, new_storage_varnode,
}
use angr_ghidra_core.Pcode.Invariant.{IsValid, Later, Later-refl, IsRef}
use angr_ghidra_core.Pcode.Tables.{
  LiesAt, Represented, stored-Represented, quiet, fresh_stack, fresh_register,
  set_stack_rep-IsValid, set_register_rep-IsValid, add_stack_member-IsValid,
  add_register_member-IsValid,
}
use angr_ghidra_core.Pcode.State.{occurrence_ref, lives_at, same_space}

-- The space of a storage kind: one that is not "stack" is a register's.
abbrev pub storage : Space → Space
storage stack_space = stack_space
storage other = register_space

representative_stack :
    (offset : ℤ) (size : ℕ)
    → Represented stack_space offset (variable_representative stack_space offset size)
unfolding variable_representative
representative_stack offset size t v = elim (Option-cases (get eq_int offset t.stack_rep)) [
  | inl new ↦
      rw (new, variable_representative)
        (stored-Represented stack_space offset size _ (fresh_stack offset size)
          (λ ref u w at. (
            set_stack_rep-IsValid offset ref u w at,
            quiet u (set_stack_rep offset ref u).1 refl refl refl refl refl,
            at,
          ))
          t v)
  | inr (ref, old) ↦
      rw (old, variable_representative)
        (v, Later-refl t, get-Entries eq_int _ eq_int-eq offset ref t.stack_rep v.stack_reps old)
]

representative_register :
    (offset : ℤ) (size : ℕ)
    → Represented register_space offset (variable_representative register_space offset size)
unfolding variable_representative
representative_register offset size t v = elim (Option-cases (get eq_int offset t.reg_rep)) [
  | inl new ↦
      rw (new, variable_representative)
        (stored-Represented register_space offset size _ (fresh_register offset size)
          (λ ref u w at. (
            set_register_rep-IsValid offset ref u w at,
            quiet u (set_register_rep offset ref u).1 refl refl refl refl refl,
            at,
          ))
          t v)
  | inr (ref, old) ↦
      rw (old, variable_representative)
        (v, Later-refl t, get-Entries eq_int _ eq_int-eq offset ref t.reg_rep v.reg_reps old)
]

pub new_storage_varnode-Represented :
    (kind : Space) (offset : ℤ) (size : ℕ)
    → Represented (storage kind) offset (new_storage_varnode kind offset size)
unfolding new_storage_varnode
new_storage_varnode-Represented stack_space offset size =
    stored-Represented stack_space offset size _ (fresh_stack offset size) (λ ref u w at. (
      add_stack_member-IsValid offset ref u w at,
      quiet u (add_stack_member offset ref u).1 refl refl refl refl refl,
      at,
    ))
new_storage_varnode-Represented register_space offset size =
    stored-Represented register_space offset size _ (fresh_register offset size) (λ ref u w at. (
      add_register_member-IsValid offset ref u w at,
      quiet u (add_register_member offset ref u).1 refl refl refl refl refl,
      at,
    ))
new_storage_varnode-Represented const_space offset size =
    stored-Represented register_space offset size _ (fresh_register offset size) (λ ref u w at. (
      add_register_member-IsValid offset ref u w at,
      quiet u (add_register_member offset ref u).1 refl refl refl refl refl,
      at,
    ))
new_storage_varnode-Represented unique_space offset size =
    stored-Represented register_space offset size _ (fresh_register offset size) (λ ref u w at. (
      add_register_member-IsValid offset ref u w at,
      quiet u (add_register_member offset ref u).1 refl refl refl refl refl,
      at,
    ))

-- A representative that is there is returned, and nothing changes.
found_stack :
    (offset : ℤ) (size ref : ℕ) (t : Translator)
    → get eq_int offset t.stack_rep ≡ some ref
    → variable_representative stack_space offset size t ≡ (ref, t)
unfolding variable_representative
found_stack offset size ref t old = rw (old, variable_representative)

found_register :
    (offset : ℤ) (size ref : ℕ) (t : Translator)
    → get eq_int offset t.reg_rep ≡ some ref
    → variable_representative register_space offset size t ≡ (ref, t)
unfolding variable_representative
found_register offset size ref t old = rw (old, variable_representative)

new_stack :
    (offset : ℤ) (size : ℕ) (t : Translator)
    → get eq_int offset t.stack_rep ≡ none
    → variable_representative stack_space offset size t
      ≡ (t.next_ref, (set_stack_rep offset t.next_ref (new_varnode stack_space offset size t).1).1)
unfolding variable_representative ◌>>=◌ new_varnode
new_stack offset size t new = rw (new, variable_representative)

again_stack :
    (offset : ℤ) (size again : ℕ) (t : Translator)
    → variable_representative stack_space offset again
        (variable_representative stack_space offset size t).1
      ≡ variable_representative stack_space offset size t
unfolding new_varnode
again_stack offset size again t = elim (Option-cases (get eq_int offset t.stack_rep)) [
  | inl new ↦
      ap (λ p. variable_representative stack_space offset again p.1) (new_stack offset size t new)
      ∙ found_stack offset again t.next_ref
          (set_stack_rep offset t.next_ref (new_varnode stack_space offset size t).1).1
          (get-put_self eq_int offset t.next_ref t.stack_rep (eq_int_refl offset))
      ∙ sym (new_stack offset size t new)
  | inr (ref, old) ↦
      ap (λ p. variable_representative stack_space offset again p.1)
        (found_stack offset size ref t old)
      ∙ found_stack offset again ref t old
      ∙ sym (found_stack offset size ref t old)
]

new_register :
    (offset : ℤ) (size : ℕ) (t : Translator)
    → get eq_int offset t.reg_rep ≡ none
    → variable_representative register_space offset size t ≡ (
      t.next_ref,
      (set_register_rep offset t.next_ref (new_varnode register_space offset size t).1).1,
    )
unfolding variable_representative ◌>>=◌ new_varnode
new_register offset size t new = rw (new, variable_representative)

again_register :
    (offset : ℤ) (size again : ℕ) (t : Translator)
    → variable_representative register_space offset again
        (variable_representative register_space offset size t).1
      ≡ variable_representative register_space offset size t
unfolding new_varnode
again_register offset size again t = elim (Option-cases (get eq_int offset t.reg_rep)) [
  | inl new ↦
      ap (λ p. variable_representative register_space offset again p.1)
        (new_register offset size t new)
      ∙ found_register offset again t.next_ref
          (set_register_rep offset t.next_ref (new_varnode register_space offset size t).1).1
          (get-put_self eq_int offset t.next_ref t.reg_rep (eq_int_refl offset))
      ∙ sym (new_register offset size t new)
  | inr (ref, old) ↦
      ap (λ p. variable_representative register_space offset again p.1)
        (found_register offset size ref t old)
      ∙ found_register offset again ref t old
      ∙ sym (found_register offset size ref t old)
]

in_registers :
    (offset : ℤ) (size again : ℕ) (t : Translator)
    → IsValid t
    → IsValid (variable_representative register_space offset size t).1
      × Later t (variable_representative register_space offset size t).1
      × LiesAt register_space offset
          (variable_representative register_space offset size t).0
          (variable_representative register_space offset size t).1
      × (variable_representative register_space offset again
            (variable_representative register_space offset size t).1
          ≡ variable_representative register_space offset size t)
in_registers offset size again t v =
    let (v', l, at) = representative_register offset size t v in
    (v', l, at, again_register offset size again t)

-- The representative of a storage location is a varnode that lies there; asking for it keeps the
-- invariant of the translator and the refs that were handed out, and asking again, for any size,
-- returns the same ref and changes nothing. It holds for the stack and, by any other kind, for the
-- registers.
pub representative-Represented :
    (kind : Space) (offset : ℤ) (size again : ℕ) (t : Translator)
    → IsValid t
    → IsValid (variable_representative kind offset size t).1
      × Later t (variable_representative kind offset size t).1
      × LiesAt
          (storage kind)
          offset
          (variable_representative kind offset size t).0
          (variable_representative kind offset size t).1
      × (variable_representative kind offset again (variable_representative kind offset size t).1
          ≡ variable_representative kind offset size t)
unfolding variable_representative
representative-Represented stack_space offset size again t v =
    let (v', l, at) = representative_stack offset size t v in
    (v', l, at, again_stack offset size again t)
representative-Represented register_space offset size again t v = in_registers offset size again t v
representative-Represented const_space offset size again t v = in_registers offset size again t v
representative-Represented unique_space offset size again t v = in_registers offset size again t v

same_space-eq : (a b : Space) → same_space a b ≡ true → a ≡ b
same_space-eq const_space const_space h = refl
same_space-eq stack_space stack_space h = refl
same_space-eq register_space register_space h = refl
same_space-eq unique_space unique_space h = refl
same_space-eq a b h = cc

false-ne-true : ¬ (false ≡ true)
false-ne-true h = cc

lives_at-eq :
    (kind : Space) (offset : ℤ) (v : Varnode)
    → lives_at kind offset v ≡ true
    → (v.space ≡ kind) × (v.offset ≡ offset)
lives_at-eq kind offset v h = elim (Bool-cases (same_space v.space kind)) [
  | inl here ↦ (same_space-eq v.space kind here, eq_int-eq v.offset offset (rw here at h))
  | inr elsewhere ↦ absurd (false-ne-true (rw elsewhere at h))
]

-- An occurrence is shown by a varnode of its storage location.
pub occurrence_ref-LiesAt :
    (varid : Option ℕ) (kind : Space) (offset : ℤ) (t : Translator) (r : ℕ)
    → IsValid t
    → occurrence_ref varid kind offset t ≡ some r
    → LiesAt kind offset r t
unfolding occurrence_ref
occurrence_ref-LiesAt none kind offset t r v h = cc
occurrence_ref-LiesAt (some varid) kind offset t r v h =
    elim (Option-cases (get ◌==◌ varid t.vvar_ref)) [
      | inl missing ↦ cc (rw (missing, occurrence_ref) at h)
      | inr (ref, known) ↦ elim (Option-cases (get ◌==◌ ref t.by_ref)) [
        | inl lost ↦ cc (rw (known, lost, occurrence_ref) at h)
        | inr (vn, found) ↦ elim (Bool-cases (lives_at kind offset vn)) [
          | inl here ↦
              let at = lives_at-eq kind offset vn here in
              let same : some ref ≡ some r = rw (known, found, here, occurrence_ref) at h in
              let r_ref : IsRef t.next_ref ref =
                get-Entries ◌==◌ (λ k. IsRef t.next_ref) (λ j k. (==_iff j k).0) varid ref
                  t.vvar_ref v.vvars known in
              subst (λ q. LiesAt kind offset q t) (cc same) (r_ref, (vn, found, at.0, at.1))
          | inr elsewhere ↦ cc (rw (known, found, elsewhere, occurrence_ref) at h)
        ]
      ]
    ]
