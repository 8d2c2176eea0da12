-- ===== src/Variables/Grouped.antt =====
-- core/variables.py: after `build` with a translator, each symbol has a representative among its
-- members, its members lie at its storage, and no varnode belongs to two symbols.
use angr_ghidra_core.Prelude.{
  ℕ, zero, suc, ◌≡◌, List, [], ◌∷◌, Option, none, some, ◌==◌, length, get_elem?, All, All-append,
  inl, inr, Bool-cases, Option-cases, sym,
}
use mathlib.Core.Path.{subst}
use angr_ghidra_core.Prelude.Int.{ℤ}
use angr_ghidra_core.Prelude.Dicts.{get}
use angr_ghidra_core.Dynahash.{contains, Space}
use angr_ghidra_core.Variables.{
  SimVariable, CVariable, Chunk, occurrence, other_chunk, VarSymbol, Registers, make_symbol,
}
use angr_ghidra_core.Pcode.{Translator}
use angr_ghidra_core.Pcode.State.{occurrence_ref}
use angr_ghidra_core.Pcode.Invariant.{IsValid, IsRef, Later, Located}
use angr_ghidra_core.Pcode.Grown.{Located-grown}
use angr_ghidra_core.Pcode.Tables.{LiesAt}
use angr_ghidra_core.Pcode.Representatives.{storage, occurrence_ref-LiesAt}
use angr_ghidra_core.Variables.Made.{some_injective, make_symbol-IsNew}
use angr_ghidra_core.Variables.Build.{
  Pass, add_ref, claim, note_occurrence, add_symbol, on_variable, on_chunk, on_object, first_pass,
}

-- The members of a symbol lie at its storage, and its storage is the stack or a register.
abbrev pub IsPlaced : Translator → VarSymbol → Type 0
IsPlaced t s =
    (storage s.storage_kind ≡ s.storage_kind)
    × All (λ r. LiesAt s.storage_kind s.offset r t) s.member_refs

-- What lies at a location lies there later.
pub LiesAt-Later :
    (t u : Translator) (space : Space) (offset : ℤ) (r : ℕ)
    → Later t u
    → LiesAt space offset r t
    → LiesAt space offset r u
LiesAt-Later t u space offset r l at =
    subst (λ d. Located u.next_ref d space offset r) (sym l.more_varnodes.1)
      (Located-grown t.next_ref u.next_ref l.more_refs t.by_ref l.more_varnodes.0 space offset r at)

add_ref-IsPlaced :
    (t : Translator) (place ref : ℕ) (s : VarSymbol) (ss : List VarSymbol)
    → get_elem? ss place ≡ some s
    → LiesAt s.storage_kind s.offset ref t
    → All (IsPlaced t) ss
    → All (IsPlaced t) (add_ref place ref ss)
unfolding add_ref
add_ref-IsPlaced t place ref s [] e at h = tt
add_ref-IsPlaced t zero ref s (x ∷ ss) e at h =
    let here : LiesAt x.storage_kind x.offset ref t =
      subst (λ (q : VarSymbol). LiesAt q.storage_kind q.offset ref t) (sym (some_injective e)) at in
    (
      (
        h.0.0,
        All-append (λ r. LiesAt x.storage_kind x.offset r t) x.member_refs (ref ∷ []) h.0.1
            (here, tt),
      ),
      h.1,
    )
add_ref-IsPlaced t (suc place) ref s (x ∷ ss) e at h =
    (h.0, add_ref-IsPlaced t place ref s ss e at h.1)

module _ (regs : Registers) (t : Translator) (v : IsValid t) where
  abbrev ArePlaced : Pass → Type 0
  ArePlaced p = All (IsPlaced t) p.table.symbols × All (IsRef t.next_ref) p.claimed

  claim-ArePlaced :
      (place ref : ℕ) (s : VarSymbol) (p : Pass)
      → get_elem? p.table.symbols place ≡ some s
      → LiesAt s.storage_kind s.offset ref t
      → ArePlaced p
      → ArePlaced (claim (some ref) place p)
  unfolding claim
  claim-ArePlaced place ref s p e at h = elim (Bool-cases (contains p.claimed ref)) [
    | inl old ↦ rw (old, claim) h
    | inr new ↦
        rw (new, claim) (add_ref-IsPlaced t place ref s p.table.symbols e at h.0, (at.0, h.1))
  ]

  note_occurrence-ArePlaced :
      (vvar_id : Option ℕ) (place : ℕ) (p : Pass)
      → ArePlaced p
      → ArePlaced (note_occurrence (some t) vvar_id place p)
  unfolding note_occurrence claim
  note_occurrence-ArePlaced vvar_id place p h =
      elim (Option-cases (get_elem? p.table.symbols place)) [
        | inl gone ↦ rw (gone, note_occurrence) h
        | inr (s, there) ↦ elim (Option-cases (occurrence_ref vvar_id s.storage_kind s.offset t)) [
          | inl unseen ↦ rw (there, note_occurrence, unseen) h
          | inr (ref, seen) ↦
              rw (there, note_occurrence, seen)
                (claim-ArePlaced place ref s p there
                  (occurrence_ref-LiesAt vvar_id s.storage_kind s.offset t ref v seen) h)
        ]
      ]

  add_symbol-ArePlaced :
      (obj : CVariable) (var : SimVariable) (p : Pass)
      → ArePlaced p
      → ArePlaced (add_symbol regs (some t) obj var p)
  unfolding add_symbol
  add_symbol-ArePlaced obj var p h =
      elim (Option-cases
        (make_symbol regs obj var (length p.table.symbols) p.table.next_id p.param_index).0) [
          | inl skip ↦ rw (skip, add_symbol) h
          | inr (s, made) ↦
              let new = make_symbol-IsNew regs obj var _ _ _ s made in
              rw (made, add_symbol)
                (note_occurrence-ArePlaced obj.vvar_id (length p.table.symbols) _ (
                  All-append (IsPlaced t) p.table.symbols (s ∷ []) h.0 (
                    (
                      new.stored,
                      subst (λ rs. All (λ r. LiesAt s.storage_kind s.offset r t) rs) (sym new.empty)
                          tt,
                    ),
                    tt,
                  ),
                  h.1,
                ))
        ]

  on_variable-ArePlaced :
      (obj : CVariable) (var : SimVariable) (p : Pass)
      → ArePlaced p
      → ArePlaced (on_variable regs (some t) obj var p)
  unfolding on_variable
  on_variable-ArePlaced obj var p h = elim (Bool-cases (contains p.skipped var.var_id)) [
    | inl skip ↦ rw (skip, on_variable) h
    | inr go ↦ elim (Option-cases (get ◌==◌ var.var_id p.table.by_var_id)) [
      | inl new ↦ rw (go, new, on_variable) (add_symbol-ArePlaced obj var p h)
      | inr (place, old) ↦
          rw (go, old, on_variable) (note_occurrence-ArePlaced obj.vvar_id place p h)
    ]
  ]

  on_object-ArePlaced :
      (obj : CVariable) (var : Option SimVariable) (p : Pass)
      → ArePlaced p
      → ArePlaced (on_object regs (some t) obj var p)
  on_object-ArePlaced obj none p h = h
  on_object-ArePlaced obj (some var) p h = on_variable-ArePlaced obj var p h

  on_chunk-ArePlaced : (c : Chunk) (p : Pass) → ArePlaced p → ArePlaced (on_chunk regs (some t) c p)
  unfolding on_chunk
  on_chunk-ArePlaced other_chunk p h = h
  on_chunk-ArePlaced (occurrence obj) p h = on_object-ArePlaced obj obj.variable p h

  pub first_pass-ArePlaced :
      (chunks : List Chunk) (p : Pass)
      → All (IsPlaced t) p.table.symbols × All (IsRef t.next_ref) p.claimed
      → All (IsPlaced t) (first_pass regs (some t) chunks p).table.symbols
        × All (IsRef t.next_ref) (first_pass regs (some t) chunks p).claimed
  unfolding first_pass
  first_pass-ArePlaced [] p h = h
  first_pass-ArePlaced (c ∷ cs) p h =
      first_pass-ArePlaced cs (on_chunk regs (some t) c p) (on_chunk-ArePlaced c p h)
