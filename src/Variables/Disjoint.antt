-- ===== src/Variables/Disjoint.antt =====
-- core/variables.py: no varnode belongs to two symbols.
use angr_ghidra_core.Prelude.{
  ℕ, zero, suc, ◌+◌, ◌≤◌, ◌≡◌, Bool, false, List, [], ◌∷◌, ◌++◌, Option, none, some, ◌==◌,
  if◌then◌else◌, length, get_elem?, arith, inl, inr, Bool-cases, Option-cases, ap, ==_iff,
}
use mathlib.Core.Path.{subst}
use angr_ghidra_core.Prelude.Dicts.{get}
use angr_ghidra_core.Dynahash.{contains}
use angr_ghidra_core.Variables.{
  SimVariable, CVariable, Chunk, occurrence, other_chunk, VarSymbol, Registers, make_symbol,
}
use angr_ghidra_core.Pcode.{Translator}
use angr_ghidra_core.Variables.Made.{make_symbol-IsNew}
use angr_ghidra_core.Variables.Build.{
  Pass, add_ref, claim, occurrence_at, note_occurrence, add_symbol, on_variable, on_chunk,
  on_object, first_pass,
}

abbrev pub one_if : Bool → ℕ
one_if b = if b then 1 else 0

-- How often a ref stands in a list, and among the members of all symbols.
abbrev pub count : ℕ → List ℕ → ℕ
count r [] = 0
count r (x ∷ xs) = one_if (x == r) + count r xs

abbrev pub members : ℕ → List VarSymbol → ℕ
members r [] = 0
members r (s ∷ ss) = count r s.member_refs + members r ss

pub count-snoc : (r x : ℕ) (xs : List ℕ) → count r (xs ++ x ∷ []) ≡ count r xs + one_if (x == r)
count-snoc r x [] = omega arith
count-snoc r x (y ∷ ys) = omega (arith, count-snoc r x ys)

members-snoc :
    (r : ℕ) (ss : List VarSymbol) (s : VarSymbol)
    → members r (ss ++ s ∷ []) ≡ members r ss + count r s.member_refs
members-snoc r [] s = omega arith
members-snoc r (x ∷ ss) s = omega (arith, members-snoc r ss s)

members-add_ref :
    (r place ref : ℕ) (ss : List VarSymbol)
    → members r (add_ref place ref ss) ≤ members r ss + one_if (ref == r)
unfolding add_ref
members-add_ref r place ref [] = omega arith
members-add_ref r zero ref (s ∷ ss) = omega (arith, count-snoc r ref s.member_refs)
members-add_ref r (suc place) ref (s ∷ ss) = omega (arith, members-add_ref r place ref ss)

-- What belongs to a symbol was claimed once.
abbrev pub AreClaimed : List VarSymbol → List ℕ → Type 0
AreClaimed ss claimed = (r : ℕ) → members r ss ≤ one_if (contains claimed r)

-- A ref that was not claimed is claimed once.
pub claimed_once :
    (ref r m n : ℕ) (claimed : List ℕ)
    → contains claimed ref ≡ false
    → m ≤ one_if (contains claimed r)
    → n ≤ m + one_if (ref == r)
    → n ≤ one_if (contains (ref ∷ claimed) r)
claimed_once ref r m n claimed new h k = elim (Bool-cases (ref == r)) [
  | inl same ↦
      let absent : contains claimed r ≡ false =
        subst (λ (x : ℕ). contains claimed x ≡ false) ((==_iff ref r).0 same) new in
      let none_yet : m ≤ 0 = rw absent at h in
      let one_more : n ≤ m + 1 = rw same at k in rw same (omega arith)
  | inr other ↦
      let no_more : n ≤ m + 0 = rw other at k in
      let enough : n ≤ one_if (contains claimed r) = omega arith in rw other enough
]

module _ (regs : Registers) (translator : Option Translator) where
  -- The first pass keeps what belongs to a symbol claimed.
  abbrev IsFair : Pass → Type 0
  IsFair p = AreClaimed p.table.symbols p.claimed

  claim-IsFair : (occ : Option ℕ) (place : ℕ) (p : Pass) → IsFair p → IsFair (claim occ place p)
  unfolding claim
  claim-IsFair none place p h = h
  claim-IsFair (some occ) place p h = elim (Bool-cases (contains p.claimed occ)) [
    | inl old ↦ rw (old, claim) h
    | inr new ↦
        rw (new, claim)
          (λ r.
            claimed_once occ r (members r p.table.symbols) _ p.claimed new (h r)
              (members-add_ref r place occ p.table.symbols))
  ]

  note_occurrence-IsFair :
      (vvar_id : Option ℕ) (place : ℕ) (p : Pass)
      → IsFair p
      → IsFair (note_occurrence translator vvar_id place p)
  unfolding note_occurrence
  note_occurrence-IsFair vvar_id place p h =
      claim-IsFair (occurrence_at translator vvar_id (get_elem? p.table.symbols place)) place p h

  add_symbol-IsFair :
      (obj : CVariable) (var : SimVariable) (p : Pass)
      → IsFair p
      → IsFair (add_symbol regs translator obj var p)
  unfolding add_symbol
  add_symbol-IsFair obj var p h =
      elim (Option-cases
        (make_symbol regs obj var (length p.table.symbols) p.table.next_id p.param_index).0) [
          | inl skip ↦ rw (skip, add_symbol) h
          | inr (s, made) ↦
              rw (made, add_symbol)
                (note_occurrence-IsFair obj.vvar_id (length p.table.symbols) _ (λ r.
                  let nothing = ap (count r) (make_symbol-IsNew regs obj var _ _ _ s made).empty in
                  omega (arith, members-snoc r p.table.symbols s, h r, nothing)))
        ]

  on_variable-IsFair :
      (obj : CVariable) (var : SimVariable) (p : Pass)
      → IsFair p
      → IsFair (on_variable regs translator obj var p)
  unfolding on_variable
  on_variable-IsFair obj var p h = elim (Bool-cases (contains p.skipped var.var_id)) [
    | inl skip ↦ rw (skip, on_variable) h
    | inr go ↦ elim (Option-cases (get ◌==◌ var.var_id p.table.by_var_id)) [
      | inl new ↦ rw (go, new, on_variable) (add_symbol-IsFair obj var p h)
      | inr (place, old) ↦ rw (go, old, on_variable) (note_occurrence-IsFair obj.vvar_id place p h)
    ]
  ]

  on_object-IsFair :
      (obj : CVariable) (var : Option SimVariable) (p : Pass)
      → IsFair p
      → IsFair (on_object regs translator obj var p)
  on_object-IsFair obj none p h = h
  on_object-IsFair obj (some var) p h = on_variable-IsFair obj var p h

  on_chunk-IsFair : (c : Chunk) (p : Pass) → IsFair p → IsFair (on_chunk regs translator c p)
  unfolding on_chunk
  on_chunk-IsFair other_chunk p h = h
  on_chunk-IsFair (occurrence obj) p h = on_object-IsFair obj obj.variable p h

  pub first_pass-AreClaimed :
      (chunks : List Chunk) (p : Pass)
      → AreClaimed p.table.symbols p.claimed
      → AreClaimed
          (first_pass regs translator chunks p).table.symbols
          (first_pass regs translator chunks p).claimed
  unfolding first_pass
  first_pass-AreClaimed [] p h = h
  first_pass-AreClaimed (c ∷ cs) p h =
      first_pass-AreClaimed cs (on_chunk regs translator c p) (on_chunk-IsFair c p h)
