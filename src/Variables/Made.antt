-- ===== src/Variables/Made.antt =====
-- core/variables.py: the symbols that `_make_symbol` makes, and the type of a storage's size.
use angr_ghidra_core.Prelude.{
  min, max, Bool-cases, ltb→lt, leb, ltb, ◌&&◌, ℕ, ◌≤◌, ◌<◌, ◌≡◌, refl, [], ◌++◌, some, arith, inl,
  inr,
}
use mathlib.Core.Path.{subst}
use angr_ghidra_core.Prelude.Text.{codes, decimal, digits}
use angr_ghidra_core.Prelude.Result.{Result, ok, err}
use angr_ghidra_core.Packed.{Bytes}
use angr_ghidra_core.Pcode.Representatives.{storage}
use angr_ghidra_core.Variables.{
  SimVariable, CVariable, VarSymbol, Registers, Place, on_stack, in_register, elsewhere,
  make_symbol, made_at, resolved, display_name, undef_type_for_size,
}

-- The size of a storage's type lies from 1 to 8: it is the size of the storage, or the nearer of the
-- two bounds. The type's name is "undefined" and this size in decimal.
pub undef_type_bounds :
    (size : ℕ)
    → (1 ≤ (undef_type_for_size size).1)
      × ((undef_type_for_size size).1 ≤ 8)
      × ((undef_type_for_size size).1 ≡ max 1 (min size 8))
      × ((undef_type_for_size size).0 ≡ codes "undefined" ++ decimal (undef_type_for_size size).1)
unfolding undef_type_for_size decimal digits
undef_type_bounds size = elim (Bool-cases (leb 1 size && leb size 8)) [
  | inl within ↦
      let low : 1 ≤ size = ground arith in
      let high : size ≤ 8 = ground arith in
      rw (within, undef_type_for_size) (low, high, omega arith, refl)
  | inr outside ↦ elim (Bool-cases (ltb 8 size)) [
    | inl large ↦
        let above : 8 < size = ltb→lt 8 size large in
        rw (outside, large, undef_type_for_size) (omega arith, omega arith, omega arith, refl)
    | inr small ↦
        let none_left : size ≡ 0 = ground arith in
        rw (outside, small, undef_type_for_size) (omega arith, omega arith, omega arith, refl)
  ]
]

-- A new symbol has no members, and stands for the stack or a register.
pub record IsNew (s : VarSymbol) (sym_id : ℕ) : Type 0 where
  pub empty : s.member_refs ≡ []
  pub stored : storage s.storage_kind ≡ s.storage_kind
  pub numbered : s.sym_id ≡ sym_id

pub some_injective {ℓ} : {A : Type ℓ} {a b : A} → some a ≡ some b → a ≡ b
some_injective h = cc

resolved-IsNew :
    (found : Result (ℕ × ℕ)) (var : SimVariable) (name : Bytes) (sym_id index space : ℕ)
    (s : VarSymbol)
    → (resolved found var name sym_id index space).0 ≡ some s
    → IsNew s sym_id
resolved-IsNew (err e) var name sym_id index space s h = cc
resolved-IsNew (ok (off, size)) var name sym_id index space s h =
    subst (λ q. IsNew q sym_id) (some_injective h)
      (record { empty = refl; stored = refl; numbered = refl })

made_at-IsNew :
    (regs : Registers) (place : Place) (var : SimVariable) (name : Bytes) (sym_id index : ℕ)
    (s : VarSymbol)
    → (made_at regs place var name sym_id index).0 ≡ some s
    → IsNew s sym_id
made_at-IsNew regs (on_stack offset) var name sym_id index s h =
    subst (λ q. IsNew q sym_id) (some_injective h)
      (record { empty = refl; stored = refl; numbered = refl })
made_at-IsNew regs (in_register reg) var name sym_id index s h =
    resolved-IsNew _ var name sym_id index regs.space_register s h
made_at-IsNew regs elsewhere var name sym_id index s h = cc

pub make_symbol-IsNew :
    (regs : Registers) (obj : CVariable) (var : SimVariable) (n sym_id index : ℕ) (s : VarSymbol)
    → (make_symbol regs obj var n sym_id index).0 ≡ some s
    → IsNew s sym_id
unfolding make_symbol
make_symbol-IsNew regs obj var n sym_id index s h =
    made_at-IsNew regs var.place var (display_name obj var n) sym_id index s h
