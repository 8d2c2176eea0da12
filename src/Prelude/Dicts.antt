-- ===== src/Prelude/Dicts.antt =====
-- Python's dict as an association list in the order of insertion, for keys with a Boolean equality.
use mathlib.Core.Path.{◌≡◌, sym, subst}
use mathlib.Core.Logic.{inl, inr}
use mathlib.Core.Bool.{Bool, true, false}
use mathlib.Core.Option.{Option, none, some}
use mathlib.Core.List.{List, [], ◌∷◌, ◌++◌}
use native.Mathlib.Omega.{arith}
use angr_ghidra_core.Prelude.Int.{ℤ, pos, negsuc}
use angr_ghidra_core.Prelude.Tests.{if◌then◌else◌, ◌==◌, Bool-cases}
use angr_ghidra_core.Prelude.Lists.{All, All-append}

-- Equality of two ints.
abbrev pub eq_int : ℤ → ℤ → Bool
eq_int (pos a) (pos b) = a == b
eq_int (negsuc a) (negsuc b) = a == b
eq_int _ _ = false

pub eq_int-eq : (a b : ℤ) → eq_int a b ≡ true → a ≡ b
eq_int-eq (pos a) (pos b) h = ground arith
eq_int-eq (negsuc a) (negsuc b) h = ground arith
eq_int-eq (pos a) (negsuc b) h = cc
eq_int-eq (negsuc a) (pos b) h = cc

pub eq_int_refl : (a : ℤ) → eq_int a a ≡ true
eq_int_refl (pos a) = ground arith
eq_int_refl (negsuc a) = ground arith

module _ {ℓ κ} {K : Type ℓ} {V : Type κ} (eq : K → K → Bool) where
  -- `d.get(k)`
  unfoldable pub get : K → List (K × V) → Option V
  get k [] = none
  get k ((j, v) ∷ d) = if eq j k then some v else get k d

  -- `d[k] = v`
  unfoldable pub put : K → V → List (K × V) → List (K × V)
  put k v [] = (k, v) ∷ []
  put k v ((j, w) ∷ d) = if eq j k then (j, v) ∷ d else (j, w) ∷ put k v d

  -- `d.setdefault(k, v)`, for the dict that it leaves.
  unfoldable pub set_default : K → V → List (K × V) → List (K × V)
  set_default k v [] = (k, v) ∷ []
  set_default k v ((j, w) ∷ d) = if eq j k then (j, w) ∷ d else (j, w) ∷ set_default k v d

  -- What was put is found.
  pub get-put_self : (k : K) (v : V) (d : List (K × V)) → eq k k ≡ true → get k (put k v d) ≡ some v
  unfolding get put
  get-put_self k v [] h = rw h
  get-put_self k v ((j, w) ∷ d) h = elim (Bool-cases (eq j k)) [
    | inl hit ↦ rw (hit, hit)
    | inr miss ↦ rw (miss, miss) (get-put_self k v d h)
  ]

-- `d.setdefault(k, []).append(v)`
unfoldable pub add_member {ℓ κ} :
    {K : Type ℓ} {V : Type κ} → (K → K → Bool) → K → V → List (K × List V) → List (K × List V)
add_member eq k v [] = (k, v ∷ []) ∷ []
add_member eq k v ((j, vs) ∷ d) =
    if eq j k then (j, vs ++ v ∷ []) ∷ d else (j, vs) ∷ add_member eq k v d

module _ {ℓ κ ι} {K : Type ℓ} {V : Type κ} (eq : K → K → Bool) (P : K → V → Type ι) where
  abbrev pub Entries : List (K × V) → Type ι
  Entries d = All (λ (e : K × V). P e.0 e.1) d

  module _ (sound : (j k : K) → eq j k ≡ true → j ≡ k) where
    pub get-Entries : (k : K) (v : V) (d : List (K × V)) → Entries d → get eq k d ≡ some v → P k v
    unfolding get
    get-Entries k v [] h e = cc
    get-Entries k v ((j, w) ∷ d) h e = elim (Bool-cases (eq j k)) [
      | inl hit ↦
          let found : some w ≡ some v = rw hit at e in
          subst (P k) (cc found) (subst (λ i. P i w) (sound j k hit) h.0)
      | inr miss ↦ get-Entries k v d h.1 (rw miss at e)
    ]

    pub put-Entries :
        (k : K) (v : V) (d : List (K × V)) → P k v → Entries d → Entries (put eq k v d)
    unfolding put
    put-Entries k v [] p h = (p, tt)
    put-Entries k v ((j, w) ∷ d) p h = elim (Bool-cases (eq j k)) [
      | inl hit ↦ rw hit (subst (λ i. P i v) (sym (sound j k hit)) p, h.1)
      | inr miss ↦ rw miss (h.0, put-Entries k v d p h.1)
    ]

    pub set_default-Entries :
        (k : K) (v : V) (d : List (K × V)) → P k v → Entries d → Entries (set_default eq k v d)
    unfolding set_default
    set_default-Entries k v [] p h = (p, tt)
    set_default-Entries k v ((j, w) ∷ d) p h = elim (Bool-cases (eq j k)) [
      | inl hit ↦ rw hit h
      | inr miss ↦ rw miss (h.0, set_default-Entries k v d p h.1)
    ]

module _ {ℓ κ ι} {K : Type ℓ} {V : Type κ} (eq : K → K → Bool) (P : K → V → Type ι) where
  module _ (sound : (j k : K) → eq j k ≡ true → j ≡ k) where
    pub add_member-Entries :
        (k : K) (v : V) (d : List (K × List V))
        → P k v
        → Entries eq (λ j vs. All (P j) vs) d
        → Entries eq (λ j vs. All (P j) vs) (add_member eq k v d)
    unfolding add_member
    add_member-Entries k v [] p h = ((p, tt), tt)
    add_member-Entries k v ((j, vs) ∷ d) p h = elim (Bool-cases (eq j k)) [
      | inl hit ↦
          rw hit
            (All-append (P j) vs (v ∷ []) h.0 (subst (λ i. P i v) (sym (sound j k hit)) p, tt), h.1)
      | inr miss ↦ rw miss (h.0, add_member-Entries k v d p h.1)
    ]
