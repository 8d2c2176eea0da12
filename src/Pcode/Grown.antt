-- ===== src/Pcode/Grown.antt =====
-- core/pcode.py: what was known of a translator's refs stays known when a varnode is added.
use angr_ghidra_core.Prelude.{
  ℕ, ◌+◌, ◌≤◌, ◌≡◌, ◌==◌, false, List, [], ◌∷◌, ◌++◌, Option, none, some, map, All, arith, inl, inr,
  Bool-cases,
}
use angr_ghidra_core.Prelude.Int.{ℤ}
use angr_ghidra_core.Prelude.Dicts.{get}
use angr_ghidra_core.Dynahash.{Space}
use angr_ghidra_core.Pcode.{Varnode, Op}
use angr_ghidra_core.Pcode.Invariant.{
  Numbered, IsRef, OutputIsRef, OpIsClosed, RefsOf, Located, Represents, Lists, keyed,
}

pub All-map_property {ℓ κ ι} :
    {A : Type ℓ} (P : A → Type κ) (Q : A → Type ι) (xs : List A)
    → ((a : A) → P a → Q a)
    → All P xs
    → All Q xs
All-map_property P Q [] f h = tt
All-map_property P Q (x ∷ xs) f h = (f x h.0, All-map_property P Q xs f h.1)

-- An entry stays found when others follow.
get-append :
    (r : ℕ) (v : Varnode) (d e : List (ℕ × Varnode))
    → get ◌==◌ r d ≡ some v
    → get ◌==◌ r (d ++ e) ≡ some v
unfolding get
get-append r v [] e h = cc
get-append r v ((j, w) ∷ d) e h = elim (Bool-cases (j == r)) [
  | inl hit ↦ rw hit (rw hit at h)
  | inr miss ↦ rw miss (get-append r v d e (rw miss at h))
]

pub Numbered-le : (from next : ℕ) (vs : List Varnode) → Numbered from vs next → from ≤ next
Numbered-le from next [] h = omega arith
Numbered-le from next (v ∷ vs) h = omega (arith, Numbered-le (from + 1) next vs h.1)

-- A new number is found where it was put.
pub get-fresh :
    (from next : ℕ) (vs : List Varnode) (v : Varnode)
    → Numbered from vs next
    → get ◌==◌ next (map keyed vs ++ (next, v) ∷ []) ≡ some v
unfolding get
get-fresh from next [] v h = ground arith
get-fresh from next (w ∷ vs) v h =
    let behind_it : from + 1 ≤ next = Numbered-le (from + 1) next vs h.1 in
    let other : (w.ref == next) ≡ false = ground (arith, h.0) in
    rw other (get-fresh (from + 1) next vs v h.1)

module _ (n n' : ℕ) (grown : n ≤ n') where
  IsRef-grown : (r : ℕ) → IsRef n r → IsRef n' r
  IsRef-grown r h = omega arith

  pub OutputIsRef-grown : (o : Option ℕ) → OutputIsRef n o → OutputIsRef n' o
  OutputIsRef-grown none h = tt
  OutputIsRef-grown (some r) h = omega arith

  pub AreRefs-grown : (rs : List ℕ) → All (IsRef n) rs → All (IsRef n') rs
  AreRefs-grown rs h = All-map_property (IsRef n) (IsRef n') rs IsRef-grown h

  pub OpIsClosed-grown : (ops : List Op) → All (OpIsClosed n) ops → All (OpIsClosed n') ops
  OpIsClosed-grown ops h =
      All-map_property (OpIsClosed n) (OpIsClosed n') ops
        (λ op c. (OutputIsRef-grown op.output c.0, AreRefs-grown op.inputs c.1)) h

  pub RefsOf-grown : (d : List (ℕ × ℕ)) → RefsOf n d → RefsOf n' d
  RefsOf-grown d h = All-map_property _ _ d (λ e r. IsRef-grown e.1 r) h

  module _ (index more : List (ℕ × Varnode)) (space : Space) where
    pub Located-grown :
        (offset : ℤ) (r : ℕ)
        → Located n index space offset r
        → Located n' (index ++ more) space offset r
    Located-grown offset r (h, (v, found, at_space, at_offset)) =
        (IsRef-grown r h, (v, get-append r v index more found, at_space, at_offset))

    pub Represents-grown :
        (d : List (ℤ × ℕ)) → Represents n index space d → Represents n' (index ++ more) space d
    Represents-grown d h = All-map_property _ _ d (λ e l. Located-grown e.0 e.1 l) h

    pub Lists-grown :
        (d : List (ℤ × List ℕ)) → Lists n index space d → Lists n' (index ++ more) space d
    Lists-grown d h =
        All-map_property _ _ d (λ e ls. All-map_property _ _ e.1 (λ r l. Located-grown e.0 r l) ls)
          h
