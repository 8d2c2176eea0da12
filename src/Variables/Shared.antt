-- ===== src/Variables/Shared.antt =====
-- core/variables.py: the second loop of `build`, which picks or makes the representatives.
use angr_ghidra_core.Prelude.{
  ℕ, ◌+◌, ◌≤◌, ◌≡◌, refl, Bool, true, false, List, [], ◌∷◌, ◌++◌, some, ◌==◌, All, arith, inl, inr,
  Bool-cases, sym, ap, ◌∙◌,
}
use mathlib.Core.Path.{subst}
use angr_ghidra_core.Dynahash.{contains}
use angr_ghidra_core.Variables.{Chunk, VarSymbol, Registers, new_table}
use angr_ghidra_core.Pcode.{Translator}
use angr_ghidra_core.Pcode.State.{
  ◌>>=◌, new_varnode, variable_representative, new_storage_varnode, is_stack,
}
use angr_ghidra_core.Pcode.Invariant.{IsValid, IsRef, Later, Later-refl, Later-trans}
use angr_ghidra_core.Pcode.Grown.{AreRefs-grown, All-map_property}
use angr_ghidra_core.Pcode.Tables.{LiesAt}
use angr_ghidra_core.Pcode.Representatives.{
  storage, representative-Represented, new_storage_varnode-Represented,
}
use angr_ghidra_core.Variables.Grouped.{IsPlaced, LiesAt-Later, first_pass-ArePlaced}
use angr_ghidra_core.Variables.Disjoint.{
  one_if, count, members, claimed_once, first_pass-AreClaimed,
}
use angr_ghidra_core.Variables.Build.{
  Pass, Claims, represented_by, unclaimed, represent_new, represent, represent_with, second_pass,
  first_pass, first, build_with,
}

IsPlaced-Later : (t u : Translator) (s : VarSymbol) → Later t u → IsPlaced t s → IsPlaced u s
IsPlaced-Later t u s l h = (
  h.0,
  All-map_property _ _ s.member_refs (λ r at. LiesAt-Later t u s.storage_kind s.offset r l at) h.1,
)

AllPlaced-Later :
    (t u : Translator) (ss : List VarSymbol) → Later t u → All (IsPlaced t) ss → All (IsPlaced u) ss
AllPlaced-Later t u ss l h =
    All-map_property (IsPlaced t) (IsPlaced u) ss (λ s p. IsPlaced-Later t u s l p) h

-- A fresh ref is not among the refs that were handed out.
fresh-unclaimed :
    (next : ℕ) (claimed : List ℕ) → All (IsRef next) claimed → contains claimed next ≡ false
fresh-unclaimed next [] h = refl
fresh-unclaimed next (x ∷ xs) h =
    let other : (x == next) ≡ false = ground arith in rw other (fresh-unclaimed next xs h.1)

new_storage_varnode_ref :
    (s : VarSymbol) (t : Translator)
    → (new_storage_varnode s.storage_kind s.offset s.size t).0 ≡ t.next_ref
unfolding new_storage_varnode ◌>>=◌ new_varnode
new_storage_varnode_ref s t = elim (Bool-cases (is_stack s.storage_kind)) [
  | inl on_stack ↦ rw (on_stack, new_storage_varnode)
  | inr in_register ↦ rw (in_register, new_storage_varnode)
]

-- What the ref that `represent_new` picks is: at the storage, and not claimed before.
record IsPicked (s : VarSymbol) (claimed : List ℕ) (t : Translator) (p : ℕ × Translator)
    : Type 0 where
  valid : IsValid p.1
  later : Later t p.1
  lies : LiesAt (storage s.storage_kind) s.offset p.0 p.1
  fresh : contains claimed p.0 ≡ false

unclaimed-IsPicked :
    (s : VarSymbol) (claimed : List ℕ) (t : Translator) (p : ℕ × Translator)
    → All (IsRef t.next_ref) claimed
    → IsValid p.1
    → Later t p.1
    → LiesAt (storage s.storage_kind) s.offset p.0 p.1
    → IsPicked s claimed t (unclaimed s claimed p)
unfolding unclaimed
unclaimed-IsPicked s claimed t (rep, u) refs v l at = elim (Bool-cases (contains claimed rep)) [
  | inl taken ↦
      let (v', l', at') = new_storage_varnode-Represented s.storage_kind s.offset s.size u v in
      rw (taken, unclaimed)
        (record {
          valid = v';
          later = Later-trans t u _ l l';
          lies = at';
          fresh =
              ap (contains claimed) (new_storage_varnode_ref s u)
              ∙ fresh-unclaimed u.next_ref claimed
                  (AreRefs-grown t.next_ref u.next_ref l.more_refs claimed refs);
        })
  | inr free ↦ rw (free, unclaimed) (record { valid = v; later = l; lies = at; fresh = free })
]

-- What the second loop promises for the symbols that it has done.
abbrev pub HasRepresentative : VarSymbol → Type 0
HasRepresentative s = (rest : List ℕ) × (s.member_refs ≡ s.varnode_ref ∷ rest)

record IsDone (s : VarSymbol) (claimed : List ℕ) (t : Translator) (q : VarSymbol × Claims)
    : Type 0 where
  valid : IsValid q.1.1
  later : Later t q.1.1
  refs : All (IsRef q.1.1.next_ref) q.1.0
  placed : IsPlaced q.1.1 q.0
  has : HasRepresentative q.0
  fair :
      (r others : ℕ)
      → others + count r s.member_refs ≤ one_if (contains claimed r)
      → others + count r q.0.member_refs ≤ one_if (contains q.1.0 r)

module _ (s : VarSymbol) (claimed : List ℕ) (t : Translator) (v : IsValid t)
    (refs : All (IsRef t.next_ref) claimed) (placed : IsPlaced t s) where
  picked-IsDone :
      (p : ℕ × Translator)
      → s.member_refs ≡ []
      → IsPicked s claimed t p
      → IsDone s claimed t (represented_by s p.0, (p.0 ∷ claimed, p.1))
  picked-IsDone (rep, u) empty k = record {
    valid = k.valid;
    later = k.later;
    refs = (k.lies.0, AreRefs-grown t.next_ref u.next_ref k.later.more_refs claimed refs);
    placed = (
      placed.0,
      subst (λ ms. All (λ r. LiesAt s.storage_kind s.offset r u) ms) (sym alone)
          (subst (λ kind. LiesAt kind s.offset rep u) placed.0 k.lies, tt),
    );
    has = ([], alone);
    fair = λ r others h.
        let before = ap (count r) empty in
        let after = ap (count r) alone in
        claimed_once rep r others _ claimed k.fresh (omega (arith, before)) (omega (arith, after));
  }
    where
      alone : s.member_refs ++ rep ∷ [] ≡ rep ∷ []
      alone = ap (λ ms. ms ++ rep ∷ []) empty

  represent_new-IsDone : s.member_refs ≡ [] → IsDone s claimed t (represent_new s (claimed, t))
  unfolding represent_new
  represent_new-IsDone empty =
      let (v', l, at, _) = representative-Represented s.storage_kind s.offset s.size 0 t v in
      picked-IsDone (unclaimed s claimed (variable_representative s.storage_kind s.offset s.size t))
        empty (unclaimed-IsPicked s claimed t _ refs v' l at)

  represent_with-IsDone :
      (ms : List ℕ) → s.member_refs ≡ ms → IsDone s claimed t (represent_with s (claimed, t) ms)
  represent_with-IsDone [] e = represent_new-IsDone e
  represent_with-IsDone (r ∷ rs) e = record {
    valid = v;
    later = Later-refl t;
    refs = refs;
    placed = placed;
    has = (rs, e);
    fair = λ r others h. h;
  }

-- What holds of the symbols behind the second loop, with `others` members in the symbols before.
record AreDone (ss : List VarSymbol) (claimed : List ℕ) (t : Translator)
    (q : List VarSymbol × Claims) : Type 0 where
  valid : IsValid q.1.1
  later : Later t q.1.1
  placed : All (IsPlaced q.1.1) q.0
  have : All HasRepresentative q.0
  fair :
      (r others : ℕ)
      → others + members r ss ≤ one_if (contains claimed r)
      → others + members r q.0 ≤ one_if (contains q.1.0 r)

second_pass-AreDone :
    (ss : List VarSymbol) (claimed : List ℕ) (t : Translator)
    → IsValid t
    → All (IsRef t.next_ref) claimed
    → All (IsPlaced t) ss
    → AreDone ss claimed t (second_pass ss (claimed, t))
unfolding second_pass represent
second_pass-AreDone [] claimed t v refs placed = record {
  valid = v;
  later = Later-refl t;
  placed = tt;
  have = tt;
  fair = λ r others h. h;
}
second_pass-AreDone (s ∷ ss) claimed t v refs placed =
    let c : Claims = (represent s (claimed, t)).1 in
    let d : IsDone s claimed t (represent s (claimed, t)) =
      represent_with-IsDone s claimed t v refs placed.0 s.member_refs refl in
    let ds : AreDone ss c.0 c.1 (second_pass ss c) =
      second_pass-AreDone ss c.0 c.1 d.valid d.refs (AllPlaced-Later t c.1 ss d.later placed.1) in
    record {
      valid = ds.valid;
      later = Later-trans t c.1 (second_pass ss c).1.1 d.later ds.later;
      placed = (
        IsPlaced-Later c.1 (second_pass ss c).1.1 (represent s (claimed, t)).0 ds.later d.placed,
        ds.placed,
      );
      have = (d.has, ds.have);
      fair = λ r others h.
          let first_done = d.fair r (others + members r ss) (omega arith) in
          let rest_done =
            ds.fair r (others + count r (represent s (claimed, t)).0.member_refs) (omega arith) in
          omega (arith, rest_done);
    }

one_if-le : (b : Bool) → one_if b ≤ 1
one_if-le true = omega arith
one_if-le false = omega arith

-- With a translator, `build` gives every symbol a representative, the first of its members; the
-- members of a symbol are varnodes of the translator that lie at the symbol's storage; and no varnode
-- is a member of two symbols, or twice of one. The translator keeps its invariant. It holds for
-- every sequence of chunks, whatever variables share a storage.
pub build_with-IsPlaced :
    (regs : Registers) (chunks : List Chunk) (t : Translator) (r : ℕ)
    → IsValid t
    → IsValid (build_with regs chunks t new_table).1
      × All HasRepresentative (build_with regs chunks t new_table).0.symbols
      × All
          (IsPlaced (build_with regs chunks t new_table).1)
          (build_with regs chunks t new_table).0.symbols
      × (members r (build_with regs chunks t new_table).0.symbols ≤ 1)
unfolding build_with
build_with-IsPlaced regs chunks t r v =
    let p : Pass = first_pass regs (some t) chunks (first new_table) in
    let (placed, refs) = first_pass-ArePlaced regs t v chunks (first new_table) (tt, tt) in
    let claimed = first_pass-AreClaimed regs (some t) chunks (first new_table) (λ r. omega arith) in
    let d : AreDone p.table.symbols p.claimed t (second_pass p.table.symbols (p.claimed, t)) =
      second_pass-AreDone p.table.symbols p.claimed t v refs placed in
    (
      d.valid,
      d.have,
      d.placed,
      omega (
        arith,
        d.fair r 0 (omega (arith, claimed r)),
        one_if-le (contains (second_pass p.table.symbols (p.claimed, t)).1.0 r),
      ),
    )
