-- ===== src/Pcode/Invariant.antt =====
-- core/pcode.py: the invariant of PcodeTranslator, and the rules by which a method keeps it.
use angr_ghidra_core.Prelude.{
  append-nil, append_assoc, ℕ, ◌+◌, ◌≤◌, ◌<◌, ◌≡◌, refl, sym, ap, ◌∙◌, ◌==◌, List, [], ◌∷◌, ◌++◌,
  Option, none, some, map, All, arith,
}
use angr_ghidra_core.Prelude.Int.{ℤ, pos}
use angr_ghidra_core.Prelude.Dicts.{eq_int, get, Entries}
use mathlib.Core.Path.{subst}
use angr_ghidra_core.Dynahash.{Space, unique_space, const_space, stack_space, register_space}
use angr_ghidra_core.Pcode.{Varnode, Op, Translator}
use angr_ghidra_core.Pcode.State.{Step, ◌>>=◌}

-- Refs count up from `from`, and `next` is the one behind the last.
abbrev pub Numbered : ℕ → List Varnode → ℕ → Type 0
Numbered from [] next = from ≡ next
Numbered from (v ∷ vs) next = (v.ref ≡ from) × Numbered (from + 1) vs next

-- So do the times of the operations.
abbrev pub Timed : ℕ → List Op → ℕ → Type 0
Timed from [] next = from ≡ next
Timed from (op ∷ ops) next = (op.time ≡ from) × Timed (from + 1) ops next

-- The place behind a varnode: only temporaries take room.
abbrev pub behind : Space → ℕ → ℕ → ℕ
behind unique_space from size = from + size
behind const_space from size = from
behind stack_space from size = from
behind register_space from size = from

abbrev pub PlacedAt : Space → ℕ → ℤ → Type 0
PlacedAt unique_space from offset = offset ≡ pos from
PlacedAt const_space from offset = Unit {0}
PlacedAt stack_space from offset = Unit {0}
PlacedAt register_space from offset = Unit {0}

-- A temporary begins where the one before it ends, so that no two overlap.
abbrev pub LaidOut : ℕ → List Varnode → ℕ → Type 0
LaidOut from [] next = from ≡ next
LaidOut from (v ∷ vs) next =
    PlacedAt v.space from v.offset × LaidOut (behind v.space from v.size) vs next

-- A ref that was handed out before `next`.
abbrev pub IsRef : ℕ → ℕ → Type 0
IsRef next r = (0x300 ≤ r) × (r < next)

abbrev pub OutputIsRef : ℕ → Option ℕ → Type 0
OutputIsRef next none = Unit {0}
OutputIsRef next (some r) = IsRef next r

abbrev pub OpIsClosed : ℕ → Op → Type 0
OpIsClosed next op = OutputIsRef next op.output × All (IsRef next) op.inputs

abbrev pub RefsOf : ℕ → List (ℕ × ℕ) → Type 0
RefsOf next d = All (λ (e : ℕ × ℕ). IsRef next e.1) d

-- The ref of a varnode at a storage location.
abbrev pub Located : ℕ → List (ℕ × Varnode) → Space → ℤ → ℕ → Type 0
Located next index space offset r =
    IsRef next r
    × ((v : Varnode) × (get ◌==◌ r index ≡ some v) × (v.space ≡ space) × (v.offset ≡ offset))

-- The representatives of the locations of a space, and the members there.
abbrev pub Represents : ℕ → List (ℕ × Varnode) → Space → List (ℤ × ℕ) → Type 0
Represents next index space d = Entries eq_int (Located next index space) d

abbrev pub Lists : ℕ → List (ℕ × Varnode) → Space → List (ℤ × List ℕ) → Type 0
Lists next index space d = Entries eq_int (λ offset. All (Located next index space offset)) d

abbrev pub keyed : Varnode → ℕ × Varnode
keyed v = (v.ref, v)

pub record IsValid (t : Translator) : Type 0 where
  pub numbered : Numbered 0x300 t.varnodes t.next_ref
  pub timed : Timed 1 t.ops t.next_time
  pub laid_out : LaidOut 0x10000000 t.varnodes t.next_unique
  pub indexed : t.by_ref ≡ map keyed t.varnodes
  pub closed : All (OpIsClosed t.next_ref) t.ops
  pub vvars : RefsOf t.next_ref t.vvar_ref
  pub stack_reps : Represents t.next_ref t.by_ref stack_space t.stack_rep
  pub reg_reps : Represents t.next_ref t.by_ref register_space t.reg_rep
  pub stack_lists : Lists t.next_ref t.by_ref stack_space t.stack_members
  pub reg_lists : Lists t.next_ref t.by_ref register_space t.reg_members

-- What every method but `translate` leaves alone, and how it moves the counters.
pub record Later (t t' : Translator) : Type 0 where
  pub more_refs : t.next_ref ≤ t'.next_ref
  pub more_times : t.next_time ≤ t'.next_time
  pub same_blocks : t'.blocks ≡ t.blocks
  pub same_index : t'.ops_by_time ≡ t.ops_by_time
  pub more_varnodes : (more : List (ℕ × Varnode)) × (t'.by_ref ≡ t.by_ref ++ more)

pub Later-refl : (t : Translator) → Later t t
Later-refl t = record {
  more_refs = omega arith;
  more_times = omega arith;
  same_blocks = refl;
  same_index = refl;
  more_varnodes = ([], sym (append-nil t.by_ref));
}

pub later_of :
    (t u : Translator)
    → t.next_ref ≤ u.next_ref
    → t.next_time ≤ u.next_time
    → u.blocks ≡ t.blocks
    → u.ops_by_time ≡ t.ops_by_time
    → (more : List (ℕ × Varnode)) → u.by_ref ≡ t.by_ref ++ more
    → Later t u
later_of t u a b c d more e = record {
  more_refs = a;
  more_times = b;
  same_blocks = c;
  same_index = d;
  more_varnodes = (more, e);
}

pub Later-trans : (t u w : Translator) → Later t u → Later u w → Later t w
Later-trans t u w a b = record {
  more_refs = omega (arith, a.more_refs, b.more_refs);
  more_times = omega (arith, a.more_times, b.more_times);
  same_blocks = b.same_blocks ∙ a.same_blocks;
  same_index = b.same_index ∙ a.same_index;
  more_varnodes = (
    a.more_varnodes.0 ++ b.more_varnodes.0,
    b.more_varnodes.1
        ∙ ap (λ d. d ++ b.more_varnodes.0) a.more_varnodes.1
        ∙ append_assoc t.by_ref a.more_varnodes.0 b.more_varnodes.0,
  );
}

-- A method that starts with at least `n` as the next ref keeps the invariant, hands no ref out
-- twice, and its result has the property `R` for the next ref at its end.
pub record Keeps {A : Type 0} (n : ℕ) (R : ℕ → A → Type 0) (m : Step A) : Type 0 where
  pub run :
      (t : Translator)
      → IsValid t
      → n ≤ t.next_ref
      → IsValid (m t).1 × Later t (m t).1 × R (m t).1.next_ref (m t).0

-- No promise for the result.
abbrev pub NoMatter : {A : Type 0} → ℕ → A → Type 0
NoMatter n a = Unit {0}

pub bind-Keeps :
    {A B : Type 0} (R : ℕ → A → Type 0) (S : ℕ → B → Type 0) (n : ℕ) (m : Step A) (k : A → Step B)
    → Keeps n R m
    → ((a : A) (n' : ℕ) → n ≤ n' → R n' a → Keeps n' S (k a))
    → Keeps n S (m >>= k)
unfolding ◌>>=◌
bind-Keeps R S n m k first rest = record {
  run = λ t v h.
      let (v', l, r) = first.run t v h in
      let (v'', l', s) =
        (rest (m t).0 (m t).1.next_ref (omega (arith, l.more_refs)) r).run (m t).1 v'
          (omega arith) in
      (v'', Later-trans t (m t).1 (k (m t).0 (m t).1).1 l l', s);
}

-- Numbers, times and places go on at the end of a list.
pub Numbered-append :
    (from next : ℕ) (vs : List Varnode) (v : Varnode)
    → Numbered from vs next
    → v.ref ≡ next
    → Numbered from (vs ++ v ∷ []) (next + 1)
Numbered-append from next [] v h e = (omega arith, omega arith)
Numbered-append from next (w ∷ vs) v h e = (h.0, Numbered-append (from + 1) next vs v h.1 e)

pub Timed-append :
    (from next : ℕ) (ops : List Op) (op : Op)
    → Timed from ops next
    → op.time ≡ next
    → Timed from (ops ++ op ∷ []) (next + 1)
Timed-append from next [] op h e = (omega arith, omega arith)
Timed-append from next (o ∷ ops) op h e = (h.0, Timed-append (from + 1) next ops op h.1 e)

pub LaidOut-append :
    (from next : ℕ) (vs : List Varnode) (v : Varnode)
    → LaidOut from vs next
    → PlacedAt v.space next v.offset
    → LaidOut from (vs ++ v ∷ []) (behind v.space next v.size)
LaidOut-append from next [] v h p =
    (subst (λ n. PlacedAt v.space n v.offset) (sym h) p, ap (λ n. behind v.space n v.size) h)
LaidOut-append from next (w ∷ vs) v h p =
    (h.0, LaidOut-append (behind w.space from w.size) next vs v h.1 p)
