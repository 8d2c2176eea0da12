-- ===== src/Core/Names.antt =====
-- core/angr_core.py: the names of call targets. The name that is made of an address, if there is no
-- other, is an argument.
use angr_ghidra_core.Prelude.{
  ℕ, zero, suc, ◌+◌, ◌≤◌, ◌↔◌, length-append, ==_iff, Bool, true, false, ◌&&◌, [], ◌∷◌, ◌++◌,
  Option, none, some, ◌==◌, if◌then◌else◌, length, ◌≡◌, refl, sym, ◌∙◌, ap, arith, Bool-cases,
  Option-cases, inl, inr,
}
use mathlib.Core.Path.{subst}
use angr_ghidra_core.Prelude.Int.{pos}
use angr_ghidra_core.Prelude.Result.{Result, ok, err}
use angr_ghidra_core.Prelude.Text.{codes}
use angr_ghidra_core.Packed.{Bytes}
use angr_ghidra_core.Packed.Utf8.{decode_utf8}
use angr_ghidra_core.Address.{index, encode_addr}
use angr_ghidra_core.Transport.{Transport, Run, ◌>>=◌}
use angr_ghidra_core.Server.{lift, Reply, string, bytes, empty}
use angr_ghidra_core.Emit.Writer.{Action, within}
use angr_ghidra_core.Core.Queries.{ask}
use angr_ghidra_core.Ids.Consts.{elem_command_getcodelabel}

-- What stands behind the first ">_".
abbrev after_namespace : Bytes → Option Bytes
after_namespace [] = none
after_namespace (c ∷ []) = none
after_namespace (c ∷ d ∷ rest) =
    let later = after_namespace (d ∷ rest) in if c == b'>' && d == b'_' then some rest else later

-- A name without its first namespace, if it has one.
abbrev pub base : Bytes → Option Bytes
base [] = none
base (c ∷ cs) = if c == b'<' then after_namespace (c ∷ cs) else none

abbrev base_or : Bytes → Option Bytes → (Bytes → Bytes) → Bytes
base_or name none next = name
base_or name (some rest) next = next rest

-- Every round drops at least two letters, so a name's length bounds the rounds.
unfoldable clean_rounds : ℕ → Bytes → Bytes
clean_rounds zero name = name
clean_rounds (suc fuel) name = base_or name (base name) (clean_rounds fuel)

unfoldable pub clean_symbol_name : Bytes → Bytes
unfolding clean_rounds
clean_symbol_name name = clean_rounds (length name) name

unfoldable label_question : ℕ → ℕ → Action
unfolding within
label_question space_ram addr =
    within elem_command_getcodelabel
      (encode_addr (record { space = index space_ram; offset = pos addr }))

abbrev label_in : Reply → Result Bytes
label_in (string (b ∷ bs)) = decode_utf8 (b ∷ bs)
label_in (string []) = ok []
label_in (bytes payload) = ok []
label_in empty = ok []

-- `_query_code_label`
unfoldable pub query_code_label : ℕ → ℕ → Run Transport Bytes
unfolding label_question
query_code_label space_ram addr = do
  reply ← ask (label_question space_ram addr)
  lift (label_in reply)

abbrev has_prefix : Bytes → Bytes → Bool
has_prefix [] name = true
has_prefix (p ∷ ps) [] = false
has_prefix (p ∷ ps) (c ∷ cs) = p == c && has_prefix ps cs

abbrev or_default : Bytes → Bytes → Bytes
or_default [] default = default
or_default label default = label

-- `except Exception`: a failed query gives no label.
abbrev labelled : Bytes → Result Bytes × Transport → Result Bytes × Transport
unfolding clean_symbol_name
labelled default (ok label, t) = (ok (or_default (clean_symbol_name label) default), t)
labelled default (err e, t) = (ok default, t)

-- `_target_name`, by the name of the mapped function, which is none if there is no such text.
unfoldable pub target_name : ℕ → ℕ → Bytes → Option Bytes → Run Transport Bytes
unfolding clean_symbol_name query_code_label labelled
target_name space_ram target default mapped t =
    let label = labelled default (query_code_label space_ram target t) in
    elim mapped [
      | none ↦ label
      | some [] ↦ label
      | some (c ∷ cs) ↦
          if has_prefix (codes "func_") (c ∷ cs)
          then label
          else (ok (clean_symbol_name (c ∷ cs)), t)
    ]

-- A ">_" in a text.
abbrev pub HasEnd : Bytes → Type 0
HasEnd text = (before after : Bytes) × (text ≡ before ++ (b'>' ∷ b'_' ∷ after))

-- A name that has a namespace before it: "<", anything, and ">_".
abbrev pub HasNamespace : Bytes → Type 0
HasNamespace name = (inside rest : Bytes) × (name ≡ b'<' ∷ (inside ++ (b'>' ∷ b'_' ∷ rest)))

-- What a name is to be cleaned to: every namespace before it, up to its first ">_", is dropped, and
-- nothing else.
pub data Cleans : Bytes → Bytes → Type 0 where
  plain : {name : Bytes} → ¬ HasNamespace name → Cleans name name
  dropped :
      {name cleaned : Bytes} (inside rest : Bytes)
      → name ≡ b'<' ∷ (inside ++ (b'>' ∷ b'_' ∷ rest))
      → ¬ HasEnd inside
      → Cleans rest cleaned
      → Cleans name cleaned

nil-HasEnd : ¬ HasEnd []
nil-HasEnd ([], after, e) = cc
nil-HasEnd (b ∷ before, after, e) = cc

-- An end in a text that begins with a letter is at the letter or behind it.
cons-HasEnd :
    (c : ℕ) (text : Bytes)
    → ¬ ((after : Bytes) × (c ≡ b'>') × (text ≡ b'_' ∷ after))
    → ¬ HasEnd text
    → ¬ HasEnd (c ∷ text)
cons-HasEnd c text here later ([], after, e) = here (after, cc e, cc e)
cons-HasEnd c text here later (b ∷ before, after, e) = later (before, after, cc e)

tests_differ : (c d : ℕ) → (c == b'>' && d == b'_') ≡ false → ¬ ((c ≡ b'>') × (d ≡ b'_'))
tests_differ c d miss both = absurd (ground arith)

after_namespace-none : (name : Bytes) → after_namespace name ≡ none → ¬ HasEnd name
after_namespace-none [] e = nil-HasEnd
after_namespace-none (c ∷ []) e = cons-HasEnd c [] (λ h. cc (h.2)) nil-HasEnd
after_namespace-none (c ∷ d ∷ more) e = elim (Bool-cases (c == b'>' && d == b'_')) [
  | inl hit ↦ (let some_none : some more ≡ none = rw hit at e in absurd (cc some_none))
  | inr miss ↦
      cons-HasEnd c (d ∷ more) (λ h. tests_differ c d miss (h.1, cc (h.2)))
        (after_namespace-none (d ∷ more) (rw miss at e))
]

-- The first ">_" of a text, and what follows it.
abbrev FirstEnd : Bytes → Bytes → Type 0
FirstEnd name rest = (inside : Bytes) × (name ≡ inside ++ (b'>' ∷ b'_' ∷ rest)) × (¬ HasEnd inside)

after_namespace-FirstEnd :
    (name rest : Bytes) → after_namespace name ≡ some rest → FirstEnd name rest
after_namespace-FirstEnd [] rest e = cc
after_namespace-FirstEnd (c ∷ []) rest e = cc
after_namespace-FirstEnd (c ∷ d ∷ more) rest e = elim (Bool-cases (c == b'>' && d == b'_')) [
  | inl hit ↦
      let same : some more ≡ some rest = rw hit at e in
      let c_is : c ≡ b'>' = ground arith in
      let d_is : d ≡ b'_' = ground arith in ([], cc (same, c_is, d_is), nil-HasEnd)
  | inr miss ↦
      let (inside, splits, no_end) = after_namespace-FirstEnd (d ∷ more) rest (rw miss at e) in
      (
        c ∷ inside,
        ap (λ r. c ∷ r) splits,
        cons-HasEnd c inside
            (λ h.
              let second : d ∷ more ≡ b'_' ∷ (h.0 ++ (b'>' ∷ b'_' ∷ rest)) =
                splits ∙ ap (λ i. i ++ (b'>' ∷ b'_' ∷ rest)) h.2 in
              tests_differ c d miss (h.1, cc second))
            no_end,
      )
]

base-none : (name : Bytes) → base name ≡ none → ¬ HasNamespace name
base-none [] e (inside, rest, h) = cc
base-none (c ∷ cs) e (inside, rest, h) = elim (Bool-cases (c == b'<')) [
  | inl angle ↦ after_namespace-none (c ∷ cs) (rw angle at e) (b'<' ∷ inside, rest, h)
  | inr other ↦ (let c_is : c ≡ b'<' = cc h in absurd (ground (arith, c_is, other)))
]

-- A name that has a base has a namespace before it, up to its first end.
abbrev IsDropped : Bytes → Bytes → Type 0
IsDropped name rest =
    (inside : Bytes) × (name ≡ b'<' ∷ (inside ++ (b'>' ∷ b'_' ∷ rest))) × (¬ HasEnd inside)

opened : (c : ℕ) (cs rest : Bytes) → c ≡ b'<' → FirstEnd (c ∷ cs) rest → IsDropped (c ∷ cs) rest
opened c cs rest c_is ([], splits, no_end) = absurd (omega (arith, c_is, other))
  where
    other : c ≡ b'>'
    other = cc splits
opened c cs rest c_is (b ∷ inside, splits, no_end) =
    (inside, cc (splits, c_is), λ (before, after, e). no_end (b ∷ before, after, ap (λ t. b ∷ t) e))

base-IsDropped : (name rest : Bytes) → base name ≡ some rest → IsDropped name rest
base-IsDropped [] rest e = cc
base-IsDropped (c ∷ cs) rest e = elim (Bool-cases (c == b'<')) [
  | inl angle ↦
      opened c cs rest ((==_iff c b'<').0 angle)
        (after_namespace-FirstEnd (c ∷ cs) rest (rw angle at e))
  | inr other ↦ (let none_some : none ≡ some rest = rw other at e in absurd (cc none_some))
]

clean_rounds-Cleans :
    (fuel : ℕ) (name : Bytes) → length name ≤ fuel → Cleans name (clean_rounds fuel name)
unfolding clean_rounds
clean_rounds-Cleans zero [] h = plain (base-none [] refl)
clean_rounds-Cleans zero (c ∷ cs) h = absurd (omega arith)
clean_rounds-Cleans (suc fuel) name h = elim (Option-cases (base name)) [
  | inl e ↦
      subst (Cleans name) (sym (ap (λ o. base_or name o (clean_rounds fuel)) e))
        (plain (base-none name e))
  | inr (rest, e) ↦
      let (inside, splits, no_end) = base-IsDropped name rest e in
      let size : length name ≡ suc (length inside + suc (suc (length rest))) =
        ap length splits ∙ ap suc (length-append inside (b'>' ∷ b'_' ∷ rest)) in
      subst (Cleans name) (sym (ap (λ o. base_or name o (clean_rounds fuel)) e))
        (dropped inside rest splits no_end (clean_rounds-Cleans fuel rest (omega (arith, size, h))))
]

no_overlap :
    (x : ℕ) (inside r s : Bytes)
    → b'>' ∷ b'_' ∷ r ≡ x ∷ (inside ++ (b'>' ∷ b'_' ∷ s))
    → HasEnd (x ∷ inside)
no_overlap x [] r s e = absurd (omega (arith, underscore))
  where
    underscore : ◌≡◌ {A = ℕ} b'_' b'>'
    underscore = cc e
no_overlap x (y ∷ inside) r s e = ([], inside, cc e)

first_end_unique :
    (i j r s : Bytes)
    → i ++ (b'>' ∷ b'_' ∷ r) ≡ j ++ (b'>' ∷ b'_' ∷ s)
    → ¬ HasEnd i
    → ¬ HasEnd j
    → r ≡ s
first_end_unique [] [] r s e hi hj = cc e
first_end_unique [] (y ∷ j) r s e hi hj = absurd (hj (no_overlap y j r s e))
first_end_unique (x ∷ i) [] r s e hi hj = absurd (hi (no_overlap x i s r (sym e)))
first_end_unique (x ∷ i) (y ∷ j) r s e hi hj =
    first_end_unique i j r s (cc e)
      (λ (before, after, k). hi (x ∷ before, after, ap (λ t. x ∷ t) k))
      (λ (before, after, k). hj (y ∷ before, after, ap (λ t. y ∷ t) k))

-- No name is cleaned to two.
Cleans_unique : {name a b : Bytes} → Cleans name a → Cleans name b → a ≡ b
Cleans_unique (plain h) (plain k) = refl
Cleans_unique (plain h) (dropped inside rest e no_end k) = absurd (h (inside, rest, e))
Cleans_unique (dropped inside rest e no_end h) (plain k) = absurd (k (inside, rest, e))
Cleans_unique {a} (dropped i r e hi h) (dropped j s e' hj k) =
    Cleans_unique (subst (λ n. Cleans n a) (first_end_unique i j r s (cc (e, e')) hi hj) h) k

-- The clean name of a symbol is the one name that this rule leads to: as long as a name is
-- "<", any letters and ">_", with anything behind, what stands up to its first ">_" is dropped; what
-- has no such beginning is left as it is.
pub clean_symbol_name-Cleans :
    (name cleaned : Bytes) → (Cleans name cleaned) ↔ (cleaned ≡ clean_symbol_name name)
unfolding clean_symbol_name
clean_symbol_name-Cleans name cleaned =
    let cleans = clean_rounds-Cleans (length name) name (omega arith) in
    (λ h. Cleans_unique h cleans, λ e. subst (Cleans name) (sym e) cleans)
