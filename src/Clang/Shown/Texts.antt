-- ===== src/Clang/Shown/Texts.antt =====
-- The parts that a text is cut into join to the text.
use angr_ghidra_core.Prelude.{
  ℕ, zero, suc, ◌-◌, ◌≤◌, ◌≡◌, refl, sym, ap, ap₂, ◌∙◌, List, [], ◌∷◌, ◌++◌, ◌==◌, ==_iff, length,
  arith, inl, inr, Bool-cases,
}
use angr_ghidra_core.Packed.{Bytes}
use angr_ghidra_core.Emit.Tokens.{
  type_parts, join_part, is_word_byte, split_lines, push_byte, lstrip, same_bool,
}
use angr_ghidra_core.Clang.{spaces}

abbrev pub concat : List Bytes → Bytes
concat [] = []
concat (l ∷ ls) = l ++ concat ls

-- The runs of a type's text are the text.
concat-join_part : (c : ℕ) (ps : List Bytes) → concat (join_part c ps) ≡ c ∷ concat ps
concat-join_part c [] = refl
concat-join_part c ([] ∷ ps) = refl
concat-join_part c ((d ∷ ds) ∷ ps) =
    elim (Bool-cases (same_bool (is_word_byte c) (is_word_byte d))) [
      | inl same ↦ rw same
      | inr other ↦ rw other
    ]

pub concat-type_parts : (text : Bytes) → concat (type_parts text) ≡ text
unfolding type_parts
concat-type_parts [] = refl
concat-type_parts (c ∷ cs) =
    concat-join_part c (type_parts cs) ∙ ap (λ bs. c ∷ bs) (concat-type_parts cs)

-- The lines of a text, each but the first behind a newline, are the text.
abbrev pub behind_newline : List Bytes → Bytes
behind_newline [] = []
behind_newline (l ∷ ls) = 10 ∷ (l ++ behind_newline ls)

abbrev pub unsplit : List Bytes → Bytes
unsplit [] = []
unsplit (l ∷ ls) = l ++ behind_newline ls

unsplit-push_byte : (c : ℕ) (ls : List Bytes) → unsplit (push_byte c ls) ≡ c ∷ unsplit ls
unsplit-push_byte c [] = refl
unsplit-push_byte c (l ∷ ls) = refl

split_lines-cons : (text : Bytes) → (l : Bytes) × (ls : List Bytes) × (split_lines text ≡ l ∷ ls)
unfolding split_lines
split_lines-cons [] = ([], [], refl)
split_lines-cons (c ∷ cs) = elim (Bool-cases (c == 10)) [
  | inl newline ↦ ([], split_lines cs, rw newline)
  | inr other ↦ let (l, ls, e) = split_lines-cons cs in (c ∷ l, ls, rw other (ap (push_byte c) e))
]

behind_newline-split_lines :
    (text : Bytes) → behind_newline (split_lines text) ≡ 10 ∷ unsplit (split_lines text)
behind_newline-split_lines text =
    let (l, ls, e) = split_lines-cons text in
    ap behind_newline e ∙ sym (ap (λ lines. 10 ∷ unsplit lines) e)

pub unsplit-split_lines : (text : Bytes) → unsplit (split_lines text) ≡ text
unfolding split_lines
unsplit-split_lines [] = refl
unsplit-split_lines (c ∷ cs) = elim (Bool-cases (c == 10)) [
  | inl newline ↦ rw newline (
      behind_newline-split_lines cs
      ∙ ap₂ ◌∷◌ (sym ((==_iff c 10).0 newline)) (unsplit-split_lines cs))
  | inr other ↦
      rw other (unsplit-push_byte c (split_lines cs) ∙ ap (λ bs. c ∷ bs) (unsplit-split_lines cs))
]

-- The indentation and what `lstrip` leaves are the line.
lstrip_le : (seg : Bytes) → length (lstrip seg) ≤ length seg
unfolding lstrip
lstrip_le [] = omega arith
lstrip_le (c ∷ cs) = elim (Bool-cases (c == b' ')) [
  | inl blank ↦ rw blank (omega (arith, lstrip_le cs))
  | inr other ↦ rw other (omega arith)
]

pub spaces-lstrip : (seg : Bytes) → spaces (length seg - length (lstrip seg)) ++ lstrip seg ≡ seg
unfolding lstrip
spaces-lstrip [] = refl
spaces-lstrip (c ∷ cs) = elim (Bool-cases (c == b' ')) [
  | inl blank ↦ rw blank (
      ap (λ (n : ℕ). spaces n ++ lstrip cs) {y = suc (length cs - length (lstrip cs))}
        (omega (arith, lstrip_le cs))
      ∙ ap₂ ◌∷◌ (sym ((==_iff c b' ').0 blank)) (spaces-lstrip cs))
  | inr other ↦ rw other (ap (λ (n : ℕ). spaces n ++ c ∷ cs) {y = zero} (omega arith))
]
