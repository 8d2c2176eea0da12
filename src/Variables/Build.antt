-- ===== src/Variables/Build.antt =====
-- core/variables.py: `build`, which makes a symbol for each variable and gives it its varnodes.
use angr_ghidra_core.Prelude.{
  ℕ, zero, suc, ◌+◌, List, [], ◌∷◌, ◌++◌, Option, none, some, ◌==◌, if◌then◌else◌, length,
  get_elem?,
}
use angr_ghidra_core.Prelude.Dicts.{get, put}
use angr_ghidra_core.Dynahash.{contains}
use angr_ghidra_core.Pcode.{Translator}
use angr_ghidra_core.Pcode.State.{occurrence_ref, variable_representative, new_storage_varnode}
use angr_ghidra_core.Variables.{
  SimVariable, CVariable, Chunk, occurrence, other_chunk, VarSymbol, Table, Registers, make_symbol,
}

-- The state of the first pass.
pub record Pass : Type 0 where
  pub table : Table
  pub skipped : List ℕ
  pub claimed : List ℕ
  pub param_index : ℕ

-- `sym.member_refs.append(ref)` for the symbol at a place.
unfoldable pub add_ref : ℕ → ℕ → List VarSymbol → List VarSymbol
add_ref place ref [] = []
add_ref zero ref (s ∷ ss) = record s { member_refs = s.member_refs ++ ref ∷ [] } ∷ ss
add_ref (suc place) ref (s ∷ ss) = s ∷ add_ref place ref ss

-- The last lines of the first loop.
unfoldable pub claim : Option ℕ → ℕ → Pass → Pass
unfolding add_ref
claim none place p = p
claim (some occ) place p = if contains p.claimed occ then p else record p {
  table = record p.table { symbols = add_ref place occ p.table.symbols };
  claimed = occ ∷ p.claimed;
}

abbrev pub occurrence_at : Option Translator → Option ℕ → Option VarSymbol → Option ℕ
occurrence_at (some t) vvar_id (some s) = occurrence_ref vvar_id s.storage_kind s.offset t
occurrence_at translator vvar_id s = none

unfoldable pub note_occurrence : Option Translator → Option ℕ → ℕ → Pass → Pass
unfolding claim
note_occurrence translator vvar_id place p =
    claim (occurrence_at translator vvar_id (get_elem? p.table.symbols place)) place p

-- A variable that has no symbol yet.
unfoldable pub add_symbol : Registers → Option Translator → CVariable → SimVariable → Pass → Pass
unfolding make_symbol note_occurrence put
add_symbol regs translator obj var p =
    let count = length p.table.symbols in
    let made = make_symbol regs obj var count p.table.next_id p.param_index in
    elim made.0 [
      | none ↦ record p { skipped = var.var_id ∷ p.skipped; param_index = made.1 }
      | some s ↦ note_occurrence translator obj.vvar_id count (record p {
        table = record p.table {
          by_var_id = put ◌==◌ var.var_id count p.table.by_var_id;
          symbols = p.table.symbols ++ s ∷ [];
          next_id = p.table.next_id + 1;
        };
        param_index = made.1;
      })
    ]

unfoldable pub on_variable : Registers → Option Translator → CVariable → SimVariable → Pass → Pass
unfolding add_symbol get
on_variable regs translator obj var p =
    if contains p.skipped var.var_id then p else elim (get ◌==◌ var.var_id p.table.by_var_id) [
      | some place ↦ note_occurrence translator obj.vvar_id place p
      | none ↦ add_symbol regs translator obj var p
    ]

abbrev pub on_object : Registers → Option Translator → CVariable → Option SimVariable → Pass → Pass
on_object regs translator obj none p = p
on_object regs translator obj (some var) p = on_variable regs translator obj var p

-- One round of the first loop.
unfoldable pub on_chunk : Registers → Option Translator → Chunk → Pass → Pass
unfolding on_variable
on_chunk regs translator other_chunk p = p
on_chunk regs translator (occurrence obj) p = on_object regs translator obj obj.variable p

unfoldable pub first_pass : Registers → Option Translator → List Chunk → Pass → Pass
unfolding on_chunk
first_pass regs translator [] p = p
first_pass regs translator (c ∷ cs) p = first_pass regs translator cs (on_chunk regs translator c p)

-- What the second loop changes: the claimed refs and the translator.
abbrev pub Claims : Type 0
Claims = List ℕ × Translator

abbrev pub represented_by : VarSymbol → ℕ → VarSymbol
represented_by s rep = record s { varnode_ref = rep; member_refs = s.member_refs ++ rep ∷ [] }

-- `if rep in claimed: rep = translator.new_storage_varnode(...)`
unfoldable pub unclaimed : VarSymbol → List ℕ → ℕ × Translator → ℕ × Translator
unfolding new_storage_varnode
unclaimed s claimed (rep, t) =
    if contains claimed rep then new_storage_varnode s.storage_kind s.offset s.size t else (rep, t)

unfoldable pub represent_new : VarSymbol → Claims → VarSymbol × Claims
unfolding unclaimed variable_representative
represent_new s (claimed, t) =
    let (rep, t') =
      unclaimed s claimed (variable_representative s.storage_kind s.offset s.size t) in
    (represented_by s rep, (rep ∷ claimed, t'))

-- `if sym.member_refs:`, by the list.
abbrev pub represent_with : VarSymbol → Claims → List ℕ → VarSymbol × Claims
represent_with s c (r ∷ rs) = (record s { varnode_ref = r }, c)
represent_with s c [] = represent_new s c

unfoldable pub represent : VarSymbol → Claims → VarSymbol × Claims
unfolding represent_new
represent s c = represent_with s c s.member_refs

-- The second loop, with a translator.
unfoldable pub second_pass : List VarSymbol → Claims → List VarSymbol × Claims
unfolding represent
second_pass [] c = ([], c)
second_pass (s ∷ ss) c =
    let (s', c') = represent s c in let (ss', c'') = second_pass ss c' in (s' ∷ ss', c'')

-- The second loop, without one: the symbols, and the next ref.
abbrev pub number_with : VarSymbol → ℕ → List ℕ → VarSymbol × ℕ
number_with s next (r ∷ rs) = (record s { varnode_ref = r }, next)
number_with s next [] = (represented_by s next, next + 1)

unfoldable pub number_symbols : List VarSymbol → ℕ → List VarSymbol × ℕ
number_symbols [] next = ([], next)
number_symbols (s ∷ ss) next =
    let (s', next') = number_with s next s.member_refs in
    let (ss', next'') = number_symbols ss next' in (s' ∷ ss', next'')

abbrev pub first : Table → Pass
first table = record { table = table; skipped = []; claimed = []; param_index = 0 }

unfoldable pub build_with : Registers → List Chunk → Translator → Table → Table × Translator
unfolding first_pass second_pass
build_with regs chunks t table =
    let p = first_pass regs (some t) chunks (first table) in
    let (symbols, (_, t')) = second_pass p.table.symbols (p.claimed, t) in
    (record p.table { symbols = symbols }, t')

unfoldable pub build_without : Registers → List Chunk → Table → Table
unfolding first_pass number_symbols
build_without regs chunks table =
    let p = first_pass regs none chunks (first table) in
    let (symbols, next) = number_symbols p.table.symbols p.table.next_ref in
    record p.table { symbols = symbols; next_ref = next }

-- `symref_for`: a symbol's id is none where the variable has none.
unfoldable pub symref_for : SimVariable → Table → Option ℕ
unfolding get
symref_for var table = elim (get ◌==◌ var.var_id table.by_var_id) [
  | none ↦ none
  | some place ↦ elim (get_elem? table.symbols place) [ none ↦ none | some s ↦ some s.sym_id ]
]
