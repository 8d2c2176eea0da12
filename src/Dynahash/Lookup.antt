-- ===== src/Dynahash/Lookup.antt =====
-- `find_varnode` and `unique_hash`: the way back from a hash to its varnode.
pub mod Fields
pub mod RoundTrip
use angr_ghidra_core.Prelude.{
  ℕ, zero, suc, ◌+◌, ◌-◌, ◌*◌, ◌/◌, ◌%◌, ◌^◌, bit_and, bit_or, Bool, true, false, ◌||◌, ◌&&◌, List,
  [], ◌∷◌, ◌++◌, Option, none, some, ltb, ◌==◌, if◌then◌else◌, length, get_elem?,
}
use angr_ghidra_core.Prelude.Result.{Result, ok, err, index_error, ◌>>=◌}
use angr_ghidra_core.Dynahash.{trans, Op, Graph, def_in, descend_in, ops_at_in, contains, index_of}
use angr_ghidra_core.Dynahash.Walk.{ops_of, only, calc_hash}

-- `_comparable`
abbrev pub comparable : ℕ → ℕ
comparable h = h % 2 ^ 32

-- The fields of a hash that `_gather_first_level` and `find_varnode` read.
abbrev pub opcode_field : ℕ → ℕ
opcode_field h = h / 2 ^ 37 % 2 ^ 7

abbrev pub slot_of : ℕ → ℕ
slot_of h = h / 2 ^ 32 % 2 ^ 5

abbrev pub not_attached : ℕ → Bool
not_attached h = h / 2 ^ 48 % 2 == 1

abbrev pub method_field : ℕ → ℕ
method_field h = h / 2 ^ 44 % 2 ^ 4

abbrev pub total_field : ℕ → ℕ
total_field h = h / 2 ^ 52 % 2 ^ 3 + 1

abbrev pub position_field : ℕ → ℕ
position_field h = h / 2 ^ 49 % 2 ^ 3

-- `h & ~(0x3F << 49)`
abbrev pub clear_position : ℕ → ℕ
clear_position h = h / 2 ^ 55 * 2 ^ 55 + h % 2 ^ 49

-- The varnode behind a skipped operation that alone uses an output.
abbrev pub through_use : Graph → Bool → ℕ → List ℕ
through_use g false r = r ∷ []
through_use g true r = elim (only (descend_in (ops_of g) r)) [
  | none ↦ r ∷ []
  | some d ↦ if trans d.opcode == 0 then elim d.output [ none ↦ [] | some r2 ↦ r2 ∷ [] ] else r ∷ []
]

-- The varnode before a skipped operation that defines an input.
abbrev pub through_def : Graph → Bool → ℕ → ℕ
through_def g false r = r
through_def g true r = elim (def_in (ops_of g) r) [
  | none ↦ r
  | some d ↦ if trans d.opcode == 0 then elim d.inputs [ [] ↦ r | i ∷ rest ↦ i ] else r
]

-- What one operation adds to `out`. A slot of 31 is the output.
abbrev pub candidate : Graph → ℕ → Op → List ℕ
candidate g h op =
    if trans op.opcode == opcode_field h
    then if slot_of h == 31
      then elim op.output [ none ↦ [] | some r ↦ through_use g (not_attached h) r ]
      else elim (get_elem? op.inputs (slot_of h)) [
        | none ↦ []
        | some r ↦ through_def g (not_attached h) r ∷ []
      ]
    else []

abbrev pub candidates : Graph → ℕ → List Op → List ℕ
candidates g h [] = []
candidates g h (op ∷ ops) = candidate g h op ++ candidates g h ops

-- Each varnode once, in the order of its first place.
abbrev pub dedup : List ℕ → List ℕ → List ℕ
dedup seen [] = []
dedup seen (r ∷ rs) =
    let old = dedup seen rs in
    let new = dedup (r ∷ seen) rs in if contains seen r then old else r ∷ new

-- `_gather_first_level`
unfoldable pub first_level : Graph → ℕ → ℕ → List ℕ
first_level g addr h = dedup [] (candidates g h (ops_at_in (ops_of g) addr))

-- The candidates whose hash compares equal.
unfoldable pub matching : ℕ → Graph → ℕ → ℕ → List ℕ → Result (List ℕ)
matching addr_bytes g method h [] = ok []
matching addr_bytes g method h (r ∷ rs) = do
  (h2, _) ← calc_hash addr_bytes g r method
  more ← matching addr_bytes g method h rs
  ok (if comparable h2 == comparable h then r ∷ more else more)

-- `matches[pos]`
abbrev pub pick : List ℕ → ℕ → Result (Option ℕ)
pick matches pos = elim (get_elem? matches pos) [ none ↦ err index_error | some r ↦ ok (some r) ]

unfoldable pub find_varnode : ℕ → Graph → ℕ → ℕ → Result (Option ℕ)
find_varnode addr_bytes g addr h =
    let cleared = clear_position h in
    do
      matches ← matching addr_bytes g (method_field h) cleared (first_level g addr cleared)
      if total_field h == length matches then pick matches (position_field h) else ok none

-- The loop over the candidates of `unique_hash`, which is left behind the ninth match.
unfoldable pub matching_until : ℕ → Graph → ℕ → ℕ → List ℕ → List ℕ → Result (List ℕ)
matching_until addr_bytes g method h lst [] = ok lst
matching_until addr_bytes g method h lst (r ∷ rs) = do
  (h2, _) ← calc_hash addr_bytes g r method
  if comparable h2 == comparable h
      then (let longer = lst ++ r ∷ [] in
          if ltb 8 (length longer)
          then ok longer
          else matching_until addr_bytes g method h longer rs)
      else matching_until addr_bytes g method h lst rs

-- `champion`, and the hash and the address of the last method tried.
pub record Best : Type 0 where
  pub champion : Option (List ℕ)
  pub hash : ℕ
  pub addr : Option ℕ

-- `champion is None or len(lst) < len(champion)`, of at most eight candidates.
abbrev pub crowned : Option (List ℕ) → List ℕ → Option (List ℕ)
crowned champion lst =
    let wins : Bool = elim champion [ none ↦ true | some c ↦ ltb (length lst) (length c) ] in
    if ltb 8 (length lst) then champion else if wins then some lst else champion

-- Whether the loop over the methods is left: a new champion of one candidate.
abbrev pub decided : Option (List ℕ) → List ℕ → Bool
decided champion lst =
    let wins : Bool = elim champion [ none ↦ true | some c ↦ ltb (length lst) (length c) ] in
    if ltb 8 (length lst) then false else wins && length lst == 1

-- The methods from `method` on, `left` of them; `none` for a root without a hash.
unfoldable pub try_methods : ℕ → Graph → ℕ → ℕ → ℕ → Best → Result (Option Best)
try_methods addr_bytes g root zero method best = ok (some best)
try_methods addr_bytes g root (suc left) method best = do
  (h, a) ← calc_hash addr_bytes g root method
  if h == 0 then ok none else (do
    lst ←
        matching_until addr_bytes g method h []
          (elim a [ none ↦ [] | some addr ↦ first_level g addr h ])
    (let next : Best = record { champion = crowned best.champion lst; hash = h; addr = a } in
        if decided best.champion lst
        then ok (some next)
        else try_methods addr_bytes g root left (method + 1) next))

-- The position of the root among the champions goes into the hash.
abbrev pub placed : ℕ → Best → ℕ × Option ℕ
placed root best = elim best.champion [
  | none ↦ (0, none)
  | some champion ↦ elim (index_of champion root 0) [
    | none ↦ (0, none)
    | some pos ↦
        (bit_or (bit_or best.hash (pos * 2 ^ 49)) ((length champion - 1) * 2 ^ 52), best.addr)
  ]
]

unfoldable pub unique_hash : ℕ → Graph → ℕ → Result (ℕ × Option ℕ)
unique_hash addr_bytes g root = do
  tried ← try_methods addr_bytes g root 4 0 (record { champion = none; hash = 0; addr = none })
  ok (elim tried [ none ↦ (0, none) | some best ↦ placed root best ])
