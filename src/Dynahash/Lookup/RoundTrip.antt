-- ===== src/Dynahash/Lookup/RoundTrip.antt =====
-- The hash that `unique_hash` makes leads `find_varnode` back to the varnode.
use angr_ghidra_core.Prelude.{
  ℕ, zero, suc, ◌+◌, ◌-◌, ◌*◌, ◌^◌, ◌<◌, ◌≤◌, bit_or, Bool, true, false, List, [], ◌∷◌, ◌++◌,
  append_assoc, append-nil, Option, none, some, ◌≡◌, ◌≢◌, refl, sym, ap, ◌∙◌, arith, ◌==◌, ◌&&◌,
  ltb, if◌then◌else◌, length, get_elem?, Bool-cases, inl, inr, ltb→lt, ==_refl,
}
use mathlib.Core.Path.{subst}
use angr_ghidra_core.Prelude.Result.{ok, Result-cases}
use angr_ghidra_core.Dynahash.{Graph, index_of}
use angr_ghidra_core.Dynahash.Walk.{calc_hash}
use angr_ghidra_core.Dynahash.Lookup.{
  comparable, first_level, matching, matching_until, find_varnode, placed, Best, clear_position,
  total_field, position_field, method_field, pick, unique_hash, try_methods, crowned, decided,
}
use angr_ghidra_core.Dynahash.Lookup.Fields.{calc_hash-IsHash, placed_fields}

-- A position of `index_of` holds the element.
index_of-get_elem? :
    (xs : List ℕ) (r from pos : ℕ)
    → index_of xs r from ≡ some pos
    → (from ≤ pos) × (get_elem? xs (pos - from) ≡ some r) × (pos - from < length xs)
index_of-get_elem? [] r from pos h = cc h
index_of-get_elem? (x ∷ xs) r from pos h = elim (Bool-cases (x == r)) [
  | inl e ↦
      let here : from ≡ pos = cc (rw e at h) in
      let same : x ≡ r = ground arith in
      let start : pos - from ≡ 0 = omega arith in
      (omega arith, rw start (ap some same), omega arith)
  | inr ne ↦
      let (le, found, lt) = index_of-get_elem? xs r (from + 1) pos (rw ne at h) in
      let next : pos - from ≡ suc (pos - (from + 1)) = omega arith in
      (omega arith, rw next found, omega arith)
]

-- The loop that is left early finds all matches when it finds at most eight.
matching_until-matching :
    (addr_bytes : ℕ) (g : Graph) (method h : ℕ) (lst rs all : List ℕ)
    → matching_until addr_bytes g method h lst rs ≡ ok all
    → length all < 9
    → (more : List ℕ) × (matching addr_bytes g method h rs ≡ ok more) × (all ≡ lst ++ more)
unfolding matching_until matching
matching_until-matching addr_bytes g method h lst [] all run small =
    ([], refl, cc (run, append-nil lst))
matching_until-matching addr_bytes g method h lst (r ∷ rs) all run small =
    elim (Result-cases (calc_hash addr_bytes g r method)) [
      | inr (x, e) ↦ cc (rw e at run)
      | inl (p, e) ↦ elim (Bool-cases (comparable p.0 == comparable h)) [
        | inr differs ↦
            let (more, found, split) =
              matching_until-matching addr_bytes g method h lst rs all (rw (e, differs) at run)
                small in
            (more, rw (e, found, differs) refl, split)
        | inl same ↦ elim (Bool-cases (ltb 8 (length (lst ++ r ∷ [])))) [
          | inl over ↦
              let left_early : ok (lst ++ r ∷ []) ≡ ok all = rw (e, same, over) at run in
              let whole : lst ++ r ∷ [] ≡ all = cc left_early in
              let long : 8 < length (lst ++ r ∷ []) = ltb→lt 8 (length (lst ++ r ∷ [])) over in
              absurd (omega (arith, long, ap length whole))
          | inr room ↦
              let (more, found, split) =
                matching_until-matching addr_bytes g method h (lst ++ r ∷ []) rs all
                  (rw (e, same, room) at run) small in
              (r ∷ more, rw (e, found, same) refl, split ∙ append_assoc lst (r ∷ []) more)
        ]
      ]
    ]

-- A hash with the position of the root among at most eight candidates of a method leads to the root.
placed-find_varnode :
    (addr_bytes : ℕ) (g : Graph) (root method h addr pos : ℕ) (lst : List ℕ)
    → method < 4
    → calc_hash addr_bytes g root method ≡ ok (h, some addr)
    → matching addr_bytes g method h (first_level g addr h) ≡ ok lst
    → length lst < 9
    → index_of lst root 0 ≡ some pos
    → find_varnode addr_bytes g addr (bit_or (bit_or h (pos * 2 ^ 49)) ((length lst - 1) * 2 ^ 52))
      ≡ ok (some root)
unfolding find_varnode
placed-find_varnode addr_bytes g root method h addr pos lst hm hashed matches small found =
    let fields = calc_hash-IsHash addr_bytes g root method h addr hashed in
    let (le, got, lt) = index_of-get_elem? lst root 0 pos found in
    let sum = placed_fields h pos (length lst - 1) fields.small (omega arith) (omega arith) in
    let n = h + pos * 2 ^ 49 + (length lst - 1) * 2 ^ 52 in
    let cleared : clear_position n ≡ h = omega (arith, fields.small) in
    let in_method : method_field n ≡ method = omega (arith, fields.small, fields.method_in) in
    let in_total : total_field n ≡ length lst = omega (arith, fields.small) in
    let in_position : position_field n ≡ pos = omega (arith, fields.small) in
    let at : pos - 0 ≡ pos = omega arith in
    let here : get_elem? lst pos ≡ some root = rw at at got in
    rw sum (
      rw (cleared, in_method, matches, in_total, in_position, ==_refl (length lst), pick, here)
        refl)

abbrev NotOne : Option (List ℕ) → Type 0
NotOne none = Unit
NotOne (some c) = length c ≢ 1

-- The two outcomes of a method, by the tests that decide them.
kept-NotOne :
    (c : Option (List ℕ)) (lst : List ℕ) (big wins : Bool)
    → NotOne c
    → (if big then false else wins && length lst == 1) ≡ false
    → NotOne (if big then c else if wins then some lst else c)
kept-NotOne c lst true wins h open_still = h
kept-NotOne c lst false false h open_still = h
kept-NotOne c lst false true h open_still = λ e. cc (rw (e, ==_refl 1) at open_still)

crowned_one :
    (c : Option (List ℕ)) (lst : List ℕ) (big wins : Bool)
    → (if big then false else wins && length lst == 1) ≡ true
    → ((if big then c else if wins then some lst else c) ≡ some lst) × (length lst ≡ 1)
crowned_one c lst true wins h = absurd (cc h)
crowned_one c lst false false h = absurd (cc h)
crowned_one c lst false true h = (refl, ground arith)

crowned-NotOne :
    (c : Option (List ℕ)) (lst : List ℕ) → NotOne c → decided c lst ≡ false → NotOne (crowned c lst)
crowned-NotOne none lst h open_still = kept-NotOne none lst (ltb 8 (length lst)) true h open_still
crowned-NotOne (some c) lst h open_still =
    kept-NotOne (some c) lst (ltb 8 (length lst)) (ltb (length lst) (length c)) h open_still

decided-crowned :
    (c : Option (List ℕ)) (lst : List ℕ)
    → decided c lst ≡ true
    → (crowned c lst ≡ some lst) × (length lst ≡ 1)
decided-crowned none lst h = crowned_one none lst (ltb 8 (length lst)) true h
decided-crowned (some c) lst h =
    crowned_one (some c) lst (ltb 8 (length lst)) (ltb (length lst) (length c)) h

-- The method that found one candidate, and what it found.
record Decided (addr_bytes : ℕ) (g : Graph) (root : ℕ) (lst : List ℕ) (best : Best) : Type 0 where
  method : ℕ
  addr : ℕ
  small : method < 4
  hashed : calc_hash addr_bytes g root method ≡ ok (best.hash, some addr)
  addr_in : best.addr ≡ some addr
  matches : matching_until addr_bytes g method best.hash [] (first_level g addr best.hash) ≡ ok lst

module _ (addr_bytes : ℕ) (g : Graph) (root : ℕ) where
  abbrev level : ℕ → Option ℕ → List ℕ
  level h a = elim a [ none ↦ [] | some addr ↦ first_level g addr h ]

  -- A root without an address has no candidates.
  one_candidate-Decided :
      (method h : ℕ) (a : Option ℕ) (c : Option (List ℕ)) (lst : List ℕ)
      → method < 4
      → calc_hash addr_bytes g root method ≡ ok (h, a)
      → matching_until addr_bytes g method h [] (level h a) ≡ ok lst
      → length lst ≡ 1
      → Decided addr_bytes g root lst (record { champion = c; hash = h; addr = a })
  unfolding matching_until
  one_candidate-Decided method h none c lst small hashed matches one =
      let empty : [] ≡ lst = cc matches in absurd (omega (arith, ap length empty))
  one_candidate-Decided method h (some addr) c lst small hashed matches one = record {
    method = method;
    addr = addr;
    small = small;
    hashed = hashed;
    addr_in = refl;
    matches = matches;
  }

  try_methods-Decided :
      (left method : ℕ) (best best' : Best) (lst : List ℕ)
      → left + method ≤ 4
      → NotOne best.champion
      → try_methods addr_bytes g root left method best ≡ ok (some best')
      → best'.champion ≡ some lst
      → length lst ≡ 1
      → Decided addr_bytes g root lst best'
  unfolding try_methods
  try_methods-Decided zero method best best' lst le open_still run wins one =
      let same : best ≡ best' = cc run in
      let still : best.champion ≡ some lst = ap (λ b. b.champion) same ∙ wins in
      absurd ((rw still at open_still) one)
  try_methods-Decided (suc left) method best best' lst le open_still run wins one =
      elim (Result-cases (calc_hash addr_bytes g root method)) [
        | inr (x, e) ↦ cc (rw e at run)
        | inl ((h, a), e) ↦ elim (Bool-cases (h == 0)) [
          | inl z ↦ cc (rw (e, z) at run)
          | inr nz ↦ elim (Result-cases (matching_until addr_bytes g method h [] (level h a))) [
            | inr (x, f) ↦ cc (rw (e, nz, f) at run)
            | inl (l, f) ↦ elim (Bool-cases (decided best.champion l)) [
              | inl ends ↦
                  let (new, length_one) = decided-crowned best.champion l ends in
                  let same : record { champion = crowned best.champion l; hash = h; addr = a }
                      ≡ best' =
                    cc (rw (e, nz, f, ends) at run) in
                  let both : some l ≡ some lst =
                    sym new ∙ ap (λ (b : Best). b.champion) same ∙ wins in
                  let found : l ≡ lst = cc both in
                  subst (λ b. Decided addr_bytes g root lst b) same
                    (one_candidate-Decided method h a (crowned best.champion l) lst (omega arith) e
                      (f ∙ ap ok found) one)
              | inr goes ↦
                  try_methods-Decided left (method + 1) _ best' lst (omega arith)
                    (crowned-NotOne best.champion l open_still goes) (rw (e, nz, f, goes) at run)
                    wins one
            ]
          ]
        ]
      ]

placed-alone :
    (root : ℕ) (c : Option (List ℕ)) (h : ℕ) (a : Option ℕ) (addr : ℕ)
    → c ≡ some (root ∷ [])
    → a ≡ some addr
    → placed root (record { champion = c; hash = h; addr = a })
      ≡ (bit_or (bit_or h (0 * 2 ^ 49)) ((1 - 1) * 2 ^ 52), some addr)
placed-alone root c h a addr alone addr_in =
    ap (λ c'. placed root (record { champion = c'; hash = h; addr = a })) alone
    ∙ ap (λ a'. placed root (record { champion = some (root ∷ []); hash = h; addr = a' })) addr_in
    ∙ rw (placed, ==_refl root) refl

-- A varnode is found by its own hash. When the search of `unique_hash` over the methods ends with the
-- varnode as the only candidate, `unique_hash` returns a hash and an address, and `find_varnode` finds
-- the varnode by them.
pub find_varnode-unique_hash :
    (addr_bytes : ℕ) (g : Graph) (root : ℕ) (best : Best)
    → try_methods addr_bytes g root 4 0 (record { champion = none; hash = 0; addr = none })
      ≡ ok (some best)
    → best.champion ≡ some (root ∷ [])
    → (h : ℕ) × (addr : ℕ) × (unique_hash addr_bytes g root ≡ ok (h, some addr))
      × (find_varnode addr_bytes g addr h ≡ ok (some root))
unfolding unique_hash
find_varnode-unique_hash addr_bytes g root best tried alone =
    let d =
      try_methods-Decided addr_bytes g root 4 0 _ best (root ∷ []) (omega arith) tt tried alone
        (omega arith) in
    let (more, matched, split) =
      matching_until-matching addr_bytes g d.method best.hash [] (first_level g d.addr best.hash)
        (root ∷ []) d.matches (omega arith) in
    let here : index_of (root ∷ []) root 0 ≡ some 0 = rw (==_refl root) refl in
    (
      bit_or (bit_or best.hash (0 * 2 ^ 49)) ((1 - 1) * 2 ^ 52),
      d.addr,
      rw tried (ap ok (placed-alone root best.champion best.hash best.addr d.addr alone d.addr_in)),
      placed-find_varnode addr_bytes g root d.method best.hash d.addr 0 (root ∷ []) d.small d.hashed
          (matched ∙ ap ok (sym split)) (omega arith) here,
    )
