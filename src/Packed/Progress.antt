-- ===== src/Packed/Progress.antt =====
-- Every reader of the decoder moves forward, and the loops end on every input.
use angr_ghidra_core.Prelude.{
  ℕ, zero, suc, ◌+◌, ◌*◌, ◌^◌, bit_or, ◌≤◌, ◌<◌, Bool, true, false, [], ◌∷◌, Option, none, some,
  if◌then◌else◌, length, get_elem?, ◌≡◌, ◌≢◌, ◌⊎◌, ap, refl, arith, Bool-cases, Option-cases, inl,
  inr, bit_and, ◌==◌,
}
use angr_ghidra_core.Prelude.Result.{Error, Result, ok, err, out_of_fuel, ◌>>=◌, Result-cases}
use angr_ghidra_core.Packed.{Bytes, Value, attribute}
use angr_ghidra_core.Packed.Decoder.{
  byte, read_id, read_groups, attr_value, skip_attr_value, is_at, skip_attr, read_attr, skip_attrs,
  attributes_from, find_attr,
}

pub get_elem?_cases : (buf : Bytes) (at : ℕ) → (get_elem? buf at ≡ none) ⊎ (at < length buf)
get_elem?_cases [] at = inl refl
get_elem?_cases (x ∷ xs) zero = inr (omega arith)
get_elem?_cases (x ∷ xs) (suc at) = ground (arith, get_elem?_cases xs at)

abbrev pub is_fuel : Error → Bool
is_fuel out_of_fuel = true
is_fuel _ = false

-- A reader that started at `at` and must get to `least` raised a Python exception or got there.
abbrev pub Reaches {ℓ} : {A : Type ℓ} → ℕ → (A → ℕ) → Result A → Type 0
Reaches least end (ok a) = least ≤ end a
Reaches least end (err e) = is_fuel e ≡ false

abbrev pub fuel_case {ℓ} : {A : Type ℓ} → Result A → Bool
fuel_case (ok a) = false
fuel_case (err x) = is_fuel x

pub Reaches-ne {ℓ} :
    {A : Type ℓ} (least : ℕ) (end : A → ℕ) (r : Result A)
    → Reaches least end r
    → r ≢ err out_of_fuel
Reaches-ne least end (ok a) h = λ e. cc
Reaches-ne least end (err x) h = λ e. cc (ap fuel_case e)

abbrev pub second : ℕ × ℕ → ℕ
second p = p.1

abbrev pub self : ℕ → ℕ
self n = n

-- An id takes one byte or two.
pub read_id-Reaches : (buf : Bytes) (at : ℕ) → Reaches (at + 1) second (read_id buf at)
unfolding read_id
read_id-Reaches buf at = ground arith

read_groups-Reaches : (buf : Bytes) (n at res : ℕ) → Reaches at second (read_groups buf at n res)
unfolding read_groups
read_groups-Reaches buf zero at res = omega arith
read_groups-Reaches buf (suc n) at res = elim (Option-cases (get_elem? buf at)) [
  | inl e ↦ rw (e, byte) refl
  | inr (b, e) ↦
      let res' = bit_or (res * 2 ^ 7) (bit_and b 0x7f) in
      rw (e, byte)
        (weaken (read_groups buf (at + 1) n res') (read_groups-Reaches buf n (at + 1) res'))
]
  where
    weaken : (r : Result (ℕ × ℕ)) → Reaches (at + 1) second r → Reaches at second r
    weaken (ok p) h = omega arith
    weaken (err e) h = h

-- A value takes one byte at least.
pub skip_attr_value-Reaches :
    (buf : Bytes) (at : ℕ) → Reaches (at + 1) self (skip_attr_value buf at)
unfolding skip_attr_value
skip_attr_value-Reaches buf at = elim (Option-cases (get_elem? buf at)) [
  | inl e ↦ rw (e, byte) refl
  | inr (b, e) ↦ rw (e, byte) (ground (arith, read_groups-Reaches buf (bit_and b 0xf) (at + 1) 0))
]

-- Reading a value raises no more than Python's exceptions.
pub attr_value-Reaches : (buf : Bytes) (at : ℕ) → Reaches 0 (λ _. 0) (attr_value buf at)
unfolding attr_value
attr_value-Reaches buf at = elim (Option-cases (get_elem? buf at)) [
  | inl e ↦ rw (e, byte) refl
  | inr (b, e) ↦ rw (e, byte) (ground (arith, read_groups-Reaches buf (bit_and b 0xf) (at + 1) 0))
]

skip_attr-Reaches : (buf : Bytes) (at : ℕ) → Reaches (at + 2) self (skip_attr buf at)
unfolding skip_attr
skip_attr-Reaches buf at = elim (Result-cases (read_id buf at)) [
  | inl ((ident, vpos), e) ↦
      let past : Reaches (at + 1) second (ok (ident, vpos)) = rw e at (read_id-Reaches buf at) in
      rw e (ground (arith, past, skip_attr_value-Reaches buf vpos))
  | inr (x, e) ↦
      let fault : Reaches {A = ℕ × ℕ} (at + 1) second (err x) = rw e at (read_id-Reaches buf at) in
      rw e fault
]

is_at-lt : (kind : ℕ) (buf : Bytes) (at : ℕ) → is_at kind buf at ≡ true → at < length buf
is_at-lt kind buf at h = ground (arith, get_elem?_cases buf at)

-- The loop over the attribute run ends, and never moves back.
pub skip_attrs-Reaches :
    (fuel : ℕ) (buf : Bytes) (at : ℕ)
    → 0 < fuel
    → length buf < at + fuel
    → Reaches at self (skip_attrs fuel buf at)
unfolding skip_attrs
skip_attrs-Reaches zero buf at z h = absurd (omega arith)
skip_attrs-Reaches (suc fuel) buf at z h = elim (Bool-cases (is_at attribute buf at)) [
  | inr stop ↦ rw stop (omega arith)
  | inl more ↦ elim (Result-cases (skip_attr buf at)) [
    | inr (x, e) ↦ rw (more, e) (rw e at (skip_attr-Reaches buf at))
    | inl (at', e) ↦
        let moved : at + 2 ≤ at' = rw e at (skip_attr-Reaches buf at) in
        let inside = is_at-lt attribute buf at more in
        rw (more, e)
          (weaken (skip_attrs fuel buf at') moved
            (skip_attrs-Reaches fuel buf at' (omega arith) (omega arith)))
  ]
]
  where
    weaken : {at' : ℕ} (r : Result ℕ) → at + 2 ≤ at' → Reaches at' self r → Reaches at self r
    weaken (ok p) m k = omega arith
    weaken (err e) m k = k

-- The attribute at a position is read, with where the next header stands, or an exception.
read_attr-Reaches :
    (buf : Bytes) (at : ℕ) → Reaches (at + 2) (λ (r : ℕ × Value × ℕ). r.2) (read_attr buf at)
unfolding read_attr
read_attr-Reaches buf at = elim (Result-cases (read_id buf at)) [
  | inr (x, e) ↦
      let fault : Reaches {A = ℕ × ℕ} (at + 1) second (err x) = rw e at (read_id-Reaches buf at) in
      rw e fault
  | inl ((ident, vpos), e) ↦
      let past : Reaches (at + 1) second (ok (ident, vpos)) = rw e at (read_id-Reaches buf at) in
      rw e (ground (arith, past, attr_value-Reaches buf vpos, skip_attr_value-Reaches buf vpos))
]

-- The generator of attributes ends.
pub attributes_from-Reaches :
    (fuel : ℕ) (buf : Bytes) (at : ℕ)
    → 0 < fuel
    → length buf < at + fuel
    → Reaches 0 (λ _. 0) (attributes_from fuel buf at)
unfolding attributes_from
attributes_from-Reaches zero buf at z h = absurd (omega arith)
attributes_from-Reaches (suc fuel) buf at z h = elim (Bool-cases (is_at attribute buf at)) [
  | inr stop ↦ rw stop (omega arith)
  | inl more ↦ elim (Result-cases (read_attr buf at)) [
    | inr (x, e) ↦ rw (more, e) (rw e at (read_attr-Reaches buf at))
    | inl ((ident, value, at'), e) ↦
        let moved : at + 2 ≤ at' = rw e at (read_attr-Reaches buf at) in
        let inside = is_at-lt attribute buf at more in
        rw (more, e)
          (ground (arith, attributes_from-Reaches fuel buf at' (omega arith) (omega arith)))
  ]
]

-- The search for an attribute ends.
pub find_attr-Reaches :
    (fuel : ℕ) (buf : Bytes) (at attrib_id : ℕ)
    → 0 < fuel
    → length buf < at + fuel
    → Reaches 0 (λ _. 0) (find_attr fuel buf at attrib_id)
unfolding find_attr
find_attr-Reaches zero buf at attrib_id z h = absurd (omega arith)
find_attr-Reaches (suc fuel) buf at attrib_id z h = elim (Bool-cases (is_at attribute buf at)) [
  | inr stop ↦ rw stop (omega arith)
  | inl more ↦ elim (Result-cases (read_id buf at)) [
    | inr (x, e) ↦ rw (more, e) (rw e at (read_id-Reaches buf at))
    | inl ((ident, vpos), e) ↦
        let past : at + 1 ≤ vpos = rw e at (read_id-Reaches buf at) in
        let inside = is_at-lt attribute buf at more in
        rw (more, e)
          (found vpos ident (attr_value buf vpos) _ (attr_value-Reaches buf vpos) (
            later (skip_attr_value buf vpos) past inside (skip_attr_value-Reaches buf vpos)
              (λ at' lt. find_attr-Reaches fuel buf at' attrib_id (omega arith) (omega arith))))
  ]
]
  where
    later :
        {vpos : ℕ} (r : Result ℕ)
        → at + 1 ≤ vpos
        → at < length buf
        → Reaches (vpos + 1) self r
        → ((at' : ℕ) → at + 2 ≤ at' → Reaches 0 (λ _. 0) (find_attr fuel buf at' attrib_id))
        → Reaches 0 (λ _. 0) (r >>= λ at'. find_attr fuel buf at' attrib_id)
    later (ok at') past inside k next = next at' (omega arith)
    later (err x) past inside k next = k

    found :
        (vpos ident : ℕ) (r : Result Value) (next : Result (Option Value))
        → Reaches 0 (λ _. 0) r
        → Reaches 0 (λ _. 0) next
        → Reaches 0 (λ _. 0) (r >>= λ value. if ident == attrib_id then ok (some value) else next)
    found vpos ident (ok value) next k n = ground (arith)
    found vpos ident (err x) next k n = k
