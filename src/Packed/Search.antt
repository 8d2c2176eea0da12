-- ===== src/Packed/Search.antt =====
-- `read_attribute`, `read_opt` and `has_attribute` against the list of all attributes.
use angr_ghidra_core.Prelude.{
  ℕ, zero, suc, Bool, true, false, List, [], ◌∷◌, Option, none, some, ◌==◌, if◌then◌else◌, ◌≡◌,
  arith, Bool-cases, inl, inr,
}
use angr_ghidra_core.Prelude.Result.{Result, ok, err, decoder_error, Result-cases}
use angr_ghidra_core.Packed.{Bytes, Value, attribute}
use angr_ghidra_core.Packed.Decoder.{
  Decoder, rounds, is_at, read_id, attr_value, skip_attr_value, read_attr, attributes_from,
  find_attr, run_start, attributes, read_opt, read_attribute, has_attribute,
}

-- The first attribute of a list that has the id.
abbrev pub first : ℕ → List (ℕ × Value) → Option Value
first id [] = none
first id ((k, v) ∷ rest) = if k == id then some v else first id rest

abbrev pub or_missing : Option Value → Result Value
or_missing none = err decoder_error
or_missing (some v) = ok v

abbrev pub is_some : Option Value → Bool
is_some none = false
is_some (some v) = true

module _ (buf : Bytes) (id : ℕ) where
  -- One attribute is read the same way by the generator and by the search.
  find_step :
      (fuel at : ℕ) (l : List (ℕ × Value))
      → ((at' : ℕ) (m : List (ℕ × Value))
          → attributes_from fuel buf at' ≡ ok m
          → find_attr fuel buf at' id ≡ ok (first id m))
      → is_at attribute buf at ≡ true
      → attributes_from (suc fuel) buf at ≡ ok l
      → find_attr (suc fuel) buf at id ≡ ok (first id l)
  unfolding attributes_from find_attr read_attr
  find_step fuel at l later more h = elim (Result-cases (read_id buf at)) [
    | inr (x, e) ↦ cc (rw (more, e) at h)
    | inl ((ident, vpos), e) ↦ elim (Result-cases (attr_value buf vpos)) [
      | inr (x, v) ↦ cc (rw (more, e, v) at h)
      | inl (value, v) ↦ elim (Result-cases (skip_attr_value buf vpos)) [
        | inr (x, s) ↦ cc (rw (more, e, v, s) at h)
        | inl (at', s) ↦ elim (Result-cases (attributes_from fuel buf at')) [
          | inr (x, a) ↦ cc (rw (more, e, v, s, a) at h)
          | inl (m, a) ↦
              let whole : ok ((ident, value) ∷ m) ≡ ok l = rw (more, e, v, s, a) at h in
              rw (more, e, v, s, later at' m a) (ground (arith, whole))
        ]
      ]
    ]
  ]

  find_attr-attributes_from :
      (fuel at : ℕ) (l : List (ℕ × Value))
      → attributes_from fuel buf at ≡ ok l
      → find_attr fuel buf at id ≡ ok (first id l)
  find_attr-attributes_from zero at l h = unfold attributes_from in cc h
  find_attr-attributes_from (suc fuel) at l h = elim (Bool-cases (is_at attribute buf at)) [
    | inl more ↦ find_step fuel at l (find_attr-attributes_from fuel) more h
    | inr stop ↦ stopped fuel at l stop h
  ]
    where
      stopped :
          (fuel at : ℕ) (l : List (ℕ × Value))
          → is_at attribute buf at ≡ false
          → attributes_from (suc fuel) buf at ≡ ok l
          → find_attr (suc fuel) buf at id ≡ ok (first id l)
      stopped fuel at l stop h =
          unfold attributes_from find_attr in
          let nothing : ok [] ≡ ok l = rw stop at h in rw stop (ground (arith, nothing))

-- When all attributes of the open element can be decoded, the search for one of them, which stops
-- early, finds the first with the id in the list of all of them: `read_opt` returns it,
-- `read_attribute` returns it or raises, and `has_attribute` says whether there is one.
pub read_opt-attributes :
    (d : Decoder) (id : ℕ) (l : List (ℕ × Value))
    → attributes d ≡ ok l
    → (read_opt id d ≡ ok (first id l))
      × (read_attribute id d ≡ or_missing (first id l))
      × (has_attribute id d ≡ ok (is_some (first id l)))
unfolding attributes read_opt read_attribute has_attribute
read_opt-attributes d id l h = elim (Result-cases (run_start d)) [
  | inr (x, e) ↦ cc (rw e at h)
  | inl (at, e) ↦
      let found = find_attr-attributes_from d.buf id (rounds d.buf) at l (rw e at h) in
      (rw (e, found), rw (e, found) (ground arith), rw (e, found) (ground arith))
]
