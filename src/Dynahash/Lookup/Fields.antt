-- ===== src/Dynahash/Lookup/Fields.antt =====
-- The fields of a hash, as arithmetic.
use angr_ghidra_core.Prelude.{
  ℕ, ◌+◌, ◌*◌, ◌%◌, ◌^◌, ◌<◌, bit_or, Bool, true, false, List, [], ◌∷◌, Option, none, some, ◌≡◌,
  refl, ap, ◌∙◌, arith, Option-cases, inl, inr,
}
use angr_ghidra_core.Prelude.Bits.{bit_or_fields, bit_or_comm}
use angr_ghidra_core.Prelude.Result.{Result, ok, err, key_error, Result-cases}
use mathlib.Core.Path.{subst}
use angr_ghidra_core.Dynahash.{
  Op, Slot, output_edge, input_edge, slot_field, trans, Graph, Varnode, find_ref,
}
use angr_ghidra_core.Dynahash.Walk.{pack, piece_edges, attached_edge, calc_hash, edges}
use angr_ghidra_core.Dynahash.Lookup.{method_field}

abbrev flag : Bool → ℕ
flag true = 0
flag false = 1

slot_field-lt : (s : Slot) → slot_field s < 32
slot_field-lt output_edge = omega arith
slot_field-lt (input_edge i) = omega arith

pack_fields :
    (attached : Bool) (method opcode slot reg : ℕ)
    → slot < 32
    → pack attached method opcode slot reg
      ≡ (((flag attached * 2 ^ 4 + method % 2 ^ 4) * 2 ^ 7 + opcode % 2 ^ 7) * 2 ^ 5 + slot)
          * 2 ^ 32
        + reg % 2 ^ 32
pack_fields true method opcode slot reg h =
    rw
      (
        bit_or_fields 4 0 (method % 2 ^ 4) (omega arith),
        bit_or_fields 7 (0 * 2 ^ 4 + method % 2 ^ 4) (opcode % 2 ^ 7) (omega arith),
        bit_or_fields 5 ((0 * 2 ^ 4 + method % 2 ^ 4) * 2 ^ 7 + opcode % 2 ^ 7) slot (omega arith),
        bit_or_fields 32 (((0 * 2 ^ 4 + method % 2 ^ 4) * 2 ^ 7 + opcode % 2 ^ 7) * 2 ^ 5 + slot)
            (reg % 2 ^ 32) (omega arith),
      )
      refl
pack_fields false method opcode slot reg h =
    rw
      (
        bit_or_fields 4 1 (method % 2 ^ 4) (omega arith),
        bit_or_fields 7 (1 * 2 ^ 4 + method % 2 ^ 4) (opcode % 2 ^ 7) (omega arith),
        bit_or_fields 5 ((1 * 2 ^ 4 + method % 2 ^ 4) * 2 ^ 7 + opcode % 2 ^ 7) slot (omega arith),
        bit_or_fields 32 (((1 * 2 ^ 4 + method % 2 ^ 4) * 2 ^ 7 + opcode % 2 ^ 7) * 2 ^ 5 + slot)
            (reg % 2 ^ 32) (omega arith),
      )
      refl

-- A hash of `calc_hash` has 49 bits, and its method in its field.
pub record IsHash (method h : ℕ) : Type 0 where
  pub small : h < 2 ^ 49
  pub method_in : method_field h ≡ method % 2 ^ 4

pack-IsHash :
    (attached : Bool) (method opcode slot reg : ℕ)
    → slot < 32
    → IsHash method (pack attached method opcode slot reg)
pack-IsHash true method opcode slot reg h =
    let e = pack_fields true method opcode slot reg h in
    record { small = omega (arith, e); method_in = omega (arith, e) }
pack-IsHash false method opcode slot reg h =
    let e = pack_fields false method opcode slot reg h in
    record { small = omega (arith, e); method_in = omega (arith, e) }

piece_edges-IsHash :
    (addr_bytes root method : ℕ) (v : Varnode) (first : Op × Slot) (rest : List (Op × Slot))
    → IsHash method (piece_edges addr_bytes root method v first rest).0
piece_edges-IsHash addr_bytes root method v first rest =
    elim (Option-cases (attached_edge root (first ∷ rest))) [
      | inr ((op, slot), e) ↦
          rw (piece_edges, e)
            (pack-IsHash true method (trans op.opcode) (slot_field slot) _ (slot_field-lt slot))
      | inl e ↦
          rw (piece_edges, e)
            (pack-IsHash false method (trans first.0.opcode) (slot_field first.1) _
              (slot_field-lt first.1))
    ]

-- The case of a root with edges.
rooted :
    (addr_bytes : ℕ) (g : Graph) (root method h addr : ℕ) (first : Op × Slot)
    (rest : List (Op × Slot))
    → (elim (find_ref g.by_ref root) as (λ v. Result (ℕ × Option ℕ)) [
      | none ↦ err key_error
      | some v ↦ ok (piece_edges addr_bytes root method v first rest)
    ])
      ≡ ok (h, some addr)
    → IsHash method h
rooted addr_bytes g root method h addr first rest run =
    elim (Option-cases (find_ref g.by_ref root)) [
      | inl e ↦ cc (rw e at run)
      | inr (v, e) ↦
          let found : piece_edges addr_bytes root method v first rest ≡ (h, some addr) =
            cc (rw e at run) in
          subst (λ x. IsHash method x) (ap (λ p. p.0) found)
            (piece_edges-IsHash addr_bytes root method v first rest)
    ]

pub calc_hash-IsHash :
    (addr_bytes : ℕ) (g : Graph) (root method h addr : ℕ)
    → calc_hash addr_bytes g root method ≡ ok (h, some addr)
    → IsHash method h
unfolding calc_hash
calc_hash-IsHash addr_bytes g root method h addr run = elim (Result-cases (edges g root method)) [
  | inr (x, e) ↦ cc (rw e at run)
  | inl ([], e) ↦ cc (rw e at run)
  | inl (first ∷ rest, e) ↦ rooted addr_bytes g root method h addr first rest (rw e at run)
]

-- What `unique_hash` adds to a hash: three bits for the position and three for the others.
pub placed_fields :
    (h pos others : ℕ)
    → h < 2 ^ 49
    → pos < 8
    → others < 8
    → bit_or (bit_or h (pos * 2 ^ 49)) (others * 2 ^ 52) ≡ h + pos * 2 ^ 49 + others * 2 ^ 52
placed_fields h pos others hh hp ho =
    let low : bit_or h (pos * 2 ^ 49) ≡ pos * 2 ^ 49 + h =
      bit_or_comm (h + pos * 2 ^ 49) h (pos * 2 ^ 49) (omega arith) (omega arith)
      ∙ bit_or_fields 49 pos h hh in
    rw low (
      bit_or_comm (pos * 2 ^ 49 + h + others * 2 ^ 52) (pos * 2 ^ 49 + h) (others * 2 ^ 52)
        (omega arith) (omega arith)
      ∙ bit_or_fields 52 others (pos * 2 ^ 49 + h) (omega arith)
      ∙ omega arith)
