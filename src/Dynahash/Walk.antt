-- ===== src/Dynahash/Walk.antt =====
-- `calc_hash`: the edges around a varnode, by method, and the hash of them. `seen` holds what
-- `markvn` and `markop` hold, so that membership in these lists stands for it.
use angr_ghidra_core.Prelude.Int.{ℤ, pos, negsuc}
use angr_ghidra_core.Prelude.{
  ℕ, zero, suc, ◌*◌, ◌/◌, ◌%◌, ◌^◌, ◌-◌, bit_or, Bool, true, false, ◌||◌, ◌&&◌, List, [], ◌∷◌, ◌++◌,
  Option, none, some, ltb, ◌==◌, if◌then◌else◌, length,
}
use angr_ghidra_core.Prelude.Result.{Result, ok, err, out_of_fuel, key_error, ◌>>=◌}
use angr_ghidra_core.Dynahash.{
  crc, trans, const_space, Varnode, Op, Graph, Slot, output_edge, input_edge, slot_byte, slot_field,
  sort_ops, def_in, descend_in, order_in, find_ref, index_of, contains, is_some_of,
}

-- The operations in the order of their times.
abbrev pub ops_of : Graph → List Op
ops_of g = sort_ops [] g.ops

-- A chain of skipped operations has at most as many rounds as there are operations, unless it runs
-- in a circle.
abbrev pub rounds : Graph → ℕ
rounds g = suc (length g.ops)

-- `build_vn_up`: the edge that it adds, if any.
unfoldable pub vn_up : Graph → ℕ → ℕ → Result (List (Op × Slot))
vn_up g zero r = err out_of_fuel
vn_up g (suc fuel) r = elim (def_in (ops_of g) r) [
  | none ↦ ok []
  | some op ↦
      if trans op.opcode == 0
      then elim op.inputs [ [] ↦ ok [] | i ∷ rest ↦ vn_up g fuel i ]
      else ok ((op, output_edge) ∷ [])
]

-- The operation that a skipped one leads to: the only use of its output.
abbrev pub only : List Op → Option Op
only (op ∷ []) = some op
only _ = none

-- The inner loop of `build_vn_down`: an operation that is not skipped and the varnode it uses.
unfoldable pub skip_down : Graph → ℕ → Op → ℕ → Result (Option (Op × ℕ))
skip_down g zero op tmp = err out_of_fuel
skip_down g (suc fuel) op tmp =
    if trans op.opcode == 0
    then elim op.output [
      | none ↦ ok none
      | some out ↦ elim (only (descend_in (ops_of g) out)) [
        | none ↦ ok none
        | some next ↦ skip_down g fuel next out
      ]
    ]
    else ok (some (op, tmp))

-- The edge of an operation that uses `tmp`.
abbrev pub edge_at : Option (Op × ℕ) → List (Op × Slot)
edge_at none = []
edge_at (some (op, tmp)) = elim (index_of op.inputs tmp 0) [
  | none ↦ []
  | some slot ↦ (op, input_edge slot) ∷ []
]

unfoldable pub new_edges : Graph → ℕ → List Op → Result (List (Op × Slot))
new_edges g r [] = ok []
new_edges g r (op ∷ ops) = do
  found ← skip_down g (rounds g) op r
  more ← new_edges g r ops
  ok (edge_at found ++ more)

abbrev pub slot_key : Slot → ℕ
slot_key output_edge = 0
slot_key (input_edge i) = i

abbrev pub order_of : Graph → Op → ℕ
order_of g op = elim (order_in g.blocks op.time) [ none ↦ 0 | some i ↦ i ]

-- The order of the keys (ins_addr, order in the block, slot).
abbrev pub before : Graph → (Op × Slot) → (Op × Slot) → Bool
before g (o, s) (p, t) =
    ltb o.ins_addr p.ins_addr
    || o.ins_addr == p.ins_addr
      && (ltb (order_of g o) (order_of g p)
          || order_of g o == order_of g p && ltb (slot_key s) (slot_key t))

abbrev pub insert_edge : Graph → (Op × Slot) → List (Op × Slot) → List (Op × Slot)
insert_edge g e [] = e ∷ []
insert_edge g e (f ∷ fs) = if before g e f then e ∷ f ∷ fs else f ∷ insert_edge g e fs

abbrev pub sort_edges : Graph → List (Op × Slot) → List (Op × Slot) → List (Op × Slot)
sort_edges g sorted [] = sorted
sort_edges g sorted (e ∷ es) = sort_edges g (insert_edge g e sorted) es

-- `build_vn_down`
unfoldable pub vn_down : Graph → ℕ → Result (List (Op × Slot))
vn_down g r = do edges ← new_edges g r (descend_in (ops_of g) r); ok (sort_edges g [] edges)

abbrev pub has_time : List Op → ℕ → Bool
has_time [] t = false
has_time (o ∷ os) t = (o.time == t) || has_time os t

-- `gather_op`
abbrev pub gather_op : List Op → List (Op × Slot) → List Op
gather_op marked [] = marked
gather_op marked ((op, slot) ∷ es) =
    gather_op (if has_time marked op.time then marked else marked ++ op ∷ []) es

-- `gather_vn`: the varnodes that are new, in order, behind those in `marked`.
abbrev pub gather_vn : List ℕ → List ℕ → List ℕ
gather_vn marked [] = []
gather_vn marked (r ∷ rs) =
    let old = gather_vn marked rs in
    let new = gather_vn (r ∷ marked) rs in if contains marked r then old else r ∷ new

-- `build_op_up` and `build_op_down` over the marked operations.
abbrev pub all_inputs : List Op → List ℕ
all_inputs [] = []
all_inputs (o ∷ os) = o.inputs ++ all_inputs os

abbrev pub all_outputs : List Op → List ℕ
all_outputs [] = []
all_outputs (o ∷ os) = elim o.output [ none ↦ all_outputs os | some r ↦ r ∷ all_outputs os ]

unfoldable pub build_all : (ℕ → Result (List (Op × Slot))) → List ℕ → Result (List (Op × Slot))
build_all build [] = ok []
build_all build (r ∷ rs) = do e ← build r; es ← build_all build rs; ok (e ++ es)

-- The second level of edges, by method.
abbrev pub second_level : Graph → ℕ → ℕ → List Op → Result (List (Op × Slot))
second_level g root method ops =
    if method == 1
    then build_all (vn_up g (rounds g)) (gather_vn (root ∷ []) (all_inputs ops))
    else if method == 3
    then build_all (vn_down g) (gather_vn (root ∷ []) (all_inputs ops))
    else if method == 2
    then build_all (vn_down g) (gather_vn (root ∷ []) (all_outputs ops))
    else ok []

-- `opedge` when the walk is done.
unfoldable pub edges : Graph → ℕ → ℕ → Result (List (Op × Slot))
edges g root method = do
  up ← vn_up g (rounds g) root
  down ← vn_down g root
  more ← second_level g root method (gather_op [] (up ++ down))
  ok ((up ++ down) ++ more)

-- `n` bytes of a value, the lowest first.
unfoldable pub crc_bytes : ℕ → ℕ → ℕ → ℕ
crc_bytes zero reg val = reg
crc_bytes (suc n) reg val = crc_bytes n (crc reg val) (val / 2 ^ 8)

unfoldable pub crc_edges : ℕ → ℕ → List (Op × Slot) → ℕ
crc_edges addr_bytes reg [] = reg
crc_edges addr_bytes reg ((op, slot) ∷ es) =
    crc_edges addr_bytes
      (crc_bytes addr_bytes (crc (crc reg (slot_byte slot)) (trans op.opcode)) op.ins_addr) es

-- The low `n` bytes of an int as they are shifted out, two's complement without end.
abbrev pub low_bytes : ℕ → ℤ → ℕ
low_bytes n (pos v) = v
low_bytes n (negsuc v) = 2 ^ (8 * n) - 1 - v % 2 ^ (8 * n)

abbrev pub crc_root : Varnode → ℕ
crc_root v =
    let sized = crc 0x3BA0FE06 v.size in
    elim v.space [ const_space ↦ crc_bytes v.size sized (low_bytes v.size v.offset) | _ ↦ sized ]

-- `op.inputs[slot] == root`, of a slot in range.
abbrev pub input_is : List ℕ → ℕ → ℕ → Bool
input_is [] i root = false
input_is (x ∷ xs) zero root = x == root
input_is (x ∷ xs) (suc i) root = input_is xs i root

abbrev pub touches : ℕ → (Op × Slot) → Bool
touches root (op, output_edge) = is_some_of root op.output
touches root (op, input_edge i) = input_is op.inputs i root

-- The first edge whose operation is attached to the root.
abbrev pub attached_edge : ℕ → List (Op × Slot) → Option (Op × Slot)
attached_edge root [] = none
attached_edge root (e ∷ es) = if touches root e then some e else attached_edge root es

-- `h` of its fields: `(h << n) | field` of a field of `n` bits.
abbrev pub pack : Bool → ℕ → ℕ → ℕ → ℕ → ℕ
pack attached method opcode slot reg =
    let h0 : ℕ = if attached then 0 else 1 in
    let h1 = bit_or (h0 * 2 ^ 4) (method % 2 ^ 4) in
    let h2 = bit_or (h1 * 2 ^ 7) (opcode % 2 ^ 7) in
    let h3 = bit_or (h2 * 2 ^ 5) slot in bit_or (h3 * 2 ^ 32) (reg % 2 ^ 32)

-- `_piece_together` of at least one edge.
abbrev pub piece_edges : ℕ → ℕ → ℕ → Varnode → (Op × Slot) → List (Op × Slot) → ℕ × Option ℕ
piece_edges addr_bytes root method v first rest =
    let reg = crc_edges addr_bytes (crc_root v) (first ∷ rest) in
    elim (attached_edge root (first ∷ rest)) [
      | some (op, slot) ↦
          (pack true method (trans op.opcode) (slot_field slot) reg, some op.ins_addr)
      | none ↦
          let (op, slot) = first in
          (pack false method (trans op.opcode) (slot_field slot) reg, some op.ins_addr)
    ]

-- `calc_hash`. A root that has no varnode is a KeyError.
unfoldable pub calc_hash : ℕ → Graph → ℕ → ℕ → Result (ℕ × Option ℕ)
calc_hash addr_bytes g root method = do
  found ← edges g root method
  elim found [
    | [] ↦ ok (0, none)
    | first ∷ rest ↦ elim (find_ref g.by_ref root) [
      | none ↦ err key_error
      | some v ↦ ok (piece_edges addr_bytes root method v first rest)
    ]
  ]
