-- ===== src/Dynahash.antt =====
-- angr_ghidra_core/core/dynahash.py: the tables of the hash, the graph of p-code operations that it
-- walks, and the fields of a hash. Operations are told apart by their time, which
-- the translator gives each of its own; a slot of -1 is `output_edge`.
pub mod Walk
pub mod Lookup
mod Tests
use angr_ghidra_core.Prelude.Int.{ℤ}
use angr_ghidra_core.Prelude.{
  ℕ, zero, suc, ◌+◌, ◌-◌, ◌*◌, ◌/◌, ◌%◌, ◌^◌, bit_and, bit_xor, bit_or, Bool, true, false, ◌||◌,
  List, [], ◌∷◌, ◌++◌, Option, none, some, ltb, ◌==◌, if◌then◌else◌, length,
}

-- One of the eight rounds for an entry of the CRC-32 table, and the entry.
abbrev crc_round : ℕ → ℕ
crc_round c = if bit_and c 1 == 1 then bit_xor 0xEDB88320 (c / 2) else c / 2

unfoldable pub crc_entry : ℕ → ℕ
crc_entry n =
    crc_round (crc_round (crc_round (crc_round (crc_round (crc_round (crc_round (crc_round n)))))))

-- `_crc`, by the low byte of its second argument.
abbrev pub crc : ℕ → ℕ → ℕ
crc reg val = bit_xor (crc_entry (bit_and (bit_xor reg val) 0xff)) (reg / 2 ^ 8)

-- `_trans`: the hashed opcode, 0 for an operation that is skipped.
unfoldable pub trans : ℕ → ℕ
trans opcode =
    if opcode == 12
    then 11
    else if opcode == 14
    then 13
    else if opcode == 16
    then 15
    else if opcode == 20
    then 19
    else if opcode == 29
    then 32
    else if opcode == 42
    then 41
    else if opcode == 44
    then 43
    else if opcode == 45
    then 0
    else if opcode == 50
    then 47
    else if opcode == 64
    then 0
    else if opcode == 65
    then 19
    else if opcode == 66
    then 19
    else if ltb opcode 67
    then opcode
    else 0

pub data Space : Type 0 where
  const_space stack_space register_space unique_space : Space

pub record Varnode : Type 0 where
  pub space : Space
  pub offset : ℤ
  pub size : ℕ

-- `space_input` of an Op, which the hasher does not read, is left out.
pub record Op : Type 0 where
  pub time : ℕ
  pub opcode : ℕ
  pub ins_addr : ℕ
  pub output : Option ℕ
  pub inputs : List ℕ

-- What the hasher takes from the translator: the varnodes by their ref, the times of each block's
-- operations in order, and all operations.
pub record Graph : Type 0 where
  pub by_ref : List (ℕ × Varnode)
  pub blocks : List (List ℕ)
  pub ops : List Op

-- The edge of an operation's output, or of an input.
pub data Slot : Type 0 where
  output_edge : Slot
  input_edge : ℕ → Slot

-- `slot & 0xff` of the int that stands for the slot.
abbrev pub slot_byte : Slot → ℕ
slot_byte output_edge = 0xff
slot_byte (input_edge i) = i

-- `slot & 0x1f`
abbrev pub slot_field : Slot → ℕ
slot_field output_edge = 0x1f
slot_field (input_edge i) = i % 2 ^ 5

-- `sorted(ops, key=time)`, which keeps the order of equal times.
abbrev pub insert_op : Op → List Op → List Op
insert_op o [] = o ∷ []
insert_op o (p ∷ ps) = if ltb o.time p.time then o ∷ p ∷ ps else p ∷ insert_op o ps

abbrev pub sort_ops : List Op → List Op → List Op
sort_ops sorted [] = sorted
sort_ops sorted (o ∷ os) = sort_ops (insert_op o sorted) os

abbrev pub is_some_of : ℕ → Option ℕ → Bool
is_some_of r none = false
is_some_of r (some s) = r == s

-- `_def.get(r)`: the last operation with the output.
abbrev pub def_in : List Op → ℕ → Option Op
def_in [] r = none
def_in (o ∷ os) r =
    let later = def_in os r in
    elim later [ some p ↦ some p | none ↦ if is_some_of r o.output then some o else none ]

-- An operation once for each input that is `r`.
abbrev pub uses : Op → List ℕ → ℕ → List Op
uses o [] r = []
uses o (i ∷ rest) r = let more = uses o rest r in if i == r then o ∷ more else more

abbrev pub descend_in : List Op → ℕ → List Op
descend_in [] r = []
descend_in (o ∷ os) r = uses o o.inputs r ++ descend_in os r

abbrev pub ops_at_in : List Op → ℕ → List Op
ops_at_in [] addr = []
ops_at_in (o ∷ os) addr =
    let more = ops_at_in os addr in if o.ins_addr == addr then o ∷ more else more

-- `_order.get(t, 0)`: the last position of the time in a block.
abbrev pub position_in : List ℕ → ℕ → ℕ → Option ℕ
position_in [] i t = none
position_in (s ∷ ss) i t = elim (position_in ss (i + 1) t) [
  | some j ↦ some j
  | none ↦ if s == t then some i else none
]

abbrev pub order_in : List (List ℕ) → ℕ → Option ℕ
order_in [] t = none
order_in (b ∷ bs) t = elim (order_in bs t) [ some j ↦ some j | none ↦ position_in b 0 t ]

abbrev pub find_ref : List (ℕ × Varnode) → ℕ → Option Varnode
find_ref [] r = none
find_ref ((k, v) ∷ rest) r = if k == r then some v else find_ref rest r

-- `op.inputs.index(r)`
abbrev pub index_of : List ℕ → ℕ → ℕ → Option ℕ
index_of [] r i = none
index_of (x ∷ xs) r i = if x == r then some i else index_of xs r (i + 1)

abbrev pub contains : List ℕ → ℕ → Bool
contains [] r = false
contains (x ∷ xs) r = (x == r) || contains xs r
