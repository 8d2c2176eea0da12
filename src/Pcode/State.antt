-- ===== src/Pcode/State.antt =====
-- core/pcode.py: the methods of PcodeTranslator that make varnodes, keep the tables of storage
-- locations and append operations. A method takes the translator and returns it changed.
use angr_ghidra_core.Prelude.{
  ℕ, ◌+◌, max, Bool, true, false, ◌&&◌, ◌||◌, List, [], ◌∷◌, ◌++◌, Option, none, some, ◌==◌,
  if◌then◌else◌,
}
use angr_ghidra_core.Prelude.Int.{ℤ, pos}
use angr_ghidra_core.Prelude.Dicts.{eq_int, get, put, set_default, add_member}
use angr_ghidra_core.Packed.Encoder.{mask_u64}
use angr_ghidra_core.Dynahash.{Space, const_space, stack_space, register_space, unique_space}
use angr_ghidra_core.Pcode.{Varnode, Op, Block, Translator}
use angr_ghidra_core.Pcode.Ail.{VirtualVariable}

-- A method call.
abbrev pub Step : Type 0 → Type 0
Step A = Translator → A × Translator

infixl 5 ◌>>=◌
unfoldable pub ◌>>=◌ : {A B : Type 0} → Step A → (A → Step B) → Step B
◌>>=◌ m k t = let (a, t') = m t in k a t'

unfoldable pub pure : {A : Type 0} → A → Step A
pure a t = (a, t)

unfoldable pub new_varnode : Space → ℤ → ℕ → Step ℕ
new_varnode space offset size t =
    let vn : Varnode = record { ref = t.next_ref; space = space; offset = offset; size = size } in
    (
      t.next_ref,
      record t {
        varnodes = t.varnodes ++ vn ∷ [];
        by_ref = t.by_ref ++ (t.next_ref, vn) ∷ [];
        next_ref = t.next_ref + 1;
      },
    )

-- `_const`
unfoldable pub new_const : ℤ → ℕ → Step ℕ
unfolding new_varnode
new_const value size = new_varnode const_space (pos (mask_u64 value)) (max size 1)

-- `_temp`
unfoldable pub temp : ℕ → Step ℕ
unfolding new_varnode
temp size t =
    new_varnode unique_space (pos t.next_unique) (max size 1)
      (record t { next_unique = t.next_unique + max size 1 })

-- `x or d` for an optional int.
abbrev pub or_else : Option ℕ → ℕ → ℕ
or_else none d = d
or_else (some n) d = if n == 0 then d else n

-- `_is_register`
unfoldable pub is_register : VirtualVariable → Bool
is_register v = elim v.oident [ none ↦ false | some items ↦ elim items [ [] ↦ false | _ ↦ true ] ]

abbrev second : Option (List ℕ) → Option ℕ
second (some (a ∷ b ∷ [])) = some b
second other = none

-- `_reg_offset`
unfoldable pub reg_offset_of : VirtualVariable → Option ℕ
reg_offset_of v = if v.was_reg then v.reg_offset else second v.oident

-- The lines of `_vvar` behind a new varnode.
abbrev pub note_stack : ℤ → ℕ → Step ℕ
note_stack offset ref t = (
  ref,
  record t {
    stack_rep = set_default eq_int offset ref t.stack_rep;
    stack_members = add_member eq_int offset ref t.stack_members;
  },
)

abbrev pub note_register : ℤ → ℕ → Step ℕ
note_register offset ref t = (
  ref,
  record t {
    reg_rep = set_default eq_int offset ref t.reg_rep;
    reg_members = add_member eq_int offset ref t.reg_members;
  },
)

abbrev pub note_vvar : ℕ → ℕ → Step ℕ
note_vvar varid ref t = (ref, record t { vvar_ref = put ◌==◌ varid ref t.vvar_ref })

-- `reg_offset_lookup`, as a parameter.
abbrev pub Lookup : Type 0
Lookup = ℕ → ℕ → Option ℕ

-- `self._reg_lookup(reg_off, size) if reg_off is not None else None`
abbrev pub looked_up : Lookup → Option ℕ → ℕ → Option ℕ
looked_up reg_lookup none size = none
looked_up reg_lookup (some reg_off) size = reg_lookup reg_off size

unfoldable pub register_varnode : Option ℕ → ℕ → Step ℕ
unfolding temp new_varnode ◌>>=◌
register_varnode none size = temp size
register_varnode (some g_off) size = do
  ref ← new_varnode register_space (pos g_off) size
  note_register (pos g_off) ref

unfoldable pub vvar_varnode : Lookup → VirtualVariable → ℕ → Step ℕ
unfolding temp new_varnode ◌>>=◌ register_varnode is_register reg_offset_of
vvar_varnode reg_lookup v size =
    if v.was_stack
    then (do ref ← new_varnode stack_space v.stack_offset size; note_stack v.stack_offset ref)
    else if v.was_reg || is_register v
    then register_varnode (looked_up reg_lookup (reg_offset_of v) size) size
    else temp size

-- `_vvar`
unfoldable pub vvar : Lookup → VirtualVariable → Step ℕ
unfolding vvar_varnode ◌>>=◌
vvar reg_lookup v t = elim (get ◌==◌ v.varid t.vvar_ref) [
  | some ref ↦ (ref, t)
  | none ↦ (do ref ← vvar_varnode reg_lookup v (max (or_else v.size 1) 1); note_vvar v.varid ref) t
]

-- `_emit`
unfoldable pub emit : ℕ → ℕ → Option ℕ → List ℕ → Step ℕ
emit opcode ins_addr output inputs t = (
  t.next_time,
  record t {
    ops =
        t.ops
        ++ record {
          opcode = opcode;
          ins_addr = ins_addr;
          time = t.next_time;
          output = output;
          inputs = inputs;
        }
          ∷ [];
    next_time = t.next_time + 1;
  },
)

-- A storage kind that is not "stack" is a register's.
abbrev pub set_stack_rep : ℤ → ℕ → Step ℕ
set_stack_rep offset ref t = (
  ref,
  record t {
    stack_rep = put eq_int offset ref t.stack_rep;
    stack_members = add_member eq_int offset ref t.stack_members;
  },
)

abbrev pub set_register_rep : ℤ → ℕ → Step ℕ
set_register_rep offset ref t = (
  ref,
  record t {
    reg_rep = put eq_int offset ref t.reg_rep;
    reg_members = add_member eq_int offset ref t.reg_members;
  },
)

abbrev pub is_stack : Space → Bool
is_stack stack_space = true
is_stack other = false

-- `stack_representative` and `register_representative`
unfoldable pub stack_representative : ℤ → Translator → Option ℕ
unfolding get
stack_representative offset t = get eq_int offset t.stack_rep

unfoldable pub register_representative : ℤ → Translator → Option ℕ
unfolding get
register_representative offset t = get eq_int offset t.reg_rep

unfoldable pub variable_representative : Space → ℤ → ℕ → Step ℕ
unfolding get new_varnode ◌>>=◌
variable_representative kind offset size t =
    if is_stack kind
    then elim (get eq_int offset t.stack_rep) [
      | some rep ↦ (rep, t)
      | none ↦ (do rep ← new_varnode stack_space offset size; set_stack_rep offset rep) t
    ]
    else elim (get eq_int offset t.reg_rep) [
      | some rep ↦ (rep, t)
      | none ↦ (do rep ← new_varnode register_space offset size; set_register_rep offset rep) t
    ]

abbrev pub add_stack_member : ℤ → ℕ → Step ℕ
add_stack_member offset ref t =
    (ref, record t { stack_members = add_member eq_int offset ref t.stack_members })

abbrev pub add_register_member : ℤ → ℕ → Step ℕ
add_register_member offset ref t =
    (ref, record t { reg_members = add_member eq_int offset ref t.reg_members })

unfoldable pub new_storage_varnode : Space → ℤ → ℕ → Step ℕ
unfolding new_varnode ◌>>=◌
new_storage_varnode kind offset size =
    if is_stack kind
    then (do ref ← new_varnode stack_space offset size; add_stack_member offset ref)
    else (do ref ← new_varnode register_space offset size; add_register_member offset ref)

abbrev pub same_space : Space → Space → Bool
same_space const_space const_space = true
same_space stack_space stack_space = true
same_space register_space register_space = true
same_space unique_space unique_space = true
same_space a b = false

abbrev pub lives_at : Space → ℤ → Varnode → Bool
lives_at kind offset vn = same_space vn.space kind && eq_int vn.offset offset

unfoldable pub occurrence_ref : Option ℕ → Space → ℤ → Translator → Option ℕ
unfolding get
occurrence_ref none kind offset t = none
occurrence_ref (some varid) kind offset t = elim (get ◌==◌ varid t.vvar_ref) [
  | none ↦ none
  | some ref ↦ elim (get ◌==◌ ref t.by_ref) [
    | none ↦ none
    | some vn ↦ if lives_at kind offset vn then some ref else none
  ]
]

-- The dicts that the two caches hold.
unfoldable pub index_by_time : List Op → List (ℕ × Op) → List (ℕ × Op)
unfolding put
index_by_time [] d = d
index_by_time (op ∷ ops) d = index_by_time ops (put ◌==◌ op.time op d)

unfoldable pub index_by_addr : List Op → List (ℕ × ℕ) → List (ℕ × ℕ)
unfolding set_default
index_by_addr [] d = d
index_by_addr (op ∷ ops) d =
    index_by_addr ops (if op.ins_addr == 0 then d else set_default ◌==◌ op.ins_addr op.time d)

unfoldable pub at_times : List (ℕ × Op) → List ℕ → List Op
unfolding get
at_times index [] = []
at_times index (time ∷ times) =
    let later = at_times index times in
    elim (get ◌==◌ time index) [ some op ↦ op ∷ later | none ↦ later ]

unfoldable pub ops_by_block : Block → Step (List Op)
unfolding index_by_time at_times
ops_by_block block t = elim t.ops_by_time [
  | some index ↦ (at_times index block.op_times, t)
  | none ↦
      let index = index_by_time t.ops [] in
      (at_times index block.op_times, record t { ops_by_time = some index })
]

unfoldable pub op_time_at : ℕ → Step (Option ℕ)
unfolding index_by_addr get
op_time_at ins_addr t = elim t.op_at_addr [
  | some index ↦ (get ◌==◌ ins_addr index, t)
  | none ↦
      let index = index_by_addr t.ops [] in
      (get ◌==◌ ins_addr index, record t { op_at_addr = some index })
]
