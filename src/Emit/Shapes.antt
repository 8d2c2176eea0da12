-- ===== src/Emit/Shapes.antt =====
-- core/emit.py: the trees of the function's model and of the recovered parameters.
use angr_ghidra_core.Prelude.{ℕ, ◌+◌, List, [], ◌∷◌, Option, none, some}
use angr_ghidra_core.Prelude.Int.{ℤ, pos}
use angr_ghidra_core.Prelude.Text.{codes}
use angr_ghidra_core.Packed.{Bytes}
use angr_ghidra_core.Packed.Encoder.{mask_u64}
use angr_ghidra_core.Packed.Wire.{Write, signed, unsigned, string, space, special}
use angr_ghidra_core.Dump.Trees.{Tree, node, Trees, done, also}
use angr_ghidra_core.Ids.Consts.{
  attrib_extrapop, attrib_id, attrib_model, attrib_name, attrib_offset, attrib_size, attrib_space,
  attrib_val, elem_addr, elem_doc, elem_input, elem_output, elem_parammeasures, elem_proto,
  elem_rank, elem_typeref,
}
use angr_ghidra_core.Emit.{Emitter}
use angr_ghidra_core.Emit.Writer.{
  ◌+++◌, one, Writes, skip-Writes, attrs-Writes, within-Writes, unsigned-Writes, signed-Writes,
  string-Writes, space-Writes, special-Writes, then_kids,
}
use angr_ghidra_core.Emit.Model.{
  typeref_name, write_type_id, type_id, emit_typeref, write_storage_space, Measure,
  emit_parammeasure, emit_inputs, emit_output, emit_entry, emit_parammeasures,
}

abbrev pub leaf : ℕ → List (ℕ × Write) → Tree
leaf id ws = node id ws done

abbrev pub type_id_attr : Option ℤ → List (ℕ × Write)
type_id_attr none = []
type_id_attr (some tid) = (attrib_id, unsigned tid) ∷ []

abbrev pub typeref_tree : Emitter → Bytes → Tree
typeref_tree em name =
    leaf elem_typeref
      ((attrib_name, string (typeref_name em name)) ∷ type_id_attr (type_id em name))

pub type_id-Writes : (tid : Option ℤ) → Writes (write_type_id tid) (type_id_attr tid) done
unfolding write_type_id
type_id-Writes none = skip-Writes
type_id-Writes (some tid) = unsigned-Writes attrib_id tid

pub typeref-Writes :
    (em : Emitter) (name : Bytes) → Writes (emit_typeref em name) [] (one (typeref_tree em name))
unfolding emit_typeref
typeref-Writes em name = within-Writes elem_typeref _ _ _ (
    attrs-Writes _ _ _ _ _ (string-Writes attrib_name (typeref_name em name))
      (type_id-Writes (type_id em name)))

abbrev pub space_attr : Option ℕ → ℕ × Write
space_attr none = (attrib_space, special 0)
space_attr (some i) = (attrib_space, space i)

pub storage_space-Writes : (s : Option ℕ) → Writes (write_storage_space s) (space_attr s ∷ []) done
unfolding write_storage_space
storage_space-Writes none = special-Writes attrib_space 0
storage_space-Writes (some i) = space-Writes attrib_space i

abbrev pub measure_tree : Emitter → ℕ → Measure → ℕ → Tree
measure_tree em elem m rank = node elem [] (
    also
      (leaf elem_addr (
        space_attr m.space
        ∷ (attrib_offset, unsigned (pos (mask_u64 m.offset)))
        ∷ (attrib_size, signed m.size)
        ∷ []))
      (also (typeref_tree em m.type_name)
        (one (leaf elem_rank ((attrib_val, signed (pos rank)) ∷ [])))))

measure-Writes :
    (em : Emitter) (elem : ℕ) (m : Measure) (rank : ℕ)
    → Writes (emit_parammeasure em elem m rank) [] (one (measure_tree em elem m rank))
unfolding emit_parammeasure
measure-Writes em elem m rank = within-Writes elem _ _ _ (
    then_kids _ _ _ _
      (within-Writes elem_addr _ _ _ (
        attrs-Writes _ _ _ _ _ (storage_space-Writes m.space) (
          attrs-Writes _ _ _ _ _ (unsigned-Writes attrib_offset (pos (mask_u64 m.offset)))
            (signed-Writes attrib_size m.size))))
      (then_kids _ _ _ _ (typeref-Writes em m.type_name)
        (within-Writes elem_rank _ _ _ (signed-Writes attrib_val (pos rank)))))

abbrev pub inputs_trees : Emitter → ℕ → List Measure → Trees
inputs_trees em rank [] = done
inputs_trees em rank (m ∷ ms) =
    also (measure_tree em elem_input m rank) (inputs_trees em (rank + 1) ms)

inputs-Writes :
    (em : Emitter) (rank : ℕ) (ms : List Measure)
    → Writes (emit_inputs em rank ms) [] (inputs_trees em rank ms)
unfolding emit_inputs
inputs-Writes em rank [] = skip-Writes
inputs-Writes em rank (m ∷ ms) =
    then_kids _ _ (one (measure_tree em elem_input m rank)) _ (measure-Writes em elem_input m rank)
      (inputs-Writes em (rank + 1) ms)

abbrev pub output_trees : Emitter → Option Measure → Trees
output_trees em none = done
output_trees em (some m) = one (measure_tree em elem_output m 0)

output-Writes :
    (em : Emitter) (o : Option Measure) → Writes (emit_output em o) [] (output_trees em o)
unfolding emit_output
output-Writes em none = skip-Writes
output-Writes em (some m) = measure-Writes em elem_output m 0

abbrev pub entry_tree : Emitter → ℤ → Tree
entry_tree em entry =
    leaf elem_addr ((attrib_space, space em.space_ram) ∷ (attrib_offset, unsigned entry) ∷ [])

pub entry-Writes :
    (em : Emitter) (entry : ℤ) → Writes (emit_entry em entry) [] (one (entry_tree em entry))
unfolding emit_entry
entry-Writes em entry = within-Writes elem_addr _ _ _ (
    attrs-Writes _ _ _ _ _ (space-Writes attrib_space em.space_ram)
      (unsigned-Writes attrib_offset entry))

-- The document of `emit_parammeasures`.
abbrev pub parammeasures_tree : Emitter → Bytes → ℤ → List Measure → Option Measure → Tree
parammeasures_tree em name entry inputs output = node elem_doc [] (
    one (
      node elem_parammeasures ((attrib_name, string name) ∷ []) (
        also (entry_tree em entry) (
          also
            (leaf elem_proto (
              (attrib_model, string (codes "unknown"))
              ∷ (attrib_extrapop, string (codes "unknown"))
              ∷ []))
            (inputs_trees em 0 inputs +++ output_trees em output)))))

pub parammeasures-Writes :
    (em : Emitter) (name : Bytes) (entry : ℤ) (inputs : List Measure) (output : Option Measure)
    → Writes
        (emit_parammeasures em name entry inputs output)
        []
        (one (parammeasures_tree em name entry inputs output))
unfolding emit_parammeasures
parammeasures-Writes em name entry inputs output = within-Writes elem_doc _ _ _ (
    within-Writes elem_parammeasures _ _ _ (
      attrs-Writes _ _ _ _ _ (string-Writes attrib_name name) (
        then_kids _ _ (one (entry_tree em entry)) _ (entry-Writes em entry) (
          then_kids _ _
            (one (
              leaf elem_proto (
                (attrib_model, string (codes "unknown"))
                ∷ (attrib_extrapop, string (codes "unknown"))
                ∷ [])))
            _
            (within-Writes elem_proto _ _ _ (
              attrs-Writes _ _ _ _ _ (string-Writes attrib_model (codes "unknown"))
                (string-Writes attrib_extrapop (codes "unknown"))))
            (then_kids _ _ (inputs_trees em 0 inputs) (output_trees em output)
              (inputs-Writes em 0 inputs) (output-Writes em output))))))
