-- ===== src/Oracle/Answers.antt =====
-- harness/oracle.py: the trees that PypcodeOracle answers a query for a mapped symbol with.
use angr_ghidra_core.Prelude.{
  ℕ, ◌+◌, ◌-◌, max, Bool, true, false, List, [], ◌∷◌, ◌++◌, Option, none, some, if◌then◌else◌,
}
use angr_ghidra_core.Prelude.Dicts.{eq_int}
use angr_ghidra_core.Prelude.Int.{ℤ, pos}
use angr_ghidra_core.Prelude.Text.{codes}
use angr_ghidra_core.Packed.{Bytes}
use angr_ghidra_core.Packed.Wire.{Write, boolean, signed, unsigned, string, space, special}
use angr_ghidra_core.Dump.Trees.{Tree, node, done, also}
use angr_ghidra_core.Ids.Consts.{
  attrib_extrapop, attrib_first, attrib_id, attrib_last, attrib_lock, attrib_main, attrib_model,
  attrib_name, attrib_offset, attrib_readonly, attrib_size, attrib_space, elem_addr, elem_doc,
  elem_function, elem_hole, elem_localdb, elem_mapsym, elem_parent, elem_prototype, elem_rangelist,
  elem_returnsym, elem_scope, elem_symbollist, elem_typeref,
}
use angr_ghidra_core.Emit.Writer.{
  Writes, one, skip-Writes, attrs-Writes, within-Writes, bool-Writes, unsigned-Writes,
  signed-Writes, string-Writes, space-Writes, special-Writes, then_kids,
}
use angr_ghidra_core.Emit.Shapes.{leaf}
use angr_ghidra_core.Oracle.{
  Function, PypcodeOracle, space_ram, space_register, encode_typeref, encode_storage,
  encode_localdb, encode_prototype, encode_function_symbol, write_readonly, encode_hole,
  mapped_symbol,
}

abbrev pub storage_tree : ℕ → ℕ → ℕ → Tree
storage_tree sp offset size = leaf elem_addr (
    (attrib_space, space sp)
    ∷ (attrib_offset, unsigned (pos offset))
    ∷ (attrib_size, signed (pos size))
    ∷ [])

pub storage-Writes :
    (sp offset size : ℕ)
    → Writes (encode_storage sp offset size) [] (one (storage_tree sp offset size))
unfolding encode_storage
storage-Writes sp offset size = within-Writes elem_addr _ _ _ (
    attrs-Writes _ _ _ _ _ (space-Writes attrib_space sp) (
      attrs-Writes _ _ _ _ _ (unsigned-Writes attrib_offset (pos offset))
        (signed-Writes attrib_size (pos size))))

abbrev localdb_tree : Bytes → Tree
localdb_tree name =
    node elem_localdb ((attrib_lock, boolean false) ∷ (attrib_main, special 0) ∷ []) (
      one (
        node elem_scope ((attrib_name, string name) ∷ []) (
          also (leaf elem_parent ((attrib_id, unsigned (pos 0)) ∷ []))
            (also (leaf elem_rangelist []) (one (leaf elem_symbollist []))))))

localdb-Writes : (name : Bytes) → Writes (encode_localdb name) [] (one (localdb_tree name))
unfolding encode_localdb
localdb-Writes name = within-Writes elem_localdb _ _ _ (
    attrs-Writes _ _ _ _ _ (bool-Writes attrib_lock false) (
      attrs-Writes _ _ _ _ _ (special-Writes attrib_main 0) (
        within-Writes elem_scope _ _ _ (
          attrs-Writes _ _ _ _ _ (string-Writes attrib_name name) (
            then_kids _ _ _ _ (within-Writes elem_parent _ _ _ (unsigned-Writes attrib_id (pos 0)))
              (then_kids _ _ _ _ (within-Writes elem_rangelist _ _ _ skip-Writes)
                (within-Writes elem_symbollist _ _ _ skip-Writes)))))))

abbrev typeref_tree : Tree
typeref_tree = leaf elem_typeref (
    (attrib_name, string (codes "undefined8"))
    ∷ (attrib_id, unsigned (pos 0xc000000000000026))
    ∷ [])

typeref-Writes : Writes (encode_typeref (codes "undefined8")) [] (one typeref_tree)
unfolding encode_typeref
typeref-Writes = within-Writes elem_typeref _ _ _ (
    attrs-Writes _ _ _ _ _ (string-Writes attrib_name (codes "undefined8"))
      (unsigned-Writes attrib_id (pos 0xc000000000000026)))

abbrev prototype_tree : PypcodeOracle → Tree
prototype_tree o =
    node elem_prototype
      ((attrib_extrapop, string (codes "unknown")) ∷ (attrib_model, string (codes "unknown")) ∷ [])
      (one (
        node elem_returnsym [] (
          also (storage_tree space_register o.return_register.0 o.return_register.1)
            (one typeref_tree))))

prototype-Writes : (o : PypcodeOracle) → Writes (encode_prototype o) [] (one (prototype_tree o))
unfolding encode_prototype
prototype-Writes o = within-Writes elem_prototype _ _ _ (
    attrs-Writes _ _ _ _ _ (string-Writes attrib_extrapop (codes "unknown")) (
      attrs-Writes _ _ _ _ _ (string-Writes attrib_model (codes "unknown")) (
        within-Writes elem_returnsym _ _ _ (
          then_kids _ _ _ _ (storage-Writes space_register o.return_register.0 o.return_register.1)
            typeref-Writes))))

-- The `<function>` of a symbol.
abbrev pub function_tree : PypcodeOracle → Function → Tree
function_tree o f =
    node elem_function
      ((attrib_id, unsigned (pos f.symbol_id))
        ∷ (attrib_name, string f.name)
        ∷ (attrib_size, signed (pos (max f.size 1)))
        ∷ [])
      (also
        (leaf elem_addr
          ((attrib_space, space space_ram) ∷ (attrib_offset, unsigned (pos f.addr)) ∷ []))
        (also (localdb_tree f.name) (one (prototype_tree o))))

abbrev pub symbol_tree : PypcodeOracle → Function → Tree
symbol_tree o f = node elem_doc ((attrib_id, unsigned (pos 0)) ∷ []) (
    one (
      node elem_mapsym [] (
        also (function_tree o f)
          (also (storage_tree space_ram f.addr (max f.size 1)) (one (leaf elem_rangelist []))))))

symbol-Writes :
    (o : PypcodeOracle) (f : Function)
    → Writes (encode_function_symbol o f) [] (one (symbol_tree o f))
unfolding encode_function_symbol
symbol-Writes o f = within-Writes elem_doc _ _ _ (
    attrs-Writes _ _ _ _ _ (unsigned-Writes attrib_id (pos 0)) (
      within-Writes elem_mapsym _ _ _ (
        then_kids _ _ (one (function_tree o f)) _
          (within-Writes elem_function _ _ _ (
            attrs-Writes _ _ _ _ _ (unsigned-Writes attrib_id (pos f.symbol_id)) (
              attrs-Writes _ _ _ _ _ (string-Writes attrib_name f.name) (
                attrs-Writes _ _ _ _ _ (signed-Writes attrib_size (pos (max f.size 1))) (
                  then_kids _ _ _ _
                    (within-Writes elem_addr _ _ _ (
                      attrs-Writes _ _ _ _ _ (space-Writes attrib_space space_ram)
                        (unsigned-Writes attrib_offset (pos f.addr))))
                    (then_kids _ _ (one (localdb_tree f.name)) (one (prototype_tree o))
                      (localdb-Writes f.name) (prototype-Writes o)))))))
          (then_kids _ _ (one (storage_tree space_ram f.addr (max f.size 1))) _
            (storage-Writes space_ram f.addr (max f.size 1))
            (within-Writes elem_rangelist _ _ _ skip-Writes)))))

abbrev readonly_attr : Bool → List (ℕ × Write)
readonly_attr true = (attrib_readonly, boolean true) ∷ []
readonly_attr false = []

readonly-Writes : (b : Bool) → Writes (write_readonly b) (readonly_attr b) done
unfolding write_readonly
readonly-Writes true = bool-Writes attrib_readonly true
readonly-Writes false = skip-Writes

abbrev pub hole_tree : ℕ → ℤ → ℤ → Bool → Tree
hole_tree sp first last readonly = leaf elem_hole (
    readonly_attr readonly
    ++ (attrib_space, space sp)
      ∷ (attrib_first, unsigned first)
      ∷ (attrib_last, unsigned last)
      ∷ [])

hole-Writes :
    (sp : ℕ) (first last : ℤ) (readonly : Bool)
    → Writes (encode_hole sp first last readonly) [] (one (hole_tree sp first last readonly))
unfolding encode_hole
hole-Writes sp first last readonly = within-Writes elem_hole _ _ _ (
    attrs-Writes _ _ _ _ _ (readonly-Writes readonly) (
      attrs-Writes _ _ _ _ _ (space-Writes attrib_space sp) (
        attrs-Writes _ _ _ _ _ (unsigned-Writes attrib_first first)
          (unsigned-Writes attrib_last last))))

abbrev pub starting_tree : PypcodeOracle → Function → ℤ → Bool → Tree
starting_tree o f offset true = symbol_tree o f
starting_tree o f offset false = hole_tree space_ram offset (pos (f.addr + f.size - 1)) true

-- The answer about an address, by the function that it lies in.
abbrev pub mapped_tree : PypcodeOracle → Option Function → ℤ → Tree
mapped_tree o none offset = hole_tree space_ram offset offset false
mapped_tree o (some f) offset = starting_tree o f offset (eq_int offset (pos f.addr))

starting-Writes :
    (o : PypcodeOracle) (f : Function) (offset : ℤ) (starts : Bool)
    → Writes
        (if starts
          then encode_function_symbol o f
          else encode_hole space_ram offset (pos (f.addr + f.size - 1)) true)
        []
        (one (starting_tree o f offset starts))
starting-Writes o f offset true = symbol-Writes o f
starting-Writes o f offset false = hole-Writes space_ram offset (pos (f.addr + f.size - 1)) true

pub mapped-Writes :
    (o : PypcodeOracle) (f : Option Function) (offset : ℤ)
    → Writes (mapped_symbol o f offset) [] (one (mapped_tree o f offset))
unfolding mapped_symbol
mapped-Writes o none offset = hole-Writes space_ram offset offset false
mapped-Writes o (some f) offset = starting-Writes o f offset (eq_int offset (pos f.addr))
