-- ===== src/HighFunc/Emitted.antt =====
-- core/emit.py with ghidra_wire/highfunc.py: what the reader finds in the model that is emitted.
use angr_ghidra_core.Prelude.{
  ℕ, ◌≡◌, refl, ap, ap₂, ◌∙◌, Bool, true, false, ◌&&◌, List, [], ◌∷◌, ◌++◌, Option, none, some, map,
}
use Prim.Native.String.{String}
use angr_ghidra_core.Prelude.Int.{ℤ, pos, negsuc}
use angr_ghidra_core.Packed.{Value, int, special_space, text}
use angr_ghidra_core.Packed.Encoder.{mask_u64}
use angr_ghidra_core.Packed.Wire.{boolean, unsigned, signed, string, read_back}
use angr_ghidra_core.Ids.{element_name, attribute_name}
use angr_ghidra_core.Ids.Consts.{
  attrib_cat, attrib_class, attrib_id, attrib_name, attrib_namelock, attrib_offset, attrib_ref,
  attrib_repref, attrib_size, attrib_symref, attrib_typelock, elem_addr, elem_high, elem_mapsym,
  elem_rangelist, elem_symbol, elem_typeref,
}
use angr_ghidra_core.Dump.Access.{has_name, with_name}
use angr_ghidra_core.Dump.Trees.{Tree, node, also, view, view_all}
use angr_ghidra_core.Pcode.{Translator}
use angr_ghidra_core.Pcode as Pcode
use angr_ghidra_core.Pcode.State.{is_stack}
use angr_ghidra_core.Variables.{VarSymbol, Table, high_class}
use angr_ghidra_core.Emit.{Emitter}
use angr_ghidra_core.Emit.Writer.{one, all_of}
use angr_ghidra_core.Emit.Model.{
  typeref_name, type_id, symbol_space, refs_or, varnode_space, at_offset,
}
use angr_ghidra_core.Emit.Shapes.{leaf, type_id_attr, space_attr}
use angr_ghidra_core.Emit.Function.{tied_attr, cat_index_attr, mapsym_tree}
use angr_ghidra_core.HighFunc.{
  Symbol, Varnode, HighVar, decode_mapsym, decode_varnode, decode_high, member_refs, minus_one,
}

-- The values that the reader is to find for a symbol, a varnode and a variable.
abbrev pub number : ℕ → Value
number n = read_back (unsigned (pos n))

abbrev pub cat_index_seen : ℤ → Value
cat_index_seen (pos i) = number i
cat_index_seen (negsuc n) = minus_one

abbrev pub type_id_seen : Option ℤ → Option Value
type_id_seen none = none
type_id_seen (some tid) = some (read_back (unsigned tid))

abbrev pub space_seen : Option ℕ → Value
space_seen none = special_space 0
space_seen (some i) = int (pos i)

abbrev pub offset_seen : ℤ → Value
offset_seen offset = read_back (unsigned (pos (mask_u64 offset)))

abbrev pub seen_symbol : Emitter → VarSymbol → Symbol
seen_symbol em s = record {
  sym_id = some (number s.sym_id);
  name = some (text s.name);
  category = int s.category;
  cat_index = cat_index_seen s.cat_index;
  type_name = some (text (typeref_name em s.type_name));
  type_id = type_id_seen (type_id em s.type_name);
  storage_space = some (space_seen (symbol_space s));
  storage_offset = some (offset_seen s.offset);
  storage_size = some (int (pos s.size));
}

abbrev pub seen_varnode : Emitter → Pcode.Varnode → Varnode
seen_varnode em vn = record {
  ref = some (number vn.ref);
  space = some (space_seen (varnode_space em vn.space));
  offset = some (offset_seen vn.offset);
  size = some (int (pos vn.size));
}

abbrev pub seen_high : Emitter → VarSymbol → HighVar
seen_high em s = record {
  high_class = some (text (high_class s));
  symref = some (number s.sym_id);
  repref = some (number s.varnode_ref);
  type_name = some (text (typeref_name em s.type_name));
  members = map number (refs_or s.member_refs s.varnode_ref);
}

-- The children of a loop are found in order, all of them.
pub with_name-all_of :
    {A : Type 0} (tree : A → Tree) (name : String) (xs : List A)
    → ((x : A) → has_name name (view (tree x)) ≡ true)
    → with_name (view_all (all_of (λ x. one (tree x)) xs)) name ≡ map (λ x. view (tree x)) xs
with_name-all_of tree name [] h = refl
with_name-all_of tree name (x ∷ xs) h =
    rw (h x) (ap (λ es. view (tree x) ∷ es) (with_name-all_of tree name xs h))

pub map-pointwise :
    {A B C : Type 0} (f : B → C) (g : A → B) (h : A → C) (xs : List A)
    → ((x : A) → f (g x) ≡ h x)
    → map f (map g xs) ≡ map h xs
map-pointwise f g h [] e = refl
map-pointwise f g h (x ∷ xs) e = ap₂ ◌∷◌ (e x) (map-pointwise f g h xs e)

-- A `<mapsym>` with the parts that depend on a case taken out.
abbrev mapsym_of : ℤ → Option ℤ → Option ℕ → Emitter → VarSymbol → Tree
mapsym_of cat_index tid place em s = node elem_mapsym [] (
    also
      (node elem_symbol
        ((attrib_id, unsigned (pos s.sym_id))
          ∷ (attrib_name, string s.name)
          ∷ (attrib_typelock, boolean false)
          ∷ (attrib_namelock, boolean false)
          ∷ (attrib_cat, signed s.category)
          ∷ (cat_index_attr cat_index ++ []))
        (one (
          leaf elem_typeref
            ((attrib_name, string (typeref_name em s.type_name)) ∷ type_id_attr tid))))
      (also
        (leaf elem_addr (
          space_attr place
          ∷ (attrib_offset, unsigned (pos (mask_u64 s.offset)))
          ∷ (attrib_size, signed (pos s.size))
          ∷ []))
        (one (leaf elem_rangelist []))))

abbrev seen_of : ℤ → Option ℤ → Option ℕ → Emitter → VarSymbol → Symbol
seen_of cat_index tid place em s = record (seen_symbol em s) {
  cat_index = cat_index_seen cat_index;
  type_id = type_id_seen tid;
  storage_space = some (space_seen place);
}

decode-mapsym_of :
    (cat_index : ℤ) (tid : Option ℤ) (place : Option ℕ) (em : Emitter) (s : VarSymbol)
    → decode_mapsym (view (mapsym_of cat_index tid place em s)) ≡ seen_of cat_index tid place em s
unfolding element_name attribute_name
decode-mapsym_of (pos i) none none em s = refl
decode-mapsym_of (pos i) none (some p) em s = refl
decode-mapsym_of (pos i) (some t) none em s = refl
decode-mapsym_of (pos i) (some t) (some p) em s = refl
decode-mapsym_of (negsuc i) none none em s = refl
decode-mapsym_of (negsuc i) none (some p) em s = refl
decode-mapsym_of (negsuc i) (some t) none em s = refl
decode-mapsym_of (negsuc i) (some t) (some p) em s = refl

pub decode-mapsym :
    (em : Emitter) (s : VarSymbol) → decode_mapsym (view (mapsym_tree em s)) ≡ seen_symbol em s
decode-mapsym em s = decode-mapsym_of s.cat_index (type_id em s.type_name) (symbol_space s) em s

abbrev pub varnode_of : Option ℕ → Bool → Pcode.Varnode → Tree
varnode_of place tied vn = leaf elem_addr (
    (attrib_ref, unsigned (pos vn.ref))
    ∷ space_attr place
    ∷ (attrib_offset, unsigned (pos (mask_u64 vn.offset)))
    ∷ (attrib_size, signed (pos vn.size))
    ∷ tied_attr tied)

decode-varnode_of :
    (place : Option ℕ) (tied : Bool) (em : Emitter) (vn : Pcode.Varnode)
    → decode_varnode (view (varnode_of place tied vn))
      ≡ record (seen_varnode em vn) { space = some (space_seen place) }
unfolding attribute_name
decode-varnode_of none true em vn = refl
decode-varnode_of none false em vn = refl
decode-varnode_of (some p) true em vn = refl
decode-varnode_of (some p) false em vn = refl

abbrev pub varnode_tree : Emitter → Table → Pcode.Varnode → Tree
varnode_tree em table vn =
    varnode_of (varnode_space em vn.space) (is_stack vn.space && at_offset vn.offset table.symbols)
      vn

abbrev ref_tree : ℕ → Tree
ref_tree ref = leaf elem_addr ((attrib_ref, unsigned (pos ref)) ∷ [])

member_refs-map :
    (refs : List ℕ) → member_refs (map (λ r. view (ref_tree r)) refs) ≡ map number refs
unfolding attribute_name
member_refs-map [] = refl
member_refs-map (r ∷ rs) = ap (λ vs. number r ∷ vs) (member_refs-map rs)

abbrev pub high_of : Option ℤ → Emitter → VarSymbol → Tree
high_of tid em s =
    node elem_high
      ((attrib_class, string (high_class s))
        ∷ (attrib_symref, unsigned (pos s.sym_id))
        ∷ (attrib_repref, unsigned (pos s.varnode_ref))
        ∷ [])
      (also
        (leaf elem_typeref ((attrib_name, string (typeref_name em s.type_name)) ∷ type_id_attr tid))
        (all_of (λ r. one (ref_tree r)) (refs_or s.member_refs s.varnode_ref)))

ref-named : (r : ℕ) → has_name "addr" (view (ref_tree r)) ≡ true
unfolding element_name
ref-named r = refl

members :
    (em : Emitter) (s : VarSymbol)
    → member_refs (
        with_name
          (view_all (all_of (λ r. one (ref_tree r)) (refs_or s.member_refs s.varnode_ref)))
          "addr")
      ≡ map number (refs_or s.member_refs s.varnode_ref)
members em s =
    ap member_refs
      (with_name-all_of ref_tree "addr" (refs_or s.member_refs s.varnode_ref) ref-named)
    ∙ member_refs-map (refs_or s.member_refs s.varnode_ref)

decode-high_of :
    (tid : Option ℤ) (em : Emitter) (s : VarSymbol)
    → decode_high (view (high_of tid em s)) ≡ seen_high em s
unfolding element_name attribute_name
decode-high_of none em s = ap (λ ms. record (seen_high em s) { members = ms }) (members em s)
decode-high_of (some t) em s = ap (λ ms. record (seen_high em s) { members = ms }) (members em s)

pub decode-varnode :
    (em : Emitter) (table : Table) (vn : Pcode.Varnode)
    → decode_varnode (view (varnode_tree em table vn)) ≡ seen_varnode em vn
decode-varnode em table vn =
    decode-varnode_of (varnode_space em vn.space)
      (is_stack vn.space && at_offset vn.offset table.symbols) em vn

abbrev pub high_tree : Emitter → VarSymbol → Tree
high_tree em s = high_of (type_id em s.type_name) em s

pub decode-high :
    (em : Emitter) (s : VarSymbol) → decode_high (view (high_tree em s)) ≡ seen_high em s
decode-high em s = decode-high_of (type_id em s.type_name) em s
