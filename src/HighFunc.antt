-- ===== src/HighFunc.antt =====
-- angr_ghidra_core/ghidra_wire/highfunc.py: the reader of a function's model. An attribute that is
-- missing is none; what the attribute's value is, the reader does not check.
pub mod Emitted
pub mod Decoded
mod Tests
use angr_ghidra_core.Prelude.{ℕ, List, [], ◌∷◌, ◌++◌, Option, none, some, map}
use angr_ghidra_core.Prelude.Int.{ℤ, negsuc}
use angr_ghidra_core.Packed.{Value, int}
use angr_ghidra_core.Dump.{Element, element, Elements, nil, cons}
use angr_ghidra_core.Dump.Access.{attr, find, first}
use Prim.Native.String.{String}

pub record Symbol : Type 0 where
  pub sym_id : Option Value
  pub name : Option Value
  pub category : Value
  pub cat_index : Value
  pub type_name : Option Value
  pub type_id : Option Value
  pub storage_space : Option Value
  pub storage_offset : Option Value
  pub storage_size : Option Value

pub record Varnode : Type 0 where
  pub ref : Option Value
  pub space : Option Value
  pub offset : Option Value
  pub size : Option Value

pub record HighVar : Type 0 where
  pub high_class : Option Value
  pub symref : Option Value
  pub repref : Option Value
  pub type_name : Option Value
  pub members : List Value

abbrev pub Storage : Type 0
Storage = Option Value × Option Value × Option Value

pub record HighFunction : Type 0 where
  pub name : Option Value
  pub entry_space : Option Value
  pub entry_offset : Option Value
  pub size : Option Value
  pub return_type : Option Value
  pub return_storage : Option Storage
  pub symbols : List Symbol
  pub varnodes : List Varnode
  pub highs : List HighVar

-- `el.attr(name) if el else None`
abbrev pub attr_of : Option Element → String → Option Value
attr_of none name = none
attr_of (some el) name = attr el name

-- `el.first(name)` of an element that may be missing.
abbrev pub child_of : Option Element → String → Option Element
child_of none name = none
child_of (some el) name = first el name

abbrev pub children_of : Option Element → String → List Element
children_of none name = []
children_of (some el) name = find el name

-- `el.attr(name, default)`
abbrev pub attr_or : Option Value → Value → Value
attr_or none d = d
attr_or (some v) d = v

-- `el.first("typeref") or el.first("type")`
abbrev pub type_of : Option Element → Option Element
type_of el = elim (child_of el "typeref") [ some t ↦ some t | none ↦ child_of el "type" ]

abbrev pub storage : Option Value → Option Value → Option Value → Option Storage
storage none none size = none
storage space off size = some (space, off, size)

-- `_addr_tuple`
abbrev pub addr_tuple : Option Element → Option Storage
addr_tuple addr_el =
    storage (attr_of addr_el "space") (attr_of addr_el "offset") (attr_of addr_el "size")

abbrev pub minus_one : Value
minus_one = int (negsuc 0)

abbrev pub decoded_symbol : Option Element → Option Element → Symbol
decoded_symbol sym_el addr_el = record {
  sym_id = attr_of sym_el "id";
  name = attr_of sym_el "name";
  category = attr_or (attr_of sym_el "cat") minus_one;
  cat_index = attr_or (attr_of sym_el "index") minus_one;
  type_name = attr_of (type_of sym_el) "name";
  type_id = attr_of (type_of sym_el) "id";
  storage_space = attr_of addr_el "space";
  storage_offset = attr_of addr_el "offset";
  storage_size = attr_of addr_el "size";
}

-- `_decode_mapsym`
abbrev pub decode_mapsym : Element → Symbol
decode_mapsym mapsym = decoded_symbol (first mapsym "symbol") (first mapsym "addr")

abbrev pub decode_varnode : Element → Varnode
decode_varnode vn = record {
  ref = attr vn "ref";
  space = attr vn "space";
  offset = attr vn "offset";
  size = attr vn "size";
}

-- The refs of the `<addr>` children that have one.
abbrev pub with_ref : Option Value → List Value → List Value
with_ref none rest = rest
with_ref (some v) rest = v ∷ rest

abbrev pub member_refs : List Element → List Value
member_refs [] = []
member_refs (a ∷ rest) = with_ref (attr a "ref") (member_refs rest)

abbrev pub decode_high : Element → HighVar
decode_high high = record {
  high_class = attr high "class";
  symref = attr high "symref";
  repref = attr high "repref";
  type_name = attr_of (type_of (some high)) "name";
  members = member_refs (find high "addr");
}

unfoldable pub decode_high_function : Element → HighFunction
decode_high_function fn =
    let addr = first fn "addr" in
    let returnsym = child_of (first fn "prototype") "returnsym" in
    record {
      name = attr fn "name";
      entry_space = attr_of addr "space";
      entry_offset = attr_of addr "offset";
      size = attr fn "size";
      return_type = attr_of (type_of returnsym) "name";
      return_storage = addr_tuple (child_of returnsym "addr");
      symbols =
          map decode_mapsym
            (children_of (child_of (child_of (first fn "localdb") "scope") "symbollist") "mapsym");
      varnodes = map decode_varnode (children_of (child_of (first fn "ast") "varnodes") "addr");
      highs = map decode_high (children_of (first fn "highlist") "high");
    }

-- `collect_token_attr`
unfoldable mutual
  pub collect_token_attr : Element → String → List Value
  collect_token_attr (element ident attrs children) name =
      with_ref (attr (element ident attrs children) name) (collect_all children name)

  pub collect_all : Elements → String → List Value
  collect_all nil name = []
  collect_all (cons e es) name = collect_token_attr e name ++ collect_all es name
