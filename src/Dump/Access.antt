-- ===== src/Dump/Access.antt =====
-- angr_ghidra_core/ghidra_wire/dump.py: the searches of an `Element` by name.
use angr_ghidra_core.Prelude.{Bool, true, false, List, [], ◌∷◌, Option, none, some, if◌then◌else◌}
use angr_ghidra_core.Packed.{Value}
use Prim.Native.String.{String}
use Prim.Native.String as String
use Prim.Native.Nat.{Ordering}
use angr_ghidra_core.Ids.{Name, known, unnamed, element_name}
use angr_ghidra_core.Dump.{Element, element, Elements, nil, cons}

-- `self.name == name`. A name that the table does not have is "elem#n" or "attr#n", which nothing
-- asks for.
abbrev pub is_named : String → Name → Bool
is_named name (known text) = elim (String.compare text name) [ Ordering.eq ↦ true | _ ↦ false ]
is_named name (unnamed ident) = false

abbrev pub has_name : String → Element → Bool
has_name name (element ident attrs children) = is_named name (element_name ident)

abbrev pub attr_in : List (Name × Value) → String → Option Value
attr_in [] name = none
attr_in ((k, v) ∷ rest) name =
    let later = attr_in rest name in if is_named name k then some v else later

-- `attr`, without a default
abbrev pub attr : Element → String → Option Value
attr (element ident attrs children) name = attr_in attrs name

-- The children with a name.
abbrev pub with_name : Elements → String → List Element
with_name nil name = []
with_name (cons e es) name =
    let rest = with_name es name in if has_name name e then e ∷ rest else rest

-- `find`
abbrev pub find : Element → String → List Element
find (element ident attrs children) name = with_name children name

abbrev pub first_in : Elements → String → Option Element
first_in nil name = none
first_in (cons e es) name = let rest = first_in es name in if has_name name e then some e else rest

-- `first`
abbrev pub first : Element → String → Option Element
first (element ident attrs children) name = first_in children name
