-- ===== src/Ids.antt =====
-- angr_ghidra_core/ghidra_wire/ids.py: the ids of elements and attributes, and their names.
pub mod Consts
pub mod ElementNames
mod AttributeNames
pub mod Unique
mod Tests
use ElementNames.{element_names_low, element_names_high}
use AttributeNames.{attribute_names_low, attribute_names_high}
pub use Consts.*
use angr_ghidra_core.Prelude.{ℕ, List, [], ◌∷◌, ◌++◌, Option, none, some, ◌==◌, if◌then◌else◌}
use Prim.Native.String.{String}

-- What `ELEMENT_NAMES.get(id, f"elem#{id}")` gives: a name of the table, or the text made of the id.
pub data Name : Type 0 where
  known : String → Name
  unnamed : ℕ → Name

-- A dict by integer keys, as the list of its items.
unfoldable pub name_in : List (ℕ × String) → ℕ → Name
name_in [] id = unnamed id
name_in ((k, name) ∷ rest) id = if k == id then known name else name_in rest id

unfoldable pub element_names : List (ℕ × String)
unfolding element_names_low element_names_high
element_names = element_names_low ++ element_names_high

unfoldable pub attribute_names : List (ℕ × String)
unfolding attribute_names_low attribute_names_high
attribute_names = attribute_names_low ++ attribute_names_high

unfoldable pub element_name : ℕ → Name
unfolding name_in element_names
element_name id = name_in element_names id

unfoldable pub attribute_name : ℕ → Name
unfolding name_in attribute_names
attribute_name id = name_in attribute_names id
