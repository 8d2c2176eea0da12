-- ===== src/Emit.antt =====
-- angr_ghidra_core/core/emit.py: ResponseEmitter, and what it reads of the generated C.
pub mod Writer
pub mod Tokens
pub mod Model
pub mod Document
pub mod Markup
pub mod Shapes
pub mod Function
pub mod Ast
pub mod Parsed
mod Tests
use angr_ghidra_core.Prelude.{ℕ, Bool, true, false, List, [], ◌∷◌, Option, none, some, ◌==◌, ◌&&◌}
use angr_ghidra_core.Prelude.Int.{ℤ}
use angr_ghidra_core.Packed.{Bytes}
use angr_ghidra_core.Variables.{SimVariable}

-- The fields of ResponseEmitter; `space_const` is 0. `coretype_ids` is a dict by name.
pub record Emitter : Type 0 where
  pub space_ram : ℕ
  pub space_register : ℕ
  pub space_unique : ℕ
  pub return_register : ℤ × ℤ
  pub coretype_ids : List (Bytes × ℤ)
  -- `part[0].isalnum()` where the first letter is not ASCII
  pub wide_alnum : Bytes → Bool

abbrev pub space_const : ℕ
space_const = 0

abbrev pub type_color : ℕ
type_color = 2

abbrev pub function_color : ℕ
function_color = 3

abbrev pub variable_color : ℕ
variable_color = 4

abbrev pub const_color : ℕ
const_color = 5

-- What is read of the object of a chunk: the name of its class, the variable and the id of an
-- occurrence, and the address of its tags.
pub record Node : Type 0 where
  pub class_name : Bytes
  pub variable : Option SimVariable
  pub vvar_id : Option ℕ
  pub ins_addr : Option ℕ

-- A pair of `c_repr_chunks`.
abbrev pub CChunk : Type 0
CChunk = Bytes × Option Node

abbrev pub same_bytes : Bytes → Bytes → Bool
same_bytes [] [] = true
same_bytes (x ∷ xs) (y ∷ ys) = x == y && same_bytes xs ys
same_bytes _ _ = false
