-- ===== src/Oracle/Queried.antt =====
-- core/angr_core.py with harness/oracle.py: what `_query_mapped_function` finds in the oracle's answer.
use angr_ghidra_core.Prelude.{max, Bool, true, false, Option, none, some}
use angr_ghidra_core.Prelude.Dicts.{eq_int}
use angr_ghidra_core.Prelude.Int.{ℤ, pos}
use angr_ghidra_core.Packed.{Value, int, text}
use angr_ghidra_core.Dump.{Element}
use angr_ghidra_core.Dump.Access.{attr}
use angr_ghidra_core.Dump.Trees.{view}
use angr_ghidra_core.Oracle.{Function, PypcodeOracle}
use angr_ghidra_core.Oracle.Answers.{function_tree}

abbrev starting : PypcodeOracle → Function → Bool → Option Element
starting o f true = some (view (function_tree o f))
starting o f false = none

-- The function that starts at an address.
abbrev starts_at : PypcodeOracle → Option Function → ℤ → Option Element
starts_at o none entry = none
starts_at o (some f) entry = starting o f (eq_int entry (pos f.addr))

-- The name and the size that an element tells.
abbrev pub Told : Type 0
Told = Option (Option Value × Option Value)

abbrev pub told : Option Element → Told
told none = none
told (some fn) = some (attr fn "name", attr fn "size")

-- What is to be told about a function, if it is there: a function without a size has the size 1.
abbrev pub names : Option Function → Told
names none = none
names (some f) = some (some (text f.name), some (int (pos (max f.size 1))))

-- The function of the table that starts at an address.
abbrev starts : Function → Bool → Option Function
starts f true = some f
starts f false = none

abbrev pub at_start : Option Function → ℤ → Option Function
at_start none entry = none
at_start (some f) entry = starts f (eq_int entry (pos f.addr))
