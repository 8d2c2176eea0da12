-- ===== src/Oracle/Tests.antt =====
-- An oracle with one function.
use angr_ghidra_core.Prelude.{◌≡◌, ◌≢◌, refl, true, [], ◌∷◌, none, some}
use angr_ghidra_core.Prelude.Dicts.{get, put}
use angr_ghidra_core.Prelude.Int.{pos}
use angr_ghidra_core.Prelude.Result.{ok}
use angr_ghidra_core.Prelude.Text.{codes}
use angr_ghidra_core.Packed.{Bytes, int}
use angr_ghidra_core.Emit.{same_bytes}
use angr_ghidra_core.Dump.Checked.{is_tree, is_tree-IsTree}
use angr_ghidra_core.Server.{string}
use angr_ghidra_core.Core.Queries.{register_storage}
use angr_ghidra_core.Oracle.{PypcodeOracle, add_function, function_containing}
use angr_ghidra_core.Oracle.Tables.{query_getregister}
use angr_ghidra_core.Oracle.Registers.{register_tree, register_storage-query_getregister}

abbrev no_functions : PypcodeOracle
no_functions = record {
  functions = [];
  labels = [];
  reg_by_name = (codes "RAX", (0, 8)) ∷ [];
  return_register = (0, 8);
}

abbrev with_main : PypcodeOracle
with_main = add_function 0x401000 (codes "main") 32 no_functions

main_found : function_containing with_main.functions (pos 0x401000) ≢ none
unfolding add_function put function_containing
main_found = λ e. cc

rax_found : get same_bytes (codes "RAX") with_main.reg_by_name ≡ some (0, 8)
unfolding add_function get
rax_found = refl

rax_IsTree : is_tree (register_tree 0 8) ≡ true
unfolding is_tree
rax_IsTree = refl

register_storage-query_getregister_example :
    (bs : Bytes) × (query_getregister with_main (codes "RAX") ≡ ok bs)
    × (register_storage (string bs) ≡ ok (int (pos 0), int (pos 8)))
register_storage-query_getregister_example =
    register_storage-query_getregister with_main (codes "RAX") 0 8 rax_found
      (is_tree-IsTree _ rax_IsTree)
