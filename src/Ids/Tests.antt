-- ===== src/Ids/Tests.antt =====
-- Names looked up, and the theorems at concrete ids.
use angr_ghidra_core.Prelude.{ℕ, ◌≡◌, refl}
use angr_ghidra_core.Ids.{known, unnamed, element_name, attribute_name, elem_addr}
use angr_ghidra_core.Ids.Unique.{element_name_injective}

addr_name : element_name elem_addr ≡ known "addr"
unfolding element_name
addr_name = refl

no_name : attribute_name 4000 ≡ unnamed 4000
unfolding attribute_name
no_name = refl

addr_alone : ◌≡◌ {A = ℕ} 11 elem_addr
unfolding element_name
addr_alone = element_name_injective 11 elem_addr refl
