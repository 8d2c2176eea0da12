-- ===== src/Dynahash/Tests.antt =====
-- The hash of a small graph, and the way back from it.
use angr_ghidra_core.Prelude.Int.{pos}
use angr_ghidra_core.Prelude.{ℕ, [], ◌∷◌, none, some, ◌≡◌, refl}
use angr_ghidra_core.Prelude.Result.{ok}
use angr_ghidra_core.Dynahash.{crc_entry, trans, Graph, const_space, register_space, unique_space}
use angr_ghidra_core.Dynahash.Walk.{
  vn_up, skip_down, new_edges, vn_down, build_all, edges, crc_bytes, crc_edges, calc_hash,
}
use angr_ghidra_core.Dynahash.Lookup.{
  Best, first_level, matching_until, find_varnode, try_methods, unique_hash,
}
use angr_ghidra_core.Dynahash.Lookup.RoundTrip.{find_varnode-unique_hash}

-- 3 = 1 + 2 at 0x1000, and 4 = COPY 3 at 0x1004.
abbrev sample : Graph
sample = record {
  by_ref =
      (1, record { space = register_space; offset = pos 0; size = 4 })
      ∷ (2, record { space = const_space; offset = pos 7; size = 4 })
      ∷ (3, record { space = unique_space; offset = pos 16; size = 4 })
      ∷ (4, record { space = register_space; offset = pos 8; size = 4 })
      ∷ [];
  blocks = (0 ∷ 1 ∷ []) ∷ [];
  ops =
      record { time = 1; opcode = 1; ins_addr = 0x1004; output = some 4; inputs = 3 ∷ [] }
      ∷ record { time = 0; opcode = 19; ins_addr = 0x1000; output = some 3; inputs = 1 ∷ 2 ∷ [] }
      ∷ [];
}

abbrev best : Best
best = record { champion = some (3 ∷ []); hash = 2748253643152; addr = some 0x1000 }

tried :
    try_methods 8 sample 3 4 0 (record { champion = none; hash = 0; addr = none }) ≡ ok (some best)
unfolding crc_entry trans vn_up skip_down new_edges vn_down build_all edges crc_bytes crc_edges
    calc_hash first_level matching_until try_methods
tried = refl

find_varnode-unique_hash_example :
    (h : ℕ) × (addr : ℕ) × (unique_hash 8 sample 3 ≡ ok (h, some addr))
    × (find_varnode 8 sample addr h ≡ ok (some 3))
find_varnode-unique_hash_example = find_varnode-unique_hash 8 sample 3 best tried refl
