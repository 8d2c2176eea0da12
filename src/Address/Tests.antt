-- ===== src/Address/Tests.antt =====
-- An address in the space 3, encoded and decoded.
use angr_ghidra_core.Prelude.{ℕ, [], ◌∷◌, ◌++◌, some, length, ◌≡◌, arith}
use angr_ghidra_core.Prelude.Int.{negsuc, pos}
use angr_ghidra_core.Prelude.Result.{ok}
use angr_ghidra_core.Packed.{Bytes, int}
use angr_ghidra_core.Packed.Encoder.{mask_u64}
use angr_ghidra_core.Ids.Consts.{attrib_space, attrib_offset}
use angr_ghidra_core.Address.{Addr, index, encode_addr, decode_addr}
use angr_ghidra_core.Address.RoundTrip.{space_value, decode_addr-encode_addr}

abbrev below_zero : Addr
below_zero = record { space = index 3; offset = negsuc 1 }

decode_addr-encode_addr_example :
    (out : Bytes) × (encode_addr below_zero (9 ∷ []) ≡ ok out)
    × (decode_addr (record { buf = out ++ (7 ∷ []); at = length {A = ℕ} (9 ∷ []); attr_start = [] })
        ≡ (
          ok (
            record {
              space = some (space_value (index 3));
              offset = int (pos (mask_u64 (negsuc 1)));
            },
            (attrib_space, space_value (index 3))
                ∷ (attrib_offset, int (pos (mask_u64 (negsuc 1))))
                ∷ [],
          ),
          record { buf = out ++ (7 ∷ []); at = length out; attr_start = [] },
        ))
decode_addr-encode_addr_example =
    decode_addr-encode_addr below_zero (9 ∷ []) (7 ∷ []) [] (omega arith)
