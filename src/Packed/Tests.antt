-- ===== src/Packed/Tests.antt =====
-- Concrete runs of the encoder and the decoder.
use angr_ghidra_core.Prelude.{ℕ, List, [], ◌∷◌, some, none, true, ◌≡◌, refl}
use angr_ghidra_core.Prelude.Int.{negsuc}
use angr_ghidra_core.Prelude.Result.{Result, ok, ◌>>=◌}
use angr_ghidra_core.Packed.{Bytes, Value, int, bool, text}
use angr_ghidra_core.Packed.Encoder.{
  open_element, close_element, write_signed, write_string, write_bool,
}
use angr_ghidra_core.Packed.Decoder
use angr_ghidra_core.Packed.Search.{first, or_missing, is_some, read_opt-attributes}

sample : Result Bytes
unfolding open_element close_element write_signed write_string write_bool
sample = do
  a ← open_element 11 []
  b ← write_signed 300 (negsuc 299) a
  c ← write_string 4 (b'h' ∷ b'i' ∷ []) b
  d ← write_bool 5 true c
  close_element 11 d

sample_bytes : Bytes
sample_bytes =
    0x4b ∷ 0xe2 ∷ 0xac ∷ 0x32 ∷ 0x82 ∷ 0xac ∷ 0xc4 ∷ 0x71 ∷ 0x82 ∷ b'h' ∷ b'i' ∷ 0xc5 ∷ 0x11 ∷ 0x8b
    ∷ []

sample-bytes : sample ≡ ok sample_bytes
unfolding sample sample_bytes
sample-bytes = refl

opened : (Decoder.open_element (some 11) (Decoder.init sample_bytes)).0 ≡ ok 11
unfolding sample_bytes Decoder.open_element Decoder.open_run Decoder.byte Decoder.read_id
    Decoder.skip_attrs Decoder.skip_attr_value
opened = refl

sample_attrs :
    Decoder.attributes (Decoder.open_element none (Decoder.init sample_bytes)).1
    ≡ ok ((300, int (negsuc 299)) ∷ (4, text (b'h' ∷ b'i' ∷ [])) ∷ (5, bool true) ∷ [])
unfolding sample_bytes Decoder.open_element Decoder.attributes Decoder.open_run Decoder.byte
    Decoder.read_id Decoder.skip_attrs Decoder.skip_attr_value
sample_attrs = refl

skipped : (Decoder.skip_element (Decoder.init sample_bytes)).1.at ≡ 14
unfolding sample_bytes Decoder.skip_element Decoder.open_element Decoder.close_element_skipping
    Decoder.skip_to_end Decoder.open_run Decoder.byte Decoder.read_id Decoder.skip_attrs
    Decoder.skip_attr_value
skipped = refl

-- The decoder inside the sample's element.
abbrev sample_inside : Decoder.Decoder
sample_inside = record { buf = sample_bytes; at = 11; attr_start = 1 ∷ [] }

abbrev sample_list : List (ℕ × Value)
sample_list = (300, int (negsuc 299)) ∷ (4, text (b'h' ∷ b'i' ∷ [])) ∷ (5, bool true) ∷ []

sample_inside-attributes : Decoder.attributes sample_inside ≡ ok sample_list
unfolding sample_bytes Decoder.attributes
sample_inside-attributes = refl

read_opt-attributes_example :
    (Decoder.read_opt 4 sample_inside ≡ ok (first 4 sample_list))
    × (Decoder.read_attribute 4 sample_inside ≡ or_missing (first 4 sample_list))
    × (Decoder.has_attribute 4 sample_inside ≡ ok (is_some (first 4 sample_list)))
read_opt-attributes_example =
    read_opt-attributes sample_inside 4 sample_list sample_inside-attributes
