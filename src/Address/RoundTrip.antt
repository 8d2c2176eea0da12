-- ===== src/Address/RoundTrip.antt =====
-- An address that was encoded is decoded.
use angr_ghidra_core.Prelude.{
  ℕ, ◌+◌, ◌<◌, ◌^◌, List, [], ◌∷◌, ◌++◌, append-nil, append_assoc, none, some, ◌≡◌, refl, sym, ap,
  ◌∙◌, arith, length, drop-append, length-append,
}
use angr_ghidra_core.Prelude.Int.{ℤ, pos}
use angr_ghidra_core.Prelude.Result.{ok}
use angr_ghidra_core.Packed.{Bytes, Value, int, special_space}
use angr_ghidra_core.Packed.Encoder.{mask_u64}
use angr_ghidra_core.Packed.Encoder
use angr_ghidra_core.Packed.Decoder.{Decoder, open_element, attributes, close_element_skipping}
use angr_ghidra_core.Packed.Groups.{Ahead}
use angr_ghidra_core.Packed.Wire.{
  write, Write, unsigned, space, special, header_bytes, put_header-bytes, read_back, IsWritable,
}
use angr_ghidra_core.Packed.Values.{attr_bytes, write-bytes}
use angr_ghidra_core.Dump.Trees.{Tree, node, done, tree_bytes, attrs_bytes, forest_bytes, IsTree}
use angr_ghidra_core.Dump.Skipping.{open-attributes-close}
use angr_ghidra_core.Ids.Consts.{elem_addr, attrib_space, attrib_offset}
use angr_ghidra_core.Address.{
  AddrSpace, index, special, Addr, encode_space, encode_addr_attributes, encode_addr, decode_addr,
  addr_in, opened_addr, close_addr, closed_addr,
}

-- Indices that fit the encoding.
abbrev pub IsSpace : AddrSpace → Type 0
IsSpace (index i) = i < 2 ^ 64
IsSpace (special code) = code < 16

abbrev write_of : AddrSpace → Write
write_of (index i) = space i
write_of (special code) = Write.special code

-- The space as the decoder yields it.
abbrev pub space_value : AddrSpace → Value
space_value (index i) = int (pos i)
space_value (special code) = special_space code

abbrev writes : Addr → List (ℕ × Write)
writes addr = (attrib_space, write_of addr.space) ∷ (attrib_offset, unsigned addr.offset) ∷ []

abbrev addr_tree : Addr → Tree
addr_tree addr = node elem_addr (writes addr) done

encode_space-bytes :
    (s : AddrSpace) (buf : Bytes)
    → IsSpace s
    → encode_space s buf ≡ ok (buf ++ attr_bytes attrib_space (write_of s))
unfolding Encoder.write_space Encoder.write_special_space write
encode_space-bytes (index i) buf h = write-bytes attrib_space (space i) buf (omega arith) h
encode_space-bytes (special code) buf h =
    write-bytes attrib_space (Write.special code) buf (omega arith) h

opens-bytes :
    (buf : Bytes) → Encoder.open_element elem_addr buf ≡ ok (buf ++ header_bytes 1 elem_addr)
unfolding Encoder.open_element
opens-bytes buf = put_header-bytes 1 elem_addr buf (omega arith) (omega arith)

closes-bytes :
    (buf : Bytes) → Encoder.close_element elem_addr buf ≡ ok (buf ++ header_bytes 2 elem_addr)
unfolding Encoder.close_element
closes-bytes buf = put_header-bytes 2 elem_addr buf (omega arith) (omega arith)

offset-bytes :
    (z : ℤ) (buf : Bytes)
    → Encoder.write_unsigned attrib_offset z buf ≡ ok (buf ++ attr_bytes attrib_offset (unsigned z))
unfolding write
offset-bytes z buf = write-bytes attrib_offset (unsigned z) buf (omega arith) tt

attributes-bytes :
    (addr : Addr) (buf : Bytes)
    → IsSpace addr.space
    → encode_addr_attributes addr none buf ≡ ok (buf ++ attrs_bytes (writes addr))
unfolding encode_addr_attributes attrs_bytes
attributes-bytes addr buf h =
    let spaced = attr_bytes attrib_space (write_of addr.space) in
    rw (encode_space-bytes addr.space buf h, offset-bytes addr.offset (buf ++ spaced))
      (simp (append_assoc, append-nil) refl)

encode_addr-bytes :
    (addr : Addr) (buf : Bytes)
    → IsSpace addr.space
    → encode_addr addr buf ≡ ok (buf ++ tree_bytes (addr_tree addr))
unfolding encode_addr tree_bytes forest_bytes
encode_addr-bytes addr buf h =
    let opened = buf ++ header_bytes 1 elem_addr in
    rw
      (
        opens-bytes buf,
        attributes-bytes addr opened h,
        closes-bytes (opened ++ attrs_bytes (writes addr)),
      )
      (simp append_assoc refl)

addr_in-writes :
    (s : Value) (z : ℕ)
    → addr_in ((attrib_space, s) ∷ (attrib_offset, int (pos z)) ∷ [])
      ≡ record { space = some s; offset = int (pos z) }
addr_in-writes s z = refl

read_back-space : (s : AddrSpace) → read_back (write_of s) ≡ space_value s
read_back-space (index i) = refl
read_back-space (special code) = refl

addr_tree-IsTree : (addr : Addr) → IsSpace addr.space → IsTree (addr_tree addr)
addr_tree-IsTree addr h =
    (omega arith, ((omega arith, writable addr.space h), ((omega arith, tt), tt)), tt)
  where
    writable : (s : AddrSpace) → IsSpace s → IsWritable (write_of s)
    writable (index i) h = h
    writable (special code) h = h

decoded :
    (d inside d' : Decoder) (el : ℕ) (l : List (ℕ × Value))
    → open_element none d ≡ (ok el, inside)
    → attributes inside ≡ ok l
    → close_element_skipping el inside ≡ (ok tt, d')
    → decode_addr d ≡ (ok (addr_in l, l), d')
unfolding decode_addr
decoded d inside d' el l opens attrs closes =
    ap opened_addr opens ∙ ap (close_addr el inside) attrs ∙ ap (closed_addr l) closes

-- An address that `encode_addr` writes is decoded by `decode_addr` where it stands: to its space, its
-- offset modulo 2 ^ 64, and these two attributes; the decoder then stands behind it. It holds for an
-- index of a space below 2 ^ 64 and a code of a special one below 16.
pub decode_addr-encode_addr :
    (addr : Addr) (buf rest : Bytes) (starts : List ℕ)
    → IsSpace addr.space
    → (out : Bytes) × (encode_addr addr buf ≡ ok out)
      × (decode_addr (record { buf = out ++ rest; at = length buf; attr_start = starts }) ≡ (
        ok (
          record {
            space = some (space_value addr.space);
            offset = int (pos (mask_u64 addr.offset));
          },
          (attrib_space, space_value addr.space)
              ∷ (attrib_offset, int (pos (mask_u64 addr.offset)))
              ∷ [],
        ),
        record { buf = out ++ rest; at = length out; attr_start = starts },
      ))
decode_addr-encode_addr addr buf rest starts h =
    let tree = tree_bytes (addr_tree addr) in
    let d : Decoder = record {
      buf = (buf ++ tree) ++ rest;
      at = length buf;
      attr_start = starts;
    } in
    let ahead : Ahead d.buf d.at (tree ++ rest) = record {
      suffix = rw (append_assoc buf tree rest) (drop-append buf (tree ++ rest));
    } in
    let (inside, opens, attrs, closes) =
      open-attributes-close elem_addr (writes addr) done d rest (addr_tree-IsTree addr h) ahead in
    let behind : length buf + length tree ≡ length (buf ++ tree) = sym (length-append buf tree) in
    let offset_attr : ℕ × Value = (attrib_offset, int (pos (mask_u64 addr.offset))) in
    let found : List (ℕ × Value) = (attrib_space, space_value addr.space) ∷ offset_attr ∷ [] in
    let listed : attributes inside ≡ ok found =
      attrs ∙ ap (λ v. ok ((attrib_space, v) ∷ offset_attr ∷ [])) (read_back-space addr.space) in
    let d' : Decoder = record d { at = length buf + length tree } in
    (
      buf ++ tree,
      encode_addr-bytes addr buf h,
      decoded d inside d' elem_addr found opens listed closes
          ∙ ap (λ n. (ok (addr_in found, found), record d { at = n })) behind,
    )
