-- ===== src/Core/Queries.antt =====
-- angr_ghidra_core/core/angr_core.py: the queries that AngrCore asks of Ghidra, and the choice of the
-- architecture by the registers that Ghidra knows. The session's cache of that choice is left out.
use angr_ghidra_core.Prelude.{
  ℕ, Bool, true, false, List, [], ◌∷◌, Option, none, some, ◌==◌, if◌then◌else◌,
}
use angr_ghidra_core.Prelude.Int.{ℤ, pos}
use angr_ghidra_core.Prelude.Result.{Result, ok, err, callback_error}
use angr_ghidra_core.Prelude.Text.{codes}
use angr_ghidra_core.Packed.{Bytes, Value, int}
use angr_ghidra_core.Packed.Utf8.{decode_utf8}
use angr_ghidra_core.Packed.Encoder.{write_string, write_space, write_unsigned, write_signed}
use angr_ghidra_core.Packed.Decoder.{Decoder, init, open_element, attributes}
use angr_ghidra_core.Address.{index, encode_addr, get}
use angr_ghidra_core.Dump.{Element, Elements, nil, cons, parse_tree}
use angr_ghidra_core.Dump.Access.{attr, find, first}
use angr_ghidra_core.Transport.{Transport, Run, ◌>>=◌, pure}
use angr_ghidra_core.Server.{lift, Reply, string, bytes, empty, query}
use angr_ghidra_core.Emit.Writer.{Action, ◌>>◌, within}
use angr_ghidra_core.Ids.Consts.{
  elem_command_getregister, elem_command_getregistername, elem_command_getmappedsymbols,
  attrib_name, attrib_offset, attrib_size, attrib_space, elem_addr,
}

-- A query whose bytes an encoder writes.
abbrev pub ask : Action → Run Transport Reply
ask enc = do payload ← lift (enc []); query payload

-- `attrs.get(id, default)`
abbrev get_or : List (ℕ × Value) → ℕ → ℕ → Value
get_or attrs id default = elim (get attrs id) [ none ↦ int (pos default) | some v ↦ v ]

abbrev pub storage_in : Result (List (ℕ × Value)) → Result (Value × Value)
storage_in (ok attrs) = ok (get_or attrs attrib_offset 0, get_or attrs attrib_size 8)
storage_in (err e) = err e

abbrev pub storage_opened : Result ℕ × Decoder → Result (Value × Value)
storage_opened (ok el, d) = storage_in (attributes d)
storage_opened (err e, d) = err e

-- The storage in the reply about a register, or (0, 8).
unfoldable pub register_storage : Reply → Result (Value × Value)
register_storage (string (b ∷ bs)) = storage_opened (open_element (some elem_addr) (init (b ∷ bs)))
register_storage (string []) = ok (int (pos 0), int (pos 8))
register_storage (bytes payload) = ok (int (pos 0), int (pos 8))
register_storage empty = ok (int (pos 0), int (pos 8))

unfoldable pub register_question : Bytes → Action
unfolding within
register_question name = within elem_command_getregister (write_string attrib_name name)

-- `_query_register`
unfoldable pub query_register : Bytes → Run Transport (Value × Value)
unfolding register_storage register_question
query_register name = do reply ← ask (register_question name); lift (register_storage reply)

-- The first function of the first symbols that have one.
abbrev pub function_of : List Element → Option Element
function_of [] = none
function_of (mapsym ∷ rest) =
    let later = function_of rest in
    elim (first mapsym "function") [ some fn ↦ some fn | none ↦ later ]

abbrev pub function_in : Elements → Option Element
function_in nil = none
function_in (cons root roots) =
    let later = function_in roots in
    elim (function_of (find root "mapsym")) [ some fn ↦ some fn | none ↦ later ]

abbrev pub in_roots : Result Elements → Result (Option Element)
in_roots (ok roots) = ok (function_in roots)
in_roots (err e) = err e

-- The function in the reply about a mapped symbol.
unfoldable pub mapped_function : Reply → Result (Option Element)
mapped_function (string (b ∷ bs)) = in_roots (parse_tree (b ∷ bs))
mapped_function (string []) = ok none
mapped_function (bytes payload) = ok none
mapped_function empty = ok none

unfoldable pub mapped_question : ℕ → ℤ → Action
unfolding within
mapped_question space_ram entry =
    within elem_command_getmappedsymbols
      (encode_addr (record { space = index space_ram; offset = entry }))

-- `_query_mapped_function`
unfoldable pub query_mapped_function : ℕ → ℤ → Run Transport (Option Element)
unfolding mapped_function mapped_question
query_mapped_function space_ram entry = do
  reply ← ask (mapped_question space_ram entry)
  lift (mapped_function reply)

-- `_query_function`: the name, which has a default, and the size.
unfoldable pub query_function : ℕ → ℤ → Value → Run Transport (Value × Option Value)
unfolding query_mapped_function
query_function space_ram entry default = do
  found ← query_mapped_function space_ram entry
  pure (elim found [
    | none ↦ (default, none)
    | some fn ↦ (elim (attr fn "name") [ none ↦ default | some name ↦ name ], attr fn "size")
  ])

unfoldable pub register_name_question : ℕ → ℤ → ℤ → Action
unfolding within ◌>>◌
register_name_question space_register offset size = within elem_command_getregistername (
    within elem_addr (
      write_space attrib_space space_register
      >> write_unsigned attrib_offset offset
      >> write_signed attrib_size size))

abbrev decoded_name : Reply → Result (Option Bytes)
decoded_name (string (b ∷ bs)) = elim (decode_utf8 (b ∷ bs)) [
  | ok name ↦ ok (some name)
  | err e ↦ err e
]
decoded_name (string []) = ok none
decoded_name (bytes payload) = ok none
decoded_name empty = ok none

-- `_query_register_name`
unfoldable pub query_register_name : ℕ → ℤ → ℤ → Run Transport (Option Bytes)
unfolding register_name_question
query_register_name space_register offset size = do
  reply ← ask (register_name_question space_register offset size)
  lift (decoded_name reply)

abbrev has_payload : Reply → Bool
has_payload (string (b ∷ bs)) = true
has_payload (string []) = false
has_payload (bytes payload) = false
has_payload empty = false

-- `except CallbackException: return False`
abbrev exists_in : Result Reply × Transport → Result Bool × Transport
exists_in (ok reply, t) = (ok (has_payload reply), t)
exists_in (err (callback_error message), t) = (ok false, t)
exists_in (err e, t) = (err e, t)

-- `_register_exists`
unfoldable pub register_exists : Bytes → Run Transport Bool
unfolding register_question
register_exists name t = exists_in (ask (register_question name) t)

-- `a and b`, which asks for the second only if the first is there.
unfoldable both_exist : Bytes → Bytes → Run Transport Bool
unfolding register_exists
both_exist a b = do
  first_exists ← register_exists a
  if first_exists then register_exists b else pure false

-- `a` decides, or else what follows.
abbrev decides :
    Run Transport Bool → Bytes → Run Transport (Option Bytes) → Run Transport (Option Bytes)
decides test ident rest = do found ← test; if found then pure (some ident) else rest

-- What `_resolve_arch` finds by the registers, for a program of `bits`.
unfoldable pub resolve_ident : ℕ → Run Transport (Option Bytes)
unfolding register_exists both_exist
resolve_ident bits = decides (register_exists (codes "RAX")) (codes "amd64") (
    decides (register_exists (codes "EAX")) (codes "x86") (
      decides (register_exists (codes "x0")) (codes "aarch64") (
        decides (both_exist (codes "v0") (codes "a0"))
          (if bits == 64 then codes "mips64" else codes "mips32")
          (decides (both_exist (codes "r31") (codes "r3"))
            (if bits == 64 then codes "ppc64" else codes "ppc32")
            (decides (both_exist (codes "r0") (codes "lr")) (codes "arm") (pure none))))))
