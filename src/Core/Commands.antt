-- ===== src/Core/Commands.antt =====
-- core/angr_core.py: the state of AngrCore and its handlers of commands that ask no queries.
-- The handler of `decompileAt` runs angr and is an argument. `parse_specs` reads XML and is a
-- parameter, as is what `str` makes of an exception.
use angr_ghidra_core.Prelude.{
  ℕ, Bool, true, false, List, [], ◌∷◌, Option, none, some, if◌then◌else◌, take,
}
use angr_ghidra_core.Prelude.Result.{Result, Error, ok, err, value_error}
use angr_ghidra_core.Prelude.Text.{codes, decimal}
use angr_ghidra_core.Packed.{Bytes}
use angr_ghidra_core.Packed.Utf8.{decode_utf8}
use angr_ghidra_core.Core.{Outcome, returned, exits, failed, Handler}
use angr_ghidra_core.Core.Serving.{Quiet, lifted}
use angr_ghidra_core.Emit.{same_bytes}

-- `self.arch_id`, which nothing changes.
abbrev pub arch_id : ℕ
arch_id = 0

-- `emitter` is an attribute from the first `registerProgram` on, and then None or an emitter. The
-- prototypes of callees are cached by address, None too.
pub record AngrCore (Spec Emitter Prototype : Type 0) : Type 0 where
  pub spec : Option Spec
  pub action : Bytes
  pub emitter : Option (Option Emitter)
  pub proto_cache : List (ℕ × Option Prototype)
  pub pending_exit : Bool

-- `AngrCore.__init__`
abbrev pub new_core : {Spec Emitter Prototype : Type 0} → AngrCore Spec Emitter Prototype
new_core = record {
  spec = none;
  action = codes "decompile";
  emitter = none;
  proto_cache = [];
  pending_exit = false;
}

abbrev pub and_then : Result Bytes → Result (List Bytes) → Result (List Bytes)
and_then (err e) rest = err e
and_then (ok text) (err e) = err e
and_then (ok text) (ok texts) = ok (text ∷ texts)

-- The decoding of the parameters, up to the first that raises.
abbrev pub decode_all : List Bytes → Result (List Bytes)
decode_all [] = ok []
decode_all (p ∷ ps) = and_then (decode_utf8 p) (decode_all ps)

module _ {Spec Emitter Prototype : Type 0}
    (parse_specs : Bytes → Bytes → Bytes → Bytes → Result Spec) (str : Error → Bytes) where
  abbrev pub raises :
      Error → AngrCore Spec Emitter Prototype → Outcome × AngrCore Spec Emitter Prototype
  raises e s = (failed (str e), s)

  abbrev pub registered :
      Result Spec → AngrCore Spec Emitter Prototype → Outcome × AngrCore Spec Emitter Prototype
  registered (err e) s = raises e s
  registered (ok spec) s =
      (returned (some (decimal arch_id)), record s { spec = some spec; emitter = some none })

  -- The four texts, or ValueError if there are fewer.
  abbrev pub unpacked :
      Result (List Bytes)
      → AngrCore Spec Emitter Prototype
      → Outcome × AngrCore Spec Emitter Prototype
  unpacked (err e) s = raises e s
  unpacked (ok (pspec ∷ cspec ∷ tspec ∷ coretypes ∷ _)) s =
      registered (parse_specs pspec cspec tspec coretypes) s
  unpacked (ok _) s = raises value_error s

  abbrev pub cmd_register_program : Quiet (AngrCore Spec Emitter Prototype)
  cmd_register_program params s = unpacked (decode_all (take 4 params)) s

  -- `raise SystemExit(0)`
  abbrev pub cmd_deregister_program : Quiet (AngrCore Spec Emitter Prototype)
  cmd_deregister_program params s = (exits, record s { pending_exit = true })

  abbrev pub cmd_flush_native : Quiet (AngrCore Spec Emitter Prototype)
  cmd_flush_native params s = (returned (some (codes "1")), record s { proto_cache = [] })

  abbrev pub action_set :
      Result Bytes → AngrCore Spec Emitter Prototype → Outcome × AngrCore Spec Emitter Prototype
  action_set (err e) s = raises e s
  action_set (ok action) s = (returned (some (codes "t")), record s { action = action })

  -- An action that is missing or empty is left as it was.
  abbrev pub cmd_set_action : Quiet (AngrCore Spec Emitter Prototype)
  cmd_set_action (id ∷ (c ∷ cs) ∷ _) s = action_set (decode_utf8 (c ∷ cs)) s
  cmd_set_action _ s = (returned (some (codes "t")), s)

  abbrev pub cmd_set_options : Quiet (AngrCore Spec Emitter Prototype)
  cmd_set_options params s = (returned (some (codes "t")), s)

  -- `getattr(self, "cmd_" + name, None)`
  unfoldable pub cmd :
      Handler (AngrCore Spec Emitter Prototype)
      → Bytes
      → Option (Handler (AngrCore Spec Emitter Prototype))
  cmd decompile_at name =
      if same_bytes name (codes "registerProgram")
      then some (lifted cmd_register_program)
      else if same_bytes name (codes "deregisterProgram")
      then some (lifted cmd_deregister_program)
      else if same_bytes name (codes "flushNative")
      then some (lifted cmd_flush_native)
      else if same_bytes name (codes "setAction")
      then some (lifted cmd_set_action)
      else if same_bytes name (codes "setOptions")
      then some (lifted cmd_set_options)
      else if same_bytes name (codes "decompileAt")
      then some decompile_at
      else none
