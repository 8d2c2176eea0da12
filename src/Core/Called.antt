-- ===== src/Core/Called.antt =====
-- ghidra_wire/client.py with core/angr_core.py: what the calls of DecompClient return when AngrCore
-- serves them, and where they leave it.
use angr_ghidra_core.Prelude.{
  ℕ, ◌<◌, Bool, true, ◌&&◌, List, [], ◌∷◌, Option, none, some, ltb, All, ◌≡◌, refl, ◌∙◌, ap, ap₂,
  arith,
}
use angr_ghidra_core.Prelude.Result.{Result, Error, ok, err, value_error}
use angr_ghidra_core.Prelude.Text.{codes, digits, decimal}
use angr_ghidra_core.Prelude.Int.{pos}
use angr_ghidra_core.Packed.{Bytes}
use angr_ghidra_core.Packed.Decoder.{Decoder}
use angr_ghidra_core.Packed.NonZero.{IsPayload}
use angr_ghidra_core.Packed.Utf8.{is_utf8, decode_utf8, is_utf8_ascii}
use angr_ghidra_core.Client.{Answer}
use angr_ghidra_core.Client.Calls.{
  Call, register_program, deregister_program, set_action, set_options, flush_native, Called, named,
  truth, number, request, result_of, int_of,
}
use angr_ghidra_core.Core.{Handler, low_level_error}
use angr_ghidra_core.Core.Serving.{IsCommand}
use angr_ghidra_core.Core.Exchange.{
  Received, replied, IsReplied, exchange, message, exchange-handled,
}
use angr_ghidra_core.Core.Commands.{
  AngrCore, and_then, decode_all, unpacked, registered, action_set, cmd_register_program,
  cmd_deregister_program, cmd_flush_native, cmd_set_action, cmd_set_options, cmd,
}

-- Letters that are no zero and below 128.
abbrev pub is_ascii : Bytes → Bool
is_ascii [] = true
is_ascii (c ∷ cs) = (ltb 0 c && ltb c 128) && is_ascii cs

pub ascii-IsPayload : (bs : Bytes) → is_ascii bs ≡ true → IsPayload bs
ascii-IsPayload [] h = tt
ascii-IsPayload (c ∷ cs) h = ((ground arith, ground arith), ascii-IsPayload cs (ground arith))

ascii-small : (bs : Bytes) → is_ascii bs ≡ true → All (λ b. b < 0x80) bs
ascii-small [] h = tt
ascii-small (c ∷ cs) h = (ground arith, ascii-small cs (ground arith))

abbrev IsText : Bytes → Type 0
IsText bs = IsPayload bs × (is_utf8 bs ≡ true)

-- Calls whose texts hold no zero byte, UTF-8 where the core decodes them.
abbrev pub IsCall : Bytes → Call → Type 0
IsCall id (register_program pspec cspec tspec coretypes) =
    IsText pspec × IsText cspec × IsText tspec × IsText coretypes
IsCall id deregister_program = IsPayload id
IsCall id (set_action action printconfig) = IsPayload id × IsText action × IsPayload printconfig
IsCall id (set_options options) = IsPayload id × IsPayload options
IsCall id flush_native = IsPayload id

-- What a call returns or raises, the error message that it leaves, and the state of the core.
abbrev pub Effect : Type 0 → Type 0
Effect S = Result Called × Option Bytes × S

abbrev pub called : {S : Type 0} → Call → Result Received × S → Effect S
called call (err e, s) = (err e, none, s)
called call (ok (output, error), s) = (result_of call output, error, s)

IsCommand-ascii :
    (name : Bytes) (params : List Bytes)
    → is_ascii name ≡ true
    → All IsPayload params
    → IsCommand (name, params)
IsCommand-ascii name params h hp =
    (is_utf8_ascii name (ascii-small name h), (ascii-IsPayload name h, hp))

-- An action that is not empty, or the one before.
abbrev pub chosen : Bytes → Bytes → Bytes
chosen [] before = before
chosen action before = action

decode_utf8-text : (bs : Bytes) → is_utf8 bs ≡ true → decode_utf8 bs ≡ ok bs
unfolding decode_utf8
decode_utf8-text bs h = rw h refl

decode_all-texts : (ps : List Bytes) → All IsText ps → decode_all ps ≡ ok ps
decode_all-texts [] h = refl
decode_all-texts (p ∷ ps) (hp, h) = ap₂ and_then (decode_utf8-text p hp.1) (decode_all-texts ps h)

module _ {Spec Emitter Prototype : Type 0}
    (parse_specs : Bytes → Bytes → Bytes → Bytes → Result Spec) (str : Error → Bytes) where
  abbrev pub registration :
      Result Spec → AngrCore Spec Emitter Prototype → Effect (AngrCore Spec Emitter Prototype)
  registration (err e) s = (ok (named []), message (low_level_error (str e)), s)
  registration (ok spec) s =
      (ok (named (codes "0")), none, record s { spec = some spec; emitter = some none })

  -- What a call is to do.
  abbrev pub expected :
      Call → AngrCore Spec Emitter Prototype → Effect (AngrCore Spec Emitter Prototype)
  expected (register_program pspec cspec tspec coretypes) s =
      registration (parse_specs pspec cspec tspec coretypes) s
  expected deregister_program s = (err value_error, none, record s { pending_exit = true })
  expected (set_action action printconfig) s =
      (ok (truth true), none, record s { action = chosen action s.action })
  expected (set_options options) s = (ok (truth true), none, s)
  expected flush_native s = (ok (number (pos 1)), none, record s { proto_cache = [] })

  module _ (decompile_at : Handler (AngrCore Spec Emitter Prototype))
      (oracle : ℕ → Decoder → Answer) (id : Bytes)
      (printable : (e : Error) → IsPayload (low_level_error (str e))) where
    unpacked_lem :
        (a b c d : Bytes) (s : AngrCore Spec Emitter Prototype)
        → IsText a
        → IsText b
        → IsText c
        → IsText d
        → unpacked parse_specs str (decode_all (a ∷ b ∷ c ∷ d ∷ [])) s
          ≡ registered parse_specs str (parse_specs a b c d) s
    unpacked_lem a b c d s ha hb hc hd =
        ap (λ r. unpacked parse_specs str r s)
          (decode_all-texts (a ∷ b ∷ c ∷ d ∷ []) (ha, (hb, (hc, (hd, tt)))))

    registered-IsReplied :
        (r : Result Spec) (s : AngrCore Spec Emitter Prototype)
        → IsReplied (registered parse_specs str r s).0
    unfolding decimal digits
    registered-IsReplied (ok spec) s = ascii-IsPayload (codes "0") refl
    registered-IsReplied (err e) s = printable e

    registered-registration :
        (a b c d : Bytes) (r : Result Spec) (s : AngrCore Spec Emitter Prototype)
        → called
            (register_program a b c d)
            (ok (replied (registered parse_specs str r s).0), (registered parse_specs str r s).1)
          ≡ registration r s
    unfolding decimal digits decode_utf8 is_utf8
    registered-registration a b c d (ok spec) s = refl
    registered-registration a b c d (err e) s = refl

    set-IsReplied :
        (r : Result Bytes) (s : AngrCore Spec Emitter Prototype)
        → IsReplied (action_set parse_specs str r s).0
    set-IsReplied (ok action) s = ascii-IsPayload (codes "t") refl
    set-IsReplied (err e) s = printable e

    -- A call against the core does what it is to do. `register_program` returns the arch id "0", and the
    -- core has the specifications and no emitter yet; where they cannot be parsed it returns the empty
    -- id and leaves the exception's text as the error message, and the core is as it was.
    -- `set_action` and `set_options` return True, and an action that is not empty is the core's;
    -- `flush_native` returns 1 and the prototypes are forgotten; and `deregister_program` raises
    -- ValueError, for int("") of the empty output. The texts hold no zero byte and are UTF-8 where the
    -- core decodes them.
    pub call-expected :
        (call : Call) (s : AngrCore Spec Emitter Prototype)
        → IsCall id call
        → called call (exchange (cmd parse_specs str decompile_at) oracle (request id call) s)
          ≡ expected call s
    unfolding cmd int_of decode_utf8 is_utf8
    call-expected (register_program a b c d) s (ha, hb, hc, hd) =
        ap (called (register_program a b c d)) (
          exchange-handled oracle (cmd parse_specs str decompile_at)
            (some (cmd_register_program parse_specs str)) (codes "registerProgram")
            (a ∷ b ∷ c ∷ d ∷ []) s refl
            (IsCommand-ascii (codes "registerProgram") (a ∷ b ∷ c ∷ d ∷ []) refl
              (ha.0, (hb.0, (hc.0, (hd.0, tt)))))
            (rw (unpacked_lem a b c d s ha hb hc hd)
              (registered-IsReplied (parse_specs a b c d) s)))
        ∙ ap (λ o. called (register_program a b c d) (ok (replied o.0), o.1))
            (unpacked_lem a b c d s ha hb hc hd)
        ∙ registered-registration a b c d (parse_specs a b c d) s
    call-expected deregister_program s h = ap (called deregister_program) (
        exchange-handled oracle (cmd parse_specs str decompile_at)
          (some (cmd_deregister_program parse_specs str)) (codes "deregisterProgram") (id ∷ []) s
          refl (IsCommand-ascii (codes "deregisterProgram") (id ∷ []) refl (h, tt)) tt)
    call-expected (set_action [] printconfig) s (h, ha, hp) =
        ap (called (set_action [] printconfig)) (
          exchange-handled oracle (cmd parse_specs str decompile_at)
            (some (cmd_set_action parse_specs str)) (codes "setAction") (id ∷ [] ∷ printconfig ∷ [])
            s refl
            (IsCommand-ascii (codes "setAction") (id ∷ [] ∷ printconfig ∷ []) refl
              (h, (ha.0, (hp, tt))))
            (ascii-IsPayload (codes "t") refl))
    call-expected (set_action (c ∷ cs) printconfig) s (h, ha, hp) =
        ap (called (set_action (c ∷ cs) printconfig)) (
          exchange-handled oracle (cmd parse_specs str decompile_at)
            (some (cmd_set_action parse_specs str)) (codes "setAction")
            (id ∷ (c ∷ cs) ∷ printconfig ∷ []) s refl
            (IsCommand-ascii (codes "setAction") (id ∷ (c ∷ cs) ∷ printconfig ∷ []) refl
              (h, (ha.0, (hp, tt))))
            (set-IsReplied (decode_utf8 (c ∷ cs)) s))
        ∙ ap
            (λ r.
              called (set_action (c ∷ cs) printconfig) (
                ok (replied (action_set parse_specs str r s).0),
                (action_set parse_specs str r s).1,
              ))
            (decode_utf8-text (c ∷ cs) ha.1)
    call-expected (set_options options) s (h, ho) = ap (called (set_options options)) (
        exchange-handled oracle (cmd parse_specs str decompile_at)
          (some (cmd_set_options parse_specs str)) (codes "setOptions") (id ∷ options ∷ []) s refl
          (IsCommand-ascii (codes "setOptions") (id ∷ options ∷ []) refl (h, (ho, tt)))
          (ascii-IsPayload (codes "t") refl))
    call-expected flush_native s h = ap (called flush_native) (
        exchange-handled oracle (cmd parse_specs str decompile_at)
          (some (cmd_flush_native parse_specs str)) (codes "flushNative") (id ∷ []) s refl
          (IsCommand-ascii (codes "flushNative") (id ∷ []) refl (h, tt))
          (ascii-IsPayload (codes "1") refl))
