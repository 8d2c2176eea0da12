-- ===== src/Emit/Document.antt =====
-- core/emit.py: `emit_doc`.
use angr_ghidra_core.Prelude.{ℕ, List, [], Option}
use angr_ghidra_core.Prelude.Int.{ℤ}
use angr_ghidra_core.Prelude.Result.{Result}
use angr_ghidra_core.Packed.{Bytes}
use angr_ghidra_core.Ids.Consts.{elem_doc}
use angr_ghidra_core.Pcode.{Translator}
use angr_ghidra_core.Variables.{Table}
use angr_ghidra_core.Emit.{Emitter, CChunk}
use angr_ghidra_core.Emit.Writer.{◌>>◌, within}
use angr_ghidra_core.Emit.Model.{emit_model_function}
use angr_ghidra_core.Emit.Tokens.{emit_markup_function}

-- `emit_doc`: the bytes of the response. The tokens read only the caches of the translator that the
-- model leaves alone.
unfoldable pub emit_doc :
    Emitter → Bytes → ℤ → ℕ → List CChunk → Option Table → Option Translator → Result Bytes
unfolding within ◌>>◌ emit_model_function emit_markup_function
emit_doc em name entry size chunks table translator =
    within elem_doc
      (emit_model_function em name entry size table translator
        >> emit_markup_function em table chunks translator)
      []
