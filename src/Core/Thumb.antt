-- ===== src/Core/Thumb.antt =====
-- core/angr_core.py: whether a function of ARM is Thumb, by the lengths of its first instructions.
use angr_ghidra_core.Prelude.{
  ℕ, zero, suc, ◌+◌, ◌-◌, ◌%◌, ◌<◌, Bool, true, false, List, [], ◌∷◌, Option, none, some, ◌==◌,
  if◌then◌else◌, ◌≡◌, refl, sym, ◌∙◌, ap, ◌↔◌, ◌⊎◌, ◌≢◌, arith, inl, inr,
}
use mathlib.Core.Path.{subst}
use angr_ghidra_core.Prelude.Dicts.{put}
use angr_ghidra_core.Prelude.Dicts
use angr_ghidra_core.Prelude.Int.{ℤ, pos, negsuc}
use angr_ghidra_core.Prelude.Result.{Result, ok, err, type_error, callback_error}
use angr_ghidra_core.Packed.{Value, int, bool, text, special_space}
use angr_ghidra_core.Packed.Decoder.{Decoder, init, open_element, attributes}
use angr_ghidra_core.Address.{index, encode_addr, get}
use angr_ghidra_core.Transport.{Transport, Run, ◌>>=◌, pure, raise}
use angr_ghidra_core.Server.{Reply, string, bytes, empty}
use angr_ghidra_core.Emit.Writer.{Action, within}
use angr_ghidra_core.Core.Queries.{ask}
use angr_ghidra_core.Ids.Consts.{elem_command_getpcode, elem_inst, attrib_offset}

abbrev offset_in : Result (List (ℕ × Value)) → Option Value
offset_in (ok attrs) = get attrs attrib_offset
offset_in (err e) = none

abbrev offset_opened : Result ℕ × Decoder → Option Value
offset_opened (ok el, d) = offset_in (attributes d)
offset_opened (err e, d) = none

-- The length in the reply; a reply that cannot be decoded has none.
unfoldable length_in : Reply → Option Value
length_in (string (b ∷ bs)) = offset_opened (open_element (some elem_inst) (init (b ∷ bs)))
length_in (string []) = none
length_in (bytes payload) = none
length_in empty = none

abbrev caught : Result Reply × Transport → Result (Option Value) × Transport
caught (ok reply, t) = (ok (length_in reply), t)
caught (err (callback_error message), t) = (ok none, t)
caught (err e, t) = (err e, t)

unfoldable pcode_question : ℕ → ℕ → Action
unfolding within
pcode_question space_ram addr =
    within elem_command_getpcode
      (encode_addr (record { space = index space_ram; offset = pos addr }))

-- `_query_pcode_length`
unfoldable pub query_pcode_length : ℕ → ℕ → Run Transport (Option Value)
unfolding length_in pcode_question
query_pcode_length space_ram addr t = caught (ask (pcode_question space_ram addr) t)

-- What the loop does for a length: it stops, has found Thumb, or goes on behind the instruction.
pub data Verdict : Type 0 where
  stops : Verdict
  thumb : Verdict
  goes_on : ℕ → Verdict

abbrev by_length : ℕ → Verdict
by_length zero = stops
by_length (suc n) = if suc n == 2 then thumb else goes_on (suc n)

abbrev pub verdict : Option Value → Result Verdict
verdict none = ok stops
verdict (some (int (pos n))) = ok (by_length n)
verdict (some (int (negsuc n))) = ok stops
verdict (some (bool true)) = ok (goes_on 1)
verdict (some (bool false)) = ok stops
verdict (some (text [])) = ok stops
verdict (some (text _)) = err type_error
verdict (some (special_space code)) = err type_error

abbrev on_verdict : {S : Type 0} → (ℕ → Run S Bool) → Result Verdict → Run S Bool
on_verdict next (err e) = raise e
on_verdict next (ok stops) = pure false
on_verdict next (ok thumb) = pure true
on_verdict next (ok (goes_on k)) = next k

-- The loop of `_detect_thumb`, with `n` rounds left.
unfoldable pub thumb_rounds : {S : Type 0} → (ℕ → Run S (Option Value)) → ℕ → ℕ → Run S Bool
thumb_rounds query_length zero addr = pure false
thumb_rounds query_length (suc n) addr = do
  length ← query_length addr
  on_verdict (λ k. thumb_rounds query_length n (addr + k)) (verdict length)

abbrev pub even_base : ℕ → ℕ
even_base entry = entry - entry % 2

-- `_detect_thumb` with its cache; `is_arm32` is what the architecture says.
unfoldable pub detect_thumb :
    {S : Type 0}
    → (ℕ → Run S (Option Value))
    → Bool
    → ℕ
    → List (ℕ × Bool)
    → Run S (Bool × List (ℕ × Bool))
unfolding thumb_rounds put Dicts.get
detect_thumb query_length false entry cache = pure (false, cache)
detect_thumb query_length true entry cache = elim (Dicts.get ◌==◌ (even_base entry) cache) [
  | some known ↦ pure (known, cache)
  | none ↦ (do
    found ← thumb_rounds query_length 8 (even_base entry)
    pure (found, put ◌==◌ (even_base entry) found cache))
]

-- Among `n` instructions that follow each other from an address, one has two bytes.
pub data HasShort (lengths : ℕ → Option ℤ) : ℕ → ℕ → Type 0 where
  here : {n addr : ℕ} → lengths addr ≡ some (pos 2) → HasShort lengths (suc n) addr
  later :
      {n addr k : ℕ}
      → lengths addr ≡ some (pos k)
      → 0 < k
      → HasShort lengths n (addr + k)
      → HasShort lengths (suc n) addr

-- A callback that answers by a table of lengths.
abbrev pub valued : Option ℤ → Option Value
valued none = none
valued (some z) = some (int z)

abbrev pub asked : {S : Type 0} → (ℕ → Option ℤ) → ℕ → Run S (Option Value)
asked lengths addr s = (ok (valued (lengths addr)), s)

HasShort-positive : {lengths : ℕ → Option ℤ} {n addr : ℕ} → HasShort lengths n addr → 0 < n
HasShort-positive (here e) = omega arith
HasShort-positive (later e k rest) = omega arith

HasShort-inverted :
    {lengths : ℕ → Option ℤ} {n addr : ℕ}
    → HasShort lengths (suc n) addr
    → (lengths addr ≡ some (pos 2))
      ⊎ ((k : ℕ) × (lengths addr ≡ some (pos k)) × (0 < k) × HasShort lengths n (addr + k))
HasShort-inverted (here e) = inl e
HasShort-inverted (later e k rest) = inr (_, e, k, rest)

module _ {S : Type 0} (lengths : ℕ → Option ℤ) (s : S) where
  abbrev IsFound : ℕ → ℕ → Type 0
  IsFound n addr =
      (b : Bool) × (thumb_rounds (asked lengths) n addr s ≡ (ok b, s))
      × ((b ≡ true) ↔ HasShort lengths n addr)

  runs :
      (n addr : ℕ) (o : Option ℤ)
      → lengths addr ≡ o
      → thumb_rounds (asked lengths) (suc n) addr s
        ≡ on_verdict (λ k. thumb_rounds (asked lengths) n (addr + k)) (verdict (valued o)) s
  unfolding thumb_rounds
  runs n addr o e =
      ap (λ o. on_verdict (λ k. thumb_rounds (asked lengths) n (addr + k)) (verdict (valued o)) s) e

  -- A length that ends the walk.
  ends :
      (n addr : ℕ) (o : Option ℤ)
      → lengths addr ≡ o
      → ((k : ℕ) → o ≡ some (pos k) → k ≡ 0)
      → verdict (valued o) ≡ ok stops
      → IsFound (suc n) addr
  ends n addr o e no_length stopped = (
    false,
    runs n addr o e
        ∙ ap (λ v. on_verdict (λ k. thumb_rounds (asked lengths) n (addr + k)) v s) stopped,
    (
      λ t. cc,
      λ h. elim (HasShort-inverted h) [
        | inl two ↦ absurd (omega (arith, no_length 2 (sym e ∙ two)))
        | inr (k, some_k, positive, _) ↦
            absurd (omega (arith, positive, no_length k (sym e ∙ some_k)))
      ],
    ),
  )

  -- A length that is passed over.
  passes :
      (n addr k : ℕ)
      → lengths addr ≡ some (pos k)
      → 0 < k
      → k ≢ 2
      → verdict (some (int (pos k))) ≡ ok (goes_on k)
      → IsFound n (addr + k)
      → IsFound (suc n) addr
  passes n addr k e positive long passed (b, run, iff) = (
    b,
    runs n addr (some (pos k)) e
        ∙ ap (λ v. on_verdict (λ k. thumb_rounds (asked lengths) n (addr + k)) v s) passed
        ∙ run,
    (
      λ t. later e positive (iff.0 t),
      λ h. elim (HasShort-inverted h) [
        | inl two ↦ absurd (long (cc (e, two)))
        | inr (k', some_k, _, rest) ↦
            iff.1 (subst (λ k. HasShort lengths n (addr + k)) (same k' some_k) rest)
      ],
    ),
  )
    where
      same : (k' : ℕ) → lengths addr ≡ some (pos k') → k' ≡ k
      same k' some_k = cc (e, some_k)

  by_answer :
      (n addr : ℕ) (o : Option ℤ)
      → lengths addr ≡ o
      → ((k : ℕ) → IsFound n (addr + k))
      → IsFound (suc n) addr
  by_answer n addr none e rest = ends n addr none e (λ k e'. cc) refl
  by_answer n addr (some (negsuc k)) e rest = ends n addr (some (negsuc k)) e (λ k e'. cc) refl
  by_answer n addr (some (pos zero)) e rest = ends n addr (some (pos zero)) e (λ k e'. cc) refl
  by_answer n addr (some (pos (suc zero))) e rest =
      passes n addr 1 e (omega arith) (λ e'. omega arith) refl (rest 1)
  by_answer n addr (some (pos (suc (suc zero)))) e rest =
      (true, runs n addr (some (pos 2)) e, (λ t. here e, λ h. refl))
  by_answer n addr (some (pos (suc (suc (suc k))))) e rest =
      passes n addr (suc (suc (suc k))) e (omega arith) (λ e'. omega arith) (ground arith)
        (rest (suc (suc (suc k))))

  -- The walk of `_detect_thumb` finds Thumb exactly where one of the instructions that follow each
  -- other from the address, as many as there are rounds, has two bytes; it always ends with an answer,
  -- and leaves the state as it was. It holds for a callback that answers by a table.
  pub thumb_rounds-HasShort :
      (n addr : ℕ)
      → (b : Bool) × (thumb_rounds (asked lengths) n addr s ≡ (ok b, s))
        × ((b ≡ true) ↔ HasShort lengths n addr)
  unfolding thumb_rounds
  thumb_rounds-HasShort zero addr =
      (false, refl, (λ e. cc, λ h. absurd (omega (arith, HasShort-positive h))))
  thumb_rounds-HasShort (suc n) addr =
      by_answer n addr (lengths addr) refl (λ k. thumb_rounds-HasShort n (addr + k))
