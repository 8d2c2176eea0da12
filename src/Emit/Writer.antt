-- ===== src/Emit/Writer.antt =====
-- Sequences of the encoder's calls, and the trees that they write.
use angr_ghidra_core.Prelude.{
  ℕ, Option, none, some, Bool, List, [], ◌∷◌, ◌++◌, ◌≡◌, refl, sym, ap, ◌∙◌,
}
use angr_ghidra_core.Prelude.Int.{ℤ, pos}
use angr_ghidra_core.Prelude.Result.{Result, ok, err, ◌>>=◌}
use angr_ghidra_core.Packed.{Bytes}
use angr_ghidra_core.Packed.Encoder.{
  open_element, close_element, write_bool, write_signed, write_unsigned, write_string, write_space,
  write_special_space, write_opcode,
}
use angr_ghidra_core.Packed.Wire.{
  Write, boolean, signed, unsigned, string, space, special, opcode, write,
}
use angr_ghidra_core.Dump.Trees.{Tree, node, Trees, done, also, write_attrs, emit, emit_all}

-- What calls of the encoder do to its buffer.
abbrev pub Action : Type 0
Action = Bytes → Result Bytes

unfoldable pub skip : Action
skip buf = ok buf

infixr 6 ◌>>◌
unfoldable pub ◌>>◌ : Action → Action → Action
◌>>◌ f g buf = do buf' ← f buf; g buf'

-- `open_element(id)`, the calls in between, and `close_element(id)`.
unfoldable pub within : ℕ → Action → Action
within id body buf = do opened ← open_element id buf; filled ← body opened; close_element id filled

-- The calls of a loop.
unfoldable pub each {ℓ} : {A : Type ℓ} → (A → Action) → List A → Action
unfolding skip ◌>>◌
each f [] = skip
each f (x ∷ xs) = f x >> each f xs

infixr 65 ◌+++◌
abbrev pub ◌+++◌ : Trees → Trees → Trees
done +++ us = us
also t ts +++ us = also t (ts +++ us)

abbrev pub one : Tree → Trees
one t = also t done

abbrev pub all_of {ℓ} : {A : Type ℓ} → (A → Trees) → List A → Trees
all_of f [] = done
all_of f (x ∷ xs) = f x +++ all_of f xs

bind_assoc : (r : Result Bytes) (f g : Action) → ((r >>= f) >>= g) ≡ (r >>= λ b. f b >>= g)
bind_assoc (ok b) f g = refl
bind_assoc (err e) f g = refl

bind_ok : (r : Result Bytes) → (r >>= ok) ≡ r
bind_ok (ok b) = refl
bind_ok (err e) = refl

bind_cong : (r : Result Bytes) (f g : Action) → ((b : Bytes) → f b ≡ g b) → (r >>= f) ≡ (r >>= g)
bind_cong (ok b) f g h = h b
bind_cong (err e) f g h = refl

-- Calls that write attributes and then whole elements, as a tree's own calls would, on every buffer.
pub record Writes (f : Action) (ws : List (ℕ × Write)) (ts : Trees) : Type 0 where
  pub run : (buf : Bytes) → f buf ≡ (write_attrs ws buf >>= emit_all ts)

pub skip-Writes : Writes skip [] done
unfolding skip write_attrs emit_all
skip-Writes = record { run = λ buf. refl }

pub attr-Writes : (id : ℕ) (w : Write) → Writes (write id w) ((id, w) ∷ []) done
unfolding write_attrs emit_all
attr-Writes id w = record {
  run = λ buf.
      sym (ap (λ r. r >>= emit_all done) (bind_ok (write id w buf)) ∙ bind_ok (write id w buf));
}

emit_all-append :
    (ts us : Trees) (buf : Bytes) → emit_all (ts +++ us) buf ≡ (emit_all ts buf >>= emit_all us)
unfolding emit_all
emit_all-append done us buf = refl
emit_all-append (also t ts) us buf =
    bind_cong (emit t buf) _ _ (emit_all-append ts us)
    ∙ sym (bind_assoc (emit t buf) (emit_all ts) (emit_all us))

write_attrs-append :
    (ws vs : List (ℕ × Write)) (buf : Bytes)
    → write_attrs (ws ++ vs) buf ≡ (write_attrs ws buf >>= write_attrs vs)
unfolding write_attrs
write_attrs-append [] vs buf = refl
write_attrs-append ((id, w) ∷ ws) vs buf =
    bind_cong (write id w buf) _ _ (write_attrs-append ws vs)
    ∙ sym (bind_assoc (write id w buf) (write_attrs ws) (write_attrs vs))

-- More attributes.
pub attrs-Writes :
    (f g : Action) (ws vs : List (ℕ × Write)) (ts : Trees)
    → Writes f ws done
    → Writes g vs ts
    → Writes (f >> g) (ws ++ vs) ts
unfolding ◌>>◌ emit_all
attrs-Writes f g ws vs ts a b = record {
  run = λ buf.
      ap (λ r. r >>= g) (a.run buf ∙ bind_ok (write_attrs ws buf))
      ∙ bind_cong (write_attrs ws buf) g _ b.run
      ∙ sym (bind_assoc (write_attrs ws buf) (write_attrs vs) (emit_all ts))
      ∙ ap (λ r. r >>= emit_all ts) (sym (write_attrs-append ws vs buf));
}

-- More elements.
pub kids-Writes :
    (f g : Action) (ws : List (ℕ × Write)) (ts us : Trees)
    → Writes f ws ts
    → Writes g [] us
    → Writes (f >> g) ws (ts +++ us)
unfolding ◌>>◌ write_attrs
kids-Writes f g ws ts us a b = record {
  run = λ buf.
      ap (λ r. r >>= g) (a.run buf)
      ∙ bind_assoc (write_attrs ws buf) (emit_all ts) g
      ∙ bind_cong (write_attrs ws buf) _ _
          (λ b'. bind_cong (emit_all ts b') g (emit_all us) b.run ∙ sym (emit_all-append ts us b'));
}

pub within-Writes :
    (id : ℕ) (f : Action) (ws : List (ℕ × Write)) (ts : Trees)
    → Writes f ws ts
    → Writes (within id f) [] (one (node id ws ts))
unfolding within write_attrs emit emit_all
within-Writes id f ws ts a = record {
  run = λ buf. sym (bind_ok (emit (node id ws ts) buf) ∙ opened buf);
}
  where
    opened : (buf : Bytes) → emit (node id ws ts) buf ≡ within id f buf
    opened buf = bind_cong (open_element id buf) _ _ (λ b. sym (
        ap (λ r. r >>= close_element id) (a.run b)
        ∙ bind_assoc (write_attrs ws b) (emit_all ts) (close_element id)))

pub each-Writes {ℓ} :
    {A : Type ℓ} (f : A → Action) (tree : A → Trees) (xs : List A)
    → ((x : A) → Writes (f x) [] (tree x))
    → Writes (each f xs) [] (all_of tree xs)
unfolding each
each-Writes f tree [] h = skip-Writes
each-Writes f tree (x ∷ xs) h =
    kids-Writes (f x) (each f xs) [] (tree x) (all_of tree xs) (h x) (each-Writes f tree xs h)

pub bool-Writes : (id : ℕ) (b : Bool) → Writes (write_bool id b) ((id, boolean b) ∷ []) done
unfolding write
bool-Writes id b = attr-Writes id (boolean b)

pub signed-Writes : (id : ℕ) (z : ℤ) → Writes (write_signed id z) ((id, signed z) ∷ []) done
unfolding write
signed-Writes id z = attr-Writes id (signed z)

pub unsigned-Writes : (id : ℕ) (z : ℤ) → Writes (write_unsigned id z) ((id, unsigned z) ∷ []) done
unfolding write
unsigned-Writes id z = attr-Writes id (unsigned z)

pub string-Writes : (id : ℕ) (s : Bytes) → Writes (write_string id s) ((id, string s) ∷ []) done
unfolding write
string-Writes id s = attr-Writes id (string s)

pub space-Writes : (id i : ℕ) → Writes (write_space id i) ((id, space i) ∷ []) done
unfolding write
space-Writes id i = attr-Writes id (space i)

pub special-Writes : (id c : ℕ) → Writes (write_special_space id c) ((id, special c) ∷ []) done
unfolding write
special-Writes id c = attr-Writes id (special c)

pub opcode-Writes : (id n : ℕ) → Writes (write_opcode id n) ((id, opcode n) ∷ []) done
unfolding write
opcode-Writes id n = attr-Writes id (opcode n)

-- An attribute, and what follows it.
pub then_attr :
    (f g : Action) (id : ℕ) (w : Write) (ws : List (ℕ × Write)) (ts : Trees)
    → Writes f ((id, w) ∷ []) done
    → Writes g ws ts
    → Writes (f >> g) ((id, w) ∷ ws) ts
then_attr f g id w ws ts a b = attrs-Writes f g ((id, w) ∷ []) ws ts a b

-- An element, and what follows it.
pub then_kids :
    (f g : Action) (ts us : Trees)
    → Writes f [] ts
    → Writes g [] us
    → Writes (f >> g) [] (ts +++ us)
then_kids f g ts us a b = kids-Writes f g [] ts us a b

-- An attribute that may be missing.
unfoldable pub write_opt : ℕ → Option ℕ → Action
unfolding skip
write_opt id none = skip
write_opt id (some r) = write_unsigned id (pos r)

abbrev pub opt_attr : ℕ → Option ℕ → List (ℕ × Write)
opt_attr id none = []
opt_attr id (some r) = (id, unsigned (pos r)) ∷ []

pub opt-Writes : (id : ℕ) (r : Option ℕ) → Writes (write_opt id r) (opt_attr id r) done
unfolding write_opt
opt-Writes id none = skip-Writes
opt-Writes id (some r) = unsigned-Writes id (pos r)
