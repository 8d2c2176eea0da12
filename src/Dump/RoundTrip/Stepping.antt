-- ===== src/Dump/RoundTrip/Stepping.antt =====
-- `parse_tree` as steps over what the encoder wrote, and the elements that are attached at the end.
use angr_ghidra_core.Prelude.{
  ℕ, zero, suc, ◌+◌, ◌≤◌, ◌<◌, List, [], ◌∷◌, ◌++◌, append_assoc, lt→ltb, le→ltb, length, ◌≡◌, refl,
  ap, ◌∙◌, arith, inl, inr, ==_refl,
}
use angr_ghidra_core.Prelude.Result.{ok}
use angr_ghidra_core.Packed.{Bytes, Value}
use angr_ghidra_core.Packed.Decoder.{byte}
use angr_ghidra_core.Packed.Groups.{Ahead}
use angr_ghidra_core.Packed.Wire.{
  Write, IsWritable, IsId, read_back, header_bytes, value_bytes, read_id-bytes, header_kind,
}
use angr_ghidra_core.Packed.Values.{attr_bytes, read_attr-bytes}
use angr_ghidra_core.Packed.Progress.{get_elem?_cases}
use angr_ghidra_core.Ids.{Name, attribute_name}
use angr_ghidra_core.Dump.{
  Element, element, Elements, nil, cons, snoc, Frame, State, attach, step, close_all, parse_loop,
}
use angr_ghidra_core.Dump.Progress.{step-Forward}

pub data Steps (buf : Bytes) : State → State → Type 0 where
  here : {s : State} → Steps buf s s
  next : {s t u : State} → step buf s ≡ ok t → Steps buf t u → Steps buf s u

pub Steps-trans : {buf : Bytes} {s t u : State} → Steps buf s t → Steps buf t u → Steps buf s u
Steps-trans here r = r
Steps-trans (next e l) r = next e (Steps-trans l r)

step-lt : (buf : Bytes) (s t : State) → step buf s ≡ ok t → s.at < length buf
unfolding step
step-lt buf s t h = elim (get_elem?_cases buf s.at) [ inr lt ↦ lt | inl e ↦ cc (rw (e, byte) at h) ]

-- The loop follows the rounds to the end of the data, if it has one round of fuel for each byte.
pub parse_loop-Steps :
    {buf : Bytes} {s t : State} (fuel : ℕ)
    → Steps buf s t
    → length buf < s.at + fuel
    → 0 < fuel
    → t.at ≡ length buf
    → parse_loop fuel buf s ≡ ok (close_all t.roots t.stack)
unfolding parse_loop
parse_loop-Steps {buf} {s} zero r h z e = absurd (omega arith)
parse_loop-Steps {buf} {s} (suc fuel) here h z e = rw (le→ltb s.at (length buf) (omega arith))
parse_loop-Steps {buf} {s} (suc fuel) (next {t = t} e r) h z end =
    let inside = step-lt buf s t e in
    let moved : s.at + 1 ≤ t.at = rw e at (step-Forward buf s) in
    rw (lt→ltb s.at (length buf) inside, e)
      (parse_loop-Steps fuel r (omega arith) (omega arith) end)

-- One round over each kind of header.
pub step-open :
    (id : ℕ) {buf : Bytes} (s : State) (rest : Bytes)
    → IsId id
    → Ahead buf s.at (header_bytes 1 id ++ rest)
    → step buf s
      ≡ ok (record s {
        at = s.at + length (header_bytes 1 id);
        stack = record { ident = id; attrs = []; children = nil } ∷ s.stack;
      })
unfolding step
step-open id {buf} s rest hi h =
    let (b, e, k, first) = header_kind 1 id rest (omega arith) hi h in
    rw (read_id-bytes 1 id rest (omega arith) hi h, e, byte, k)

pub step-attr :
    (id : ℕ) (w : Write) {buf : Bytes} (at : ℕ) (roots : Elements) (f : Frame) (below : List Frame)
    (rest : Bytes)
    → IsId id
    → IsWritable w
    → Ahead buf at (attr_bytes id w ++ rest)
    → step buf (record { at = at; roots = roots; stack = f ∷ below })
      ≡ ok (record {
        at = at + length (attr_bytes id w);
        roots = roots;
        stack = record f { attrs = f.attrs ++ (attribute_name id, read_back w) ∷ [] } ∷ below;
      })
unfolding step
step-attr id w {buf} at roots f below rest hi hw h =
    let r = read_attr-bytes id w rest hi hw h in
    let h' : Ahead buf at (header_bytes 3 id ++ (value_bytes w ++ rest)) =
      rw (append_assoc (header_bytes 3 id) (value_bytes w) rest) at h in
    let (b, e, k, first) = header_kind 3 id (value_bytes w ++ rest) (omega arith) hi h' in
    rw (r.0, r.1, r.2, e, byte, k)

pub step-close :
    (id : ℕ) {buf : Bytes} (at : ℕ) (roots : Elements) (attrs : List (Name × Value))
    (children : Elements) (below : List Frame) (rest : Bytes)
    → IsId id
    → Ahead buf at (header_bytes 2 id ++ rest)
    → step buf (record {
      at = at;
      roots = roots;
      stack = record { ident = id; attrs = attrs; children = children } ∷ below;
    })
      ≡ ok (record {
        at = at + length (header_bytes 2 id);
        roots = (attach (element id attrs children) roots below).0;
        stack = (attach (element id attrs children) roots below).1;
      })
unfolding step
step-close id {buf} at roots attrs children below rest hi h =
    let (b, e, k, first) = header_kind 2 id rest (omega arith) hi h in
    rw (read_id-bytes 2 id rest (omega arith) hi h, e, byte, k, ==_refl id)

-- Elements joined to the innermost open element one after the other.
abbrev pub attach_all : Elements → Elements → List Frame → Elements × List Frame
attach_all nil roots stack = (roots, stack)
attach_all (cons e es) roots stack = attach_all es (attach e roots stack).0 (attach e roots stack).1

abbrev append_all : Elements → Elements → Elements
append_all nil es = es
append_all (cons x xs) es = cons x (append_all xs es)

snoc-append_all :
    (xs es : Elements) (e : Element) → append_all (snoc xs e) es ≡ append_all xs (cons e es)
unfolding snoc
snoc-append_all nil es e = refl
snoc-append_all (cons x xs) es e = ap (cons x) (snoc-append_all xs es e)

pub attach_all-frame :
    (es roots : Elements) (f : Frame) (below : List Frame)
    → attach_all es roots (f ∷ below)
      ≡ (roots, record f { children = append_all f.children es } ∷ below)
unfolding attach
attach_all-frame nil roots f below =
    ap (λ c. (roots, record f { children = c } ∷ below)) (append_all-nil f.children)
  where
    append_all-nil : (xs : Elements) → xs ≡ append_all xs nil
    append_all-nil nil = refl
    append_all-nil (cons x xs) = ap (cons x) (append_all-nil xs)
attach_all-frame (cons e es) roots f below =
    attach_all-frame es roots (record f { children = snoc f.children e }) below
    ∙ ap (λ c. (roots, record f { children = c } ∷ below)) (snoc-append_all f.children es e)

pub attach_all-roots : (es roots : Elements) → attach_all es roots [] ≡ (append_all roots es, [])
unfolding attach
attach_all-roots nil roots = ap (λ r. (r, [])) (append_all-nil roots)
  where
    append_all-nil : (xs : Elements) → xs ≡ append_all xs nil
    append_all-nil nil = refl
    append_all-nil (cons x xs) = ap (cons x) (append_all-nil xs)
attach_all-roots (cons e es) roots =
    attach_all-roots es (snoc roots e) ∙ ap (λ r. (r, [])) (snoc-append_all roots es e)
