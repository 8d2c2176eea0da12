-- ===== src/Dump.antt =====
-- angr_ghidra_core/ghidra_wire/dump.py: elements and `parse_tree`.
pub mod Progress
pub mod Trees
pub mod RoundTrip
pub mod NonZero
pub mod Cursor
pub mod Skipping
pub mod Access
pub mod Checked
mod Tests
use angr_ghidra_core.Prelude.{
  ℕ, zero, suc, ◌+◌, bit_and, Bool, true, false, List, [], ◌∷◌, ◌++◌, Option, none, some, ltb, ◌==◌,
  if◌then◌else◌, length,
}
use angr_ghidra_core.Prelude.Result.{Result, ok, err, value_error, out_of_fuel, ◌>>=◌}
use angr_ghidra_core.Packed.{Bytes, Value, header_mask, element_start, element_end, attribute}
use angr_ghidra_core.Packed.Decoder.{byte, read_id, attr_value, skip_attr_value, rounds}
use angr_ghidra_core.Ids.{Name, element_name, attribute_name}

-- An element and its children. Python keeps `attrs` and `children` as lists.
mutual
  pub data Element : Type 0 where
    element : ℕ → List (Name × Value) → Elements → Element

  pub data Elements : Type 0 where
    nil : Elements
    cons : Element → Elements → Elements

-- `list.append`
unfoldable pub snoc : Elements → Element → Elements
snoc nil e = cons e nil
snoc (cons x xs) e = cons x (snoc xs e)

-- An element that `parse_tree` has opened: Python has appended it to its parent already, and goes on
-- filling it in place; here it joins its parent when it is closed, or at the end of the data.
pub record Frame : Type 0 where
  pub ident : ℕ
  pub attrs : List (Name × Value)
  pub children : Elements

-- The innermost open element is the head of `stack`.
pub record State : Type 0 where
  pub at : ℕ
  pub roots : Elements
  pub stack : List Frame

abbrev pub finished : Frame → Element
finished f = element f.ident f.attrs f.children

-- `stack[-1].children.append(el)` or `roots.append(el)`
unfoldable pub attach : Element → Elements → List Frame → Elements × List Frame
unfolding snoc
attach e roots [] = (snoc roots e, [])
attach e roots (f ∷ below) = (roots, record f { children = snoc f.children e } ∷ below)

abbrev push_attr : Name × Value → List Frame → List Frame
push_attr a [] = []
push_attr a (f ∷ below) = record f { attrs = f.attrs ++ a ∷ [] } ∷ below

-- `if stack and stack[-1].id == ident: stack.pop() else: raise ValueError`
abbrev pub pop : ℕ → ℕ → Elements → List Frame → Result State
pop ident at' roots [] = err value_error
pop ident at' roots (f ∷ below) =
    let joined = attach (finished f) roots below in
    if f.ident == ident
    then ok (record { at = at'; roots = joined.0; stack = joined.1 })
    else err value_error

-- One round of the loop of `parse_tree`.
unfoldable pub step : Bytes → State → Result State
unfolding byte read_id attr_value skip_attr_value attach
step buf s = do
  header ← byte buf s.at
  let kind = bit_and header header_mask
  if kind == element_start
      then (do
        (ident, at') ← read_id buf s.at
        ok (record s {
          at = at';
          stack = record { ident = ident; attrs = []; children = nil } ∷ s.stack;
        }))
      else if kind == element_end
      then (do (ident, at') ← read_id buf s.at; pop ident at' s.roots s.stack)
      else if kind == attribute
      then (do
        (ident, vpos) ← read_id buf s.at
        value ← attr_value buf vpos
        at' ← skip_attr_value buf vpos
        ok (record s { at = at'; stack = push_attr (attribute_name ident, value) s.stack }))
      else err value_error

-- Elements still open at the end of the data stand in the result as they are.
unfoldable pub close_all : Elements → List Frame → Elements
close_all roots [] = roots
close_all roots (f ∷ []) = snoc roots (finished f)
close_all roots (f ∷ g ∷ below) =
    close_all roots (record g { children = snoc g.children (finished f) } ∷ below)

unfoldable pub parse_loop : ℕ → Bytes → State → Result Elements
unfolding step close_all
parse_loop zero buf s = err out_of_fuel
parse_loop (suc fuel) buf s =
    let rest = (do s' ← step buf s; parse_loop fuel buf s') in
    if ltb s.at (length buf) then rest else ok (close_all s.roots s.stack)

abbrev pub initial : State
initial = record { at = 0; roots = nil; stack = [] }

-- Each round moves forward, so `len(data)` rounds and one that ends the loop are enough.
unfoldable pub parse_tree : Bytes → Result Elements
unfolding parse_loop
parse_tree buf = parse_loop (rounds buf) buf initial

-- `Element.name`
unfoldable pub name : Element → Name
unfolding element_name
name (element ident attrs children) = element_name ident
