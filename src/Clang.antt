-- ===== src/Clang.antt =====
-- angr_ghidra_core/ghidra_wire/clang.py: the C text of a tree of tokens, and the two functions of a
-- response.
pub mod Shown
pub mod Answered
mod Tests
use angr_ghidra_core.Prelude.{
  ℕ, zero, suc, Bool, true, false, ◌||◌, List, [], ◌∷◌, ◌++◌, Option, none, some, ◌==◌,
  if◌then◌else◌,
}
use angr_ghidra_core.Prelude.Int.{ℤ, pos, negsuc}
use angr_ghidra_core.Prelude.Result.{Result, ok, err, type_error, ◌>>=◌}
use angr_ghidra_core.Packed.{Bytes, Value, bool, int, special_space, text}
use angr_ghidra_core.Dump.{Element, element, Elements, nil, cons}
use angr_ghidra_core.Dump.Access.{has_name, attr_in, with_name, find}

-- `el.name in TOKEN_ELEMENTS`
unfoldable pub is_token : Element → Bool
is_token el =
    has_name "syntax" el
    || (has_name "variable" el
        || (has_name "op" el
            || (has_name "funcname" el
                || (has_name "type" el
                    || (has_name "field" el
                        || (has_name "comment" el
                            || (has_name "label" el
                                || (has_name "value" el || has_name "bitfield" el))))))))

-- `el.name in GROUP_ELEMENTS`
unfoldable pub is_group : Element → Bool
is_group el =
    has_name "function" el
    || (has_name "block" el
        || (has_name "statement" el
            || (has_name "funcproto" el
                || (has_name "return_type" el
                    || (has_name "vardecl" el || has_name "clang_document" el)))))

abbrev pub spaces : ℕ → Bytes
spaces zero = []
spaces (suc n) = b' ' ∷ spaces n

-- `"\n" + " " * indent` for `indent = el.attr("indent", 0) or 0`; a text that is not empty and a
-- special space are no counts.
abbrev pub break_text : Option Value → Result Bytes
break_text none = ok (10 ∷ [])
break_text (some (int (pos n))) = ok (10 ∷ spaces n)
break_text (some (int (negsuc n))) = ok (10 ∷ [])
break_text (some (bool true)) = ok (10 ∷ b' ' ∷ [])
break_text (some (bool false)) = ok (10 ∷ [])
break_text (some (text [])) = ok (10 ∷ [])
break_text (some (text (c ∷ cs))) = err type_error
break_text (some (special_space code)) = err type_error

abbrev pub drop_newlines : Bytes → Bytes
drop_newlines [] = []
drop_newlines (c ∷ cs) = let rest = drop_newlines cs in if c == 10 then rest else c ∷ cs

-- `text.rstrip("\n")`
abbrev pub rstrip_newlines : Bytes → Bytes
rstrip_newlines [] = []
rstrip_newlines (c ∷ cs) =
    let rest = rstrip_newlines cs in
    elim rest [ [] ↦ if c == 10 then [] else c ∷ [] | d ∷ ds ↦ c ∷ d ∷ ds ]

abbrev pub strip_newlines : Bytes → Bytes
strip_newlines bs = rstrip_newlines (drop_newlines bs)

abbrev pub has_children : Elements → Bool
has_children nil = false
has_children (cons e es) = true

-- `show` stands for `str` of a value that is no text.
module _ (show : Value → Bytes) where
  -- The content of a token, where it is true.
  abbrev pub token_text : Option Value → Bytes
  token_text none = []
  token_text (some (text s)) = s
  token_text (some (bool false)) = []
  token_text (some (bool true)) = show (bool true)
  token_text (some (int (pos n))) = if n == 0 then [] else show (int (pos n))
  token_text (some (int (negsuc n))) = show (int (negsuc n))
  token_text (some (special_space code)) = show (special_space code)

  -- What `walk` appends for an element, from what it appends for the children.
  abbrev pub walk_node : Element → Result Bytes → Result Bytes
  walk_node (element ident attrs children) inside =
      if has_name "break" (element ident attrs children)
      then break_text (attr_in attrs "indent")
      else if is_token (element ident attrs children)
      then ok (token_text (attr_in attrs "XMLcontent"))
      else if is_group (element ident attrs children) || has_children children
      then inside
      else ok []

  unfoldable mutual
    unfolding is_token is_group

    pub walk : Element → Result Bytes
    walk (element ident attrs children) =
        let inside = walk_all children in walk_node (element ident attrs children) inside

    pub walk_all : Elements → Result Bytes
    walk_all nil = ok []
    walk_all (cons e es) = do here ← walk e; rest ← walk_all es; ok (here ++ rest)

  unfoldable pub render_c : Element → Result Bytes
  unfolding walk
  render_c markup = do out ← walk markup; ok (strip_newlines out ++ 10 ∷ [])

abbrev pub first_two : List Element → Option Element × Option Element
first_two [] = (none, none)
first_two (a ∷ []) = (some a, none)
first_two (a ∷ b ∷ rest) = (some a, some b)

unfoldable pub split_decompile_response : Elements → Option Element × Option Element
split_decompile_response nil = (none, none)
split_decompile_response (cons root roots) =
    if has_name "doc" root then first_two (find root "function") else (none, none)
