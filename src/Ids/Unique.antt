-- ===== src/Ids/Unique.antt =====
-- No two ids of a table share a name.
use angr_ghidra_core.Prelude.{
  ℕ, List, [], ◌∷◌, Bool, true, false, not, ◌&&◌, ◌≡◌, refl, if◌then◌else◌, arith,
}
use angr_ghidra_core.Ids.{
  known, name_in, element_names, attribute_names, element_name, attribute_name,
}
use Prim.Native.String.{String}
use text.Mathlib.Text.{◌==◌ as str_eq}
use text.Mathlib.TextEquality.{eq_iff}

has_name : String → List (ℕ × String) → Bool
has_name s [] = false
has_name s ((k, name) ∷ rest) = if str_eq name s then true else has_name s rest

distinct_names : List (ℕ × String) → Bool
distinct_names [] = true
distinct_names ((k, name) ∷ rest) = not (has_name name rest) && distinct_names rest

name_in-has_name :
    (l : List (ℕ × String)) (id : ℕ) (s : String) → name_in l id ≡ known s → has_name s l ≡ true
unfolding name_in has_name
name_in-has_name [] id s h = cc h
name_in-has_name ((k, name) ∷ rest) id s h =
    ground (arith, eq_iff name s, name_in-has_name rest id s)

name_in_injective :
    (l : List (ℕ × String)) (a b : ℕ) → distinct_names l ≡ true → name_in l a ≡ name_in l b → a ≡ b
unfolding name_in distinct_names
name_in_injective [] a b d h = ground arith
name_in_injective ((k, name) ∷ rest) a b d h =
    ground (
      arith,
      name_in_injective rest a b,
      name_in-has_name rest a name,
      name_in-has_name rest b name,
    )

element_names_distinct : distinct_names element_names ≡ true
unfolding distinct_names has_name element_names
element_names_distinct = refl

attribute_names_distinct : distinct_names attribute_names ≡ true
unfolding distinct_names has_name attribute_names
attribute_names_distinct = refl

-- An element's name determines its id: the table has no name twice.
pub element_name_injective : (a b : ℕ) → element_name a ≡ element_name b → a ≡ b
unfolding element_name
element_name_injective a b h = name_in_injective element_names a b element_names_distinct h

-- An attribute's name determines its id: the table has no name twice.
pub attribute_name_injective : (a b : ℕ) → attribute_name a ≡ attribute_name b → a ≡ b
unfolding attribute_name
attribute_name_injective a b h = name_in_injective attribute_names a b attribute_names_distinct h
