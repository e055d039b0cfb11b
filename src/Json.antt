-- ===== src/Json.antt =====
-- JSON values as Python's `json` module reads them, and the accesses that nc/acp_*.py, nc/state.py
-- and nc/proposals.py make: `isinstance`, `in`, `.get`, `[...]`. A finite float is m / 2 ^ k.
-- A dict has one entry for each key, in insertion order.
use neocortex.Prelude.{
  ◌&&◌, true, ℕ, ◌+◌, ◌*◌, ◌^◌, String, Bool, false, List, [], ◌∷◌, Option, none, some,
  if◌then◌else◌, str_eq, is_some, ◌==◌,
}
use neocortex.Prelude.Int.{ℤ, pos, pos_part, neg_part, eq_ℤ}

mutual
  pub data Json : Type 0 where
    null : Json
    bool : Bool → Json
    int : ℤ → Json
    float : ℤ → ℕ → Json
    str : String → Json
    list : Items → Json
    dict : Fields → Json

  pub data Items : Type 0 where
    nil : Items
    cons : Json → Items → Items

  pub data Fields : Type 0 where
    end : Fields
    field : String → Json → Fields → Fields

-- `d.get(key)`, with the missing key kept apart from a null.
unfoldable pub lookup : String → Fields → Option Json
lookup k end = none
lookup k (field j v fs) = if str_eq j k then some v else lookup k fs

-- `isinstance(value, dict)`, and the dict.
abbrev pub as_dict : Json → Option Fields
as_dict (dict fs) = some fs
as_dict _ = none

-- `isinstance(value, str)`, and the text.
abbrev pub as_str : Json → Option String
as_str (str s) = some s
as_str _ = none

-- `isinstance(value, int) and not isinstance(value, bool)`, and the number.
abbrev pub as_int : Json → Option ℤ
as_int (int z) = some z
as_int _ = none

-- `value.get(key)` on a dict: `None` where the key is missing.
abbrev pub get : String → Fields → Json
get k fs = elim (lookup k fs) [ none ↦ null | some v ↦ v ]

-- `key in value`
abbrev pub has : String → Fields → Bool
has k fs = is_some (lookup k fs)

-- A list of strings, as `isinstance(value, list) and all(isinstance(item, str) ...)`.
unfoldable pub strings : Items → Option (List String)
strings nil = some []
strings (cons (str s) xs) = elim (strings xs) [ none ↦ none | some ss ↦ some (s ∷ ss) ]
strings (cons _ xs) = none

abbrev pub as_strings : Json → Option (List String)
as_strings (list xs) = strings xs
as_strings _ = none

unfoldable pub items : Items → List Json
items nil = []
items (cons x xs) = x ∷ items xs

-- `a == b` for an integer `a`: Python compares integers with booleans and floats by value.
unfoldable pub int_eq : ℤ → Json → Bool
int_eq z (int y) = eq_ℤ z y
int_eq z (bool b) = eq_ℤ z (if b then pos 1 else pos 0)
int_eq z (float m k) = pos_part z * 2 ^ k + neg_part m == pos_part m + neg_part z * 2 ^ k
int_eq z _ = false

-- `value == text`
abbrev pub is_str : String → Json → Bool
is_str t (str s) = str_eq s t
is_str t _ = false

-- Equality of JSON texts that `json.dumps` wrote: the same values, the keys in the same order.
unfoldable mutual
  pub json_eq : Json → Json → Bool
  json_eq null null = true
  json_eq (bool a) (bool b) = if a then b else (if b then false else true)
  json_eq (int a) (int b) = eq_ℤ a b
  json_eq (float a k) (float b l) = eq_ℤ a b && k == l
  json_eq (str a) (str b) = str_eq a b
  json_eq (list xs) (list ys) = items_eq xs ys
  json_eq (dict xs) (dict ys) = fields_eq xs ys
  json_eq _ _ = false

  pub items_eq : Items → Items → Bool
  items_eq nil nil = true
  items_eq (cons x xs) (cons y ys) = json_eq x y && items_eq xs ys
  items_eq _ _ = false

  pub fields_eq : Fields → Fields → Bool
  fields_eq end end = true
  fields_eq (field j x xs) (field k y ys) = str_eq j k && json_eq x y && fields_eq xs ys
  fields_eq _ _ = false

unfoldable pub specs_eq : List Json → List Json → Bool
unfolding json_eq items_eq fields_eq
specs_eq [] [] = true
specs_eq (x ∷ xs) (y ∷ ys) = json_eq x y && specs_eq xs ys
specs_eq _ _ = false
