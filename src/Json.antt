-- ===== src/Json.antt =====
-- What `json.loads` answers, and the questions that the program asks of an answer: `isinstance`,
-- `.get`, and Python's truth of a value.
use nixplan.Prelude.{
  zero, String, str_eq, Bool, true, false, not, Option, none, some, List, [], ◌∷◌,
}
use nixplan.Prelude.Int.{ℤ, pos}
use nixplan.Dict.{Dict}

-- A number with a fraction or an exponent is a float: its print, and the integer that it equals.
mutual
  pub data Json : Type 0 where
    null : Json
    bool : Bool → Json
    int : ℤ → Json
    float : String → Option ℤ → Json
    text : String → Json
    array : Items → Json
    object : Fields → Json

  pub data Items : Type 0 where
    nil : Items
    cons : Json → Items → Items

  pub data Fields : Type 0 where
    end : Fields
    field : String → Json → Fields → Fields

abbrev pub items : Items → List Json
items nil = []
items (cons x xs) = x ∷ items xs

abbrev pub fields : Fields → Dict Json
fields end = []
fields (field k v r) = (k, v) ∷ fields r

-- `value if isinstance(value, dict) else None`, and the same of `str`, `list` and `bool`
abbrev pub as_dict : Option Json → Option (Dict Json)
as_dict (some (object fs)) = some (fields fs)
as_dict _ = none

abbrev pub as_text : Option Json → Option String
as_text (some (text s)) = some s
as_text _ = none

abbrev pub as_list : Option Json → Option (List Json)
as_list (some (array xs)) = some (items xs)
as_list _ = none

abbrev pub as_bool : Option Json → Option Bool
as_bool (some (bool b)) = some b
as_bool _ = none

-- `bool(value)`, of an absent value too
abbrev pub truthy : Option Json → Bool
truthy none = false
truthy (some null) = false
truthy (some (bool b)) = b
truthy (some (int (pos zero))) = false
truthy (some (int _)) = true
truthy (some (float _ (some (pos zero)))) = false
truthy (some (float _ _)) = true
truthy (some (text s)) = not (str_eq s "")
truthy (some (array nil)) = false
truthy (some (array _)) = true
truthy (some (object end)) = false
truthy (some (object _)) = true
