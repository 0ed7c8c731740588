-- ===== src/Manifest/Fields.antt =====
-- The checks of one field of a decoded record: `_mapping`, `_text`, `_texts` and `_scope`, and the
-- two readers of a realiser's holdings, `Realiser.text` and `Realiser.number`.
use nixplan.Prelude.{ℕ, suc, String, str_eq, Option, none, some, List, [], ◌∷◌, if◌then◌else◌}
use nixplan.Prelude.Int.{pos}
use nixplan.Errors.{
  Result, ok, refuse, not_a_record, needs_text, needs_names, bad_scope, unpublished_field,
}
use nixplan.Dict.{Dict, get}
use nixplan.Json.{Json, as_dict, as_text, as_list, int, text}
use nixplan.Manifest.{Realiser, system, user}

unfoldable pub mapping : Json → String → Result (Dict Json)
mapping value of = elim (as_dict (some value)) [ none ↦ refuse (not_a_record of) | some fs ↦ ok fs ]

-- A text that is not empty.
unfoldable pub text_field : Dict Json → String → String → Result String
unfolding get
text_field fs field of = elim (as_text (get fs field)) [
  | none ↦ refuse (needs_text of field)
  | some s ↦ if str_eq s "" then refuse (needs_text of field) else ok s
]

-- All the texts of a list, if it holds nothing else.
unfoldable pub all_texts : List Json → Option (List String)
all_texts [] = some []
all_texts (x ∷ xs) = elim (as_text (some x)) [
  | none ↦ none
  | some s ↦ elim (all_texts xs) [ none ↦ none | some rest ↦ some (s ∷ rest) ]
]

-- An absent field is the empty list; `null` is not.
unfoldable pub texts_field : Dict Json → String → String → Result (List String)
unfolding get all_texts
texts_field fs field of = elim (get fs field) [
  | none ↦ ok []
  | some value ↦ elim (as_list (some value)) [
    | none ↦ refuse (needs_names of field)
    | some xs ↦ elim (all_texts xs) [ none ↦ refuse (needs_names of field) | some names ↦ ok names ]
  ]
]

-- The stated scope, if it is one of the two.
unfoldable pub scope_of : Json → String → Result String
scope_of stated of = elim (as_text (some stated)) [
  | none ↦ refuse (bad_scope of)
  | some s ↦
      if str_eq s system
      then ok system
      else if str_eq s user
      then ok user
      else refuse (bad_scope of)
]

-- `record.get("scope", SYSTEM)`, checked
unfoldable pub scope_field : Dict Json → String → Result String
unfolding get scope_of
scope_field fs of = elim (get fs "scope") [
  | none ↦ scope_of (text system) of
  | some stated ↦ scope_of stated of
]

-- `Realiser.text`
unfoldable pub published_text : Realiser → String → Result String
unfolding get
published_text r field = elim (as_text (get r.holdings field)) [
  | none ↦ refuse (unpublished_field r.name field)
  | some s ↦ if str_eq s "" then refuse (unpublished_field r.name field) else ok s
]

-- `Realiser.number`: an integer above zero, which `True` is not.
unfoldable pub published_number : Realiser → String → Result ℕ
unfolding get
published_number r field = elim (get r.holdings field) [
  | some (int (pos (suc n))) ↦ ok (suc n)
  | _ ↦ refuse (unpublished_field r.name field)
]
