-- ===== src/Remote/Holdings.antt =====
-- cli/remote.py: what a machine answers that it holds, and what of it the build names no entry for.
pub mod Sections
pub mod Named
pub mod Printed
use nixplan.Prelude.{
  ℕ, zero, suc, String, str_eq, Bool, true, false, not, ◌&&◌, ◌||◌, ◌==◌, Option, none, some, List,
  [], ◌∷◌, ◌++◌, map, filter, all, any, length, is_empty, if◌then◌else◌,
}
use nixplan.Prelude.Int.{ℤ, pos}
use nixplan.Text.Words.{points, words, split_lines, strip, after_prefix, remove_suffix, rpartition}
use nixplan.Errors.{
  Result, ok, raises, refuse, traverse_flat, key_error, realiser_failed, no_json_status,
  no_entry_list, ◌>>=◌,
}
use nixplan.Sorted.{text_order, nat_order, contains}
use nixplan.Dict.{Dict, get, put, values}
use nixplan.Json.{Json, as_dict, as_text, as_list}
use nixplan.Paths.{FilePath}
use nixplan.Manifest.{Entry, Realiser, Deployment}
use nixplan.Manifest.Fields.{published_text, published_number}
use nixplan.Manifest.Read.{Disk}
use nixplan.Manifest.Ask.{image_file}
use Sections.{Section, Decoder, sections}

pub record Holding : Type 0 where
  pub realiser : String
  pub identity : String
  pub name : String
  pub state : String

-- `{realiser.name: realiser for realiser in realisers}`
unfoldable pub published_onto : Dict Realiser → List Realiser → Dict Realiser
unfolding put
published_onto d [] = d
published_onto d (r ∷ rs) = published_onto (put d r.name r) rs

-- MISSING
abbrev pub is_missing_tool : ℤ → Bool
is_missing_tool (pos n) = n == 126 || n == 127
is_missing_tool _ = false

abbrev pub is_success : ℤ → Bool
is_success (pos zero) = true
is_success _ = false

abbrev records_of : List Json → List (Dict Json)
records_of [] = []
records_of (j ∷ js) = elim (as_dict (some j)) [
  | none ↦ records_of js
  | some fs ↦ fs ∷ records_of js
]

-- `_registrations`
unfoldable pub listed_records : String → String → Option Json → Result (List (Dict Json))
listed_records machine said none = refuse (no_json_status machine said)
listed_records machine said (some answered) = elim (as_list (some answered)) [
  | none ↦ refuse (no_entry_list machine said)
  | some js ↦ ok (records_of js)
]

unfoldable pub registrations : Decoder → String → String → Result (List (Dict Json))
unfolding listed_records strip
registrations decode machine said =
    if str_eq (strip said) "" then ok [] else listed_records machine said (decode said)

abbrev text_or_empty : Option String → String
text_or_empty none = ""
text_or_empty (some s) = s

-- One registration: its identity behind the prefix, if it carries it, and its name.
abbrev holding_if : Option String → Option String → Option String → List Holding
holding_if (some identity) (some name) state =
    if not (str_eq identity "") && not (str_eq name "")
    then record {
      realiser = "flakelet";
      identity = identity;
      name = name;
      state = text_or_empty state;
    }
      ∷ []
    else []
holding_if _ _ _ = []

abbrev identity_of : String → Option String → Option String
identity_of prefix none = none
identity_of prefix (some url) = after_prefix prefix url

unfoldable pub flakelet_holding : String → Dict Json → List Holding
unfolding get after_prefix
flakelet_holding prefix fs =
    holding_if (identity_of prefix (as_text (get fs "locked_url"))) (as_text (get fs "name"))
      (as_text (get fs "state"))

abbrev flat : (Dict Json → List Holding) → List (Dict Json) → List Holding
flat f [] = []
flat f (x ∷ xs) = f x ++ flat f xs

-- `_flakelet_holdings`
unfoldable pub flakelet_holdings : Decoder → String → Realiser → String → Result (List Holding)
unfolding published_text registrations flakelet_holding
flakelet_holdings decode machine realiser said = do
  prefix ← published_text realiser "urlPrefix"
  found ← registrations decode machine said
  ok (flat (flakelet_holding prefix) found)

-- `columns[-1]` behind the first column
abbrev pub last_of : String → List String → String
last_of first [] = first
last_of first (c ∷ cs) = last_of c cs

-- The published shape of an image's name: what stands before and behind its last separator.
abbrev has_shape : List ℕ → ℕ → Option (String × String) → Bool
has_shape alphabet size none = false
has_shape alphabet size (some (name, digest)) =
    not (str_eq name "")
    && (length (points digest) == size && all (λ c. contains c alphabet) (points digest))

unfoldable pub image_holding : String → List ℕ → ℕ → List String → List Holding
unfolding rpartition contains
image_holding separator alphabet size (image ∷ second ∷ rest) =
    let state = last_of second rest in
    if not (str_eq state "detached") && has_shape alphabet size (rpartition separator image)
    then record { realiser = "image"; identity = image; name = image; state = state } ∷ []
    else []
image_holding separator alphabet size _ = []

abbrev flat_lines : (List String → List Holding) → List String → List Holding
flat_lines f [] = []
flat_lines f (line ∷ lines) = f (words line) ++ flat_lines f lines

-- `_image_holdings`
unfoldable pub image_holdings : Realiser → String → Result (List Holding)
unfolding published_text published_number image_holding words split_lines
image_holdings realiser said = do
  separator ← published_text realiser "separator"
  alphabet ← published_text realiser "digestAlphabet"
  size ← published_number realiser "digestLength"
  ok (flat_lines (image_holding separator (points alphabet) size) (split_lines said))

-- `REALISERS[name].holds`, of the two realisers that there are
unfoldable pub holds : Decoder → String → String → Realiser → String → Result (List Holding)
unfolding flakelet_holdings image_holdings
holds decode machine name realiser said =
    if str_eq name "flakelet"
    then flakelet_holdings decode machine realiser said
    else if str_eq name "image"
    then image_holdings realiser said
    else raises (key_error name)

-- `published[name]`
unfoldable pub published_at : Dict Realiser → String → Result Realiser
unfolding get
published_at published name = elim (get published name) [
  | none ↦ raises (key_error name)
  | some r ↦ ok r
]

unfoldable pub section_holdings : Decoder → String → Dict Realiser → Section → Result (List Holding)
unfolding published_at holds
section_holdings decode machine published s =
    if is_missing_tool s.status
    then ok []
    else if is_success s.status
    then (do r ← published_at published s.realiser; holds decode machine s.realiser r s.said)
    else refuse (realiser_failed machine s.realiser s.status s.said)

-- `holdings_of`
unfoldable pub holdings_of : Decoder → String → List Realiser → String → Result (List Holding)
unfolding published_onto sections section_holdings traverse_flat
holdings_of decode machine realisers reported = do
  found ← sections machine reported (published_onto [] realisers)
  traverse_flat (section_holdings decode machine (published_onto [] realisers)) found

-- `_flakelet_claims`
abbrev claims_flakelet : Option Entry → Bool
claims_flakelet none = false
claims_flakelet (some e) = str_eq e.realiser "flakelet"

-- `text.rpartition(separator)[0]`
abbrev pub before_last : Option (String × String) → String
before_last none = ""
before_last (some (before, after)) = before

-- The entries are asked one after another, up to the first that owns the image.
abbrev pub is_placed_image : Entry → Option FilePath → Bool
is_placed_image e none = false
is_placed_image e (some artifact) = str_eq e.realiser "image"

unfoldable pub owns_image : Disk → String → String → Entry → Result Bool
unfolding image_file rpartition remove_suffix
owns_image disk separator held e =
    if is_placed_image e e.path
    then (do
      file ← image_file disk e
      ok (str_eq (before_last (rpartition separator (remove_suffix ".raw" file))) held))
    else ok false

unfoldable pub any_owns_image : Disk → String → String → List Entry → Result Bool
unfolding owns_image
any_owns_image disk separator held [] = ok false
any_owns_image disk separator held (e ∷ es) =
    let rest = any_owns_image disk separator held es in
    do owned ← owns_image disk separator held e; if owned then ok true else rest

-- `_image_claims`
unfoldable pub claims_image : Disk → Dict Entry → Realiser → String → Result Bool
unfolding published_text rpartition any_owns_image
claims_image disk entries r identity = do
  separator ← published_text r "separator"
  any_owns_image disk separator (before_last (rpartition separator identity)) (values entries)

-- `REALISERS[name].claims`, of the two realisers that there are
unfoldable pub claims_as : String → Disk → Dict Entry → Realiser → String → Result Bool
unfolding claims_image get
claims_as name disk entries r identity =
    if str_eq name "flakelet"
    then ok (claims_flakelet (get entries identity))
    else if str_eq name "image"
    then claims_image disk entries r identity
    else raises (key_error name)

unfoldable pub claims : Disk → Dict Entry → Dict Realiser → Holding → Result Bool
unfolding published_at claims_as
claims disk entries published h = do
  r ← published_at published h.realiser
  claims_as h.realiser disk entries r h.identity

abbrev unless : Bool → Holding → List Holding
unless true h = []
unless false h = h ∷ []

-- `unnamed`
unfoldable pub unnamed : Disk → Dict Entry → List Realiser → List Holding → Result (List Holding)
unfolding published_onto claims traverse_flat
unnamed disk entries realisers held =
    traverse_flat
      (λ h. do named ← claims disk entries (published_onto [] realisers) h; ok (unless named h))
      held
