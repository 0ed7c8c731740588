-- ===== src/Paths.antt =====
-- The paths of Python's `pathlib` and `os.path`, as far as the command uses them: the parts of a
-- path, `/`, `os.path.abspath` (which collapses `..` and follows no link) and `is_relative_to`.
pub mod Laws
use Prim.Native.Char.{code}
use nixplan.Prelude.{
  ℕ, zero, suc, String, str_eq, Bool, true, false, ◌&&◌, ◌||◌, List, [], ◌∷◌, ◌++◌, filter, not,
  if◌then◌else◌, ◌==◌,
}
use nixplan.Text.Words.{fstring, join_by, split_at}

-- How a path starts: `a`, `/a` or `//a`, which POSIX keeps apart.
pub data Anchor : Type 0 where
  relative slash double_slash : Anchor

pub record FilePath : Type 0 where
  pub anchor : Anchor
  pub parts : List String

unfoldable pub leading_slashes : String → ℕ
leading_slashes String.[] = 0
leading_slashes (String.◌∷◌ c s) =
    let rest = leading_slashes s in if code c == b'/' then suc rest else 0

abbrev anchor_of : ℕ → Anchor
anchor_of zero = relative
anchor_of (suc zero) = slash
anchor_of (suc (suc zero)) = double_slash
anchor_of _ = slash

abbrev is_part : String → Bool
is_part s = not (str_eq s "") && not (str_eq s ".")

-- `Path(text)`
unfoldable pub path : String → FilePath
unfolding leading_slashes split_at
path s = record { anchor = anchor_of (leading_slashes s); parts = filter is_part (split_at b'/' s) }

-- `base / below`: an absolute path below replaces the base.
abbrev pub join_at : FilePath → Anchor → FilePath → FilePath
join_at base relative below = record base { parts = base.parts ++ below.parts }
join_at base _ below = below

unfoldable pub join : FilePath → FilePath → FilePath
join base below = join_at base below.anchor below

-- The parts of an absolute path with each `..` taking away the part before it, last part first.
abbrev pub without_last : List String → List String
without_last [] = []
without_last (part ∷ before) = before

unfoldable pub collapse : List String → List String → List String
collapse stack [] = stack
collapse stack (part ∷ rest) =
    collapse (if str_eq part ".." then without_last stack else part ∷ stack) rest

abbrev pub reverse_onto : List String → List String → List String
reverse_onto [] onto = onto
reverse_onto (x ∷ xs) onto = reverse_onto xs (x ∷ onto)

-- `os.path.abspath(p)` in the working directory `cwd`, which is absolute.
unfoldable pub absolute : FilePath → FilePath → FilePath
unfolding collapse join
absolute cwd p =
    let whole = join cwd p in record whole { parts = reverse_onto (collapse [] whole.parts) [] }

abbrev pub same_anchor : Anchor → Anchor → Bool
same_anchor relative relative = true
same_anchor slash slash = true
same_anchor double_slash double_slash = true
same_anchor _ _ = false

unfoldable pub starts_with_parts : List String → List String → Bool
starts_with_parts [] parts = true
starts_with_parts (x ∷ xs) [] = false
starts_with_parts (x ∷ xs) (y ∷ ys) = str_eq x y && starts_with_parts xs ys

-- `p.is_relative_to(base)`
unfoldable pub is_relative_to : FilePath → FilePath → Bool
unfolding starts_with_parts
is_relative_to p base = same_anchor p.anchor base.anchor && starts_with_parts base.parts p.parts

abbrev anchor_text : Anchor → String
anchor_text relative = ""
anchor_text slash = "/"
anchor_text double_slash = "//"

abbrev dot_if_empty : String → String
dot_if_empty s = if str_eq s "" then "." else s

-- `str(p)`
unfoldable pub path_text : FilePath → String
unfolding join_by
path_text p = dot_if_empty (fstring (anchor_text p.anchor ∷ join_by "/" p.parts ∷ []))

-- `p.parent`
abbrev but_last : List String → List String
but_last [] = []
but_last (part ∷ []) = []
but_last (part ∷ next ∷ parts) = part ∷ but_last (next ∷ parts)

unfoldable pub parent : FilePath → FilePath
parent p = record p { parts = but_last p.parts }

-- `base / text`
unfoldable pub below : FilePath → String → FilePath
unfolding join path
below base text = join base (path text)
