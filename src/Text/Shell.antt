-- ===== src/Text/Shell.antt =====
-- `shlex.quote`, and the reading of one word as a POSIX shell reads it.
use Prim.Native.Char.{code}
use Prim.Native.String.{◌++◌}
use nixplan.Prelude.{ℕ, String, str_eq, Bool, true, ◌&&◌, ◌||◌, ◌==◌, leb, if◌then◌else◌}

-- What `quote` leaves as it is: letters and digits of ASCII, and `_@%+=:,./-`
unfoldable pub is_safe : ℕ → Bool
is_safe c =
    (leb 48 c && leb c 57)
    || (leb 65 c && leb c 90)
    || (leb 97 c && leb c 122)
    || (c == 95
        || c == 64
        || c == 37
        || c == 43
        || c == 61
        || c == 58
        || c == 44
        || c == 46
        || c == 47
        || c == 45)

abbrev pub every_point : (ℕ → Bool) → String → Bool
every_point test String.[] = true
every_point test (String.◌∷◌ c s) = test (code c) && every_point test s

-- `s.replace("'", "'\"'\"'")`
unfoldable pub replace_quotes : String → String
replace_quotes String.[] = ""
replace_quotes (String.◌∷◌ c s) =
    let rest = replace_quotes s in if code c == b'\'' then "'\"'\"'" ++ rest else String.◌∷◌ c rest

unfoldable pub quote : String → String
unfolding is_safe replace_quotes
quote s =
    if str_eq s ""
    then "''"
    else if every_point is_safe s
    then s
    else "'" ++ (replace_quotes s ++ "'")
