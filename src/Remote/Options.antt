-- ===== src/Remote/Options.antt =====
-- cli/remote.py: the ssh options of a run, and the environment of its steps.
use nixplan.Prelude.{
  String, str_eq, ◌≡◌, sym, ap, ◌∙◌, Option, none, some, List, [], ◌∷◌, ◌++◌, if◌then◌else◌,
}
use nixplan.Text.Split.{split, join}
use nixplan.Text.Split.Joined.{split-join}
use nixplan.Errors.{Result, ok, raises, value_error, >>=-ok, ok-injective, ◌>>=◌}
use nixplan.Dict.{Dict, get, put, get-put}
use nixplan.Paths.{FilePath, path_text}

-- BOUNDS
abbrev pub bounds : List String
bounds =
    "-o" ∷ "BatchMode=yes" ∷ "-o" ∷ "ConnectTimeout=10" ∷ "-o" ∷ "ServerAliveInterval=30" ∷ "-o"
    ∷ "ServerAliveCountMax=3" ∷ []

abbrev or_value_error : String → Option (List String) → Result (List String)
or_value_error s none = raises (value_error s)
or_value_error s (some ws) = ok ws

-- The words of the options that the caller set, if it set any.
unfoldable pub inherited_words : Option String → Result (List String)
unfolding split
inherited_words none = ok []
inherited_words (some s) = if str_eq s "" then ok [] else or_value_error s (split s)

abbrev pub identity_words : Option FilePath → List String
identity_words none = []
identity_words (some key) = "-i" ∷ path_text key ∷ []

unfoldable pub ssh_opts : Option FilePath → Option String → Result String
unfolding inherited_words join path_text
ssh_opts key inherited = do
  own ← inherited_words inherited
  ok (join ((own ++ identity_words key) ++ bounds))

-- `_copy_env`
unfoldable pub copy_env : Dict String → String → Dict String
unfolding put
copy_env base opts = put base "NIX_SSHOPTS" opts

-- `channel`, of the environment of the caller
unfoldable pub channel : Dict String → Option FilePath → Result (String × Dict String)
unfolding ssh_opts copy_env get
channel base key = do opts ← ssh_opts key (get base "NIX_SSHOPTS"); ok (opts, copy_env base opts)

-- A step over ssh and a copy of one run are given the same options: their words are those that the
-- caller set, the key and the bounds on silence, whatever characters they have. Nothing else of the
-- environment is changed.
pub channel-IsShared :
    (base : Dict String) (key : Option FilePath) (opts : String) (env : Dict String)
    → channel base key ≡ ok (opts, env)
    → (own : List String) × (inherited_words (get base "NIX_SSHOPTS") ≡ ok own)
      × (split opts ≡ some ((own ++ identity_words key) ++ bounds))
      × ((name : String)
          → get env name ≡ (if str_eq "NIX_SSHOPTS" name then some opts else get base name))
unfolding channel ssh_opts copy_env
channel-IsShared base key opts env h =
    let (made, h1, same) = >>=-ok (ssh_opts key (get base "NIX_SSHOPTS")) _ h in
    let (own, inherited, joined) = >>=-ok (inherited_words (get base "NIX_SSHOPTS")) _ h1 in
    let same_opts = ap (λ z. z.0) (ok-injective same) in
    (
      own,
      inherited,
      ap split (sym same_opts ∙ sym (ok-injective joined))
          ∙ split-join ((own ++ identity_words key) ++ bounds),
      λ name.
          ap (λ e. get e name) (sym (ap (λ z. z.1) (ok-injective same)))
          ∙ get-put base "NIX_SSHOPTS" name made
          ∙ ap (λ o. if str_eq "NIX_SSHOPTS" name then some o else get base name) same_opts,
    )
