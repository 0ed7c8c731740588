-- ===== src/Remote/Tests.antt =====
-- The machine that two steps are addressed to, and an answer of two sections.
use nixplan.Prelude.{String, str_eq, some, ◌++◌, if◌then◌else◌, ◌≡◌, refl, List, [], ◌∷◌, map}
use nixplan.Prelude.Int.{pos}
use nixplan.Text.Words.{split_lines, words}
use nixplan.Text.Split.{split}
use nixplan.Paths.{FilePath, slash}
use nixplan.Remote.Options.{
  channel, copy_env, inherited_words, identity_words, bounds, channel-IsShared,
}
use nixplan.Errors.{ok}
use nixplan.Dict.{Dict, get}
use nixplan.Manifest.{Realiser}
use nixplan.Remote.Holdings.Sections.{marker, sections}
use nixplan.Remote.Holdings.Printed.{
  Printed, printed_lines, section_of, IsPrinted, sections-printed,
}
use nixplan.Samples.{web_path}
use nixplan.Remote.{account_at, copy_argv, ssh_argv, destination}
use nixplan.Remote.Named.{destination-argv}

-- An option whose value looks like a destination.
abbrev options : List String
options = "-o" ∷ "Ciphers=aes256-gcm@openssh.com" ∷ []

destination-neither : destination ("ls" ∷ "--to" ∷ "a" ∷ []) ≡ "the machine"
unfolding destination
destination-neither = refl

destination-argv_example :
    (destination (ssh_argv "10.0.0.1" "true" options "root") ≡ account_at "root" "10.0.0.1")
    × (destination (copy_argv web_path "10.0.0.1" "root") ≡ account_at "root" "10.0.0.1")
destination-argv_example = destination-argv web_path "10.0.0.1" "true" "root" options

abbrev published : Dict Realiser
published =
    ("flakelet", record { name = "flakelet"; scopes = "system" ∷ []; holdings = [] })
    ∷ ("image", record { name = "image"; scopes = "system" ∷ []; holdings = [] })
    ∷ []

-- The flakelet endpoint has no entries, and the machine has no `portablectl`.
abbrev printed : List Printed
printed =
    record {
      header = "holdings flakelet 0";
      realiser = "flakelet";
      status = pos 0;
      body = "[]" ∷ "" ∷ [];
    }
    ∷ record { header = "holdings image 127"; realiser = "image"; status = pos 127; body = "" ∷ [] }
    ∷ []

abbrev answered : String
answered = "holdings flakelet 0\n[]\n\nholdings image 127\n\n"

answered-lines : split_lines answered ≡ printed_lines printed
unfolding split_lines
answered-lines = refl

printed-IsPrinted : IsPrinted published printed
unfolding marker words
printed-IsPrinted = (refl, refl, (refl, (refl, tt)), (refl, refl, (refl, tt), tt))

sections-printed_example : sections "m1" answered published ≡ ok (map section_of printed)
sections-printed_example =
    sections-printed "m1" answered published printed answered-lines printed-IsPrinted

abbrev base : Dict String
base = ("HOME", "/root") ∷ ("NIX_SSHOPTS", "-o 'User Known=a b'") ∷ []

abbrev key_path : FilePath
key_path = record { anchor = slash; parts = "k y" ∷ [] }

abbrev opts : String
opts =
    "-o 'User Known=a b' -i '/k y' -o BatchMode=yes -o ConnectTimeout=10 -o ServerAliveInterval=30 -o ServerAliveCountMax=3"

channel-base : channel base (some key_path) ≡ ok (opts, copy_env base opts)
unfolding channel
channel-base = refl

channel-IsShared_example :
    (own : List String) × (inherited_words (get base "NIX_SSHOPTS") ≡ ok own)
    × (split opts ≡ some ((own ++ identity_words (some key_path)) ++ bounds))
    × ((name : String)
        → get (copy_env base opts) name
          ≡ (if str_eq "NIX_SSHOPTS" name then some opts else get base name))
channel-IsShared_example =
    channel-IsShared base (some key_path) opts (copy_env base opts) channel-base
