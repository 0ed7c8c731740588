-- ===== src/Remote/Verbs.antt =====
-- cli/remote.py: the scripts that address the endpoints of a machine, and the questions of it.
use nixplan.Prelude.{String, str_eq, ◌&&◌, List, [], ◌∷◌, map, is_empty, if◌then◌else◌}
use nixplan.Text.Words.{fstring, join_by}
use nixplan.Text.Shell.{quote}
use nixplan.Errors.{Result, ok, raises, refuse, key_error, not_activated, unaskable, ◌>>=◌}
use nixplan.Sorted.{text_order, contains}
use nixplan.Paths.{FilePath, path_text, below}
use nixplan.Manifest.{Entry, Realiser}
use nixplan.Manifest.Read.{Disk}
use nixplan.Manifest.Ask.{artifact_of, image_file, service_name}
use nixplan.Remote.Holdings.Sections.{is_realiser}
use nixplan.Remote.Holdings.{Holding}
use nixplan.Remote.Scripts.{portable, addressed}

unfoldable pub activate_script : String → FilePath → String
unfolding quote path_text
activate_script name artifact =
    fstring ("flakelet activate " ∷ quote name ∷ " " ∷ quote (path_text artifact) ∷ " 2>&1" ∷ [])

-- `coordination_script`, whose arguments start with the verb
unfoldable pub coordination_script : String → String → String → List String → String → String
unfolding quote join_by addressed
coordination_script program configuration verb taken scope =
    let quoted = quote program in
    addressed
      (fstring (
        "test -x "
        ∷ quoted
        ∷ " || exit 127; exec "
        ∷ quoted
        ∷ " "
        ∷ join_by " " (map quote (verb ∷ configuration ∷ taken))
        ∷ []))
      scope

unfoldable pub mint_script : String → String → List String → String → String
unfolding quote join_by addressed
mint_script program configuration files scope =
    let quoted = quote program in
    addressed
      (fstring (
        "test -x "
        ∷ quoted
        ∷ " || exit 127; "
        ∷ "d=\"$(mktemp -d)\"; trap 'rm -rf \"$d\"' EXIT; "
        ∷ "out=\"$d\" "
        ∷ quoted
        ∷ " "
        ∷ quote configuration
        ∷ " >&2 || exit $?; "
        ∷ "for f in "
        ∷ join_by " " (map quote files)
        ∷ "; do "
        ∷ "[ -f \"$d/$f\" ] || continue; "
        ∷ "printf '%s %s\\n' \"$f\" \"$(base64 -w0 < \"$d/$f\")\"; "
        ∷ "done; "
        ∷ "printf '%s\\n' \"$(cd \"$d\" && ls -A | tr '\\n' ' ')\""
        ∷ []))
      scope

unfoldable pub attach_script : FilePath → String → String
unfolding quote path_text below addressed
attach_script artifact scope =
    addressed (fstring (quote (path_text (below (below artifact "bin") "attach")) ∷ " 2>&1" ∷ []))
      scope

unfoldable pub flakelet_status_script : String → String
unfolding quote
flakelet_status_script name = fstring ("flakelet status --json " ∷ quote name ∷ [])

unfoldable pub image_status_script : FilePath → FilePath → String → String
unfolding quote path_text portable addressed
image_status_script image check scope =
    addressed
      (fstring (
        portable scope
        ∷ " is-attached "
        ∷ quote (path_text image)
        ∷ " || true; "
        ∷ quote (path_text check)
        ∷ " 2> /dev/null || true; "
        ∷ "printf '%s\\n' images; "
        ∷ portable scope
        ∷ " list --no-legend"
        ∷ []))
      scope

unfoldable pub rollback_script : String → String
unfolding quote
rollback_script name = fstring ("flakelet rollback " ∷ quote name ∷ " 2>&1" ∷ [])

unfoldable pub flakelet_remove_script : String → String
unfolding quote
flakelet_remove_script name = fstring ("flakelet remove " ∷ quote name ∷ " 2>&1" ∷ [])

unfoldable pub image_detach_script : String → String → String
unfolding quote portable addressed
image_detach_script name scope =
    addressed (fstring (portable scope ∷ " detach --now " ∷ quote name ∷ " 2>&1" ∷ [])) scope

-- `retirement`, of the two realisers that there are
unfoldable pub retirement : Holding → String → Result String
unfolding flakelet_remove_script image_detach_script
retirement holding scope =
    if str_eq holding.realiser "flakelet"
    then ok (flakelet_remove_script holding.name)
    else if str_eq holding.realiser "image"
    then ok (image_detach_script holding.name scope)
    else raises (key_error holding.realiser)

-- `REALISERS`: the two realisers, and the question each asks of what a machine holds
abbrev pub asks : String → String → String
asks name scope =
    if str_eq name "flakelet"
    then "flakelet status --json"
    else fstring (portable scope ∷ " list --no-legend" ∷ [])

abbrev section_question : String → String → String
section_question name scope = fstring (
    "held=$("
    ∷ asks name scope
    ∷ " 2>/dev/null); "
    ∷ "printf '%s %s %s\\n' holdings "
    ∷ quote name
    ∷ " \"$?\"; "
    ∷ "printf '%s\\n' \"$held\""
    ∷ [])

unfoldable pub asked_holdings : List Realiser → String → List String
unfolding quote portable contains
asked_holdings [] scope = []
asked_holdings (r ∷ rs) scope =
    let rest = asked_holdings rs scope in
    if is_realiser r.name && contains scope r.scopes
    then section_question r.name scope ∷ rest
    else rest

-- `holdings_script`, empty where no published realiser reaches the machine
unfoldable pub holdings_script : List Realiser → String → String
unfolding asked_holdings join_by addressed
holdings_script realisers scope =
    let asked = asked_holdings realisers scope in
    if is_empty asked then "" else addressed (join_by "; " asked) scope

-- `activation`: the script that activates one entry
unfoldable pub activation_script : Disk → Entry → String → Result String
unfolding service_name artifact_of activate_script attach_script
activation_script disk e scope =
    if str_eq e.realiser "flakelet"
    then (do name ← service_name disk e; at ← artifact_of e; ok (activate_script name at))
    else if str_eq e.realiser "image"
    then (do at ← artifact_of e; ok (attach_script at scope))
    else refuse (not_activated e.key e.realiser)

-- `status_script`: the question of one entry, with `_image_status`
unfoldable pub status_script : Disk → Entry → String → Result String
unfolding service_name artifact_of image_file below flakelet_status_script image_status_script
status_script disk e scope =
    if str_eq e.realiser "flakelet"
    then (do name ← service_name disk e; ok (flakelet_status_script name))
    else if str_eq e.realiser "image"
    then (do
      at ← artifact_of e
      file ← image_file disk e
      ok (image_status_script (below at file) (below (below at "bin") "check") scope))
    else refuse (unaskable e.key e.realiser)
