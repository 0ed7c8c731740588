-- ===== src/Remote/Scripts.antt =====
-- cli/remote.py: the scripts that write the files of a run on a machine, as texts.
use nixplan.Prelude.{String, str_eq, Option, none, some, List, [], ◌∷◌, ◌++◌, map, if◌then◌else◌}
use nixplan.Text.Words.{fstring, join_by}
use nixplan.Text.Shell.{quote}
use nixplan.Paths.{FilePath, path, path_text, parent, below}
use nixplan.Manifest.{ValueFile, user}

-- `_manager`, `_portable` and `_addressed`
unfoldable pub manager : String → String
manager scope = if str_eq scope user then "systemctl --user" else "systemctl"

unfoldable pub portable : String → String
portable scope = if str_eq scope user then "portablectl --user" else "portablectl"

abbrev pub bus : String
bus = "export XDG_RUNTIME_DIR=/run/user/$(id -u); "

unfoldable pub addressed : String → String → String
addressed script scope = if str_eq scope user then fstring (bus ∷ script ∷ []) else script

-- `_owning` and `_own`
unfoldable pub owning : String → String → String → String
owning owned missing scope =
    if str_eq scope user
    then ""
    else fstring
        ("chown " ∷ owned ∷ " \"$tmp\" 2>/dev/null || { echo " ∷ missing ∷ " >&2; exit 1; }; " ∷ [])

unfoldable pub own : String → String → String → String
own owned at scope =
    if str_eq scope user then "" else fstring ("chown " ∷ owned ∷ " " ∷ at ∷ "; " ∷ [])

abbrev parent_word : String → String
parent_word text = quote (path_text (parent (path text)))

-- `write_script`
unfoldable pub write_script : ValueFile → String → String
unfolding quote path path_text parent owning own
write_script file scope =
    let at = quote file.path in
    let owned = quote (fstring (file.owner ∷ ":" ∷ file.group ∷ [])) in
    let mode = quote file.mode in
    let missing = quote (
      fstring (
        "this machine has no account " ∷ file.owner ∷ ":" ∷ file.group ∷ " for " ∷ file.path
        ∷ [])) in
    let above = parent_word file.path in
    fstring (
      "set -eu; umask 077; "
      ∷ "(umask 066; mkdir -p "
      ∷ above
      ∷ "); chmod 0711 "
      ∷ above
      ∷ "; "
      ∷ "tmp="
      ∷ at
      ∷ ".planner; trap 'rm -f \"$tmp\"' EXIT; "
      ∷ "install -m 0600 /dev/null \"$tmp\"; "
      ∷ "cat > \"$tmp\"; "
      ∷ owning owned missing scope
      ∷ "chmod "
      ∷ mode
      ∷ " \"$tmp\"; "
      ∷ "if cmp -s \"$tmp\" "
      ∷ at
      ∷ "; then moved=unchanged; rm -f \"$tmp\"; "
      ∷ "else mv -f \"$tmp\" "
      ∷ at
      ∷ "; moved=changed; fi; trap - EXIT; "
      ∷ "chmod "
      ∷ mode
      ∷ " "
      ∷ at
      ∷ "; "
      ∷ own owned at scope
      ∷ "printf \"%s\\n\" \"$moved\""
      ∷ [])

-- `restart_script`
unfoldable pub restart_script : List String → String → String
unfolding quote join_by manager addressed
restart_script units scope =
    addressed
      (fstring (manager scope ∷ " try-restart " ∷ join_by " " (map quote units) ∷ " 2>&1" ∷ []))
      scope

-- `seal_script`
unfoldable pub seal_script : ValueFile → String → String
unfolding quote path path_text parent owning
seal_script file scope =
    let at = quote file.sealed in
    let above = parent_word file.sealed in
    let owned = quote "root:root" in
    let missing = quote (fstring ("this machine has no account root for " ∷ file.sealed ∷ [])) in
    fstring (
      "set -eu; umask 077; "
      ∷ "mkdir -p "
      ∷ above
      ∷ "; chmod 0700 "
      ∷ above
      ∷ "; "
      ∷ "tmp="
      ∷ at
      ∷ ".planner; trap 'rm -f \"$tmp\"' EXIT; "
      ∷ "install -m 0600 /dev/null \"$tmp\"; "
      ∷ "cat > \"$tmp\"; "
      ∷ owning owned missing scope
      ∷ "chmod 0400 \"$tmp\"; mv -f \"$tmp\" "
      ∷ at
      ∷ "; trap - EXIT; "
      ∷ "printf \"%s\\n\" sealed"
      ∷ [])

-- USER_UNITS and SYSTEM_UNITS: a root, already a word of the shell, and the parts below it
abbrev unit_root : String → String
unit_root scope = if str_eq scope user then "\"$HOME\"" else "'/usr'"

abbrev unit_parts : String → List String
unit_parts scope =
    if str_eq scope user
    then ".config" ∷ "systemd" ∷ "user" ∷ []
    else "local" ∷ "lib" ∷ "systemd" ∷ "system" ∷ []

-- `_unit_components`, of a root and the parts below it
unfoldable pub components_below : String → List String → List String
components_below at [] = []
components_below at (part ∷ parts) =
    let next = fstring (at ∷ "/" ∷ part ∷ []) in next ∷ components_below next parts

unfoldable pub unit_components : String → List String
unfolding components_below
unit_components scope = components_below (unit_root scope) (unit_parts scope)

abbrev last_component : List String → String
last_component [] = ""
last_component (part ∷ []) = part
last_component (part ∷ next ∷ parts) = last_component (next ∷ parts)

abbrev unsealing_unit : String
unsealing_unit = "planner-unseal.service"

abbrev wanted : String → String
wanted scope = if str_eq scope user then "default.target" else "multi-user.target"

-- `unsealer_script`
unfoldable pub unsealer_script : FilePath → String → String
unfolding quote path_text below unit_components manager addressed
unsealer_script artifact scope =
    let components = unit_components scope in
    let directory = last_component components in
    let wants = fstring (directory ∷ "/" ∷ wanted scope ∷ ".wants" ∷ []) in
    let published = quote (path_text (below artifact unsealing_unit)) in
    let made = fstring (
      map (λ each. fstring ("install -d -m 0755 " ∷ each ∷ "; " ∷ []))
        (components ++ wants ∷ [])) in
    addressed
      (fstring (
        "set -eu; at="
        ∷ directory
        ∷ "/"
        ∷ quote unsealing_unit
        ∷ "; "
        ∷ "want="
        ∷ wants
        ∷ "/"
        ∷ quote unsealing_unit
        ∷ "; "
        ∷ "if [ \"$(readlink \"$at\" 2>/dev/null || true)\" = "
        ∷ published
        ∷ " ] && "
        ∷ "[ \"$(readlink \"$want\" 2>/dev/null || true)\" = "
        ∷ published
        ∷ " ]; "
        ∷ "then printf \"%s\\n\" unchanged; "
        ∷ "else "
        ∷ made
        ∷ "ln -sfn "
        ∷ published
        ∷ " \"$at\"; ln -sfn "
        ∷ published
        ∷ " \"$want\"; "
        ∷ manager scope
        ∷ " daemon-reload; printf \"%s\\n\" changed; fi"
        ∷ []))
      scope

abbrev presence : String → String
presence at = fstring (
    "if [ -e "
    ∷ quote at
    ∷ " ]; "
    ∷ "then printf \"%s present\\n\" "
    ∷ quote at
    ∷ "; "
    ∷ "else printf \"%s absent\\n\" "
    ∷ quote at
    ∷ "; fi"
    ∷ [])

abbrev with_trial : String → Option FilePath → String
with_trial asked none = asked
with_trial asked (some check) =
    let trial = quote (path_text check) in
    fstring (
      asked ∷ "; printf \"%s\\n\" seals; " ∷ "if [ -x " ∷ trial ∷ " ]; then " ∷ trial
      ∷ " 2> /dev/null || true; " ∷ "else printf \"%s\\n\" unchecked; fi" ∷ [])

-- `values_script`
unfoldable pub values_script : List String → Option FilePath → String
unfolding quote path_text join_by
values_script paths check = with_trial (join_by "; " (map presence paths)) check
