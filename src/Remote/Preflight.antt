-- ===== src/Remote/Preflight.antt =====
-- cli/remote.py: what a machine of user scope is verified to hold before it is written to.
use nixplan.Prelude.{String, Bool, List, [], ◌∷◌, ◌++◌, map, if◌then◌else◌}
use nixplan.Text.Words.{fstring, join_by, remove_prefix, remove_suffix}
use nixplan.Text.Shell.{quote}
use nixplan.Sorted.{text_order}
use nixplan.Remote.Answers.{Requirement}
use nixplan.Remote.Scripts.{bus}

-- PORTABLED, TRAVERSABLE and the requirements that every user-scope machine is asked
abbrev root_requirement : String → String → String → Requirement
root_requirement root key what = record {
  key = key;
  statement = fstring (what ∷ " " ∷ root ∷ " is writable by the account" ∷ []);
  question = fstring ("[ -d " ∷ quote root ∷ " ] && [ -w " ∷ quote root ∷ " ]" ∷ []);
  missing = "it is not a directory the account can write";
}

abbrev user_portabled : Requirement
user_portabled = record {
  key = "user-portabled";
  statement = "the account's own portabled answers, which an image entry attaches through";
  question = "portablectl --user list > /dev/null 2>&1";
  missing = "the account's portabled answered nothing";
}

abbrev home_traversable : Requirement
home_traversable = record {
  key = "home-traversable";
  statement =
      "the account's home and every directory above it are traversable by a uid that owns none of them, which the extraction of an image the account attaches is done as";
  question =
      "(d=\"$HOME\"; while :; do m=\"$(stat -Lc %a \"$d\" 2>/dev/null)\" || exit 1; [ $((0$m & 1)) -eq 1 ] || exit 1; [ \"$d\" = / ] && exit 0; d=\"$(dirname \"$d\")\"; done)";
  missing = "a directory at or above the account's home is traversable by its owner alone";
}

abbrev lingering : Requirement
lingering = record {
  key = "lingering";
  statement = "lingering keeps the account's manager alive across logins";
  question = "[ \"$(loginctl show-user \"$(id -u)\" --value -p Linger 2>/dev/null)\" = yes ]";
  missing = "loginctl reports no lingering for the account";
}

abbrev user_manager : Requirement
user_manager = record {
  key = "user-manager";
  statement = "the account's own service manager answers";
  question = "systemctl --user show -p Version --value > /dev/null 2>&1";
  missing = "the account's manager answered nothing";
}

abbrev socket_requirement : String → Requirement
socket_requirement unit = record {
  key = remove_suffix ".socket" (remove_prefix "systemd-" unit);
  statement = fstring (unit ∷ " is live, which an unprivileged mount delegates to" ∷ []);
  question = fstring ("systemctl is-active --quiet " ∷ quote unit ∷ " 2>/dev/null" ∷ []);
  missing = "the machine's manager reports it is not active";
}

abbrev user_namespaces : Requirement
user_namespaces = record {
  key = "user-namespaces";
  statement = "the kernel permits an unprivileged user namespace";
  question = fstring (
      "[ \"$(cat "
      ∷ quote "/proc/sys/user/max_user_namespaces"
      ∷ " 2>/dev/null || echo 0)\" -gt 0 ] && "
      ∷ "[ \"$(cat "
      ∷ quote "/proc/sys/kernel/unprivileged_userns_clone"
      ∷ " 2>/dev/null || echo 1)\" = 1 ]"
      ∷ []);
  missing = "the kernel's own knobs refuse one";
}

-- `preflight`
unfoldable pub preflight : Bool → List Requirement
unfolding quote remove_prefix remove_suffix
preflight portabled =
    root_requirement "/run/vars" "values-root" "the values root"
    ∷ root_requirement "/var/lib/planner/sealed" "sealed-root" "the sealed root"
    ∷ root_requirement "/run/portable-planner" "staging-root" "the image staging root"
    ∷ lingering
    ∷ user_manager
    ∷ ((if portabled then user_portabled ∷ home_traversable ∷ [] else [])
        ++ socket_requirement "systemd-mountfsd.socket"
          ∷ socket_requirement "systemd-nsresourced.socket"
          ∷ user_namespaces
          ∷ [])

abbrev asked_requirement : Requirement → String
asked_requirement r = fstring (
    "if "
    ∷ r.question
    ∷ "; "
    ∷ "then printf '%s=%s\\n' "
    ∷ quote r.key
    ∷ " "
    ∷ quote "ok"
    ∷ "; "
    ∷ "else printf '%s=%s\\n' "
    ∷ quote r.key
    ∷ " "
    ∷ quote r.missing
    ∷ "; fi"
    ∷ [])

-- `preflight_script`
unfoldable pub preflight_script : List Requirement → String
unfolding quote join_by
preflight_script requirements =
    fstring (bus ∷ join_by "; " (map asked_requirement requirements) ∷ [])
