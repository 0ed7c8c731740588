-- ===== src/Enrollment.antt =====
-- cli/enrollment.py: the verbs that an operator runs against the coordination server of a deployment.
pub mod Writing
pub mod Inviting
pub mod Tests
use nixplan.Prelude.{
  ℕ, String, str_eq, Bool, true, false, not, ◌&&◌, ◌||◌, Option, none, some, List, [], ◌∷◌, ◌++◌,
  map, any, if◌then◌else◌,
}
use nixplan.Text.Words.{same_texts, fstring, strip, after_prefix}
use nixplan.Errors.{
  Result, ok, raises, refuse, key_error, no_statement, no_such_entry, no_such_value,
  no_minting_program, no_file_to_mint, minted_otherwise, is_a_machine, ◌>>=◌, ◌>>◌,
}
use nixplan.Sorted.{text_order, contains, sorted}
use nixplan.Dict.{Dict, get, keys}
use nixplan.Paths.{FilePath, path, join, parent, path_text}
use nixplan.Manifest.{ValueFile, Value, Entry, Coordination, Deployment, machine_prefix}
use nixplan.Manifest.Ask.{address_of, entry_scope}
use nixplan.Remote.Answers.{Base64, Minted, minted}
use nixplan.Remote.Options.{channel as options}
use nixplan.Remote.Verbs.{coordination_script, mint_script}
use nixplan.Apply.{Bytes, refuse_inapplicable}
use nixplan.Apply.Run.{
  Step, take_verb, Channel, Outcome, Line, told, Progress, Ended, went, raised, and_then, settle,
  take, record_line,
}

unfoldable pub statement : Deployment → Result Coordination
statement d = elim d.coordination [ none ↦ refuse (no_statement d.root) | some stated ↦ ok stated ]

unfoldable pub entry_of : Deployment → Coordination → Result Entry
unfolding get
entry_of d stated = elim (get d.entries stated.entry) [
  | none ↦ refuse (no_such_entry stated.entry)
  | some e ↦ ok e
]

abbrev program_of : Option String → String
program_of none = ""
program_of (some program) = program

abbrev mintable : Value → List ValueFile → Result Value
mintable v [] = refuse (no_file_to_mint v.key)
mintable v (f ∷ fs) = ok v

-- `_credential`
abbrev with_program : Value → Result Value
with_program v =
    if str_eq (program_of v.program) ""
    then refuse (no_minting_program v.key)
    else mintable v v.files

unfoldable pub credential : Deployment → Coordination → Result Value
unfolding get
credential d stated = elim (get d.values stated.credential) [
  | none ↦ refuse (no_such_value stated.credential)
  | some v ↦ with_program v
]

-- What the ssh options of a run are read from.
pub record Caller : Type 0 where
  pub environ : Dict String
  pub ssh_key : Option FilePath

-- One verb's step, as it is settled before the dial.
unfoldable pub verb_step : Caller → Deployment → String → List String → Result Step
unfolding statement refuse_inapplicable entry_of address_of entry_scope coordination_script options
verb_step caller d verb taken = do
  stated ← statement d
  refuse_inapplicable d
  e ← entry_of d stated
  address ← address_of e
  shared ← options caller.environ caller.ssh_key
  scope ← entry_scope d e
  ok (
      take_verb verb stated.entry e address
        (coordination_script stated.program stated.configuration verb taken scope))

-- `_asked`, which echoes what the machine said
unfoldable pub asked :
    {S : Type 0}
    → Caller
    → Deployment
    → Channel S
    → String
    → List String
    → Progress S
    → Ended S (Unit {0})
unfolding verb_step take
asked caller d channel verb taken p =
    and_then (settle p (verb_step caller d verb taken))
      λ p1 step. and_then (take channel true step p1) λ p2 answer. went p2 tt

unfoldable pub members :
    {S : Type 0} → Caller → Deployment → Channel S → Progress S → Ended S (Unit {0})
unfolding asked
members caller d channel p = asked caller d channel "list" [] p

-- Whether the registry declares a machine of this name.
abbrev is_machine_key : String → String → Bool
is_machine_key identifier key = elim (after_prefix machine_prefix key) [
  | none ↦ false
  | some machine ↦ str_eq machine identifier
]

unfoldable pub declares : Deployment → String → Bool
unfolding after_prefix
declares d identifier = any (is_machine_key identifier) (keys d.plan)

unfoldable pub expel :
    {S : Type 0} → Caller → Deployment → Channel S → String → Progress S → Ended S (Unit {0})
unfolding declares asked
expel caller d channel identifier p =
    and_then (settle p (if declares d identifier then refuse (is_a_machine identifier) else ok tt))
      λ p1 u. asked caller d channel "expel" (identifier ∷ []) p1

-- What a minting is settled to before the dial.
pub record Minting : Type 0 where
  pub value : Value
  pub step : Step

abbrev pub names_of : Value → List String
names_of v = map (λ (f : ValueFile). f.name) v.files

unfoldable pub minting : Caller → Deployment → Result Minting
unfolding statement refuse_inapplicable entry_of credential address_of entry_scope mint_script
    options
minting caller d = do
  stated ← statement d
  refuse_inapplicable d
  e ← entry_of d stated
  v ← credential d stated
  address ← address_of e
  shared ← options caller.environ caller.ssh_key
  scope ← entry_scope d e
  let script = mint_script (program_of v.program) stated.configuration (names_of v) scope
  ok (record { value = v; step = take_verb "invite" v.key e address script })

-- The answer of the machine, which names the files that the plan names, and no others.
unfoldable pub minted_as : Base64 → Value → String → Result (Dict Bytes)
unfolding minted sorted same_texts
minted_as decode v answered = do
  (got, wrote) ← minted decode answered (names_of v)
  if same_texts (sorted (keys got)) (sorted (names_of v)) && same_texts wrote (sorted (names_of v))
      then ok got
      else refuse (minted_otherwise v.key wrote (names_of v))

-- A file of the value source, as it is to be written: SECRET_MODE and PUBLIC_MODE
pub record Written : Type 0 where
  pub at : FilePath
  pub content : Bytes
  pub mode : ℕ

abbrev mode_of : ValueFile → ℕ
mode_of f = if str_eq f.secrecy "public" then 420 else 384

unfoldable pub place_of : FilePath → Value → ValueFile → FilePath
unfolding join path
place_of source v f = join (join source (path v.key)) (path f.name)

unfoldable pub bytes_at : Dict Bytes → String → Result Bytes
unfolding get
bytes_at got name = elim (get got name) [ none ↦ raises (key_error name) | some bytes ↦ ok bytes ]

abbrev pub written : FilePath → Value → ValueFile → Bytes → Written
written source v f bytes = record { at = place_of source v f; content = bytes; mode = mode_of f }

-- The three calls of the file system that write one file, over its state `F`. Each of them may fail,
-- and what it did by then stays done.
pub record Files (F : Type 0) : Type 0 where
  pub mkdir : F → FilePath → F × Result (Unit {0})
  pub write_bytes : F → FilePath → Bytes → F × Result (Unit {0})
  pub chmod : F → FilePath → ℕ → F × Result (Unit {0})

-- One call after another: the first that fails is the last.
abbrev pub after_call :
    {F : Type 0} → F × Result (Unit {0}) → (F → F × Result (Unit {0})) → F × Result (Unit {0})
after_call (f, raises e) next = (f, raises e)
after_call (f, ok u) next = next f

unfoldable pub write_one : {F : Type 0} → Files F → Written → F → F × Result (Unit {0})
unfolding parent
write_one files w f =
    after_call (files.mkdir f (parent w.at))
      λ f1. after_call (files.write_bytes f1 w.at w.content) λ f2. files.chmod f2 w.at w.mode

-- The machines, and the file system of the value source.
abbrev pub Enrolled : Type 0 → Type 0 → Type 0
Enrolled S F = S × F

abbrev pub minted_line : Value → ValueFile → Written → String
minted_line v f w = fstring ("minted " ∷ v.key ∷ " " ∷ f.name ∷ " -> " ∷ path_text w.at ∷ [])

module _ {S F : Type 0} where
  -- What follows a write, in the file system that it left.
  abbrev pub after_write :
      Progress (Enrolled S F)
      → F × Result (Unit {0})
      → (Progress (Enrolled S F) → Ended (Enrolled S F) (Unit {0}))
      → Ended (Enrolled S F) (Unit {0})
  after_write p (f, raises e) next = raised (record p { state = ((p.state).0, f) }) e
  after_write p (f, ok u) next = next (record p { state = ((p.state).0, f) })

  unfoldable pub write_minted :
      Files F
      → FilePath
      → Value
      → Dict Bytes
      → List ValueFile
      → Progress (Enrolled S F)
      → Ended (Enrolled S F) (Unit {0})
  unfolding bytes_at place_of path_text write_one
  write_minted files source v got [] p = went p tt
  write_minted files source v got (f ∷ fs) p = and_then (settle p (bytes_at got f.name)) λ p1 bytes.
      let w = written source v f bytes in
      after_write p1 (write_one files w (p1.state).1)
        λ p2. write_minted files source v got fs (record_line (told (minted_line v f w)) p2)

  -- What is told of the files: those that are public, with their text, and then the others.
  unfoldable pub tell_public :
      (Bytes → String)
      → Dict Bytes
      → List ValueFile
      → Progress (Enrolled S F)
      → Ended (Enrolled S F) (Unit {0})
  unfolding bytes_at strip
  tell_public text got [] p = went p tt
  tell_public text got (f ∷ fs) p =
      if str_eq f.secrecy "public"
      then and_then (settle p (bytes_at got f.name)) (λ p1 bytes.
        tell_public text got fs
          (record_line (told (fstring (f.name ∷ " " ∷ strip (text bytes) ∷ []))) p1))
      else tell_public text got fs p

  unfoldable pub tell_secret :
      FilePath → Value → List ValueFile → Progress (Enrolled S F) → Progress (Enrolled S F)
  unfolding place_of path_text
  tell_secret source v [] p = p
  tell_secret source v (f ∷ fs) p =
      let line =
        fstring (
          "hand " ∷ path_text (place_of source v f) ∷ " over from there, outside this tree" ∷ []) in
      let public = tell_secret source v fs p in
      let secret = tell_secret source v fs (record_line (told line) p) in
      if str_eq f.secrecy "public" then public else secret

  -- A step leaves the value source as it is.
  abbrev pub beside : Channel S → Channel (Enrolled S F)
  beside channel (s, source) step = let (s1, outcome) = channel s step in ((s1, source), outcome)

  -- `invite`: the answer of its step is read, and never echoed.
  unfoldable pub invite :
      Base64
      → (Bytes → String)
      → Files F
      → Caller
      → Deployment
      → Channel S
      → FilePath
      → Progress (Enrolled S F)
      → Ended (Enrolled S F) (Unit {0})
  unfolding minting take minted_as write_minted tell_public tell_secret
  invite decode text files caller d channel source p =
      and_then (settle p (minting caller d)) λ p1 m.
        and_then (take (beside channel) false m.step p1) λ p2 answered.
          and_then (settle p2 (minted_as decode m.value answered)) λ p3 got.
            and_then (write_minted files source m.value got (m.value).files p3) λ p4 u.
              and_then (tell_public text got (m.value).files p4)
                λ p5 v. went (tell_secret source m.value (m.value).files p5) tt
