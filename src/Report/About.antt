-- ===== src/Report/About.antt =====
-- cli/report.py: the record that is made of an answer about an entry bears the entry's name.
use nixplan.Prelude.{
  String, str_eq, Bool, true, false, ◌||◌, ◌≡◌, refl, subst, Option, none, some, List, [], ◌∷◌,
  Bool-cases, inl, inr, if◌then◌else◌,
}
use nixplan.Prelude.Int.{ℤ}
use nixplan.Text.Words.{rpartition, remove_suffix}
use nixplan.Errors.{Result, ok, ok-injective, >>=-ok}
use nixplan.Dict.{Dict, get}
use nixplan.Json.{Json, as_dict}
use nixplan.Manifest.{Entry}
use nixplan.Manifest.Read.{Disk}
use nixplan.Remote.Holdings.Sections.{Decoder}
use nixplan.Report.Entries.{
  EntryAnswer, realises_nothing, not_dialled, unreached, no_endpoint, answered, is_undialled,
  is_unrealised, is_unreachable, answered_as, read_status, read_attachment, endpoint_answer,
  registration_answer, attachment_answer, registered, running, reached_as, absent,
}
use nixplan.Report.{Image, held_image}
use nixplan.Remote.Answers.{Attachment, attachment_of}
use nixplan.Remote.Holdings.{is_missing_tool, is_success, before_last}
use nixplan.Manifest.Ask.{image_file}

-- An answer about an entry bears its key and its machine, whatever the machine said.
abbrev pub IsAbout : Entry → EntryAnswer → Type 0
IsAbout e a = (a.key ≡ e.key) × (a.machine ≡ e.machine)

made-IsAbout : (e : Entry) (a b : EntryAnswer) → IsAbout e a → ok a ≡ ok b → IsAbout e b
made-IsAbout e a b h same = subst (IsAbout e) (ok-injective same) h

registration_answer-IsAbout :
    (disk : Disk) (e : Entry) (first : Option (Dict Json)) (a : EntryAnswer)
    → registration_answer disk e first ≡ ok a
    → IsAbout e a
unfolding registration_answer
registration_answer-IsAbout disk e none a h = cc
registration_answer-IsAbout disk e (some first) a h =
    let (runs, h1, h2) = >>=-ok (running disk e (as_dict (get first "units"))) _ h in
    made-IsAbout e _ a (refl, refl) h2

endpoint_answer-IsAbout :
    (disk : Disk) (e : Entry) (js : List Json) (a : EntryAnswer)
    → endpoint_answer disk e js ≡ ok a
    → IsAbout e a
unfolding endpoint_answer
endpoint_answer-IsAbout disk e [] a h = made-IsAbout e (reached_as e absent) a (refl, refl) h
endpoint_answer-IsAbout disk e (first ∷ rest) a h =
    registration_answer-IsAbout disk e (as_dict (some first)) a h

attachment_answer-IsAbout :
    (e : Entry) (said : Attachment) (image : Option Image)
    → IsAbout e (attachment_answer e said image)
unfolding attachment_answer
attachment_answer-IsAbout e said none =
    pick (str_eq said.state "" || str_eq said.state "detached") (reached_as e absent)
      (record (reached_as e answered) { state = some said.state }) (refl, refl) (refl, refl)
  where
    pick :
        (c : Bool) (x y : EntryAnswer) → IsAbout e x → IsAbout e y → IsAbout e (if c then x else y)
    pick true x y h k = h
    pick false x y h k = k
attachment_answer-IsAbout e said (some (identity, listed)) = (refl, refl)

read_status-IsAbout :
    (disk : Disk) (decode : Decoder) (e : Entry) (reported : String) (a : EntryAnswer)
    → read_status disk decode e reported ≡ ok a
    → IsAbout e a
unfolding read_status read_attachment
read_status-IsAbout disk decode e reported a h = elim (Bool-cases (str_eq e.realiser "image")) [
  | inl y ↦
      let (file, h1, h2) = >>=-ok (image_file disk e) _ (rw y at h) in
      let mine = remove_suffix ".raw" file in
      let said = attachment_of reported in
      let image = held_image mine (before_last (rpartition "_" mine)) said.listed in
      made-IsAbout e (attachment_answer e said image) a (attachment_answer-IsAbout e said image) h2
  | inr n ↦
      let (listed, h1, h2) = >>=-ok (registered decode e.key reported) _ (rw n at h) in
      endpoint_answer-IsAbout disk e listed a h2
]

pub answered_as-IsAbout :
    (disk : Disk) (decode : Decoder) (e : Entry) (status : ℤ) (said : String) (a : EntryAnswer)
    → answered_as disk decode e status said ≡ ok a
    → IsAbout e a
unfolding answered_as
answered_as-IsAbout disk decode e status said a =
    let read = read_status disk decode e said in
    let without = ok (reached_as e absent) in
    let missing = ok (record (reached_as e no_endpoint) { said = some said }) in
    let r1 = if is_success status then read else without in
    let r2 = if is_missing_tool status then missing else r1 in
    let r3 = if is_unreachable status then ok (reached_as e unreached) else r2 in
    let r4 = if is_undialled status then ok (reached_as e not_dialled) else r3 in
    either (is_unrealised status) (ok (reached_as e realises_nothing)) r4
      (made-IsAbout e _ a (refl, refl))
      (either (is_undialled status) (ok (reached_as e not_dialled)) r3
        (made-IsAbout e _ a (refl, refl))
        (either (is_unreachable status) (ok (reached_as e unreached)) r2
          (made-IsAbout e _ a (refl, refl))
          (either (is_missing_tool status) missing r1 (made-IsAbout e _ a (refl, refl)) (
            either (is_success status) read without (read_status-IsAbout disk decode e said a)
              (made-IsAbout e _ a (refl, refl))))))
  where
    either :
        (c : Bool) (m n : Result EntryAnswer)
        → (m ≡ ok a → IsAbout e a)
        → (n ≡ ok a → IsAbout e a)
        → (if c then m else n) ≡ ok a
        → IsAbout e a
    either true m n h k same = h same
    either false m n h k same = k same
