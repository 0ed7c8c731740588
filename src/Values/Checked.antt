-- ===== src/Values/Checked.antt =====
-- cli/values.py: what a value source holds that `check` accepts.
use nixplan.Prelude.{
  String, str_eq, eq_iff, ◌≡◌, refl, sym, Bool, true, false, not, Option, none, some, List, [], ◌∷◌,
  arith, filter, if◌then◌else◌, Bool-cases, inl, inr,
}
use nixplan.Sorted.{text_order, contains, sorted_set}
use nixplan.Sorted.Laws.{contains-sorted_set}
use nixplan.Dict.{Dict, get, has}
use nixplan.Errors.{ApplyError, Result, ok, refuse, >>=-ok}
use nixplan.Manifest.{Deployment}
use nixplan.Values.{
  Declared, Source, held, index, required, generated, check_root, refuse_any, check_generated,
  check_extra, check_declared, missing_refusal, is_missing, check, delivered,
}
use nixplan.Values.Laws.{contains-filter}

nothing-refused :
    (refusal : String → List String → ApplyError) (xs : List String) (r : String)
    → refuse_any refusal xs ≡ ok tt
    → contains r xs ≡ false
unfolding contains
nothing-refused refusal [] r h = refl
nothing-refused refusal (x ∷ xs) r h = cc

refuse_any-ok :
    (refusal : String → List String → ApplyError) (test : String → Bool) (present : List String)
    (r : String)
    → refuse_any refusal (sorted_set (filter test present)) ≡ ok tt
    → contains r present ≡ true
    → test r ≡ false
unfolding contains
refuse_any-ok refusal test present r h c =
    let none_left : contains r (sorted_set (filter test present)) ≡ false =
      nothing-refused refusal (sorted_set (filter test present)) r h in
    ground (arith, contains-sorted_set r (filter test present), contains-filter test r present)

-- A value source that `check_generated` passes holds no file of the external generator.
check_generated-ok :
    (present : List String) (mine : Dict Declared) (r : String)
    → check_generated present mine ≡ ok tt
    → contains r present ≡ true
    → has mine r ≡ false
unfolding check_generated
check_generated-ok present mine r h c = refuse_any-ok _ (has mine) present r h c

check_extra-ok :
    (present : List String) (files : Dict Declared) (r : String)
    → check_extra present files ≡ ok tt
    → contains r present ≡ true
    → has files r ≡ true
unfolding check_extra
check_extra-ok present files r h c =
    let stays : not (has files r) ≡ false =
      refuse_any-ok _ (λ relative. not (has files relative)) present r h c in
    ground arith

not-ok_refused :
    (source : Option Source) (file : Declared) → ¬ (missing_refusal source file ≡ ok tt)
not-ok_refused none file h = cc
not-ok_refused (some source) file h = cc

check_declared-step :
    (source : Option Source) (c : Bool) (file : Declared) (rest : Result (Unit {0}))
    → (if c then missing_refusal source file else rest) ≡ ok tt
    → (c ≡ false) × (rest ≡ ok tt)
check_declared-step source true file rest h = absurd (not-ok_refused source file h)
check_declared-step source false file rest h = (refl, h)

some-first :
    {k f : Declared} {c : Bool} (rest : Option Declared)
    → c ≡ true
    → (if c then some k else rest) ≡ some f
    → k ≡ f
some-first {k} {f} {c = true} rest e h = cc
some-first {k} {f} {c = false} rest e h = cc

check_declared-ok :
    (source : Option Source) (answerable present : List String) (files : Dict Declared) (r : String)
    (f : Declared)
    → check_declared source answerable present files ≡ ok tt
    → get files r ≡ some f
    → contains f.0.key answerable ≡ true
    → contains r present ≡ true
unfolding check_declared get
check_declared-ok source answerable present [] r f h g a = cc
check_declared-ok source answerable present ((j, k) ∷ rest) r f h g a =
    let (held_here, later) =
      check_declared-step source (is_missing answerable present (j, k)) k
        (check_declared source answerable present rest) h in
    elim (Bool-cases (str_eq j r)) [
      | inl e ↦
          let same_name : j ≡ r = (eq_iff j r).0 e in
          let same_file : k ≡ f = some-first (get rest r) e g in
          let said : is_missing answerable present (r, f) ≡ false =
            rw (sym same_name, sym same_file) held_here in
          ground arith
      | inr e ↦ check_declared-ok source answerable present rest r f later (ground arith) a
    ]

directory-ok :
    (c : Bool) (e : ApplyError) {u : Unit {0}} → (if c then ok tt else refuse e) ≡ ok u → c ≡ true
directory-ok true e h = refl
directory-ok false e h = cc

-- What a run that is accepted may rely on: the files that its manifest requires, and the source.
abbrev pub Accepted : Deployment → Source → List String → List Declared → Type 0
Accepted d source answerable declared =
    ((r : String) (f : Declared)
      → get (index declared) r ≡ some f
      → contains f.0.key answerable ≡ true
      → contains r (held source (delivered d)) ≡ true)
    × ((r : String)
        → contains r (held source (delivered d)) ≡ true
        → (has (index (generated d)) r ≡ false) × (has (index declared) r ≡ true))

-- Where `check` accepts a value source, the source is a directory, the files that the manifest
-- requires are determined, each of them that belongs to a value the run answers for is held by the
-- source, and each file that the source holds below a delivered value is one of those required and
-- none of the external generator's.
pub check-Accepted :
    (d : Deployment) (source : Source) (answerable : List String)
    → check d (some source) answerable ≡ ok tt
    → (source.is_directory ≡ true)
      × (declared : List Declared) × (required d (delivered d) ≡ ok declared)
      × Accepted d source answerable declared
unfolding check check_root
check-Accepted d source answerable h =
    let (u, root, h1) = >>=-ok (check_root (some source)) _ h in
    let (declared, files, h2) = >>=-ok (required d (delivered d)) _ h1 in
    let present = held source (delivered d) in
    let (u2, all_held, h3) =
      >>=-ok (check_declared (some source) answerable present (index declared)) _ h2 in
    let (u3, none_generated, extra) = >>=-ok (check_generated present (index (generated d))) _ h3 in
    (
      directory-ok source.is_directory _ root,
      declared,
      files,
      (
        λ r f g a.
            check_declared-ok (some source) answerable present (index declared) r f all_held g a,
        λ r c. (
          check_generated-ok present (index (generated d)) r none_generated c,
          check_extra-ok present (index declared) r extra c,
        ),
      ),
    )
