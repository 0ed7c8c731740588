-- ===== src/Enrollment/Writing.antt =====
-- cli/enrollment.py: the writing of the files of a minted credential, and what is told of them.
use nixplan.Prelude.{
  String, str_eq, eq_iff, Bool, true, false, ◌&&◌, ◌||◌, ltb, Bool-cases, inl, inr, and_true, ◌≡◌,
  refl, sym, ap, ap₂, subst, ◌∙◌, none, some, Option, List, [], ◌∷◌, map, arith, if◌then◌else◌,
}
use nixplan.Text.Words.{same_texts, fstring, strip}
use nixplan.Errors.{
  Result, ok, raises, key_error, traverse, traverse-cons, traverse-nil, >>=-ok, ok-injective,
  refuse, minted_otherwise, ◌>>=◌,
}
use nixplan.Sorted.{text_order, contains, sorted, count}
use nixplan.Sorted.Laws.{count-sorted, contains_of_count}
use nixplan.Dict.{Dict, get, keys, has}
use nixplan.Dict.Laws.{has-eq-is_found, is_found}
use nixplan.Paths.{FilePath, parent}
use nixplan.Manifest.{ValueFile, Value}
use nixplan.Remote.Answers.{Base64, minted}
use nixplan.Apply.{Bytes}
use nixplan.Apply.Run.{Progress, Ended, went, stopped, raised, told, record_line}
use nixplan.Enrollment.{
  minted_as, names_of, Written, written, bytes_at, Enrolled, minted_line, Files, write_one,
  after_call, after_write, write_minted, tell_public, tell_secret,
}

same_texts-eq : (ss ts : List String) → same_texts ss ts ≡ true → ss ≡ ts
unfolding same_texts
same_texts-eq [] [] e = refl
same_texts-eq [] (t ∷ ts) e = cc
same_texts-eq (s ∷ ss) [] e = cc
same_texts-eq (s ∷ ss) (t ∷ ts) e =
    let (h, k) = and_true (str_eq s t) (same_texts ss ts) e in
    ap₂ (λ x xs. x ∷ xs) ((eq_iff s t).0 h) (same_texts-eq ss ts k)

-- Every file that the value names has its bytes.
abbrev pub Has : Dict Bytes → List ValueFile → Type 0
Has got [] = Unit
Has got (f ∷ fs) = ((bytes : Bytes) × (bytes_at got f.name ≡ ok bytes)) × Has got fs

bytes_at-has :
    (got : Dict Bytes) (name : String)
    → contains name (keys got) ≡ true
    → (bytes : Bytes) × (bytes_at got name ≡ ok bytes)
unfolding bytes_at has
bytes_at-has got name h = found (get got name) (sym (has-eq-is_found got name) ∙ h)
  where
    found :
        (o : Option Bytes)
        → is_found o ≡ true
        → (bytes : Bytes) × ((elim o [ none ↦ raises (key_error name) | some b ↦ ok b ]) ≡ ok bytes)
    found none e = cc
    found (some b) e = (b, refl)

Has-contained :
    (got : Dict Bytes) (fs : List ValueFile)
    → ((x : String)
        → contains x (map (λ (f : ValueFile). f.name) fs) ≡ true
        → contains x (keys got) ≡ true)
    → Has got fs
unfolding contains
Has-contained got [] h = tt
Has-contained got (f ∷ fs) h = (
  bytes_at-has got f.name
      (h f.name (here f.name (contains f.name (map (λ (f : ValueFile). f.name) fs)))),
  Has-contained got fs
      λ x e. h x (there (str_eq f.name x) (contains x (map (λ (f : ValueFile). f.name) fs)) e),
)
  where
    here : (x : String) (b : Bool) → (str_eq x x || b) ≡ true
    here x b = ground (arith, eq_iff x x)

    there : (a b : Bool) → b ≡ true → (a || b) ≡ true
    there a b e = ground arith

same_sorted :
    (x : String) (xs ys : List String)
    → sorted xs ≡ sorted ys
    → contains x ys ≡ true
    → contains x xs ≡ true
same_sorted x xs ys e h =
    contains_of_count x xs
    ∙ ap (λ n. ltb 0 n) (sym (count-sorted x xs) ∙ ap (count x) e ∙ count-sorted x ys)
    ∙ sym (contains_of_count x ys)
    ∙ h

pub minted_as-Has :
    (decode : Base64) (v : Value) (answered : String) (got : Dict Bytes)
    → minted_as decode v answered ≡ ok got
    → Has got v.files
unfolding minted_as
minted_as-Has decode v answered got h =
    let ((got1, wrote), h1, h2) = >>=-ok (minted decode answered (names_of v)) _ h in
    accepted got1 wrote (same_texts (sorted (keys got1)) (sorted (names_of v)))
      (same_texts wrote (sorted (names_of v))) refl h2
  where
    accepted :
        (got1 : Dict Bytes) (wrote : List String) (a b : Bool)
        → same_texts (sorted (keys got1)) (sorted (names_of v)) ≡ a
        → (if a && b then ok got1 else refuse (minted_otherwise v.key wrote (names_of v))) ≡ ok got
        → Has got v.files
    accepted got1 wrote true true same e =
        subst (λ g. Has g v.files) (ok-injective e)
          (Has-contained got1 v.files
            λ x. same_sorted x (keys got1) (names_of v) (same_texts-eq _ _ same))
    accepted got1 wrote true false same e = cc
    accepted got1 wrote false b same e = cc

-- The files that a minting is to write, each with the bytes that the machine answered.
abbrev pub files_of : FilePath → Value → Dict Bytes → List ValueFile → Result (List Written)
files_of source v got fs =
    traverse (λ (f : ValueFile). do bytes ← bytes_at got f.name; ok (written source v f bytes)) fs

pub files_of-made :
    (source : FilePath) (v : Value) (got : Dict Bytes) (fs : List ValueFile)
    → Has got fs
    → (ws : List Written) × (files_of source v got fs ≡ ok ws)
unfolding traverse
files_of-made source v got [] h = ([], refl)
files_of-made source v got (f ∷ fs) ((bytes, found), h) =
    let (ws, made) = files_of-made source v got fs h in
    (written source v f bytes ∷ ws, rw (found, made) refl)

-- The file system after some files were written, one after another, up to the first that fails.
abbrev next_file :
    {F : Type 0} → F × Result (Unit {0}) → (F → F × Result (Unit {0})) → F × Result (Unit {0})
next_file (f, raises e) later = (f, raises e)
next_file (f, ok u) later = later f

-- The directory of a file, then its bytes, then its mode.
abbrev put_file : {F : Type 0} → Files F → Written → F → F × Result (Unit {0})
put_file files w f =
    next_file (files.mkdir f (parent w.at))
      λ f1. next_file (files.write_bytes f1 w.at w.content) λ f2. files.chmod f2 w.at w.mode

next_file-eq :
    {F : Type 0} (made : F × Result (Unit {0})) (next : F → F × Result (Unit {0}))
    → next_file made next ≡ after_call made next
next_file-eq (f, raises e) next = refl
next_file-eq (f, ok u) next = refl

put_file-write_one :
    {F : Type 0} (files : Files F) (w : Written) (f : F) → put_file files w f ≡ write_one files w f
unfolding write_one
put_file-write_one {F = F} files w f =
    next_file-eq (files.mkdir f (parent w.at)) _ ∙ after (files.mkdir f (parent w.at))
  where
    after :
        (made : F × Result (Unit {0}))
        → after_call made
            (λ f1. next_file (files.write_bytes f1 w.at w.content) λ f2. files.chmod f2 w.at w.mode)
          ≡ after_call made (λ f1.
            after_call (files.write_bytes f1 w.at w.content) λ f2. files.chmod f2 w.at w.mode)
    after (f1, raises e) = refl
    after (f1, ok u) = next_file-eq (files.write_bytes f1 w.at w.content) _

abbrev pub put_all : {F : Type 0} → Files F → List Written → F → F × Result (Unit {0})
put_all files [] f = (f, ok tt)
put_all files (w ∷ ws) f = next_file (put_file files w f) (put_all files ws)

module _ {S F : Type 0} where
  -- What the writing of some files, which began at `p`, left.
  abbrev pub LeavesWritten :
      Files F → List Written → Progress (Enrolled S F) → Ended (Enrolled S F) (Unit {0}) → Type 0
  LeavesWritten files ws p (went q u) =
      (put_all files ws (p.state).1 ≡ ((q.state).1, ok tt)) × ((q.state).0 ≡ (p.state).0)
  LeavesWritten files ws p (stopped q) = true ≡ false
  LeavesWritten files ws p (raised q e) =
      (put_all files ws (p.state).1 ≡ ((q.state).1, raises e)) × ((q.state).0 ≡ (p.state).0)

  pub write_minted-LeavesWritten :
      (files : Files F) (source : FilePath) (v : Value) (got : Dict Bytes) (fs : List ValueFile)
      (ws : List Written) (p : Progress (Enrolled S F))
      → files_of source v got fs ≡ ok ws
      → LeavesWritten files ws p (write_minted files source v got fs p)
  unfolding write_minted
  write_minted-LeavesWritten files source v got [] ws p made =
      let none_left : [] ≡ ws = traverse-nil _ made in
      subst (λ z. LeavesWritten files z p (went p tt)) none_left (refl, refl)
  write_minted-LeavesWritten files source v got (f ∷ fs) ws p made =
      let (w, rest, first, tail, whole) =
        traverse-cons
          (λ (f : ValueFile). do bytes ← bytes_at got f.name; ok (written source v f bytes)) f fs
          made in
      let (bytes, found, same) = >>=-ok (bytes_at got f.name) _ first in
      let begun : written source v f bytes ≡ w = ok-injective same in
      subst (λ z. LeavesWritten files z p (write_minted files source v got (f ∷ fs) p))
        (ap (λ z. z ∷ rest) begun ∙ whole)
        (rw found (
          by_write bytes rest (λ p2. write_minted-LeavesWritten files source v got fs rest p2 tail)
            (write_one files (written source v f bytes) (p.state).1) refl))
    where
      put_as :
          (bytes : Bytes) {o : F × Result (Unit {0})}
          → write_one files (written source v f bytes) (p.state).1 ≡ o
          → put_file files (written source v f bytes) (p.state).1 ≡ o
      put_as bytes wrote = put_file-write_one files (written source v f bytes) (p.state).1 ∙ wrote

      by_write :
          (bytes : Bytes) (rest : List Written)
          (later : (p2 : Progress (Enrolled S F))
            → LeavesWritten files rest p2 (write_minted files source v got fs p2))
          (o : F × Result (Unit {0}))
          → write_one files (written source v f bytes) (p.state).1 ≡ o
          → LeavesWritten files (written source v f bytes ∷ rest) p (
              after_write p o λ p2.
                write_minted files source v got fs
                  (record_line (told (minted_line v f (written source v f bytes))) p2))
      by_write bytes rest later (f1, raises e) wrote =
          (ap (λ o. next_file o (put_all files rest)) (put_as bytes wrote), refl)
      by_write bytes rest later (f1, ok u) wrote =
          let line = told (minted_line v f (written source v f bytes)) in
          let p2 : Progress (Enrolled S F) = record {
            state = ((p.state).0, f1);
            lines = line ∷ p.lines;
          } in
          shifted (write_minted files source v got fs p2) (later p2)
        where
          shifted :
              (e : Ended (Enrolled S F) (Unit {0}))
              → LeavesWritten files rest
                  (record {
                    state = ((p.state).0, f1);
                    lines = told (minted_line v f (written source v f bytes)) ∷ p.lines;
                  })
                  e
              → LeavesWritten files (written source v f bytes ∷ rest) p e
          shifted (went q u) (put, same) =
              (ap (λ o. next_file o (put_all files rest)) (put_as bytes wrote) ∙ put, same)
          shifted (stopped q) h = h
          shifted (raised q e) (put, same) =
              (ap (λ o. next_file o (put_all files rest)) (put_as bytes wrote) ∙ put, same)

  pub tell_public-went :
      (text : Bytes → String) (got : Dict Bytes) (fs : List ValueFile) (p : Progress (Enrolled S F))
      → Has got fs
      → (q : Progress (Enrolled S F)) × (tell_public text got fs p ≡ went q tt)
        × (q.state ≡ p.state)
  unfolding tell_public
  tell_public-went text got [] p h = (p, refl, refl)
  tell_public-went text got (f ∷ fs) p ((bytes, found), h) =
      elim (Bool-cases (str_eq f.secrecy "public")) [
        | inl y ↦
            let (q, told_all, same) =
              tell_public-went text got fs
                (record_line (told (fstring (f.name ∷ " " ∷ strip (text bytes) ∷ []))) p) h in
            (q, rw (y, found) told_all, same)
        | inr n ↦
            let (q, told_all, same) = tell_public-went text got fs p h in (q, rw n told_all, same)
      ]

  pub tell_secret-state :
      (source : FilePath) (v : Value) (fs : List ValueFile) (p : Progress (Enrolled S F))
      → (tell_secret source v fs p).state ≡ p.state
  unfolding tell_secret
  tell_secret-state source v [] p = refl
  tell_secret-state source v (f ∷ fs) p = elim (Bool-cases (str_eq f.secrecy "public")) [
    | inl y ↦ rw y (tell_secret-state source v fs p)
    | inr n ↦ rw n (tell_secret-state source v fs _)
  ]
