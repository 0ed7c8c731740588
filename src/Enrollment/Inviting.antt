-- ===== src/Enrollment/Inviting.antt =====
-- cli/enrollment.py: what `invite` writes into the value source.
use nixplan.Prelude.{◌⊎◌, String, ◌≡◌, List}
use nixplan.Errors.{Result, ok, raises}
use nixplan.Sorted.{text_order}
use nixplan.Dict.{Dict}
use nixplan.Paths.{FilePath}
use nixplan.Manifest.{Deployment}
use nixplan.Remote.Answers.{Base64}
use nixplan.Apply.{Bytes}
use nixplan.Apply.Run.{Channel, Progress, Ended, went, stopped, raised, said}
use nixplan.Enrollment.{Minting, minting, minted_as, Written, Enrolled, Files, Caller}
use nixplan.Enrollment.Writing.{files_of, put_all}

module _ {S F : Type 0} where
  -- The machine answered the step of the invitation with exactly the files that the plan names, and
  -- the writing of these, each with the bytes that the machine answered for it, took the file system
  -- from `f` to `after`.
  abbrev pub Answers :
      Base64
      → Files F
      → Caller
      → Deployment
      → Channel S
      → FilePath
      → S
      → F
      → S
      → F × Result (Unit {0})
      → Type 0
  Answers decode files caller d channel source s f s1 after =
      (m : Minting) × (answered : String) × (got : Dict Bytes) × (ws : List Written) × (minting
          caller d
        ≡ ok m)
      × (channel s m.step ≡ (s1, said answered))
      × (minted_as decode m.value answered ≡ ok got)
      × (files_of source m.value got (m.value).files ≡ ok ws)
      × (put_all files ws f ≡ after)

  -- How an invitation that began at `p` left the value source.
  abbrev pub WritesAnswered :
      Base64
      → Files F
      → Caller
      → Deployment
      → Channel S
      → FilePath
      → Progress (Enrolled S F)
      → Ended (Enrolled S F) (Unit {0})
      → Type 0
  WritesAnswered decode files caller d channel source p (went q u) =
      Answers decode files caller d channel source (p.state).0 (p.state).1 (q.state).0
        ((q.state).1, ok tt)
  WritesAnswered decode files caller d channel source p (stopped q) = (q.state).1 ≡ (p.state).1
  WritesAnswered decode files caller d channel source p (raised q e) =
      ((q.state).1 ≡ (p.state).1)
      ⊎ Answers decode files caller d channel source (p.state).0 (p.state).1 (q.state).0
          ((q.state).1, raises e)
