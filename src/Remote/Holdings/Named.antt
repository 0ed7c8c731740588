-- ===== src/Remote/Holdings/Named.antt =====
-- cli/remote.py: which holdings `unnamed` keeps.
use nixplan.Prelude.{
  ◌⊎◌, String, str_eq, Bool, true, false, Bool-cases, inl, inr, ◌≡◌, refl, ap, subst, ◌∙◌, List, [],
  ◌∷◌, ◌++◌, Option, none, some, if◌then◌else◌,
}
use nixplan.Text.Words.{rpartition, remove_suffix}
use nixplan.Paths.{FilePath}
use nixplan.Manifest.Ask.{image_file}
use nixplan.Errors.{Exception, Result, raises, ok, traverse_flat, ◌>>=◌, >>=-ok, ok-injective}
use nixplan.Dict.{Dict, get, values}
use nixplan.Manifest.{Entry, Realiser}
use nixplan.Manifest.Fields.{published_text}
use nixplan.Manifest.Read.{Disk}
use nixplan.Remote.Holdings.{
  Holding, published_onto, published_at, before_last, owns_image, any_owns_image, claims_flakelet,
  claims, claims_as, claims_image, is_placed_image, unless, unnamed,
}

abbrev pub Every {ℓ κ} : {A : Type ℓ} → (A → Type κ) → List A → Type κ
Every P [] = Unit
Every P (x ∷ xs) = P x × Every P xs

module _ (disk : Disk) (entries : Dict Entry) where
  -- No flakelet entry stands at an identity.
  abbrev IsNoFlakelet : Option Entry → Type 0
  IsNoFlakelet found =
      (found ≡ none) ⊎ ((e : Entry) × (found ≡ some e) × (str_eq e.realiser "flakelet" ≡ false))

  -- An entry is no placed image, or its image's name starts in another way.
  abbrev IsOtherImage : String → String → Entry → Type 0
  IsOtherImage separator held e =
      (e.path ≡ none)
      ⊎ ((str_eq e.realiser "image" ≡ false)
          ⊎ ((file : String) × (image_file disk e ≡ ok file)
              × (str_eq (before_last (rpartition separator (remove_suffix ".raw" file))) held
                  ≡ false)))

  claims_flakelet-none : (found : Option Entry) → claims_flakelet found ≡ false → IsNoFlakelet found
  claims_flakelet-none none c = inl refl
  claims_flakelet-none (some e) c = inr (e, refl, c)

  owns_image-none :
      (separator held : String) (e : Entry)
      → owns_image disk separator held e ≡ ok false
      → IsOtherImage separator held e
  unfolding owns_image
  owns_image-none separator held e c = by_path e.path refl c
    where
      by_path :
          (path : Option FilePath)
          → e.path ≡ path
          → (if is_placed_image e path
              then (do
                file ← image_file disk e
                ok (str_eq (before_last (rpartition separator (remove_suffix ".raw" file))) held))
              else ok false)
            ≡ ok false
          → IsOtherImage separator held e
      by_path none at c = inl at
      by_path (some artifact) at c = elim (Bool-cases (str_eq e.realiser "image")) [
        | inl y ↦
            let (file, named, c1) = >>=-ok (image_file disk e) _ (rw y at c) in
            inr (inr (file, named, ok-injective c1))
        | inr n ↦ inr (inl n)
      ]

  any_owns_image-none :
      (separator held : String) (es : List Entry)
      → any_owns_image disk separator held es ≡ ok false
      → Every (IsOtherImage separator held) es
  unfolding any_owns_image
  any_owns_image-none separator held [] h = tt
  any_owns_image-none separator held (e ∷ es) h =
      let (owned, asked, h1) = >>=-ok (owns_image disk separator held e) _ h in
      let (no_owner, later) = not_owned owned (any_owns_image disk separator held es) h1 in
      (
        owns_image-none separator held e (asked ∙ ap ok no_owner),
        any_owns_image-none separator held es later,
      )
    where
      not_owned :
          (b : Bool) (m : Result Bool)
          → (if b then ok true else m) ≡ ok false
          → (b ≡ false) × (m ≡ ok false)
      not_owned true m e = cc
      not_owned false m e = (refl, e)

module _ (disk : Disk) (entries : Dict Entry) (realisers : List Realiser) where
  -- The build places nothing for a holding: no flakelet entry stands at a flakelet's identity, and
  -- an image's identity is, up to its last separator, that of no placed image's file.
  abbrev pub IsForeign : Holding → Type 0
  IsForeign h =
      ((str_eq h.realiser "flakelet" ≡ true) × IsNoFlakelet disk entries (get entries h.identity))
      ⊎ ((str_eq h.realiser "image" ≡ true)
          × ((r : Realiser) × (separator : String) × (published_at (published_onto [] realisers)
                  h.realiser
                ≡ ok r)
              × (published_text r "separator" ≡ ok separator)
              × Every
                  (IsOtherImage disk entries separator
                    (before_last (rpartition separator h.identity)))
                  (values entries)))

  claims-IsForeign :
      (h : Holding) → claims disk entries (published_onto [] realisers) h ≡ ok false → IsForeign h
  unfolding claims claims_as claims_image
  claims-IsForeign h c =
      let (r, known, h1) = >>=-ok (published_at (published_onto [] realisers) h.realiser) _ c in
      elim (Bool-cases (str_eq h.realiser "flakelet")) [
        | inl y ↦ inl (
          y,
          claims_flakelet-none disk entries (get entries h.identity) (ok-injective (rw y at h1)),
        )
        | inr n ↦ elim (Bool-cases (str_eq h.realiser "image")) [
          | inl y ↦
              let (separator, stated, h2) =
                >>=-ok (published_text r "separator") _ (rw (n, y) at h1) in
              let others =
                any_owns_image-none disk entries separator
                  (before_last (rpartition separator h.identity)) (values entries) h2 in
              inr (y, (r, separator, known, stated, others))
          | inr m ↦ no_result (rw (n, m) at h1)
        ]
      ]
    where
      no_result : {x : Exception} → raises x ≡ ok false → IsForeign h
      no_result e = cc

  -- A run retires, or reports, nothing that the build places: whatever `unnamed` keeps of a
  -- machine's holdings, the build names no entry for.
  pub unnamed-IsForeign :
      (held kept : List Holding)
      → unnamed disk entries realisers held ≡ ok kept
      → Every IsForeign kept
  unfolding unnamed traverse_flat
  unnamed-IsForeign [] kept e = foreign_nil kept (ok-injective e)
    where
      foreign_nil : (ks : List Holding) → [] ≡ ks → Every IsForeign ks
      foreign_nil [] e = tt
      foreign_nil (k ∷ ks) e = cc
  unnamed-IsForeign (h ∷ held) kept e =
      let (here, h1, more) =
        >>=-ok (do named ← claims disk entries (published_onto [] realisers) h; ok (unless named h))
          _ e in
      let (later, h2, whole) = >>=-ok (unnamed disk entries realisers held) _ more in
      let (named, h3, kept_here) =
        >>=-ok (claims disk entries (published_onto [] realisers) h) _ h1 in
      subst (Every IsForeign) (ap (λ ks. ks ++ later) (ok-injective kept_here) ∙ ok-injective whole)
        (keeps named later (λ f. claims-IsForeign h (h3 ∙ ap ok f))
          (unnamed-IsForeign held later h2))
    where
      keeps :
          (named : Bool) (later : List Holding)
          → (named ≡ false → IsForeign h)
          → Every IsForeign later
          → Every IsForeign (unless named h ++ later)
      keeps true later foreign rest = rest
      keeps false later foreign rest = (foreign refl, rest)
