-- ===== src/Manifest/Contained.antt =====
-- Where an artifact that the manifest states lands, and whether `_artifact` of cli/manifest.py
-- accepts it.
use nixplan.Prelude.{
  String, ap, ap₂, ◌≡◌, refl, ◌∙◌, ◌&&◌, ◌||◌, and_true, Bool, true, false, List, [], ◌++◌,
  append-nil, arith, if◌then◌else◌,
}
use nixplan.Errors.{ok, refuse, outside_build}
use nixplan.Sorted.{text_order, contains}
use nixplan.Sorted.Laws.{contains-append}
use nixplan.Paths.{
  FilePath, Anchor, relative, slash, double_slash, path, join, absolute, collapse, reverse_onto,
  is_relative_to, join_at, same_anchor, starts_with_parts,
}
use nixplan.Paths.Laws.{
  contains-collapse, collapse-reverse_onto, contains-reverse_onto, reverse_onto_twice,
  starts_with_parts-append, starts_with_parts-split,
}
use nixplan.Manifest.Artifact.{Links, landed, artifact}

absolute-without_dots : (cwd p : FilePath) → contains ".." (absolute cwd p).parts ≡ false
unfolding absolute contains
absolute-without_dots cwd p = ground (
  arith,
  contains-reverse_onto ".." (collapse [] (join cwd p).parts) [],
  contains-collapse [] (join cwd p).parts refl,
)

landed-without_dots :
    (links : Links) (root : FilePath) (stated : String)
    → contains ".." (landed links root stated).parts ≡ false
unfolding landed
landed-without_dots links root stated =
    absolute-without_dots links.cwd (join (absolute links.cwd root) (path stated))

accepted :
    (c : Bool) {p q : FilePath} (key stated : String) (l : FilePath)
    → (if c then ok p else refuse (outside_build key stated l)) ≡ ok q
    → (c ≡ true) × (p ≡ q)
accepted true key stated l h = (refl, cc)
accepted false key stated l h = (cc, cc)

-- What an artifact that was accepted may rely on: it lands at a path that extends the build's own
-- by parts none of which is `..`, and what is answered is where the links of that path lead.
abbrev pub Inside : Links → FilePath → String → FilePath → Type 0
Inside links root stated found =
    (below : List String) × ((landed links root stated).parts
      ≡ (absolute links.cwd root).parts ++ below)
    × (contains ".." below ≡ false)
    × (links.resolve (join root (path stated)) ≡ found)

-- An artifact that is accepted lands inside the build.
pub artifact-Inside :
    (links : Links) (root : FilePath) (key stated : String) (found : FilePath)
    → artifact links root key stated ≡ ok found
    → Inside links root stated found
unfolding artifact is_relative_to
artifact-Inside links root key stated found h =
    let base = absolute links.cwd root in
    let place = landed links root stated in
    let (inside, same) = accepted (is_relative_to place base) key stated place h in
    let (anchors, starts) =
      and_true (same_anchor place.anchor base.anchor) (starts_with_parts base.parts place.parts)
        inside in
    let (below, split) = starts_with_parts-split base.parts place.parts starts in
    let clean : contains ".." place.parts ≡ false = landed-without_dots links root stated in
    let halves = contains-append ".." base.parts below in
    let whole = ap (contains "..") split in (below, split, ground arith, same)

-- An absolute working directory, as `os.getcwd` has it.
abbrev pub is_absolute : Anchor → Bool
is_absolute relative = false
is_absolute _ = true

join-absolute : (base p : FilePath) (a : Anchor) → is_absolute a ≡ true → join_at base a p ≡ p
join-absolute base p relative h = cc
join-absolute base p slash h = refl
join-absolute base p double_slash h = refl

anchor-absolute :
    (cwd p : FilePath) (a : Anchor)
    → p.anchor ≡ a
    → is_absolute cwd.anchor ≡ true
    → is_absolute (join_at cwd a p).anchor ≡ true
anchor-absolute cwd p relative e h = h
anchor-absolute cwd p slash e h = ap is_absolute e
anchor-absolute cwd p double_slash e h = ap is_absolute e

same_anchor_refl : (a : Anchor) → same_anchor a a ≡ true
same_anchor_refl relative = refl
same_anchor_refl slash = refl
same_anchor_refl double_slash = refl

collapse-clean :
    (parts : List String)
    → contains ".." parts ≡ false
    → reverse_onto (collapse [] parts) [] ≡ parts
collapse-clean parts h =
    ap (λ z. reverse_onto z []) (collapse-reverse_onto [] parts h)
    ∙ reverse_onto_twice parts [] []
    ∙ append-nil parts

abbrev with_parts : FilePath → List String → FilePath
with_parts p parts = record p { parts = parts }

abbrev settled : FilePath → FilePath
settled p = with_parts p (reverse_onto (collapse [] p.parts) [])

-- `os.path.abspath` leaves an absolute path without `..` as it is.
absolute-clean :
    (cwd p : FilePath)
    → is_absolute p.anchor ≡ true
    → contains ".." p.parts ≡ false
    → absolute cwd p ≡ p
unfolding absolute join
absolute-clean cwd p h c =
    ap settled (join-absolute cwd p p.anchor h)
    ∙ ap (λ z. with_parts p z) (collapse-clean p.parts c)

absolute-anchor :
    (cwd p : FilePath) → is_absolute cwd.anchor ≡ true → is_absolute (absolute cwd p).anchor ≡ true
unfolding absolute join
absolute-anchor cwd p h = anchor-absolute cwd p p.anchor refl h

unfoldable below_base : FilePath → FilePath → FilePath
below_base base p = record base { parts = base.parts ++ p.parts }

-- Where a relative path without `..` lands: below the build, unchanged.
landed-below :
    (links : Links) (root : FilePath) (stated : String)
    → is_absolute links.cwd.anchor ≡ true
    → (path stated).anchor ≡ relative
    → contains ".." (path stated).parts ≡ false
    → landed links root stated ≡ below_base (absolute links.cwd root) (path stated)
unfolding landed join below_base
landed-below links root stated w r c =
    let base = absolute links.cwd root in
    let p = path stated in
    let clean : contains ".." (base.parts ++ p.parts) ≡ false =
      contains-append ".." base.parts p.parts ∙ ap₂ ◌||◌ (absolute-without_dots links.cwd root) c in
    ap (λ a. absolute links.cwd (join_at base a p)) r
    ∙ absolute-clean links.cwd (below_base base p) (absolute-anchor links.cwd root w) clean

-- In an absolute working directory, an artifact that is stated as a relative path without a part
-- `..` is accepted, whatever the build's own path is.
pub artifact-ok :
    (links : Links) (root : FilePath) (key stated : String)
    → is_absolute links.cwd.anchor ≡ true
    → (path stated).anchor ≡ relative
    → contains ".." (path stated).parts ≡ false
    → artifact links root key stated ≡ ok (links.resolve (join root (path stated)))
unfolding artifact is_relative_to below_base
artifact-ok links root key stated w r c =
    let base = absolute links.cwd root in
    let here : is_relative_to (landed links root stated) base ≡ true =
      ap (λ p. is_relative_to p base) (landed-below links root stated w r c)
      ∙ ap₂ ◌&&◌ (same_anchor_refl base.anchor)
          (starts_with_parts-append base.parts (path stated).parts) in
    ap
      (λ b.
        if b
        then ok (links.resolve (join root (path stated)))
        else refuse (outside_build key stated (landed links root stated)))
      here
