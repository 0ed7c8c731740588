-- ===== src/Remote/Named.antt =====
-- cli/remote.py: the machine that `destination` reads back from an argument vector.
use Prim.Native.Char.{Char, code}
use Prim.Native.String as Text
use text.Mathlib.TextLemmas.{nil-append, cons-append, append-nil as text_append-nil}
use nixplan.Prelude.{
  String, ◌≡◌, refl, ap, ◌∙◌, Option, none, some, List, [], ◌∷◌, ◌++◌, arith, ◌==◌, if◌then◌else◌,
}
use nixplan.Text.Words.{after_prefix, remove_prefix}
use nixplan.Paths.{FilePath}
use nixplan.Remote.{
  account_at, copy_argv, ssh_argv, ssh, remote, next_to_last, or_unnamed, destination,
  ssh_destination, copy_destination, after_option,
}

next_to_last-cons :
    (a x y : String) (xs : List String) → next_to_last (a ∷ (xs ++ x ∷ y ∷ [])) ≡ some x
unfolding next_to_last
next_to_last-cons a x y [] = refl
next_to_last-cons a x y (b ∷ []) = refl
next_to_last-cons a x y (b ∷ c ∷ xs) = next_to_last-cons b x y (c ∷ xs)

ssh_named : (opts : List String) (x y : String) → destination (ssh ∷ (opts ++ x ∷ y ∷ [])) ≡ x
unfolding destination ssh_destination
ssh_named [] x y = refl
ssh_named (b ∷ []) x y = refl
ssh_named (b ∷ c ∷ opts) x y = ap or_unnamed (next_to_last-cons ssh x y (b ∷ c ∷ opts))

same_first :
    (c : Char) {found rest : Option String}
    → found ≡ rest
    → (if code c == code c then found else none) ≡ rest
same_first c e = ground arith

abbrev first_or : String → Option String → String
first_or other none = other
first_or other (some s) = s

pub after_prefix-append : (p s : String) → after_prefix p (Text.◌++◌ p s) ≡ some s
unfolding after_prefix
after_prefix-append String.[] s = ap (after_prefix String.[]) (nil-append s)
after_prefix-append (String.◌∷◌ c p) s =
    ap (after_prefix (String.◌∷◌ c p)) (cons-append c p s) ∙ same_first c (after_prefix-append p s)

remove_prefix-append : (p s : String) → remove_prefix p (Text.◌++◌ p s) ≡ s
unfolding remove_prefix
remove_prefix-append p s = ap (λ o. first_or (Text.◌++◌ p s) o) (after_prefix-append p s)

-- The machine that a refusal names is read back from the argument vector of the step, whichever of
-- the two builders made it: for an `ssh` step whatever the connection options spell, and for a copy.
pub destination-argv :
    (artifact : FilePath) (address script user : String) (opts : List String)
    → (destination (ssh_argv address script opts user) ≡ account_at user address)
      × (destination (copy_argv artifact address user) ≡ account_at user address)
unfolding ssh_argv copy_argv destination copy_destination after_option
destination-argv artifact address script user opts = (
  ssh_named opts (account_at user address) script,
  ap (remove_prefix remote) (ap (Text.◌++◌ remote) (text_append-nil (account_at user address)))
      ∙ remove_prefix-append remote (account_at user address),
)
