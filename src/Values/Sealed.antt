-- ===== src/Values/Sealed.antt =====
-- cli/values.py: `sealed`, of what the sealing program comes back with.
use nixplan.Prelude.{ℕ, String, List, [], ◌∷◌}
use nixplan.Prelude.Int.{ℤ}
use nixplan.Text.Words.{strip}
use nixplan.Errors.{Result, ok, refuse, cannot_seal, seal_refused, sealed_nothing}

-- A program that cannot be run, one that refused, and one that printed.
pub data Ran : Type 0 where
  broke : Ran
  refused : (status : ℤ) → (stderr : String) → Ran
  printed : List ℕ → Ran

unfoldable pub sealed : String → String → Ran → Result (List ℕ)
unfolding strip
sealed program recipient broke = refuse (cannot_seal program recipient)
sealed program recipient (refused status stderr) =
    refuse (seal_refused program recipient status (strip stderr))
sealed program recipient (printed []) = refuse (sealed_nothing program recipient)
sealed program recipient (printed (b ∷ bs)) = ok (b ∷ bs)
