-- ===== src/Errors.antt =====
-- cli/errors.py: the one refusal the command makes, and the other exceptions of Python that the
-- modelled code can raise. A refusal is a value: one constructor for each `raise`, which carries
-- what the message of that `raise` names.
use nixplan.Paths.{FilePath}
use nixplan.Prelude.Int.{ℤ}
use nixplan.Prelude.{String, ◌≡◌, refl, List, [], ◌∷◌, ◌++◌}

pub data ApplyError : Type 0 where
  -- order.py: consumer and slot; the stuck entries, and each read among them, consumer first
  unrecognised_read : String → String → ApplyError
  unordered : List String → List (String × String) → ApplyError
  -- manifest.py, a file of the build: its path
  unreadable not_text not_json rows_not_list : FilePath → ApplyError
  wrong_version wrong_store no_entries no_realisers no_machines : FilePath → ApplyError
  -- manifest.py, a record: whose it is, and the field
  not_a_record : String → ApplyError
  needs_text needs_names : (of field : String) → ApplyError
  bad_scope bad_profile bad_address bad_path bad_program : (of : String) → ApplyError
  bad_sealed bad_machine_path no_unsealer : (machine : String) → ApplyError
  outside_build : (key stated : String) → (landed : FilePath) → ApplyError
  realiser_without_scope realiser_without_holdings : (name : String) → ApplyError
  unpublished_field : (realiser field : String) → ApplyError
  -- manifest.py, what a step asks of the deployment
  undialled_entry : (key machine : String) → ApplyError
  no_machine_record machine_undialled no_recipient unlisted_machine :
      (machine of : String) → ApplyError
  unpublished_realiser : (key realiser : String) → ApplyError
  scope_not_realised : (key scope : String) → ApplyError
  no_artifact : (key : String) → ApplyError
  not_declared : (key file : String) → ApplyError
  -- manifest.py, a target: what was named, and what it built
  collected not_deployment built_nothing : (target : String) → ApplyError
  not_built : (target said : String) → ApplyError
  built_other : (target : String) → (root : FilePath) → ApplyError
  -- values.py: a value, a file of it, a place in the source
  unsealable : List String → ApplyError
  no_source undelivered_file : (value file : String) → ApplyError
  source_not_directory : FilePath → ApplyError
  generated_file : (relative value : String) → ApplyError
  undeclared_files : List String → ApplyError
  unreadable_value : (value file : String) → ApplyError
  cannot_seal sealed_nothing : (program recipient : String) → ApplyError
  seal_refused : (program recipient : String) → (status : ℤ) → (said : String) → ApplyError
  -- apply.py and report.py: the key that `--only` names, and the diagnostics
  unknown_key : String → ApplyError
  not_applicable : FilePath → ApplyError
  no_rollback not_activated unaskable : (key realiser : String) → ApplyError
  not_asked : (machine : String) → (status : ℤ) → (said : String) → ApplyError
  endpoint_not_json endpoint_not_list : (key said : String) → ApplyError
  endpoint_not_entry : (key : String) → ApplyError
  -- enrollment.py: the build, or the key that its coordination record names
  no_statement : FilePath → ApplyError
  no_such_entry no_such_value no_minting_program no_file_to_mint : (key : String) → ApplyError
  minted_otherwise : (key : String) → (wrote named : List String) → ApplyError
  is_a_machine : (identifier : String) → ApplyError
  -- diagnose.py: a target, and what it said
  not_evaluated : (target said : String) → ApplyError
  answer_not_json answer_not_record publishes_neither not_a_table not_a_row :
      (target : String) → ApplyError
  -- remote.py: a machine and what it answered
  unreadable_holdings no_json_status no_entry_list : (machine said : String) → ApplyError
  realiser_failed : (machine realiser : String) → (status : ℤ) → (said : String) → ApplyError
  unfit_machine : (machine : String) → List String → ApplyError
  malformed_bytes : (file : String) → ApplyError

pub data Exception : Type 0 where
  refused : ApplyError → Exception
  -- `d[k]` without `k`, `pop` of an empty list, and quotes that are not closed
  key_error : String → Exception
  index_error : Exception
  value_error : String → Exception
  -- `OSError`, of a write to the file system
  failed_write : FilePath → Exception

-- What a call comes to: the exception that it raises, or what it returns.
pub data Result {ℓ} (R : Type ℓ) : Type ℓ where
  raises : Exception → Result R
  ok : R → Result R

abbrev pub refuse {ℓ} : {A : Type ℓ} → ApplyError → Result A
refuse e = raises (refused e)

module _ {ℓ κ} {R : Type ℓ} {T : Type κ} where
  -- One statement after another: an exception ends the block.
  infixl 5 ◌>>=◌
  abbrev pub ◌>>=◌ : Result R → (R → Result T) → Result T
  raises exception >>= next = raises exception
  ok returned >>= next = next returned

  -- A block that returns went through its first statement and through what follows it.
  pub >>=-ok :
      (first : Result R) (next : R → Result T) {t : T}
      → (first >>= next) ≡ ok t
      → (r : R) × (first ≡ ok r) × (next r ≡ ok t)
  >>=-ok (raises exception) next through = cc
  >>=-ok (ok returned) next through = (returned, refl, through)

infixl 5 ◌>>◌
abbrev pub ◌>>◌ {κ} : {T : Type κ} → Result (Unit {0}) → Result T → Result T
guard >> block = guard >>= (λ done. block)

-- `[f(x) for x in xs]`, where `f` may raise.
unfoldable pub traverse {ℓ κ} :
    {A : Type ℓ} {B : Type κ} → (A → Result B) → List A → Result (List B)
traverse f [] = ok []
traverse f (x ∷ xs) = do y ← f x; ys ← traverse f xs; ok (y ∷ ys)

-- `[y for x in xs for y in f(x)]`, where `f` may raise.
unfoldable pub traverse_flat {ℓ κ} :
    {A : Type ℓ} {B : Type κ} → (A → Result (List B)) → List A → Result (List B)
traverse_flat f [] = ok []
traverse_flat f (x ∷ xs) = do ys ← f x; rest ← traverse_flat f xs; ok (ys ++ rest)

pub traverse-cons {ℓ κ} :
    {A : Type ℓ} {B : Type κ} (f : A → Result B) (x : A) (xs : List A) {ys : List B}
    → traverse f (x ∷ xs) ≡ ok ys
    → (y : B) × (rest : List B) × (f x ≡ ok y) × (traverse f xs ≡ ok rest) × (y ∷ rest ≡ ys)
unfolding traverse
traverse-cons f x xs h =
    let (y, first, h1) = >>=-ok (f x) _ h in
    let (rest, tail, h2) = >>=-ok (traverse f xs) _ h1 in (y, rest, first, tail, cc)

pub traverse-nil {ℓ κ} :
    {A : Type ℓ} {B : Type κ} (f : A → Result B) {ys : List B} → traverse f [] ≡ ok ys → [] ≡ ys
unfolding traverse
traverse-nil f h = cc

pub ok-injective {ℓ} : {A : Type ℓ} {a b : A} → ok a ≡ ok b → a ≡ b
ok-injective h = cc
