-- ===== src/Manifest/Reader/Errors.antt =====
-- How a read of the manifest ends: with a result, with a `ManifestError`, with another exception,
-- or where the source goes on with a value of another type than its field is declared with.
use winter_service_tmux.Prelude.{ℕ, List, [], ◌∷◌, nat_eq, Text, text_eq}
use winter_service_tmux.Manifest.Toml.{Value}

-- the messages, with what they print
pub data ManifestError : Type 0 where
  not_found : Text → ManifestError
  cannot_read : Text → Text → ManifestError
  malformed_toml : Text → Text → ManifestError
  bad_session_prefix : ManifestError
  missing_name : ℕ → ManifestError
  name_not_text : ℕ → Value → ManifestError
  missing_target : Text → ManifestError
  bad_type : Text → Text → Value → ManifestError
  malformed_target : Text → Text → ManifestError
  target_not_integers : Text → Text → ManifestError
  invalid_log : Text → Text → ManifestError
  invalid_health_type : Text → Text → ManifestError
  missing_health_text : Text → Text → ManifestError
  invalid_scope : Text → Value → ManifestError
  bad_log_setting : Text → Value → ManifestError

pub data ReadError : Type 0 where
  manifest_error : ManifestError → ReadError
  -- a TypeError, ValueError or AttributeError that the reader does not catch
  uncaught : ReadError
  -- the field of the manifest that would hold a value of another type
  untyped_field : Text → ReadError

pub data Outcome {ℓ} (A : Type ℓ) : Type ℓ where
  ok : A → Outcome A
  fails : ReadError → Outcome A

infixl 4 ◌>>=◌
unfoldable pub ◌>>=◌ {ℓ κ} : {A : Type ℓ} {B : Type κ} → Outcome A → (A → Outcome B) → Outcome B
ok a >>= k = k a
fails e >>= k = fails e

abbrev pub refuse {ℓ} : {A : Type ℓ} → ManifestError → Outcome A
refuse e = fails (manifest_error e)

-- the first failure, or all results
unfoldable pub each_ok {ℓ κ} :
    {A : Type ℓ} {B : Type κ} → (A → Outcome B) → List A → Outcome (List B)
unfolding ◌>>=◌
each_ok f [] = ok []
each_ok f (a ∷ more) = f a >>= λ b. each_ok f more >>= λ bs. ok (b ∷ bs)
