-- ===== src/Base/Exec.antt =====
-- Methods that read and write the shared state and may raise: what was written before a raise
-- stays written, so that the state comes back beside the error too.
use mathlib.Core.Bool.{Bool}
use maubot.Base.Tests.{⊤, if◌then◌else◌}
use Prim.Native.String.{String}

-- The exceptions that the code tells apart.
pub data Exc : Type 0 where
  -- mautrix.errors
  invalid_token request_error connection_error : Exc
  -- ValueError of `update_access_details`, with the text behind "MXID mismatch: " and the like
  mxid_mismatch device_id_mismatch : String → Exc
  -- KeyError, RuntimeError, FileNotFoundError
  key_error runtime_error file_not_found : Exc
  -- MaubotZipMetaError, MaubotZipPreLoadError, MaubotZipLoadError, IDConflictError
  zip_meta zip_preload zip_load id_conflict : Exc
  -- any other subclass of Exception
  other_error : Exc

pub data Result {ℓ} (A : Type ℓ) : Type ℓ where
  ok : A → Result A
  err : Exc → Result A

abbrev pub Exec {ℓ} : Type ℓ → Type ℓ → Type ℓ
Exec S A = S → Result A × S

module _ {ℓ} {S A : Type ℓ} where
  abbrev pub pure : A → Exec S A
  pure a s = (ok a, s)

  abbrev pub raise : Exc → Exec S A
  raise e s = (err e, s)

  abbrev pub gets : (S → A) → Exec S A
  gets f s = (ok (f s), s)

  -- `try`: the outcome as a value, for the `except` clauses to match on.
  abbrev pub attempt : Exec S A → Exec S (Result A)
  attempt m s = let (r, s') = m s in (ok r, s')

  -- re-raises what `attempt` has caught
  abbrev pub reraise : Result A → Exec S A
  reraise r s = (r, s)

module _ {ℓ} {S A B : Type ℓ} where
  -- The rest of a method, behind an outcome.
  abbrev pub continue : Result A → (A → Exec S B) → Exec S B
  continue (ok a) f s = f a s
  continue (err e) f s = (err e, s)

  infixl 5 ◌>>=◌
  abbrev pub ◌>>=◌ : Exec S A → (A → Exec S B) → Exec S B
  ◌>>=◌ m f s = let (r, s') = m s in continue r f s'

module _ {S : Type 0} where
  infixl 5 ◌>>◌
  abbrev pub ◌>>◌ : {B : Type 0} → Exec S ⊤ → Exec S B → Exec S B
  m >> k = m >>= λ _. k

  abbrev pub modify : (S → S) → Exec S ⊤
  modify f s = (ok tt, f s)

  abbrev pub skip : Exec S ⊤
  skip s = (ok tt, s)

  abbrev pub when : Bool → Exec S ⊤ → Exec S ⊤
  when b m s = if b then m s else (ok tt, s)
