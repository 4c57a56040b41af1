-- ===== src/Common/Handlers.antt =====
-- Handlers that read and write the database and may throw one of NestJS's HTTP exceptions. What
-- was written before a throw stays written, so the state comes back beside the error too.
use Prim.Native.String.{String}
use mathlib.Core.Path.{◌≡◌, refl}
use mathlib.Core.Logic.{◌⊎◌, inl, inr}
use mathlib.Core.Bool.{Bool, true, false}
use mathlib.Core.Option.{Option, none, some}

-- The exceptions of @nestjs/common, with their messages; `internal` is any other error, which is
-- answered by status 500.
pub data HttpError : Type 0 where
  bad_request unauthorized forbidden not_found conflict service_unavailable internal :
      String → HttpError

pub data Result {ℓ} (A : Type ℓ) : Type ℓ where
  ok : A → Result A
  err : HttpError → Result A

abbrev pub Exec {ℓ} : Type ℓ → Type ℓ → Type ℓ
Exec S A = S → Result A × S

module _ {ℓ} {S A : Type ℓ} where
  abbrev pub pure : A → Exec S A
  pure a s = (ok a, s)

  abbrev pub throw : HttpError → Exec S A
  throw e s = (err e, s)

  abbrev pub gets : (S → A) → Exec S A
  gets f s = (ok (f s), s)

  -- A row that must be there.
  abbrev pub require : Option A → HttpError → Exec S A
  require none e s = (err e, s)
  require (some a) e s = (ok a, s)

  abbrev pub lift : Result A → Exec S A
  lift r s = (r, s)

module _ {S : Type 0} where
  abbrev pub modify : (S → S) → Exec S Unit
  modify f s = (ok tt, f s)

  -- `if (bad) throw e`
  abbrev pub throw_if : Bool → HttpError → Exec S Unit
  throw_if true e s = (err e, s)
  throw_if false e s = (ok tt, s)

-- `try { await m } catch { log }`: the error is dropped, and what was written stays.
module _ {S : Type 0} where
  abbrev pub attempt : Exec S Unit → Exec S Unit
  attempt m s = (ok tt, (m s).1)

module _ {ℓ} {S A B : Type ℓ} where
  abbrev pub continue : Result A × S → (A → Exec S B) → Result B × S
  continue (ok a, s) f = f a s
  continue (err e, s) f = (err e, s)

  infixl 10 ◌>>=◌ ◌>>◌
  abbrev pub ◌>>=◌ : Exec S A → (A → Exec S B) → Exec S B
  ◌>>=◌ m f s = continue (m s) f

  abbrev pub ◌>>◌ : Exec S A → Exec S B → Exec S B
  m >> n = m >>= λ _. n

module _ {ℓ} {S A : Type ℓ} where
  pub Run-cases :
      (r : Result A × S)
      → ((a : A) × (s : S) × (r ≡ (ok a, s))) ⊎ ((e : HttpError) × (s : S) × (r ≡ (err e, s)))
  Run-cases (ok a, s) = inl (a, s, refl)
  Run-cases (err e, s) = inr (e, s, refl)
