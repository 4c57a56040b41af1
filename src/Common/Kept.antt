-- ===== src/Common/Kept.antt =====
-- What a handler keeps of its state, whatever it answers.
use mathlib.Core.Bool.{Bool, true, false}
use mathlib.Core.Logic.{inl, inr}
use mathlib.Core.Option.{Option, none, some}
use mtd_backend.Common.Tests.{if◌then◌else◌}
use mtd_backend.Common.Handlers.{
  HttpError, Result, ok, err, Exec, require, throw_if, continue, ◌>>=◌, Run-cases,
}

module _ {S : Type 0} where
  abbrev pub Keeps : {A : Type 0} → (S → Type 0) → Exec S A → Type 0
  Keeps P m = (s : S) → P s → P (m s).1

module _ {S : Type 0} (P : S → Type 0) where
  pub Keeps-bind :
      {A B : Type 0} (m : Exec S A) (f : A → Exec S B)
      → Keeps P m
      → ((a : A) → Keeps P (f a))
      → Keeps P (m >>= f)
  Keeps-bind m f h k s p = elim (Run-cases (m s)) [
    | inl (a, s', e) ↦ rw e (k a s' (rw e at (h s p)))
    | inr (e', s', e) ↦ rw e (rw e at (h s p))
  ]

  -- The same at one run.
  pub continue-Keeps :
      {A B : Type 0} (r : Result A × S) (f : A → Exec S B)
      → P r.1
      → ((a : A) → Keeps P (f a))
      → P (continue r f).1
  continue-Keeps (ok a, s) f h k = k a s h
  continue-Keeps (err e, s) f h k = h

  pub Keeps-require : {A : Type 0} (o : Option A) (e : HttpError) → Keeps P (require o e)
  Keeps-require none e s h = h
  Keeps-require (some a) e s h = h

  pub Keeps-throw_if : (b : Bool) (e : HttpError) → Keeps P (throw_if b e)
  Keeps-throw_if true e s h = h
  Keeps-throw_if false e s h = h

  pub Keeps-if :
      {A : Type 0} (b : Bool) (m n : Exec S A)
      → Keeps P m
      → Keeps P n
      → Keeps P (if b then m else n)
  Keeps-if true m n h k = h
  Keeps-if false m n h k = k
