-- ===== src/Base/Exec.antt =====
-- Methods that change a state and may return an error or panic. What was changed before an error
-- stays changed.
pub mod Post
use mathlib.Core.Bool.{Bool, true, false}
use mathlib.Core.Path.{◌≡◌, refl}
use usbd.Base.Tests.{if◌then◌else◌}
use usbd.Base.Outcome.{Error, Go, ret, panic}
use usbd.Base.Result.{Result, ok, err}

abbrev pub Exec : Type 0 → Type 0 → Type 0
Exec S A = S → Go (Result A × S)

module _ {S A : Type 0} where
  abbrev pub pure : A → Exec S A
  pure a s = ret (ok a, s)

  abbrev pub fail : Error → Exec S A
  fail e s = ret (err e, s)

  abbrev pub crash : Exec S A
  crash s = panic

  abbrev pub gets : (S → A) → Exec S A
  gets f s = ret (ok (f s), s)

  abbrev pub from_result : Result A → Exec S A
  from_result r s = ret (r, s)

abbrev pub modify : {S : Type 0} → (S → S) → Exec S Unit
modify f s = ret (ok tt, f s)

module _ {S A B : Type 0} where
  abbrev pub on_result : Result A → (A → Exec S B) → (Error → Exec S B) → Exec S B
  on_result (ok a) f g = f a
  on_result (err e) f g = g e

  -- Go on with the value, or handle the error.
  abbrev pub catch : Exec S A → (A → Exec S B) → (Error → Exec S B) → Exec S B
  catch m f g s = elim (m s) [ ret (r, s') ↦ on_result r f g s' | panic ↦ panic ]

  infixl 5 ◌>>=◌ ◌>>◌
  abbrev pub ◌>>=◌ : Exec S A → (A → Exec S B) → Exec S B
  m >>= f = catch m f fail

  abbrev pub ◌>>◌ : Exec S A → Exec S B → Exec S B
  m >> n = m >>= λ _. n

-- `if c { return e }`
abbrev pub guard : {S : Type 0} → Bool → Error → Exec S Unit
guard true e = pure tt
guard false e = fail e

module _ {S A : Type 0} where
  pub run-if_true : (b : Bool) (m n : Exec S A) (s : S) → b ≡ true → (if b then m else n) s ≡ m s
  run-if_true true m n s h = refl
  run-if_true false m n s h = absurd (cc)

  pub run-if_false : (b : Bool) (m n : Exec S A) (s : S) → b ≡ false → (if b then m else n) s ≡ n s
  run-if_false true m n s h = absurd (cc)
  run-if_false false m n s h = refl

module _ {S A B : Type 0} where
  pub catch-ok :
      (m : Exec S A) (f : A → Exec S B) (g : Error → Exec S B) (s s' : S) (a : A)
      → m s ≡ ret (ok a, s')
      → catch m f g s ≡ f a s'
  catch-ok m f g s s' a e = rw (e, catch) refl
