-- ===== src/Base/Exec/Post.antt =====
-- What holds after a method, on every way it may end but a panic.
use mathlib.Core.Path.{◌≡◌, refl, subst}
use mathlib.Core.Bool.{Bool, true, false}
use usbd.Base.Tests.{if◌then◌else◌}
use usbd.Base.Outcome.{Error, Go, ret, panic}
use usbd.Base.Result.{Result, ok, err}
use usbd.Base.Exec.{Exec, pure, fail, gets, modify, guard, on_result, catch}

abbrev pub Post : {S A : Type 0} → (Result A → S → Type 0) → Go (Result A × S) → Type 0
Post P panic = Unit {0}
Post P (ret (r, s)) = P r s

pub Post-ret :
    {S A : Type 0} (P : Result A → S → Type 0) (x : Go (Result A × S)) {r : Result A} {s : S}
    → Post P x
    → x ≡ ret (r, s)
    → P r s
Post-ret P x h e = subst (Post P) e h

pub Post-mono :
    {S A : Type 0} (P Q : Result A → S → Type 0)
    → ((r : Result A) (s : S) → P r s → Q r s)
    → (x : Go (Result A × S)) → Post P x
    → Post Q x
Post-mono P Q imp panic h = tt
Post-mono P Q imp (ret (r, s)) h = imp r s h

abbrev pub After :
    {S A B : Type 0}
    → (Result B → S → Type 0)
    → (A → Exec S B)
    → (Error → Exec S B)
    → Result A
    → S
    → Type 0
After P f g (ok a) s = Post P (f a s)
After P f g (err e) s = Post P (g e s)

module _ {S A B : Type 0} (P : Result B → S → Type 0) (f : A → Exec S B)
    (g : Error → Exec S B) where
  after : (r : Result A) (s : S) → After P f g r s → Post P (on_result r f g s)
  after (ok a) s h = h
  after (err e) s h = h

  after_go :
      (x : Go (Result A × S))
      → Post (After P f g) x
      → Post P (elim x [ ret (r, s') ↦ on_result r f g s' | panic ↦ panic ])
  after_go panic h = tt
  after_go (ret (r, s)) h = after r s h

  pub Post-catch : (m : Exec S A) (s : S) → Post (After P f g) (m s) → Post P (catch m f g s)
  Post-catch m s h = after_go (m s) h

pub Post-if :
    {S A : Type 0} (P : Result A → S → Type 0) (b : Bool) (m n : Exec S A) (s : S)
    → (b ≡ true → Post P (m s))
    → (b ≡ false → Post P (n s))
    → Post P ((if b then m else n) s)
Post-if P true m n s hm hn = hm refl
Post-if P false m n s hm hn = hn refl

-- `m` changes the state only as `R` allows.
pub record Changes {S A : Type 0} (R : S → S → Type 0) (m : Exec S A) : Type 0 where
  pub at : (s : S) → Post (λ r s'. R s s') (m s)

module _ {S : Type 0} (R : S → S → Type 0) (R_refl : (s : S) → R s s)
    (R_trans : (s t u : S) → R s t → R t u → R s u) where
  pub Changes-pure : {A : Type 0} (a : A) → Changes R (pure {S = S} a)
  Changes-pure a = record { at = λ s. R_refl s }

  pub Changes-fail : (A : Type 0) (e : Error) → Changes R (fail {S = S} {A = A} e)
  Changes-fail A e = record { at = λ s. R_refl s }

  pub Changes-gets : {A : Type 0} (f : S → A) → Changes R (gets f)
  Changes-gets f = record { at = λ s. R_refl s }

  pub Changes-guard : (b : Bool) (e : Error) → Changes R (guard {S = S} b e)
  Changes-guard true e = record { at = λ s. R_refl s }
  Changes-guard false e = record { at = λ s. R_refl s }

  pub Changes-modify : (f : S → S) → ((s : S) → R s (f s)) → Changes R (modify f)
  Changes-modify f h = record { at = h }

  pub Changes-if :
      {A : Type 0} (b : Bool) (m n : Exec S A)
      → Changes R m
      → Changes R n
      → Changes R (if b then m else n)
  Changes-if true m n hm hn = hm
  Changes-if false m n hm hn = hn

  pub Changes-catch :
      {A B : Type 0} (m : Exec S A) (f : A → Exec S B) (g : Error → Exec S B)
      → Changes R m
      → ((a : A) → Changes R (f a))
      → ((e : Error) → Changes R (g e))
      → Changes R (catch m f g)
  Changes-catch m f g hm hf hg = record {
    at = λ s.
        Post-catch (λ r s'. R s s') f g m s
          (Post-mono (λ r s'. R s s') (After (λ r s'. R s s') f g)
            (λ r s' first. then_rest s s' r first) (m s) (hm.at s));
  }
    where
      then_rest : (s s' : S) (r : Result _) → R s s' → After (λ r s'. R s s') f g r s'
      then_rest s s' (ok a) first =
          Post-mono (λ r t. R s' t) (λ r t. R s t) (λ r t h. R_trans s s' t first h) (f a s')
            ((hf a).at s')
      then_rest s s' (err e) first =
          Post-mono (λ r t. R s' t) (λ r t. R s t) (λ r t h. R_trans s s' t first h) (g e s')
            ((hg e).at s')
