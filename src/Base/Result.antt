-- ===== src/Base/Result.antt =====
-- The results of a function that returns a value and an error: the value is used where the error
-- is nil.

use mathlib.Core.Path.{◌≡◌, refl}
use mathlib.Core.Logic.{◌⊎◌, inl, inr}
use Prim.Native.Nat.{ℕ}
use mathlib.Core.Bool.{Bool, true, false}
use mathlib.Core.Option.{Option, none, some}
use mathlib.Core.List.{List, ◌++◌}
use usbd.Base.Lists.{length}
use usbd.Base.Slices.{read_full, read_full-append}
use usbd.Base.Tests.{if◌then◌else◌}
use usbd.Base.Outcome.{Error}

pub data Result {ℓ} (A : Type ℓ) : Type ℓ where
  err : Error → Result A
  ok : A → Result A

infixl 5 ◌>>◌
module _ {ℓ κ} {A : Type ℓ} {B : Type κ} where
  infixl 5 ◌>>=◌
  abbrev pub ◌>>=◌ : Result A → (A → Result B) → Result B
  err why >>= then_do = err why
  ok value >>= then_do = then_do value

-- Go on if the test holds, or fail with the error.
abbrev pub check : Bool → Error → Result (Unit {0})
check b why = if b then ok tt else err why

abbrev pub ◌>>◌ {ℓ} : {B : Type ℓ} → Result (Unit {0}) → Result B → Result B
test >> rest = elim test [ ok _ ↦ rest | err why ↦ err why ]

-- The value of an option, or the error.
abbrev pub need {ℓ} : {A : Type ℓ} → Option A → Error → Result A
need none e = err e
need (some a) e = ok a

-- A field that stands in front of the rest of the stream is read.
pub need-read_full {ℓ κ} :
    {A : Type ℓ} {B : Type κ} (n : ℕ) (xs rest : List A) (e : Error)
    (f : List A × List A → Result B)
    → length xs ≡ n
    → (need (read_full n (xs ++ rest)) e >>= f) ≡ f (xs, rest)
need-read_full n xs rest e f h = rw (read_full-append n xs rest h)

-- A chain that succeeded did so in both parts.
module _ {ℓ κ} {A : Type ℓ} {B : Type κ} (then_do : A → Result B) where
  pub >>=-eq-ok :
      (first : Result A) {b : B}
      → (first >>= then_do) ≡ ok b
      → (a : A) × (first ≡ ok a) × (then_do a ≡ ok b)
  >>=-eq-ok (err why) h = cc
  >>=-eq-ok (ok a) h = (a, refl, h)

pub need-eq-ok {ℓ} : {A : Type ℓ} (o : Option A) (e : Error) {a : A} → need o e ≡ ok a → o ≡ some a
need-eq-ok none e h = cc
need-eq-ok (some a) e h = cc

pub Result-cases {ℓ} :
    {A : Type ℓ} (r : Result A) → ((a : A) × (r ≡ ok a)) ⊎ ((e : Error) × (r ≡ err e))
Result-cases (ok a) = inl (a, refl)
Result-cases (err e) = inr (e, refl)

pub ok_inj {ℓ} : {A : Type ℓ} {a b : A} → ok a ≡ ok b → a ≡ b
ok_inj e = cc

abbrev pub is_ok {ℓ} : {A : Type ℓ} → Result A → Bool
is_ok (ok a) = true
is_ok (err e) = false

pub check-ok :
    (b : Bool) (e : Error) {A : Type 0} (rest : Result A) (a : A)
    → (check b e >> rest) ≡ ok a
    → (b ≡ true) × (rest ≡ ok a)
check-ok true e rest a h = (refl, h)
check-ok false e rest a h = absurd (cc)

pub >>-eq-ok {ℓ} :
    {A : Type ℓ} (test : Result (Unit {0})) (rest : Result A) {a : A}
    → (test >> rest) ≡ ok a
    → (test ≡ ok tt) × (rest ≡ ok a)
>>-eq-ok (ok tt) rest h = (refl, h)
>>-eq-ok (err e) rest h = absurd (cc)

pub if-eq-ok {ℓ} :
    {A : Type ℓ} (b : Bool) (x y : Result A) {a : A}
    → (if b then x else y) ≡ ok a
    → (x ≡ ok a) ⊎ (y ≡ ok a)
if-eq-ok true x y h = inl h
if-eq-ok false x y h = inr h
