-- ===== src/Base/Slices.antt =====
-- Go's slices of bytes: sub-slices, `copy` into a slice, and io.ReadFull on a stream.
use Prim.Native.Nat.{ℕ, zero, suc, ◌+◌, ◌≤◌, ◌<◌}
use mathlib.Core.Path.{◌≡◌, refl, ap}
use mathlib.Core.Logic.{◌⊎◌}
use mathlib.Core.List.{List, [], ◌∷◌, ◌++◌}
use mathlib.Core.Option.{Option, none, some}
use native.Mathlib.Omega.{arith}
use usbd.Base.Tests.{ltb, if◌then◌else◌}
use usbd.Base.Lists.{
  length, get_elem?, take, drop, take-append, drop-append, length-take, length-drop,
}
use usbd.Base.Lists.{length-append, take-append-drop}

module _ {ℓ} {A : Type ℓ} where
  -- `xs[lo:lo+n]`
  abbrev pub slice : ℕ → ℕ → List A → List A
  slice lo n xs = take n (drop lo xs)

  -- `copy(dst[at:], src)`: as much of `src` as fits.
  abbrev pub copy_at : ℕ → List A → List A → List A
  copy_at at src [] = []
  copy_at zero [] (d ∷ dst) = d ∷ dst
  copy_at zero (s ∷ src) (d ∷ dst) = s ∷ copy_at zero src dst
  copy_at (suc at) src (d ∷ dst) = d ∷ copy_at at src dst

  -- io.ReadFull of `n` bytes: the bytes and the rest of the stream, or `none` if it ends too soon.
  unfoldable pub read_full : ℕ → List A → Option (List A × List A)
  read_full n strm = if ltb (length strm) n then none else some (take n strm, drop n strm)

module _ {ℓ} {A : Type ℓ} where
  pub length-copy_at : (at : ℕ) (src dst : List A) → length (copy_at at src dst) ≡ length dst
  length-copy_at at src [] = refl
  length-copy_at zero [] (d ∷ dst) = refl
  length-copy_at zero (s ∷ src) (d ∷ dst) = ap suc (length-copy_at zero src dst)
  length-copy_at (suc at) src (d ∷ dst) = ap suc (length-copy_at at src dst)

  pub copy_at-nil : (at : ℕ) (dst : List A) → copy_at at [] dst ≡ dst
  copy_at-nil at [] = refl
  copy_at-nil zero (d ∷ dst) = refl
  copy_at-nil (suc at) (d ∷ dst) = ap (λ t. d ∷ t) (copy_at-nil at dst)

  -- What was copied is read back.
  pub slice-copy_at :
      (at : ℕ) (src dst : List A)
      → at + length src ≤ length dst
      → slice at (length src) (copy_at at src dst) ≡ src
  slice-copy_at zero [] [] h = refl
  slice-copy_at zero (s ∷ src) [] h = absurd (omega arith)
  slice-copy_at (suc at) src [] h = absurd (omega arith)
  slice-copy_at zero [] (d ∷ dst) h = refl
  slice-copy_at zero (s ∷ src) (d ∷ dst) h =
      ap (λ t. s ∷ t) (slice-copy_at zero src dst (omega arith))
  slice-copy_at (suc at) src (d ∷ dst) h = slice-copy_at at src dst (omega arith)

  -- Outside the copied range nothing changes.
  pub get_elem?-copy_at_ne :
      (at : ℕ) (src dst : List A) (i : ℕ)
      → (i < at) ⊎ (at + length src ≤ i)
      → get_elem? (copy_at at src dst) i ≡ get_elem? dst i
  get_elem?-copy_at_ne at src [] i h = refl
  get_elem?-copy_at_ne zero [] (d ∷ dst) i h = refl
  get_elem?-copy_at_ne zero (s ∷ src) (d ∷ dst) zero h = absurd (omega arith)
  get_elem?-copy_at_ne zero (s ∷ src) (d ∷ dst) (suc i) h =
      get_elem?-copy_at_ne zero src dst i (omega arith)
  get_elem?-copy_at_ne (suc at) src (d ∷ dst) zero h = refl
  get_elem?-copy_at_ne (suc at) src (d ∷ dst) (suc i) h =
      get_elem?-copy_at_ne at src dst i (omega arith)

  -- A copy to the end of the first part touches only the second.
  pub copy_at-append :
      (xs src ys : List A) → copy_at (length xs) src (xs ++ ys) ≡ xs ++ copy_at 0 src ys
  copy_at-append [] src ys = refl
  copy_at-append (x ∷ xs) src ys = ap (λ t. x ∷ t) (copy_at-append xs src ys)

  pub copy_at_full : (src dst : List A) → length src ≡ length dst → copy_at 0 src dst ≡ src
  copy_at_full [] [] h = refl
  copy_at_full (s ∷ src) [] h = absurd (omega arith)
  copy_at_full [] (d ∷ dst) h = absurd (omega arith)
  copy_at_full (s ∷ src) (d ∷ dst) h = ap (λ t. s ∷ t) (copy_at_full src dst (omega arith))

  pub length-slice : (lo n : ℕ) (xs : List A) → lo + n ≤ length xs → length (slice lo n xs) ≡ n
  length-slice lo n xs h = omega (arith, length-take n (drop lo xs), length-drop lo xs)

  pub read_full-append :
      (n : ℕ) (xs rest : List A) → length xs ≡ n → read_full n (xs ++ rest) ≡ some (xs, rest)
  unfolding read_full
  read_full-append n xs rest e =
      rw (← e, take-append xs rest, drop-append xs rest) (ground (arith, length-append xs rest))

  pub read_full-eq-some :
      (n : ℕ) (strm : List A) {xs rest : List A}
      → read_full n strm ≡ some (xs, rest)
      → (strm ≡ xs ++ rest) × (length xs ≡ n)
  unfolding read_full
  read_full-eq-some n strm {xs} {rest} h =
      ground (arith, take-append-drop n strm, length-take n strm)
