-- ===== src/Base/Files.antt =====
-- A file of the operating system as the bytes that it holds: writes past the end leave a hole that
-- reads as zeros.
use Prim.Native.Nat.{ℕ, zero, suc, ◌-◌, ◌≤◌, ◌+◌}
use mathlib.Core.Path.{◌≡◌, refl, ap, ◌∙◌}
use mathlib.Core.List.{List, [], ◌∷◌, ◌++◌, append-nil}
use native.Mathlib.Omega.{arith}
use usbd.Base.Lists.{length, drop, replicate, drop-nil, take-append}
use usbd.Base.Slices.{slice}

unfoldable pub file_write : ℕ → List ℕ → List ℕ → List ℕ
file_write zero bytes file = bytes ++ drop (length bytes) file
file_write (suc off) bytes [] = 0 ∷ file_write off bytes []
file_write (suc off) bytes (x ∷ file) = x ∷ file_write off bytes file

-- `file` with zeros up to the offset.
abbrev pub padded : ℕ → List ℕ → List ℕ
padded off file = file ++ replicate (off - length file) 0

-- At or behind the end, a write appends.
pub file_write-append :
    (off : ℕ) (bytes file : List ℕ)
    → length file ≤ off
    → file_write off bytes file ≡ padded off file ++ bytes
unfolding file_write
file_write-append zero bytes [] h = rw (drop-nil (length bytes)) (append-nil bytes)
file_write-append zero bytes (x ∷ file) h = absurd (omega arith)
file_write-append (suc off) bytes [] h =
    ap (λ t. 0 ∷ t) (file_write-append off bytes [] (omega arith))
    ∙ (let e : suc off - 0 ≡ suc (off - 0) = omega arith in rw e)
file_write-append (suc off) bytes (x ∷ file) h =
    ap (λ t. x ∷ t) (file_write-append off bytes file (omega arith))
    ∙ (let e : suc off - suc (length file) ≡ off - length file = omega arith in rw e)

-- What was written is read back, and what stands before it stays.
pub slice-file_write :
    (off : ℕ) (bytes file : List ℕ) → slice off (length bytes) (file_write off bytes file) ≡ bytes
unfolding file_write
slice-file_write zero bytes file = take-append bytes (drop (length bytes) file)
slice-file_write (suc off) bytes [] = slice-file_write off bytes []
slice-file_write (suc off) bytes (x ∷ file) = slice-file_write off bytes file

pub slice-file_write_before :
    (at n off : ℕ) (bytes file : List ℕ)
    → at + n ≤ off
    → at + n ≤ length file
    → slice at n (file_write off bytes file) ≡ slice at n file
unfolding file_write
slice-file_write_before zero zero off bytes file h k = refl
slice-file_write_before zero (suc n) zero bytes file h k = absurd (omega arith)
slice-file_write_before zero (suc n) (suc off) bytes [] h k = absurd (omega arith)
slice-file_write_before zero (suc n) (suc off) bytes (x ∷ file) h k =
    ap (λ t. x ∷ t) (slice-file_write_before zero n off bytes file (omega arith) (omega arith))
slice-file_write_before (suc at) n zero bytes file h k = absurd (omega arith)
slice-file_write_before (suc at) n (suc off) bytes [] h k = absurd (omega arith)
slice-file_write_before (suc at) n (suc off) bytes (x ∷ file) h k =
    slice-file_write_before at n off bytes file (omega arith) (omega arith)
