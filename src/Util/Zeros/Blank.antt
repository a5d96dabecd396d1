-- ===== src/Util/Zeros/Blank.antt =====
-- IsZeros decides whether a slice holds only zeros, and ZeroFill makes it so.
use usbd.Base.{
  ℕ, zero, suc, ◌+◌, ◌*◌, ◌≡◌, refl, sym, ap, ◌∙◌, ◌↔◌, true, false, List, [], ◌∷◌, ◌++◌, arith,
  ◌==◌, if◌then◌else◌, length, take, drop, replicate, take-append-drop, drop-drop, le_value,
}
use usbd.Util.Zeros.{longs_zero, bytes_zero, aligned_count, is_zeros}

-- A slice of zeros, of its own length.
abbrev pub IsBlank : List ℕ → Type 0
IsBlank block = block ≡ replicate (length block) 0

bytes_zero-le_value : (block : List ℕ) → (le_value block == 0) ≡ bytes_zero block
unfolding bytes_zero le_value
bytes_zero-le_value [] = refl
bytes_zero-le_value (b ∷ block) = ground (arith, bytes_zero-le_value block)

bytes_zero-append :
    (xs ys : List ℕ) → bytes_zero (xs ++ ys) ≡ (if bytes_zero xs then bytes_zero ys else false)
unfolding bytes_zero
bytes_zero-append [] ys = refl
bytes_zero-append (x ∷ xs) ys = ground (arith, bytes_zero-append xs ys)

bytes_zero-take :
    (n : ℕ) (block : List ℕ)
    → bytes_zero block ≡ (if bytes_zero (take n block) then bytes_zero (drop n block) else false)
bytes_zero-take n block =
    ap bytes_zero (sym (take-append-drop n block)) ∙ bytes_zero-append (take n block) (drop n block)

longs_zero_lem :
    (n : ℕ) (block : List ℕ)
    → bytes_zero block ≡ (if longs_zero n block then bytes_zero (drop (n * 8) block) else false)
unfolding longs_zero
longs_zero_lem zero block = refl
longs_zero_lem (suc n) block =
    let e : suc n * 8 ≡ 8 + n * 8 = omega arith in
    ground (
      arith,
      e,
      bytes_zero-take 8 block,
      bytes_zero-le_value (take 8 block),
      longs_zero_lem n (drop 8 block),
      drop-drop (n * 8) 8 block,
    )

-- The loop over words and the loop over the bytes that are left find what one loop over all bytes
-- would, also where the count of words has been cut to 32 bits.
pub is_zeros-eq-bytes_zero : (block : List ℕ) → is_zeros block ≡ bytes_zero block
unfolding is_zeros
is_zeros-eq-bytes_zero block = sym (longs_zero_lem (aligned_count (length block)) block)

bytes_zero→IsBlank : (block : List ℕ) → bytes_zero block ≡ true → IsBlank block
unfolding bytes_zero
bytes_zero→IsBlank [] h = refl
bytes_zero→IsBlank (b ∷ block) h = ground (arith, bytes_zero→IsBlank block)

bytes_zero-replicate : (n : ℕ) → bytes_zero (replicate n 0) ≡ true
unfolding bytes_zero
bytes_zero-replicate zero = refl
bytes_zero-replicate (suc n) = bytes_zero-replicate n

-- IsZeros answers true exactly for the slices that hold only zeros, whatever their length.
pub is_zeros-iff-IsBlank : (block : List ℕ) → (is_zeros block ≡ true) ↔ IsBlank block
is_zeros-iff-IsBlank block = (
  λ h. bytes_zero→IsBlank block (rw is_zeros-eq-bytes_zero at h),
  λ e. rw (is_zeros-eq-bytes_zero, e) (bytes_zero-replicate (length block)),
)
