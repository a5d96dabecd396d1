-- ===== src/Dedupdisk/Device/Chunks.antt =====
-- Parts of an array that another one was copied into.
use native.Mathlib.Nat.{mul-le-mul_right}
use usbd.Base.{
  ℕ, zero, suc, ◌+◌, ◌-◌, ◌*◌, ◌≤◌, ◌<◌, ◌≡◌, refl, sym, ap, ◌∙◌, ◌⊎◌, inl, inr, List, [], ◌∷◌,
  ◌++◌, arith, length, take, drop, take-nil, drop-drop, slice, copy_at, copy_at-nil,
}

module _ {A : Type 0} where
  pub take_add : (m n : ℕ) (xs : List A) → take (m + n) xs ≡ take m xs ++ take n (drop m xs)
  take_add zero n xs = ap (λ k. take k xs) (omega arith)
  take_add (suc m) n [] = rw (take-nil (suc m + n), take-nil n) refl
  take_add (suc m) n (x ∷ xs) =
      let e : suc m + n ≡ suc (m + n) = omega arith in rw e (ap (λ t. x ∷ t) (take_add m n xs))

  take-copy_at :
      (n : ℕ) (src dst : List A)
      → n ≤ length src
      → length src ≤ length dst
      → take n (copy_at 0 src dst) ≡ take n src
  take-copy_at zero src dst h k = refl
  take-copy_at (suc n) [] dst h k = absurd (omega arith)
  take-copy_at (suc n) (s ∷ src) [] h k = absurd (omega arith)
  take-copy_at (suc n) (s ∷ src) (x ∷ dst) h k =
      ap (λ t. s ∷ t) (take-copy_at n src dst (omega arith) (omega arith))

  drop-copy_at :
      (off k n : ℕ) (src dst : List A)
      → k + n ≤ length src
      → off + length src ≤ length dst
      → slice (off + k) n (copy_at off src dst) ≡ slice k n src
  drop-copy_at zero zero n src dst h fits = take-copy_at n src dst (omega arith) (omega arith)
  drop-copy_at zero (suc k) n [] dst h fits = absurd (omega arith)
  drop-copy_at zero (suc k) n (s ∷ src) [] h fits = absurd (omega arith)
  drop-copy_at zero (suc k) n (s ∷ src) (x ∷ dst) h fits =
      let e : 0 + suc k ≡ suc (0 + k) = omega arith in
      rw e (drop-copy_at zero k n src dst (omega arith) (omega arith))
  drop-copy_at (suc off) k n src [] h fits = absurd (omega arith)
  drop-copy_at (suc off) k n src (x ∷ dst) h fits =
      let e : suc off + k ≡ suc (off + k) = omega arith in
      rw e (drop-copy_at off k n src dst h (omega arith))

  take-copy_at_before :
      (n off : ℕ) (src dst : List A) → n ≤ off → take n (copy_at off src dst) ≡ take n dst
  take-copy_at_before n off src [] h = refl
  take-copy_at_before zero off src (x ∷ dst) h = refl
  take-copy_at_before (suc n) zero src (x ∷ dst) h = absurd (omega arith)
  take-copy_at_before (suc n) (suc off) src (x ∷ dst) h =
      ap (λ t. x ∷ t) (take-copy_at_before n off src dst (omega arith))

  -- Before and behind the copy nothing changes.
  slice-copy_at_before :
      (lo n off : ℕ) (src dst : List A)
      → lo + n ≤ off
      → slice lo n (copy_at off src dst) ≡ slice lo n dst
  slice-copy_at_before zero n off src dst h = take-copy_at_before n off src dst (omega arith)
  slice-copy_at_before (suc lo) n off src [] h = refl
  slice-copy_at_before (suc lo) n zero src (x ∷ dst) h = absurd (omega arith)
  slice-copy_at_before (suc lo) n (suc off) src (x ∷ dst) h =
      slice-copy_at_before lo n off src dst (omega arith)

  drop-copy_at_behind :
      (lo off : ℕ) (src dst : List A)
      → off + length src ≤ lo
      → drop lo (copy_at off src dst) ≡ drop lo dst
  drop-copy_at_behind lo off src [] h = refl
  drop-copy_at_behind lo zero [] (x ∷ dst) h = refl
  drop-copy_at_behind zero zero (s ∷ src) (x ∷ dst) h = absurd (omega arith)
  drop-copy_at_behind (suc lo) zero (s ∷ src) (x ∷ dst) h =
      drop-copy_at_behind lo zero src dst (omega arith)
  drop-copy_at_behind zero (suc off) src (x ∷ dst) h = absurd (omega arith)
  drop-copy_at_behind (suc lo) (suc off) src (x ∷ dst) h =
      drop-copy_at_behind lo off src dst (omega arith)

  pub copy_at_front :
      (src dst : List A)
      → length src ≤ length dst
      → copy_at 0 src dst ≡ src ++ drop (length src) dst
  copy_at_front [] dst h = copy_at-nil 0 dst
  copy_at_front (s ∷ src) [] h = absurd (omega arith)
  copy_at_front (s ∷ src) (x ∷ dst) h = ap (λ t. s ∷ t) (copy_at_front src dst (omega arith))

pub eq-nil : {A : Type 0} (xs : List A) → length xs ≡ 0 → xs ≡ []
eq-nil [] e = refl
eq-nil (x ∷ xs) e = absurd (omega arith)

-- One block, and the blocks behind it.
pub slice-suc :
    {A : Type 0} (bs b k : ℕ) (bytes : List A)
    → slice (b * bs) (suc k * bs) bytes
      ≡ slice (b * bs) bs bytes ++ slice (suc b * bs) (k * bs) bytes
slice-suc bs b k bytes =
    let size : suc k * bs ≡ bs + k * bs = grind arith in
    let place : b * bs + bs ≡ suc b * bs = grind arith in
    ap (λ m. slice (b * bs) m bytes) size
    ∙ take_add bs (k * bs) (drop (b * bs) bytes)
    ∙ ap (λ l. slice (b * bs) bs bytes ++ take (k * bs) l)
        (drop-drop bs (b * bs) bytes ∙ ap (λ m. drop m bytes) place)

-- The blocks of an array of blocks after `n` blocks at block `b` were replaced.
module _ (bs b n : ℕ) (buf bytes : List ℕ) (whole : length buf ≡ n * bs)
    (inside : (b + n) * bs ≤ length bytes) where
  pub block_inside :
      (i : ℕ) → i < n → slice ((b + i) * bs) bs (copy_at (b * bs) buf bytes) ≡ slice (i * bs) bs buf
  block_inside i h =
      let e : (b + i) * bs ≡ b * bs + i * bs = grind arith in
      let fits : suc i * bs ≤ n * bs = grind arith in
      let total : (b + n) * bs ≡ b * bs + n * bs = grind arith in
      let next : suc i * bs ≡ i * bs + bs = grind arith in
      rw e (
        drop-copy_at (b * bs) (i * bs) bs buf bytes (omega (arith, fits, next, whole))
          (omega (arith, total, whole, inside)))

  pub block_outside :
      (c : ℕ)
      → (c < b) ⊎ (b + n ≤ c)
      → slice (c * bs) bs (copy_at (b * bs) buf bytes) ≡ slice (c * bs) bs bytes
  block_outside c (inl h) =
      let next : suc c * bs ≡ c * bs + bs = grind arith in
      let fits : suc c * bs ≤ b * bs = grind arith in
      slice-copy_at_before (c * bs) bs (b * bs) buf bytes (omega arith)
  block_outside c (inr h) =
      let total : (b + n) * bs ≡ b * bs + n * bs = grind arith in
      let fits : (b + n) * bs ≤ c * bs = mul-le-mul_right bs h in
      ap (take bs) (drop-copy_at_behind (c * bs) (b * bs) buf bytes (omega (arith, whole)))

  pub block_within :
      (c : ℕ)
      → b ≤ c
      → c < b + n
      → slice (c * bs) bs (copy_at (b * bs) buf bytes) ≡ slice ((c - b) * bs) bs buf
  block_within c h k =
      let there : b + (c - b) ≡ c = omega arith in
      ap (λ a. slice (a * bs) bs (copy_at (b * bs) buf bytes)) (sym there)
      ∙ block_inside (c - b) (omega arith)

pub later_chunk :
    (bs i : ℕ) (buf : List ℕ) → slice (i * bs) bs (drop bs buf) ≡ slice (suc i * bs) bs buf
later_chunk bs i buf =
    let e : suc i * bs ≡ bs + i * bs = grind arith in
    ap (take bs) (drop-drop (i * bs) bs buf ∙ ap (λ m. drop m buf) (sym e))
