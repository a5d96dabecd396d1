-- ===== src/Util/Zeros/Fill.antt =====
-- ZeroFill leaves a slice of zeros of the same length, in as many rounds as it has bytes at most.
use usbd.Base.{
  ℕ, zero, suc, ◌+◌, ◌-◌, ◌*◌, ◌≤◌, ◌<◌, min, ◌≡◌, refl, sym, ap, ◌∙◌, some, List, [], ◌∷◌, ◌++◌,
  append-nil, append_assoc, arith, dec_lt, lt→ltb, le→ltb, length, take, drop, replicate,
  length-append, length-drop, length-replicate, drop_of_le, take-append, replicate-append, copy_at,
  copy_at-append,
}
use usbd.Util.Zeros.{fill_loop, zero_fill}

-- Copying zeros over the front of `tail` leaves zeros and what was not reached.
copy_zeros :
    (n : ℕ) (tail : List ℕ)
    → copy_at 0 (replicate n 0) tail ≡ replicate (min n (length tail)) 0 ++ drop n tail
copy_zeros zero [] = refl
copy_zeros zero (t ∷ tail) = ground arith
copy_zeros (suc n) [] = let e : min (suc n) 0 ≡ 0 = omega arith in rw e refl
copy_zeros (suc n) (t ∷ tail) =
    let e : min (suc n) (suc (length tail)) ≡ suc (min n (length tail)) = omega arith in
    rw e (ap (λ r. 0 ∷ r) (copy_zeros n tail))

-- One round doubles the zeroed prefix, up to the end of the slice.
round_lem :
    (i : ℕ) (tail : List ℕ)
    → copy_at i (take i (replicate i 0 ++ tail)) (replicate i 0 ++ tail)
      ≡ replicate (i + min i (length tail)) 0 ++ drop i tail
round_lem i tail =
    let z : List ℕ = replicate i 0 in
    let e : length z ≡ i = length-replicate i 0 in
    let h : copy_at (length z) (take (length z) (z ++ tail)) (z ++ tail)
        ≡ replicate (i + min i (length tail)) 0 ++ drop i tail =
      rw (take-append z tail, copy_at-append z z tail, copy_zeros i tail)
        (sym (append_assoc z (replicate (min i (length tail)) 0) (drop i tail))
          ∙ ap (λ r. r ++ drop i tail) (replicate-append i (min i (length tail)) 0)) in
    rw e at h

fill_loop-done :
    (fuel i : ℕ) (block : List ℕ) → length block ≤ i → fill_loop (suc fuel) i block ≡ some block
unfolding fill_loop
fill_loop-done fuel i block h = rw (le→ltb i (length block) h)

fill_loop-more :
    (fuel i : ℕ) (block : List ℕ)
    → i < length block
    → fill_loop (suc fuel) i block ≡ fill_loop fuel (i * 2) (copy_at i (take i block) block)
unfolding fill_loop
fill_loop-more fuel i block h = rw (lt→ltb i (length block) h)

length-prefix : (i : ℕ) (tail : List ℕ) → length (replicate i 0 ++ tail) ≡ i + length tail
length-prefix i tail =
    omega (arith, length-append (replicate i 0) tail, length-replicate {A = ℕ} i 0)

fill_loop_lem :
    (fuel i : ℕ) (tail : List ℕ)
    → 0 < i
    → length tail < fuel
    → fill_loop fuel i (replicate i 0 ++ tail) ≡ some (replicate (i + length tail) 0)
fill_loop_lem zero i tail p h = absurd (omega arith)
fill_loop_lem (suc fuel) i [] p h =
    fill_loop-done fuel i (replicate i 0 ++ []) (omega (arith, length-prefix i []))
    ∙ ap some (replicate-append i 0 0)
fill_loop_lem (suc zero) i (t ∷ tail) p h = absurd (omega arith)
fill_loop_lem (suc (suc fuel)) i (t ∷ tail) p h =
    fill_loop-more (suc fuel) i (replicate i 0 ++ t ∷ tail)
      (omega (arith, length-prefix i (t ∷ tail)))
    ∙ rw round_lem (elim (dec_lt (length tail) i) [
      | yes q ↦
          let e : min i (suc (length tail)) ≡ suc (length tail) = omega arith in
          rw (e, drop_of_le i (t ∷ tail) q, append-nil)
            (fill_loop-done fuel (i * 2) (replicate (i + suc (length tail)) 0)
              (omega (arith, length-replicate {A = ℕ} (i + suc (length tail)) 0)))
      | no q ↦
          let e : i + min i (suc (length tail)) ≡ i * 2 = omega arith in
          let d : length (drop i (t ∷ tail)) ≡ suc (length tail) - i = length-drop i (t ∷ tail) in
          let g : i * 2 + length (drop i (t ∷ tail)) ≡ i + suc (length tail) = omega arith in
          rw e (
            fill_loop_lem (suc fuel) (i * 2) (drop i (t ∷ tail)) (omega arith) (omega arith)
            ∙ ap (λ k. some (replicate k 0)) g)
    ])

-- ZeroFill ends, and leaves a slice of zeros of the length that it was given.
pub zero_fill_lem : (block : List ℕ) → zero_fill block ≡ some (replicate (length block) 0)
unfolding zero_fill
zero_fill_lem [] = refl
zero_fill_lem (b ∷ block) =
    let e : 1 + length block ≡ suc (length block) = omega arith in
    fill_loop_lem (suc (length block)) 1 block (omega arith) (omega arith)
    ∙ ap (λ k. some (replicate k 0)) e
