-- ===== src/Util/Zeros.antt =====
-- IsZeros and ZeroFill of pkg/util/zeros.go. IsZeros looks at the slice as 64-bit words first and
-- at the bytes that are left after; ZeroFill copies a growing zeroed prefix over what follows it.
pub mod Blank
pub mod Fill
use usbd.Base.{
  ℕ, zero, suc, ◌*◌, ◌/◌, ◌%◌, ◌^◌, Bool, true, false, Option, none, some, List, [], ◌∷◌, ltb, ◌==◌,
  if◌then◌else◌, length, take, drop, copy_at, le_value,
}

-- The value of a word is that of its eight bytes in memory, on a little-endian machine.
pub longs_zero : ℕ → List ℕ → Bool
unfolding le_value
longs_zero zero block = true
longs_zero (suc n) block =
    let rest = longs_zero n (drop 8 block) in if le_value (take 8 block) == 0 then rest else false

pub bytes_zero : List ℕ → Bool
bytes_zero [] = true
bytes_zero (char ∷ block) = if char == 0 then bytes_zero block else false

-- `(Len & 0xFFFFFFF8) / 8`: the mask clears the low three bits and all from bit 32 on.
abbrev pub aligned_count : ℕ → ℕ
aligned_count len = len % 2 ^ 32 / 8

unfoldable pub is_zeros : List ℕ → Bool
unfolding longs_zero bytes_zero
is_zeros block =
    let n = aligned_count (length block) in
    if longs_zero n block then bytes_zero (drop (n * 8) block) else false

-- The loop of ZeroFill from index `i` on.
pub fill_loop : ℕ → ℕ → List ℕ → Option (List ℕ)
fill_loop zero i block = none
fill_loop (suc fuel) i block =
    let rest = fill_loop fuel (i * 2) (copy_at i (take i block) block) in
    if ltb i (length block) then rest else some block

-- `i` doubles from 1, so as many rounds as there are bytes are more than enough.
unfoldable pub zero_fill : List ℕ → Option (List ℕ)
unfolding fill_loop
zero_fill [] = some []
zero_fill (b ∷ block) = fill_loop (length (b ∷ block)) 1 (0 ∷ block)
