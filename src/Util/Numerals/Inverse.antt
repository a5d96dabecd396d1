-- ===== src/Util/Numerals/Inverse.antt =====
-- What was printed is read back.
use usbd.Base.{
  pos, ℕ, zero, suc, ◌+◌, ◌*◌, ◌/◌, ◌%◌, ◌^◌, ◌≤◌, ◌<◌, ◌≡◌, refl, sym, ap, ◌∙◌, true, false, some,
  List, [], ◌∷◌, arith, dec_lt, ◌==◌, lt→ltb, ==→eq, if_case,
}
use native.Mathlib.Nat.{pow-suc, pow-zero, mod-lt, mod-add-div', mul-le-mul_right, pow-le-pow_left}
use usbd.Util.Numerals.{
  text_equal, digit, undigit, value_in, hex_encode, hex_decode, emit, format_int, scan, parse_nat,
  parse_positive, parse_int,
}

pub text_equal_refl : (xs : List ℕ) → text_equal xs xs ≡ true
text_equal_refl [] = refl
text_equal_refl (x ∷ xs) = ground (arith, text_equal_refl xs)

pub text_equal→eq : (xs ys : List ℕ) → text_equal xs ys ≡ true → xs ≡ ys
text_equal→eq [] [] h = refl
text_equal→eq [] (y ∷ ys) h = absurd (cc)
text_equal→eq (x ∷ xs) [] h = absurd (cc)
text_equal→eq (x ∷ xs) (y ∷ ys) h = ground (arith, text_equal→eq xs ys)

value_in-digit : (base d : ℕ) → d < base → base ≤ 36 → value_in base (digit d) ≡ some d
unfolding value_in undigit
value_in-digit base d lt le = ground arith

abbrev pub AreBytes : List ℕ → Type 0
AreBytes [] = Unit
AreBytes (b ∷ bs) = (b < 256) × AreBytes bs

pub hex_decode-hex_encode :
    (bytes : List ℕ) → AreBytes bytes → hex_decode (hex_encode bytes) ≡ some bytes
unfolding hex_decode hex_encode
hex_decode-hex_encode [] h = refl
hex_decode-hex_encode (b ∷ bs) (small, h) =
    let again : b / 16 * 16 + b % 16 ≡ b = omega arith in
    rw
      (
        hex_decode,
        value_in-digit 16 (b / 16) (omega arith) (omega arith),
        value_in-digit 16 (b % 16) (omega arith) (omega arith),
        hex_decode-hex_encode bs h,
      )
      (ap (λ c. some (c ∷ bs)) again)

module _ (base : ℕ) (least : 2 ≤ base) (most : base ≤ 36) where
  scan-digit :
      (d n : ℕ) (out : List ℕ)
      → d < base
      → scan base (digit d ∷ out) n ≡ scan base out (n * base + d)
  unfolding scan
  scan-digit d n out lt = rw (scan, value_in-digit base d lt most) refl

  scan_nil : (n : ℕ) → scan base [] n ≡ some n
  unfolding scan
  scan_nil n = refl

  last_digit : (n : ℕ) → n % base < base
  last_digit n = mod-lt n (omega arith)

  div_small : (room n : ℕ) → n < base ^ suc room → n / base < base ^ room
  div_small room n lt = elim (dec_lt (n / base) (base ^ room)) [
    | yes small ↦ small
    | no big ↦
        let more : base ^ room * base ≤ n / base * base = mul-le-mul_right base (omega arith) in
        let power : base ^ suc room ≡ base ^ room * base = pow-suc base room in
        absurd (omega (arith, mod-add-div' n base))
  ]

  one_digit : (n : ℕ) → n / base ≡ 0 → 0 * base + n % base ≡ n
  one_digit n e = ap (λ m. m * base + n % base) (sym e) ∙ omega (arith, mod-add-div' n base)

  -- The digits of a number in front of others read as the number and then the others.
  scan-emit :
      (room n : ℕ) (out : List ℕ)
      → n < base ^ room
      → scan base (emit base room n out) 0 ≡ scan base out n
  unfolding emit
  scan-emit zero n out lt = ap (scan base out) (omega (arith, pow-zero base))
  scan-emit (suc room) n out lt =
      if_case (λ t. scan base t 0 ≡ scan base out n) (n / base == 0) (digit (n % base) ∷ out)
        (emit base room (n / base) (digit (n % base) ∷ out))
        (λ e.
          scan-digit (n % base) 0 out (last_digit n)
          ∙ ap (scan base out) (one_digit n (==→eq (n / base) 0 e)))
        (λ e.
          scan-emit room (n / base) (digit (n % base) ∷ out) (div_small room n lt)
          ∙ scan-digit (n % base) (n / base) out (last_digit n)
          ∙ ap (scan base out) (omega (arith, mod-add-div' n base)))

  abbrev StartsWithDigit : List ℕ → Type 0
  StartsWithDigit text = (d : ℕ) × (rest : List ℕ) × (d < base) × (text ≡ digit d ∷ rest)

  emit-StartsWithDigit :
      (room n d : ℕ) (out : List ℕ) → d < base → StartsWithDigit (emit base room n (digit d ∷ out))
  unfolding emit
  emit-StartsWithDigit zero n d out lt = (d, out, lt, refl)
  emit-StartsWithDigit (suc room) n d out lt =
      if_case StartsWithDigit (n / base == 0) (digit (n % base) ∷ digit d ∷ out)
        (emit base room (n / base) (digit (n % base) ∷ digit d ∷ out))
        (λ e. (n % base, digit d ∷ out, last_digit n, refl))
        (λ e. emit-StartsWithDigit room (n / base) (n % base) (digit d ∷ out) (last_digit n))

  format_int-StartsWithDigit : (n : ℕ) → StartsWithDigit (format_int base (pos n))
  unfolding format_int emit
  format_int-StartsWithDigit n =
      if_case StartsWithDigit (n / base == 0) (digit (n % base) ∷ [])
        (emit base 63 (n / base) (digit (n % base) ∷ [])) (λ e. (n % base, [], last_digit n, refl))
        (λ e. emit-StartsWithDigit 63 (n / base) (n % base) [] (last_digit n))

  parse_int-digit :
      (d n : ℕ) (rest : List ℕ)
      → d < base
      → n < 2 ^ 63
      → scan base (digit d ∷ rest) 0 ≡ some n
      → parse_int base (digit d ∷ rest) ≡ some (pos n)
  unfolding parse_int parse_positive parse_nat
  parse_int-digit d n rest lt fits e =
      let no_minus : (digit d == b'-') ≡ false = ground arith in
      let no_plus : (digit d == b'+') ≡ false = ground arith in
      rw (no_minus, no_plus, parse_positive, parse_nat, e, lt→ltb n (2 ^ 63) fits) refl

  -- Every number that is an int64 is read back from its print.
  pub parse_int-format_int :
      (n : ℕ) → n < 2 ^ 63 → parse_int base (format_int base (pos n)) ≡ some (pos n)
  unfolding format_int
  parse_int-format_int n fits =
      let (d, rest, lt, e) = format_int-StartsWithDigit n in
      let room : 2 ^ 64 ≤ base ^ 64 = pow-le-pow_left least 64 in
      let digits : scan base (emit base 64 n []) 0 ≡ some n =
        scan-emit 64 n [] (omega (arith, fits, room)) ∙ scan_nil n in
      ap (parse_int base) e ∙ parse_int-digit d n rest lt fits (rw (← e) digits)
