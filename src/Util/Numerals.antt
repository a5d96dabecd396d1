-- ===== src/Util/Numerals.antt =====
-- Go's strings as lists of bytes, and what the program uses of strconv and encoding/hex:
-- FormatInt and ParseInt in bases up to 36, EncodeToString and DecodeString.
pub mod Inverse
use usbd.Base.{
  ℤ, pos, negsuc, neg_ℕ, ℕ, zero, suc, ◌+◌, ◌-◌, ◌*◌, ◌/◌, ◌%◌, ◌^◌, Bool, true, false, ◌&&◌,
  Option, none, some, List, [], ◌∷◌, ltb, leb, ◌==◌, if◌then◌else◌,
}
use Prim.Native.Char.{code}
use Prim.Native.String.{String}

-- The bytes of an ASCII text.
abbrev pub codes : String → List ℕ
codes String.[] = []
codes (String.◌∷◌ c s) = code c ∷ codes s

abbrev pub text_equal : List ℕ → List ℕ → Bool
text_equal [] [] = true
text_equal [] (y ∷ ys) = false
text_equal (x ∷ xs) [] = false
text_equal (x ∷ xs) (y ∷ ys) = x == y && text_equal xs ys

abbrev pub digit : ℕ → ℕ
digit d = if ltb d 10 then b'0' + d else b'a' + (d - 10)

-- The value of a digit or of a letter.
unfoldable pub undigit : ℕ → Option ℕ
undigit c =
    if leb b'0' c && leb c b'9'
    then some (c - b'0')
    else if leb b'a' c && leb c b'z'
    then some (c - b'a' + 10)
    else if leb b'A' c && leb c b'Z'
    then some (c - b'A' + 10)
    else none

-- A digit of the base.
unfoldable pub value_in : ℕ → ℕ → Option ℕ
unfolding undigit
value_in base c = elim (undigit c) [ none ↦ none | some d ↦ if ltb d base then some d else none ]

unfoldable pub hex_encode : List ℕ → List ℕ
hex_encode [] = []
hex_encode (b ∷ bs) = digit (b / 16) ∷ digit (b % 16) ∷ hex_encode bs

unfoldable pub hex_decode : List ℕ → Option (List ℕ)
unfolding value_in
hex_decode [] = some []
hex_decode (a ∷ []) = none
hex_decode (a ∷ b ∷ text) =
    let rest = hex_decode text in
    elim (value_in 16 a) [
      | none ↦ none
      | some hi ↦ elim (value_in 16 b) [
        | none ↦ none
        | some lo ↦ elim rest [ none ↦ none | some bytes ↦ some ((hi * 16 + lo) ∷ bytes) ]
      ]
    ]

-- The digits of a number in front of those that are there. FormatInt has room for 64.
unfoldable pub emit : ℕ → ℕ → ℕ → List ℕ → List ℕ
emit base zero n out = out
emit base (suc room) n out =
    let longer = emit base room (n / base) (digit (n % base) ∷ out) in
    if n / base == 0 then digit (n % base) ∷ out else longer

unfoldable pub format_int : ℕ → ℤ → List ℕ
unfolding emit
format_int base (pos n) = emit base 64 n []
format_int base (negsuc n) = b'-' ∷ emit base 64 (n + 1) []

unfoldable pub scan : ℕ → List ℕ → ℕ → Option ℕ
unfolding value_in
scan base [] n = some n
scan base (c ∷ text) n = elim (value_in base c) [
  | none ↦ none
  | some d ↦ scan base text (n * base + d)
]

-- ParseInt of 64 bits, past the sign.
unfoldable pub parse_nat : ℕ → List ℕ → Option ℕ
unfolding scan
parse_nat base [] = none
parse_nat base (c ∷ text) = scan base (c ∷ text) 0

unfoldable pub parse_negative : ℕ → List ℕ → Option ℤ
unfolding parse_nat
parse_negative base text = elim (parse_nat base text) [
  | none ↦ none
  | some n ↦ if leb n (2 ^ 63) then some (neg_ℕ n) else none
]

unfoldable pub parse_positive : ℕ → List ℕ → Option ℤ
unfolding parse_nat
parse_positive base text = elim (parse_nat base text) [
  | none ↦ none
  | some n ↦ if ltb n (2 ^ 63) then some (pos n) else none
]

unfoldable pub parse_int : ℕ → List ℕ → Option ℤ
unfolding parse_positive parse_negative
parse_int base [] = none
parse_int base (c ∷ text) =
    if c == b'-'
    then parse_negative base text
    else if c == b'+'
    then parse_positive base text
    else parse_positive base (c ∷ text)
