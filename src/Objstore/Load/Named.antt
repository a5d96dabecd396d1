-- ===== src/Objstore/Load/Named.antt =====
-- The number of a segment is read back from the name of its object.
use usbd.Base.{
  pos, ltb_ℤ, ℕ, zero, suc, ◌-◌, ◌/◌, ◌%◌, ◌^◌, ◌≤◌, ◌<◌, ◌≡◌, refl, ap, ◌∙◌, false, some, List, [],
  ◌∷◌, ◌++◌, arith, ◌==◌, if_case, length, take, take_of_le, take-append_of_eq, drop-append_of_eq,
}
use usbd.Util.Numerals.{digit, emit, format_int, parse_int}
use usbd.Util.Numerals.Inverse.{text_equal_refl, parse_int-format_int}
use usbd.Objstore.Env.{Segment}
use usbd.Objstore.Load.{
  block_prefix, item_name, trim_prefix, ext, trim_ext, load_at, load_item, set_remote,
}

trim_prefix-append : (prefix text : List ℕ) → trim_prefix prefix (prefix ++ text) ≡ text
unfolding trim_prefix
trim_prefix-append prefix text =
    rw
      (
        take-append_of_eq (length prefix) prefix text refl,
        text_equal_refl prefix,
        drop-append_of_eq (length prefix) prefix text refl,
      )
      refl

abbrev NoDots : List ℕ → Type 0
NoDots [] = Unit {0}
NoDots (c ∷ text) = ((c == b'.') ≡ false) × NoDots text

ext-NoDots : (text : List ℕ) → NoDots text → ext text ≡ []
unfolding ext
ext-NoDots [] h = refl
ext-NoDots (c ∷ text) (no_dot, h) = rw (ext-NoDots text h, no_dot) refl

digit_no_dot : (d : ℕ) → d < 10 → (digit d == b'.') ≡ false
digit_no_dot d lt = ground arith

emit-NoDots : (room n : ℕ) (out : List ℕ) → NoDots out → NoDots (emit 10 room n out)
unfolding emit
emit-NoDots zero n out h = h
emit-NoDots (suc room) n out h =
    if_case NoDots (n / 10 == 0) (digit (n % 10) ∷ out)
      (emit 10 room (n / 10) (digit (n % 10) ∷ out)) (λ e. (digit_no_dot (n % 10) (omega arith), h))
      (λ e.
        emit-NoDots room (n / 10) (digit (n % 10) ∷ out) (digit_no_dot (n % 10) (omega arith), h))

trim_ext-format_int : (n : ℕ) → trim_ext (format_int 10 (pos n)) ≡ format_int 10 (pos n)
unfolding format_int
trim_ext-format_int n =
    let text = emit 10 64 n [] in
    ap (λ (e : List ℕ). take (length text - length e) text)
      (ext-NoDots text (emit-NoDots 64 n [] tt))
    ∙ take_of_le (length text - 0) text (omega arith)

pub parse-item_name :
    (name : List ℕ) (id : ℕ)
    → id < 2 ^ 63
    → parse_int 10 (trim_ext (trim_prefix (block_prefix name) (item_name name id))) ≡ some (pos id)
parse-item_name name id small =
    ap (λ t. parse_int 10 (trim_ext t))
      (trim_prefix-append (block_prefix name) (format_int 10 (pos id)))
    ∙ ap (parse_int 10) (trim_ext-format_int id)
    ∙ parse_int-format_int 10 (omega arith) (omega arith) id small

pub load_item-item_name :
    {Item : Type 0} (count : ℕ) (name : List ℕ) (id : ℕ) (item : Item) (segs : List (Segment Item))
    → id ≤ count
    → count < 2 ^ 63
    → load_item count (block_prefix name) (item_name name id, item) segs ≡ set_remote id item segs
unfolding load_item
load_item-item_name count name id item segs inside small =
    let fits : ltb_ℤ (pos count) (pos id) ≡ false = ground arith in
    let positive : ltb_ℤ (pos id) (pos 0) ≡ false = ground arith in
    ap (λ o. load_at count item o segs) (parse-item_name name id (omega arith))
    ∙ rw (positive, fits) refl
