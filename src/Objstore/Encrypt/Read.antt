-- ===== src/Objstore/Encrypt/Read.antt =====
-- Size and Open of the items of an encrypting container.
use usbd.Base.{
  ℤ, pos, ℕ, ◌≡◌, sym, ap, ◌∙◌, inl, inr, Bool, false, none, some, List, [], arith, if◌then◌else◌,
}
use usbd.Base.Result.{Result, ok, Result-cases}
use usbd.Util.Numerals.{format_int, hex_encode}
use usbd.Objstore.Modes.{EncryptMode, plain, is_plain, cipher_name}
use usbd.Objstore.Container.{
  Stream, text, Metadata, Container, IsContainer, call, call-ok, TaggedUpTo, stream_value,
  pair_value,
}
use usbd.Objstore.Encrypt.{
  algo_header, iv_header, size_header, Ciphers, new_reader, cipher_of, size_of, encrypted_size,
  open_as, encrypted_open, size_by,
}
use usbd.Objstore.Encrypt.Laws.{
  IsCiphers, Made, new_reader-back, new_reader-broken, cipher_of-named, cipher_of-none,
  size_of-printed,
}
use usbd.Objstore.Encrypt.Stored.{own_keys, CipheredHas, CipheredSized, whole, ciphered}

module _ {W Item : Type 0} (lib : Ciphers W) (ciphers : IsCiphers lib) (c : Container W Item)
    (own : List ℕ → Bool) (Has : Item → List ℕ → Type 0) (Sized : Item → ℕ → Type 0)
    (Tagged : Item → Metadata → Type 0) (below : IsContainer c own Has Sized Tagged)
    (free_algo : own algo_header ≡ false) (free_iv : own iv_header ≡ false)
    (free_size : own size_header ≡ false) (mode : EncryptMode) (key : List ℕ) where
  pub metadata_kept :
      (item : Item) (md md' : Metadata) (k : List ℕ) (w w' : W)
      → TaggedUpTo (own_keys own) Tagged item md
      → c.metadata item w ≡ (ok md', w')
      → own_keys own k ≡ false
      → md' k ≡ md k
  metadata_kept item md md' k w w' (inner, tagged, same) h o =
      below.metadata_kept item inner md' k w w' tagged h (ground (arith, o)) ∙ same k o

  pub size_reads :
      (item : Item) (n : ℕ) (k : ℤ) (w w' : W)
      → CipheredSized Sized Tagged item n
      → encrypted_size lib c item w ≡ (ok k, w')
      → k ≡ pos n
  unfolding encrypted_size
  size_reads item n k w w' (whole md tagged none_there sized) h =
      let (got, w1, first, second) =
        call-ok (c.metadata item w) (λ md1 w1. size_by lib c (md1 algo_header) item md1 w1) k w'
          h in
      let e : got algo_header ≡ none =
        below.metadata_kept item md got algo_header w w1 tagged first free_algo ∙ none_there in
      below.size_reads item n k w1 w' sized (rw e at second)
  size_reads item n k w w' (ciphered md name tagged algo digits small) h =
      let (got, w1, first, second) =
        call-ok (c.metadata item w) (λ md1 w1. size_by lib c (md1 algo_header) item md1 w1) k w'
          h in
      let e : got algo_header ≡ some (text name) =
        below.metadata_kept item md got algo_header w w1 tagged first free_algo ∙ algo in
      let d : got size_header ≡ some (text (format_int 36 (pos n))) =
        below.metadata_kept item md got size_header w w1 tagged first free_size ∙ digits in
      let printed = size_of-printed lib ciphers got n d small in
      let third : ◌≡◌ {A = Result ℤ × W} (size_of lib got, w1) (ok k, w') = rw e at second in
      pair_value (sym third ∙ ap (λ r. (r, w1)) printed)

  opened_plainly :
      (item : Item) (iv bytes got : List ℕ) (w w' : W)
      → Has item bytes
      → open_as lib c plain key iv item w ≡ (ok (ok got), w')
      → got ≡ bytes
  unfolding open_as
  opened_plainly item iv bytes got w w' has h =
      let (strm, w1, first, second) =
        call-ok (c.open_item item w) (λ strm w1. (ok strm, w1)) (ok got) w' h in
      below.open_reads item bytes got w w1 has (first ∙ ap (λ t. (ok t, w1)) (pair_value second))

  opened_ciphered :
      (item : Item) (m : EncryptMode) (wtr : List ℕ → List ℕ) (iv bytes got : List ℕ) (w w' : W)
      → is_plain m ≡ false
      → Made lib ciphers m key wtr iv
      → Has item (wtr bytes)
      → open_as lib c m key iv item w ≡ (ok (ok got), w')
      → got ≡ bytes
  unfolding open_as
  opened_ciphered item m wtr iv bytes got w w' packs made has h =
      let (strm, w1, first, second) =
        call-ok (c.open_item item w)
          (λ strm w1. if is_plain m then (ok strm, w1) else (new_reader lib m strm key iv, w1))
          (ok got) w' h in
      let read : ◌≡◌ {A = Result Stream × W} (new_reader lib m strm key iv, w1) (ok (ok got), w') =
        rw packs at second in
      elim (Result-cases strm) [
        | inl (enc, whole_strm) ↦
            let same : enc ≡ wtr bytes =
              below.open_reads item (wtr bytes) enc w w1 has
                (first ∙ ap (λ t. (ok t, w1)) whole_strm) in
            stream_value (
              sym (ap (λ p. p.0) read)
              ∙ ap (λ t. new_reader lib m t key iv) (whole_strm ∙ ap ok same)
              ∙ new_reader-back lib ciphers m key wtr iv bytes made)
        | inr (why, broken) ↦ absurd (
            new_reader-broken lib ciphers m key iv why got
              (sym (ap (λ t. new_reader lib m t key iv) broken) ∙ ap (λ p. p.0) read))
      ]

  pub open_reads :
      (item : Item) (bytes got : List ℕ) (w w' : W)
      → CipheredHas Has Tagged lib ciphers key item bytes
      → encrypted_open lib c key item w ≡ (ok (ok got), w')
      → got ≡ bytes
  unfolding encrypted_open
  open_reads item bytes got w w' (whole md tagged none_there has) h =
      let (found, w1, first, second) =
        call-ok (c.metadata item w)
          (λ md1 w1. call (cipher_of lib md1, w1) (λ f w2. open_as lib c f.0 key f.1 item w2))
          (ok got) w' h in
      let e : found algo_header ≡ none =
        below.metadata_kept item md found algo_header w w1 tagged first free_algo ∙ none_there in
      opened_plainly item [] bytes got w1 w' has (
        sym (
          ap (λ r. call (r, w1) (λ f w2. open_as lib c f.0 key f.1 item w2))
            (cipher_of-none lib ciphers found e))
        ∙ second)
  open_reads item bytes got w w' (ciphered md m wtr iv tagged algo vector packs made has) h =
      let (found, w1, first, second) =
        call-ok (c.metadata item w)
          (λ md1 w1. call (cipher_of lib md1, w1) (λ f w2. open_as lib c f.0 key f.1 item w2))
          (ok got) w' h in
      let e : found algo_header ≡ some (text (cipher_name m)) =
        below.metadata_kept item md found algo_header w w1 tagged first free_algo ∙ algo in
      let v : found iv_header ≡ some (text (hex_encode iv)) =
        below.metadata_kept item md found iv_header w w1 tagged first free_iv ∙ vector in
      opened_ciphered item m wtr iv bytes got w1 w' packs made has (
        sym (
          ap (λ r. call (r, w1) (λ f w2. open_as lib c f.0 key f.1 item w2))
            (cipher_of-named lib ciphers found m key iv wtr made e v))
        ∙ second)
