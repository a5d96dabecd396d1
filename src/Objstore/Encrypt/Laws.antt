-- ===== src/Objstore/Encrypt/Laws.antt =====
-- What the encrypting container relies on: the ciphers, and the headers that it prints.
use usbd.Base.{
  Error, failed, pos, ℕ, ◌^◌, ◌<◌, ◌≡◌, refl, sym, ap, ap₂, ◌∙◌, ◌≢◌, inl, inr, true, none, some,
  List, [], arith, ◌==◌, Bool-cases, length,
}
use usbd.Base.Result.{is_ok, ok_inj, Result, ok, err, need, ◌>>=◌, >>=-eq-ok}
use usbd.Util.Numerals.{hex_encode, format_int, parse_int}
use usbd.Util.Numerals.Inverse.{AreBytes, hex_decode-hex_encode, parse_int-format_int}
use usbd.Objstore.Modes.{
  EncryptMode, plain, unknown_cipher, aes_ctr, aes_cfb, aes_ofb, cipher_name,
  cipher_from_name-cipher_name,
}
use usbd.Objstore.Container.{text, Metadata, text_of, call, call-ok}
use usbd.Objstore.Encrypt.{
  valid_aes_key, algo_header, iv_header, size_header, aes_block_size, aes_key_length, Ciphers,
  decrypter, encrypter, new_reader, new_writer, known, named, cipher_of, size_of,
}

-- A stream that was enciphered is deciphered under the same key and vector; a random block is a block.
pub record IsCiphers {W : Type 0} (lib : Ciphers W) : Type 0 where
  pub ctr_back : (key iv bytes : List ℕ) → lib.ctr key iv (lib.ctr key iv bytes) ≡ bytes
  pub cfb_back :
      (key iv bytes : List ℕ) → lib.cfb_decrypter key iv (lib.cfb_encrypter key iv bytes) ≡ bytes
  pub ofb_back : (key iv bytes : List ℕ) → lib.ofb key iv (lib.ofb key iv bytes) ≡ bytes
  pub random_fits :
      (iv : List ℕ) (w w' : W)
      → lib.random_block w ≡ (ok iv, w')
      → (length iv ≡ aes_block_size) × AreBytes iv

-- A key that is accepted has the length that the cipher asks for.
pub valid_aes_key-length :
    (key : List ℕ) → is_ok (valid_aes_key key) ≡ true → aes_key_length (length key) ≡ true
unfolding valid_aes_key
valid_aes_key-length key h = elim (Bool-cases (aes_key_length (length key))) [
  | inl good ↦ good
  | inr bad ↦ absurd (let h' = rw bad at h in cc)
]

module _ {W : Type 0} (lib : Ciphers W) (ciphers : IsCiphers lib) where
  abbrev Back :
      Result (List ℕ → List ℕ → List ℕ → List ℕ) → (List ℕ → List ℕ → List ℕ → List ℕ) → Type 0
  Back r enc =
      (dec : List ℕ → List ℕ → List ℕ → List ℕ) × (r ≡ ok dec)
      × ((key iv bytes : List ℕ) → dec key iv (enc key iv bytes) ≡ bytes)

  -- The reader's cipher undoes the writer's.
  decrypter-encrypter :
      (mode : EncryptMode) (enc : List ℕ → List ℕ → List ℕ → List ℕ)
      → encrypter lib mode ≡ ok enc
      → Back (decrypter lib mode) enc
  unfolding decrypter encrypter
  decrypter-encrypter plain enc e = absurd (cc)
  decrypter-encrypter unknown_cipher enc e = absurd (cc)
  decrypter-encrypter aes_ctr enc e = rw (← ok_inj e) (lib.ctr, refl, ciphers.ctr_back)
  decrypter-encrypter aes_cfb enc e = rw (← ok_inj e) (lib.cfb_decrypter, refl, ciphers.cfb_back)
  decrypter-encrypter aes_ofb enc e = rw (← ok_inj e) (lib.ofb, refl, ciphers.ofb_back)

  -- What NewWriter has made: a writer for the mode, under a good key and a whole vector.
  abbrev pub Made : EncryptMode → List ℕ → (List ℕ → List ℕ) → List ℕ → Type 0
  Made mode key wtr iv =
      (aes_key_length (length key) ≡ true)
      × (length iv ≡ aes_block_size)
      × AreBytes iv
      × ((enc : List ℕ → List ℕ → List ℕ → List ℕ) × (encrypter lib mode ≡ ok enc)
          × (wtr ≡ enc key iv))

  pub new_writer-Made :
      (mode : EncryptMode) (key : List ℕ) (wtr : List ℕ → List ℕ) (iv : List ℕ) (w w' : W)
      → new_writer lib mode key w ≡ (ok (wtr, iv), w')
      → Made mode key wtr iv
  unfolding new_writer
  new_writer-Made mode key wtr iv w w' h = elim (Bool-cases (aes_key_length (length key))) [
    | inl good ↦
        let then_do : List ℕ → W → Result ((List ℕ → List ℕ) × List ℕ) × W =
          λ iv w'. (encrypter lib mode >>= (λ cipher. ok (cipher key iv, iv)), w') in
        let called : call (lib.random_block w) then_do ≡ (ok (wtr, iv), w') = rw good at h in
        let (got, w1, first, second) = call-ok (lib.random_block w) then_do (wtr, iv) w' called in
        let (enc, found, made) =
          >>=-eq-ok (λ cipher. ok (cipher key got, got)) (encrypter lib mode)
            (ap (λ p. p.0) second) in
        let both : ◌≡◌ {A = (List ℕ → List ℕ) × List ℕ} (enc key got, got) (wtr, iv) =
          ok_inj made in
        let same : got ≡ iv = ap (λ p. p.1) both in
        let fits = ciphers.random_fits got w w1 first in
        (
          good,
          rw same at fits.0,
          rw same at fits.1,
          (enc, found, sym (ap (λ p. p.0) both) ∙ ap (enc key) same),
        )
    | inr bad ↦ absurd (let h' = rw bad at h in cc)
  ]

  pub new_reader-back :
      (mode : EncryptMode) (key : List ℕ) (wtr : List ℕ → List ℕ) (iv bytes : List ℕ)
      → Made mode key wtr iv
      → new_reader lib mode (ok (wtr bytes)) key iv ≡ ok (ok bytes)
  unfolding new_reader
  new_reader-back mode key wtr iv bytes (good, whole, small, (enc, found, same)) =
      let (dec, there, back) = decrypter-encrypter mode enc found in
      let sized : (length iv == aes_block_size) ≡ true = ground arith in
      rw (there, good, sized, same, back key iv bytes) refl

  pub new_reader-broken :
      (mode : EncryptMode) (key iv : List ℕ) (e : Error) (got : List ℕ)
      → new_reader lib mode (err e) key iv ≢ ok (ok got)
  unfolding new_reader
  new_reader-broken mode key iv e got h = ground arith

  encrypter-known :
      (mode : EncryptMode) (enc : List ℕ → List ℕ → List ℕ → List ℕ)
      → encrypter lib mode ≡ ok enc
      → known lib mode ≡ ok mode
  unfolding encrypter
  encrypter-known plain enc e = refl
  encrypter-known unknown_cipher enc e = absurd (cc)
  encrypter-known aes_ctr enc e = refl
  encrypter-known aes_cfb enc e = refl
  encrypter-known aes_ofb enc e = refl

  pub cipher_of-named :
      (md : Metadata) (mode : EncryptMode) (key iv : List ℕ) (wtr : List ℕ → List ℕ)
      → Made mode key wtr iv
      → md algo_header ≡ some (text (cipher_name mode))
      → md iv_header ≡ some (text (hex_encode iv))
      → cipher_of lib md ≡ ok (mode, iv)
  unfolding cipher_of
  cipher_of-named md mode key iv wtr (good, whole, small, (enc, found, same)) a i =
      ap₂ (named lib) a i
      ∙ rw
          (
            cipher_from_name-cipher_name mode,
            encrypter-known mode enc found,
            hex_decode-hex_encode iv small,
          )
          refl

  pub cipher_of-none : (md : Metadata) → md algo_header ≡ none → cipher_of lib md ≡ ok (plain, [])
  unfolding cipher_of
  cipher_of-none md e = ap (λ v. named lib v (md iv_header)) e

  pub size_of-printed :
      (md : Metadata) (n : ℕ)
      → md size_header ≡ some (text (format_int 36 (pos n)))
      → n < 2 ^ 63
      → size_of lib md ≡ ok (pos n)
  unfolding size_of
  size_of-printed md n e lt =
      ap (λ v. text_of v >>= λ digits. need (parse_int 36 digits) failed) e
      ∙ ap (λ o. need o failed) (parse_int-format_int 36 (omega arith) (omega arith) n lt)
