-- ===== src/Objstore/Encrypt/Reliable.antt =====
-- An encrypting container on a store that works.
use usbd.Base.{
  ℤ, ℕ, ◌≡◌, refl, ◌∙◌, ◌≢◌, inl, inr, Bool, true, false, none, some, List, [], if◌then◌else◌,
  Bool-cases, length,
}
use usbd.Base.Result.{ok}
use usbd.Util.Numerals.{hex_encode}
use usbd.Objstore.Modes.{
  EncryptMode, plain, unknown_cipher, aes_ctr, aes_cfb, aes_ofb, is_plain, cipher_name,
}
use usbd.Objstore.Container.{text, Metadata, Container, IsContainer, IsReliable, TaggedUpTo}
use usbd.Objstore.Encrypt.{
  algo_header, iv_header, aes_key_length, Ciphers, encrypter, new_reader, new_writer, headers,
  cipher_of, encrypted_put, open_as, encrypted_open, new_encrypted_container,
}
use usbd.Objstore.Encrypt.Laws.{IsCiphers, new_reader-back, cipher_of-named, cipher_of-none}
use usbd.Objstore.Encrypt.Stored.{own_keys, CipheredHas, whole, ciphered}

module _ {W : Type 0} (lib : Ciphers W) where
  encrypter_known :
      (mode : EncryptMode)
      → mode ≢ unknown_cipher
      → is_plain mode ≡ false
      → (enc : List ℕ → List ℕ → List ℕ → List ℕ) × (encrypter lib mode ≡ ok enc)
  unfolding encrypter
  encrypter_known plain known p = absurd (cc)
  encrypter_known unknown_cipher known p = absurd (known refl)
  encrypter_known aes_ctr known p = (lib.ctr, refl)
  encrypter_known aes_cfb known p = (lib.cfb_encrypter, refl)
  encrypter_known aes_ofb known p = (lib.ofb, refl)

module _ {W Item : Type 0} (lib : Ciphers W) (ciphers : IsCiphers lib)
    (entropy : (w : W) → (iv : List ℕ) × (w' : W) × (lib.random_block w ≡ (ok iv, w')))
    (c : Container W Item) (own : List ℕ → Bool) (Has : Item → List ℕ → Type 0)
    (Sized : Item → ℕ → Type 0) (Tagged : Item → Metadata → Type 0)
    (below : IsContainer c own Has Sized Tagged) (works : IsReliable c Has Tagged)
    (free_algo : own algo_header ≡ false) (free_iv : own iv_header ≡ false) (mode : EncryptMode)
    (key : List ℕ) where
  new_writer-made :
      (w : W)
      → mode ≢ unknown_cipher
      → is_plain mode ≡ false
      → aes_key_length (length key) ≡ true
      → (made : (List ℕ → List ℕ) × List ℕ) × (w' : W) × (new_writer lib mode key w ≡ (ok made, w'))
  unfolding new_writer
  new_writer-made w known p good =
      let (iv, w', r) = entropy w in
      let (enc, e) = encrypter_known lib mode known p in
      ((enc key iv, iv), w', rw (good, r, e) refl)

  puts :
      (name bytes : List ℕ) (size : ℤ) (md : Metadata) (w : W)
      → mode ≢ unknown_cipher
      → aes_key_length (length key) ≡ true
      → (item : Item) × (w' : W) × (encrypted_put lib c mode key name (ok bytes) size md w
          ≡ (ok item, w'))
  unfolding encrypted_put
  puts name bytes size md w known good = elim (Bool-cases (is_plain mode)) [
    | inl i ↦ rw i (works.puts name bytes size md w)
    | inr p ↦
        let (made, w1, writer) = new_writer-made w known p good in
        let (item, w', stored) =
          works.puts name (made.0 bytes) c.size_unknown (headers lib mode made.1 size md) w1 in
        (item, w', rw (p, writer) stored)
  ]

  tells :
      (item : Item) (md : Metadata) (w : W)
      → TaggedUpTo (own_keys own) Tagged item md
      → (md' : Metadata) × (w' : W) × (c.metadata item w ≡ (ok md', w'))
  tells item md w (inner, tagged, same) = works.tells item inner w tagged

  open_stored :
      (item : Item) (md : Metadata) (m : EncryptMode) (iv : List ℕ) (w w1 : W) (strm : List ℕ)
      → c.metadata item w ≡ (ok md, w1)
      → cipher_of lib md ≡ ok (m, iv)
      → Has item strm
      → (w2 : W) × (encrypted_open lib c key item w
          ≡ (if is_plain m then (ok (ok strm), w2) else (new_reader lib m (ok strm) key iv, w2)))
  unfolding encrypted_open open_as
  open_stored item md m iv w w1 strm e k has =
      let (w2, o) = works.opens item strm w1 has in (w2, rw (e, k, o) refl)

  opens :
      (item : Item) (bytes : List ℕ) (w : W)
      → CipheredHas Has Tagged lib ciphers key item bytes
      → (w' : W) × (encrypted_open lib c key item w ≡ (ok (ok bytes), w'))
  opens item bytes w (whole md tagged none_there has) =
      let (got, w1, m) = works.tells item md w tagged in
      let e : got algo_header ≡ none =
        below.metadata_kept item md got algo_header w w1 tagged m free_algo ∙ none_there in
      open_stored item got plain [] w w1 bytes m (cipher_of-none lib ciphers got e) has
  opens item bytes w (ciphered md m wtr iv tagged algo vector packs made has) =
      let (got, w1, t) = works.tells item md w tagged in
      let e : got algo_header ≡ some (text (cipher_name m)) =
        below.metadata_kept item md got algo_header w w1 tagged t free_algo ∙ algo in
      let v : got iv_header ≡ some (text (hex_encode iv)) =
        below.metadata_kept item md got iv_header w w1 tagged t free_iv ∙ vector in
      let (w2, r) =
        open_stored item got m iv w w1 (wtr bytes) t
          (cipher_of-named lib ciphers got m key iv wtr made e v) has in
      (w2, r ∙ rw (packs, new_reader-back lib ciphers m key wtr iv bytes made) refl)

  -- On a store that works, with a known mode, a key of an AES length and enough entropy, an
  -- encrypting container works as well.
  pub encrypted-IsReliable :
      mode ≢ unknown_cipher
      → aes_key_length (length key) ≡ true
      → IsReliable
          (new_encrypted_container lib c mode key)
          (CipheredHas Has Tagged lib ciphers key)
          (TaggedUpTo (own_keys own) Tagged)
  unfolding new_encrypted_container
  encrypted-IsReliable known good = record {
    puts = λ name bytes size md w. puts name bytes size md w known good;
    tells = tells;
    opens = opens;
  }
