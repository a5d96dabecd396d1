-- ===== src/Objstore/Encrypt/Put.antt =====
-- Put of an encrypting container.
use usbd.Base.{
  Error, ℤ, pos, ℕ, ◌^◌, ◌<◌, ◌≡◌, refl, sym, ◌∙◌, ◌≢◌, ◌⊎◌, inl, inr, Bool, true, false, none,
  List, arith, Bool-cases, length,
}
use usbd.Base.Result.{Result, ok, err, ◌>>=◌}
use usbd.Util.Numerals.{text_equal}
use usbd.Objstore.Modes.{EncryptMode, is_plain, cipher_name}
use usbd.Objstore.Container.{
  Stream, Metadata, Container, IsContainer, call, call-ok, TaggedUpTo, other_key,
}
use usbd.Objstore.Encrypt.{
  algo_header, iv_header, size_header, Ciphers, new_writer, headers, encrypted_put,
}
use usbd.Objstore.Encrypt.Laws.{IsCiphers, new_writer-Made}
use usbd.Objstore.Encrypt.Stored.{own_keys, CipheredHas, CipheredSized, whole, ciphered}

module _ {W Item : Type 0} (lib : Ciphers W) (c : Container W Item) (mode : EncryptMode)
    (key name : List ℕ) (rdr : Stream) (size : ℤ) (md : Metadata) where
  encrypted_put-plain :
      (w : W)
      → is_plain mode ≡ true
      → encrypted_put lib c mode key name rdr size md w ≡ c.put name rdr size md w
  unfolding encrypted_put
  encrypted_put-plain w e = rw e refl

  -- What a Put that encrypts and returns an item has done.
  encrypted_put-ciphered :
      (item : Item) (w w' : W)
      → is_plain mode ≡ false
      → encrypted_put lib c mode key name rdr size md w ≡ (ok item, w')
      → (made : (List ℕ → List ℕ) × List ℕ) × (w1 : W) × (new_writer lib mode key w ≡ (ok made, w1))
        × (c.put name
              (rdr >>= λ bytes. ok (made.0 bytes))
              c.size_unknown
              (headers lib mode made.1 size md)
              w1
            ≡ (ok item, w'))
  unfolding encrypted_put
  encrypted_put-ciphered item w w' e h =
      let then_do : (List ℕ → List ℕ) × List ℕ → W → Result Item × W = λ made w'.
        c.put name (rdr >>= λ bytes. ok (made.0 bytes)) c.size_unknown
          (headers lib mode made.1 size md) w' in
      let h' : call (new_writer lib mode key w) then_do ≡ (ok item, w') = rw e at h in
      call-ok (new_writer lib mode key w) then_do item w' h'

module _ {W Item : Type 0} (lib : Ciphers W) (ciphers : IsCiphers lib) (c : Container W Item)
    (own : List ℕ → Bool) (Has : Item → List ℕ → Type 0) (Sized : Item → ℕ → Type 0)
    (Tagged : Item → Metadata → Type 0) (below : IsContainer c own Has Sized Tagged)
    (free_algo : own algo_header ≡ false) (free_iv : own iv_header ≡ false)
    (free_size : own size_header ≡ false) (mode : EncryptMode) (key : List ℕ) where
  abbrev Free : (List ℕ → Bool) → Metadata → Type 0
  Free keys md = (k : List ℕ) → keys k ≡ true → md k ≡ none

  headers-Free :
      (iv : List ℕ) (size : ℤ) (md : Metadata)
      → Free (own_keys own) md
      → Free own (headers lib mode iv size md)
  headers-Free iv size md free k o =
      let not_size : text_equal k size_header ≡ false = other_key own size_header k free_size o in
      let not_iv : text_equal k iv_header ≡ false = other_key own iv_header k free_iv o in
      let not_algo : text_equal k algo_header ≡ false = other_key own algo_header k free_algo o in
      rw (not_size, not_iv, not_algo) (free k (rw (not_size, not_iv, not_algo) o))

  headers-kept :
      (iv : List ℕ) (size : ℤ) (md : Metadata) (k : List ℕ)
      → own_keys own k ≡ false
      → headers lib mode iv size md k ≡ md k
  headers-kept iv size md k o = ground (arith, o)

  own-Free : (md : Metadata) → Free (own_keys own) md → Free own md
  own-Free md free k o = free k (ground (arith, o))

  ciphered_has :
      (name bytes : List ℕ) (size : ℤ) (md : Metadata) (item : Item) (w w' : W)
      → Free (own_keys own) md
      → is_plain mode ≡ false
      → encrypted_put lib c mode key name (ok bytes) size md w ≡ (ok item, w')
      → (iv : List ℕ) × CipheredHas Has Tagged lib ciphers key item bytes
        × Tagged item (headers lib mode iv size md)
  ciphered_has name bytes size md item w w' free p h =
      let (made, w1, writer, stored) =
        encrypted_put-ciphered lib c mode key name (ok bytes) size md item w w' p h in
      let all = headers lib mode made.1 size md in
      let (has, tagged) =
        below.put_stores name (made.0 bytes) c.size_unknown all item w1 w'
          (headers-Free made.1 size md free) (inl refl) stored in
      (
        made.1,
        ciphered all mode made.0 made.1 tagged refl refl p
            (new_writer-Made lib ciphers mode key made.0 made.1 w w1 writer) has,
        tagged,
      )

  pub put_stores :
      (name bytes : List ℕ) (size : ℤ) (md : Metadata) (item : Item) (w w' : W)
      → Free (own_keys own) md
      → (size ≡ c.size_unknown) ⊎ (size ≡ pos (length bytes))
      → encrypted_put lib c mode key name (ok bytes) size md w ≡ (ok item, w')
      → CipheredHas Has Tagged lib ciphers key item bytes × TaggedUpTo (own_keys own) Tagged item md
  put_stores name bytes size md item w w' free fits h = elim (Bool-cases (is_plain mode)) [
    | inl i ↦
        let (has, tagged) =
          below.put_stores name bytes size md item w w' (own-Free md free) fits
            (sym (encrypted_put-plain lib c mode key name (ok bytes) size md w i) ∙ h) in
        (whole md tagged (free algo_header refl) has, (md, tagged, λ k o. refl))
    | inr p ↦
        let (iv, has, tagged) = ciphered_has name bytes size md item w w' free p h in
        (has, (headers lib mode iv size md, tagged, headers-kept iv size md))
  ]

  pub put_broken :
      (name : List ℕ) (e : Error) (size : ℤ) (md : Metadata) (item : Item) (w w' : W)
      → encrypted_put lib c mode key name (err e) size md w ≢ (ok item, w')
  put_broken name e size md item w w' h = elim (Bool-cases (is_plain mode)) [
    | inl i ↦
        below.put_broken name e size md item w w'
          (sym (encrypted_put-plain lib c mode key name (err e) size md w i) ∙ h)
    | inr p ↦
        let (made, w1, writer, stored) =
          encrypted_put-ciphered lib c mode key name (err e) size md item w w' p h in
        below.put_broken name e c.size_unknown (headers lib mode made.1 size md) item w1 w' stored
  ]

  pub put_sized :
      (name bytes : List ℕ) (md : Metadata) (item : Item) (w w' : W)
      → Free (own_keys own) md
      → length bytes < 2 ^ 63
      → encrypted_put lib c mode key name (ok bytes) (pos (length bytes)) md w ≡ (ok item, w')
      → CipheredSized Sized Tagged item (length bytes)
  put_sized name bytes md item w w' free small h = elim (Bool-cases (is_plain mode)) [
    | inl i ↦
        let n = pos (length bytes) in
        let stored = sym (encrypted_put-plain lib c mode key name (ok bytes) n md w i) ∙ h in
        whole md (below.put_stores name bytes n md item w w' (own-Free md free) (inr refl) stored).1
          (free algo_header refl)
          (below.put_sized name bytes md item w w' (own-Free md free) small stored)
    | inr p ↦
        let n = pos (length bytes) in
        let (iv, has, tagged) = ciphered_has name bytes n md item w w' free p h in
        ciphered (headers lib mode iv n md) (cipher_name mode) tagged refl refl small
  ]
