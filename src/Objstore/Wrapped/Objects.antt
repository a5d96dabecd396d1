-- ===== src/Objstore/Wrapped/Objects.antt =====
-- What comes back of an object through all the layers round a store.
use usbd.Base.{
  ℤ, pos, ℕ, ◌^◌, ◌<◌, ◌≡◌, refl, ◌≢◌, inr, Bool, false, none, List, if◌then◌else◌, if_case, length,
}
use usbd.Base.Result.{Result, ok, err, is_ok}
use usbd.Objstore.Modes.{unknown, unknown_cipher, is_plain}
use usbd.Objstore.Options.{Config}
use usbd.Objstore.Options.Accepted.{IsAccepted}
use usbd.Objstore.Container.{Metadata, Container, IsContainer, IsReliable}
use usbd.Objstore.Compress.{Codecs, new_compressed_container}
use usbd.Objstore.Compress.Laws.{IsCodecs}
use usbd.Objstore.Compress.Layer.{compressed-IsContainer}
use usbd.Objstore.Compress.Reliable.{NeverFail, compressed-IsReliable}
use usbd.Objstore.Encrypt.{Ciphers, valid_aes_key, new_encrypted_container}
use usbd.Objstore.Encrypt.Laws.{IsCiphers, valid_aes_key-length}
use usbd.Objstore.Encrypt.Layer.{encrypted-IsContainer}
use usbd.Objstore.Encrypt.Reliable.{encrypted-IsReliable}
use usbd.Objstore.Wrapped.{wrap}

-- The segments are put without metadata of their own.
abbrev pub no_headers : Metadata
no_headers key = none

-- What an Open may give of an object of these bytes, and a Size of one of so many: these, or an error.
abbrev pub OpensTo : List ℕ → Result (Result (List ℕ)) → Type 0
OpensTo bytes (ok (ok got)) = got ≡ bytes
OpensTo bytes (ok (err e)) = Unit
OpensTo bytes (err e) = Unit

abbrev pub SizesTo : ℕ → Result ℤ → Type 0
SizesTo n (ok k) = k ≡ pos n
SizesTo n (err e) = Unit

opens_to :
    {W : Type 0} (bytes : List ℕ) (r : Result (Result (List ℕ)) × W)
    → ((got : List ℕ) (w : W) → r ≡ (ok (ok got), w) → got ≡ bytes)
    → OpensTo bytes r.0
opens_to bytes (ok (ok got), w) reads = reads got w refl
opens_to bytes (ok (err e), w) reads = tt
opens_to bytes (err e, w) reads = tt

sizes_to :
    {W : Type 0} (n : ℕ) (r : Result ℤ × W)
    → ((k : ℤ) (w : W) → r ≡ (ok k, w) → k ≡ pos n)
    → SizesTo n r.0
sizes_to n (ok k, w) sizes = sizes k w refl
sizes_to n (err e, w) sizes = tt

module _ {W Item : Type 0} where
  -- Whatever is read of an object that was put are its bytes, and its size is theirs.
  abbrev pub Faithful : Container W Item → Type 0
  Faithful c =
      (name bytes : List ℕ) (item : Item) (w w' : W)
      → length bytes < 2 ^ 63
      → c.put name (ok bytes) (pos (length bytes)) no_headers w ≡ (ok item, w')
      → ((got : List ℕ) (w1 w2 : W) → c.open_item item w1 ≡ (ok (ok got), w2) → got ≡ bytes)
        × ((k : ℤ) (w1 w2 : W) → c.size item w1 ≡ (ok k, w2) → k ≡ pos (length bytes))

  -- Every object can be put and is then read back.
  abbrev pub RoundTrips : Container W Item → Type 0
  RoundTrips c =
      (name bytes : List ℕ) (w : W)
      → (item : Item) × (w' : W) × (c.put name (ok bytes) (pos (length bytes)) no_headers w
          ≡ (ok item, w'))
        × ((w1 : W) → (w2 : W) × (c.open_item item w1 ≡ (ok (ok bytes), w2)))

  module _ (c : Container W Item) (own : List ℕ → Bool) (Has : Item → List ℕ → Type 0)
      (Sized : Item → ℕ → Type 0) (Tagged : Item → Metadata → Type 0)
      (laws : IsContainer c own Has Sized Tagged) where
    IsContainer-Faithful : Faithful c
    IsContainer-Faithful name bytes item w w' small put = (
      λ got w1 w2 h.
          laws.open_reads item bytes got w1 w2
            (laws.put_stores name bytes (pos (length bytes)) no_headers item w w' (λ key k. refl)
              (inr refl) put).0
            h,
      λ k w1 w2 h.
          laws.size_reads item (length bytes) k w1 w2
            (laws.put_sized name bytes no_headers item w w' (λ key k. refl) small put) h,
    )

    IsReliable-RoundTrips : IsReliable c Has Tagged → RoundTrips c
    IsReliable-RoundTrips works name bytes w =
        let (item, w', put) = works.puts name bytes (pos (length bytes)) no_headers w in
        (
          item,
          w',
          put,
          λ w1.
              works.opens item bytes w1
                (laws.put_stores name bytes (pos (length bytes)) no_headers item w w'
                  (λ key k. refl) (inr refl) put).0,
        )

abbrev pub no_keys : List ℕ → Bool
no_keys key = false

module _ {W Item : Type 0} (codecs : Codecs) (ciphers : Ciphers W) (packs : IsCodecs codecs)
    (hides : IsCiphers ciphers) (cfg : Config) (c : Container W Item) (Has : Item → List ℕ → Type 0)
    (Sized : Item → ℕ → Type 0) (Tagged : Item → Metadata → Type 0)
    (store : IsContainer c no_keys Has Sized Tagged) where
  abbrev layered : Container W Item
  layered = new_encrypted_container ciphers c cfg.encrypt_mode cfg.encrypt_key

  wrap-Faithful : Faithful (wrap codecs ciphers cfg c)
  unfolding wrap
  wrap-Faithful =
      if_case Faithful cfg.no_metadata c
        (new_compressed_container codecs (if is_plain cfg.encrypt_mode then c else layered)
          cfg.compress_mode)
        (λ e. IsContainer-Faithful c no_keys Has Sized Tagged store)
        (λ e.
          if_case (λ x. Faithful (new_compressed_container codecs x cfg.compress_mode))
            (is_plain cfg.encrypt_mode) c layered
            (λ p.
              IsContainer-Faithful (new_compressed_container codecs c cfg.compress_mode) _ _ _ _ (
                compressed-IsContainer codecs packs c no_keys Has Sized Tagged store refl refl
                  cfg.compress_mode))
            (λ p.
              IsContainer-Faithful (new_compressed_container codecs layered cfg.compress_mode) _ _ _
                _
                (compressed-IsContainer codecs packs layered _ _ _ _
                  (encrypted-IsContainer ciphers hides c no_keys Has Sized Tagged store refl refl
                    refl cfg.encrypt_mode cfg.encrypt_key)
                  refl refl cfg.compress_mode)))

  -- Whatever the configuration, if the store keeps what it is given and the libraries undo what they
  -- do: when the Put of an object of an int's size with no metadata has succeeded, each Open of the
  -- item that comes to an end gives the bytes of the object, and each Size that succeeds, on its
  -- own, their number, through all the layers that the configuration asks for.
  pub wrapped_reads :
      (name bytes : List ℕ) (item : Item) (w w' w1 w2 : W)
      → length bytes < 2 ^ 63
      → (wrap codecs ciphers cfg c).put name (ok bytes) (pos (length bytes)) no_headers w
        ≡ (ok item, w')
      → OpensTo bytes ((wrap codecs ciphers cfg c).open_item item w1).0
        × SizesTo (length bytes) ((wrap codecs ciphers cfg c).size item w2).0
  wrapped_reads name bytes item w w' w1 w2 small put =
      let (reads, sizes) = wrap-Faithful name bytes item w w' small put in
      (
        opens_to bytes ((wrap codecs ciphers cfg c).open_item item w1)
            (λ got v h. reads got w1 v h),
        sizes_to (length bytes) ((wrap codecs ciphers cfg c).size item w2)
            (λ k v h. sizes k w2 v h),
      )

  wrap-RoundTrips :
      IsReliable c Has Tagged
      → NeverFail codecs
      → ((w : W) → (iv : List ℕ) × (w' : W) × (ciphers.random_block w ≡ (ok iv, w')))
      → IsAccepted (λ key. is_ok (valid_aes_key key)) cfg
      → cfg.compress_mode ≢ unknown
      → cfg.encrypt_mode ≢ unknown_cipher
      → RoundTrips (wrap codecs ciphers cfg c)
  unfolding wrap
  wrap-RoundTrips works takes entropy accepted known_mode known_cipher =
      if_case RoundTrips cfg.no_metadata c
        (new_compressed_container codecs (if is_plain cfg.encrypt_mode then c else layered)
          cfg.compress_mode)
        (λ e. IsReliable-RoundTrips c no_keys Has Sized Tagged store works)
        (λ e.
          if_case (λ x. RoundTrips (new_compressed_container codecs x cfg.compress_mode))
            (is_plain cfg.encrypt_mode) c layered
            (λ p.
              IsReliable-RoundTrips (new_compressed_container codecs c cfg.compress_mode) _ _ _ _
                (compressed-IsContainer codecs packs c no_keys Has Sized Tagged store refl refl
                  cfg.compress_mode)
                (compressed-IsReliable codecs packs takes c no_keys Has Sized Tagged store works
                  refl cfg.compress_mode known_mode))
            (λ p.
              let inner =
                encrypted-IsContainer ciphers hides c no_keys Has Sized Tagged store refl refl refl
                  cfg.encrypt_mode cfg.encrypt_key in
              IsReliable-RoundTrips (new_compressed_container codecs layered cfg.compress_mode) _ _
                _ _
                (compressed-IsContainer codecs packs layered _ _ _ _ inner refl refl
                  cfg.compress_mode)
                (compressed-IsReliable codecs packs takes layered _ _ _ _ inner
                  (encrypted-IsReliable ciphers hides entropy c no_keys Has Sized Tagged store works
                    refl refl cfg.encrypt_mode cfg.encrypt_key known_cipher
                    (valid_aes_key-length cfg.encrypt_key (accepted.encryption_has_key p).1))
                  refl cfg.compress_mode known_mode)))

  -- For an accepted configuration with known modes, on a store, compressors and an entropy source
  -- that do not fail: every object can be put without metadata, and every later Open of the item
  -- gives its bytes back, through all the layers that the configuration asks for.
  pub wrapped_round_trip :
      (name bytes : List ℕ) (w : W)
      → IsReliable c Has Tagged
      → NeverFail codecs
      → ((w : W) → (iv : List ℕ) × (w' : W) × (ciphers.random_block w ≡ (ok iv, w')))
      → IsAccepted (λ key. is_ok (valid_aes_key key)) cfg
      → cfg.compress_mode ≢ unknown
      → cfg.encrypt_mode ≢ unknown_cipher
      → (item : Item) × (w' : W) × ((wrap codecs ciphers cfg c).put name
            (ok bytes)
            (pos (length bytes))
            no_headers
            w
          ≡ (ok item, w'))
        × ((w1 : W)
            → (w2 : W) × ((wrap codecs ciphers cfg c).open_item item w1 ≡ (ok (ok bytes), w2)))
  wrapped_round_trip name bytes w works takes entropy accepted known_mode known_cipher =
      wrap-RoundTrips works takes entropy accepted known_mode known_cipher name bytes w
