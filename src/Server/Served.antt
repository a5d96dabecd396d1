-- ===== src/Server/Served.antt =====
-- From the command line to the objects: getting the configuration, the options of osbdFromCfg and
-- NewDevice, one after the other.
use usbd.Base.{
  length, pos, Go, ret, panic, pos, ℕ, ◌≡◌, refl, sym, ap, ◌∙◌, inl, inr, Bool, List, arith, ltb,
  Bool-cases, length,
}
use usbd.Base.Result.{Result, ok, err, is_ok}
use usbd.Objstore.Modes.{CompressMode, EncryptMode}
use usbd.Objstore.Options.{
  Settings, Config, apply_all, check_modes, set_quota, set_flush, apply_opts, configure, blank,
}
use usbd.Objstore.Options.Accepted.{configure-IsAccepted}
use usbd.Objstore.Container.{Metadata, Container, IsContainer, IsReliable}
use usbd.Objstore.Compress.{Codecs}
use usbd.Objstore.Compress.Laws.{IsCodecs}
use usbd.Objstore.Compress.Reliable.{NeverFail}
use usbd.Objstore.Encrypt.{Ciphers, valid_aes_key}
use usbd.Objstore.Encrypt.Laws.{IsCiphers}
use usbd.Objstore.Wrapped.{wrap}
use usbd.Objstore.Wrapped.Objects.{no_headers, no_keys, wrapped_round_trip}
use usbd.Server.Config.{ObjStoreConfig, System, Args, get_objstore_config}
use usbd.Server.Config.Known.{get_objstore_config-IsKnown}
use usbd.Server.Options.{osbd_options}
use usbd.Server.Options.Carried.{osbd_options_lem}

-- The modes of a configuration.
abbrev modes : Config → CompressMode × EncryptMode
modes c = (c.compress_mode, c.encrypt_mode)

set_quota-modes : (c d : Config) → set_quota c ≡ ret (ok d) → modes d ≡ modes c
unfolding set_quota
set_quota-modes c d h = ground arith

set_flush-modes : (c : Config) → modes (set_flush c) ≡ modes c
unfolding set_flush
set_flush-modes c = ground arith

ret-ok_inj : (c d : Config) → ret (ok c) ≡ ret (ok d) → d ≡ c
ret-ok_inj c d h = cc

limited-modes :
    (c d : Config) (r : Result (Unit {0})) (q : Go (Result Config))
    → set_quota c ≡ q
    → (elim r as (λ _. Go (Result Config)) [
      | err e ↦ ret (err e)
      | ok done ↦ elim q as (λ _. Go (Result Config)) [
        | panic ↦ panic
        | ret (err e) ↦ ret (err e)
        | ret (ok limited) ↦ ret (ok (set_flush limited))
      ]
    ])
      ≡ ret (ok d)
    → modes d ≡ modes c
limited-modes c d (err why) q e h = absurd (cc)
limited-modes c d (ok u) panic e h = absurd (cc)
limited-modes c d (ok u) (ret (err why)) e h = absurd (cc)
limited-modes c d (ok u) (ret (ok limited)) e h =
    ap modes (ret-ok_inj (set_flush limited) d h)
    ∙ set_flush-modes limited
    ∙ set_quota-modes c limited e

apply_opts-modes :
    (valid_key : List ℕ → Bool) (opts : List Settings) (c d : Config)
    → apply_opts valid_key opts c ≡ ret (ok d)
    → modes d ≡ modes (apply_all opts c)
unfolding apply_opts
apply_opts-modes valid_key opts c d h =
    let full = apply_all opts c in
    limited-modes full d (check_modes valid_key full) (set_quota full) refl h

configure-modes :
    (valid_key : List ℕ → Bool) (total_bytes object_bytes : ℕ) (opts : List Settings) (d : Config)
    → configure valid_key total_bytes object_bytes opts ≡ ret (ok d)
    → modes d ≡ modes (apply_all opts (blank total_bytes object_bytes))
unfolding configure
configure-modes valid_key total_bytes object_bytes opts d h =
    elim (Bool-cases (ltb total_bytes object_bytes)) [
      | inl e ↦ absurd (ground arith)
      | inr e ↦ apply_opts-modes valid_key opts (blank total_bytes object_bytes) d (ground arith)
    ]

-- What NewDevice accepts of a configuration has the modes that the configuration asks for.
module _ (local sftp : List ℕ) (total_bytes : ℕ) (cfg : ObjStoreConfig) where
  pub asked-modes :
      (valid_key : List ℕ → Bool) (d : Config)
      → configure valid_key total_bytes cfg.object_bytes (osbd_options local sftp cfg) ≡ ret (ok d)
      → (d.compress_mode ≡ cfg.compress_mode) × (d.encrypt_mode ≡ cfg.aes_mode)
  asked-modes valid_key d h =
      let same =
        configure-modes valid_key total_bytes cfg.object_bytes (osbd_options local sftp cfg) d h
        ∙ ap modes (osbd_options_lem local sftp total_bytes cfg) in
      (ap (λ p. p.0) same, ap (λ p. p.1) same)

module _ (sys : System) (args : Args) (cfg : ObjStoreConfig) (local sftp : List ℕ) (total_bytes : ℕ)
    (d : Config) {W Item : Type 0} (codecs : Codecs) (ciphers : Ciphers W) (packs : IsCodecs codecs)
    (hides : IsCiphers ciphers) (c : Container W Item) (Has : Item → List ℕ → Type 0)
    (Sized : Item → ℕ → Type 0) (Tagged : Item → Metadata → Type 0)
    (store : IsContainer c no_keys Has Sized Tagged) where
  abbrev key_ok : List ℕ → Bool
  key_ok key = is_ok (valid_aes_key key)

  -- Where the program gets a configuration from its arguments, and NewDevice accepts the options
  -- that it makes of that, on a store, compressors and an entropy source that do not fail: every
  -- object can be put without metadata into the container of the device, and every later Open of
  -- the item gives its bytes back, whatever the arguments say of compression and encryption.
  pub served_round_trip :
      (name bytes : List ℕ) (w : W)
      → get_objstore_config sys args ≡ ok cfg
      → configure key_ok total_bytes cfg.object_bytes (osbd_options local sftp cfg) ≡ ret (ok d)
      → IsReliable c Has Tagged
      → NeverFail codecs
      → ((w : W) → (iv : List ℕ) × (w' : W) × (ciphers.random_block w ≡ (ok iv, w')))
      → (item : Item) × (w' : W) × ((wrap codecs ciphers d c).put name
            (ok bytes)
            (pos (length bytes))
            no_headers
            w
          ≡ (ok item, w'))
        × ((w1 : W)
            → (w2 : W) × ((wrap codecs ciphers d c).open_item item w1 ≡ (ok (ok bytes), w2)))
  served_round_trip name bytes w parsed accepted works takes entropy =
      let (compression, encryption) = asked-modes local sftp total_bytes cfg key_ok d accepted in
      let (known_cipher, known_mode, _, _) = get_objstore_config-IsKnown sys args cfg parsed in
      wrapped_round_trip codecs ciphers packs hides d c Has Sized Tagged store name bytes w works
        takes entropy
        (configure-IsAccepted key_ok total_bytes cfg.object_bytes (osbd_options local sftp cfg) d
          accepted)
        (λ e. known_mode (sym compression ∙ e)) (λ e. known_cipher (sym encryption ∙ e))
