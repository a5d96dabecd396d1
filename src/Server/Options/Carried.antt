-- ===== src/Server/Options/Carried.antt =====
-- What becomes of a configuration on its way through the options.
use usbd.Base.{
  ℤ, pos, ltb_ℤ, ℕ, ◌≡◌, refl, ap, ◌∙◌, Bool, true, false, not, List, [], ◌++◌, if◌then◌else◌,
}
use usbd.Objstore.Modes.{
  CompressMode, identity, unknown, s2, gzip, EncryptMode, plain, unknown_cipher, aes_ctr, aes_cfb,
  aes_ofb, is_identity, is_plain,
}
use usbd.Objstore.Options.{
  Settings, Config, apply, apply_all, blank, compress_remote_objects, no_metadata_support, encrypt,
  quota_bytes, persist_cache,
}
use usbd.Server.Config.{ObjStoreConfig}
use usbd.Server.Options.{supports_metadata, option_if, osbd_options}

module _ (rest : List Settings) (c : Config) where
  with_quota :
      (b : Bool) (bytes : ℤ)
      → apply_all (option_if b (quota_bytes bytes) ++ rest) c
        ≡ apply_all rest (record c { quota = if b then bytes else c.quota })
  unfolding apply_all apply
  with_quota true bytes = refl
  with_quota false bytes = refl

  with_persist :
      (b : Bool)
      → c.persist ≡ false
      → apply_all (option_if b (persist_cache true) ++ rest) c
        ≡ apply_all rest (record c { persist = b })
  unfolding apply_all apply
  with_persist true fresh = refl
  with_persist false fresh = ap (λ b. apply_all rest (record c { persist = b })) fresh

  with_encrypt :
      (mode : EncryptMode) (key : List ℕ)
      → c.encrypt_mode ≡ plain
      → apply_all (option_if (not (is_plain mode)) (encrypt mode key) ++ rest) c
        ≡ apply_all rest (record c {
          encrypt_mode = mode;
          encrypt_key = if is_plain mode then c.encrypt_key else key;
        })
  unfolding apply_all apply
  with_encrypt plain key fresh = ap (λ m. apply_all rest (record c { encrypt_mode = m })) fresh
  with_encrypt unknown_cipher key fresh = refl
  with_encrypt aes_ctr key fresh = refl
  with_encrypt aes_cfb key fresh = refl
  with_encrypt aes_ofb key fresh = refl

  with_compression :
      (mode : CompressMode)
      → c.compress_mode ≡ identity
      → apply_all (option_if (not (is_identity mode)) (compress_remote_objects mode) ++ rest) c
        ≡ apply_all rest (record c { compress_mode = mode })
  unfolding apply_all apply
  with_compression identity fresh = ap (λ m. apply_all rest (record c { compress_mode = m })) fresh
  with_compression unknown fresh = refl
  with_compression s2 fresh = refl
  with_compression gzip fresh = refl

with_metadata :
    (b : Bool) (c : Config)
    → c.no_metadata ≡ false
    → apply_all (option_if b (no_metadata_support true)) c ≡ record c { no_metadata = b }
unfolding apply_all apply
with_metadata true c fresh = refl
with_metadata false c fresh = ap (λ b. record c { no_metadata = b }) fresh

-- The configuration that the device is to have, before it is checked.
abbrev pub asked_for : List ℕ → List ℕ → ℕ → ObjStoreConfig → Config
asked_for local sftp total_bytes cfg = record (blank total_bytes cfg.object_bytes) {
  concur_flush = cfg.concur_flush;
  quota = if ltb_ℤ (pos 0) cfg.local_disk_cache_bytes then cfg.local_disk_cache_bytes else pos 0;
  persist = cfg.persist_cache;
  encrypt_mode = cfg.aes_mode;
  encrypt_key = if is_plain cfg.aes_mode then [] else cfg.aes_key;
  compress_mode = cfg.compress_mode;
  no_metadata = not (supports_metadata local sftp cfg.kind);
}

-- What the options make of the defaults is the configuration that was asked for: no setting is
-- lost, none changes another, and a setting that is left out is the default.
pub osbd_options_lem :
    (local sftp : List ℕ) (total_bytes : ℕ) (cfg : ObjStoreConfig)
    → apply_all (osbd_options local sftp cfg) (blank total_bytes cfg.object_bytes)
      ≡ asked_for local sftp total_bytes cfg
unfolding osbd_options apply_all apply
osbd_options_lem local sftp total_bytes cfg =
    with_quota _ _ (ltb_ℤ (pos 0) cfg.local_disk_cache_bytes) cfg.local_disk_cache_bytes
    ∙ with_persist _ _ cfg.persist_cache refl
    ∙ with_encrypt _ _ cfg.aes_mode cfg.aes_key refl
    ∙ with_compression _ _ cfg.compress_mode refl
    ∙ with_metadata (not (supports_metadata local sftp cfg.kind)) _ refl
