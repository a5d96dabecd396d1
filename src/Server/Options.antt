-- ===== src/Server/Options.antt =====
-- osbdFromCfg of cmd/usbdsrvd/osbd.go: the options that a configuration asks for.
pub mod Carried
use usbd.Base.{pos, ltb_ℤ, ℕ, ◌+◌, Bool, true, false, not, ◌||◌, List, [], ◌∷◌, ◌++◌}
use usbd.Util.Numerals.{text_equal}
use usbd.Objstore.Modes.{is_identity, is_plain}
use usbd.Objstore.Options.{
  Settings, concur_flush_count, compress_remote_objects, no_metadata_support, encrypt, quota_bytes,
  persist_cache,
}
use usbd.Server.Config.{ObjStoreConfig}

-- SupportsMetaData of pkg/devices/objstore/stowutil.go. The two kinds are constants of stow.
unfoldable pub supports_metadata : List ℕ → List ℕ → List ℕ → Bool
supports_metadata local sftp kind = not (text_equal kind local || text_equal kind sftp)

abbrev pub option_if : Bool → Settings → List Settings
option_if true opt = opt ∷ []
option_if false opt = []

-- The option of the automatic flush is left out.
unfoldable pub osbd_options : List ℕ → List ℕ → ObjStoreConfig → List Settings
unfolding supports_metadata
osbd_options local sftp cfg =
    concur_flush_count cfg.concur_flush
    ∷ (option_if (ltb_ℤ (pos 0) cfg.local_disk_cache_bytes) (quota_bytes cfg.local_disk_cache_bytes)
        ++ (option_if cfg.persist_cache (persist_cache true)
            ++ (option_if (not (is_plain cfg.aes_mode)) (encrypt cfg.aes_mode cfg.aes_key)
                ++ (option_if (not (is_identity cfg.compress_mode))
                      (compress_remote_objects cfg.compress_mode)
                    ++ option_if (not (supports_metadata local sftp cfg.kind))
                        (no_metadata_support true)))))
