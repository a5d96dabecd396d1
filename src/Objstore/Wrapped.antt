-- ===== src/Objstore/Wrapped.antt =====
-- The container that applyOpts of pkg/devices/objstore/device.go puts round that of the store.
pub mod Objects
use usbd.Base.{if◌then◌else◌}
use usbd.Objstore.Modes.{is_plain}
use usbd.Objstore.Options.{Config}
use usbd.Objstore.Container.{Container}
use usbd.Objstore.Compress.{Codecs, new_compressed_container}
use usbd.Objstore.Encrypt.{Ciphers, new_encrypted_container}

module _ {W Item : Type 0} (codecs : Codecs) (ciphers : Ciphers W) where
  -- Without metadata both modes are the identity, and nothing is wrapped.
  unfoldable pub wrap : Config → Container W Item → Container W Item
  wrap cfg c =
      if cfg.no_metadata
      then c
      else new_compressed_container codecs
          (if is_plain cfg.encrypt_mode
            then c
            else new_encrypted_container ciphers c cfg.encrypt_mode cfg.encrypt_key)
          cfg.compress_mode
