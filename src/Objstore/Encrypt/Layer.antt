-- ===== src/Objstore/Encrypt/Layer.antt =====
-- An encrypted container is a container.
use usbd.Base.{ℕ, ◌≡◌, Bool, false, List}
use usbd.Objstore.Modes.{EncryptMode}
use usbd.Objstore.Container.{Metadata, Container, IsContainer, TaggedUpTo}
use usbd.Objstore.Encrypt.{algo_header, iv_header, size_header, Ciphers, new_encrypted_container}
use usbd.Objstore.Encrypt.Laws.{IsCiphers}
use usbd.Objstore.Encrypt.Stored.{own_keys, CipheredHas, CipheredSized}
use usbd.Objstore.Encrypt.Put.{put_stores, put_broken, put_sized}
use usbd.Objstore.Encrypt.Read.{metadata_kept, size_reads, open_reads}

module _ {W Item : Type 0} (lib : Ciphers W) (ciphers : IsCiphers lib) (c : Container W Item)
    (own : List ℕ → Bool) (Has : Item → List ℕ → Type 0) (Sized : Item → ℕ → Type 0)
    (Tagged : Item → Metadata → Type 0) (below : IsContainer c own Has Sized Tagged)
    (free_algo : own algo_header ≡ false) (free_iv : own iv_header ≡ false)
    (free_size : own size_header ≡ false) (mode : EncryptMode) (key : List ℕ) where
  -- A container that encrypts on top of a container which leaves the three x-osbd-crypt keys alone is
  -- again a container, in every mode and under every key: an item whose Put succeeded reads under
  -- that key as the bytes that were put, or breaks off with an error, and says the size that was
  -- announced, whatever enciphers it; a stream that breaks off is not stored; and the metadata of
  -- the caller is kept.
  pub encrypted-IsContainer :
      IsContainer
        (new_encrypted_container lib c mode key)
        (own_keys own)
        (CipheredHas Has Tagged lib ciphers key)
        (CipheredSized Sized Tagged)
        (TaggedUpTo (own_keys own) Tagged)
  unfolding new_encrypted_container
  encrypted-IsContainer = record {
    put_stores =
        put_stores lib ciphers c own Has Sized Tagged below free_algo free_iv free_size mode key;
    put_broken =
        put_broken lib ciphers c own Has Sized Tagged below free_algo free_iv free_size mode key;
    put_sized =
        put_sized lib ciphers c own Has Sized Tagged below free_algo free_iv free_size mode key;
    metadata_kept =
        metadata_kept lib ciphers c own Has Sized Tagged below free_algo free_iv free_size mode key;
    size_reads =
        size_reads lib ciphers c own Has Sized Tagged below free_algo free_iv free_size mode key;
    open_reads =
        open_reads lib ciphers c own Has Sized Tagged below free_algo free_iv free_size mode key;
  }
