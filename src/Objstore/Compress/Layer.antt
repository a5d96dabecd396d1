-- ===== src/Objstore/Compress/Layer.antt =====
-- A compressed container is a container.
use usbd.Base.{ℕ, ◌≡◌, Bool, false, List}
use usbd.Objstore.Modes.{CompressMode}
use usbd.Objstore.Container.{Metadata, Container, IsContainer, TaggedUpTo}
use usbd.Objstore.Compress.{algo_header, size_header, Codecs, new_compressed_container}
use usbd.Objstore.Compress.Laws.{IsCodecs}
use usbd.Objstore.Compress.Stored.{own_keys, PackedHas, PackedSized}
use usbd.Objstore.Compress.Put.{put_stores, put_broken, put_sized}
use usbd.Objstore.Compress.Read.{metadata_kept, size_reads, open_reads}

module _ (lib : Codecs) (codecs : IsCodecs lib) {W Item : Type 0} (c : Container W Item)
    (own : List ℕ → Bool) (Has : Item → List ℕ → Type 0) (Sized : Item → ℕ → Type 0)
    (Tagged : Item → Metadata → Type 0) (below : IsContainer c own Has Sized Tagged)
    (free_algo : own algo_header ≡ false) (free_size : own size_header ≡ false) where
  -- A container that compresses on top of a container which leaves the keys x-osbd-cmp-alg and
  -- x-osbd-cmp-size alone is again a container, in every mode: an item whose Put succeeded reads as
  -- the bytes that were put, or breaks off with an error, and says the size that was announced,
  -- whatever compresses it; a stream that breaks off is not stored; and the metadata of the caller
  -- is kept.
  pub compressed-IsContainer :
      (mode : CompressMode)
      → IsContainer
          (new_compressed_container lib c mode)
          (own_keys own)
          (PackedHas Has Tagged lib)
          (PackedSized Sized Tagged)
          (TaggedUpTo (own_keys own) Tagged)
  unfolding new_compressed_container
  compressed-IsContainer mode = record {
    put_stores = put_stores lib codecs c own Has Sized Tagged below free_algo free_size mode;
    put_broken = put_broken lib codecs c own Has Sized Tagged below free_algo free_size mode;
    put_sized = put_sized lib codecs c own Has Sized Tagged below free_algo free_size mode;
    metadata_kept = metadata_kept lib codecs c own Has Sized Tagged below free_algo free_size;
    size_reads = size_reads lib codecs c own Has Sized Tagged below free_algo free_size;
    open_reads = open_reads lib codecs c own Has Sized Tagged below free_algo free_size;
  }
