-- ===== src/Objstore/Compress/Stored.antt =====
-- What stands in the store of an item that a compressing container has put.
use usbd.Base.{pos, ℕ, ◌^◌, ◌<◌, ◌≡◌, Bool, false, ◌||◌, none, some, List}
use usbd.Base.Result.{Result, ok}
use usbd.Util.Numerals.{text_equal, format_int}
use usbd.Objstore.Modes.{CompressMode, is_identity, compression_name}
use usbd.Objstore.Container.{text, Metadata}
use usbd.Objstore.Compress.{algo_header, size_header, Codecs, new_writer}

-- The keys that the compressed container adds to those of the one below.
abbrev pub own_keys : (List ℕ → Bool) → List ℕ → Bool
own_keys own key = (text_equal key algo_header || text_equal key size_header) || own key

module _ {Item : Type 0} (Has : Item → List ℕ → Type 0) (Tagged : Item → Metadata → Type 0)
    (lib : Codecs) where
  -- An item of a compressed container: as it is, or compressed, with the mode in its metadata.
  pub data PackedHas (item : Item) (bytes : List ℕ) : Type 0 where
    whole :
        (md : Metadata)
        → Tagged item md
        → md algo_header ≡ none
        → Has item bytes
        → PackedHas item bytes
    packed :
        (md : Metadata) (mode : CompressMode) (wtr : List ℕ → Result (List ℕ)) (inner : List ℕ)
        → Tagged item md
        → md algo_header ≡ some (text (compression_name mode))
        → is_identity mode ≡ false
        → new_writer lib mode ≡ ok wtr
        → wtr bytes ≡ ok inner
        → Has item inner
        → PackedHas item bytes

module _ {Item : Type 0} (Sized : Item → ℕ → Type 0) (Tagged : Item → Metadata → Type 0) where
  pub data PackedSized (item : Item) (n : ℕ) : Type 0 where
    whole :
        (md : Metadata) → Tagged item md → md algo_header ≡ none → Sized item n → PackedSized item n
    packed :
        (md : Metadata) (name : List ℕ)
        → Tagged item md
        → md algo_header ≡ some (text name)
        → md size_header ≡ some (text (format_int 36 (pos n)))
        → n < 2 ^ 63
        → PackedSized item n
