-- ===== src/Objstore/Encrypt/Stored.antt =====
-- What stands in the store of an item that an encrypting container has put.
use usbd.Base.{pos, ℕ, ◌^◌, ◌<◌, ◌≡◌, Bool, false, ◌||◌, none, some, List}
use usbd.Util.Numerals.{text_equal, format_int, hex_encode}
use usbd.Objstore.Modes.{EncryptMode, is_plain, cipher_name}
use usbd.Objstore.Container.{text, Metadata}
use usbd.Objstore.Encrypt.{algo_header, iv_header, size_header, Ciphers}
use usbd.Objstore.Encrypt.Laws.{IsCiphers, Made}

-- The keys that the encrypting container adds to those of the one below.
abbrev pub own_keys : (List ℕ → Bool) → List ℕ → Bool
own_keys own key =
    ((text_equal key algo_header || text_equal key iv_header) || text_equal key size_header)
    || own key

module _ {W Item : Type 0} (Has : Item → List ℕ → Type 0) (Tagged : Item → Metadata → Type 0)
    (lib : Ciphers W) (ciphers : IsCiphers lib) (key : List ℕ) where
  -- An item of an encrypting container: as it is, or enciphered under the key.
  pub data CipheredHas (item : Item) (bytes : List ℕ) : Type 0 where
    whole :
        (md : Metadata)
        → Tagged item md
        → md algo_header ≡ none
        → Has item bytes
        → CipheredHas item bytes
    ciphered :
        (md : Metadata) (mode : EncryptMode) (wtr : List ℕ → List ℕ) (iv : List ℕ)
        → Tagged item md
        → md algo_header ≡ some (text (cipher_name mode))
        → md iv_header ≡ some (text (hex_encode iv))
        → is_plain mode ≡ false
        → Made lib ciphers mode key wtr iv
        → Has item (wtr bytes)
        → CipheredHas item bytes

module _ {Item : Type 0} (Sized : Item → ℕ → Type 0) (Tagged : Item → Metadata → Type 0) where
  pub data CipheredSized (item : Item) (n : ℕ) : Type 0 where
    whole :
        (md : Metadata)
        → Tagged item md
        → md algo_header ≡ none
        → Sized item n
        → CipheredSized item n
    ciphered :
        (md : Metadata) (name : List ℕ)
        → Tagged item md
        → md algo_header ≡ some (text name)
        → md size_header ≡ some (text (format_int 36 (pos n)))
        → n < 2 ^ 63
        → CipheredSized item n
