-- ===== src/Objstore/Modes.antt =====
-- The modes of pkg/devices/objstore/compress/mode.go and pkg/devices/objstore/encrypt/mode.go, and
-- their names.
use usbd.Base.{ℕ, ◌≡◌, refl, Bool, true, false, ◌||◌, List, [], if◌then◌else◌}
use usbd.Util.Numerals.{codes, text_equal}

-- compress.Mode
pub data CompressMode : Type 0 where
  identity unknown s2 gzip : CompressMode

-- encrypt.Mode
pub data EncryptMode : Type 0 where
  plain unknown_cipher aes_ctr aes_cfb aes_ofb : EncryptMode

abbrev pub is_identity : CompressMode → Bool
is_identity identity = true
is_identity unknown = false
is_identity s2 = false
is_identity gzip = false

abbrev pub is_plain : EncryptMode → Bool
is_plain plain = true
is_plain unknown_cipher = false
is_plain aes_ctr = false
is_plain aes_cfb = false
is_plain aes_ofb = false

unfoldable pub compression_from_name : List ℕ → CompressMode
compression_from_name name =
    if text_equal name [] || text_equal name (codes "identity")
    then identity
    else if text_equal name (codes "s2")
    then s2
    else if text_equal name (codes "gzip")
    then gzip
    else unknown

unfoldable pub compression_name : CompressMode → List ℕ
compression_name identity = codes "identity"
compression_name s2 = codes "s2"
compression_name gzip = codes "gzip"
compression_name unknown = codes "unknown"

-- "aes-rec" is the recommended mode, which is CTR.
unfoldable pub cipher_from_name : List ℕ → EncryptMode
cipher_from_name name =
    if text_equal name [] || text_equal name (codes "identity")
    then plain
    else if text_equal name (codes "aes-ctr") || text_equal name (codes "aes-rec")
    then aes_ctr
    else if text_equal name (codes "aes-cfb")
    then aes_cfb
    else if text_equal name (codes "aes-ofb")
    then aes_ofb
    else unknown_cipher

unfoldable pub cipher_name : EncryptMode → List ℕ
cipher_name plain = codes "identity"
cipher_name aes_ctr = codes "aes-ctr"
cipher_name aes_cfb = codes "aes-cfb"
cipher_name aes_ofb = codes "aes-ofb"
cipher_name unknown_cipher = codes "unknown"

-- Every mode is found again by its name.
pub compression_from_name-compression_name :
    (mode : CompressMode) → compression_from_name (compression_name mode) ≡ mode
unfolding compression_from_name compression_name
compression_from_name-compression_name identity = refl
compression_from_name-compression_name unknown = refl
compression_from_name-compression_name s2 = refl
compression_from_name-compression_name gzip = refl

pub cipher_from_name-cipher_name : (mode : EncryptMode) → cipher_from_name (cipher_name mode) ≡ mode
unfolding cipher_from_name cipher_name
cipher_from_name-cipher_name plain = refl
cipher_from_name-cipher_name unknown_cipher = refl
cipher_from_name-cipher_name aes_ctr = refl
cipher_from_name-cipher_name aes_cfb = refl
cipher_from_name-cipher_name aes_ofb = refl
