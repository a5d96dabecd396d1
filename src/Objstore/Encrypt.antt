-- ===== src/Objstore/Encrypt.antt =====
-- encryptedContainer and encryptedItem of pkg/devices/objstore/encrypt/stow.go, with NewReader,
-- NewWriter and ValidAESKey of mode.go. As in Compress, an item is the same value on both levels.
pub mod Laws
pub mod Stored
pub mod Put
pub mod Read
pub mod Layer
pub mod Reliable
use usbd.Base.{
  invalid, failed, ℤ, ℕ, ◌-◌, Bool, not, ◌||◌, Option, none, some, List, [], ◌==◌, if◌then◌else◌,
  length,
}
use usbd.Base.Result.{Result, ok, err, ◌>>=◌, ◌>>◌, check, need}
use usbd.Util.Numerals.{codes, format_int, parse_int, hex_encode, hex_decode}
use usbd.Util.Zeros.{is_zeros}
use usbd.Objstore.Modes.{
  EncryptMode, plain, unknown_cipher, aes_ctr, aes_cfb, aes_ofb, is_plain, cipher_from_name,
  cipher_name,
}
use usbd.Objstore.Container.{Stream, Value, text, Metadata, with_header, Container, text_of, call}

abbrev pub algo_header : List ℕ
algo_header = codes "x-osbd-crypt-alg"

abbrev pub iv_header : List ℕ
iv_header = codes "x-osbd-crypt-iv"

abbrev pub size_header : List ℕ
size_header = codes "x-osbd-crypt-size"

-- aes.BlockSize
abbrev pub aes_block_size : ℕ
aes_block_size = 16

abbrev pub aes_key_length : ℕ → Bool
aes_key_length n = (n == 16 || n == 24) || n == 32

unfoldable pub valid_aes_key : List ℕ → Result (Unit {0})
valid_aes_key key = do
  check (aes_key_length (length key)) invalid
  check (not (is_zeros key)) invalid

-- crypto/cipher over crypto/aes: what becomes of a stream under a key and an initialization vector;
-- and crypto/rand, for one block.
pub record Ciphers (W : Type 0) : Type 0 where
  pub ctr : List ℕ → List ℕ → List ℕ → List ℕ
  pub cfb_encrypter : List ℕ → List ℕ → List ℕ → List ℕ
  pub cfb_decrypter : List ℕ → List ℕ → List ℕ → List ℕ
  pub ofb : List ℕ → List ℕ → List ℕ → List ℕ
  pub random_block : W → Result (List ℕ) × W

module _ {W : Type 0} (lib : Ciphers W) where
  -- cipherConstructor of NewReader.
  unfoldable pub decrypter : EncryptMode → Result (List ℕ → List ℕ → List ℕ → List ℕ)
  decrypter plain = err invalid
  decrypter unknown_cipher = err invalid
  decrypter aes_ctr = ok lib.ctr
  decrypter aes_cfb = ok lib.cfb_decrypter
  decrypter aes_ofb = ok lib.ofb

  -- cipherConstructor of NewWriter.
  unfoldable pub encrypter : EncryptMode → Result (List ℕ → List ℕ → List ℕ → List ℕ)
  encrypter plain = err invalid
  encrypter unknown_cipher = err invalid
  encrypter aes_ctr = ok lib.ctr
  encrypter aes_cfb = ok lib.cfb_encrypter
  encrypter aes_ofb = ok lib.ofb

  -- NewReader for a mode that is not the identity.
  unfoldable pub new_reader : EncryptMode → Stream → List ℕ → List ℕ → Result Stream
  unfolding decrypter
  new_reader mode rdr key iv = do
    cipher ← decrypter mode
    check (aes_key_length (length key)) invalid
    check (length iv == aes_block_size) invalid
    ok (rdr >>= λ bytes. ok (cipher key iv bytes))

  -- NewWriter for a mode that is not the identity: the writer and the initialization vector.
  unfoldable pub new_writer : EncryptMode → List ℕ → W → Result ((List ℕ → List ℕ) × List ℕ) × W
  unfolding encrypter
  new_writer mode key w =
      if aes_key_length (length key)
      then call (lib.random_block w)
          (λ iv w'. (encrypter mode >>= (λ cipher. ok (cipher key iv, iv)), w'))
      else (err invalid, w)

  -- The headers that Put adds to the metadata.
  abbrev pub headers : EncryptMode → List ℕ → ℤ → Metadata → Metadata
  headers mode iv size md = with_header size_header (text (format_int 36 size)) (
      with_header iv_header (text (hex_encode iv))
        (with_header algo_header (text (cipher_name mode)) md))

  abbrev pub known : EncryptMode → Result EncryptMode
  known unknown_cipher = err failed
  known plain = ok plain
  known aes_ctr = ok aes_ctr
  known aes_cfb = ok aes_cfb
  known aes_ofb = ok aes_ofb

  -- The mode and the initialization vector that the metadata of an item says.
  abbrev pub named : Option Value → Option Value → Result (EncryptMode × List ℕ)
  named none iv = ok (plain, [])
  named (some v) iv = do
    name ← text_of (some v)
    mode ← known (cipher_from_name name)
    digits ← text_of iv
    bytes ← need (hex_decode digits) failed
    ok (mode, bytes)

  unfoldable pub cipher_of : Metadata → Result (EncryptMode × List ℕ)
  cipher_of md = named (md algo_header) (md iv_header)

  unfoldable pub size_of : Metadata → Result ℤ
  size_of md = do digits ← text_of (md size_header); need (parse_int 36 digits) failed

  module _ {Item : Type 0} (c : Container W Item) where
    -- The goroutine copies the reader through the cipher into the pipe that Put reads.
    unfoldable pub encrypted_put :
        EncryptMode → List ℕ → List ℕ → Stream → ℤ → Metadata → W → Result Item × W
    unfolding new_writer
    encrypted_put mode key name rdr size md w =
        if is_plain mode
        then c.put name rdr size md w
        else call (new_writer mode key w) (λ made w'.
          c.put name (rdr >>= λ bytes. ok (made.0 bytes)) c.size_unknown
            (headers mode made.1 size md) w')

    abbrev pub size_by : Option Value → Item → Metadata → W → Result ℤ × W
    size_by none item md w = c.size item w
    size_by (some v) item md w = (size_of md, w)

    unfoldable pub encrypted_size : Item → W → Result ℤ × W
    encrypted_size item w = call (c.metadata item w) (λ md w'. size_by (md algo_header) item md w')

    unfoldable pub open_as : EncryptMode → List ℕ → List ℕ → Item → W → Result Stream × W
    unfolding new_reader
    open_as mode key iv item w =
        call (c.open_item item w)
          (λ strm w'. if is_plain mode then (ok strm, w') else (new_reader mode strm key iv, w'))

    unfoldable pub encrypted_open : List ℕ → Item → W → Result Stream × W
    unfolding cipher_of open_as
    encrypted_open key item w =
        call (c.metadata item w)
          (λ md w'. call (cipher_of md, w') (λ found w''. open_as found.0 key found.1 item w''))

    unfoldable pub new_encrypted_container : EncryptMode → List ℕ → Container W Item
    unfolding encrypted_put encrypted_size encrypted_open
    new_encrypted_container mode key = record {
      size_unknown = c.size_unknown;
      put = encrypted_put mode key;
      metadata = c.metadata;
      size = encrypted_size;
      open_item = encrypted_open key;
    }
