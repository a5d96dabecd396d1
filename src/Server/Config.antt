-- ===== src/Server/Config.antt =====
-- mustGetObjStoreConfig and recConcurFlush of cmd/usbdsrvd/conf/parseargs.go. log.Fatalf ends the
-- program: it is an error here.
pub mod Known
use usbd.Base.{
  not_present, invalid, failed, ℤ, pos, ltb_ℤ, int64, ℕ, ◌+◌, ◌*◌, ◌/◌, Bool, false, ◌&&◌, ◌||◌,
  Option, List, [], ◌∷◌, ltb, leb, ◌==◌, if◌then◌else◌, length, drop,
}
use usbd.Base.Result.{Result, ok, err, check, need, ◌>>=◌, ◌>>◌}
use usbd.Util.Numerals.{codes, text_equal}
use usbd.Usbdlib.Kernel.{has_prefix}
use usbd.Objstore.Modes.{
  CompressMode, unknown, EncryptMode, plain, unknown_cipher, compression_from_name,
  cipher_from_name,
}
use usbd.Objstore.Encrypt.{valid_aes_key}

-- The flags of an object store.
pub record Args : Type 0 where
  pub kind : List ℕ
  pub cfg_json : List ℕ
  pub aes_mode : List ℕ
  pub aes_key : List ℕ
  pub compress : List ℕ
  pub object_bytes : ℕ
  pub cache_bytes : ℤ
  pub persist_cache : Bool
  pub concur_flush : ℕ

-- What the program asks for: whether the JSON is a configuration that stow takes for the kind, files,
-- the environment, a random key and the number of processors. `key_file` is the place of the key in
-- the storage directory.
pub record System : Type 0 where
  pub takes_cfg : List ℕ → List ℕ → Bool
  pub key_file : List ℕ
  pub read_file : List ℕ → Result (List ℕ)
  pub lookup_env : List ℕ → Option (List ℕ)
  pub random_key : Result (List ℕ)
  pub write_file : List ℕ → List ℕ → Result (Unit {0})
  pub cpus : ℕ

-- ObjStoreConfig of cmd/usbdsrvd/conf/cfg.go.
pub record ObjStoreConfig : Type 0 where
  pub kind : List ℕ
  pub object_bytes : ℕ
  pub local_disk_cache_bytes : ℤ
  pub persist_cache : Bool
  pub aes_mode : EncryptMode
  pub aes_key : List ℕ
  pub compress_mode : CompressMode
  pub concur_flush : ℕ

abbrev pub budget_bytes : ℕ
budget_bytes = 1024 * 1024 * 1024

-- The product is that of int64s. An object size of zero is never divided by.
unfoldable pub rec_concur_flush : ℕ → ℕ → ℕ
unfolding int64
rec_concur_flush cpus objsize =
    let fitting =
      if ltb_ℤ (pos budget_bytes) (int64 (pos (cpus * objsize)))
      then budget_bytes / objsize
      else cpus in
    if ltb fitting 1 then 1 else fitting

abbrev pub to_lower : List ℕ → List ℕ
to_lower [] = []
to_lower (c ∷ text) = (if leb b'A' c && leb c b'Z' then c + 32 else c) ∷ to_lower text

abbrev pub one_of : List (List ℕ) → List ℕ → Bool
one_of [] name = false
one_of (n ∷ names) name = text_equal name n || one_of names name

abbrev pub kinds : List (List ℕ)
kinds =
    codes "s3"
    ∷ codes "b2"
    ∷ codes "local"
    ∷ codes "azure"
    ∷ codes "swift"
    ∷ codes "google"
    ∷ codes "oracle"
    ∷ codes "sftp"
    ∷ []

module _ (sys : System) where
  -- The key is made and kept where there is no file for it; any other error is fatal.
  abbrev pub key_or_new : Result (List ℕ) → Result (List ℕ)
  key_or_new (ok key) = ok key
  key_or_new (err not_present) = do key ← sys.random_key; sys.write_file sys.key_file key; ok key
  key_or_new (err e) = err e

  -- The source of a key that is given on the command line.
  unfoldable pub key_from : List ℕ → Result (List ℕ)
  key_from source =
      if has_prefix (codes "file:") source
      then sys.read_file (drop 5 source)
      else if has_prefix (codes "key:") source
      then ok (drop 4 source)
      else if has_prefix (codes "env:") source
      then need (sys.lookup_env (drop 4 source)) failed
      else err invalid

  -- Only a key that is given is checked.
  unfoldable pub get_key : List ℕ → Result (List ℕ)
  unfolding key_from
  get_key [] = key_or_new (sys.read_file sys.key_file)
  get_key (c ∷ source) = do key ← key_from (c ∷ source); valid_aes_key key; ok key

  abbrev pub known_cipher : EncryptMode → Result EncryptMode
  known_cipher unknown_cipher = err invalid
  known_cipher mode = ok mode

  abbrev pub known_compression : CompressMode → Result CompressMode
  known_compression unknown = err invalid
  known_compression mode = ok mode

  abbrev pub key_for : List ℕ → EncryptMode → Result (EncryptMode × List ℕ)
  key_for source mode = do key ← get_key source; ok (mode, key)

  -- The mode and the key. Without a mode, no key is looked for.
  unfoldable pub get_cipher : List ℕ → List ℕ → Result (EncryptMode × List ℕ)
  get_cipher name source =
      if text_equal name (codes "identity")
      then ok (plain, [])
      else (known_cipher (cipher_from_name name) >>= key_for source)

  abbrev pub check_args : Args → Result (Unit {0})
  check_args args = do
    check (one_of kinds (to_lower args.kind)) invalid
    check (ltb 0 (length args.cfg_json)) invalid
    check (sys.takes_cfg args.kind args.cfg_json) invalid

  abbrev pub config_of : Args → EncryptMode × List ℕ → CompressMode → ObjStoreConfig
  config_of args cipher mode = record {
    kind = args.kind;
    object_bytes = args.object_bytes;
    local_disk_cache_bytes = args.cache_bytes;
    persist_cache = args.persist_cache;
    aes_mode = cipher.0;
    aes_key = cipher.1;
    compress_mode = mode;
    concur_flush =
        if args.concur_flush == 0
        then rec_concur_flush sys.cpus args.object_bytes
        else args.concur_flush;
  }

  abbrev pub config_with : Args → EncryptMode × List ℕ → Result ObjStoreConfig
  config_with args cipher = do
    mode ← known_compression (compression_from_name args.compress)
    ok (config_of args cipher mode)

  unfoldable pub get_objstore_config : Args → Result ObjStoreConfig
  get_objstore_config args = do
    check_args args
    cipher ← get_cipher args.aes_mode args.aes_key
    config_with args cipher
