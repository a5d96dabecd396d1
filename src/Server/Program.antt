-- ===== src/Server/Program.antt =====
-- The rest of MustGetConfig of cmd/usbdsrvd/conf/parseargs.go behind the parsing of the flags, and
-- NewBackingDevice of cmd/usbdsrvd/conf/bakdev.go.
pub mod Checked
use usbd.Base.{invalid, ℤ, pos, int64, ℕ, ◌-◌, Bool, List, [], ◌∷◌, ltb, if◌then◌else◌, length}
use usbd.Base.Result.{Result, ok, err, check, ◌>>=◌, ◌>>◌}
use usbd.Util.Numerals.{codes}
use usbd.Objstore.Modes.{plain, identity}
use usbd.Server.Config.{Args, System, ObjStoreConfig, get_objstore_config, one_of, to_lower}

pub data BackingDevice : Type 0 where
  dev_unknown dev_mem dev_file dev_dedup_file dev_obj_store : BackingDevice

unfoldable pub new_backing_device : List ℕ → BackingDevice
new_backing_device desc =
    let name = to_lower desc in
    if one_of (codes "mem" ∷ codes "memory" ∷ []) name
    then dev_mem
    else if one_of (codes "file" ∷ codes "disk" ∷ []) name
    then dev_file
    else if one_of (codes "dedup" ∷ codes "dedup-file" ∷ codes "dedup-disk" ∷ []) name
    then dev_dedup_file
    else if one_of (codes "osbd" ∷ codes "objstore" ∷ []) name
    then dev_obj_store
    else dev_unknown

-- The flags that are used, with the capacity of the device.
pub record Flags : Type 0 where
  pub dev_type : List ℕ
  pub store_dir : List ℕ
  pub store_name : List ℕ
  pub store_size : ℤ
  pub dedup_memcache : List ℕ
  pub objstore : Args

-- The paths of the operating system (whether a path is a directory is an error where there is
-- nothing), and the parser of capacities.
pub record Paths : Type 0 where
  pub abs : List ℕ → Result (List ℕ)
  pub is_dir : List ℕ → Result Bool
  pub join : List ℕ → List ℕ → List ℕ
  pub parse_bytes : List ℕ → Result ℕ

pub record ServerConfig : Type 0 where
  pub backing_mode : BackingDevice
  pub storage_directory : List ℕ
  pub storage_name : List ℕ
  pub storage_bytes : ℤ
  pub id_store_memory_cache_bytes : ℤ
  pub obj_store_config : ObjStoreConfig

-- What the parsing of the flags has filled in, for a device of any kind.
abbrev pub flagged : Args → ObjStoreConfig
flagged args = record {
  kind = args.kind;
  object_bytes = args.object_bytes;
  local_disk_cache_bytes = args.cache_bytes;
  persist_cache = args.persist_cache;
  aes_mode = plain;
  aes_key = [];
  compress_mode = identity;
  concur_flush = args.concur_flush;
}

abbrev pub general : Flags → BackingDevice → List ℕ → ServerConfig
general flags mode dir = record {
  backing_mode = mode;
  storage_directory = dir;
  storage_name = flags.store_name;
  storage_bytes = flags.store_size;
  id_store_memory_cache_bytes = pos 0;
  obj_store_config = flagged flags.objstore;
}

abbrev pub non_empty : List ℕ → Result (Unit {0})
non_empty text = check (ltb 0 (length text)) invalid

abbrev pub known_device : BackingDevice → Result BackingDevice
known_device dev_unknown = err invalid
known_device mode = ok mode

module _ (sys : System) (paths : Paths) where
  abbrev pub existing : List ℕ → Bool → Result (List ℕ)
  existing path is_dir = do check is_dir invalid; ok path

  abbrev pub resolve : List ℕ → Result (List ℕ)
  resolve dir = do non_empty dir; path ← paths.abs dir; paths.is_dir path >>= existing path

  -- The storage directory, which a RAM disk does not need.
  unfoldable pub get_directory : BackingDevice → List ℕ → Result (List ℕ)
  get_directory dev_mem dir = ok dir
  get_directory mode dir = resolve dir

  abbrev pub in_directory : List ℕ → System
  in_directory dir = record sys { key_file = paths.join dir (codes "key.aes") }

  -- What only one kind of device asks for.
  unfoldable pub get_special : Flags → ServerConfig → BackingDevice → Result ServerConfig
  get_special flags cfg dev_dedup_file = do
    non_empty flags.dedup_memcache
    bytes ← paths.parse_bytes flags.dedup_memcache
    ok (record cfg { id_store_memory_cache_bytes = int64 (pos bytes) })
  get_special flags cfg dev_obj_store = do
    found ← get_objstore_config (in_directory cfg.storage_directory) flags.objstore
    ok (record cfg { obj_store_config = found })
  get_special flags cfg mode = ok cfg

  abbrev pub with_mode : Flags → BackingDevice → Result ServerConfig
  with_mode flags mode = do
    non_empty flags.store_name
    dir ← get_directory mode flags.store_dir
    get_special flags (general flags mode dir) mode

  unfoldable pub get_config : Flags → Result ServerConfig
  get_config flags = known_device (new_backing_device flags.dev_type) >>= with_mode flags
