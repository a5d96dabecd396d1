-- ===== src/Examples/Server.antt =====
-- cmd/usbdsrvd with an object store in memory.
use usbd.Base.{
  not_present, invalid, ret, pos, int64, ℕ, suc, ◌≡◌, refl, true, false, none, some, [], ◌∷◌, ◌++◌,
  replicate,
}
use usbd.Base.Result.{ok, err, is_ok}
use usbd.Util.Numerals.{codes}
use usbd.Util.Zeros.{is_zeros}
use usbd.Objstore.Modes.{gzip, aes_cfb, compression_from_name, cipher_from_name}
use usbd.Objstore.Options.{
  Config, apply, apply_all, check_modes, set_quota, set_flush, apply_opts, configure, blank,
}
use usbd.Objstore.Encrypt.{valid_aes_key}
use usbd.Objstore.Wrapped.{wrap}
use usbd.Objstore.Wrapped.Objects.{no_headers}
use usbd.Server.Config.{
  Args, System, ObjStoreConfig, get_objstore_config, get_cipher, get_key, key_from,
  rec_concur_flush,
}
use usbd.Server.Program.{
  Flags, Paths, ServerConfig, dev_obj_store, general, get_config, new_backing_device, get_directory,
  get_special,
}
use usbd.Server.Program.Checked.{IsUsable, get_config-IsUsable}
use usbd.Server.Options.{osbd_options, supports_metadata}
use usbd.Server.Served.{served_round_trip}
use usbd.Examples.Layers.{
  Object, memory, MemoryHas, MemorySized, MemoryTagged, memory-IsContainer, memory-IsReliable,
  marks, marks-IsCodecs, marks-NeverFail, counting, counting-IsCiphers,
}

abbrev arguments : Args
arguments = record {
  kind = codes "S3";
  cfg_json = codes "{}";
  aes_mode = codes "aes-cfb";
  aes_key = codes "key:0123456789abcdef";
  compress = codes "gzip";
  object_bytes = 4096;
  cache_bytes = pos 4096;
  persist_cache = false;
  concur_flush = 0;
}

-- A machine with four processors and no files.
abbrev machine : System
machine = record {
  takes_cfg = λ kind json. true;
  key_file = codes "key.aes";
  read_file = λ path. err not_present;
  lookup_env = λ name. none;
  random_key = ok (replicate 32 7);
  write_file = λ path bytes. ok tt;
  cpus = 4;
}

abbrev read_config : ObjStoreConfig
read_config = record {
  kind = codes "S3";
  object_bytes = 4096;
  local_disk_cache_bytes = pos 4096;
  persist_cache = false;
  aes_mode = aes_cfb;
  aes_key = codes "0123456789abcdef";
  compress_mode = gzip;
  concur_flush = 4;
}

arguments-pass : get_objstore_config machine arguments ≡ ok read_config
unfolding get_objstore_config get_cipher get_key key_from rec_concur_flush int64 valid_aes_key
    is_zeros cipher_from_name compression_from_name
arguments-pass = refl

abbrev flags : Flags
flags = record {
  dev_type = codes "OSBD";
  store_dir = codes "store";
  store_name = codes "lun";
  store_size = pos 8192;
  dedup_memcache = [];
  objstore = arguments;
}

-- Every path is a directory, and is absolute.
abbrev directories : Paths
directories = record {
  abs = λ path. ok path;
  is_dir = λ path. ok true;
  join = λ dir name. dir ++ name;
  parse_bytes = λ text. err invalid;
}

abbrev server_config : ServerConfig
server_config = record (general flags dev_obj_store (codes "store")) {
  obj_store_config = read_config;
}

flags-pass : get_config machine directories flags ≡ ok server_config
unfolding get_config new_backing_device get_directory get_special get_objstore_config get_cipher
    get_key key_from rec_concur_flush int64 valid_aes_key is_zeros cipher_from_name
    compression_from_name
flags-pass = refl

get_config-IsUsable_example : IsUsable machine directories flags server_config
get_config-IsUsable_example = get_config-IsUsable machine directories flags server_config flags-pass

abbrev accepted : Config
accepted = record (blank 8192 4096) {
  concur_flush = 4;
  compress_mode = gzip;
  quota = pos 4096;
  encrypt_mode = aes_cfb;
  encrypt_key = codes "0123456789abcdef";
  quota_segments = some 1;
}

options-pass :
    configure
      (λ key. is_ok (valid_aes_key key))
      8192
      4096
      (osbd_options (codes "local") (codes "sftp") read_config)
    ≡ ret (ok accepted)
unfolding configure apply_opts check_modes set_quota set_flush apply_all apply osbd_options
    supports_metadata valid_aes_key is_zeros
options-pass = refl

served_round_trip_example :
    (item : Object) × (w' : ℕ) × ((wrap marks counting accepted memory).put
        (1 ∷ [])
        (ok (5 ∷ 6 ∷ []))
        (pos 2)
        no_headers
        0
      ≡ (ok item, w'))
    × ((w1 : ℕ)
        → (w2 : ℕ) × ((wrap marks counting accepted memory).open_item item w1
            ≡ (ok (ok (5 ∷ 6 ∷ [])), w2)))
served_round_trip_example =
    served_round_trip machine arguments read_config (codes "local") (codes "sftp") 8192 accepted
      marks counting marks-IsCodecs counting-IsCiphers memory MemoryHas MemorySized MemoryTagged
      memory-IsContainer (1 ∷ []) (5 ∷ 6 ∷ []) 0 arguments-pass options-pass memory-IsReliable
      marks-NeverFail (λ w. (replicate 16 7, suc w, refl))
