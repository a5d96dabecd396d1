-- ===== src/Objstore/Options.antt =====
-- The options of pkg/devices/objstore/options.go, and NewDevice and applyOpts of
-- pkg/devices/objstore/device.go. The interval of the goroutine of flushWorker is left out.
pub mod Accepted
use usbd.Base.{
  invalid, Go, ret, panic, ℤ, pos, pos_part, ltb_ℤ, ℕ, ◌/◌, Bool, false, Option, none, some, List,
  [], ◌∷◌, ltb, ◌==◌, if◌then◌else◌, length,
}
use usbd.Objstore.Modes.{CompressMode, identity, EncryptMode, plain, is_identity, is_plain}
use usbd.Base.Result.{Result, ok, err, check, ◌>>=◌, ◌>>◌}

pub data Settings : Type 0 where
  concur_flush_count : ℕ → Settings
  compress_remote_objects : CompressMode → Settings
  no_metadata_support : Bool → Settings
  thick_provision_local_files : Bool → Settings
  encrypt : EncryptMode → List ℕ → Settings
  quota_bytes : ℤ → Settings
  persist_cache : Bool → Settings

pub record Config : Type 0 where
  pub total_bytes : ℕ
  pub segment_bytes : ℕ
  pub concur_flush : ℕ
  pub compress_mode : CompressMode
  pub quota : ℤ
  pub no_metadata : Bool
  pub thick : Bool
  pub persist : Bool
  pub encrypt_mode : EncryptMode
  pub encrypt_key : List ℕ
  pub quota_segments : Option ℕ  -- the count of quotaSegSema, where there is one

unfoldable pub apply : Settings → Config → Config
apply (concur_flush_count count) c = record c { concur_flush = count }
apply (compress_remote_objects mode) c = record c { compress_mode = mode }
apply (no_metadata_support no_meta) c = record c { no_metadata = no_meta }
apply (thick_provision_local_files thick_prov) c = record c { thick = thick_prov }
apply (encrypt mode key) c = record c { encrypt_mode = mode; encrypt_key = key }
apply (quota_bytes bytes) c = record c { quota = bytes }
apply (persist_cache keep) c = record c { persist = keep }

unfoldable pub apply_all : List Settings → Config → Config
apply_all [] c = c
apply_all (opt ∷ opts) c = apply_all opts (apply opt c)

-- `valid_key` says whether encrypt.ValidAESKey takes a key: see valid_aes_key of Encrypt.
unfoldable pub check_modes : (List ℕ → Bool) → Config → Result (Unit {0})
check_modes valid_key c =
    if c.no_metadata
    then (do check (is_identity c.compress_mode) invalid; check (is_plain c.encrypt_mode) invalid)
    else if is_plain c.encrypt_mode
    then ok tt
    else (do check (ltb 0 (length c.encrypt_key)) invalid; check (valid_key c.encrypt_key) invalid)

-- A segment size of zero is divided by.
unfoldable pub set_quota : Config → Go (Result Config)
set_quota c =
    if ltb_ℤ (pos 0) c.quota
    then (if ltb_ℤ c.quota (pos c.segment_bytes)
        then ret (err invalid)
        else if ltb_ℤ c.quota (pos c.total_bytes)
        then (if c.segment_bytes == 0
            then panic
            else ret (ok (record c { quota_segments = some (pos_part c.quota / c.segment_bytes) })))
        else ret (ok c))
    else ret (ok c)

unfoldable pub set_flush : Config → Config
set_flush c = if ltb c.concur_flush 1 then record c { concur_flush = 1 } else c

-- The wrappers that are put round the container are in Wrapped.
unfoldable pub apply_opts : (List ℕ → Bool) → List Settings → Config → Go (Result Config)
apply_opts valid_key opts c = elim (check_modes valid_key (apply_all opts c)) [
  | err e ↦ ret (err e)
  | ok done ↦ elim (set_quota (apply_all opts c)) [
    | panic ↦ panic
    | ret (err e) ↦ ret (err e)
    | ret (ok limited) ↦ ret (ok (set_flush limited))
  ]
]

abbrev pub blank : ℕ → ℕ → Config
blank total_bytes object_bytes = record {
  total_bytes = total_bytes;
  segment_bytes = object_bytes;
  concur_flush = 0;
  compress_mode = identity;
  quota = pos 0;
  no_metadata = false;
  thick = false;
  persist = false;
  encrypt_mode = plain;
  encrypt_key = [];
  quota_segments = none;
}

-- NewDevice up to the loading of the segments; the sizes are ints.
unfoldable pub configure : (List ℕ → Bool) → ℕ → ℕ → List Settings → Go (Result Config)
configure valid_key total_bytes object_bytes opts =
    if ltb total_bytes object_bytes
    then ret (err invalid)
    else apply_opts valid_key opts (blank total_bytes object_bytes)
