-- ===== src/Server/Program/Checked.antt =====
-- What a configuration is sure to have that the program goes on with.
use mathlib.Core.Path.{subst}
use usbd.Base.{
  invalid, pos, int64, ℕ, ◌<◌, ◌≡◌, refl, sym, ap, ◌∙◌, ◌≢◌, ◌⊎◌, inl, inr, true, List, arith,
  length,
}
use usbd.Base.Result.{ok, ◌>>=◌, >>-eq-ok, >>=-eq-ok, ok_inj, check-ok}
use usbd.Server.Config.{System, ObjStoreConfig, get_objstore_config}
use usbd.Server.Config.Known.{IsKnown, get_objstore_config-IsKnown}
use usbd.Server.Program.{
  BackingDevice, dev_unknown, dev_mem, dev_file, dev_dedup_file, dev_obj_store, Flags, Paths,
  ServerConfig, flagged, non_empty, known_device, get_directory, in_directory, get_special,
  get_config, with_mode, general, new_backing_device, in_directory, new_backing_device, existing,
  resolve,
}

non_empty-ok : (text : List ℕ) (u : Unit {0}) → non_empty text ≡ ok u → 0 < length text
non_empty-ok text u h = ground arith

known_device-ok : (m mode : BackingDevice) → known_device m ≡ ok mode → mode ≢ dev_unknown
known_device-ok dev_unknown mode h = cc
known_device-ok dev_mem mode h = cc
known_device-ok dev_file mode h = cc
known_device-ok dev_dedup_file mode h = cc
known_device-ok dev_obj_store mode h = cc

module _ (sys : System) (paths : Paths) where
  -- The part of an object store is checked and known for an object store, and as the flags have it
  -- for any other device.
  abbrev pub StorePart : Flags → ServerConfig → Type 0
  StorePart flags cfg =
      ((cfg.backing_mode ≢ dev_obj_store) × (cfg.obj_store_config ≡ flagged flags.objstore))
      ⊎ ((cfg.backing_mode ≡ dev_obj_store) × IsKnown sys flags.objstore cfg.obj_store_config)

  pub record IsUsable (flags : Flags) (cfg : ServerConfig) : Type 0 where
    pub known : cfg.backing_mode ≢ dev_unknown
    pub named : 0 < length cfg.storage_name
    pub placed : (cfg.backing_mode ≡ dev_mem) ⊎ (paths.is_dir cfg.storage_directory ≡ ok true)
    pub store_part : StorePart flags cfg

  resolve-placed : (dir got : List ℕ) → resolve sys paths dir ≡ ok got → paths.is_dir got ≡ ok true
  resolve-placed dir got h =
      let look = λ (path : List ℕ). paths.is_dir path >>= existing sys paths path in
      let (_, h1) = >>-eq-ok (non_empty dir) (paths.abs dir >>= look) h in
      let (path, _, h2) = >>=-eq-ok look (paths.abs dir) h1 in
      let (is_dir, found, h3) = >>=-eq-ok (existing sys paths path) (paths.is_dir path) h2 in
      let (is_one, same) = check-ok is_dir invalid (ok path) got h3 in
      ap paths.is_dir (sym (ok_inj same)) ∙ found ∙ ap ok is_one

  get_directory-placed :
      (mode : BackingDevice) (dir got : List ℕ)
      → get_directory sys paths mode dir ≡ ok got
      → (mode ≡ dev_mem) ⊎ (paths.is_dir got ≡ ok true)
  unfolding get_directory
  get_directory-placed dev_mem dir got h = inl refl
  get_directory-placed dev_unknown dir got h = inr (resolve-placed dir got h)
  get_directory-placed dev_file dir got h = inr (resolve-placed dir got h)
  get_directory-placed dev_dedup_file dir got h = inr (resolve-placed dir got h)
  get_directory-placed dev_obj_store dir got h = inr (resolve-placed dir got h)

  module _ (flags : Flags) (cfg : ServerConfig)
      (fresh : cfg.obj_store_config ≡ flagged flags.objstore)
      (known : cfg.backing_mode ≢ dev_unknown) (named : 0 < length cfg.storage_name)
      (placed : (cfg.backing_mode ≡ dev_mem) ⊎ (paths.is_dir cfg.storage_directory ≡ ok true)) where
    with_part :
        (out : ServerConfig)
        → out.backing_mode ≡ cfg.backing_mode
        → out.storage_name ≡ cfg.storage_name
        → out.storage_directory ≡ cfg.storage_directory
        → StorePart flags out
        → IsUsable flags out
    with_part out same_mode same_name same_dir part = record {
      known = λ e. known (sym same_mode ∙ e);
      named = subst (λ (l : List ℕ). 0 < length l) (sym same_name) named;
      placed = elim placed [
        | inl e ↦ inl (same_mode ∙ e)
        | inr e ↦ inr (ap paths.is_dir same_dir ∙ e)
      ];
      store_part = part;
    }

    plain-IsUsable :
        (out : ServerConfig) → cfg.backing_mode ≢ dev_obj_store → cfg ≡ out → IsUsable flags out
    plain-IsUsable out other same =
        subst (IsUsable flags) same (with_part cfg refl refl refl (inl (other, fresh)))

    get_special-IsUsable :
        (mode : BackingDevice) (out : ServerConfig)
        → cfg.backing_mode ≡ mode
        → get_special sys paths flags cfg mode ≡ ok out
        → IsUsable flags out
    unfolding get_special
    get_special-IsUsable dev_unknown out is h = plain-IsUsable out (λ e. cc) (ok_inj h)
    get_special-IsUsable dev_mem out is h = plain-IsUsable out (λ e. cc) (ok_inj h)
    get_special-IsUsable dev_file out is h = plain-IsUsable out (λ e. cc) (ok_inj h)
    get_special-IsUsable dev_dedup_file out is h =
        let cached =
          λ (bytes : ℕ). record cfg { id_store_memory_cache_bytes = int64 (pos bytes) } in
        let parsed = paths.parse_bytes flags.dedup_memcache in
        let (_, h1) =
          >>-eq-ok (non_empty flags.dedup_memcache) (parsed >>= (λ bytes. ok (cached bytes))) h in
        let (bytes, _, h2) = >>=-eq-ok (λ bytes. ok (cached bytes)) parsed h1 in
        subst (IsUsable flags) (ok_inj h2)
          (with_part (cached bytes) refl refl refl (inl (λ e. absurd (cc), fresh)))
    get_special-IsUsable dev_obj_store out is h =
        let stored = λ (found : ObjStoreConfig). record cfg { obj_store_config = found } in
        let local_sys = in_directory sys paths cfg.storage_directory in
        let (found, got, h1) =
          >>=-eq-ok (λ found. ok (stored found)) (get_objstore_config local_sys flags.objstore) h in
        subst (IsUsable flags) (ok_inj h1) (
          with_part (stored found) refl refl refl
            (inr (is, get_objstore_config-IsKnown local_sys flags.objstore found got)))

  -- A configuration that the program goes on with names a kind of device and a volume, and has a
  -- storage directory that is one unless the device is a RAM disk. For an object store its part of
  -- the configuration has modes that are known, at least one segment to flush at a time, and, where
  -- there is a mode of encryption and a key was given, a valid key; for any other device that part
  -- is as the flags have it.
  pub get_config-IsUsable :
      (flags : Flags) (cfg : ServerConfig)
      → get_config sys paths flags ≡ ok cfg
      → IsUsable flags cfg
  unfolding get_config
  get_config-IsUsable flags cfg h =
      let device = known_device (new_backing_device flags.dev_type) in
      let (mode, found, h1) = >>=-eq-ok (with_mode sys paths flags) device h in
      let directory = get_directory sys paths mode flags.store_dir in
      let special = λ (dir : List ℕ). get_special sys paths flags (general flags mode dir) mode in
      let (named, h2) = >>-eq-ok (non_empty flags.store_name) (directory >>= special) h1 in
      let (dir, there, h3) = >>=-eq-ok special directory h2 in
      get_special-IsUsable flags (general flags mode dir) refl
        (known_device-ok (new_backing_device flags.dev_type) mode found)
        (non_empty-ok flags.store_name tt named)
        (get_directory-placed mode flags.store_dir dir there) mode cfg refl h3
