-- ===== src/Usbdlib/Kernel.antt =====
-- pkg/usbdlib/nbdkern_linux.go: finding out from the kernel's files whether the NBD module is loaded, and
-- which device is free. What the operating system and the module loader answer is a parameter.
pub mod Usable
use usbd.Base.{
  failed, ℤ, pos, ltb_ℤ, ℕ, ◌+◌, ◌-◌, ◌*◌, ◌/◌, ◌%◌, ◌^◌, Bool, true, false, not, ◌&&◌, ◌||◌,
  Option, none, some, List, [], ◌∷◌, ◌++◌, ltb, leb, ◌==◌, if◌then◌else◌, length, take, drop,
}
use usbd.Base.Result.{Result, ok, err, check, need, ◌>>=◌, ◌>>◌}
use usbd.Util.Numerals.{codes, text_equal, value_in}

-- os.FileInfo, and syscall.Stat_t with the major number of Rdev.
pub record Info : Type 0 where
  pub is_dir : Bool
  pub is_regular : Bool
  pub size : ℤ
  pub mode : ℕ
  pub major : ℕ

-- The lines of /proc/modules and /proc/devices, the names in /sys/block, and the files; each with the
-- error of reading it.
pub record Kernel : Type 0 where
  pub modules : Result (List (List ℕ))
  pub devices : Result (List (List ℕ))
  pub block_dirs : Result (List (List ℕ))
  pub stat : List ℕ → Result Info

-- bytes.HasPrefix, HasSuffix and Contains.
abbrev pub has_prefix : List ℕ → List ℕ → Bool
has_prefix [] line = true
has_prefix (x ∷ xs) [] = false
has_prefix (x ∷ xs) (y ∷ line) = x == y && has_prefix xs line

abbrev pub contains : List ℕ → List ℕ → Bool
contains word [] = has_prefix word []
contains word (y ∷ line) = has_prefix word (y ∷ line) || contains word line

abbrev pub has_suffix : List ℕ → List ℕ → Bool
has_suffix end line =
    leb (length end) (length line) && text_equal end (drop (length line - length end) line)

-- The loop of nbdLoaded: whether a line was found, and whether it says that the module is live.
unfoldable pub loaded_live : List (List ℕ) → Bool × Bool
loaded_live [] = (false, false)
loaded_live (line ∷ lines) =
    let rest = loaded_live lines in
    if has_prefix (codes "nbd") line then (true, contains (codes "Live") line) else rest

unfoldable pub nbd_loaded : Kernel → Result (Unit {0})
unfolding loaded_live
nbd_loaded k = do
  lines ← k.modules
  check (loaded_live lines).0 failed
  check (loaded_live lines).1 failed

abbrev is_space : ℕ → Bool
is_space c = c == b' ' || (leb 9 c && leb c 13)

abbrev trim_left : List ℕ → List ℕ
trim_left [] = []
trim_left (c ∷ text) = if is_space c then trim_left text else c ∷ text

abbrev reverse_onto : List ℕ → List ℕ → List ℕ
reverse_onto [] out = out
reverse_onto (c ∷ text) out = reverse_onto text (c ∷ out)

-- bytes.TrimSpace, of ASCII.
abbrev trim_space : List ℕ → List ℕ
trim_space text = reverse_onto (trim_left (reverse_onto (trim_left text) [])) []

-- strconv.Atoi of a number without a sign: the kernel prints no others.
unfoldable pub decimal_from : ℕ → List ℕ → Option ℕ
unfolding value_in
decimal_from n [] = some n
decimal_from n (c ∷ text) = elim (value_in 10 c) [
  | none ↦ none
  | some d ↦ decimal_from (n * 10 + d) text
]

abbrev pub atoi : List ℕ → Result ℕ
atoi [] = err failed
atoi (c ∷ text) = need (decimal_from 0 (c ∷ text)) failed

-- The loop of nbdMajor.
unfoldable pub find_major : List (List ℕ) → Result ℕ
find_major [] = err failed
find_major (line ∷ lines) =
    let rest = find_major lines in
    if has_suffix (codes " nbd") line then atoi (trim_space (take (length line - 4) line)) else rest

unfoldable pub nbd_major : Kernel → Result ℕ
unfolding find_major
nbd_major k = do lines ← k.devices; find_major lines

-- os.ModeDevice is bit 26 of a FileMode, and is looked for in the st_mode of the system call.
unfoldable pub nbd_major_for_device : Kernel → List ℕ → Result ℕ
nbd_major_for_device k path = do
  info ← k.stat path
  check (info.mode / 2 ^ 26 % 2 == 0) failed
  ok info.major

unfoldable pub validate_dev_path : Kernel → List ℕ → Result (Unit {0})
unfolding nbd_major nbd_major_for_device
validate_dev_path k path = do
  info ← k.stat path
  check (not info.is_dir) failed
  check (not info.is_regular) failed
  check (not (ltb_ℤ (pos 0) info.size)) failed
  dev_major ← nbd_major k
  actual ← nbd_major_for_device k path
  check (actual == dev_major) failed

unfoldable pub use_nbd_dev : Kernel → List ℕ → Result (Unit {0})
unfolding nbd_loaded validate_dev_path
use_nbd_dev k path = do nbd_loaded k; validate_dev_path k path

abbrev pub dev_path : List ℕ → List ℕ
dev_path name = codes "/dev/" ++ name

abbrev pub valid : Kernel → List ℕ → Bool
valid k path = elim (validate_dev_path k path) [ ok _ ↦ true | err _ ↦ false ]

-- The loop of nbdFreeDev.
unfoldable pub first_free : Kernel → List (List ℕ) → Result (List ℕ)
unfolding validate_dev_path
first_free k [] = err failed
first_free k (name ∷ names) =
    let rest = first_free k names in
    if has_prefix (codes "nbd") name && valid k (dev_path name) then ok (dev_path name) else rest

unfoldable pub nbd_free_dev : Kernel → Result (List ℕ)
unfolding first_free
nbd_free_dev k = do names ← k.block_dirs; first_free k names

-- `load` is what the module loader does to the kernel.
unfoldable pub load_nbd : (ℕ → Kernel → Result Kernel) → ℕ → Kernel → Result Kernel
unfolding nbd_loaded
load_nbd load max_nbd_devices k = do
  check (ltb 0 max_nbd_devices) failed
  k' ← load max_nbd_devices k
  nbd_loaded k'
  ok k'

abbrev pub loaded_or : Result (Unit {0}) → Kernel → Result Kernel → Result Kernel
loaded_or (ok _) k other = ok k
loaded_or (err _) k other = other

-- The path, and the kernel that it was found in.
unfoldable pub make_nbd_dev : (ℕ → Kernel → Result Kernel) → ℕ → Kernel → Result (List ℕ × Kernel)
unfolding nbd_loaded load_nbd nbd_free_dev
make_nbd_dev load max_nbd_devices k = do
  k' ← loaded_or (nbd_loaded k) k (load_nbd load max_nbd_devices k)
  path ← nbd_free_dev k'
  ok (path, k')

-- The names of devices among the options of NewNbdHandler: the first that can be used.
unfoldable pub first_usable : Kernel → List (List ℕ) → Result (List ℕ)
unfolding use_nbd_dev
first_usable k [] = err failed
first_usable k (name ∷ names) =
    let rest = first_usable k names in elim (use_nbd_dev k name) [ ok _ ↦ ok name | err _ ↦ rest ]
