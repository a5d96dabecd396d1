-- ===== src/Usbdlib/Handler.antt =====
-- NewNbdHandler of pkg/usbdlib/nbdstrm.go up to the start of the stream: the choice of a device by the
-- options.
pub mod Chosen
use usbd.Base.{failed, ℕ, List, [], ◌∷◌, ltb, length}
use usbd.Base.Result.{Result, ok, check, ◌>>=◌, ◌>>◌}
use usbd.Usbdlib.Kernel.{Kernel, make_nbd_dev, first_usable}

-- An option is an interface{}: a number of devices, the name of a device, or a value of another type.
pub data HandlerOption : Type 0 where
  max_devices : ℕ → HandlerOption
  device_name : List ℕ → HandlerOption
  other : HandlerOption

-- DefMaxNBDDevices
abbrev pub def_max_nbd_devices : ℕ
def_max_nbd_devices = 32

-- The names to try: options of another type are passed over.
unfoldable pub names_of : List HandlerOption → List (List ℕ)
names_of [] = []
names_of (device_name name ∷ options) = name ∷ names_of options
names_of (max_devices n ∷ options) = names_of options
names_of (other ∷ options) = names_of options

-- The first name that can be used; an empty one stands for none.
unfoldable pub named_device : Kernel → List (List ℕ) → Result (List ℕ × Kernel)
named_device k names = do
  name ← first_usable k names
  check (ltb 0 (length name)) failed
  ok (name, k)

-- The path of the device, and the kernel that it was found in: the module may have been loaded.
unfoldable pub choose_device :
    (ℕ → Kernel → Result Kernel) → Kernel → List HandlerOption → Result (List ℕ × Kernel)
choose_device load k [] = make_nbd_dev load def_max_nbd_devices k
choose_device load k (max_devices n ∷ []) = make_nbd_dev load n k
choose_device load k (max_devices n ∷ o ∷ options) =
    named_device k (names_of (max_devices n ∷ o ∷ options))
choose_device load k (device_name name ∷ options) =
    named_device k (names_of (device_name name ∷ options))
choose_device load k (other ∷ options) = named_device k (names_of (other ∷ options))
