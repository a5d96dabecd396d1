-- ===== src/Usbdlib/Handler/Chosen.antt =====
-- The device that NewNbdHandler chooses.
use usbd.Base.{failed, ℕ, ◌≡◌, List, [], ◌∷◌, ◌++◌}
use usbd.Base.Result.{Result, ok, err}
use usbd.Usbdlib.Kernel.{Kernel, use_nbd_dev, first_usable}
use usbd.Usbdlib.Kernel.Usable.{IsFirst}
use usbd.Usbdlib.Handler.{HandlerOption, max_devices, names_of}

-- The first of some names that can be used.
pub record IsFirstUsable (k : Kernel) (names : List (List ℕ)) (path : List ℕ) : Type 0 where
  pub before : List (List ℕ)
  pub behind : List (List ℕ)
  pub split : names ≡ before ++ (path ∷ behind)
  pub unusable : first_usable k before ≡ err failed
  pub usable : use_nbd_dev k path ≡ ok tt

-- By the options: a free device is looked for, or the first of the names that can be used is taken.
unfoldable pub ByOptions : List HandlerOption → Kernel → Kernel → List ℕ → Type 0
ByOptions [] k k' path = IsFirst k' path
ByOptions (max_devices n ∷ []) k k' path = IsFirst k' path
ByOptions (o ∷ options) k k' path = (k' ≡ k) × IsFirstUsable k (names_of (o ∷ options)) path
