-- ===== src/Examples/Kernel.antt =====
-- pkg/usbdlib/nbdkern_linux.go and pkg/usbdlib/nbdstrm.go at concrete answers of the kernel.
use usbd.Base.{failed, ret, pos, ℕ, ◌≡◌, Bool, true, false, List, [], ◌∷◌, arith}
use usbd.Base.Result.{Result, ok, err, is_ok}
use usbd.Util.Numerals.{codes}
use usbd.Usbdlib.Kernel.{Kernel}
use usbd.Usbdlib.Handler.{HandlerOption, other, device_name}
use usbd.Usbdlib.Stream.{Descriptors, Call, Calls, set_sock, setup_sycalls}
use usbd.Usbdlib.Stream.Resources.{OnOk, nothing, after, setup_sycalls_leaves}

-- The module is live, and its first device is free.
abbrev one_device : Kernel
one_device = record {
  modules = ok (codes "loop 1 0 - Live" ∷ codes "nbd 2 0 - Live" ∷ []);
  devices = ok (codes " 43 nbd" ∷ []);
  block_dirs = ok (codes "sda" ∷ codes "nbd0" ∷ []);
  stat = λ path.
      ok (record { is_dir = false; is_regular = false; size = pos 0; mode = 25008; major = 43 });
}

abbrev no_loader : ℕ → Kernel → Result Kernel
no_loader n k = err failed

-- A value that is no name, and a name.
abbrev options : List HandlerOption
options = other ∷ device_name (codes "/dev/nbd0") ∷ []

-- A kernel that does not take the socket.
abbrev no_sockets : Call → Bool
no_sockets set_sock = true
no_sockets _ = false

abbrev files : Descriptors
files = record { device = 3; user_sock = 4; kernel_sock = 5 }

setup_sycalls_leaves_example :
    (r : Result Descriptors) × (made : Calls) × (setup_sycalls no_sockets files true
        (pos 4096)
        (pos 8192)
        []
      ≡ ret (r, made))
    × (after made nothing
        ≡ record { device = is_ok r; user_sock = true; kernel_sock = true; conn = false })
    × OnOk (λ d. d ≡ files) r
setup_sycalls_leaves_example =
    setup_sycalls_leaves no_sockets files true (pos 4096) (pos 8192) (λ e. absurd (ground arith))
