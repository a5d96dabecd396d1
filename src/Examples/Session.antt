-- ===== src/Examples/Session.antt =====
-- processRequests of pkg/usbdlib/reqproc.go on the RAM disk of pkg/devices/ramdisk: a client that
-- writes the second block and reads it back.
use usbd.Base.{
  ℤ, pos, ℕ, zero, suc, ◌≤◌, ◌<◌, ◌≡◌, refl, ◌≢◌, ◌⊎◌, inl, inr, true, List, [], ◌∷◌, arith,
  replicate, length-replicate,
}
use usbd.Usbdlib.Header.{linux, linux-IsHeader}
use usbd.Usbdlib.Request.{new_request}
use usbd.Usbdlib.Session.{out_of_fuel, read_strm}
use usbd.Usbdlib.Session.Client.{Op, read_op, write_op, AreServable}
use usbd.Usbdlib.Session.Reader.{read_strm_stops}
use usbd.Usbdlib.Device.{Device}
use usbd.Usbdlib.Session.System.{worker_count, Net, Move, Runs, here, next, start_of}
use usbd.Usbdlib.Session.Disk.{IsServed, waiting_client-refines}
use usbd.Ramdisk.{RamDisk, device}
use usbd.Ramdisk.Contract.{IsValid, device-IsDisk}

read_strm_stops_example :
    (read_strm linux 4 (λ i. new_request linux) (1 ∷ 2 ∷ 3 ∷ [])).1 ≢ out_of_fuel
read_strm_stops_example =
    read_strm_stops linux 4 (λ i. new_request linux) (1 ∷ 2 ∷ 3 ∷ []) linux-IsHeader (omega arith)

abbrev blank_disk : RamDisk
blank_disk = record { disk = replicate 8192 0; size = 8192; online = true }

blank_disk-IsValid : IsValid blank_disk
blank_disk-IsValid = record {
  sized = length-replicate {A = ℕ} 8192 0;
  fits = omega arith;
  up = refl;
}

abbrev tag : ℕ → List ℕ
tag n = n ∷ 0 ∷ 0 ∷ 0 ∷ 0 ∷ 0 ∷ 0 ∷ 0 ∷ []

abbrev two_ops : List Op
two_ops = write_op (tag 1) 4096 (replicate 4096 7) ∷ read_op (tag 2) 4096 4096 ∷ []

two_ops-AreServable : AreServable linux 4096 8192 two_ops
two_ops-AreServable = (
  record {
    handle_fits = refl;
    pos_fits = omega arith;
    count_fits = omega arith;
    in_disk = record {
      inside = omega arith;
      start_aligned = refl;
      count_aligned = refl;
      some_bytes = omega arith;
    };
  },
  (
    record {
      handle_fits = refl;
      pos_fits = omega arith;
      count_fits = omega arith;
      in_disk = record {
        inside = omega arith;
        start_aligned = refl;
        count_aligned = refl;
        some_bytes = omega arith;
      };
    },
    tt,
  ),
)

-- A run of five moves for each request.
module _ {S : Type 0} (dev : Device S) (workers : ℤ) (s : Net S) (n : ℕ)
    (Done : ℕ → Net S → Type 0) where
  pub a_run :
      (k : ℕ)
      → k ≤ n
      → ((k : ℕ) (t : Net S)
          → Runs linux dev workers s k t
          → ((k ≡ n) × Done k t) ⊎ ((k < n) × ((u : Net S) × Move linux dev workers t u)))
      → (t : Net S) × Runs linux dev workers s k t
  a_run zero le more = (s, here)
  a_run (suc k) le more =
      let (t, runs) = a_run k (omega arith) more in
      elim (more k t runs) [
        | inl (e, _) ↦ absurd (omega arith)
        | inr (_, move) ↦ (move.0, next runs move.1)
      ]

abbrev Served : ℕ → Net RamDisk → Type 0
Served k t =
    ((k ≡ 10)
      × IsServed linux device (λ later. IsValid) (λ rdsk. rdsk.disk) two_ops [] (replicate 8192 0)
          t)
    ⊎ ((k < 10) × ((u : Net RamDisk) × Move linux device (worker_count (pos 24) (pos 0)) t u))

full_run :
    (t : Net RamDisk) × Runs linux device
      (worker_count (pos 24) (pos 0))
      (start_of two_ops [] blank_disk)
      10
      t
full_run =
    a_run device (worker_count (pos 24) (pos 0)) (start_of two_ops [] blank_disk) 10
      (λ k t.
        IsServed linux device (λ later. IsValid) (λ rdsk. rdsk.disk) two_ops [] (replicate 8192 0)
          t)
      10 (omega arith)
      (λ k t runs.
        waiting_client-refines linux linux-IsHeader device (λ later. IsValid) (λ rdsk. rdsk.disk)
          device-IsDisk (pos 24) (pos 0) blank_disk two_ops [] two_ops-AreServable
          blank_disk-IsValid runs)

waiting_client-refines_example : Served 10 full_run.0
waiting_client-refines_example =
    waiting_client-refines linux linux-IsHeader device (λ later. IsValid) (λ rdsk. rdsk.disk)
      device-IsDisk (pos 24) (pos 0) blank_disk two_ops [] two_ops-AreServable blank_disk-IsValid
      full_run.1
