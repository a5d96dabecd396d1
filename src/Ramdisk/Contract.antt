-- ===== src/Ramdisk/Contract.antt =====
-- The RAM disk keeps the contract of a disk.
use usbd.Base.{
  ret, pos, ltb_ℤ, add64_pos, ℕ, ◌+◌, ◌-◌, ◌^◌, ◌≤◌, ◌<◌, ◌≡◌, refl, ◌∙◌, true, false, none, List,
  arith, length, replicate, length-replicate, take_self, slice, copy_at, copy_at_full,
  length-copy_at, length-slice,
}
use usbd.Usbdlib.Device.{IsDisk}
use usbd.Ramdisk.{device, new_ram_disk, bounds, end_of, RamDisk, read_at, write_at}

-- The array has the size of the disk, which is an int.
pub record IsValid (rdsk : RamDisk) : Type 0 where
  pub sized : length rdsk.disk ≡ rdsk.size
  pub fits : rdsk.size < 2 ^ 63
  pub up : rdsk.online ≡ true

bounds-ok : (lo n cap : ℕ) → lo + n ≤ cap → bounds (pos lo) (pos (lo + n)) cap ≡ ret (lo, lo + n)
unfolding bounds
bounds-ok lo n cap h = ground arith

in_size :
    (rdsk : RamDisk) (p n : ℕ) → p + n ≤ rdsk.size → ltb_ℤ (pos rdsk.size) (pos (p + n)) ≡ false
in_size rdsk p n h = ground arith

module _ (rdsk : RamDisk) (buf : List ℕ) (p : ℕ) (v : IsValid rdsk)
    (inside : p + length buf ≤ length rdsk.disk) where
  end_fits : end_of buf (pos p) ≡ pos (p + length buf)
  end_fits = add64_pos p (length buf) (omega (arith, v.sized, v.fits))

  in_range : ltb_ℤ (pos rdsk.size) (pos (p + length buf)) ≡ false
  in_range = in_size rdsk p (length buf) (omega (arith, v.sized))

  middle : p + length buf - p ≡ length buf
  middle = omega arith

  pub read_at-ok :
      read_at rdsk buf (pos p) ≡ ret (rdsk, slice p (length buf) rdsk.disk, pos (length buf), none)
  unfolding read_at
  read_at-ok =
      rw (v.up, end_fits, in_range, bounds-ok p (length buf) (length rdsk.disk) inside, middle)
        (rw (
          copy_at_full (slice p (length buf) rdsk.disk) buf
            (length-slice p (length buf) rdsk.disk inside)))

  pub write_at-ok :
      write_at rdsk buf (pos p)
      ≡ ret (record rdsk { disk = copy_at p buf rdsk.disk }, pos (length buf), none)
  unfolding write_at
  write_at-ok =
      rw (v.up, end_fits, in_range, bounds-ok p (length buf) (length rdsk.disk) inside, middle)
        (rw (take_self buf))

-- While it is open, the RAM disk keeps the contract of a disk with its array for the view: a read
-- of whole blocks inside it returns the bytes of the array in full, a write replaces just those
-- bytes, and neither fails, panics or closes it.
pub device-IsDisk : IsDisk device (λ later. IsValid) (λ rdsk. rdsk.disk)
device-IsDisk = record {
  reads = λ rdsk buf p later v d. (rdsk, read_at-ok rdsk buf p v d.inside, refl, v);
  writes = λ rdsk buf p later v d. (
    record rdsk { disk = copy_at p buf rdsk.disk },
    write_at-ok rdsk buf p v d.inside,
    refl,
    record { sized = length-copy_at p buf rdsk.disk ∙ v.sized; fits = v.fits; up = v.up },
  );
}

-- A new disk of an int's size is open and blank.
pub new_ram_disk-IsValid :
    (size : ℕ)
    → size < 2 ^ 63
    → IsValid (new_ram_disk size) × ((new_ram_disk size).disk ≡ replicate size 0)
unfolding new_ram_disk
new_ram_disk-IsValid size h =
    (record { sized = length-replicate {A = ℕ} size 0; fits = h; up = refl }, refl)
