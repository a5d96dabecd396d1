-- ===== src/Ramdisk.antt =====
-- pkg/devices/ramdisk/ramdisk.go: a device in memory.
pub mod Contract
pub mod Bounds
use usbd.Base.{
  Error, eof, unexpected_eof, shutdown, Go, ret, panic, ◌>>=◌, ℤ, pos, ltb_ℤ, add64, ℕ, ◌-◌, Bool,
  true, false, not, ◌&&◌, Option, none, some, List, leb, if◌then◌else◌, length, take, replicate,
  copy_at, slice,
}
use usbd.Usbdlib.Device.{Device, default_block_size}

pub record RamDisk : Type 0 where
  pub disk : List ℕ
  pub size : ℕ
  pub online : Bool

unfoldable pub new_ram_disk : ℕ → RamDisk
new_ram_disk size = record { disk = replicate size 0; size = size; online = true }

-- The bounds of `disk[pos:end]`, or a panic: a bound that is negative, out of order or too large.
unfoldable pub bounds : ℤ → ℤ → ℕ → Go (ℕ × ℕ)
bounds (pos lo) (pos hi) cap = if leb lo hi && leb hi cap then ret (lo, hi) else panic
bounds lo hi cap = panic

-- `int(pos) + count`
abbrev pub end_of : List ℕ → ℤ → ℤ
end_of buf position = add64 position (pos (length buf))

unfoldable pub read_at : RamDisk → List ℕ → ℤ → Go (RamDisk × List ℕ × ℤ × Option Error)
unfolding bounds
read_at rdsk buf position =
    if not rdsk.online
    then ret (rdsk, buf, pos 0, some shutdown)
    else if ltb_ℤ (pos rdsk.size) (end_of buf position)
    then ret (rdsk, buf, pos 0, some eof)
    else (do
      (lo, hi) ← bounds position (end_of buf position) (length rdsk.disk)
      ret (rdsk, copy_at 0 (slice lo (hi - lo) rdsk.disk) buf, pos (length buf), none))

unfoldable pub write_at : RamDisk → List ℕ → ℤ → Go (RamDisk × ℤ × Option Error)
unfolding bounds
write_at rdsk buf position =
    if not rdsk.online
    then ret (rdsk, pos 0, some shutdown)
    else if ltb_ℤ (pos rdsk.size) (end_of buf position)
    then ret (rdsk, pos 0, some unexpected_eof)
    else (do
      (lo, hi) ← bounds position (end_of buf position) (length rdsk.disk)
      ret (
        record rdsk { disk = copy_at lo (take (hi - lo) buf) rdsk.disk },
        pos (length buf),
        none,
      ))

unfoldable pub trim : RamDisk → ℤ → ℕ → Go (RamDisk × Option Error)
trim rdsk position count = if not rdsk.online then ret (rdsk, some shutdown) else ret (rdsk, none)

unfoldable pub flush : RamDisk → Go (RamDisk × Option Error)
flush rdsk = if not rdsk.online then ret (rdsk, some shutdown) else ret (rdsk, none)

unfoldable pub close : RamDisk → Go (RamDisk × Option Error)
close rdsk = ret (record rdsk { online = false }, none)

abbrev pub device : Device RamDisk
device = record {
  block_size = default_block_size;
  size = λ rdsk. pos rdsk.size;
  read_at = read_at;
  write_at = write_at;
  trim = trim;
  flush = flush;
  close = close;
}
