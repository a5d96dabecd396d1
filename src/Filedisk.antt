-- ===== src/Filedisk.antt =====
-- FileDisk of pkg/devices/filedisk/filedisk.go: a device in a file. ReadAt, WriteAt and Close are those
-- of the os.File that it embeds, a parameter; its Size is fixed when it is opened.
use usbd.Base.{Error, Go, ret, ℤ, pos, pos_part, ltb_ℤ, ℕ, Option, none, some, List, if◌then◌else◌}
use usbd.Base.Result.{Result, ok, err, ◌>>=◌}
use usbd.Usbdlib.Device.{Device, default_block_size}

-- The os.File. `size_of` is the size that Stat gives; `zero_fill` is what a bufio.Writer makes of the
-- file after so many WriteByte(0) and a Flush.
pub record OsFile (F : Type 0) : Type 0 where
  pub size_of : F → Result ℤ
  pub zero_fill : ℕ → F → Result F
  pub sync : F → F × Option Error
  pub read_at : F → List ℕ → ℤ → F × List ℕ × ℤ × Option Error
  pub write_at : F → List ℕ → ℤ → F × ℤ × Option Error
  pub close : F → F × Option Error

pub record FileDisk (F : Type 0) : Type 0 where
  pub file : F
  pub size_bytes : ℤ

module _ {F : Type 0} (os : OsFile F) where
  abbrev put_back : FileDisk F → F → FileDisk F
  put_back fdsk file = record fdsk { file = file }

  abbrev synced : F × Option Error → Result F
  synced (file, none) = ok file
  synced (file, some e) = err e

  -- On what OpenFile gives. A file with some bytes keeps its size, an empty or a new one is filled
  -- with zeros.
  unfoldable pub new_file_disk : Result F → ℤ → Result (FileDisk F)
  new_file_disk opened if_create_size = do
    file ← opened
    size ← os.size_of file
    if ltb_ℤ size (pos 1)
        then (do
          filled ← os.zero_fill (pos_part if_create_size) file
          safe ← synced (os.sync filled)
          ok (record { file = safe; size_bytes = if_create_size }))
        else ok (record { file = file; size_bytes = size })

  unfoldable pub trim : FileDisk F → ℤ → ℕ → Go (FileDisk F × Option Error)
  trim fdsk position count = ret (fdsk, none)

  unfoldable pub flush : FileDisk F → Go (FileDisk F × Option Error)
  flush fdsk = let (file, e) = os.sync fdsk.file in ret (put_back fdsk file, e)

  abbrev pub device : Device (FileDisk F)
  device = record {
    block_size = default_block_size;
    size = λ fdsk. fdsk.size_bytes;
    read_at = λ fdsk buf p.
        let (file, got, n, e) = os.read_at fdsk.file buf p in ret (put_back fdsk file, got, n, e);
    write_at = λ fdsk buf p.
        let (file, n, e) = os.write_at fdsk.file buf p in ret (put_back fdsk file, n, e);
    trim = trim;
    flush = flush;
    close = λ fdsk. let (file, e) = os.close fdsk.file in ret (put_back fdsk file, e);
  }
