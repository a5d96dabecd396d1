-- ===== src/Dedupdisk/FileStore.antt =====
-- fileBlockStore of pkg/devices/dedupdisk/impls/fileblkstore.go. Calls run one at a time, so no write
-- is pending when a block is read, and fsyncWorker changes no byte.
pub mod Blocks
pub mod Held
use usbd.Base.{
  Error, eof, failed, ℤ, pos, negsuc, int64, add64, ℕ, ◌+◌, ◌-◌, ◌*◌, ◌/◌, ◌%◌, ◌^◌, Option, none,
  some, List, [], ◌∷◌, ltb, ◌==◌, if◌then◌else◌, length, take, replicate, file_write, copy_at,
  slice,
}
use usbd.Base.Result.{Result, ok, err}

pub record FileStore : Type 0 where
  pub file : List ℕ
  pub next_id : ℕ
  pub next_pos : ℤ
  pub block_size : ℕ

-- zeroBlockID of pkg/devices/dedupdisk/impls/const.go: math.MaxUint64
abbrev pub zero_block_id : ℕ
zero_block_id = 2 ^ 64 - 1

-- NewFileBlockStore on a file that can be opened. nextPos keeps its zero value.
unfoldable pub new_file_block_store : List ℕ → ℕ → FileStore
new_file_block_store file block_size = record {
  file = file;
  next_id = length file / block_size;
  next_pos = pos 0;
  block_size = block_size;
}

-- ReadAt of an os.File: short at the end of the file, and an error at a negative offset.
abbrev pub read_file : List ℕ → ℤ → List ℕ → List ℕ × Option Error
read_file file (negsuc n) buf = (buf, some failed)
read_file file (pos p) buf =
    let got = slice p (length buf) file in
    (copy_at 0 got buf, if ltb (length got) (length buf) then some eof else none)

unfoldable pub get_block : FileStore → ℕ → List ℕ → List ℕ × Option Error
get_block fbs dedup_id buf =
    if dedup_id == zero_block_id
    then (copy_at 0 (replicate fbs.block_size 0) buf, none)
    else read_file fbs.file (int64 (pos (dedup_id * fbs.block_size))) buf

-- What a WriteAt of an os.File leaves that fails behind these bytes.
abbrev pub write_part : ℕ → List ℕ → List ℕ → List ℕ
write_part p [] file = file
write_part p (b ∷ bytes) file = file_write p (b ∷ bytes) file

-- WriteAt of an os.File: `stops` is none where it succeeds, and else the number of bytes that are
-- written before the error.
abbrev pub write_file : Option ℕ → List ℕ → ℤ → List ℕ → List ℕ × Option Error
write_file stops file (negsuc n) bytes = (file, some failed)
write_file none file (pos p) bytes = (file_write p bytes file, none)
write_file (some k) file (pos p) bytes = (write_part p (take k bytes) file, some failed)

-- The ID and the position are used up also where the write fails.
unfoldable pub put_block : Option ℕ → FileStore → List ℕ → Result ℕ × FileStore
put_block stops fbs buf =
    let (file', e) = write_file stops fbs.file fbs.next_pos buf in
    (
      elim e [ none ↦ ok fbs.next_id | some why ↦ err why ],
      record fbs {
        file = file';
        next_id = (fbs.next_id + 1) % 2 ^ 64;
        next_pos = add64 fbs.next_pos (pos fbs.block_size);
      },
    )
