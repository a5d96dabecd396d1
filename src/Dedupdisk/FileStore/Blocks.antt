-- ===== src/Dedupdisk/FileStore/Blocks.antt =====
-- What GetBlock reads after PutBlock, on a new file and on one that is opened again.
use usbd.Base.{
  pos, int64, ℕ, ◌-◌, ◌*◌, ◌/◌, ◌^◌, ◌≤◌, ◌<◌, ◌≡◌, refl, sym, ap, ◌∙◌, false, none, List, arith,
  ltb, ◌==◌, length, take, length-take, slice-file_write, slice, copy_at_full,
}
use usbd.Base.Result.{ok}
use usbd.Dedupdisk.FileStore.{
  FileStore, zero_block_id, new_file_block_store, read_file, get_block, put_block,
}

pub int64_small : (n : ℕ) → n < 2 ^ 63 → int64 (pos n) ≡ pos n
unfolding int64
int64_small n h = ground arith

-- A whole read, of bytes that are there.
pub read_file_whole :
    (file bytes buf : List ℕ) (p : ℕ)
    → slice p (length buf) file ≡ bytes
    → length buf ≡ length bytes
    → read_file file (pos p) buf ≡ (bytes, none)
read_file_whole file bytes buf p got same =
    let whole : ltb (length bytes) (length buf) ≡ false = ground arith in
    rw (got, whole, copy_at_full bytes buf (sym same)) refl

pub get_block_small :
    (fbs : FileStore) (id : ℕ) (buf : List ℕ)
    → id < 2 ^ 64 - 1
    → id * fbs.block_size < 2 ^ 63
    → get_block fbs id buf ≡ read_file fbs.file (pos (id * fbs.block_size)) buf
unfolding get_block
get_block_small fbs id buf small fits =
    let ordinary : (id == zero_block_id) ≡ false = ground arith in
    rw (ordinary, int64_small (id * fbs.block_size) fits) refl

first_block :
    (fbs : FileStore) (buf : List ℕ) → get_block fbs 0 buf ≡ read_file fbs.file (pos 0) buf
first_block fbs buf =
    let start : 0 * fbs.block_size ≡ 0 = omega arith in
    get_block_small fbs 0 buf (omega arith) (omega arith)
    ∙ ap (λ p. read_file fbs.file (pos p) buf) start

-- On a file with blocks in it that is opened again, the first block that is put gets the ID behind
-- the last one but is written to the start of the file: it is the first block that reads as it, with
-- its earlier bytes gone.
pub reopened_overwrites :
    (file buf other : List ℕ)
    → length other ≡ length buf
    → length buf ≤ length file
    → length file < 2 ^ 63
    → ((put_block none (new_file_block_store file (length buf)) buf).0
        ≡ ok (length file / length buf))
      × (get_block (new_file_block_store file (length buf)) 0 other
          ≡ (take (length buf) file, none))
      × (get_block (put_block none (new_file_block_store file (length buf)) buf).1 0 other
          ≡ (buf, none))
unfolding put_block new_file_block_store
reopened_overwrites file buf other same inside fits =
    let old = new_file_block_store file (length buf) in
    let new = (put_block none old buf).1 in
    (
      refl,
      first_block old other
          ∙ read_file_whole file (take (length buf) file) other 0 (rw (same) refl)
              (omega (arith, same, length-take (length buf) file)),
      first_block new other
          ∙ read_file_whole new.file buf other 0 (rw (same) (slice-file_write 0 buf file)) same,
    )
