-- ===== src/Dedupdisk/LunMap.antt =====
-- mmapLUNmap of pkg/devices/dedupdisk/impls/mmaplunmap.go: the mapped file as a list of IDs.
pub mod Access
pub mod Entries
use usbd.Base.{
  eof, unexpected_eof, Go, ret, panic, ℕ, ◌+◌, ◌-◌, ◌*◌, ◌/◌, ◌%◌, ◌^◌, none, some, List, [], ◌∷◌,
  ltb, if◌then◌else◌, length, get_elem?, set, replicate, slice,
}
use usbd.Base.Result.{Result, ok, err}
use usbd.Dedupdisk.FileStore.{zero_block_id}

pub record LunMap : Type 0 where
  pub ids : List ℕ
  pub size : ℕ

-- NewMmapLUNmap, on a new file or one of whole IDs. On the latter the IDs are its own, and the size is
-- still that of `if_create_size`.
unfoldable pub new_lun_map : List ℕ → ℕ → ℕ → LunMap
new_lun_map file_ids block_size if_create_size =
    let count = if_create_size / block_size in
    record {
      ids = (elim file_ids [ [] ↦ replicate count zero_block_id | x ∷ xs ↦ x ∷ xs ]);
      size = count * block_size;
    }

-- `ids[block]`
abbrev index : List ℕ → ℕ → Go (Result ℕ)
index ids block = elim (get_elem? ids block) [ none ↦ panic | some id ↦ ret (ok id) ]

unfoldable pub get_id : LunMap → ℕ → Go (Result ℕ)
get_id lm block = if ltb (length lm.ids) block then ret (err eof) else index lm.ids block

unfoldable pub get_ids : LunMap → ℕ → ℕ → Go (Result (List ℕ))
get_ids lm start_block count =
    let end_block = (start_block + count) % 2 ^ 64 in
    if ltb (length lm.ids) end_block
    then ret (err eof)
    else if ltb end_block start_block
    then panic
    else ret (ok (slice start_block (end_block - start_block) lm.ids))

-- The bound is the size in bytes.
unfoldable pub put_id : LunMap → ℕ → ℕ → Go (Result LunMap)
put_id lm block id =
    if ltb lm.size block
    then ret (err unexpected_eof)
    else if ltb block (length lm.ids)
    then ret (ok (record lm { ids = set lm.ids block id }))
    else panic
