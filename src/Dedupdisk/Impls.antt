-- ===== src/Dedupdisk/Impls.antt =====
-- The three stores of pkg/devices/dedupdisk/impls as those of one device, as NewDedupDisk and
-- dedupDiskFromCfg of cmd/usbdsrvd/dedup.go put them together.
pub mod Laws
pub mod Stored
pub mod Contract
pub mod Healthy
pub mod Disk
pub mod Contents
pub mod Served
use usbd.Base.{Go, ret, panic, pos, ℕ, false, Option, none, some, List, [], ◌∷◌, replicate}
use usbd.Base.Result.{Result, ok, err, ◌>>=◌}
use usbd.Base.Exec.{Exec, from_result}
use usbd.Usbdlib.Device.{default_block_size}
use usbd.Dedupdisk.Stores.{Stores}
use usbd.Dedupdisk.Device.{DedupDisk}
use usbd.Dedupdisk.FileStore.{FileStore, new_file_block_store}
use usbd.Dedupdisk.FileStore as FileStore
use usbd.Dedupdisk.LunMap.{LunMap, new_lun_map}
use usbd.Dedupdisk.LunMap as LunMap
use usbd.Dedupdisk.IdStore.{Db, IdStore}
use usbd.Dedupdisk.IdStore as IdStore

pub record Parts (D : Type 0) : Type 0 where
  pub lun : LunMap
  pub ids : IdStore D
  pub blocks : FileStore

-- What the operating system does: after how many bytes the write of the block with an ID
-- fails, if it does, and what the Sync and Close of the two files return.
pub record Faults : Type 0 where
  pub write_fails : ℕ → Option ℕ
  pub map_sync : Result (Unit {0})
  pub map_close : Result (Unit {0})
  pub blocks_sync : Result (Unit {0})
  pub blocks_close : Result (Unit {0})

-- mmapLUNmap's Close: an error of the file comes before one of Flush.
abbrev pub close_lun : Result (Unit {0}) → Result (Unit {0}) → Result (Unit {0})
close_lun (ok u) flushed = flushed
close_lun (err e) flushed = err e

module _ {D : Type 0} where
  abbrev pub on_ids : {A : Type 0} → Exec (IdStore D) A → Exec (Parts D) A
  on_ids m s = elim (m s.ids) [ ret (r, ids) ↦ ret (r, record s { ids = ids }) | panic ↦ panic ]

  abbrev pub ask_lun : {A : Type 0} → (LunMap → Go (Result A)) → Exec (Parts D) A
  ask_lun f s = elim (f s.lun) [ ret r ↦ ret (r, s) | panic ↦ panic ]

  abbrev pub set_lun : (LunMap → Go (Result LunMap)) → Exec (Parts D) Unit
  set_lun f s = elim (f s.lun) [
    | ret (ok lun) ↦ ret (ok tt, record s { lun = lun })
    | ret (err e) ↦ ret (err e, s)
    | panic ↦ panic
  ]

  abbrev pub read_block : ℕ → ℕ → Exec (Parts D) (List ℕ)
  read_block id n s =
      let (bytes, e) = FileStore.get_block s.blocks id (replicate n 0) in
      elim e [ none ↦ ret (ok bytes, s) | some why ↦ ret (err why, s) ]

  abbrev pub add_block : Faults → List ℕ → Exec (Parts D) ℕ
  add_block os buf s =
      let (r, blocks) = FileStore.put_block (os.write_fails s.blocks.next_id) s.blocks buf in
      ret (r, record s { blocks = blocks })

  abbrev pub impls : Faults → Db D → (List ℕ → List ℕ) → Stores (Parts D)
  impls os db sha1 = record {
    get_id = λ block. ask_lun (λ lun. LunMap.get_id lun block);
    get_ids = λ block n. ask_lun (λ lun. LunMap.get_ids lun block n);
    put_id = λ block id. set_lun (λ lun. LunMap.put_id lun block id);
    lookup = λ buf. on_ids (IdStore.get_id db sha1 buf);
    put_hash = λ hash id. on_ids (IdStore.put_id db sha1 hash id);
    get_block = read_block;
    put_block = add_block os;
    resources =
        (from_result os.map_sync, from_result (close_lun os.map_close os.map_sync))
        ∷ (on_ids (IdStore.flush db sha1), on_ids (IdStore.close db sha1))
        ∷ (from_result os.blocks_sync, from_result os.blocks_close)
        ∷ [];
  }

  -- NewDedupDisk: the size is that of the LUN map.
  abbrev pub new_dedup_disk : ℕ → Parts D → DedupDisk (Parts D)
  new_dedup_disk block_size parts = record {
    stores = parts;
    block_size = block_size;
    size = pos parts.lun.size;
    down = false;
    closed = false;
  }

  -- On the IDs of the map's file, the database and the bytes of the block file, or the errors of
  -- opening them.
  unfoldable pub dedup_disk_from_cfg :
      Result (List ℕ) → Result D → Result (List ℕ) → ℕ → Result (DedupDisk (Parts D))
  dedup_disk_from_cfg map_file db_open block_file storage_bytes = do
    file_ids ← map_file
    database ← db_open
    file ← block_file
    ok (
        new_dedup_disk default_block_size (record {
          lun = new_lun_map file_ids default_block_size storage_bytes;
          ids = record { database = database; closed = false };
          blocks = new_file_block_store file default_block_size;
        }))
