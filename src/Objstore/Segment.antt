-- ===== src/Objstore/Segment.antt =====
-- segment of pkg/devices/objstore/segment.go. A method runs under the segment's locks, so it is one
-- step here. So is a Flush from a buffer, which gives the file lock back before its upload: a write
-- during the upload is not modelled.
pub mod FailedFlush
pub mod Upload
use usbd.Base.{
  Error, eof, invalid, failed, ℕ, ◌+◌, ◌-◌, Bool, true, false, not, ◌&&◌, Option, none, some, List,
  [], ◌∷◌, ltb, if◌then◌else◌, length, take, replicate, file_write, slice, copy_at,
}
use usbd.Base.Exec.{pure, fail, crash, gets, catch, guard, ◌>>=◌, ◌>>◌}
use usbd.Util.Zeros.{is_zeros}
use usbd.Objstore.Env.{Env, Params, Segment, bytes_or_nil}
use usbd.Objstore.StoreParams.{
  M, ask, change, os_call, release_capacity, create_file, download_file, remove_file, sync_file,
}

module _ {World Item : Type 0} (env : Env World Item) (params : Params) where
  -- Whether there is a local file: without one, `data` is nil.
  unfoldable pub load_file : Bool → M env params Bool
  load_file create_write = do
    seg ← gets (λ c. c.seg)
    if seg.opened then pure true else elim seg.remote_item [
      | none ↦
          if create_write
          then (do
            create_file env params
            change env params (λ s. record s { opened = true; backed = true })
            pure true)
          else pure false
      | some item ↦ do
        there ← download_file env params item
        change env params (λ s. record s { opened = there; backed = true })
        pure there
    ]

  -- What a read or a write returns: the buffer (of a read), the count and the error.
  abbrev pub Access : Type 0
  Access = List ℕ × ℕ × Option Error

  -- ReadAt of an os.File: short at the end of the file.
  unfoldable pub read_disk : List ℕ → ℕ → M env params Access
  read_disk buf at =
      catch (os_call env params)
        (λ _. do
          bytes ← gets (λ c. bytes_or_nil c.seg.disk)
          let got = slice at (length buf) bytes
          pure (
            copy_at 0 got buf,
            length got,
            if ltb (length got) (length buf) then some eof else none,
          ))
        (λ e. pure (buf, 0, some e))

  -- No file and no remote object: zeros, up to the end of the segment.
  unfoldable pub read_empty : List ℕ → ℕ → Access
  read_empty buf at =
      if ltb params.segment_bytes (at + length buf)
      then (let n = params.segment_bytes - at in (copy_at 0 (replicate n 0) buf, n, some eof))
      else (copy_at 0 (replicate (length buf) 0) buf, length buf, none)

  unfoldable pub read_at : List ℕ → ℕ → M env params Access
  read_at buf at = do
    now ← ask env params env.now
    change env params (λ s. record s { last_read = now })
    catch (load_file false) (λ there. if there then read_disk buf at else pure (read_empty buf at))
        (λ e. pure (buf, 0, some e))

  -- The bytes are in the file, which makes it dirty if there are any.
  abbrev pub put_bytes : List ℕ → ℕ → M env params Unit
  put_bytes [] at = pure tt
  put_bytes (b ∷ bytes) at = change env params (λ s. record s {
    disk = some (file_write at (b ∷ bytes) (bytes_or_nil s.disk));
    dirty = true;
  })

  -- WriteAt of an os.File. A write that fails may have written some bytes before.
  unfoldable pub write_disk : List ℕ → ℕ → M env params Access
  write_disk buf at =
      catch (os_call env params) (λ _. do put_bytes buf at; pure ([], length buf, none))
        (λ e. do
          n ← ask env params env.written
          let part = take n buf
          put_bytes part at
          pure ([], length part, some e))

  unfoldable pub write_at : List ℕ → ℕ → M env params Access
  write_at buf at = do
    now ← ask env params env.now
    change env params (λ s. record s { last_write = now })
    opened ← gets (λ c. c.seg.opened)
    if is_zeros buf && not opened
        then pure ([], length buf, none)
        else catch (load_file true)
            (λ there. if there then write_disk buf at else pure ([], 0, some invalid))
            (λ e. pure ([], 0, some e))

  -- `s.remoteItem, err = s.syncFile(...)`: the item is replaced also where there is an error.
  abbrev pub take_item : Item × Option Error → M env params Unit
  take_item r = do
    change env params (λ s. record s { remote_item = some r.0 })
    elim r.1 [ none ↦ pure tt | some e ↦ fail e ]

  abbrev pub drop_item : Error → M env params Unit
  drop_item e = do change env params (λ s. record s { remote_item = none }); fail e

  -- flush: marked clean before the upload.
  unfoldable pub flush_file : Bool → M env params Unit
  flush_file buffered = do
    opened ← gets (λ c. c.seg.opened)
    guard opened failed
    change env params (λ s. record s { dirty = false })
    catch (sync_file env params buffered) take_item drop_item

  -- Flush, with or without a buffer of a segment's size.
  unfoldable pub flush : Bool → M env params Unit
  flush buffered = do
    dirty ← gets (λ c. c.seg.dirty)
    if dirty then flush_file buffered else pure tt

  -- To ask a nil file for its name is a panic, also where the name is for the error's text.
  unfoldable pub delete_file : M env params Unit
  delete_file = do
    seg ← gets (λ c. c.seg)
    if not seg.backed then pure tt else (do
      if seg.dirty
          then catch (flush_file false) pure (λ e. if seg.opened then fail e else crash)
          else pure tt
      if seg.opened then pure tt else crash
      remove_file env params
      change env params (λ s. record s { backed = false; opened = false })
      release_capacity env params)

-- LastOp: the earlier of the last read and the last write.
unfoldable pub last_op : {Item : Type 0} → Segment Item → ℕ
last_op seg = if ltb seg.last_read seg.last_write then seg.last_read else seg.last_write
