-- ===== src/Objstore/StoreParams.antt =====
-- storeParams of pkg/devices/objstore/storeparams.go: the local file of a segment, and its transfer
-- from and to the object store.
use usbd.Base.{
  Error, capacity, invalid, failed, ret, ℕ, ◌+◌, ◌-◌, Bool, true, false, not, ◌&&◌, ◌||◌, Option,
  none, some, List, [], ◌∷◌, leb, ◌==◌, if◌then◌else◌, length, take, replicate, file_write,
}
use usbd.Base.Result.{Result, ok}
use usbd.Base.Exec.{Exec, pure, fail, crash, gets, catch, modify, guard, ◌>>=◌, ◌>>◌}
use usbd.Objstore.SparseCopy.{sparse_copy}
use usbd.Objstore.Env.{Env, Params, Segment, Cell, is_some, bytes_or_nil, tags_equal}

module _ {World Item : Type 0} (env : Env World Item) (params : Params) where
  abbrev pub M : Type 0 → Type 0
  M = Exec (Cell World Item)

  -- An answer of the environment.
  abbrev pub ask : {A : Type 0} → (World → A × World) → M A
  ask f c = let (a, w) = f c.world in ret (ok a, record c { world = w })

  abbrev pub ask_result : {A : Type 0} → (World → Result A × World) → M A
  ask_result f c = let (r, w) = f c.world in ret (r, record c { world = w })

  abbrev pub change : (Segment Item → Segment Item) → M Unit
  change f = modify (λ c. record c { seg = f c.seg })

  abbrev pub set_disk : Option (List ℕ) → M Unit
  set_disk d = change (λ s. record s { disk = d })

  abbrev pub os_call : M Unit
  os_call = do bad ← ask env.fails; guard (not bad) failed

  unfoldable pub claim_capacity : M Unit
  claim_capacity =
      if params.has_quota then (do free ← ask env.claim; guard free capacity) else pure tt

  unfoldable pub release_capacity : M Unit
  release_capacity =
      if params.has_quota
      then (do done ← ask env.release; if done then pure tt else crash)
      else pure tt

  -- os.Remove of the data file.
  abbrev remove_data : M Unit
  remove_data = do os_call; set_disk none

  abbrev remove_tag : M Unit
  remove_tag = do os_call; change (λ s. record s { tag = none })

  -- The deferred cleanup of createFile: it ignores a failure to remove the file, and does not give
  -- back the capacity.
  unfoldable pub discard : Error → M Unit
  discard e = catch remove_data (λ _. fail e) (λ _. fail e)

  -- A thick file is written in full, a sparse one at its last byte.
  unfoldable pub blank_file : List ℕ
  blank_file =
      if params.thick_provision
      then replicate params.segment_bytes 0
      else file_write (params.segment_bytes - 1) (0 ∷ []) []

  unfoldable pub create_file : M Unit
  create_file = do
    claim_capacity
    os_call
    set_disk (some [])
    catch os_call (λ _. set_disk (some blank_file)) discard

  -- Both files are removed; the first error counts.
  unfoldable pub drop_cached : M Bool
  drop_cached =
      catch remove_data (λ _. do remove_tag; pure false)
        (λ e. catch remove_tag (λ _. fail e) (λ _. fail e))

  -- Whether the file that is there can be used. Any error of Stat means that there is none.
  unfoldable pub reuse : Item → ℕ → List ℕ → M Bool
  reuse item remote_size bytes = do
    os_call
    file_tag ← gets (λ c. c.seg.tag)
    item_tag ← ask_result (env.item_tag item)
    if tags_equal file_tag item_tag && length bytes == remote_size
        then (do os_call; pure true)
        else drop_cached

  unfoldable pub cached_file : Item → ℕ → M Bool
  cached_file item remote_size = do
    data_file ← gets (λ c. c.seg.disk)
    tag_file ← gets (λ c. c.seg.tag)
    if is_some data_file && not (is_some tag_file)
        then (do remove_data; pure false)
        else if not (is_some data_file) && is_some tag_file
        then (do remove_tag; pure false)
        else if not params.persist_cache && (is_some data_file || is_some tag_file)
        then fail invalid
        else if is_some data_file && is_some tag_file
        then reuse item remote_size (bytes_or_nil data_file)
        else pure false

  -- The copy of at most `remote_size + 1` bytes of the stream, and the count that it returns.
  unfoldable pub copied : ℕ → List ℕ → List ℕ × ℕ
  copied remote_size stream =
      let got = take (remote_size + 1) stream in
      if params.thick_provision then (got, length got) else sparse_copy got

  unfoldable pub fetch : Item → ℕ → M Bool
  fetch item remote_size = do
    os_call
    set_disk (some [])
    stream ← ask_result (env.item_open item)
    os_call
    set_disk (some (copied remote_size stream).0)
    guard (leb (length stream) remote_size) invalid
    guard ((copied remote_size stream).1 == remote_size) invalid
    pure true

  -- Whether there is a file: a remote object of size zero is not downloaded.
  unfoldable pub obtain : Item → M Bool
  obtain item = do
    remote_size ← ask_result (env.item_size item)
    if remote_size == 0
        then pure false
        else if not (remote_size == params.segment_bytes)
        then fail invalid
        else (do
          reused ← cached_file item remote_size
          if reused then pure true else fetch item remote_size)

  unfoldable pub download_file : Item → M Bool
  download_file item = do
    claim_capacity
    catch (obtain item) pure (λ e. do release_capacity; fail e)

  -- Close and remove; that the eTag file is missing is no error.
  unfoldable pub remove_file : M Unit
  remove_file = do os_call; remove_data; if params.persist_cache then remove_tag else pure tt

  unfoldable pub persist_etag : Item → M Unit
  persist_etag item = do
    etag ← ask_result (env.item_tag item)
    if length etag == 0 then pure tt else (do os_call; change (λ s. record s { tag = some etag }))

  -- `buffered`: there is an early unlock and a buffer of a segment's capacity. The item comes back
  -- beside the error of persistEtag.
  unfoldable pub sync_file : Bool → M (Item × Option Error)
  sync_file buffered = do
    os_call
    bytes ← gets (λ c. bytes_or_nil c.seg.disk)
    if buffered then (do os_call; guard (length bytes == params.segment_bytes) invalid) else pure tt
    id ← gets (λ c. c.seg.id)
    item ← ask_result (env.put id bytes params.segment_bytes)
    if params.persist_cache
        then catch (persist_etag item) (λ _. pure (item, none)) (λ e. pure (item, some e))
        else pure (item, none)
