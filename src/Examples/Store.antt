-- ===== src/Examples/Store.antt =====
-- The cached object store of pkg/devices/objstore, over an environment in memory.
use usbd.Base.{
  shutdown, failed, ret, ℕ, ◌+◌, ◌≡◌, refl, true, false, none, some, List, [], ◌∷◌, length, arith,
}
use usbd.Base.Result.{ok, err}
use usbd.Objstore.Env.{IsStore, bytes_or_nil, Env, Params, Segment, Cell}
use usbd.Objstore.StoreParams.{sync_file}
use usbd.Objstore.Segment.{flush, flush_file, last_op, delete_file}
use usbd.Objstore.Segment.FailedFlush.{failed_flush_forgets}
use usbd.Objstore.Segment.Upload.{flush_uploads}
use usbd.Objstore.Device.{
  Dev, Candidate, candidate, scan, better, io_at, flush_device, flush_dirty, flush_each, close,
  delete_each, on_segment,
}
use usbd.Objstore.Device.Evict.{Usable, dirty_goes_last, candidate-Usable}
use usbd.Objstore.Device.Shutdown.{closed_refuses}

-- The world is a clock; an item is the bytes of its object, and every upload fails.
abbrev broken : Env ℕ (List ℕ)
broken = record {
  claim = λ w. (true, w);
  release = λ w. (true, w);
  fails = λ w. (false, w);
  written = λ w. (0, w);
  now = λ w. (w, w + 1);
  item_size = λ item w. (ok (length item), w);
  item_tag = λ item w. (ok item, w);
  item_open = λ item w. (ok item, w);
  put = λ id bytes size w. (err failed, w);
}

abbrev params : Params
params = record {
  segment_bytes = 2;
  thick_provision = true;
  persist_cache = false;
  has_quota = false;
}

-- A segment with a local file that was not uploaded yet.
abbrev dirty_segment : Segment (List ℕ)
dirty_segment = record {
  id = 0;
  opened = true;
  disk = some (5 ∷ 6 ∷ []);
  tag = none;
  remote_item = none;
  dirty = true;
  backed = true;
  last_read = 1;
  last_write = 2;
}

abbrev cell : Segment (List ℕ) → Cell ℕ (List ℕ)
cell seg = record { world = 9; seg = seg }

abbrev after_flush : Cell ℕ (List ℕ)
after_flush = cell (record dirty_segment { dirty = false })

flush_fails : flush broken params false (cell dirty_segment) ≡ ret (err failed, after_flush)
unfolding flush flush_file sync_file
flush_fails = refl

failed_flush_forgets_example :
    (after_flush.seg.disk ≡ dirty_segment.disk)
    × (flush broken params true after_flush ≡ ret (ok tt, after_flush))
failed_flush_forgets_example =
    failed_flush_forgets broken params false true (cell dirty_segment) after_flush (err failed) refl
      flush_fails

-- The same with uploads that succeed: an object is the bytes that were put.
abbrev working : Env ℕ (List ℕ)
working = record broken { put = λ id bytes size w. (ok bytes, w) }

working-IsStore : IsStore working (λ item. item)
working-IsStore = record {
  put_keeps = λ id bytes size w w' item e full. cc;
  open_reads = λ item w w' bytes e. cc;
}

abbrev after_upload : Cell ℕ (List ℕ)
after_upload = cell (record dirty_segment { dirty = false; remote_item = some (5 ∷ 6 ∷ []) })

flush_passes : flush working params true (cell dirty_segment) ≡ ret (ok tt, after_upload)
unfolding flush flush_file sync_file
flush_passes = refl

flush_uploads_example :
    (item : List ℕ) × (after_upload.seg.remote_item ≡ some item)
    × (item ≡ bytes_or_nil dirty_segment.disk)
flush_uploads_example =
    flush_uploads working params (λ item. item) working-IsStore true (cell dirty_segment)
      after_upload refl refl flush_passes

-- A segment whose data is only in the object store.
abbrev evicted : Segment (List ℕ)
evicted = record dirty_segment {
  opened = false;
  disk = none;
  remote_item = some (5 ∷ 6 ∷ []);
  dirty = false;
  backed = false;
}

-- Segment 1 is cached and clean, segment 2 is not cached.
abbrev cached : List (Segment (List ℕ))
cached = dirty_segment ∷ record dirty_segment { dirty = false } ∷ evicted ∷ []

abbrev second : Candidate
second = record { index = 1; last = 1 }

clean_first : candidate 2 cached ≡ some second
unfolding candidate scan last_op better
clean_first = refl

candidate-Usable_example : Usable cached 2 second
candidate-Usable_example = candidate-Usable cached 2 second clean_first

-- Both cached segments have to be uploaded.
abbrev unsaved : List (Segment (List ℕ))
unsaved = dirty_segment ∷ dirty_segment ∷ evicted ∷ []

abbrev first : Candidate
first = record { index = 0; last = 1 }

dirty_taken : candidate 2 unsaved ≡ some first
unfolding candidate scan last_op better
dirty_taken = refl

dirty_goes_last_example : dirty_segment.dirty ≡ true
dirty_goes_last_example =
    dirty_goes_last unsaved 2 first dirty_segment dirty_taken refl refl 1 dirty_segment refl
      (omega arith) refl

abbrev device : Dev ℕ (List ℕ)
device = record { world = 9; segments = evicted ∷ []; total_bytes = 2; down = false }

closing : close broken params (λ i. true) device ≡ ret (ok tt, record device { down = true })
unfolding close flush_dirty flush_each delete_each on_segment delete_file
closing = refl

closed_refuses_example :
    (io_at broken params true (0 ∷ []) 0 (record device { down = true })
      ≡ ret (ok (0 ∷ [], 0, some shutdown), record device { down = true }))
    × (flush_device broken params (λ i. true) (record device { down = true })
        ≡ ret (err shutdown, record device { down = true }))
    × (close broken params (λ i. true) (record device { down = true })
        ≡ ret (ok tt, record device { down = true }))
closed_refuses_example =
    closed_refuses broken params true (λ i. true) (0 ∷ []) 0 device (record device { down = true })
      (ok tt) closing
