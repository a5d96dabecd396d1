-- ===== src/Objstore/Device.antt =====
-- device of pkg/devices/objstore/device.go. A device operation is run by itself: the retry of
-- removeLeastRecentUsed, for a segment that another goroutine uses meanwhile, does not come up, and
-- the goroutines of flush run in the order of the segments. Positions are not negative.
pub mod Evict
pub mod Shutdown
use usbd.Base.{
  Error, eof, shutdown, capacity, failed, Go, ret, panic, ℕ, zero, suc, ◌+◌, ◌-◌, ◌/◌, ◌%◌, Bool,
  true, false, not, ◌||◌, Option, none, some, List, [], ◌∷◌, ltb, ◌==◌, if◌then◌else◌, length,
  get_elem?, set, take, drop, copy_at,
}
use usbd.Base.Result.{Result}
use usbd.Base.Exec.{Exec, pure, fail, crash, gets, catch, modify, ◌>>=◌, ◌>>◌}
use usbd.Objstore.Env.{Env, Params, Segment}
use usbd.Objstore.StoreParams.{M}
use usbd.Objstore.Segment.{Access, read_at, write_at, flush, delete_file, last_op}

pub record Dev (World Item : Type 0) : Type 0 where
  pub world : World
  pub segments : List (Segment Item)
  pub total_bytes : ℕ
  pub down : Bool  -- the context was cancelled

-- A candidate of removeLeastRecentUsed: its index and the time of its last operation.
pub record Candidate : Type 0 where
  pub index : ℕ
  pub last : ℕ

-- `lastOp.Before(candLastOp) || candLastOp.IsZero()`
unfoldable pub better : ℕ → Option Candidate → Bool
better last none = true
better last (some c) = ltb last c.last || c.last == 0

module _ {Item : Type 0} where
  -- The scan over the segments: the clean and the dirty candidate.
  unfoldable pub scan :
      (for_idx i : ℕ)
      → List (Segment Item)
      → Option Candidate
      → Option Candidate
      → Option Candidate × Option Candidate
  scan for_idx i [] clean dirty = (clean, dirty)
  scan for_idx i (seg ∷ segs) clean dirty =
      let here = some (record { index = i; last = last_op seg }) in
      if i == for_idx || not seg.backed
      then scan for_idx (suc i) segs clean dirty
      else if seg.dirty
      then scan for_idx (suc i) segs clean (if better (last_op seg) dirty then here else dirty)
      else scan for_idx (suc i) segs (if better (last_op seg) clean then here else clean) dirty

  -- A clean candidate goes first.
  unfoldable pub candidate : ℕ → List (Segment Item) → Option Candidate
  candidate for_idx segs =
      let (clean, dirty) = scan for_idx 0 segs none none in
      elim clean [ none ↦ dirty | some c ↦ some c ]

-- `errors.Is(err, errCapacityClaim)`
unfoldable pub is_capacity : Error → Bool
is_capacity Error.capacity = true
is_capacity e = false

module _ {World Item : Type 0} (env : Env World Item) (params : Params) where
  abbrev pub D : Type 0 → Type 0
  D = Exec (Dev World Item)

  abbrev pub run_on :
      {A : Type 0}
      → ℕ
      → M env params A
      → Dev World Item
      → Option (Segment Item)
      → Go (Result A × Dev World Item)
  run_on i m d none = panic
  run_on i m d (some seg) = elim (m (record { world = d.world; seg = seg })) [
    | ret (r, c) ↦ ret (r, record d { world = c.world; segments = set d.segments i c.seg })
    | panic ↦ panic
  ]

  -- A method of `&dev.segments[i]`.
  unfoldable pub on_segment : {A : Type 0} → ℕ → M env params A → D A
  on_segment i m d = run_on i m d (get_elem? d.segments i)

  unfoldable pub remove_least_recent_used : ℕ → D ℕ
  remove_least_recent_used for_idx = do
    segs ← gets (λ d. d.segments)
    elim (candidate for_idx segs) [
      | none ↦ fail failed
      | some c ↦ do on_segment c.index (delete_file env params); pure c.index
    ]

  abbrev access : Bool → List ℕ → ℕ → M env params (Access env params)
  access read_op buf at = if read_op then read_at env params buf at else write_at env params buf at

  -- The access of one segment: where the quota is used up, another segment is removed, at most
  -- `tries` times.
  unfoldable pub attempt : ℕ → Bool → ℕ → List ℕ → ℕ → D (Access env params)
  attempt zero read_op seg_id buf at = on_segment seg_id (access read_op buf at)
  attempt (suc tries) read_op seg_id buf at = do
    (got, count, e) ← on_segment seg_id (access read_op buf at)
    elim e [
      | none ↦ pure (got, count, none)
      | some e ↦
          if is_capacity e
          then catch (remove_least_recent_used seg_id) (λ _. attempt tries read_op seg_id buf at)
              (λ e. pure (got, count, some e))
          else pure (got, count, some e)
    ]

  abbrev max_cap_tries : ℕ
  max_cap_tries = 10

  -- The loop of ioAt, with `left` segments from `seg_id` on, and `total` bytes of `buf` done.
  unfoldable pub io_loop : ℕ → Bool → ℕ → ℕ → ℕ → List ℕ → D (Access env params)
  io_loop zero read_op seg_id at total buf =
      if ltb total (length buf) then pure (buf, total, some eof) else pure (buf, total, none)
  io_loop (suc left) read_op seg_id at total buf =
      if ltb total (length buf)
      then (do
        (got, count, e) ←
            attempt max_cap_tries read_op seg_id (take (params.segment_bytes - at) (drop total buf))
              at
        elim e [
          | none ↦
              io_loop left read_op (suc seg_id) 0 (total + count)
                (if read_op then copy_at total got buf else buf)
          | some e ↦ pure (if read_op then copy_at total got buf else buf, count, some e)
        ])
      else pure (buf, total, none)

  unfoldable pub io_at : Bool → List ℕ → ℕ → D (Access env params)
  io_at read_op buf position = do
    d ← gets (λ d. d)
    if d.down
        then pure (buf, 0, some shutdown)
        else if ltb d.total_bytes position
        then pure (buf, 0, some eof)
        else if params.segment_bytes == 0
        then crash
        else io_loop (length d.segments - position / params.segment_bytes) read_op
            (position / params.segment_bytes) (position % params.segment_bytes) 0 buf

  -- The error that is returned is the first one; the other segments are flushed all the same.
  unfoldable pub flush_each : (ℕ → Bool) → ℕ → List (Segment Item) → D Unit
  flush_each has_buffer i [] = pure tt
  flush_each has_buffer i (seg ∷ segs) =
      if seg.dirty
      then catch (on_segment i (flush env params (has_buffer i)))
          (λ _. flush_each has_buffer (suc i) segs)
          (λ e. do flush_each has_buffer (suc i) segs; fail e)
      else flush_each has_buffer (suc i) segs

  -- `has_buffer` says for which segments getBuf has a buffer.
  unfoldable pub flush_dirty : (ℕ → Bool) → D Unit
  flush_dirty has_buffer = do segs ← gets (λ d. d.segments); flush_each has_buffer 0 segs

  unfoldable pub flush_device : (ℕ → Bool) → D Unit
  flush_device has_buffer = do
    down ← gets (λ d. d.down)
    if down then fail shutdown else flush_dirty has_buffer

  unfoldable pub delete_each : ℕ → List (Segment Item) → D Unit
  delete_each i [] = pure tt
  delete_each i (seg ∷ segs) =
      catch (on_segment i (delete_file env params)) (λ _. delete_each (suc i) segs)
        (λ e. do delete_each (suc i) segs; fail e)

  unfoldable pub close : (ℕ → Bool) → D Unit
  close has_buffer = do
    down ← gets (λ d. d.down)
    if down then pure tt else (do
      modify (λ d. record d { down = true })
      flush_dirty has_buffer
      segs ← gets (λ d. d.segments)
      if params.persist_cache then pure tt else delete_each 0 segs)
