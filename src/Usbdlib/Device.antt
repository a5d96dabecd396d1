-- ===== src/Usbdlib/Device.antt =====
-- Device of pkg/usbdlib/dev.go: what a user-space device has to provide, as functions on its state.
use usbd.Base.{
  Error, Go, ret, ℤ, pos, ℕ, ◌+◌, ◌%◌, ◌≤◌, ◌<◌, ◌≡◌, Option, none, List, ◌∷◌, length, slice,
  copy_at,
}

-- ReadAt is given the bytes that are in the buffer, and returns those that it leaves there. Counts
-- are signed: a device may return -1.
pub record Device (S : Type 0) : Type 0 where
  pub block_size : ℕ
  pub size : S → ℤ
  pub read_at : S → List ℕ → ℤ → Go (S × List ℕ × ℤ × Option Error)
  pub write_at : S → List ℕ → ℤ → Go (S × ℤ × Option Error)
  pub trim : S → ℤ → ℕ → Go (S × Option Error)
  pub flush : S → Go (S × Option Error)
  pub close : S → Go (S × Option Error)

-- DefaultBlockSizeBytes of pkg/usbdlib/nbdutil_linux.go
abbrev pub default_block_size : ℕ
default_block_size = 4096

-- What is asked of a request's range: whole blocks, inside the disk.
pub record InDisk (block_size total p n : ℕ) : Type 0 where
  pub inside : p + n ≤ total
  pub start_aligned : p % block_size ≡ 0
  pub count_aligned : n % block_size ≡ 0
  pub some_bytes : 0 < n

-- What a device promises while it is open: it is an array of bytes. A read may change the state,
-- as a cache does, but not the bytes. `IsOpen later s`: it is open, and can take the writes of the
-- buffers `later` too, which matters to a device whose space does not only depend on its size.
pub record IsDisk {S : Type 0} (dev : Device S) (IsOpen : List (List ℕ) → S → Type 0)
    (view : S → List ℕ) : Type 0 where
  pub reads :
      (s : S) (buf : List ℕ) (p : ℕ) (later : List (List ℕ))
      → IsOpen later s
      → InDisk dev.block_size (length (view s)) p (length buf)
      → (s' : S) × (dev.read_at s buf (pos p)
          ≡ ret (s', slice p (length buf) (view s), pos (length buf), none))
        × (view s' ≡ view s)
        × IsOpen later s'
  pub writes :
      (s : S) (buf : List ℕ) (p : ℕ) (later : List (List ℕ))
      → IsOpen (buf ∷ later) s
      → InDisk dev.block_size (length (view s)) p (length buf)
      → (s' : S) × (dev.write_at s buf (pos p) ≡ ret (s', pos (length buf), none))
        × (view s' ≡ copy_at p buf (view s))
        × IsOpen later s'
