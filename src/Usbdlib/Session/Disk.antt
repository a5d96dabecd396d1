-- ===== src/Usbdlib/Session/Disk.antt =====
-- A session with any number of workers on a device that keeps the contract of a disk, as a server of
-- an array of bytes.

use usbd.Base.{ℤ, ℕ, ◌+◌, ◌*◌, ◌<◌, ◌≡◌, refl, ◌⊎◌, inl, inr, false, List, [], ◌++◌, arith, length}
use usbd.Usbdlib.Header.{Header, IsHeader}
use usbd.Usbdlib.Device.{Device, IsDisk}
use usbd.Usbdlib.Session.Client.{Op, AreServable, all_after, replies_to, writes_of}
use usbd.Usbdlib.Session.System.{worker_count, Net, Move, Runs, here, next, start_of}
use usbd.Usbdlib.Session.Waiting.{Phase, idle, Phase-goes_on}
use usbd.Usbdlib.Session.Moves.{Move-Phase}

module _ (h : Header) {S : Type 0} (dev : Device S) (IsOpen : List (List ℕ) → S → Type 0)
    (view : S → List ℕ) (ops : List Op) (sent disk : List ℕ) where
  -- The client has the replies that an array of the bytes `disk` gives, and the device its bytes.
  pub record IsServed (t : Net S) : Type 0 where
    pub nothing_left : t.todo ≡ []
    pub nothing_awaited : t.waits ≡ false
    pub replies : t.sent ≡ sent ++ replies_to h ops disk
    pub bytes : view t.state ≡ all_after h ops disk
    pub still : IsOpen [] t.state

module _ (h : Header) (ih : IsHeader h) {S : Type 0} (dev : Device S)
    (IsOpen : List (List ℕ) → S → Type 0) (view : S → List ℕ) (disk : IsDisk dev IsOpen view) where
  Runs-Phase :
      (workers : ℤ) (s : S) (ops : List Op) (sent : List ℕ)
      → AreServable h dev.block_size (length (view s)) ops
      → IsOpen (writes_of h ops) s
      → {k : ℕ} {t : Net S} → Runs h dev workers (start_of ops sent s) k t
      → (m : ℕ) × (k + m ≡ 5 * length ops)
        × Phase h ih dev IsOpen view disk
            (length (view s))
            (sent ++ replies_to h ops (view s))
            (all_after h ops (view s))
            m
            t
  Runs-Phase workers s ops sent fit opened here = (
    5 * length ops,
    omega arith,
    idle ops sent s
        (record { fit = fit; open_for = opened; sized = refl; replies = refl; bytes = refl }),
  )
  Runs-Phase workers s ops sent fit opened (next runs move) =
      let (m, sum, phase) = Runs-Phase workers s ops sent fit opened runs in
      let (r, one, after) =
        Move-Phase h ih dev IsOpen view disk (length (view s)) (sent ++ replies_to h ops (view s))
          (all_after h ops (view s)) phase move in
      (r, omega arith, after)

  -- A client sends reads and writes of whole blocks inside the disk, each when it has the reply to
  -- the one before, to a device that keeps the contract of a disk and is open for the writes; any
  -- number of workers is asked for. However the goroutines take their turns, five moves for each
  -- request are made and no more: before that some move can be made, and then the client has had
  -- all replies, just the replies of success that an array of bytes gives in that order, each read
  -- with the bytes that the earlier writes have left, and the device has the bytes of the array. The
  -- calls of the device for one request are one move, and there is no flush, trim or disconnect.
  pub waiting_client-refines :
      {k : ℕ} {t : Net S} (recommended asked : ℤ) (s : S) (ops : List Op) (sent : List ℕ)
      → AreServable h dev.block_size (length (view s)) ops
      → IsOpen (writes_of h ops) s
      → Runs h dev (worker_count recommended asked) (start_of ops sent s) k t
      → ((k ≡ 5 * length ops) × IsServed h dev IsOpen view ops sent (view s) t)
        ⊎ ((k < 5 * length ops) × ((u : Net S) × Move h dev (worker_count recommended asked) t u))
  waiting_client-refines recommended asked s ops sent fit opened runs =
      let (m, sum, phase) =
        Runs-Phase (worker_count recommended asked) s ops sent fit opened runs in
      elim (Phase-goes_on h ih dev IsOpen view disk (length (view s))
        (sent ++ replies_to h ops (view s)) (all_after h ops (view s)) recommended asked phase) [
          | inl (no_more, todo, waits, replies, bytes, still) ↦ inl (
            omega arith,
            record {
              nothing_left = todo;
              nothing_awaited = waits;
              replies = replies;
              bytes = bytes;
              still = still;
            },
          )
          | inr (some_left, move) ↦ inr (omega arith, move)
        ]
