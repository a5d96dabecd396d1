-- ===== src/Usbdlib/Session.antt =====
-- processRequests of pkg/usbdlib/reqproc.go. Here is the loop of readStrmWorker alone, on a stream
-- that is there as a whole: the pool may hand out any object at each Get, `reqs` are the objects of
-- the Gets to come. System has all the goroutines, as a step relation.
pub mod Reader
pub mod Client
pub mod System
pub mod Commands
pub mod Worker
pub mod Waiting
pub mod Moves
pub mod Disk
use usbd.Base.{Error, ℕ, zero, suc, List, [], ◌∷◌, ◌==◌, if◌then◌else◌}
use usbd.Base.Result.{Result, ok, err}
use usbd.Usbdlib.Header.{Header}
use usbd.Usbdlib.Request.{Request, decode}

-- Why the reader has stopped.
pub data Stop : Type 0 where
  disconnected : Stop
  undecodable : Error → Stop
  out_of_fuel : Stop

abbrev pub later {ℓ} : {A : Type ℓ} → (ℕ → A) → ℕ → A
later pool i = pool (suc i)

module _ (h : Header) where
  -- The body of the reader's loop; `next` is the rest of the loop.
  unfoldable pub queue_decoded :
      Result (Request × List ℕ) → (List ℕ → List Request × Stop) → List Request × Stop
  queue_decoded (err e) next = ([], undecodable e)
  queue_decoded (ok (req, strm)) next =
      if req.req_type == h.disconnect
      then ([], disconnected)
      else (let (queue, why) = next strm in (req ∷ queue, why))

  unfoldable pub read_strm : ℕ → (ℕ → Request) → List ℕ → List Request × Stop
  unfolding queue_decoded
  read_strm zero reqs strm = ([], out_of_fuel)
  read_strm (suc fuel) reqs strm =
      queue_decoded (decode h (reqs 0) strm) (λ rest. read_strm fuel (later reqs) rest)
