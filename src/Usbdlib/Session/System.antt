-- ===== src/Usbdlib/Session/System.antt =====
-- processRequests of pkg/usbdlib/reqproc.go with all its goroutines, as a step relation: the reader,
-- any number of request workers that take from one queue and end in any order, and the writer. The
-- client at the other end of the stream sends its next request only when it has the reply to the one
-- before. A request object may come out of its pool with any content, its handle of full length.
-- What a worker does between taking a request and its reply is one step, with all the calls of the
-- device. The end of a session is in Session, the lock of a flush in Processor: a disconnect and a
-- flush make no steps here.
use usbd.Base.{
  ret, ℤ, pos, negsuc, ltb_ℤ, ◌+ℤ◌, ℕ, suc, ◌<◌, ◌≡◌, ◌≢◌, Bool, true, false, List, [], ◌∷◌, ◌++◌,
  if◌then◌else◌, length,
}
use usbd.Base.Result.{ok}
use usbd.Usbdlib.Header.{Header}
use usbd.Usbdlib.Request.{Request, decode, encode}
use usbd.Usbdlib.Response.{Response, write_response}
use usbd.Usbdlib.Response.Reply.{accept}
use usbd.Usbdlib.Device.{Device}
use usbd.Usbdlib.Execute.{Executed, execute}
use usbd.Usbdlib.Processor.{queue_limit}
use usbd.Usbdlib.Session.Client.{Op, request_of}

-- How many request workers run. A count is an int that may be negative.
unfoldable pub worker_count : ℤ → ℤ → ℤ
worker_count recommended asked =
    let count = (if ltb_ℤ asked (pos 1) then recommended else asked) +ℤ negsuc 1 in
    if ltb_ℤ count (pos 1) then pos 1 else count

-- The capacity of respQueue.
abbrev pub resp_limit : ℕ
resp_limit = 32

-- `todo` are the requests that the client has not sent yet, and `waits` says that it waits for a
-- reply; `cmd` are the bytes on their way to the reader, `sent` those that the writer has written.
pub record Net (S : Type 0) : Type 0 where
  pub todo : List Op
  pub waits : Bool
  pub cmd : List ℕ
  pub queue : List Request
  pub running : List Request
  pub answered : List Response
  pub sent : List ℕ
  pub state : S

module _ (h : Header) {S : Type 0} (dev : Device S) (workers : ℤ) where
  pub data Move (s : Net S) : Net S → Type 0 where
    send :
        (op : Op) (rest : List Op)
        → s.todo ≡ op ∷ rest
        → s.waits ≡ false
        → Move s (record s { todo = rest; waits = true; cmd = s.cmd ++ encode h (request_of h op) })
    recv :
        (pooled req : Request) (rest : List ℕ)
        → length pooled.handle ≡ h.handle_len
        → length s.queue < queue_limit
        → decode h pooled s.cmd ≡ ok (req, rest)
        → req.req_type ≢ h.disconnect
        → Move s (record s { cmd = rest; queue = s.queue ++ (req ∷ []) })
    start :
        (req : Request) (rest : List Request)
        → s.queue ≡ req ∷ rest
        → ltb_ℤ (pos (length s.running)) workers ≡ true
        → Move s (record s { queue = rest; running = req ∷ s.running })
    finish :
        (before : List Request) (req : Request) (after : List Request) (pooled : Response)
        (out : Executed S)
        → s.running ≡ before ++ (req ∷ after)
        → req.req_type ≢ h.flush
        → length s.answered < resp_limit
        → execute h dev s.state req pooled ≡ ret out
        → Move s (record s {
          running = before ++ after;
          answered = s.answered ++ (out.response ∷ []);
          state = out.state;
        })
    reply :
        (resp : Response) (rest : List Response)
        → s.answered ≡ resp ∷ rest
        → Move s (record s {
          answered = rest;
          sent = (write_response h accept resp s.sent).1;
          waits = false;
        })

  -- A run of so many moves.
  pub data Runs (s : Net S) : ℕ → Net S → Type 0 where
    here : Runs s 0 s
    next : {k : ℕ} {t u : Net S} → Runs s k t → Move t u → Runs s (suc k) u

-- Before the client has sent anything.
abbrev pub start_of : {S : Type 0} → List Op → List ℕ → S → Net S
start_of ops sent s = record {
  todo = ops;
  waits = false;
  cmd = [];
  queue = [];
  running = [];
  answered = [];
  sent = sent;
  state = s;
}
