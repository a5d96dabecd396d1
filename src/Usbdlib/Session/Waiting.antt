-- ===== src/Usbdlib/Session/Waiting.antt =====
-- The states that System goes through with a client that waits for each reply, on a device that
-- keeps the contract of a disk.
use mathlib.Core.Path.{subst}
use usbd.Base.{
  ret, ℤ, pos, ltb_ℤ, ℕ, ◌+◌, ◌*◌, ◌<◌, ◌≡◌, refl, sym, ap, ap₂, ◌∙◌, ◌⊎◌, inl, inr, true, false,
  List, [], ◌∷◌, ◌++◌, append-nil, append_assoc, arith, ◌==◌, if◌then◌else◌, length,
  length-replicate,
}
use usbd.Usbdlib.Buffer.{contents}
use usbd.Usbdlib.Header.{Header, IsHeader}
use usbd.Usbdlib.Request.{Request, new_request, encode}
use usbd.Usbdlib.Response.{Response, new_response, write_response}
use usbd.Usbdlib.Response.Reply.{accept, write_response_lem}
use usbd.Usbdlib.Device.{Device, IsDisk}
use usbd.Usbdlib.Execute.{Executed, execute}
use usbd.Usbdlib.Session.Client.{
  Op, IsServable, AreServable, request_of, IsReceived, writes_of, replies_to, all_after,
}
use usbd.Usbdlib.Session.System.{worker_count, Net, Move, send, recv, start, finish, reply}
use usbd.Usbdlib.Session.Commands.{decode-request_of, request_of-Plain}
use usbd.Usbdlib.Session.Worker.{wire, execute-Serves, length-bytes_after}

worker_count-Positive :
    (recommended asked : ℤ) → ltb_ℤ (pos 0) (worker_count recommended asked) ≡ true
unfolding worker_count
worker_count-Positive recommended asked = ground arith

new_request-fits : (h : Header) → length (new_request h).handle ≡ h.handle_len
unfolding new_request
new_request-fits h = length-replicate h.handle_len 0

module _ (h : Header) (ih : IsHeader h) {S : Type 0} (dev : Device S)
    (IsOpen : List (List ℕ) → S → Type 0) (view : S → List ℕ) (disk : IsDisk dev IsOpen view)
    (total : ℕ) (stream last : List ℕ) where
  -- What is still to be done leads to the stream `stream` and the bytes `last`.
  pub record Left (ops : List Op) (sent : List ℕ) (s : S) : Type 0 where
    pub fit : AreServable h dev.block_size total ops
    pub open_for : IsOpen (writes_of h ops) s
    pub sized : length (view s) ≡ total
    pub replies : sent ++ replies_to h ops (view s) ≡ stream
    pub bytes : all_after h ops (view s) ≡ last

  -- Where the one request is that is under way, with the number of moves that are left.
  pub data Phase : ℕ → Net S → Type 0 where
    idle :
        (ops : List Op) (sent : List ℕ) (s : S)
        → Left ops sent s
        → Phase (5 * length ops) (record {
          todo = ops;
          waits = false;
          cmd = [];
          queue = [];
          running = [];
          answered = [];
          sent = sent;
          state = s;
        })
    flying :
        (op : Op) (ops : List Op) (sent : List ℕ) (s : S)
        → Left (op ∷ ops) sent s
        → Phase (4 + 5 * length ops) (record {
          todo = ops;
          waits = true;
          cmd = encode h (request_of h op);
          queue = [];
          running = [];
          answered = [];
          sent = sent;
          state = s;
        })
    queued :
        (op : Op) (req : Request) (ops : List Op) (sent : List ℕ) (s : S)
        → Left (op ∷ ops) sent s
        → IsReceived h op req
        → Phase (3 + 5 * length ops) (record {
          todo = ops;
          waits = true;
          cmd = [];
          queue = req ∷ [];
          running = [];
          answered = [];
          sent = sent;
          state = s;
        })
    busy :
        (op : Op) (req : Request) (ops : List Op) (sent : List ℕ) (s : S)
        → Left (op ∷ ops) sent s
        → IsReceived h op req
        → Phase (2 + 5 * length ops) (record {
          todo = ops;
          waits = true;
          cmd = [];
          queue = [];
          running = req ∷ [];
          answered = [];
          sent = sent;
          state = s;
        })
    replied :
        (resp : Response) (ops : List Op) (sent : List ℕ) (s : S)
        → Left ops (write_response h accept resp sent).1 s
        → Phase (1 + 5 * length ops) (record {
          todo = ops;
          waits = true;
          cmd = [];
          queue = [];
          running = [];
          answered = resp ∷ [];
          sent = sent;
          state = s;
        })

  -- A request that is executed leaves the rest to be done.
  pub executed-Left :
      (op : Op) (req : Request) (ops : List Op) (sent : List ℕ) (s : S) (pooled : Response)
      → Left (op ∷ ops) sent s
      → IsReceived h op req
      → (out : Executed S) × (execute h dev s req pooled ≡ ret out)
        × Left ops (write_response h accept out.response sent).1 out.state
  executed-Left op req ops sent s pooled left r =
      let (out, run, serves) =
        execute-Serves h ih dev IsOpen view disk op (writes_of h ops) s req pooled
          (subst (λ (m : ℕ). IsServable h dev.block_size m op) (sym left.sized) left.fit.0)
          left.open_for r in
      (
        out,
        run,
        record {
          fit = left.fit.1;
          open_for = serves.still;
          sized =
              ap length serves.bytes
              ∙ length-bytes_after h ih dev IsOpen view disk op (view s)
              ∙ left.sized;
          replies =
              ap (λ t. t ++ replies_to h ops (view out.state))
                (write_response_lem h out.response sent
                  ∙ append_assoc sent out.response.resp_buffer (
                      if out.response.req_type == h.read
                      then contents out.response.read_buffer
                      else []))
              ∙ append_assoc sent (wire h out.response) (replies_to h ops (view out.state))
              ∙ ap₂ (λ w b. sent ++ (w ++ replies_to h ops b)) serves.reply serves.bytes
              ∙ left.replies;
          bytes = ap (all_after h ops) serves.bytes ∙ left.bytes;
        },
      )

  -- Where moves are left one of them can be made, and otherwise all is done.
  pub Phase-goes_on :
      {m : ℕ} {t : Net S}
      → (recommended asked : ℤ) → Phase m t
      → ((m ≡ 0)
          × (t.todo ≡ [])
          × (t.waits ≡ false)
          × (t.sent ≡ stream)
          × (view t.state ≡ last)
          × IsOpen [] t.state)
        ⊎ ((0 < m) × ((u : Net S) × Move h dev (worker_count recommended asked) t u))
  Phase-goes_on recommended asked (idle [] sent s left) =
      inl (refl, refl, refl, sym (append-nil sent) ∙ left.replies, left.bytes, left.open_for)
  Phase-goes_on recommended asked (idle (op ∷ ops) sent s left) =
      inr (omega arith, (_, send op ops refl refl))
  Phase-goes_on recommended asked (flying op ops sent s left) =
      let (req, got, r) =
        decode-request_of h ih dev.block_size total op (new_request h) left.fit.0
          (new_request-fits h) in
      inr (
        omega arith,
        (
          _,
          recv (new_request h) req [] (new_request-fits h) (omega arith) got
              (request_of-Plain h ih op req r).0,
        ),
      )
  Phase-goes_on recommended asked (queued op req ops sent s left r) =
      inr (omega arith, (_, start req [] refl (worker_count-Positive recommended asked)))
  Phase-goes_on recommended asked (busy op req ops sent s left r) =
      let (out, run, _) = executed-Left op req ops sent s new_response left r in
      inr (
        omega arith,
        (
          _,
          finish [] req [] new_response out refl (request_of-Plain h ih op req r).1 (omega arith)
              run,
        ),
      )
  Phase-goes_on recommended asked (replied resp ops sent s left) =
      inr (omega arith, (_, reply resp [] refl))
