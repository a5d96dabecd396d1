-- ===== src/Usbdlib/Session/Worker.antt =====
-- What a worker makes of a request of the client, on a device that keeps the contract of a disk.
use usbd.Base.{
  ret, ℕ, ◌≡◌, refl, sym, ap, ap₂, ◌∙◌, ◌≢◌, List, [], ◌++◌, append-nil, arith, ◌==◌, if◌then◌else◌,
  length, take_self, length-copy_at, le_bytes, slice, copy_at, htonl, be_bytes,
}
use usbd.Usbdlib.Header.{Header, IsHeader}
use usbd.Usbdlib.Buffer.{contents}
use usbd.Usbdlib.Request.{Request}
use usbd.Usbdlib.Request.Codec.{payload_of}
use usbd.Usbdlib.Response.{Response, set_response, resp_success}
use usbd.Usbdlib.Device.{Device, InDisk, IsDisk}
use usbd.Usbdlib.Execute.{Executed, execute}
use usbd.Usbdlib.Execute.Disk.{Covers, execute-write, execute-read}
use usbd.Usbdlib.Execute.Replies.{Answers, execute-IsSet}
use usbd.Usbdlib.Session.Client.{
  Op, read_op, write_op, IsServable, request_of, IsReceived, bytes_after, reply_to, reply_header,
  writes_before,
}

module _ (h : Header) where
  -- The bytes of one reply on the stream.
  abbrev pub wire : Response → List ℕ
  wire resp =
      resp.resp_buffer ++ (if resp.req_type == h.read then contents resp.read_buffer else [])

  module _ {S : Type 0} (dev : Device S) (req : Request) (resp : Response) (out : Executed S)
      (a : Answers h dev req resp out) (code : out.response.err_code ≡ resp_success) where
    abbrev data_sent : List ℕ
    data_sent = if req.req_type == h.read then contents out.response.read_buffer else []

    wire_of : wire out.response ≡ reply_header h req.handle ++ data_sent
    unfolding set_response
    wire_of =
        let kind : out.response.req_type ≡ req.req_type = ap (λ (r : Response). r.req_type) a.0 in
        let bytes : out.response.resp_buffer
            ≡ le_bytes 4 (htonl h.reply_magic) ++ (be_bytes 4 out.response.err_code ++ req.handle) =
          ap (λ (r : Response). r.resp_buffer) a.0 in
        let coded : (le_bytes 4 (htonl h.reply_magic)
              ++ (be_bytes 4 out.response.err_code ++ req.handle))
            ≡ reply_header h req.handle =
          ap (λ c. le_bytes 4 (htonl h.reply_magic) ++ (be_bytes 4 c ++ req.handle)) code in
        ap₂ ◌++◌ (bytes ∙ coded)
          (ap (λ k. if k == h.read then contents out.response.read_buffer else []) kind)

    wire_of_read :
        (handle bytes : List ℕ)
        → req.req_type ≡ h.read
        → req.handle ≡ handle
        → contents out.response.read_buffer ≡ bytes
        → wire out.response ≡ reply_header h handle ++ bytes
    wire_of_read handle bytes kind same found =
        wire_of ∙ ap₂ ◌++◌ (ap (λ t. reply_header h t) same) (ground (arith, kind, found))

    wire_of_other :
        (handle : List ℕ)
        → req.req_type ≢ h.read
        → req.handle ≡ handle
        → wire out.response ≡ reply_header h handle
    wire_of_other handle kind same =
        wire_of
        ∙ ap₂ ◌++◌ (ap (λ t. reply_header h t) same) (ground (arith, kind))
        ∙ append-nil (reply_header h handle)

module _ (h : Header) (ih : IsHeader h) {S : Type 0} (dev : Device S)
    (IsOpen : List (List ℕ) → S → Type 0) (view : S → List ℕ) (disk : IsDisk dev IsOpen view) where
  -- What the worker makes of one operation.
  pub record Serves (op : Op) (later : List (List ℕ)) (s : S) (req : Request) (out : Executed S)
      : Type 0 where
    pub reply : wire h out.response ≡ reply_to h op (view s)
    pub bytes : view out.state ≡ bytes_after h op (view s)
    pub still : IsOpen later out.state

  received_data :
      {handle bytes : List ℕ} {p : ℕ} {req : Request}
      → IsReceived h (write_op handle p bytes) req
      → contents req.write_buffer ≡ bytes
  received_data {handle} {bytes} {p} {req} r =
      let own : payload_of h (request_of h (write_op handle p bytes)) ≡ bytes =
        ground (arith, take_self bytes) in
      ground (arith, r.kind, r.payload, own)

  pub execute-Serves :
      (op : Op) (later : List (List ℕ)) (s : S) (req : Request) (resp : Response)
      → IsServable h dev.block_size (length (view s)) op
      → IsOpen (writes_before h op later) s
      → IsReceived h op req
      → (out : Executed S) × (execute h dev s req resp ≡ ret out) × Serves op later s req out
  execute-Serves (read_op handle p n) later s req resp v opened r =
      let (out, run, code, found, seen, still) =
        execute-read h dev IsOpen view disk s req resp p n later r.kind opened
          (record { at = r.at; count = r.same_count }) v.in_disk in
      (
        out,
        run,
        record {
          reply =
              wire_of_read h dev req resp out (execute-IsSet h dev s req resp out run) code handle
                (slice p n (view s)) r.kind r.same_handle found;
          bytes = seen;
          still = still;
        },
      )
  execute-Serves (write_op handle p bytes) later s req resp v opened r =
      let same : contents req.write_buffer ≡ bytes = received_data r in
      let covers : Covers req p (length (contents req.write_buffer)) = record {
        at = r.at;
        count = rw same r.same_count;
      } in
      let inside : InDisk dev.block_size (length (view s)) p (length (contents req.write_buffer)) =
        rw same v.in_disk in
      let (out, run, code, seen, still) =
        execute-write h dev IsOpen view disk s req resp p later r.kind ih.read_ne_write
          (rw same opened) covers inside in
      (
        out,
        run,
        record {
          reply =
              wire_of_other h dev req resp out (execute-IsSet h dev s req resp out run) code handle
                (λ e. ih.read_ne_write (sym e ∙ r.kind)) r.same_handle;
          bytes = seen ∙ ap (λ t. copy_at p t (view s)) same;
          still = still;
        },
      )

  pub length-bytes_after : (op : Op) (disk : List ℕ) → length (bytes_after h op disk) ≡ length disk
  length-bytes_after (read_op handle p n) disk = refl
  length-bytes_after (write_op handle p bytes) disk = length-copy_at p bytes disk
