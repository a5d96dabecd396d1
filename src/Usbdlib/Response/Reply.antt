-- ===== src/Usbdlib/Response/Reply.antt =====
-- What a client finds in the bytes of a reply.
use usbd.Base.{
  Error, ℕ, ◌^◌, ◌<◌, ◌≡◌, refl, sym, ap, ◌∙◌, Option, none, List, [], ◌++◌, append-nil, arith,
  ◌==◌, if◌then◌else◌, length, take, drop, drop-drop, le_value, le_bytes, htonl, be_value, be_bytes,
  slice, length-le_bytes, length-be_bytes, drop-append_of_eq, take-append_of_eq, le_value-le_bytes,
  htonl-lt, be_value-be_bytes,
}
use usbd.Usbdlib.Header.{Header}
use usbd.Usbdlib.Buffer.{contents}
use usbd.Usbdlib.Request.{Request}
use usbd.Usbdlib.Response.{Response, set_response, write_response}

-- The reply's own bytes: magic number, error code, handle.
pub record IsReply (h : Header) (code : ℕ) (handle : List ℕ) (bytes : List ℕ) : Type 0 where
  pub magic : le_value (take 4 bytes) ≡ htonl h.reply_magic
  pub error : be_value (slice 4 4 bytes) ≡ code
  pub same_handle : drop 8 bytes ≡ handle

-- A stream that takes everything: what has been sent so far.
abbrev pub accept : List ℕ → List ℕ → List ℕ × Option Error
accept sent bytes = (sent ++ bytes, none)

module _ (h : Header) where
  -- The reply to a request carries the reply magic, the code, if it is a 32-bit number, and the
  -- handle of that request; the read buffer of the response is left as it is.
  pub set_response-IsReply :
      (resp : Response) (req : Request) (code : ℕ)
      → code < 2 ^ 32
      → IsReply h code req.handle (set_response h resp req code).resp_buffer
        × ((set_response h resp req code).read_buffer ≡ resp.read_buffer)
  unfolding set_response
  set_response-IsReply resp req code small =
      let m = le_bytes 4 (htonl h.reply_magic) in
      let c = be_bytes 4 code in
      let lm : length m ≡ 4 = length-le_bytes 4 (htonl h.reply_magic) in
      let lc : length c ≡ 4 = length-be_bytes 4 code in
      let behind : drop 4 (m ++ (c ++ req.handle)) ≡ c ++ req.handle =
        drop-append_of_eq 4 m (c ++ req.handle) lm in
      (
        record {
          magic =
              ap le_value (take-append_of_eq 4 m (c ++ req.handle) lm)
              ∙ le_value-le_bytes 4 (htonl h.reply_magic) (htonl-lt h.reply_magic);
          error =
              ap (λ t. be_value (take 4 t)) behind
              ∙ ap be_value (take-append_of_eq 4 c req.handle lc)
              ∙ be_value-be_bytes 4 code small;
          same_handle =
              sym (drop-drop 4 4 (m ++ (c ++ req.handle)))
              ∙ ap (drop 4) behind
              ∙ drop-append_of_eq 4 c req.handle lc;
        },
        refl,
      )

  -- On a stream that accepts it, a response is its reply bytes and then, for a read, the whole
  -- read buffer; the error code makes no difference.
  pub write_response_lem :
      (resp : Response) (sent : List ℕ)
      → (write_response h accept resp sent).1
        ≡ (sent ++ resp.resp_buffer)
          ++ (if resp.req_type == h.read then contents resp.read_buffer else [])
  unfolding write_response
  write_response_lem resp sent = ground (arith, append-nil (sent ++ resp.resp_buffer))
