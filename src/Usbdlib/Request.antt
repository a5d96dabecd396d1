-- ===== src/Usbdlib/Request.antt =====
-- request of pkg/usbdlib/req.go: a request is decoded from the command stream. Encode, of
-- pkg/usbdlib/req_test.go, is the sender's side.
pub mod Codec
pub mod Framing
use usbd.Base.{
  unexpected_eof, bad_magic, ℤ, int64, uint64, ℕ, ◌+◌, List, [], ◌++◌, ◌==◌, if◌then◌else◌, length,
  replicate, read_full, le_value, le_bytes, be_value, be_bytes, htonl, pos,
}
use usbd.Base.Result.{Result, ok, check, need, ◌>>=◌, ◌>>◌}
use usbd.Usbdlib.Header.{Header}
use usbd.Usbdlib.Buffer.{Buffer, contents, empty, get_buffer, fill}

pub record Request : Type 0 where
  pub raw_req : List ℕ
  pub req_type : ℕ
  pub handle : List ℕ
  pub pos : ℤ
  pub count : ℕ
  pub write_buffer : Buffer

module _ (h : Header) where
  unfoldable pub new_request : Request
  new_request = record {
    raw_req = replicate h.req_bytes 0;
    req_type = 0;
    handle = replicate h.handle_len 0;
    pos = pos 0;
    count = 0;
    write_buffer = empty;
  }

  -- The data to be written, for a request that has any.
  unfoldable pub read_payload : Request → List ℕ → Result (Request × List ℕ)
  read_payload req strm =
      if req.req_type == h.write
      then (do
        let b = get_buffer req.count req.write_buffer
        (bytes, rest) ← need (read_full req.count strm) unexpected_eof
        ok (record req { write_buffer = fill bytes b }, rest))
      else ok (req, strm)

  -- The fields, out of the raw request.
  unfoldable pub read_fields : Request → Result Request
  read_fields req = do
    (magic, rdr1) ← need (read_full 4 req.raw_req) unexpected_eof
    check (le_value magic == htonl h.request_magic) bad_magic
    (kind, rdr2) ← need (read_full 4 rdr1) unexpected_eof
    (handle, rdr3) ← need (read_full (length req.handle) rdr2) unexpected_eof
    (position, rdr4) ← need (read_full 8 rdr3) unexpected_eof
    (count, rdr5) ← need (read_full 4 rdr4) unexpected_eof
    ok (record req {
      req_type = be_value kind;
      handle = handle;
      pos = int64 (pos (be_value position));
      count = be_value count;
    })

  -- A request that fails to decode is dropped by its caller, so only the error is kept of it.
  unfoldable pub decode : Request → List ℕ → Result (Request × List ℕ)
  decode req strm = do
    (raw, rest) ← need (read_full h.req_bytes strm) unexpected_eof
    parsed ← read_fields (record req { raw_req = raw })
    read_payload parsed rest

  -- The sender's side; its check of the buffer's length is a hypothesis of the round trip.
  unfoldable pub encode : Request → List ℕ
  encode req =
      le_bytes 4 (htonl h.request_magic)
      ++ (be_bytes 4 req.req_type
          ++ (req.handle
              ++ (be_bytes 8 (uint64 req.pos)
                  ++ (be_bytes 4 req.count
                      ++ (if req.req_type == h.write then contents req.write_buffer else [])))))
