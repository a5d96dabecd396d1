-- ===== src/Usbdlib/Response.antt =====
-- response of pkg/usbdlib/resp.go: the reply to a request.
pub mod Reply
use usbd.Base.{
  Error, failed, is_nil, ℕ, ◌+◌, Option, none, some, List, [], ◌++◌, ◌==◌, if◌then◌else◌, le_bytes,
  htonl, be_bytes,
}
use usbd.Usbdlib.Header.{Header}
use usbd.Usbdlib.Buffer.{Buffer, contents, empty}
use usbd.Usbdlib.Request.{Request}

pub record Response : Type 0 where
  pub resp_buffer : List ℕ
  pub req_type : ℕ
  pub read_buffer : Buffer
  pub err_code : ℕ

abbrev pub new_response : Response
new_response = record { resp_buffer = []; req_type = 0; read_buffer = empty; err_code = 0 }

-- The codes of nbdutil_linux.go that the program sends.
abbrev pub resp_success : ℕ
resp_success = 0

abbrev pub resp_err_io : ℕ
resp_err_io = 5

abbrev pub resp_err_invalid : ℕ
resp_err_invalid = 22

module _ (h : Header) where
  unfoldable pub set_response : Response → Request → ℕ → Response
  set_response resp req err_code = record resp {
    req_type = req.req_type;
    err_code = err_code;
    resp_buffer = le_bytes 4 (htonl h.reply_magic) ++ (be_bytes 4 err_code ++ req.handle);
  }

  -- `put` is the command stream's Write. WriteTo empties the buffer.
  unfoldable pub write_response :
      {W : Type 0} → (W → List ℕ → W × Option Error) → Response → W → Response × W × Option Error
  write_response put resp strm =
      let (strm', e) = put strm resp.resp_buffer in
      let sent = record resp { resp_buffer = [] } in
      if is_nil e
      then (if resp.req_type == h.read
          then (let (strm2, e2) = put strm' (contents resp.read_buffer) in
              if is_nil e2 then (sent, strm2, none) else (sent, strm2, some failed))
          else (sent, strm', none))
      else (sent, strm', some failed)
