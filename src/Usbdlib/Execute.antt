-- ===== src/Usbdlib/Execute.antt =====
-- execute of pkg/usbdlib/reqproc.go: one request against the device.
pub mod Replies
pub mod Disk
use usbd.Base.{
  Error, Go, ret, ◌>>=◌, is_nil, ℤ, pos, negsuc, mod_ℤ, ℕ, Bool, true, false, not, ◌||◌, Option,
  ◌==◌, if◌then◌else◌,
}
use usbd.Usbdlib.Header.{Header}
use usbd.Usbdlib.Buffer.{contents, get_buffer, fill}
use usbd.Usbdlib.Request.{Request}
use usbd.Usbdlib.Response.{Response, set_response, resp_success, resp_err_io, resp_err_invalid}
use usbd.Usbdlib.Device.{Device}

-- What is left after the call: the device, the response, and whether the read lock of `flushMu`
-- that the reader took for the request has been released.
pub record Executed (S : Type 0) : Type 0 where
  pub state : S
  pub response : Response
  pub unlocked : Bool

abbrev pub is_zero : ℤ → Bool
is_zero (pos n) = n == 0
is_zero (negsuc n) = false

-- `req.pos%blockSize != 0 || int64(req.count)%blockSize != 0`
unfoldable pub misaligned : ℕ → Request → Bool
unfolding mod_ℤ
misaligned block_size req =
    not (is_zero (mod_ℤ req.pos block_size)) || not (is_zero (mod_ℤ (pos req.count) block_size))

abbrev pub code_of : Option Error → ℕ
code_of e = if is_nil e then resp_success else resp_err_io

module _ (h : Header) {S : Type 0} (dev : Device S) where
  unfoldable pub execute_read : S → Request → Response → Go (Executed S)
  execute_read s req resp =
      if misaligned dev.block_size req
      then ret (record {
        state = s;
        response = set_response h resp req resp_err_invalid;
        unlocked = false;
      })
      else (do
        let b = get_buffer req.count resp.read_buffer
        (s', buf, n, e) ← dev.read_at s (contents b) req.pos
        ret (record {
          state = s';
          response = set_response h (record resp { read_buffer = fill buf b }) req (code_of e);
          unlocked = false;
        }))

  -- The `break` of a misaligned write comes before the `defer` of the unlock.
  unfoldable pub execute_write : S → Request → Response → Go (Executed S)
  execute_write s req resp =
      if misaligned dev.block_size req
      then ret (record {
        state = s;
        response = set_response h resp req resp_err_invalid;
        unlocked = false;
      })
      else (do
        (s', n, e) ← dev.write_at s (contents req.write_buffer) req.pos
        ret (record {
          state = s';
          response = set_response h resp req (code_of e);
          unlocked = true;
        }))

  -- Once it has the lock of its mutex and has given it back: Processor has the wait for that.
  unfoldable pub execute_flush : S → Request → Response → Go (Executed S)
  execute_flush s req resp = do
    (s', e) ← dev.flush s
    ret (record { state = s'; response = set_response h resp req (code_of e); unlocked = false })

  unfoldable pub execute_trim : S → Request → Response → Go (Executed S)
  execute_trim s req resp = do
    (s', e) ← dev.trim s req.pos req.count
    ret (record { state = s'; response = set_response h resp req (code_of e); unlocked = true })

  unfoldable pub execute : S → Request → Response → Go (Executed S)
  unfolding execute_read execute_write execute_flush execute_trim
  execute s req resp =
      if req.req_type == h.read
      then execute_read s req resp
      else if req.req_type == h.write
      then execute_write s req resp
      else if req.req_type == h.flush
      then execute_flush s req resp
      else if req.req_type == h.trim
      then execute_trim s req resp
      else ret (record {
        state = s;
        response = set_response h resp req resp_err_invalid;
        unlocked = false;
      })
