-- ===== src/Usbdlib/Execute/Replies.antt =====
-- What execute answers on each of its branches, and which branches give back the read lock.
use usbd.Base.{ret, ℕ, ◌≡◌, refl, ◌∙◌, ◌≢◌, ◌↔◌, ◌⊎◌, inl, true, false, List, ◌++◌, arith}
use usbd.Usbdlib.Header.{Header, IsHeader}
use usbd.Usbdlib.Request.{Request}
use usbd.Usbdlib.Response.{
  Response, set_response, resp_success, resp_err_io, resp_err_invalid, write_response,
}
use usbd.Usbdlib.Response.Reply.{accept, write_response_lem}
use usbd.Usbdlib.Device.{Device}
use usbd.Usbdlib.Execute.{
  Executed, misaligned, execute_read, execute_write, execute_flush, execute_trim, execute, contents,
}

module _ (h : Header) {S : Type 0} (dev : Device S) where
  -- The response is the one that was handed in, up to its read buffer, set to one of three codes.
  abbrev pub Answers : Request → Response → Executed S → Type 0
  Answers req resp out =
      (out.response
        ≡ set_response h (record resp { read_buffer = out.response.read_buffer }) req
            out.response.err_code)
      × ((out.response.err_code ≡ resp_success)
          ⊎ ((out.response.err_code ≡ resp_err_io) ⊎ (out.response.err_code ≡ resp_err_invalid)))

  module _ (s : S) (req : Request) (resp : Response) (out : Executed S) where
    execute_read-IsSet : execute_read h dev s req resp ≡ ret out → Answers req resp out
    unfolding execute_read set_response
    execute_read-IsSet e = ground arith

    execute_write-IsSet : execute_write h dev s req resp ≡ ret out → Answers req resp out
    unfolding execute_write set_response
    execute_write-IsSet e = ground arith

    execute_flush-IsSet : execute_flush h dev s req resp ≡ ret out → Answers req resp out
    unfolding execute_flush set_response
    execute_flush-IsSet e = ground arith

    execute_trim-IsSet : execute_trim h dev s req resp ≡ ret out → Answers req resp out
    unfolding execute_trim set_response
    execute_trim-IsSet e = ground arith

    pub execute-IsSet : execute h dev s req resp ≡ ret out → Answers req resp out
    unfolding execute set_response
    execute-IsSet e = ground arith

  -- A read or a write that is not made of whole blocks is answered as invalid and never reaches
  -- the device; neither does a request of an unknown type.
  pub execute_rejects :
      (s : S) (req : Request) (resp : Response)
      → ((misaligned dev.block_size req ≡ true)
          × ((req.req_type ≡ h.read) ⊎ (req.req_type ≡ h.write)))
        ⊎ ((req.req_type ≢ h.read)
            × (req.req_type ≢ h.write)
            × (req.req_type ≢ h.flush)
            × (req.req_type ≢ h.trim))
      → execute h dev s req resp
        ≡ ret (record {
          state = s;
          response = set_response h resp req resp_err_invalid;
          unlocked = false;
        })
  unfolding execute
  execute_rejects s req resp m = ground arith

  -- The read lock is given back exactly by a trim and by a write of whole blocks.
  pub unlocked_iff :
      (s : S) (req : Request) (resp : Response) (out : Executed S)
      → IsHeader h
      → execute h dev s req resp ≡ ret out
      → (out.unlocked ≡ true) ↔ (
          ((req.req_type ≡ h.write) × (misaligned dev.block_size req ≡ false))
          ⊎ (req.req_type ≡ h.trim))
  unfolding execute
  unlocked_iff s req resp out ih e = (λ u. ground arith, λ c. ground arith)

  -- A read that is not made of whole blocks is refused as invalid, and on a stream that takes
  -- everything its reply is still followed by all that an earlier use of the response left in its
  -- read buffer.
  pub refused_read_sends_data :
      (s : S) (req : Request) (resp : Response) (sent : List ℕ)
      → req.req_type ≡ h.read
      → misaligned dev.block_size req ≡ true
      → (out : Executed S) × (execute h dev s req resp ≡ ret out)
        × (out.response.err_code ≡ resp_err_invalid)
        × ((write_response h accept out.response sent).1
            ≡ (sent ++ out.response.resp_buffer) ++ contents resp.read_buffer)
  refused_read_sends_data s req resp sent kind m =
      let refused = set_response h resp req resp_err_invalid in
      (
        record { state = s; response = refused; unlocked = false },
        execute_rejects s req resp (inl (m, inl kind)),
        unfold set_response in refl,
        write_response_lem h refused sent ∙ (unfold set_response in ground arith),
      )
