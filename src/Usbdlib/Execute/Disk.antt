-- ===== src/Usbdlib/Execute/Disk.antt =====
-- Requests against any device that keeps the contract of a disk: what was written is read back.
use usbd.Base.{
  ret, ℤ, pos, ℕ, ◌≡◌, refl, sym, ap, ◌∙◌, ◌≢◌, true, false, none, List, [], ◌∷◌, arith, length,
  copy_at, length-copy_at, slice, length-slice, slice-copy_at,
}
use usbd.Usbdlib.Header.{Header, IsHeader}
use usbd.Usbdlib.Buffer.{
  contents, get_buffer, fill, length-contents-get_buffer, contents-fill-get_buffer,
}
use usbd.Usbdlib.Request.{Request}
use usbd.Usbdlib.Response.{Response, set_response, resp_success}
use usbd.Usbdlib.Device.{Device, InDisk, IsDisk}
use usbd.Usbdlib.Execute.{Executed, misaligned, execute_read, execute_write, execute}

-- A request for the `n` bytes at `p`.
pub record Covers (req : Request) (p n : ℕ) : Type 0 where
  pub at : req.pos ≡ pos p
  pub count : req.count ≡ n

module _ (h : Header) {S : Type 0} (dev : Device S) where
  pub aligned :
      {req : Request} {p n total : ℕ}
      → Covers req p n
      → InDisk dev.block_size total p n
      → misaligned dev.block_size req ≡ false
  unfolding misaligned
  aligned c d = ground (arith, c.at, c.count)

  pub execute-at_write :
      (s : S) (req : Request) (resp : Response)
      → req.req_type ≡ h.write
      → h.read ≢ h.write
      → execute h dev s req resp ≡ execute_write h dev s req resp
  unfolding execute
  execute-at_write s req resp kind ne = ground arith

  pub execute-at_read :
      (s : S) (req : Request) (resp : Response)
      → req.req_type ≡ h.read
      → execute h dev s req resp ≡ execute_read h dev s req resp
  unfolding execute
  execute-at_read s req resp kind = ground arith

  pub execute_write-done :
      (s s' : S) (req : Request) (resp : Response) (n : ℤ)
      → misaligned dev.block_size req ≡ false
      → dev.write_at s (contents req.write_buffer) req.pos ≡ ret (s', n, none)
      → execute_write h dev s req resp
        ≡ ret (record {
          state = s';
          response = set_response h resp req resp_success;
          unlocked = true;
        })
  unfolding execute_write
  execute_write-done s s' req resp n a e = rw (a, e)

  pub execute_read-done :
      (s s' : S) (req : Request) (resp : Response) (buf : List ℕ) (n : ℤ)
      → misaligned dev.block_size req ≡ false
      → dev.read_at s (contents (get_buffer req.count resp.read_buffer)) req.pos
        ≡ ret (s', buf, n, none)
      → execute_read h dev s req resp
        ≡ ret (record {
          state = s';
          response =
              set_response h
                (record resp { read_buffer = fill buf (get_buffer req.count resp.read_buffer) })
                req
                resp_success;
          unlocked = false;
        })
  unfolding execute_read
  execute_read-done s s' req resp buf n a e = rw (a, e)

module _ (h : Header) {S : Type 0} (dev : Device S) (IsOpen : List (List ℕ) → S → Type 0)
    (view : S → List ℕ) (disk : IsDisk dev IsOpen view) where
  open disk use {reads, writes}

  -- A write of whole blocks inside an open disk succeeds, and puts the data of the request at its
  -- position.
  pub execute-write :
      (s : S) (req : Request) (resp : Response) (p : ℕ) (later : List (List ℕ))
      → req.req_type ≡ h.write
      → h.read ≢ h.write
      → IsOpen (contents req.write_buffer ∷ later) s
      → Covers req p (length (contents req.write_buffer))
      → InDisk dev.block_size (length (view s)) p (length (contents req.write_buffer))
      → (out : Executed S) × (execute h dev s req resp ≡ ret out)
        × (out.response.err_code ≡ resp_success)
        × (view out.state ≡ copy_at p (contents req.write_buffer) (view s))
        × IsOpen later out.state
  unfolding set_response
  execute-write s req resp p later kind ne opened c d =
      let bytes = contents req.write_buffer in
      let (s', done, seen, still) = writes s bytes p later opened d in
      let done' : dev.write_at s bytes req.pos ≡ ret (s', pos (length bytes), none) =
        rw c.at done in
      (
        record { state = s'; response = set_response h resp req resp_success; unlocked = true },
        execute-at_write h dev s req resp kind ne
            ∙ execute_write-done h dev s s' req resp (pos (length bytes)) (aligned h dev c d) done',
        refl,
        seen,
        still,
      )

  -- A read of whole blocks inside an open disk succeeds, and answers with the bytes that are there.
  pub execute-read :
      (s : S) (req : Request) (resp : Response) (p n : ℕ) (later : List (List ℕ))
      → req.req_type ≡ h.read
      → IsOpen later s
      → Covers req p n
      → InDisk dev.block_size (length (view s)) p n
      → (out : Executed S) × (execute h dev s req resp ≡ ret out)
        × (out.response.err_code ≡ resp_success)
        × (contents out.response.read_buffer ≡ slice p n (view s))
        × (view out.state ≡ view s)
        × IsOpen later out.state
  unfolding set_response
  execute-read s req resp p n later kind opened c d =
      let b = get_buffer req.count resp.read_buffer in
      let len : length (contents b) ≡ n =
        length-contents-get_buffer req.count resp.read_buffer ∙ c.count in
      let (s', done, seen, still) = reads s (contents b) p later opened (rw len d) in
      let bytes = slice p n (view s) in
      let done' : dev.read_at s (contents b) req.pos ≡ ret (s', bytes, pos n, none) =
        rw c.at (rw len at done) in
      let n_bytes : length bytes ≡ req.count = length-slice p n (view s) d.inside ∙ sym c.count in
      (
        record {
          state = s';
          response = set_response h (record resp { read_buffer = fill bytes b }) req resp_success;
          unlocked = false;
        },
        execute-at_read h dev s req resp kind
            ∙ execute_read-done h dev s s' req resp bytes (pos n) (aligned h dev c d) done',
        refl,
        rw (← n_bytes) (contents-fill-get_buffer bytes resp.read_buffer),
        seen,
        still,
      )

  -- On a device that keeps the contract of a disk and is open for it, a write of whole blocks inside the disk
  -- and a read of the same range right after it both return, the read with success and with the
  -- data of the write in its buffer.
  pub read_after_write :
      (s : S) (w r : Request) (resp resp' : Response) (p : ℕ)
      → IsHeader h
      → w.req_type ≡ h.write
      → r.req_type ≡ h.read
      → IsOpen (contents w.write_buffer ∷ []) s
      → Covers w p (length (contents w.write_buffer))
      → Covers r p (length (contents w.write_buffer))
      → InDisk dev.block_size (length (view s)) p (length (contents w.write_buffer))
      → (mid out : Executed S) × (execute h dev s w resp ≡ ret mid)
        × (execute h dev mid.state r resp' ≡ ret out)
        × (out.response.err_code ≡ resp_success)
        × (contents out.response.read_buffer ≡ contents w.write_buffer)
  read_after_write s w r resp resp' p ih kw kr opened cw cr d =
      let bytes = contents w.write_buffer in
      let (mid, wrote, ok_code, seen, open1) =
        execute-write s w resp p [] kw ih.read_ne_write opened cw d in
      let same : length (view mid.state) ≡ length (view s) =
        ap length seen ∙ length-copy_at p bytes (view s) in
      let (out, got, ok_code', found, unchanged, still) =
        execute-read mid.state r resp' p (length bytes) [] kr open1 cr (rw same d) in
      (
        mid,
        out,
        wrote,
        got,
        ok_code',
        found ∙ ap (slice p (length bytes)) seen ∙ slice-copy_at p bytes (view s) d.inside,
      )
