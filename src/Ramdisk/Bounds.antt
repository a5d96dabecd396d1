-- ===== src/Ramdisk/Bounds.antt =====
-- The RAM disk outside its contract: past the end, before the start, and after Close.
use usbd.Base.{
  eof, unexpected_eof, shutdown, ret, panic, ℤ, pos, negsuc, ltb_ℤ, add64_pos, add64, ℕ, ◌+◌, ◌^◌,
  ◌≤◌, ◌<◌, ◌≡◌, ◌∙◌, ◌≢◌, true, false, none, some, List, arith, length,
}
use usbd.Usbdlib.Header.{Header}
use usbd.Usbdlib.Buffer.{contents}
use usbd.Usbdlib.Request.{Request}
use usbd.Usbdlib.Response.{Response}
use usbd.Usbdlib.Execute.{misaligned, execute, execute_write}
use usbd.Usbdlib.Execute.Disk.{execute-at_write}
use usbd.Ramdisk.{RamDisk, bounds, end_of, read_at, write_at, trim, flush, close, device}
use usbd.Ramdisk.Contract.{IsValid}

module _ (rdsk : RamDisk) (buf : List ℕ) (v : IsValid rdsk) where
  -- A range that starts inside the int64s, passes the end of an open disk and has an int64 for
  -- its end is refused whole by a read and by a write: the buffer and the disk keep their bytes.
  past_end :
      (p : ℕ)
      → rdsk.size < p + length buf
      → p + length buf < 2 ^ 63
      → (read_at rdsk buf (pos p) ≡ ret (rdsk, buf, pos 0, some eof))
        × (write_at rdsk buf (pos p) ≡ ret (rdsk, pos 0, some unexpected_eof))
  unfolding read_at write_at
  past_end p past small =
      let e : end_of buf (pos p) ≡ pos (p + length buf) = add64_pos p (length buf) small in
      let t : ltb_ℤ (pos rdsk.size) (pos (p + length buf)) ≡ true = ground arith in
      (rw (v.up, e, t), rw (v.up, e, t))

  before_end :
      (n : ℕ)
      → n < 2 ^ 63
      → length buf ≤ rdsk.size
      → ltb_ℤ (pos rdsk.size) (end_of buf (negsuc n)) ≡ false
  unfolding add64
  before_end n small fits = ground (arith, v.fits)

  -- A negative position makes an open disk panic, unless the buffer is longer than the disk.
  pub negative_panics :
      (n : ℕ)
      → n < 2 ^ 63
      → length buf ≤ rdsk.size
      → (read_at rdsk buf (negsuc n) ≡ panic) × (write_at rdsk buf (negsuc n) ≡ panic)
  unfolding read_at write_at bounds
  negative_panics n small fits =
      (rw (v.up, before_end n small fits), rw (v.up, before_end n small fits))

-- After Close every operation fails and moves no byte.
pub closed_fails :
    (rdsk closed : RamDisk) (buf : List ℕ) (position : ℤ) (count : ℕ)
    → close rdsk ≡ ret (closed, none)
    → (read_at closed buf position ≡ ret (closed, buf, pos 0, some shutdown))
      × (write_at closed buf position ≡ ret (closed, pos 0, some shutdown))
      × (trim closed position count ≡ ret (closed, some shutdown))
      × (flush closed ≡ ret (closed, some shutdown))
      × (closed.disk ≡ rdsk.disk)
unfolding close read_at write_at trim flush
closed_fails rdsk closed buf position count e = ground arith

-- A write request for whole blocks, of no more bytes than the disk has, whose position is
-- negative as an int64, makes execute panic on an open RAM disk.
pub negative_request_panics :
    (h : Header) (rdsk : RamDisk) (req : Request) (resp : Response) (n : ℕ)
    → IsValid rdsk
    → req.req_type ≡ h.write
    → h.read ≢ h.write
    → req.pos ≡ negsuc n
    → n < 2 ^ 63
    → misaligned device.block_size req ≡ false
    → length (contents req.write_buffer) ≤ rdsk.size
    → execute h device rdsk req resp ≡ panic
negative_request_panics h rdsk req resp n v kind ne at small ok_blocks fits =
    execute-at_write h device rdsk req resp kind ne
    ∙ (unfold execute_write in
        rw (ok_blocks, at, (negative_panics rdsk (contents req.write_buffer) v n small fits).1))
