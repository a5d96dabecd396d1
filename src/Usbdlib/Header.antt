-- ===== src/Usbdlib/Header.antt =====
-- The constants that pkg/usbdlib/nbdutil_linux.go takes from the kernel's C headers, which are not
-- part of the repository: a parameter, with what the header documents.
use usbd.Base.{ℕ, ◌+◌, ◌^◌, ◌<◌, ◌≡◌, ◌≢◌, arith}

pub record Header : Type 0 where
  pub req_bytes : ℕ  -- sizeof(struct nbd_request)
  pub handle_len : ℕ
  pub request_magic : ℕ
  pub reply_magic : ℕ
  pub read : ℕ
  pub write : ℕ
  pub disconnect : ℕ
  pub flush : ℕ
  pub trim : ℕ

-- A request is its magic number, type, handle, position and length, with no padding; the commands
-- are different 32-bit numbers.
pub record IsHeader (h : Header) : Type 0 where
  pub packed : h.req_bytes ≡ 4 + (4 + (h.handle_len + (8 + 4)))
  pub request_magic_fits : h.request_magic < 2 ^ 32
  pub reply_magic_fits : h.reply_magic < 2 ^ 32
  pub read_fits : h.read < 2 ^ 32
  pub write_fits : h.write < 2 ^ 32
  pub disconnect_fits : h.disconnect < 2 ^ 32
  pub flush_fits : h.flush < 2 ^ 32
  pub trim_fits : h.trim < 2 ^ 32
  pub read_ne_write : h.read ≢ h.write
  pub read_ne_flush : h.read ≢ h.flush
  pub read_ne_trim : h.read ≢ h.trim
  pub write_ne_flush : h.write ≢ h.flush
  pub write_ne_trim : h.write ≢ h.trim
  pub flush_ne_trim : h.flush ≢ h.trim
  pub disconnect_ne_read : h.disconnect ≢ h.read
  pub disconnect_ne_write : h.disconnect ≢ h.write
  pub disconnect_ne_flush : h.disconnect ≢ h.flush
  pub disconnect_ne_trim : h.disconnect ≢ h.trim

-- linux/nbd.h
abbrev pub linux : Header
linux = record {
  req_bytes = 28;
  handle_len = 8;
  request_magic = 0x25609513;
  reply_magic = 0x67446698;
  read = 0;
  write = 1;
  disconnect = 2;
  flush = 3;
  trim = 4;
}

pub linux-IsHeader : IsHeader linux
linux-IsHeader = omega arith
