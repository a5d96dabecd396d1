-- ===== src/Examples/Execution.antt =====
-- execute of pkg/usbdlib/reqproc.go on the RAM disk of pkg/devices/ramdisk, at concrete inputs.
use usbd.Base.{
  ret, panic, ℤ, pos, negsuc, mod_ℤ, ℕ, ◌≡◌, refl, inl, inr, true, false, [], ◌∷◌, ◌++◌, arith,
  replicate, length-replicate,
}
use usbd.Usbdlib.Header.{linux, linux-IsHeader}
use usbd.Usbdlib.Buffer.{contents}
use usbd.Usbdlib.Request.{Request}
use usbd.Usbdlib.Response.{
  Response, new_response, set_response, write_response, resp_success, resp_err_invalid,
}
use usbd.Usbdlib.Response.Reply.{accept}
use usbd.Usbdlib.Execute.{Executed, execute, misaligned}
use usbd.Usbdlib.Execute.Replies.{execute_rejects, refused_read_sends_data}
use usbd.Usbdlib.Execute.Disk.{read_after_write}
use usbd.Ramdisk.{RamDisk, device}
use usbd.Ramdisk.Contract.{IsValid, device-IsDisk}
use usbd.Ramdisk.Bounds.{negative_request_panics}

abbrev two_blocks : RamDisk
two_blocks = record { disk = replicate 8192 0; size = 8192; online = true }

abbrev closed_disk : RamDisk
closed_disk = record two_blocks { online = false }

two_blocks-IsValid : IsValid two_blocks
two_blocks-IsValid = record {
  sized = length-replicate {A = ℕ} 8192 0;
  fits = omega arith;
  up = refl;
}

-- Request `kind` for `count` bytes at `position`, with sevens to write.
abbrev request : ℕ → ℤ → ℕ → Request
request kind position count = record {
  raw_req = [];
  req_type = kind;
  handle = 1 ∷ 2 ∷ 3 ∷ 4 ∷ 5 ∷ 6 ∷ 7 ∷ 8 ∷ [];
  pos = position;
  count = count;
  write_buffer = record { backing = replicate count 7; len = count };
}

-- A response that still has an earlier read's data.
abbrev used_response : Response
used_response = record new_response { read_buffer = record { backing = 3 ∷ 4 ∷ []; len = 2 } }

abbrev block_write : Request
block_write = request 1 (pos 4096) 4096

abbrev block_read : Request
block_read = request 0 (pos 4096) 4096

read_after_write_example :
    (mid out : Executed RamDisk) × (execute linux device two_blocks block_write new_response
      ≡ ret mid)
    × (execute linux device mid.state block_read new_response ≡ ret out)
    × (out.response.err_code ≡ resp_success)
    × (contents out.response.read_buffer ≡ contents block_write.write_buffer)
read_after_write_example =
    read_after_write linux device (λ later. IsValid) (λ rdsk. rdsk.disk) device-IsDisk two_blocks
      block_write block_read new_response new_response 4096 linux-IsHeader refl refl
      two_blocks-IsValid (record { at = refl; count = refl }) (record { at = refl; count = refl })
      (record {
        inside = omega arith;
        start_aligned = refl;
        count_aligned = refl;
        some_bytes = omega arith;
      })

-- A write of one byte.
abbrev odd_write : Request
odd_write = request 1 (pos 0) 1

odd_write-misaligned : misaligned 4096 odd_write ≡ true
unfolding misaligned mod_ℤ
odd_write-misaligned = refl

odd_read-misaligned : misaligned 4096 (request 0 (pos 0) 1) ≡ true
unfolding misaligned mod_ℤ
odd_read-misaligned = refl

abbrev refused : Executed RamDisk
refused = record {
  state = two_blocks;
  response = set_response linux new_response odd_write resp_err_invalid;
  unlocked = false;
}

odd_write-refused : execute linux device two_blocks odd_write new_response ≡ ret refused
odd_write-refused =
    execute_rejects linux device two_blocks odd_write new_response
      (inl (odd_write-misaligned, inr refl))

refused_read_sends_data_example :
    (out : Executed RamDisk) × (execute linux device two_blocks (request 0 (pos 0) 1) used_response
      ≡ ret out)
    × (out.response.err_code ≡ resp_err_invalid)
    × ((write_response linux accept out.response []).1
        ≡ ([] ++ out.response.resp_buffer) ++ (3 ∷ 4 ∷ []))
refused_read_sends_data_example =
    refused_read_sends_data linux device two_blocks (request 0 (pos 0) 1) used_response [] refl
      odd_read-misaligned

-- One block at -4096.
abbrev before_disk : Request
before_disk = request 1 (negsuc 4095) 4096

before_disk-aligned : misaligned 4096 before_disk ≡ false
unfolding misaligned mod_ℤ
before_disk-aligned = refl

negative_request_panics_example : execute linux device two_blocks before_disk new_response ≡ panic
negative_request_panics_example =
    negative_request_panics linux two_blocks before_disk new_response 4095 two_blocks-IsValid refl
      (omega arith) refl (omega arith) before_disk-aligned (omega arith)
