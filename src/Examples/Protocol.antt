-- ===== src/Examples/Protocol.antt =====
-- Requests and replies of pkg/usbdlib, and the helpers of pkg/util, at concrete inputs.
use usbd.Base.{
  pos, non_negative, ℕ, ◌≡◌, refl, ◌↔◌, true, some, List, [], ◌∷◌, ◌++◌, arith, ◌==◌, if◌then◌else◌,
  length, replicate,
}
use usbd.Base.Result.{ok}
use usbd.Usbdlib.Header.{linux, linux-IsHeader}
use usbd.Usbdlib.Buffer.{empty}
use usbd.Usbdlib.Request.{Request, decode, encode}
use usbd.Usbdlib.Request.Codec.{IsSendable, payload_of, decode-encode}
use usbd.Usbdlib.Request.Framing.{decode_consumes}
use usbd.Util.Zeros.{is_zeros, zero_fill}
use usbd.Util.Zeros.Blank.{IsBlank, is_zeros-iff-IsBlank}
use usbd.Util.Zeros.Fill.{zero_fill_lem}
use usbd.Objstore.SparseCopy.{sparse_copy}
use usbd.Objstore.SparseCopy.Content.{sparse_copy_lem}

-- A write of three bytes at position 5.
abbrev write_request : Request
write_request = record {
  raw_req = [];
  req_type = 1;
  handle = 1 ∷ 2 ∷ 3 ∷ 4 ∷ 5 ∷ 6 ∷ 7 ∷ 8 ∷ [];
  pos = pos 5;
  count = 3;
  write_buffer = record { backing = 9 ∷ 8 ∷ 7 ∷ []; len = 3 };
}

abbrev idle : Request
idle = record {
  raw_req = [];
  req_type = 0;
  handle = 0 ∷ 0 ∷ 0 ∷ 0 ∷ 0 ∷ 0 ∷ 0 ∷ 0 ∷ [];
  pos = pos 0;
  count = 0;
  write_buffer = empty;
}

write_request-IsSendable : IsSendable linux write_request
write_request-IsSendable = record {
  type_fits = omega arith;
  handle_fits = refl;
  pos_fits = non_negative (omega arith);
  count_fits = omega arith;
  payload = λ h. refl;
}

decode-encode_example :
    (out : Request) × (decode linux idle (encode linux write_request ++ (42 ∷ []))
      ≡ ok (out, 42 ∷ []))
    × (out.req_type ≡ 1)
    × (out.handle ≡ write_request.handle)
    × (out.pos ≡ pos 5)
    × (out.count ≡ 3)
    × (payload_of linux out ≡ payload_of linux write_request)
decode-encode_example =
    decode-encode linux idle write_request (42 ∷ []) linux-IsHeader write_request-IsSendable refl

abbrev sent_bytes : List ℕ
sent_bytes = encode linux write_request ++ (42 ∷ [])

decoded : (out : Request) × (decode linux idle sent_bytes ≡ ok (out, 42 ∷ []))
decoded =
    let d =
      decode-encode linux idle write_request (42 ∷ []) linux-IsHeader write_request-IsSendable
        refl in
    (d.0, d.1)

decode_consumes_example :
    (sent_bytes ≡ decoded.0.raw_req ++ (payload_of linux decoded.0 ++ (42 ∷ [])))
    × (length decoded.0.raw_req ≡ 28)
    × (length (payload_of linux decoded.0)
        ≡ (if decoded.0.req_type == 1 then decoded.0.count else 0))
decode_consumes_example = decode_consumes linux idle decoded.0 sent_bytes (42 ∷ []) decoded.1

is_zeros-iff-IsBlank_example : (is_zeros (replicate 9 0) ≡ true) ↔ IsBlank (replicate 9 0)
is_zeros-iff-IsBlank_example = is_zeros-iff-IsBlank (replicate 9 0)

zero_fill_example : zero_fill (5 ∷ 6 ∷ 7 ∷ []) ≡ some (replicate 3 0)
zero_fill_example = zero_fill_lem (5 ∷ 6 ∷ 7 ∷ [])

sparse_copy_example : sparse_copy (5 ∷ 0 ∷ 7 ∷ []) ≡ (5 ∷ 0 ∷ 7 ∷ 0 ∷ [], 3)
sparse_copy_example = sparse_copy_lem (5 ∷ 0 ∷ 7 ∷ [])
