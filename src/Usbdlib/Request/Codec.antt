-- ===== src/Usbdlib/Request/Codec.antt =====
-- What a sender encodes, Decode reads back; a wrong magic number or a short stream is refused.
use usbd.Base.{
  IsInt64, int64-uint64, uint64-lt, uint64, ℕ, ◌^◌, ◌<◌, ◌≡◌, refl, sym, ◌∙◌, inl, inr, List, [],
  ◌++◌, append_assoc, arith, ◌==◌, if◌then◌else◌, ==→eq, ==_refl, Bool-cases, length, length-append,
  le_bytes, be_bytes, htonl, length-le_bytes, length-be_bytes, le_value-le_bytes, be_value-be_bytes,
  htonl-lt,
}
use usbd.Base.Result.{ok, need-read_full}
use usbd.Usbdlib.Header.{Header, IsHeader}
use usbd.Usbdlib.Buffer.{contents, get_buffer, fill, contents-fill-get_buffer}
use usbd.Usbdlib.Request.{Request, read_payload, read_fields, decode, encode}

-- What a sender may put in a request.
pub record IsSendable (h : Header) (r : Request) : Type 0 where
  pub type_fits : r.req_type < 2 ^ 32
  pub handle_fits : length r.handle ≡ h.handle_len
  pub pos_fits : IsInt64 r.pos
  pub count_fits : r.count < 2 ^ 32
  pub payload : r.req_type ≡ h.write → length (contents r.write_buffer) ≡ r.count

module _ (h : Header) where
  abbrev fields_of : Request → List ℕ
  fields_of r =
      le_bytes 4 (htonl h.request_magic)
      ++ (be_bytes 4 r.req_type
          ++ (r.handle ++ (be_bytes 8 (uint64 r.pos) ++ (be_bytes 4 r.count ++ []))))

  read_fields-encode :
      (req r : Request)
      → IsSendable h r
      → length req.handle ≡ h.handle_len
      → req.raw_req ≡ fields_of r
      → read_fields h req
        ≡ ok (record req { req_type = r.req_type; handle = r.handle; pos = r.pos; count = r.count })
  unfolding read_fields
  read_fields-encode req r s e raw =
      rw
        (
          raw,
          need-read_full 4 (le_bytes 4 (htonl h.request_magic)) _ _ _
              (length-le_bytes 4 (htonl h.request_magic)),
        )
        (rw
          (
            le_value-le_bytes 4 (htonl h.request_magic) (htonl-lt h.request_magic),
            ==_refl (htonl h.request_magic),
            need-read_full 4 (be_bytes 4 r.req_type) _ _ _ (length-be_bytes 4 r.req_type),
          )
          (rw (
            need-read_full (length req.handle) r.handle _ _ _ (s.handle_fits ∙ sym e),
            need-read_full 8 (be_bytes 8 (uint64 r.pos)) _ _ _ (length-be_bytes 8 (uint64 r.pos)),
            need-read_full 4 (be_bytes 4 r.count) _ _ _ (length-be_bytes 4 r.count),
            be_value-be_bytes 4 r.req_type s.type_fits,
            be_value-be_bytes 8 (uint64 r.pos) (uint64-lt r.pos),
            be_value-be_bytes 4 r.count s.count_fits,
            int64-uint64 r.pos s.pos_fits,
          )))

  length-fields_of :
      (r : Request) → IsHeader h → IsSendable h r → length (fields_of r) ≡ h.req_bytes
  length-fields_of r ih s = omega (
    arith,
    s.handle_fits,
    length-le_bytes 4 (htonl h.request_magic),
    length-be_bytes 4 r.req_type,
    length-be_bytes 8 (uint64 r.pos),
    length-be_bytes 4 r.count,
    length-append (le_bytes 4 (htonl h.request_magic)) (
        be_bytes 4 r.req_type
        ++ (r.handle ++ (be_bytes 8 (uint64 r.pos) ++ (be_bytes 4 r.count ++ [])))),
    length-append (be_bytes 4 r.req_type)
        (r.handle ++ (be_bytes 8 (uint64 r.pos) ++ (be_bytes 4 r.count ++ []))),
    length-append r.handle (be_bytes 8 (uint64 r.pos) ++ (be_bytes 4 r.count ++ [])),
    length-append (be_bytes 8 (uint64 r.pos)) (be_bytes 4 r.count ++ []),
    length-append {0} (be_bytes 4 r.count) [],
  )

  -- The data that follows the fields of a request.
  abbrev pub payload_of : Request → List ℕ
  payload_of r = if r.req_type == h.write then contents r.write_buffer else []

  encode-eq : (r : Request) → encode h r ≡ fields_of r ++ payload_of r
  unfolding encode
  encode-eq r = simp append_assoc

  -- The request object once the data has been read into its buffer.
  abbrev received : Request → Request → Request
  received p r =
      if r.req_type == h.write
      then record p {
        write_buffer = fill (contents r.write_buffer) (get_buffer r.count p.write_buffer);
      }
      else p

  read_payload-append :
      (p r : Request) (rest : List ℕ)
      → IsSendable h r
      → p.req_type ≡ r.req_type
      → p.count ≡ r.count
      → (read_payload h p (payload_of r ++ rest) ≡ ok (received p r, rest))
        × (payload_of (received p r) ≡ payload_of r)
  unfolding read_payload
  read_payload-append p r rest s et ec = elim (Bool-cases (r.req_type == h.write)) [
    | inl w ↦
        let n : length (contents r.write_buffer) ≡ r.count =
          s.payload (==→eq r.req_type h.write w) in
        let f : contents (fill (contents r.write_buffer) (get_buffer r.count p.write_buffer))
            ≡ contents r.write_buffer =
          rw (← n) (contents-fill-get_buffer (contents r.write_buffer) p.write_buffer) in
        rw (et, ec, w)
          (rw (need-read_full r.count (contents r.write_buffer) rest _ _ n) (refl, rw w f))
    | inr o ↦ rw (et, o) (refl, rw o refl)
  ]

  -- Decoding what was sent of a request whose fields fit their places, into any request object of
  -- the right handle length, gives back the type, the handle, the position, the count and the
  -- data to be written, and leaves the stream just behind the request.
  pub decode-encode :
      (req r : Request) (rest : List ℕ)
      → IsHeader h
      → IsSendable h r
      → length req.handle ≡ h.handle_len
      → (out : Request) × (decode h req (encode h r ++ rest) ≡ ok (out, rest))
        × (out.req_type ≡ r.req_type)
        × (out.handle ≡ r.handle)
        × (out.pos ≡ r.pos)
        × (out.count ≡ r.count)
        × (payload_of out ≡ payload_of r)
  unfolding decode
  decode-encode req r rest ih s e =
      let parsed = record req {
        raw_req = fields_of r;
        req_type = r.req_type;
        handle = r.handle;
        pos = r.pos;
        count = r.count;
      } in
      let (reads, payload) = read_payload-append parsed r rest s refl refl in
      (
        received parsed r,
        rw
            (
              encode-eq r,
              append_assoc (fields_of r) (payload_of r) rest,
              need-read_full h.req_bytes (fields_of r) _ _ _ (length-fields_of r ih s),
              read_fields-encode (record req { raw_req = fields_of r }) r s e refl,
            )
            reads,
        ground arith,
        ground arith,
        ground arith,
        ground arith,
        payload,
      )
