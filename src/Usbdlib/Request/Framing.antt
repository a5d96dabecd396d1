-- ===== src/Usbdlib/Request/Framing.antt =====
-- How much of the command stream Decode takes, and what it refuses.
use usbd.Base.{
  unexpected_eof, bad_magic, ℕ, ◌≤◌, ◌<◌, ◌≡◌, sym, ap, ap₂, ◌∙◌, ◌≢◌, inl, inr, List, ◌++◌, arith,
  ◌==◌, if◌then◌else◌, lt→ltb, le→ltb, Bool-cases, length, take, length-take, read_full, le_value,
  htonl, take-take, read_full-eq-some,
}
use usbd.Base.Result.{Result, ok, err, need, ◌>>=◌, >>=-eq-ok, need-eq-ok}
use usbd.Usbdlib.Header.{Header, IsHeader}
use usbd.Usbdlib.Buffer.{contents, get_buffer, fill, contents-fill-get_buffer}
use usbd.Usbdlib.Request.{Request, read_payload, read_fields, decode}
use usbd.Usbdlib.Request.Codec.{payload_of}

module _ (h : Header) where
  -- A stream that ends before a whole request has arrived is refused.
  pub decode-short :
      (req : Request) (strm : List ℕ)
      → length strm < h.req_bytes
      → decode h req strm ≡ err unexpected_eof
  unfolding decode read_full
  decode-short req strm lt = rw (lt→ltb (length strm) h.req_bytes lt)

  read_fields-bad_magic :
      (req : Request)
      → 4 ≤ length req.raw_req
      → le_value (take 4 req.raw_req) ≢ htonl h.request_magic
      → read_fields h req ≡ err bad_magic
  unfolding read_fields read_full
  read_fields-bad_magic req n ne = ground arith

  -- Where a stream has the bytes of a whole request but does not begin with the magic number,
  -- decoding fails for the magic number, whatever the other bytes are.
  pub decode-bad_magic :
      (req : Request) (strm : List ℕ)
      → IsHeader h
      → h.req_bytes ≤ length strm
      → le_value (take 4 strm) ≢ htonl h.request_magic
      → decode h req strm ≡ err bad_magic
  unfolding decode read_full
  decode-bad_magic req strm ih le ne = rw (
    le→ltb (length strm) h.req_bytes le,
    read_fields-bad_magic (record req { raw_req = take h.req_bytes strm })
        (omega (arith, ih.packed, length-take h.req_bytes strm))
        (rw (take-take 4 h.req_bytes strm (omega (arith, ih.packed))) ne),
  )

  raw_req-read_fields : (req out : Request) → read_fields h req ≡ ok out → out.raw_req ≡ req.raw_req
  unfolding read_fields
  raw_req-read_fields req out e = ground arith

  read_payload_consumes :
      (req out : Request) (strm rest : List ℕ)
      → read_payload h req strm ≡ ok (out, rest)
      → (out.raw_req ≡ req.raw_req)
        × (strm ≡ payload_of h out ++ rest)
        × (length (payload_of h out) ≡ (if out.req_type == h.write then out.count else 0))
  unfolding read_payload
  read_payload_consumes req out strm rest e = elim (Bool-cases (req.req_type == h.write)) [
    | inl w ↦
        let step : List ℕ × List ℕ → Result (Request × List ℕ) = λ p.
          ok
            (record req { write_buffer = fill p.0 (get_buffer req.count req.write_buffer) }, p.1) in
        let e' : (need (read_full req.count strm) unexpected_eof >>= step) ≡ ok (out, rest) =
          rw w at e in
        let (p, got, done) = >>=-eq-ok step (need (read_full req.count strm) unexpected_eof) e' in
        let (split, n) =
          read_full-eq-some req.count strm
            (need-eq-ok (read_full req.count strm) unexpected_eof got) in
        let f : contents (fill p.0 (get_buffer req.count req.write_buffer)) ≡ p.0 =
          rw (← n) (contents-fill-get_buffer p.0 req.write_buffer) in
        ground arith
    | inr o ↦ ground arith
  ]

  -- A request that was decoded took its own bytes from the front of the stream, and then, for a
  -- write only, as many bytes of data as its count says. What is left is left whole.
  pub decode_consumes :
      (req out : Request) (strm rest : List ℕ)
      → decode h req strm ≡ ok (out, rest)
      → (strm ≡ out.raw_req ++ (payload_of h out ++ rest))
        × (length out.raw_req ≡ h.req_bytes)
        × (length (payload_of h out) ≡ (if out.req_type == h.write then out.count else 0))
  unfolding decode
  decode_consumes req out strm rest e =
      let (p, got, e1) =
        >>=-eq-ok
          (λ p.
            read_fields h (record req { raw_req = p.0 }) >>= λ parsed. read_payload h parsed p.1)
          (need (read_full h.req_bytes strm) unexpected_eof) e in
      let (split, n) =
        read_full-eq-some h.req_bytes strm
          (need-eq-ok (read_full h.req_bytes strm) unexpected_eof got) in
      let (parsed, fields, e2) =
        >>=-eq-ok (λ parsed. read_payload h parsed p.1)
          (read_fields h (record req { raw_req = p.0 })) e1 in
      let (same, tail, len) = read_payload_consumes parsed out p.1 rest e2 in
      let raw : out.raw_req ≡ p.0 =
        same ∙ raw_req-read_fields (record req { raw_req = p.0 }) parsed fields in
      (split ∙ ap₂ ◌++◌ (sym raw) tail, ap length raw ∙ n, len)
