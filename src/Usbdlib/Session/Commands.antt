-- ===== src/Usbdlib/Session/Commands.antt =====
-- The requests of a client, on the stream and behind the decoder.
use mathlib.Core.Path.{subst}
use usbd.Base.{
  non_negative, ℕ, ◌≡◌, sym, ap, ◌∙◌, ◌≢◌, false, List, [], append-nil, arith, ◌==◌, length,
  take_self,
}
use usbd.Base.Result.{ok, ok_inj}
use usbd.Usbdlib.Header.{Header, IsHeader}
use usbd.Usbdlib.Request.{Request, decode, encode}
use usbd.Usbdlib.Request.Codec.{IsSendable, decode-encode}
use usbd.Usbdlib.Session.Client.{Op, read_op, write_op, IsServable, request_of, IsReceived}

module _ (h : Header) (ih : IsHeader h) where
  request_of-IsSendable :
      (b total : ℕ) (op : Op) → IsServable h b total op → IsSendable h (request_of h op)
  request_of-IsSendable b total (read_op handle p n) s = record {
    type_fits = ih.read_fits;
    handle_fits = s.handle_fits;
    pos_fits = non_negative s.pos_fits;
    count_fits = s.count_fits;
    payload = λ e. absurd (ih.read_ne_write e);
  }
  request_of-IsSendable b total (write_op handle p bytes) s = record {
    type_fits = ih.write_fits;
    handle_fits = s.handle_fits;
    pos_fits = non_negative s.pos_fits;
    count_fits = s.count_fits;
    payload = λ e. ap length (take_self bytes);
  }

  request_of-goes_on :
      (op : Op) (req : Request) → IsReceived h op req → (req.req_type == h.disconnect) ≡ false
  request_of-goes_on (read_op handle p n) req r = ground (arith, r.kind, ih.disconnect_ne_read)
  request_of-goes_on (write_op handle p bytes) req r =
      ground (arith, r.kind, ih.disconnect_ne_write)

  -- Neither a disconnect nor a flush.
  pub request_of-Plain :
      (op : Op) (req : Request)
      → IsReceived h op req
      → (req.req_type ≢ h.disconnect) × (req.req_type ≢ h.flush)
  request_of-Plain (read_op handle p n) req r =
      (λ e. ih.disconnect_ne_read (sym e ∙ r.kind), λ e. ih.read_ne_flush (sym r.kind ∙ e))
  request_of-Plain (write_op handle p bytes) req r =
      (λ e. ih.disconnect_ne_write (sym e ∙ r.kind), λ e. ih.write_ne_flush (sym r.kind ∙ e))

  pub decode-request_of :
      (b total : ℕ) (op : Op) (pooled : Request)
      → IsServable h b total op
      → length pooled.handle ≡ h.handle_len
      → (out : Request) × (decode h pooled (encode h (request_of h op)) ≡ ok (out, []))
        × IsReceived h op out
  decode-request_of b total op pooled s fits =
      let (out, got, kind, hd, at, count, payload) =
        decode-encode h pooled (request_of h op) [] ih (request_of-IsSendable b total op s) fits in
      (
        out,
        ap (decode h pooled) (sym (append-nil (encode h (request_of h op)))) ∙ got,
        record { kind = kind; same_handle = hd; at = at; same_count = count; payload = payload },
      )

  -- Whatever the decoder makes of a request of the client, it is that request, and all of it.
  pub decode-IsReceived :
      (b total : ℕ) (op : Op) (pooled out : Request) (rest : List ℕ)
      → IsServable h b total op
      → length pooled.handle ≡ h.handle_len
      → decode h pooled (encode h (request_of h op)) ≡ ok (out, rest)
      → IsReceived h op out × (rest ≡ [])
  decode-IsReceived b total op pooled out rest s fits e =
      let (found, got, received) = decode-request_of b total op pooled s fits in
      let same : (found, []) ≡ (out, rest) = ok_inj (sym got ∙ e) in
      (subst (IsReceived h op) (ap (λ t. t.0) same) received, sym (ap (λ t. t.1) same))
