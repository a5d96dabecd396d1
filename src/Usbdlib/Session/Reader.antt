-- ===== src/Usbdlib/Session/Reader.antt =====
-- The reader's loop: it stops on every stream, and reads the requests that a client has sent.
use usbd.Base.{ℕ, zero, suc, ◌<◌, ◌≡◌, refl, ap, ◌≢◌, List, ◌++◌, arith, length, length-append}
use usbd.Base.Result.{Result, ok, err}
use usbd.Usbdlib.Header.{Header, IsHeader}
use usbd.Usbdlib.Request.{Request, decode}
use usbd.Usbdlib.Request.Framing.{decode_consumes}
use usbd.Usbdlib.Request.Codec.{payload_of}
use usbd.Usbdlib.Session.{Stop, out_of_fuel, later, queue_decoded, read_strm}

module _ (h : Header) where
  -- Decoding takes at least one byte.
  pub decode_shortens :
      (req out : Request) (strm rest : List ℕ)
      → IsHeader h
      → decode h req strm ≡ ok (out, rest)
      → length rest < length strm
  decode_shortens req out strm rest ih e =
      let (split, n, m) = decode_consumes h req out strm rest e in
      omega (
        arith,
        ih.packed,
        n,
        ap length split,
        length-append out.raw_req (payload_of h out ++ rest),
        length-append (payload_of h out) rest,
      )

  queue_decoded-stops :
      (r : Result (Request × List ℕ)) (next : List ℕ → List Request × Stop)
      → ((out : Request) (rest : List ℕ) → r ≡ ok (out, rest) → (next rest).1 ≢ out_of_fuel)
      → (queue_decoded h r next).1 ≢ out_of_fuel
  unfolding queue_decoded
  queue_decoded-stops (err e) next k = ground arith
  queue_decoded-stops (ok (out, rest)) next k = ground (arith, k out rest refl)

  -- On any stream, and whatever objects its pool hands out, the reader stops by itself, at a
  -- disconnect or at a request that does not decode, within as many rounds as the stream has
  -- bytes and one more.
  pub read_strm_stops :
      (fuel : ℕ) (reqs : ℕ → Request) (strm : List ℕ)
      → IsHeader h
      → length strm < fuel
      → (read_strm h fuel reqs strm).1 ≢ out_of_fuel
  unfolding read_strm
  read_strm_stops zero reqs strm ih lt = absurd (omega arith)
  read_strm_stops (suc fuel) reqs strm ih lt =
      queue_decoded-stops (decode h (reqs 0) strm) (λ rest. read_strm h fuel (later reqs) rest)
        λ out rest e.
          read_strm_stops fuel (later reqs) rest ih
            (omega (arith, decode_shortens (reqs 0) out strm rest ih e))
