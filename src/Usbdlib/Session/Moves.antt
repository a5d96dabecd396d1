-- ===== src/Usbdlib/Session/Moves.antt =====
-- Every move of a session takes it from one of the states of Waiting to the next.

use usbd.Base.{ret, ℤ, ℕ, suc, ◌+◌, ◌*◌, ◌≡◌, sym, ap, ◌∙◌, List, [], ◌∷◌, ◌++◌, arith, length}
use usbd.Base.Result.{ok}
use usbd.Usbdlib.Header.{Header, IsHeader}
use usbd.Usbdlib.Request.{Request, decode}
use usbd.Usbdlib.Response.{write_response}
use usbd.Usbdlib.Response.Reply.{accept}
use usbd.Usbdlib.Device.{Device, IsDisk}
use usbd.Usbdlib.Execute.{execute}
use usbd.Usbdlib.Session.Reader.{decode_shortens}
use usbd.Usbdlib.Session.System.{Net, Move, send, recv, start, finish, reply}
use usbd.Usbdlib.Session.Commands.{decode-IsReceived}
use usbd.Usbdlib.Session.Waiting.{Phase, idle, flying, queued, busy, replied, executed-Left}

nothing_inside {ℓ} :
    {A : Type ℓ} (before : List A) (x : A) (after : List A) → [] ≡ before ++ (x ∷ after) → ⊥
nothing_inside [] x after e = cc
nothing_inside (y ∷ before) x after e = cc

-- Taking the only element of a list out of it.
only_inside {ℓ} :
    {A : Type ℓ} (y : A) (before : List A) (x : A) (after : List A)
    → y ∷ [] ≡ before ++ (x ∷ after)
    → (x ≡ y) × (before ++ after ≡ [])
only_inside y [] x after e = (cc, cc)
only_inside y (z ∷ before) x after e = absurd (nothing_inside before x after cc)

ret_inj : {A : Type 0} {a b : A} → ret a ≡ ret b → a ≡ b
ret_inj e = cc

module _ (h : Header) (ih : IsHeader h) where
  nothing_decodes : (pooled req : Request) (rest : List ℕ) → decode h pooled [] ≡ ok (req, rest) → ⊥
  nothing_decodes pooled req rest e = omega (arith, decode_shortens h pooled req [] rest ih e)

module _ (h : Header) (ih : IsHeader h) {S : Type 0} (dev : Device S)
    (IsOpen : List (List ℕ) → S → Type 0) (view : S → List ℕ) (disk : IsDisk dev IsOpen view)
    (total : ℕ) (stream last : List ℕ) where
  abbrev At : ℕ → Net S → Type 0
  At = Phase h ih dev IsOpen view disk total stream last

  -- Every move is one of those that are left, and the next state is again such a state.
  pub Move-Phase :
      {workers : ℤ} {m : ℕ} {t u : Net S}
      → At m t
      → Move h dev workers t u
      → (r : ℕ) × (m ≡ suc r) × At r u
  Move-Phase (idle [] sent s left) (send op rest e free) = absurd (nothing_inside [] op rest e)
  Move-Phase (idle (op ∷ ops) sent s left) (send o rest e free) =
      let same : op ≡ o = cc in
      let tail : ops ≡ rest = cc in
      (4 + 5 * length ops, omega arith, rw (← same, ← tail) (flying op ops sent s left))
  Move-Phase (idle ops sent s left) (recv pooled req rest fits room e more) =
      absurd (nothing_decodes h ih pooled req rest e)
  Move-Phase (idle ops sent s left) (start req rest e room) = absurd (nothing_inside [] req rest e)
  Move-Phase (idle ops sent s left) (finish before req after pooled out e plain room run) =
      absurd (nothing_inside before req after e)
  Move-Phase (idle ops sent s left) (reply resp rest e) = absurd (nothing_inside [] resp rest e)
  Move-Phase (flying op ops sent s left) (send o rest e free) = absurd (ground arith)
  Move-Phase (flying op ops sent s left) (recv pooled req rest fits room e more) =
      let (got, gone) =
        decode-IsReceived h ih dev.block_size total op pooled req rest left.fit.0 fits e in
      (3 + 5 * length ops, omega arith, rw (gone) (queued op req ops sent s left got))
  Move-Phase (flying op ops sent s left) (start req rest e room) =
      absurd (nothing_inside [] req rest e)
  Move-Phase (flying op ops sent s left) (finish before req after pooled out e plain room run) =
      absurd (nothing_inside before req after e)
  Move-Phase (flying op ops sent s left) (reply resp rest e) =
      absurd (nothing_inside [] resp rest e)
  Move-Phase (queued op q ops sent s left r) (send o rest e free) = absurd (ground arith)
  Move-Phase (queued op q ops sent s left r) (recv pooled req rest fits room e more) =
      absurd (nothing_decodes h ih pooled req rest e)
  Move-Phase (queued op q ops sent s left r) (start req rest e room) =
      let same : q ≡ req = cc in
      let tail : [] ≡ rest = cc in
      (2 + 5 * length ops, omega arith, rw (← same, ← tail) (busy op q ops sent s left r))
  Move-Phase (queued op q ops sent s left r) (finish before req after pooled out e plain room run) =
      absurd (nothing_inside before req after e)
  Move-Phase (queued op q ops sent s left r) (reply resp rest e) =
      absurd (nothing_inside [] resp rest e)
  Move-Phase (busy op q ops sent s left r) (send o rest e free) = absurd (ground arith)
  Move-Phase (busy op q ops sent s left r) (recv pooled req rest fits room e more) =
      absurd (nothing_decodes h ih pooled req rest e)
  Move-Phase (busy op q ops sent s left r) (start req rest e room) =
      absurd (nothing_inside [] req rest e)
  Move-Phase (busy op q ops sent s left r) (finish before req after pooled out e plain room run) =
      let (same, empty) = only_inside q before req after e in
      let (found, runs, next) =
        executed-Left h ih dev IsOpen view disk total stream last op q ops sent s pooled left r in
      let ends : found ≡ out =
        ret_inj (sym runs ∙ ap (λ k. execute h dev s k pooled) (sym same) ∙ run) in
      (
        1 + 5 * length ops,
        omega arith,
        rw (empty, ← ends) (replied found.response ops sent found.state next),
      )
  Move-Phase (busy op q ops sent s left r) (reply resp rest e) =
      absurd (nothing_inside [] resp rest e)
  Move-Phase (replied p ops sent s left) (send o rest e free) = absurd (ground arith)
  Move-Phase (replied p ops sent s left) (recv pooled req rest fits room e more) =
      absurd (nothing_decodes h ih pooled req rest e)
  Move-Phase (replied p ops sent s left) (start req rest e room) =
      absurd (nothing_inside [] req rest e)
  Move-Phase (replied p ops sent s left) (finish before req after pooled out e plain room run) =
      absurd (nothing_inside before req after e)
  Move-Phase (replied p ops sent s left) (reply resp rest e) =
      let same : p ≡ resp = cc in
      let tail : [] ≡ rest = cc in
      (
        5 * length ops,
        omega arith,
        rw (← same, ← tail) (idle ops (write_response h accept p sent).1 s left),
      )
