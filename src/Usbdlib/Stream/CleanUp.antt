-- ===== src/Usbdlib/Stream/CleanUp.antt =====
-- What the clean-up of a stream leaves open, and which error it reports.
use usbd.Base.{Error, failed, ◌≡◌, Bool, not, Option, none, some, [], ◌∷◌, ◌++◌, if◌then◌else◌}
use usbd.Usbdlib.Stream.{Call, Calls, send_err}

-- An error that was there before is the one that is there now.
abbrev pub KeepsFirst : Option Error → Option Error → Type 0
KeepsFirst (some first) e = e ≡ some first
KeepsFirst none e = Unit

module _ (refuses : Call → Bool) where
  -- The error channel after a call.
  abbrev note : Bool → Call → Option Error → Option Error
  note ignored call sent =
      if refuses call then (if ignored then sent else send_err refuses sent (some failed)) else sent

  abbrev logged : Call → Calls → Calls
  logged call made = made ++ ((call, not (refuses call)) ∷ [])
