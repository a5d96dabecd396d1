-- ===== src/Base/Outcome.antt =====
-- What a Go function may do: return its results, or panic. Results of type `error` are an
-- `Option Error`, with `none` for nil; the texts of errors are not modelled.
use mathlib.Core.Option.{Option, none, some}
use mathlib.Core.Bool.{Bool, true, false}

pub data Error : Type 0 where
  eof unexpected_eof : Error  -- io.EOF, io.ErrUnexpectedEOF
  shutdown : Error  -- errClosed, errShutdown, "Device is shutdown"
  out_of_bounds : Error
  not_present : Error  -- errNotPresent
  capacity : Error  -- errCapacityClaim
  bad_magic : Error
  invalid : Error  -- an argument or a configuration that is refused
  failed : Error  -- a call of the operating system or of a library failed

pub data Go {ℓ} (A : Type ℓ) : Type ℓ where
  ret : A → Go A
  panic : Go A

infixl 5 ◌>>=◌
abbrev pub ◌>>=◌ {ℓ κ} : {A : Type ℓ} {B : Type κ} → Go A → (A → Go B) → Go B
ret a >>= f = f a
panic >>= f = panic

abbrev pub is_nil : Option Error → Bool
is_nil none = true
is_nil (some e) = false
