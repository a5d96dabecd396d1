-- ===== src/Usbdlib/Stream.antt =====
-- NbdStream of pkg/usbdlib/nbdstrm.go: what is asked of the kernel when a stream is set up and when it
-- is taken down, and what is done about the errors. The kernel is a function that says which calls
-- fail; the state is the calls that were made, each with whether it succeeded.
pub mod Resources
pub mod CleanUp
use usbd.Base.{
  Error, failed, ret, ℤ, pos, negsuc, neg_ℕ, int64, div_ℤ, ℕ, zero, suc, ◌+◌, Bool, not, Option,
  none, some, List, [], ◌∷◌, ◌++◌, if◌then◌else◌,
}
use usbd.Base.Result.{ok, err}
use usbd.Base.Exec.{Exec, pure, fail, crash, catch, ◌>>=◌, ◌>>◌}

pub data Call : Type 0 where
  socketpair open_device : Call
  set_block_size : ℤ → Call
  set_size_blocks : ℤ → Call
  clear_sock set_sock set_flags : Call
  file_conn open_again close_again : Call
  clear_queue disconnect : Call
  close_device close_user_dev close_kernel_sock close_user_sock : Call

abbrev pub Calls : Type 0
Calls = List (Call × Bool)

-- The open files: that of the device and the two ends of the socket.
pub record Descriptors : Type 0 where
  pub device : ℕ
  pub user_sock : ℕ
  pub kernel_sock : ℕ

abbrev pub negated : ℤ → ℤ
negated (pos n) = neg_ℕ n
negated (negsuc n) = pos (suc n)

module _ (refuses : Call → Bool) where
  abbrev pub sys_call : Call → Exec Calls Unit
  sys_call call made =
      ret (if refuses call then err failed else ok tt, made ++ ((call, not (refuses call)) ∷ []))

  -- An ioctl of the setup: if it fails, the device file is closed, and the error of that is dropped.
  unfoldable pub ioctl : Call → Exec Calls Unit
  ioctl call =
      catch (sys_call call) pure (λ e. catch (sys_call close_device) (λ _. fail e) (λ _. fail e))

  -- `dev.Size()/dev.BlockSize()`, the truncated quotient of Go.
  abbrev pub whole_blocks : ℤ → ℤ → Exec Calls ℤ
  whole_blocks size (pos zero) = crash
  whole_blocks size (pos (suc n)) = pure (div_ℤ size (suc n))
  whole_blocks size (negsuc n) = pure (int64 (negated (div_ℤ size (suc n))))

  -- `files` are the descriptors that the kernel gives: they go to the caller on success only.
  unfoldable pub setup_sycalls : Descriptors → Bool → ℤ → ℤ → Exec Calls Descriptors
  unfolding ioctl
  setup_sycalls files trim_supported block_size size = do
    sys_call socketpair
    sys_call open_device
    ioctl (set_block_size block_size)
    blocks ← whole_blocks size block_size
    ioctl (set_size_blocks blocks)
    ioctl clear_sock
    ioctl set_sock
    if trim_supported then ioctl set_flags else pure tt
    pure files

  -- The start of newNbdStream, up to its goroutines.
  unfoldable pub open_stream : Descriptors → Bool → ℤ → ℤ → Exec Calls Descriptors
  unfolding setup_sycalls
  open_stream files trim_supported block_size size = do
    given ← setup_sycalls files trim_supported block_size size
    sys_call file_conn
    pure given

  -- sendErr of a channel with room for one error: the first is kept.
  abbrev pub send_err : Option Error → Option Error → Option Error
  send_err none e = e
  send_err (some first) e = some first

  -- A call of the clean-up: its error is sent, and the next call is made.
  unfoldable pub try_call : Call → Option Error → Exec Calls (Option Error)
  try_call call sent = catch (sys_call call) (λ _. pure sent) (λ e. pure (send_err sent (some e)))

  -- scanPartTableThenCleanupWorker. An error of the user side socket is sent unless it was cleared
  -- already, and one of the device unless it says that it was cancelled: `ignored` says which errors
  -- are dropped.
  unfoldable pub try_ignoring : Bool → Call → Option Error → Exec Calls (Option Error)
  try_ignoring ignored call sent =
      catch (sys_call call) (λ _. pure sent)
        (λ e. pure (if ignored then sent else send_err sent (some e)))

  -- The device is opened once more; where that fails, the driver is not reset.
  unfoldable pub scan_and_reset : Option Error → Exec Calls (Option Error)
  unfolding try_call
  scan_and_reset sent =
      catch (sys_call open_again >> sys_call close_again)
        (λ _. do
          e1 ← try_call clear_queue sent
          e2 ← try_call disconnect e1
          try_call clear_sock e2)
        (λ e. pure (send_err sent (some e)))

  unfoldable pub close_all : Bool → Bool → Option Error → Exec Calls (Option Error)
  unfolding try_call try_ignoring
  close_all cancelled cleared sent = do
    e1 ← try_call close_device sent
    e2 ← try_ignoring cancelled close_user_dev e1
    e3 ← try_call close_kernel_sock e2
    try_ignoring cleared close_user_sock e3

  unfoldable pub clean_up : Bool → Bool → Option Error → Exec Calls (Option Error)
  unfolding scan_and_reset close_all
  clean_up cancelled cleared sent = do
    reset ← scan_and_reset sent
    close_all cancelled cleared reset
