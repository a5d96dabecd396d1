-- ===== src/Usbdlib/Processor/Waiting.antt =====
-- A flush waits for the writes and trims that were received since the flush before it.
use usbd.Base.{ℕ, ◌+◌, ◌≡◌, ap, Bool, some, List, [], ◌∷◌, ◌++◌, arith}
use usbd.Usbdlib.Processor.{
  Kind, read, write, trim, flush, Job, Proc, init, receive, complete, Reach, locks, outstanding,
}
use usbd.Usbdlib.Processor.Locks.{Reach-Accounted, locks-remove}

-- In a state that the reader and the workers reach, a flush gets through only when no write or
-- trim that was given its mutex is waiting or running.
pub flush_waits :
    {workers : ℕ} {s t : Proc} (before : List Job) (j : Job) (after : List Job)
    → Reach workers init s
    → s.running ≡ before ++ (j ∷ after)
    → j.kind ≡ flush
    → complete j.kind j (record s { running = before ++ after }) ≡ some t
    → outstanding j.mu t ≡ 0
unfolding complete
flush_waits {s} before j after r e kind done =
    ground (arith, Reach-Accounted r j.mu, ap (locks j.mu) e, locks-remove j.mu before j after)

-- A request that is received gets the mutex that the next flush will get, so that flush waits for
-- it; and a flush hands the reader a mutex that it has not used.
pub receive_mu :
    (kind : Kind) (whole : Bool) (s : Proc)
    → ((receive kind whole s).queue
        ≡ s.queue ++ (record { kind = kind; mu = s.current; whole = whole } ∷ []))
      × ((receive kind whole s).current ≡ (elim kind [ flush ↦ s.current + 1 | _ ↦ s.current ]))
unfolding receive
receive_mu read whole s = ground arith
receive_mu write whole s = ground arith
receive_mu trim whole s = ground arith
receive_mu flush whole s = ground arith
