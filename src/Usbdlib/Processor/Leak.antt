-- ===== src/Usbdlib/Processor/Leak.antt =====
-- A refused write never gives its read lock back.
use usbd.Base.{ℕ, ◌≡◌, ap, false, none, some, List, ◌∷◌, ◌++◌, arith}
use usbd.Usbdlib.Processor.{write, flush, Job, Proc, init, complete, Reach, locks}
use usbd.Usbdlib.Processor.Locks.{Accounted, Reach-Accounted, Reach-Surplus, Surplus, locks-remove}

-- It leaves its mutex with one reader more than there are requests to release it.
refused-Surplus :
    (s : Proc) {t : Proc} (before : List Job) (j : Job) (after : List Job)
    → Accounted s
    → s.running ≡ before ++ (j ∷ after)
    → j.kind ≡ write
    → j.whole ≡ false
    → complete j.kind j (record s { running = before ++ after }) ≡ some t
    → Surplus 1 j.mu t
unfolding complete
refused-Surplus s before j after acc e kind refused done =
    ground (arith, acc j.mu, ap (locks j.mu) e, locks-remove j.mu before j after)

-- Once a write that is not made of whole blocks has been executed, the flush of its mutex is
-- blocked for ever: in no state that follows does it get through.
pub refused_write_blocks_flush :
    {workers : ℕ} {s t u : Proc} (before : List Job) (j : Job) (after : List Job)
    → Reach workers init s
    → s.running ≡ before ++ (j ∷ after)
    → j.kind ≡ write
    → j.whole ≡ false
    → complete j.kind j (record s { running = before ++ after }) ≡ some t
    → Reach workers t u
    → (f : Job) → f.kind ≡ flush
    → f.mu ≡ j.mu
    → complete f.kind f u ≡ none
unfolding complete
refused_write_blocks_flush {s} before j after r e kind refused done later f kf same =
    let leak = refused-Surplus s before j after (Reach-Accounted r) e kind refused done in
    ground (arith, Reach-Surplus 1 j.mu later leak)
