-- ===== src/Usbdlib/Processor/Locks.antt =====
-- Every write and trim that is waiting or running is among the readers of its mutex.
use usbd.Base.{ℕ, ◌+◌, ◌≤◌, ◌≡◌, refl, ap, Bool, some, List, [], ◌∷◌, ◌++◌, arith}
use usbd.Usbdlib.Processor.{
  Kind, read, write, trim, flush, Job, Proc, init, receive, complete, Step, recv, start, finish,
  Reach, here, next, holds, locks, outstanding,
}

abbrev pub Accounted : Proc → Type 0
Accounted s = (m : ℕ) → outstanding m s ≤ s.readers m

pub locks-append : (m : ℕ) (xs ys : List Job) → locks m (xs ++ ys) ≡ locks m xs + locks m ys
unfolding locks
locks-append m [] ys = omega arith
locks-append m (x ∷ xs) ys = omega (arith, locks-append m xs ys)

-- Taking a request out of the running ones gives up what it holds.
pub locks-remove :
    (m : ℕ) (xs : List Job) (j : Job) (ys : List Job)
    → locks m (xs ++ (j ∷ ys)) ≡ holds m j + locks m (xs ++ ys)
unfolding locks
locks-remove m [] j ys = refl
locks-remove m (x ∷ xs) j ys = omega (arith, locks-remove m xs j ys)

-- How the locks of a mutex that are held beyond the outstanding requests change: never down.
-- `surplus` k m s says that mutex `m` has at least `k` readers more than outstanding requests.
abbrev pub Surplus : ℕ → ℕ → Proc → Type 0
Surplus k m s = outstanding m s + k ≤ s.readers m

receive-Surplus :
    (k m : ℕ) (kind : Kind) (whole : Bool) (s : Proc)
    → Surplus k m s
    → Surplus k m (receive kind whole s)
unfolding receive locks
receive-Surplus k m read whole s h =
    ground
      (arith, locks-append m s.queue (record { kind = read; mu = s.current; whole = whole } ∷ []))
receive-Surplus k m write whole s h =
    ground
      (arith, locks-append m s.queue (record { kind = write; mu = s.current; whole = whole } ∷ []))
receive-Surplus k m trim whole s h =
    ground
      (arith, locks-append m s.queue (record { kind = trim; mu = s.current; whole = whole } ∷ []))
receive-Surplus k m flush whole s h =
    ground
      (arith, locks-append m s.queue (record { kind = flush; mu = s.current; whole = whole } ∷ []))

complete-Surplus :
    (k m : ℕ) (kind : Kind) (j : Job) (s t : Proc)
    → kind ≡ j.kind
    → outstanding m s + holds m j + k ≤ s.readers m
    → complete kind j s ≡ some t
    → Surplus k m t
unfolding complete
complete-Surplus k m read j s t e h c = ground arith
complete-Surplus k m write j s t e h c = ground arith
complete-Surplus k m trim j s t e h c = ground arith
complete-Surplus k m flush j s t e h c = ground arith

Step-Surplus :
    {workers : ℕ} {s t : Proc} (k m : ℕ) → Step workers s t → Surplus k m s → Surplus k m t
unfolding locks
Step-Surplus {s} k m (recv kind whole room) h = receive-Surplus k m kind whole s h
Step-Surplus {s} k m (start j rest e room) h = ground (arith, ap (locks m) e)
Step-Surplus {s} k m (finish before j after {t} e c) h =
    complete-Surplus k m j.kind j (record s { running = before ++ after }) t refl
      (omega (arith, ap (locks m) e, locks-remove m before j after)) c

-- What the readers of a mutex have beyond the outstanding requests, they keep for ever.
pub Reach-Surplus :
    {workers : ℕ} {s t : Proc} (k m : ℕ) → Reach workers s t → Surplus k m s → Surplus k m t
Reach-Surplus k m here h = h
Reach-Surplus k m (next r st) h = Step-Surplus k m st (Reach-Surplus k m r h)

-- From the start on, every outstanding write and trim is among the readers of its mutex.
pub Reach-Accounted : {workers : ℕ} {s : Proc} → Reach workers init s → Accounted s
unfolding locks
Reach-Accounted r m = let h = Reach-Surplus 0 m r (omega arith) in omega arith
