-- ===== src/Usbdlib/Processor.antt =====
-- readStrmWorker and reqIOWorker of pkg/usbdlib/reqproc.go as a step relation: the reader takes read
-- locks for writes and trims, and workers in any number and order finish requests. What a request
-- does to the device is in Execute; here only the locks and the two places a request can be in are
-- kept. The reader stops at a disconnect or a decode error: from there on it makes no more steps.
pub mod Locks
pub mod Waiting
pub mod Leak
use usbd.Base.{
  ℕ, ◌+◌, ◌-◌, ◌<◌, ◌≡◌, Bool, Option, none, some, List, [], ◌∷◌, ◌++◌, ◌==◌, if◌then◌else◌, length,
}

pub data Kind : Type 0 where
  read write trim flush : Kind  -- an unknown type takes no lock, as `read`

-- A request: `mu` is the number of its flush mutex, and `whole` says that it is made of whole blocks.
pub record Job : Type 0 where
  pub kind : Kind
  pub mu : ℕ
  pub whole : Bool

-- `current` is the mutex that the reader has in its hands, numbered in the order of allocation;
-- `readers` counts the read locks of each mutex; `queue` is reqQueue.
pub record Proc : Type 0 where
  pub current : ℕ
  pub readers : ℕ → ℕ
  pub queue : List Job
  pub running : List Job

abbrev pub queue_limit : ℕ
queue_limit = 64

abbrev pub update : (ℕ → ℕ) → ℕ → ℕ → ℕ → ℕ
update f i v j = if i == j then v else f j

abbrev pub init : Proc
init = record { current = 0; readers = λ m. 0; queue = []; running = [] }

unfoldable pub enqueue : Kind → Bool → Proc → Proc
enqueue kind whole s = record s {
  queue = s.queue ++ (record { kind = kind; mu = s.current; whole = whole } ∷ []);
}

-- The `switch` of the reader, and the send that follows it.
unfoldable pub receive : Kind → Bool → Proc → Proc
unfolding enqueue
receive read whole s = enqueue read whole s
receive write whole s =
    enqueue write whole
      (record s { readers = update s.readers s.current (s.readers s.current + 1) })
receive trim whole s =
    enqueue trim whole (record s { readers = update s.readers s.current (s.readers s.current + 1) })
receive flush whole s = record (enqueue flush whole s) { current = s.current + 1 }

abbrev pub unlock : ℕ → Proc → Proc
unlock m s = record s { readers = update s.readers m (s.readers m - 1) }

-- What execute does with the lock; `none` where it has to wait. A flush takes the lock only to give
-- it back at once.
unfoldable pub complete : Kind → Job → Proc → Option Proc
complete read j s = some s
complete write j s = some (if j.whole then unlock j.mu s else s)
complete trim j s = some (unlock j.mu s)
complete flush j s = if s.readers j.mu == 0 then some s else none

pub data Step (workers : ℕ) (s : Proc) : Proc → Type 0 where
  recv :
      (kind : Kind) (whole : Bool)
      → length s.queue < queue_limit
      → Step workers s (receive kind whole s)
  start :
      (j : Job) (rest : List Job)
      → s.queue ≡ j ∷ rest
      → length s.running < workers
      → Step workers s (record s { queue = rest; running = j ∷ s.running })
  finish :
      (before : List Job) (j : Job) (after : List Job) {t : Proc}
      → s.running ≡ before ++ (j ∷ after)
      → complete j.kind j (record s { running = before ++ after }) ≡ some t
      → Step workers s t

pub data Reach (workers : ℕ) (s : Proc) : Proc → Type 0 where
  here : Reach workers s s
  next : {t u : Proc} → Reach workers s t → Step workers t u → Reach workers s u

-- Whether a request holds a read lock of mutex `m` while it waits or runs.
abbrev pub holds : ℕ → Job → ℕ
holds m j = elim j.kind [
  | read ↦ 0
  | write ↦ if j.mu == m then 1 else 0
  | trim ↦ if j.mu == m then 1 else 0
  | flush ↦ 0
]

unfoldable pub locks : ℕ → List Job → ℕ
locks m [] = 0
locks m (j ∷ js) = holds m j + locks m js

-- The read locks of `m` whose holders have not been executed yet.
abbrev pub outstanding : ℕ → Proc → ℕ
outstanding m s = locks m s.queue + locks m s.running
