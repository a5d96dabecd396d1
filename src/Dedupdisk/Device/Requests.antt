-- ===== src/Dedupdisk/Device/Requests.antt =====
-- Sequences of ReadAt and WriteAt of whole blocks: the deduplicating disk answers them as an array of
-- bytes does.
use mathlib.Core.Path.{subst}
use usbd.Base.{
  Error, ret, ℤ, pos, ℕ, ◌+◌, ◌*◌, ◌^◌, ◌≤◌, ◌<◌, ◌≡◌, refl, ◌∙◌, Bool, Option, none, List, [], ◌∷◌,
  arith, length, slice, copy_at, length-copy_at,
}
use usbd.Base.Result.{ok}
use usbd.Base.Exec.{Exec, catch-ok, fail, pure, ◌>>=◌}
use usbd.Dedupdisk.Stores.{Stores, IsStores}
use usbd.Dedupdisk.Device.{DedupDisk, read_at, write_at}
use usbd.Dedupdisk.Device.Healthy.{AreHealthy}
use usbd.Dedupdisk.Device.Array.{Shows, write-Shows}
use usbd.Dedupdisk.Device.Reading.{read-Shows}
use usbd.Dedupdisk.Device.Writing.{disk_of}

-- Of `k` blocks at block `b`; of a read, the bytes that its buffer had.
pub data Request : Type 0 where
  read : ℕ → ℕ → List ℕ → Request
  write : ℕ → ℕ → List ℕ → Request

-- The bytes of the buffer, their number and the error.
abbrev pub Answer : Type 0
Answer = List ℕ × ℤ × Option Error

module _ {S : Type 0} (st : Stores S) (bs : ℕ) where
  unfoldable pub ask : Request → Exec (DedupDisk S) Answer
  ask (read b k buf) = read_at st buf (pos (b * bs))
  ask (write b k buf) = do (n, e) ← write_at st buf (pos (b * bs)); pure (buf, n, e)

  unfoldable pub ask_all : List Request → Exec (DedupDisk S) (List Answer)
  ask_all [] = pure []
  ask_all (request ∷ requests) = do
    answer ← ask request
    answers ← ask_all requests
    pure (answer ∷ answers)

module _ (bs : ℕ) where
  -- The array of bytes after a request, and its answer to one.
  unfoldable pub after : Request → List ℕ → List ℕ
  after (read b k buf) bytes = bytes
  after (write b k buf) bytes = copy_at (b * bs) buf bytes

  unfoldable pub answer_of : Request → List ℕ → Answer
  answer_of (read b k buf) bytes = (slice (b * bs) (length buf) bytes, pos (length buf), none)
  answer_of (write b k buf) bytes = (buf, pos (length buf), none)

  unfoldable pub answers_of : List Request → List ℕ → List Answer
  answers_of [] bytes = []
  answers_of (request ∷ requests) bytes =
      answer_of request bytes ∷ answers_of requests (after request bytes)

  unfoldable pub after_all : List Request → List ℕ → List ℕ
  after_all [] bytes = bytes
  after_all (request ∷ requests) bytes = after_all requests (after request bytes)

-- The number of blocks that are written.
unfoldable pub written : List Request → ℕ
written [] = 0
written (read b k buf ∷ requests) = written requests
written (write b k buf ∷ requests) = k + written requests

module _ (Block : List ℕ → Type 0) (bs count : ℕ) where
  -- Whole blocks of the disk, of those that may be written.
  unfoldable pub IsRequest : Request → Type 0
  IsRequest (read b k buf) = (length buf ≡ k * bs) × (0 < k) × (b + k ≤ count)
  IsRequest (write b k buf) =
      (length buf ≡ k * bs)
      × (0 < k)
      × (b + k ≤ count)
      × ((i : ℕ) → i < k → Block (slice (i * bs) bs buf))

  unfoldable pub AreRequests : List Request → Type 0
  AreRequests [] = Unit {0}
  AreRequests (request ∷ requests) = IsRequest request × AreRequests requests

module _ {S : Type 0} (st : Stores S) (Maps : S → ℕ → ℕ → Type 0) (Holds : S → ℕ → List ℕ → Type 0)
    (Good : ℕ → S → Type 0) (Hashes : List ℕ → List ℕ → Type 0) (Block : List ℕ → Type 0)
    (laws : IsStores Maps Holds st Good Hashes Block) (count : ℕ)
    (healthy : AreHealthy st Good Block count) (bs : ℕ) (closed : Bool) (some_bytes : 0 < bs)
    (fits : count * bs < 2 ^ 63) where
  abbrev disk : S → DedupDisk S
  disk = disk_of st Maps Holds Good Hashes Block laws count healthy bs closed some_bytes fits

  abbrev Shown : S → List ℕ → Type 0
  Shown = Shows st Maps Holds Good Hashes Block laws count healthy bs closed some_bytes fits

  read-Answer :
      (b k n : ℕ) (buf bytes : List ℕ) (s : S)
      → IsRequest Block bs count (read b k buf)
      → length bytes ≡ count * bs
      → Good n s
      → Shown s bytes
      → ask st bs (read b k buf) (disk s) ≡ ret (ok (answer_of bs (read b k buf) bytes), disk s)
  unfolding ask answer_of IsRequest
  read-Answer b k n buf bytes s (whole, positive, inside) sized good shows =
      read-Shows st Maps Holds Good Hashes Block laws count healthy bs closed some_bytes fits n b
        buf bytes s good shows sized k whole positive inside

  write-Answer :
      (b k n : ℕ) (buf bytes : List ℕ) (s : S)
      → IsRequest Block bs count (write b k buf)
      → length bytes ≡ count * bs
      → Good (k + n) s
      → Shown s bytes
      → (s' : S) × (ask st bs (write b k buf) (disk s)
          ≡ ret (ok (answer_of bs (write b k buf) bytes), disk s'))
        × Good n s'
        × Shown s' (after bs (write b k buf) bytes)
  unfolding ask answer_of after IsRequest
  write-Answer b k n buf bytes s (whole, positive, inside, blocks) sized good shows =
      let (s', e, good', shows') =
        write-Shows st Maps Holds Good Hashes Block laws count healthy bs closed some_bytes fits k n
          b buf bytes s blocks whole positive inside sized good shows in
      (
        s',
        catch-ok (write_at st buf (pos (b * bs))) _ fail (disk s) (disk s') (pos (length buf), none)
            e,
        good',
        shows',
      )

  ask_all-suc :
      (request : Request) (requests : List Request) (answer : Answer) (answers : List Answer)
      (d d' d'' : DedupDisk S)
      → ask st bs request d ≡ ret (ok answer, d')
      → ask_all st bs requests d' ≡ ret (ok answers, d'')
      → ask_all st bs (request ∷ requests) d ≡ ret (ok (answer ∷ answers), d'')
  unfolding ask_all
  ask_all-suc request requests answer answers d d' d'' first rest =
      catch-ok (ask st bs request) _ fail d d' answer first
      ∙ catch-ok (ask_all st bs requests) _ fail d' d'' answers rest

  pub ask_all-answers :
      (requests : List Request) (n : ℕ) (bytes : List ℕ) (s : S)
      → AreRequests Block bs count requests
      → length bytes ≡ count * bs
      → Good (written requests + n) s
      → Shown s bytes
      → (s' : S) × (ask_all st bs requests (disk s)
          ≡ ret (ok (answers_of bs requests bytes), disk s'))
        × Good n s'
        × Shown s' (after_all bs requests bytes)
  unfolding ask_all answers_of after_all written AreRequests after
  ask_all-answers [] n bytes s all sized good shows =
      (s, refl, subst (λ (m : ℕ). Good m s) (omega arith) good, shows)
  ask_all-answers (read b k buf ∷ requests) n bytes s (first, rest) sized good shows =
      let e = read-Answer b k (written requests + n) buf bytes s first sized good shows in
      let (s', es, good', shows') = ask_all-answers requests n bytes s rest sized good shows in
      (s', ask_all-suc (read b k buf) requests _ _ (disk s) (disk s) (disk s') e es, good', shows')
  ask_all-answers (write b k buf ∷ requests) n bytes s (first, rest) sized good shows =
      let (s1, e, good1, shows1) =
        write-Answer b k (written requests + n) buf bytes s first sized
          (subst (λ (m : ℕ). Good m s) (omega arith) good) shows in
      let (s', es, good', shows') =
        ask_all-answers requests n (copy_at (b * bs) buf bytes) s1 rest
          (length-copy_at (b * bs) buf bytes ∙ sized) good1 shows1 in
      (
        s',
        ask_all-suc (write b k buf) requests _ _ (disk s) (disk s1) (disk s') e es,
        good',
        shows',
      )
