-- ===== src/Objstore/Env.antt =====
-- What the object store device calls and does not implement: the container of
-- github.com/graymeta/stow, the semaphore of github.com/tarndt/sema, the operating system's files
-- and the clock. Each answers out of a `World`, which may let any call fail.
use usbd.Base.{
  ℕ, ◌≡◌, Bool, true, false, Option, none, some, List, [], ◌∷◌, ◌==◌, if◌then◌else◌, length,
}
use usbd.Base.Result.{Result, ok}

pub record Env (World Item : Type 0) : Type 0 where
  pub claim : World → Bool × World  -- quotaSema.P()
  pub release : World → Bool × World  -- quotaSema.V()
  pub fails : World → Bool × World  -- does the next call of the operating system fail?
  pub written : World → ℕ × World  -- how many bytes a write that fails has written
  pub now : World → ℕ × World
  pub item_size : Item → World → Result ℕ × World
  pub item_tag : Item → World → Result (List ℕ) × World
  pub item_open : Item → World → Result (List ℕ) × World  -- all bytes of the stream
  pub put : ℕ → List ℕ → ℕ → World → Result Item × World

-- What a store keeps of an object: the bytes that were put under the segment's number, when they
-- are as many as was announced. An item stands for the object as of its last Put.
pub record IsStore {World Item : Type 0} (env : Env World Item) (content : Item → List ℕ)
    : Type 0 where
  pub put_keeps :
      (id : ℕ) (bytes : List ℕ) (size : ℕ) (w w' : World) (item : Item)
      → env.put id bytes size w ≡ (ok item, w')
      → length bytes ≡ size
      → content item ≡ bytes
  pub open_reads :
      (item : Item) (w w' : World) (bytes : List ℕ)
      → env.item_open item w ≡ (ok bytes, w')
      → bytes ≡ content item

-- The parameters of storeParams.
pub record Params : Type 0 where
  pub segment_bytes : ℕ
  pub thick_provision : Bool
  pub persist_cache : Bool
  pub has_quota : Bool  -- quotaSema is not nil

-- `disk` is the file at the segment's path and `tag` the eTag file beside it; `opened` says that
-- `localFile` is not nil, and then it is open on that file.
pub record Segment (Item : Type 0) : Type 0 where
  pub id : ℕ
  pub opened : Bool
  pub disk : Option (List ℕ)
  pub tag : Option (List ℕ)
  pub remote_item : Option Item
  pub dirty : Bool
  pub backed : Bool
  pub last_read : ℕ  -- nanoseconds; 0 for never
  pub last_write : ℕ

pub record Cell (World Item : Type 0) : Type 0 where
  pub world : World
  pub seg : Segment Item

abbrev pub is_some {ℓ} : {A : Type ℓ} → Option A → Bool
is_some none = false
is_some (some a) = true

abbrev pub bytes_or_nil : Option (List ℕ) → List ℕ
bytes_or_nil none = []
bytes_or_nil (some bytes) = bytes

abbrev bytes_equal : List ℕ → List ℕ → Bool
bytes_equal [] [] = true
bytes_equal (x ∷ xs) (y ∷ ys) = if x == y then bytes_equal xs ys else false
bytes_equal xs ys = false

-- `fileETag != "" && fileETag == itemETag`
abbrev pub tags_equal : Option (List ℕ) → List ℕ → Bool
tags_equal none tag = false
tags_equal (some []) tag = false
tags_equal (some (x ∷ xs)) tag = bytes_equal (x ∷ xs) tag
