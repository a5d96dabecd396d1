-- ===== src/Dedupdisk/IdStore.antt =====
-- pebbleIDStore of pkg/devices/dedupdisk/impls/pebbleidstore.go, over a key-value store and a hash.
pub mod Answers
use usbd.Base.{
  ret, panic, ℕ, ◌≡◌, ◌⊎◌, Bool, true, Option, none, some, List, [], ltb, if◌then◌else◌, length,
  take, le_value, le_bytes,
}
use usbd.Base.Result.{Result}
use usbd.Base.Exec.{Exec, pure, crash, modify, gets, ◌>>=◌, ◌>>◌}
use usbd.Util.Zeros.{is_zeros}
use usbd.Dedupdisk.Stores.{Lookup, found, absent}
use usbd.Dedupdisk.FileStore.{zero_block_id}

-- What the program calls of pebble's DB: `none` stands for ErrNotFound.
pub record Db (D : Type 0) : Type 0 where
  pub get : List ℕ → Exec D (Option (List ℕ))
  pub set : List ℕ → List ℕ → Exec D Unit
  pub flush : Exec D Unit
  pub close : Exec D Unit

-- `value d key` is what is stored under a key. A Set that fails may have stored its value or not.
pub record IsDb {D : Type 0} (db : Db D) (value : D → List ℕ → Option (List ℕ)) : Type 0 where
  pub get_reads :
      (key : List ℕ) (r : Option (List ℕ)) (d d' : D)
      → db.get key d ≡ ret (Result.ok r, d')
      → r ≡ value d key
  pub get_keeps :
      (key k : List ℕ) (r : Result (Option (List ℕ))) (d d' : D)
      → db.get key d ≡ ret (r, d')
      → value d' k ≡ value d k
  pub set_stores :
      (key raw : List ℕ) (d d' : D)
      → db.set key raw d ≡ ret (Result.ok tt, d')
      → value d' key ≡ some raw
  pub set_keeps :
      (key raw k old : List ℕ) (r : Result Unit) (d d' : D)
      → db.set key raw d ≡ ret (r, d')
      → value d' k ≡ some old
      → (value d k ≡ some old) ⊎ ((k ≡ key) × (old ≡ raw))

pub record IdStore (D : Type 0) : Type 0 where
  pub database : D
  pub closed : Bool  -- closeOnce

module _ {D : Type 0} where
  abbrev pub on_db : {A : Type 0} → Exec D A → Exec (IdStore D) A
  on_db m ps = elim (m ps.database) [
    | ret (r, d) ↦ ret (r, record ps { database = d })
    | panic ↦ panic
  ]

-- binary.LittleEndian.Uint64
abbrev pub uint64_of : {S : Type 0} → List ℕ → Exec S ℕ
uint64_of raw = if ltb (length raw) 8 then crash else pure (le_value (take 8 raw))

module _ {D : Type 0} (db : Db D) (sha1 : List ℕ → List ℕ) where
  abbrev pub answer : List ℕ → Option (List ℕ) → Exec (IdStore D) Lookup
  answer hash none = pure (absent hash)
  answer hash (some raw) = do id ← uint64_of raw; pure (found id [])

  unfoldable pub get_id : List ℕ → Exec (IdStore D) Lookup
  get_id block =
      if is_zeros block
      then pure (found zero_block_id [])
      else (do val ← on_db (db.get (sha1 block)); answer (sha1 block) val)

  unfoldable pub put_id : List ℕ → ℕ → Exec (IdStore D) Unit
  put_id hash dedup_id = on_db (db.set hash (le_bytes 8 dedup_id))

  unfoldable pub flush : Exec (IdStore D) Unit
  flush = on_db db.flush

  unfoldable pub close : Exec (IdStore D) Unit
  close = do
    closed ← gets (λ ps. ps.closed)
    if closed then pure tt else (do modify (λ ps. record ps { closed = true }); on_db db.close)
