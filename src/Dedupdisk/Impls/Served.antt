-- ===== src/Dedupdisk/Impls/Served.antt =====
-- A session of requests on a new deduplicating disk.
use mathlib.Core.Path.{subst}
use usbd.Base.{
  ℤ, ℕ, ◌*◌, ◌^◌, ◌<◌, ◌≡◌, sym, ap, ◌∙◌, ◌⊎◌, inl, inr, false, Option, none, List, ◌++◌, length,
  replicate, length-replicate,
}
use usbd.Usbdlib.Header.{Header, IsHeader}
use usbd.Usbdlib.Device.{IsDisk}
use usbd.Usbdlib.Session.Client.{Op, AreServable, replies_to, writes_of}
use usbd.Usbdlib.Session.System.{worker_count, Net, Move, Runs, start_of}
use usbd.Usbdlib.Session.Disk.{waiting_client-refines}
use usbd.Dedupdisk.Device.{DedupDisk, device}
use usbd.Dedupdisk.Device.Contract.{blocks_in, AllBlocks, IsUp, dedup_device-IsDisk}
use usbd.Dedupdisk.IdStore.{Db, IsDb}
use usbd.Dedupdisk.Impls.{Parts, Faults, impls, new_dedup_disk}
use usbd.Dedupdisk.Impls.Contract.{Holding, Mapping, Hashing}
use usbd.Dedupdisk.Impls.Contents.{contents, contents-Shows}
use usbd.Dedupdisk.Impls.Healthy.{IsHealthyDb}
use usbd.Dedupdisk.Impls.Disk.{
  new_parts, InOrder, Blocks, Shown, stores_laws, stores_healthy, new-Good, new-Shows, disk-eq,
}

module _ {D : Type 0} (value : D → List ℕ → Option (List ℕ)) (sha1 : List ℕ → List ℕ)
    (Used : List ℕ → Type 0) (bs count : ℕ) (some_bytes : 0 < bs) (fits : count * bs < 2 ^ 63)
    (os : Faults) (db : Db D) (laws : IsDb db value) (healthy : IsHealthyDb db)
    (writes : (id : ℕ) → os.write_fails id ≡ none)
    (no_collision : (a b : List ℕ) → Used a → Used b → sha1 a ≡ sha1 b → a ≡ b) (database : D)
    (nothing : (key : List ℕ) → value database key ≡ none) where
  abbrev Good : ℕ → Parts D → Type 0
  Good =
      InOrder value sha1 Used bs count some_bytes fits os db laws healthy writes no_collision
        database nothing

  abbrev Block : List ℕ → Type 0
  Block =
      Blocks value sha1 Used bs count some_bytes fits os db laws healthy writes no_collision
        database nothing

  abbrev Shows : Parts D → List ℕ → Type 0
  Shows =
      Shown value sha1 Used bs count some_bytes fits os db laws healthy writes no_collision database
        nothing

  unique :
      (n : ℕ) (s : Parts D) (bytes : List ℕ)
      → Good n s
      → length bytes ≡ count * bs
      → Shows s bytes
      → contents bs s ≡ bytes
  unique n s bytes good sized shows =
      contents-Shows value sha1 Used bs count some_bytes n s bytes good sized shows

  abbrev Ready : List (List ℕ) → DedupDisk (Parts D) → Type 0
  Ready =
      IsUp (impls os db sha1) (Mapping value sha1 Used bs count some_bytes fits)
        (Holding value sha1 Used bs count some_bytes fits) Good
        (Hashing value sha1 Used bs count some_bytes fits) Block
        (stores_laws value sha1 Used bs count some_bytes fits os db laws healthy writes no_collision
          database nothing)
        count
        (stores_healthy value sha1 Used bs count some_bytes fits os db laws healthy writes
          no_collision database nothing)
        bs some_bytes fits (contents bs)

  is_disk : IsDisk (device (impls os db sha1) bs) Ready (λ d. contents bs d.stores)
  is_disk =
      dedup_device-IsDisk (impls os db sha1) (Mapping value sha1 Used bs count some_bytes fits)
        (Holding value sha1 Used bs count some_bytes fits) Good
        (Hashing value sha1 Used bs count some_bytes fits) Block
        (stores_laws value sha1 Used bs count some_bytes fits os db laws healthy writes no_collision
          database nothing)
        count
        (stores_healthy value sha1 Used bs count some_bytes fits os db laws healthy writes
          no_collision database nothing)
        bs some_bytes fits (contents bs) unique

  abbrev new_parts_of : Parts D
  new_parts_of = new_parts bs count database

  module _ (later : List (List ℕ)) (room : blocks_in bs later * bs < 2 ^ 63)
      (blocks : AllBlocks Block bs later) where
    good : Good (blocks_in bs later) new_parts_of
    good =
        new-Good value sha1 Used bs count some_bytes fits os db laws healthy writes no_collision
          database nothing (blocks_in bs later) room

    shows : Shows new_parts_of (replicate (count * bs) 0)
    shows =
        new-Shows value sha1 Used bs count some_bytes fits os db laws healthy writes no_collision
          database nothing

    zeros : contents bs new_parts_of ≡ replicate (count * bs) 0
    zeros =
        unique (blocks_in bs later) new_parts_of (replicate (count * bs) 0) good
          (length-replicate {A = ℕ} (count * bs) 0) shows

    new_disk-Ready : Ready later (new_dedup_disk bs new_parts_of)
    new_disk-Ready = record {
      shape =
          disk-eq value sha1 Used bs count some_bytes fits os db laws healthy writes no_collision
            database nothing (blocks_in bs later) new_parts_of good;
      room = good;
      blocks = blocks;
      sized = ap length zeros ∙ length-replicate {A = ℕ} (count * bs) 0;
      shows = subst (Shows new_parts_of) (sym zeros) shows;
    }

  -- A client sends reads and writes of whole blocks, each when it has the reply to the one before, to
  -- a new deduplicating disk, over a database without entries whose Get and Set do not fail and a
  -- block file that takes every write; no two different blocks of those that are written have the
  -- same hash, and all of them fit into a file of less than 2^63 bytes. With any number of workers
  -- asked for, and however the goroutines take their turns, the session goes on until the client has
  -- had the replies that an array of zeros of the disk's size gives, after five moves for each
  -- request. The calls of the disk for one request are one move, and there is no flush, trim or
  -- disconnect.
  pub new_disk-served :
      (h : Header) (ih : IsHeader h) {k : ℕ} {t : Net (DedupDisk (Parts D))} (recommended asked : ℤ)
      (ops : List Op) (sent : List ℕ)
      → AreServable h bs (count * bs) ops
      → AllBlocks Block bs (writes_of h ops)
      → blocks_in bs (writes_of h ops) * bs < 2 ^ 63
      → Runs h
          (device (impls os db sha1) bs)
          (worker_count recommended asked)
          (start_of ops sent (new_dedup_disk bs new_parts_of))
          k
          t
      → ((k ≡ 5 * length ops)
          × ((t.waits ≡ false) × (t.sent ≡ sent ++ replies_to h ops (replicate (count * bs) 0))))
        ⊎ ((k < 5 * length ops)
            × ((u : Net (DedupDisk (Parts D))) × Move h
                  (device (impls os db sha1) bs)
                  (worker_count recommended asked)
                  t
                  u))
  new_disk-served h ih recommended asked ops sent fit blocks room runs =
      let later = writes_of h ops in
      let bytes = zeros later room blocks in
      let total : count * bs ≡ length (contents bs new_parts_of) =
        sym (ap length bytes ∙ length-replicate {A = ℕ} (count * bs) 0) in
      elim (waiting_client-refines h ih (device (impls os db sha1) bs) Ready
        (λ d. contents bs d.stores) is_disk recommended asked (new_dedup_disk bs new_parts_of) ops
        sent (subst (λ (m : ℕ). AreServable h bs m ops) total fit)
        (new_disk-Ready later room blocks) runs) [
          | inl (all, served) ↦ inl (
            all,
            (served.nothing_awaited, served.replies ∙ ap (λ b. sent ++ replies_to h ops b) bytes),
          )
          | inr more ↦ inr more
        ]
