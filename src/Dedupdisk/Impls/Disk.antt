-- ===== src/Dedupdisk/Impls/Disk.antt =====
-- The deduplicating disk on new stores of pkg/devices/dedupdisk/impls, in use.

use native.Mathlib.Nat.{mul-le-mul_right, mul-div_cancel}
use usbd.Base.{
  ret, pos, ℕ, zero, suc, ◌+◌, ◌*◌, ◌/◌, ◌^◌, ◌≤◌, ◌<◌, ◌≡◌, refl, sym, ap, ◌∙◌, inl, false, Option,
  none, some, List, [], ◌∷◌, arith, length, get_elem?, take, replicate, length-replicate, slice,
}
use usbd.Base.Result.{ok}
use usbd.Usbdlib.Device.{default_block_size}
use usbd.Dedupdisk.Device.{DedupDisk}
use usbd.Dedupdisk.Stores.{IsStores}
use usbd.Dedupdisk.Device.Healthy.{AreHealthy}
use usbd.Dedupdisk.Device.Array.{Shows}
use usbd.Dedupdisk.Device.Requests.{
  Request, ask_all, answers_of, written, AreRequests, ask_all-answers,
}
use usbd.Dedupdisk.FileStore.{zero_block_id, new_file_block_store}
use usbd.Dedupdisk.LunMap.{new_lun_map}
use usbd.Dedupdisk.IdStore.{Db, IsDb}
use usbd.Dedupdisk.Impls.{Parts, Faults, impls, new_dedup_disk, dedup_disk_from_cfg}
use usbd.Dedupdisk.Impls.Contract.{Good, Holding, Mapping, Hashing, Block, impls-IsStores}
use usbd.Dedupdisk.Impls.Healthy.{IsHealthyDb, impls-AreHealthy}

module _ {D : Type 0} where
  -- The stores of a new device of `count` blocks: their files are new.
  abbrev pub new_parts : ℕ → ℕ → D → Parts D
  new_parts bs count database = record {
    lun = new_lun_map [] bs (count * bs);
    ids = record { database = database; closed = false };
    blocks = new_file_block_store [] bs;
  }

-- The device that the server makes on new files is one on new stores, of DefaultBlockSize.
dedup_disk_from_cfg-new :
    {D : Type 0} (count : ℕ) (database : D)
    → dedup_disk_from_cfg (ok []) (ok database) (ok []) (count * default_block_size)
      ≡ ok (new_dedup_disk default_block_size (new_parts default_block_size count database))
unfolding dedup_disk_from_cfg
dedup_disk_from_cfg-new count database = refl

take-replicate : (n m : ℕ) → n ≤ m → take n (replicate {A = ℕ} m 0) ≡ replicate n 0
take-replicate zero m h = refl
take-replicate (suc n) zero h = absurd (omega arith)
take-replicate (suc n) (suc m) h = ap (λ l. 0 ∷ l) (take-replicate n m (omega arith))

slice-replicate : (at n m : ℕ) → at + n ≤ m → slice at n (replicate {A = ℕ} m 0) ≡ replicate n 0
slice-replicate zero n m inside = take-replicate n m (omega arith)
slice-replicate (suc at) n zero inside = absurd (omega arith)
slice-replicate (suc at) n (suc m) inside = slice-replicate at n m (omega arith)

get_elem?-replicate : (m i x : ℕ) → i < m → get_elem? (replicate m x) i ≡ some x
get_elem?-replicate zero i x h = absurd (omega arith)
get_elem?-replicate (suc m) zero x h = refl
get_elem?-replicate (suc m) (suc i) x h = get_elem?-replicate m i x (omega arith)

module _ {D : Type 0} (value : D → List ℕ → Option (List ℕ)) (sha1 : List ℕ → List ℕ)
    (Used : List ℕ → Type 0) (bs count : ℕ) (some_bytes : 0 < bs) (fits : count * bs < 2 ^ 63)
    (os : Faults) (db : Db D) (laws : IsDb db value) (healthy : IsHealthyDb db)
    (writes : (id : ℕ) → os.write_fails id ≡ none)
    (no_collision : (a b : List ℕ) → Used a → Used b → sha1 a ≡ sha1 b → a ≡ b) (database : D)
    (nothing : (key : List ℕ) → value database key ≡ none) where
  abbrev pub parts : Parts D
  parts = new_parts bs count database

  abbrev pub InOrder : ℕ → Parts D → Type 0
  InOrder = Good value sha1 Used bs count some_bytes fits

  abbrev pub Blocks : List ℕ → Type 0
  Blocks = Block value sha1 Used bs count some_bytes fits

  pub stores_laws :
      IsStores
        (Mapping value sha1 Used bs count some_bytes fits)
        (Holding value sha1 Used bs count some_bytes fits)
        (impls os db sha1)
        InOrder
        (Hashing value sha1 Used bs count some_bytes fits)
        Blocks
  stores_laws = impls-IsStores value sha1 Used bs count some_bytes fits os db laws no_collision

  pub stores_healthy : AreHealthy (impls os db sha1) InOrder Blocks count
  stores_healthy =
      impls-AreHealthy value sha1 Used bs count some_bytes fits os db laws healthy writes

  abbrev pub Shown : Parts D → List ℕ → Type 0
  Shown =
      Shows (impls os db sha1) (Mapping value sha1 Used bs count some_bytes fits)
        (Holding value sha1 Used bs count some_bytes fits) InOrder
        (Hashing value sha1 Used bs count some_bytes fits) Blocks stores_laws count stores_healthy
        bs false some_bytes fits

  blocks_count : count * bs / bs ≡ count
  blocks_count = mul-div_cancel count some_bytes

  new_ids : parts.lun.ids ≡ replicate count zero_block_id
  unfolding new_lun_map
  new_ids = ap (λ m. replicate m zero_block_id) blocks_count

  no_blocks : 0 / bs ≡ 0
  no_blocks =
      let nothing_at : 0 * bs ≡ 0 = omega arith in
      ap (λ m. m / bs) (sym nothing_at) ∙ mul-div_cancel 0 some_bytes

  pub new-Good : (n : ℕ) → n * bs < 2 ^ 63 → InOrder n parts
  unfolding new_lun_map new_file_block_store
  new-Good n room =
      let first : 0 / bs * bs ≡ 0 = ap (λ m. m * bs) no_blocks ∙ omega arith in
      let all : (0 / bs + n) * bs ≡ n * bs = ap (λ m. (m + n) * bs) no_blocks ∙ grind arith in
      record {
        room = record {
          sized = refl;
          in_step = ap pos (sym first);
          room = omega (arith, all, room);
          filled = omega arith;
        };
        known = λ key raw h. absurd (cc (nothing key));
        counted = ap length new_ids ∙ length-replicate {A = ℕ} count zero_block_id;
        whole = ap (λ m. m * bs) blocks_count;
      }

  pub new-Shows : Shown parts (replicate (count * bs) 0)
  new-Shows b inside =
      let next : suc b * bs ≡ b * bs + bs = grind arith in
      let room : suc b * bs ≤ count * bs = mul-le-mul_right bs inside in
      (
        zero_block_id,
        ap (λ ids. get_elem? ids b) new_ids ∙ get_elem?-replicate count b zero_block_id inside,
        inl (refl, slice-replicate (b * bs) bs (count * bs) (omega (arith, room, next))),
      )

  pub disk-eq :
      (n : ℕ) (s : Parts D)
      → InOrder n s
      → new_dedup_disk bs s ≡ record {
        stores = s;
        block_size = bs;
        size = pos (count * bs);
        down = false;
        closed = false;
      }
  disk-eq n s good =
      ap (λ m. record { stores = s; block_size = bs; size = pos m; down = false; closed = false })
        good.whole

  -- A new disk, over a database without entries whose Get and Set do not fail and a block file that
  -- takes every write, answers any sequence of ReadAt and WriteAt of whole blocks inside it as an array
  -- of zeros of its size does, without an error: if no two different blocks of those that are written have
  -- the same hash, and all of them fit into a file of less than 2^63 bytes.
  pub new_disk-answers :
      (requests : List Request)
      → AreRequests Blocks bs count requests
      → written requests * bs < 2 ^ 63
      → (s' : Parts D) × (ask_all (impls os db sha1) bs requests (new_dedup_disk bs parts)
          ≡ ret (ok (answers_of bs requests (replicate (count * bs) 0)), new_dedup_disk bs s'))
  new_disk-answers requests all room =
      let no_more : written requests + 0 ≡ written requests = omega arith in
      let room0 : (written requests + 0) * bs < 2 ^ 63 =
        omega (arith, ap (λ m. m * bs) no_more, room) in
      let good = new-Good (written requests + 0) room0 in
      let (s', e, good', _) =
        ask_all-answers (impls os db sha1) (Mapping value sha1 Used bs count some_bytes fits)
          (Holding value sha1 Used bs count some_bytes fits) InOrder
          (Hashing value sha1 Used bs count some_bytes fits) Blocks stores_laws count stores_healthy
          bs false some_bytes fits requests 0 (replicate (count * bs) 0) parts all
          (length-replicate {A = ℕ} (count * bs) 0) good new-Shows in
      (
        s',
        ap (ask_all (impls os db sha1) bs requests) (disk-eq (written requests + 0) parts good)
            ∙ e
            ∙ ap
                (λ (d : DedupDisk (Parts D)).
                  ret (ok (answers_of bs requests (replicate (count * bs) 0)), d))
                (sym (disk-eq 0 s' good')),
      )
