-- ===== src/Examples/Devices.antt =====
-- The deduplicating device of pkg/devices/dedupdisk on its own stores, over a database in memory.
use usbd.Base.{
  failed, Go, ret, pos, add64, ℕ, zero, suc, ◌*◌, ◌^◌, ◌<◌, ◌≡◌, refl, sym, ap, ap₂, ◌∙◌, ◌≢◌, ◌⊎◌,
  inl, inr, Bool, true, false, Option, none, some, List, [], ◌∷◌, arith, ◌==◌, if◌then◌else◌, ==→eq,
  ==_refl, Bool-cases, replicate, file_write, slice,
}
use usbd.Base.Result.{Result, ok, err}
use usbd.Util.Zeros.{is_zeros}
use usbd.Dedupdisk.Stores.{IsStores}
use usbd.Dedupdisk.Device.{DedupDisk, id_of, assign, write_single}
use usbd.Dedupdisk.Device.Dedup.{Has, write_single_safe}
use usbd.Dedupdisk.Device.Requests.{
  Request, read, write, ask_all, answers_of, answer_of, after, written, IsRequest, AreRequests,
}
use usbd.Dedupdisk.FileStore.{FileStore, new_file_block_store}
use usbd.Dedupdisk.FileStore as FileStore
use usbd.Dedupdisk.LunMap.{LunMap, new_lun_map}
use usbd.Dedupdisk.LunMap as LunMap
use usbd.Dedupdisk.IdStore.{Db, IsDb, IdStore}
use usbd.Dedupdisk.IdStore as IdStore
use usbd.Dedupdisk.Impls.{Parts, Faults, impls, new_dedup_disk}
use usbd.Dedupdisk.Impls.Contract.{Good, Holding, Mapping, Hashing, Block, impls-IsStores}
use usbd.Dedupdisk.Impls.Healthy.{IsHealthyDb}
use usbd.Dedupdisk.Impls.Disk.{new_parts, new_disk-answers, new-Good}

abbrev same_bytes : List ℕ → List ℕ → Bool
same_bytes [] [] = true
same_bytes (x ∷ xs) (y ∷ ys) = if x == y then same_bytes xs ys else false
same_bytes xs ys = false

same_bytes→eq : (xs ys : List ℕ) → same_bytes xs ys ≡ true → xs ≡ ys
same_bytes→eq [] [] h = refl
same_bytes→eq [] (y ∷ ys) h = absurd (cc)
same_bytes→eq (x ∷ xs) [] h = absurd (cc)
same_bytes→eq (x ∷ xs) (y ∷ ys) h = elim (Bool-cases (x == y)) [
  | inl e ↦ ap₂ (λ a as'. a ∷ as') (==→eq x y e) (same_bytes→eq xs ys (ground arith))
  | inr e ↦ absurd (ground arith)
]

same_bytes_refl : (xs : List ℕ) → same_bytes xs xs ≡ true
same_bytes_refl [] = refl
same_bytes_refl (x ∷ xs) = rw (==_refl x) (same_bytes_refl xs)

-- The keys and values that were set, the last one first.
abbrev pub Entries : Type 0
Entries = List (List ℕ × List ℕ)

abbrev pub value : Entries → List ℕ → Option (List ℕ)
value [] key = none
value ((k, raw) ∷ entries) key = if same_bytes k key then some raw else value entries key

abbrev pub memory : Db Entries
memory = record {
  get = λ key d. ret (ok (value d key), d);
  set = λ key raw d. ret (ok tt, (key, raw) ∷ d);
  flush = λ d. ret (ok tt, d);
  close = λ d. ret (ok tt, d);
}

found_first :
    (key raw k : List ℕ) (d : Entries) (old : List ℕ)
    → value ((key, raw) ∷ d) k ≡ some old
    → (value d k ≡ some old) ⊎ ((k ≡ key) × (old ≡ raw))
found_first key raw k d old e = elim (Bool-cases (same_bytes key k)) [
  | inl same ↦ inr (sym (same_bytes→eq key k same), ground arith)
  | inr other ↦ inl (ground arith)
]

pub memory-IsDb : IsDb memory value
memory-IsDb = record {
  get_reads = λ key r d d' e. ground arith;
  get_keeps = λ key k r d d' e. ground arith;
  set_stores = λ key raw d d' e. ground (arith, same_bytes_refl key);
  set_keeps = λ key raw k old r d d' e h. set_keeps key raw k old r d d' e h;
}
  where
    set_keeps :
        (key raw k old : List ℕ) (r : Result (Unit {0})) (d d' : Entries)
        → ◌≡◌ {A = Go (Result (Unit {0}) × Entries)} (ret (ok tt, (key, raw) ∷ d)) (ret (r, d'))
        → value d' k ≡ some old
        → (value d k ≡ some old) ⊎ ((k ≡ key) × (old ≡ raw))
    set_keeps key raw k old r d d' e h =
        let same : (key, raw) ∷ d ≡ d' = cc in
        found_first key raw k d old (ap (λ (l : Entries). value l k) same ∙ h)

pub memory-IsHealthyDb : IsHealthyDb memory
memory-IsHealthyDb = record {
  get_ends = λ key d. (value d key, d, refl);
  set_ends = λ key raw d. ((key, raw) ∷ d, refl);
}

-- The hash of a block is the block, so that any blocks may be written.
abbrev pub hash : List ℕ → List ℕ
hash buf = buf

abbrev pub Any : List ℕ → Type 0
Any buf = Unit {0}

pub no_collision : (a b : List ℕ) → Any a → Any b → hash a ≡ hash b → a ≡ b
no_collision a b _ _ e = e

abbrev pub faults : Option ℕ → Faults
faults stops = record {
  write_fails = λ id. stops;
  map_sync = ok tt;
  map_close = ok tt;
  blocks_sync = ok tt;
  blocks_close = ok tt;
}

-- Four blocks of two bytes.
abbrev pub some_bytes : 0 < 2
some_bytes = omega arith

abbrev pub fits : 4 * 2 < 2 ^ 63
fits = omega arith

impls-IsStores_example :
    IsStores
      (Mapping value hash Any 2 4 some_bytes fits)
      (Holding value hash Any 2 4 some_bytes fits)
      (impls (faults (some 1)) memory hash)
      (Good value hash Any 2 4 some_bytes fits)
      (Hashing value hash Any 2 4 some_bytes fits)
      (Block value hash Any 2 4 some_bytes fits)
impls-IsStores_example =
    impls-IsStores value hash Any 2 4 some_bytes fits (faults (some 1)) memory memory-IsDb
      no_collision

pub two_blocks :
    (i : ℕ)
    → i < 2
    → Block value hash Any 2 4 some_bytes fits (slice (i * 2) 2 (7 ∷ 8 ∷ 7 ∷ 8 ∷ []))
two_blocks zero h = (refl, tt)
two_blocks (suc zero) h = (refl, tt)
two_blocks (suc (suc i)) h = absurd (omega arith)

abbrev requests : List Request
requests = write 1 2 (7 ∷ 8 ∷ 7 ∷ 8 ∷ []) ∷ read 0 3 (1 ∷ 1 ∷ 1 ∷ 1 ∷ 1 ∷ 1 ∷ []) ∷ []

requests_fit : AreRequests (Block value hash Any 2 4 some_bytes fits) 2 4 requests
unfolding AreRequests IsRequest
requests_fit =
    ((refl, omega arith, omega arith, two_blocks), ((refl, omega arith, omega arith), tt))

two_written : written requests * 2 < 2 ^ 63
unfolding written
two_written = omega arith

new_disk-answers_example :
    (s' : Parts Entries) × (ask_all
        (impls (faults none) memory hash)
        2
        requests
        (new_dedup_disk 2 (new_parts 2 4 []))
      ≡ ret (ok (answers_of 2 requests (replicate (4 * 2) 0)), new_dedup_disk 2 s'))
new_disk-answers_example =
    new_disk-answers value hash Any 2 4 some_bytes fits (faults none) memory memory-IsDb
      memory-IsHealthyDb (λ id. refl) no_collision [] (λ key. refl) requests requests_fit
      two_written

-- What the requests of the example are answered.
requests_answered :
    answers_of 2 requests (replicate 8 0)
    ≡ (7 ∷ 8 ∷ 7 ∷ 8 ∷ [], pos 4, none) ∷ (0 ∷ 0 ∷ 7 ∷ 8 ∷ 7 ∷ 8 ∷ [], pos 6, none) ∷ []
unfolding answers_of answer_of after
requests_answered = refl

abbrev new_disk : DedupDisk (Parts Entries)
new_disk = new_dedup_disk 2 (new_parts 2 4 [])

new_parts-Good : Good value hash Any 2 4 some_bytes fits 1 new_disk.stores
new_parts-Good =
    new-Good value hash Any 2 4 some_bytes fits (faults none) memory memory-IsDb memory-IsHealthyDb
      (λ id. refl) no_collision [] (λ key. refl) 1 (omega arith)

-- The write of the block file fails: its ID is used up.
abbrev write_failed : DedupDisk (Parts Entries)
write_failed = record new_disk {
  stores = record new_disk.stores {
    blocks = record { file = 7 ∷ []; next_id = 1; next_pos = pos 2; block_size = 2 };
  };
}

failed_write :
    write_single (impls (faults (some 1)) memory hash) 3 (7 ∷ 8 ∷ []) new_disk
    ≡ ret (err failed, write_failed)
unfolding write_single id_of assign IdStore.get_id IdStore.put_id LunMap.put_id FileStore.put_block
    new_lun_map new_file_block_store is_zeros file_write add64
failed_write = refl

abbrev Bytes : Parts Entries → ℕ → List ℕ → Type 0
Bytes =
    Has (impls (faults (some 1)) memory hash) (Mapping value hash Any 2 4 some_bytes fits)
      (Holding value hash Any 2 4 some_bytes fits) (Good value hash Any 2 4 some_bytes fits)
      (Hashing value hash Any 2 4 some_bytes fits) (Block value hash Any 2 4 some_bytes fits)
      (impls-IsStores value hash Any 2 4 some_bytes fits (faults (some 1)) memory memory-IsDb
        no_collision)

write_single_safe_example :
    Good value hash Any 2 4 some_bytes fits 0 write_failed.stores
    × ((c : ℕ) (old : List ℕ)
        → c ≢ 3
        → Bytes new_disk.stores c old
        → Bytes write_failed.stores c old)
    × ((old : List ℕ) → Bytes new_disk.stores 3 old → Bytes write_failed.stores 3 old)
write_single_safe_example =
    write_single_safe (impls (faults (some 1)) memory hash)
      (Mapping value hash Any 2 4 some_bytes fits) (Holding value hash Any 2 4 some_bytes fits)
      (Good value hash Any 2 4 some_bytes fits) (Hashing value hash Any 2 4 some_bytes fits)
      (Block value hash Any 2 4 some_bytes fits)
      (impls-IsStores value hash Any 2 4 some_bytes fits (faults (some 1)) memory memory-IsDb
        no_collision)
      0 3 (7 ∷ 8 ∷ []) new_disk write_failed (err failed) (refl, tt) new_parts-Good failed_write
