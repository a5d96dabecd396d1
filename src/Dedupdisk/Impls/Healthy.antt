-- ===== src/Dedupdisk/Impls/Healthy.antt =====
-- The stores of pkg/devices/dedupdisk/impls answer, where the database and the block file do.
use native.Mathlib.Nat.{mul-le-mul_left}
use usbd.Base.{
  Go, ret, panic, ℕ, ◌*◌, ◌^◌, ◌≤◌, ◌<◌, ◌≡◌, refl, sym, ap, ◌∙◌, inl, inr, Option, none, some,
  List, [], arith, le→ltb, Bool-cases, length, set, take, le_value, length-le_bytes, le_bytes,
}
use usbd.Base.Result.{Result, ok, err}
use usbd.Base.Exec.{Exec, catch-ok, fail}
use usbd.Util.Zeros.{is_zeros}
use usbd.Dedupdisk.Stores.{Lookup, found, absent}
use usbd.Dedupdisk.FileStore.{zero_block_id}
use usbd.Dedupdisk.FileStore.Held.{result_of, after_put}
use usbd.Dedupdisk.LunMap.{LunMap}
use usbd.Dedupdisk.LunMap as LunMap
use usbd.Dedupdisk.LunMap.Entries.{put_id_inside}
use usbd.Dedupdisk.IdStore.{Db, IsDb, IdStore, on_db, answer}
use usbd.Dedupdisk.IdStore as IdStore
use usbd.Dedupdisk.Impls.{Parts, Faults, impls, on_ids, set_lun}
use usbd.Dedupdisk.Impls.Stored.{add_block_lem}
use usbd.Dedupdisk.Impls.Contract.{Good, Block}
use usbd.Dedupdisk.Device.Healthy.{AreHealthy}

-- No Get and no Set fails.
pub record IsHealthyDb {D : Type 0} (db : Db D) : Type 0 where
  pub get_ends :
      (key : List ℕ) (d : D)
      → (r : Option (List ℕ)) × (d' : D) × (db.get key d ≡ ret (Result.ok r, d'))
  pub set_ends : (key raw : List ℕ) (d : D) → (d' : D) × (db.set key raw d ≡ ret (Result.ok tt, d'))

module _ {D : Type 0} where
  on_db-ok :
      {A : Type 0} (m : Exec D A) (ps : IdStore D) (x : A) (d : D)
      → m ps.database ≡ ret (ok x, d)
      → on_db m ps ≡ ret (ok x, record ps { database = d })
  on_db-ok {A} m ps x d e =
      ap
        (λ (g : Go (Result A × D)). elim g as (λ _. Go (Result A × IdStore D)) [
          | ret (r, d) ↦ ret (r, record ps { database = d })
          | panic ↦ panic
        ])
        e

  on_ids-ok :
      {A : Type 0} (m : Exec (IdStore D) A) (s : Parts D) (x : A) (ids : IdStore D)
      → m s.ids ≡ ret (ok x, ids)
      → on_ids m s ≡ ret (ok x, record s { ids = ids })
  on_ids-ok {A} m s x ids e =
      ap
        (λ (g : Go (Result A × IdStore D)). elim g as (λ _. Go (Result A × Parts D)) [
          | ret (r, ids) ↦ ret (r, record s { ids = ids })
          | panic ↦ panic
        ])
        e

  module _ (db : Db D) (sha1 : List ℕ → List ℕ) where
    answer-ends :
        (hash : List ℕ) (r : Option (List ℕ)) (ps : IdStore D)
        → ((raw : List ℕ) → r ≡ some raw → 8 ≤ length raw)
        → (a : Lookup) × (answer db sha1 hash r ps ≡ ret (ok a, ps))
    answer-ends hash none ps long = (absent hash, refl)
    answer-ends hash (some raw) ps long =
        (found (le_value (take 8 raw)) [], rw (le→ltb (length raw) 8 (long raw refl)) refl)

    get_id-ends :
        (healthy : IsHealthyDb db) (buf : List ℕ) (ps : IdStore D)
        → ((r : Option (List ℕ)) (d : D) (raw : List ℕ)
            → db.get (sha1 buf) ps.database ≡ ret (ok r, d)
            → r ≡ some raw
            → 8 ≤ length raw)
        → (a : Lookup) × (ps' : IdStore D) × (IdStore.get_id db sha1 buf ps ≡ ret (ok a, ps'))
    unfolding IdStore.get_id
    get_id-ends healthy buf ps long = elim (Bool-cases (is_zeros buf)) [
      | inl zeros ↦ (found zero_block_id [], ps, rw zeros refl)
      | inr other ↦
          let (r, d, got) = healthy.get_ends (sha1 buf) ps.database in
          let (a, answered) =
            answer-ends (sha1 buf) r (record ps { database = d }) (λ raw e. long r d raw got e) in
          (
            a,
            record ps { database = d },
            rw other (
                catch-ok (on_db (db.get (sha1 buf))) (answer db sha1 (sha1 buf)) fail ps
                  (record ps { database = d }) r (on_db-ok (db.get (sha1 buf)) ps r d got)
                ∙ answered),
          )
    ]

module _ {D : Type 0} (value : D → List ℕ → Option (List ℕ)) (sha1 : List ℕ → List ℕ)
    (Used : List ℕ → Type 0) (bs count : ℕ) (some_bytes : 0 < bs) (fits : count * bs < 2 ^ 63)
    (os : Faults) (db : Db D) (laws : IsDb db value) (healthy : IsHealthyDb db)
    (writes : (id : ℕ) → os.write_fails id ≡ none) where
  abbrev InOrder : ℕ → Parts D → Type 0
  InOrder = Good value sha1 Used bs count some_bytes fits

  put_id-ends :
      (n b id : ℕ) (s : Parts D)
      → InOrder n s
      → b < count
      → (s' : Parts D) × (set_lun (λ lun. LunMap.put_id lun b id) s ≡ ret (ok tt, s'))
  put_id-ends n b id s good inside =
      let lm : LunMap = record s.lun { ids = set s.lun.ids b id } in
      let least : count * 1 ≤ count * bs = mul-le-mul_left count some_bytes in
      (
        record s { lun = lm },
        ap
            (λ (x : Go (Result LunMap)). elim x as (λ _. Go (Result (Unit {0}) × Parts D)) [
              | ret (ok lun) ↦ ret (ok tt, record s { lun = lun })
              | ret (err e) ↦ ret (err e, s)
              | panic ↦ panic
            ])
            (put_id_inside s.lun b id (omega (arith, inside, good.counted))
              (omega (arith, least, inside, good.whole))),
      )

  pub impls-AreHealthy :
      AreHealthy (impls os db sha1) InOrder (Block value sha1 Used bs count some_bytes fits) count
  unfolding IdStore.put_id
  impls-AreHealthy = record {
    lookup_ends = λ n buf s good.
        let (a, ps', e) =
          get_id-ends db sha1 healthy buf s.ids
            (λ r d raw got is_some. known_long n buf s good r d raw got is_some) in
        (a, record s { ids = ps' }, on_ids-ok (IdStore.get_id db sha1 buf) s a ps' e);
    put_block_ends = λ n buf s good block. (
      s.blocks.next_id,
      record s { blocks = after_put bs some_bytes (os.write_fails s.blocks.next_id) s.blocks buf },
      add_block_lem value sha1 Used bs count some_bytes os n buf s good block.0
          ∙ ap
              (λ (stops : Option ℕ). ret (
                result_of bs some_bytes stops s.blocks.next_id,
                record s {
                  blocks = after_put bs some_bytes (os.write_fails s.blocks.next_id) s.blocks buf;
                },
              ))
              (writes s.blocks.next_id),
    );
    put_hash_ends = λ n hash id s good.
        let (d, e) = healthy.set_ends hash (le_bytes 8 id) s.ids.database in
        (
          record s { ids = record s.ids { database = d } },
          on_ids-ok (IdStore.put_id db sha1 hash id) s tt (record s.ids { database = d })
              (stored hash id s.ids d e),
        );
    put_id_ends = λ n b id s good inside. put_id-ends n b id s good inside;
  }
    where
      known_long :
          (n : ℕ) (buf : List ℕ) (s : Parts D) (good : InOrder n s) (r : Option (List ℕ)) (d : D)
          (raw : List ℕ)
          → db.get (sha1 buf) s.ids.database ≡ ret (ok r, d)
          → r ≡ some raw
          → 8 ≤ length raw
      known_long n buf s good r d raw got is_some =
          let (id, _, raw_id, _, _, _) =
            good.known (sha1 buf) raw
              (sym (laws.get_reads (sha1 buf) r s.ids.database d got) ∙ is_some) in
          omega (arith, ap length raw_id, length-le_bytes 8 id)

      stored :
          (hash : List ℕ) (id : ℕ) (ps : IdStore D) (d : D)
          → db.set hash (le_bytes 8 id) ps.database ≡ ret (ok tt, d)
          → IdStore.put_id db sha1 hash id ps ≡ ret (ok tt, record ps { database = d })
      stored hash id ps d e = on_db-ok (db.set hash (le_bytes 8 id)) ps tt d e
