-- ===== src/Dedupdisk/Impls/Contract.antt =====
-- The stores of pkg/devices/dedupdisk/impls keep the contract of the device's stores.
use mathlib.Core.Path.{subst}
use native.Mathlib.Nat.{mul-le-mul_left, mul-le-mul_right}
use usbd.Base.{
  Error, Go, ret, panic, ℕ, suc, ◌+◌, ◌*◌, ◌^◌, ◌≤◌, ◌<◌, ◌≡◌, refl, sym, ap, ◌∙◌, Option, none,
  some, List, arith, length, get_elem?, set, replicate, length-set, get_elem?-set_self,
  get_elem?-set_ne, length-replicate,
}
use usbd.Base.Result.{Result, ok, err}
use usbd.Dedupdisk.Stores.{KeepsOthers, IsStores}
use usbd.Dedupdisk.FileStore.Held.{get_block-Held}
use usbd.Dedupdisk.LunMap.{LunMap}
use usbd.Dedupdisk.LunMap as LunMap
use usbd.Dedupdisk.LunMap.Entries.{put_id_lem, get_id_inside, get_ids_inside}
use usbd.Dedupdisk.IdStore.{Db, IsDb}
use usbd.Dedupdisk.Impls.{Parts, Faults, impls, set_lun, ask_lun, read_block}
use usbd.Dedupdisk.Impls.Laws.{
  ret_inj, IsBlock, HoldsBytes, MapsTo, HashOf, IsGood, lookup-Good, lookup-absent, lookup-found,
}
use usbd.Dedupdisk.Impls.Stored.{add_block-Good, add_block-Holds, put_hash-Good}

module _ {D : Type 0} (value : D → List ℕ → Option (List ℕ)) (sha1 : List ℕ → List ℕ)
    (Used : List ℕ → Type 0) (bs count : ℕ) (some_bytes : 0 < bs) (fits : count * bs < 2 ^ 63) where
  abbrev pub Good : ℕ → Parts D → Type 0
  Good = IsGood value sha1 Used bs count some_bytes

  abbrev pub Holding : Parts D → ℕ → List ℕ → Type 0
  Holding = HoldsBytes value sha1 Used bs count some_bytes

  abbrev pub Mapping : Parts D → ℕ → ℕ → Type 0
  Mapping = MapsTo value sha1 Used bs count some_bytes

  abbrev pub Hashing : List ℕ → List ℕ → Type 0
  Hashing = HashOf value sha1 Used bs count some_bytes

  abbrev pub Block : List ℕ → Type 0
  Block = IsBlock value sha1 Used bs count some_bytes

  lun-Good :
      (n block id : ℕ) (lm : LunMap) (s : Parts D)
      → lm ≡ record s.lun { ids = set s.lun.ids block id }
      → Good n s
      → Good n (record s { lun = lm }) × KeepsOthers Mapping Holding block s (record s { lun = lm })
  lun-Good n block id lm s same good = (
    record {
      room = good.room;
      known = good.known;
      counted =
          ap (λ (l : LunMap). length l.ids) same ∙ length-set s.lun.ids block id ∙ good.counted;
      whole = ap (λ (l : LunMap). l.size) same ∙ good.whole;
    },
    record {
      maps = λ b i ne m.
          ap (λ (l : LunMap). get_elem? l.ids b) same
          ∙ get_elem?-set_ne s.lun.ids block b id (λ e. ne (sym e))
          ∙ m;
      holds = λ i bytes held. held;
    },
  )

  -- What PutID of the map has done, by its result.
  Entered : ℕ → ℕ → Parts D → Result (Unit {0}) → Parts D → Type 0
  Entered block id s (ok u) s' =
      (lm : LunMap) × (LunMap.put_id s.lun block id ≡ ret (ok lm)) × (s' ≡ record s { lun = lm })
  Entered block id s (err e) s' = s' ≡ s

  set_lun-Entered :
      (block id : ℕ) (r : Result (Unit {0})) (s s' : Parts D)
      → set_lun (λ lun. LunMap.put_id lun block id) s ≡ ret (r, s')
      → Entered block id s r s'
  unfolding Entered
  set_lun-Entered block id r s s' e = go (LunMap.put_id s.lun block id) refl e
    where
      go :
          (x : Go (Result LunMap))
          → LunMap.put_id s.lun block id ≡ x
          → (elim x as (λ _. Go (Result (Unit {0}) × Parts D)) [
            | ret (ok lun) ↦ ret (ok tt, record s { lun = lun })
            | ret (err e) ↦ ret (err e, s)
            | panic ↦ panic
          ])
            ≡ ret (r, s')
          → Entered block id s r s'
      go panic p e = absurd (cc)
      go (ret (ok lm)) p e =
          let (done, same) = ret_inj e in
          subst (λ (r : Result (Unit {0})). Entered block id s r s') done (lm, p, sym same)
      go (ret (err x)) p e =
          let (done, same) = ret_inj e in
          subst (λ (r : Result (Unit {0})). Entered block id s r s') done (sym same)

  put_id-Good :
      (n block id : ℕ) (r : Result (Unit {0})) (s s' : Parts D)
      → Good n s
      → set_lun (λ lun. LunMap.put_id lun block id) s ≡ ret (r, s')
      → Good n s' × KeepsOthers Mapping Holding block s s'
  unfolding Entered
  put_id-Good n block id r s s' good e = go r (set_lun-Entered block id r s s' e)
    where
      go :
          (r : Result (Unit {0}))
          → Entered block id s r s'
          → Good n s' × KeepsOthers Mapping Holding block s s'
      go (ok u) (lm, put, same) =
          let (shape, _) = put_id_lem s.lun lm block id put in
          subst (λ (t : Parts D). Good n t × KeepsOthers Mapping Holding block s t) (sym same)
            (lun-Good n block id lm s shape good)
      go (err x) same =
          subst (λ (t : Parts D). Good n t × KeepsOthers Mapping Holding block s t) (sym same)
            (good, record { maps = λ b i ne m. m; holds = λ i bytes held. held })

  put_id-Maps :
      (block id : ℕ) (s s' : Parts D)
      → set_lun (λ lun. LunMap.put_id lun block id) s ≡ ret (ok tt, s')
      → Mapping s' block id
  unfolding Entered
  put_id-Maps block id s s' e =
      let (lm, put, same) = set_lun-Entered block id (ok tt) s s' e in
      let (shape, inside) = put_id_lem s.lun lm block id put in
      ap (λ (t : Parts D). get_elem? t.lun.ids block) same
      ∙ ap (λ (l : LunMap). get_elem? l.ids block) shape
      ∙ get_elem?-set_self s.lun.ids block id inside

  asked :
      {A : Type 0} (f : LunMap → Go (Result A)) (r : Result A) (s : Parts D)
      → f s.lun ≡ ret r
      → ask_lun f s ≡ ret (r, s)
  asked {A} f r s e =
      ap
        (λ (x : Go (Result A)). elim x as (λ _. Go (Result A × Parts D)) [
          | ret r ↦ ret (r, s)
          | panic ↦ panic
        ])
        e

  get_block-Reads :
      (n id : ℕ) (bytes : List ℕ) (s : Parts D)
      → Good n s
      → Holding s id bytes
      → read_block id (length bytes) s ≡ ret (ok bytes, s)
  get_block-Reads n id bytes s good held =
      ap
        (λ (p : List ℕ × Option Error). elim p.1 as (λ _. Go (Result (List ℕ) × Parts D)) [
          | none ↦ ret (ok p.0, s)
          | some why ↦ ret (err why, s)
        ])
        (get_block-Held bs some_bytes n id bytes (replicate (length bytes) 0) s.blocks good.room
          held (length-replicate {A = ℕ} (length bytes) 0))

  less_room : (n : ℕ) (s : Parts D) → Good (suc n) s → Good n s
  less_room n s good = record {
    room = record {
      sized = good.room.sized;
      in_step = good.room.in_step;
      room =
          let smaller : (s.blocks.next_id + n) * bs ≤ (s.blocks.next_id + suc n) * bs =
            mul-le-mul_right bs (omega arith) in
          omega (arith, smaller, good.room.room);
      filled = good.room.filled;
    };
    known = good.known;
    counted = good.counted;
    whole = good.whole;
  }

  count_small : count < 2 ^ 64
  count_small =
      let least : count * 1 ≤ count * bs = mul-le-mul_left count some_bytes in
      omega (arith, least, fits)

  module _ (os : Faults) (db : Db D) (laws : IsDb db value) where
    -- The LUN map, the ID store over a database and the block store, whether or not their calls fail,
    -- keep the contract of the device's stores on blocks of which no two different ones
    -- have the same hash.
    pub impls-IsStores :
        ((a b : List ℕ) → Used a → Used b → sha1 a ≡ sha1 b → a ≡ b)
        → IsStores Mapping Holding (impls os db sha1) Good Hashing Block
    unfolding Entered
    impls-IsStores no_collision = record {
      lookup_keeps = λ n buf r s s' good e.
          lookup-Good value sha1 Used bs count some_bytes db laws n buf r s s' good e;
      lookup_found = λ n buf id hash s s' good block e.
          lookup-found value sha1 Used bs count some_bytes db laws no_collision n buf id hash s s'
            good block e;
      lookup_absent = λ buf hash s s' e.
          lookup-absent value sha1 Used bs count some_bytes db laws buf hash s s' e;
      put_block_keeps = λ n buf r s s' good block e.
          add_block-Good value sha1 Used bs count some_bytes os n buf s good block.0 r s' e;
      put_block_holds = λ n buf id s s' good block e.
          add_block-Holds value sha1 Used bs count some_bytes os n buf s good block.0 id s' e;
      put_hash_keeps = λ n hash buf id r s s' good hashed block held e.
          put_hash-Good value sha1 Used bs count some_bytes db laws n hash buf id r s s' good hashed
            block held e;
      put_id_keeps = λ n block id r s s' good e. put_id-Good n block id r s s' good e;
      put_id_maps = λ block id s s' e. put_id-Maps block id s s' e;
      put_id_refused = λ block id x s s' e. refused block id x s s' e;
      get_id_reads = λ block id s m.
          asked (λ lun. LunMap.get_id lun block) (ok id) s (get_id_inside s.lun block id m);
      get_ids_reads = λ n block ids s good some_ids m.
          asked (λ lun. LunMap.get_ids lun block (length ids)) (ok ids) s
            (get_ids_inside s.lun block ids (omega (arith, good.counted, count_small)) some_ids m);
      get_block_reads = λ n id bytes s good held. get_block-Reads n id bytes s good held;
      room_less = λ n s good. less_room n s good;
    }
      where
        refused :
            (block id : ℕ) (x : Error) (s s' : Parts D)
            → set_lun (λ lun. LunMap.put_id lun block id) s ≡ ret (err x, s')
            → s' ≡ s
        refused block id x s s' e = set_lun-Entered block id (err x) s s' e
