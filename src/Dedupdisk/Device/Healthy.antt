-- ===== src/Dedupdisk/Device/Healthy.antt =====
-- The deduplicating disk on stores that do not fail: an array of bytes.

use usbd.Base.{ret, ℕ, suc, ◌<◌, ◌≡◌, refl, ◌∙◌, List}
use usbd.Base.Result.{ok}
use usbd.Base.Exec.{catch-ok, pure, fail}
use usbd.Dedupdisk.Stores.{Stores, IsStores, Lookup, found, absent}
use usbd.Dedupdisk.Device.{DedupDisk, lift, assign, id_of, write_single}
use usbd.Dedupdisk.Device.Dedup.{lift-ok}

-- No call of the stores fails, for the blocks of the LUN map.
pub record AreHealthy {S : Type 0} (st : Stores S) (Good : ℕ → S → Type 0) (Block : List ℕ → Type 0)
    (count : ℕ) : Type 0 where
  pub lookup_ends :
      (n : ℕ) (buf : List ℕ) (s : S)
      → Good n s
      → (answer : Lookup) × (s' : S) × (st.lookup buf s ≡ ret (ok answer, s'))
  pub put_block_ends :
      (n : ℕ) (buf : List ℕ) (s : S)
      → Good (suc n) s
      → Block buf
      → (id : ℕ) × (s' : S) × (st.put_block buf s ≡ ret (ok id, s'))
  pub put_hash_ends :
      (n : ℕ) (hash : List ℕ) (id : ℕ) (s : S)
      → Good n s
      → (s' : S) × (st.put_hash hash id s ≡ ret (ok tt, s'))
  pub put_id_ends :
      (n b id : ℕ) (s : S) → Good n s → b < count → (s' : S) × (st.put_id b id s ≡ ret (ok tt, s'))

module _ {S : Type 0} (st : Stores S) (Maps : S → ℕ → ℕ → Type 0) (Holds : S → ℕ → List ℕ → Type 0)
    (Good : ℕ → S → Type 0) (Hashes : List ℕ → List ℕ → Type 0) (Block : List ℕ → Type 0)
    (laws : IsStores Maps Holds st Good Hashes Block) (count : ℕ)
    (healthy : AreHealthy st Good Block count) where
  assign-ends :
      (n : ℕ) (buf : List ℕ) (answer : Lookup) (d : DedupDisk S) (s0 : S)
      → Block buf
      → Good (suc n) s0
      → st.lookup buf s0 ≡ ret (ok answer, d.stores)
      → (id : ℕ) × (s' : S) × (assign st buf answer d ≡ ret (ok id, record d { stores = s' }))
        × Good n s'
  unfolding assign
  assign-ends n buf (found id hash) d s0 block good e = (
    id,
    d.stores,
    refl,
    laws.room_less n d.stores
        (laws.lookup_keeps (suc n) buf (ok (found id hash)) s0 d.stores good e).0,
  )
  assign-ends n buf (absent hash) d s0 block good e =
      let good_d = (laws.lookup_keeps (suc n) buf (ok (absent hash)) s0 d.stores good e).0 in
      let (id, s1, put) = healthy.put_block_ends n buf d.stores good_d block in
      let good_1 = (laws.put_block_keeps n buf (ok id) d.stores s1 good_d block put).0 in
      let holds = laws.put_block_holds n buf id d.stores s1 good_d block put in
      let (s2, hashed) = healthy.put_hash_ends n hash id s1 good_1 in
      let hashes = laws.lookup_absent buf hash s0 d.stores e in
      (
        id,
        s2,
        catch-ok (lift st (st.put_block buf)) _ fail d (record d { stores = s1 }) id
              (lift-ok st (st.put_block buf) d id s1 put)
            ∙ catch-ok (lift st (st.put_hash hash id)) (λ _. pure id) (λ _. pure id)
                (record d { stores = s1 }) (record d { stores = s2 }) tt
                (lift-ok st (st.put_hash hash id) (record d { stores = s1 }) tt s2 hashed),
        (laws.put_hash_keeps n hash buf id (ok tt) s1 s2 good_1 hashes block holds hashed).0,
      )

  pub write_single-ends :
      (n b : ℕ) (buf : List ℕ) (d : DedupDisk S)
      → Block buf
      → Good (suc n) d.stores
      → b < count
      → (s' : S) × (write_single st b buf d ≡ ret (ok tt, record d { stores = s' }))
  unfolding write_single id_of
  write_single-ends n b buf d block good inside =
      let (answer, s1, looked) = healthy.lookup_ends (suc n) buf d.stores good in
      let (id, s2, assigned, good_2) =
        assign-ends n buf answer (record d { stores = s1 }) d.stores block good looked in
      let (s3, mapped) = healthy.put_id_ends n b id s2 good_2 inside in
      (
        s3,
        catch-ok (id_of st buf) (λ id. lift st (st.put_id b id)) fail d (record d { stores = s2 })
              id
              (catch-ok (lift st (st.lookup buf)) (assign st buf) fail d (record d { stores = s1 })
                  answer (lift-ok st (st.lookup buf) d answer s1 looked)
                ∙ assigned)
            ∙ lift-ok st (st.put_id b id) (record d { stores = s2 }) tt s3 mapped,
      )
