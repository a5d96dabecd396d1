-- ===== src/Dedupdisk/Device/Dedup.antt =====
-- What a write of one block leaves, however it ends.
use usbd.Base.{Go, ret, panic, pos, ℕ, suc, ◌≡◌, refl, sym, ap, ◌∙◌, ◌≢◌, none, List, length}
use mathlib.Core.Path.{subst}
use usbd.Base.Result.{Result, ok, err}
use usbd.Base.Exec.{catch-ok, Exec, pure, fail, catch}
use usbd.Base.Exec.Post.{Post-mono, Post-ret, Post, Post-catch, After}
use usbd.Dedupdisk.Stores.{
  KeepsOthers, Keeps-KeepsOthers, Stores, IsStores, Lookup, found, absent, Keeps, Keeps-trans,
}
use usbd.Dedupdisk.Device.{id_of, write_single, read_single, DedupDisk, M, lift, assign}

-- The device is as before but for its stores.
abbrev pub SameBut : {S : Type 0} → DedupDisk S → DedupDisk S → Type 0
SameBut d d' = d' ≡ record d { stores = d'.stores }

module _ {S : Type 0} (st : Stores S) where
  pub lift-post :
      {A : Type 0} (P : Result A → DedupDisk S → Type 0) (m : Exec S A) (d : DedupDisk S)
      → ((r : Result A) (s : S) → m d.stores ≡ ret (r, s) → P r (record d { stores = s }))
      → Post P (lift st m d)
  lift-post {A = A} P m d h = go (m d.stores) h
    where
      go :
          (x : Go (Result A × S))
          → ((r : Result A) (s : S) → x ≡ ret (r, s) → P r (record d { stores = s }))
          → Post P (elim x as (λ _. Go (Result A × DedupDisk S)) [
            | ret (r, s) ↦ ret (r, record d { stores = s })
            | panic ↦ panic
          ])
      go panic h = tt
      go (ret (r, s)) h = h r s refl

  pub lift-ok :
      {A : Type 0} (m : Exec S A) (d : DedupDisk S) (a : A) (s : S)
      → m d.stores ≡ ret (ok a, s)
      → lift st m d ≡ ret (ok a, record d { stores = s })
  lift-ok m d a s e = rw (e, lift) refl

module _ {S : Type 0} (st : Stores S) (Maps : S → ℕ → ℕ → Type 0) (Holds : S → ℕ → List ℕ → Type 0)
    (Good : ℕ → S → Type 0) (Hashes : List ℕ → List ℕ → Type 0) (Block : List ℕ → Type 0)
    (laws : IsStores Maps Holds st Good Hashes Block) where
  -- The block has the bytes: by the ID that it is mapped to.
  abbrev pub Has : S → ℕ → List ℕ → Type 0
  Has s b bytes = (id : ℕ) × Maps s b id × Holds s id bytes

  -- An ID that is given to a block holds its bytes.
  abbrev Given : List ℕ → Result ℕ → S → Type 0
  Given buf (ok id) s = Holds s id buf
  Given buf (err e) s = Unit {0}

  abbrev HasId : ℕ → DedupDisk S → List ℕ → Result ℕ → DedupDisk S → Type 0
  HasId n d buf r d' =
      SameBut d d' × Good n d'.stores × Keeps Maps Holds d.stores d'.stores × Given buf r d'.stores

  assign-HasId :
      (n : ℕ) (buf : List ℕ) (answer : Lookup) (d d' : DedupDisk S)
      → Block buf
      → Good (suc n) d.stores
      → st.lookup buf d.stores ≡ ret (ok answer, d'.stores)
      → SameBut d d'
      → Post (HasId n d buf) (assign st buf answer d')
  unfolding assign
  assign-HasId n buf (found id hash) d d' block good e same =
      let (good', keeps) =
        laws.lookup_keeps (suc n) buf (ok (found id hash)) d.stores d'.stores good e in
      (
        same,
        laws.room_less n d'.stores good',
        keeps,
        laws.lookup_found (suc n) buf id hash d.stores d'.stores good block e,
      )
  assign-HasId n buf (absent hash) d d' block good e same =
      Post-catch (HasId n d buf) _ fail (lift st (st.put_block buf)) d' (
        lift-post st (After (HasId n d buf) hashed fail) (st.put_block buf) d'
          (λ r s e. added r s e))
    where
      hashed : ℕ → M st ℕ
      hashed id = catch (lift st (st.put_hash hash id)) (λ _. pure id) (λ _. pure id)

      same_as : (s : S) → record d' { stores = s } ≡ record d { stores = s }
      same_as s = ap (λ (x : DedupDisk S). record x { stores = s }) same

      looked : Good (suc n) d'.stores × Keeps Maps Holds d.stores d'.stores
      looked = laws.lookup_keeps (suc n) buf (ok (absent hash)) d.stores d'.stores good e

      done :
          (id : ℕ) (s : S)
          → Holds s id buf
          → Good n s
          → Keeps Maps Holds d'.stores s
          → (r : Result (Unit {0})) (s' : S) → st.put_hash hash id s ≡ ret (r, s')
          → HasId n d buf (ok id) (record d' { stores = s' })
      done id s h good_s kept r s' put =
          let (good', keeps) =
            laws.put_hash_keeps n hash buf id r s s' good_s
              (laws.lookup_absent buf hash d.stores d'.stores e) block h put in
          (
            same_as s',
            good',
            Keeps-trans d.stores s s' (Keeps-trans d.stores d'.stores s looked.1 kept) keeps,
            keeps.holds id buf h,
          )

      after_put :
          (id : ℕ) (s : S)
          → Holds s id buf
          → Good n s
          → Keeps Maps Holds d'.stores s
          → (r : Result (Unit {0})) (s' : S) → st.put_hash hash id s ≡ ret (r, s')
          → After {A = Unit {0}}
              (HasId n d buf)
              (λ _. pure id)
              (λ _. pure id)
              r
              (record d' { stores = s' })
      after_put id s h good_s kept (ok x) s' put = done id s h good_s kept (ok x) s' put
      after_put id s h good_s kept (err x) s' put = done id s h good_s kept (err x) s' put

      added :
          (r : Result ℕ) (s : S)
          → st.put_block buf d'.stores ≡ ret (r, s)
          → After (HasId n d buf) hashed fail r (record d' { stores = s })
      added (ok id) s put =
          let (good_s, kept) = laws.put_block_keeps n buf (ok id) d'.stores s looked.0 block put in
          Post-catch (HasId n d buf) _ _ (lift st (st.put_hash hash id)) (record d' { stores = s })
            (lift-post st _ (st.put_hash hash id) (record d' { stores = s })
              (after_put id s (laws.put_block_holds n buf id d'.stores s looked.0 block put) good_s
                kept))
      added (err x) s put =
          let (good_s, kept) = laws.put_block_keeps n buf (err x) d'.stores s looked.0 block put in
          (same_as s, good_s, Keeps-trans d.stores d'.stores s looked.1 kept, tt)

  id_of-HasId :
      (n : ℕ) (buf : List ℕ) (d : DedupDisk S)
      → Block buf
      → Good (suc n) d.stores
      → Post (HasId n d buf) (id_of st buf d)
  unfolding id_of
  id_of-HasId n buf d block good =
      Post-catch (HasId n d buf) (assign st buf) fail (lift st (st.lookup buf)) d
        (lift-post st (After (HasId n d buf) (assign st buf) fail) (st.lookup buf) d answered)
    where
      answered :
          (r : Result Lookup) (s : S)
          → st.lookup buf d.stores ≡ ret (r, s)
          → After (HasId n d buf) (assign st buf) fail r (record d { stores = s })
      answered (ok answer) s e =
          assign-HasId n buf answer d (record d { stores = s }) block good e refl
      answered (err x) s e =
          let (good', keeps) = laws.lookup_keeps (suc n) buf (err x) d.stores s good e in
          (refl, laws.room_less n s good', keeps, tt)

  -- What the block itself has: the new bytes, or what it had.
  abbrev pub Outcome : ℕ → List ℕ → S → Result (Unit {0}) → S → Type 0
  Outcome b buf s (ok x) s' = Has s' b buf
  Outcome b buf s (err e) s' = (old : List ℕ) → Has s b old → Has s' b old

  abbrev pub Wrote : ℕ → DedupDisk S → ℕ → List ℕ → Result (Unit {0}) → DedupDisk S → Type 0
  Wrote n d b buf r d' =
      SameBut d d'
      × Good n d'.stores
      × KeepsOthers Maps Holds b d.stores d'.stores
      × Outcome b buf d.stores r d'.stores

  pub write_single-Wrote :
      (n b : ℕ) (buf : List ℕ) (d : DedupDisk S)
      → Block buf
      → Good (suc n) d.stores
      → Post (Wrote n d b buf) (write_single st b buf d)
  unfolding write_single
  write_single-Wrote n b buf d block good = Post-catch (Wrote n d b buf) put fail (id_of st buf) d (
      Post-mono (HasId n d buf) (After (Wrote n d b buf) put fail) got _
        (id_of-HasId n buf d block good))
    where
      put : ℕ → M st Unit
      put id = lift st (st.put_id b id)

      mapped :
          (id : ℕ) (d' : DedupDisk S)
          → HasId n d buf (ok id) d'
          → (r : Result (Unit {0})) (s : S) → st.put_id b id d'.stores ≡ ret (r, s)
          → Wrote n d b buf r (record d' { stores = s })
      mapped id d' (same, good', keeps, h) (err x) s e =
          let (good_s, others) = laws.put_id_keeps n b id (err x) d'.stores s good' e in
          let unchanged = laws.put_id_refused b id x d'.stores s e in
          (
            ap (λ (x : DedupDisk S). record x { stores = s }) same,
            good_s,
            Keeps-KeepsOthers b d.stores d'.stores s keeps others,
            λ old (i, m, held).
                subst (λ (t : S). Has t b old) (sym unchanged)
                  (i, keeps.maps b i m, keeps.holds i old held),
          )
      mapped id d' (same, good', keeps, h) (ok tt) s e =
          let (good_s, others) = laws.put_id_keeps n b id (ok tt) d'.stores s good' e in
          (
            ap (λ (x : DedupDisk S). record x { stores = s }) same,
            good_s,
            Keeps-KeepsOthers b d.stores d'.stores s keeps others,
            (id, laws.put_id_maps b id d'.stores s e, others.holds id buf h),
          )

      got :
          (r : Result ℕ) (d' : DedupDisk S)
          → HasId n d buf r d'
          → After (Wrote n d b buf) put fail r d'
      got (ok id) d' h = lift-post st (Wrote n d b buf) (st.put_id b id) d' (mapped id d' h)
      got (err x) d' (same, good', keeps, _) = (
        same,
        good',
        record { maps = λ c i ne m. keeps.maps c i m; holds = keeps.holds },
        λ old (i, m, held). (i, keeps.maps b i m, keeps.holds i old held),
      )

  -- A write of one block that does not panic, however its calls of the stores end, leaves the stores
  -- in order and every other block with its bytes; the block has the new bytes if the write
  -- reported no error, and what it had if it did.
  pub write_single_safe :
      (n b : ℕ) (buf : List ℕ) (d d' : DedupDisk S) (r : Result Unit)
      → Block buf
      → Good (suc n) d.stores
      → write_single st b buf d ≡ ret (r, d')
      → Good n d'.stores
        × ((c : ℕ) (old : List ℕ) → c ≢ b → Has d.stores c old → Has d'.stores c old)
        × Outcome b buf d.stores r d'.stores
  write_single_safe n b buf d d' r block good e =
      let (_, good', others, out) =
        Post-ret (Wrote n d b buf) (write_single st b buf d)
          (write_single-Wrote n b buf d block good) e in
      (good', λ c old ne (i, m, held). (i, others.maps c i ne m, others.holds i old held), out)

  -- A block that has some bytes is read into a buffer of their length.
  pub read_single-Has :
      (n b : ℕ) (bytes other : List ℕ) (d : DedupDisk S)
      → length other ≡ length bytes
      → Good n d.stores
      → Has d.stores b bytes
      → read_single st b other d ≡ ret (ok (bytes, pos (length bytes), none), d)
  unfolding read_single
  read_single-Has n b bytes other d same good (id, maps, holds) =
      catch-ok (lift st (st.get_id b)) _ fail d d id
        (lift-ok st (st.get_id b) d id d.stores (laws.get_id_reads b id d.stores maps))
      ∙ catch-ok (lift st (st.get_block id (length other))) _ fail d d bytes (
          lift-ok st (st.get_block id (length other)) d bytes d.stores
            (rw (same) (laws.get_block_reads n id bytes d.stores good holds)))
      ∙ rw (same) refl
