-- ===== src/Objstore/Segment/Upload.antt =====
-- What an upload leaves in the object store.
use usbd.Base.{
  Error, invalid, failed, ret, ℕ, ◌≡◌, refl, ap, ◌∙◌, Bool, true, false, not, Option, none, some,
  List, ◌==◌, if◌then◌else◌, length,
}
use usbd.Base.Result.{Result, ok, err}
use usbd.Base.Exec.{on_result, pure, fail, catch, guard, ◌>>=◌, ◌>>◌}
use usbd.Base.Exec.Post.{
  Post, Post-mono, Post-if, Post-catch, After, Changes, Changes-pure, Changes-guard, Changes-if,
  Changes-catch, Post-ret,
}
use usbd.Objstore.Env.{Env, IsStore, Params, Segment, Cell, bytes_or_nil}
use usbd.Objstore.StoreParams.{M, ask, os_call, persist_etag, sync_file, change}
use usbd.Objstore.Segment.{flush_file, take_item, drop_item, flush}
use usbd.Objstore.Segment.FailedFlush.{SameButTag, persist_etag-same}

module _ {World Item : Type 0} (env : Env World Item) (params : Params) (content : Item → List ℕ)
    (store : IsStore env content) where
  abbrev SameSeg : Cell World Item → Cell World Item → Type 0
  SameSeg c d = d.seg ≡ c.seg

  ss_refl : (c : Cell World Item) → SameSeg c c
  ss_refl c = refl

  ss_trans : (c d e : Cell World Item) → SameSeg c d → SameSeg d e → SameSeg c e
  ss_trans c d e p q = q ∙ p

  ask-SameSeg : {A : Type 0} (f : World → A × World) → Changes SameSeg (ask env params f)
  ask-SameSeg f = record { at = λ c. refl }

  fail-SameSeg : (e : Error) → Changes SameSeg (fail {A = Unit {0}} e)
  fail-SameSeg e = record { at = λ c. refl }

  os_call-SameSeg : Changes SameSeg (os_call env params)
  os_call-SameSeg =
      Changes-catch SameSeg ss_refl ss_trans (ask env params env.fails)
        (λ bad. guard (not bad) failed) fail (ask-SameSeg env.fails)
        (λ bad. Changes-guard SameSeg ss_refl ss_trans (not bad) failed) fail-SameSeg

  abbrev buffering : Bool → Bool → M env params Unit
  buffering buffered fits =
      if buffered then (do os_call env params; guard fits invalid) else pure tt

  buffering-SameSeg : (buffered fits : Bool) → Changes SameSeg (buffering buffered fits)
  buffering-SameSeg buffered fits =
      Changes-if SameSeg ss_refl ss_trans buffered (do os_call env params; guard fits invalid)
        (pure tt)
        (Changes-catch SameSeg ss_refl ss_trans (os_call env params) (λ _. guard fits invalid) fail
          os_call-SameSeg (λ _. Changes-guard SameSeg ss_refl ss_trans fits invalid) fail-SameSeg)
        (Changes-pure SameSeg ss_refl ss_trans tt)

  -- What the store has for the item, where there is one.
  abbrev Holds : List ℕ → Result (Item × Option Error) → Cell World Item → Type 0
  Holds bytes (ok (item, e)) d = content item ≡ bytes
  Holds bytes (err e) d = Unit {0}

  seq :
      {A : Type 0} (bytes : List ℕ) (m : M env params A)
      (f : A → M env params (Item × Option Error)) (c : Cell World Item)
      → Changes SameSeg m
      → ((a : A) (d : Cell World Item) → d.seg ≡ c.seg → Post (Holds bytes) (f a d))
      → Post (Holds bytes) ((m >>= f) c)
  seq {A = A} bytes m f c hm hf =
      Post-catch (Holds bytes) f fail m c
        (Post-mono (λ r d. SameSeg c d) (After (Holds bytes) f fail) go (m c) (hm.at c))
    where
      go : (r : Result A) (d : Cell World Item) → SameSeg c d → After (Holds bytes) f fail r d
      go (ok a) d same = hf a d same
      go (err e) d same = tt

  -- After Put, the item is kept whatever happens to its eTag.
  tagged :
      (bytes : List ℕ) (item : Item) (d : Cell World Item)
      → content item ≡ bytes
      → Post (Holds bytes) (
          (if params.persist_cache
              then catch
                  (persist_etag env params item)
                  (λ _. pure (item, none))
                  (λ e. pure (item, some e))
              else pure (item, none))
            d)
  tagged bytes item d h =
      Post-if (Holds bytes) params.persist_cache _ _ d
        (λ p. Post-catch (Holds bytes) _ _ (persist_etag env params item) d (
          Post-mono (λ r d'. SameButTag env params d d') _ after _
            ((persist_etag-same env params item).at d)))
        (λ p. h)
    where
      after :
          (r : Result (Unit {0})) (d' : Cell World Item)
          → SameButTag env params d d'
          → After (Holds bytes) (λ _. pure (item, none)) (λ e. pure (item, some e)) r d'
      after (ok x) d' s = h
      after (err e) d' s = h

  put_stored :
      (bytes kept : List ℕ) (id : ℕ) (seg : Segment Item) (w : World)
      → length bytes ≡ params.segment_bytes
      → bytes ≡ kept
      → (p : Result Item × World) → env.put id bytes params.segment_bytes w ≡ p
      → Post (Holds kept) (
          on_result p.0
            (λ item.
              if params.persist_cache
              then catch
                  (persist_etag env params item)
                  (λ _. pure (item, none))
                  (λ e. pure (item, some e))
              else pure (item, none))
            fail
            (record { world = p.1; seg = seg }))
  put_stored bytes kept id seg w full same (ok item, w') e =
      tagged kept item _ (store.put_keeps id bytes params.segment_bytes w w' item e full ∙ same)
  put_stored bytes kept id seg w full same (err x, w') e = tt

  sync_file-Holds :
      (buffered : Bool) (c : Cell World Item)
      → length (bytes_or_nil c.seg.disk) ≡ params.segment_bytes
      → Post (Holds (bytes_or_nil c.seg.disk)) (sync_file env params buffered c)
  unfolding sync_file
  sync_file-Holds buffered c full = seq _ (os_call env params) _ c os_call-SameSeg (λ x d same.
      seq _ (buffering buffered (length (bytes_or_nil d.seg.disk) == params.segment_bytes)) _ d
        (buffering-SameSeg buffered _)
        (λ x' d' same'.
          put_stored (bytes_or_nil d.seg.disk) (bytes_or_nil c.seg.disk) d'.seg.id d'.seg d'.world
            (ap length (kept d same) ∙ full) (kept d same) _ refl))
    where
      kept :
          (d : Cell World Item) → d.seg ≡ c.seg → bytes_or_nil d.seg.disk ≡ bytes_or_nil c.seg.disk
      kept d same = ap (λ (t : Segment Item). bytes_or_nil t.disk) same

  -- How a flush ends that reports no error: with an item that has the bytes of the local file.
  abbrev Uploaded : List ℕ → Result (Unit {0}) → Cell World Item → Type 0
  Uploaded bytes (ok x) d = (item : Item) × (d.seg.remote_item ≡ some item) × (content item ≡ bytes)
  Uploaded bytes (err e) d = Unit {0}

  flush_file-Uploaded :
      (buffered : Bool) (c : Cell World Item)
      → length (bytes_or_nil c.seg.disk) ≡ params.segment_bytes
      → Post (Uploaded (bytes_or_nil c.seg.disk)) (flush_file env params buffered c)
  unfolding flush_file
  flush_file-Uploaded buffered c full = opening c.seg.opened
    where
      bytes : List ℕ
      bytes = bytes_or_nil c.seg.disk

      clean : Cell World Item
      clean = record c { seg = record c.seg { dirty = false } }

      ended :
          (r : Result (Item × Option Error)) (d : Cell World Item)
          → Holds bytes r d
          → After (Uploaded bytes) (take_item env params) (drop_item env params) r d
      ended (ok (item, none)) d h = (item, refl, h)
      ended (ok (item, some e)) d h = tt
      ended (err e) d h = tt

      uploading : M env params (Unit {0})
      uploading =
          change env params (λ s. record s { dirty = false })
          >> catch (sync_file env params buffered) (take_item env params) (drop_item env params)

      opening : (b : Bool) → Post (Uploaded bytes) ((guard b failed >>= λ _. uploading) c)
      opening true =
          Post-catch (Uploaded bytes) (take_item env params) (drop_item env params)
            (sync_file env params buffered) clean
            (Post-mono (Holds bytes)
              (After (Uploaded bytes) (take_item env params) (drop_item env params)) ended _
              (sync_file-Holds buffered clean full))
      opening false = tt

  -- Where the store keeps its contract, a Flush of a dirty segment with a full local file that
  -- reports no error leaves the segment with an item whose object has just the bytes of that file.
  pub flush_uploads :
      (buffered : Bool) (c c' : Cell World Item)
      → c.seg.dirty ≡ true
      → length (bytes_or_nil c.seg.disk) ≡ params.segment_bytes
      → flush env params buffered c ≡ ret (ok tt, c')
      → (item : Item) × (c'.seg.remote_item ≡ some item) × (content item ≡ bytes_or_nil c.seg.disk)
  unfolding flush
  flush_uploads buffered c c' dirty full h =
      Post-ret (Uploaded (bytes_or_nil c.seg.disk)) (flush env params buffered c)
        (Post-if (Uploaded (bytes_or_nil c.seg.disk)) c.seg.dirty (flush_file env params buffered)
          (pure tt) c (λ d. flush_file-Uploaded buffered c full) (λ clean. absurd (cc)))
        h
