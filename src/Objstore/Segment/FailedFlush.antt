-- ===== src/Objstore/Segment/FailedFlush.antt =====
-- What a Flush changes in a segment, and what one that fails leaves behind.
use usbd.Base.{
  Error, failed, ret, ℕ, ◌≡◌, refl, ap, ◌∙◌, Bool, true, false, Option, none, some, List,
  if◌then◌else◌,
}
use usbd.Base.Result.{Result, ok, err}
use usbd.Base.Exec.Post.{
  Post-if, Post, Post-mono, Post-catch, Post-ret, After, Changes, Changes-pure, Changes-fail,
  Changes-gets, Changes-guard, Changes-if, Changes-catch, Post, Post-mono,
}
use usbd.Base.Exec.{run-if_false, pure, fail, gets, catch, guard}
use usbd.Objstore.Env.{Env, Params, Segment, Cell}
use usbd.Objstore.Segment.{flush_file, flush, take_item, drop_item}
use usbd.Objstore.StoreParams.{M, ask, ask_result, change, persist_etag, sync_file}

module _ {World Item : Type 0} (env : Env World Item) (params : Params) where
  -- A step that leaves all of the segment but its eTag file as it is.
  abbrev pub SameButTag : Cell World Item → Cell World Item → Type 0
  SameButTag c d = d.seg ≡ record c.seg { tag = d.seg.tag }

  same_refl : (c : Cell World Item) → SameButTag c c
  same_refl c = refl

  same_trans : (c d e : Cell World Item) → SameButTag c d → SameButTag d e → SameButTag c e
  same_trans c d e p q = q ∙ ap (λ (s : Segment Item). record s { tag = e.seg.tag }) p

  abbrev pub Keeps : {A : Type 0} → M env params A → Type 0
  Keeps m = Changes SameButTag m

  Keeps-pure : {A : Type 0} (a : A) → Keeps (pure a)
  Keeps-pure = Changes-pure SameButTag same_refl same_trans

  Keeps-gets : {A : Type 0} (f : Cell World Item → A) → Keeps (gets f)
  Keeps-gets = Changes-gets SameButTag same_refl same_trans

  Keeps-guard : (b : Bool) (e : Error) → Keeps (guard b e)
  Keeps-guard = Changes-guard SameButTag same_refl same_trans

  Keeps-fail : (A : Type 0) (e : Error) → Keeps (fail {A = A} e)
  Keeps-fail = Changes-fail SameButTag same_refl same_trans

  Keeps-ask : {A : Type 0} (f : World → A × World) → Keeps (ask env params f)
  Keeps-ask f = record { at = λ c. refl }

  Keeps-ask_result : {A : Type 0} (f : World → Result A × World) → Keeps (ask_result env params f)
  Keeps-ask_result f = record { at = λ c. refl }

  Keeps-tag : (t : Option (List ℕ)) → Keeps (change env params (λ s. record s { tag = t }))
  Keeps-tag t = record { at = λ c. refl }

  Keeps-if :
      {A : Type 0} (b : Bool) (m n : M env params A)
      → Keeps m
      → Keeps n
      → Keeps (if b then m else n)
  Keeps-if = Changes-if SameButTag same_refl same_trans

  Keeps-catch :
      {A B : Type 0} (m : M env params A) (f : A → M env params B) (g : Error → M env params B)
      → Keeps m
      → ((a : A) → Keeps (f a))
      → ((e : Error) → Keeps (g e))
      → Keeps (catch m f g)
  Keeps-catch = Changes-catch SameButTag same_refl same_trans

  ruleset keeps_rules = (
    Keeps-pure, Keeps-gets, Keeps-guard, Keeps-fail, Keeps-ask, Keeps-ask_result, Keeps-tag,
    Keeps-if, Keeps-catch,
  )

  pub persist_etag-same : (item : Item) → Keeps (persist_etag env params item)
  unfolding persist_etag
  persist_etag-same item = search keeps_rules depth 9

  sync_file-same : (buffered : Bool) → Keeps (sync_file env params buffered)
  unfolding sync_file
  sync_file-same buffered = search (keeps_rules, persist_etag-same) depth 15

  -- How a flush ends: clean, and the segment's number, file and `opened` as they were.
  abbrev Flushed : Segment Item → {A : Type 0} → Result A → Cell World Item → Type 0
  Flushed s r d = (d.seg.dirty ≡ false) × (d.seg.opened ≡ s.opened) × (d.seg.disk ≡ s.disk)

  uploaded :
      (buffered : Bool) (s : Segment Item) (d : Cell World Item)
      → s.dirty ≡ false
      → d.seg ≡ s
      → Post (Flushed s) (sync_file env params buffered d)
  uploaded buffered s d clean e =
      Post-mono (λ r d'. SameButTag d d') (Flushed s)
        (λ r d' same. (
          ap (λ (t : Segment Item). t.dirty) same ∙ ap (λ (t : Segment Item). t.dirty) e ∙ clean,
          ap (λ (t : Segment Item). t.opened) same ∙ ap (λ (t : Segment Item). t.opened) e,
          ap (λ (t : Segment Item). t.disk) same ∙ ap (λ (t : Segment Item). t.disk) e,
        ))
        (sync_file env params buffered d) ((sync_file-same buffered).at d)

  guarded :
      {A : Type 0} (P : Result A → Cell World Item → Type 0) (b : Bool) (e : Error)
      (f : Unit {0} → M env params A) (c : Cell World Item)
      → b ≡ true
      → Post P (f tt c)
      → Post P (catch (guard b e) f fail c)
  guarded P true e f c h post = post
  guarded P false e f c h post = absurd (cc)

  flush_file-Flushed :
      (buffered : Bool) (c : Cell World Item)
      → c.seg.opened ≡ true
      → Post (Flushed c.seg) (flush_file env params buffered c)
  unfolding flush_file
  flush_file-Flushed buffered c opened = guarded (Flushed c.seg) c.seg.opened failed _ c opened (
      Post-catch (Flushed c.seg) _ _ (sync_file env params buffered) _ (
        Post-mono (Flushed (record c.seg { dirty = false }))
          (After (Flushed c.seg) (take_item env params) (drop_item env params)) ended _
          (uploaded buffered (record c.seg { dirty = false })
            (record c { seg = record c.seg { dirty = false } }) refl refl)))
    where
      ended :
          (r : Result (Item × Option Error)) (d : Cell World Item)
          → Flushed (record c.seg { dirty = false }) r d
          → After (Flushed c.seg) (take_item env params) (drop_item env params) r d
      ended (ok (item, none)) d h = h
      ended (ok (item, some e)) d h = h
      ended (err e) d h = h

  pub flush-clean :
      (buffered : Bool) (c : Cell World Item)
      → c.seg.dirty ≡ false
      → flush env params buffered c ≡ ret (ok tt, c)
  unfolding flush
  flush-clean buffered c clean =
      run-if_false c.seg.dirty (flush_file env params buffered) (pure tt) c clean

  flush-Flushed :
      (buffered : Bool) (c : Cell World Item)
      → c.seg.opened ≡ true
      → Post (Flushed c.seg) (flush env params buffered c)
  unfolding flush
  flush-Flushed buffered c opened =
      Post-if (Flushed c.seg) c.seg.dirty (flush_file env params buffered) (pure tt) c
        (λ d. flush_file-Flushed buffered c opened) (λ d. (d, refl, refl))

  -- Flush of a segment that has its file open, however it ends (but by a panic), leaves the segment
  -- clean with the same local file; the next Flush then reports success and calls nothing, also where
  -- this one has ended with an error.
  pub failed_flush_forgets :
      (buffered again : Bool) (c c' : Cell World Item) (r : Result (Unit {0}))
      → c.seg.opened ≡ true
      → flush env params buffered c ≡ ret (r, c')
      → (c'.seg.disk ≡ c.seg.disk) × (flush env params again c' ≡ ret (ok tt, c'))
  failed_flush_forgets buffered again c c' r opened h =
      let (clean, _, disk) =
        Post-ret (Flushed c.seg) (flush env params buffered c) (flush-Flushed buffered c opened)
          h in
      (disk, flush-clean again c' clean)
