-- ===== src/Objstore/Device/Shutdown.antt =====
-- What the device answers past its end and after Close.
use usbd.Base.{
  Error, shutdown, Go, ret, panic, ℕ, suc, ◌≡◌, refl, Bool, true, Option, none, some, List, [], ◌∷◌,
  if◌then◌else◌, get_elem?, set,
}
use usbd.Base.Result.{Result, ok, err}
use usbd.Base.Exec.Post.{
  Post, Post-ret, Changes, Changes-pure, Changes-fail, Changes-gets, Changes-if, Changes-catch,
  Post-if, Post-mono,
}
use usbd.Objstore.Env.{Segment}
use usbd.Objstore.Segment.{flush, delete_file}
use usbd.Objstore.StoreParams.{M}
use usbd.Base.Exec.{run-if_true, pure, modify, fail, catch, ◌>>=◌, ◌>>◌, Exec, gets}
use usbd.Objstore.Env.{Env, Params}
use usbd.Objstore.Device.{
  Dev, on_segment, run_on, flush_each, flush_dirty, delete_each, io_at, flush_device, close,
}

module _ {World Item : Type 0} (env : Env World Item) (params : Params) where
  -- Once down, the device stays down.
  abbrev StaysDown : Dev World Item → Dev World Item → Type 0
  StaysDown d d' = d.down ≡ true → d'.down ≡ true

  sd_refl : (d : Dev World Item) → StaysDown d d
  sd_refl d h = h

  sd_trans : (d e f : Dev World Item) → StaysDown d e → StaysDown e f → StaysDown d f
  sd_trans d e f p q h = q (p h)

  abbrev Stays : {A : Type 0} → Exec (Dev World Item) A → Type 0
  Stays m = Changes StaysDown m

  Stays-pure : {A : Type 0} (a : A) → Stays (pure a)
  Stays-pure = Changes-pure StaysDown sd_refl sd_trans

  Stays-fail : (A : Type 0) (e : Error) → Stays (fail {A = A} e)
  Stays-fail = Changes-fail StaysDown sd_refl sd_trans

  Stays-gets : {A : Type 0} (f : Dev World Item → A) → Stays (gets f)
  Stays-gets = Changes-gets StaysDown sd_refl sd_trans

  Stays-if :
      {A : Type 0} (b : Bool) (m n : Exec (Dev World Item) A)
      → Stays m
      → Stays n
      → Stays (if b then m else n)
  Stays-if = Changes-if StaysDown sd_refl sd_trans

  Stays-catch :
      {A B : Type 0} (m : Exec (Dev World Item) A) (f : A → Exec (Dev World Item) B)
      (g : Error → Exec (Dev World Item) B)
      → Stays m
      → ((a : A) → Stays (f a))
      → ((e : Error) → Stays (g e))
      → Stays (catch m f g)
  Stays-catch = Changes-catch StaysDown sd_refl sd_trans

  Stays-down : Stays (modify (λ (d : Dev World Item). record d { down = true }))
  Stays-down = record { at = λ d h. refl }

  ruleset stays_rules = (Stays-pure, Stays-fail, Stays-gets, Stays-if, Stays-catch, Stays-down)

  on_segment-Stays : {A : Type 0} (i : ℕ) (m : M env params A) → Stays (on_segment env params i m)
  unfolding on_segment
  on_segment-Stays {A = A} i m = record { at = λ d. there d (get_elem? d.segments i) }
    where
      there :
          (d : Dev World Item) (o : Option (Segment Item))
          → Post (λ r d'. StaysDown d d') (run_on env params i m d o)
      there d none = tt
      there d (some seg) =
          elim (m (record { world = d.world; seg = seg }))
            as (λ x.
              Post (λ r d'. StaysDown d d')
                (elim x as (λ _. Go (Result A × Dev World Item)) [
                  | ret (r, c) ↦
                      ret (r, record d { world = c.world; segments = set d.segments i c.seg })
                  | panic ↦ panic
                ])) [ ret (r, c) ↦ λ h. h | panic ↦ tt ]

  flush_each-Stays :
      (has_buffer : ℕ → Bool) (i : ℕ) (segs : List (Segment Item))
      → Stays (flush_each env params has_buffer i segs)
  unfolding flush_each
  flush_each-Stays has_buffer i [] = Stays-pure tt
  flush_each-Stays has_buffer i (seg ∷ segs) =
      let rest = flush_each-Stays has_buffer (suc i) segs in
      Stays-if seg.dirty _ _
        (Stays-catch _ _ _ (on_segment-Stays i (flush env params (has_buffer i))) (λ _. rest)
          (λ e. Stays-catch _ _ _ rest (λ _. Stays-fail Unit e) (λ e'. Stays-fail Unit e')))
        rest

  delete_each-Stays : (i : ℕ) (segs : List (Segment Item)) → Stays (delete_each env params i segs)
  unfolding delete_each
  delete_each-Stays i [] = Stays-pure tt
  delete_each-Stays i (seg ∷ segs) =
      let rest = delete_each-Stays (suc i) segs in
      Stays-catch _ _ _ (on_segment-Stays i (delete_file env params)) (λ _. rest)
        (λ e. Stays-catch _ _ _ rest (λ _. Stays-fail Unit e) (λ e'. Stays-fail Unit e'))

  -- What Close does once it has cancelled the context.
  abbrev wind_down : (ℕ → Bool) → Exec (Dev World Item) Unit
  wind_down has_buffer = do
    flush_dirty env params has_buffer
    segs ← gets (λ d. d.segments)
    if params.persist_cache then pure tt else delete_each env params 0 segs

  wind_down-Stays : (has_buffer : ℕ → Bool) → Stays (wind_down has_buffer)
  unfolding flush_dirty
  wind_down-Stays has_buffer =
      Stays-catch _ _ _
        (Stays-catch _ _ _ (Stays-gets (λ d. d.segments))
          (λ segs. flush_each-Stays has_buffer 0 segs) (λ e. Stays-fail Unit e))
        (λ _.
          Stays-catch _ _ _ (Stays-gets (λ d. d.segments))
            (λ segs. Stays-if params.persist_cache _ _ (Stays-pure tt) (delete_each-Stays 0 segs))
            (λ e. Stays-fail Unit e))
        (λ e. Stays-fail Unit e)

  closing :
      (has_buffer : ℕ → Bool) (d : Dev World Item)
      → Post (λ r d'. d'.down ≡ true) (close env params has_buffer d)
  unfolding close flush_dirty
  closing has_buffer d =
      Post-if (λ r d'. d'.down ≡ true) d.down (pure tt) _ d (λ down. down)
        (λ up.
          Post-mono (λ r d'. StaysDown (record d { down = true }) d') (λ r d'. d'.down ≡ true)
            (λ r d' h. h refl) _ ((wind_down-Stays has_buffer).at (record d { down = true })))

  -- However Close ends (but by a panic), from then on reads, writes and Flush fail and change
  -- nothing, and another Close does nothing and reports no error.
  pub closed_refuses :
      (read_op : Bool) (has_buffer : ℕ → Bool) (buf : List ℕ) (position : ℕ) (d d' : Dev World Item)
      (r : Result Unit)
      → close env params has_buffer d ≡ ret (r, d')
      → (io_at env params read_op buf position d' ≡ ret (ok (buf, 0, some shutdown), d'))
        × (flush_device env params has_buffer d' ≡ ret (err shutdown, d'))
        × (close env params has_buffer d' ≡ ret (ok tt, d'))
  unfolding io_at flush_device close
  closed_refuses read_op has_buffer buf position d d' r h =
      let down =
        Post-ret (λ r d'. d'.down ≡ true) (close env params has_buffer d) (closing has_buffer d)
          h in
      (
        run-if_true d'.down _ _ d' down,
        run-if_true d'.down _ _ d' down,
        run-if_true d'.down _ _ d' down,
      )
