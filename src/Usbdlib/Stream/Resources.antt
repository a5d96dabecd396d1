-- ===== src/Usbdlib/Stream/Resources.antt =====
-- What is open after the setup of a stream and after its clean-up.
use usbd.Base.{
  failed, ret, ℤ, pos, negsuc, int64, div_ℤ, zero, suc, ◌≡◌, refl, ap, ◌∙◌, ◌≢◌, inl, inr, Bool,
  true, false, not, [], ◌∷◌, ◌++◌, arith, if◌then◌else◌, Bool-cases,
}
use usbd.Base.Result.{Result, ok, err, is_ok}
use usbd.Base.Exec.{Exec, pure, catch, ◌>>◌, ◌>>=◌}
use usbd.Usbdlib.Stream.{
  Descriptors, whole_blocks, negated, file_conn, Call, Calls, socketpair, open_device,
  set_block_size, set_size_blocks, clear_sock, set_sock, set_flags, close_device, close_kernel_sock,
  close_user_sock, ioctl, setup_sycalls,
}

-- The file descriptors that are open: the device, the two sockets and the copy of the user's one.
pub record Open : Type 0 where
  pub device : Bool
  pub user_sock : Bool
  pub kernel_sock : Bool
  pub conn : Bool

abbrev pub nothing : Open
nothing = record { device = false; user_sock = false; kernel_sock = false; conn = false }

-- A Close gives the descriptor back even if it fails.
abbrev pub effect : Call × Bool → Open → Open
effect (socketpair, done) o = record o { user_sock = done; kernel_sock = done }
effect (file_conn, done) o = record o { conn = done }
effect (open_device, done) o = record o { device = done }
effect (close_device, done) o = record o { device = false }
effect (close_kernel_sock, done) o = record o { kernel_sock = false }
effect (close_user_sock, done) o = record o { user_sock = false }
effect (_, done) o = o

abbrev pub after : Calls → Open → Open
after [] o = o
after (call ∷ calls) o = after calls (effect call o)

pub after-append : (xs ys : Calls) (o : Open) → after (xs ++ ys) o ≡ after ys (after xs o)
after-append [] ys o = refl
after-append (x ∷ xs) ys o = after-append xs ys (effect x o)

-- What holds of the value of a call that succeeds.
abbrev pub OnOk : {A : Type 0} → (A → Type 0) → Result A → Type 0
OnOk P (ok a) = P a
OnOk P (err e) = Unit

-- With the sockets as they are, the device file is open or not.
abbrev at : Bool → Bool → Open
at socks dev = record { device = dev; user_sock = socks; kernel_sock = socks; conn = false }

module _ (refuses : Call → Bool) (socks : Bool) where
  -- The step ends, the device file is open behind it if it has succeeded, and its value is so.
  abbrev Ends : {A : Type 0} → (A → Type 0) → Exec Calls A → Calls → Type 0
  Ends {A} P m made =
      (r : Result A) × (made' : Calls) × (m made ≡ ret (r, made'))
      × (after made' nothing ≡ at socks (is_ok r))
      × OnOk P r

  abbrev Keeps : {A : Type 0} → (A → Type 0) → Exec Calls A → Type 0
  Keeps P m = (made : Calls) → after made nothing ≡ at socks true → Ends P m made

  abbrev Any : {A : Type 0} → A → Type 0
  Any a = Unit

  then-Keeps :
      {A : Type 0} (P : A → Type 0) (m : Exec Calls Unit) (n : Exec Calls A)
      → Keeps Any m
      → Keeps P n
      → Keeps P (m >> n)
  then-Keeps {A} P m n km kn made h = let (r, made', e, a, _) = km made h in go r made' e a
    where
      go :
          (r : Result Unit) (made' : Calls)
          → m made ≡ ret (r, made')
          → after made' nothing ≡ at socks (is_ok r)
          → Ends P (m >> n) made
      go (ok u) made' e a =
          let (r2, made2, e2, a2, p) = kn made' a in (r2, made2, rw (e, catch) e2, a2, p)
      go (err why) made' e a = (err why, made', rw (e, catch) refl, a, tt)

  -- A call that opens and closes nothing.
  abbrev Neutral : Call → Type 0
  Neutral call = (done : Bool) (o : Open) → effect (call, done) o ≡ o

  ioctl-Keeps : (call : Call) → Neutral call → Keeps Any (ioctl refuses call)
  unfolding ioctl
  ioctl-Keeps call neutral made h = elim (Bool-cases (refuses call)) [
    | inl refused ↦ (
      err failed,
      (made ++ ((call, false) ∷ [])) ++ ((close_device, not (refuses close_device)) ∷ []),
      ground (arith, refused),
      after-append (made ++ ((call, false) ∷ [])) ((close_device, not (refuses close_device)) ∷ [])
            nothing
          ∙ ap (λ (o : Open). record o { device = false })
              (after-append made ((call, false) ∷ []) nothing
                ∙ neutral false (after made nothing)
                ∙ h),
      tt,
    )
    | inr taken ↦ (
      ok tt,
      made ++ ((call, true) ∷ []),
      ground (arith, taken),
      after-append made ((call, true) ∷ []) nothing ∙ neutral true (after made nothing) ∙ h,
      tt,
    )
  ]

  flags-Keeps :
      (trim_supported : Bool)
      → Keeps Any (if trim_supported then ioctl refuses set_flags else pure tt)
  flags-Keeps true = ioctl-Keeps set_flags (λ done o. refl)
  flags-Keeps false = λ made h. (ok tt, made, refl, h, tt)

module _ (refuses : Call → Bool) (files : Descriptors) where
  abbrev Given : Descriptors → Type 0
  Given d = d ≡ files

  abbrev behind_size : Bool → ℤ → Exec Calls Descriptors
  behind_size trim_supported blocks =
      ioctl refuses (set_size_blocks blocks)
      >> (ioctl refuses clear_sock
          >> (ioctl refuses set_sock
              >> ((if trim_supported then ioctl refuses set_flags else pure tt) >> pure files)))

  ioctls-Keeps :
      (socks trim_supported : Bool) (block_size size : ℤ)
      → block_size ≢ pos 0
      → Keeps refuses socks Given (
          ioctl refuses (set_block_size block_size)
          >> (whole_blocks refuses size block_size >>= behind_size trim_supported))
  ioctls-Keeps socks trim_supported block_size size some_bytes =
      then-Keeps refuses socks Given _ _
        (ioctl-Keeps refuses socks (set_block_size block_size) (λ done o. refl))
        (counted block_size some_bytes)
    where
      rest : (blocks : ℤ) → Keeps refuses socks Given (behind_size trim_supported blocks)
      rest blocks =
          then-Keeps refuses socks Given _ _
            (ioctl-Keeps refuses socks (set_size_blocks blocks) (λ done o. refl))
            (then-Keeps refuses socks Given _ _
              (ioctl-Keeps refuses socks clear_sock (λ done o. refl))
              (then-Keeps refuses socks Given _ _
                (ioctl-Keeps refuses socks set_sock (λ done o. refl))
                (then-Keeps refuses socks Given _ _ (flags-Keeps refuses socks trim_supported)
                  (λ made h. (ok files, made, refl, h, refl)))))

      counted :
          (block_size : ℤ)
          → block_size ≢ pos 0
          → Keeps refuses socks Given
              (whole_blocks refuses size block_size >>= behind_size trim_supported)
      counted (pos zero) ne = absurd (ne refl)
      counted (pos (suc n)) ne = λ made h. rest (div_ℤ size (suc n)) made h
      counted (negsuc n) ne = λ made h. rest (int64 (negated (div_ℤ size (suc n)))) made h

  -- Whatever calls fail, the setup of a stream on a device whose block size is not 0 ends. Where it
  -- succeeds it gives all its descriptors to the caller, who is given none where it fails. It leaves
  -- the device file open just if it has succeeded, but the two sockets, once they are made, also when
  -- it fails.
  pub setup_sycalls_leaves :
      (trim_supported : Bool) (block_size size : ℤ)
      → block_size ≢ pos 0
      → (r : Result Descriptors) × (made : Calls) × (setup_sycalls refuses files trim_supported
            block_size size []
          ≡ ret (r, made))
        × (after made nothing ≡ record {
          device = is_ok r;
          user_sock = not (refuses socketpair);
          kernel_sock = not (refuses socketpair);
          conn = false;
        })
        × OnOk Given r
  unfolding setup_sycalls
  setup_sycalls_leaves trim_supported block_size size some_bytes =
      elim (Bool-cases (refuses socketpair)) [
        | inl s ↦ (err failed, (socketpair, false) ∷ [], rw s refl, rw s refl, tt)
        | inr s ↦ elim (Bool-cases (refuses open_device)) [
          | inl d ↦ (
            err failed,
            (socketpair, true) ∷ (open_device, false) ∷ [],
            rw s (rw d refl),
            rw s refl,
            tt,
          )
          | inr d ↦
              let (r, made, e, o, given) =
                ioctls-Keeps true trim_supported block_size size some_bytes
                  ((socketpair, true) ∷ (open_device, true) ∷ []) refl in
              (r, made, rw s (rw d e), rw s o, given)
        ]
      ]
