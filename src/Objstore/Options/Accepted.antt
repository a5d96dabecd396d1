-- ===== src/Objstore/Options/Accepted.antt =====
-- What holds of a configuration that is accepted.
use usbd.Base.{
  Go, ret, panic, pos_part, ℕ, ◌*◌, ◌/◌, ◌≤◌, ◌<◌, ◌≡◌, refl, sym, ◌∙◌, inl, inr, Bool, true, false,
  none, some, List, [], ◌∷◌, arith, ltb, Bool-cases, if_case,
}
use mathlib.Core.Path.{subst}
use native.Mathlib.Nat.{le-div_iff_mul-le, div-mul-le_self}
use usbd.Base.Result.{Result, ok, err}
use usbd.Objstore.Modes.{is_identity, is_plain}
use usbd.Objstore.Options.{
  Settings, Config, apply, apply_all, check_modes, set_quota, set_flush, apply_opts, configure,
  blank,
}

-- The modes fit the store and the key, and a quota leaves room for a segment but not for all.
pub record IsAccepted (valid_key : List ℕ → Bool) (c : Config) : Type 0 where
  pub no_metadata_is_plain :
      c.no_metadata ≡ true → (is_identity c.compress_mode ≡ true) × (is_plain c.encrypt_mode ≡ true)
  pub encryption_has_key :
      is_plain c.encrypt_mode ≡ false → (c.no_metadata ≡ false) × (valid_key c.encrypt_key ≡ true)
  pub flushes : 0 < c.concur_flush
  pub quota_holds_one :
      (n : ℕ) → c.quota_segments ≡ some n → (0 < n) × (n * c.segment_bytes < c.total_bytes)

check_modes-ok :
    (valid_key : List ℕ → Bool) (c : Config) (u : Unit {0})
    → check_modes valid_key c ≡ ok u
    → (c.no_metadata ≡ true
        → (is_identity c.compress_mode ≡ true) × (is_plain c.encrypt_mode ≡ true))
      × (is_plain c.encrypt_mode ≡ false
          → (c.no_metadata ≡ false) × (valid_key c.encrypt_key ≡ true))
unfolding check_modes
check_modes-ok valid_key c u h = (λ e. ground arith, λ e. ground arith)

quota_div : (q s : ℕ) → 0 < s → s ≤ q → (0 < q / s) × (q / s * s ≤ q)
quota_div q s h k = ((le-div_iff_mul-le h).1 (omega (arith, k)), div-mul-le_self q s)

set_quota-ok :
    (c d : Config)
    → c.quota_segments ≡ none
    → set_quota c ≡ ret (ok d)
    → (n : ℕ) → d.quota_segments ≡ some n
    → (0 < n) × (n * d.segment_bytes < d.total_bytes)
unfolding set_quota
set_quota-ok c d fresh h n e = ground (arith, quota_div (pos_part c.quota) c.segment_bytes)

apply-fresh : (opt : Settings) (c : Config) → (apply opt c).quota_segments ≡ c.quota_segments
unfolding apply
apply-fresh opt c = ground arith

apply_all-fresh :
    (opts : List Settings) (c : Config) → (apply_all opts c).quota_segments ≡ c.quota_segments
unfolding apply_all
apply_all-fresh [] c = refl
apply_all-fresh (opt ∷ opts) c = apply_all-fresh opts (apply opt c) ∙ apply-fresh opt c

set_quota-same :
    (c d : Config) → set_quota c ≡ ret (ok d) → d ≡ record c { quota_segments = d.quota_segments }
unfolding set_quota
set_quota-same c d h = ground arith

set_flush-IsAccepted :
    (valid_key : List ℕ → Bool) (c d : Config) (u : Unit {0})
    → c.quota_segments ≡ none
    → check_modes valid_key c ≡ ok u
    → set_quota c ≡ ret (ok d)
    → IsAccepted valid_key (set_flush d)
unfolding set_flush
set_flush-IsAccepted valid_key c d u fresh modes h =
    if_case (IsAccepted valid_key) (ltb d.concur_flush 1) (record d { concur_flush = 1 }) d
      (λ few. record {
        no_metadata_is_plain = meta;
        encryption_has_key = key;
        flushes = omega arith;
        quota_holds_one = room;
      })
      (λ enough. record {
        no_metadata_is_plain = meta;
        encryption_has_key = key;
        flushes = ground arith;
        quota_holds_one = room;
      })
  where
    meta :
        d.no_metadata ≡ true
        → (is_identity d.compress_mode ≡ true) × (is_plain d.encrypt_mode ≡ true)
    meta =
        subst
          (λ (x : Config).
            x.no_metadata ≡ true
            → (is_identity x.compress_mode ≡ true) × (is_plain x.encrypt_mode ≡ true))
          (sym (set_quota-same c d h)) (check_modes-ok valid_key c u modes).0

    key :
        is_plain d.encrypt_mode ≡ false → (d.no_metadata ≡ false) × (valid_key d.encrypt_key ≡ true)
    key =
        subst
          (λ (x : Config).
            is_plain x.encrypt_mode ≡ false
            → (x.no_metadata ≡ false) × (valid_key x.encrypt_key ≡ true))
          (sym (set_quota-same c d h)) (check_modes-ok valid_key c u modes).1

    room : (n : ℕ) → d.quota_segments ≡ some n → (0 < n) × (n * d.segment_bytes < d.total_bytes)
    room = set_quota-ok c d fresh h

apply_opts-IsAccepted :
    (valid_key : List ℕ → Bool) (opts : List Settings) (c d : Config)
    → c.quota_segments ≡ none
    → apply_opts valid_key opts c ≡ ret (ok d)
    → IsAccepted valid_key d
unfolding apply_opts
apply_opts-IsAccepted valid_key opts c d fresh h =
    go (check_modes valid_key full) (set_quota full) refl refl h
  where
    full : Config
    full = apply_all opts c

    go :
        (r : Result (Unit {0})) (q : Go (Result Config))
        → check_modes valid_key full ≡ r
        → set_quota full ≡ q
        → (elim r as (λ _. Go (Result Config)) [
          | err e ↦ ret (err e)
          | ok done ↦ elim q as (λ _. Go (Result Config)) [
            | panic ↦ panic
            | ret (err e) ↦ ret (err e)
            | ret (ok limited) ↦ ret (ok (set_flush limited))
          ]
        ])
          ≡ ret (ok d)
        → IsAccepted valid_key d
    go (err e) q er eq h = absurd (cc)
    go (ok u) panic er eq h = absurd (cc)
    go (ok u) (ret (err e)) er eq h = absurd (cc)
    go (ok u) (ret (ok limited)) er eq h =
        subst (IsAccepted valid_key) (cc)
          (set_flush-IsAccepted valid_key full limited u (apply_all-fresh opts c ∙ fresh) er eq)

-- A configuration that NewDevice accepts has modes that its store and key can serve, flushes at least
-- one segment at a time, and, where it has a quota on local segments, room for at least one of them
-- and not for the whole device.
pub configure-IsAccepted :
    (valid_key : List ℕ → Bool) (total_bytes object_bytes : ℕ) (opts : List Settings) (c : Config)
    → configure valid_key total_bytes object_bytes opts ≡ ret (ok c)
    → IsAccepted valid_key c
unfolding configure
configure-IsAccepted valid_key total_bytes object_bytes opts c h =
    elim (Bool-cases (ltb total_bytes object_bytes)) [
      | inl e ↦ absurd (ground arith)
      | inr e ↦
          apply_opts-IsAccepted valid_key opts (blank total_bytes object_bytes) c refl
            (ground arith)
    ]
