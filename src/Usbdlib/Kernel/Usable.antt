-- ===== src/Usbdlib/Kernel/Usable.antt =====
-- Which device is taken for a stream.
use usbd.Base.{
  failed, pos, ltb_ℤ, ℕ, ◌/◌, ◌%◌, ◌^◌, ◌≡◌, refl, sym, ap, ◌∙◌, inl, inr, Bool, true, false, not,
  ◌&&◌, List, [], ◌∷◌, ◌++◌, arith, ltb, ◌==◌, Bool-cases,
}
use mathlib.Core.Path.{subst}
use usbd.Base.Result.{
  check-ok, Result, ok, err, check, ◌>>=◌, ◌>>◌, >>=-eq-ok, Result-cases, ok_inj,
}
use usbd.Util.Numerals.{codes}
use usbd.Usbdlib.Kernel.{
  Info, Kernel, has_prefix, nbd_loaded, nbd_major, nbd_major_for_device, validate_dev_path,
  dev_path, valid, first_free, nbd_free_dev, load_nbd, loaded_or, make_nbd_dev,
}

-- A device file that nobody uses: special, empty, and with the major number of the module.
pub record IsFree (k : Kernel) (path : List ℕ) : Type 0 where
  pub info : Info
  pub there : k.stat path ≡ ok info
  pub special : (info.is_dir ≡ false) × (info.is_regular ≡ false)
  pub is_empty : ltb_ℤ (pos 0) info.size ≡ false
  pub nbd : nbd_major k ≡ ok info.major

false_of_not : (b : Bool) → not b ≡ true → b ≡ false
false_of_not true h = absurd (cc)
false_of_not false h = refl

both_of_and : (a b : Bool) → (a && b) ≡ true → (a ≡ true) × (b ≡ true)
both_of_and true b h = (refl, h)
both_of_and false b h = absurd (cc)

-- The checks behind the first Stat.
abbrev rest_of : Kernel → List ℕ → Info → Result (Unit {0})
rest_of k path info = do
  check (not info.is_dir) failed
  check (not info.is_regular) failed
  check (not (ltb_ℤ (pos 0) info.size)) failed
  dev_major ← nbd_major k
  actual ← nbd_major_for_device k path
  check (actual == dev_major) failed

major_of :
    (k : Kernel) (path : List ℕ) (info : Info) (n : ℕ)
    → k.stat path ≡ ok info
    → nbd_major_for_device k path ≡ ok n
    → n ≡ info.major
unfolding nbd_major_for_device
major_of k path info n there h =
    let h' : (check (info.mode / 2 ^ 26 % 2 == 0) failed >> ok info.major) ≡ ok n =
      rw (there) at h in
    sym (ok_inj (check-ok (info.mode / 2 ^ 26 % 2 == 0) failed (ok info.major) n h').1)

check-eq : (a b : ℕ) (u : Unit {0}) → check (a == b) failed ≡ ok u → a ≡ b
check-eq a b u h = ground arith

pub validate_dev_path-IsFree :
    (k : Kernel) (path : List ℕ) (u : Unit {0}) → validate_dev_path k path ≡ ok u → IsFree k path
unfolding validate_dev_path
validate_dev_path-IsFree k path u h =
    let (info, there, h1) = >>=-eq-ok (rest_of k path) (k.stat path) h in
    let (no_dir, h2) = check-ok (not info.is_dir) failed _ u h1 in
    let (special, h3) = check-ok (not info.is_regular) failed _ u h2 in
    let (blank, h4) = check-ok (not (ltb_ℤ (pos 0) info.size)) failed _ u h3 in
    let (dev_major, major, h5) = >>=-eq-ok _ (nbd_major k) h4 in
    let (actual, own, h6) = >>=-eq-ok _ (nbd_major_for_device k path) h5 in
    record {
      info = info;
      there = there;
      special = (false_of_not info.is_dir no_dir, false_of_not info.is_regular special);
      is_empty = false_of_not (ltb_ℤ (pos 0) info.size) blank;
      nbd =
          major
          ∙ ap ok (sym (check-eq actual dev_major u h6) ∙ major_of k path info actual there own);
    }

first_free-ok :
    (k : Kernel) (names : List (List ℕ)) (path : List ℕ)
    → first_free k names ≡ ok path
    → (before : List (List ℕ)) × (name : List ℕ) × (behind : List (List ℕ)) × (names
        ≡ before ++ (name ∷ behind))
      × (path ≡ dev_path name)
      × (has_prefix (codes "nbd") name ≡ true)
      × (valid k path ≡ true)
      × (first_free k before ≡ err failed)
unfolding first_free
first_free-ok k [] path h = absurd (cc)
first_free-ok k (name ∷ names) path h =
    elim (Bool-cases (has_prefix (codes "nbd") name && valid k (dev_path name))) [
      | inl taken ↦
          let same : dev_path name ≡ path = ok_inj (rw taken at h) in
          let (prefixed, good) =
            both_of_and (has_prefix (codes "nbd") name) (valid k (dev_path name)) taken in
          ([], name, names, refl, sym same, prefixed, rw same at good, refl)
      | inr skipped ↦
          let (before, other, behind, split, same, prefixed, good, none_before) =
            first_free-ok k names path (rw skipped at h) in
          (
            name ∷ before,
            other,
            behind,
            ap (λ t. name ∷ t) split,
            same,
            prefixed,
            good,
            rw skipped none_before,
          )
    ]

valid-IsFree : (k : Kernel) (path : List ℕ) → valid k path ≡ true → IsFree k path
valid-IsFree k path h = go (validate_dev_path k path) refl h
  where
    go :
        (r : Result (Unit {0}))
        → validate_dev_path k path ≡ r
        → (elim r [ ok _ ↦ true | err _ ↦ false ]) ≡ true
        → IsFree k path
    go (ok u) e t = validate_dev_path-IsFree k path u e
    go (err why) e t = absurd (cc)

pub then-ok :
    {A : Type 0} (r : Result (Unit {0})) (rest : Result A) (a : A)
    → (r >> rest) ≡ ok a
    → (r ≡ ok tt) × (rest ≡ ok a)
then-ok (ok tt) rest a h = (refl, h)
then-ok (err e) rest a h = absurd (cc)

load_nbd-ok :
    (load : ℕ → Kernel → Result Kernel) (n : ℕ) (k k' : Kernel)
    → load_nbd load n k ≡ ok k'
    → nbd_loaded k' ≡ ok tt
unfolding load_nbd
load_nbd-ok load n k k' h =
    let (some_devices, h1) = then-ok (check (ltb 0 n) failed) _ k' h in
    let (k1, loads, h2) = >>=-eq-ok (λ k1. nbd_loaded k1 >> ok k1) (load n k) h1 in
    let (live, same) = then-ok (nbd_loaded k1) (ok k1) k' h2 in
    ap nbd_loaded (sym (ok_inj same)) ∙ live

loaded_or-ok :
    (k k' : Kernel) (other : Result Kernel)
    → (other ≡ ok k' → nbd_loaded k' ≡ ok tt)
    → loaded_or (nbd_loaded k) k other ≡ ok k'
    → nbd_loaded k' ≡ ok tt
loaded_or-ok k k' other loads h = elim (Result-cases (nbd_loaded k)) [
  | inl (u, live) ↦
      let same : ◌≡◌ {A = Result Kernel} (ok k) (ok k') = rw live at h in
      ap nbd_loaded (sym (ok_inj same)) ∙ live
  | inr (e, not_live) ↦ loads (rw not_live at h)
]

-- The device at the path is the first free one in /sys/block.
abbrev pub IsFirst : Kernel → List ℕ → Type 0
IsFirst k path =
    IsFree k path
    × ((before : List (List ℕ)) × (name : List ℕ) × (behind : List (List ℕ)) × (k.block_dirs
          ≡ ok (before ++ (name ∷ behind)))
        × (path ≡ dev_path name)
        × (has_prefix (codes "nbd") name ≡ true)
        × (first_free k before ≡ err failed))

nbd_free_dev-IsFirst : (k : Kernel) (path : List ℕ) → nbd_free_dev k ≡ ok path → IsFirst k path
unfolding nbd_free_dev
nbd_free_dev-IsFirst k path h =
    let (names, dirs, h1) = >>=-eq-ok (first_free k) k.block_dirs h in
    let (before, name, behind, split, at, prefixed, good, none_before) =
      first_free-ok k names path h1 in
    (
      valid-IsFree k path good,
      (before, name, behind, dirs ∙ ap ok split, at, prefixed, none_before),
    )

-- When a device is chosen without names to try, IsNbdLoaded reports success by then, and the
-- device is the first of the names in /sys/block that begin with nbd and pass the checks: no name before it
-- does, and its file is special, empty and of the module's major number.
pub make_nbd_dev-IsFree :
    (load : ℕ → Kernel → Result Kernel) (max_nbd_devices : ℕ) (k k' : Kernel) (path : List ℕ)
    → make_nbd_dev load max_nbd_devices k ≡ ok (path, k')
    → (nbd_loaded k' ≡ ok tt)
      × IsFree k' path
      × ((before : List (List ℕ)) × (name : List ℕ) × (behind : List (List ℕ)) × (k'.block_dirs
            ≡ ok (before ++ (name ∷ behind)))
          × (path ≡ dev_path name)
          × (has_prefix (codes "nbd") name ≡ true)
          × (first_free k' before ≡ err failed))
unfolding make_nbd_dev
make_nbd_dev-IsFree load max_nbd_devices k k' path h =
    let (k1, loaded, h1) =
      >>=-eq-ok (λ k1. nbd_free_dev k1 >>= λ path. ok (path, k1))
        (loaded_or (nbd_loaded k) k (load_nbd load max_nbd_devices k)) h in
    let (found, free, h2) = >>=-eq-ok (λ path. ok (path, k1)) (nbd_free_dev k1) h1 in
    let pair : ◌≡◌ {A = List ℕ × Kernel} (found, k1) (path, k') = ok_inj h2 in
    let same : k1 ≡ k' = ap (λ p. p.1) pair in
    let live =
      loaded_or-ok k k' (load_nbd load max_nbd_devices k) (load_nbd-ok load max_nbd_devices k k')
        (loaded ∙ ap ok same) in
    let first =
      subst (λ (p : List ℕ × Kernel). IsFirst p.1 p.0) pair (nbd_free_dev-IsFirst k1 found free) in
    (live, first.0, first.1)
