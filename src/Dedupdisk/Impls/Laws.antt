-- ===== src/Dedupdisk/Impls/Laws.antt =====
-- The stores of pkg/devices/dedupdisk/impls in order, and what their calls leave.
use mathlib.Core.Path.{subst}
use usbd.Base.{
  Go, ret, panic, ℕ, ◌*◌, ◌^◌, ◌<◌, ◌≡◌, refl, sym, ap, ap₂, ◌∙◌, inl, inr, Option, some, List,
  arith, length, get_elem?, take, replicate, take_of_le, le_bytes, le_value, length-le_bytes,
  le_value-le_bytes,
}
use usbd.Base.Result.{Result, ok}
use usbd.Base.Exec.{Exec}
use usbd.Base.Exec.Post.{Post-ret}
use usbd.Util.Zeros.Blank.{is_zeros-iff-IsBlank}
use usbd.Dedupdisk.Stores.{Lookup, found, absent, Keeps}
use usbd.Dedupdisk.FileStore.{FileStore}
use usbd.Dedupdisk.FileStore.Held.{HeldBy, HasRoom, id_small}
use usbd.Dedupdisk.IdStore as IdStore
use usbd.Dedupdisk.IdStore.{Db, IsDb, IdStore}
use usbd.Dedupdisk.IdStore.Answers.{SameValues, Answered, get_id-Looked}
use usbd.Dedupdisk.Impls.{Parts, on_ids}

pub ret_inj :
    {A B : Type 0} {a c : A} {b d : B}
    → ◌≡◌ {A = Go (A × B)} (ret (a, b)) (ret (c, d))
    → (a ≡ c) × (b ≡ d)
ret_inj e = (cc, cc)

-- `Used` is a set of blocks in which no two different ones have the same hash.
module _ {D : Type 0} (value : D → List ℕ → Option (List ℕ)) (sha1 : List ℕ → List ℕ)
    (Used : List ℕ → Type 0) (bs count : ℕ) (some_bytes : 0 < bs) where
  abbrev pub IsBlock : List ℕ → Type 0
  IsBlock buf = (length buf ≡ bs) × Used buf

  abbrev pub HoldsBytes : Parts D → ℕ → List ℕ → Type 0
  HoldsBytes s id bytes = HeldBy bs some_bytes s.blocks id bytes

  abbrev pub MapsTo : Parts D → ℕ → ℕ → Type 0
  MapsTo s b id = get_elem? s.lun.ids b ≡ some id

  abbrev pub HashOf : List ℕ → List ℕ → Type 0
  HashOf hash buf = hash ≡ sha1 buf

  -- An entry of the database is the ID of a block with that hash.
  abbrev pub Entry : FileStore → List ℕ → List ℕ → Type 0
  Entry fbs key raw =
      (id : ℕ) × (buf : List ℕ) × (raw ≡ le_bytes 8 id)
      × (key ≡ sha1 buf)
      × IsBlock buf
      × HeldBy bs some_bytes fbs id buf

  abbrev pub Known : D → FileStore → Type 0
  Known d fbs = (key raw : List ℕ) → value d key ≡ some raw → Entry fbs key raw

  -- The block file has room for `n` more blocks, and the parts fit together.
  pub record IsGood (n : ℕ) (s : Parts D) : Type 0 where
    pub room : HasRoom bs some_bytes n s.blocks
    pub known : Known s.ids.database s.blocks
    pub counted : length s.lun.ids ≡ count
    pub whole : s.lun.size ≡ count * bs

  abbrev pub KeepsAll : Parts D → Parts D → Type 0
  KeepsAll = Keeps MapsTo HoldsBytes

  -- Only the ID store has changed.
  pub ids-Good :
      (n : ℕ) (s s' : Parts D)
      → s' ≡ record s { ids = s'.ids }
      → Known s'.ids.database s.blocks
      → IsGood n s
      → IsGood n s' × KeepsAll s s'
  ids-Good n s s' shape known good = (
    subst (IsGood n) (sym shape)
        (record { room = good.room; known = known; counted = good.counted; whole = good.whole }),
    subst (KeepsAll s) (sym shape) (record { maps = λ b id m. m; holds = λ id bytes held. held }),
  )

  pub on_ids-eq :
      {A : Type 0} (m : Exec (IdStore D) A) (r : Result A) (s s' : Parts D)
      → on_ids m s ≡ ret (r, s')
      → (m s.ids ≡ ret (r, s'.ids)) × (s' ≡ record s { ids = s'.ids })
  on_ids-eq {A} m r s s' e = go (m s.ids) e
    where
      go :
          (x : Go (Result A × IdStore D))
          → (elim x as (λ _. Go (Result A × Parts D)) [
            | ret (r, ids) ↦ ret (r, record s { ids = ids })
            | panic ↦ panic
          ])
            ≡ ret (r, s')
          → (x ≡ ret (r, s'.ids)) × (s' ≡ record s { ids = s'.ids })
      go panic e = absurd (cc)
      go (ret (r0, i0)) e =
          let (p, q) = ret_inj e in
          (
            ap₂ (λ (a : Result A) (i : IdStore D). ret (a, i)) p (ap (λ (t : Parts D). t.ids) q),
            subst (λ (t : Parts D). t ≡ record s { ids = t.ids }) q refl,
          )

  module _ (db : Db D) (laws : IsDb db value) where
    looked :
        (buf : List ℕ) (r : Result Lookup) (s s' : Parts D)
        → on_ids (IdStore.get_id db sha1 buf) s ≡ ret (r, s')
        → SameValues db value laws sha1 s.ids s'.ids × Answered db value laws sha1 buf s.ids r
    looked buf r s s' e =
        Post-ret
          (λ r ps'.
            SameValues db value laws sha1 s.ids ps' × Answered db value laws sha1 buf s.ids r)
          (IdStore.get_id db sha1 buf s.ids) (get_id-Looked db value laws sha1 buf s.ids)
          (on_ids-eq (IdStore.get_id db sha1 buf) r s s' e).0

    pub lookup-Good :
        (n : ℕ) (buf : List ℕ) (r : Result Lookup) (s s' : Parts D)
        → IsGood n s
        → on_ids (IdStore.get_id db sha1 buf) s ≡ ret (r, s')
        → IsGood n s' × KeepsAll s s'
    lookup-Good n buf r s s' good e =
        let (same, _) = looked buf r s s' e in
        ids-Good n s s' (on_ids-eq (IdStore.get_id db sha1 buf) r s s' e).1
          (λ key raw h. good.known key raw (sym (same key) ∙ h)) good

    pub lookup-absent :
        (buf hash : List ℕ) (s s' : Parts D)
        → on_ids (IdStore.get_id db sha1 buf) s ≡ ret (ok (absent hash), s')
        → HashOf hash buf
    lookup-absent buf hash s s' e = (looked buf (ok (absent hash)) s s' e).1.0

    id_lt :
        (n id : ℕ) (bytes : List ℕ) (fbs : FileStore)
        → HasRoom bs some_bytes n fbs
        → HeldBy bs some_bytes fbs id bytes
        → id < 256 ^ 8
    id_lt n id bytes fbs room (inl (e, _)) = omega (arith, e)
    id_lt n id bytes fbs room (inr (earlier, _, _)) =
        omega (arith, earlier, id_small bs some_bytes fbs.next_id n room.room)

    id-Held :
        (n id : ℕ) (bytes : List ℕ) (fbs : FileStore)
        → HasRoom bs some_bytes n fbs
        → HeldBy bs some_bytes fbs id bytes
        → le_value (take 8 (le_bytes 8 id)) ≡ id
    id-Held n id bytes fbs room held =
        ap le_value (take_of_le 8 (le_bytes 8 id) (omega (arith, length-le_bytes 8 id)))
        ∙ le_value-le_bytes 8 id (id_lt n id bytes fbs room held)

    pub lookup-found :
        ((a b : List ℕ) → Used a → Used b → sha1 a ≡ sha1 b → a ≡ b)
        → (n : ℕ) (buf : List ℕ) (id : ℕ) (hash : List ℕ) (s s' : Parts D) → IsGood n s
        → IsBlock buf
        → on_ids (IdStore.get_id db sha1 buf) s ≡ ret (ok (found id hash), s')
        → HoldsBytes s' id buf
    lookup-found no_collision n buf id hash s s' good (whole, used) e =
        let (good', keeps) = lookup-Good n buf (ok (found id hash)) s s' good e in
        keeps.holds id buf (elim ((looked buf (ok (found id hash)) s s' e).1) [
          | inl (zeros, zero_id) ↦
              inl (zero_id, (is_zeros-iff-IsBlank buf).0 zeros ∙ ap (λ m. replicate m 0) whole)
          | inr (raw, stored, value_id) ↦
              let (id0, buf0, raw_id, key, block, held) = good.known (sha1 buf) raw stored in
              let same = no_collision buf buf0 used block.1 key in
              let same_id =
                value_id
                ∙ ap (λ l. le_value (take 8 l)) raw_id
                ∙ id-Held n id0 buf0 s.blocks good.room held in
              subst (λ (i : ℕ). HoldsBytes s i buf) (sym same_id)
                (subst (HoldsBytes s id0) (sym same) held)
        ])
