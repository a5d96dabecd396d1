-- ===== src/Dedupdisk/Impls/Contents.antt =====
-- The bytes of a deduplicating disk, from the parts of pkg/devices/dedupdisk/impls.
use usbd.Base.{
  ℕ, suc, ◌+◌, ◌*◌, ◌<◌, ◌≡◌, refl, sym, ap, ap₂, ◌∙◌, inl, inr, true, false, Option, some, List,
  [], ◌∷◌, ◌++◌, arith, ◌==◌, if◌then◌else◌, length, get_elem?, drop, replicate, take-append-drop,
  length-drop, slice,
}
use usbd.Dedupdisk.Device.Chunks.{eq-nil, later_chunk}
use usbd.Dedupdisk.FileStore.{FileStore, zero_block_id}
use usbd.Dedupdisk.FileStore.Held.{HeldBy, HasRoom, id_small}
use usbd.Dedupdisk.LunMap.Entries.{lt_of_get_elem?}
use usbd.Dedupdisk.Impls.{Parts}
use usbd.Dedupdisk.Impls.Laws.{IsGood}

abbrev block_bytes : ℕ → FileStore → ℕ → List ℕ
block_bytes bs fbs id = if id == zero_block_id then replicate bs 0 else slice (id * bs) bs fbs.file

abbrev joined : ℕ → FileStore → List ℕ → List ℕ
joined bs fbs [] = []
joined bs fbs (id ∷ ids) = block_bytes bs fbs id ++ joined bs fbs ids

abbrev pub contents : {D : Type 0} → ℕ → Parts D → List ℕ
contents bs s = joined bs s.blocks s.lun.ids

module _ (bs : ℕ) (some_bytes : 0 < bs) where
  held-bytes :
      (n id : ℕ) (bytes : List ℕ) (fbs : FileStore)
      → HasRoom bs some_bytes n fbs
      → HeldBy bs some_bytes fbs id bytes
      → block_bytes bs fbs id ≡ bytes
  held-bytes n id bytes fbs room (inl (e, blank)) =
      let zero_id : (id == zero_block_id) ≡ true = ground arith in rw zero_id (sym blank)
  held-bytes n id bytes fbs room (inr (earlier, _, has)) =
      let small = id_small bs some_bytes fbs.next_id n room.room in
      let ordinary : (id == zero_block_id) ≡ false = ground arith in rw ordinary has

  joined-eq :
      (fbs : FileStore) (ids bytes : List ℕ)
      → length bytes ≡ length ids * bs
      → ((i id : ℕ) → get_elem? ids i ≡ some id → block_bytes bs fbs id ≡ slice (i * bs) bs bytes)
      → joined bs fbs ids ≡ bytes
  joined-eq fbs [] bytes sized h =
      let nothing : 0 * bs ≡ 0 = omega arith in sym (eq-nil bytes (omega (arith, sized, nothing)))
  joined-eq fbs (id ∷ ids) bytes sized h =
      let more : suc (length ids) * bs ≡ bs + length ids * bs = grind arith in
      let start : 0 * bs ≡ 0 = omega arith in
      ap₂ ◌++◌ (h 0 id refl ∙ ap (λ m. slice m bs bytes) start) (
        joined-eq fbs ids (drop bs bytes) (omega (arith, length-drop bs bytes, sized, more))
          (λ i j e. h (suc i) j e ∙ sym (later_chunk bs i bytes)))
      ∙ take-append-drop bs bytes

module _ {D : Type 0} (value : D → List ℕ → Option (List ℕ)) (sha1 : List ℕ → List ℕ)
    (Used : List ℕ → Type 0) (bs count : ℕ) (some_bytes : 0 < bs) where
  pub contents-Shows :
      (n : ℕ) (s : Parts D) (bytes : List ℕ)
      → IsGood value sha1 Used bs count some_bytes n s
      → length bytes ≡ count * bs
      → ((b : ℕ)
          → b < count
          → (id : ℕ) × (get_elem? s.lun.ids b ≡ some id)
            × HeldBy bs some_bytes s.blocks id (slice (b * bs) bs bytes))
      → contents bs s ≡ bytes
  contents-Shows n s bytes good sized shows =
      joined-eq bs some_bytes s.blocks s.lun.ids bytes (sized ∙ ap (λ m. m * bs) (sym good.counted))
        (λ i id e.
          let inside : i < count = omega (arith, lt_of_get_elem? s.lun.ids i e, good.counted) in
          let (id', m, held) = shows i inside in
          let same : some id ≡ some id' = sym e ∙ m in
          let id_same : id ≡ id' = cc in
          ap (block_bytes bs s.blocks) id_same
          ∙ held-bytes bs some_bytes n id' (slice (i * bs) bs bytes) s.blocks good.room held)
