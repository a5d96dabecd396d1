-- ===== src/Objstore/Compress/Put.antt =====
-- Put of a compressing container.
use usbd.Base.{
  Error, ℤ, pos, ℕ, ◌^◌, ◌<◌, ◌≡◌, refl, sym, ◌∙◌, ◌≢◌, ◌⊎◌, inl, inr, Bool, true, false, none,
  List, arith, Bool-cases, length,
}
use usbd.Base.Result.{Result-cases, Result, ok, err, ◌>>=◌}
use usbd.Util.Numerals.{text_equal}
use usbd.Objstore.Modes.{CompressMode, is_identity, compression_name}
use usbd.Objstore.Container.{Stream, Metadata, Container, IsContainer, TaggedUpTo, other_key}
use usbd.Objstore.Compress.{
  algo_header, size_header, Codecs, new_writer, headers, compressed_put, put_through,
}
use usbd.Objstore.Compress.Laws.{IsCodecs}
use usbd.Objstore.Compress.Stored.{own_keys, PackedHas, PackedSized}
use usbd.Objstore.Compress.Stored.{whole, packed}

module _ (lib : Codecs) {W Item : Type 0} (c : Container W Item) where
  compressed_put-plain :
      (mode : CompressMode) (name : List ℕ) (rdr : Stream) (size : ℤ) (md : Metadata) (w : W)
      → is_identity mode ≡ true
      → compressed_put lib c mode name rdr size md w ≡ c.put name rdr size md w
  unfolding compressed_put
  compressed_put-plain mode name rdr size md w e = rw e refl

  put_through-ok :
      (r : Result (List ℕ → Result (List ℕ))) (name : List ℕ) (rdr : Stream) (md : Metadata)
      (item : Item) (w w' : W)
      → put_through lib c r name rdr md w ≡ (ok item, w')
      → (wtr : List ℕ → Result (List ℕ)) × (r ≡ ok wtr)
        × (c.put name (rdr >>= wtr) c.size_unknown md w ≡ (ok item, w'))
  put_through-ok (err e) name rdr md item w w' h = absurd (cc)
  put_through-ok (ok wtr) name rdr md item w w' h = (wtr, refl, h)

  -- What a Put that compresses and returns an item has done.
  compressed_put-packed :
      (mode : CompressMode) (name : List ℕ) (rdr : Stream) (size : ℤ) (md : Metadata) (item : Item)
      (w w' : W)
      → is_identity mode ≡ false
      → compressed_put lib c mode name rdr size md w ≡ (ok item, w')
      → (wtr : List ℕ → Result (List ℕ)) × (new_writer lib mode ≡ ok wtr)
        × (c.put name (rdr >>= wtr) c.size_unknown (headers lib mode size md) w ≡ (ok item, w'))
  unfolding compressed_put
  compressed_put-packed mode name rdr size md item w w' e h =
      let h' : put_through lib c (new_writer lib mode) name rdr (headers lib mode size md) w
          ≡ (ok item, w') =
        rw e at h in
      put_through-ok (new_writer lib mode) name rdr (headers lib mode size md) item w w' h'

module _ (lib : Codecs) (codecs : IsCodecs lib) {W Item : Type 0} (c : Container W Item)
    (own : List ℕ → Bool) (Has : Item → List ℕ → Type 0) (Sized : Item → ℕ → Type 0)
    (Tagged : Item → Metadata → Type 0) (below : IsContainer c own Has Sized Tagged)
    (free_algo : own algo_header ≡ false) (free_size : own size_header ≡ false) where
  abbrev pub Free : (List ℕ → Bool) → Metadata → Type 0
  Free keys md = (key : List ℕ) → keys key ≡ true → md key ≡ none

  headers-Free :
      (mode : CompressMode) (size : ℤ) (md : Metadata)
      → Free (own_keys own) md
      → Free own (headers lib mode size md)
  headers-Free mode size md free key k =
      let not_size : text_equal key size_header ≡ false =
        other_key own size_header key free_size k in
      let not_algo : text_equal key algo_header ≡ false =
        other_key own algo_header key free_algo k in
      rw (not_size, not_algo) (free key (rw (not_size, not_algo) k))

  headers-kept :
      (mode : CompressMode) (size : ℤ) (md : Metadata) (key : List ℕ)
      → own_keys own key ≡ false
      → headers lib mode size md key ≡ md key
  headers-kept mode size md key k = ground (arith, k)

  own-Free : (md : Metadata) → Free (own_keys own) md → Free own md
  own-Free md free key k = free key (ground (arith, k))

  packed_has :
      (mode : CompressMode) (name bytes : List ℕ) (size : ℤ) (md : Metadata) (item : Item)
      (w w' : W) (wtr : List ℕ → Result (List ℕ))
      → Free (own_keys own) md
      → is_identity mode ≡ false
      → new_writer lib mode ≡ ok wtr
      → c.put name (wtr bytes) c.size_unknown (headers lib mode size md) w ≡ (ok item, w')
      → PackedHas Has Tagged lib item bytes × Tagged item (headers lib mode size md)
  packed_has mode name bytes size md item w w' wtr free p e put = elim (Result-cases (wtr bytes)) [
    | inl (inner, done) ↦
        let (has, tagged) =
          below.put_stores name inner c.size_unknown (headers lib mode size md) item w w'
            (headers-Free mode size md free) (inl refl) (rw done at put) in
        (packed (headers lib mode size md) mode wtr inner tagged refl p e done has, tagged)
    | inr (why, done) ↦ absurd (
        below.put_broken name why c.size_unknown (headers lib mode size md) item w w'
          (rw done at put))
  ]

  pub put_stores :
      (mode : CompressMode) (name bytes : List ℕ) (size : ℤ) (md : Metadata) (item : Item)
      (w w' : W)
      → Free (own_keys own) md
      → (size ≡ c.size_unknown) ⊎ (size ≡ pos (length bytes))
      → compressed_put lib c mode name (ok bytes) size md w ≡ (ok item, w')
      → PackedHas Has Tagged lib item bytes × TaggedUpTo (own_keys own) Tagged item md
  put_stores mode name bytes size md item w w' free fits h = elim (Bool-cases (is_identity mode)) [
    | inl i ↦
        let (has, tagged) =
          below.put_stores name bytes size md item w w' (own-Free md free) fits
            (sym (compressed_put-plain lib c mode name (ok bytes) size md w i) ∙ h) in
        (whole md tagged (free algo_header refl) has, (md, tagged, λ key k. refl))
    | inr p ↦
        let (wtr, e, put) =
          compressed_put-packed lib c mode name (ok bytes) size md item w w' p h in
        let (has, tagged) = packed_has mode name bytes size md item w w' wtr free p e put in
        (has, (headers lib mode size md, tagged, headers-kept mode size md))
  ]

  pub put_broken :
      (mode : CompressMode) (name : List ℕ) (e : Error) (size : ℤ) (md : Metadata) (item : Item)
      (w w' : W)
      → compressed_put lib c mode name (err e) size md w ≢ (ok item, w')
  put_broken mode name e size md item w w' h = elim (Bool-cases (is_identity mode)) [
    | inl i ↦
        below.put_broken name e size md item w w'
          (sym (compressed_put-plain lib c mode name (err e) size md w i) ∙ h)
    | inr p ↦
        let (wtr, known, put) =
          compressed_put-packed lib c mode name (err e) size md item w w' p h in
        below.put_broken name e c.size_unknown (headers lib mode size md) item w w' put
  ]

  pub put_sized :
      (mode : CompressMode) (name bytes : List ℕ) (md : Metadata) (item : Item) (w w' : W)
      → Free (own_keys own) md
      → length bytes < 2 ^ 63
      → compressed_put lib c mode name (ok bytes) (pos (length bytes)) md w ≡ (ok item, w')
      → PackedSized Sized Tagged item (length bytes)
  put_sized mode name bytes md item w w' free small h = elim (Bool-cases (is_identity mode)) [
    | inl i ↦
        let plain =
          sym (compressed_put-plain lib c mode name (ok bytes) (pos (length bytes)) md w i) ∙ h in
        whole md
          (below.put_stores name bytes (pos (length bytes)) md item w w' (own-Free md free)
            (inr refl) plain).1
          (free algo_header refl)
          (below.put_sized name bytes md item w w' (own-Free md free) small plain)
    | inr p ↦
        let (wtr, e, put) =
          compressed_put-packed lib c mode name (ok bytes) (pos (length bytes)) md item w w' p h in
        let (has, tagged) =
          packed_has mode name bytes (pos (length bytes)) md item w w' wtr free p e put in
        packed (headers lib mode (pos (length bytes)) md) (compression_name mode) tagged refl refl
          small
  ]
