-- ===== src/Objstore/Compress/Reliable.antt =====
-- A compressing container on a store that works.
use usbd.Base.{
  ℤ, ℕ, ◌≡◌, refl, ap, ◌∙◌, ◌≢◌, inl, inr, Bool, false, none, some, List, if◌then◌else◌, Bool-cases,
}
use usbd.Base.Result.{Result, ok}
use usbd.Objstore.Modes.{CompressMode, identity, unknown, s2, gzip, is_identity, compression_name}
use usbd.Objstore.Container.{text, Metadata, Container, IsContainer, IsReliable, TaggedUpTo}
use usbd.Objstore.Compress.{
  algo_header, Codecs, new_reader, new_writer, headers, mode_of, compressed_put, open_as,
  compressed_open, new_compressed_container,
}
use usbd.Objstore.Compress.Laws.{
  IsCodecs, new_reader-new_writer, mode_of-named, mode_of-none, new_writer-known,
}
use usbd.Objstore.Compress.Stored.{own_keys, PackedHas, whole, packed}

-- The writers take every stream.
pub record NeverFail (lib : Codecs) : Type 0 where
  pub gzip_takes : (bytes : List ℕ) → (packed : List ℕ) × (lib.gzip_writer bytes ≡ ok packed)
  pub s2_takes : (bytes : List ℕ) → (packed : List ℕ) × (lib.s2_writer bytes ≡ ok packed)

module _ (lib : Codecs) (total : NeverFail lib) where
  writer_takes :
      (mode : CompressMode) (bytes : List ℕ)
      → mode ≢ unknown
      → (wtr : List ℕ → Result (List ℕ)) × (out : List ℕ) × (new_writer lib mode ≡ ok wtr)
        × (wtr bytes ≡ ok out)
  unfolding new_writer
  writer_takes identity bytes known = (λ b. ok b, bytes, refl, refl)
  writer_takes unknown bytes known = absurd (known refl)
  writer_takes s2 bytes known =
      (lib.s2_writer, (total.s2_takes bytes).0, refl, (total.s2_takes bytes).1)
  writer_takes gzip bytes known =
      (lib.gzip_writer, (total.gzip_takes bytes).0, refl, (total.gzip_takes bytes).1)

module _ (lib : Codecs) (codecs : IsCodecs lib) (total : NeverFail lib) {W Item : Type 0}
    (c : Container W Item) (own : List ℕ → Bool) (Has : Item → List ℕ → Type 0)
    (Sized : Item → ℕ → Type 0) (Tagged : Item → Metadata → Type 0)
    (below : IsContainer c own Has Sized Tagged) (works : IsReliable c Has Tagged)
    (free_algo : own algo_header ≡ false) where
  puts :
      (mode : CompressMode) (name bytes : List ℕ) (size : ℤ) (md : Metadata) (w : W)
      → mode ≢ unknown
      → (item : Item) × (w' : W) × (compressed_put lib c mode name (ok bytes) size md w
          ≡ (ok item, w'))
  unfolding compressed_put
  puts mode name bytes size md w known =
      let (wtr, out, writer, done) = writer_takes lib total mode bytes known in
      elim (Bool-cases (is_identity mode)) [
        | inl i ↦ rw i (works.puts name bytes size md w)
        | inr p ↦
            let (item, w', stored) =
              works.puts name out c.size_unknown (headers lib mode size md) w in
            (
              item,
              w',
              rw (p, writer)
                  (ap (λ strm. c.put name strm c.size_unknown (headers lib mode size md) w) done
                    ∙ stored),
            )
      ]

  tells :
      (item : Item) (md : Metadata) (w : W)
      → TaggedUpTo (own_keys own) Tagged item md
      → (md' : Metadata) × (w' : W) × (c.metadata item w ≡ (ok md', w'))
  tells item md w (inner, tagged, same) = works.tells item inner w tagged

  open_stored :
      (item : Item) (md : Metadata) (mode : CompressMode) (w w1 : W) (strm out : List ℕ)
      → c.metadata item w ≡ (ok md, w1)
      → mode_of lib md ≡ ok mode
      → Has item strm
      → (w2 : W) × (c.open_item item w1 ≡ (ok (ok strm), w2))
        × (compressed_open lib c item w ≡ (
            if is_identity mode then (ok (ok strm), w2) else (new_reader lib mode (ok strm), w2)))
  unfolding compressed_open open_as
  open_stored item md mode w w1 strm out m k has =
      let (w2, o) = works.opens item strm w1 has in (w2, o, rw (m, k, o) refl)

  opens :
      (item : Item) (bytes : List ℕ) (w : W)
      → PackedHas Has Tagged lib item bytes
      → (w' : W) × (compressed_open lib c item w ≡ (ok (ok bytes), w'))
  opens item bytes w (whole md tagged none_there has) =
      let (got, w1, m) = works.tells item md w tagged in
      let e : got algo_header ≡ none =
        below.metadata_kept item md got algo_header w w1 tagged m free_algo ∙ none_there in
      let (w2, o, r) =
        open_stored item got identity w w1 bytes bytes m (mode_of-none lib codecs got e) has in
      (w2, r)
  opens item bytes w (packed md mode wtr inner tagged algo packs known done has) =
      let (got, w1, m) = works.tells item md w tagged in
      let e : got algo_header ≡ some (text (compression_name mode)) =
        below.metadata_kept item md got algo_header w w1 tagged m free_algo ∙ algo in
      let (w2, o, r) =
        open_stored item got mode w w1 inner inner m
          (mode_of-named lib codecs got mode e (new_writer-known lib codecs mode wtr known)) has in
      (w2, r ∙ rw (packs, new_reader-new_writer lib codecs mode wtr bytes inner known done) refl)

  -- On a store that works, with a known mode and a compressor that takes every stream, a
  -- compressing container works as well.
  pub compressed-IsReliable :
      (mode : CompressMode)
      → mode ≢ unknown
      → IsReliable
          (new_compressed_container lib c mode)
          (PackedHas Has Tagged lib)
          (TaggedUpTo (own_keys own) Tagged)
  unfolding new_compressed_container
  compressed-IsReliable mode known = record {
    puts = λ name bytes size md w. puts mode name bytes size md w known;
    tells = tells;
    opens = opens;
  }
