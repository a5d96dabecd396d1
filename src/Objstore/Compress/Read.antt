-- ===== src/Objstore/Compress/Read.antt =====
-- Size and Open of the items of a compressing container.
use usbd.Base.{
  ℤ, pos, ℕ, ◌≡◌, sym, ap, ◌∙◌, inl, inr, Bool, false, none, some, List, arith, if◌then◌else◌,
}
use usbd.Base.Result.{Result-cases, Result, ok}
use usbd.Util.Numerals.{format_int}
use usbd.Objstore.Modes.{CompressMode, is_identity, compression_name}
use usbd.Objstore.Container.{
  stream_value, pair_value, Stream, text, Metadata, Container, IsContainer, TaggedUpTo, call-ok,
}
use usbd.Objstore.Compress.{
  algo_header, size_header, Codecs, new_writer, compressed_open, compressed_size, call, size_by,
  mode_of, size_of, open_as, identity, new_reader,
}
use usbd.Objstore.Compress.Laws.{
  IsCodecs, size_of-printed, mode_of-none, mode_of-named, new_writer-known, new_reader-new_writer,
  new_reader-broken,
}
use usbd.Objstore.Compress.Stored.{own_keys, PackedHas, PackedSized}
use usbd.Objstore.Compress.Stored.{whole, packed}

module _ (lib : Codecs) (codecs : IsCodecs lib) {W Item : Type 0} (c : Container W Item)
    (own : List ℕ → Bool) (Has : Item → List ℕ → Type 0) (Sized : Item → ℕ → Type 0)
    (Tagged : Item → Metadata → Type 0) (below : IsContainer c own Has Sized Tagged)
    (free_algo : own algo_header ≡ false) (free_size : own size_header ≡ false) where
  pub metadata_kept :
      (item : Item) (md md' : Metadata) (key : List ℕ) (w w' : W)
      → TaggedUpTo (own_keys own) Tagged item md
      → c.metadata item w ≡ (ok md', w')
      → own_keys own key ≡ false
      → md' key ≡ md key
  metadata_kept item md md' key w w' (inner, tagged, same) h k =
      below.metadata_kept item inner md' key w w' tagged h (ground (arith, k)) ∙ same key k

  pub size_reads :
      (item : Item) (n : ℕ) (k : ℤ) (w w' : W)
      → PackedSized Sized Tagged item n
      → compressed_size lib c item w ≡ (ok k, w')
      → k ≡ pos n
  unfolding compressed_size
  size_reads item n k w w' (whole md tagged none_there sized) h =
      let (got, w1, first, second) =
        call-ok (c.metadata item w) (λ md1 w1. size_by lib c (md1 algo_header) item md1 w1) k w'
          h in
      let e : got algo_header ≡ none =
        below.metadata_kept item md got algo_header w w1 tagged first free_algo ∙ none_there in
      below.size_reads item n k w1 w' sized (rw e at second)
  size_reads item n k w w' (packed md name tagged algo digits small) h =
      let (got, w1, first, second) =
        call-ok (c.metadata item w) (λ md1 w1. size_by lib c (md1 algo_header) item md1 w1) k w'
          h in
      let e : got algo_header ≡ some (text name) =
        below.metadata_kept item md got algo_header w w1 tagged first free_algo ∙ algo in
      let d : got size_header ≡ some (text (format_int 36 (pos n))) =
        below.metadata_kept item md got size_header w w1 tagged first free_size ∙ digits in
      let printed = size_of-printed lib codecs got n d small in
      let third : ◌≡◌ {A = Result ℤ × W} (size_of lib got, w1) (ok k, w') = rw e at second in
      pair_value (sym third ∙ ap (λ r. (r, w1)) printed)

  opened_plainly :
      (item : Item) (bytes got : List ℕ) (w w' : W)
      → Has item bytes
      → open_as lib c identity item w ≡ (ok (ok got), w')
      → got ≡ bytes
  unfolding open_as
  opened_plainly item bytes got w w' has h =
      let (strm, w1, first, second) =
        call-ok (c.open_item item w) (λ strm w1. (ok strm, w1)) (ok got) w' h in
      below.open_reads item bytes got w w1 has (first ∙ ap (λ t. (ok t, w1)) (pair_value second))

  opened_packed :
      (item : Item) (mode : CompressMode) (wtr : List ℕ → Result (List ℕ))
      (bytes inner got : List ℕ) (w w' : W)
      → is_identity mode ≡ false
      → new_writer lib mode ≡ ok wtr
      → wtr bytes ≡ ok inner
      → Has item inner
      → open_as lib c mode item w ≡ (ok (ok got), w')
      → got ≡ bytes
  unfolding open_as
  opened_packed item mode wtr bytes inner got w w' packs known done has h =
      let (strm, w1, first, second) =
        call-ok (c.open_item item w)
          (λ strm w1. if is_identity mode then (ok strm, w1) else (new_reader lib mode strm, w1))
          (ok got) w' h in
      let read : ◌≡◌ {A = Result Stream × W} (new_reader lib mode strm, w1) (ok (ok got), w') =
        rw packs at second in
      elim (Result-cases strm) [
        | inl (enc, whole_strm) ↦
            let same : enc ≡ inner =
              below.open_reads item inner enc w w1 has (first ∙ ap (λ t. (ok t, w1)) whole_strm) in
            stream_value (
              sym (ap (λ p. p.0) read)
              ∙ ap (new_reader lib mode) (whole_strm ∙ ap ok same)
              ∙ new_reader-new_writer lib codecs mode wtr bytes inner known done)
        | inr (why, broken) ↦ absurd (
            new_reader-broken lib codecs mode why got
              (sym (ap (new_reader lib mode) broken) ∙ ap (λ p. p.0) read))
      ]

  pub open_reads :
      (item : Item) (bytes got : List ℕ) (w w' : W)
      → PackedHas Has Tagged lib item bytes
      → compressed_open lib c item w ≡ (ok (ok got), w')
      → got ≡ bytes
  unfolding compressed_open
  open_reads item bytes got w w' (whole md tagged none_there has) h =
      let (found, w1, first, second) =
        call-ok (c.metadata item w)
          (λ md1 w1. call (mode_of lib md1, w1) (λ mode w2. open_as lib c mode item w2)) (ok got) w'
          h in
      let e : found algo_header ≡ none =
        below.metadata_kept item md found algo_header w w1 tagged first free_algo ∙ none_there in
      opened_plainly item bytes got w1 w' has (
        sym (
          ap (λ r. call (r, w1) (λ mode w2. open_as lib c mode item w2))
            (mode_of-none lib codecs found e))
        ∙ second)
  open_reads item bytes got w w' (packed md mode wtr inner tagged algo packs known done has) h =
      let (found, w1, first, second) =
        call-ok (c.metadata item w)
          (λ md1 w1. call (mode_of lib md1, w1) (λ mode w2. open_as lib c mode item w2)) (ok got) w'
          h in
      let e : found algo_header ≡ some (text (compression_name mode)) =
        below.metadata_kept item md found algo_header w w1 tagged first free_algo ∙ algo in
      opened_packed item mode wtr bytes inner got w1 w' packs known done has (
        sym (
          ap (λ r. call (r, w1) (λ mode2 w2. open_as lib c mode2 item w2))
            (mode_of-named lib codecs found mode e (new_writer-known lib codecs mode wtr known)))
        ∙ second)
