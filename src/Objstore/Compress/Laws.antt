-- ===== src/Objstore/Compress/Laws.antt =====
-- What the compressing container relies on: the codecs, and the headers that it prints.
use usbd.Base.{
  Error, failed, pos, ℕ, ◌^◌, ◌<◌, ◌≡◌, refl, sym, ap, ◌∙◌, ◌≢◌, none, some, List, arith,
}
use usbd.Base.Result.{ok_inj, Result, ok, err, ◌>>=◌, need}
use usbd.Util.Numerals.{format_int, parse_int}
use usbd.Util.Numerals.Inverse.{parse_int-format_int}
use usbd.Objstore.Modes.{
  CompressMode, identity, unknown, s2, gzip, compression_name,
  compression_from_name-compression_name,
}
use usbd.Objstore.Container.{text, Metadata}
use usbd.Objstore.Compress.{
  algo_header, size_header, Codecs, new_reader, new_writer, mode_of, size_of, known, named, text_of,
}

-- What was compressed is decompressed, and a stream that breaks off is not read as if it were whole.
pub record IsCodecs (lib : Codecs) : Type 0 where
  pub gzip_back :
      (bytes packed : List ℕ)
      → lib.gzip_writer bytes ≡ ok packed
      → lib.gzip_reader (ok packed) ≡ ok (ok bytes)
  pub s2_back :
      (bytes packed : List ℕ)
      → lib.s2_writer bytes ≡ ok packed
      → lib.s2_reader (ok packed) ≡ ok bytes
  pub gzip_broken : (e : Error) (got : List ℕ) → lib.gzip_reader (err e) ≢ ok (ok got)
  pub s2_broken : (e : Error) (got : List ℕ) → lib.s2_reader (err e) ≢ ok got

by_writer :
    (f wtr : List ℕ → Result (List ℕ)) (bytes packed : List ℕ)
    → ◌≡◌ {A = Result (List ℕ → Result (List ℕ))} (ok f) (ok wtr)
    → wtr bytes ≡ ok packed
    → f bytes ≡ ok packed
by_writer f wtr bytes packed e p = cc

module _ (lib : Codecs) (codecs : IsCodecs lib) where
  pub new_reader-new_writer :
      (mode : CompressMode) (wtr : List ℕ → Result (List ℕ)) (bytes packed : List ℕ)
      → new_writer lib mode ≡ ok wtr
      → wtr bytes ≡ ok packed
      → new_reader lib mode (ok packed) ≡ ok (ok bytes)
  unfolding new_reader new_writer
  new_reader-new_writer identity wtr bytes packed e p =
      ap ok (sym (by_writer (λ b. ok b) wtr bytes packed e p))
  new_reader-new_writer unknown wtr bytes packed e p = cc
  new_reader-new_writer s2 wtr bytes packed e p =
      ap ok (codecs.s2_back bytes packed (by_writer lib.s2_writer wtr bytes packed e p))
  new_reader-new_writer gzip wtr bytes packed e p =
      codecs.gzip_back bytes packed (by_writer lib.gzip_writer wtr bytes packed e p)

  pub new_reader-broken :
      (mode : CompressMode) (e : Error) (got : List ℕ) → new_reader lib mode (err e) ≢ ok (ok got)
  unfolding new_reader
  new_reader-broken identity e got h = cc
  new_reader-broken unknown e got h = cc
  new_reader-broken s2 e got h = codecs.s2_broken e got (ok_inj h)
  new_reader-broken gzip e got h = codecs.gzip_broken e got h

  known-ok : (mode : CompressMode) → mode ≢ unknown → known lib mode ≡ ok mode
  known-ok identity k = refl
  known-ok unknown k = absurd (k refl)
  known-ok s2 k = refl
  known-ok gzip k = refl

  pub mode_of-named :
      (md : Metadata) (mode : CompressMode)
      → md algo_header ≡ some (text (compression_name mode))
      → mode ≢ unknown
      → mode_of lib md ≡ ok mode
  unfolding mode_of
  mode_of-named md mode e k =
      ap (named lib) e
      ∙ ap (known lib) (compression_from_name-compression_name mode)
      ∙ known-ok mode k

  pub mode_of-none : (md : Metadata) → md algo_header ≡ none → mode_of lib md ≡ ok identity
  unfolding mode_of
  mode_of-none md e = ap (named lib) e

  pub size_of-printed :
      (md : Metadata) (n : ℕ)
      → md size_header ≡ some (text (format_int 36 (pos n)))
      → n < 2 ^ 63
      → size_of lib md ≡ ok (pos n)
  unfolding size_of
  size_of-printed md n e lt =
      ap (λ v. text_of v >>= λ digits. need (parse_int 36 digits) failed) e
      ∙ ap (λ o. need o failed) (parse_int-format_int 36 (omega arith) (omega arith) n lt)

  pub new_writer-known :
      (mode : CompressMode) (wtr : List ℕ → Result (List ℕ))
      → new_writer lib mode ≡ ok wtr
      → mode ≢ unknown
  unfolding new_writer
  new_writer-known identity wtr e u = cc
  new_writer-known unknown wtr e u = cc
  new_writer-known s2 wtr e u = cc
  new_writer-known gzip wtr e u = cc
