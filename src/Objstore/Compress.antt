-- ===== src/Objstore/Compress.antt =====
-- compressedContainer and compressedItem of pkg/devices/objstore/compress/stow.go, with NewReader and
-- NewWriter of mode.go. Item and Items only wrap the items of the container below, so an item is
-- the same value on both levels, and what changes are the functions on it.
pub mod Laws
pub mod Stored
pub mod Put
pub mod Read
pub mod Layer
pub mod Reliable
use usbd.Base.{invalid, failed, ℤ, ℕ, ◌-◌, Option, none, some, List, if◌then◌else◌}
use usbd.Base.Result.{Result, ok, err, ◌>>=◌, need}
use usbd.Util.Numerals.{codes, format_int, parse_int}
use usbd.Objstore.Modes.{
  CompressMode, identity, unknown, s2, gzip, is_identity, compression_from_name, compression_name,
}
use usbd.Objstore.Container.{Stream, Value, text, Metadata, with_header, Container, text_of, call}

abbrev pub algo_header : List ℕ
algo_header = codes "x-osbd-cmp-alg"

abbrev pub size_header : List ℕ
size_header = codes "x-osbd-cmp-size"

-- compress/gzip and github.com/klauspost/compress/s2. A writer is what comes out of it for all the
-- bytes of a stream and the Close; gzip's NewReader reads the header of its stream at once.
pub record Codecs : Type 0 where
  pub gzip_writer : List ℕ → Result (List ℕ)
  pub s2_writer : List ℕ → Result (List ℕ)
  pub gzip_reader : Stream → Result Stream
  pub s2_reader : Stream → Stream

module _ (lib : Codecs) where
  unfoldable pub new_reader : CompressMode → Stream → Result Stream
  new_reader identity strm = ok strm
  new_reader gzip strm = lib.gzip_reader strm
  new_reader s2 strm = ok (lib.s2_reader strm)
  new_reader unknown strm = err invalid

  unfoldable pub new_writer : CompressMode → Result (List ℕ → Result (List ℕ))
  new_writer identity = ok (λ bytes. ok bytes)
  new_writer gzip = ok lib.gzip_writer
  new_writer s2 = ok lib.s2_writer
  new_writer unknown = err invalid

  -- The headers that Put adds to the metadata.
  abbrev pub headers : CompressMode → ℤ → Metadata → Metadata
  headers mode size md =
      with_header size_header (text (format_int 36 size))
        (with_header algo_header (text (compression_name mode)) md)

  abbrev pub known : CompressMode → Result CompressMode
  known unknown = err failed
  known identity = ok identity
  known s2 = ok s2
  known gzip = ok gzip

  abbrev pub named : Option Value → Result CompressMode
  named none = ok identity
  named (some v) = do name ← text_of (some v); known (compression_from_name name)

  -- The mode that the metadata of an item says.
  unfoldable pub mode_of : Metadata → Result CompressMode
  mode_of md = named (md algo_header)

  unfoldable pub size_of : Metadata → Result ℤ
  size_of md = do digits ← text_of (md size_header); need (parse_int 36 digits) failed

  module _ {W Item : Type 0} (c : Container W Item) where
    -- The goroutine copies the reader through the compressor into the pipe that Put reads.
    abbrev pub put_through :
        Result (List ℕ → Result (List ℕ)) → List ℕ → Stream → Metadata → W → Result Item × W
    put_through (err e) name rdr md w = (err e, w)
    put_through (ok wtr) name rdr md w = c.put name (rdr >>= wtr) c.size_unknown md w

    -- The goroutine copies the reader through the compressor into the pipe that Put reads.
    unfoldable pub compressed_put :
        CompressMode → List ℕ → Stream → ℤ → Metadata → W → Result Item × W
    unfolding new_writer
    compressed_put mode name rdr size md w =
        if is_identity mode
        then c.put name rdr size md w
        else put_through (new_writer mode) name rdr (headers mode size md) w

    abbrev pub size_by : Option Value → Item → Metadata → W → Result ℤ × W
    size_by none item md w = c.size item w
    size_by (some v) item md w = (size_of md, w)

    unfoldable pub compressed_size : Item → W → Result ℤ × W
    compressed_size item w = call (c.metadata item w) (λ md w'. size_by (md algo_header) item md w')

    unfoldable pub open_as : CompressMode → Item → W → Result Stream × W
    unfolding new_reader
    open_as mode item w =
        call (c.open_item item w)
          (λ strm w'. if is_identity mode then (ok strm, w') else (new_reader mode strm, w'))

    unfoldable pub compressed_open : Item → W → Result Stream × W
    unfolding mode_of open_as
    compressed_open item w =
        call (c.metadata item w)
          (λ md w'. call (mode_of md, w') (λ mode w''. open_as mode item w''))

    unfoldable pub new_compressed_container : CompressMode → Container W Item
    unfolding compressed_put compressed_size compressed_open
    new_compressed_container mode = record {
      size_unknown = c.size_unknown;
      put = compressed_put mode;
      metadata = c.metadata;
      size = compressed_size;
      open_item = compressed_open;
    }
