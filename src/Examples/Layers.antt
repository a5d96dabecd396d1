-- ===== src/Examples/Layers.antt =====
-- The compressing and the encrypting container of pkg/devices/objstore over a store in memory.
use usbd.Base.{
  Error, eof, invalid, ℤ, pos, negsuc, ℕ, zero, suc, ◌≡◌, refl, sym, ap, ◌∙◌, ◌≢◌, true, List, [],
  ◌∷◌, arith, ◌==◌, if◌then◌else◌, replicate,
}
use usbd.Base.Result.{ok_inj, Result, ok, err, is_ok}
use usbd.Util.Zeros.{is_zeros}
use usbd.Objstore.Modes.{gzip, aes_cfb}
use usbd.Objstore.Options.{Config, blank}
use usbd.Objstore.Options.Accepted.{IsAccepted}
use usbd.Objstore.Container.{Metadata, Stream, Container, IsContainer, IsReliable, pair_value}
use usbd.Util.Numerals.{
  format_int, parse_int, emit, parse_positive, parse_nat, scan, value_in, undigit,
}
use usbd.Objstore.Compress.{
  Codecs, headers, new_compressed_container, compressed_put, new_writer, compressed_open, mode_of,
  open_as, new_reader, compressed_size, size_of,
}
use usbd.Objstore.Modes.{compression_from_name, compression_name}
use usbd.Objstore.Compress.Laws.{IsCodecs}
use usbd.Objstore.Compress.Reliable.{NeverFail}
use usbd.Objstore.Encrypt.{Ciphers, valid_aes_key}
use usbd.Objstore.Encrypt.Laws.{IsCiphers}
use usbd.Objstore.Wrapped.{wrap}
use usbd.Objstore.Wrapped.Objects.{
  no_headers, no_keys, OpensTo, SizesTo, wrapped_reads, wrapped_round_trip,
}

pub record Object : Type 0 where
  bytes : List ℕ
  size : ℤ
  md : Metadata

-- The state counts the random blocks.
abbrev pub memory_put : List ℕ → Stream → ℤ → Metadata → ℕ → Result Object × ℕ
memory_put name (err e) size md w = (err e, w)
memory_put name (ok bytes) size md w = (ok (record { bytes = bytes; size = size; md = md }), w)

abbrev pub memory : Container ℕ Object
memory = record {
  size_unknown = negsuc 0;
  put = memory_put;
  metadata = λ item w. (ok item.md, w);
  size = λ item w. (ok item.size, w);
  open_item = λ item w. (ok (ok item.bytes), w);
}

abbrev pub MemoryHas : Object → List ℕ → Type 0
MemoryHas item bytes = item.bytes ≡ bytes

abbrev pub MemorySized : Object → ℕ → Type 0
MemorySized item n = item.size ≡ pos n

abbrev pub MemoryTagged : Object → Metadata → Type 0
MemoryTagged item md = (key : List ℕ) → item.md key ≡ md key

pub memory-IsContainer : IsContainer memory no_keys MemoryHas MemorySized MemoryTagged
memory-IsContainer = record {
  put_stores = λ name bytes size md item w w' free fits h.
      let same = pair_value h in
      (sym (ap (λ (o : Object). o.bytes) same), λ key. sym (ap (λ (o : Object). o.md key) same));
  put_broken = λ name e size md item w w' h. cc;
  put_sized =
      λ name bytes md item w w' free small h. sym (ap (λ (o : Object). o.size) (pair_value h));
  metadata_kept = λ item md md' key w w' tagged h own.
      sym (ap (λ (m : Metadata). m key) (pair_value h)) ∙ tagged key;
  size_reads = λ item n k w w' sized h. sym (pair_value h) ∙ sized;
  open_reads = λ item bytes got w w' has h. sym (ok_inj (pair_value h)) ∙ has;
}

pub memory-IsReliable : IsReliable memory MemoryHas MemoryTagged
memory-IsReliable = record {
  puts = λ name bytes size md w. (record { bytes = bytes; size = size; md = md }, w, refl);
  tells = λ item md w tagged. (item.md, w, refl);
  opens = λ item bytes w has. (w, ap (λ b. (ok (ok b), w)) has);
}

-- Compressors that put a mark in front.
abbrev pub unmark : ℕ → Stream → Result Stream
unmark mark (err e) = err e
unmark mark (ok []) = err eof
unmark mark (ok (b ∷ bytes)) = if b == mark then ok (ok bytes) else err invalid

abbrev pub marks : Codecs
marks = record {
  gzip_writer = λ bytes. ok (31 ∷ bytes);
  s2_writer = λ bytes. ok (255 ∷ bytes);
  gzip_reader = unmark 31;
  s2_reader = λ strm. elim (unmark 255 strm) [ ok s ↦ s | err e ↦ err e ];
}

unmark-broken : (mark : ℕ) (e : Error) (got : List ℕ) → unmark mark (err e) ≢ ok (ok got)
unmark-broken mark e got h = cc

pub marks-IsCodecs : IsCodecs marks
marks-IsCodecs = record {
  gzip_back = λ bytes packed h. ap (unmark 31) (sym h);
  s2_back = λ bytes packed h. ap marks.s2_reader (sym h);
  gzip_broken = λ e got h. unmark-broken 31 e got h;
  s2_broken = λ e got h. cc;
}

pub marks-NeverFail : NeverFail marks
marks-NeverFail = record {
  gzip_takes = λ bytes. (31 ∷ bytes, refl);
  s2_takes = λ bytes. (255 ∷ bytes, refl);
}

-- Ciphers that pass the bytes on, or count them up.
abbrev pub up : List ℕ → List ℕ
up [] = []
up (b ∷ bytes) = suc b ∷ up bytes

abbrev pub pred : ℕ → ℕ
pred zero = 0
pred (suc n) = n

abbrev pub down : List ℕ → List ℕ
down [] = []
down (b ∷ bytes) = pred b ∷ down bytes

down-up : (bytes : List ℕ) → down (up bytes) ≡ bytes
down-up [] = refl
down-up (b ∷ bytes) = ap (λ t. b ∷ t) (down-up bytes)

abbrev pub counting : Ciphers ℕ
counting = record {
  ctr = λ key iv bytes. bytes;
  cfb_encrypter = λ key iv bytes. up bytes;
  cfb_decrypter = λ key iv bytes. down bytes;
  ofb = λ key iv bytes. bytes;
  random_block = λ w. (ok (replicate 16 7), suc w);
}

pub counting-IsCiphers : IsCiphers counting
counting-IsCiphers = record {
  ctr_back = λ key iv bytes. refl;
  cfb_back = λ key iv bytes. down-up bytes;
  ofb_back = λ key iv bytes. refl;
  random_fits = λ iv w w' h. rw (← pair_value h) (refl, omega arith);
}

abbrev both_layers : Config
both_layers = record (blank 8192 4096) {
  concur_flush = 1;
  compress_mode = gzip;
  encrypt_mode = aes_cfb;
  encrypt_key = replicate 16 9;
}

nines-valid : is_ok (valid_aes_key (replicate 16 9)) ≡ true
unfolding valid_aes_key is_zeros
nines-valid = refl

both_layers-IsAccepted : IsAccepted (λ key. is_ok (valid_aes_key key)) both_layers
both_layers-IsAccepted = record {
  no_metadata_is_plain = λ e. absurd (cc);
  encryption_has_key = λ e. (refl, nines-valid);
  flushes = omega arith;
  quota_holds_one = λ n e. absurd (cc);
}

abbrev layered_memory : Container ℕ Object
layered_memory = wrap marks counting both_layers memory

wrapped_round_trip_example :
    (item : Object) × (w' : ℕ) × ((wrap marks counting both_layers memory).put
        (1 ∷ [])
        (ok (5 ∷ 6 ∷ []))
        (pos 2)
        no_headers
        0
      ≡ (ok item, w'))
    × ((w1 : ℕ)
        → (w2 : ℕ) × ((wrap marks counting both_layers memory).open_item item w1
            ≡ (ok (ok (5 ∷ 6 ∷ [])), w2)))
wrapped_round_trip_example =
    wrapped_round_trip marks counting marks-IsCodecs counting-IsCiphers both_layers memory MemoryHas
      MemorySized MemoryTagged memory-IsContainer (1 ∷ []) (5 ∷ 6 ∷ []) 0 memory-IsReliable
      marks-NeverFail (λ w. (replicate 16 7, suc w, refl)) both_layers-IsAccepted (λ e. cc)
      (λ e. cc)

abbrev gzip_only : Config
gzip_only = record (blank 8192 4096) { concur_flush = 1; compress_mode = gzip }

abbrev zipped_memory : Container ℕ Object
zipped_memory = wrap marks counting gzip_only memory

-- What stands in the store of two bytes.
abbrev zipped : Object
zipped = record {
  bytes = 31 ∷ 5 ∷ 6 ∷ [];
  size = negsuc 0;
  md = headers marks gzip (pos 2) no_headers;
}

zipped-put : zipped_memory.put (1 ∷ []) (ok (5 ∷ 6 ∷ [])) (pos 2) no_headers 0 ≡ (ok zipped, 0)
unfolding wrap new_compressed_container compressed_put new_writer
zipped-put = refl

zipped-opened : zipped_memory.open_item zipped 0 ≡ (ok (ok (5 ∷ 6 ∷ [])), 0)
unfolding wrap new_compressed_container compressed_open mode_of open_as new_reader
    compression_from_name compression_name
zipped-opened = refl

zipped-sized : zipped_memory.size zipped 0 ≡ (ok (pos 2), 0)
unfolding wrap new_compressed_container compressed_size size_of format_int parse_int emit
    parse_positive parse_nat scan value_in undigit
zipped-sized = refl

wrapped_reads_example :
    OpensTo (5 ∷ 6 ∷ []) ((wrap marks counting gzip_only memory).open_item zipped 0).0
    × SizesTo 2 ((wrap marks counting gzip_only memory).size zipped 0).0
wrapped_reads_example =
    wrapped_reads marks counting marks-IsCodecs counting-IsCiphers gzip_only memory MemoryHas
      MemorySized MemoryTagged memory-IsContainer (1 ∷ []) (5 ∷ 6 ∷ []) zipped 0 0 0 0 (omega arith)
      zipped-put
