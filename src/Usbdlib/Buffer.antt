-- ===== src/Usbdlib/Buffer.antt =====
-- The buffers that requests and responses keep between uses: a slice over a backing array.
-- getWriteBuffer of pkg/usbdlib/req.go and GetReadBuffer of pkg/usbdlib/resp.go are the same code.
use usbd.Base.{
  ℕ, ◌≤◌, ◌≡◌, List, [], arith, ltb, if◌then◌else◌, length, take, replicate, length-take,
  length-replicate, copy_at, slice-copy_at,
}

-- The slice is the first `len` bytes of the array, and its capacity is the array's length.
pub record Buffer : Type 0 where
  pub backing : List ℕ
  pub len : ℕ

abbrev pub contents : Buffer → List ℕ
contents b = take b.len b.backing

-- nil
abbrev pub empty : Buffer
empty = record { backing = []; len = 0 }

unfoldable pub get_buffer : ℕ → Buffer → Buffer
get_buffer count b =
    if ltb (length b.backing) count
    then record { backing = replicate count 0; len = count }
    else record b { len = count }

-- The callee of a read writes into the slice, from its start.
abbrev pub fill : List ℕ → Buffer → Buffer
fill bytes b = record b { backing = copy_at 0 bytes b.backing }

-- The buffer that is handed out has as many bytes as the request asks for.
pub length-contents-get_buffer :
    (count : ℕ) (b : Buffer) → length (contents (get_buffer count b)) ≡ count
unfolding get_buffer
length-contents-get_buffer count b = ground (
  arith,
  length-take count b.backing,
  length-replicate {A = ℕ} count 0,
  length-take {A = ℕ} count (replicate count 0),
)

take-copy_at :
    (src dst : List ℕ) → length src ≤ length dst → take (length src) (copy_at 0 src dst) ≡ src
take-copy_at src dst h = slice-copy_at 0 src dst (omega arith)

-- After a full read into it, it holds just the bytes read: nothing of an earlier use is left.
pub contents-fill-get_buffer :
    (bytes : List ℕ) (b : Buffer) → contents (fill bytes (get_buffer (length bytes) b)) ≡ bytes
unfolding get_buffer
contents-fill-get_buffer bytes b = ground (
  arith,
  take-copy_at bytes b.backing,
  take-copy_at bytes (replicate (length bytes) 0),
  length-replicate {A = ℕ} (length bytes) 0,
)
