-- ===== src/Usbdlib/Session/Client.antt =====
-- A client of a session: the reads and writes that it sends, and the replies that it should get if
-- the disk is an array of bytes.
use usbd.Base.{
  pos, ℕ, ◌^◌, ◌<◌, ◌≡◌, List, [], ◌∷◌, ◌++◌, length, le_bytes, copy_at, slice, htonl, be_bytes,
}
use usbd.Usbdlib.Header.{Header}
use usbd.Usbdlib.Request.{Request}
use usbd.Usbdlib.Request.Codec.{payload_of}
use usbd.Usbdlib.Device.{InDisk}

pub data Op : Type 0 where
  read_op : List ℕ → ℕ → ℕ → Op  -- handle, position, count
  write_op : List ℕ → ℕ → List ℕ → Op  -- handle, position, data

abbrev pub handle_of : Op → List ℕ
handle_of (read_op handle p n) = handle
handle_of (write_op handle p bytes) = handle

abbrev pub position : Op → ℕ
position (read_op handle p n) = p
position (write_op handle p bytes) = p

abbrev pub count_of : Op → ℕ
count_of (read_op handle p n) = n
count_of (write_op handle p bytes) = length bytes

-- The range is whole blocks inside the disk, and the fields fit their places.
pub record IsServable (h : Header) (block_size total : ℕ) (op : Op) : Type 0 where
  pub handle_fits : length (handle_of op) ≡ h.handle_len
  pub pos_fits : position op < 2 ^ 63
  pub count_fits : count_of op < 2 ^ 32
  pub in_disk : InDisk block_size total (position op) (count_of op)

abbrev pub AreServable : Header → ℕ → ℕ → List Op → Type 0
AreServable h block_size total [] = Unit
AreServable h block_size total (op ∷ ops) =
    IsServable h block_size total op × AreServable h block_size total ops

module _ (h : Header) where
  -- What the client puts into its request.
  abbrev pub request_of : Op → Request
  request_of (read_op handle p n) = record {
    raw_req = [];
    req_type = h.read;
    handle = handle;
    pos = pos p;
    count = n;
    write_buffer = record { backing = []; len = 0 };
  }
  request_of (write_op handle p bytes) = record {
    raw_req = [];
    req_type = h.write;
    handle = handle;
    pos = pos p;
    count = length bytes;
    write_buffer = record { backing = bytes; len = length bytes };
  }

  -- A reply of success.
  abbrev pub reply_header : List ℕ → List ℕ
  reply_header handle = le_bytes 4 (htonl h.reply_magic) ++ (be_bytes 4 0 ++ handle)

  -- An array of bytes as a server: the bytes after the operation, and the reply.
  abbrev pub bytes_after : Op → List ℕ → List ℕ
  bytes_after (read_op handle p n) disk = disk
  bytes_after (write_op handle p bytes) disk = copy_at p bytes disk

  abbrev pub reply_to : Op → List ℕ → List ℕ
  reply_to (read_op handle p n) disk = reply_header handle ++ slice p n disk
  reply_to (write_op handle p bytes) disk = reply_header handle

  -- The buffers that are written.
  abbrev pub writes_before : Op → List (List ℕ) → List (List ℕ)
  writes_before (read_op handle p n) later = later
  writes_before (write_op handle p bytes) later = bytes ∷ later

  abbrev pub writes_of : List Op → List (List ℕ)
  writes_of [] = []
  writes_of (op ∷ ops) = writes_before op (writes_of ops)

  abbrev pub all_after : List Op → List ℕ → List ℕ
  all_after [] disk = disk
  all_after (op ∷ ops) disk = all_after ops (bytes_after op disk)

  abbrev pub replies_to : List Op → List ℕ → List ℕ
  replies_to [] disk = []
  replies_to (op ∷ ops) disk = reply_to op disk ++ replies_to ops (bytes_after op disk)

-- What the server finds in a request of the client.
pub record IsReceived (h : Header) (op : Op) (req : Request) : Type 0 where
  pub kind : req.req_type ≡ (request_of h op).req_type
  pub same_handle : req.handle ≡ (request_of h op).handle
  pub at : req.pos ≡ (request_of h op).pos
  pub same_count : req.count ≡ (request_of h op).count
  pub payload : payload_of h req ≡ payload_of h (request_of h op)
