-- ===== src/Util/Strms.antt =====
-- pkg/util/strms: a reader and a writer with positions of their own over ones that are read and
-- written at a position, the zero device, and a list of closers. `W` is the state of what is below.
pub mod InOrder
pub mod Closing
use usbd.Base.{Error, ℤ, pos, add64, ℕ, Option, none, some, List, [], ◌∷◌, length}

-- io.ReaderAt and io.WriterAt. ReadAt gives the bytes that it puts at the front of the buffer, whose
-- number is the one that it returns.
pub record ReaderAt (W : Type 0) : Type 0 where
  pub read_at : ℕ → ℤ → W → (List ℕ × Option Error) × W

pub record WriterAt (W : Type 0) : Type 0 where
  pub write_at : List ℕ → ℤ → W → (ℤ × Option Error) × W

pub record ReadAtReader (W : Type 0) : Type 0 where
  pub cur : ℤ
  pub reader_at : ReaderAt W

pub record WriteAtWriter (W : Type 0) : Type 0 where
  pub cur : ℤ
  pub writer_at : WriterAt W

abbrev pub keep_first : Option Error → Option Error → Option Error
keep_first (some e) later = some e
keep_first none later = later

module _ {W : Type 0} where
  unfoldable pub new_read_at_reader : ReaderAt W → ReadAtReader W
  new_read_at_reader rdr_at = record { cur = pos 0; reader_at = rdr_at }

  unfoldable pub new_write_at_writer : WriterAt W → WriteAtWriter W
  new_write_at_writer wtr_at = record { cur = pos 0; writer_at = wtr_at }

  -- Read into a buffer of `n` bytes.
  unfoldable pub read_next : ReadAtReader W → ℕ → W → (List ℕ × Option Error) × (ReadAtReader W × W)
  read_next rar n w =
      let ((got, e), w') = rar.reader_at.read_at n rar.cur w in
      ((got, e), (record rar { cur = add64 rar.cur (pos (length got)) }, w'))

  unfoldable pub write_next :
      WriteAtWriter W → List ℕ → W → (ℤ × Option Error) × (WriteAtWriter W × W)
  write_next waw buf w =
      let ((n, e), w') = waw.writer_at.write_at buf waw.cur w in
      ((n, e), (record waw { cur = add64 waw.cur n }, w'))

  abbrev pub close_from : Option Error → List (W → Option Error × W) → W → Option Error × W
  close_from e [] w = (e, w)
  close_from e (closer ∷ closers) w =
      let (e', w') = closer w in close_from (keep_first e e') closers w'

  unfoldable pub close_list : List (W → Option Error × W) → W → Option Error × W
  close_list closers w = close_from none closers w

-- devZero's Read fills the buffer; its Write takes everything.
unfoldable pub dev_zero_read : List ℕ → List ℕ × Option Error
dev_zero_read [] = ([], none)
dev_zero_read (b ∷ buf) = let (rest, e) = dev_zero_read buf in (0 ∷ rest, e)

unfoldable pub dev_zero_write : List ℕ → ℕ × Option Error
dev_zero_write buf = (length buf, none)
