-- ===== src/Dedupdisk/Device.antt =====
-- dedupDisk of pkg/devices/dedupdisk/dedupdisk.go. The goroutines of a read, of Flush and of Close run
-- one after the other.
pub mod Dedup
pub mod Chunks
pub mod Healthy
pub mod Writing
pub mod Array
pub mod Reading
pub mod Requests
pub mod Contract
use usbd.Base.{
  Error, eof, unexpected_eof, shutdown, out_of_bounds, Go, ret, panic, is_nil, ℤ, pos, negsuc,
  pos_part, ltb_ℤ, add64, ℕ, zero, suc, ◌+◌, ◌/◌, Bool, true, Option, none, some, List, [], ◌∷◌,
  map, ltb, if◌then◌else◌, length, take, drop, copy_at,
}
use usbd.Base.Result.{Result, ok, err}
use usbd.Usbdlib.Device.{Device}
use usbd.Base.Exec.{Exec, pure, fail, gets, catch, modify, ◌>>=◌, ◌>>◌}
use usbd.Dedupdisk.Stores.{Stores, Lookup, found, absent}

pub record DedupDisk (S : Type 0) : Type 0 where
  pub stores : S
  pub block_size : ℕ
  pub size : ℤ
  pub down : Bool
  pub closed : Bool  -- closeOnce

-- The buffer, the count and the error.
abbrev pub Access : Type 0
Access = List ℕ × ℤ × Option Error

-- The bounds that ReadAt and WriteAt check, with the error for a range that ends past the end.
unfoldable pub refused : Error → ℤ → ℤ → ℕ → Option Error
refused past size (negsuc n) len = some out_of_bounds
refused past size (pos p) len = if ltb_ℤ size (add64 (pos p) (pos len)) then some past else none

module _ {S : Type 0} (st : Stores S) where
  abbrev pub M : Type 0 → Type 0
  M = Exec (DedupDisk S)

  abbrev pub lift : {A : Type 0} → Exec S A → M A
  lift m d = elim (m d.stores) [ ret (r, s) ↦ ret (r, record d { stores = s }) | panic ↦ panic ]

  -- A goroutine of ReadAt: a block is fetched into its part of the buffer.
  unfoldable pub fetch : ℕ → ℕ → List ℕ → M (List ℕ × Option Error)
  fetch id at buf = do
    size ← gets (λ d. d.block_size)
    catch (lift (st.get_block id size)) (λ bytes. pure (copy_at at bytes buf, none))
        (λ e. pure (buf, some e))

  -- getFirstError, of one error and the first of the later ones.
  abbrev pub first_of : Option Error → Option Error → Option Error
  first_of none later = later
  first_of (some e) later = some e

  unfoldable pub fetch_blocks : List ℕ → ℕ → List ℕ → M (List ℕ × Option Error)
  fetch_blocks [] at buf = pure (buf, none)
  fetch_blocks (id ∷ ids) at buf = do
    size ← gets (λ d. d.block_size)
    first ← fetch id at buf
    later ← fetch_blocks ids (at + size) first.0
    pure (later.0, first_of first.1 later.1)

  unfoldable pub read_many : ℕ → List ℕ → M Access
  read_many block buf = do
    size ← gets (λ d. d.block_size)
    ids ← lift (st.get_ids block (length buf / size))
    (got, e) ← fetch_blocks ids 0 buf
    pure (got, if is_nil e then pos (length buf) else pos 0, e)

  unfoldable pub read_single : ℕ → List ℕ → M Access
  read_single block buf = do
    id ← lift (st.get_id block)
    got ← lift (st.get_block id (length buf))
    pure (got, pos (length buf), none)

  unfoldable pub read_at : List ℕ → ℤ → M Access
  read_at buf position = do
    d ← gets (λ d. d)
    if d.down
        then pure (buf, negsuc 0, some shutdown)
        else elim (refused eof d.size position (length buf)) [
          | some e ↦ pure (buf, pos 0, some e)
          | none ↦
              catch
                (if ltb d.block_size (length buf)
                  then read_many (pos_part position / d.block_size) buf
                  else read_single (pos_part position / d.block_size) buf)
                pure (λ e. pure (buf, pos 0, some e))
        ]

  -- The ID of a block, which is added where it is new. An error of IDStore's PutID is ignored.
  unfoldable pub assign : List ℕ → Lookup → M ℕ
  assign buf (found id hash) = pure id
  assign buf (absent hash) = do
    id ← lift (st.put_block buf)
    catch (lift (st.put_hash hash id)) (λ _. pure id) (λ _. pure id)

  unfoldable pub id_of : List ℕ → M ℕ
  id_of buf = do answer ← lift (st.lookup buf); assign buf answer

  unfoldable pub write_single : ℕ → List ℕ → M Unit
  write_single block buf = do id ← id_of buf; lift (st.put_id block id)

  -- WriteAt of no more than a block.
  unfoldable pub write_block : List ℕ → ℤ → M (ℤ × Option Error)
  write_block buf position = do
    d ← gets (λ d. d)
    if d.down
        then pure (negsuc 0, some shutdown)
        else elim (refused unexpected_eof d.size position (length buf)) [
          | some e ↦ pure (pos 0, some e)
          | none ↦
              catch (write_single (pos_part position / d.block_size) buf)
                (λ _. pure (pos (length buf), none)) (λ e. pure (pos 0, some e))
        ]

  -- The loop of WriteAt, which goes on after an error, and getFirstError.
  unfoldable pub write_blocks : ℕ → List ℕ → ℤ → M (Option Error)
  write_blocks zero buf position = pure none
  write_blocks (suc n) buf position = do
    size ← gets (λ d. d.block_size)
    first ← write_block (take size buf) position
    later ← write_blocks n (drop size buf) (add64 position (pos size))
    pure (first_of first.1 later)

  unfoldable pub write_at : List ℕ → ℤ → M (ℤ × Option Error)
  write_at buf position = do
    d ← gets (λ d. d)
    if ltb d.block_size (length buf)
        then (if d.down
            then pure (negsuc 0, some shutdown)
            else elim (refused unexpected_eof d.size position (length buf)) [
              | some e ↦ pure (pos 0, some e)
              | none ↦ do
                e ← write_blocks (length buf / d.block_size) buf position
                pure (if is_nil e then pos (length buf) else pos 0, e)
            ])
        else write_block buf position

  -- Every one runs; the first error is returned.
  unfoldable pub all_of : List (Exec S Unit) → M Unit
  all_of [] = pure tt
  all_of (m ∷ ms) = catch (lift m) (λ _. all_of ms) (λ e. do all_of ms; fail e)

  abbrev both : List (Exec S Unit × Exec S Unit) → List (Exec S Unit)
  both [] = []
  both (r ∷ rs) = r.0 ∷ r.1 ∷ both rs

  unfoldable pub flush : M Unit
  flush = do
    down ← gets (λ d. d.down)
    if down then fail shutdown else all_of (map (λ r. r.0) st.resources)

  unfoldable pub close : M Unit
  close = do
    closed ← gets (λ d. d.closed)
    if closed
        then pure tt
        else (do modify (λ d. record d { closed = true; down = true }); all_of (both st.resources))

-- What a caller of the device gets: an error is a value, beside what the call has done.
module _ {S : Type 0} where
  abbrev pub accessed :
      List ℕ → Go (Result Access × DedupDisk S) → Go (DedupDisk S × List ℕ × ℤ × Option Error)
  accessed old (ret (ok (buf, n, e), d)) = ret (d, buf, n, e)
  accessed old (ret (err e, d)) = ret (d, old, pos 0, some e)
  accessed old panic = panic

  abbrev pub counted :
      Go (Result (ℤ × Option Error) × DedupDisk S) → Go (DedupDisk S × ℤ × Option Error)
  counted (ret (ok (n, e), d)) = ret (d, n, e)
  counted (ret (err e, d)) = ret (d, pos 0, some e)
  counted panic = panic

  abbrev pub ended : Go (Result (Unit {0}) × DedupDisk S) → Go (DedupDisk S × Option Error)
  ended (ret (ok u, d)) = ret (d, none)
  ended (ret (err e, d)) = ret (d, some e)
  ended panic = panic

  -- The block size is that of the embedded DefaultBlockSize.
  abbrev pub device : Stores S → ℕ → Device (DedupDisk S)
  device st block_size = record {
    block_size = block_size;
    size = λ d. d.size;
    read_at = λ d buf position. accessed buf (read_at st buf position d);
    write_at = λ d buf position. counted (write_at st buf position d);
    trim = λ d position count. ret (d, none);
    flush = λ d. ended (flush st d);
    close = λ d. ended (close st d);
  }
