-- ===== src/Objstore/SparseCopy.antt =====
-- sparseCopy of pkg/devices/objstore/storeparams.go, on a file that was just created. A failure of
-- the file or of the source ends the loop at once; what it leaves is not modelled, since a file
-- without an eTag is removed before its next use.
pub mod Content
use usbd.Base.{
  ℕ, ◌+◌, ◌-◌, List, [], ◌∷◌, ◌++◌, ltb, ◌==◌, if◌then◌else◌, length, replicate, file_write,
}

-- The file and its position, what `out` holds, the zeros not written yet, and the count.
pub record Copier : Type 0 where
  pub file : List ℕ
  pub offset : ℕ
  pub out : List ℕ
  pub pend_zeros : ℕ
  pub n : ℕ

abbrev pub start : Copier
start = record { file = []; offset = 0; out = []; pend_zeros = 0; n = 0 }

abbrev pub min_seq_sparse_zeros : ℕ
min_seq_sparse_zeros = 4096

-- `out.Flush()`, which writes nothing if nothing is held. A bufio.Writer also writes when it is
-- full, to the same place.
unfoldable pub flush_out : Copier → Copier
flush_out c = if length c.out == 0 then c else record c {
  file = file_write c.offset c.out c.file;
  offset = c.offset + length c.out;
  out = [];
}

-- The zeros before a byte that is not zero: skipped if there are many, written if there are few.
unfoldable pub settle : Copier → Copier
settle c =
    if ltb c.pend_zeros min_seq_sparse_zeros
    then record c {
      out = c.out ++ replicate c.pend_zeros 0;
      n = c.n + c.pend_zeros;
      pend_zeros = 0;
    }
    else (let f = flush_out c in
        record f { offset = f.offset + c.pend_zeros; n = c.n + c.pend_zeros; pend_zeros = 0 })

unfoldable pub copy_byte : ℕ → Copier → Copier
copy_byte cur c =
    if cur == 0
    then record c { pend_zeros = c.pend_zeros + 1 }
    else (let s = (if ltb 0 c.pend_zeros then settle c else c) in
        record s { out = s.out ++ (cur ∷ []); n = s.n + 1 })

-- The end of the source: `pendZeros >= 0` always holds, so a zero is written also where none is
-- pending.
unfoldable pub finish : Copier → Copier
finish c =
    let f = flush_out c in
    let skip = if ltb 0 (c.pend_zeros - 1) then c.pend_zeros - 1 else 0 in
    record f {
      file = file_write (f.offset + skip) (0 ∷ []) f.file;
      offset = f.offset + skip + 1;
      n = c.n + c.pend_zeros;
    }

pub copy_loop : List ℕ → Copier → Copier
copy_loop [] c = finish c
copy_loop (cur ∷ src) c = copy_loop src (copy_byte cur c)

-- The file, and the count that is returned.
unfoldable pub sparse_copy : List ℕ → List ℕ × ℕ
unfolding copy_loop
sparse_copy src = let c = copy_loop src start in (c.file, c.n)
