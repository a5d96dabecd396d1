-- ===== src/Util/Strms/InOrder.antt =====
-- Reads through a readAtReader, one after the other.
use usbd.Base.{
  pos, add64_pos, ℕ, zero, suc, ◌+◌, ◌^◌, ◌≤◌, ◌<◌, ◌≡◌, refl, sym, ap, ◌∙◌, List, [], ◌∷◌, ◌++◌,
  arith, length, take, drop, length-take, length-drop, take-nil, drop-drop,
}
use usbd.Util.Strms.{ReaderAt, ReadAtReader, new_read_at_reader, read_next}

-- A reader of a file: ReadAt gives what the file has from the position on, whatever was read before.
pub record IsServed {W : Type 0} (rdr : ReaderAt W) (file : List ℕ) : Type 0 where
  pub small : length file < 2 ^ 63
  pub serves :
      (n off : ℕ) (w : W)
      → off ≤ length file
      → (rdr.read_at n (pos off) w).0.0 ≡ take n (drop off file)

abbrev pub total : List ℕ → ℕ
total [] = 0
total (n ∷ ns) = n + total ns

module _ {W : Type 0} where
  -- What reads into buffers of these sizes give, all together.
  abbrev pub read_each : ReadAtReader W → List ℕ → W → List ℕ
  read_each rar [] w = []
  read_each rar (n ∷ ns) w =
      let (got, (rar', w')) = read_next rar n w in got.0 ++ read_each rar' ns w'

take_then :
    (n m : ℕ) (xs : List ℕ) → take n xs ++ take m (drop (length (take n xs)) xs) ≡ take (n + m) xs
take_then zero m xs = ap (λ k. take k xs) (omega arith)
take_then (suc n) m [] = rw (take-nil m, take-nil (suc n + m)) refl
take_then (suc n) m (x ∷ xs) =
    let e : suc n + m ≡ suc (n + m) = omega arith in rw e (ap (λ t. x ∷ t) (take_then n m xs))

module _ {W : Type 0} (rdr : ReaderAt W) (file : List ℕ) (served : IsServed rdr file) where
  got_at : ℕ → ℕ → W → List ℕ
  got_at n off w = (rdr.read_at n (pos off) w).0.0

  got_at-within :
      (n off : ℕ) (w : W) → off ≤ length file → off + length (got_at n off w) ≤ length file
  unfolding got_at
  got_at-within n off w within =
      let counted = ap length (served.serves n off w within) ∙ length-take n (drop off file) in
      omega (arith, counted, length-drop off file)

  read_each-from :
      (off : ℕ) (ns : List ℕ) (w : W)
      → off ≤ length file
      → read_each (record { cur = pos off; reader_at = rdr }) ns w ≡ take (total ns) (drop off file)
  unfolding read_next got_at
  read_each-from off [] w within = refl
  read_each-from off (n ∷ ns) w within =
      let got = got_at n off w in
      let w' = (rdr.read_at n (pos off) w).1 in
      let room = got_at-within n off w within in
      let m = total ns in
      ap (λ z. got ++ read_each (record { cur = z; reader_at = rdr }) ns w')
        (add64_pos off (length got) (omega (arith, room, served.small)))
      ∙ ap (λ l. got ++ l) (read_each-from (off + length got) ns w' room)
      ∙ ap (λ l. got ++ take m l) (sym (drop-drop (length got) off file))
      ∙ ap (λ g. g ++ take m (drop (length g) (drop off file))) (served.serves n off w within)
      ∙ take_then n m (drop off file)

  -- Reads through a new readAtReader give the bytes of the file in order from its beginning, and no
  -- byte twice, whatever their sizes, until the file is at its end.
  pub reads_in_order :
      (ns : List ℕ) (w : W) → read_each (new_read_at_reader rdr) ns w ≡ take (total ns) file
  unfolding new_read_at_reader
  reads_in_order ns w = read_each-from 0 ns w (omega arith)
