-- ===== src/Examples/Streams.antt =====
-- Reads through an adapter of pkg/util/strms at a concrete input.
use usbd.Base.{
  Error, invalid, ℤ, pos, negsuc, ℕ, suc, ◌≡◌, refl, Option, none, some, List, [], ◌∷◌, arith, take,
  drop,
}
use usbd.Util.Strms.{ReaderAt, new_read_at_reader}
use usbd.Util.Strms.InOrder.{IsServed, read_each, reads_in_order}

abbrev four_bytes : List ℕ
four_bytes = 1 ∷ 2 ∷ 3 ∷ 4 ∷ []

-- The state counts the reads.
abbrev file_at : ℕ → ℤ → ℕ → (List ℕ × Option Error) × ℕ
file_at n (pos off) w = ((take n (drop off four_bytes), none), suc w)
file_at n (negsuc off) w = (([], some invalid), suc w)

abbrev file_reader : ReaderAt ℕ
file_reader = record { read_at = file_at }

file_reader-IsServed : IsServed file_reader four_bytes
file_reader-IsServed = record { small = omega arith; serves = λ n off w within. refl }

reads_in_order_example :
    read_each (new_read_at_reader file_reader) (1 ∷ 2 ∷ 5 ∷ []) 0 ≡ take 8 four_bytes
reads_in_order_example =
    reads_in_order file_reader four_bytes file_reader-IsServed (1 ∷ 2 ∷ 5 ∷ []) 0
