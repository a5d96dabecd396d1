-- ===== src/Examples/Load.antt =====
-- loadSegments of pkg/devices/objstore/segment.go on three segments of four bytes.
use usbd.Base.{
  ret, panic, ℕ, ◌*◌, ◌≡◌, refl, Bool, true, Option, none, some, List, [], ◌∷◌, arith, ◌==◌,
  if◌then◌else◌, length,
}
use usbd.Base.Result.{Result, ok}
use usbd.Util.Numerals.{codes}
use usbd.Objstore.Env.{Segment}
use usbd.Objstore.Load.{item_name, load_segments}
use usbd.Objstore.Load.Restored.{held, listed, AllInside, HasItems, load_segments-restores}
use usbd.Objstore.Load.Behind.{object_behind_panics}

-- Nothing is in the cache.
abbrev files : ℕ → Option (List ℕ) × Option (List ℕ)
files i = (none, none)

abbrev stored : List (ℕ × ℕ)
stored = (2, 20) ∷ (0, 10) ∷ []

abbrev list_stored : List ℕ → ℕ → Result (List (List ℕ × ℕ) × Bool)
list_stored prefix n = ok (listed (codes "disk") stored, true)

stored-AllInside : AllInside 3 stored
unfolding AllInside
stored-AllInside = (omega arith, (omega arith, tt))

abbrev remote : ℕ → Option ℕ
remote i = if i == 0 then some 10 else (if i == 2 then some 20 else none)

load_segments-restores_example :
    (segs : List (Segment ℕ)) × (load_segments files list_stored (codes "disk") (3 * 4) 4
      ≡ ret (ok segs))
    × (length segs ≡ 3)
    × HasItems files 3 remote segs
unfolding held
load_segments-restores_example =
    load_segments-restores files list_stored (codes "disk") stored 3 4 (omega arith) (omega arith)
      stored-AllInside (omega arith) refl

abbrev list_behind : List ℕ → ℕ → Result (List (List ℕ × ℕ) × Bool)
list_behind prefix n = ok ((item_name (codes "disk") 3, 30) ∷ [], true)

object_behind_panics_example : load_segments files list_behind (codes "disk") (3 * 4) 4 ≡ panic
object_behind_panics_example =
    object_behind_panics files list_behind (codes "disk") 30 3 4 (omega arith) (omega arith)
      (omega arith) refl
