-- ===== src/Examples/DedupStores.antt =====
-- The stores of pkg/devices/dedupdisk/impls at concrete inputs.
use usbd.Base.{panic, ◌≤◌, ◌≡◌, refl, ◌↔◌, none, [], ◌∷◌, arith, length}
use usbd.Base.Result.{ok}
use usbd.Dedupdisk.FileStore.{FileStore, new_file_block_store, get_block, put_block}
use usbd.Dedupdisk.FileStore.Blocks.{reopened_overwrites}
use usbd.Dedupdisk.LunMap.{LunMap, get_id, put_id}
use usbd.Dedupdisk.LunMap.Access.{get_id_panics_iff, put_id_panics_iff}

abbrev reopened : FileStore
reopened = new_file_block_store (1 ∷ 2 ∷ 3 ∷ 4 ∷ []) 2

reopened_overwrites_example :
    ((put_block none reopened (7 ∷ 8 ∷ [])).0 ≡ ok 2)
    × (get_block reopened 0 (0 ∷ 0 ∷ []) ≡ (1 ∷ 2 ∷ [], none))
    × (get_block (put_block none reopened (7 ∷ 8 ∷ [])).1 0 (0 ∷ 0 ∷ []) ≡ (7 ∷ 8 ∷ [], none))
reopened_overwrites_example =
    reopened_overwrites (1 ∷ 2 ∷ 3 ∷ 4 ∷ []) (7 ∷ 8 ∷ []) (0 ∷ 0 ∷ []) refl (omega arith)
      (omega arith)

abbrev two_ids : LunMap
two_ids = record { ids = 5 ∷ 6 ∷ []; size = 8192 }

get_id_panics_iff_example : (get_id two_ids 2 ≡ panic) ↔ (2 ≡ length two_ids.ids)
get_id_panics_iff_example = get_id_panics_iff two_ids 2

put_id_panics_iff_example :
    (put_id two_ids 3 9 ≡ panic) ↔ ((length two_ids.ids ≤ 3) × (3 ≤ two_ids.size))
put_id_panics_iff_example = put_id_panics_iff two_ids 3 9
