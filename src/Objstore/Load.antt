-- ===== src/Objstore/Load.antt =====
-- loadSegments of pkg/devices/objstore/segment.go: the segments of a device, from the objects in its
-- container.
pub mod Named
pub mod Restored
pub mod Behind
use usbd.Base.{
  out_of_bounds, invalid, Go, ret, panic, ℤ, pos, pos_part, ltb_ℤ, ℕ, zero, suc, ◌+◌, ◌-◌, ◌/◌,
  Bool, false, not, ◌&&◌, ◌||◌, Option, none, some, List, [], ◌∷◌, ◌++◌, ltb, ◌==◌, if◌then◌else◌,
  length, get_elem?, set, take, drop,
}
use usbd.Base.Result.{Result, ok, err}
use usbd.Base.Exec.{Exec, pure, fail, crash, gets, modify, ◌>>=◌, ◌>>◌}
use usbd.Util.Numerals.{codes, text_equal, format_int, parse_int}
use usbd.Objstore.Env.{Segment}

-- osbdPrefix + devicePrefix + container.Name() + blockPrefix
abbrev pub block_prefix : List ℕ → List ℕ
block_prefix name = codes "osbd" ++ (codes "-dev_" ++ (name ++ codes "-blk_"))

-- The name that syncFile puts a segment under.
abbrev pub item_name : List ℕ → ℕ → List ℕ
item_name name id = block_prefix name ++ format_int 10 (pos id)

-- strings.TrimPrefix
unfoldable pub trim_prefix : List ℕ → List ℕ → List ℕ
trim_prefix prefix text =
    if text_equal (take (length prefix) text) prefix then drop (length prefix) text else text

abbrev pub has_slash : List ℕ → Bool
has_slash [] = false
has_slash (c ∷ text) = c == b'/' || has_slash text

-- filepath.Ext: from the last dot behind the last slash on.
unfoldable pub ext : List ℕ → List ℕ
ext [] = []
ext (c ∷ text) = elim (ext text) [
  | [] ↦ if c == b'.' && not (has_slash text) then c ∷ text else []
  | x ∷ xs ↦ x ∷ xs
]

-- strings.TrimSuffix of the extension.
abbrev pub trim_ext : List ℕ → List ℕ
trim_ext text = take (length text - length (ext text)) text

module _ {Item : Type 0} where
  -- A segment that nothing was loaded for: its local files may be there.
  abbrev pub blank_segment : (ℕ → Option (List ℕ) × Option (List ℕ)) → ℕ → Segment Item
  blank_segment files i = record {
    id = i;
    opened = false;
    disk = (files i).0;
    tag = (files i).1;
    remote_item = none;
    dirty = false;
    backed = false;
    last_read = 0;
    last_write = 0;
  }

  unfoldable pub blank_segments :
      (ℕ → Option (List ℕ) × Option (List ℕ)) → ℕ → ℕ → List (Segment Item)
  blank_segments files i zero = []
  blank_segments files i (suc n) = blank_segment files i ∷ blank_segments files (suc i) n

  -- `segments[segID].remoteItem = item`
  unfoldable pub set_remote : ℕ → Item → Exec (List (Segment Item)) Unit
  set_remote id item = do
    seg ← gets (λ segs. get_elem? segs id)
    elim seg [
      | none ↦ crash
      | some s ↦ modify (λ segs. set segs id (record s { remote_item = some item }))
    ]

  -- The check of the parsed ID.
  abbrev pub load_at : ℕ → Item → Option ℤ → Exec (List (Segment Item)) Unit
  load_at count item none = fail invalid
  load_at count item (some id) =
      if ltb_ℤ id (pos 0) || ltb_ℤ (pos count) id
      then fail out_of_bounds
      else set_remote (pos_part id) item

  -- The body of the loop over the items.
  unfoldable pub load_item : ℕ → List ℕ → List ℕ × Item → Exec (List (Segment Item)) Unit
  load_item count prefix (name, item) =
      load_at count item (parse_int 10 (trim_ext (trim_prefix prefix name)))

  unfoldable pub load_items : ℕ → List ℕ → List (List ℕ × Item) → Exec (List (Segment Item)) Unit
  load_items count prefix [] = pure tt
  load_items count prefix (item ∷ items) = do
    load_item count prefix item
    load_items count prefix items

  -- What is left of the loop's segments.
  abbrev pub loaded :
      Go (Result (Unit {0}) × List (Segment Item)) → Go (Result (List (Segment Item)))
  loaded (ret (ok u, segs)) = ret (ok segs)
  loaded (ret (err e, segs)) = ret (err e)
  loaded panic = panic

  -- On what the container lists: items, and whether the cursor is at the end.
  abbrev pub load_listed :
      (ℕ → Option (List ℕ) × Option (List ℕ))
      → List ℕ
      → ℕ
      → Result (List (List ℕ × Item) × Bool)
      → Go (Result (List (Segment Item)))
  load_listed files name count (err e) = ret (err e)
  load_listed files name count (ok (items, at_end)) =
      if ltb count (length items) || not at_end
      then ret (err invalid)
      else loaded (load_items count (block_prefix name) items (blank_segments files 0 count))

  -- `list_items prefix n` is container.Items from the start, for at most `n` items. `files` is what the
  -- cache directory has for a segment.
  unfoldable pub load_segments :
      (ℕ → Option (List ℕ) × Option (List ℕ))
      → (List ℕ → ℕ → Result (List (List ℕ × Item) × Bool))
      → List ℕ
      → ℕ
      → ℕ
      → Go (Result (List (Segment Item)))
  load_segments files list_items name total_bytes segment_bytes =
      if segment_bytes == 0
      then panic
      else (let count = total_bytes / segment_bytes in
          load_listed files name count (list_items (block_prefix name) (count + 1)))
