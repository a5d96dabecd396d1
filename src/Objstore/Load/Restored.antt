-- ===== src/Objstore/Load/Restored.antt =====
-- The segments of a device that is opened on the objects that were put for its segments.
use native.Mathlib.Nat.{mul-div_cancel}
use usbd.Base.{
  ret, ℕ, zero, suc, ◌+◌, ◌*◌, ◌^◌, ◌≤◌, ◌<◌, ◌≡◌, refl, sym, ap, ◌∙◌, ◌≢◌, inl, inr, Bool, true,
  false, Option, none, some, List, [], ◌∷◌, arith, ltb, ◌==◌, if◌then◌else◌, le→ltb, ==→eq,
  Bool-cases, length, get_elem?, set, length-set, get_elem?-set_self, get_elem?-set_ne,
}
use usbd.Base.Result.{Result, ok}
use usbd.Base.Exec.{catch-ok, fail}
use usbd.Objstore.Env.{Segment}
use usbd.Objstore.Load.{
  block_prefix, item_name, blank_segment, blank_segments, set_remote, load_item, load_items,
  load_listed, loaded, load_segments,
}
use usbd.Objstore.Load.Named.{load_item-item_name}

pub length-blank :
    (Item : Type 0) (files : ℕ → Option (List ℕ) × Option (List ℕ)) (n at : ℕ)
    → length (blank_segments {Item = Item} files at n) ≡ n
unfolding blank_segments
length-blank Item files zero at = refl
length-blank Item files (suc n) at = ap suc (length-blank Item files n (suc at))

module _ {Item : Type 0} where
  -- The last item for each segment, or what there was.
  unfoldable pub held : List (ℕ × Item) → (ℕ → Option Item) → ℕ → Option Item
  held [] before = before
  held ((id, item) ∷ stored) before = held stored (λ i. if i == id then some item else before i)

  -- The items of the objects as the container lists them.
  abbrev pub listed : List ℕ → List (ℕ × Item) → List (List ℕ × Item)
  listed name [] = []
  listed name ((id, item) ∷ stored) = (item_name name id, item) ∷ listed name stored

  length-listed :
      (name : List ℕ) (stored : List (ℕ × Item)) → length (listed name stored) ≡ length stored
  length-listed name [] = refl
  length-listed name ((id, item) ∷ stored) = ap suc (length-listed name stored)

  pub load_listed-all :
      (files : ℕ → Option (List ℕ) × Option (List ℕ)) (name : List ℕ) (count : ℕ)
      (items : List (List ℕ × Item))
      → ltb count (length items) ≡ false
      → load_listed files name count (ok (items, true))
        ≡ loaded (load_items count (block_prefix name) items (blank_segments files 0 count))
  load_listed-all files name count items few = rw few refl

  pub load_segments-listed :
      (files : ℕ → Option (List ℕ) × Option (List ℕ))
      (list_items : List ℕ → ℕ → Result (List (List ℕ × Item) × Bool)) (name : List ℕ)
      (count segment_bytes : ℕ) (listing : Result (List (List ℕ × Item) × Bool))
      → 0 < segment_bytes
      → (segment_bytes == 0) ≡ false
      → list_items (block_prefix name) (count + 1) ≡ listing
      → load_segments files list_items name (count * segment_bytes) segment_bytes
        ≡ load_listed files name count listing
  unfolding load_segments
  load_segments-listed files list_items name count segment_bytes listing some_bytes not_zero e =
      rw not_zero (
        ap (λ c. load_listed files name c (list_items (block_prefix name) (c + 1)))
          (mul-div_cancel count some_bytes)
        ∙ ap (load_listed files name count) e)

  unfoldable pub AllInside : ℕ → List (ℕ × Item) → Type 0
  AllInside count [] = Unit {0}
  AllInside count ((id, item) ∷ stored) = (id < count) × AllInside count stored

  module _ (files : ℕ → Option (List ℕ) × Option (List ℕ)) (count : ℕ) where
    -- The segment `i` has the item of `remote`, and is blank but for it.
    abbrev pub HasItems : (ℕ → Option Item) → List (Segment Item) → Type 0
    HasItems remote segs =
        (i : ℕ)
        → i < count
        → get_elem? segs i ≡ some (record (blank_segment files i) { remote_item = remote i })

    get_elem?-blank :
        (n at i : ℕ)
        → i < n
        → get_elem? (blank_segments {Item = Item} files at n) i
          ≡ some (blank_segment files (at + i))
    unfolding blank_segments
    get_elem?-blank zero at i h = absurd (omega arith)
    get_elem?-blank (suc n) at zero h = ap (λ m. some (blank_segment files m)) (omega arith)
    get_elem?-blank (suc n) at (suc i) h =
        get_elem?-blank n (suc at) i (omega arith)
        ∙ ap (λ m. some (blank_segment files m)) (omega arith)

    module _ (remote : ℕ → Option Item) (segs : List (Segment Item)) (id : ℕ) (item : Item)
        (inside : id < count) (sized : length segs ≡ count) (has : HasItems remote segs) where
      abbrev put_seg : ℕ → Segment Item
      put_seg j = record (blank_segment files j) { remote_item = some item }

      abbrev with_item : ℕ → Option Item → Option (Segment Item)
      with_item j r = some (record (blank_segment files j) { remote_item = r })

      abbrev put_segs : List (Segment Item)
      put_segs = set segs id (record (blank_segment files id) { remote_item = some item })

      set_remote_lem : set_remote id item segs ≡ ret (ok tt, put_segs)
      unfolding set_remote
      set_remote_lem = rw (has id inside) refl

      put_segs-HasItems : HasItems (λ i. if i == id then some item else remote i) put_segs
      put_segs-HasItems i h = elim (Bool-cases (i == id)) [
        | inl e ↦
            let same = ==→eq i id e in
            let picked : (if i == id then some item else remote i) ≡ some item = rw e refl in
            ap (get_elem? put_segs) same
            ∙ get_elem?-set_self segs id (put_seg id) (omega (arith, sized, inside))
            ∙ ap (λ j. some (put_seg j)) (sym same)
            ∙ ap (with_item i) (sym picked)
        | inr e ↦
            let picked : (if i == id then some item else remote i) ≡ remote i = rw e refl in
            let ne : id ≢ i = λ same. absurd (ground (arith, e, same)) in
            get_elem?-set_ne segs id i (put_seg id) ne ∙ has i h ∙ ap (with_item i) (sym picked)
      ]

    load_items-listed :
        (name : List ℕ) (stored : List (ℕ × Item)) (remote : ℕ → Option Item)
        (segs : List (Segment Item))
        → count < 2 ^ 63
        → AllInside count stored
        → length segs ≡ count
        → HasItems remote segs
        → (segs' : List (Segment Item)) × (load_items count
              (block_prefix name)
              (listed name stored)
              segs
            ≡ ret (ok tt, segs'))
          × (length segs' ≡ count)
          × HasItems (held stored remote) segs'
    unfolding load_items held AllInside
    load_items-listed name [] remote segs small all sized has = (segs, refl, sized, has)
    load_items-listed name ((id, item) ∷ stored) remote segs small (inside, all) sized has =
        let next = put_segs remote segs id item inside sized has in
        let (segs', e, sized', has') =
          load_items-listed name stored (λ i. if i == id then some item else remote i) next small
            all
            (length-set segs id (record (blank_segment files id) { remote_item = some item })
              ∙ sized)
            (put_segs-HasItems remote segs id item inside sized has) in
        (
          segs',
          catch-ok (load_item count (block_prefix name) (item_name name id, item)) _ fail segs next
                tt
                (load_item-item_name count name id item segs (omega arith) small
                  ∙ set_remote_lem remote segs id item inside sized has)
              ∙ e,
          sized',
          has',
        )

  -- A device whose container lists, to the end, an object for each of some segments under the name that
  -- the segment is put under, and no more objects than segments, is loaded with as many segments as
  -- its bytes hold: each has the last object of its number for its remote item, or none, its local
  -- files are those of the cache, and it is clean, closed and not backed.
  pub load_segments-restores :
      (files : ℕ → Option (List ℕ) × Option (List ℕ))
      (list_items : List ℕ → ℕ → Result (List (List ℕ × Item) × Bool)) (name : List ℕ)
      (stored : List (ℕ × Item)) (count segment_bytes : ℕ)
      → 0 < segment_bytes
      → count < 2 ^ 63
      → AllInside count stored
      → length stored ≤ count
      → list_items (block_prefix name) (count + 1) ≡ ok (listed name stored, true)
      → (segs : List (Segment Item)) × (load_segments files list_items name
            (count * segment_bytes)
            segment_bytes
          ≡ ret (ok segs))
        × (length segs ≡ count)
        × HasItems files count (held stored (λ i. none)) segs
  load_segments-restores files list_items name stored count segment_bytes some_bytes small all few
        e =
      let blank = blank_segments files 0 count in
      let (segs, run, sized, has) =
        load_items-listed files count name stored (λ i. none) blank small all
          (length-blank Item files count 0)
          (λ i h.
            get_elem?-blank files count count 0 i h
            ∙ ap (λ m. some (blank_segment files m)) (omega arith)) in
      let not_zero : (segment_bytes == 0) ≡ false = ground arith in
      let not_more : ltb count (length (listed name stored)) ≡ false =
        le→ltb count (length (listed name stored))
          (omega (arith, few, length-listed name stored)) in
      (
        segs,
        load_segments-listed files list_items name count segment_bytes _ some_bytes not_zero e
            ∙ load_listed-all files name count (listed name stored) not_more
            ∙ ap loaded run,
        sized,
        has,
      )
