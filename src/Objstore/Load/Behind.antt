-- ===== src/Objstore/Load/Behind.antt =====
-- An object numbered like the segment behind the last one.
use usbd.Base.{
  Error, panic, ℕ, zero, suc, ◌+◌, ◌*◌, ◌^◌, ◌≤◌, ◌<◌, ◌≡◌, refl, ap, ◌∙◌, Bool, true, false,
  Option, none, List, [], ◌∷◌, arith, ◌==◌, length, get_elem?,
}
use usbd.Base.Result.{Result, ok}
use usbd.Base.Exec.{Exec, catch, fail}
use usbd.Objstore.Load.{
  block_prefix, item_name, blank_segments, set_remote, load_item, load_items, loaded, load_segments,
}
use usbd.Objstore.Load.Named.{load_item-item_name}
use usbd.Objstore.Load.Restored.{length-blank, load_listed-all, load_segments-listed}

step-panics :
    {S A B : Type 0} (m : Exec S A) (f : A → Exec S B) (g : Error → Exec S B) (s : S)
    → m s ≡ panic
    → catch m f g s ≡ panic
step-panics m f g s e = rw (e, catch) refl

get_elem?-behind : {A : Type 0} (xs : List A) (i : ℕ) → length xs ≤ i → get_elem? xs i ≡ none
get_elem?-behind [] i h = refl
get_elem?-behind (x ∷ xs) zero h = absurd (omega arith)
get_elem?-behind (x ∷ xs) (suc i) h = get_elem?-behind xs i (omega arith)

module _ {Item : Type 0} where
  -- One object that is numbered like the segment behind the last one passes the check of its number,
  -- and indexes the segments out of range: loading panics.
  pub object_behind_panics :
      (files : ℕ → Option (List ℕ) × Option (List ℕ))
      (list_items : List ℕ → ℕ → Result (List (List ℕ × Item) × Bool)) (name : List ℕ) (item : Item)
      (count segment_bytes : ℕ)
      → 0 < segment_bytes
      → 0 < count
      → count < 2 ^ 63
      → list_items (block_prefix name) (count + 1) ≡ ok ((item_name name count, item) ∷ [], true)
      → load_segments files list_items name (count * segment_bytes) segment_bytes ≡ panic
  unfolding load_items set_remote
  object_behind_panics files list_items name item count segment_bytes some_bytes some_segments small
        e =
      let blank = blank_segments {Item = Item} files 0 count in
      let not_zero : (segment_bytes == 0) ≡ false = ground arith in
      let behind : get_elem? blank count ≡ none =
        get_elem?-behind blank count (omega (arith, length-blank Item files count 0)) in
      let crashes : load_item count (block_prefix name) (item_name name count, item) blank ≡ panic =
        load_item-item_name count name count item blank (omega arith) small ∙ rw behind refl in
      load_segments-listed files list_items name count segment_bytes _ some_bytes not_zero e
      ∙ load_listed-all files name count ((item_name name count, item) ∷ []) (ground arith)
      ∙ ap loaded (
          step-panics (load_item count (block_prefix name) (item_name name count, item))
            (λ u. load_items count (block_prefix name) []) fail blank crashes)
