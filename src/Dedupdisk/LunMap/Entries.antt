-- ===== src/Dedupdisk/LunMap/Entries.antt =====
-- Entering and looking up IDs that the map has room for.
use usbd.Base.{
  ret, ℕ, zero, suc, ◌+◌, ◌-◌, ◌%◌, ◌^◌, ◌≤◌, ◌<◌, ◌≡◌, refl, ap, ap₂, ◌∙◌, some, List, [], ◌∷◌,
  arith, lt→ltb, le→ltb, length, get_elem?, set, take, drop,
}
use usbd.Base.Result.{ok}
use usbd.Dedupdisk.LunMap.{LunMap, get_id, get_ids, put_id}
use usbd.Dedupdisk.LunMap.Access.{get_elem?-some}

pub put_id_lem :
    (lm lm' : LunMap) (block id : ℕ)
    → put_id lm block id ≡ ret (ok lm')
    → (lm' ≡ record lm { ids = set lm.ids block id }) × (block < length lm.ids)
unfolding put_id
put_id_lem lm lm' block id e = (ground arith, ground arith)

pub put_id_inside :
    (lm : LunMap) (block id : ℕ)
    → block < length lm.ids
    → block ≤ lm.size
    → put_id lm block id ≡ ret (ok (record lm { ids = set lm.ids block id }))
unfolding put_id
put_id_inside lm block id inside small =
    rw (le→ltb lm.size block small, lt→ltb block (length lm.ids) inside) refl

pub lt_of_get_elem? : (xs : List ℕ) (i : ℕ) {x : ℕ} → get_elem? xs i ≡ some x → i < length xs
lt_of_get_elem? [] i e = absurd (cc)
lt_of_get_elem? (y ∷ xs) zero e = omega arith
lt_of_get_elem? (y ∷ xs) (suc i) e = omega (arith, lt_of_get_elem? xs i e)

pub get_id_inside :
    (lm : LunMap) (block id : ℕ) → get_elem? lm.ids block ≡ some id → get_id lm block ≡ ret (ok id)
unfolding get_id
get_id_inside lm block id e = let inside = lt_of_get_elem? lm.ids block e in ground arith

-- The elements from a place on are the list that has them.
take_elements :
    (xs ids : List ℕ)
    → ((i id : ℕ) → get_elem? ids i ≡ some id → get_elem? xs i ≡ some id)
    → take (length ids) xs ≡ ids
take_elements xs [] h = refl
take_elements [] (id ∷ ids) h = absurd (cc (h 0 id refl))
take_elements (x ∷ xs) (id ∷ ids) h =
    let same : some x ≡ some id = h 0 id refl in
    let first : x ≡ id = cc in
    ap₂ (λ y ys. y ∷ ys) first (take_elements xs ids (λ i j e. h (suc i) j e))

get_elem?-drop : (xs : List ℕ) (b i : ℕ) → get_elem? (drop b xs) i ≡ get_elem? xs (b + i)
get_elem?-drop xs zero i = ap (λ m. get_elem? xs m) (omega arith)
get_elem?-drop [] (suc b) i = refl
get_elem?-drop (x ∷ xs) (suc b) i =
    let e : suc b + i ≡ suc (b + i) = omega arith in rw e (get_elem?-drop xs b i)

last_inside :
    (xs ids : List ℕ) (b : ℕ)
    → 0 < length ids
    → ((i id : ℕ) → get_elem? ids i ≡ some id → get_elem? xs (b + i) ≡ some id)
    → b + length ids ≤ length xs
last_inside xs ids b some_ids h =
    let (id, last) = get_elem?-some ids (length ids - 1) (omega arith) in
    omega (arith, lt_of_get_elem? xs (b + (length ids - 1)) (h (length ids - 1) id last))

pub get_ids_inside :
    (lm : LunMap) (block : ℕ) (ids : List ℕ)
    → length lm.ids < 2 ^ 64
    → 0 < length ids
    → ((i id : ℕ) → get_elem? ids i ≡ some id → get_elem? lm.ids (block + i) ≡ some id)
    → get_ids lm block (length ids) ≡ ret (ok ids)
unfolding get_ids
get_ids_inside lm block ids small some_ids h =
    let inside = last_inside lm.ids ids block some_ids h in
    let whole : (block + length ids) % 2 ^ 64 ≡ block + length ids = omega arith in
    let count : block + length ids - block ≡ length ids = omega arith in
    rw
      (
        whole,
        le→ltb (length lm.ids) (block + length ids) inside,
        le→ltb (block + length ids) block (omega arith),
        count,
        take_elements (drop block lm.ids) ids (λ i id e. get_elem?-drop lm.ids block i ∙ h i id e),
      )
      refl
