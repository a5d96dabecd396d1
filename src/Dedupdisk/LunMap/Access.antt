-- ===== src/Dedupdisk/LunMap/Access.antt =====
-- The bounds of the LUN map, and what it gives back.
use usbd.Base.{
  ret, panic, ℕ, zero, suc, ◌≤◌, ◌<◌, ◌≡◌, refl, sym, ◌≢◌, ◌↔◌, none, some, List, [], ◌∷◌, arith,
  length, get_elem?, length-set, get_elem?-set_self, get_elem?-set_ne,
}
use usbd.Base.Result.{ok}
use usbd.Dedupdisk.LunMap.{LunMap, get_id, put_id}

get_elem?-none : (xs : List ℕ) (i : ℕ) → length xs ≤ i → get_elem? xs i ≡ none
get_elem?-none [] i h = refl
get_elem?-none (x ∷ xs) zero h = absurd (omega arith)
get_elem?-none (x ∷ xs) (suc i) h = get_elem?-none xs i (omega arith)

pub get_elem?-some : (xs : List ℕ) (i : ℕ) → i < length xs → (x : ℕ) × (get_elem? xs i ≡ some x)
get_elem?-some [] i h = absurd (omega arith)
get_elem?-some (x ∷ xs) zero h = (x, refl)
get_elem?-some (x ∷ xs) (suc i) h = get_elem?-some xs i (omega arith)

-- The lookup of a block panics for exactly one block, the one behind the last.
pub get_id_panics_iff :
    (lm : LunMap) (block : ℕ) → (get_id lm block ≡ panic) ↔ (block ≡ length lm.ids)
unfolding get_id
get_id_panics_iff lm block = (
  λ h. ground (arith, get_elem?-some lm.ids block),
  λ h. ground (arith, get_elem?-none lm.ids block),
)

-- Entering an ID panics for the blocks behind the last one whose number is not above the size in bytes.
pub put_id_panics_iff :
    (lm : LunMap) (block id : ℕ)
    → (put_id lm block id ≡ panic) ↔ ((length lm.ids ≤ block) × (block ≤ lm.size))
unfolding put_id
put_id_panics_iff lm block id = (λ h. ground arith, λ h. ground arith)

-- An ID that was entered is looked up, and the other blocks keep theirs.
put_id-get_id :
    (lm lm' : LunMap) (block id : ℕ)
    → put_id lm block id ≡ ret (ok lm')
    → (get_id lm' block ≡ ret (ok id))
      × ((other : ℕ) → other ≢ block → get_id lm' other ≡ get_id lm other)
unfolding put_id get_id
put_id-get_id lm lm' block id h = (
  ground (arith, get_elem?-set_self lm.ids block id, length-set lm.ids block id),
  λ other ne.
      ground (
        arith,
        get_elem?-set_ne lm.ids block other id (λ e. ne (sym e)),
        length-set lm.ids block id,
      ),
)
