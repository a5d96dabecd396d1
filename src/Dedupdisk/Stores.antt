-- ===== src/Dedupdisk/Stores.antt =====
-- The interfaces of pkg/devices/dedupdisk/interfaces.go, over the state `S` of the three stores.
use usbd.Base.{Error, ret, ℕ, suc, ◌+◌, ◌<◌, ◌≡◌, ◌≢◌, some, List, length, get_elem?}
use usbd.Base.Exec.{Exec}
use usbd.Base.Result.{Result, ok, err}

-- What GetID of an IDStore answers: the block's ID and hash, or the hash of a block that has no ID,
-- with GetErrNotPresent.
pub data Lookup : Type 0 where
  found : ℕ → List ℕ → Lookup
  absent : List ℕ → Lookup

pub record Stores (S : Type 0) : Type 0 where
  -- LUNMap
  pub get_id : ℕ → Exec S ℕ
  pub get_ids : ℕ → ℕ → Exec S (List ℕ)  -- the start and the number of the IDs
  pub put_id : ℕ → ℕ → Exec S Unit
  -- IDStore
  pub lookup : List ℕ → Exec S Lookup
  pub put_hash : List ℕ → ℕ → Exec S Unit
  -- BlockStore, with the length of GetBlock's buffer in place of the buffer
  pub get_block : ℕ → ℕ → Exec S (List ℕ)
  pub put_block : List ℕ → Exec S ℕ
  -- Flush and Close of each of the three
  pub resources : List (Exec S Unit × Exec S Unit)

-- What the device relies on. `Good n s`: the stores are in order, with room for `n` more blocks.
-- `Maps s b id`: the LUN map has `id` for block `b`. `Holds s id bytes`: the block store has `bytes`
-- under `id`. `Hashes hash buf`: it is the hash of the block. `Block buf`: it is one of the blocks that
-- are written, on which the contract is kept.
module _ {S : Type 0} (Maps : S → ℕ → ℕ → Type 0) (Holds : S → ℕ → List ℕ → Type 0) where
  -- What is stored stays stored, and what is mapped stays mapped.
  pub record Keeps (s s' : S) : Type 0 where
    pub maps : (b id : ℕ) → Maps s b id → Maps s' b id
    pub holds : (id : ℕ) (bytes : List ℕ) → Holds s id bytes → Holds s' id bytes

  -- But for one block.
  pub record KeepsOthers (block : ℕ) (s s' : S) : Type 0 where
    pub maps : (b id : ℕ) → b ≢ block → Maps s b id → Maps s' b id
    pub holds : (id : ℕ) (bytes : List ℕ) → Holds s id bytes → Holds s' id bytes

  pub record IsStores (st : Stores S) (Good : ℕ → S → Type 0) (Hashes : List ℕ → List ℕ → Type 0)
      (Block : List ℕ → Type 0) : Type 0 where
    pub lookup_keeps :
        (n : ℕ) (buf : List ℕ) (r : Result Lookup) (s s' : S)
        → Good n s
        → st.lookup buf s ≡ ret (r, s')
        → Good n s' × Keeps s s'
    pub lookup_found :
        (n : ℕ) (buf : List ℕ) (id : ℕ) (hash : List ℕ) (s s' : S)
        → Good n s
        → Block buf
        → st.lookup buf s ≡ ret (ok (found id hash), s')
        → Holds s' id buf
    pub lookup_absent :
        (buf hash : List ℕ) (s s' : S)
        → st.lookup buf s ≡ ret (ok (absent hash), s')
        → Hashes hash buf
    pub put_block_keeps :
        (n : ℕ) (buf : List ℕ) (r : Result ℕ) (s s' : S)
        → Good (suc n) s
        → Block buf
        → st.put_block buf s ≡ ret (r, s')
        → Good n s' × Keeps s s'
    pub put_block_holds :
        (n : ℕ) (buf : List ℕ) (id : ℕ) (s s' : S)
        → Good (suc n) s
        → Block buf
        → st.put_block buf s ≡ ret (ok id, s')
        → Holds s' id buf
    pub put_hash_keeps :
        (n : ℕ) (hash buf : List ℕ) (id : ℕ) (r : Result Unit) (s s' : S)
        → Good n s
        → Hashes hash buf
        → Block buf
        → Holds s id buf
        → st.put_hash hash id s ≡ ret (r, s')
        → Good n s' × Keeps s s'
    pub put_id_keeps :
        (n block id : ℕ) (r : Result Unit) (s s' : S)
        → Good n s
        → st.put_id block id s ≡ ret (r, s')
        → Good n s' × KeepsOthers block s s'
    pub put_id_maps :
        (block id : ℕ) (s s' : S) → st.put_id block id s ≡ ret (ok tt, s') → Maps s' block id
    pub put_id_refused :
        (block id : ℕ) (e : Error) (s s' : S) → st.put_id block id s ≡ ret (err e, s') → s' ≡ s
    pub get_id_reads : (block id : ℕ) (s : S) → Maps s block id → st.get_id block s ≡ ret (ok id, s)
    pub get_ids_reads :
        (n block : ℕ) (ids : List ℕ) (s : S)
        → Good n s
        → 0 < length ids
        → ((i id : ℕ) → get_elem? ids i ≡ some id → Maps s (block + i) id)
        → st.get_ids block (length ids) s ≡ ret (ok ids, s)
    pub get_block_reads :
        (n id : ℕ) (bytes : List ℕ) (s : S)
        → Good n s
        → Holds s id bytes
        → st.get_block id (length bytes) s ≡ ret (ok bytes, s)
    pub room_less : (n : ℕ) (s : S) → Good (suc n) s → Good n s

module _ {S : Type 0} {Maps : S → ℕ → ℕ → Type 0} {Holds : S → ℕ → List ℕ → Type 0} where
  pub Keeps-refl : (s : S) → Keeps Maps Holds s s
  Keeps-refl s = record { maps = λ b id m. m; holds = λ id bytes h. h }

  pub Keeps-trans : (s t u : S) → Keeps Maps Holds s t → Keeps Maps Holds t u → Keeps Maps Holds s u
  Keeps-trans s t u k l = record {
    maps = λ b id m. l.maps b id (k.maps b id m);
    holds = λ id bytes h. l.holds id bytes (k.holds id bytes h);
  }

  pub Keeps-KeepsOthers :
      (block : ℕ) (s t u : S)
      → Keeps Maps Holds s t
      → KeepsOthers Maps Holds block t u
      → KeepsOthers Maps Holds block s u
  Keeps-KeepsOthers block s t u k l = record {
    maps = λ b id ne m. l.maps b id ne (k.maps b id m);
    holds = λ id bytes h. l.holds id bytes (k.holds id bytes h);
  }
