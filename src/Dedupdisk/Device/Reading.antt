-- ===== src/Dedupdisk/Device/Reading.antt =====
-- ReadAt of whole blocks on stores that show an array of bytes.
use native.Mathlib.Nat.{mul-div_cancel, mul-le-mul_right}
use mathlib.Core.Path.{subst}
use usbd.Base.{
  eof, ret, pos, ℕ, zero, suc, ◌+◌, ◌*◌, ◌/◌, ◌^◌, ◌≤◌, ◌<◌, ◌≡◌, refl, sym, ap, ◌∙◌, inl, inr,
  Bool, none, some, List, [], ◌∷◌, ◌++◌, append_assoc, arith, ltb, if◌then◌else◌, ltb→le,
  Bool-cases, length, get_elem?, drop, length-append, length-drop, slice, copy_at-append,
  length-slice,
}
use usbd.Base.Result.{ok}
use usbd.Base.Exec.{catch-ok, fail, pure}
use usbd.Dedupdisk.Stores.{Stores, IsStores}
use usbd.Dedupdisk.Device.{read_many, read_single, read_at, DedupDisk, lift, fetch, fetch_blocks}
use usbd.Dedupdisk.Device.Dedup.{read_single-Has, lift-ok, Has}
use usbd.Dedupdisk.Device.Healthy.{AreHealthy}
use usbd.Dedupdisk.Device.Chunks.{copy_at_front, eq-nil, slice-suc}
use usbd.Dedupdisk.Device.Array.{Shows}
use usbd.Dedupdisk.Device.Writing.{refused-inside, disk_of}

module _ {S : Type 0} (st : Stores S) (Maps : S → ℕ → ℕ → Type 0) (Holds : S → ℕ → List ℕ → Type 0)
    (Good : ℕ → S → Type 0) (Hashes : List ℕ → List ℕ → Type 0) (Block : List ℕ → Type 0)
    (laws : IsStores Maps Holds st Good Hashes Block) (count : ℕ)
    (healthy : AreHealthy st Good Block count) (bs : ℕ) (closed : Bool) (some_bytes : 0 < bs)
    (fits : count * bs < 2 ^ 63) where
  abbrev HasBlock : S → ℕ → List ℕ → Type 0
  HasBlock = Has st Maps Holds Good Hashes Block laws

  abbrev disk : S → DedupDisk S
  disk = disk_of st Maps Holds Good Hashes Block laws count healthy bs closed some_bytes fits

  abbrev Shown : S → List ℕ → Type 0
  Shown = Shows st Maps Holds Good Hashes Block laws count healthy bs closed some_bytes fits

  -- The IDs of some blocks, in order.
  abbrev Listed : S → List ℕ → ℕ → List ℕ → Type 0
  Listed s bytes b [] = Unit {0}
  Listed s bytes b (id ∷ ids) =
      Maps s b id × Holds s id (slice (b * bs) bs bytes) × Listed s bytes (suc b) ids

  listed :
      (k b : ℕ) (bytes : List ℕ) (s : S)
      → b + k ≤ count
      → Shown s bytes
      → (ids : List ℕ) × (length ids ≡ k) × Listed s bytes b ids
  listed zero b bytes s inside shows = ([], refl, tt)
  listed (suc k) b bytes s inside shows =
      let (id, maps, holds) = shows b (omega arith) in
      let (ids, n, rest) = listed k (suc b) bytes s (omega arith) shows in
      (id ∷ ids, ap suc n, (maps, holds, rest))

  Listed-Maps :
      (ids : List ℕ) (b : ℕ) (bytes : List ℕ) (s : S)
      → Listed s bytes b ids
      → (i id : ℕ) → get_elem? ids i ≡ some id
      → Maps s (b + i) id
  Listed-Maps [] b bytes s all i id e = absurd (cc)
  Listed-Maps (x ∷ ids) b bytes s (maps, _, rest) zero id e =
      let same : x ≡ id = cc in
      subst (Maps s (b + 0)) same (subst (λ (a : ℕ). Maps s a x) (omega arith) maps)
  Listed-Maps (x ∷ ids) b bytes s (_, _, rest) (suc i) id e =
      subst (λ (a : ℕ). Maps s a id) (omega arith) (Listed-Maps ids (suc b) bytes s rest i id e)

  fetch-Holds :
      (id n b : ℕ) (bytes done rest : List ℕ) (s : S)
      → Holds s id (slice (b * bs) bs bytes)
      → length (slice (b * bs) bs bytes) ≡ bs
      → bs ≤ length rest
      → Good n s
      → fetch st id (length done) (done ++ rest) (disk s)
        ≡ ret (ok ((done ++ slice (b * bs) bs bytes) ++ drop bs rest, none), disk s)
  unfolding fetch
  fetch-Holds id n b bytes done rest s holds whole room good =
      let chunk = slice (b * bs) bs bytes in
      let got =
        ap (λ m. st.get_block id m s) (sym whole) ∙ laws.get_block_reads n id chunk s good holds in
      let copied =
        copy_at-append done chunk rest
        ∙ ap (λ l. done ++ l)
            (copy_at_front chunk rest (omega (arith, whole)) ∙ ap (λ m. chunk ++ drop m rest) whole)
        ∙ sym (append_assoc done chunk (drop bs rest)) in
      catch-ok (lift st (st.get_block id bs)) _ _ (disk s) (disk s) chunk
        (lift-ok st (st.get_block id bs) (disk s) chunk s got)
      ∙ ap (λ l. ret (ok (l, none), disk s)) copied

  fetch_blocks-Listed :
      (ids : List ℕ) (n b : ℕ) (bytes done rest : List ℕ) (s : S)
      → Listed s bytes b ids
      → length rest ≡ length ids * bs
      → (b + length ids) * bs ≤ length bytes
      → Good n s
      → fetch_blocks st ids (length done) (done ++ rest) (disk s)
        ≡ ret (ok (done ++ slice (b * bs) (length ids * bs) bytes, none), disk s)
  unfolding fetch_blocks
  fetch_blocks-Listed [] n b bytes done rest s all room inside good =
      let e : 0 * bs ≡ 0 = omega arith in
      let nothing : rest ≡ [] = eq-nil rest (omega (arith, e)) in rw (nothing, e) refl
  fetch_blocks-Listed (id ∷ ids) n b bytes done rest s (maps, holds, later) room inside good =
      let k = length ids in
      let size : suc k * bs ≡ bs + k * bs = grind arith in
      let total : (b + suc k) * bs ≡ b * bs + bs + k * bs = grind arith in
      let next : (suc b + k) * bs ≡ b * bs + bs + k * bs = grind arith in
      let chunk = slice (b * bs) bs bytes in
      let whole = length-slice (b * bs) bs bytes (omega (arith, total, inside)) in
      let behind = slice (suc b * bs) (k * bs) bytes in
      let place : length done + bs ≡ length (done ++ chunk) =
        omega (arith, length-append done chunk, whole) in
      let ih =
        fetch_blocks-Listed ids n (suc b) bytes (done ++ chunk) (drop bs rest) s later
          (omega (arith, length-drop bs rest, room, size)) (omega (arith, next, total, inside))
          good in
      catch-ok (fetch st id (length done) (done ++ rest)) _ fail (disk s) (disk s)
        ((done ++ chunk) ++ drop bs rest, none)
        (fetch-Holds id n b bytes done rest s holds whole (omega (arith, room, size)) good)
      ∙ catch-ok (fetch_blocks st ids (length done + bs) ((done ++ chunk) ++ drop bs rest)) _ fail
          (disk s) (disk s) ((done ++ chunk) ++ behind, none)
          (ap (λ a. fetch_blocks st ids a ((done ++ chunk) ++ drop bs rest) (disk s)) place ∙ ih)
      ∙ ap (λ l. ret (ok (l, none), disk s))
          (append_assoc done chunk behind ∙ ap (λ l. done ++ l) (sym (slice-suc bs b k bytes)))

  module _ (n b : ℕ) (buf bytes : List ℕ) (s : S) (good : Good n s) (shows : Shown s bytes)
      (sized : length bytes ≡ count * bs) where
    abbrev Reads : Type 0
    Reads =
        read_at st buf (pos (b * bs)) (disk s)
        ≡ ret (ok (slice (b * bs) (length buf) bytes, pos (length buf), none), disk s)

    read_many-Shows :
        (k : ℕ)
        → length buf ≡ k * bs
        → 0 < k
        → b + k ≤ count
        → read_many st b buf (disk s)
          ≡ ret (ok (slice (b * bs) (length buf) bytes, pos (length buf), none), disk s)
    unfolding read_many
    read_many-Shows k whole positive inside =
        let number : length buf / bs ≡ k = ap (λ m. m / bs) whole ∙ mul-div_cancel k some_bytes in
        let room : (b + k) * bs ≤ count * bs = mul-le-mul_right bs inside in
        let (ids, counted, all) = listed k b bytes s inside shows in
        let got =
          laws.get_ids_reads n b ids s good (omega (arith, counted))
            (Listed-Maps ids b bytes s all) in
        let length_ids = ap (λ m. m * bs) counted in
        let last = ap (λ m. (b + m) * bs) counted in
        catch-ok (lift st (st.get_ids b (length buf / bs))) _ fail (disk s) (disk s) ids (
          lift-ok st (st.get_ids b (length buf / bs)) (disk s) ids s
            (ap (λ m. st.get_ids b m s) (number ∙ sym counted) ∙ got))
        ∙ catch-ok (fetch_blocks st ids 0 buf) _ fail (disk s) (disk s)
            (slice (b * bs) (length ids * bs) bytes, none)
            (fetch_blocks-Listed ids n b bytes [] buf s all (whole ∙ sym length_ids)
              (omega (arith, last, room, sized)) good)
        ∙ ap (λ m. ret (ok (slice (b * bs) m bytes, pos (length buf), none), disk s))
            (length_ids ∙ sym whole)

    read_single-Shows :
        length buf ≡ bs
        → b < count
        → read_single st b buf (disk s)
          ≡ ret (ok (slice (b * bs) (length buf) bytes, pos (length buf), none), disk s)
    read_single-Shows whole inside =
        let next : suc b * bs ≡ b * bs + bs = grind arith in
        let room : suc b * bs ≤ count * bs = mul-le-mul_right bs inside in
        let n_chunk = length-slice (b * bs) bs bytes (omega (arith, next, room, sized)) in
        read_single-Has st Maps Holds Good Hashes Block laws n b (slice (b * bs) bs bytes) buf
          (disk s) (whole ∙ sym n_chunk) good (shows b inside)
        ∙ ap (λ m. ret (ok (slice (b * bs) bs bytes, pos m, none), disk s)) (n_chunk ∙ sym whole)
        ∙ ap (λ m. ret (ok (slice (b * bs) m bytes, pos (length buf), none), disk s)) (sym whole)

    picked :
        (k : ℕ)
        → length buf ≡ k * bs
        → 0 < k
        → b + k ≤ count
        → (if ltb bs (length buf) then read_many st b buf else read_single st b buf) (disk s)
          ≡ ret (ok (slice (b * bs) (length buf) bytes, pos (length buf), none), disk s)
    picked k whole positive inside =
        let least : 1 * bs ≤ k * bs = mul-le-mul_right bs positive in
        elim (Bool-cases (ltb bs (length buf))) [
          | inl more ↦ rw more (read_many-Shows k whole positive inside)
          | inr few ↦
              let most = ltb→le bs (length buf) few in
              rw few (read_single-Shows (omega (arith, least, whole, most)) (omega arith))
        ]

    -- ReadAt of blocks inside the disk gives their part of the array.
    pub read-Shows : (k : ℕ) → length buf ≡ k * bs → 0 < k → b + k ≤ count → Reads
    unfolding read_at
    read-Shows k whole positive inside =
        let total : (b + k) * bs ≡ b * bs + k * bs = grind arith in
        let room : (b + k) * bs ≤ count * bs = mul-le-mul_right bs inside in
        rw
          (
            refused-inside eof (count * bs) (b * bs) (length buf) fits (omega (arith, total, room)),
            mul-div_cancel b some_bytes,
          )
          (catch-ok (if ltb bs (length buf) then read_many st b buf else read_single st b buf) pure
            _ (disk s) (disk s) (slice (b * bs) (length buf) bytes, pos (length buf), none)
            (picked k whole positive inside))
