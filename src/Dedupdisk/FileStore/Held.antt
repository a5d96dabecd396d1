-- ===== src/Dedupdisk/FileStore/Held.antt =====
-- What the block file has under its IDs, and that it stays.
use native.Mathlib.Nat.{mul-le-mul_left}
use usbd.Base.{
  failed, pos, add64_pos, add64, ℕ, suc, ◌+◌, ◌-◌, ◌*◌, ◌%◌, ◌^◌, ◌≤◌, ◌<◌, ◌≡◌, refl, sym, ap, ◌∙◌,
  ◌⊎◌, inl, inr, true, Option, none, some, List, [], ◌∷◌, arith, ◌==◌, length, take, replicate,
  length-append, length-take, length-replicate, length-slice, copy_at_full, slice, file_write,
  slice-file_write_before, file_write-append, slice-file_write, padded,
}
use usbd.Base.Result.{Result, ok, err}
use usbd.Dedupdisk.FileStore.{FileStore, zero_block_id, read_file, write_part, get_block, put_block}
use usbd.Dedupdisk.FileStore.Blocks.{get_block_small, read_file_whole}

length-file_write :
    (off : ℕ) (bytes file : List ℕ)
    → length file ≤ off
    → length (file_write off bytes file) ≡ off + length bytes
length-file_write off bytes file h =
    ap length (file_write-append off bytes file h)
    ∙ omega (
      arith,
      length-append (padded off file) bytes,
      length-append file (replicate (off - length file) 0),
      length-replicate {A = ℕ} (off - length file) 0,
    )

write_part-sized :
    (off : ℕ) (bytes file : List ℕ)
    → length file ≤ off
    → (length file ≤ length (write_part off bytes file))
      × (length (write_part off bytes file) ≤ off + length bytes)
write_part-sized off [] file h = (omega arith, omega arith)
write_part-sized off (b ∷ bytes) file h =
    let size = length-file_write off (b ∷ bytes) file h in
    (omega (arith, size), omega (arith, size))

write_part-before :
    (p n off : ℕ) (bytes file : List ℕ)
    → p + n ≤ off
    → p + n ≤ length file
    → slice p n (write_part off bytes file) ≡ slice p n file
write_part-before p n off [] file before inside = refl
write_part-before p n off (b ∷ bytes) file before inside =
    slice-file_write_before p n off (b ∷ bytes) file before inside

get_block-zero :
    (id : ℕ) (buf : List ℕ) (fbs : FileStore) (bs : ℕ)
    → fbs.block_size ≡ bs
    → length buf ≡ bs
    → id ≡ zero_block_id
    → get_block fbs id buf ≡ (replicate bs 0, none)
unfolding get_block
get_block-zero id buf fbs bs sized whole e =
    let zero_id : (id == zero_block_id) ≡ true = ground arith in
    rw (zero_id, sized)
      (ap (λ l. (l, none))
        (copy_at_full (replicate bs 0) buf (length-replicate {A = ℕ} bs 0 ∙ sym whole)))

module _ (bs : ℕ) (some_bytes : 0 < bs) where
  -- The ID of the zero block stands for zeros.
  abbrev pub HeldBy : FileStore → ℕ → List ℕ → Type 0
  HeldBy fbs id bytes =
      ((id ≡ zero_block_id) × (bytes ≡ replicate bs 0))
      ⊎ ((id < fbs.next_id)
          × (id * bs + bs ≤ length fbs.file)
          × (slice (id * bs) bs fbs.file ≡ bytes))

  -- The next block goes behind the others, where `n` more have room.
  pub record HasRoom (n : ℕ) (fbs : FileStore) : Type 0 where
    pub sized : fbs.block_size ≡ bs
    pub in_step : fbs.next_pos ≡ pos (fbs.next_id * bs)
    pub room : (fbs.next_id + n) * bs < 2 ^ 63
    pub filled : length fbs.file ≤ fbs.next_id * bs

  pub id_small : (id n : ℕ) → (id + n) * bs < 2 ^ 63 → id < 2 ^ 63
  id_small id n h =
      let least : (id + n) * 1 ≤ (id + n) * bs = mul-le-mul_left (id + n) some_bytes in
      omega (arith, least, h)

  -- The file and the result of a write, by where it stopped.
  abbrev pub file_after : Option ℕ → ℕ → List ℕ → List ℕ → List ℕ
  file_after none p buf file = file_write p buf file
  file_after (some k) p buf file = write_part p (take k buf) file

  abbrev pub result_of : Option ℕ → ℕ → Result ℕ
  result_of none id = ok id
  result_of (some k) id = err failed

  -- The store after a write.
  abbrev pub after_put : Option ℕ → FileStore → List ℕ → FileStore
  after_put stops fbs buf = record fbs {
    file = file_after stops (fbs.next_id * bs) buf fbs.file;
    next_id = fbs.next_id + 1;
    next_pos = pos ((fbs.next_id + 1) * bs);
  }

  module _ (n : ℕ) (fbs : FileStore) (buf : List ℕ) (h : HasRoom (suc n) fbs)
      (whole : length buf ≡ bs) where
    step : (fbs.next_id + 1) * bs ≡ fbs.next_id * bs + bs
    step = grind arith

    total : (fbs.next_id + suc n) * bs ≡ fbs.next_id * bs + bs + n * bs
    total = grind arith

    next_small : (fbs.next_id + 1) % 2 ^ 64 ≡ fbs.next_id + 1
    next_small = omega (arith, id_small fbs.next_id (suc n) h.room)

    next_place : add64 (pos (fbs.next_id * bs)) (pos bs) ≡ pos ((fbs.next_id + 1) * bs)
    next_place = add64_pos (fbs.next_id * bs) bs (omega (arith, total, h.room)) ∙ ap pos (sym step)

    grown : length (file_write (fbs.next_id * bs) buf fbs.file) ≡ fbs.next_id * bs + bs
    grown =
        length-file_write (fbs.next_id * bs) buf fbs.file h.filled
        ∙ ap (λ m. fbs.next_id * bs + m) whole

    file_after-fits :
        (stops : Option ℕ)
        → length (file_after stops (fbs.next_id * bs) buf fbs.file) ≤ fbs.next_id * bs + bs
    file_after-fits none = omega (arith, grown)
    file_after-fits (some k) =
        let (_, most) = write_part-sized (fbs.next_id * bs) (take k buf) fbs.file h.filled in
        omega (arith, most, length-take k buf, whole)

    pub put_block_lem :
        (stops : Option ℕ)
        → put_block stops fbs buf ≡ (result_of stops fbs.next_id, after_put stops fbs buf)
    unfolding put_block
    put_block_lem (some k) = rw (h.in_step, h.sized, next_small, next_place) refl
    put_block_lem none = rw (h.in_step, h.sized, next_small, next_place) refl

    pub put_block-HasRoom : (stops : Option ℕ) → HasRoom n (after_put stops fbs buf)
    put_block-HasRoom stops = record {
      sized = h.sized;
      in_step = refl;
      room =
          let same : (fbs.next_id + 1 + n) * bs ≡ (fbs.next_id + suc n) * bs = grind arith in
          omega (arith, same, h.room);
      filled = omega (arith, step, file_after-fits stops);
    }

    pub put_block-keeps :
        (stops : Option ℕ) (id : ℕ) (bytes : List ℕ)
        → HeldBy fbs id bytes
        → HeldBy (after_put stops fbs buf) id bytes
    put_block-keeps stops id bytes (inl blank) = inl blank
    put_block-keeps (some k) id bytes (inr (earlier, inside, has)) =
        let (longer, _) = write_part-sized (fbs.next_id * bs) (take k buf) fbs.file h.filled in
        inr (
          omega arith,
          omega (arith, longer, inside),
          write_part-before (id * bs) bs (fbs.next_id * bs) (take k buf) fbs.file
                (omega (arith, inside, h.filled)) inside
              ∙ has,
        )
    put_block-keeps none id bytes (inr (earlier, inside, has)) = inr (
      omega arith,
      omega (arith, grown, h.filled),
      slice-file_write_before (id * bs) bs (fbs.next_id * bs) buf fbs.file (omega (arith, h.filled))
            inside
          ∙ has,
    )

    pub put_block-new : HeldBy (after_put none fbs buf) fbs.next_id buf
    put_block-new = inr (
      omega arith,
      omega (arith, grown),
      ap (λ m. slice (fbs.next_id * bs) m (file_write (fbs.next_id * bs) buf fbs.file)) (sym whole)
          ∙ slice-file_write (fbs.next_id * bs) buf fbs.file,
    )

  pub get_block-Held :
      (n id : ℕ) (bytes buf : List ℕ) (fbs : FileStore)
      → HasRoom n fbs
      → HeldBy fbs id bytes
      → length buf ≡ length bytes
      → get_block fbs id buf ≡ (bytes, none)
  get_block-Held n id bytes buf fbs h (inl (e, blank)) same =
      let size = same ∙ ap length blank ∙ length-replicate {A = ℕ} bs 0 in
      get_block-zero id buf fbs bs h.sized size e ∙ ap (λ l. (l, none)) (sym blank)
  get_block-Held n id bytes buf fbs h (inr (earlier, inside, has)) same =
      let size = sym (ap length has) ∙ length-slice (id * bs) bs fbs.file inside in
      let total : (fbs.next_id + n) * bs ≡ fbs.next_id * bs + n * bs = grind arith in
      let place : id * fbs.block_size ≡ id * bs = ap (λ m. id * m) h.sized in
      get_block_small fbs id buf (omega (arith, id_small fbs.next_id n h.room, earlier))
        (omega (arith, place, inside, h.filled, total, h.room))
      ∙ ap (λ m. read_file fbs.file (pos m) buf) place
      ∙ read_file_whole fbs.file bytes buf (id * bs)
          (ap (λ m. slice (id * bs) m fbs.file) (same ∙ size) ∙ has) same
