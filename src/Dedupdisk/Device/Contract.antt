-- ===== src/Dedupdisk/Device/Contract.antt =====
-- The deduplicating disk keeps the contract of a device of pkg/usbdlib.
use native.Mathlib.Nat.{mul-le-mul_right, mod-add-div'}
use mathlib.Core.Path.{subst}
use usbd.Base.{
  ret, pos, ℕ, suc, ◌+◌, ◌*◌, ◌/◌, ◌^◌, ◌≤◌, ◌<◌, ◌≡◌, refl, sym, ap, ap₂, ◌∙◌, false, none, List,
  [], ◌∷◌, arith, dec_lt, length, slice, copy_at, length-copy_at,
}
use usbd.Base.Result.{ok}
use usbd.Usbdlib.Device.{InDisk, IsDisk}
use usbd.Dedupdisk.Stores.{Stores, IsStores}
use usbd.Dedupdisk.Device.{DedupDisk, read_at, write_at, device, accessed, counted}
use usbd.Dedupdisk.Device.Healthy.{AreHealthy}
use usbd.Dedupdisk.Device.Array.{Shows, write-Shows}
use usbd.Dedupdisk.Device.Reading.{read-Shows}
use usbd.Dedupdisk.Device.Writing.{disk_of}

-- The blocks of some buffers, and their number.
unfoldable pub blocks_in : ℕ → List (List ℕ) → ℕ
blocks_in bs [] = 0
blocks_in bs (buf ∷ later) = length buf / bs + blocks_in bs later

unfoldable pub AllBlocks : (List ℕ → Type 0) → ℕ → List (List ℕ) → Type 0
AllBlocks Block bs [] = Unit {0}
AllBlocks Block bs (buf ∷ later) =
    ((i : ℕ) → i < length buf / bs → Block (slice (i * bs) bs buf)) × AllBlocks Block bs later

module _ {S : Type 0} (st : Stores S) (Maps : S → ℕ → ℕ → Type 0) (Holds : S → ℕ → List ℕ → Type 0)
    (Good : ℕ → S → Type 0) (Hashes : List ℕ → List ℕ → Type 0) (Block : List ℕ → Type 0)
    (laws : IsStores Maps Holds st Good Hashes Block) (count : ℕ)
    (healthy : AreHealthy st Good Block count) (bs : ℕ) (some_bytes : 0 < bs)
    (fits : count * bs < 2 ^ 63) where
  abbrev disk : S → DedupDisk S
  disk = disk_of st Maps Holds Good Hashes Block laws count healthy bs false some_bytes fits

  abbrev pub Shown : S → List ℕ → Type 0
  Shown = Shows st Maps Holds Good Hashes Block laws count healthy bs false some_bytes fits

  -- The disk is up, and the stores are in order, with room for the blocks to come.
  pub record IsUp (view : S → List ℕ) (later : List (List ℕ)) (d : DedupDisk S) : Type 0 where
    pub shape : d ≡ disk d.stores
    pub room : Good (blocks_in bs later) d.stores
    pub blocks : AllBlocks Block bs later
    pub sized : length (view d.stores) ≡ count * bs
    pub shows : Shown d.stores (view d.stores)

  some_blocks : (n : ℕ) → n ≡ n / bs * bs → 0 < n → 0 < n / bs
  some_blocks n size positive = elim (dec_lt 0 (n / bs)) [
    | yes more ↦ more
    | no none_there ↦
        let empty : n / bs ≡ 0 = omega arith in
        let nothing : 0 * bs ≡ 0 = omega arith in
        absurd (omega (arith, size, ap (λ m. m * bs) empty, positive))
  ]

  -- A range of whole blocks by its first block and their number.
  in_blocks :
      (p n total : ℕ)
      → InDisk bs total p n
      → total ≡ count * bs
      → (p ≡ p / bs * bs) × (n ≡ n / bs * bs) × (0 < n / bs) × (p / bs + n / bs ≤ count)
  in_blocks p n total d whole =
      let at : p ≡ p / bs * bs = omega (arith, mod-add-div' p bs, d.start_aligned) in
      let size : n ≡ n / bs * bs = omega (arith, mod-add-div' n bs, d.count_aligned) in
      let sum : (p / bs + n / bs) * bs ≡ p / bs * bs + n / bs * bs = grind arith in
      (
        at,
        size,
        some_blocks n size d.some_bytes,
        elim (dec_lt count (p / bs + n / bs)) [
          | yes more ↦
              let over : suc count * bs ≤ (p / bs + n / bs) * bs = mul-le-mul_right bs more in
              let next : suc count * bs ≡ count * bs + bs = grind arith in
              absurd (omega (arith, d.inside))
          | no fine ↦ omega arith
        ],
      )

  module _ (view : S → List ℕ)
      (unique : (n : ℕ) (s : S) (bytes : List ℕ)
        → Good n s
        → length bytes ≡ count * bs
        → Shown s bytes
        → view s ≡ bytes) where
    abbrev bytes_of : DedupDisk S → List ℕ
    bytes_of d = view d.stores

    reads_blocks :
        (d : DedupDisk S) (buf : List ℕ) (p : ℕ) (later : List (List ℕ))
        → IsUp view later d
        → InDisk bs (length (view d.stores)) p (length buf)
        → read_at st buf (pos p) d
          ≡ ret (ok (slice p (length buf) (view d.stores), pos (length buf), none), d)
    reads_blocks d buf p later up range =
        let (at, size, positive, inside) =
          in_blocks p (length buf) (length (view d.stores)) range up.sized in
        let e =
          read-Shows st Maps Holds Good Hashes Block laws count healthy bs false some_bytes fits
            (blocks_in bs later) (p / bs) buf (view d.stores) d.stores up.room up.shows up.sized
            (length buf / bs) size positive inside in
        ap₂ (λ q (t : DedupDisk S). read_at st buf (pos q) t) at up.shape
        ∙ e
        ∙ ap₂
            (λ q (t : DedupDisk S).
              ret (ok (slice q (length buf) (view d.stores), pos (length buf), none), t))
            (sym at) (sym up.shape)

    writes_blocks :
        (d : DedupDisk S) (buf : List ℕ) (p : ℕ) (later : List (List ℕ))
        → IsUp view (buf ∷ later) d
        → InDisk bs (length (view d.stores)) p (length buf)
        → (d' : DedupDisk S) × (write_at st buf (pos p) d ≡ ret (ok (pos (length buf), none), d'))
          × (view d'.stores ≡ copy_at p buf (view d.stores))
          × IsUp view later d'
    unfolding blocks_in AllBlocks
    writes_blocks d buf p later up range =
        let (at, size, positive, inside) =
          in_blocks p (length buf) (length (view d.stores)) range up.sized in
        let (s', e, good, shows) =
          write-Shows st Maps Holds Good Hashes Block laws count healthy bs false some_bytes fits
            (length buf / bs) (blocks_in bs later) (p / bs) buf (view d.stores) d.stores up.blocks.0
            size positive inside up.sized up.room up.shows in
        let bytes = copy_at p buf (view d.stores) in
        let shows' : Shown s' bytes =
          subst (λ (q : ℕ). Shown s' (copy_at q buf (view d.stores))) (sym at) shows in
        let len = length-copy_at p buf (view d.stores) ∙ up.sized in
        let same : view s' ≡ bytes = unique (blocks_in bs later) s' bytes good len shows' in
        (
          disk s',
          ap₂ (λ q (t : DedupDisk S). write_at st buf (pos q) t) at up.shape ∙ e,
          same,
          record {
            shape = refl;
            room = good;
            blocks = up.blocks.1;
            sized = ap length same ∙ len;
            shows = subst (Shown s') (sym same) shows';
          },
        )

    -- The disk keeps the contract of a device, with what its stores show for the view.
    pub dedup_device-IsDisk : IsDisk (device st bs) (IsUp view) bytes_of
    dedup_device-IsDisk = record {
      reads = λ d buf p later up range.
          (d, ap (accessed buf) (reads_blocks d buf p later up range), refl, up);
      writes = λ d buf p later up range.
          let (d', e, same, up') = writes_blocks d buf p later up range in
          (d', ap counted e, same, up');
    }
