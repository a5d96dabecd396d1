-- ===== src/Dedupdisk/Device/Array.antt =====
-- WriteAt of whole blocks on stores that show an array of bytes.
use native.Mathlib.Nat.{mul-le-mul_right}
use mathlib.Core.Path.{subst}
use usbd.Base.{
  ret, pos, ℕ, ◌+◌, ◌-◌, ◌*◌, ◌^◌, ◌≤◌, ◌<◌, ◌≡◌, sym, inl, inr, Bool, none, List, arith, dec_lt,
  length, slice, copy_at,
}
use usbd.Base.Result.{ok}
use usbd.Dedupdisk.Stores.{Stores, IsStores}
use usbd.Dedupdisk.Device.{DedupDisk, write_at}
use usbd.Dedupdisk.Device.Dedup.{Has}
use usbd.Dedupdisk.Device.Healthy.{AreHealthy}
use usbd.Dedupdisk.Device.Chunks.{block_within, block_outside}
use usbd.Dedupdisk.Device.Writing.{disk_of, WroteBlocks, write_at-ends}

module _ {S : Type 0} (st : Stores S) (Maps : S → ℕ → ℕ → Type 0) (Holds : S → ℕ → List ℕ → Type 0)
    (Good : ℕ → S → Type 0) (Hashes : List ℕ → List ℕ → Type 0) (Block : List ℕ → Type 0)
    (laws : IsStores Maps Holds st Good Hashes Block) (count : ℕ)
    (healthy : AreHealthy st Good Block count) (bs : ℕ) (closed : Bool) (some_bytes : 0 < bs)
    (fits : count * bs < 2 ^ 63) where
  abbrev HasBlock : S → ℕ → List ℕ → Type 0
  HasBlock = Has st Maps Holds Good Hashes Block laws

  abbrev pub disk : S → DedupDisk S
  disk = disk_of st Maps Holds Good Hashes Block laws count healthy bs closed some_bytes fits

  abbrev Wrote : ℕ → ℕ → ℕ → List ℕ → S → S → Type 0
  Wrote = WroteBlocks st Maps Holds Good Hashes Block laws count healthy bs closed some_bytes fits

  -- The stores show an array of bytes: each block has its part of it.
  abbrev pub Shows : S → List ℕ → Type 0
  Shows s bytes = (b : ℕ) → b < count → HasBlock s b (slice (b * bs) bs bytes)

  Wrote-Shows :
      (k n b : ℕ) (buf bytes : List ℕ) (s s' : S)
      → length buf ≡ k * bs
      → (b + k) * bs ≤ length bytes
      → Shows s bytes
      → Wrote k n b buf s s'
      → Shows s' (copy_at (b * bs) buf bytes)
  Wrote-Shows k n b buf bytes s s' whole inside shows wrote c h = elim (dec_lt c b) [
    | yes before ↦
        subst (HasBlock s' c) (sym (block_outside bs b k buf bytes whole inside c (inl before)))
          (wrote.old c _ (inl before) (shows c h))
    | no other ↦ elim (dec_lt c (b + k)) [
      | yes within ↦
          let there : b + (c - b) ≡ c = omega arith in
          subst (HasBlock s' c)
            (sym (block_within bs b k buf bytes whole inside c (omega arith) within))
            (subst (λ (a : ℕ). HasBlock s' a (slice ((c - b) * bs) bs buf)) there
              (wrote.new (c - b) (omega arith)))
      | no behind ↦
          subst (HasBlock s' c)
            (sym (block_outside bs b k buf bytes whole inside c (inr (omega arith))))
            (wrote.old c _ (inr (omega arith)) (shows c h))
    ]
  ]

  -- WriteAt of whole blocks inside the disk.
  pub write-Shows :
      (k n b : ℕ) (buf bytes : List ℕ) (s : S)
      → ((i : ℕ) → i < k → Block (slice (i * bs) bs buf))
      → length buf ≡ k * bs
      → 0 < k
      → b + k ≤ count
      → length bytes ≡ count * bs
      → Good (k + n) s
      → Shows s bytes
      → (s' : S) × (write_at st buf (pos (b * bs)) (disk s)
          ≡ ret (ok (pos (length buf), none), disk s'))
        × Good n s'
        × Shows s' (copy_at (b * bs) buf bytes)
  write-Shows k n b buf bytes s blocks whole positive inside sized good shows =
      let room : (b + k) * bs ≤ count * bs = mul-le-mul_right bs inside in
      let (s', e, wrote) =
        write_at-ends st Maps Holds Good Hashes Block laws count healthy bs closed some_bytes fits n
          b buf s k blocks whole positive good inside in
      (
        s',
        e,
        wrote.good,
        Wrote-Shows k n b buf bytes s s' whole (omega (arith, room, sized)) shows wrote,
      )
