-- ===== src/Dedupdisk/Device/Writing.antt =====
-- WriteAt of whole blocks on stores that do not fail.
use native.Mathlib.Nat.{mul-le-mul_right, mul-div_cancel}
use mathlib.Core.Path.{subst}
use usbd.Base.{
  Error, unexpected_eof, ret, pos, ltb_ℤ, add64_pos, add64, ℕ, zero, suc, ◌+◌, ◌*◌, ◌/◌, ◌^◌, ◌≤◌,
  ◌<◌, ◌≡◌, refl, sym, ap, ◌∙◌, ◌≢◌, ◌⊎◌, inl, Bool, false, none, some, List, arith, ltb, lt→ltb,
  length, take, drop, length-take, length-drop, take_of_le, slice,
}
use usbd.Base.Result.{ok}
use usbd.Base.Exec.{catch-ok, pure, fail}
use usbd.Dedupdisk.Stores.{Stores, IsStores}
use usbd.Dedupdisk.Device.{
  write_at, write_blocks, DedupDisk, write_single, write_block, write_blocks, refused,
}
use usbd.Dedupdisk.Device.Dedup.{Has, write_single_safe}
use usbd.Dedupdisk.Device.Chunks.{later_chunk}
use usbd.Dedupdisk.Device.Healthy.{AreHealthy, write_single-ends}

pub refused-inside :
    (past : Error) (total p len : ℕ)
    → total < 2 ^ 63
    → p + len ≤ total
    → refused past (pos total) (pos p) len ≡ none
unfolding refused
refused-inside past total p len fits inside =
    let e = add64_pos p len (omega arith) in
    let within : ltb_ℤ (pos total) (pos (p + len)) ≡ false = ground arith in rw (e, within) refl

module _ {S : Type 0} (st : Stores S) (Maps : S → ℕ → ℕ → Type 0) (Holds : S → ℕ → List ℕ → Type 0)
    (Good : ℕ → S → Type 0) (Hashes : List ℕ → List ℕ → Type 0) (Block : List ℕ → Type 0)
    (laws : IsStores Maps Holds st Good Hashes Block) (count : ℕ)
    (healthy : AreHealthy st Good Block count) (bs : ℕ) (closed : Bool) (some_bytes : 0 < bs)
    (fits : count * bs < 2 ^ 63) where
  abbrev pub disk_of : S → DedupDisk S
  disk_of s = record {
    stores = s;
    block_size = bs;
    size = pos (count * bs);
    down = false;
    closed = closed;
  }

  abbrev pub HasBlock : S → ℕ → List ℕ → Type 0
  HasBlock = Has st Maps Holds Good Hashes Block laws

  pub block_fits : (b : ℕ) → b < count → b * bs + bs ≤ count * bs
  block_fits b h =
      let next : suc b * bs ≡ b * bs + bs = grind arith in
      let le : suc b * bs ≤ count * bs = mul-le-mul_right bs h in omega arith

  pub block_at : (b : ℕ) → (b * bs) / bs ≡ b
  block_at b = mul-div_cancel b some_bytes

  write_block-ends :
      (n b : ℕ) (buf : List ℕ) (s : S)
      → Block buf
      → length buf ≡ bs
      → Good (suc n) s
      → b < count
      → (s' : S) × (write_block st buf (pos (b * bs)) (disk_of s)
          ≡ ret (ok (pos (length buf), none), disk_of s'))
        × Good n s'
        × HasBlock s' b buf
        × ((c : ℕ) (old : List ℕ) → c ≢ b → HasBlock s c old → HasBlock s' c old)
  unfolding write_block
  write_block-ends n b buf s block whole good inside =
      let (s', e) =
        write_single-ends st Maps Holds Good Hashes Block laws count healthy n b buf (disk_of s)
          block good inside in
      let (good', others, here) =
        write_single_safe st Maps Holds Good Hashes Block laws n b buf (disk_of s) (disk_of s')
          (ok tt) block good e in
      (
        s',
        rw
            (
              refused-inside unexpected_eof (count * bs) (b * bs) (length buf) fits
                  (omega (arith, block_fits b inside, whole)),
              block_at b,
            )
            (catch-ok (write_single st b buf) (λ _. pure (pos (length buf), none))
              (λ e. pure (pos 0, some e)) (disk_of s) (disk_of s') tt e),
        good',
        here,
        others,
      )

  -- What the loop of WriteAt leaves: its blocks have their parts of the buffer, the others what they
  -- had.
  pub record WroteBlocks (k n b : ℕ) (buf : List ℕ) (s s' : S) : Type 0 where
    pub good : Good n s'
    pub new : (i : ℕ) → i < k → HasBlock s' (b + i) (slice (i * bs) bs buf)
    pub old :
        (c : ℕ) (bytes : List ℕ) → (c < b) ⊎ (b + k ≤ c) → HasBlock s c bytes → HasBlock s' c bytes

  pub moved : (s : S) (b c : ℕ) (x y : List ℕ) → b ≡ c → x ≡ y → HasBlock s b x → HasBlock s c y
  moved s b c x y e f has = subst (HasBlock s c) f (subst (λ (a : ℕ). HasBlock s a x) e has)

  first_chunk : (buf : List ℕ) → slice (0 * bs) bs buf ≡ take bs buf
  first_chunk buf = let e : 0 * bs ≡ 0 = omega arith in rw e refl

  WroteBlocks-zero : (n b : ℕ) (buf : List ℕ) (s : S) → Good n s → WroteBlocks 0 n b buf s s
  WroteBlocks-zero n b buf s good = record {
    good = good;
    new = λ i h. absurd (omega arith);
    old = λ c bytes h has. has;
  }

  WroteBlocks-suc :
      (k n b : ℕ) (buf : List ℕ) (s s1 s2 : S)
      → HasBlock s1 b (take bs buf)
      → ((c : ℕ) (bytes : List ℕ) → c ≢ b → HasBlock s c bytes → HasBlock s1 c bytes)
      → WroteBlocks k n (suc b) (drop bs buf) s1 s2
      → WroteBlocks (suc k) n b buf s s2
  WroteBlocks-suc k n b buf s s1 s2 here others rest = record {
    good = rest.good;
    new = fresh;
    old = λ c bytes away has.
        rest.old c bytes (omega arith) (others c bytes (λ e. absurd (omega arith)) has);
  }
    where
      fresh : (i : ℕ) → i < suc k → HasBlock s2 (b + i) (slice (i * bs) bs buf)
      fresh zero h =
          moved s2 b (b + 0) (take bs buf) (slice (0 * bs) bs buf) (omega arith)
            (sym (first_chunk buf)) (rest.old b (take bs buf) (inl (omega arith)) here)
      fresh (suc i) h =
          moved s2 (suc b + i) (b + suc i) (slice (i * bs) bs (drop bs buf))
            (slice (suc i * bs) bs buf) (omega arith) (later_chunk bs i buf)
            (rest.new i (omega arith))

  write_blocks-ends :
      (k n b : ℕ) (buf : List ℕ) (s : S)
      → ((i : ℕ) → i < k → Block (slice (i * bs) bs buf))
      → length buf ≡ k * bs
      → Good (k + n) s
      → b + k ≤ count
      → (s' : S) × (write_blocks st k buf (pos (b * bs)) (disk_of s) ≡ ret (ok none, disk_of s'))
        × WroteBlocks k n b buf s s'
  unfolding write_blocks
  write_blocks-ends zero n b buf s blocks whole good inside =
      (s, refl, WroteBlocks-zero n b buf s (subst (λ (m : ℕ). Good m s) (omega arith) good))
  write_blocks-ends (suc k) n b buf s blocks whole good inside =
      let next : suc k * bs ≡ bs + k * bs = grind arith in
      let place : suc b * bs ≡ b * bs + bs = grind arith in
      let room = block_fits b (omega arith) in
      let first = subst Block (first_chunk buf) (blocks 0 (omega arith)) in
      let (s1, e1, good1, here, others) =
        write_block-ends (k + n) b (take bs buf) s first
          (omega (arith, length-take bs buf, next, whole))
          (subst (λ (m : ℕ). Good m s) (omega arith) good) (omega arith) in
      let (s2, e2, rest) =
        write_blocks-ends k n (suc b) (drop bs buf) s1
          (λ i h. subst Block (sym (later_chunk bs i buf)) (blocks (suc i) (omega arith)))
          (omega (arith, length-drop bs buf, next, whole)) good1 (omega arith) in
      let there : add64 (pos (b * bs)) (pos bs) ≡ pos (suc b * bs) =
        add64_pos (b * bs) bs (omega arith) ∙ ap pos (sym place) in
      (
        s2,
        catch-ok (write_block st (take bs buf) (pos (b * bs))) _ fail (disk_of s) (disk_of s1)
              (pos (length (take bs buf)), none) e1
            ∙ catch-ok (write_blocks st k (drop bs buf) (add64 (pos (b * bs)) (pos bs))) _ fail
                (disk_of s1) (disk_of s2) none
                (ap (λ z. write_blocks st k (drop bs buf) z (disk_of s1)) there ∙ e2),
        WroteBlocks-suc k n b buf s s1 s2 here others rest,
      )

  module _ (n b : ℕ) (buf : List ℕ) (s : S) where
    -- WriteAt of blocks inside the disk.
    abbrev pub Writes : ℕ → Type 0
    Writes k =
        (s' : S) × (write_at st buf (pos (b * bs)) (disk_of s)
          ≡ ret (ok (pos (length buf), none), disk_of s'))
        × WroteBlocks k n b buf s s'

    write_at-one :
        Block (slice (0 * bs) bs buf) → length buf ≡ bs → Good (suc n) s → b < count → Writes 1
    unfolding write_at
    write_at-one block whole good inside =
        let same : take bs buf ≡ buf = take_of_le bs buf (omega arith) in
        let single : ltb bs (length buf) ≡ false = ground arith in
        let (s', e, good', here, others) =
          write_block-ends n b buf s (subst Block (first_chunk buf ∙ same) block) whole good
            inside in
        (
          s',
          rw single e,
          WroteBlocks-suc 0 n b buf s s' s' (subst (HasBlock s' b) (sym same) here) others
              (WroteBlocks-zero n (suc b) (drop bs buf) s' good'),
        )

    write_at-many :
        (k : ℕ)
        → ((i : ℕ) → i < k → Block (slice (i * bs) bs buf))
        → length buf ≡ k * bs
        → bs < length buf
        → Good (k + n) s
        → b + k ≤ count
        → Writes k
    unfolding write_at
    write_at-many k blocks whole more good inside =
        let many = lt→ltb bs (length buf) more in
        let number : length buf / bs ≡ k = ap (λ m. m / bs) whole ∙ mul-div_cancel k some_bytes in
        let total : (b + k) * bs ≡ b * bs + k * bs = grind arith in
        let room : (b + k) * bs ≤ count * bs = mul-le-mul_right bs inside in
        let (s', e, wrote) = write_blocks-ends k n b buf s blocks whole good inside in
        (
          s',
          rw
              (
                many,
                refused-inside unexpected_eof (count * bs) (b * bs) (length buf) fits (omega arith),
                number,
              )
              (catch-ok (write_blocks st k buf (pos (b * bs))) _ fail (disk_of s) (disk_of s') none
                e),
          wrote,
        )

    pub write_at-ends :
        (k : ℕ)
        → ((i : ℕ) → i < k → Block (slice (i * bs) bs buf))
        → length buf ≡ k * bs
        → 0 < k
        → Good (k + n) s
        → b + k ≤ count
        → Writes k
    write_at-ends zero blocks whole positive good inside = absurd (omega arith)
    write_at-ends (suc zero) blocks whole positive good inside =
        write_at-one (blocks 0 (omega arith)) (omega arith)
          (subst (λ (m : ℕ). Good m s) (omega arith) good) (omega arith)
    write_at-ends (suc (suc k)) blocks whole positive good inside =
        let more : suc (suc k) * bs ≡ bs + bs + k * bs = grind arith in
        write_at-many (suc (suc k)) blocks whole (omega arith) good inside
