-- ===== src/Objstore/Device/Evict.antt =====
-- removeLeastRecentUsed: which segment is taken.
use usbd.Base.{
  zero, ℕ, suc, ◌+◌, ◌≡◌, refl, sym, ap, ◌≢◌, Bool, true, false, not, ◌||◌, Option, none, some,
  List, [], ◌∷◌, arith, ◌==◌, if◌then◌else◌, if_case, get_elem?,
}
use mathlib.Core.Path.{subst}
use usbd.Objstore.Env.{Segment}
use usbd.Objstore.Segment.{last_op}
use usbd.Objstore.Device.{Candidate, better, scan, candidate}

module _ {Item : Type 0} (all : List (Segment Item)) (for_idx : ℕ) where
  -- The candidate is a backed segment of the list, with the dirty mark `b`, and not the one that
  -- room is made for.
  abbrev Sound : Bool → Option Candidate → Type 0
  Sound b none = Unit {0}
  Sound b (some c) =
      (seg : Segment Item) × (get_elem? all c.index ≡ some seg)
      × (c.index ≢ for_idx)
      × (seg.backed ≡ true)
      × (seg.dirty ≡ b)
      × (c.last ≡ last_op seg)

  abbrev Rest : ℕ → List (Segment Item) → Type 0
  Rest i rest = (j : ℕ) → get_elem? rest j ≡ get_elem? all (i + j)

  Rest-tail :
      (i : ℕ) (seg : Segment Item) (rest : List (Segment Item))
      → Rest i (seg ∷ rest)
      → Rest (suc i) rest
  Rest-tail i seg rest h j =
      subst (λ (k : ℕ). get_elem? rest j ≡ get_elem? all k) (omega arith) (h (suc j))

  take_better :
      (b : Bool) (i : ℕ) (seg : Segment Item) (old : Option Candidate) (test : Bool)
      → get_elem? all i ≡ some seg
      → i ≢ for_idx
      → seg.backed ≡ true
      → seg.dirty ≡ b
      → Sound b old
      → Sound b (if test then some (record { index = i; last = last_op seg }) else old)
  take_better b i seg old true e ne backed dirty h = (seg, e, ne, backed, dirty, refl)
  take_better b i seg old false e ne backed dirty h = h

  usable :
      (i : ℕ) (backed : Bool)
      → (i == for_idx || not backed) ≡ false
      → (i ≢ for_idx) × (backed ≡ true)
  usable i true h = (λ e. absurd (ground arith), refl)
  usable i false h = absurd (ground arith)

  scan-Sound :
      (i : ℕ) (rest : List (Segment Item)) (clean dirty : Option Candidate)
      → Rest i rest
      → Sound false clean
      → Sound true dirty
      → Sound false (scan for_idx i rest clean dirty).0
        × Sound true (scan for_idx i rest clean dirty).1
  unfolding scan
  scan-Sound i [] clean dirty at hc hd = (hc, hd)
  scan-Sound i (seg ∷ rest) clean dirty at hc hd =
      if_case Both (i == for_idx || not seg.backed) _ _
        (λ skip. scan-Sound (suc i) rest clean dirty rest_at hc hd)
        (λ go.
          let (ne, backed) = usable (i) seg.backed go in
          if_case Both seg.dirty _ _
            (λ d.
              scan-Sound (suc i) rest clean _ rest_at hc
                (take_better true i seg dirty (better (last_op seg) dirty) here ne backed d hd))
            (λ d.
              scan-Sound (suc i) rest _ dirty rest_at
                (take_better false i seg clean (better (last_op seg) clean) here ne backed d hc)
                hd))
    where
      Both : Option Candidate × Option Candidate → Type 0
      Both r = Sound false r.0 × Sound true r.1

      here : get_elem? all i ≡ some seg
      here = subst (λ (k : ℕ). get_elem? all k ≡ some seg) (omega arith) (sym (at 0))

      rest_at : Rest (suc i) rest
      rest_at = Rest-tail i seg rest at

  -- All backed segments of `rest`, which starts at index `i`, are dirty, but for the one that room is
  -- made for.
  abbrev AllDirty : ℕ → List (Segment Item) → Type 0
  AllDirty i rest =
      (j : ℕ) (seg : Segment Item)
      → get_elem? rest j ≡ some seg
      → i + j ≢ for_idx
      → seg.backed ≡ true
      → seg.dirty ≡ true

  AllDirty-cons :
      (i : ℕ) (seg : Segment Item) (rest : List (Segment Item))
      → (i ≢ for_idx → seg.backed ≡ true → seg.dirty ≡ true)
      → AllDirty (suc i) rest
      → AllDirty i (seg ∷ rest)
  AllDirty-cons i seg rest here later zero seg' e ne backed =
      let same : seg ≡ seg' = cc in
      subst (λ (s : Segment Item). s.backed ≡ true → s.dirty ≡ true) same
        (here (λ x. ne (omega (arith, x)))) backed
  AllDirty-cons i seg rest here later (suc j) seg' e ne backed =
      later j seg' e (λ same. ne (omega (arith, same))) backed

  -- A clean candidate is never lost.
  some_pick : (test : Bool) (c d : Candidate) → (if test then some c else some d) ≢ none
  some_pick true c d h = absurd (cc)
  some_pick false c d h = absurd (cc)

  pick_some :
      (last : ℕ) (c : Candidate) (old : Option Candidate)
      → (if better last old then some c else old) ≢ none
  unfolding better
  pick_some last c none h = absurd (cc)
  pick_some last c (some d) h = some_pick (better last (some d)) c d h

  skipped :
      (i : ℕ) (backed : Bool) → (i == for_idx || not backed) ≡ true → i ≢ for_idx → backed ≢ true
  skipped i true h ne b = ne (ground arith)
  skipped i false h ne b = absurd (cc)

  scan-AllDirty :
      (i : ℕ) (rest : List (Segment Item)) (clean dirty : Option Candidate)
      → (scan for_idx i rest clean dirty).0 ≡ none
      → (clean ≡ none) × AllDirty i rest
  unfolding scan
  scan-AllDirty i [] clean dirty = λ h. (h, λ j seg e. absurd (cc))
  scan-AllDirty i (seg ∷ rest) clean dirty =
      if_case Concludes (i == for_idx || not seg.backed) _ _
        (λ skip h.
          let (none_clean, later) = scan-AllDirty (suc i) rest clean dirty h in
          (
            none_clean,
            AllDirty-cons i seg rest (λ ne backed. absurd (skipped i seg.backed skip ne backed))
                later,
          ))
        (λ go.
          if_case Concludes seg.dirty _ _
            (λ d h.
              let (none_clean, later) = scan-AllDirty (suc i) rest clean _ h in
              (none_clean, AllDirty-cons i seg rest (λ ne backed. d) later))
            (λ d h.
              let (none_clean, later) = scan-AllDirty (suc i) rest _ dirty h in
              absurd (
                pick_some (last_op seg) (record { index = i; last = last_op seg }) clean
                  none_clean)))
    where
      Concludes : Option Candidate × Option Candidate → Type 0
      Concludes r = r.0 ≡ none → (clean ≡ none) × AllDirty i (seg ∷ rest)

  abbrev pub Usable : Candidate → Type 0
  Usable c =
      (seg : Segment Item) × (get_elem? all c.index ≡ some seg)
      × (c.index ≢ for_idx)
      × (seg.backed ≡ true)
      × (c.last ≡ last_op seg)

  Sound-Usable :
      (b : Bool) (o : Option Candidate) (c : Candidate) → Sound b o → o ≡ some c → Usable c
  Sound-Usable b o c h e =
      let (seg, at, ne, backed, _, last) = subst (Sound b) e h in (seg, at, ne, backed, last)

  -- Whichever segment is taken to make room, it is a backed one of the device and not the one that
  -- room is made for, and the time that it is compared by is the one that LastOp reports, the earlier
  -- of its last read and its last write.
  pub candidate-Usable : (c : Candidate) → candidate for_idx all ≡ some c → Usable c
  unfolding candidate
  candidate-Usable c h =
      go (scan for_idx 0 all none none)
        (scan-Sound 0 all none none (λ j. ap (get_elem? all) (omega arith)) tt tt) h
    where
      go :
          (r : Option Candidate × Option Candidate)
          → Sound false r.0 × Sound true r.1
          → (elim r.0 as (λ _. Option Candidate) [ none ↦ r.1 | some c ↦ some c ]) ≡ some c
          → Usable c
      go (some d, o) (h, k) e = Sound-Usable false (some d) c h e
      go (none, o) (h, k) e = Sound-Usable true o c k e

  candidate-AllDirty :
      (c : Candidate) (seg : Segment Item)
      → candidate for_idx all ≡ some c
      → get_elem? all c.index ≡ some seg
      → seg.dirty ≡ true
      → AllDirty 0 all
  unfolding candidate
  candidate-AllDirty c seg h at dirty =
      go (scan for_idx 0 all none none)
        (scan-Sound 0 all none none (λ j. ap (get_elem? all) (omega arith)) tt tt).0
        (λ n. (scan-AllDirty 0 all none none n).1) h
    where
      go :
          (r : Option Candidate × Option Candidate)
          → Sound false r.0
          → (r.0 ≡ none → AllDirty 0 all)
          → (elim r.0 as (λ _. Option Candidate) [ none ↦ r.1 | some c ↦ some c ]) ≡ some c
          → AllDirty 0 all
      go (some d, o) sound all_dirty e =
          let (seg', at', _, _, clean, _) = subst (Sound false) e sound in
          let same : seg' ≡ seg = cc in absurd cc
      go (none, o) sound all_dirty e = all_dirty refl

  -- A segment that has to be uploaded first is taken to make room only where every other backed
  -- segment, but for the one that room is made for, has to be uploaded too.
  pub dirty_goes_last :
      (c : Candidate) (seg : Segment Item)
      → candidate for_idx all ≡ some c
      → get_elem? all c.index ≡ some seg
      → seg.dirty ≡ true
      → (j : ℕ) (other : Segment Item) → get_elem? all j ≡ some other
      → j ≢ for_idx
      → other.backed ≡ true
      → other.dirty ≡ true
  dirty_goes_last c seg h at dirty j other e ne backed =
      candidate-AllDirty c seg h at dirty j other e (λ same. ne (omega (arith, same))) backed
