-- ===== src/Objstore/SparseCopy/Content.antt =====
-- What sparseCopy leaves in the file.
use usbd.Base.{
  ℕ, zero, suc, ◌+◌, ◌-◌, ◌≤◌, ◌<◌, ◌≡◌, refl, sym, ap, ap₂, ◌∙◌, ◌≢◌, inl, inr, Bool, false, List,
  [], ◌∷◌, ◌++◌, append-nil, append_assoc, arith, ltb, ◌==◌, if◌then◌else◌, lt→ltb, ltb→le, ==→eq,
  Bool-cases, length, replicate, length-append, length-replicate, replicate-append,
  file_write-append, padded, file_write,
}
use usbd.Objstore.SparseCopy.{
  Copier, start, min_seq_sparse_zeros, flush_out, settle, copy_byte, finish, copy_loop, sparse_copy,
}

-- Everything that has been read so far: in the file, skipped, in the buffer, or pending.
abbrev written : Copier → List ℕ
written c = padded c.offset c.file ++ c.out

abbrev seen : Copier → List ℕ
seen c = written c ++ replicate c.pend_zeros 0

-- The position is never before the end of the file.
record IsForward (c : Copier) : Type 0 where
  behind : length c.file ≤ c.offset
  counted : c.n ≡ c.offset + length c.out

length-padded : (off : ℕ) (file : List ℕ) → length file ≤ off → length (padded off file) ≡ off
length-padded off file h = omega (
  arith,
  length-append file (replicate (off - length file) 0),
  length-replicate {A = ℕ} (off - length file) 0,
)

padded_end : (off : ℕ) (file : List ℕ) → length file ≡ off → padded off file ≡ file
padded_end off file h = let e : off - length file ≡ 0 = omega arith in rw e (append-nil file)

padded_more :
    (off k : ℕ) (file : List ℕ)
    → length file ≤ off
    → padded (off + k) file ≡ padded off file ++ replicate k 0
padded_more off k file h =
    let e : off + k - length file ≡ off - length file + k = omega arith in
    rw (e, ← replicate-append {A = ℕ} (off - length file) k 0)
      (sym (append_assoc file (replicate (off - length file) 0) (replicate k 0)))

-- Flushing leaves what has been written, all of it now in the file.
record Flushed (c f : Copier) : Type 0 where
  behind : length f.file ≤ f.offset
  content : padded f.offset f.file ≡ written c
  emptied : f.out ≡ []
  moved : f.offset ≡ c.offset + length c.out

length-nil : (xs : List ℕ) → length xs ≡ 0 → xs ≡ []
length-nil [] h = refl
length-nil (x ∷ xs) h = absurd (omega arith)

flush_out-Flushed : (c : Copier) → IsForward c → Flushed c (flush_out c)
unfolding flush_out
flush_out-Flushed c v = elim (Bool-cases (length c.out == 0)) [
  | inl none_held ↦
      let e : c.out ≡ [] = length-nil c.out (==→eq (length c.out) 0 none_held) in
      rw none_held (record {
        behind = v.behind;
        content = rw e (sym (append-nil (padded c.offset c.file)));
        emptied = e;
        moved = rw e (omega arith);
      })
  | inr held ↦
      let w : file_write c.offset c.out c.file ≡ written c =
        file_write-append c.offset c.out c.file v.behind in
      let n : length (file_write c.offset c.out c.file) ≡ c.offset + length c.out = omega (
        arith,
        ap length w,
        length-append (padded c.offset c.file) c.out,
        length-padded c.offset c.file v.behind,
      ) in
      rw held (record {
        behind = omega arith;
        content = padded_end (c.offset + length c.out) (file_write c.offset c.out c.file) n ∙ w;
        emptied = refl;
        moved = refl;
      })
]

-- What settling the pending zeros does: they count as written.
record Settled (c d : Copier) : Type 0 where
  forward : IsForward d
  content : written d ≡ seen c
  none_pending : d.pend_zeros ≡ 0

settle-Settled : (c : Copier) → IsForward c → Settled c (settle c)
unfolding settle
settle-Settled c v = elim (Bool-cases (ltb c.pend_zeros min_seq_sparse_zeros)) [
  | inl few ↦ rw few (record {
    forward = record {
      behind = v.behind;
      counted = omega (
        arith,
        v.counted,
        length-append c.out (replicate c.pend_zeros 0),
        length-replicate {A = ℕ} c.pend_zeros 0,
      );
    };
    content = sym (append_assoc (padded c.offset c.file) c.out (replicate c.pend_zeros 0));
    none_pending = refl;
  })
  | inr many ↦
      let f = flush_out-Flushed c v in
      rw many (record {
        forward = record {
          behind = omega (arith, f.behind);
          counted = omega (arith, v.counted, f.moved, ap length f.emptied);
        };
        content =
            rw (f.emptied, append-nil)
              (padded_more (flush_out c).offset c.pend_zeros (flush_out c).file f.behind
                ∙ ap (λ t. t ++ replicate c.pend_zeros 0) f.content);
        none_pending = refl;
      })
]

-- A byte is added behind all that was seen.
record Took (cur : ℕ) (c d : Copier) : Type 0 where
  forward : IsForward d
  content : seen d ≡ seen c ++ (cur ∷ [])
  pending_zero : cur ≡ 0 → 0 < d.pend_zeros
  none_pending : cur ≢ 0 → d.pend_zeros ≡ 0

Settled-now : (c : Copier) → IsForward c → Settled c (if ltb 0 c.pend_zeros then settle c else c)
Settled-now c v = elim (Bool-cases (ltb 0 c.pend_zeros)) [
  | inl some_pending ↦ rw some_pending (settle-Settled c v)
  | inr none_there ↦
      let z : c.pend_zeros ≡ 0 = omega (arith, ltb→le 0 c.pend_zeros none_there) in
      rw none_there
        (record { forward = v; content = rw z (sym (append-nil (written c))); none_pending = z })
]

put_byte-Took :
    (cur : ℕ) (c d : Copier)
    → Settled c d
    → cur ≢ 0
    → Took cur c (record d { out = d.out ++ (cur ∷ []); n = d.n + 1 })
put_byte-Took cur c d s ne = record {
  forward = record {
    behind = s.forward.behind;
    counted = omega (arith, s.forward.counted, length-append d.out (cur ∷ []));
  };
  content =
      rw (s.none_pending, append-nil)
        (sym (append_assoc (padded d.offset d.file) d.out (cur ∷ []))
          ∙ ap (λ t. t ++ (cur ∷ [])) s.content);
  pending_zero = λ e. absurd (ne e);
  none_pending = λ _. s.none_pending;
}

copy_byte-Took : (cur : ℕ) (c : Copier) → IsForward c → Took cur c (copy_byte cur c)
unfolding copy_byte
copy_byte-Took cur c v = elim (Bool-cases (cur == 0)) [
  | inl is_zero ↦
      let z : cur ≡ 0 = ==→eq cur 0 is_zero in
      rw is_zero (record {
        forward = record { behind = v.behind; counted = v.counted };
        content =
            rw (z, ← replicate-append {A = ℕ} c.pend_zeros 1 0)
              (sym (append_assoc (written c) (replicate c.pend_zeros 0) (0 ∷ [])));
        pending_zero = λ _. omega arith;
        none_pending = λ ne. absurd (ne z);
      })
  | inr other ↦ rw other (put_byte-Took cur c _ (Settled-now c v) (ground arith))
]

-- Whether the last byte is zero; `b` answers for the empty source.
abbrev ends : Bool → List ℕ → Bool
ends b [] = b
ends b (x ∷ xs) = ends (x == 0) xs

abbrev pub ends_in_zero : List ℕ → Bool
ends_in_zero = ends false

-- What the copy leaves behind the source.
abbrev pub extra : Bool → List ℕ
extra b = if b then [] else 0 ∷ []

last_zeros : (p : ℕ) → replicate (p - 1) 0 ++ (0 ∷ []) ≡ replicate p 0 ++ extra (ltb 0 p)
last_zeros zero = let e : 0 - 1 ≡ 0 = omega arith in rw e
last_zeros (suc p) =
    let e : suc p - 1 ≡ p = omega arith in
    let g : p + 1 ≡ suc p = omega arith in
    rw (e, lt→ltb 0 (suc p) (omega arith))
      (replicate-append {A = ℕ} p 1 0
        ∙ ap (λ k. replicate k 0) g
        ∙ sym (append-nil (replicate (suc p) 0)))

file-finish :
    (c : Copier)
    → IsForward c
    → (finish c).file ≡ written c ++ (replicate (c.pend_zeros - 1) 0 ++ (0 ∷ []))
unfolding finish
file-finish c v =
    let f = flush_out-Flushed c v in
    let skip = c.pend_zeros - 1 in
    let e : (if ltb 0 skip then skip else 0) ≡ skip = ground arith in
    rw
      (
        e,
        file_write-append ((flush_out c).offset + skip) (0 ∷ []) (flush_out c).file
            (omega (arith, f.behind)),
        padded_more (flush_out c).offset skip (flush_out c).file f.behind,
        f.content,
      )
      (append_assoc (written c) (replicate skip 0) (0 ∷ []))

length-seen : (c : Copier) → IsForward c → length (seen c) ≡ c.n + c.pend_zeros
length-seen c v = omega (
  arith,
  v.counted,
  length-append (written c) (replicate c.pend_zeros 0),
  length-append (padded c.offset c.file) c.out,
  length-padded c.offset c.file v.behind,
  length-replicate {A = ℕ} c.pend_zeros 0,
)

finish_lem :
    (c : Copier)
    → IsForward c
    → ((finish c).file ≡ seen c ++ extra (ltb 0 c.pend_zeros)) × ((finish c).n ≡ length (seen c))
unfolding finish
finish_lem c v = (
  file-finish c v
      ∙ ap (λ t. written c ++ t) (last_zeros c.pend_zeros)
      ∙ sym (append_assoc (written c) (replicate c.pend_zeros 0) (extra (ltb 0 c.pend_zeros))),
  sym (length-seen c v),
)

copy_loop_lem :
    (src : List ℕ) (c : Copier)
    → IsForward c
    → ((copy_loop src c).file ≡ (seen c ++ src) ++ extra (ends (ltb 0 c.pend_zeros) src))
      × ((copy_loop src c).n ≡ length (seen c ++ src))
unfolding copy_loop
copy_loop_lem [] c v = rw append-nil (finish_lem c v)
copy_loop_lem (cur ∷ src) c v =
    let t = copy_byte-Took cur c v in
    let b : ltb 0 (copy_byte cur c).pend_zeros ≡ (cur == 0) =
      ground (arith, t.pending_zero, t.none_pending) in
    let (f, n) = copy_loop_lem src (copy_byte cur c) t.forward in
    let e : seen (copy_byte cur c) ++ src ≡ seen c ++ (cur ∷ src) =
      ap (λ l. l ++ src) t.content ∙ append_assoc (seen c) (cur ∷ []) src in
    (f ∙ ap₂ (λ l d. l ++ extra (ends d src)) e b, n ∙ ap length e)

-- On a new file sparseCopy leaves the bytes of the source, and behind them one zero byte more
-- unless the last byte of the source is zero; the count is that of the source in any case.
pub sparse_copy_lem :
    (src : List ℕ) → sparse_copy src ≡ (src ++ extra (ends_in_zero src), length src)
unfolding sparse_copy
sparse_copy_lem src =
    let empty : seen start ≡ [] = refl in
    let (f, n) = copy_loop_lem src start (record { behind = omega arith; counted = omega arith }) in
    ap₂ (λ a b. (a, b)) (f ∙ ap (λ t. (t ++ src) ++ extra (ends_in_zero src)) empty)
      (n ∙ ap (λ t. length (t ++ src)) empty)
