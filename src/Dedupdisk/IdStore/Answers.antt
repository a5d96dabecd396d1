-- ===== src/Dedupdisk/IdStore/Answers.antt =====
-- What the ID store answers, by what is in its database.
use usbd.Base.{
  Go, ret, panic, ℕ, ◌≡◌, refl, sym, ◌⊎◌, inl, inr, true, Option, none, some, List, [], ltb, length,
  take, le_value,
}
use usbd.Base.Result.{Result, ok, err}
use usbd.Base.Exec.{Exec, pure, fail, crash}
use usbd.Base.Exec.Post.{Post, Post-catch, Post-if, After}
use usbd.Util.Zeros.{is_zeros}
use usbd.Dedupdisk.Stores.{Lookup, found, absent}
use usbd.Dedupdisk.FileStore.{zero_block_id}
use usbd.Dedupdisk.IdStore.{Db, IsDb, IdStore, on_db, uint64_of, answer, get_id}

module _ {D : Type 0} (db : Db D) (value : D → List ℕ → Option (List ℕ)) (laws : IsDb db value)
    (sha1 : List ℕ → List ℕ) where
  abbrev pub SameValues : IdStore D → IdStore D → Type 0
  SameValues ps ps' = (key : List ℕ) → value ps'.database key ≡ value ps.database key

  -- A block is found as the zero block, or by the entry for its hash.
  abbrev pub Answered : List ℕ → IdStore D → Result Lookup → Type 0
  Answered block ps (ok (found id hash)) =
      ((is_zeros block ≡ true) × (id ≡ zero_block_id))
      ⊎ ((raw : List ℕ) × (value ps.database (sha1 block) ≡ some raw)
          × (id ≡ le_value (take 8 raw)))
  Answered block ps (ok (absent hash)) =
      (hash ≡ sha1 block) × (value ps.database (sha1 block) ≡ none)
  Answered block ps (err e) = Unit {0}

  pub on_db-Post :
      {A : Type 0} (P : Result A → IdStore D → Type 0) (m : Exec D A) (ps : IdStore D)
      → ((r : Result A) (d : D) → m ps.database ≡ ret (r, d) → P r (record ps { database = d }))
      → Post P (on_db m ps)
  on_db-Post {A = A} P m ps h = go (m ps.database) h
    where
      go :
          (x : Go (Result A × D))
          → ((r : Result A) (d : D) → x ≡ ret (r, d) → P r (record ps { database = d }))
          → Post P (elim x as (λ _. Go (Result A × IdStore D)) [
            | ret (r, d) ↦ ret (r, record ps { database = d })
            | panic ↦ panic
          ])
      go panic h = tt
      go (ret (r, d)) h = h r d refl

  module _ (block : List ℕ) (ps : IdStore D) where
    abbrev Looked : Result Lookup → IdStore D → Type 0
    Looked r ps' = SameValues ps ps' × Answered block ps r

    answer-Looked :
        (ps' : IdStore D) (r : Option (List ℕ))
        → SameValues ps ps'
        → r ≡ value ps.database (sha1 block)
        → Post Looked (answer db sha1 (sha1 block) r ps')
    answer-Looked ps' none same e = (same, (refl, sym e))
    answer-Looked ps' (some raw) same e =
        Post-catch Looked (λ id. pure (found id [])) fail (uint64_of raw) ps'
          (Post-if (After Looked (λ id. pure (found id [])) fail) (ltb (length raw) 8) crash
            (pure (le_value (take 8 raw))) ps' (λ _. tt) (λ _. (same, inr (raw, sym e, refl))))

    pub get_id-Looked : Post Looked (get_id db sha1 block ps)
    unfolding get_id
    get_id-Looked =
        Post-if Looked (is_zeros block) _ _ ps (λ zero. (λ key. refl, inl (zero, refl)))
          (λ _.
            Post-catch Looked (answer db sha1 (sha1 block)) fail (on_db (db.get (sha1 block))) ps (
              on_db-Post (After Looked (answer db sha1 (sha1 block)) fail) (db.get (sha1 block)) ps
                got))
      where
        got :
            (r : Result (Option (List ℕ))) (d : D)
            → db.get (sha1 block) ps.database ≡ ret (r, d)
            → After Looked (answer db sha1 (sha1 block)) fail r (record ps { database = d })
        got (ok r) d e =
            answer-Looked (record ps { database = d }) r
              (λ key. laws.get_keeps (sha1 block) key (ok r) ps.database d e)
              (laws.get_reads (sha1 block) r ps.database d e)
        got (err x) d e = (λ key. laws.get_keeps (sha1 block) key (err x) ps.database d e, tt)
