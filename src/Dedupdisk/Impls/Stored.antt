-- ===== src/Dedupdisk/Impls/Stored.antt =====
-- What is left of the stores of pkg/devices/dedupdisk/impls after a block, a hash or an ID was put.
use mathlib.Core.Path.{subst}
use usbd.Base.{
  ret, ℕ, suc, ◌<◌, ◌≡◌, sym, ap, ◌∙◌, inl, inr, Option, none, some, List, length, le_bytes,
}
use usbd.Base.Result.{ok_inj, Result, ok}
use usbd.Base.Exec.Post.{Post-ret}
use usbd.Dedupdisk.IdStore.Answers.{on_db-Post}
use usbd.Dedupdisk.Stores.{Keeps}
use usbd.Dedupdisk.FileStore.{FileStore}
use usbd.Dedupdisk.FileStore.Held.{
  HeldBy, result_of, after_put, put_block_lem, put_block-HasRoom, put_block-keeps, put_block-new,
}
use usbd.Dedupdisk.IdStore as IdStore
use usbd.Dedupdisk.IdStore.{Db, IsDb, IdStore}
use usbd.Dedupdisk.Impls.{Parts, Faults, on_ids, add_block}
use usbd.Dedupdisk.Impls.Laws.{
  ret_inj, IsBlock, HoldsBytes, MapsTo, HashOf, Known, IsGood, ids-Good, on_ids-eq,
}

module _ {D : Type 0} (value : D → List ℕ → Option (List ℕ)) (sha1 : List ℕ → List ℕ)
    (Used : List ℕ → Type 0) (bs count : ℕ) (some_bytes : 0 < bs) where
  abbrev Good : ℕ → Parts D → Type 0
  Good = IsGood value sha1 Used bs count some_bytes

  abbrev Holding : Parts D → ℕ → List ℕ → Type 0
  Holding = HoldsBytes value sha1 Used bs count some_bytes

  abbrev Mapping : Parts D → ℕ → ℕ → Type 0
  Mapping = MapsTo value sha1 Used bs count some_bytes

  module _ (os : Faults) (n : ℕ) (buf : List ℕ) (s : Parts D) (good : Good (suc n) s)
      (whole : length buf ≡ bs) where
    abbrev stops : Option ℕ
    stops = os.write_fails s.blocks.next_id

    abbrev added : Parts D
    added = record s { blocks = after_put bs some_bytes stops s.blocks buf }

    pub add_block_lem :
        add_block os buf s ≡ ret (result_of bs some_bytes stops s.blocks.next_id, added)
    add_block_lem =
        ap (λ (p : Result ℕ × FileStore). ret (p.0, record s { blocks = p.1 }))
          (put_block_lem bs some_bytes n s.blocks buf good.room whole stops)

    keeps_held : (id : ℕ) (bytes : List ℕ) → Holding s id bytes → Holding added id bytes
    keeps_held id bytes held =
        put_block-keeps bs some_bytes n s.blocks buf good.room whole stops id bytes held

    added-Known : Known value sha1 Used bs count some_bytes s.ids.database added.blocks
    added-Known key raw h =
        let (id, buf0, raw_id, key_hash, block, held) = good.known key raw h in
        (id, buf0, raw_id, key_hash, block, keeps_held id buf0 held)

    pub add_block-Good :
        (r : Result ℕ) (s' : Parts D)
        → add_block os buf s ≡ ret (r, s')
        → Good n s' × Keeps Mapping Holding s s'
    add_block-Good r s' e =
        let (_, same) = ret_inj (sym add_block_lem ∙ e) in
        (
          subst (Good n) same (record {
            room = put_block-HasRoom bs some_bytes n s.blocks buf good.room whole stops;
            known = added-Known;
            counted = good.counted;
            whole = good.whole;
          }),
          subst (Keeps Mapping Holding s) same (record { maps = λ b id m. m; holds = keeps_held }),
        )

    Holds_if :
        (failing : Option ℕ) (id : ℕ)
        → result_of bs some_bytes failing s.blocks.next_id ≡ ok id
        → HeldBy bs some_bytes (after_put bs some_bytes failing s.blocks buf) id buf
    Holds_if (some k) id e = absurd (cc)
    Holds_if none id e =
        subst (λ (i : ℕ). HeldBy bs some_bytes (after_put bs some_bytes none s.blocks buf) i buf)
          (ok_inj e) (put_block-new bs some_bytes n s.blocks buf good.room whole)

    pub add_block-Holds :
        (id : ℕ) (s' : Parts D) → add_block os buf s ≡ ret (ok id, s') → Holding s' id buf
    add_block-Holds id s' e =
        let (given, same) = ret_inj (sym add_block_lem ∙ e) in
        subst (λ (t : Parts D). Holding t id buf) same (Holds_if stops id given)

  module _ (db : Db D) (laws : IsDb db value) where
    put_id-eq :
        (hash : List ℕ) (id : ℕ) (r : Result Unit) (ps ps' : IdStore D)
        → IdStore.put_id db sha1 hash id ps ≡ ret (r, ps')
        → db.set hash (le_bytes 8 id) ps.database ≡ ret (r, ps'.database)
    unfolding IdStore.put_id
    put_id-eq hash id r ps ps' e =
        Post-ret (λ r ps'. db.set hash (le_bytes 8 id) ps.database ≡ ret (r, ps'.database))
          (IdStore.put_id db sha1 hash id ps)
          (on_db-Post db value laws sha1
            (λ r ps'. db.set hash (le_bytes 8 id) ps.database ≡ ret (r, ps'.database))
            (db.set hash (le_bytes 8 id)) ps (λ r d h. h))
          e

    pub put_hash-Good :
        (n : ℕ) (hash buf : List ℕ) (id : ℕ) (r : Result Unit) (s s' : Parts D)
        → Good n s
        → HashOf value sha1 Used bs count some_bytes hash buf
        → IsBlock value sha1 Used bs count some_bytes buf
        → Holding s id buf
        → on_ids (IdStore.put_id db sha1 hash id) s ≡ ret (r, s')
        → Good n s' × Keeps Mapping Holding s s'
    put_hash-Good n hash buf id r s s' good hashed block held e =
        let (put, shape) =
          on_ids-eq value sha1 Used bs count some_bytes (IdStore.put_id db sha1 hash id) r s s' e in
        let stored = put_id-eq hash id r s.ids s'.ids put in
        ids-Good value sha1 Used bs count some_bytes n s s' shape
          (λ key raw h.
            elim (laws.set_keeps hash (le_bytes 8 id) key raw r s.ids.database s'.ids.database
              stored h) [
                | inl before ↦ good.known key raw before
                | inr (same_key, same_raw) ↦ (id, buf, same_raw, same_key ∙ hashed, block, held)
              ])
          good
