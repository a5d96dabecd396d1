-- ===== src/Server/Config/Known.antt =====
-- What a configuration from the command line is sure to have.
use native.Mathlib.Nat.{
  le_refl, le_of_lt, div-mul-le_self, lt_of_mul-lt-mul_right, lt_of_le_of_lt, le_of_lt, le_refl,
}
use mathlib.Core.Path.{subst}
use usbd.Base.{
  pos, ltb_ℤ, int64, ℕ, ◌*◌, ◌/◌, ◌^◌, ◌≤◌, ◌<◌, ◌≡◌, refl, sym, ap, ◌∙◌, ◌≢◌, ◌⊎◌, inl, inr, List,
  [], ◌∷◌, arith, ltb, ◌==◌, if◌then◌else◌, ltb→lt, ltb→le, if_case,
}
use usbd.Base.Result.{>>-eq-ok, if-eq-ok, ok, ◌>>=◌, ◌>>◌, >>=-eq-ok, ok_inj}
use usbd.Util.Numerals.{codes, text_equal}
use usbd.Objstore.Modes.{
  CompressMode, identity, unknown, s2, gzip, EncryptMode, plain, unknown_cipher, aes_ctr, aes_cfb,
  aes_ofb, compression_from_name, cipher_from_name,
}
use usbd.Server.Config.{
  key_for, check_args, config_with, config_of, key_from, Args, System, ObjStoreConfig, budget_bytes,
  rec_concur_flush, get_key, known_cipher, known_compression, get_cipher, get_objstore_config,
  valid_aes_key, key_from,
}

int64-small : (n : ℕ) → n < 2 ^ 63 → int64 (pos n) ≡ pos n
unfolding int64
int64-small n h = ground arith

over_budget : (n : ℕ) → n < 2 ^ 63 → ltb_ℤ (pos budget_bytes) (int64 (pos n)) ≡ ltb budget_bytes n
over_budget n h = ap (λ z. ltb_ℤ (pos budget_bytes) z) (int64-small n h) ∙ ground arith

at_least-positive : (n : ℕ) → 0 < (if ltb n 1 then 1 else n)
at_least-positive n = ground arith

-- At least one segment is flushed at a time, whatever the machine and the size of an object.
pub rec_concur_flush-positive : (cpus objsize : ℕ) → 0 < rec_concur_flush cpus objsize
unfolding rec_concur_flush
rec_concur_flush-positive cpus objsize = at_least-positive (
    if ltb_ℤ (pos budget_bytes) (int64 (pos (cpus * objsize)))
    then budget_bytes / objsize
    else cpus)

module _ (cpus objsize : ℕ) where
  -- A count that was recommended is one, or no more than the processors and within the budget.
  abbrev Fits : ℕ → Type 0
  Fits rec = (rec ≡ 1) ⊎ ((rec ≤ cpus) × (rec * objsize ≤ budget_bytes))

  at_least-Fits : (n : ℕ) → Fits n → Fits (if ltb n 1 then 1 else n)
  at_least-Fits n h = if_case Fits (ltb n 1) 1 n (λ _. inl refl) (λ _. h)

  share-Fits : budget_bytes < cpus * objsize → Fits (budget_bytes / objsize)
  share-Fits h =
      let share = div-mul-le_self budget_bytes objsize in
      inr (le_of_lt (lt_of_mul-lt-mul_right objsize (lt_of_le_of_lt share h)), share)

  pub rec_concur_flush-Fits : cpus * objsize < 2 ^ 63 → Fits (rec_concur_flush cpus objsize)
  unfolding rec_concur_flush
  rec_concur_flush-Fits fits = at_least-Fits _ (
      if_case Fits _ (budget_bytes / objsize) cpus
        (λ h. share-Fits (ltb→lt _ _ (sym (over_budget (cpus * objsize) fits) ∙ h)))
        (λ h. inr (le_refl cpus, ltb→le _ _ (sym (over_budget (cpus * objsize) fits) ∙ h))))

module _ (sys : System) where
  known_cipher-ok : (m mode : EncryptMode) → known_cipher sys m ≡ ok mode → mode ≢ unknown_cipher
  known_cipher-ok plain mode h = cc
  known_cipher-ok unknown_cipher mode h = cc
  known_cipher-ok aes_ctr mode h = cc
  known_cipher-ok aes_cfb mode h = cc
  known_cipher-ok aes_ofb mode h = cc

  known_compression-ok :
      (m mode : CompressMode) → known_compression sys m ≡ ok mode → mode ≢ unknown
  known_compression-ok identity mode h = cc
  known_compression-ok unknown mode h = cc
  known_compression-ok s2 mode h = cc
  known_compression-ok gzip mode h = cc

  -- The key of a mode was not looked for, or was made or found in the file of keys, or it is valid.
  abbrev pub KeyOf : List ℕ → EncryptMode → List ℕ → Type 0
  KeyOf source mode key =
      ((mode ≡ plain) × (key ≡ [])) ⊎ ((source ≡ []) ⊎ (valid_aes_key key ≡ ok tt))

  checked-valid : (k key : List ℕ) → (do valid_aes_key k; ok k) ≡ ok key → valid_aes_key key ≡ ok tt
  checked-valid k key h =
      let (valid, same) = >>-eq-ok (valid_aes_key k) (ok k) h in
      ap valid_aes_key (sym (ok_inj same)) ∙ valid

  get_key-valid :
      (source key : List ℕ)
      → get_key sys source ≡ ok key
      → (source ≡ []) ⊎ (valid_aes_key key ≡ ok tt)
  unfolding get_key
  get_key-valid [] key h = inl refl
  get_key-valid (c ∷ source) key h =
      let (k, _, got) = >>=-eq-ok (λ k. do valid_aes_key k; ok k) (key_from sys (c ∷ source)) h in
      inr (checked-valid k key got)

  abbrev Cipher : List ℕ → EncryptMode × List ℕ → Type 0
  Cipher source cipher = (cipher.0 ≢ unknown_cipher) × KeyOf source cipher.0 cipher.1

  key_for-Cipher :
      (source : List ℕ) (mode : EncryptMode) (cipher : EncryptMode × List ℕ)
      → mode ≢ unknown_cipher
      → key_for sys source mode ≡ ok cipher
      → Cipher source cipher
  key_for-Cipher source mode cipher known h =
      let (key, got, same) = >>=-eq-ok (λ key. ok (mode, key)) (get_key sys source) h in
      subst (Cipher source) (ok_inj same) (known, inr (get_key-valid source key got))

  get_cipher-Cipher :
      (name source : List ℕ) (cipher : EncryptMode × List ℕ)
      → get_cipher sys name source ≡ ok cipher
      → Cipher source cipher
  unfolding get_cipher
  get_cipher-Cipher name source cipher h =
      elim (if-eq-ok (text_equal name (codes "identity")) (ok (plain, []))
        (known_cipher sys (cipher_from_name name) >>= key_for sys source) h) [
          | inl e ↦ subst (Cipher source) (ok_inj e) ((λ p. cc), inl (refl, refl))
          | inr e ↦
              let (mode, known, rest) =
                >>=-eq-ok (key_for sys source) (known_cipher sys (cipher_from_name name)) e in
              key_for-Cipher source mode cipher (known_cipher-ok _ mode known) rest
        ]

  -- The modes are known, a segment may be flushed, and the key is one that the source stands for.
  abbrev pub IsKnown : Args → ObjStoreConfig → Type 0
  IsKnown args cfg =
      (cfg.aes_mode ≢ unknown_cipher)
      × (cfg.compress_mode ≢ unknown)
      × (0 < cfg.concur_flush)
      × KeyOf args.aes_key cfg.aes_mode cfg.aes_key

  count-positive : (cpus objsize n : ℕ) → 0 < (if n == 0 then rec_concur_flush cpus objsize else n)
  count-positive cpus objsize n =
      if_case (λ (k : ℕ). 0 < k) (n == 0) (rec_concur_flush cpus objsize) n
        (λ _. rec_concur_flush-positive cpus objsize) (λ h. ground arith)

  -- A configuration that the program goes on with has modes that it knows, at least one flushing
  -- worker, and a key that is valid unless no mode was chosen or the key was not given.
  pub get_objstore_config-IsKnown :
      (args : Args) (cfg : ObjStoreConfig)
      → get_objstore_config sys args ≡ ok cfg
      → IsKnown args cfg
  unfolding get_objstore_config
  get_objstore_config-IsKnown args cfg h =
      let looked = get_cipher sys args.aes_mode args.aes_key in
      let compression = known_compression sys (compression_from_name args.compress) in
      let (_, h1) = >>-eq-ok (check_args sys args) (looked >>= config_with sys args) h in
      let (cipher, got, h2) = >>=-eq-ok (config_with sys args) looked h1 in
      let (mode, known, h3) =
        >>=-eq-ok (λ mode. ok (config_of sys args cipher mode)) compression h2 in
      let (mode_known, keyed) = get_cipher-Cipher args.aes_mode args.aes_key cipher got in
      subst (IsKnown args) (ok_inj h3) (
        mode_known,
        known_compression-ok _ mode known,
        count-positive sys.cpus args.object_bytes args.concur_flush,
        keyed,
      )
