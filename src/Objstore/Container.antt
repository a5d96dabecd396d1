-- ===== src/Objstore/Container.antt =====
-- stow.Container and stow.Item of github.com/graymeta/stow, as far as pkg/devices/objstore wraps them:
-- an interface that the store's driver implements, and that the compressing and the encrypting
-- containers implement on top of another container.
use usbd.Base.{
  Error, ◌≢◌, Error, failed, ℤ, pos, ℕ, ◌^◌, ◌<◌, ◌≡◌, refl, ◌≢◌, ◌⊎◌, inl, inr, Bool, true, false,
  Option, none, some, List, if◌then◌else◌, Bool-cases, length,
}
use usbd.Base.Result.{Result, ok, err}
use usbd.Util.Numerals.Inverse.{text_equal→eq}
use usbd.Util.Numerals.{text_equal}

-- What a stream gives until its end, or the error that ends it.
abbrev pub Stream : Type 0
Stream = Result (List ℕ)

-- An interface{}: a string, or a value of another type.
pub data Value : Type 0 where
  text : List ℕ → Value
  other : Value

-- The string in a header that has to be there.
abbrev pub text_of : Option Value → Result (List ℕ)
text_of none = err failed
text_of (some other) = err failed
text_of (some (text t)) = ok t

-- map[string]interface{}
abbrev pub Metadata : Type 0
Metadata = List ℕ → Option Value

abbrev pub with_header : List ℕ → Value → Metadata → Metadata
with_header key value md k = if text_equal k key then some value else md k

-- The methods of a container and of its items, over the state `W` of the store. The world may let
-- any call fail.
pub record Container (W Item : Type 0) : Type 0 where
  pub size_unknown : ℤ  -- stow.SizeUnknown
  pub put : List ℕ → Stream → ℤ → Metadata → W → Result Item × W
  pub metadata : Item → W → Result Metadata × W
  pub size : Item → W → Result ℤ × W
  pub open_item : Item → W → Result Stream × W

module _ {W A B : Type 0} where
  -- Go on with the value of a call, or return its error.
  abbrev pub call : Result A × W → (A → W → Result B × W) → Result B × W
  call (ok a, w) f = f a w
  call (err e, w) f = (err e, w)

  -- A call that returned a value did so in both parts.
  pub call-ok :
      (r : Result A × W) (f : A → W → Result B × W) (b : B) (w' : W)
      → call r f ≡ (ok b, w')
      → (a : A) × (w : W) × (r ≡ (ok a, w)) × (f a w ≡ (ok b, w'))
  call-ok (ok a, w) f b w' h = (a, w, refl, h)
  call-ok (err e, w) f b w' h = absurd (cc)

-- What a container keeps. `Has item bytes`: the item was put with the bytes; `Sized`: with their number
-- announced; `Tagged`: with the metadata. `own key` says that the container uses a key of the
-- metadata for itself: callers keep off it.
pub record IsContainer {W Item : Type 0} (c : Container W Item) (own : List ℕ → Bool)
    (Has : Item → List ℕ → Type 0) (Sized : Item → ℕ → Type 0) (Tagged : Item → Metadata → Type 0)
    : Type 0 where
  pub put_stores :
      (name bytes : List ℕ) (size : ℤ) (md : Metadata) (item : Item) (w w' : W)
      → ((key : List ℕ) → own key ≡ true → md key ≡ none)
      → (size ≡ c.size_unknown) ⊎ (size ≡ pos (length bytes))
      → c.put name (ok bytes) size md w ≡ (ok item, w')
      → Has item bytes × Tagged item md
  -- A stream that breaks off is not taken for a whole one.
  pub put_broken :
      (name : List ℕ) (e : Error) (size : ℤ) (md : Metadata) (item : Item) (w w' : W)
      → c.put name (err e) size md w ≢ (ok item, w')
  pub put_sized :
      (name bytes : List ℕ) (md : Metadata) (item : Item) (w w' : W)
      → ((key : List ℕ) → own key ≡ true → md key ≡ none)
      → length bytes < 2 ^ 63
      → c.put name (ok bytes) (pos (length bytes)) md w ≡ (ok item, w')
      → Sized item (length bytes)
  pub metadata_kept :
      (item : Item) (md md' : Metadata) (key : List ℕ) (w w' : W)
      → Tagged item md
      → c.metadata item w ≡ (ok md', w')
      → own key ≡ false
      → md' key ≡ md key
  pub size_reads :
      (item : Item) (n : ℕ) (k : ℤ) (w w' : W)
      → Sized item n
      → c.size item w ≡ (ok k, w')
      → k ≡ pos n
  -- The stream may break off with an error.
  pub open_reads :
      (item : Item) (bytes got : List ℕ) (w w' : W)
      → Has item bytes
      → c.open_item item w ≡ (ok (ok got), w')
      → got ≡ bytes

-- The metadata under an item, up to the keys that a wrapper and the containers below it use.
abbrev pub TaggedUpTo :
    {Item : Type 0} → (List ℕ → Bool) → (Item → Metadata → Type 0) → Item → Metadata → Type 0
TaggedUpTo keys Tagged item md =
    (inner : Metadata) × Tagged item inner
    × ((key : List ℕ) → keys key ≡ false → inner key ≡ md key)

pub other_key :
    (own : List ℕ → Bool) (a key : List ℕ)
    → own a ≡ false
    → own key ≡ true
    → text_equal key a ≡ false
other_key own a key f k = elim (Bool-cases (text_equal key a)) [
  | inl same ↦ absurd (let e : key ≡ a = text_equal→eq key a same in cc)
  | inr differs ↦ differs
]

pub stream_value : {a b : List ℕ} → ◌≡◌ {A = Result Stream} (ok (ok a)) (ok (ok b)) → a ≡ b
stream_value e = cc

pub pair_value :
    {A W : Type 0} {a b : A} {w w' : W} → ◌≡◌ {A = Result A × W} (ok a, w) (ok b, w') → a ≡ b
pair_value e = cc

-- A store that works: every whole stream is taken, and what it has is read back.
pub record IsReliable {W Item : Type 0} (c : Container W Item) (Has : Item → List ℕ → Type 0)
    (Tagged : Item → Metadata → Type 0) : Type 0 where
  pub puts :
      (name bytes : List ℕ) (size : ℤ) (md : Metadata) (w : W)
      → (item : Item) × (w' : W) × (c.put name (ok bytes) size md w ≡ (ok item, w'))
  pub tells :
      (item : Item) (md : Metadata) (w : W)
      → Tagged item md
      → (md' : Metadata) × (w' : W) × (c.metadata item w ≡ (ok md', w'))
  pub opens :
      (item : Item) (bytes : List ℕ) (w : W)
      → Has item bytes
      → (w' : W) × (c.open_item item w ≡ (ok (ok bytes), w'))
