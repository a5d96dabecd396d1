-- ===== src/Base/Bytes.antt =====
-- Numbers as bytes, in the two orders of encoding/binary, and htonl on a little-endian machine.
use Prim.Native.Nat.{ℕ, zero, suc, ◌+◌, ◌*◌, ◌/◌, ◌%◌, ◌^◌, ◌<◌}
use mathlib.Core.Path.{◌≡◌, refl, ap, ◌∙◌}
use mathlib.Core.List.{List, [], ◌∷◌, ◌++◌}
use native.Mathlib.Nat.{pow-suc}
use native.Mathlib.Omega.{arith}
use usbd.Base.Lists.{length, length-append}

unfoldable pub le_value : List ℕ → ℕ
le_value [] = 0
le_value (b ∷ bs) = b + 256 * le_value bs

unfoldable pub le_bytes : ℕ → ℕ → List ℕ
le_bytes zero n = []
le_bytes (suc k) n = n % 256 ∷ le_bytes k (n / 256)

unfoldable pub be_value_from : ℕ → List ℕ → ℕ
be_value_from acc [] = acc
be_value_from acc (b ∷ bs) = be_value_from (acc * 256 + b) bs

unfoldable pub be_value : List ℕ → ℕ
unfolding be_value_from
be_value = be_value_from 0

unfoldable pub be_bytes : ℕ → ℕ → List ℕ
be_bytes zero n = []
be_bytes (suc k) n = be_bytes k (n / 256) ++ (n % 256 ∷ [])

-- The four bytes of a uint32 in the opposite order.
unfoldable pub htonl : ℕ → ℕ
unfolding le_value be_bytes
htonl n = le_value (be_bytes 4 n)

pub length-le_bytes : (k n : ℕ) → length (le_bytes k n) ≡ k
unfolding le_bytes
length-le_bytes zero n = refl
length-le_bytes (suc k) n = ap suc (length-le_bytes k (n / 256))

pub length-be_bytes : (k n : ℕ) → length (be_bytes k n) ≡ k
unfolding be_bytes
length-be_bytes zero n = refl
length-be_bytes (suc k) n =
    omega (arith, length-append (be_bytes k (n / 256)) (n % 256 ∷ []), length-be_bytes k (n / 256))

pub le_value-le_bytes : (k n : ℕ) → n < 256 ^ k → le_value (le_bytes k n) ≡ n
unfolding le_value le_bytes
le_value-le_bytes zero n h = omega arith
le_value-le_bytes (suc k) n h =
    let e : 256 ^ suc k ≡ 256 ^ k * 256 = pow-suc 256 k in
    let ih : le_value (le_bytes k (n / 256)) ≡ n / 256 =
      le_value-le_bytes k (n / 256) (omega arith) in
    omega arith

be_value_from-snoc :
    (acc : ℕ) (bs : List ℕ) (b : ℕ)
    → be_value_from acc (bs ++ (b ∷ [])) ≡ be_value_from acc bs * 256 + b
unfolding be_value_from
be_value_from-snoc acc [] b = refl
be_value_from-snoc acc (x ∷ bs) b = be_value_from-snoc (acc * 256 + x) bs b

pub be_value-be_bytes : (k n : ℕ) → n < 256 ^ k → be_value (be_bytes k n) ≡ n
unfolding be_value be_bytes
be_value-be_bytes zero n h = omega arith
be_value-be_bytes (suc k) n h =
    let e : 256 ^ suc k ≡ 256 ^ k * 256 = pow-suc 256 k in
    let ih : be_value (be_bytes k (n / 256)) ≡ n / 256 =
      be_value-be_bytes k (n / 256) (omega arith) in
    be_value_from-snoc 0 (be_bytes k (n / 256)) (n % 256) ∙ omega arith

pub htonl-lt : (n : ℕ) → htonl n < 256 ^ 4
unfolding htonl
htonl-lt n = omega arith
