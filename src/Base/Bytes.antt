-- ===== src/Base/Bytes.antt =====
-- A byte buffer is a list of numbers. `htons`, `htonl`, `htobe64` followed by `memcpy` write the
-- bytes of a number, highest first; `memcpy` followed by `ntohs`, `ntohl` reads them back.
use Prim.Native.Nat.{ℕ, ◌+◌, ◌*◌, ◌/◌, ◌%◌, ◌^◌, ◌≤◌, ◌<◌}
use mathlib.Core.Path.{◌≡◌, refl, ap, ap₂, ◌∙◌}
use mathlib.Core.List.{List, [], ◌∷◌, ◌++◌}
use native.Mathlib.Omega.{arith}
use dns_plus_plus.Base.Memory.{Access, done, fault}
use dns_plus_plus.Base.Lists.{length, All, drop}

abbrev pub Byte : Type 0
Byte = ℕ

abbrev pub Text : Type 0
Text = List ℕ

abbrev pub IsByte : ℕ → Type 0
IsByte b = b < 256

abbrev pub bytes_16 : ℕ → List ℕ
bytes_16 v = v / 256 % 256 ∷ v % 256 ∷ []

abbrev pub bytes_32 : ℕ → List ℕ
bytes_32 v = v / 2 ^ 24 % 256 ∷ v / 2 ^ 16 % 256 ∷ v / 256 % 256 ∷ v % 256 ∷ []

abbrev pub bytes_64 : ℕ → List ℕ
bytes_64 v = bytes_32 (v / 2 ^ 32) ++ bytes_32 v

-- The first bytes of what is left of a buffer; a buffer that is too short is a fault.
unfoldable pub head_16 : List ℕ → Access ℕ
head_16 (a ∷ b ∷ rest) = done (a * 256 + b)
head_16 (a ∷ []) = fault
head_16 [] = fault

unfoldable pub head_32 : List ℕ → Access ℕ
head_32 (a ∷ b ∷ c ∷ d ∷ rest) = done (a * 2 ^ 24 + b * 2 ^ 16 + c * 256 + d)
head_32 (a ∷ b ∷ c ∷ []) = fault
head_32 (a ∷ b ∷ []) = fault
head_32 (a ∷ []) = fault
head_32 [] = fault

-- A read at an offset.
unfoldable pub read_16 : List ℕ → ℕ → Access ℕ
unfolding head_16
read_16 buf at = head_16 (drop at buf)

unfoldable pub read_32 : List ℕ → ℕ → Access ℕ
unfolding head_32
read_32 buf at = head_32 (drop at buf)

pub head_16-bytes_16 : (v : ℕ) (rest : List ℕ) → v < 2 ^ 16 → head_16 (bytes_16 v ++ rest) ≡ done v
unfolding head_16
head_16-bytes_16 v rest h = ap done (omega arith)

pub head_32-bytes_32 : (v : ℕ) (rest : List ℕ) → v < 2 ^ 32 → head_32 (bytes_32 v ++ rest) ≡ done v
unfolding head_32
head_32-bytes_32 v rest h = ap done (omega arith)

-- Bytes that are there are read as the number that they write.
pub head_16-split :
    (xs : List ℕ)
    → All IsByte xs
    → 2 ≤ length xs
    → (v : ℕ) × (v < 2 ^ 16) × (head_16 xs ≡ done v) × (xs ≡ bytes_16 v ++ drop 2 xs)
unfolding head_16
head_16-split [] b h = absurd (omega arith)
head_16-split (x ∷ []) b h = absurd (omega arith)
head_16-split (x ∷ y ∷ rest) b h =
    (x * 256 + y, omega arith, refl, ap₂ (λ p q. p ∷ q ∷ rest) (omega arith) (omega arith))

pub head_32-split :
    (xs : List ℕ)
    → All IsByte xs
    → 4 ≤ length xs
    → (v : ℕ) × (v < 2 ^ 32) × (head_32 xs ≡ done v) × (xs ≡ bytes_32 v ++ drop 4 xs)
unfolding head_32
head_32-split [] b h = absurd (omega arith)
head_32-split (x ∷ []) b h = absurd (omega arith)
head_32-split (x ∷ y ∷ []) b h = absurd (omega arith)
head_32-split (x ∷ y ∷ z ∷ []) b h = absurd (omega arith)
head_32-split (x ∷ y ∷ z ∷ w ∷ rest) b h = (
  x * 2 ^ 24 + y * 2 ^ 16 + z * 256 + w,
  omega arith,
  refl,
  ap₂ (λ p q. p ∷ q ∷ z ∷ w ∷ rest) (omega arith) (omega arith)
      ∙ ap₂
          (λ p q.
            (x * 2 ^ 24 + y * 2 ^ 16 + z * 256 + w) / 2 ^ 24 % 256
            ∷ (x * 2 ^ 24 + y * 2 ^ 16 + z * 256 + w) / 2 ^ 16 % 256
            ∷ p
            ∷ q
            ∷ rest)
          (omega arith) (omega arith),
)

-- The number in the first four bytes.
abbrev pub be_32 : List ℕ → ℕ
be_32 (a ∷ b ∷ c ∷ d ∷ rest) = a * 2 ^ 24 + b * 2 ^ 16 + c * 256 + d
be_32 _ = 0

pub head_32-be_32 : (xs more : List ℕ) → 4 ≤ length xs → head_32 (xs ++ more) ≡ done (be_32 xs)
unfolding head_32
head_32-be_32 [] more h = absurd (omega arith)
head_32-be_32 (x ∷ []) more h = absurd (omega arith)
head_32-be_32 (x ∷ y ∷ []) more h = absurd (omega arith)
head_32-be_32 (x ∷ y ∷ z ∷ []) more h = absurd (omega arith)
head_32-be_32 (x ∷ y ∷ z ∷ w ∷ rest) more h = refl

pub be_32-bytes_32 : (v : ℕ) (rest : List ℕ) → v < 2 ^ 32 → be_32 (bytes_32 v ++ rest) ≡ v
be_32-bytes_32 v rest h = omega arith
