-- ===== src/Geo/Numbers.antt =====
-- Doubles, as a parameter. A `float` is its 32-bit pattern: `widen` converts it to a double, and
-- `narrow` is the cast back.
use dns_plus_plus.Base.{ℕ, ◌<◌, ◌^◌, Bool, true, false, ◌≡◌}

pub record Floats : Type 1 where
  pub Double : Type 0
  pub lt : Double → Double → Bool
  pub le : Double → Double → Bool
  pub eq : Double → Double → Bool
  pub add : Double → Double → Double
  pub sub : Double → Double → Double
  pub mul : Double → Double → Double
  pub div : Double → Double → Double
  pub cos : Double → Double
  pub sqrt : Double → Double
  pub two : Double
  pub pi : Double
  pub one_eighty : Double
  pub max_value : Double
  pub widen : ℕ → Double
  pub narrow : Double → ℕ

-- The order of IEEE 754: no double is less than itself.
pub record FloatLaws (f : Floats) : Type 1 where
  pub lt_irrefl : (a : Floats.Double f) → Floats.lt f a a ≡ false

-- A `float` has 32 bits.
pub record FloatBits (f : Floats) : Type 1 where
  pub narrow_fits : (a : Floats.Double f) → Floats.narrow f a < 2 ^ 32

-- A double that is not a NaN is at most itself.
abbrev pub IsNumber : (f : Floats) → Floats.Double f → Type 0
IsNumber f a = Floats.le f a a ≡ true

-- The comparisons of IEEE 754: transitive, with the greater of two doubles not less, and total on
-- numbers.
pub record OrderLaws (f : Floats) : Type 1 where
  pub lt_trans :
      (a b c : Floats.Double f)
      → Floats.lt f a b ≡ true
      → Floats.lt f b c ≡ true
      → Floats.lt f a c ≡ true
  pub le_trans :
      (a b c : Floats.Double f)
      → Floats.le f a b ≡ true
      → Floats.le f b c ≡ true
      → Floats.le f a c ≡ true
  pub lt_le : (a b : Floats.Double f) → Floats.lt f a b ≡ true → Floats.le f a b ≡ true
  pub not_lt_le :
      (a b : Floats.Double f)
      → IsNumber f a
      → IsNumber f b
      → Floats.lt f a b ≡ false
      → Floats.le f b a ≡ true
