-- ===== src/Crypto/Gmp.antt =====
-- What the code takes from GMP and from the standard library, as parameters. `mpz_class` itself is
-- the type of integers; its operators are the ones of `Base.Integers`.
use dns_plus_plus.Base.{ℕ, ◌^◌, ◌%◌, ◌<◌, ◌≡◌, ◌≢◌, [], Bool, Text, Access, done, ℤ, pos}

-- `rng` numbers are states of the `gmp_randclass`. `invert` gives the value it leaves in its first
-- argument and whether it reports success.
pub record Gmp : Type 0 where
  pub powm : ℤ → ℤ → ℤ → Access ℤ
  pub invert : ℤ → ℤ → ℤ × Bool
  pub lcm : ℤ → ℤ → ℤ
  pub size_in_base_2 : ℤ → ℕ
  pub next_prime : ℤ → ℤ
  pub set_bit : ℤ → ℕ → ℤ
  pub z_bits : ℕ → ℕ → ℤ × ℕ
  pub z_range : ℤ → ℕ → ℤ × ℕ
  pub from_hex : Text → ℤ
  pub to_hex : ℤ → Text
  pub hash : Text → ℕ

-- The documented behaviour that the proofs rest on.
pub record GmpLaws (gmp : Gmp) : Type 0 where
  pub powm_lem : (b e m : ℕ) → 0 < m → Gmp.powm gmp (pos b) (pos e) (pos m) ≡ done (pos (b ^ e % m))
  pub from_hex-to_hex : (v : ℤ) → Gmp.from_hex gmp (Gmp.to_hex gmp v) ≡ v
  pub to_hex-ne-nil : (v : ℤ) → Gmp.to_hex gmp v ≢ []
