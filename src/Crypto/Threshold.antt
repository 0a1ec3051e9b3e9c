-- ===== src/Crypto/Threshold.antt =====
-- The two threshold tests of `executeMatch` in broker/broker.cpp, without its counters.
use dns_plus_plus.Base.{
  ℕ, ◌+◌, ◌*◌, ◌/◌, ◌%◌, ◌<◌, ◌≡◌, ap, ◌∙◌, arith, Bool, true, false, not, ◌||◌, [], ◌∷◌, leb,
  if◌then◌else◌, Access, done, ◌>>=◌, Text, ℤ, pos, ◌-ℤ◌, ◌*ℤ◌, tmod, tdiv, leb_ℤ,
}
use dns_plus_plus.Base.Modular.{one-add-mod}
use native.Mathlib.Nat.{mul-div_cancel}
use dns_plus_plus.Crypto.Gmp.{Gmp}
use dns_plus_plus.Crypto.Residues.{IsLinear, unscale}
use dns_plus_plus.Crypto.Cipher.{tmod_pos}

abbrev pub is_empty : Text → Bool
is_empty [] = true
is_empty (c ∷ cs) = false

-- ((bval_n * bval_m) % n^2 - 1) / n * mu % n
unfoldable pub difference : ℤ → ℤ → ℤ → ℤ → ℤ → Access ℤ
difference n mu n_sq bval_n bval_m = do
  y ← tmod (bval_n *ℤ bval_m) n_sq
  l ← tdiv (y -ℤ pos 1) n
  tmod (l *ℤ mu) n

unfoldable pub match_values : ℤ → ℤ → ℤ → ℤ → ℤ → ℤ → Access Bool
unfolding difference
match_values n mu n_sq bval_n bval_m1 bval_m2 = do
  half ← tdiv n (pos 2)
  diff1 ← difference n mu n_sq bval_n bval_m1
  if leb_ℤ half diff1
      then done false
      else (difference n mu n_sq bval_n bval_m2 >>= λ diff2. done (not (leb_ℤ diff2 half)))

module _ (gmp : Gmp) where
  open gmp use {from_hex}

  unfoldable pub match_test : ℤ → ℤ → ℤ → Text → Text → Text → Access Bool
  unfolding match_values
  match_test n mu n_sq bval_n_hex bval_m1_hex bval_m2_hex =
      if is_empty bval_n_hex || is_empty bval_m1_hex || is_empty bval_m2_hex
      then done false
      else match_values n mu n_sq (from_hex bval_n_hex) (from_hex bval_m1_hex)
          (from_hex bval_m2_hex)

-- `difference` is `match` without the assertion.
pub difference-IsLinear :
    (n b c t lam mu : ℕ)
    → 1 < n
    → lam * mu % n ≡ 1 % n
    → IsLinear n (b * c) (t * lam)
    → difference (pos n) (pos mu) (pos (n * n)) (pos b) (pos c) ≡ done (pos (t % n))
unfolding difference
difference-IsLinear n b c t lam mu h inverse p =
    rw
      (
        tmod_pos (b * c) (n * n) (grind arith),
        p ∙ one-add-mod (t * lam) n h,
        minus,
        whole,
        mul-div_cancel (t * lam % n) {n = n} (omega arith),
        tmod_pos (t * lam % n * mu) n (omega arith),
      )
      (ap (λ z. done (pos z)) (unscale n lam mu t inverse))
  where
    minus : pos (1 + t * lam % n * n) -ℤ pos 1 ≡ pos (t * lam % n * n)
    minus = ground arith

    whole : tdiv (pos (t * lam % n * n)) (pos n) ≡ done (pos (t * lam % n * n / n))
    whole = ground arith

-- What the two tests decide on the differences `a` and `b`.
abbrev pub verdict : ℕ → ℕ → ℕ → Bool
verdict half a b = if leb half a then false else not (leb b half)
