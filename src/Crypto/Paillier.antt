-- ===== src/Crypto/Paillier.antt =====
-- `class Paillier` of crypto/Paillier.h and crypto/Paillier.cpp.
use dns_plus_plus.Base.{
  ℕ, zero, suc, ◌-◌, ◌/◌, ◌==◌, if◌then◌else◌, Access, done, fault, stuck, ◌>>=◌, ℤ, pos, ◌+ℤ◌,
  ◌-ℤ◌, ◌*ℤ◌, tdiv, tmod, eq_ℤ,
}
use dns_plus_plus.Crypto.Gmp.{Gmp}

-- The members. `rng` is the state of `rng_`, which also the `const` methods advance.
pub record Paillier : Type 0 where
  pub p : ℤ
  pub q : ℤ
  pub n : ℤ
  pub n_sq : ℤ
  pub lambda : ℤ
  pub g : ℤ
  pub mu : ℤ
  pub e_m : ℤ
  pub d_m : ℤ
  pub r_m : ℤ
  pub rng : ℕ

-- `L(x)`, with its assertion that x is 1 modulo n.
unfoldable pub l_function : ℤ → ℤ → Access ℤ
l_function n x = tmod (x -ℤ pos 1) n >>= λ r. if eq_ℤ r (pos 0) then tdiv (x -ℤ pos 1) n else fault

-- A random value that must not be zero becomes one.
unfoldable pub one_for_zero : ℤ → ℤ
one_for_zero r = if eq_ℤ r (pos 0) then pos 1 else r

unfoldable pub set_params : ℤ → ℤ → ℤ → ℤ → ℤ → ℤ → ℤ → Paillier → Paillier
set_params n g mu lambda e_m d_m r_m k = record k {
  n = n;
  g = g;
  mu = mu;
  lambda = lambda;
  n_sq = n *ℤ n;
  e_m = e_m;
  d_m = d_m;
  r_m = r_m;
}

module _ (gmp : Gmp) where
  open gmp use {powm, invert, lcm, size_in_base_2, next_prime, set_bit, z_bits, z_range}

  -- The loop of `gen_prime` with the attempts left; the exception is a fault.
  unfoldable pub gen_prime : ℕ → ℕ → ℕ → Access (ℤ × ℕ)
  gen_prime zero bits rng = fault
  gen_prime (suc attempts) bits rng =
      let (drawn, rng') = z_bits bits rng in
      let p = next_prime (set_bit (set_bit drawn (bits - 1)) (bits - 2)) in
      let again = gen_prime attempts bits rng' in
      if size_in_base_2 p == bits then done (p, rng') else again

  -- The loop of `keyGen` with the attempts left: p, q and n of exactly `bits` bits.
  unfoldable pub gen_modulus : ℕ → ℕ → ℕ → Access (ℤ × ℤ × ℕ)
  unfolding gen_prime
  gen_modulus zero bits rng = fault
  gen_modulus (suc attempts) bits rng = gen_prime 32 (bits / 2) rng >>= λ (p, rng₁).
      gen_prime 32 (bits / 2) rng₁ >>= λ (q, rng₂).
      let again = gen_modulus attempts bits rng₂ in
      if size_in_base_2 (p *ℤ q) == bits then done (p, q, rng₂) else again

  -- The rest of `keyGen`. A failed inversion is only reported.
  unfoldable pub finish_key : Paillier → ℤ → ℤ → ℕ → Access Paillier
  unfolding l_function one_for_zero
  finish_key k p q rng = do
    let n = p *ℤ q
    let lambda = lcm (p -ℤ pos 1) (q -ℤ pos 1)
    g_lambda ← powm (n +ℤ pos 1) lambda (n *ℤ n)
    l ← l_function n g_lambda
    let (e_m, rng₁) = z_range n rng
    let (r, rng₂) = z_bits 992 rng₁
    done (record {
      p = p;
      q = q;
      n = n;
      n_sq = n *ℤ n;
      lambda = lambda;
      g = n +ℤ pos 1;
      mu = (invert l n).0;
      e_m = e_m;
      d_m = n -ℤ e_m;
      r_m = one_for_zero r;
      rng = rng₂;
    })

  unfoldable pub key_gen : ℕ → Paillier → Access Paillier
  unfolding gen_modulus finish_key
  key_gen bits k = gen_modulus 8 bits k.rng >>= λ (p, q, rng). finish_key k p q rng

  -- `while (r == 0) r = rng_.get_z_range(n)`, with the draws left.
  unfoldable pub draw_nonzero : ℕ → ℤ → ℕ → Access (ℤ × ℕ)
  draw_nonzero zero n rng = stuck
  draw_nonzero (suc fuel) n rng =
      let (r, rng') = z_range n rng in
      let again = draw_nonzero fuel n rng' in if eq_ℤ r (pos 0) then again else done (r, rng')

  unfoldable pub encrypt : ℕ → Paillier → ℤ → Access (ℤ × Paillier)
  unfolding draw_nonzero
  encrypt fuel k m = do
    (r, rng') ← draw_nonzero fuel k.n k.rng
    term1 ← tmod (pos 1 +ℤ m *ℤ k.n) k.n_sq
    term2 ← powm r k.n k.n_sq
    c ← tmod (term1 *ℤ term2) k.n_sq
    done (c, record k { rng = rng' })

  unfoldable pub decrypt : Paillier → ℤ → Access ℤ
  unfolding l_function
  decrypt k c = do
    c_lambda ← powm c k.lambda k.n_sq
    l ← l_function k.n c_lambda
    tmod (l *ℤ k.mu) k.n

  unfoldable pub blind_notification : Paillier → ℤ → Access (ℤ × Paillier)
  unfolding one_for_zero
  blind_notification k x = do
    let (drawn, rng') = z_range k.r_m k.rng
    let r_rand = one_for_zero drawn
    term1 ← powm k.g k.e_m k.n_sq
    term2 ← powm k.g ((k.r_m *ℤ x +ℤ r_rand) *ℤ k.lambda) k.n_sq
    c ← tmod (term1 *ℤ term2) k.n_sq
    done (c, record k { rng = rng' })

  unfoldable pub blind_subscription : Paillier → ℤ → Access ℤ
  blind_subscription k cipher = do
    term1 ← powm k.g k.d_m k.n_sq
    term2 ← powm cipher (k.r_m *ℤ k.lambda) k.n_sq
    tmod (term1 *ℤ term2) k.n_sq

unfoldable pub add : Paillier → ℤ → ℤ → Access ℤ
add k c d = tmod (c *ℤ d) k.n_sq

unfoldable pub match : Paillier → ℤ → ℤ → Access ℤ
unfolding l_function
match k bval_n bval_m = do
  y ← tmod (bval_n *ℤ bval_m) k.n_sq
  l ← l_function k.n y
  tmod (l *ℤ k.mu) k.n
