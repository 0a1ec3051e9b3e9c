-- ===== src/Crypto/Generation.antt =====
-- Proofs on `keyGen`.
use dns_plus_plus.Base.{
  done-inj, ℕ, zero, suc, ◌/◌, ◌-◌, ◌%◌, ◌≤◌, ◌<◌, ◌≡◌, ◌≢◌, refl, sym, subst, Bool, true, false,
  if◌then◌else◌, ◌==◌, done, >>=-eq-done, ℤ, pos, negsuc, ◌+ℤ◌, ◌-ℤ◌, ◌*ℤ◌, arith,
}
use dns_plus_plus.Crypto.Gmp.{Gmp}
use dns_plus_plus.Crypto.Paillier.{
  Paillier, l_function, one_for_zero, gen_prime, gen_modulus, finish_key, key_gen,
}

one_for_zero-ne-zero : (r : ℤ) → one_for_zero r ≢ pos 0
unfolding one_for_zero
one_for_zero-ne-zero (pos zero) e = cc
one_for_zero-ne-zero (pos (suc r)) e = ground arith
one_for_zero-ne-zero (negsuc r) e = cc

-- A prime number.
pub record IsPrime (a : ℤ) : Type 0 where
  pub value : ℕ
  pub same : a ≡ pos value
  pub above_one : 2 ≤ value
  pub undivided : (d : ℕ) → 2 ≤ d → d < value → value % d ≢ 0

module _ (gmp : Gmp) where
  open gmp use {powm, lcm, size_in_base_2, next_prime, set_bit, z_range, z_bits}

  -- A result of `gen_prime`: of the size asked for, and from `mpz_nextprime`.
  record IsDrawn (bits : ℕ) (p : ℤ) : Type 0 where
    size : size_in_base_2 p ≡ bits
    start : ℤ
    next : p ≡ next_prime start

  gen_prime-IsDrawn :
      (attempts bits rng : ℕ) (t : ℤ × ℕ)
      → gen_prime gmp attempts bits rng ≡ done t
      → IsDrawn bits t.0
  unfolding gen_prime
  gen_prime-IsDrawn zero bits rng t h = cc
  gen_prime-IsDrawn (suc attempts) bits rng t h =
      settled _ (gen_prime-IsDrawn attempts bits (z_bits bits rng).1 t)
        (size_in_base_2 (next_prime (set_bit (set_bit (z_bits bits rng).0 (bits - 1)) (bits - 2)))
          == bits)
        refl h
    where
      settled :
          (start : ℤ)
          → (gen_prime gmp attempts bits (z_bits bits rng).1 ≡ done t → IsDrawn bits t.0)
          → (b : Bool) → (size_in_base_2 (next_prime start) == bits) ≡ b
          → (if b
              then done (next_prime start, (z_bits bits rng).1)
              else gen_prime gmp attempts bits (z_bits bits rng).1)
            ≡ done t
          → IsDrawn bits t.0
      settled start later true fits e =
          subst (λ u. IsDrawn bits u.0) (done-inj e)
            (record { size = ground (arith, fits); start = start; next = refl })
      settled start later false fits e = later e

  -- The two factors of a modulus of the right size.
  record IsPair (bits : ℕ) (p q : ℤ) : Type 0 where
    drawn_p : IsDrawn (bits / 2) p
    drawn_q : IsDrawn (bits / 2) q
    size : size_in_base_2 (p *ℤ q) ≡ bits

  gen_modulus-IsPair :
      (attempts bits rng : ℕ) (t : ℤ × ℤ × ℕ)
      → gen_modulus gmp attempts bits rng ≡ done t
      → IsPair bits t.0 t.1
  unfolding gen_modulus
  gen_modulus-IsPair zero bits rng t h = cc
  gen_modulus-IsPair (suc attempts) bits rng t h =
      let ((p, rng₁), made_p, h₁) = >>=-eq-done (gen_prime gmp 32 (bits / 2) rng) _ h in
      let ((q, rng₂), made_q, h₂) = >>=-eq-done (gen_prime gmp 32 (bits / 2) rng₁) _ h₁ in
      settled p q rng₂ (gen_prime-IsDrawn 32 (bits / 2) rng (p, rng₁) made_p)
        (gen_prime-IsDrawn 32 (bits / 2) rng₁ (q, rng₂) made_q)
        (gen_modulus-IsPair attempts bits rng₂ t) (size_in_base_2 (p *ℤ q) == bits) refl h₂
    where
      settled :
          (p q : ℤ) (rng₂ : ℕ)
          → IsDrawn (bits / 2) p
          → IsDrawn (bits / 2) q
          → (gen_modulus gmp attempts bits rng₂ ≡ done t → IsPair bits t.0 t.1)
          → (b : Bool) → (size_in_base_2 (p *ℤ q) == bits) ≡ b
          → (if b then done (p, q, rng₂) else gen_modulus gmp attempts bits rng₂) ≡ done t
          → IsPair bits t.0 t.1
      settled p q rng₂ drawn_p drawn_q later true fits e =
          subst (λ u. IsPair bits u.0 u.1) (done-inj e)
            (record { drawn_p = drawn_p; drawn_q = drawn_q; size = ground (arith, fits) })
      settled p q rng₂ drawn_p drawn_q later false fits e = later e

  -- The members of a key, with the factors that it was made of.
  record IsMade (bits : ℕ) (k : Paillier) : Type 0 where
    pair : IsPair bits k.p k.q
    product : k.n ≡ k.p *ℤ k.q
    factor : k.r_m ≢ pos 0

  finish_key-IsMade :
      (bits : ℕ) (k k' : Paillier) (p q : ℤ) (rng : ℕ)
      → IsPair bits p q
      → finish_key gmp k p q rng ≡ done k'
      → IsMade bits k'
  unfolding finish_key
  finish_key-IsMade bits k k' p q rng pair h =
      let (g_lambda, _, h₁) =
        >>=-eq-done (powm (p *ℤ q +ℤ pos 1) (lcm (p -ℤ pos 1) (q -ℤ pos 1)) (p *ℤ q *ℤ (p *ℤ q))) _
          h in
      let (l, _, h₂) = >>=-eq-done (l_function (p *ℤ q) g_lambda) _ h₁ in
      subst (IsMade bits) (done-inj h₂) (record {
        pair = pair;
        product = refl;
        factor = one_for_zero-ne-zero (z_bits 992 (z_range (p *ℤ q) rng).1).0;
      })

  key_gen-IsMade : (bits : ℕ) (k k' : Paillier) → key_gen gmp bits k ≡ done k' → IsMade bits k'
  unfolding key_gen
  key_gen-IsMade bits k k' h =
      let ((p, q, rng), made, h₁) = >>=-eq-done (gen_modulus gmp 8 bits k.rng) _ h in
      finish_key-IsMade bits k k' p q rng (gen_modulus-IsPair 8 bits k.rng (p, q, rng) made) h₁

  pub key_gen-size :
      (bits : ℕ) (k k' : Paillier) → key_gen gmp bits k ≡ done k' → size_in_base_2 k'.n ≡ bits
  key_gen-size bits k k' h =
      let made = key_gen-IsMade bits k k' h in
      subst (λ n. size_in_base_2 n ≡ bits) (sym made.product) made.pair.size

  -- What a key that `keyGen` makes is.
  pub record IsFresh (bits : ℕ) (k : Paillier) : Type 0 where
    pub prime_p : IsPrime k.p
    pub prime_q : IsPrime k.q
    pub size_p : size_in_base_2 k.p ≡ bits / 2
    pub size_q : size_in_base_2 k.q ≡ bits / 2
    pub product : k.n ≡ k.p *ℤ k.q
    pub size : size_in_base_2 k.n ≡ bits
    pub factor : k.r_m ≢ pos 0

  -- If `mpz_nextprime` returns primes: every key that `keyGen` returns has two primes of exactly
  -- half the size asked for, the modulus is their product and of exactly that size, and the
  -- blinding factor is not zero.
  pub key_gen-IsFresh :
      (bits : ℕ) (k k' : Paillier)
      → ((a : ℤ) → IsPrime (next_prime a))
      → key_gen gmp bits k ≡ done k'
      → IsFresh bits k'
  key_gen-IsFresh bits k k' primes h =
      let made = key_gen-IsMade bits k k' h in
      let p = made.pair.drawn_p in
      let q = made.pair.drawn_q in
      record {
        prime_p = subst IsPrime (sym p.next) (primes p.start);
        prime_q = subst IsPrime (sym q.next) (primes q.start);
        size_p = p.size;
        size_q = q.size;
        product = made.product;
        size = key_gen-size bits k k' h;
        factor = made.factor;
      }
