-- ===== src/Crypto/Cipher.antt =====
-- Encryption, decryption and the sum of ciphertexts, on a key that fits together.
use dns_plus_plus.Base.{
  ℕ, suc, ◌+◌, ◌*◌, ◌/◌, ◌%◌, ◌^◌, ◌<◌, ◌≡◌, ap, ◌∙◌, arith, done, ◌>>=◌, ℤ, pos, ◌-ℤ◌, tmod, tdiv,
}
use dns_plus_plus.Base.Modular.{one-add-mod}
use native.Mathlib.Nat.{mul-mod_left, mul-div_cancel}
use dns_plus_plus.Crypto.Gmp.{Gmp, GmpLaws}
use dns_plus_plus.Crypto.Paillier.{Paillier, l_function, draw_nonzero, encrypt, decrypt, add}
use dns_plus_plus.Crypto.Residues.{IsLinear, IsCipher, encrypt-IsCipher, add-IsCipher, unscale}

-- The numbers of a key.
pub record Key : Type 0 where
  pub n : ℕ
  pub lam : ℕ
  pub mu : ℕ
  pub e : ℕ
  pub d : ℕ
  pub r : ℕ

-- The members of a `Paillier` are those numbers, and they fit together as `keyGen` means them to.
pub record IsKey (k : Paillier) (s : Key) : Type 0 where
  pub same_n : k.n ≡ pos s.n
  pub same_n_sq : k.n_sq ≡ pos (s.n * s.n)
  pub same_lambda : k.lambda ≡ pos s.lam
  pub same_g : k.g ≡ pos (s.n + 1)
  pub same_mu : k.mu ≡ pos s.mu
  pub same_e : k.e_m ≡ pos s.e
  pub same_d : k.d_m ≡ pos s.d
  pub same_r : k.r_m ≡ pos s.r
  pub above_one : 1 < s.n
  pub reversed : s.e + s.d ≡ s.n
  pub inverse : s.lam * s.mu % s.n ≡ 1 % s.n

pub rng-IsKey : (k : Paillier) (s : Key) (rng : ℕ) → IsKey k s → IsKey (record k { rng = rng }) s
rng-IsKey k s rng i = record {
  same_n = i.same_n;
  same_n_sq = i.same_n_sq;
  same_lambda = i.same_lambda;
  same_g = i.same_g;
  same_mu = i.same_mu;
  same_e = i.same_e;
  same_d = i.same_d;
  same_r = i.same_r;
  above_one = i.above_one;
  reversed = i.reversed;
  inverse = i.inverse;
}

-- The draws of `encrypt`, up to the first that is not zero.
pub data Draws (gmp : Gmp) (n : ℤ) : ℕ → ℕ → ℕ → ℕ → Type 0 where
  hit :
      {fuel rng r rng' : ℕ}
      → Gmp.z_range gmp n rng ≡ (pos r, rng')
      → 0 < r
      → Draws gmp n (suc fuel) rng r rng'
  miss :
      {fuel rng rng₁ r rng' : ℕ}
      → Gmp.z_range gmp n rng ≡ (pos 0, rng₁)
      → Draws gmp n fuel rng₁ r rng'
      → Draws gmp n (suc fuel) rng r rng'

pub draw_nonzero-Draws :
    (gmp : Gmp) (n : ℤ) {fuel rng r rng' : ℕ}
    → Draws gmp n fuel rng r rng'
    → draw_nonzero gmp fuel n rng ≡ done (pos r, rng')
unfolding draw_nonzero
draw_nonzero-Draws gmp n (hit e h) = rw e (ground arith)
draw_nonzero-Draws gmp n (miss e d) = rw e (draw_nonzero-Draws gmp n d)

pub tmod_pos : (a m : ℕ) → 0 < m → tmod (pos a) (pos m) ≡ done (pos (a % m))
tmod_pos a m h = ground arith

-- `L` on a power of 1 + n.
pub l_function-IsLinear :
    (n b t : ℕ)
    → 1 < n
    → IsLinear n b t
    → l_function (pos n) (pos (b % (n * n))) ≡ done (pos (t % n))
unfolding l_function
l_function-IsLinear n b t h p =
    rw (p ∙ one-add-mod t n h, minus, tmod_pos (t % n * n) n (omega arith), mul-mod_left (t % n) n)
      (whole ∙ ap (λ z. done (pos z)) (mul-div_cancel (t % n) {n = n} (omega arith)))
  where
    minus : pos (1 + t % n * n) -ℤ pos 1 ≡ pos (t % n * n)
    minus = ground arith

    whole : tdiv (pos (t % n * n)) (pos n) ≡ done (pos (t % n * n / n))
    whole = ground arith

module _ (gmp : Gmp) (laws : GmpLaws gmp) where
  open laws use {powm_lem}

  -- `encrypt` returns what an encryption is, with the generator moved on.
  pub encrypt_lem :
      (k : Paillier) (s : Key) (m fuel r rng' : ℕ)
      → IsKey k s
      → Draws gmp k.n fuel k.rng r rng'
      → encrypt gmp fuel k (pos m)
        ≡ done (
          pos ((1 + m * s.n) % (s.n * s.n) * (r ^ s.n % (s.n * s.n)) % (s.n * s.n)),
          record k { rng = rng' },
        )
  unfolding encrypt
  encrypt_lem k s m fuel r rng' i d = rw (
    draw_nonzero-Draws gmp k.n d,
    i.same_n,
    i.same_n_sq,
    tmod_pos (1 + m * s.n) (s.n * s.n) pos_sq,
    powm_lem r s.n (s.n * s.n) pos_sq,
    tmod_pos ((1 + m * s.n) % (s.n * s.n) * (r ^ s.n % (s.n * s.n))) (s.n * s.n) pos_sq,
  )
    where
      pos_sq : 0 < s.n * s.n
      pos_sq = grind (arith, i.above_one)

  -- Any ciphertext of `m` decrypts to m modulo n.
  pub decrypt-IsCipher :
      (k : Paillier) (s : Key) (c m : ℕ)
      → IsKey k s
      → IsCipher s.n s.lam c m
      → decrypt gmp k (pos c) ≡ done (pos (m % s.n))
  unfolding decrypt
  decrypt-IsCipher k s c m i p =
      rw
        (
          i.same_n,
          i.same_n_sq,
          i.same_lambda,
          i.same_mu,
          powm_lem c s.lam (s.n * s.n) pos_sq,
          l_function-IsLinear s.n (c ^ s.lam) (m * s.lam) i.above_one linear,
          tmod_pos (m * s.lam % s.n * s.mu) s.n (omega (arith, i.above_one)),
        )
        (ap (λ z. done (pos z)) (unscale s.n s.lam s.mu m i.inverse))
    where
      pos_sq : 0 < s.n * s.n
      pos_sq = grind (arith, i.above_one)

      linear : IsLinear s.n (c ^ s.lam) (m * s.lam)
      linear =
          ap (λ j. c ^ j % (s.n * s.n)) (omega arith)
          ∙ p 1
          ∙ ap (λ j. (1 + m * j * s.n) % (s.n * s.n)) (omega arith)

  -- With a key that fits together, draws of which one is not zero, and a draw whose order divides
  -- n * lambda modulo n^2: `decrypt` of what `encrypt` makes of m returns m modulo n.
  pub decrypt-encrypt :
      (k : Paillier) (s : Key) (m fuel r rng' : ℕ)
      → IsKey k s
      → Draws gmp k.n fuel k.rng r rng'
      → r ^ (s.n * s.lam) % (s.n * s.n) ≡ 1 % (s.n * s.n)
      → (encrypt gmp fuel k (pos m) >>= λ (c, k'). decrypt gmp k' c) ≡ done (pos (m % s.n))
  decrypt-encrypt k s m fuel r rng' i d order = rw (encrypt_lem k s m fuel r rng' i d) (
      decrypt-IsCipher (record k { rng = rng' }) s _ m (rng-IsKey k s rng' i)
        (encrypt-IsCipher s.n s.lam m r order))

  -- With a key that fits together, `decrypt` of the `add` of two ciphertexts returns the sum of
  -- their messages modulo n.
  pub decrypt-add :
      (k : Paillier) (s : Key) (c d m l : ℕ)
      → IsKey k s
      → IsCipher s.n s.lam c m
      → IsCipher s.n s.lam d l
      → (add k (pos c) (pos d) >>= decrypt gmp k) ≡ done (pos ((m + l) % s.n))
  decrypt-add k s c d m l i p q =
      rw sum
        (decrypt-IsCipher k s (c * d % (s.n * s.n)) (m + l) i (add-IsCipher s.n s.lam c d m l p q))
    where
      sum : add k (pos c) (pos d) ≡ done (pos (c * d % (s.n * s.n)))
      sum =
          unfold add in rw (i.same_n_sq, tmod_pos (c * d) (s.n * s.n) (grind (arith, i.above_one)))
