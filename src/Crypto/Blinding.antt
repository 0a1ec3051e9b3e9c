-- ===== src/Crypto/Blinding.antt =====
-- The blinded values and what `match` reads from a pair of them.
use dns_plus_plus.Base.{
  ℕ, ◌+◌, ◌*◌, ◌%◌, ◌^◌, ◌<◌, ◌≡◌, sym, ap, ◌∙◌, arith, ◌==◌, if◌then◌else◌, done, pos,
}
use dns_plus_plus.Base.Modular.{Cong-mod}
use dns_plus_plus.Crypto.Gmp.{Gmp, GmpLaws}
use dns_plus_plus.Crypto.Paillier.{
  Paillier, one_for_zero, blind_notification, blind_subscription, match,
}
use dns_plus_plus.Crypto.Residues.{
  IsLinear, IsCipher, mul-IsLinear, mod-IsLinear, pow-IsLinear, drop_n-IsLinear, unscale,
}
use dns_plus_plus.Crypto.Cipher.{Key, IsKey, tmod_pos, l_function-IsLinear}

-- The randomness of a notification: the draw, or one where that is zero.
abbrev pub noise : ℕ → ℕ
noise drawn = if drawn == 0 then 1 else drawn

one_for_zero-noise : (drawn : ℕ) → one_for_zero (pos drawn) ≡ pos (noise drawn)
unfolding one_for_zero
one_for_zero-noise drawn = ground arith

module _ (k : Paillier) (s : Key) (i : IsKey k s) where
  pub square_pos : 0 < s.n * s.n
  square_pos = grind (arith, i.above_one)

  -- The product of a notification for x and a subscription to w hides r * (x + w) and the noise.
  pub product-IsLinear :
      (a b x w z : ℕ)
      → IsLinear s.n a (s.e + (s.r * x + z) * s.lam)
      → IsLinear s.n b (s.d + w * (s.r * s.lam))
      → IsLinear s.n (a * b) ((s.r * (x + w) + z) * s.lam)
  product-IsLinear a b x w z p q =
      drop_n-IsLinear s.n (a * b) _ ((s.r * (x + w) + z) * s.lam) 1 (omega (arith, i.reversed))
        (sym (Cong-mod (s.n * s.n) (a * b)) ∙ mul-IsLinear s.n a b _ _ p q)

  -- `match` on a notification for x and a subscription to w is r * (x + w) + noise, modulo n.
  pub match-IsLinear :
      (a b x w z : ℕ)
      → IsLinear s.n a (s.e + (s.r * x + z) * s.lam)
      → IsLinear s.n b (s.d + w * (s.r * s.lam))
      → match k (pos a) (pos b) ≡ done (pos ((s.r * (x + w) + z) % s.n))
  unfolding match
  match-IsLinear a b x w z p q =
      rw
        (
          i.same_n,
          i.same_n_sq,
          i.same_mu,
          tmod_pos (a * b) (s.n * s.n) square_pos,
          l_function-IsLinear s.n (a * b) _ i.above_one (product-IsLinear a b x w z p q),
          tmod_pos ((s.r * (x + w) + z) * s.lam % s.n * s.mu) s.n (omega (arith, i.above_one)),
        )
        (ap (λ y. done (pos y)) (unscale s.n s.lam s.mu (s.r * (x + w) + z) i.inverse))

module _ (gmp : Gmp) (laws : GmpLaws gmp) (k : Paillier) (s : Key) (i : IsKey k s) where
  open laws use {powm_lem}

  pos_sq : 0 < s.n * s.n
  pos_sq = square_pos k s i

  pub blind_notification_lem :
      (x drawn rng' : ℕ)
      → Gmp.z_range gmp k.r_m k.rng ≡ (pos drawn, rng')
      → (b : ℕ) × (blind_notification gmp k (pos x) ≡ done (pos b, record k { rng = rng' }))
        × IsLinear s.n b (s.e + (s.r * x + noise drawn) * s.lam)
  unfolding blind_notification
  blind_notification_lem x drawn rng' draw = (
    (s.n + 1) ^ s.e % (s.n * s.n) * ((s.n + 1) ^ t % (s.n * s.n)) % (s.n * s.n),
    rw (
      draw,
      one_for_zero-noise drawn,
      i.same_g,
      i.same_e,
      i.same_n_sq,
      i.same_r,
      i.same_lambda,
      powm_lem (s.n + 1) s.e (s.n * s.n) pos_sq,
      powm_lem (s.n + 1) t (s.n * s.n) pos_sq,
      tmod_pos ((s.n + 1) ^ s.e % (s.n * s.n) * ((s.n + 1) ^ t % (s.n * s.n))) (s.n * s.n) pos_sq,
    ),
    mul-IsLinear s.n _ _ s.e t (mod-IsLinear s.n _ s.e (pow-IsLinear s.n s.e))
        (mod-IsLinear s.n _ t (pow-IsLinear s.n t)),
  )
    where
      t : ℕ
      t = (s.r * x + noise drawn) * s.lam

  pub blind_subscription_lem :
      (c w : ℕ)
      → IsCipher s.n s.lam c w
      → (b : ℕ) × (blind_subscription gmp k (pos c) ≡ done (pos b))
        × IsLinear s.n b (s.d + w * (s.r * s.lam))
  unfolding blind_subscription
  blind_subscription_lem c w p = (
    (s.n + 1) ^ s.d % (s.n * s.n) * (c ^ (s.r * s.lam) % (s.n * s.n)) % (s.n * s.n),
    rw (
      i.same_g,
      i.same_d,
      i.same_n_sq,
      i.same_r,
      i.same_lambda,
      powm_lem (s.n + 1) s.d (s.n * s.n) pos_sq,
      powm_lem c (s.r * s.lam) (s.n * s.n) pos_sq,
      tmod_pos ((s.n + 1) ^ s.d % (s.n * s.n) * (c ^ (s.r * s.lam) % (s.n * s.n))) (s.n * s.n)
          pos_sq,
    ),
    mul-IsLinear s.n _ _ s.d (w * (s.r * s.lam)) (mod-IsLinear s.n _ s.d (pow-IsLinear s.n s.d))
        (mod-IsLinear s.n _ (w * (s.r * s.lam)) (p s.r)),
  )
