-- ===== src/Crypto/Discovery.antt =====
-- From service names to the broker's decision: `Heps` blinds both sides, `executeMatch` compares.
use dns_plus_plus.Base.{
  ℕ, ◌+◌, ◌-◌, ◌*◌, ◌%◌, ◌^◌, ◌≤◌, ◌<◌, ◌≡◌, ◌≢◌, refl, sym, subst, arith, false, ◌==◌, [], ◌∷◌,
  done, ◌>>=◌, Text, ℤ, pos, ◌-ℤ◌, tmod,
}
use dns_plus_plus.Crypto.Gmp.{Gmp, GmpLaws}
use dns_plus_plus.Crypto.Paillier.{Paillier, encrypt, blind_subscription}
use dns_plus_plus.Crypto.Heps.{Heps, blind_notification_of, blind_negated, blind_subscription_of}
use dns_plus_plus.Crypto.Residues.{IsLinear, encrypt-IsCipher}
use dns_plus_plus.Crypto.Cipher.{Key, IsKey, Draws, rng-IsKey, encrypt_lem, tmod_pos}
use dns_plus_plus.Crypto.Blinding.{noise, blind_notification_lem, blind_subscription_lem}
use dns_plus_plus.Crypto.Threshold.{match_test, match_values, is_empty}
use dns_plus_plus.Crypto.Matching.{IsWide, match_values-Blinded}

-- A `Heps` that holds the key.
pub record Shares (h : Heps) (s : Key) : Type 0 where
  pub key : IsKey h.paillier s
  pub same_n : h.n ≡ pos s.n

-- A draw of `encrypt` whose order divides n * lambda, as it does for every unit modulo n.
pub record Randomness (gmp : Gmp) (s : Key) (fuel rng r rng' : ℕ) : Type 0 where
  pub draws : Draws gmp (pos s.n) fuel rng r rng'
  pub order : r ^ (s.n * s.lam) % (s.n * s.n) ≡ 1 % (s.n * s.n)

not-is_empty : (t : Text) → t ≢ [] → is_empty t ≡ false
not-is_empty [] h = absurd (h refl)
not-is_empty (c ∷ cs) h = refl

negated :
    {s : Key} (h : Heps) (w : ℕ)
    → Shares h s
    → w ≤ s.n
    → tmod (h.n -ℤ pos w) h.n ≡ done (pos ((s.n - w) % s.n))
negated {s} h w share le =
    rw (share.same_n, minus) (tmod_pos (s.n - w) s.n (omega (arith, share.key.above_one)))
  where
    minus : pos s.n -ℤ pos w ≡ pos (s.n - w)
    minus = ground arith

module _ (gmp : Gmp) (laws : GmpLaws gmp) (s : Key) where
  open gmp use {to_hex, hash}
  open laws use {from_hex-to_hex, to_hex-ne-nil}

  blind_negated_steps :
      (h : Heps) (fuel : ℕ) (w neg c b : ℤ) {k : Paillier}
      → tmod (h.n -ℤ w) h.n ≡ done neg
      → encrypt gmp fuel h.paillier neg ≡ done (c, k)
      → blind_subscription gmp k c ≡ done b
      → blind_negated gmp fuel h w ≡ done (b, record h { paillier = k })
  unfolding blind_negated
  blind_negated_steps h fuel w neg c b p q t = rw (p, q, t)

  -- One blinded half of a subscription.
  blind_negated_lem :
      (h : Heps) (fuel w r rng' : ℕ)
      → Shares h s
      → w ≤ s.n
      → Randomness gmp s fuel h.paillier.rng r rng'
      → (b : ℕ) × (blind_negated gmp fuel h (pos w)
          ≡ done (pos b, record h { paillier = record h.paillier { rng = rng' } }))
        × IsLinear s.n b (s.d + (s.n - w) % s.n * (s.r * s.lam))
  blind_negated_lem h fuel w r rng' share le random =
      let (b, e, p) =
        blind_subscription_lem gmp laws (record h.paillier { rng = rng' }) s
          (rng-IsKey h.paillier s rng' share.key) _ ((s.n - w) % s.n)
          (encrypt-IsCipher s.n s.lam ((s.n - w) % s.n) r random.order) in
      (
        b,
        blind_negated_steps h fuel (pos w) _ _ _ (negated h w share le)
            (encrypt_lem gmp laws h.paillier s ((s.n - w) % s.n) fuel r rng' share.key (
              subst (λ n. Draws gmp n fuel h.paillier.rng r rng') (sym share.key.same_n)
                random.draws))
            e,
        p,
      )

  notification_lem :
      (h : Heps) (name : Text) (drawn rng' : ℕ)
      → Shares h s
      → Gmp.z_range gmp (pos s.r) h.paillier.rng ≡ (pos drawn, rng')
      → (b : ℕ) × (h' : Heps) × (blind_notification_of gmp h name ≡ done (to_hex (pos b), h'))
        × IsLinear s.n b (s.e + (s.r * hash name + noise drawn) * s.lam)
  unfolding blind_notification_of
  notification_lem h name drawn rng' share draw =
      let (b, e, p) =
        blind_notification_lem gmp laws h.paillier s share.key (hash name) drawn rng' (
          subst (λ m. Gmp.z_range gmp m h.paillier.rng ≡ (pos drawn, rng')) (sym share.key.same_r)
            draw) in
      (b, record h { paillier = record h.paillier { rng = rng' } }, rw e, p)

  subscription_lem :
      (h : Heps) (name : Text) (fuel r₁ rng₁ r₂ rng₂ : ℕ)
      → Shares h s
      → hash name < s.n
      → Randomness gmp s fuel h.paillier.rng r₁ rng₁
      → Randomness gmp s fuel rng₁ r₂ rng₂
      → (b : ℕ) × (c : ℕ) × (h' : Heps) × (blind_subscription_of gmp fuel h name
          ≡ done ((to_hex (pos b), to_hex (pos c)), h'))
        × IsLinear s.n b (s.d + (s.n - hash name) % s.n * (s.r * s.lam))
        × IsLinear s.n c (s.d + (s.n - (hash name + 1)) % s.n * (s.r * s.lam))
  unfolding blind_subscription_of
  subscription_lem h name fuel r₁ rng₁ r₂ rng₂ share lt first second =
      let h₁ : Heps = record h { paillier = record h.paillier { rng = rng₁ } } in
      let share₁ : Shares h₁ s = record {
        key = rng-IsKey h.paillier s rng₁ share.key;
        same_n = share.same_n;
      } in
      let (b, e, p) = blind_negated_lem h fuel (hash name) r₁ rng₁ share (omega arith) first in
      let (c, f, q) =
        blind_negated_lem h₁ fuel (hash name + 1) r₂ rng₂ share₁ (omega arith) second in
      (b, c, record h₁ { paillier = record h₁.paillier { rng = rng₂ } }, rw (e, f), p, q)

  match_test-to_hex :
      (n mu n_sq a b c : ℤ)
      → match_test gmp n mu n_sq (to_hex a) (to_hex b) (to_hex c) ≡ match_values n mu n_sq a b c
  unfolding match_test
  match_test-to_hex n mu n_sq a b c = rw (
    not-is_empty (to_hex a) (to_hex-ne-nil a),
    not-is_empty (to_hex b) (to_hex-ne-nil b),
    not-is_empty (to_hex c) (to_hex-ne-nil c),
    from_hex-to_hex a,
    from_hex-to_hex b,
    from_hex-to_hex c,
  )

-- A publisher and a subscriber with the key of the broker, and the randomness that each draws.
pub record Session (gmp : Gmp) (s : Key) (pub_side sub_side : Heps) (fuel : ℕ) : Type 0 where
  pub publisher : Shares pub_side s
  pub subscriber : Shares sub_side s
  pub drawn : ℕ
  pub pub_rng : ℕ
  pub noise_draw : Gmp.z_range gmp (pos s.r) pub_side.paillier.rng ≡ (pos drawn, pub_rng)
  pub r₁ : ℕ
  pub rng₁ : ℕ
  pub r₂ : ℕ
  pub rng₂ : ℕ
  pub first : Randomness gmp s fuel sub_side.paillier.rng r₁ rng₁
  pub second : Randomness gmp s fuel rng₁ r₂ rng₂
  pub wide : IsWide s.n s.r (noise drawn) (2 ^ 64)

module _ (gmp : Gmp) (laws : GmpLaws gmp) (s : Key) (pub_side sub_side : Heps) (fuel : ℕ)
    (session : Session gmp s pub_side sub_side fuel) (published subscribed : Text)
    (pub_fits : Gmp.hash gmp published < 2 ^ 64) (sub_fits : Gmp.hash gmp subscribed < 2 ^ 64) where
  open gmp use {hash}

  -- For a publisher and a subscriber that share a key which fits together, whose noise is positive
  -- and below a blinding factor small against the modulus, where both encryptions of the
  -- subscriber find within their fuel a draw that is not zero and whose order divides n * lambda
  -- modulo n^2, as that of every unit does, and for names whose hashes are below 2^64: the
  -- broker's two threshold tests on the blinded notification and the blinded subscription return
  -- true exactly when the two names have the same hash.
  pub match_test-blind :
      (blind_notification_of gmp pub_side published >>= λ (bval_n, _).
      blind_subscription_of gmp fuel sub_side subscribed >>= λ ((bval_m1, bval_m2), _).
      match_test gmp (pos s.n) (pos s.mu) (pos (s.n * s.n)) bval_n bval_m1 bval_m2)
      ≡ done (Gmp.hash gmp published == Gmp.hash gmp subscribed)
  match_test-blind =
      let (a, _, notified, p) =
        notification_lem gmp laws s pub_side published session.drawn session.pub_rng
          session.publisher session.noise_draw in
      let (b, c, _, subscribed_to, q, t) =
        subscription_lem gmp laws s sub_side subscribed fuel session.r₁ session.rng₁ session.r₂
          session.rng₂ session.subscriber (grind (arith, session.wide)) session.first
          session.second in
      rw (notified, subscribed_to, match_test-to_hex gmp laws s)
        (match_values-Blinded pub_side.paillier s a b c (hash published) (hash subscribed)
          (noise session.drawn) (2 ^ 64) session.publisher.key session.wide pub_fits sub_fits p q t)
