-- ===== src/Broker/Keys.antt =====
-- Proofs on `initCrypto` and the key files.
use dns_plus_plus.Base.{
  zero, suc, ◌≡◌, ◌≢◌, refl, ap, subst, Bool, true, false, List, [], ◌∷◌, Option, none, some,
  if◌then◌else◌, done, ◌>>=◌, >>=-eq-done, Text, ℤ, pos, negsuc, ◌*ℤ◌, ◌+ℤ◌, eq_ℤ, arith,
}
use dns_plus_plus.Geo.Numbers.{Floats}
use dns_plus_plus.Crypto.Gmp.{Gmp, GmpLaws}
use dns_plus_plus.Crypto.Paillier.{Paillier, set_params, key_gen}
use dns_plus_plus.Crypto.Generation.{key_gen-size}
use dns_plus_plus.Crypto.Heps.{Heps, load_state, set_state, no_extra}
use dns_plus_plus.Broker.State.{Broker}
use dns_plus_plus.Broker.Startup.{
  KeyFiles, key_files, leaf_key, enable, init_leaf, init_root, init_crypto, of_leaf, of_root,
}
use dns_plus_plus.Broker.Valid.{IsValid}

eq_ℤ_zero : (n : ℤ) → n ≢ pos 0 → eq_ℤ n (pos 0) ≡ false
eq_ℤ_zero (pos zero) h = elim (h refl) [ ]
eq_ℤ_zero (pos (suc n)) h = ground arith
eq_ℤ_zero (negsuc n) h = refl

eq_ℤ-ne-zero : (n : ℤ) → eq_ℤ n (pos 0) ≡ false → n ≢ pos 0
eq_ℤ-ne-zero n h w = let wrong : true ≡ false = subst (λ m. eq_ℤ m (pos 0) ≡ false) w h in cc

square-ne-zero : (n : ℤ) → n ≢ pos 0 → n *ℤ n ≢ pos 0
square-ne-zero (pos zero) h e = h refl
square-ne-zero (pos (suc n)) h e = grind arith
square-ne-zero (negsuc n) h e = grind arith

module _ (f : Floats) (gmp : Gmp) (laws : GmpLaws gmp) where
  open f use {Double}
  open gmp use {to_hex}
  open laws use {from_hex-to_hex}

  leaf_key_lem :
      (n mu : ℤ) → n ≢ pos 0 → leaf_key gmp (some (to_hex n ∷ to_hex mu ∷ [])) ≡ some (n, mu)
  unfolding leaf_key
  leaf_key_lem n mu ne = rw (from_hex-to_hex n, from_hex-to_hex mu, eq_ℤ_zero n ne) refl

  set_state_lem :
      (n mu lambda e_m d_m r_m : ℤ) (h : Heps)
      → n ≢ pos 0
      → set_state gmp
          (to_hex n)
          (to_hex mu)
          (to_hex lambda)
          (to_hex e_m)
          (to_hex d_m)
          (to_hex r_m)
          h
        ≡ (
          record {
            paillier = set_params n (n +ℤ pos 1) mu lambda e_m d_m r_m h.paillier;
            n = n;
            mu = mu;
          },
          true,
        )
  unfolding set_state
  set_state_lem n mu lambda e_m d_m r_m h ne =
      rw
        (
          from_hex-to_hex n,
          from_hex-to_hex mu,
          from_hex-to_hex lambda,
          from_hex-to_hex e_m,
          from_hex-to_hex d_m,
          from_hex-to_hex r_m,
          eq_ℤ_zero n ne,
        )
        refl

  -- For a key whose modulus is not zero: from the public key file that the root writes a leaf
  -- starts in encrypted mode with the key's modulus, its square and mu, the rest of the broker as
  -- it was; and from the full key file `loadState` loads n, mu, lambda, e_m, d_m and r_m, makes g
  -- and n_sq of n, and returns true.
  pub key_files-read :
      (k : Paillier) (s : Broker Double) (h : Heps)
      → k.n ≢ pos 0
      → (init_leaf f gmp (some (KeyFiles.public_lines (key_files gmp k))) s
          ≡ some (record s { he_n = k.n; he_mu = k.mu; he_n_sq = k.n *ℤ k.n; he_enabled = true }))
        × (load_state gmp (some (KeyFiles.full_lines (key_files gmp k))) h ≡ (
          record {
            paillier = record h.paillier {
              n = k.n;
              g = k.n +ℤ pos 1;
              mu = k.mu;
              lambda = k.lambda;
              n_sq = k.n *ℤ k.n;
              e_m = k.e_m;
              d_m = k.d_m;
              r_m = k.r_m;
            };
            n = k.n;
            mu = k.mu;
          },
          true,
        ))
  unfolding init_leaf key_files load_state no_extra enable set_params
  key_files-read k s h ne = (
    ap
        (λ o. elim o [
          | none ↦ if s.config.require_he then none else some (record s { he_enabled = false })
          | some (n, mu) ↦ some (enable f n mu s)
        ])
        (leaf_key_lem k.n k.mu ne),
    set_state_lem k.n k.mu k.lambda k.e_m k.d_m k.r_m h ne,
  )

module _ (f : Floats) (gmp : Gmp) where
  open f use {Double}
  open gmp use {from_hex}

  enable-IsValid :
      (n mu : ℤ) (s : Broker Double) → n ≢ pos 0 → IsValid f s → IsValid f (enable f n mu s)
  unfolding enable
  enable-IsValid n mu s ne v = record {
    moduli = λ on. (ne, square-ne-zero n ne);
    caches = v.caches;
  }

  leaf_key-ne-zero :
      (lines : Option (List Text)) (t : ℤ × ℤ) → leaf_key gmp lines ≡ some t → t.0 ≢ pos 0
  unfolding leaf_key
  leaf_key-ne-zero none t h = cc
  leaf_key-ne-zero (some []) t h = cc
  leaf_key-ne-zero (some (n_hex ∷ [])) t h = cc
  leaf_key-ne-zero (some (n_hex ∷ mu_hex ∷ lines)) t h =
      tested (eq_ℤ (from_hex n_hex) (pos 0)) refl h
    where
      tested :
          (b : Bool)
          → eq_ℤ (from_hex n_hex) (pos 0) ≡ b
          → (if b then none else some (from_hex n_hex, from_hex mu_hex)) ≡ some t
          → t.0 ≢ pos 0
      tested true z e = cc
      tested false z e =
          let eq : (from_hex n_hex, from_hex mu_hex) ≡ t = cc in
          subst (λ u. u.0 ≢ pos 0) eq (eq_ℤ-ne-zero (from_hex n_hex) z)

  init_leaf-IsValid :
      (lines : Option (List Text)) (s s' : Broker Double)
      → IsValid f s
      → init_leaf f gmp lines s ≡ some s'
      → IsValid f s'
  unfolding init_leaf
  init_leaf-IsValid lines s s' v e = started (leaf_key gmp lines) refl e
    where
      plain :
          (b : Bool)
          → (if b then none else some (record s { he_enabled = false })) ≡ some s'
          → IsValid f s'
      plain true h = cc
      plain false h =
          let eq : record s { he_enabled = false } ≡ s' = cc in
          subst (IsValid f) eq (record { moduli = λ on. cc; caches = v.caches })

      started :
          (o : Option (ℤ × ℤ))
          → leaf_key gmp lines ≡ o
          → elim o [
            | none ↦ if s.config.require_he then none else some (record s { he_enabled = false })
            | some (n, mu) ↦ some (enable f n mu s)
          ]
            ≡ some s'
          → IsValid f s'
      started none found h = plain s.config.require_he h
      started (some (n, mu)) found h =
          let eq : enable f n mu s ≡ s' = cc in
          subst (IsValid f) eq (enable-IsValid n mu s (leaf_key-ne-zero lines (n, mu) found) v)

  init_root-IsValid :
      (key_opens full_opens : Bool) (p : Paillier) (s s' : Broker Double) (files : KeyFiles)
      → Gmp.size_in_base_2 gmp (pos 0) ≢ 2048
      → IsValid f s
      → init_root f gmp key_opens full_opens p s ≡ done (some (s', files))
      → IsValid f s'
  unfolding init_root
  init_root-IsValid key_opens full_opens p s s' files small v e =
      let (k, made, h) = >>=-eq-done (key_gen gmp 2048 p) _ e in
      let sized = key_gen-size gmp 2048 p k made in
      opened k (λ w. small (subst (λ m. Gmp.size_in_base_2 gmp m ≡ 2048) w sized)) key_opens
        full_opens h
    where
      opened :
          (k : Paillier)
          → k.n ≢ pos 0
          → (a b : Bool)
          → (let r : Option (Broker Double × KeyFiles) =
                some (enable f k.n k.mu s, key_files gmp k) in
              if a then (if b then done r else done none) else done none)
            ≡ done (some (s', files))
          → IsValid f s'
      opened k ne true true h =
          let eq : enable f k.n k.mu s ≡ s' = cc in
          subst (IsValid f) eq (enable-IsValid k.n k.mu s ne v)
      opened k ne true false h = cc
      opened k ne false b h = cc

  -- If zero does not count as a number of 2048 bits: whenever `initCrypto` starts a broker from a
  -- valid state, as a root with a new key or as a leaf with any key file, the state is valid: in
  -- encrypted mode the modulus and its square are not zero.
  pub init_crypto-IsValid :
      (key_opens full_opens : Bool) (p : Paillier) (lines : Option (List Text))
      (s s' : Broker Double) (files : Option KeyFiles)
      → Gmp.size_in_base_2 gmp (pos 0) ≢ 2048
      → IsValid f s
      → init_crypto f gmp key_opens full_opens p lines s ≡ done (some (s', files))
      → IsValid f s'
  unfolding init_crypto
  init_crypto-IsValid key_opens full_opens p lines s s' files small v e = by_role s.has_parent e
    where
      leaf :
          (o : Option (Broker Double))
          → init_leaf f gmp lines s ≡ o
          → done (of_leaf f o) ≡ done (some (s', files))
          → IsValid f s'
      leaf none found h = cc
      leaf (some t) found h =
          let eq : t ≡ s' = cc in subst (IsValid f) eq (init_leaf-IsValid lines s t v found)

      root :
          (r : Option (Broker Double × KeyFiles))
          → init_root f gmp key_opens full_opens p s ≡ done r
          → done (of_root f r) ≡ done (some (s', files))
          → IsValid f s'
      root none made h = cc
      root (some (t, written)) made h =
          let eq : t ≡ s' = cc in
          subst (IsValid f) eq (init_root-IsValid key_opens full_opens p s t written small v made)

      by_role :
          (b : Bool)
          → (if b
              then done (of_leaf f (init_leaf f gmp lines s))
              else (init_root f gmp key_opens full_opens p s >>= λ r. done (of_root f r)))
            ≡ done (some (s', files))
          → IsValid f s'
      by_role true h = leaf (init_leaf f gmp lines s) refl h
      by_role false h =
          let (r, made, h') =
            >>=-eq-done (init_root f gmp key_opens full_opens p s) (λ r. done (of_root f r)) h in
          root r made h'
