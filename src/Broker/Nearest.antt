-- ===== src/Broker/Nearest.antt =====
-- Proofs on the answer to a subscription in query mode.
use dns_plus_plus.Base.{
  ℕ, ◌≡◌, refl, sym, ap, subst, ◌∙◌, inl, inr, Bool, true, false, List, [], ◌∷◌, ◌++◌, Option, none,
  some, All, if◌then◌else◌, Bool-cases, append_assoc, append-nil,
}
use dns_plus_plus.Geo.{geo_distance}
use dns_plus_plus.Geo.Numbers.{Floats, FloatLaws, OrderLaws}
use dns_plus_plus.Broker.State.{Env, CachedPub}
use dns_plus_plus.Broker.Subscribe.{best_pub}

module _ (f : Floats) (env : Env) (laws : FloatLaws f) (order : OrderLaws f) (lat lon : ℕ) where
  open f use {Double, lt, max_value, widen}

  abbrev pub distance_to : CachedPub → Double
  distance_to cp = geo_distance f (widen lat) (widen lon) (widen cp.lat) (widen cp.lon)

  -- The best publication of some, with its distance; or none, with the distance that all fail to beat.
  abbrev pub IsBest : List CachedPub → Option CachedPub → Double → Type 0
  IsBest cps none d = (d ≡ max_value) × All (λ cp. lt (distance_to cp) d ≡ false) cps
  IsBest cps (some best) d =
      (d ≡ distance_to best)
      × (lt d max_value ≡ true)
      × ((before : List CachedPub) × (after : List CachedPub) × (cps ≡ before ++ (best ∷ after)))
      × All (λ cp. lt (distance_to cp) d ≡ false) cps

  All-snoc {ℓ} :
      (P : CachedPub → Type ℓ) (xs : List CachedPub) (x : CachedPub)
      → All P xs
      → P x
      → All P (xs ++ (x ∷ []))
  All-snoc P [] x h p = (p, tt)
  All-snoc P (y ∷ xs) x h p = (h.0, All-snoc P xs x h.1 p)

  -- What does not beat a distance does not beat a smaller one.
  not_below : (a b d : Double) → lt a d ≡ false → lt b d ≡ true → lt a b ≡ false
  not_below a b d h k = elim (Bool-cases (lt a b)) [
    | inl less ↦ let wrong : true ≡ false = sym (order.lt_trans a b d less k) ∙ h in cc
    | inr not_less ↦ not_less
  ]

  All-not_below :
      (cps : List CachedPub) (b d : Double)
      → lt b d ≡ true
      → All (λ cp. lt (distance_to cp) d ≡ false) cps
      → All (λ cp. lt (distance_to cp) b ≡ false) cps
  All-not_below [] b d k h = tt
  All-not_below (cp ∷ cps) b d k h =
      (not_below (distance_to cp) b d h.0 k, All-not_below cps b d k h.1)

  below_max :
      (cps : List CachedPub) (best : Option CachedPub) (d b : Double)
      → IsBest cps best d
      → lt b d ≡ true
      → lt b max_value ≡ true
  below_max cps none d b h k = subst (λ t. lt b t ≡ true) h.0 k
  below_max cps (some cp) d b h k = order.lt_trans b d max_value k h.1

  beaten :
      (cps : List CachedPub) (best : Option CachedPub) (d : Double)
      → IsBest cps best d
      → All (λ cp. lt (distance_to cp) d ≡ false) cps
  beaten cps none d h = h.1
  beaten cps (some cp) d h = h.3

  IsBest-closer :
      (seen : List CachedPub) (cp : CachedPub) (best : Option CachedPub) (d : Double)
      → lt (distance_to cp) d ≡ true
      → IsBest seen best d
      → IsBest (seen ++ (cp ∷ [])) (some cp) (distance_to cp)
  IsBest-closer seen cp best d closer h = (
    refl,
    below_max seen best d (distance_to cp) h closer,
    (seen, [], refl),
    All-snoc _ seen cp (All-not_below seen (distance_to cp) d closer (beaten seen best d h))
        (laws.lt_irrefl (distance_to cp)),
  )

  IsBest-further :
      (seen : List CachedPub) (cp : CachedPub) (best : Option CachedPub) (d : Double)
      → lt (distance_to cp) d ≡ false
      → IsBest seen best d
      → IsBest (seen ++ (cp ∷ [])) best d
  IsBest-further seen cp none d further h = (h.0, All-snoc _ seen cp h.1 further)
  IsBest-further seen cp (some best) d further (dist, below, (before, after, place), rest) = (
    dist,
    below,
    (
      before,
      after ++ (cp ∷ []),
      ap (λ t. t ++ (cp ∷ [])) place ∙ append_assoc before (best ∷ after) (cp ∷ []),
    ),
    All-snoc _ seen cp rest further,
  )

  IsBest-step :
      (closer : Bool) (seen : List CachedPub) (cp : CachedPub) (best : Option CachedPub)
      (d : Double)
      → lt (distance_to cp) d ≡ closer
      → IsBest seen best d
      → IsBest
          (seen ++ (cp ∷ []))
          (if closer then some cp else best)
          (if closer then distance_to cp else d)
  IsBest-step true seen cp best d e h = IsBest-closer seen cp best d e h
  IsBest-step false seen cp best d e h = IsBest-further seen cp best d e h

  -- What the loop makes of the best so far.
  abbrev FindsBest : List CachedPub → List CachedPub → Option CachedPub → Double → Type 0
  FindsBest all cps best d =
      IsBest all (best_pub f env lat lon cps best d).0 (best_pub f env lat lon cps best d).1

  best_pub-from :
      (seen cps : List CachedPub) (best : Option CachedPub) (d : Double)
      → IsBest seen best d
      → FindsBest (seen ++ cps) cps best d
  unfolding best_pub
  best_pub-from seen [] best d h = subst (λ all. IsBest all best d) (sym (append-nil seen)) h
  best_pub-from seen (cp ∷ cps) best d h =
      let closer = lt (distance_to cp) d in
      subst
        (λ all.
          FindsBest all cps (if closer then some cp else best)
            (if closer then distance_to cp else d))
        (append_assoc seen (cp ∷ []) cps)
        (best_pub-from (seen ++ (cp ∷ [])) cps _ _ (IsBest-step closer seen cp best d refl h))

  -- If the order of doubles is irreflexive and transitive: the loop over the cached publications
  -- that answers a query finds one that no cached publication is nearer than, with its distance,
  -- below the greatest double; or finds none, and then no cached publication has a distance below
  -- the greatest double.
  pub best_pub-IsBest :
      (cps : List CachedPub)
      → IsBest cps
          (best_pub f env lat lon cps none max_value).0
          (best_pub f env lat lon cps none max_value).1
  best_pub-IsBest cps = best_pub-from [] cps none max_value (refl, tt)
