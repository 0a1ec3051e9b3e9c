-- ===== src/Broker/Expiry.antt =====
-- Proofs on `cleanupExpired`.
use dns_plus_plus.Base.{
  ℕ, ◌-◌, ◌≡◌, ◌⊎◌, refl, sym, subst, arith, find_or-insert, find_or-erase, find_or-none, ap, ◌∙◌,
  inl, inr, Bool, true, false, [], ◌∷◌, none, some, if◌then◌else◌, ltb, Text, text_beq,
  text_beq_iff, Map, find, find_or, find-erase, text_eq, Bool-cases, Option-cases,
}
use dns_plus_plus.Geo.Numbers.{Floats}
use dns_plus_plus.Broker.State.{Broker, Env}
use dns_plus_plus.Broker.Service.{ttl_seconds, touch, expire, expire_all, cleanup_expired}

module _ (f : Floats) (env : Env) where
  open f use {Double}

  -- A group whose last sign of life is more than `TTL_SECONDS` old.
  abbrev pub is_expired : ℕ → Text → Broker Double → Bool
  is_expired now k s = ltb ttl_seconds (now - find_or 0 k s.last_active)

  find_or-touch : (k j : Text) (m : Map Text ℕ) → find_or 0 k (touch f env j m) ≡ find_or 0 k m
  unfolding touch
  find_or-touch k j m = elim (Option-cases (find j m)) [
    | inl e ↦ rw e (
        find_or-insert j k 0 0 m ∙ elim (Bool-cases (text_beq j k)) [
          | inl same ↦
              let gone : find k m ≡ none =
                subst (λ t. find t m ≡ none) ((text_beq_iff j k).0 same) e in
              rw (same, find_or-none k 0 m gone) refl
          | inr other ↦ rw other refl
        ])
    | inr (v, e) ↦ rw e refl
  ]

  module _ (now : ℕ) (k : Text) where
    -- A round for another group, or for one that lives, leaves the clock of `k` alone.
    last_active-expire :
        (j : Text) (s : Broker Double)
        → (text_beq j k ≡ false) ⊎ (is_expired now j s ≡ false)
        → find_or 0 k (expire f env now j s).last_active ≡ find_or 0 k s.last_active
    unfolding expire
    last_active-expire j s h = elim (Bool-cases (is_expired now j s)) [
      | inl old ↦ elim h [
        | inl other ↦ rw old (find_or-erase j k 0 s.last_active ∙ rw other refl)
        | inr young ↦ cc
      ]
      | inr young ↦ rw young (find_or-touch k j s.last_active)
    ]

    is_expired-expire :
        (j : Text) (s : Broker Double)
        → (text_beq j k ≡ false) ⊎ (is_expired now j s ≡ false)
        → is_expired now k (expire f env now j s) ≡ is_expired now k s
    is_expired-expire j s h = ap (λ n. ltb ttl_seconds (now - n)) (last_active-expire j s h)

    find-expire :
        (j : Text) (s : Broker Double)
        → find k (expire f env now j s).subscribers ≡ (
            if is_expired now j s
            then (if text_beq j k then none else find k s.subscribers)
            else find k s.subscribers)
    unfolding expire
    find-expire j s = elim (Bool-cases (is_expired now j s)) [
      | inl old ↦ rw (old, find-erase j k s.subscribers) refl
      | inr young ↦ rw young refl
    ]

    -- Either `j` is another group, or it lives as `k` does.
    other_or_young :
        (j : Text) (s : Broker Double)
        → is_expired now k s ≡ false
        → (text_beq j k ≡ false) ⊎ (is_expired now j s ≡ false)
    other_or_young j s h = elim (Bool-cases (text_beq j k)) [
      | inl same ↦ inr (subst (λ t. is_expired now t s ≡ false) (sym ((text_beq_iff j k).0 same)) h)
      | inr other ↦ inl other
    ]

    find-expire_young :
        (j : Text) (s : Broker Double)
        → is_expired now k s ≡ false
        → find k (expire f env now j s).subscribers ≡ find k s.subscribers
    find-expire_young j s h = elim (other_or_young j s h) [
      | inl other ↦ find-expire j s ∙ rw other (same_sides (is_expired now j s))
      | inr young ↦ find-expire j s ∙ rw young refl
    ]
      where
        same_sides :
            (b : Bool)
            → (if b then find k s.subscribers else find k s.subscribers) ≡ find k s.subscribers
        same_sides true = refl
        same_sides false = refl

    find-expire-none :
        (j : Text) (s : Broker Double)
        → find k s.subscribers ≡ none
        → find k (expire f env now j s).subscribers ≡ none
    find-expire-none j s h = rw (find-expire j s, h) (ground arith)

    find-expire_all-none {ℓ} :
        {A : Type ℓ} (m : Map Text A) (s : Broker Double)
        → find k s.subscribers ≡ none
        → find k (expire_all f env now m s).subscribers ≡ none
    unfolding expire_all
    find-expire_all-none [] s h = h
    find-expire_all-none ((j, v) ∷ m) s h = find-expire_all-none m _ (find-expire-none j s h)

    find-expire_all_young {ℓ} :
        {A : Type ℓ} (m : Map Text A) (s : Broker Double)
        → is_expired now k s ≡ false
        → find k (expire_all f env now m s).subscribers ≡ find k s.subscribers
    unfolding expire_all
    find-expire_all_young [] s h = refl
    find-expire_all_young ((j, v) ∷ m) s h =
        find-expire_all_young m (expire f env now j s)
          (is_expired-expire j s (other_or_young j s h) ∙ h)
        ∙ find-expire_young j s h

    pub last_active-expire_all {ℓ} :
        {A : Type ℓ} (m : Map Text A) (s : Broker Double)
        → is_expired now k s ≡ false
        → find_or 0 k (expire_all f env now m s).last_active ≡ find_or 0 k s.last_active
    unfolding expire_all
    last_active-expire_all [] s h = refl
    last_active-expire_all ((j, v) ∷ m) s h =
        last_active-expire_all m (expire f env now j s)
          (is_expired-expire j s (other_or_young j s h) ∙ h)
        ∙ last_active-expire j s (other_or_young j s h)

    find-expire_all_old {ℓ} :
        {A : Type ℓ} (m : Map Text A) (s : Broker Double) {w : A}
        → is_expired now k s ≡ true
        → find k m ≡ some w
        → find k (expire_all f env now m s).subscribers ≡ none
    unfolding expire_all find
    find-expire_all_old [] s h e = cc
    find-expire_all_old ((j, v) ∷ m) s h e = elim (Bool-cases (text_beq j k)) [
      | inl same ↦ find-expire_all-none m (expire f env now j s) (
          find-expire j s
          ∙ rw (subst (λ t. is_expired now t s ≡ true) (sym ((text_beq_iff j k).0 same)) h, same)
              refl)
      | inr other ↦
          find-expire_all_old m (expire f env now j s) (is_expired-expire j s (inl other) ∙ h)
            (rw other at e)
    ]

  -- The cleanup removes a group of subscribers exactly where its last sign of life is more than
  -- the time limit old, and leaves the subscribers of every other group as they are.
  pub find-cleanup_expired :
      (now : ℕ) (k : Text) (s : Broker Double)
      → find k (cleanup_expired f env now s).subscribers
        ≡ (if is_expired now k s then none else find k s.subscribers)
  unfolding cleanup_expired
  find-cleanup_expired now k s = elim (Bool-cases (is_expired now k s)) [
    | inl old ↦ elim (Option-cases (find k s.subscribers)) [
      | inl e ↦ rw old (find-expire_all-none now k s.subscribers s e)
      | inr (gcs, e) ↦ rw old (find-expire_all_old now k s.subscribers s old e)
    ]
    | inr young ↦ rw young (find-expire_all_young now k s.subscribers s young)
  ]
