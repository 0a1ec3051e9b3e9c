-- ===== src/Broker/Forwards.antt =====
-- Proofs on the subscriptions that go up to the parent.
use dns_plus_plus.Base.{
  ◌≡◌, refl, sym, subst, ◌∙◌, inl, inr, Bool, true, false, not, ◌&&◌, List, [], ◌∷◌, ◌++◌,
  if◌then◌else◌, Bool-cases, done, ◌>>=◌, >>=-eq-done, Text, text_beq_refl, arith,
}
use dns_plus_plus.Geo.Numbers.{Floats}
use dns_plus_plus.Broker.State.{Broker}
use dns_plus_plus.Broker.Send.{member, set_insert, send, subscribe_message, forward_subscription}

member-append : (t : Text) (xs : List Text) → member t (xs ++ (t ∷ [])) ≡ true
unfolding member
member-append t [] = rw (text_beq_refl t) refl
member-append t (x ∷ xs) = ground (arith, member-append t xs)

pub member-set_insert : (t : Text) (xs : List Text) → member t (set_insert t xs) ≡ true
unfolding set_insert
member-set_insert t xs = elim (Bool-cases (member t xs)) [
  | inl old ↦ rw (old, old) refl
  | inr new ↦ rw (new, member-append t xs) refl
]

module _ (f : Floats) where
  open f use {Double}

  forward_subscription-member :
      (key : Text) (s : Broker Double)
      → member key s.ot_parent ≡ true
      → forward_subscription f key s ≡ done s
  unfolding forward_subscription
  forward_subscription-member key s h = ground (arith, h)

  -- Once the forwarding of a subscription key to the parent has returned a state, forwarding the
  -- same key from that state sends nothing and changes nothing.
  pub forward_subscription_again :
      (key : Text) (s s' : Broker Double)
      → forward_subscription f key s ≡ done s'
      → forward_subscription f key s' ≡ done s'
  unfolding forward_subscription
  forward_subscription_again key s s' e = forwarded (s.has_parent && not (member key s.ot_parent)) e
    where
      forwarded :
          (b : Bool)
          → (if b
              then (send f s.parent_addr (subscribe_message f key s) s >>= λ t.
                  done (record t { ot_parent = set_insert key t.ot_parent }))
              else done s)
            ≡ done s'
          → forward_subscription f key s' ≡ done s'
      forwarded true e' =
          let (t, sent, same) =
            >>=-eq-done (send f s.parent_addr (subscribe_message f key s) s)
              (λ t. done (record t { ot_parent = set_insert key t.ot_parent })) e' in
          let eq : record t { ot_parent = set_insert key t.ot_parent } ≡ s' = cc in
          subst (λ r. forward_subscription f key r ≡ done r) eq
            (forward_subscription-member key _ (member-set_insert key t.ot_parent))
      forwarded false e' =
          let eq : s ≡ s' = cc in subst (λ r. forward_subscription f key r ≡ done r) eq (e ∙ sym e')
