-- ===== src/Broker/Valid.antt =====
-- The invariant of the broker, and proofs on the messages that handlers share.
use dns_plus_plus.Base.{
  ◌≤◌, ◌≡◌, ◌≢◌, refl, true, not, ◌&&◌, length, Returns, Returns-bind, Returns-if, Text, Values,
  text_eq, pos,
}
use dns_plus_plus.Tlv.Builder.{Builder}
use dns_plus_plus.Tlv.Total.{
  Buildable, build-Buildable, new_builder-Buildable, add_service_name-Buildable,
  add_coordinates-Buildable, add_flags-Buildable, add_region-Buildable,
}
use dns_plus_plus.Geo.Numbers.{Floats}
use dns_plus_plus.Broker.State.{Broker, Addr}
use dns_plus_plus.Broker.Send.{
  send, send_bytes, send_region_update_to_parent, forward_subscription, subscribe_message, member,
}
use dns_plus_plus.Broker.Publish.{max_pub_cache}

module _ (f : Floats) where
  open f use {Double}

  -- In encrypted mode the moduli are not zero; no key has more cached publications than the limit.
  pub record IsValid (s : Broker Double) : Type 0 where
    pub moduli : s.he_enabled ≡ true → (s.he_n ≢ pos 0) × (s.he_n_sq ≢ pos 0)
    pub caches : Values (λ cps. length cps ≤ max_pub_cache) s.pub_cache

  pub send-Returns :
      (dest : Addr) (b : Builder) (s : Broker Double)
      → Buildable b
      → IsValid s
      → Returns (send f dest b s) IsValid
  unfolding send
  send-Returns dest b s h v =
      let (bytes, e) = build-Buildable b h in
      (send_bytes f dest bytes s, rw e, record { moduli = v.moduli; caches = v.caches })

  pub send_region_update_to_parent-Returns :
      (s : Broker Double) → IsValid s → Returns (send_region_update_to_parent f s) IsValid
  unfolding send_region_update_to_parent
  send_region_update_to_parent-Returns s v =
      Returns-if s.has_parent
        (λ _.
          send-Returns s.parent_addr _ s
            (add_region-Buildable _
              (add_service_name-Buildable s.config.broker_id (new_builder-Buildable _)))
            v)
        (λ _. (s, refl, v))

  pub forward_subscription-Returns :
      (key : Text) (s : Broker Double) → IsValid s → Returns (forward_subscription f key s) IsValid
  unfolding forward_subscription subscribe_message
  forward_subscription-Returns key s v =
      Returns-if (s.has_parent && not (member key s.ot_parent))
        (λ _.
          Returns-bind (send f s.parent_addr (subscribe_message f key s) s) _
            (send-Returns s.parent_addr _ s
              (add_flags-Buildable _ (
                add_coordinates-Buildable _ _
                  (add_service_name-Buildable key (new_builder-Buildable _))))
              v)
            (λ s' v'. (_, refl, record { moduli = v'.moduli; caches = v'.caches })))
        (λ _. (s, refl, v))
