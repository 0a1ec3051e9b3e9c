-- ===== src/Broker/Safety/Subscribing.antt =====
-- Proofs on `handleSubscribe`.
use dns_plus_plus.Base.{
  ℕ, refl, ◌&&◌, Option, none, some, Returns, Returns-bind, Returns-if, Returns-option, if-cases,
  Text, find_or, text_eq, if◌then◌else◌,
}
use dns_plus_plus.Tlv.MsgFlags
use dns_plus_plus.Tlv.MsgFlags.{has_flag}
use dns_plus_plus.Tlv.Message.{
  TlvMessage, get_service_name, get_coordinates, get_flags, get_blinded_value, get_blinded_value_hi,
}
use dns_plus_plus.Tlv.Total.{
  IsParsed, get_service_name-Returns, get_coordinates-Returns, get_flags-Returns,
  get_blinded_value-Returns, get_blinded_value_hi-Returns,
}
use dns_plus_plus.Geo.Numbers.{Floats}
use dns_plus_plus.Crypto.Threshold.{is_empty}
use dns_plus_plus.Broker.State.{Broker, Addr, Env, CachedPub}
use dns_plus_plus.Broker.Send.{
  find_child_by_addr, send_bytes, is_some, region_changed, value_or, forward_subscription,
}
use dns_plus_plus.Broker.Subscribe.{
  subscribe_child, grow_region, best_pub, answer, answer_query, subscribe_client, count_subscribe,
  handle_subscribe,
}
use dns_plus_plus.Broker.Match.{hash_service_name}
use dns_plus_plus.Broker.Valid.{
  IsValid, send_region_update_to_parent-Returns, forward_subscription-Returns,
}

module _ (f : Floats) (env : Env) where
  open f use {Double, max_value}

  subscribe_child-Returns :
      (name : Text) (client : Addr) (s : Broker Double)
      → IsValid f s
      → Returns (subscribe_child f env name client s) (IsValid f)
  unfolding subscribe_child
  subscribe_child-Returns name client s v =
      Returns-if (is_empty (find_child_by_addr f client s.children)) (λ _. (s, refl, v))
        (λ _.
          forward_subscription-Returns f name _ (record { moduli = v.moduli; caches = v.caches }))

  grow_region-Returns :
      (lat lon : ℕ) (s : Broker Double)
      → IsValid f s
      → Returns (grow_region f env lat lon s) (IsValid f)
  unfolding grow_region
  grow_region-Returns lat lon s v =
      Returns-if (s.has_parent && region_changed f _ s.my_region)
        (λ _.
          send_region_update_to_parent-Returns f _
            (record { moduli = v.moduli; caches = v.caches }))
        (λ _. (_, refl, record { moduli = v.moduli; caches = v.caches }))

  answer-IsValid :
      (key : Text) (client : Addr) (r : Option CachedPub × Double) (s : Broker Double)
      → IsValid f s
      → IsValid f (answer f env key client r s)
  unfolding answer send_bytes
  answer-IsValid key client (none, d) s v = v
  answer-IsValid key client (some cp, d) s v = record { moduli = v.moduli; caches = v.caches }

  answer_query-IsValid :
      (key : Text) (client : Addr) (lat lon flags : ℕ) (s : Broker Double)
      → IsValid f s
      → IsValid f (answer_query f env key client lat lon flags s)
  unfolding answer_query
  answer_query-IsValid key client lat lon flags s v =
      if-cases (IsValid f) (has_flag flags MsgFlags.query_mode)
        (answer-IsValid key client
          (best_pub f env lat lon (find_or _ key s.pub_cache) none max_value) s v)
        v

  subscribe_client-Returns :
      (name : Text) (client : Addr) (coords : ℕ × ℕ) (flags : ℕ) (m1 m2 : Option Text) (now : ℕ)
      (s : Broker Double)
      → IsValid f s
      → Returns (subscribe_client f env name client coords flags m1 m2 now s) (IsValid f)
  unfolding subscribe_client
  subscribe_client-Returns name client (lat, lon) flags m1 m2 now s v =
      let key : Text = if is_some m1 && s.he_enabled then hash_service_name f env name else name in
      Returns-bind (grow_region f env lat lon _)
        (λ s₁. forward_subscription f key (answer_query f env key client lat lon flags s₁))
        (grow_region-Returns lat lon _ (record { moduli = v.moduli; caches = v.caches }))
        (λ s' v'.
          forward_subscription-Returns f key _
            (answer_query-IsValid key client lat lon flags s' v'))

  pub handle_subscribe-Returns :
      (msg : TlvMessage) (client : Addr) (now : ℕ) (s : Broker Double)
      → IsParsed msg
      → IsValid f s
      → Returns (handle_subscribe f env msg client now s) (IsValid f)
  unfolding handle_subscribe
  handle_subscribe-Returns msg client now s p v =
      Returns-bind (get_service_name msg) _ (get_service_name-Returns msg p) λ name_opt _.
        Returns-option name_opt (_, refl, counted)
          λ name _. Returns-bind (get_coordinates msg) _ (get_coordinates-Returns msg p) λ coords _.
            Returns-bind (get_flags msg) _ (get_flags-Returns msg p) λ flags_opt _.
              Returns-bind (get_blinded_value msg) _ (get_blinded_value-Returns msg p) λ m1 _.
                Returns-bind (get_blinded_value_hi msg) _ (get_blinded_value_hi-Returns msg p)
                  λ m2 _.
                    Returns-if (has_flag (value_or 0 flags_opt) MsgFlags.from_child)
                      (λ _. subscribe_child-Returns name client _ counted)
                      (λ _.
                        subscribe_client-Returns name client (value_or (0, 0) coords)
                          (value_or 0 flags_opt) m1 m2 now _ counted)
    where
      counted : IsValid f (count_subscribe f env s)
      counted = record { moduli = v.moduli; caches = v.caches }
