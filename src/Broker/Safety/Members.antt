-- ===== src/Broker/Safety/Members.antt =====
-- Proofs on the handlers of heartbeats, child brokers and the report.
use dns_plus_plus.Base.{
  ℕ, ◌*◌, ◌≡◌, refl, ◌&&◌, List, [], ◌∷◌, length, length-append, Returns, Returns-bind, Returns-if,
  Returns-option, Text, find, text_eq, arith, bytes_64,
}
use dns_plus_plus.Tlv.TlvType
use dns_plus_plus.Tlv.Message.{TlvMessage, get_service_name, get_coordinates, get_region}
use dns_plus_plus.Tlv.Total.{
  IsParsed, Buildable, new_builder-Buildable, add_tlv-Buildable, add_service_name-Buildable,
  get_service_name-Returns, get_coordinates-Returns, get_region-Returns,
}
use dns_plus_plus.Geo.{Region}
use dns_plus_plus.Geo.Numbers.{Floats}
use dns_plus_plus.Broker.State.{Broker, Addr, ChildBroker, Stats}
use dns_plus_plus.Broker.Send.{region_changed}
use dns_plus_plus.Broker.Membership.{
  words, stats_message, ext_values, old_values, handle_heartbeat, handle_hello, greet_child,
  add_child, update_my_region, replace_region, handle_region_update, handle_stats_request,
  take_snapshot,
}
use dns_plus_plus.Broker.Valid.{IsValid, send-Returns, send_region_update_to_parent-Returns}

pub length-words : (vs : List ℕ) → length (words vs) ≡ 8 * length vs
unfolding words
length-words [] = refl
length-words (v ∷ vs) = omega (arith, length-append (bytes_64 v) (words vs), length-words vs)

stats_message-Buildable : (t : Stats) → Buildable (stats_message t)
unfolding stats_message ext_values old_values
stats_message-Buildable t =
    add_tlv-Buildable TlvType.stats_data_ext 96 _ (omega arith) (omega arith)
      (omega (arith, length-words (ext_values t)))
      (add_tlv-Buildable TlvType.stats_data 32 _ (omega arith) (omega arith)
        (omega (arith, length-words (old_values t))) (new_builder-Buildable _))

module _ (f : Floats) where
  open f use {Double}

  pub handle_heartbeat-Returns :
      (msg : TlvMessage) (now : ℕ) (s : Broker Double)
      → IsParsed msg
      → IsValid f s
      → Returns (handle_heartbeat f msg now s) (IsValid f)
  unfolding handle_heartbeat
  handle_heartbeat-Returns msg now s p v =
      Returns-bind (get_service_name msg) _ (get_service_name-Returns msg p) λ name_opt _.
        Returns-option name_opt (_, refl, v)
          (λ name _. (_, refl, record { moduli = v.moduli; caches = v.caches }))

  greet_child-Returns :
      (id : Text) (addr : Addr) (coords : ℕ × ℕ) (s : Broker Double)
      → IsValid f s
      → Returns (greet_child f id addr coords s) (IsValid f)
  unfolding greet_child add_child update_my_region
  greet_child-Returns id addr (lat, lon) s v =
      send-Returns f addr _ _ (add_service_name-Buildable _ (new_builder-Buildable _))
        (record { moduli = v.moduli; caches = v.caches })

  pub handle_hello-Returns :
      (msg : TlvMessage) (addr : Addr) (s : Broker Double)
      → IsParsed msg
      → IsValid f s
      → Returns (handle_hello f msg addr s) (IsValid f)
  unfolding handle_hello
  handle_hello-Returns msg addr s p v =
      Returns-bind (get_service_name msg) _ (get_service_name-Returns msg p) λ id_opt _.
        Returns-bind (get_coordinates msg) _ (get_coordinates-Returns msg p) λ coords _.
          Returns-option id_opt (_, refl, v)
            λ id _. Returns-option coords (_, refl, v) λ c _. greet_child-Returns id addr c s v

  replace_region-Returns :
      (id : Text) (r : Region Double) (child : ChildBroker Double) (s : Broker Double)
      → IsValid f s
      → Returns (replace_region f id r child s) (IsValid f)
  unfolding replace_region update_my_region
  replace_region-Returns id r child s v =
      Returns-if (s.has_parent && region_changed f _ s.my_region)
        (λ _.
          send_region_update_to_parent-Returns f _
            (record { moduli = v.moduli; caches = v.caches }))
        (λ _. (_, refl, record { moduli = v.moduli; caches = v.caches }))

  pub handle_region_update-Returns :
      (msg : TlvMessage) (s : Broker Double)
      → IsParsed msg
      → IsValid f s
      → Returns (handle_region_update f msg s) (IsValid f)
  unfolding handle_region_update
  handle_region_update-Returns msg s p v =
      Returns-bind (get_service_name msg) _ (get_service_name-Returns msg p) λ id_opt _.
        Returns-bind (get_region msg) _ (get_region-Returns msg p) λ region_opt _.
          Returns-option id_opt (_, refl, v)
            λ id _.
              Returns-option region_opt (_, refl, v)
                λ r _.
                  Returns-option (find id s.children) (_, refl, v)
                    λ child _. replace_region-Returns id _ child s v

  pub handle_stats_request-Returns :
      (client : Addr) (s : Broker Double)
      → IsValid f s
      → Returns (handle_stats_request f client s) (IsValid f)
  unfolding handle_stats_request take_snapshot
  handle_stats_request-Returns client s v =
      send-Returns f client _ _ (stats_message-Buildable _)
        (record { moduli = v.moduli; caches = v.caches })
