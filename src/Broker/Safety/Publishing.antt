-- ===== src/Broker/Safety/Publishing.antt =====
-- Proofs on the delivering half of `handlePublish`, and on the whole of it.
use dns_plus_plus.Base.{
  ℕ, refl, List, [], ◌∷◌, Option, none, some, Returns, Returns-bind, Returns-if, Returns-option,
  Returns-list, if-cases, snd-if, Text, find_or, text_eq,
}
use dns_plus_plus.Tlv.Message.{
  TlvMessage, get_service_name, get_coordinates, get_flags, get_blinded_value,
}
use dns_plus_plus.Tlv.Total.{
  IsParsed, get_service_name-Returns, get_coordinates-Returns, get_flags-Returns,
  get_blinded_value-Returns,
}
use dns_plus_plus.Geo.{geo_distance}
use dns_plus_plus.Geo.Numbers.{Floats}
use dns_plus_plus.Crypto.Threshold.{is_empty}
use dns_plus_plus.Broker.State.{Broker, Addr, Env, BrakeDir, GeoClient}
use dns_plus_plus.Broker.Match.{execute_match}
use dns_plus_plus.Broker.Send.{send_bytes}
use dns_plus_plus.Broker.Publication.{Publication, copy_payload, read_publication}
use dns_plus_plus.Broker.Publish.{
  brakes_local, cache_publication, gate, forward_up, forward_down, count_delivered, deliver_one,
  deliver_all, deliver, count_publish, deliver_matched, deliver_local, route, handle_publish,
}
use dns_plus_plus.Broker.Valid.{IsValid}
use dns_plus_plus.Broker.Safety.Matching.{execute_match-Returns}
use dns_plus_plus.Broker.Safety.Forwarding.{
  copy_payload-Returns, cache_publication-IsValid, gate-IsValid, forward_up-Returns,
  forward_down-Returns,
}

module _ (f : Floats) where
  open f use {Double, lt, widen}

  deliver_one-IsValid :
      (p : Publication) (gc : GeoClient Double) (s : Broker Double)
      → IsValid f s
      → IsValid f (deliver_one f p gc s).1
  unfolding deliver_one count_delivered send_bytes
  deliver_one-IsValid p gc s v =
      let dist = geo_distance f (widen p.lat) (widen p.lon) (widen gc.lat) (widen gc.lon) in
      snd-if (IsValid f) (lt dist gc.cached_closest_dist)
        (record gc { cached_closest_dist = dist }, count_delivered f (send_bytes f gc.addr p.raw s))
        (gc, s) (record { moduli = v.moduli; caches = v.caches }) v

  deliver_all-IsValid :
      (p : Publication) (gcs : List (GeoClient Double)) (s : Broker Double)
      → IsValid f s
      → IsValid f (deliver_all f p gcs s).1
  unfolding deliver_all
  deliver_all-IsValid p [] s v = v
  deliver_all-IsValid p (gc ∷ gcs) s v = deliver_all-IsValid p gcs _ (deliver_one-IsValid p gc s v)

  pub deliver-IsValid :
      (p : Publication) (gcs : List (GeoClient Double)) (s : Broker Double)
      → IsValid f s
      → IsValid f (deliver f p gcs s)
  unfolding deliver
  deliver-IsValid p gcs s v =
      let w : IsValid f (deliver_all f p gcs s).1 = deliver_all-IsValid p gcs s v in
      record { moduli = w.moduli; caches = w.caches }

module _ (f : Floats) (env : Env) where
  open f use {Double}

  deliver_matched-Returns :
      (p : Publication) (blinded : Option Text) (gc : GeoClient Double)
      (gcs : List (GeoClient Double)) (s : Broker Double)
      → IsValid f s
      → Returns (deliver_matched f env p blinded gc gcs s) (IsValid f)
  unfolding deliver_matched
  deliver_matched-Returns p none gc gcs s v = (_, refl, deliver-IsValid f p (gc ∷ gcs) s v)
  deliver_matched-Returns p (some n) gc gcs s v =
      Returns-if s.he_enabled
        (λ on.
          Returns-if (is_empty gc.blinded_m1) (λ _. (s, refl, v))
            (λ _.
              Returns-bind (execute_match f env n gc.blinded_m1 gc.blinded_m2 s) _
                (execute_match-Returns f env n gc.blinded_m1 gc.blinded_m2 s on v)
                (λ r w.
                  (_, refl, if-cases (IsValid f) r.1 (deliver-IsValid f p (gc ∷ gcs) r.0 w) w))))
        (λ _. (_, refl, deliver-IsValid f p (gc ∷ gcs) s v))

  deliver_local-Returns :
      (p : Publication) (now : ℕ) (s : Broker Double)
      → IsValid f s
      → Returns (deliver_local f env p now s) (IsValid f)
  unfolding deliver_local
  deliver_local-Returns p now s v =
      let kept : IsValid f (gate f (brakes_local s.config.brake_scope) BrakeDir.local p now s).0 =
        gate-IsValid f (brakes_local s.config.brake_scope) BrakeDir.local p now s v in
      Returns-list (find_or [] p.key s.subscribers) (s, refl, v)
        λ gc gcs.
          Returns-if (gate f (brakes_local s.config.brake_scope) BrakeDir.local p now s).1
            (λ _. deliver_matched-Returns p p.blinded gc gcs _ kept) (λ _. (_, refl, kept))

  route-Returns :
      (p : Publication) (now : ℕ) (s : Broker Double)
      → IsValid f s
      → Returns (route f env p now s) (IsValid f)
  unfolding route
  route-Returns p now s v =
      Returns-bind (forward_up f p now (cache_publication f p s)) _
        (forward_up-Returns f p now _ (cache_publication-IsValid f p s v))
        (λ s₁ w.
          Returns-bind (forward_down f p (find_or [] p.key s₁.child_active) s₁) _
            (forward_down-Returns f p _ s₁ w) (λ s₂ w'. deliver_local-Returns p now s₂ w'))

  read_publication-Returns :
      (msg : TlvMessage) (client : Addr) (name : Text) (s : Broker Double)
      → IsParsed msg
      → Returns (read_publication f env msg client name s) (λ r. Unit {0})
  unfolding read_publication
  read_publication-Returns msg client name s p =
      Returns-bind (get_coordinates msg) _ (get_coordinates-Returns msg p) λ coords _.
        Returns-bind (get_flags msg) _ (get_flags-Returns msg p) λ flags_opt _.
          Returns-bind (get_blinded_value msg) _ (get_blinded_value-Returns msg p) λ blinded _.
            Returns-bind (copy_payload msg) _ (copy_payload-Returns msg p)
              λ payload _. (_, refl, tt)

  pub handle_publish-Returns :
      (msg : TlvMessage) (client : Addr) (now : ℕ) (s : Broker Double)
      → IsParsed msg
      → IsValid f s
      → Returns (handle_publish f env msg client now s) (IsValid f)
  unfolding handle_publish count_publish
  handle_publish-Returns msg client now s p v =
      let counted : IsValid f (count_publish f s) = record {
        moduli = v.moduli;
        caches = v.caches;
      } in
      Returns-bind (get_service_name msg) _ (get_service_name-Returns msg p) λ name_opt _.
        Returns-option name_opt (_, refl, counted)
          λ name _.
            Returns-bind (read_publication f env msg client name (count_publish f s)) _
              (read_publication-Returns msg client name (count_publish f s) p)
              (λ q _. route-Returns q now (count_publish f s) counted)
