-- ===== src/Broker/Safety/Forwarding.antt =====
-- Proofs on the forwarding half of `handlePublish`.
use dns_plus_plus.Base.{
  ℕ, subst, sym, Access, ◌+◌, ◌≤◌, ◌≡◌, refl, Bool, true, false, not, ◌&&◌, List, [], ◌∷◌, length,
  length-append, Option, none, some, ltb, ◌==◌, done, ◌>>=◌, Returns, Returns-bind, Returns-if,
  Returns-option, fst-if, if◌then◌else◌, Text, text_beq, find, text_eq, insert-Values,
  find_or-Values, arith,
}
use dns_plus_plus.Tlv.MsgFlags
use dns_plus_plus.Tlv.Message.{TlvMessage, get_payload_size, payload_bytes}
use dns_plus_plus.Tlv.Frame.{Frame, encode_fields, Views}
use dns_plus_plus.Tlv.Build.{payload_bytes-Views}
use dns_plus_plus.Tlv.Total.{
  IsParsed, Buildable, new_builder-Buildable, add_service_name-Buildable, add_coordinates-Buildable,
  add_flags-Buildable, add_blinded_value-Buildable, set_payload-Buildable,
}
use dns_plus_plus.Geo.{at_quadrant, geo_distance, quadrant_of, quadrant_centers}
use dns_plus_plus.Geo.Numbers.{Floats}
use dns_plus_plus.Broker.State.{Broker, Addr, BrakeDir, CachedPub, ChildBroker}
use dns_plus_plus.Broker.Brake.{brake_allows, set_windows, count_braked}
use dns_plus_plus.Broker.Send.{send, value_or}
use dns_plus_plus.Broker.Publication.{
  Publication, copy_payload, add_payload, add_blinded, forward_message,
}
use dns_plus_plus.Broker.Publish.{
  max_pub_cache, drop_first, push_cached, brakes_upward, cache_publication, gate, count_up,
  forward_up, count_down, forward_to_child, forward_down,
}
use dns_plus_plus.Broker.Valid.{IsValid, send-Returns}

add_payload-Buildable : (o : Option (List ℕ)) {b : _} → Buildable b → Buildable (add_payload o b)
unfolding add_payload
add_payload-Buildable none h = h
add_payload-Buildable (some bytes) h = set_payload-Buildable bytes h

add_blinded-Buildable : (o : Option Text) {b : _} → Buildable b → Buildable (add_blinded o b)
unfolding add_blinded
add_blinded-Buildable none h = h
add_blinded-Buildable (some hex) h = add_blinded_value-Buildable hex h

pub forward_message-Buildable : (flag : ℕ) (p : Publication) → Buildable (forward_message flag p)
unfolding forward_message
forward_message-Buildable flag p = add_flags-Buildable flag (
    add_blinded-Buildable p.blinded (
      add_payload-Buildable p.payload (
        add_coordinates-Buildable p.lat p.lon
          (add_service_name-Buildable p.key (new_builder-Buildable _)))))

-- What `setPayload` is given is the payload of the frame, or there is none.
pub copy_payload-Views :
    (m : TlvMessage) (fr : Frame) (rest : List ℕ)
    → Views m fr rest
    → Returns (copy_payload m) (λ o. value_or [] o ≡ fr.payload)
unfolding copy_payload
copy_payload-Views m fr rest v =
    let (pointer, size, bytes) = payload_bytes-Views m fr rest v in
    subst (λ o. Returns (copied o (get_payload_size m)) IsPayload) (sym pointer)
      (subst
        (λ n. Returns (copied (if length fr.payload == 0 then none else some start) n) IsPayload)
        (sym size) (present fr.payload bytes))
  where
    start : ℕ
    start = 8 + length (encode_fields fr.fields)

    IsPayload : Option (List ℕ) → Type 0
    IsPayload o = value_or [] o ≡ fr.payload

    copied : Option ℕ → ℕ → Access (Option (List ℕ))
    copied o n = elim o [
      | none ↦ done none
      | some at ↦ if ltb 0 n then (payload_bytes m at >>= λ bytes. done (some bytes)) else done none
    ]

    present :
        (payload : List ℕ)
        → payload_bytes m start ≡ done payload
        → Returns
            (copied (if length payload == 0 then none else some start) (length payload))
            (λ o. value_or [] o ≡ payload)
    present [] e = (none, refl, refl)
    present (b ∷ bs) e =
        let full : (length (b ∷ bs) == 0) ≡ false = ground arith in
        let long : ltb 0 (length (b ∷ bs)) ≡ true = ground arith in
        (some (b ∷ bs), rw (full, long, e) refl, refl)

pub copy_payload-Returns :
    (msg : TlvMessage) → IsParsed msg → Returns (copy_payload msg) (λ r. Unit {0})
copy_payload-Returns msg p =
    let (o, e, _) = copy_payload-Views msg p.frame p.rest p.views in (o, e, tt)

length-push_cached :
    (cp : CachedPub) (cps : List CachedPub)
    → length cps ≤ max_pub_cache
    → length (push_cached cp cps) ≤ max_pub_cache
unfolding push_cached drop_first
length-push_cached cp [] h = omega arith
length-push_cached cp (c ∷ cs) h = ground (arith, length-append cs (cp ∷ []))

module _ (f : Floats) where
  open f use {Double, lt, widen}

  pub cache_publication-IsValid :
      (p : Publication) (s : Broker Double) → IsValid f s → IsValid f (cache_publication f p s)
  unfolding cache_publication
  cache_publication-IsValid p s v = record {
    moduli = v.moduli;
    caches =
        insert-Values (λ cps. length cps ≤ max_pub_cache) p.key _ s.pub_cache v.caches
          (length-push_cached _ _ (
            find_or-Values (λ cps. length cps ≤ max_pub_cache) p.key [] s.pub_cache v.caches
              (omega arith)));
  }

  set_windows-IsValid :
      (dir : BrakeDir) (w : _) (s : Broker Double) → IsValid f s → IsValid f (set_windows f dir w s)
  unfolding set_windows
  set_windows-IsValid BrakeDir.up w s v = record { moduli = v.moduli; caches = v.caches }
  set_windows-IsValid BrakeDir.local w s v = record { moduli = v.moduli; caches = v.caches }

  count_braked-IsValid :
      (dir : BrakeDir) (s : Broker Double) → IsValid f s → IsValid f (count_braked f dir s)
  unfolding count_braked
  count_braked-IsValid BrakeDir.up s v = record { moduli = v.moduli; caches = v.caches }
  count_braked-IsValid BrakeDir.local s v = record { moduli = v.moduli; caches = v.caches }

  pub gate-IsValid :
      (braked : Bool) (dir : BrakeDir) (p : Publication) (now : ℕ) (s : Broker Double)
      → IsValid f s
      → IsValid f (gate f braked dir p now s).0
  unfolding gate brake_allows
  gate-IsValid true dir p now s v =
      fst-if (IsValid f) _ _ _ (set_windows-IsValid dir _ s v)
        (count_braked-IsValid dir _ (set_windows-IsValid dir _ s v))
  gate-IsValid false dir p now s v = v

  -- `sendto` of a forwarded publication, with the counter that follows it.
  forward-Returns :
      (dest : Addr) (flag : ℕ) (p : Publication) (count : Broker Double → Broker Double)
      (s : Broker Double)
      → ((t : Broker Double) → IsValid f t → IsValid f (count t))
      → IsValid f s
      → Returns (send f dest (forward_message flag p) s >>= λ t. done (count t)) (IsValid f)
  forward-Returns dest flag p count s keeps v =
      Returns-bind (send f dest (forward_message flag p) s) _
        (send-Returns f dest _ s (forward_message-Buildable flag p) v) (λ t w. (_, refl, keeps t w))

  pub forward_up-Returns :
      (p : Publication) (now : ℕ) (s : Broker Double)
      → IsValid f s
      → Returns (forward_up f p now s) (IsValid f)
  unfolding forward_up count_up
  forward_up-Returns p now s v =
      let kept : IsValid f (gate f (brakes_upward s.config.brake_scope) BrakeDir.up p now s).0 =
        gate-IsValid (brakes_upward s.config.brake_scope) BrakeDir.up p now s v in
      Returns-if (s.has_parent && not p.from_parent)
        (λ _.
          Returns-if (gate f (brakes_upward s.config.brake_scope) BrakeDir.up p now s).1
            (λ _.
              forward-Returns _ MsgFlags.from_child p (count_up f) _
                (λ t w. record { moduli = w.moduli; caches = w.caches }) kept)
            (λ _. (_, refl, kept)))
        (λ _. (_, refl, v))

  forward_to_child-Returns :
      (p : Publication) (id : Text) (child : ChildBroker Double) (s : Broker Double)
      → IsValid f s
      → Returns (forward_to_child f p id child s) (IsValid f)
  unfolding forward_to_child count_down
  forward_to_child-Returns p id child s v =
      let q = quadrant_of f child.region (widen p.lat) (widen p.lon) in
      let centre = at_quadrant (quadrant_centers f child.region) q in
      let dist = geo_distance f (widen p.lat) (widen p.lon) centre.0 centre.1 in
      Returns-if (lt dist (at_quadrant child.closest_quad q))
        (λ _.
          forward-Returns child.addr MsgFlags.from_parent p (count_down f) _
            (λ t w. record { moduli = w.moduli; caches = w.caches })
            (record { moduli = v.moduli; caches = v.caches }))
        (λ _. (s, refl, v))

  pub forward_down-Returns :
      (p : Publication) (ids : List Text) (s : Broker Double)
      → IsValid f s
      → Returns (forward_down f p ids s) (IsValid f)
  unfolding forward_down
  forward_down-Returns p [] s v = (s, refl, v)
  forward_down-Returns p (id ∷ rest) s v =
      Returns-bind _ (forward_down f p rest)
        (Returns-if (text_beq id p.from_id) (λ _. (s, refl, v))
          (λ _.
            Returns-option (find id s.children) (s, refl, v)
              λ child _. forward_to_child-Returns p id child s v))
        (λ t w. forward_down-Returns p rest t w)
