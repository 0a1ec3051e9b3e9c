-- ===== src/Broker/Publish.antt =====
-- `handlePublish`: the cache, the way up, the way down and the local subscribers.
use dns_plus_plus.Base.{
  ℕ, Bool, true, false, not, ◌&&◌, List, [], ◌∷◌, ◌++◌, Option, none, some, if◌then◌else◌, ltb,
  length, Access, done, ◌>>=◌, Text, text_beq, find, find_or, insert, text_eq, inc_64,
}
use dns_plus_plus.Tlv.MsgFlags
use dns_plus_plus.Tlv.Message.{TlvMessage, get_service_name}
use dns_plus_plus.Geo.{at_quadrant, set_quadrant, geo_distance, quadrant_of, quadrant_centers}
use dns_plus_plus.Geo.Numbers.{Floats}
use dns_plus_plus.Crypto.Threshold.{is_empty}
use dns_plus_plus.Broker.State.{
  Broker, Addr, Env, BrakeScope, BrakeDir, GeoClient, CachedPub, ChildBroker,
}
use dns_plus_plus.Broker.Brake.{brake_allows}
use dns_plus_plus.Broker.Match.{execute_match}
use dns_plus_plus.Broker.Send.{send, send_bytes}
use dns_plus_plus.Broker.Publication.{Publication, forward_message, read_publication}

abbrev pub max_pub_cache : ℕ
max_pub_cache = 10

unfoldable pub drop_first : Bool → List CachedPub → List CachedPub
drop_first true (c ∷ cs) = cs
drop_first _ cs = cs

-- `push_back`, and `erase(begin())` where the cache has grown past its limit.
unfoldable pub push_cached : CachedPub → List CachedPub → List CachedPub
unfolding drop_first
push_cached cp cps =
    let grown = cps ++ (cp ∷ []) in drop_first (ltb max_pub_cache (length grown)) grown

unfoldable pub brakes_upward : BrakeScope → Bool
brakes_upward BrakeScope.upward = true
brakes_upward BrakeScope.both = true
brakes_upward BrakeScope.local = false

unfoldable pub brakes_local : BrakeScope → Bool
brakes_local BrakeScope.local = true
brakes_local BrakeScope.both = true
brakes_local BrakeScope.upward = false

module _ (f : Floats) where
  open f use {Double, lt, widen}

  unfoldable pub cache_publication : Publication → Broker Double → Broker Double
  unfolding push_cached
  cache_publication p s = record s {
    pub_cache =
        insert p.key
          (push_cached (record { lat = p.lat; lon = p.lon; raw_message = p.raw })
            (find_or [] p.key s.pub_cache))
          s.pub_cache;
  }

  -- A brake that only holds if its scope asks for it.
  unfoldable pub gate : Bool → BrakeDir → Publication → ℕ → Broker Double → Broker Double × Bool
  unfolding brake_allows
  gate braked dir p now s = if braked then brake_allows f dir p.key p.lat p.lon now s else (s, true)

  unfoldable pub count_up : Broker Double → Broker Double
  count_up s = record s { stats = record s.stats { forward_up = inc_64 s.stats.forward_up } }

  -- Part 2: to the parent, unless the publication came from there.
  unfoldable pub forward_up : Publication → ℕ → Broker Double → Access (Broker Double)
  unfolding gate brakes_upward send count_up
  forward_up p now s =
      if s.has_parent && not p.from_parent
      then (let (s', passes) = gate (brakes_upward s.config.brake_scope) BrakeDir.up p now s in
          if passes
          then (send f s'.parent_addr (forward_message MsgFlags.from_child p) s' >>= λ s''.
              done (count_up s''))
          else done s')
      else done s

  unfoldable pub count_down : Broker Double → Broker Double
  count_down s = record s { stats = record s.stats { forward_down = inc_64 s.stats.forward_down } }

  -- One child: forwarded where the replica is nearer to the centre of its quadrant than any before.
  unfoldable pub forward_to_child :
      Publication → Text → ChildBroker Double → Broker Double → Access (Broker Double)
  unfolding send count_down
  forward_to_child p child_id child s =
      let q = quadrant_of f child.region (widen p.lat) (widen p.lon) in
      let centre = at_quadrant (quadrant_centers f child.region) q in
      let dist = geo_distance f (widen p.lat) (widen p.lon) centre.0 centre.1 in
      if lt dist (at_quadrant child.closest_quad q)
      then (let child' : ChildBroker Double = record child {
        closest_quad = set_quadrant q dist child.closest_quad;
      } in
          send f child.addr (forward_message MsgFlags.from_parent p)
            (record s { children = insert child_id child' s.children })
          >>= λ s'. done (count_down s'))
      else done s

  unfoldable pub forward_down : Publication → List Text → Broker Double → Access (Broker Double)
  unfolding forward_to_child
  forward_down p [] s = done s
  forward_down p (child_id ∷ rest) s =
      let next : Access (Broker Double) =
        if text_beq child_id p.from_id then done s else elim (find child_id s.children) [
          | none ↦ done s
          | some child ↦ forward_to_child p child_id child s
        ] in
      next >>= forward_down p rest

  unfoldable pub count_delivered : Broker Double → Broker Double
  count_delivered s = record s {
    stats = record s.stats { delivered_local = inc_64 s.stats.delivered_local };
  }

  -- One subscriber: the message goes out where this replica is nearer than the nearest so far.
  unfoldable pub deliver_one :
      Publication → GeoClient Double → Broker Double → GeoClient Double × Broker Double
  unfolding send_bytes count_delivered
  deliver_one p gc s =
      let dist = geo_distance f (widen p.lat) (widen p.lon) (widen gc.lat) (widen gc.lon) in
      if lt dist gc.cached_closest_dist
      then (
        record gc { cached_closest_dist = dist },
        count_delivered (send_bytes f gc.addr p.raw s),
      )
      else (gc, s)

  unfoldable pub deliver_all :
      Publication
      → List (GeoClient Double)
      → Broker Double
      → List (GeoClient Double) × Broker Double
  unfolding deliver_one
  deliver_all p [] s = ([], s)
  deliver_all p (gc ∷ gcs) s =
      let (gc', s') = deliver_one p gc s in
      let (gcs', s'') = deliver_all p gcs s' in (gc' ∷ gcs', s'')

  -- The loop over the group, which changes the group in place.
  unfoldable pub deliver : Publication → List (GeoClient Double) → Broker Double → Broker Double
  unfolding deliver_all
  deliver p gcs s =
      let (gcs', s') = deliver_all p gcs s in
      record s' { subscribers = insert p.key gcs' s'.subscribers }

  unfoldable pub count_publish : Broker Double → Broker Double
  count_publish s = record s {
    stats = record s.stats { pub_received = inc_64 s.stats.pub_received };
  }

module _ (f : Floats) (env : Env) where
  open f use {Double}

  -- With a blinded value, one match against the first subscriber decides for the group.
  unfoldable pub deliver_matched :
      Publication
      → Option Text
      → GeoClient Double
      → List (GeoClient Double)
      → Broker Double
      → Access (Broker Double)
  unfolding deliver execute_match
  deliver_matched p none gc0 gcs s = done (deliver f p (gc0 ∷ gcs) s)
  deliver_matched p (some bval_n) gc0 gcs s =
      if s.he_enabled
      then (if is_empty gc0.blinded_m1
          then done s
          else (execute_match f env bval_n gc0.blinded_m1 gc0.blinded_m2 s >>= λ (s', hit).
              done (if hit then deliver f p (gc0 ∷ gcs) s' else s')))
      else done (deliver f p (gc0 ∷ gcs) s)

  -- Part 4: the group of the key, behind the local brake.
  unfoldable pub deliver_local : Publication → ℕ → Broker Double → Access (Broker Double)
  unfolding gate brakes_local deliver_matched
  deliver_local p now s = elim (find_or [] p.key s.subscribers) [
    | [] ↦ done s
    | gc0 ∷ gcs ↦
        let (s', passes) = gate f (brakes_local s.config.brake_scope) BrakeDir.local p now s in
        if passes then deliver_matched p p.blinded gc0 gcs s' else done s'
  ]

  unfoldable pub route : Publication → ℕ → Broker Double → Access (Broker Double)
  unfolding cache_publication forward_up forward_down deliver_local
  route p now s = forward_up f p now (cache_publication f p s) >>= λ s₁.
      forward_down f p (find_or [] p.key s₁.child_active) s₁ >>= deliver_local p now

  unfoldable pub handle_publish : TlvMessage → Addr → ℕ → Broker Double → Access (Broker Double)
  unfolding route read_publication count_publish
  handle_publish msg client now s = get_service_name msg >>= λ name_opt. elim name_opt [
    | none ↦ done (count_publish f s)
    | some name ↦ read_publication f env msg client name (count_publish f s) >>= λ p.
        route p now (count_publish f s)
  ]
