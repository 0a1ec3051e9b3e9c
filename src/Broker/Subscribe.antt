-- ===== src/Broker/Subscribe.antt =====
-- `handleSubscribe`.
use dns_plus_plus.Base.{
  ℕ, ◌&&◌, List, [], ◌∷◌, ◌++◌, Option, none, some, if◌then◌else◌, Access, done, ◌>>=◌, Text,
  find_or, insert, text_eq, inc_64,
}
use dns_plus_plus.Tlv.MsgFlags
use dns_plus_plus.Tlv.MsgFlags.{has_flag}
use dns_plus_plus.Tlv.Message.{
  TlvMessage, get_service_name, get_coordinates, get_flags, get_blinded_value, get_blinded_value_hi,
}
use dns_plus_plus.Geo.{Region, geo_distance, min_of, max_of}
use dns_plus_plus.Geo.Numbers.{Floats}
use dns_plus_plus.Broker.State.{Broker, Addr, Env, GeoClient, CachedPub}
use dns_plus_plus.Crypto.Threshold.{is_empty}
use dns_plus_plus.Broker.Match.{hash_service_name}
use dns_plus_plus.Broker.Send.{
  set_insert, value_or, is_some, send_bytes, send_region_update_to_parent, region_changed,
  forward_subscription, find_child_by_addr,
}

-- The blinded values of a new subscriber: stored only if both are there.
unfoldable pub blinded_pair : Option Text → Option Text → Text × Text
blinded_pair (some m1) (some m2) = (m1, m2)
blinded_pair (some m1) none = ([], [])
blinded_pair none m2 = ([], [])

module _ (f : Floats) (env : Env) where
  open f use {Double, lt, max_value, widen}

  unfoldable pub subscribe_child : Text → Addr → Broker Double → Access (Broker Double)
  subscribe_child name client s =
      let child_id = find_child_by_addr f client s.children in
      if is_empty child_id
      then done s
      else forward_subscription f name (record s {
        child_active =
            insert name (set_insert child_id (find_or [] name s.child_active)) s.child_active;
      })

  -- The subscriber joins its group, and the group counts as active.
  unfoldable pub add_subscriber : Text → GeoClient Double → ℕ → Broker Double → Broker Double
  add_subscriber key gc now s = record s {
    subscribers = insert key (find_or [] key s.subscribers ++ (gc ∷ [])) s.subscribers;
    last_active = insert key now s.last_active;
  }

  unfoldable pub extend_region : ℕ → ℕ → Region Double → Region Double
  extend_region lat lon r = record {
    min_lat = min_of f r.min_lat (widen lat);
    max_lat = max_of f r.max_lat (widen lat);
    min_lon = min_of f r.min_lon (widen lon);
    max_lon = max_of f r.max_lon (widen lon);
  }

  unfoldable pub grow_region : ℕ → ℕ → Broker Double → Access (Broker Double)
  unfolding extend_region
  grow_region lat lon s =
      let s' : Broker Double = record s { my_region = extend_region lat lon s.my_region } in
      if s.has_parent && region_changed f s'.my_region s.my_region
      then send_region_update_to_parent f s'
      else done s'

  -- The loop over the cached publications, from the best so far.
  unfoldable pub best_pub :
      ℕ → ℕ → List CachedPub → Option CachedPub → Double → Option CachedPub × Double
  best_pub lat lon [] best best_dist = (best, best_dist)
  best_pub lat lon (cp ∷ rest) best best_dist =
      let d = geo_distance f (widen lat) (widen lon) (widen cp.lat) (widen cp.lon) in
      let closer = lt d best_dist in
      best_pub lat lon rest (if closer then some cp else best) (if closer then d else best_dist)

  -- `subscribers[key].back().cached_closest_dist = d`
  unfoldable pub set_back : Double → List (GeoClient Double) → List (GeoClient Double)
  set_back d [] = []
  set_back d (gc ∷ []) = record gc { cached_closest_dist = d } ∷ []
  set_back d (gc ∷ gc' ∷ rest) = gc ∷ set_back d (gc' ∷ rest)

  unfoldable pub answer : Text → Addr → Option CachedPub × Double → Broker Double → Broker Double
  unfolding set_back
  answer key client (none, d) s = s
  answer key client (some cp, d) s = record (send_bytes f client cp.raw_message s) {
    subscribers = insert key (set_back d (find_or [] key s.subscribers)) s.subscribers;
  }

  unfoldable pub answer_query : Text → Addr → ℕ → ℕ → ℕ → Broker Double → Broker Double
  unfolding best_pub answer
  answer_query key client lat lon flags s =
      if has_flag flags MsgFlags.query_mode
      then answer key client (best_pub lat lon (find_or [] key s.pub_cache) none max_value) s
      else s

  -- A subscription that comes from a client.
  unfoldable pub subscribe_client :
      Text
      → Addr
      → ℕ × ℕ
      → ℕ
      → Option Text
      → Option Text
      → ℕ
      → Broker Double
      → Access (Broker Double)
  unfolding add_subscriber grow_region answer_query blinded_pair
  subscribe_client name client (lat, lon) flags bval_m1 bval_m2 now s =
      let key : Text =
        if is_some bval_m1 && s.he_enabled then hash_service_name f env name else name in
      let (m1, m2) = blinded_pair bval_m1 bval_m2 in
      let gc : GeoClient Double = record {
        addr = client;
        lat = lat;
        lon = lon;
        cached_closest_dist = max_value;
        blinded_m1 = m1;
        blinded_m2 = m2;
      } in
      grow_region lat lon (add_subscriber key gc now s) >>= λ s₁.
      forward_subscription f key (answer_query key client lat lon flags s₁)

  unfoldable pub count_subscribe : Broker Double → Broker Double
  count_subscribe s = record s {
    stats = record s.stats { sub_received = inc_64 s.stats.sub_received };
  }

  -- `handleSubscribe`; `0.0f` is the pattern 0.
  unfoldable pub handle_subscribe : TlvMessage → Addr → ℕ → Broker Double → Access (Broker Double)
  unfolding subscribe_child subscribe_client count_subscribe
  handle_subscribe msg client now s = get_service_name msg >>= λ name_opt. elim name_opt [
    | none ↦ done (count_subscribe s)
    | some name ↦ do
      coords ← get_coordinates msg
      flags_opt ← get_flags msg
      bval_m1 ← get_blinded_value msg
      bval_m2 ← get_blinded_value_hi msg
      let flags = value_or 0 flags_opt
      if has_flag flags MsgFlags.from_child
          then subscribe_child name client (count_subscribe s)
          else subscribe_client name client (value_or (0, 0) coords) flags bval_m1 bval_m2 now
              (count_subscribe s)
  ]
