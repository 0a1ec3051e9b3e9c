-- ===== src/Broker/Membership.antt =====
-- Heartbeats, child brokers and the report of the counters.
use dns_plus_plus.Base.{
  ℕ, ◌+◌, ◌%◌, ◌^◌, Bool, false, ◌&&◌, List, [], ◌∷◌, ◌++◌, Option, none, some, if◌then◌else◌,
  Access, done, ◌>>=◌, Text, Map, find, insert, length, text_eq, bytes_64,
}
use dns_plus_plus.Tlv.MsgType
use dns_plus_plus.Tlv.TlvType
use dns_plus_plus.Tlv.Message.{
  TlvMessage, RegionBits, get_service_name, get_coordinates, get_region,
}
use dns_plus_plus.Tlv.Builder.{Builder, new_builder, add_service_name, add_tlv}
use dns_plus_plus.Geo.{Region, Four, merge}
use dns_plus_plus.Geo.Numbers.{Floats}
use dns_plus_plus.Broker.State.{Broker, Addr, ChildBroker, Stats}
use dns_plus_plus.Broker.Send.{send, send_region_update_to_parent, region_changed}

-- The twelve words of the extended report, and the four of the old one.
unfoldable pub braked_total : Stats → ℕ
braked_total t = (t.braked_up + t.braked_local) % 2 ^ 64

unfoldable pub ext_values : Stats → List ℕ
unfolding braked_total
ext_values t =
    t.forward_up
    ∷ t.forward_down
    ∷ t.delivered_local
    ∷ braked_total t
    ∷ t.match_calls
    ∷ t.match_hits
    ∷ t.pub_received
    ∷ t.sub_received
    ∷ t.sub_groups
    ∷ t.he_mode
    ∷ t.braked_up
    ∷ t.braked_local
    ∷ []

unfoldable pub old_values : Stats → List ℕ
unfolding braked_total
old_values t = t.forward_up ∷ t.forward_down ∷ t.delivered_local ∷ braked_total t ∷ []

-- `htobe64` and `memcpy` of each word.
unfoldable pub words : List ℕ → List ℕ
words [] = []
words (v ∷ vs) = bytes_64 v ++ words vs

unfoldable pub stats_message : Stats → Builder
unfolding ext_values old_values words
stats_message t =
    add_tlv TlvType.stats_data_ext (words (ext_values t)) 96
      (add_tlv TlvType.stats_data (words (old_values t)) 32 (new_builder MsgType.stats_response))

module _ (f : Floats) where
  open f use {Double, max_value, widen}

  unfoldable pub point_region : ℕ → ℕ → Region Double
  point_region lat lon = record {
    min_lat = widen lat;
    max_lat = widen lat;
    min_lon = widen lon;
    max_lon = widen lon;
  }

  unfoldable pub merge_children : Map Text (ChildBroker Double) → Region Double → Region Double
  merge_children [] r = r
  merge_children ((id, child) ∷ rest) r = merge_children rest (merge f r child.region)

  unfoldable pub update_my_region : Broker Double → Broker Double
  unfolding point_region merge_children
  update_my_region s = record s {
    my_region = merge_children s.children (point_region s.config.lat s.config.lon);
  }

  unfoldable pub handle_heartbeat : TlvMessage → ℕ → Broker Double → Access (Broker Double)
  handle_heartbeat msg now s = get_service_name msg >>= λ name_opt. elim name_opt [
    | none ↦ done s
    | some name ↦ done (record s { last_active = insert name now s.last_active })
  ]

  -- The `closest_quad` of a child: what `children_[id]` has, or a new one.
  unfoldable pub closest_of : Option (ChildBroker Double) → Four Double
  closest_of none = record { sw = max_value; se = max_value; nw = max_value; ne = max_value }
  closest_of (some child) = child.closest_quad

  unfoldable pub is_active : Option (ChildBroker Double) → Bool
  is_active none = false
  is_active (some child) = child.active

  unfoldable pub add_child : Text → Addr → ℕ → ℕ → Broker Double → Broker Double
  unfolding closest_of is_active point_region
  add_child child_id addr lat lon s = record s {
    children =
        insert child_id
          (record {
            id = child_id;
            addr = addr;
            lat = lat;
            lon = lon;
            region = point_region lat lon;
            active = is_active (find child_id s.children);
            closest_quad = closest_of (find child_id s.children);
          })
          s.children;
  }

  unfoldable pub greet_child : Text → Addr → ℕ × ℕ → Broker Double → Access (Broker Double)
  unfolding add_child update_my_region send
  greet_child child_id addr (lat, lon) s =
      send f addr (add_service_name s.config.broker_id (new_builder MsgType.hello_ack))
        (update_my_region (add_child child_id addr lat lon s))

  unfoldable pub handle_hello : TlvMessage → Addr → Broker Double → Access (Broker Double)
  unfolding greet_child
  handle_hello msg child_addr s = do
    id_opt ← get_service_name msg
    coords_opt ← get_coordinates msg
    elim id_opt [
      | none ↦ done s
      | some child_id ↦ elim coords_opt [
        | none ↦ done s
        | some coords ↦ greet_child child_id child_addr coords s
      ]
    ]

  unfoldable pub widen_region : RegionBits → Region Double
  widen_region r = record {
    min_lat = widen r.min_lat;
    max_lat = widen r.max_lat;
    min_lon = widen r.min_lon;
    max_lon = widen r.max_lon;
  }

  unfoldable pub replace_region :
      Text → Region Double → ChildBroker Double → Broker Double → Access (Broker Double)
  unfolding update_my_region send_region_update_to_parent region_changed
  replace_region child_id r child s =
      let s' =
        update_my_region
          (record s { children = insert child_id (record child { region = r }) s.children }) in
      if s.has_parent && region_changed f s'.my_region s.my_region
      then send_region_update_to_parent f s'
      else done s'

  unfoldable pub handle_region_update : TlvMessage → Broker Double → Access (Broker Double)
  unfolding replace_region widen_region
  handle_region_update msg s = do
    id_opt ← get_service_name msg
    region_opt ← get_region msg
    elim id_opt [
      | none ↦ done s
      | some child_id ↦ elim region_opt [
        | none ↦ done s
        | some r ↦ elim (find child_id s.children) [
          | none ↦ done s
          | some child ↦ replace_region child_id (widen_region r) child s
        ]
      ]
    ]

  -- The snapshot values are taken anew for each report.
  unfoldable pub take_snapshot : Broker Double → Broker Double
  take_snapshot s = record s {
    stats = record s.stats {
      sub_groups = length s.subscribers;
      he_mode = if s.he_enabled then 1 else 0;
    };
  }

  unfoldable pub handle_stats_request : Addr → Broker Double → Access (Broker Double)
  unfolding take_snapshot stats_message send
  handle_stats_request client s =
      let s' = take_snapshot s in send f client (stats_message s'.stats) s'
