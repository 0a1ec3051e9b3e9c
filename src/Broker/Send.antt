-- ===== src/Broker/Send.antt =====
-- `sendto` on a built message, the messages that handlers share, and small containers.
use dns_plus_plus.Base.{
  ℕ, Bool, true, false, not, ◌&&◌, ◌||◌, List, [], ◌∷◌, ◌++◌, Option, none, some, if◌then◌else◌,
  Access, done, ◌>>=◌, Text, text_beq, Map, ◌==◌,
}
use dns_plus_plus.Tlv.MsgType
use dns_plus_plus.Tlv.MsgFlags
use dns_plus_plus.Tlv.Message.{RegionBits}
use dns_plus_plus.Tlv.Builder.{
  Builder, new_builder, build, add_service_name, add_coordinates, add_flags, add_region,
}
use dns_plus_plus.Geo.{Region}
use dns_plus_plus.Geo.Numbers.{Floats}
use dns_plus_plus.Broker.State.{Broker, Addr, ChildBroker}

-- `find` and `insert` of a `std::unordered_set`.
unfoldable pub member : Text → List Text → Bool
member t [] = false
member t (x ∷ xs) = text_beq x t || member t xs

unfoldable pub set_insert : Text → List Text → List Text
unfolding member
set_insert t xs = if member t xs then xs else xs ++ (t ∷ [])

-- The value of an optional, or what stands in for it.
abbrev pub value_or {ℓ} : {A : Type ℓ} → A → Option A → A
value_or d none = d
value_or d (some a) = a

abbrev pub is_some {ℓ} : {A : Type ℓ} → Option A → Bool
is_some none = false
is_some (some a) = true

abbrev pub same_addr : Addr → Addr → Bool
same_addr a b = a.port == b.port && a.ip == b.ip

module _ (f : Floats) where
  open f use {Double, eq, narrow}

  unfoldable pub send_bytes : Addr → List ℕ → Broker Double → Broker Double
  send_bytes dest bytes s = record s {
    outbox = s.outbox ++ (record { dest = dest; bytes = bytes } ∷ []);
  }

  unfoldable pub send : Addr → Builder → Broker Double → Access (Broker Double)
  unfolding send_bytes
  send dest b s = do bytes ← build b; done (send_bytes dest bytes s)

  unfoldable pub region_bits : Region Double → RegionBits
  region_bits r = record {
    min_lat = narrow r.min_lat;
    max_lat = narrow r.max_lat;
    min_lon = narrow r.min_lon;
    max_lon = narrow r.max_lon;
  }

  -- The `!=` of all four bounds.
  unfoldable pub region_changed : Region Double → Region Double → Bool
  region_changed a b =
      not (eq a.min_lat b.min_lat)
      || not (eq a.max_lat b.max_lat)
      || not (eq a.min_lon b.min_lon)
      || not (eq a.max_lon b.max_lon)

  unfoldable pub send_region_update_to_parent : Broker Double → Access (Broker Double)
  unfolding send region_bits
  send_region_update_to_parent s =
      if s.has_parent
      then send s.parent_addr
          (add_region (region_bits s.my_region)
            (add_service_name s.config.broker_id (new_builder MsgType.region_update)))
          s
      else done s

  -- What both branches of `handleSubscribe` send to the parent, once for each key.
  unfoldable pub subscribe_message : Text → Broker Double → Builder
  subscribe_message key s = add_flags MsgFlags.from_child (
      add_coordinates s.config.lat s.config.lon
        (add_service_name key (new_builder MsgType.subscribe)))

  unfoldable pub forward_subscription : Text → Broker Double → Access (Broker Double)
  unfolding send subscribe_message member set_insert
  forward_subscription key s =
      if s.has_parent && not (member key s.ot_parent)
      then (do
        s' ← send s.parent_addr (subscribe_message key s) s
        done (record s' { ot_parent = set_insert key s'.ot_parent }))
      else done s

  -- `findChildByAddr`: the empty text where no child has the address.
  unfoldable pub find_child_by_addr : Addr → Map Text (ChildBroker Double) → Text
  find_child_by_addr addr [] = []
  find_child_by_addr addr ((id, child) ∷ rest) =
      if same_addr child.addr addr then id else find_child_by_addr addr rest
