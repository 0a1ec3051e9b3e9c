-- ===== src/Broker/Links/RegionFrame.antt =====
-- The REGION_UPDATE as a frame: how it is sent, and what `handleRegionUpdate` reads.
use dns_plus_plus.Base.{
  ℕ, ◌+◌, ◌^◌, ◌≤◌, ◌<◌, ◌≡◌, refl, ap, ap₂, ◌∙◌, true, List, [], ◌∷◌, ◌++◌, append-nil, length,
  arith, done, Text, text_eq, bytes_32, if_true, be_32, be_32-bytes_32, none, some, find,
  length-append,
}
use dns_plus_plus.Tlv.MsgType
use dns_plus_plus.Tlv.TlvType
use dns_plus_plus.Tlv.Message.{TlvMessage, RegionBits, get_service_name, get_region}
use dns_plus_plus.Tlv.Builder.{add_region}
use dns_plus_plus.Tlv.Frame.{Frame, encode, encode_fields, IsFrame, Views}
use dns_plus_plus.Tlv.Fields.{get_text-Views, get_region-Views, region_of}
use dns_plus_plus.Tlv.Build.{new_builder-Holds, add_tlv-Holds, with_field, empty_frame}
use dns_plus_plus.Geo.{Region}
use dns_plus_plus.Geo.Numbers.{Floats, FloatBits}
use dns_plus_plus.Broker.State.{Broker, ChildBroker}
use dns_plus_plus.Broker.Send.{send_bytes, region_bits, send_region_update_to_parent}
use dns_plus_plus.Broker.Membership.{widen_region, replace_region, handle_region_update}
use dns_plus_plus.Broker.Links.Wire.{IsDatagram, send-Holds}
use dns_plus_plus.Broker.Links.Hello.{add_service_name-Holds}

abbrev region_bytes : RegionBits → List ℕ
region_bytes r =
    bytes_32 r.min_lat ++ (bytes_32 r.max_lat ++ (bytes_32 r.min_lon ++ bytes_32 r.max_lon))

abbrev pub region_frame : Text → RegionBits → Frame
region_frame id r =
    with_field TlvType.region (region_bytes r)
      (with_field TlvType.service_name id (empty_frame MsgType.region_update))

pub record IsPatterns (r : RegionBits) : Type 0 where
  min_lat_fits : r.min_lat < 2 ^ 32
  max_lat_fits : r.max_lat < 2 ^ 32
  min_lon_fits : r.min_lon < 2 ^ 32
  max_lon_fits : r.max_lon < 2 ^ 32

region_of-region_bytes :
    (r : RegionBits) → IsPatterns r → region_of (some (region_bytes r)) ≡ some r
region_of-region_bytes r h =
    ap₂
      (λ (a : ℕ) (b : ℕ). some (quad a b (be_32 (bytes_32 r.min_lon)) (be_32 (bytes_32 r.max_lon))))
      (be_32-bytes_32 r.min_lat [] h.min_lat_fits) (be_32-bytes_32 r.max_lat [] h.max_lat_fits)
    ∙ ap₂ (λ (a : ℕ) (b : ℕ). some (quad r.min_lat r.max_lat a b))
        (be_32-bytes_32 r.min_lon [] h.min_lon_fits) (be_32-bytes_32 r.max_lon [] h.max_lon_fits)
  where
    quad : ℕ → ℕ → ℕ → ℕ → RegionBits
    quad a b c d = record { min_lat = a; max_lat = b; min_lon = c; max_lon = d }

pub region_frame-IsDatagram :
    (id : Text) (r : RegionBits) → length id ≤ 4000 → IsDatagram (region_frame id r)
region_frame-IsDatagram id r h = record {
  is_frame = record {
    kind_fits = omega arith;
    fields_fit = ((omega arith, omega arith), ((omega arith, omega arith), tt));
    count_fits = omega arith;
    payload_fits = omega arith;
  };
  fits = omega (arith, size);
}
  where
    size : length (encode (region_frame id r)) ≡ 32 + length id
    size = omega (
      arith,
      length-append id (encode_fields ((TlvType.region, region_bytes r) ∷ []) ++ []),
      ap length (append-nil (encode_fields (region_frame id r).fields)),
    )

module _ (f : Floats) where
  open f use {Double, eq, narrow, widen}

  pub region_bits-IsPatterns : FloatBits f → (r : Region Double) → IsPatterns (region_bits f r)
  unfolding region_bits
  region_bits-IsPatterns bits r = record {
    min_lat_fits = bits.narrow_fits r.min_lat;
    max_lat_fits = bits.narrow_fits r.max_lat;
    min_lon_fits = bits.narrow_fits r.min_lon;
    max_lon_fits = bits.narrow_fits r.max_lon;
  }

  pub send_region_update_lem :
      (s : Broker Double)
      → s.has_parent ≡ true
      → length s.config.broker_id ≤ 4000
      → send_region_update_to_parent f s
        ≡ done (
            send_bytes f s.parent_addr
              (encode (region_frame s.config.broker_id (region_bits f s.my_region)))
              s)
  unfolding send_region_update_to_parent add_region
  send_region_update_lem s on h =
      if_true s.has_parent _ on
      ∙ send-Holds f s.parent_addr _ (region_frame s.config.broker_id (region_bits f s.my_region)) s
          (region_frame-IsDatagram s.config.broker_id (region_bits f s.my_region) h).is_frame
          (add_tlv-Holds TlvType.region 16 (region_bytes (region_bits f s.my_region)) refl (
            add_service_name-Holds s.config.broker_id (omega (arith, h))
              (new_builder-Holds MsgType.region_update)))

  pub handle_region_update-Views :
      (m : TlvMessage) (id : Text) (r : RegionBits) (child : ChildBroker Double) (s : Broker Double)
      → length id ≤ 4000
      → IsPatterns r
      → find id s.children ≡ some child
      → Views m (region_frame id r) []
      → handle_region_update f m s ≡ replace_region f id (widen_region f r) child s
  unfolding handle_region_update get_service_name
  handle_region_update-Views m id r child s h k known v =
      rw (get_text-Views m (region_frame id r) [] i v TlvType.service_name, region)
        (ap (λ o. elim o [ none ↦ done s | some c ↦ replace_region f id (widen_region f r) c s ])
          known)
    where
      i : IsFrame (region_frame id r)
      i = (region_frame-IsDatagram id r h).is_frame

      region : get_region m ≡ done (some r)
      region = get_region-Views m (region_frame id r) [] i v ∙ ap done (region_of-region_bytes r k)
