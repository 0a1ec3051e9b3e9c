-- ===== src/Broker/Trials.antt =====
-- Refused messages, forwarding, regions and answers, on the broker of Broker.Samples.
use dns_plus_plus.Base.{
  ℕ, ◌≡◌, refl, ap, true, false, inl, List, [], ◌∷◌, ◌++◌, none, done, Returns, Values, text_eq,
  take, length, arith,
}
use dns_plus_plus.Tlv.MsgType
use dns_plus_plus.Tlv.Message.{TlvMessage}
use dns_plus_plus.Tlv.Frame.{Frame, encode, IsFrame, Views}
use dns_plus_plus.Tlv.Parse.{length-encode}
use dns_plus_plus.Geo.{contains}
use dns_plus_plus.Geo.Regions.{Covers, IsMeasured}
use dns_plus_plus.Broker.State.{Broker, ChildBroker, CachedPub, Stats}
use dns_plus_plus.Broker.Publish.{forward_down}
use dns_plus_plus.Broker.Send.{member}
use dns_plus_plus.Broker.Subscribe.{best_pub}
use dns_plus_plus.Broker.Membership.{point_region, update_my_region}
use dns_plus_plus.Broker.Service.{Datagram, buffer_size, receive, dispatch}
use dns_plus_plus.Broker.Refusals.{HasFrame, receive_refused, dispatch_incomplete}
use dns_plus_plus.Broker.Relay.{IsSmall}
use dns_plus_plus.Broker.Descent.{packets_down, outbox-forward_down}
use dns_plus_plus.Broker.Coverage.{update_my_region-Covers}
use dns_plus_plus.Broker.Nearest.{IsBest, best_pub-IsBest}
use dns_plus_plus.Broker.Samples.{whole, whole-FloatLaws, whole-OrderLaws, env, broker, publication}

-- A datagram that is shorter than a header.
abbrev short : Datagram
short = record { sender = record { ip = 10; port = 3 }; bytes = 255 ∷ 0 ∷ []; now = 102 }

short_has_none : ¬ (HasFrame (take buffer_size short.bytes))
short_has_none (fr, rest, i, e) = omega (arith, ap length e, length-encode fr rest)

receive_refused_example : receive whole env short broker ≡ done broker
receive_refused_example = receive_refused whole env short broker (omega arith) short_has_none

-- A publication without a field.
abbrev bare : Frame
bare = record { kind = MsgType.publish; fields = []; payload = [] }

bare-IsFrame : IsFrame bare
bare-IsFrame = record {
  kind_fits = omega arith;
  fields_fit = tt;
  count_fits = omega arith;
  payload_fits = omega arith;
}

abbrev bare_message : TlvMessage
bare_message = record {
  raw_data = encode bare;
  valid = true;
  msg_type = MsgType.publish;
  num_tlvs = 0;
  payload_len = 0;
  payload_offset = 8;
}

bare-Views : Views bare_message bare []
bare-Views = record {
  framed = refl;
  is_valid = refl;
  same_kind = refl;
  same_count = refl;
  same_payload_len = refl;
  offset = refl;
}

dispatch_incomplete_example :
    (counters : Stats) × (dispatch whole env bare_message short.sender 102 broker
      ≡ done (record broker { stats = counters }))
dispatch_incomplete_example =
    dispatch_incomplete whole env bare_message bare [] bare-IsFrame bare-Views short.sender 102
      broker (inl (refl, λ e. omega (arith, e)))

abbrev east_child : ChildBroker ℕ
east_child = record {
  id = b'e' ∷ [];
  addr = record { ip = 30; port = 9000 };
  lat = 3;
  lon = 9;
  region = record { min_lat = 3; max_lat = 3; min_lon = 9; max_lon = 9 };
  active = false;
  closest_quad = record { sw = 99; se = 99; nw = 99; ne = 99 };
}

abbrev with_child : Broker ℕ
with_child = record broker { children = (b'e' ∷ [], east_child) ∷ [] }

abbrev sent_down : List ℕ
sent_down =
    0 ∷ 2 ∷ 0 ∷ 3 ∷ 0 ∷ 0 ∷ 0 ∷ 0 ∷ 0 ∷ 3 ∷ 0 ∷ 1 ∷ b'a' ∷ 0 ∷ 1 ∷ 0 ∷ 8 ∷ 0 ∷ 0 ∷ 0 ∷ 5 ∷ 0 ∷ 0 ∷ 0
    ∷ 5 ∷ 0 ∷ 2 ∷ 0 ∷ 4 ∷ 0 ∷ 0 ∷ 0 ∷ 4 ∷ []

publication-IsSmall : IsSmall publication
publication-IsSmall = record {
  key_fits = omega arith;
  blinded_fits = omega arith;
  payload_fits = omega arith;
}

key_alone : member (b'e' ∷ []) [] ≡ false
unfolding member
key_alone = refl

outbox-forward_down_example :
    Returns (forward_down whole publication ((b'e' ∷ []) ∷ []) with_child) (λ t.
      t.outbox
      ≡ [] ++ packets_down whole publication sent_down ((b'e' ∷ []) ∷ []) with_child.children)
outbox-forward_down_example =
    outbox-forward_down whole publication ((b'e' ∷ []) ∷ []) with_child publication-IsSmall
      (key_alone, tt)

own-IsMeasured : IsMeasured whole (record { min_lat = 3; max_lat = 3; min_lon = 3; max_lon = 3 })
own-IsMeasured = record {
  min_lat_number = refl;
  max_lat_number = refl;
  min_lon_number = refl;
  max_lon_number = refl;
}

east-IsMeasured : IsMeasured whole east_child.region
east-IsMeasured = record {
  min_lat_number = refl;
  max_lat_number = refl;
  min_lon_number = refl;
  max_lon_number = refl;
}

update_my_region-Covers_example :
    (contains whole (update_my_region whole with_child).my_region 3 3 ≡ true)
    × Values
        (λ c. Covers whole (update_my_region whole with_child).my_region c.region)
        with_child.children
unfolding point_region
update_my_region-Covers_example =
    update_my_region-Covers whole whole-OrderLaws with_child own-IsMeasured (east-IsMeasured, tt)

abbrev cached : List CachedPub
cached =
    record { lat = 9; lon = 9; raw_message = 1 ∷ [] }
    ∷ record { lat = 5; lon = 4; raw_message = 2 ∷ [] }
    ∷ record { lat = 8; lon = 1; raw_message = 3 ∷ [] }
    ∷ []

best_pub-IsBest_example :
    IsBest whole env whole-FloatLaws whole-OrderLaws 4 4 cached
      (best_pub whole env 4 4 cached none 1000000).0
      (best_pub whole env 4 4 cached none 1000000).1
best_pub-IsBest_example = best_pub-IsBest whole env whole-FloatLaws whole-OrderLaws 4 4 cached
