-- ===== src/Broker/Arrival/Runs.antt =====
-- A subscription and a publication of the same name, at the broker of Broker.Samples.
use dns_plus_plus.Base.{
  ◌≡◌, refl, true, [], ◌∷◌, ◌++◌, Returns, ◌>>=◌, arith, find, find_or, text_eq,
}
use dns_plus_plus.Tlv.MsgType
use dns_plus_plus.Tlv.TlvType
use dns_plus_plus.Tlv.Message.{TlvMessage}
use dns_plus_plus.Tlv.Frame.{Frame, encode, Views}
use dns_plus_plus.Broker.State.{Addr}
use dns_plus_plus.Broker.Publish.{handle_publish}
use dns_plus_plus.Broker.Service.{receive}
use dns_plus_plus.Broker.Links.Wire.{IsDatagram, carrying}
use dns_plus_plus.Broker.Publication.{Publication}
use dns_plus_plus.Broker.Relay.{publish_frame}
use dns_plus_plus.Broker.Descent.{IsDistinct}
use dns_plus_plus.Tlv.MsgFlags
use dns_plus_plus.Broker.Arrival.Read.{IsRead}
use dns_plus_plus.Broker.Arrival.Sent.{all_packets, handle_publish-sends}
use dns_plus_plus.Broker.Arrival.Joining.{IsPlainSubscription}
use dns_plus_plus.Broker.Arrival.Journey.{IsPlainPublication, IsReached, subscribe-publish}
use dns_plus_plus.Broker.Samples.{whole, env, broker, broker-IsValid}

abbrev subscription : Frame
subscription = record {
  kind = MsgType.subscribe;
  fields =
      (TlvType.service_name, b'a' ∷ [])
      ∷ (TlvType.coordinates, 0 ∷ 0 ∷ 0 ∷ 6 ∷ 0 ∷ 0 ∷ 0 ∷ 7 ∷ [])
      ∷ [];
  payload = [];
}

abbrev publication : Frame
publication = record {
  kind = MsgType.publish;
  fields =
      (TlvType.service_name, b'a' ∷ [])
      ∷ (TlvType.coordinates, 0 ∷ 0 ∷ 0 ∷ 5 ∷ 0 ∷ 0 ∷ 0 ∷ 5 ∷ [])
      ∷ [];
  payload = 1 ∷ 2 ∷ [];
}

subscription-IsDatagram : IsDatagram subscription
subscription-IsDatagram = record {
  is_frame = record {
    kind_fits = omega arith;
    fields_fit = omega arith;
    count_fits = omega arith;
    payload_fits = omega arith;
  };
  fits = omega arith;
}

publication-IsDatagram : IsDatagram publication
publication-IsDatagram = record {
  is_frame = record {
    kind_fits = omega arith;
    fields_fit = omega arith;
    count_fits = omega arith;
    payload_fits = omega arith;
  };
  fits = omega arith;
}

subscription_plain : IsPlainSubscription whole env subscription (b'a' ∷ [])
subscription_plain = record {
  same_kind = refl;
  named = refl;
  flagless = refl;
  plain = refl;
  plain_hi = refl;
}

publication_plain : IsPlainPublication whole env publication (b'a' ∷ [])
publication_plain = record { same_kind = refl; named = refl; plain = refl }

abbrev client : Addr
client = record { ip = 11; port = 5 }

abbrev publisher : Addr
publisher = record { ip = 12; port = 5 }

subscribe-publish_example :
    Returns
      (receive whole env (carrying subscription client 101) broker
        >>= receive whole env (carrying publication publisher 102))
      (IsReached whole env (b'a' ∷ []) client subscription publication 102 broker)
subscribe-publish_example =
    subscribe-publish whole env subscription publication client publisher 101 102 (b'a' ∷ []) broker
      subscription-IsDatagram publication-IsDatagram subscription_plain publication_plain
      broker-IsValid

abbrev message : TlvMessage
message = record {
  raw_data = encode publication;
  valid = true;
  msg_type = MsgType.publish;
  num_tlvs = 2;
  payload_len = 2;
  payload_offset = 25;
}

message-Views : Views message publication []
message-Views = record {
  framed = refl;
  is_valid = refl;
  same_kind = refl;
  same_count = refl;
  same_payload_len = refl;
  offset = refl;
}

none_listed : IsDistinct (find_or [] (b'a' ∷ []) broker.child_active)
unfolding find_or find
none_listed = tt

handle_publish-sends_example : Returns (handle_publish whole env message publisher 102 broker) (λ t.
    (p : Publication) × IsRead whole env message publication (b'a' ∷ []) publisher [] p
    × (t.outbox
        ≡ broker.outbox
          ++ all_packets whole env p
              (encode (publish_frame MsgFlags.from_child p))
              (encode (publish_frame MsgFlags.from_parent p))
              102
              broker))
handle_publish-sends_example =
    handle_publish-sends whole env message publication [] publisher 102 broker (b'a' ∷ [])
      publication-IsDatagram.is_frame message-Views broker-IsValid refl refl none_listed
