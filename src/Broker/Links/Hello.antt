-- ===== src/Broker/Links/Hello.antt =====
-- Proofs on the HELLO of `start`, as `handleHello` of the parent takes it.
use dns_plus_plus.Base.{
  ℕ, ◌+◌, ◌^◌, ◌≤◌, ◌<◌, ◌≡◌, refl, ap, ap₂, ◌∙◌, true, false, [], ◌∷◌, ◌++◌, append-nil, length,
  arith, done, Text, text_eq, bytes_32, if_true, some, find, find-insert, text_beq,
  find-insert_self, length-append, Bool, false, Option, none,
}
use dns_plus_plus.Tlv.MsgType
use dns_plus_plus.Tlv.TlvType
use dns_plus_plus.Tlv.Message.{TlvMessage, get_service_name}
use dns_plus_plus.Tlv.Builder.{Builder, add_service_name, add_coordinates}
use dns_plus_plus.Tlv.Frame.{Frame, encode, encode_fields, IsFrame, Views}
use dns_plus_plus.Tlv.Fields.{get_text-Views, get_coordinates-Views}
use dns_plus_plus.Tlv.Build.{
  Holds, new_builder-Holds, add_text-Holds, add_tlv-Holds, with_field, empty_frame,
}
use dns_plus_plus.Geo.{Four}
use dns_plus_plus.Geo.Numbers.{Floats}
use dns_plus_plus.Broker.State.{Broker, Addr, Env, BrokerConfig, ChildBroker}
use dns_plus_plus.Broker.Send.{send_bytes}
use dns_plus_plus.Broker.Membership.{
  point_region, update_my_region, closest_of, is_active, add_child, greet_child, handle_hello,
}
use dns_plus_plus.Broker.Service.{dispatch, say_hello}
use dns_plus_plus.Broker.Links.Wire.{IsDatagram, Reaches, send-Holds, receive-carrying}

-- A configuration whose id leaves room in a datagram, and whose coordinates are bit patterns.
pub record IsSized (c : BrokerConfig) : Type 0 where
  pub id_fits : length c.broker_id ≤ 4000
  pub lat_fits : c.lat < 2 ^ 32
  pub lon_fits : c.lon < 2 ^ 32

pub add_service_name-Holds :
    (name : Text) {b : Builder} {fr : Frame}
    → length name < 2 ^ 16
    → Holds b fr
    → Holds (add_service_name name b) (with_field TlvType.service_name name fr)
unfolding add_service_name
add_service_name-Holds name fits h = add_text-Holds TlvType.service_name name fits h

pub add_coordinates-Holds :
    (lat lon : ℕ) {b : Builder} {fr : Frame}
    → Holds b fr
    → Holds
        (add_coordinates lat lon b)
        (with_field TlvType.coordinates (bytes_32 lat ++ bytes_32 lon) fr)
unfolding add_coordinates
add_coordinates-Holds lat lon h =
    add_tlv-Holds TlvType.coordinates 8 (bytes_32 lat ++ bytes_32 lon) refl h

abbrev hello_frame : BrokerConfig → Frame
hello_frame c =
    with_field TlvType.coordinates (bytes_32 c.lat ++ bytes_32 c.lon)
      (with_field TlvType.service_name c.broker_id (empty_frame MsgType.hello))

abbrev ack_frame : BrokerConfig → Frame
ack_frame c = with_field TlvType.service_name c.broker_id (empty_frame MsgType.hello_ack)

hello_frame-IsDatagram : (c : BrokerConfig) → IsSized c → IsDatagram (hello_frame c)
hello_frame-IsDatagram c h = record {
  is_frame = record {
    kind_fits = omega arith;
    fields_fit = ((omega arith, omega (arith, h.id_fits)), ((omega arith, omega arith), tt));
    count_fits = omega arith;
    payload_fits = omega arith;
  };
  fits = omega (arith, h.id_fits, size);
}
  where
    size : length (encode (hello_frame c)) ≡ 24 + length c.broker_id
    size = omega (
      arith,
      length-append c.broker_id
          (encode_fields ((TlvType.coordinates, bytes_32 c.lat ++ bytes_32 c.lon) ∷ []) ++ []),
      ap length (append-nil (encode_fields (hello_frame c).fields)),
    )

ack_frame-IsFrame : (c : BrokerConfig) → IsSized c → IsFrame (ack_frame c)
ack_frame-IsFrame c h = record {
  kind_fits = omega arith;
  fields_fit = ((omega arith, omega (arith, h.id_fits)), tt);
  count_fits = omega arith;
  payload_fits = omega arith;
}

module _ (f : Floats) where
  open f use {Double, widen, max_value}

  say_hello_lem :
      (env : Env) (s : Broker Double)
      → s.has_parent ≡ true
      → IsSized s.config
      → say_hello f env s ≡ done (send_bytes f s.parent_addr (encode (hello_frame s.config)) s)
  unfolding say_hello
  say_hello_lem env s on h =
      if_true s.has_parent _ on
      ∙ send-Holds f s.parent_addr _ (hello_frame s.config) s
          (hello_frame-IsDatagram s.config h).is_frame
          (add_coordinates-Holds s.config.lat s.config.lon (
            add_service_name-Holds s.config.broker_id (omega (arith, h.id_fits))
              (new_builder-Holds MsgType.hello)))

  greet_child_lem :
      (child_id : Text) (addr : Addr) (lat lon : ℕ) (s : Broker Double)
      → IsSized s.config
      → greet_child f child_id addr (lat, lon) s
        ≡ done (
            send_bytes f addr
              (encode (ack_frame s.config))
              (update_my_region f (add_child f child_id addr lat lon s)))
  unfolding greet_child update_my_region add_child
  greet_child_lem child_id addr lat lon s h =
      send-Holds f addr _ (ack_frame s.config) _ (ack_frame-IsFrame s.config h) (
        add_service_name-Holds s.config.broker_id (omega (arith, h.id_fits))
          (new_builder-Holds MsgType.hello_ack))

  handle_hello-Views :
      (m : TlvMessage) (c : BrokerConfig) (addr : Addr) (s : Broker Double)
      → IsSized c
      → Views m (hello_frame c) []
      → handle_hello f m addr s ≡ greet_child f c.broker_id addr (c.lat, c.lon) s
  unfolding handle_hello get_service_name
  handle_hello-Views m c addr s h v =
      rw
        (
          get_text-Views m (hello_frame c) [] i v TlvType.service_name,
          get_coordinates-Views m (hello_frame c) [] i v,
        )
        (ap₂ (λ (a : ℕ) (b : ℕ). greet_child f c.broker_id addr (a, b) s)
          (omega (arith, h.lat_fits)) (omega (arith, h.lon_fits)))
    where
      i : IsFrame (hello_frame c)
      i = (hello_frame-IsDatagram c h).is_frame

  -- What a HELLO leaves with the parent.
  pub record IsAdopted (c : BrokerConfig) (addr : Addr) (s t : Broker Double) : Type 0 where
    pub adopted :
        find c.broker_id t.children
        ≡ some (record {
          id = c.broker_id;
          addr = addr;
          lat = c.lat;
          lon = c.lon;
          region = record {
            min_lat = widen c.lat;
            max_lat = widen c.lat;
            min_lon = widen c.lon;
            max_lon = widen c.lon;
          };
          active = elim (find c.broker_id s.children) [ none ↦ false | some entry ↦ entry.active ];
          closest_quad = elim (find c.broker_id s.children) [
            | none ↦ record { sw = max_value; se = max_value; nw = max_value; ne = max_value }
            | some entry ↦ entry.closest_quad
          ];
        })
    pub others :
        (id : Text) → text_beq c.broker_id id ≡ false → find id t.children ≡ find id s.children
    pub acknowledged :
        t.outbox ≡ s.outbox ++ (record { dest = addr; bytes = encode (ack_frame s.config) } ∷ [])

  greeted-IsAdopted :
      (c : BrokerConfig) (addr : Addr) (s : Broker Double)
      → IsAdopted c addr s (
          send_bytes f addr
            (encode (ack_frame s.config))
            (update_my_region f (add_child f c.broker_id addr c.lat c.lon s)))
  unfolding send_bytes update_my_region add_child point_region is_active closest_of
  greeted-IsAdopted c addr s = record {
    adopted =
        find-insert_self c.broker_id _ s.children
        ∙ ap₂ entry (known (find c.broker_id s.children)) (quads (find c.broker_id s.children));
    others = λ id other. find-insert c.broker_id id _ s.children ∙ rw other refl;
    acknowledged = refl;
  }
    where
      entry : Bool → Four Double → Option (ChildBroker Double)
      entry active closest = some (record {
        id = c.broker_id;
        addr = addr;
        lat = c.lat;
        lon = c.lon;
        region = point_region f c.lat c.lon;
        active = active;
        closest_quad = closest;
      })

      known :
          (o : Option (ChildBroker Double))
          → is_active f o ≡ elim o [ none ↦ false | some e ↦ e.active ]
      known none = refl
      known (some e) = refl

      quads :
          (o : Option (ChildBroker Double))
          → closest_of f o ≡ elim o [
            | none ↦ record { sw = max_value; se = max_value; nw = max_value; ne = max_value }
            | some e ↦ e.closest_quad
          ]
      quads none = refl
      quads (some e) = refl

  -- For two brokers whose configurations fit a datagram, the child with a parent: the child's
  -- HELLO is one datagram to its parent. The parent that receives it, from any address and at any
  -- time, stores the child under its id with that address, its coordinates and the region of its
  -- point, keeps the nearest distances and the active flag of an entry that was there (a new one
  -- has the greatest double and false), keeps the entries of other children, and answers with one
  -- HELLO_ACK that carries its own id.
  pub say_hello-receive :
      (env : Env) (child parent : Broker Double) (sender : Addr) (now : ℕ)
      → child.has_parent ≡ true
      → IsSized child.config
      → IsSized parent.config
      → Reaches f env
          (say_hello f env child)
          child
          child.parent_addr
          sender
          now
          parent
          (IsAdopted child.config sender parent)
  unfolding dispatch
  say_hello-receive env child parent sender now on h k =
      let d = hello_frame-IsDatagram child.config h in
      let (m, e, v) = receive-carrying f env (hello_frame child.config) sender now parent d in
      record {
        bytes = encode (hello_frame child.config);
        next = _;
        sent = say_hello_lem env child on h;
        sent_alone = unfold send_bytes in refl;
        result = _;
        received =
            e
            ∙ rw v.same_kind (handle_hello-Views m child.config sender parent h v)
            ∙ greet_child_lem child.config.broker_id sender child.config.lat child.config.lon parent
                k;
        holds = greeted-IsAdopted child.config sender parent;
      }
