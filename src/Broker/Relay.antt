-- ===== src/Broker/Relay.antt =====
-- The PUBLISH that `handlePublish` forwards, as a frame.
use dns_plus_plus.Base.{
  ℕ, ◌^◌, ◌<◌, ◌≡◌, refl, sym, subst, append-nil, List, [], ◌∷◌, ◌++◌, length, All, Option, none,
  some, done, Text, arith, bytes_32,
}
use dns_plus_plus.Tlv.MsgType
use dns_plus_plus.Tlv.TlvType
use dns_plus_plus.Tlv.Builder.{Builder, build, add_flags, add_blinded_value}
use dns_plus_plus.Tlv.Frame.{Frame, encode, IsField, IsFrame}
use dns_plus_plus.Tlv.Build.{
  Holds, new_builder-Holds, add_text-Holds, add_tlv-Holds, set_payload-Holds, build-encode,
}
use dns_plus_plus.Broker.Send.{value_or}
use dns_plus_plus.Broker.Publication.{Publication, add_payload, add_blinded, forward_message}
use dns_plus_plus.Broker.Links.Hello.{add_service_name-Holds, add_coordinates-Holds}

-- The field of a blinded value.
abbrev blinded_fields : Option Text → List (ℕ × List ℕ)
blinded_fields none = []
blinded_fields (some hex) = (TlvType.blinded_value, hex) ∷ []

-- Name, latitude before longitude, blinded value and flag, with the payload behind.
abbrev pub publish_frame : ℕ → Publication → Frame
publish_frame flag p = record {
  kind = MsgType.publish;
  fields =
      (((TlvType.service_name, p.key)
          ∷ (TlvType.coordinates, bytes_32 p.lat ++ bytes_32 p.lon)
          ∷ [])
        ++ blinded_fields p.blinded)
      ++ ((TlvType.flags, bytes_32 flag) ∷ []);
  payload = value_or [] p.payload;
}

-- The parts of a publication fit their length fields.
pub record IsSmall (p : Publication) : Type 0 where
  pub key_fits : length p.key < 2 ^ 16
  pub blinded_fits : length (value_or [] p.blinded) < 2 ^ 16
  pub payload_fits : length (value_or [] p.payload) < 2 ^ 32

publish_frame-IsFrame : (flag : ℕ) (p : Publication) → IsSmall p → IsFrame (publish_frame flag p)
publish_frame-IsFrame flag p h = record {
  kind_fits = omega arith;
  fields_fit = fit p.blinded h.blinded_fits;
  count_fits = few p.blinded;
  payload_fits = h.payload_fits;
}
  where
    fields_with : Option Text → List (ℕ × List ℕ)
    fields_with o =
        (((TlvType.service_name, p.key)
            ∷ (TlvType.coordinates, bytes_32 p.lat ++ bytes_32 p.lon)
            ∷ [])
          ++ blinded_fields o)
        ++ ((TlvType.flags, bytes_32 flag) ∷ [])

    fit : (o : Option Text) → length (value_or [] o) < 2 ^ 16 → All IsField (fields_with o)
    fit none k =
        ((omega arith, h.key_fits), ((omega arith, omega arith), ((omega arith, omega arith), tt)))
    fit (some hex) k = (
      (omega arith, h.key_fits),
      ((omega arith, omega arith), ((omega arith, k), ((omega arith, omega arith), tt))),
    )

    few : (o : Option Text) → length (fields_with o) < 2 ^ 16
    few none = omega arith
    few (some hex) = omega arith

add_payload-Holds :
    (o : Option (List ℕ)) {b : Builder} (kind : ℕ) (fields : List (ℕ × List ℕ))
    → Holds b (record { kind = kind; fields = fields; payload = [] })
    → Holds (add_payload o b) (record { kind = kind; fields = fields; payload = value_or [] o })
unfolding add_payload
add_payload-Holds none kind fields h = h
add_payload-Holds (some bytes) kind fields h = set_payload-Holds bytes h

add_blinded-Holds :
    (o : Option Text) {b : Builder} (kind : ℕ) (fields : List (ℕ × List ℕ)) (payload : List ℕ)
    → length (value_or [] o) < 2 ^ 16
    → Holds b (record { kind = kind; fields = fields; payload = payload })
    → Holds
        (add_blinded o b)
        (record { kind = kind; fields = fields ++ blinded_fields o; payload = payload })
unfolding add_blinded add_blinded_value
add_blinded-Holds none {b} kind fields payload k h =
    subst (λ fs. Holds b (record { kind = kind; fields = fs; payload = payload }))
      (sym (append-nil fields)) h
add_blinded-Holds (some hex) kind fields payload k h = add_text-Holds TlvType.blinded_value hex k h

-- What is forwarded, up or down.
pub forward_message-encode :
    (flag : ℕ) (p : Publication)
    → IsSmall p
    → build (forward_message flag p) ≡ done (encode (publish_frame flag p))
unfolding forward_message add_flags
forward_message-encode flag p h =
    build-encode _ (publish_frame flag p) (publish_frame-IsFrame flag p h) (
      add_tlv-Holds TlvType.flags 4 (bytes_32 flag) refl (
        add_blinded-Holds p.blinded MsgType.publish _ (value_or [] p.payload) h.blinded_fits (
          add_payload-Holds p.payload MsgType.publish _ (
            add_coordinates-Holds p.lat p.lon
              (add_service_name-Holds p.key h.key_fits (new_builder-Holds MsgType.publish))))))
