-- ===== src/Broker/Links/Interest.antt =====
-- Proofs on a subscription that a child forwards, as `handleSubscribe` of the parent takes it.
use dns_plus_plus.Base.{
  ℕ, ◌+◌, ◌≤◌, ◌≡◌, refl, sym, ap, ◌∙◌, true, false, not, List, [], ◌∷◌, ◌++◌, append-nil, length,
  arith, Access, done, ◌>>=◌, Text, text_eq, bytes_32, if◌then◌else◌, if_true, if_false, find_or,
  insert, find_or-insert, text_beq, text_beq_refl, length-append, ◌&&◌, Bool,
}
use dns_plus_plus.Tlv.MsgType
use dns_plus_plus.Tlv.MsgFlags
use dns_plus_plus.Tlv.MsgFlags.{has_flag}
use dns_plus_plus.Tlv.TlvType
use dns_plus_plus.Tlv.Message.{
  TlvMessage, get_service_name, get_flags, get_blinded_value, get_blinded_value_hi,
}
use dns_plus_plus.Tlv.Builder.{add_flags}
use dns_plus_plus.Tlv.Frame.{Frame, encode, encode_fields, IsFrame, Views}
use dns_plus_plus.Tlv.Fields.{get_text-Views, get_coordinates-Views, get_word-Views}
use dns_plus_plus.Tlv.Build.{new_builder-Holds, add_tlv-Holds, with_field, empty_frame}
use dns_plus_plus.Geo.Numbers.{Floats}
use dns_plus_plus.Crypto.Threshold.{is_empty}
use dns_plus_plus.Broker.State.{Broker, Addr, Env, BrokerConfig}
use dns_plus_plus.Broker.Send.{
  send, send_bytes, subscribe_message, forward_subscription, find_child_by_addr, member, set_insert,
}
use dns_plus_plus.Broker.Subscribe.{subscribe_child, count_subscribe, handle_subscribe}
use dns_plus_plus.Broker.Service.{dispatch}
use dns_plus_plus.Broker.Forwards.{member-set_insert}
use dns_plus_plus.Broker.Links.Wire.{IsDatagram, Reaches, send-Holds, receive-carrying}
use dns_plus_plus.Broker.Links.Hello.{add_service_name-Holds, add_coordinates-Holds}

abbrev subscription_frame : Text → BrokerConfig → Frame
subscription_frame key c = with_field TlvType.flags (bytes_32 MsgFlags.from_child) (
    with_field TlvType.coordinates (bytes_32 c.lat ++ bytes_32 c.lon)
      (with_field TlvType.service_name key (empty_frame MsgType.subscribe)))

subscription_frame-IsDatagram :
    (key : Text) (c : BrokerConfig) → length key ≤ 4000 → IsDatagram (subscription_frame key c)
subscription_frame-IsDatagram key c h = record {
  is_frame = record {
    kind_fits = omega arith;
    fields_fit = (
      (omega arith, omega arith),
      ((omega arith, omega arith), ((omega arith, omega arith), tt)),
    );
    count_fits = omega arith;
    payload_fits = omega arith;
  };
  fits = omega (arith, size);
}
  where
    behind : List (ℕ × List ℕ)
    behind =
        (TlvType.coordinates, bytes_32 c.lat ++ bytes_32 c.lon)
        ∷ (TlvType.flags, bytes_32 MsgFlags.from_child)
        ∷ []

    size : length (encode (subscription_frame key c)) ≡ 32 + length key
    size = omega (
      arith,
      length-append key (encode_fields behind ++ []),
      ap length (append-nil (encode_fields (subscription_frame key c).fields)),
    )

module _ (f : Floats) where
  open f use {Double}

  -- Where the parent has the key already, or there is no parent, nothing is sent.
  abbrev forwarded : Text → Broker Double → Broker Double
  forwarded key s =
      record (send_bytes f s.parent_addr (encode (subscription_frame key s.config)) s) {
        ot_parent = set_insert key s.ot_parent;
      }

  forward_subscription_lem :
      (key : Text) (s : Broker Double)
      → length key ≤ 4000
      → forward_subscription f key s
        ≡ done (if s.has_parent && not (member key s.ot_parent) then forwarded key s else s)
  unfolding forward_subscription subscribe_message add_flags send_bytes
  forward_subscription_lem key s h = choose (s.has_parent && not (member key s.ot_parent))
    where
      sent :
          send f s.parent_addr (subscribe_message f key s) s
          ≡ done (send_bytes f s.parent_addr (encode (subscription_frame key s.config)) s)
      sent =
          send-Holds f s.parent_addr _ (subscription_frame key s.config) s
            (subscription_frame-IsDatagram key s.config h).is_frame
            (add_tlv-Holds TlvType.flags 4 (bytes_32 MsgFlags.from_child) refl (
              add_coordinates-Holds s.config.lat s.config.lon (
                add_service_name-Holds key (omega (arith, h))
                  (new_builder-Holds MsgType.subscribe))))

      remember : Access (Broker Double) → Access (Broker Double)
      remember r = r >>= λ t. done (record t { ot_parent = set_insert key t.ot_parent })

      choose :
          (b : Bool)
          → (if b
              then (send f s.parent_addr (subscribe_message f key s) s >>= λ t.
                  done (record t { ot_parent = set_insert key t.ot_parent }))
              else done s)
            ≡ done (if b then forwarded key s else s)
      choose true = ap remember sent
      choose false = refl

  handle_subscribe-Views :
      (env : Env) (m : TlvMessage) (key : Text) (c : BrokerConfig) (client : Addr) (now : ℕ)
      (s : Broker Double)
      → length key ≤ 4000
      → Views m (subscription_frame key c) []
      → handle_subscribe f env m client now s
        ≡ subscribe_child f env key client (count_subscribe f env s)
  unfolding handle_subscribe get_service_name get_flags get_blinded_value get_blinded_value_hi
      has_flag
  handle_subscribe-Views env m key c client now s h v =
      rw
        (
          get_text-Views m (subscription_frame key c) [] i v TlvType.service_name,
          get_text-Views m (subscription_frame key c) [] i v TlvType.blinded_value,
          get_text-Views m (subscription_frame key c) [] i v TlvType.blinded_value_hi,
          get_word-Views m (subscription_frame key c) [] i v TlvType.flags,
          get_coordinates-Views m (subscription_frame key c) [] i v,
        )
        refl
    where
      i : IsFrame (subscription_frame key c)
      i = (subscription_frame-IsDatagram key c h).is_frame

  -- What a forwarded subscription leaves with the parent: the child counts as interested in the key, the
  -- interest in other keys is as it was, and the parent forwards the key in turn where it has a parent
  -- that does not know it.
  pub record IsInterested (key id : Text) (s t : Broker Double) : Type 0 where
    pub listed : member id (find_or [] key t.child_active) ≡ true
    pub others :
        (other : Text)
        → text_beq key other ≡ false
        → find_or [] other t.child_active ≡ find_or [] other s.child_active
    pub passed_on : t.outbox ≡ (
        if s.has_parent && not (member key s.ot_parent)
        then s.outbox
          ++ (record { dest = s.parent_addr; bytes = encode (subscription_frame key s.config) }
              ∷ [])
        else s.outbox)

  abbrev listed_in : Text → Text → Broker Double → Broker Double
  listed_in key id s = record s {
    child_active = insert key (set_insert id (find_or [] key s.child_active)) s.child_active;
  }

  forwarded-IsInterested :
      (b : Bool) (key id : Text) (s : Broker Double)
      → (s.has_parent && not (member key s.ot_parent)) ≡ b
      → IsInterested key id s (if b then forwarded key (listed_in key id s) else listed_in key id s)
  unfolding send_bytes
  forwarded-IsInterested true key id s e = record {
    listed =
        ap (member id)
          (find_or-insert key key _ [] s.child_active ∙ if_true _ _ (text_beq_refl key))
        ∙ member-set_insert id (find_or [] key s.child_active);
    others = λ other miss. find_or-insert key other _ [] s.child_active ∙ if_false _ _ miss;
    passed_on = sym (if_true _ _ e);
  }
  forwarded-IsInterested false key id s e = record {
    listed =
        ap (member id)
          (find_or-insert key key _ [] s.child_active ∙ if_true _ _ (text_beq_refl key))
        ∙ member-set_insert id (find_or [] key s.child_active);
    others = λ other miss. find_or-insert key other _ [] s.child_active ∙ if_false _ _ miss;
    passed_on = sym (if_false _ _ e);
  }

  subscribe_child-IsInterested :
      (env : Env) (key id : Text) (client : Addr) (s : Broker Double)
      → length key ≤ 4000
      → find_child_by_addr f client s.children ≡ id
      → is_empty id ≡ false
      → (t : Broker Double) × (subscribe_child f env key client (count_subscribe f env s) ≡ done t)
        × IsInterested key id s t
  unfolding subscribe_child count_subscribe
  subscribe_child-IsInterested env key id client s h known named =
      let i =
        forwarded-IsInterested (s.has_parent && not (member key s.ot_parent)) key id
          (count_subscribe f env s) refl in
      (
        if s.has_parent && not (member key s.ot_parent)
            then forwarded key (listed_in key id (count_subscribe f env s))
            else listed_in key id (count_subscribe f env s),
        rw (known, named) (forward_subscription_lem key _ h),
        record { listed = i.listed; others = i.others; passed_on = i.passed_on },
      )

  -- For a key that fits a datagram and that a child has not forwarded yet, and a parent that knows
  -- the child's address: the forwarded subscription is one datagram. The parent that receives it
  -- counts the child as interested in the key, keeps the interest in other keys, and forwards the
  -- key in turn exactly if it has a parent and has not done so.
  pub forward_subscription-receive :
      (env : Env) (key id : Text) (child parent : Broker Double) (sender : Addr) (now : ℕ)
      → child.has_parent ≡ true
      → member key child.ot_parent ≡ false
      → length key ≤ 4000
      → find_child_by_addr f sender parent.children ≡ id
      → is_empty id ≡ false
      → Reaches f env
          (forward_subscription f key child)
          child
          child.parent_addr
          sender
          now
          parent
          (IsInterested key id parent)
  unfolding dispatch
  forward_subscription-receive env key id child parent sender now on new h known named =
      let fr = subscription_frame key child.config in
      let d = subscription_frame-IsDatagram key child.config h in
      let (m, e, v) = receive-carrying f env fr sender now parent d in
      let (t, subscribed, interested) =
        subscribe_child-IsInterested env key id sender parent h known named in
      record {
        bytes = encode fr;
        next = forwarded key child;
        sent =
            forward_subscription_lem key child h
            ∙ ap done (
                if_true (child.has_parent && not (member key child.ot_parent)) _
                  (ground (arith, on, new)));
        sent_alone = unfold send_bytes in refl;
        result = t;
        received =
            e
            ∙ rw v.same_kind (handle_subscribe-Views env m key child.config sender now parent h v)
            ∙ subscribed;
        holds = interested;
      }
