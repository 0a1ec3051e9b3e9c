-- ===== src/Broker/Refusals.antt =====
-- Proofs on the datagrams that the broker refuses.
use dns_plus_plus.Base.{
  ℕ, ◌≡◌, refl, sym, ap, ◌∙◌, inl, inr, Bool-cases, List, ◌++◌, none, length, take, All, ◌==◌,
  if◌then◌else◌, if_true, if_false, Option-cases, ◌≢◌, ◌⊎◌, Access, done, ◌>>=◌, arith, IsByte,
}
use dns_plus_plus.Tlv.MsgType
use dns_plus_plus.Tlv.TlvType
use dns_plus_plus.Tlv.Message.{TlvMessage, get_service_name, get_coordinates, get_region}
use dns_plus_plus.Tlv.Frame.{Frame, encode, field_of, IsFrame, Views}
use dns_plus_plus.Tlv.Accept.{parse_cases}
use dns_plus_plus.Tlv.Fields.{
  get_text-Views, get_coordinates-Views, get_region-Views, coordinates_of, region_of,
}
use dns_plus_plus.Geo.Numbers.{Floats}
use dns_plus_plus.Broker.State.{Broker, Addr, Env, Stats}
use dns_plus_plus.Broker.Subscribe.{count_subscribe, handle_subscribe}
use dns_plus_plus.Broker.Publish.{count_publish, handle_publish}
use dns_plus_plus.Broker.Membership.{handle_heartbeat, handle_hello, handle_region_update}
use dns_plus_plus.Broker.Safety.Receiving.{All-take}
use dns_plus_plus.Broker.Dispatch.{dispatch-cases}
use dns_plus_plus.Broker.Service.{buffer_size, Datagram, dispatch, receive}

-- The bytes begin with the encoding of a frame.
abbrev pub HasFrame : List ℕ → Type 0
HasFrame bytes = (fr : Frame) × (rest : List ℕ) × IsFrame fr × (bytes ≡ encode fr ++ rest)

module _ (f : Floats) (env : Env) where
  open f use {Double}

  -- A datagram of bytes whose first 4096 bytes do not begin with the encoding of a frame that fits
  -- its length fields changes nothing in the broker and sends nothing.
  pub receive_refused :
      (d : Datagram) (s : Broker Double)
      → All IsByte d.bytes
      → ¬ (HasFrame (take buffer_size d.bytes))
      → receive f env d s ≡ done s
  unfolding receive
  receive_refused d s b odd = elim (Bool-cases (length d.bytes == 0)) [
    | inl none_there ↦ if_true (length d.bytes == 0) _ none_there
    | inr there ↦
        let (m, parsed, same, outcome) =
          parse_cases (take buffer_size d.bytes) (All-take buffer_size d.bytes b) in
        if_false (length d.bytes == 0) _ there
        ∙ ap (λ r. r >>= λ msg. if msg.valid then dispatch f env msg d.sender d.now s else done s)
            parsed
        ∙ elim outcome [
          | inl refused ↦ if_false m.valid _ refused
          | inr (fr, rest, i, v) ↦ absurd (odd (fr, rest, i, sym same ∙ v.framed))
        ]
  ]

  -- A field is missing that the handler of the message needs.
  abbrev pub Lacks : Frame → Type 0
  Lacks fr =
      ((field_of TlvType.service_name fr.fields ≡ none) × (fr.kind ≢ MsgType.stats_request))
      ⊎ ((fr.kind ≡ MsgType.hello)
          × (coordinates_of (field_of TlvType.coordinates fr.fields) ≡ none))
      ⊎ ((fr.kind ≡ MsgType.region_update) × (region_of (field_of TlvType.region fr.fields) ≡ none))

  abbrev Counts : Broker Double → Access (Broker Double) → Type 0
  Counts s r = (counters : Stats) × (r ≡ done (record s { stats = counters }))

  module _ (m : TlvMessage) (fr : Frame) (rest : List ℕ) (i : IsFrame fr) (v : Views m fr rest)
      (client : Addr) (now : ℕ) (s : Broker Double) where
    name_lem : get_service_name m ≡ done (field_of TlvType.service_name fr.fields)
    unfolding get_service_name
    name_lem = get_text-Views m fr rest i v TlvType.service_name

    coordinates_lem :
        get_coordinates m ≡ done (coordinates_of (field_of TlvType.coordinates fr.fields))
    coordinates_lem = get_coordinates-Views m fr rest i v

    region_lem : get_region m ≡ done (region_of (field_of TlvType.region fr.fields))
    region_lem = get_region-Views m fr rest i v

    nameless :
        field_of TlvType.service_name fr.fields ≡ none
        → fr.kind ≢ MsgType.stats_request
        → Counts s (dispatch f env m client now s)
    unfolding handle_subscribe handle_publish handle_heartbeat handle_hello handle_region_update
        count_subscribe count_publish
    nameless missing other =
        dispatch-cases f env (Counts s) m client now s
          (λ _. ((count_subscribe f env s).stats, rw (name_lem, missing) refl))
          (λ _. (s.stats, rw (name_lem, missing, region_lem) refl))
          (λ _. ((count_publish f s).stats, rw (name_lem, missing) refl))
          (λ _. (s.stats, rw (name_lem, missing) refl))
          (λ _. (s.stats, rw (name_lem, missing, coordinates_lem) refl))
          (λ e. absurd (other (sym v.same_kind ∙ e))) (s.stats, refl)

    -- The field that only `handleHello` reads, or only `handleRegionUpdate`.
    placeless :
        coordinates_of (field_of TlvType.coordinates fr.fields) ≡ none
        → handle_hello f m client s ≡ done s
    unfolding handle_hello
    placeless missing = elim (Option-cases (field_of TlvType.service_name fr.fields)) [
      | inl e ↦ rw (name_lem, e, coordinates_lem) refl
      | inr (name, e) ↦ rw (name_lem, e, coordinates_lem, missing) refl
    ]

    regionless :
        region_of (field_of TlvType.region fr.fields) ≡ none → handle_region_update f m s ≡ done s
    unfolding handle_region_update
    regionless missing = elim (Option-cases (field_of TlvType.service_name fr.fields)) [
      | inl e ↦ rw (name_lem, e, region_lem) refl
      | inr (name, e) ↦ rw (name_lem, e, region_lem, missing) refl
    ]

    only_hello :
        m.msg_type ≡ MsgType.hello
        → handle_hello f m client s ≡ done s
        → dispatch f env m client now s ≡ done s
    only_hello kind h =
        dispatch-cases f env (λ r. r ≡ done s) m client now s (λ e. absurd (omega (arith, e, kind)))
          (λ e. absurd (omega (arith, e, kind))) (λ e. absurd (omega (arith, e, kind)))
          (λ e. absurd (omega (arith, e, kind))) (λ _. h) (λ e. absurd (omega (arith, e, kind)))
          refl

    only_region :
        m.msg_type ≡ MsgType.region_update
        → handle_region_update f m s ≡ done s
        → dispatch f env m client now s ≡ done s
    only_region kind h =
        dispatch-cases f env (λ r. r ≡ done s) m client now s (λ e. absurd (omega (arith, e, kind)))
          (λ _. h) (λ e. absurd (omega (arith, e, kind))) (λ e. absurd (omega (arith, e, kind)))
          (λ e. absurd (omega (arith, e, kind))) (λ e. absurd (omega (arith, e, kind))) refl

    -- A message that lacks a field its handler needs (a service name, the coordinates of a HELLO,
    -- the region of a REGION_UPDATE) changes nothing but the counters, and nothing is sent.
    pub dispatch_incomplete :
        Lacks fr
        → (counters : Stats) × (dispatch f env m client now s
            ≡ done (record s { stats = counters }))
    dispatch_incomplete (inl (missing, other)) = nameless missing other
    dispatch_incomplete (inr (inl (hello, missing))) =
        (s.stats, only_hello (v.same_kind ∙ hello) (placeless missing))
    dispatch_incomplete (inr (inr (region, missing))) =
        (s.stats, only_region (v.same_kind ∙ region) (regionless missing))
