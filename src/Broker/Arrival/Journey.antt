-- ===== src/Broker/Arrival/Journey.antt =====
-- Proofs on a subscription and a publication of the same name, one after the other.
use dns_plus_plus.Base.{
  ℕ, ◌≡◌, refl, ap, ap₂, sym, ◌∙◌, Bool, true, false, List, [], ◌∷◌, ◌++◌, none, some,
  if◌then◌else◌, append-nil, append_assoc, ◌>>=◌, Returns, Text, find_or, text_eq,
}
use dns_plus_plus.Tlv.MsgType
use dns_plus_plus.Tlv.TlvType
use dns_plus_plus.Tlv.Message.{TlvMessage}
use dns_plus_plus.Tlv.Frame.{Frame, encode, field_of, IsFrame, Views}
use dns_plus_plus.Tlv.Total.{IsParsed}
use dns_plus_plus.Geo.Numbers.{Floats}
use dns_plus_plus.Broker.State.{Broker, Addr, Env, GeoClient, Packet}
use dns_plus_plus.Broker.Publication.{Publication}
use dns_plus_plus.Broker.Publish.{handle_publish}
use dns_plus_plus.Broker.Dispatch.{dispatch-subscribe, dispatch-publish}
use dns_plus_plus.Broker.Service.{receive}
use dns_plus_plus.Broker.Delivery.{is_nearer, packets}
use dns_plus_plus.Broker.Valid.{IsValid}
use dns_plus_plus.Broker.Safety.Subscribing.{handle_subscribe-Returns}
use dns_plus_plus.Broker.Links.Wire.{IsDatagram, carrying, receive-carrying}
use dns_plus_plus.Broker.Arrival.Alike.{lets_pass}
use dns_plus_plus.Broker.Arrival.Group.{group_packets, handle_publish-delivers}
use dns_plus_plus.Broker.Arrival.Joining.{
  Joins, new_client, IsPlainSubscription, place_of, handle_subscribe-Joins,
}

module _ (f : Floats) (env : Env) where
  open f use {Double, lt, max_value, widen}

  -- The packet for a client that was sent nothing yet.
  abbrev pub packets_for : Addr → ℕ × ℕ → Publication → List Packet
  packets_for client place p =
      if is_nearer f p (new_client f env client place)
      then record { dest = client; bytes = p.raw } ∷ []
      else []

  packets-append :
      (p : Publication) (gcs : List (GeoClient Double)) (gc : GeoClient Double)
      → packets f p (gcs ++ (gc ∷ [])) ≡ packets f p gcs ++ packets f p (gc ∷ [])
  packets-append p [] gc = refl
  packets-append p (other ∷ gcs) gc = nearer (is_nearer f p other) (packets-append p gcs gc)
    where
      nearer :
          (b : Bool)
          → packets f p (gcs ++ (gc ∷ [])) ≡ packets f p gcs ++ packets f p (gc ∷ [])
          → (if b
              then record { dest = other.addr; bytes = p.raw } ∷ packets f p (gcs ++ (gc ∷ []))
              else packets f p (gcs ++ (gc ∷ [])))
            ≡ (if b
                then record { dest = other.addr; bytes = p.raw } ∷ packets f p gcs
                else packets f p gcs)
              ++ packets f p (gc ∷ [])
      nearer true e = ap (◌∷◌ (record { dest = other.addr; bytes = p.raw })) e
      nearer false e = e

  -- A publication in plaintext.
  pub record IsPlainPublication (fr : Frame) (name : Text) : Type 0 where
    pub same_kind : fr.kind ≡ MsgType.publish
    pub named : field_of TlvType.service_name fr.fields ≡ some name
    pub plain : field_of TlvType.blinded_value fr.fields ≡ none

  -- What is sent to the new client, where the local brake lets the publication pass.
  abbrev pub last_packets : Addr → ℕ × ℕ → Publication → ℕ → Broker Double → List Packet
  last_packets client place p now s =
      if lets_pass f s.config s.brake_count_local p now then packets_for client place p else []

  group_packets-Joins :
      (name : Text) (client : Addr) (place : ℕ × ℕ) (p : Publication) (now : ℕ)
      (s t : Broker Double)
      → Joins f env name (new_client f env client place) s t
      → p.key ≡ name
      → (before : List Packet) × (group_packets f env p now t
          ≡ before ++ last_packets client place p now s)
  group_packets-Joins name client place p now s t h key =
      ended (lets_pass f s.config s.brake_count_local p now) (
        ap₂
          (λ c w.
            if lets_pass f c w p now then packets f p (find_or [] p.key t.subscribers) else [])
          h.1 h.2
        ∙ ap (λ gcs. if lets_pass f s.config s.brake_count_local p now then packets f p gcs else [])
            (ap (λ k. find_or [] k t.subscribers) key ∙ h.0))
    where
      old : List (GeoClient Double)
      old = find_or [] name s.subscribers

      ended :
          (b : Bool)
          → group_packets f env p now t
            ≡ (if b then packets f p (old ++ (new_client f env client place ∷ [])) else [])
          → (before : List Packet) × (group_packets f env p now t
              ≡ before ++ (if b then packets_for client place p else []))
      ended true e = (packets f p old, e ∙ packets-append p old (new_client f env client place))
      ended false e = ([], e)

  -- What reaches the subscriber `client` of a name at the end of a run.
  pub record IsReached (name : Text) (client : Addr) (fr₁ fr₂ : Frame) (now : ℕ)
      (s u : Broker Double) : Type 0 where
    pub published : Publication
    pub same_key : published.key ≡ name
    pub same_raw : published.raw ≡ encode fr₂
    pub same_place : (published.lat, published.lon) ≡ place_of f env fr₂
    pub before : List Packet
    pub reached : u.outbox ≡ before ++ last_packets client (place_of f env fr₁) published now s

  published-IsReached :
      (fr₁ fr₂ : Frame) (m : TlvMessage) (client publisher : Addr) (now : ℕ) (name : Text)
      (s t : Broker Double)
      → IsFrame fr₂
      → Views m fr₂ []
      → IsPlainPublication fr₂ name
      → IsValid f t
      → Joins f env name (new_client f env client (place_of f env fr₁)) s t
      → Returns (handle_publish f env m publisher now t) (IsReached name client fr₁ fr₂ now s)
  published-IsReached fr₁ fr₂ m client publisher now name s t i v h valid joined =
      let (u, e, (p, read, earlier, sent)) =
        handle_publish-delivers f env m fr₂ [] publisher now t name i v valid h.named h.plain in
      let (old, split) =
        group_packets-Joins name client (place_of f env fr₁) p now s t joined read.same_key in
      (
        u,
        e,
        record {
          published = p;
          same_key = read.same_key;
          same_raw = read.same_raw ∙ v.framed ∙ append-nil (encode fr₂);
          same_place = read.same_place;
          before = earlier ++ old;
          reached = sent ∙ ap (◌++◌ earlier) split ∙ sym (append_assoc earlier old _);
        },
      )

  -- From a valid state, a datagram with a plaintext subscription that asks for no answer, and then
  -- one with a plaintext publication of the same name: the broker handles both, and the last
  -- packet of the outbox is the publication, byte for byte, to the subscriber, if the local brake
  -- lets it pass and the distance between the two places is less than the greatest double.
  pub subscribe-publish :
      (fr₁ fr₂ : Frame) (client publisher : Addr) (t₁ t₂ : ℕ) (name : Text) (s : Broker Double)
      → IsDatagram fr₁
      → IsDatagram fr₂
      → IsPlainSubscription f env fr₁ name
      → IsPlainPublication fr₂ name
      → IsValid f s
      → Returns
          (receive f env (carrying fr₁ client t₁) s >>= receive f env (carrying fr₂ publisher t₂))
          (IsReached name client fr₁ fr₂ t₂ s)
  subscribe-publish fr₁ fr₂ client publisher t₁ t₂ name s d₁ d₂ h₁ h₂ valid =
      let (m₁, e₁, v₁) = receive-carrying f env fr₁ client t₁ s d₁ in
      let parsed : IsParsed m₁ = record {
        frame = fr₁;
        rest = [];
        is_frame = d₁.is_frame;
        views = v₁;
      } in
      let (t, subscribed, valid') = handle_subscribe-Returns f env m₁ client t₁ s parsed valid in
      let joined =
        handle_subscribe-Joins f env m₁ fr₁ [] name client t₁ s d₁.is_frame v₁ h₁ t subscribed in
      let (m₂, e₂, v₂) = receive-carrying f env fr₂ publisher t₂ t d₂ in
      let (u, published, reached) =
        published-IsReached fr₁ fr₂ m₂ client publisher t₂ name s t d₂.is_frame v₂ h₂ valid'
          joined in
      (
        u,
        ap (λ r. r >>= receive f env (carrying fr₂ publisher t₂))
              (e₁
                ∙ dispatch-subscribe f env m₁ client t₁ s (v₁.same_kind ∙ h₁.same_kind)
                ∙ subscribed)
            ∙ e₂
            ∙ dispatch-publish f env m₂ publisher t₂ t (v₂.same_kind ∙ h₂.same_kind)
            ∙ published,
        reached,
      )
