-- ===== src/Broker/Arrival/Sent.antt =====
-- Proofs on all that one publication makes the broker send.
use dns_plus_plus.Base.{
  All, length, ◌==◌, ◌^◌, ◌<◌, Bool-cases, if_true, if_false, inl, inr, arith, Map, ◌∷◌, ℕ, ◌≡◌,
  refl, ap, ap₂, sym, subst, ◌∙◌, List, [], ◌++◌, none, some, append_assoc, Access, done, done-inj,
  Returns, Text, find_or, text_eq,
}
use mathlib.Core.Option.{some-injective}
use dns_plus_plus.Tlv.MsgFlags
use dns_plus_plus.Tlv.TlvType
use dns_plus_plus.Tlv.Message.{TlvMessage, get_service_name}
use dns_plus_plus.Tlv.Builder.{build}
use dns_plus_plus.Tlv.Frame.{Frame, IsField, encode, field_of, IsFrame, Views}
use dns_plus_plus.Tlv.Fields.{get_text-Views}
use dns_plus_plus.Tlv.Total.{IsParsed}
use dns_plus_plus.Geo.Numbers.{Floats}
use dns_plus_plus.Broker.State.{Broker, ChildBroker, Addr, Env, Packet}
use dns_plus_plus.Broker.Publication.{Publication, forward_message, read_publication}
use dns_plus_plus.Broker.Publish.{
  cache_publication, forward_up, forward_down, deliver_local, count_publish, route, handle_publish,
}
use dns_plus_plus.Broker.Descent.{IsDistinct, packets_down, forward_down_lem}
use dns_plus_plus.Broker.Relay.{IsSmall, publish_frame, forward_message-encode}
use dns_plus_plus.Broker.Valid.{IsValid}
use dns_plus_plus.Broker.Safety.Publishing.{handle_publish-Returns}
use dns_plus_plus.Broker.Freshness.Keeps.{Keeps, Keeps-bind}
use dns_plus_plus.Broker.Freshness.Publishing.{forward_up-Keeps, forward_down-Keeps}
use dns_plus_plus.Broker.Arrival.Alike.{AsIn}
use dns_plus_plus.Broker.Arrival.Group.{
  Adds, group_packets, group_packets-Alike, deliver_local-Adds,
}
use dns_plus_plus.Broker.Arrival.Read.{IsRead, read_publication-IsRead}
use dns_plus_plus.Broker.Arrival.Route.{packets_up, outbox-forward_up}

Returns-Keeps {ℓ κ} : {A : Type ℓ} {P : A → Type κ} {r : Access A} → Returns r P → Keeps r P
Returns-Keeps {P} (a, e, p) b e' = subst P (done-inj (sym e ∙ e')) p

length-field_of :
    (kind : ℕ) (value : List ℕ) (fs : List (ℕ × List ℕ))
    → All IsField fs
    → field_of kind fs ≡ some value
    → length value < 2 ^ 16
length-field_of kind value [] h e = cc
length-field_of kind value ((k, v) ∷ fs) h e = elim (Bool-cases (k == kind)) [
  | inl same ↦
      let eq : v ≡ value = some-injective v value (sym (if_true _ _ same) ∙ e) in
      subst (λ bs. length bs < 2 ^ 16) eq h.0.1
  | inr other ↦ length-field_of kind value fs h.1 (sym (if_false _ _ other) ∙ e)
]

module _ (f : Floats) (env : Env) where
  open f use {Double}

  -- The packets up, down and to the subscribers, with the bytes of the messages up and down.
  abbrev pub all_packets : Publication → List ℕ → List ℕ → ℕ → Broker Double → List Packet
  all_packets p up down now s =
      packets_up f p up now s
      ++ (packets_down f p down (find_or [] p.key s.child_active) s.children
          ++ group_packets f env p now s)

  module _ (p : Publication) (up down : List ℕ)
      (built_up : build (forward_message MsgFlags.from_child p) ≡ done up)
      (built_down : build (forward_message MsgFlags.from_parent p) ≡ done down) where
    route-Adds :
        (now : ℕ) (s : Broker Double)
        → p.blinded ≡ none
        → IsDistinct (find_or [] p.key s.child_active)
        → Keeps (route f env p now s) (Adds f env s.outbox (all_packets p up down now s))
    unfolding route cache_publication
    route-Adds now s plain distinct =
        Keeps-bind (Adds f env s.outbox (all_packets p up down now s)) (forward_up f p now cached) _
          (λ s₁ e₁.
            let (grown, children, active) =
              Returns-Keeps (outbox-forward_up f p up now cached built_up) s₁ e₁ in
            let ids = find_or [] p.key s₁.child_active in
            let same_ids : ids ≡ find_or [] p.key s.child_active = ap (find_or [] p.key) active in
            Keeps-bind (Adds f env s.outbox (all_packets p up down now s)) (forward_down f p ids s₁)
              (deliver_local f env p now)
              (λ s₂ e₂ t e.
                let lowered =
                  Returns-Keeps
                    (forward_down_lem f p down built_down ids s₁
                      (subst IsDistinct (sym same_ids) distinct))
                    s₂ e₂ in
                let alike =
                  forward_down-Keeps f (AsIn f cached) p ids s₁
                    (forward_up-Keeps f (AsIn f cached) p now cached (refl, refl, refl) s₁ e₁) s₂
                    e₂ in
                deliver_local-Adds f env p now s₂ plain t e
                ∙ ap₂ (◌++◌)
                    (lowered ∙ ap₂ (◌++◌) grown (ap₂ (packets_down f p down) same_ids children))
                    (group_packets-Alike f env p now cached s₂ alike)
                ∙ append_assoc (s.outbox ++ packets_up f p up now s) _ _
                ∙ append_assoc s.outbox _ _))
      where
        cached : Broker Double
        cached = cache_publication f p s

  read-IsSmall :
      (m : TlvMessage) (fr : Frame) (client : Addr) (children : Map Text (ChildBroker Double))
      (name : Text) (p : Publication)
      → IsFrame fr
      → field_of TlvType.service_name fr.fields ≡ some name
      → IsRead f env m fr name client children p
      → IsSmall p
  read-IsSmall m fr client children name p i named read = record {
    key_fits =
        subst (λ k. length k < 2 ^ 16) (sym read.same_key)
          (length-field_of TlvType.service_name name fr.fields i.fields_fit named);
    blinded_fits = rw read.plain (omega arith);
    payload_fits = subst (λ bs. length bs < 2 ^ 32) (sym read.same_payload) i.payload_fits;
  }

  -- For a valid state and a message that shows a plaintext publication of a name, where no child
  -- is listed twice for the name: `handlePublish` returns, and has then sent these packets and no
  -- others. First one to the parent, if there is one, the publication does not carry FROM_PARENT
  -- and the upward brake lets it pass. Then one to each known child that is listed for the name
  -- and is not the source, and to the centre of whose quadrant with the replica the replica is
  -- nearer than any before. Then the message itself to each subscriber of the name to whom the
  -- replica is nearer than any before, if the local brake lets it pass. The packets up and down
  -- are frames of name, coordinates and flag, FROM_CHILD up and FROM_PARENT down, with the payload
  -- of the message. The source is the child with the sender's address if the message carries
  -- FROM_CHILD.
  pub handle_publish-sends :
      (m : TlvMessage) (fr : Frame) (rest : List ℕ) (client : Addr) (now : ℕ) (s : Broker Double)
      (name : Text)
      → IsFrame fr
      → Views m fr rest
      → IsValid f s
      → field_of TlvType.service_name fr.fields ≡ some name
      → field_of TlvType.blinded_value fr.fields ≡ none
      → IsDistinct (find_or [] name s.child_active)
      → Returns (handle_publish f env m client now s) (λ t.
        (p : Publication) × IsRead f env m fr name client s.children p
        × (t.outbox
            ≡ s.outbox
              ++ all_packets p
                  (encode (publish_frame MsgFlags.from_child p))
                  (encode (publish_frame MsgFlags.from_parent p))
                  now
                  s))
  handle_publish-sends m fr rest client now s name i v valid named unblinded distinct =
      let parsed : IsParsed m = record { frame = fr; rest = rest; is_frame = i; views = v } in
      let (t, e, _) = handle_publish-Returns f env m client now s parsed valid in (t, e, sent t e)
    where
      Sent : Broker Double → Type 0
      Sent t =
          (p : Publication) × IsRead f env m fr name client s.children p
          × (t.outbox
              ≡ s.outbox
                ++ all_packets p (encode (publish_frame MsgFlags.from_child p))
                    (encode (publish_frame MsgFlags.from_parent p)) now s)

      known : get_service_name m ≡ done (some name)
      known =
          unfold get_service_name in
          get_text-Views m fr rest i v TlvType.service_name ∙ ap done named

      sent : Keeps (handle_publish f env m client now s) Sent
      sent =
          unfold handle_publish in
          rw known (
            Keeps-bind Sent (read_publication f env m client name (count_publish f s)) _ (λ p e t h.
              let read : IsRead f env m fr name client s.children p =
                unfold count_publish in
                read_publication-IsRead f env m fr rest client name (count_publish f s) i v
                  unblinded p e in
              let small = read-IsSmall m fr client s.children name p i named read in
              let listed : IsDistinct (find_or [] p.key s.child_active) =
                subst (λ k. IsDistinct (find_or [] k s.child_active)) (sym read.same_key)
                  distinct in
              (
                p,
                read,
                unfold count_publish in
                    route-Adds p _ _ (forward_message-encode MsgFlags.from_child p small)
                      (forward_message-encode MsgFlags.from_parent p small) now (count_publish f s)
                      read.plain listed t h,
              )))
