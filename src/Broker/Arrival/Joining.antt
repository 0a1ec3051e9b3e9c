-- ===== src/Broker/Arrival/Joining.antt =====
-- Proofs on what a subscription leaves for later publications.
use dns_plus_plus.Base.{
  done-inj, ℕ, ◌≡◌, refl, ap, sym, subst, ◌∙◌, List, [], ◌∷◌, ◌++◌, Option, none, some,
  if◌then◌else◌, if_true, done, Text, find_or, find_or-insert, text_eq, text_beq_refl,
}
use dns_plus_plus.Tlv.MsgType
use dns_plus_plus.Tlv.MsgFlags
use dns_plus_plus.Tlv.MsgFlags.{has_flag}
use dns_plus_plus.Tlv.TlvType
use dns_plus_plus.Tlv.Message.{
  TlvMessage, get_service_name, get_coordinates, get_flags, get_blinded_value, get_blinded_value_hi,
}
use dns_plus_plus.Tlv.Frame.{Frame, field_of, IsFrame, Views}
use dns_plus_plus.Tlv.Fields.{
  get_text-Views, get_word-Views, get_coordinates-Views, coordinates_of, word_of,
}
use dns_plus_plus.Geo.Numbers.{Floats}
use dns_plus_plus.Broker.State.{Broker, Addr, Env, GeoClient}
use dns_plus_plus.Broker.Send.{value_or}
use dns_plus_plus.Broker.Subscribe.{
  blinded_pair, add_subscriber, grow_region, answer_query, subscribe_child, subscribe_client,
  count_subscribe, handle_subscribe,
}
use dns_plus_plus.Broker.Freshness.Keeps.{forward_subscription-Keeps, Keeps, Keeps-bind}
use dns_plus_plus.Broker.Freshness.Handlers.{grow_region-Keeps}
use dns_plus_plus.Broker.Arrival.Alike.{AsIn, Alike}

module _ (f : Floats) (env : Env) where
  open f use {Double, lt, max_value, widen}

  -- A client that was sent nothing yet.
  abbrev pub new_client : Addr → ℕ × ℕ → GeoClient Double
  new_client addr (lat, lon) = record {
    addr = addr;
    lat = lat;
    lon = lon;
    cached_closest_dist = max_value;
    blinded_m1 = [];
    blinded_m2 = [];
  }

  -- What a subscription leaves for later publications.
  abbrev pub Joins : Text → GeoClient Double → Broker Double → Broker Double → Type 0
  Joins name gc s t =
      (find_or [] name t.subscribers ≡ find_or [] name s.subscribers ++ (gc ∷ []))
      × (t.config ≡ s.config)
      × (t.brake_count_local ≡ s.brake_count_local)

  add_subscriber-Joins :
      (name : Text) (gc : GeoClient Double) (now : ℕ) (s t : Broker Double)
      → Alike f (add_subscriber f env name gc now s) t
      → Joins name gc s t
  unfolding add_subscriber
  add_subscriber-Joins name gc now s t h = (
    ap (find_or [] name) h.0
        ∙ find_or-insert name name _ [] s.subscribers
        ∙ if_true _ _ (text_beq_refl name),
    h.1,
    h.2,
  )

  subscribe_client-Joins :
      (name : Text) (client : Addr) (place : ℕ × ℕ) (now : ℕ) (s : Broker Double)
      → Keeps
          (subscribe_client f env name client place 0 none none now s)
          (Joins name (new_client client place) s)
  unfolding subscribe_client answer_query blinded_pair has_flag
  subscribe_client-Joins name client (lat, lon) now s =
      let joined = add_subscriber f env name (new_client client (lat, lon)) now s in
      Keeps-bind (Joins name (new_client client (lat, lon)) s) (grow_region f env lat lon joined) _
        (λ s₁ e₁ t e. add_subscriber-Joins name (new_client client (lat, lon)) now s t (
          forward_subscription-Keeps f (AsIn f joined) name s₁
            (grow_region-Keeps f (AsIn f joined) env lat lon joined (refl, refl, refl) s₁ e₁) t e))

  -- A subscription in plaintext, that asks for no answer.
  pub record IsPlainSubscription (fr : Frame) (name : Text) : Type 0 where
    pub same_kind : fr.kind ≡ MsgType.subscribe
    pub named : field_of TlvType.service_name fr.fields ≡ some name
    pub flagless : field_of TlvType.flags fr.fields ≡ none
    pub plain : field_of TlvType.blinded_value fr.fields ≡ none
    pub plain_hi : field_of TlvType.blinded_value_hi fr.fields ≡ none

  -- Where a frame lies, and 0.0, 0.0 where it does not say.
  abbrev pub place_of : Frame → ℕ × ℕ
  place_of fr = value_or (0, 0) (coordinates_of (field_of TlvType.coordinates fr.fields))

  settled :
      (name : Text) (client : Addr) (now : ℕ) (s : Broker Double) (place : ℕ × ℕ)
      (coords : Option (ℕ × ℕ)) (flags : Option ℕ) (m1 m2 : Option Text)
      → value_or (0, 0) coords ≡ place
      → flags ≡ none
      → m1 ≡ none
      → m2 ≡ none
      → Keeps
          (if has_flag (value_or 0 flags) MsgFlags.from_child
            then subscribe_child f env name client s
            else subscribe_client f env name client
                (value_or (0, 0) coords)
                (value_or 0 flags)
                m1
                m2
                now
                s)
          (Joins name (new_client client place) s)
  unfolding has_flag
  settled name client now s place coords none none none e p q r =
      subst
        (λ at.
          Keeps (subscribe_client f env name client at 0 none none now s)
            (Joins name (new_client client place) s))
        (sym e) (subscribe_client-Joins name client place now s)
  settled name client now s place coords (some flags) m1 m2 e p q r = cc
  settled name client now s place coords none (some m1) m2 e p q r = cc
  settled name client now s place coords none none (some m2) e p q r = cc

  pub handle_subscribe-Joins :
      (m : TlvMessage) (fr : Frame) (rest : List ℕ) (name : Text) (client : Addr) (now : ℕ)
      (s : Broker Double)
      → IsFrame fr
      → Views m fr rest
      → IsPlainSubscription fr name
      → Keeps
          (handle_subscribe f env m client now s)
          (Joins name (new_client client (place_of fr)) s)
  unfolding handle_subscribe get_flags get_blinded_value get_blinded_value_hi count_subscribe
  handle_subscribe-Joins m fr rest name client now s i v h = rw known (
      Keeps-bind Joined (get_coordinates m) _ λ coords e₁.
        Keeps-bind Joined (get_flags m) _ λ flags_opt e₂.
          Keeps-bind Joined (get_blinded_value m) _ λ m1 e₃.
            Keeps-bind Joined (get_blinded_value_hi m) _ λ m2 e₄.
              settled name client now (count_subscribe f env s) (place_of fr) coords flags_opt m1 m2
                (ap (value_or (0, 0)) (done-inj (sym e₁ ∙ get_coordinates-Views m fr rest i v)))
                (done-inj (sym e₂ ∙ get_word-Views m fr rest i v TlvType.flags)
                  ∙ ap word_of h.flagless)
                (done-inj (sym e₃ ∙ get_text-Views m fr rest i v TlvType.blinded_value) ∙ h.plain)
                (done-inj (sym e₄ ∙ get_text-Views m fr rest i v TlvType.blinded_value_hi)
                  ∙ h.plain_hi))
    where
      Joined : Broker Double → Type 0
      Joined = Joins name (new_client client (place_of fr)) s

      known : get_service_name m ≡ done (some name)
      known =
          unfold get_service_name in
          get_text-Views m fr rest i v TlvType.service_name ∙ ap done h.named
