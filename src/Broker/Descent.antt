-- ===== src/Broker/Descent.antt =====
-- What `handlePublish` sends to the child brokers.
use dns_plus_plus.Base.{
  ℕ, ◌+◌, ◌≡◌, refl, sym, ◌∙◌, inl, inr, Bool, true, false, List, [], ◌∷◌, ◌++◌, Option, none, some,
  append-nil, append_assoc, if◌then◌else◌, if_false, Bool-cases, done, Returns, Returns-bind, ap₂,
  Text, text_beq, text_beq_iff, text_eq, Map, find, insert, find-insert, arith,
}
use dns_plus_plus.Tlv.MsgFlags
use dns_plus_plus.Tlv.Builder.{build}
use dns_plus_plus.Tlv.Frame.{encode}
use dns_plus_plus.Geo.{Four, geo_distance, quadrant_of, quadrant_centers, at_quadrant, set_quadrant}
use dns_plus_plus.Geo.Numbers.{Floats}
use dns_plus_plus.Broker.State.{Broker, ChildBroker, Packet}
use dns_plus_plus.Broker.Publication.{Publication, forward_message}
use dns_plus_plus.Broker.Send.{member, send, send_bytes}
use dns_plus_plus.Broker.Relay.{IsSmall, publish_frame, forward_message-encode}
use dns_plus_plus.Broker.Publish.{count_down, forward_to_child, forward_down}

-- No text stands twice in a list.
abbrev pub IsDistinct : List Text → Type 0
IsDistinct [] = Unit
IsDistinct (t ∷ ts) = (member t ts ≡ false) × IsDistinct ts

text_beq_swap : (s t : Text) → text_beq s t ≡ false → text_beq t s ≡ false
text_beq_swap s t h = elim (Bool-cases (text_beq t s)) [
  | inl same ↦
      let wrong : true ≡ false = sym ((text_beq_iff s t).1 (sym ((text_beq_iff t s).0 same))) ∙ h in
      cc
  | inr other ↦ other
]

module _ (f : Floats) where
  open f use {Double, lt, le, add, div, two, widen}

  abbrev half_way : Double → Double → Double
  half_way a b = div (add a b) two

  -- The quadrant of the child's region that the replica is in: north and east, the middle included.
  abbrev is_north : Publication → ChildBroker Double → Bool
  is_north p child = le (half_way child.region.min_lat child.region.max_lat) (widen p.lat)

  abbrev is_east : Publication → ChildBroker Double → Bool
  is_east p child = le (half_way child.region.min_lon child.region.max_lon) (widen p.lon)

  -- The centre of the upper or of the lower half of a range.
  abbrev half_centre : Double → Double → Bool → Double
  half_centre low high upper =
      if upper then half_way (half_way low high) high else half_way low (half_way low high)

  abbrev nearest_before : Four Double → Bool → Bool → Double
  nearest_before q north east =
      if north then (if east then q.ne else q.nw) else (if east then q.se else q.sw)

  -- The replica is nearer to the centre of the quadrant that it is in than any replica before.
  abbrev pub is_nearer_child : Publication → ChildBroker Double → Bool
  is_nearer_child p child =
      lt
        (geo_distance f (widen p.lat) (widen p.lon)
          (half_centre child.region.min_lat child.region.max_lat (is_north p child))
          (half_centre child.region.min_lon child.region.max_lon (is_east p child)))
        (nearest_before child.closest_quad (is_north p child) (is_east p child))

  is_nearer_child_lem :
      (p : Publication) (child : ChildBroker Double)
      → (let q = quadrant_of f child.region (widen p.lat) (widen p.lon) in
          let centre = at_quadrant (quadrant_centers f child.region) q in
          lt
            (geo_distance f (widen p.lat) (widen p.lon) centre.0 centre.1)
            (at_quadrant child.closest_quad q))
        ≡ is_nearer_child p child
  unfolding quadrant_of quadrant_centers at_quadrant
  is_nearer_child_lem p child = parts (is_north p child) (is_east p child)
    where
      parts :
          (north east : Bool)
          → (let north_index : ℕ = if north then 2 else 0 in
              let east_index : ℕ = if east then 1 else 0 in
              let q = north_index + east_index in
              let centre = at_quadrant (quadrant_centers f child.region) q in
              lt
                (geo_distance f (widen p.lat) (widen p.lon) centre.0 centre.1)
                (at_quadrant child.closest_quad q))
            ≡ lt
                (geo_distance f
                  (widen p.lat)
                  (widen p.lon)
                  (half_centre child.region.min_lat child.region.max_lat north)
                  (half_centre child.region.min_lon child.region.max_lon east))
                (nearest_before child.closest_quad north east)
      parts true true = refl
      parts true false = refl
      parts false true = refl
      parts false false = refl

  abbrev pub packets_of : Publication → List ℕ → Option (ChildBroker Double) → List Packet
  packets_of p bytes none = []
  packets_of p bytes (some child) =
      if is_nearer_child p child then record { dest = child.addr; bytes = bytes } ∷ [] else []

  -- A message for each interested child to whom the replica is nearer, but for the one that it came
  -- from.
  abbrev pub packets_down :
      Publication → List ℕ → List Text → Map Text (ChildBroker Double) → List Packet
  packets_down p bytes [] children = []
  packets_down p bytes (id ∷ ids) children =
      (if text_beq id p.from_id then [] else packets_of p bytes (find id children))
      ++ packets_down p bytes ids children

  packets_down-insert :
      (p : Publication) (bytes : List ℕ) (id : Text) (child : ChildBroker Double) (ids : List Text)
      (children : Map Text (ChildBroker Double))
      → member id ids ≡ false
      → packets_down p bytes ids (insert id child children) ≡ packets_down p bytes ids children
  unfolding member
  packets_down-insert p bytes id child [] children h = refl
  packets_down-insert p bytes id child (other ∷ ids) children h =
      let differs : text_beq other id ≡ false = ground (arith, h) in
      let found : find other (insert id child children) ≡ find other children =
        find-insert id other child children ∙ if_false _ _ (text_beq_swap other id differs) in
      rw (found, packets_down-insert p bytes id child ids children (ground (arith, h))) refl

  module _ (p : Publication) (bytes : List ℕ)
      (built : build (forward_message MsgFlags.from_parent p) ≡ done bytes) where
    -- One child was asked: what was sent, and what later children see.
    abbrev IsAsked : Text → List Packet → Broker Double → Broker Double → Type 0
    IsAsked id new s t =
        (t.outbox ≡ s.outbox ++ new)
        × ((ids : List Text)
            → member id ids ≡ false
            → packets_down p bytes ids t.children ≡ packets_down p bytes ids s.children)

    unmoved : (id : Text) (s : Broker Double) → Returns (done s) (IsAsked id [] s)
    unmoved id s = (s, refl, (sym (append-nil s.outbox), λ ids h. refl))

    told : Text → ChildBroker Double → Broker Double → Broker Double
    unfolding send_bytes
    told id child s =
        let q = quadrant_of f child.region (widen p.lat) (widen p.lon) in
        let centre = at_quadrant (quadrant_centers f child.region) q in
        let dist = geo_distance f (widen p.lat) (widen p.lon) centre.0 centre.1 in
        let child' : ChildBroker Double = record child {
          closest_quad = set_quadrant q dist child.closest_quad;
        } in
        count_down f
          (send_bytes f child.addr bytes (record s { children = insert id child' s.children }))

    forward_to_child-IsAsked :
        (id : Text) (child : ChildBroker Double) (s : Broker Double)
        → Returns (forward_to_child f p id child s) (IsAsked id (packets_of p bytes (some child)) s)
    unfolding forward_to_child send send_bytes count_down told
    forward_to_child-IsAsked id child s = elim (Bool-cases (is_nearer_child p child)) [
      | inl near ↦ (
        told id child s,
        rw (is_nearer_child_lem p child, near, built) refl,
        (rw near refl, λ ids h. packets_down-insert p bytes id _ ids s.children h),
      )
      | inr far ↦ (
        s,
        rw (is_nearer_child_lem p child, far) refl,
        (rw far (sym (append-nil s.outbox)), λ ids h. refl),
      )
    ]

    forward_down-step :
        (id : Text) (s : Broker Double)
        → Returns
            (if text_beq id p.from_id then done s else elim (find id s.children) [
              | none ↦ done s
              | some child ↦ forward_to_child f p id child s
            ])
            (IsAsked id
              (if text_beq id p.from_id then [] else packets_of p bytes (find id s.children))
              s)
    forward_down-step id s = source (text_beq id p.from_id)
      where
        known :
            (entry : Option (ChildBroker Double))
            → Returns
                (elim entry [ none ↦ done s | some child ↦ forward_to_child f p id child s ])
                (IsAsked id (packets_of p bytes entry) s)
        known none = unmoved id s
        known (some child) = forward_to_child-IsAsked id child s

        source :
            (b : Bool)
            → Returns
                (if b then done s else elim (find id s.children) [
                  | none ↦ done s
                  | some child ↦ forward_to_child f p id child s
                ])
                (IsAsked id (if b then [] else packets_of p bytes (find id s.children)) s)
        source true = unmoved id s
        source false = known (find id s.children)

    pub forward_down_lem :
        (ids : List Text) (s : Broker Double)
        → IsDistinct ids
        → Returns
            (forward_down f p ids s)
            (λ t. t.outbox ≡ s.outbox ++ packets_down p bytes ids s.children)
    unfolding forward_down
    forward_down_lem [] s h = (s, refl, sym (append-nil s.outbox))
    forward_down_lem (id ∷ ids) s h =
        Returns-bind _ (forward_down f p ids) (forward_down-step id s) (λ t asked.
          let (r, e, sent) = forward_down_lem ids t h.1 in
          (
            r,
            e,
            sent
                ∙ ap₂ (◌++◌) asked.0 (asked.1 ids h.0)
                ∙ append_assoc s.outbox _ (packets_down p bytes ids s.children),
          ))

  -- For a publication whose parts fit their length fields and child ids of which none stands
  -- twice: the loop over the interested children returns, and sends the frame of the publication,
  -- with name, coordinates, blinded value, the flag FROM_PARENT and payload, to exactly those of
  -- them, in their order, that are known, are not the source of the publication, and to the centre
  -- of whose quadrant with the replica the replica is nearer than any before.
  pub outbox-forward_down :
      (p : Publication) (ids : List Text) (s : Broker Double)
      → IsSmall p
      → IsDistinct ids
      → Returns (forward_down f p ids s) (λ t.
        t.outbox
        ≡ s.outbox ++ packets_down p (encode (publish_frame MsgFlags.from_parent p)) ids s.children)
  outbox-forward_down p ids s h k =
      forward_down_lem p _ (forward_message-encode MsgFlags.from_parent p h) ids s k
