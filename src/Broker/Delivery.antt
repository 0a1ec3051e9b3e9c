-- ===== src/Broker/Delivery.antt =====
-- What `handlePublish` sends to the subscribers of a group.
use dns_plus_plus.Base.{
  ◌≡◌, refl, sym, ◌∙◌, inl, inr, Bool, List, [], ◌∷◌, ◌++◌, append-nil, append_assoc, if◌then◌else◌,
  Bool-cases,
}
use dns_plus_plus.Geo.{geo_distance}
use dns_plus_plus.Geo.Numbers.{Floats, FloatLaws}
use dns_plus_plus.Broker.State.{Broker, GeoClient, Packet}
use dns_plus_plus.Broker.Publication.{Publication}
use dns_plus_plus.Broker.Send.{send_bytes}
use dns_plus_plus.Broker.Publish.{count_delivered, deliver_one, deliver_all}

module _ (f : Floats) where
  open f use {Double, lt, widen}

  -- The replica is nearer to the subscriber than all that it was sent.
  abbrev pub is_nearer : Publication → GeoClient Double → Bool
  is_nearer p gc =
      lt (geo_distance f (widen p.lat) (widen p.lon) (widen gc.lat) (widen gc.lon))
        gc.cached_closest_dist

  -- The raw message for each subscriber to whom the replica is nearer.
  abbrev pub packets : Publication → List (GeoClient Double) → List Packet
  packets p [] = []
  packets p (gc ∷ gcs) =
      if is_nearer p gc
      then record { dest = gc.addr; bytes = p.raw } ∷ packets p gcs
      else packets p gcs

  -- The delivery loop sends the raw message to exactly those subscribers of the group to whom the
  -- replica is nearer than the nearest before, in the order of the group, and sends nothing else.
  pub outbox-deliver_all :
      (p : Publication) (gcs : List (GeoClient Double)) (s : Broker Double)
      → (deliver_all f p gcs s).1.outbox ≡ s.outbox ++ packets p gcs
  unfolding deliver_all deliver_one count_delivered send_bytes
  outbox-deliver_all p [] s = sym (append-nil s.outbox)
  outbox-deliver_all p (gc ∷ gcs) s = elim (Bool-cases (is_nearer p gc)) [
    | inl near ↦
        outbox-deliver_all p gcs (deliver_one f p gc s).1
        ∙ rw near (append_assoc s.outbox _ (packets p gcs))
    | inr far ↦ outbox-deliver_all p gcs (deliver_one f p gc s).1 ∙ rw far refl
  ]

  module _ (laws : FloatLaws f) where
    open laws use {lt_irrefl}

    deliver_one_again :
        (p : Publication) (gc : GeoClient Double) (s t : Broker Double)
        → deliver_one f p (deliver_one f p gc s).0 t ≡ ((deliver_one f p gc s).0, t)
    unfolding deliver_one
    deliver_one_again p gc s t = elim (Bool-cases (is_nearer p gc)) [
      | inl near ↦ rw (near, lt_irrefl _) refl
      | inr far ↦ rw (far, far) refl
    ]

    -- If no double is less than itself, a publication that is delivered again to the subscribers
    -- as the first delivery left them sends nothing, and changes neither a subscriber nor the
    -- broker.
    pub deliver_all_again :
        (p : Publication) (gcs : List (GeoClient Double)) (s t : Broker Double)
        → deliver_all f p (deliver_all f p gcs s).0 t ≡ ((deliver_all f p gcs s).0, t)
    unfolding deliver_all
    deliver_all_again p [] s t = refl
    deliver_all_again p (gc ∷ gcs) s t =
        rw (deliver_one_again p gc s t, deliver_all_again p gcs (deliver_one f p gc s).1 t) refl
