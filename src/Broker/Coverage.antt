-- ===== src/Broker/Coverage.antt =====
-- Proofs on the region of a broker, which is that of its own point and of its children.
use dns_plus_plus.Base.{◌≡◌, true, [], ◌∷◌, Text, Map, Values, text_eq, arith}
use dns_plus_plus.Geo.{Region, contains, merge}
use dns_plus_plus.Geo.Numbers.{Floats, OrderLaws}
use dns_plus_plus.Geo.Regions.{Covers, IsMeasured, IsMeasured-Covers, Covers-trans, merge-Covers}
use dns_plus_plus.Broker.State.{Broker, ChildBroker}
use dns_plus_plus.Broker.Membership.{point_region, merge_children, update_my_region}

module _ (f : Floats) (laws : OrderLaws f) where
  open f use {Double, le, widen}

  Covers-all :
      (whole : Region Double) (mid : Region Double) (children : Map Text (ChildBroker Double))
      → Covers f whole mid
      → Values (λ c. Covers f mid c.region) children
      → Values (λ c. Covers f whole c.region) children
  Covers-all whole mid [] h k = tt
  Covers-all whole mid ((id, child) ∷ rest) h k =
      (Covers-trans f laws whole mid child.region h k.0, Covers-all whole mid rest h k.1)

  merge_children-Covers :
      (children : Map Text (ChildBroker Double)) (r : Region Double)
      → IsMeasured f r
      → Values (λ c. IsMeasured f c.region) children
      → Covers f (merge_children f children r) r
        × Values (λ c. Covers f (merge_children f children r) c.region) children
  unfolding merge_children
  merge_children-Covers [] r m v = (IsMeasured-Covers f r m, tt)
  merge_children-Covers ((id, child) ∷ rest) r m v =
      let (measured, of_r, of_child) = merge-Covers f laws r child.region m v.0 in
      let (of_merged, of_rest) = merge_children-Covers rest (merge f r child.region) measured v.1 in
      (
        Covers-trans f laws _ (merge f r child.region) r of_merged of_r,
        (Covers-trans f laws _ (merge f r child.region) child.region of_merged of_child, of_rest),
      )

  -- If the doubles are ordered as IEEE 754 says and the broker's coordinates and its children's
  -- bounds are numbers: the region that `updateMyRegion` sets contains the broker's own point and
  -- covers the region of every child.
  pub update_my_region-Covers :
      (s : Broker Double)
      → IsMeasured f (point_region f s.config.lat s.config.lon)
      → Values (λ c. IsMeasured f c.region) s.children
      → (contains f (update_my_region f s).my_region (widen s.config.lat) (widen s.config.lon)
          ≡ true)
        × Values (λ c. Covers f (update_my_region f s).my_region c.region) s.children
  unfolding update_my_region contains point_region
  update_my_region-Covers s m v =
      let (own, children) =
        merge_children-Covers s.children (point_region f s.config.lat s.config.lon) m v in
      (ground (arith, own.south, own.north, own.west, own.east), children)
