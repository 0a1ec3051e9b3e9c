-- ===== src/Geo/Regions.antt =====
-- Proofs on `merge`.
use dns_plus_plus.Base.{◌≡◌, inl, inr, true, Bool-cases}
use dns_plus_plus.Geo.{Region, min_of, max_of, merge}
use dns_plus_plus.Geo.Numbers.{Floats, IsNumber, OrderLaws}

module _ (f : Floats) where
  open f use {Double, lt, le}

  -- One region lies in another.
  pub record Covers (outer inner : Region Double) : Type 0 where
    pub south : le outer.min_lat inner.min_lat ≡ true
    pub north : le inner.max_lat outer.max_lat ≡ true
    pub west : le outer.min_lon inner.min_lon ≡ true
    pub east : le inner.max_lon outer.max_lon ≡ true

  -- The bounds are numbers.
  pub record IsMeasured (r : Region Double) : Type 0 where
    pub min_lat_number : IsNumber f r.min_lat
    pub max_lat_number : IsNumber f r.max_lat
    pub min_lon_number : IsNumber f r.min_lon
    pub max_lon_number : IsNumber f r.max_lon

  pub IsMeasured-Covers : (r : Region Double) → IsMeasured r → Covers r r
  IsMeasured-Covers r h = record {
    south = h.min_lat_number;
    north = h.max_lat_number;
    west = h.min_lon_number;
    east = h.max_lon_number;
  }

  module _ (laws : OrderLaws f) where
    open laws use {le_trans, lt_le, not_lt_le}

    pub Covers-trans : (a b c : Region Double) → Covers a b → Covers b c → Covers a c
    Covers-trans a b c h k = record {
      south = le_trans _ _ _ h.south k.south;
      north = le_trans _ _ _ k.north h.north;
      west = le_trans _ _ _ h.west k.west;
      east = le_trans _ _ _ k.east h.east;
    }

    -- The lesser of two numbers is one, and at most each of them; and the greater likewise.
    min_of_lem :
        (a b : Double)
        → IsNumber f a
        → IsNumber f b
        → IsNumber f (min_of f a b) × (le (min_of f a b) a ≡ true) × (le (min_of f a b) b ≡ true)
    unfolding min_of
    min_of_lem a b m n = elim (Bool-cases (lt b a)) [
      | inl less ↦ rw less (n, lt_le b a less, n)
      | inr not_less ↦ rw not_less (m, m, not_lt_le b a n m not_less)
    ]

    max_of_lem :
        (a b : Double)
        → IsNumber f a
        → IsNumber f b
        → IsNumber f (max_of f a b) × (le a (max_of f a b) ≡ true) × (le b (max_of f a b) ≡ true)
    unfolding max_of
    max_of_lem a b m n = elim (Bool-cases (lt a b)) [
      | inl less ↦ rw less (n, lt_le a b less, n)
      | inr not_less ↦ rw not_less (m, m, not_lt_le a b m n not_less)
    ]

    pub merge-Covers :
        (a b : Region Double)
        → IsMeasured a
        → IsMeasured b
        → IsMeasured (merge f a b) × Covers (merge f a b) a × Covers (merge f a b) b
    unfolding merge
    merge-Covers a b m n =
        let s = min_of_lem a.min_lat b.min_lat m.min_lat_number n.min_lat_number in
        let w = min_of_lem a.min_lon b.min_lon m.min_lon_number n.min_lon_number in
        let t = max_of_lem a.max_lat b.max_lat m.max_lat_number n.max_lat_number in
        let e = max_of_lem a.max_lon b.max_lon m.max_lon_number n.max_lon_number in
        (
          record {
            min_lat_number = s.0;
            max_lat_number = t.0;
            min_lon_number = w.0;
            max_lon_number = e.0;
          },
          record { south = s.1; north = t.1; west = w.1; east = e.1 },
          record { south = s.2; north = t.2; west = w.2; east = e.2 },
        )
