-- ===== src/Geo.antt =====
-- utils/geo.h: distances and rectangles. Doubles and the functions of <cmath> are parameters.
pub mod Numbers
pub mod Regions
use dns_plus_plus.Base.{
  ℕ, zero, suc, ◌+◌, Bool, true, false, not, ◌&&◌, ◌||◌, List, [], ◌∷◌, if◌then◌else◌,
}
use Numbers.{Floats}

pub record Region (D : Type 0) : Type 0 where
  pub min_lat : D
  pub max_lat : D
  pub min_lon : D
  pub max_lon : D

-- Indices 0 to 3 of a `std::array` of four.
pub record Four {ℓ} (A : Type ℓ) : Type ℓ where
  pub sw : A
  pub se : A
  pub nw : A
  pub ne : A

module _ {ℓ} {A : Type ℓ} where
  unfoldable pub at_quadrant : Four A → ℕ → A
  at_quadrant q zero = q.sw
  at_quadrant q (suc zero) = q.se
  at_quadrant q (suc (suc zero)) = q.nw
  at_quadrant q (suc (suc (suc i))) = q.ne

  unfoldable pub set_quadrant : ℕ → A → Four A → Four A
  set_quadrant zero a q = record q { sw = a }
  set_quadrant (suc zero) a q = record q { se = a }
  set_quadrant (suc (suc zero)) a q = record q { nw = a }
  set_quadrant (suc (suc (suc i))) a q = record q { ne = a }

module _ (f : Floats) where
  open f use {Double, lt, le, add, sub, mul, div, cos, sqrt, two, pi, one_eighty}

  unfoldable pub geo_distance : Double → Double → Double → Double → Double
  geo_distance lat1 lon1 lat2 lon2 =
      let dlat = sub lat1 lat2 in
      let dlon = mul (sub lon1 lon2) (cos (div (mul (div (add lat1 lat2) two) pi) one_eighty)) in
      sqrt (add (mul dlat dlat) (mul dlon dlon))

  -- `std::min` and `std::max`.
  unfoldable pub min_of : Double → Double → Double
  min_of a b = if lt b a then b else a

  unfoldable pub max_of : Double → Double → Double
  max_of a b = if lt a b then b else a

  unfoldable pub contains : Region Double → Double → Double → Bool
  contains r lat lon = le r.min_lat lat && le lat r.max_lat && le r.min_lon lon && le lon r.max_lon

  unfoldable pub overlaps : Region Double → Region Double → Bool
  overlaps r o = not (
      lt r.max_lat o.min_lat
      || lt o.max_lat r.min_lat
      || lt r.max_lon o.min_lon
      || lt o.max_lon r.min_lon)

  unfoldable pub merge : Region Double → Region Double → Region Double
  unfolding min_of max_of
  merge a b = record {
    min_lat = min_of a.min_lat b.min_lat;
    max_lat = max_of a.max_lat b.max_lat;
    min_lon = min_of a.min_lon b.min_lon;
    max_lon = max_of a.max_lon b.max_lon;
  }

  unfoldable pub middle : Double → Double → Double
  middle a b = div (add a b) two

  unfoldable pub quadrant_centers : Region Double → Four (Double × Double)
  unfolding middle
  quadrant_centers r =
      let mid_lat = middle r.min_lat r.max_lat in
      let mid_lon = middle r.min_lon r.max_lon in
      record {
        sw = (middle r.min_lat mid_lat, middle r.min_lon mid_lon);
        se = (middle r.min_lat mid_lat, middle mid_lon r.max_lon);
        nw = (middle mid_lat r.max_lat, middle r.min_lon mid_lon);
        ne = (middle mid_lat r.max_lat, middle mid_lon r.max_lon);
      }

  unfoldable pub quadrant_of : Region Double → Double → Double → ℕ
  unfolding middle
  quadrant_of r lat lon =
      let north : ℕ = if le (middle r.min_lat r.max_lat) lat then 2 else 0 in
      let east : ℕ = if le (middle r.min_lon r.max_lon) lon then 1 else 0 in north + east
