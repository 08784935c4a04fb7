-- ===== src/Location.antt =====
-- backend/internal/location/distance.go: the haversine formula, over floating-point numbers that
-- are a parameter.
use trabalho_radio_px.Prelude.{ℕ, ◌≡◌, Bool, true, false}

-- float64 with the functions of package math that the program calls, and the order of IEEE 754.
pub record Floats : Type 1 where
  pub Float : Type 0
  pub literal : ℕ → Float
  pub pi : Float
  pub add : Float → Float → Float
  pub sub : Float → Float → Float
  pub mul : Float → Float → Float
  pub div : Float → Float → Float
  pub sin : Float → Float
  pub cos : Float → Float
  pub sqrt : Float → Float
  pub atan2 : Float → Float → Float
  -- `a < b`, false where either is not a number
  pub less : Float → Float → Bool
  -- `a <= b`, false where either is not a number
  pub at_most : Float → Float → Bool
  pub is_nan : Float → Bool
  pub less-asym : (a b : Float) → less a b ≡ true → less b a ≡ false
  -- Where none of the three is NaN, what is not less than a second is not less than what the second
  -- is not less than.
  pub less-negative_trans :
      (a b c : Float) → is_nan b ≡ false → less b a ≡ false → less c b ≡ false → less c a ≡ false

module _ (f : Floats) where
  open f use {Float, literal, pi, add, sub, mul, div, sin, cos, sqrt, atan2}

  unfoldable pub radians : Float → Float
  radians x = div (mul x pi) (literal 180)

  unfoldable pub calculate_distance : Float → Float → Float → Float → Float
  unfolding radians
  calculate_distance lat1 lon1 lat2 lon2 =
      let lat1_rad = radians lat1 in
      let lat2_rad = radians lat2 in
      let delta_lat = radians (sub lat2 lat1) in
      let delta_lon = radians (sub lon2 lon1) in
      let half_lat = sin (div delta_lat (literal 2)) in
      let half_lon = sin (div delta_lon (literal 2)) in
      let a =
        add (mul half_lat half_lat)
          (mul (mul (mul (cos lat1_rad) (cos lat2_rad)) half_lon) half_lon) in
      let c = mul (literal 2) (atan2 (sqrt a) (sqrt (sub (literal 1) a))) in mul (literal 6371) c
