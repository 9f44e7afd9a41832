-- ===== src/Geo.antt =====
-- backend/pkg/geo/geo.go: the haversine distance over an abstract type of float64 values.
pub mod Examples
use nyc_taxi_real_time_eta_p.Common.{ℕ, ◌≡◌}
use nyc_taxi_real_time_eta_p.Common.Order.{LinearOrder}

-- float64 and package math, as parameters. `order` is `<` and `==`, on values that are no NaN.
pub record Float : Type 1 where
  pub F : Type 0
  pub order : LinearOrder F
  pub num : ℕ → F
  pub pi : F
  pub add : F → F → F
  pub sub : F → F → F
  pub mul : F → F → F
  pub div : F → F → F
  pub sin : F → F
  pub cos : F → F
  pub asin : F → F
  pub sqrt : F → F

module _ (fl : Float) where
  open fl use {F, num, pi, add, sub, mul, div, sin, cos, asin, sqrt}

  abbrev pub earth_radius_km : F
  earth_radius_km = num 6371

  unfoldable pub haversine_km : F → F → F → F → F
  haversine_km lat1 lon1 lat2 lon2 =
      let lat1_r = div (mul lat1 pi) (num 180) in
      let lon1_r = div (mul lon1 pi) (num 180) in
      let lat2_r = div (mul lat2 pi) (num 180) in
      let lon2_r = div (mul lon2 pi) (num 180) in
      let d_lat = sub lat2_r lat1_r in
      let d_lon = sub lon2_r lon1_r in
      let a = add (mul (sin (div d_lat (num 2))) (sin (div d_lat (num 2)))) (
        mul (mul (mul (cos lat1_r) (cos lat2_r)) (sin (div d_lon (num 2))))
          (sin (div d_lon (num 2)))) in
      let c = mul (num 2) (asin (sqrt a)) in mul earth_radius_km c

-- What IEEE 754 and package math say of signs and zeros (zeros of both signs being equal).
pub record SignLaws (fl : Float) : Type 0 where
  pub neg : fl.F → fl.F
  pub sub_swap : (x y : fl.F) → fl.sub y x ≡ neg (fl.sub x y)
  pub sub_self : (x : fl.F) → fl.sub x x ≡ fl.num 0
  pub div_neg : (x y : fl.F) → fl.div (neg x) y ≡ neg (fl.div x y)
  pub sin_neg : (x : fl.F) → fl.sin (neg x) ≡ neg (fl.sin x)
  pub mul_neg_left : (x y : fl.F) → fl.mul (neg x) y ≡ neg (fl.mul x y)
  pub mul_neg_right : (x y : fl.F) → fl.mul x (neg y) ≡ neg (fl.mul x y)
  pub neg_neg : (x : fl.F) → neg (neg x) ≡ x
  pub mul_comm : (x y : fl.F) → fl.mul x y ≡ fl.mul y x
  pub zero_div : (x : fl.F) → fl.div (fl.num 0) x ≡ fl.num 0
  pub sin_zero : fl.sin (fl.num 0) ≡ fl.num 0
  pub mul_zero : (x : fl.F) → fl.mul x (fl.num 0) ≡ fl.num 0
  pub add_zero : fl.add (fl.num 0) (fl.num 0) ≡ fl.num 0
  pub sqrt_zero : fl.sqrt (fl.num 0) ≡ fl.num 0
  pub asin_zero : fl.asin (fl.num 0) ≡ fl.num 0

module _ (fl : Float) (laws : SignLaws fl) where
  open fl use {F, num, pi, sub, mul, div, sin, cos}
  open laws use {
    neg, sub_swap, sub_self, div_neg, sin_neg, mul_neg_left, mul_neg_right, neg_neg, mul_comm,
    zero_div, sin_zero, mul_zero, add_zero, sqrt_zero, asin_zero,
  }

  -- Swapping the ends of a difference changes no square of its half's sine.
  square_swap :
      (w x y k : F)
      → mul (mul w (sin (div (sub y x) k))) (sin (div (sub y x) k))
        ≡ mul (mul w (sin (div (sub x y) k))) (sin (div (sub x y) k))
  square_swap w x y k =
      rw (sub_swap x y) (simp (div_neg, sin_neg, mul_neg_left, mul_neg_right, neg_neg))

  plain_square_swap :
      (x y k : F)
      → mul (sin (div (sub y x) k)) (sin (div (sub y x) k))
        ≡ mul (sin (div (sub x y) k)) (sin (div (sub x y) k))
  plain_square_swap x y k =
      rw (sub_swap x y) (simp (div_neg, sin_neg, mul_neg_left, mul_neg_right, neg_neg))

  -- The distance from one point to another is the distance back.
  haversine_km_comm :
      (lat1 lon1 lat2 lon2 : F)
      → haversine_km fl lat1 lon1 lat2 lon2 ≡ haversine_km fl lat2 lon2 lat1 lon1
  unfolding haversine_km
  haversine_km_comm lat1 lon1 lat2 lon2 =
      let rad = λ (x : F). div (mul x pi) (num 180) in
      cc (
        plain_square_swap (rad lat1) (rad lat2) (num 2),
        square_swap (mul (cos (rad lat1)) (cos (rad lat2))) (rad lon1) (rad lon2) (num 2),
        mul_comm (cos (rad lat1)) (cos (rad lat2)),
      )

  -- A point is at distance 0 from itself.
  pub haversine_km_self : (lat lon : F) → haversine_km fl lat lon lat lon ≡ num 0
  unfolding haversine_km
  haversine_km_self lat lon =
      simp (haversine_km, sub_self, zero_div, sin_zero, mul_zero, add_zero, sqrt_zero, asin_zero)
