-- ===== src/Handlers/Validation.antt =====
-- `validatePredictionRequest` of backend/internal/handlers/handlers.go. A decoded JSON body holds no
-- NaN, so that `<` is a linear order on the values that it compares.
use nyc_taxi_real_time_eta_p.Common.{
  Bool, true, false, ◌||◌, ◌≡◌, ◌≢◌, ◌↔◌, ◌⊎◌, inl, inr, [], Option, none, some, arith,
  if◌then◌else◌, Bool-cases,
}
use nyc_taxi_real_time_eta_p.Common.Bytes.{Bytes, codes, bytes_eq, bytes_eq_iff}
use nyc_taxi_real_time_eta_p.Common.Int.{ℤ, pos, leb_ℤ, ltb_ℤ}
use nyc_taxi_real_time_eta_p.Common.Order.{of_gt}
use nyc_taxi_real_time_eta_p.Geo.{Float}
use nyc_taxi_real_time_eta_p.Models.{PredictionRequest}

-- A switch of six cases falls through exactly if none of its conditions holds.
switch_none :
    (a b c d e f : Bool) (k l m n o p : Bytes)
    → ((if a
          then some k
          else if b
          then some l
          else if c
          then some m
          else if d
          then some n
          else if e
          then some o
          else if f
          then some p
          else none)
        ≡ none)
      ↔ ((a ≡ false) × (b ≡ false) × (c ≡ false) × (d ≡ false) × (e ≡ false) × (f ≡ false))
switch_none a b c d e f k l m n o p = ground arith

passengers_iff :
    (n : ℤ)
    → ((ltb_ℤ n (pos 1) || ltb_ℤ (pos 6) n) ≡ false)
      ↔ ((leb_ℤ (pos 1) n ≡ true) × (leb_ℤ n (pos 6) ≡ true))
passengers_iff n = ground arith

not_empty : (s : Bytes) → s ≢ [] → bytes_eq s [] ≡ false
not_empty s h = elim (Bool-cases (bytes_eq s [])) [
  | inl e ↦ absurd (h ((bytes_eq_iff s []).0 e))
  | inr e ↦ e
]

module _ (fl : Float) where
  open fl use {F, order, num, sub, div}

  -- The quotients are the decimal constants of the source, correctly rounded.
  abbrev pub nyc_lat_min : F
  nyc_lat_min = div (num 405) (num 10)

  abbrev pub nyc_lat_max : F
  nyc_lat_max = div (num 409) (num 10)

  abbrev pub nyc_lon_min : F
  nyc_lon_min = sub (num 0) (div (num 7405) (num 100))

  abbrev pub nyc_lon_max : F
  nyc_lon_max = sub (num 0) (div (num 7370) (num 100))

  unfoldable pub is_outside : F → F → F → Bool
  is_outside lo hi x = order.lt x lo || order.lt hi x

  -- The message of the error, or none for nil.
  unfoldable pub validate_prediction_request : PredictionRequest F → Option Bytes
  unfolding is_outside
  validate_prediction_request req =
      if is_outside nyc_lat_min nyc_lat_max req.pickup_latitude
      then some (codes "pickup_latitude out of NYC bounding box")
      else if is_outside nyc_lon_min nyc_lon_max req.pickup_longitude
      then some (codes "pickup_longitude out of NYC bounding box")
      else if is_outside nyc_lat_min nyc_lat_max req.dropoff_latitude
      then some (codes "dropoff_latitude out of NYC bounding box")
      else if is_outside nyc_lon_min nyc_lon_max req.dropoff_longitude
      then some (codes "dropoff_longitude out of NYC bounding box")
      else if ltb_ℤ req.passenger_count (pos 1) || ltb_ℤ (pos 6) req.passenger_count
      then some (codes "passenger_count must be between 1 and 6")
      else if bytes_eq req.pickup_datetime []
      then some (codes "pickup_datetime is required")
      else none

  -- `lo ≤ x ≤ hi`.
  abbrev pub IsWithin : F → F → F → Type 0
  IsWithin lo hi x = ((lo ≡ x) ⊎ (order.lt lo x ≡ true)) × ((x ≡ hi) ⊎ (order.lt x hi ≡ true))

  pub record IsValid (req : PredictionRequest F) : Type 0 where
    pub pickup :
        IsWithin nyc_lat_min nyc_lat_max req.pickup_latitude
        × IsWithin nyc_lon_min nyc_lon_max req.pickup_longitude
    pub dropoff :
        IsWithin nyc_lat_min nyc_lat_max req.dropoff_latitude
        × IsWithin nyc_lon_min nyc_lon_max req.dropoff_longitude
    pub passengers :
        (leb_ℤ (pos 1) req.passenger_count ≡ true) × (leb_ℤ req.passenger_count (pos 6) ≡ true)
    pub datetime : req.pickup_datetime ≢ []

  le_of_not_lt : (x y : F) → order.lt x y ≡ false → (y ≡ x) ⊎ (order.lt y x ≡ true)
  le_of_not_lt x y h = ground (arith, order.lt_total x y)

  not_lt_of_le : (x y : F) → (y ≡ x) ⊎ (order.lt y x ≡ true) → order.lt x y ≡ false
  not_lt_of_le x y (inl e) = rw e (order.lt_irrefl x)
  not_lt_of_le x y (inr h) = (of_gt order x y h).0

  is_outside_iff : (lo hi x : F) → (is_outside lo hi x ≡ false) ↔ IsWithin lo hi x
  unfolding is_outside
  is_outside_iff lo hi x = (
    λ h. (le_of_not_lt x lo (ground arith), le_of_not_lt hi x (ground arith)),
    λ h. ground (arith, not_lt_of_le x lo h.0, not_lt_of_le hi x h.1),
  )

  -- A request passes exactly if both ends lie in the bounding box, borders included, it has 1 to 6
  -- passengers, and its datetime is not empty.
  validate-IsValid :
      (req : PredictionRequest F) → (validate_prediction_request req ≡ none) ↔ IsValid req
  unfolding validate_prediction_request
  validate-IsValid req =
      let (forth, back) =
        switch_none (is_outside nyc_lat_min nyc_lat_max req.pickup_latitude)
          (is_outside nyc_lon_min nyc_lon_max req.pickup_longitude)
          (is_outside nyc_lat_min nyc_lat_max req.dropoff_latitude)
          (is_outside nyc_lon_min nyc_lon_max req.dropoff_longitude)
          (ltb_ℤ req.passenger_count (pos 1) || ltb_ℤ (pos 6) req.passenger_count)
          (bytes_eq req.pickup_datetime []) _ _ _ _ _ _ in
      (
        λ h.
            let (a, b, c, d, e, f) = forth h in
            record {
              pickup = ((is_outside_iff _ _ _).0 a, (is_outside_iff _ _ _).0 b);
              dropoff = ((is_outside_iff _ _ _).0 c, (is_outside_iff _ _ _).0 d);
              passengers = (passengers_iff req.passenger_count).0 e;
              datetime = λ q. cc ((bytes_eq_iff req.pickup_datetime []).1 q);
            },
        λ v. back (
          (is_outside_iff _ _ _).1 v.pickup.0,
          (is_outside_iff _ _ _).1 v.pickup.1,
          (is_outside_iff _ _ _).1 v.dropoff.0,
          (is_outside_iff _ _ _).1 v.dropoff.1,
          (passengers_iff req.passenger_count).1 v.passengers,
          not_empty req.pickup_datetime v.datetime,
        ),
      )
