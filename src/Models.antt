-- ===== src/Models.antt =====
-- backend/internal/models/models.go. Times are numbers, `F` stands for float64.
use nyc_taxi_real_time_eta_p.Common.{ℕ, Bool, Option}
use nyc_taxi_real_time_eta_p.Common.Bytes.{Bytes, codes}
use nyc_taxi_real_time_eta_p.Common.Int.{ℤ}

pub record PredictionRequest (F : Type 0) : Type 0 where
  pub pickup_latitude : F
  pub pickup_longitude : F
  pub dropoff_latitude : F
  pub dropoff_longitude : F
  pub passenger_count : ℤ
  pub pickup_datetime : Bytes
  pub vendor_id : ℤ
  pub store_and_fwd_flag : Bytes

pub record PredictionResponse (F : Type 0) : Type 0 where
  pub predicted_duration_seconds : ℤ
  pub predicted_duration_minutes : F
  pub distance_km : F
  pub model_version : Bytes
  pub request_id : Bytes
  pub prediction_timestamp : Bytes
  pub cache_hit : Bool

-- `type TripStatus string`.
abbrev pub TripStatus : Type 0
TripStatus = Bytes

abbrev pub trip_pending : TripStatus
trip_pending = codes "PENDING"

abbrev pub trip_dispatched : TripStatus
trip_dispatched = codes "DISPATCHED"

abbrev pub trip_in_progress : TripStatus
trip_in_progress = codes "IN_PROGRESS"

abbrev pub trip_completed : TripStatus
trip_completed = codes "COMPLETED"

abbrev pub trip_cancelled : TripStatus
trip_cancelled = codes "CANCELLED"

pub record Trip (F : Type 0) : Type 0 where
  pub id : Bytes
  pub pickup_lat : F
  pub pickup_lng : F
  pub dropoff_lat : F
  pub dropoff_lng : F
  pub passenger_count : ℤ
  pub requested_at : ℕ
  pub predicted_duration_sec : Option ℤ
  pub actual_duration_sec : Option ℤ
  pub status : TripStatus
  pub driver_id : Option Bytes
  pub created_at : ℕ

pub record CreateTripRequest (F : Type 0) : Type 0 where
  pub pickup_lat : F
  pub pickup_lng : F
  pub dropoff_lat : F
  pub dropoff_lng : F
  pub passenger_count : ℤ
