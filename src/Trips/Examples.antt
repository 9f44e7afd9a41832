-- ===== src/Trips/Examples.antt =====
-- backend/internal/repositories/trip_repository.go on a concrete repository.
use nyc_taxi_real_time_eta_p.Common.{
  ℕ, ◌+◌, ◌-◌, ◌^◌, ◌≤◌, ◌<◌, ◌≡◌, refl, List, [], ◌∷◌, ◌++◌, reverse, none, some, arith, ◌==◌,
  if◌then◌else◌, length, get_elem?, take, drop,
}
use nyc_taxi_real_time_eta_p.Common.Bytes.{Bytes, codes, bytes_eq}
use nyc_taxi_real_time_eta_p.Common.Int.{ℤ, pos, negsuc}
use nyc_taxi_real_time_eta_p.Models.{Trip, trip_pending, trip_completed}
use nyc_taxi_real_time_eta_p.Trips.Memory.{
  Repository, Outcome, ok, panics, find, named, create, get_by_id, page, list, update_status,
  update_dispatch, active_count,
}
use nyc_taxi_real_time_eta_p.Trips.Records.{IsSound}

abbrev trip : Bytes → Bytes → Trip ℕ
trip i s = record {
  id = i;
  pickup_lat = 1;
  pickup_lng = 2;
  dropoff_lat = 3;
  dropoff_lng = 4;
  passenger_count = pos 1;
  requested_at = 0;
  predicted_duration_sec = none;
  actual_duration_sec = none;
  status = s;
  driver_id = none;
  created_at = 0;
}

-- Two stored trips and one object that is not stored.
abbrev two : Repository ℕ
two = record {
  heap =
      trip (codes "a") trip_pending ∷ trip (codes "b") trip_completed ∷ trip [] trip_pending ∷ [];
  trips = (codes "a", 0) ∷ (codes "b", 1) ∷ [];
  order = codes "a" ∷ codes "b" ∷ [];
}

two-IsSound : IsSound two
unfolding find bytes_eq
two-IsSound = record {
  ordered = refl;
  keyed = (refl, (refl, tt));
  valid = (omega arith, (omega arith, tt));
}

-- The newest trip comes first.
both_listed : list [] (pos 0) (pos 0) two ≡ ok (1 ∷ 0 ∷ [])
unfolding list nyc_taxi_real_time_eta_p.Trips.Memory.collect
    nyc_taxi_real_time_eta_p.Trips.Memory.deref bytes_eq page
    nyc_taxi_real_time_eta_p.Common.Int.add_int
both_listed = refl
