-- ===== src/Handlers/CreateTrip.antt =====
-- `CreateTrip` of backend/internal/handlers/handlers.go over the in-memory trips and drivers.
use nyc_taxi_real_time_eta_p.Common.{ℕ, List, [], ◌∷◌, ◌++◌, Option, none, some, get_elem?}
use nyc_taxi_real_time_eta_p.Common.Bytes.{Bytes}
use nyc_taxi_real_time_eta_p.Geo.{Float, haversine_km}
use nyc_taxi_real_time_eta_p.Models.{
  Trip, TripStatus, CreateTripRequest, trip_pending, trip_dispatched,
}
use nyc_taxi_real_time_eta_p.Dispatch.Driver
use nyc_taxi_real_time_eta_p.Dispatch.Driver.{
  Fleet, busy, available, find_nearest_available, set_status,
}
use nyc_taxi_real_time_eta_p.Trips.Memory
use nyc_taxi_real_time_eta_p.Trips.Memory.{Repository, alloc, create, update, update_dispatch}

-- The event that goes to the hub.
pub record Event : Type 0 where
  pub trip_id : Bytes
  pub status : TripStatus

pub record World (F : Type 0) : Type 0 where
  pub trips : Repository F
  pub fleet : Fleet F
  pub sent : List Event

-- 400 for a body that is no request, 201 with the trip behind a pointer, 500 for a failed `Create`;
-- `panics` is a run-time panic.
pub data Reply : Type 0 where
  created : ℕ → Reply
  bad_request server_error panics : Reply

module _ (fl : Float) where
  open fl use {F, order}

  abbrev pub distance_from : F → F → Driver.Driver F → F
  distance_from lat lon d = haversine_km fl lat lon d.latitude d.longitude

  unfoldable pub new_trip : ℕ → ℕ → CreateTripRequest F → Trip F
  new_trip requested_at created_at req = record {
    id = [];
    pickup_lat = req.pickup_lat;
    pickup_lng = req.pickup_lng;
    dropoff_lat = req.dropoff_lat;
    dropoff_lng = req.dropoff_lng;
    passenger_count = req.passenger_count;
    requested_at = requested_at;
    predicted_duration_sec = none;
    actual_duration_sec = none;
    status = trip_pending;
    driver_id = none;
    created_at = created_at;
  }

  -- `trip.DriverID = …; trip.Status = …`, through the handler's pointer.
  unfoldable pub mark : ℕ → Option Bytes → TripStatus → Repository F → Repository F
  unfolding update
  mark p d s r = update p (λ t. record t { driver_id = d; status = s }) r

  -- The undoing of an assignment that the trips did not take.
  unfoldable pub undo : ℕ → Bytes → Repository F → Fleet F → Repository F × Fleet F
  unfolding mark set_status
  undo p driver_id r fleet = (
    mark p none trip_pending r,
    elim (set_status driver_id available fleet) [
      | Driver.ok fleet' ↦ fleet'
      | Driver.err e ↦ fleet
    ],
  )

  -- The branch of the in-memory stores, for the trip of ID `i` behind `p`, where no other request runs
  -- between its calls: FindNearestAvailable and SetStatus take the mutex of the drivers apart.
  unfoldable pub dispatch : ℕ → Bytes → F → F → Repository F → Fleet F → Repository F × Fleet F
  unfolding mark undo
  dispatch p i lat lon r fleet = elim (find_nearest_available order (distance_from lat lon) fleet) [
    | Driver.err e ↦ (r, fleet)
    | Driver.ok (d, y) ↦ elim (set_status d.id busy fleet) [
      | Driver.err e ↦ (r, fleet)
      | Driver.ok fleet' ↦
          let marked = mark p (some d.id) trip_dispatched r in
          elim (update_dispatch i (some d.id) trip_dispatched marked) [
            | Memory.ok r' ↦ (r', fleet')
            | Memory.not_found j ↦ undo p d.id marked fleet'
            | Memory.panics ↦ (marked, fleet')
          ]
    ]
  ]

  -- `json.Marshal` of the event, `Broadcast`, and the answer, all through the pointer `p`.
  unfoldable pub announce : ℕ → Repository F × Fleet F → World F → World F × Reply
  announce p (r, fleet) w = elim (get_elem? r.heap p) [
    | none ↦ (w, panics)
    | some t ↦ (
      record {
        trips = r;
        fleet = fleet;
        sent = w.sent ++ (record { trip_id = t.id; status = t.status } ∷ []);
      },
      created p,
    )
  ]

  -- `fresh` is what `idgen.NewID` returns, and the two numbers are the two readings of the clock. The
  -- request is absent if the body does not decode.
  unfoldable pub create_trip :
      Bytes → ℕ → ℕ → Option (CreateTripRequest F) → World F → World F × Reply
  unfolding new_trip alloc announce
  create_trip fresh requested_at created_at none w = (w, bad_request)
  create_trip fresh requested_at created_at (some req) w =
      let (r, p) = alloc (new_trip requested_at created_at req) w.trips in
      elim (create fresh p r) [
        | Memory.not_found j ↦ (w, server_error)
        | Memory.panics ↦ (w, panics)
        | Memory.ok r' ↦ elim (get_elem? r'.heap p) [
          | none ↦ (w, panics)
          | some t ↦ announce p (dispatch p t.id t.pickup_lat t.pickup_lng r' w.fleet) w
        ]
      ]
