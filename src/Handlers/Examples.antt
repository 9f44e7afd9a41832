-- ===== src/Handlers/Examples.antt =====
-- backend/internal/handlers/handlers.go at concrete requests.
use nyc_taxi_real_time_eta_p.Common.{
  ◌<◌, take, ◌+◌, ◌%◌, ◌^◌, ◌⊎◌, ◌↔◌, true, false, ℕ, ◌≡◌, refl, List, [], ◌∷◌, Option, none, some,
  arith,
}
use nyc_taxi_real_time_eta_p.Common.Bytes.{Bytes, codes}
use nyc_taxi_real_time_eta_p.Common.Int.{pos, negsuc}
use nyc_taxi_real_time_eta_p.Geo.Examples.{whole}
use nyc_taxi_real_time_eta_p.Models.{CreateTripRequest, PredictionRequest, trip_dispatched}
use nyc_taxi_real_time_eta_p.Geo.{Float}
use nyc_taxi_real_time_eta_p.Cache
use nyc_taxi_real_time_eta_p.Cache.{key}
use nyc_taxi_real_time_eta_p.Cache.Examples.{plain, table, plain_laws, ride, answer}
use nyc_taxi_real_time_eta_p.Handlers.Queries
use nyc_taxi_real_time_eta_p.Handlers.Queries.{parse_int_default, list_trips, list_trips-select}
use nyc_taxi_real_time_eta_p.Handlers.Validation.{validate_prediction_request}
use nyc_taxi_real_time_eta_p.Handlers.Predict.{Server, predicted, refused, gone, ok, predict}
use nyc_taxi_real_time_eta_p.Common.Sorting.{count}
use nyc_taxi_real_time_eta_p.Workers.Pool.{Stats}
use nyc_taxi_real_time_eta_p.Handlers.Status.{system_status, Call, predicts, is_valid, is_hit}
use nyc_taxi_real_time_eta_p.Handlers.Reporting.{system_status-counts}
use nyc_taxi_real_time_eta_p.Handlers.Predicting.{predict_twice}
use nyc_taxi_real_time_eta_p.Dispatch.Driver
use nyc_taxi_real_time_eta_p.Dispatch.Driver.{Driver, available}
use nyc_taxi_real_time_eta_p.Dispatch.Fleet
use nyc_taxi_real_time_eta_p.Trips.Memory
use nyc_taxi_real_time_eta_p.Trips.Records.{IsSound}
use nyc_taxi_real_time_eta_p.Handlers.CreateTrip.{World, created, new_trip, create_trip}
use nyc_taxi_real_time_eta_p.Handlers.Dispatching.{Creates, requested, create_trip-Creates}
use nyc_taxi_real_time_eta_p.Handlers.Booking.{
  IsBooked, Arrival, IsFresh, handle, handle_all, create_trips-IsBooked,
}

abbrev ann : Driver ℕ
ann = record { id = codes "ann"; latitude = 60; longitude = 0; status = available }

abbrev start : World ℕ
start = record { trips = record { heap = []; trips = []; order = [] }; fleet = ann ∷ []; sent = [] }

abbrev request : CreateTripRequest ℕ
request = record {
  pickup_lat = 60;
  pickup_lng = 60;
  dropoff_lat = 0;
  dropoff_lng = 0;
  passenger_count = pos 2;
}

start-IsSound : IsSound start.trips
start-IsSound = record { ordered = refl; keyed = tt; valid = tt }

start-IsKeyed : Fleet.IsKeyed start.fleet
unfolding Driver.find
start-IsKeyed = (refl, tt)

start_is_new : Memory.find (codes "t1") start.trips.trips ≡ none
unfolding Memory.find
start_is_new = refl

start-IsBooked : IsBooked start.trips start.fleet
start-IsBooked = record { served = λ p t here st. cc; alone = λ p q t u here there st st' same. cc }

-- The only driver gets the trip.
ann_dispatched :
    (create_trip whole (codes "t1") 5 6 (some request) start).0.sent
    ≡ record { trip_id = codes "t1"; status = trip_dispatched } ∷ []
unfolding create_trip Memory.create nyc_taxi_real_time_eta_p.Handlers.CreateTrip.dispatch
    Driver.find_nearest_available Driver.scan Driver.visit Driver.is_available
    nyc_taxi_real_time_eta_p.Common.Bytes.bytes_eq Memory.update_dispatch
ann_dispatched = refl

create_trip-Creates_example :
    Creates whole
      (requested whole (codes "t1") 5 6 request)
      start
      (create_trip whole (codes "t1") 5 6 (some request) start)
create_trip-Creates_example =
    create_trip-Creates whole (codes "t1") 5 6 request start start-IsSound start-IsKeyed
      start_is_new

-- Two requests, the second after the first, which has the only driver.
abbrev call : Bytes → Arrival whole
call fresh = record { fresh = fresh; requested_at = 5; created_at = 6; req = some request }

abbrev two_calls : List (Arrival whole)
two_calls = call (codes "t1") ∷ call (codes "t2") ∷ []

two_calls_are_new : IsFresh whole two_calls start
unfolding handle create_trip Memory.create nyc_taxi_real_time_eta_p.Handlers.CreateTrip.dispatch
    Driver.find_nearest_available Driver.scan Driver.visit Driver.is_available Memory.find
    nyc_taxi_real_time_eta_p.Common.Bytes.bytes_eq Memory.update_dispatch
two_calls_are_new = (refl, (refl, tt))

create_trips-IsBooked_example :
    let w' = handle_all whole two_calls start in
    IsSound w'.trips × Fleet.IsKeyed w'.fleet × IsBooked w'.trips w'.fleet
create_trips-IsBooked_example =
    create_trips-IsBooked whole two_calls start start-IsSound start-IsKeyed start-IsBooked
      two_calls_are_new

-- Two requests at one time: both find the driver before either marks her, and both marks succeed.
abbrev distance : Driver ℕ → ℕ
distance d = 0

booked_twice :
    (Driver.find_nearest_available whole.order distance (ann ∷ []) ≡ Driver.ok (ann, 0))
    × (Driver.set_status (codes "ann") Driver.busy (ann ∷ [])
        ≡ Driver.ok (record ann { status = Driver.busy } ∷ []))
    × (Driver.set_status (codes "ann") Driver.busy (record ann { status = Driver.busy } ∷ [])
        ≡ Driver.ok (record ann { status = Driver.busy } ∷ []))
unfolding Driver.find_nearest_available Driver.scan Driver.visit Driver.is_available
    nyc_taxi_real_time_eta_p.Common.Bytes.bytes_eq Driver.set_status
booked_twice = (refl, refl, refl)

-- Whole numbers in place of float64 whose order puts every place inside the box.
abbrev roomy : Float
roomy = record whole { div = λ a b. 0; sub = λ a b. 0 }

abbrev somewhere : PredictionRequest ℕ
somewhere = record ride { pickup_latitude = 0; dropoff_latitude = 0 }

abbrev again : PredictionRequest ℕ
again = record somewhere { pickup_datetime = 125 ∷ [] }

somewhere_passes : validate_prediction_request roomy somewhere ≡ none
unfolding validate_prediction_request nyc_taxi_real_time_eta_p.Common.Bytes.bytes_eq
somewhere_passes = refl

again_passes : validate_prediction_request roomy again ≡ none
unfolding validate_prediction_request nyc_taxi_real_time_eta_p.Common.Bytes.bytes_eq
again_passes = refl

abbrev idle : Server roomy plain table
idle = record {
  cache_hits = 0;
  cache_misses = 0;
  requests = [];
  prediction_errors = 0;
  store = [];
  sent = [];
}

one_key_again : key plain table again ≡ key plain table somewhere
unfolding key
one_key_again = refl

stored_once : (Cache.set plain table somewhere answer []).0 ≡ true
unfolding Cache.set
stored_once = refl

nothing_cached : Cache.get plain table somewhere [] ≡ none
unfolding Cache.get
nothing_cached = refl

predict_twice_example :
    let (w', first) =
      predict roomy plain table false (codes "j") (some somewhere) (predicted answer) idle in
    (first ≡ ok (record answer { cache_hit = false }))
    × ((predict roomy plain table false (codes "k") (some again) refused w').1
        ≡ ok (record answer { cache_hit = true }))
predict_twice_example =
    predict_twice roomy plain table plain_laws false false (codes "j") (codes "k") somewhere again
      answer refused idle somewhere_passes again_passes one_key_again nothing_cached stored_once

default_limit : parse_int_default [] (pos 20) ≡ pos 20
unfolding parse_int_default
default_limit = refl

default_offset : parse_int_default [] (pos 0) ≡ pos 0
unfolding parse_int_default
default_offset = refl

minus_one : parse_int_default (codes "-1") (pos 0) ≡ negsuc 0
unfolding parse_int_default nyc_taxi_real_time_eta_p.Redis.Decimal.atoi
minus_one = refl

list_trips-select_example : list_trips [] [] [] start.trips ≡ Queries.trips []
unfolding nyc_taxi_real_time_eta_p.Trips.Listing.select
list_trips-select_example =
    list_trips-select [] [] [] 20 0 start.trips start-IsSound default_limit default_offset
      (omega arith)

-- A miss with a prediction, the same again, and a body that does not decode.
abbrev three_calls : List (Call roomy plain table)
three_calls =
    record {
      sync_mode = false;
      fresh = codes "j";
      body = some somewhere;
      outcome = predicted answer;
    }
    ∷ record { sync_mode = false; fresh = codes "k"; body = some again; outcome = gone }
    ∷ record { sync_mode = false; fresh = codes "l"; body = none; outcome = gone }
    ∷ []

abbrev no_load : Stats
no_load = record { queue_length = 0; queue_capacity = 1; busy = 0 }

system_status-counts_example :
    let (w', rs) = predicts roomy plain table three_calls idle in
    let status = system_status roomy plain table no_load w' in
    (status.cache_hits ≡ count (is_hit roomy plain table) rs)
    × (status.cache_hits + status.cache_misses ≡ count (is_valid roomy plain table) rs)
    × (0 < count (is_valid roomy plain table) rs → status.cache_hit_rate ≡ 0)
    × (count (is_valid roomy plain table) rs ≡ 0 → status.cache_hit_rate ≡ 0)
system_status-counts_example =
    system_status-counts roomy plain table three_calls no_load idle refl refl (omega arith)
