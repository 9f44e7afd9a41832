-- ===== src/Simulator/Examples.antt =====
-- backend/simulator/cmd/simulator/simulator_main.go on a small file, whose times and coordinates are
-- written as numbers.
use nyc_taxi_real_time_eta_p.Common.{ℕ, ◌≡◌, refl, List, [], ◌∷◌, map, Option, none, some, arith}
use nyc_taxi_real_time_eta_p.Common.Bytes.{Bytes, codes, bytes_eq}
use nyc_taxi_real_time_eta_p.Common.Int.{pos, negsuc}
use nyc_taxi_real_time_eta_p.Common.Sorting.{sort_by}
use nyc_taxi_real_time_eta_p.Redis.Decimal.{atoi}
use nyc_taxi_real_time_eta_p.Simulator.{TripRow, column_index, parse_row, ok, read_rows, load_rows}
use nyc_taxi_real_time_eta_p.Simulator.Loading.{rows_of, IsSlice, load_rows-IsSlice}

abbrev number : Bytes → Option ℕ
number s = elim (atoi s) [ none ↦ none | some z ↦ elim z [ pos n ↦ some n | negsuc n ↦ none ] ]

abbrev header : List Bytes
header =
    codes "id"
    ∷ codes "pickup_datetime"
    ∷ codes "passenger_count"
    ∷ codes "pickup_longitude"
    ∷ codes "pickup_latitude"
    ∷ codes "dropoff_longitude"
    ∷ codes "dropoff_latitude"
    ∷ []

abbrev line : Bytes → Bytes → List Bytes
line name time = name ∷ time ∷ codes "1" ∷ codes "2" ∷ codes "3" ∷ codes "4" ∷ codes "5" ∷ []

-- The second record has no time.
abbrev records : List (List Bytes)
records =
    line (codes "b") (codes "20")
    ∷ line (codes "x") (codes "soon")
    ∷ line (codes "a") (codes "10")
    ∷ line (codes "c") (codes "30")
    ∷ []

abbrev trip : Bytes → ℕ → TripRow ℕ
trip name time = record {
  id = name;
  pickup_datetime = time;
  passenger_count = pos 1;
  pickup_lat = 3;
  pickup_lng = 2;
  dropoff_lat = 5;
  dropoff_lng = 4;
}

first_two :
    load_rows number number (some (some header ∷ map some records)) (pos 2)
    ≡ ok (trip (codes "a") 10 ∷ trip (codes "b") 20 ∷ [])
unfolding load_rows read_rows parse_row column_index sort_by atoi bytes_eq
first_two = refl

load_rows-IsSlice_example :
    (rows : List (TripRow ℕ)) × (load_rows number number
        (some (some header ∷ map some records))
        (pos 2)
      ≡ ok rows)
    × IsSlice number number (rows_of number number (column_index header) records) (pos 2) rows
load_rows-IsSlice_example =
    load_rows-IsSlice number number header records (pos 2) (omega arith)
      (refl, (refl, (refl, (refl, tt))))
