-- ===== src/Simulator.antt =====
-- backend/simulator/cmd/simulator/simulator_main.go: the loading of the rows that are replayed. Package
-- csv gives the records of the file; the formats of package time and of floats are parameters.
mod Loading
mod Examples
use nyc_taxi_real_time_eta_p.Common.{
  ℕ, zero, suc, ◌+◌, ◌&&◌, List, [], ◌∷◌, Option, none, some, ltb, if◌then◌else◌, length, take,
  get_elem?,
}
use nyc_taxi_real_time_eta_p.Common.Bytes.{Bytes, codes, bytes_eq}
use nyc_taxi_real_time_eta_p.Common.Int.{ℤ, pos, negsuc}
use nyc_taxi_real_time_eta_p.Common.Sorting.{sort_by}
use nyc_taxi_real_time_eta_p.Redis.Decimal.{atoi}

-- `tripRow`; a time is a number.
pub record TripRow (F : Type 0) : Type 0 where
  pub id : Bytes
  pub pickup_datetime : ℕ
  pub passenger_count : ℤ
  pub pickup_lat : F
  pub pickup_lng : F
  pub dropoff_lat : F
  pub dropoff_lng : F

abbrev pub Columns : Type 0
Columns = List (Bytes × ℕ)

-- `idx[name] = i`.
unfoldable pub assign : Bytes → ℕ → Columns → Columns
assign name i [] = (name, i) ∷ []
assign name i ((n, j) ∷ cols) =
    if bytes_eq n name then (name, i) ∷ cols else (n, j) ∷ assign name i cols

-- `idx[name]`, which is 0 where there is no such column.
unfoldable pub column : Bytes → Columns → ℕ
column name [] = 0
column name ((n, j) ∷ cols) = if bytes_eq n name then j else column name cols

-- The loop of `columnIndex` from the place `i` on.
unfoldable pub column_index_from : ℕ → List Bytes → Columns → Columns
unfolding assign
column_index_from i [] cols = cols
column_index_from i (name ∷ names) cols = column_index_from (suc i) names (assign name i cols)

unfoldable pub column_index : List Bytes → Columns
unfolding column_index_from
column_index header = column_index_from 0 header []

pub data Parsed (F : Type 0) : Type 0 where
  row : TripRow F → Parsed F
  malformed panics : Parsed F

-- One step of `parseRow`: a field that is read and parsed.
unfoldable pub with_field :
    {A F : Type 0} → List Bytes → Columns → Bytes → (Bytes → Option A) → (A → Parsed F) → Parsed F
unfolding column
with_field record_ cols name parse then_ = elim (get_elem? record_ (column name cols)) [
  | none ↦ panics
  | some text ↦ elim (parse text) [ none ↦ malformed | some a ↦ then_ a ]
]

-- The rows of a file, an error of it, or the panic of a record that is too short.
pub data Loaded (F : Type 0) : Type 0 where
  ok : List (TripRow F) → Loaded F
  err stopped : Loaded F

unfoldable pub cons_row : {F : Type 0} → TripRow F → Loaded F → Loaded F
cons_row r (ok rows) = ok (r ∷ rows)
cons_row r err = err
cons_row r stopped = stopped

unfoldable pub keep : {F : Type 0} → Parsed F → Loaded F → Loaded F
unfolding cons_row
keep (row r) rest = cons_row r rest
keep malformed rest = rest
keep panics rest = stopped

module _ {F : Type 0} (parse_time : Bytes → Option ℕ) (parse_float : Bytes → Option F) where
  unfoldable pub parse_row : List Bytes → Columns → Parsed F
  unfolding with_field
  parse_row r cols = with_field r cols (codes "pickup_datetime") parse_time λ time.
      with_field r cols (codes "passenger_count") atoi λ passengers.
        with_field r cols (codes "pickup_longitude") parse_float λ lng.
          with_field r cols (codes "pickup_latitude") parse_float λ lat.
            with_field r cols (codes "dropoff_longitude") parse_float λ lng'.
              with_field r cols (codes "dropoff_latitude") parse_float λ lat'.
                with_field r cols (codes "id") some λ i. row (record {
                  id = i;
                  pickup_datetime = time;
                  passenger_count = passengers;
                  pickup_lat = lat;
                  pickup_lng = lng;
                  dropoff_lat = lat';
                  dropoff_lng = lng';
                })

  -- The loop of `loadRows` over what `Read` gives until the end of the file, none on an error.
  unfoldable pub read_rows : Columns → List (Option (List Bytes)) → Loaded F
  unfolding keep
  read_rows cols [] = ok []
  read_rows cols (none ∷ reads) = err
  read_rows cols (some r ∷ reads) = keep (parse_row r cols) (read_rows cols reads)

  unfoldable pub limited : ℤ → List (TripRow F) → List (TripRow F)
  limited (pos n) rows = if ltb 0 n && ltb n (length rows) then take n rows else rows
  limited (negsuc n) rows = rows

  unfoldable pub sort_loaded : ℤ → Loaded F → Loaded F
  unfolding limited
  sort_loaded limit (ok rows) =
      ok (limited limit (sort_by (λ (r : TripRow F). r.pickup_datetime) rows))
  sort_loaded limit err = err
  sort_loaded limit stopped = stopped

  -- `loadRows`; none is a file that cannot be opened.
  unfoldable pub load_rows : Option (List (Option (List Bytes))) → ℤ → Loaded F
  unfolding sort_loaded column_index
  load_rows none limit = err
  load_rows (some []) limit = err
  load_rows (some (none ∷ reads)) limit = err
  load_rows (some (some header ∷ reads)) limit =
      sort_loaded limit (read_rows (column_index header) reads)
