-- ===== src/Trips/Stored.antt =====
-- A list of rows as the database of backend/internal/repositories/postgres_trip_repository.go.
use nyc_taxi_real_time_eta_p.Common.{
  ℕ, ◌*◌, ◌/◌, ◌≡◌, refl, List, [], ◌∷◌, Option, none, some, take, drop,
}
use nyc_taxi_real_time_eta_p.Common.Bytes.{Bytes, codes}
use nyc_taxi_real_time_eta_p.Common.Int.{ℤ, pos, negsuc}
use nyc_taxi_real_time_eta_p.Models.{Trip, trip_completed}
use nyc_taxi_real_time_eta_p.Trips.Postgres.{Selected, row, no_rows, TripDb}
use nyc_taxi_real_time_eta_p.Trips.Table.{
  Op, creates, lists, sets_status, counts, row_of, insert_row, update_rows, matching, with_status,
  active_rows, DoesAll,
}
use nyc_taxi_real_time_eta_p.Trips.Refining.{TripDbLaws, calls, calls-refine}

abbrev pub Rows : Type 0
Rows = List (Trip ℕ)

-- Nanoseconds, as microseconds keep them.
abbrev pub to_micros : ℕ → ℕ
to_micros n = n / 1000 * 1000

abbrev pub kept : Trip ℕ → Trip ℕ
kept t = record t { requested_at = to_micros t.requested_at; created_at = to_micros t.created_at }

abbrev pub insert_unless : Trip ℕ → Rows → Option (Trip ℕ) → Option (Trip ℕ) × Rows
insert_unless t s none = (some (kept t), insert_row (kept t) s)
insert_unless t s (some u) = (none, s)

abbrev pub selection : Option (Trip ℕ) → Selected ℕ
selection none = no_rows
selection (some t) = row t

-- A negative LIMIT or OFFSET is an error.
abbrev pub paging : Bytes → ℤ → ℤ → Rows → Option Rows
paging status (pos limit) (pos offset) s = some (take limit (drop offset (with_status status s)))
paging status (pos limit) (negsuc k) s = none
paging status (negsuc k) offset s = none

abbrev pub stored : TripDb ℕ
stored = record {
  Db = Rows;
  insert = λ t s. insert_unless t s (row_of t.id s);
  select_by_id = λ i s. selection (row_of i s);
  select_page = paging;
  update_status_of =
      λ i status s. (some (matching i s), update_rows i (λ t. record t { status = status }) s);
  update_dispatch_of = λ i d status s.
      (some (matching i s), update_rows i (λ t. record t { driver_id = d; status = status }) s);
  count_active_rows = λ s. some (active_rows s);
}

pub insert_unless-some :
    (t u : Trip ℕ) (s : Rows) (o : Option (Trip ℕ))
    → row_of t.id s ≡ o
    → (insert_unless t s o).0 ≡ some u
    → (u ≡ kept t) × (row_of t.id s ≡ none) × ((insert_unless t s o).1 ≡ insert_row u s)
insert_unless-some t u s none e h = (cc, e, cc)
insert_unless-some t u s (some v) e h = cc

pub insert_unless-none :
    (t : Trip ℕ) (s : Rows) (o : Option (Trip ℕ))
    → (insert_unless t s o).0 ≡ none
    → (insert_unless t s o).1 ≡ s
insert_unless-none t s none h = cc
insert_unless-none t s (some v) h = refl

pub selection-row : (t : Trip ℕ) (o : Option (Trip ℕ)) → selection o ≡ row t → o ≡ some t
selection-row t none h = cc
selection-row t (some u) h = cc

pub selection-no_rows : (o : Option (Trip ℕ)) → selection o ≡ no_rows → o ≡ none
selection-no_rows none h = refl
selection-no_rows (some u) h = cc

unfoldable pub stored_laws : TripDbLaws stored
stored_laws = record {
  rows = λ s. s;
  rounded = to_micros;
  inserted = λ t u s h. insert_unless-some t u s (row_of t.id s) refl h;
  insert_failed = λ t s h. insert_unless-none t s (row_of t.id s) h;
  selected = λ i t s h. selection-row t (row_of i s) h;
  selected_none = λ i s h. selection-no_rows (row_of i s) h;
  paged = λ status limit offset ts s h. cc;
  status_updated = λ i status n s h. (cc, refl);
  status_failed = λ i status s h. cc;
  dispatch_updated = λ i d status n s h. (cc, refl);
  dispatch_failed = λ i d status s h. cc;
  counted = λ n s h. cc;
}

ride : Trip ℕ
ride = record {
  id = [];
  pickup_lat = 1;
  pickup_lng = 2;
  dropoff_lat = 3;
  dropoff_lng = 4;
  passenger_count = pos 1;
  requested_at = 0;
  predicted_duration_sec = none;
  actual_duration_sec = none;
  status = [];
  driver_id = none;
  created_at = 0;
}

abbrev session : List (Op ℕ)
session =
    creates (codes "a") 10000 11500 ride
    ∷ creates (codes "b") 20000 21999 ride
    ∷ sets_status (codes "a") trip_completed
    ∷ sets_status (codes "c") trip_completed
    ∷ lists [] (pos 1) (negsuc 0)
    ∷ counts
    ∷ []

calls-refine_example :
    DoesAll to_micros [] session (calls stored session []).0 (calls stored session []).1
unfolding stored_laws
calls-refine_example = calls-refine stored stored_laws session []
