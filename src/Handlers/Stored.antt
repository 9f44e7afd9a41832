-- ===== src/Handlers/Stored.antt =====
-- `CreateTrip` of backend/internal/handlers/handlers.go over lists of rows in place of PostgreSQL, with
-- one driver.
use nyc_taxi_real_time_eta_p.Common.{ℕ, refl, [], ◌∷◌, some}
use nyc_taxi_real_time_eta_p.Common.Bytes.{codes}
use nyc_taxi_real_time_eta_p.Common.Int.{pos}
use nyc_taxi_real_time_eta_p.Geo.Examples.{whole}
use nyc_taxi_real_time_eta_p.Models.{CreateTripRequest}
use nyc_taxi_real_time_eta_p.Dispatch.Driver.{Driver, available}
use nyc_taxi_real_time_eta_p.Dispatch.Assign.{Postgres, claimed}
use nyc_taxi_real_time_eta_p.Dispatch.Assigner.{
  TripAssigner, AssignerLaw, TripsInTx, pending, give_pending, assigner, assigner-AssignerLaw,
}
use nyc_taxi_real_time_eta_p.Trips.Table.{update_rows}
use nyc_taxi_real_time_eta_p.Trips.Stored.{Rows, stored, stored_laws}
use nyc_taxi_real_time_eta_p.Handlers.Persistent.{
  Server, stored_trip, IsStored, create_trip_persistent, create_trip_persistent-IsStored,
}

abbrev only : Driver ℕ
only = record { id = codes "d"; latitude = 0; longitude = 0; status = available }

abbrev one_driver : Postgres ℕ
one_driver = record {
  Db = Rows;
  Tx = Rows;
  begin = λ s. some s;
  select_available = λ tx. (some (only ∷ []), tx);
  claim_driver = λ i tx. (claimed only, tx);
  update_trip = λ i d tx. (some (pending i tx), update_rows i (give_pending d) tx);
  commit = λ s tx. some tx;
}

unfoldable one_driver_laws : TripsInTx one_driver
one_driver_laws = record {
  rows = λ s. s;
  seen = λ tx. tx;
  begun = λ s tx h. cc;
  selected = λ tx. refl;
  claimed_one = λ i tx. refl;
  updated = λ i d n tx h. (cc, refl);
  committed = λ s s' tx h. cc;
}

abbrev flat : ℕ → ℕ → Driver ℕ → ℕ
flat lat lon d = 0

abbrev assigning : TripAssigner ℕ Rows
assigning = assigner one_driver whole.order flat one_driver_laws

assigner-AssignerLaw_example : AssignerLaw (λ s. s) assigning
unfolding one_driver_laws
assigner-AssignerLaw_example = assigner-AssignerLaw one_driver whole.order flat one_driver_laws

abbrev request : CreateTripRequest ℕ
request = record {
  pickup_lat = 1;
  pickup_lng = 2;
  dropoff_lat = 3;
  dropoff_lng = 4;
  passenger_count = pos 1;
}

abbrev server : Server whole stored assigning
server = record { store = []; sent = [] }

create_trip_persistent-IsStored_example :
    IsStored whole stored assigning stored_laws
      (stored_trip whole stored assigning stored_laws (codes "t") 10500 11000 request)
      server
      (create_trip_persistent whole stored assigning (codes "t") 10500 11000 (some request) server)
unfolding stored_laws one_driver_laws assigner
create_trip_persistent-IsStored_example =
    create_trip_persistent-IsStored whole stored assigning stored_laws (codes "t") 10500 11000
      request server (assigner-AssignerLaw one_driver whole.order flat one_driver_laws)
