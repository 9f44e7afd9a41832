-- ===== src/Dispatch/Examples.antt =====
-- backend/internal/dispatch/driver.go on a concrete fleet, with whole numbers for the distances.
use mathlib.Core.List.{Memᴰ}
use nyc_taxi_real_time_eta_p.Common.{
  ℕ, ◌≡◌, ◌≢◌, ◌↔◌, ◌++◌, length, refl, sym, ap, ◌∙◌, ◌⊎◌, inl, inr, List, [], ◌∷◌, Option, none,
  some, true, false, arith, if◌then◌else◌,
}
use nyc_taxi_real_time_eta_p.Common.Bytes.{Bytes, codes, bytes_eq, bytes_eq_iff}
use nyc_taxi_real_time_eta_p.Geo.Examples.{whole_order}
use nyc_taxi_real_time_eta_p.Dispatch.Driver.{
  Driver, Fleet, Error, ok, err, not_found, available, busy, offline, no_available_drivers,
  is_available, find, put, assign_status, seeded, seed, set_status, find_nearest_available,
}
use nyc_taxi_real_time_eta_p.Dispatch.Persistent.{DriverDb, seed_if_empty}
use nyc_taxi_real_time_eta_p.Dispatch.Seeding.{DriversInTx, IsSeeded, seed_if_empty-IsSeeded}
use nyc_taxi_real_time_eta_p.Dispatch.Assign.{Postgres, no_rows, claimed, failure, assign_trip}
use nyc_taxi_real_time_eta_p.Dispatch.Assigning.{Assigns, assign_trip-Assigns}
use nyc_taxi_real_time_eta_p.Dispatch.Nearest.{
  IsNearest, HasDistinctIds, find_nearest_available-IsNearest, find_nearest_available-any_order,
}

abbrev ann : Driver ℕ
ann = record { id = codes "ann"; latitude = 3; longitude = 0; status = available }

abbrev bob : Driver ℕ
bob = record { id = codes "bob"; latitude = 1; longitude = 0; status = busy }

abbrev cat : Driver ℕ
cat = record { id = codes "cat"; latitude = 3; longitude = 4; status = available }

abbrev fleet : Fleet ℕ
fleet = cat ∷ bob ∷ ann ∷ []

abbrev away : Driver ℕ → ℕ
away d = d.latitude

-- A tie goes to the smaller ID, and the busy driver is passed over.
nearest_of_fleet : find_nearest_available whole_order away fleet ≡ ok (ann, 3)
unfolding find_nearest_available nyc_taxi_real_time_eta_p.Dispatch.Driver.scan
    nyc_taxi_real_time_eta_p.Dispatch.Driver.visit is_available bytes_eq
    nyc_taxi_real_time_eta_p.Dispatch.Driver.is_closer
    nyc_taxi_real_time_eta_p.Common.Bytes.bytes_lt
nearest_of_fleet = refl

find_nearest_available-IsNearest_example :
    ((d : Driver ℕ) × (y : ℕ) × (find_nearest_available whole_order away fleet ≡ ok (d, y))
      × (y ≡ away d)
      × IsNearest whole_order away fleet d)
    ⊎ ((find_nearest_available whole_order away fleet ≡ err no_available_drivers)
        × ((e : Driver ℕ) → Memᴰ e fleet → is_available e ≡ false))
find_nearest_available-IsNearest_example = find_nearest_available-IsNearest whole_order away fleet

swap : (d a b : Driver ℕ) → Memᴰ d (a ∷ b ∷ []) → Memᴰ d (b ∷ a ∷ [])
swap d a b (Memᴰ.head p) = Memᴰ.tail (Memᴰ.head p)
swap d a b (Memᴰ.tail (Memᴰ.head p)) = Memᴰ.head p
swap d a b (Memᴰ.tail (Memᴰ.tail m)) = elim m [ ]

ids_apart : ann.id ≢ cat.id
unfolding bytes_eq
ids_apart e = cc ((bytes_eq_iff ann.id cat.id).1 e)

pair-HasDistinctIds : HasDistinctIds whole_order away (ann ∷ cat ∷ [])
pair-HasDistinctIds d e (Memᴰ.head p) (Memᴰ.head q) same = p ∙ sym q
pair-HasDistinctIds d e (Memᴰ.head p) (Memᴰ.tail (Memᴰ.head q)) same =
    absurd (ids_apart (sym (ap (λ x. x.id) p) ∙ same ∙ ap (λ x. x.id) q))
pair-HasDistinctIds d e (Memᴰ.tail (Memᴰ.head p)) (Memᴰ.head q) same =
    absurd (ids_apart (sym (ap (λ x. x.id) q) ∙ sym same ∙ ap (λ x. x.id) p))
pair-HasDistinctIds d e (Memᴰ.tail (Memᴰ.head p)) (Memᴰ.tail (Memᴰ.head q)) same = p ∙ sym q
pair-HasDistinctIds d e (Memᴰ.tail (Memᴰ.tail m)) n same = elim m [ ]
pair-HasDistinctIds d e (Memᴰ.head p) (Memᴰ.tail (Memᴰ.tail n)) same = elim n [ ]
pair-HasDistinctIds d e (Memᴰ.tail (Memᴰ.head p)) (Memᴰ.tail (Memᴰ.tail n)) same = elim n [ ]

find_nearest_available-any_order_example :
    find_nearest_available whole_order away (ann ∷ cat ∷ [])
    ≡ find_nearest_available whole_order away (cat ∷ ann ∷ [])
find_nearest_available-any_order_example =
    find_nearest_available-any_order whole_order away (ann ∷ cat ∷ []) (cat ∷ ann ∷ [])
      pair-HasDistinctIds (λ d. (swap d ann cat, swap d cat ann))

-- A database that is the list of its available drivers and the driver of one trip, if it has one; a
-- statement that fails is left out.
abbrev table : Postgres ℕ
table = record {
  Db = Fleet ℕ × Option Bytes;
  Tx = Fleet ℕ × Option Bytes;
  begin = λ db. some db;
  select_available = λ tx. (some tx.0, tx);
  claim_driver = λ i tx. elim (find i tx.0) [
    | none ↦ (no_rows, tx)
    | some d ↦ (claimed d, (assign_status i busy tx.0, tx.1))
  ];
  update_trip = λ t i tx. (some 1, (tx.0, some i));
  commit = λ db tx. some tx;
}

assign_trip-Assigns_example :
    (assign_trip table whole_order away (ann ∷ cat ∷ [], none) (codes "t")
      ≡ ((ann ∷ cat ∷ [], none), failure))
    ⊎ ((ds : List (Driver ℕ)) × (tx : Fleet ℕ × Option Bytes) × (some (ann ∷ cat ∷ [], none)
          ≡ some tx)
        × (some tx.0 ≡ some ds)
        × Assigns table whole_order away
            (ann ∷ cat ∷ [], none)
            (codes "t")
            ds
            (assign_trip table whole_order away (ann ∷ cat ∷ [], none) (codes "t")))
assign_trip-Assigns_example =
    assign_trip-Assigns table whole_order away (ann ∷ cat ∷ [], none) (codes "t")

-- A database that is the list of its drivers, where no statement fails and one trip names an old driver.
abbrev pub fleet_db : DriverDb ℕ
fleet_db = record {
  Db = Fleet ℕ;
  Tx = Fleet ℕ;
  begin = λ s. some s;
  lock = λ tx. (true, tx);
  count_drivers = λ tx. (some (length tx), tx);
  insert_driver = λ d tx. (true, tx ++ (d ∷ []));
  preserve_references =
      λ tx. (true, tx ++ (record ann { id = codes "old"; status = offline } ∷ []));
  commit = λ s tx. some tx;
  select_drivers = λ s. some s;
  update_driver_status = λ i status s. (some 1, assign_status i status s);
}

unfoldable pub fleet_db_laws : DriversInTx fleet_db
fleet_db_laws = record {
  drivers = λ s. s;
  seen = λ tx. tx;
  begun = λ s tx h. cc;
  locked = λ tx. refl;
  counted = λ n tx h. cc;
  count_reads = λ tx. refl;
  inserted = λ d tx h. refl;
  preserved = λ tx h. (record ann { id = codes "old"; status = offline } ∷ [], refl, (refl, tt));
  committed = λ s s' tx h. cc;
}

seed_if_empty-IsSeeded_example :
    IsSeeded fleet_db fleet_db_laws
      ((codes "f", record bob { id = [] }) ∷ [])
      []
      (seed_if_empty fleet_db ((codes "f", record bob { id = [] }) ∷ []) [])
seed_if_empty-IsSeeded_example =
    seed_if_empty-IsSeeded fleet_db fleet_db_laws ((codes "f", record bob { id = [] }) ∷ []) []
