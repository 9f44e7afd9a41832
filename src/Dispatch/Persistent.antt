-- ===== src/Dispatch/Persistent.antt =====
-- `SeedIfEmpty`, `FindNearestAvailable` and `SetStatus` of
-- backend/internal/dispatch/postgres_repository.go over the statements on the table of drivers.
use nyc_taxi_real_time_eta_p.Common.{
  ℕ, Bool, true, false, List, [], ◌∷◌, Option, none, some, ltb, ◌==◌, if◌then◌else◌,
}
use nyc_taxi_real_time_eta_p.Common.Bytes.{Bytes}
use nyc_taxi_real_time_eta_p.Common.Order.{LinearOrder}
use nyc_taxi_real_time_eta_p.Dispatch.Driver
use nyc_taxi_real_time_eta_p.Dispatch.Driver.{Driver, Status, seeded, find_nearest_available}

-- The statements on an open transaction give whether they succeeded.
pub record DriverDb (F : Type 0) : Type 1 where
  pub Db : Type 0
  pub Tx : Type 0
  pub begin : Db → Option Tx
  pub lock : Tx → Bool × Tx
  pub count_drivers : Tx → Option ℕ × Tx
  pub insert_driver : Driver F → Tx → Bool × Tx
  -- The INSERT of placeholders for the drivers that only trips name.
  pub preserve_references : Tx → Bool × Tx
  pub commit : Db → Tx → Option Db
  -- The SELECT of all drivers with its Scan, and the UPDATE of a status: the rows affected.
  pub select_drivers : Db → Option (List (Driver F))
  pub update_driver_status : Bytes → Status → Db → Option ℕ × Db

-- What `FindNearestAvailable` and `SetStatus` return beside a value.
pub data Error : Type 0 where
  no_available_drivers failed : Error
  not_found : Bytes → Error

pub data Result {ℓ} (A : Type ℓ) : Type ℓ where
  ok : A → Result A
  err : Error → Result A

module _ {F : Type 0} (db : DriverDb F) where
  open db use {
    Db, Tx, begin, lock, count_drivers, insert_driver, preserve_references, commit, select_drivers,
    update_driver_status,
  }

  -- The end of `SeedIfEmpty`: without a commit the deferred rollback leaves the database as it was.
  unfoldable pub try_commit : Db → Tx → Db × Bool
  try_commit s tx = elim (commit s tx) [ none ↦ (s, false) | some s' ↦ (s', true) ]

  -- The loop over the positions, each with the ID that `idgen.NewID` returns for it if it is asked.
  unfoldable pub insert_all : List (Bytes × Driver F) → Tx → Bool × Tx
  insert_all [] tx = (true, tx)
  insert_all ((fresh, d) ∷ ps) tx =
      let (done, tx') = insert_driver (seeded fresh d) tx in
      elim done [ true ↦ insert_all ps tx' | false ↦ (false, tx') ]

  -- `SeedIfEmpty` behind each of its statements.
  unfoldable pub seed_preserved : Db → Bool × Tx → Db × Bool
  unfolding try_commit
  seed_preserved s (true, tx) = try_commit s tx
  seed_preserved s (false, tx) = (s, false)

  unfoldable pub seed_inserted : Db → Bool × Tx → Db × Bool
  unfolding seed_preserved
  seed_inserted s (true, tx) = seed_preserved s (preserve_references tx)
  seed_inserted s (false, tx) = (s, false)

  unfoldable pub seed_counted : Db → List (Bytes × Driver F) → Option ℕ × Tx → Db × Bool
  unfolding seed_inserted insert_all try_commit
  seed_counted s ps (none, tx) = (s, false)
  seed_counted s ps (some n, tx) =
      if ltb 0 n then try_commit s tx else seed_inserted s (insert_all ps tx)

  unfoldable pub seed_locked : Db → List (Bytes × Driver F) → Bool × Tx → Db × Bool
  unfolding seed_counted
  seed_locked s ps (true, tx) = seed_counted s ps (count_drivers tx)
  seed_locked s ps (false, tx) = (s, false)

  unfoldable pub seed_if_empty : List (Bytes × Driver F) → Db → Db × Bool
  unfolding seed_locked
  seed_if_empty ps s = elim (begin s) [ none ↦ (s, false) | some tx ↦ seed_locked s ps (lock tx) ]

  unfoldable pub find_nearest_stored : LinearOrder F → (Driver F → F) → Db → Result (Driver F × F)
  find_nearest_stored o dist s = elim (select_drivers s) [
    | none ↦ err failed
    | some ds ↦ elim (find_nearest_available o dist ds) [
      | Driver.ok x ↦ ok x
      | Driver.err e ↦ err no_available_drivers
    ]
  ]

  unfoldable pub set_status_stored : Bytes → Status → Db → Db × Result (Unit {0})
  set_status_stored i status s =
      let (rows, s') = update_driver_status i status s in
      elim rows [
        | none ↦ (s', err failed)
        | some n ↦ if n == 0 then (s', err (not_found i)) else (s', ok tt)
      ]
