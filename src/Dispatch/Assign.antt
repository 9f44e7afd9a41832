-- ===== src/Dispatch/Assign.antt =====
-- `AssignTrip` of backend/internal/dispatch/postgres_repository.go. PostgreSQL and its driver are
-- parameters: the statements of a transaction on its state, and what a commit makes of the database.
use nyc_taxi_real_time_eta_p.Common.{
  ℕ, Bool, List, [], ◌∷◌, Option, none, some, if◌then◌else◌, ◌==◌,
}
use nyc_taxi_real_time_eta_p.Common.Bytes.{Bytes, bytes_lt}
use nyc_taxi_real_time_eta_p.Common.Order.{LinearOrder}
use nyc_taxi_real_time_eta_p.Dispatch.Driver.{Driver}

-- The conditional UPDATE of a driver: the row that it returns, no row, or an error.
pub data Claim (F : Type 0) : Type 0 where
  claimed : Driver F → Claim F
  no_rows failed : Claim F

pub record Postgres (F : Type 0) : Type 1 where
  pub Db : Type 0
  pub Tx : Type 0
  pub begin : Db → Option Tx
  -- The SELECT of the available drivers, none on an error of the query or of its rows.
  pub select_available : Tx → Option (List (Driver F)) × Tx
  pub claim_driver : Bytes → Tx → Claim F × Tx
  -- The UPDATE of the trip of an ID, if it is pending, to a driver: the rows affected.
  pub update_trip : Bytes → Bytes → Tx → Option ℕ × Tx
  pub commit : Db → Tx → Option Db

pub record RankedDriver (F : Type 0) : Type 0 where
  pub driver : Driver F
  pub distance : F

-- `no_drivers` is `ErrNoAvailableDrivers`, `failure` any other error.
pub data Assignment (F : Type 0) : Type 0 where
  assigned : Driver F → F → Assignment F
  no_drivers failure : Assignment F

module _ {F : Type 0} (pg : Postgres F) (o : LinearOrder F) (dist : Driver F → F) where
  open pg use {Db, Tx, begin, select_available, claim_driver, update_trip, commit}

  unfoldable pub rank : List (Driver F) → List (RankedDriver F)
  rank [] = []
  rank (d ∷ ds) = record { driver = d; distance = dist d } ∷ rank ds

  -- The order of `sort.Slice`.
  unfoldable pub is_before : RankedDriver F → RankedDriver F → Bool
  is_before a b =
      if o.eq a.distance b.distance
      then bytes_lt a.driver.id b.driver.id
      else o.lt a.distance b.distance

  unfoldable pub insert_ranked : RankedDriver F → List (RankedDriver F) → List (RankedDriver F)
  unfolding is_before
  insert_ranked c [] = c ∷ []
  insert_ranked c (b ∷ bs) = if is_before b c then b ∷ insert_ranked c bs else c ∷ b ∷ bs

  unfoldable pub sort_ranked : List (RankedDriver F) → List (RankedDriver F)
  unfolding insert_ranked
  sort_ranked [] = []
  sort_ranked (c ∷ cs) = insert_ranked c (sort_ranked cs)

  -- What follows a claim: the trip, the commit. Without a commit the deferred rollback leaves the
  -- database as it was.
  unfoldable pub finish : Db → Bytes → Driver F → F → Tx → Db × Assignment F
  finish db trip_id chosen y tx =
      let (rows, tx') = update_trip trip_id chosen.id tx in
      elim rows [
        | none ↦ (db, failure)
        | some n ↦
            if n == 0
            then (db, failure)
            else elim (commit db tx') [ none ↦ (db, failure) | some db' ↦ (db', assigned chosen y) ]
      ]

  -- The loop over the candidates.
  unfoldable pub try_candidates : Db → Bytes → List (RankedDriver F) → Tx → Db × Assignment F
  unfolding finish
  try_candidates db trip_id [] tx = (db, no_drivers)
  try_candidates db trip_id (c ∷ cs) tx =
      let (claim, tx') = claim_driver c.driver.id tx in
      elim claim [
        -- Another request claimed this driver after the SELECT.
        | no_rows ↦ try_candidates db trip_id cs tx'
        | failed ↦ (db, failure)
        | claimed chosen ↦ finish db trip_id chosen c.distance tx'
      ]

  unfoldable pub assign_in : Db → Bytes → Option (List (Driver F)) × Tx → Db × Assignment F
  unfolding try_candidates sort_ranked rank
  assign_in db trip_id (none, tx) = (db, failure)
  assign_in db trip_id (some [], tx) = (db, no_drivers)
  assign_in db trip_id (some (d ∷ ds), tx) =
      try_candidates db trip_id (sort_ranked (rank (d ∷ ds))) tx

  unfoldable pub assign_trip : Db → Bytes → Db × Assignment F
  unfolding assign_in
  assign_trip db trip_id = elim (begin db) [
    | none ↦ (db, failure)
    | some tx ↦ assign_in db trip_id (select_available tx)
  ]
