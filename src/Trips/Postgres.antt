-- ===== src/Trips/Postgres.antt =====
-- backend/internal/repositories/postgres_trip_repository.go. PostgreSQL and its driver are parameters:
-- the statements on the database, with their errors.
use nyc_taxi_real_time_eta_p.Common.{ℕ, ◌≡◌, List, [], Option, none, some, ◌==◌, if◌then◌else◌}
use nyc_taxi_real_time_eta_p.Common.Bytes.{Bytes, bytes_eq}
use nyc_taxi_real_time_eta_p.Common.Int.{ℤ, pos, ltb_ℤ, leb_ℤ}
use nyc_taxi_real_time_eta_p.Models.{Trip, TripStatus, trip_pending}

-- The row that a SELECT by ID and its Scan give, `pgx.ErrNoRows`, or another error.
pub data Selected (F : Type 0) : Type 0 where
  row : Trip F → Selected F
  no_rows failed : Selected F

pub record TripDb (F : Type 0) : Type 1 where
  pub Db : Type 0
  -- INSERT … RETURNING and its Scan, none on an error.
  pub insert : Trip F → Db → Option (Trip F) × Db
  pub select_by_id : Bytes → Db → Selected F
  -- The SELECT of a page by status, LIMIT and OFFSET, with the Scan of its rows.
  pub select_page : Bytes → ℤ → ℤ → Db → Option (List (Trip F))
  -- The two UPDATEs by ID: the rows affected.
  pub update_status_of : Bytes → TripStatus → Db → Option ℕ × Db
  pub update_dispatch_of : Bytes → Option Bytes → TripStatus → Db → Option ℕ × Db
  pub count_active_rows : Db → Option ℕ

pub data Result {ℓ} (A : Type ℓ) : Type ℓ where
  ok : A → Result A
  not_found : Bytes → Result A
  failed : Result A

-- The fields that `Create` fills in; the time 0 is Go's zero time. `fresh` is what `idgen.NewID`
-- returns if it is asked, and the two numbers are the readings of the clock.
unfoldable pub completed : {F : Type 0} → Bytes → ℕ → ℕ → Trip F → Trip F
completed fresh requested_at created_at t = record t {
  id = if bytes_eq t.id [] then fresh else t.id;
  requested_at = if t.requested_at == 0 then requested_at else t.requested_at;
  created_at = if t.created_at == 0 then created_at else t.created_at;
  status = if bytes_eq t.status [] then trip_pending else t.status;
}

unfoldable pub clamp_limit : ℤ → ℤ
clamp_limit limit =
    let limit' = if leb_ℤ limit (pos 0) then pos 100 else limit in
    if ltb_ℤ (pos 500) limit' then pos 500 else limit'

unfoldable pub clamp_offset : ℤ → ℤ
clamp_offset offset = if ltb_ℤ offset (pos 0) then pos 0 else offset

module _ {F : Type 0} (db : TripDb F) where
  open db use {
    Db, insert, select_by_id, select_page, update_status_of, update_dispatch_of, count_active_rows,
  }

  -- With the database, the trip behind the caller's pointer as `Create` leaves it.
  unfoldable pub create : Bytes → ℕ → ℕ → Trip F → Db → Db × Trip F × Result (Unit {0})
  create fresh requested_at created_at t s =
      let t' = completed fresh requested_at created_at t in
      let (saved, s') = insert t' s in
      elim saved [ none ↦ (s', t', failed) | some u ↦ (s', u, ok tt) ]

  module _ (fresh : Bytes) (a b : ℕ) (t : Trip F) (s : Db) where
    pub create_failed :
        (insert (completed fresh a b t) s).0 ≡ none
        → create fresh a b t s
          ≡ ((insert (completed fresh a b t) s).1, completed fresh a b t, failed)
    unfolding create
    create_failed e = rw (e, create)

    pub create_saved :
        (u : Trip F)
        → (insert (completed fresh a b t) s).0 ≡ some u
        → create fresh a b t s ≡ ((insert (completed fresh a b t) s).1, u, ok tt)
    unfolding create
    create_saved u e = rw (e, create)

  unfoldable pub get_by_id : Bytes → Db → Result (Trip F)
  get_by_id i s = elim (select_by_id i s) [
    | row t ↦ ok t
    | no_rows ↦ not_found i
    | failed ↦ Result.failed
  ]

  unfoldable pub list : Bytes → ℤ → ℤ → Db → Result (List (Trip F))
  unfolding clamp_limit clamp_offset
  list status limit offset s =
      elim (select_page status (clamp_limit limit) (clamp_offset offset) s) [
        | none ↦ Result.failed
        | some ts ↦ ok ts
      ]

  -- What an `Exec` of an UPDATE comes to.
  unfoldable pub affected : Bytes → Option ℕ × Db → Db × Result (Unit {0})
  affected i (none, s) = (s, Result.failed)
  affected i (some n, s) = (s, if n == 0 then not_found i else ok tt)

  unfoldable pub update_status : Bytes → TripStatus → Db → Db × Result (Unit {0})
  unfolding affected
  update_status i status s = affected i (update_status_of i status s)

  unfoldable pub update_dispatch : Bytes → Option Bytes → TripStatus → Db → Db × Result (Unit {0})
  unfolding affected
  update_dispatch i d status s = affected i (update_dispatch_of i d status s)

  unfoldable pub active_count : Db → ℕ
  active_count s = elim (count_active_rows s) [ none ↦ 0 | some n ↦ n ]
