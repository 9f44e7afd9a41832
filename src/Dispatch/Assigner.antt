-- ===== src/Dispatch/Assigner.antt =====
-- The interface `TripAssigner` of backend/internal/dispatch/driver.go, and what it promises of the table
-- of trips; `AssignTrip` of backend/internal/dispatch/postgres_repository.go keeps the promise.
use nyc_taxi_real_time_eta_p.Common.{
  ℕ, suc, ◌+◌, ◌<◌, Bool, ◌&&◌, if◌then◌else◌, get_elem?, ◌≡◌, refl, ap, ◌∙◌, ◌⊎◌, inl, inr, List,
  [], ◌∷◌, Option, none, some, arith, ◌==◌, Option-cases, Bool-cases,
}
use nyc_taxi_real_time_eta_p.Common.Bytes.{Bytes, codes, bytes_eq, bytes_eq_sound}
use nyc_taxi_real_time_eta_p.Common.Order.{LinearOrder}
use nyc_taxi_real_time_eta_p.Models.{Trip, trip_dispatched}
use nyc_taxi_real_time_eta_p.Dispatch.Driver.{Driver}
use nyc_taxi_real_time_eta_p.Dispatch.Assign.{
  Claim, claimed, no_rows, failed, Postgres, RankedDriver, Assignment, assigned, no_drivers,
  failure, rank, sort_ranked, finish, try_candidates, assign_in, assign_trip,
}
use nyc_taxi_real_time_eta_p.Trips.Table.{update_rows}

-- The trip's ID and the pickup.
abbrev pub TripAssigner : Type 0 → Type 0 → Type 0
TripAssigner F Db = Bytes → F → F → Db → Db × Assignment F

module _ {F : Type 0} where
  abbrev pub give : Bytes → Trip F → Trip F
  give driver_id t = record t { driver_id = some driver_id; status = trip_dispatched }

  abbrev pub is_pending : Trip F → Bool
  is_pending t = bytes_eq t.status (codes "PENDING")

  -- The UPDATE of a row of the ID, whose condition is also that the status is PENDING.
  abbrev pub give_pending : Bytes → Trip F → Trip F
  give_pending driver_id t = if is_pending t then give driver_id t else t

  -- How many rows have the ID and are pending.
  unfoldable pub pending : Bytes → List (Trip F) → ℕ
  pending i [] = 0
  pending i (t ∷ ts) = (if bytes_eq t.id i && is_pending t then 1 else 0) + pending i ts

  -- One of them.
  abbrev pub HasPending : Bytes → List (Trip F) → Type 0
  HasPending i rows =
      (k : ℕ) × (t : Trip F) × (get_elem? rows k ≡ some t)
      × (t.id ≡ i)
      × (t.status ≡ codes "PENDING")

  pending-HasPending : (i : Bytes) (rows : List (Trip F)) → 0 < pending i rows → HasPending i rows
  unfolding pending
  pending-HasPending i [] h = absurd (omega (arith, h))
  pending-HasPending i (t ∷ ts) h = elim (Bool-cases (bytes_eq t.id i && is_pending t)) [
    | inl e ↦ (
      0,
      t,
      refl,
      bytes_eq_sound t.id i (ground (arith, e)),
      bytes_eq_sound t.status (codes "PENDING") (ground (arith, e)),
    )
    | inr e ↦
        let more = rw e at h in
        let (k, u, here, same, waits) = pending-HasPending i ts (omega (arith, more)) in
        (suc k, u, here, same, waits)
  ]

  -- Where a driver is assigned, a trip of that ID is pending, and just the pending trip of that ID got
  -- the driver; else no trip changed.
  abbrev pub Kept : Bytes → List (Trip F) → List (Trip F) → Assignment F → Type 0
  Kept i rows rows' (assigned d y) =
      HasPending i rows × (rows' ≡ update_rows i (give_pending d.id) rows)
  Kept i rows rows' no_drivers = rows' ≡ rows
  Kept i rows rows' failure = rows' ≡ rows

  abbrev pub AssignerLaw : {Db : Type 0} → (Db → List (Trip F)) → TripAssigner F Db → Type 0
  AssignerLaw {Db} rows assign =
      (i : Bytes) (lat lon : F) (s : Db)
      → Kept i (rows s) (rows (assign i lat lon s).0) (assign i lat lon s).1

-- What PostgreSQL says of the trips that the statements of a transaction see.
pub record TripsInTx {F : Type 0} (pg : Postgres F) : Type 0 where
  pub rows : pg.Db → List (Trip F)
  pub seen : pg.Tx → List (Trip F)
  pub begun : (s : pg.Db) (tx : pg.Tx) → pg.begin s ≡ some tx → seen tx ≡ rows s
  pub selected : (tx : pg.Tx) → seen (pg.select_available tx).1 ≡ seen tx
  pub claimed_one : (i : Bytes) (tx : pg.Tx) → seen (pg.claim_driver i tx).1 ≡ seen tx
  pub updated :
      (i d : Bytes) (n : ℕ) (tx : pg.Tx)
      → (pg.update_trip i d tx).0 ≡ some n
      → (n ≡ pending i (seen tx))
        × (seen (pg.update_trip i d tx).1 ≡ update_rows i (give_pending d) (seen tx))
  pub committed : (s s' : pg.Db) (tx : pg.Tx) → pg.commit s tx ≡ some s' → rows s' ≡ seen tx

module _ {F : Type 0} (pg : Postgres F) (o : LinearOrder F) (dist : F → F → Driver F → F)
    (laws : TripsInTx pg) where
  open pg use {Db, Tx, begin, select_available, claim_driver, update_trip, commit}
  open laws use {rows, seen}

  -- `AssignTrip` as the handler calls it.
  unfoldable pub assigner : TripAssigner F Db
  assigner i lat lon s = assign_trip pg o (dist lat lon) s i

  module _ (lat lon : F) (s : Db) (i : Bytes) where
    abbrev Keeps : Db × Assignment F → Type 0
    Keeps (s', a) = Kept i (rows s) (rows s') a

    finish-Keeps :
        (d : Driver F) (y : F) (tx : Tx)
        → seen tx ≡ rows s
        → Keeps (finish pg o (dist lat lon) s i d y tx)
    unfolding finish
    finish-Keeps d y tx e = elim (Option-cases (update_trip i d.id tx).0) [
      | inl none_ ↦ rw (none_, finish) refl
      | inr (n, some_) ↦ elim (Bool-cases (n == 0)) [
        | inl z ↦ rw (some_, finish) (rw z refl)
        | inr z ↦ elim (Option-cases (commit s (update_trip i d.id tx).1)) [
          | inl c ↦ rw (some_, finish) (rw z (rw c refl))
          | inr (s', c) ↦
              let (m, kept) = laws.updated i d.id n tx some_ in
              let there : HasPending i (rows s) =
                rw e at (pending-HasPending i (seen tx) (ground (arith, m, z))) in
              rw (some_, finish)
                (rw z (
                  rw c (
                    there,
                    laws.committed s s' _ c ∙ kept ∙ ap (update_rows i (give_pending d.id)) e,
                  )))
        ]
      ]
    ]

    Claim-cases :
        (x : Claim F) → (x ≡ no_rows) ⊎ ((x ≡ failed) ⊎ ((d : Driver F) × (x ≡ claimed d)))
    Claim-cases no_rows = inl refl
    Claim-cases failed = inr (inl refl)
    Claim-cases (claimed d) = inr (inr (d, refl))

    try-Keeps :
        (cs : List (RankedDriver F)) (tx : Tx)
        → seen tx ≡ rows s
        → Keeps (try_candidates pg o (dist lat lon) s i cs tx)
    unfolding try_candidates
    try-Keeps [] tx e = refl
    try-Keeps (c ∷ cs) tx e =
        let e' : seen (claim_driver c.driver.id tx).1 ≡ rows s =
          laws.claimed_one c.driver.id tx ∙ e in
        let rest = try-Keeps cs (claim_driver c.driver.id tx).1 e' in
        elim (Claim-cases (claim_driver c.driver.id tx).0) [
          | inl x ↦ rw (x, try_candidates) rest
          | inr (inl x) ↦ rw (x, try_candidates) refl
          | inr (inr (d, x)) ↦
              rw (x, try_candidates) (finish-Keeps d c.distance (claim_driver c.driver.id tx).1 e')
        ]

    assign_in-Keeps :
        (x : Option (List (Driver F)) × Tx)
        → seen x.1 ≡ rows s
        → Keeps (assign_in pg o (dist lat lon) s i x)
    unfolding assign_in
    assign_in-Keeps (none, tx) e = refl
    assign_in-Keeps (some [], tx) e = refl
    assign_in-Keeps (some (d ∷ ds), tx) e =
        try-Keeps (sort_ranked pg o (dist lat lon) (rank pg o (dist lat lon) (d ∷ ds))) tx e

  -- `AssignTrip` keeps the promise: it reports a driver only where a row of the trip's ID was pending,
  -- and then just the pending row of that ID has got that driver and the status DISPATCHED; otherwise
  -- no row of the trips has changed.
  pub assigner-AssignerLaw : AssignerLaw rows assigner
  unfolding assigner assign_trip
  assigner-AssignerLaw i lat lon s = elim (Option-cases (begin s)) [
    | inl e ↦ rw (e, assign_trip) refl
    | inr (tx, e) ↦
        rw (e, assign_trip)
          (assign_in-Keeps lat lon s i (select_available tx) (laws.selected tx ∙ laws.begun s tx e))
  ]
