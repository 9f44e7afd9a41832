-- ===== src/Handlers/Persistent.antt =====
-- `CreateTrip` of backend/internal/handlers/handlers.go over the PostgreSQL stores: the branch of a
-- `TripAssigner`.
use nyc_taxi_real_time_eta_p.Common.{
  ℕ, zero, suc, arith, sym, ◌≡◌, ◌≢◌, refl, ap, ◌∙◌, ◌⊎◌, inl, inr, List, [], ◌∷◌, ◌++◌, Option,
  none, some, Option-cases,
}
use nyc_taxi_real_time_eta_p.Common.Bytes.{Bytes, codes, bytes_eq, bytes_eq-false, bytes_eq_refl}
use nyc_taxi_real_time_eta_p.Geo.{Float}
use nyc_taxi_real_time_eta_p.Models.{Trip, CreateTripRequest, trip_dispatched}
use nyc_taxi_real_time_eta_p.Dispatch.Assign.{Assignment, assigned, no_drivers, failure}
use nyc_taxi_real_time_eta_p.Dispatch.Assigner.{TripAssigner, Kept, AssignerLaw, give, give_pending}
use nyc_taxi_real_time_eta_p.Trips.Postgres.{
  TripDb, Result, ok, not_found, failed, completed, create, create_failed, create_saved,
}
use nyc_taxi_real_time_eta_p.Trips.Table.{
  or_now, filled, row_of, insert_row, row_of-insert_row, row_of-insert_other, row_of-update_rows,
  row_of-update_other,
}
use nyc_taxi_real_time_eta_p.Trips.Refining.{TripDbLaws, completed-filled}
use nyc_taxi_real_time_eta_p.Handlers.Dispatching.{requested}
use nyc_taxi_real_time_eta_p.Handlers.CreateTrip.{Event, new_trip}

-- 201 with the trip, 400, 500.
pub data Reply (F : Type 0) : Type 0 where
  created : Trip F → Reply F
  bad_request server_error : Reply F

module _ (fl : Float) (db : TripDb fl.F) (assign : TripAssigner fl.F db.Db) where
  open fl use {F}
  open db use {Db}

  pub record Server : Type 0 where
    pub store : Db
    pub sent : List Event

  -- The handler's own trip after the call of `AssignTrip`, whose errors are only logged.
  unfoldable pub after_assignment : Assignment F → Trip F → Trip F
  after_assignment (assigned d y) t = record t { driver_id = some d.id; status = trip_dispatched }
  after_assignment no_drivers t = t
  after_assignment failure t = t

  -- The event and the answer show the handler's own trip.
  unfoldable pub reply_created : Trip F → Db → List Event → Server × Reply F
  reply_created t s sent = (
    record { store = s; sent = sent ++ (record { trip_id = t.id; status = t.status } ∷ []) },
    created t,
  )

  unfoldable pub dispatch_created : Trip F → Db → List Event → Server × Reply F
  unfolding after_assignment reply_created
  dispatch_created t s sent =
      let (s', a) = assign t.id t.pickup_lat t.pickup_lng s in
      reply_created (after_assignment a t) s' sent

  -- What follows the call of `Create`.
  unfoldable pub after_create : Db × Trip F × Result (Unit {0}) → List Event → Server × Reply F
  unfolding dispatch_created
  after_create (s, t, ok x) sent = dispatch_created t s sent
  after_create (s, t, not_found i) sent = (record { store = s; sent = sent }, server_error)
  after_create (s, t, failed) sent = (record { store = s; sent = sent }, server_error)

  unfoldable pub create_trip_persistent :
      Bytes → ℕ → ℕ → Option (CreateTripRequest F) → Server → Server × Reply F
  unfolding after_create
  create_trip_persistent fresh requested_at created_at none w = (w, bad_request)
  create_trip_persistent fresh requested_at created_at (some req) w =
      after_create
        (create db fresh requested_at created_at (new_trip fl requested_at created_at req) w.store)
        w.sent

  module _ (fresh : Bytes) (a b : ℕ) (req : CreateTripRequest F) (w : Server) where
    abbrev to_insert : Trip F
    to_insert = completed fresh a b (new_trip fl a b req)

    persistent_failed :
        (db.insert to_insert w.store).0 ≡ none
        → create_trip_persistent fresh a b (some req) w
          ≡ (record w { store = (db.insert to_insert w.store).1 }, server_error)
    unfolding create_trip_persistent
    persistent_failed e =
        ap (λ x. after_create x w.sent) (create_failed db fresh a b (new_trip fl a b req) w.store e)

    persistent_created :
        (t : Trip F)
        → (db.insert to_insert w.store).0 ≡ some t
        → create_trip_persistent fresh a b (some req) w
          ≡ dispatch_created t (db.insert to_insert w.store).1 w.sent
    unfolding create_trip_persistent
    persistent_created t e =
        ap (λ x. after_create x w.sent)
          (create_saved db fresh a b (new_trip fl a b req) w.store t e)

  module _ (laws : TripDbLaws db) where
    open laws use {rows, rounded}

    -- The pending trip of a request, as its row keeps it.
    abbrev pub stored_trip : Bytes → ℕ → ℕ → CreateTripRequest F → Trip F
    stored_trip fresh a b req = requested fl fresh (rounded a) (rounded b) req

    as_requested :
        (fresh : Bytes) (a b : ℕ) (req : CreateTripRequest F)
        → filled rounded fresh a b (new_trip fl a b req) ≡ stored_trip fresh a b req
    unfolding new_trip
    as_requested fresh a b req = rw (or_now_same a, or_now_same b) refl
      where
        or_now_same : (n : ℕ) → or_now n n ≡ n
        or_now_same zero = refl
        or_now_same (suc n) = refl

    -- What a creation of the trip `t0` comes to, with its answer and events: it failed, no row changed
    -- and nothing was sent; or `t0` had a new ID, the row of that ID is now just the trip that the
    -- answer and the event show, pending as it came or dispatched to a driver, and no row of another ID
    -- changed.
    abbrev pub IsStored : Trip F → Server → Server × Reply F → Type 0
    IsStored t0 w (w', reply) =
        ((reply ≡ server_error) × (rows w'.store ≡ rows w.store) × (w'.sent ≡ w.sent))
        ⊎ ((t : Trip F) × (reply ≡ created t)
            × ((t ≡ t0)
                ⊎ ((d : Bytes) × (t
                      ≡ record t0 { driver_id = some d; status = codes "DISPATCHED" })))
            × (row_of t0.id (rows w.store) ≡ none)
            × (row_of t0.id (rows w'.store) ≡ some t)
            × ((j : Bytes) → t0.id ≢ j → row_of j (rows w'.store) ≡ row_of j (rows w.store))
            × (w'.sent ≡ w.sent ++ (record { trip_id = t.id; status = t.status } ∷ [])))

    completed_new :
        (fresh : Bytes) (a b : ℕ) (req : CreateTripRequest F)
        → (completed fresh a b (new_trip fl a b req)).id ≡ fresh
    unfolding completed new_trip bytes_eq
    completed_new fresh a b req = refl

    dispatch-IsStored :
        (t : Trip F) (s : Db) (w : Server)
        → AssignerLaw rows assign
        → t.status ≡ codes "PENDING"
        → row_of t.id (rows w.store) ≡ none
        → rows s ≡ insert_row t (rows w.store)
        → IsStored t w (dispatch_created t s w.sent)
    unfolding dispatch_created
    dispatch-IsStored t s w law waits new kept =
        go (assign t.id t.pickup_lat t.pickup_lng s) (law t.id t.pickup_lat t.pickup_lng s)
      where
        here : row_of t.id (rows s) ≡ some t
        here = rw kept (row_of-insert_row t (rows w.store) new)

        give_pending_id : (d : Bytes) (u : Trip F) → (give_pending d u).id ≡ u.id
        give_pending_id d u = ground arith

        given : (d : Bytes) → give_pending d t ≡ give d t
        given d = rw (waits, bytes_eq_refl) refl

        others : (j : Bytes) → t.id ≢ j → row_of j (rows s) ≡ row_of j (rows w.store)
        others j h = rw kept (row_of-insert_other t j (rows w.store) (bytes_eq-false t.id j h))

        go :
            (x : Db × Assignment F)
            → Kept t.id (rows s) (rows x.0) x.1
            → IsStored t w (reply_created (after_assignment x.1 t) x.0 w.sent)
        go (s', no_drivers) k =
            inr (t, refl, inl refl, new, rw k here, λ j h. rw k (others j h), refl)
        go (s', failure) k = inr (t, refl, inl refl, new, rw k here, λ j h. rw k (others j h), refl)
        go (s', assigned d y) (there, k) = inr (
          give d.id t,
          refl,
          inr (d.id, refl),
          new,
          rw k (
              row_of-update_rows t.id (give_pending d.id) t (rows s) (give_pending_id d.id) here
              ∙ ap some (given d.id)),
          λ j h. rw k (
              row_of-update_other t.id j (give_pending d.id) (rows s) (give_pending_id d.id) h
              ∙ others j h),
          refl,
        )

    -- `CreateTrip` of a decoded request over PostgreSQL, where the store of trips and the assigner keep
    -- their promises and no other request changes a row before it ends, fails with no row changed and
    -- nothing sent; or the trip had a new ID, the row of that ID is just the trip that the answer and the
    -- event show, the trip of the request with its times as the database rounds them, PENDING without a
    -- driver or DISPATCHED to one, and no row of another ID changed.
    pub create_trip_persistent-IsStored :
        (fresh : Bytes) (a b : ℕ) (req : CreateTripRequest F) (w : Server)
        → AssignerLaw rows assign
        → IsStored (stored_trip fresh a b req) w (create_trip_persistent fresh a b (some req) w)
    create_trip_persistent-IsStored fresh a b req w law =
        let sent = completed fresh a b (new_trip fl a b req) in
        let t = stored_trip fresh a b req in
        elim (Option-cases (db.insert sent w.store).0) [
          | inl e ↦
              rw (persistent_failed fresh a b req w e)
                (inl (refl, laws.insert_failed sent w.store e, refl))
          | inr (u, e) ↦
              let (same, new, kept) = laws.inserted sent u w.store e in
              let row_is : u ≡ t =
                same
                ∙ completed-filled rounded fresh a b (new_trip fl a b req)
                ∙ as_requested fresh a b req in
              let new' : row_of t.id (rows w.store) ≡ none =
                ap (λ i. row_of i (rows w.store)) (sym (completed_new fresh a b req)) ∙ new in
              rw (persistent_created fresh a b req w t (e ∙ ap some row_is)) (
                dispatch-IsStored t (db.insert sent w.store).1 w law refl new'
                  (kept ∙ ap (λ v. insert_row v (rows w.store)) row_is))
        ]
