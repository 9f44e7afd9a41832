-- ===== src/Handlers/Dispatching.antt =====
-- What `CreateTrip` of backend/internal/handlers/handlers.go does to trips, drivers and the hub.
use mathlib.Core.List.{Memᴰ}
use nyc_taxi_real_time_eta_p.Common.{
  ℕ, ◌≡◌, refl, ap, ◌∙◌, ◌⊎◌, inl, inr, false, [], ◌∷◌, ◌++◌, none, some, arith, if◌then◌else◌,
  ◌==◌, length, get_elem?,
}
use nyc_taxi_real_time_eta_p.Common.Bytes.{Bytes, codes, bytes_eq, bytes_eq_refl}
use nyc_taxi_real_time_eta_p.Common.Elements.{get_elem?-concat}
use nyc_taxi_real_time_eta_p.Geo.{Float}
use nyc_taxi_real_time_eta_p.Models.{Trip, CreateTripRequest, trip_dispatched}
use nyc_taxi_real_time_eta_p.Dispatch.Driver
use nyc_taxi_real_time_eta_p.Dispatch.Driver.{
  Driver, Fleet, busy, available, is_available, find_nearest_available, assign_status, set_status,
}
use nyc_taxi_real_time_eta_p.Dispatch.Fleet
use nyc_taxi_real_time_eta_p.Dispatch.Fleet.{
  set_status_ok, find-assign_status, find_of_mem, assign_status-IsKeyed,
}
use nyc_taxi_real_time_eta_p.Dispatch.Nearest.{IsNearest, find_nearest_available-IsNearest}
use nyc_taxi_real_time_eta_p.Trips.Memory
use nyc_taxi_real_time_eta_p.Trips.Memory.{
  Repository, alloc, named, create, update, update_dispatch, get_by_id,
}
use nyc_taxi_real_time_eta_p.Trips.Records.{
  IsSound, create-get_by_id, get_elem?-update, update-trips, update-IsSound, alloc-IsSound,
  find-get_by_id,
}
use nyc_taxi_real_time_eta_p.Handlers.CreateTrip.{
  World, Reply, created, distance_from, new_trip, mark, dispatch, announce, create_trip,
}

module _ (fl : Float) where
  open fl use {F, order}

  -- The pending trip of a request, without a driver.
  abbrev pub requested : Bytes → ℕ → ℕ → CreateTripRequest F → Trip F
  requested fresh requested_at created_at req = record {
    id = fresh;
    pickup_lat = req.pickup_lat;
    pickup_lng = req.pickup_lng;
    dropoff_lat = req.dropoff_lat;
    dropoff_lng = req.dropoff_lng;
    passenger_count = req.passenger_count;
    requested_at = requested_at;
    predicted_duration_sec = none;
    actual_duration_sec = none;
    status = codes "PENDING";
    driver_id = none;
    created_at = created_at;
  }

  -- The trip `t` behind `p` after it got the driver `d`.
  abbrev pub with_driver : Driver F → Trip F → Trip F
  with_driver d t = record t { driver_id = some d.id; status = codes "DISPATCHED" }

  -- The two ways of a dispatch: nobody is available and nothing changes; or the nearest available
  -- driver, and no other, becomes busy, and the trip behind `p`, and no other, gets that driver, the map
  -- of the IDs and their order being as they were.
  abbrev pub Dispatches : ℕ → Trip F → Repository F → Fleet F → Repository F × Fleet F → Type 0
  Dispatches p t r fleet result =
      (((d : Driver F) → Memᴰ d fleet → is_available d ≡ false) × (result ≡ (r, fleet)))
      ⊎ ((d : Driver F) × IsNearest order (distance_from fl t.pickup_lat t.pickup_lng) fleet d
          × IsSound result.0
          × Fleet.IsKeyed result.1
          × (result.0.trips ≡ r.trips)
          × (result.0.order ≡ r.order)
          × ((q : ℕ)
              → get_elem? result.0.heap q
                ≡ (if p == q then some (with_driver d t) else get_elem? r.heap q))
          × ((j : Bytes)
              → Driver.find j result.1 ≡ (
                  if bytes_eq d.id j
                  then some (record d { status = codes "BUSY" })
                  else Driver.find j fleet)))

  update_found :
      (p : ℕ) (i : Bytes) (d : Driver F) (r : Repository F)
      → Memory.find i r.trips ≡ some p
      → update_dispatch i (some d.id) trip_dispatched r ≡ Memory.ok (update p (with_driver d) r)
  unfolding update_dispatch
  update_found p i d r e = rw (e, update_dispatch)

  dispatch_found :
      (p : ℕ) (i : Bytes) (lat lon : F) (r r' : Repository F) (fleet fleet' : Fleet F)
      (d : Driver F) (y : F)
      → find_nearest_available order (distance_from fl lat lon) fleet ≡ Driver.ok (d, y)
      → set_status d.id busy fleet ≡ Driver.ok fleet'
      → update_dispatch i (some d.id) trip_dispatched (mark fl p (some d.id) trip_dispatched r)
        ≡ Memory.ok r'
      → dispatch fl p i lat lon r fleet ≡ (r', fleet')
  unfolding dispatch
  dispatch_found p i lat lon r r' fleet fleet' d y e set_ok kept =
      rw (e, dispatch) (rw (set_ok, dispatch) (rw (kept, dispatch)))

  dispatch-Dispatches :
      (p : ℕ) (t : Trip F) (r : Repository F) (fleet : Fleet F)
      → IsSound r
      → Fleet.IsKeyed fleet
      → get_elem? r.heap p ≡ some t
      → Memory.find t.id r.trips ≡ some p
      → Dispatches p t r fleet (dispatch fl p t.id t.pickup_lat t.pickup_lng r fleet)
  unfolding dispatch
  dispatch-Dispatches p t r fleet v k here own =
      elim (find_nearest_available-IsNearest order (distance_from fl t.pickup_lat t.pickup_lng)
        fleet) [
          | inr (e, nobody) ↦ inl (nobody, rw (e, dispatch))
          | inl (d, y, e, _, near) ↦
              let give = with_driver d in
              let marked = update p give r in
              let known = find_of_mem fleet d k near.member in
              let twice = update-IsSound p give marked (update-IsSound p give r v) in
              let here' : get_elem? marked.heap p ≡ some (give t) =
                get_elem?-update p p give r t here ∙ ground arith in
              let kept : update_dispatch t.id (some d.id) trip_dispatched marked
                  ≡ Memory.ok (update p give marked) =
                update_found p t.id d marked (rw ((update-trips p give r).0) own) in
              rw
                (dispatch_found p t.id _ _ r _ fleet _ d y e (set_status_ok d.id busy fleet d known)
                  kept)
                (inr (
                  d,
                  near,
                  twice,
                  assign_status-IsKeyed d.id busy fleet k,
                  (update-trips p give marked).0 ∙ (update-trips p give r).0,
                  (update-trips p give marked).1 ∙ (update-trips p give r).1,
                  λ q.
                      get_elem?-update p q give marked (give t) here'
                      ∙ ground (arith, get_elem?-update p q give r t here),
                  λ j. find-assign_status d.id j busy fleet d known,
                ))
        ]

  named_new :
      (fresh : Bytes) (a b : ℕ) (req : CreateTripRequest F)
      → named fresh (new_trip fl a b req) ≡ requested fresh a b req
  unfolding named new_trip bytes_eq
  named_new fresh a b req = refl

  -- What a `CreateTrip` of a decoded request comes to: the trip is stored behind a new pointer, in a
  -- repository `r` that finds it under its ID, the last in the order, and that has the old objects, and
  -- finds them, as before; it is dispatched; the event that goes out shows
  -- the trip as it then is, and the answer is that trip.
  abbrev pub Creates : Trip F → World F → World F × Reply → Type 0
  Creates t w result =
      let p = length w.trips.heap in
      (r : Repository F) × (last : Trip F) × IsSound r
      × ((q : ℕ) → get_elem? r.heap q ≡ (if p == q then some t else get_elem? w.trips.heap q))
      × ((j : Bytes)
          → Memory.find j r.trips
            ≡ (if bytes_eq t.id j then some p else Memory.find j w.trips.trips))
      × (r.order ≡ w.trips.order ++ (t.id ∷ []))
      × Dispatches p t r w.fleet (result.0.trips, result.0.fleet)
      × (get_elem? result.0.trips.heap p ≡ some last)
      × (result.0.sent ≡ w.sent ++ (record { trip_id = last.id; status = last.status } ∷ []))
      × (result.1 ≡ created p)

  dispatched_object :
      (p : ℕ) (t : Trip F) (r : Repository F) (fleet : Fleet F) (result : Repository F × Fleet F)
      → get_elem? r.heap p ≡ some t
      → Dispatches p t r fleet result
      → (last : Trip F) × (get_elem? result.0.heap p ≡ some last)
  dispatched_object p t r fleet result here (inl (_, e)) = (t, rw e here)
  dispatched_object p t r fleet result here (inr (d, _, _, _, _, _, heap, _)) =
      (with_driver d t, heap p ∙ ground arith)

  announce_lem :
      (p : ℕ) (result : Repository F × Fleet F) (w : World F) (last : Trip F)
      → get_elem? result.0.heap p ≡ some last
      → announce fl p result w ≡ (
        record {
          trips = result.0;
          fleet = result.1;
          sent = w.sent ++ (record { trip_id = last.id; status = last.status } ∷ []);
        },
        created p,
      )
  unfolding announce
  announce_lem p result w last e = rw (e, announce)

  module _ (fresh : Bytes) (a b : ℕ) (req : CreateTripRequest F) (w : World F) where
    abbrev asked : Trip F
    asked = new_trip fl a b req

    abbrev stored : Trip F
    stored = requested fresh a b req

    -- The repository and the pointer after `&models.Trip{…}`.
    abbrev allocated : Repository F
    allocated = record w.trips { heap = w.trips.heap ++ (asked ∷ []) }

    stored_lem :
        IsSound w.trips
        → Memory.find fresh w.trips.trips ≡ none
        → (r : Repository F) × (create fresh (length w.trips.heap) allocated ≡ Memory.ok r)
          × IsSound r
          × ((q : ℕ)
              → get_elem? r.heap q
                ≡ (if length w.trips.heap == q then some stored else get_elem? w.trips.heap q))
          × ((j : Bytes)
              → Memory.find j r.trips ≡ (
                  if bytes_eq fresh j
                  then some (length w.trips.heap)
                  else Memory.find j w.trips.trips))
          × (r.order ≡ w.trips.order ++ (fresh ∷ []))
    unfolding alloc
    stored_lem v new =
        let p = length w.trips.heap in
        let at_p : get_elem? allocated.heap p ≡ some asked =
          get_elem?-concat w.trips.heap asked p ∙ ground arith in
        let name = named_new fresh a b req in
        let (r, done, v', by_id, heap, last) =
          create-get_by_id fresh p allocated asked (alloc-IsSound asked w.trips v) at_p
            (rw name new) in
        (
          r,
          done,
          v',
          λ q. heap q ∙ ground (arith, name, get_elem?-concat w.trips.heap asked q),
          λ j. find-get_by_id fresh j p allocated r (
              by_id j
              ∙ ap (λ i. if bytes_eq i j then Memory.ok p else get_by_id j allocated)
                  (ap (λ t. t.id) name)),
          last ∙ ap (λ i. w.trips.order ++ (i ∷ [])) (ap (λ t. t.id) name),
        )

    create_trip_found :
        (r : Repository F)
        → create fresh (length w.trips.heap) allocated ≡ Memory.ok r
        → get_elem? r.heap (length w.trips.heap) ≡ some stored
        → create_trip fl fresh a b (some req) w
          ≡ announce fl
              (length w.trips.heap)
              (dispatch fl (length w.trips.heap) fresh req.pickup_lat req.pickup_lng r w.fleet)
              w
    unfolding create_trip alloc
    create_trip_found r done here = rw (done, create_trip) (rw (here, create_trip))

  -- `CreateTrip` of a decoded request, with a fresh ID that no trip has and sound stores, where no other
  -- request changes a store before it ends: the trip of the request is stored as PENDING without a
  -- driver, found under that ID and last in the order; where no driver is available it stays so and
  -- nothing else changes; otherwise it gets the nearest available driver and is DISPATCHED, the driver
  -- becomes BUSY, and no other trip or driver changes. The event and the answer show the trip as it is
  -- in the end.
  pub create_trip-Creates :
      (fresh : Bytes) (a b : ℕ) (req : CreateTripRequest F) (w : World F)
      → IsSound w.trips
      → Fleet.IsKeyed w.fleet
      → Memory.find fresh w.trips.trips ≡ none
      → Creates (requested fresh a b req) w (create_trip fl fresh a b (some req) w)
  unfolding new_trip
  create_trip-Creates fresh a b req w v k new =
      let p = length w.trips.heap in
      let t = requested fresh a b req in
      let (r, done, v', heap, by_id, last) = stored_lem fresh a b req w v new in
      let here : get_elem? r.heap p ≡ some t = heap p ∙ ground arith in
      let own : Memory.find fresh r.trips ≡ some p = by_id fresh ∙ rw bytes_eq_refl refl in
      finish r done v' heap by_id last here (dispatch-Dispatches p t r w.fleet v' k here own)
    where
      finish :
          (r : Repository F)
          → create fresh (length w.trips.heap) (allocated fresh a b req w) ≡ Memory.ok r
          → IsSound r
          → ((q : ℕ)
              → get_elem? r.heap q ≡ (
                  if length w.trips.heap == q
                  then some (stored fresh a b req w)
                  else get_elem? w.trips.heap q))
          → ((j : Bytes)
              → Memory.find j r.trips ≡ (
                  if bytes_eq fresh j
                  then some (length w.trips.heap)
                  else Memory.find j w.trips.trips))
          → (r.order ≡ w.trips.order ++ (fresh ∷ []))
          → get_elem? r.heap (length w.trips.heap) ≡ some (stored fresh a b req w)
          → Dispatches
              (length w.trips.heap)
              (stored fresh a b req w)
              r
              w.fleet
              (dispatch fl (length w.trips.heap) fresh req.pickup_lat req.pickup_lng r w.fleet)
          → Creates (stored fresh a b req w) w (create_trip fl fresh a b (some req) w)
      finish r done v' heap by_id ordered here moved =
          let p = length w.trips.heap in
          let result = dispatch fl p fresh req.pickup_lat req.pickup_lng r w.fleet in
          let (last, there) = dispatched_object p _ r w.fleet result here moved in
          rw (create_trip_found fresh a b req w r done here, announce_lem p result w last there)
            (r, last, v', heap, by_id, ordered, moved, there, refl, refl)
