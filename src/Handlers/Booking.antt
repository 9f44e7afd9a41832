-- ===== src/Handlers/Booking.antt =====
-- `CreateTrip` of backend/internal/handlers/handlers.go, for requests one after the other, never books a
-- driver twice. Two requests at one time may: FindNearestAvailable and SetStatus take the mutex of the
-- drivers apart.
use mathlib.Core.List.{Memᴰ}
use nyc_taxi_real_time_eta_p.Common.{
  ℕ, ◌≡◌, ◌≢◌, refl, ◌∙◌, inl, inr, true, false, List, [], ◌∷◌, Option, none, some, arith,
  if◌then◌else◌, ◌==◌, length, get_elem?, Bool-cases,
}
use nyc_taxi_real_time_eta_p.Common.Bytes.{Bytes, bytes_eq, bytes_eq_iff, bytes_eq_refl}
use nyc_taxi_real_time_eta_p.Geo.{Float}
use nyc_taxi_real_time_eta_p.Models.{Trip, CreateTripRequest, trip_pending, trip_dispatched}
use nyc_taxi_real_time_eta_p.Dispatch.Driver
use nyc_taxi_real_time_eta_p.Dispatch.Driver.{
  Driver, Fleet, busy, available, is_available, find_nearest_available, assign_status, set_status,
}
use nyc_taxi_real_time_eta_p.Dispatch.Fleet
use nyc_taxi_real_time_eta_p.Dispatch.Fleet.{
  set_status_ok, find-assign_status, find_of_mem, assign_status-IsKeyed,
}
use nyc_taxi_real_time_eta_p.Trips.Memory
use nyc_taxi_real_time_eta_p.Trips.Memory.{
  Repository, alloc, named, create, update, update_dispatch, get_by_id,
}
use nyc_taxi_real_time_eta_p.Trips.Records.{IsSound}
use nyc_taxi_real_time_eta_p.Handlers.CreateTrip.{World, new_trip, create_trip}
use nyc_taxi_real_time_eta_p.Handlers.Dispatching.{Dispatches, requested, create_trip-Creates}

-- No double booking: the driver of a dispatched trip is a known driver who is busy, and two dispatched
-- trips have two drivers.
pub record IsBooked {F : Type 0} (trips : Repository F) (fleet : Fleet F) : Type 0 where
  pub served :
      (p : ℕ) (t : Trip F)
      → get_elem? trips.heap p ≡ some t
      → t.status ≡ trip_dispatched
      → (d : Driver F) × (t.driver_id ≡ some d.id)
        × (Driver.find d.id fleet ≡ some d)
        × (d.status ≡ busy)
  pub alone :
      (p q : ℕ) (t u : Trip F)
      → get_elem? trips.heap p ≡ some t
      → get_elem? trips.heap q ≡ some u
      → t.status ≡ trip_dispatched
      → u.status ≡ trip_dispatched
      → t.driver_id ≡ u.driver_id
      → p ≡ q

pending-ne-dispatched : trip_pending ≢ trip_dispatched
pending-ne-dispatched e = cc

busy_is_taken : bytes_eq busy available ≡ false
unfolding bytes_eq
busy_is_taken = refl

module _ (fl : Float) where
  open fl use {F, order}

  -- Storing a pending trip books nobody.
  stored-IsBooked :
      (t : Trip F) (w : World F) (r : Repository F)
      → IsBooked w.trips w.fleet
      → t.status ≡ trip_pending
      → ((q : ℕ)
          → get_elem? r.heap q
            ≡ (if length w.trips.heap == q then some t else get_elem? w.trips.heap q))
      → IsBooked r w.fleet
  stored-IsBooked t w r booked pending heap = record {
    served = λ p u here st. booked.served p u (old p u here st) st;
    alone = λ p q u x here there st st'.
        booked.alone p q u x (old p u here st) (old q x there st') st st';
  }
    where
      old :
          (p : ℕ) (u : Trip F)
          → get_elem? r.heap p ≡ some u
          → u.status ≡ trip_dispatched
          → get_elem? w.trips.heap p ≡ some u
      old p u here st = ground (arith, heap p, pending-ne-dispatched)

  -- An available driver is none who is busy.
  free_is_other :
      (fleet : Fleet F) (d e : Driver F)
      → Fleet.IsKeyed fleet
      → Memᴰ d fleet
      → is_available d ≡ true
      → Driver.find e.id fleet ≡ some e
      → e.status ≡ busy
      → bytes_eq d.id e.id ≡ false
  unfolding is_available
  free_is_other fleet d e k m free known taken = elim (Bool-cases (bytes_eq d.id e.id)) [
    | inr q ↦ q
    | inl q ↦ cc (find_of_mem fleet d k m, (bytes_eq_iff d.id e.id).0 q, busy_is_taken)
  ]

  dispatched-IsBooked :
      (p : ℕ) (t : Trip F) (r : Repository F) (fleet : Fleet F) (result : Repository F × Fleet F)
      → IsBooked r fleet
      → Fleet.IsKeyed fleet
      → Dispatches fl p t r fleet result
      → IsBooked result.0 result.1
  dispatched-IsBooked p t r fleet result booked k (inl (_, e)) = rw e booked
  dispatched-IsBooked p t r fleet result booked k (inr (d, near, _, _, _, _, heap, drivers)) =
      record {
        served = λ q u here st. elim (Bool-cases (p == q)) [
          | inl e ↦ (
            record d { status = busy },
            ground (arith, heap q),
            drivers d.id ∙ rw bytes_eq_refl,
            refl,
          )
          | inr e ↦
              let (x, has, known, taken) = booked.served q u (ground (arith, heap q)) st in
              (x, has, ground (arith, drivers x.id, other x known taken), taken)
        ];
        alone = λ q q' u u' here there st st' same. elim (Bool-cases (p == q)) [
          | inl e ↦ elim (Bool-cases (p == q')) [
            | inl e' ↦ ground arith
            | inr e' ↦
                let (x, has, known, taken) = booked.served q' u' (ground (arith, heap q')) st' in
                absurd (clash x known taken (ground (arith, heap q)))
          ]
          | inr e ↦ elim (Bool-cases (p == q')) [
            | inl e' ↦
                let (x, has, known, taken) = booked.served q u (ground (arith, heap q)) st in
                absurd (clash x known taken (ground (arith, heap q')))
            | inr e' ↦
                booked.alone q q' u u' (ground (arith, heap q)) (ground (arith, heap q')) st st'
                  same
          ]
        ];
      }
    where
      other :
          (x : Driver F)
          → Driver.find x.id fleet ≡ some x
          → x.status ≡ busy
          → bytes_eq d.id x.id ≡ false
      other x known taken = free_is_other fleet d x k near.member near.free known taken

      clash : (x : Driver F) → Driver.find x.id fleet ≡ some x → x.status ≡ busy → d.id ≡ x.id → ⊥
      clash x known taken e = cc (other x known taken, (bytes_eq_iff d.id x.id).1 e)

  dispatched-IsSound :
      (p : ℕ) (t : Trip F) (r : Repository F) (fleet : Fleet F) (result : Repository F × Fleet F)
      → IsSound r
      → Fleet.IsKeyed fleet
      → Dispatches fl p t r fleet result
      → IsSound result.0 × Fleet.IsKeyed result.1
  dispatched-IsSound p t r fleet result v k (inl (_, e)) = rw e (v, k)
  dispatched-IsSound p t r fleet result v k (inr (d, _, v', k', _, _, _, _)) = (v', k')

  -- One request.
  create_trip-IsBooked :
      (fresh : Bytes) (a b : ℕ) (req : Option (CreateTripRequest F)) (w : World F)
      → IsSound w.trips
      → Fleet.IsKeyed w.fleet
      → Memory.find fresh w.trips.trips ≡ none
      → IsBooked w.trips w.fleet
      → let w' = (create_trip fl fresh a b req w).0 in
        IsSound w'.trips × Fleet.IsKeyed w'.fleet × IsBooked w'.trips w'.fleet
  unfolding create_trip new_trip
  create_trip-IsBooked fresh a b none w v k new booked = (v, k, booked)
  create_trip-IsBooked fresh a b (some req) w v k new booked =
      let t = requested fl fresh a b req in
      let (r, last, v', heap, _, _, moved, _, _, _) =
        create_trip-Creates fl fresh a b req w v k new in
      let (sound, keyed) = dispatched-IsSound (length w.trips.heap) t r w.fleet _ v' k moved in
      (
        sound,
        keyed,
        dispatched-IsBooked (length w.trips.heap) t r w.fleet _
            (stored-IsBooked t w r booked refl heap) k moved,
      )

  -- A request of `CreateTrip`: the ID that `idgen.NewID` returns, the two readings of the clock, and the
  -- body, absent if it does not decode.
  pub record Arrival : Type 0 where
    pub fresh : Bytes
    pub requested_at : ℕ
    pub created_at : ℕ
    pub req : Option (CreateTripRequest F)

  unfoldable pub handle : Arrival → World F → World F
  handle c w = (create_trip fl c.fresh c.requested_at c.created_at c.req w).0

  -- Requests one after the other, each at its end before the next begins.
  unfoldable pub handle_all : List Arrival → World F → World F
  handle_all [] w = w
  handle_all (c ∷ cs) w = handle_all cs (handle c w)

  -- No trip has the ID of a request when it comes.
  abbrev pub IsFresh : List Arrival → World F → Type 0
  IsFresh [] w = Unit
  IsFresh (c ∷ cs) w = (Memory.find c.fresh w.trips.trips ≡ none) × IsFresh cs (handle c w)

  -- Requests of `CreateTrip`, also such as do not decode, that are handled one after the other, each at
  -- its end before the next begins and no other request in between, with fresh IDs: if the stores are
  -- sound, the driver of every dispatched trip is known and busy, and no two dispatched trips have one
  -- driver before them, then so after them.
  pub create_trips-IsBooked :
      (calls : List Arrival) (w : World F)
      → IsSound w.trips
      → Fleet.IsKeyed w.fleet
      → IsBooked w.trips w.fleet
      → IsFresh calls w
      → let w' = handle_all calls w in
        IsSound w'.trips × Fleet.IsKeyed w'.fleet × IsBooked w'.trips w'.fleet
  unfolding handle_all handle
  create_trips-IsBooked [] w v k booked new = (v, k, booked)
  create_trips-IsBooked (c ∷ cs) w v k booked (new, more) =
      let (v', k', booked') =
        create_trip-IsBooked c.fresh c.requested_at c.created_at c.req w v k new booked in
      create_trips-IsBooked cs (handle c w) v' k' booked' more
