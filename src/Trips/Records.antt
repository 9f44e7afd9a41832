-- ===== src/Trips/Records.antt =====
-- `Create`, `GetByID`, `UpdateStatus` and `UpdateDispatch` of
-- backend/internal/repositories/trip_repository.go: the invariant of the repository, and what each
-- operation does to the objects.
use nyc_taxi_real_time_eta_p.Common.{
  ℕ, ◌≤◌, ◌<◌, ◌≡◌, refl, ap, ◌⊎◌, inl, inr, List, [], ◌∷◌, ◌++◌, Option, none, some, arith,
  if◌then◌else◌, ◌==◌, length, length-append, get_elem?, All, All-append, Option-cases,
}
use nyc_taxi_real_time_eta_p.Common.Bytes.{Bytes, bytes_eq, bytes_eq_iff}
use nyc_taxi_real_time_eta_p.Common.Elements.{
  length-set, get_elem?-set, get_elem?_lt, lt_of_get_elem?,
}
use nyc_taxi_real_time_eta_p.Models.{Trip, TripStatus}
use nyc_taxi_real_time_eta_p.Trips.Memory.{
  Repository, Outcome, ok, not_found, find, put, update, alloc, named, create, get_by_id,
  update_status, update_dispatch,
}

abbrev pub keys : List (Bytes × ℕ) → List Bytes
keys [] = []
keys ((i, p) ∷ m) = i ∷ keys m

abbrev pub IsKeyed : List (Bytes × ℕ) → Type 0
IsKeyed [] = Unit
IsKeyed ((i, p) ∷ m) = (find i m ≡ none) × IsKeyed m

-- The order lists the keys of the map, each once, and every pointer of the map has an object.
pub record IsSound {F : Type 0} (r : Repository F) : Type 0 where
  pub ordered : keys r.trips ≡ r.order
  pub keyed : IsKeyed r.trips
  pub valid : All (λ e. e.1 < length r.heap) r.trips

find-put :
    (i j : Bytes) (p : ℕ) (m : List (Bytes × ℕ))
    → find j (put i p m) ≡ (if bytes_eq i j then some p else find j m)
unfolding find put
find-put i j p [] = refl
find-put i j p ((k, q) ∷ m) =
    ground (arith, bytes_eq_iff k i, bytes_eq_iff i j, bytes_eq_iff k j, find-put i j p m)

put_new :
    (i : Bytes) (p : ℕ) (m : List (Bytes × ℕ)) → find i m ≡ none → put i p m ≡ m ++ ((i, p) ∷ [])
unfolding find put
put_new i p [] h = refl
put_new i p ((k, q) ∷ m) h = ground (arith, put_new i p m)

pub keys-append : (m n : List (Bytes × ℕ)) → keys (m ++ n) ≡ keys m ++ keys n
keys-append [] n = refl
keys-append ((i, p) ∷ m) n = ap (λ k. i ∷ k) (keys-append m n)

find-append_none :
    (i : Bytes) (m n : List (Bytes × ℕ))
    → find i m ≡ none
    → find i n ≡ none
    → find i (m ++ n) ≡ none
unfolding find
find-append_none i [] n h k = k
find-append_none i ((j, p) ∷ m) n h k = ground (arith, find-append_none i m n)

other :
    (i j : Bytes) (p q : ℕ) (m : List (Bytes × ℕ))
    → find i ((j, q) ∷ m) ≡ none
    → find j ((i, p) ∷ []) ≡ none
unfolding find
other i j p q m e = ground (arith, bytes_eq_iff i j, bytes_eq_iff j i)

find_later :
    (i j : Bytes) (q : ℕ) (m : List (Bytes × ℕ)) → find i ((j, q) ∷ m) ≡ none → find i m ≡ none
unfolding find
find_later i j q m e = ground arith

IsKeyed-append :
    (i : Bytes) (p : ℕ) (m : List (Bytes × ℕ))
    → IsKeyed m
    → find i m ≡ none
    → IsKeyed (m ++ ((i, p) ∷ []))
IsKeyed-append i p [] h e = (e, tt)
IsKeyed-append i p ((j, q) ∷ m) h e = (
  find-append_none j m ((i, p) ∷ []) h.0 (other i j p q m e),
  IsKeyed-append i p m h.1 (find_later i j q m e),
)

All-valid_mono :
    (m n : ℕ) (es : List (Bytes × ℕ)) → m ≤ n → All (λ e. e.1 < m) es → All (λ e. e.1 < n) es
All-valid_mono m n [] h a = tt
All-valid_mono m n (e ∷ es) h a = (omega arith, All-valid_mono m n es h a.1)

pub find-valid :
    (i : Bytes) (p n : ℕ) (m : List (Bytes × ℕ)) → All (λ e. e.1 < n) m → find i m ≡ some p → p < n
unfolding find
find-valid i p n [] a h = cc
find-valid i p n ((j, q) ∷ m) a h = ground (arith, find-valid i p n m)

module _ {F : Type 0} where
  length-update :
      (p : ℕ) (f : Trip F → Trip F) (r : Repository F) → length (update p f r).heap ≡ length r.heap
  unfolding update
  length-update p f r = elim (Option-cases (get_elem? r.heap p)) [
    | inl e ↦ rw (e, update)
    | inr (t, e) ↦ rw (e, update) (length-set r.heap p (f t))
  ]

  -- A write through a pointer that has an object: that object changes, and no other.
  pub get_elem?-update :
      (p q : ℕ) (f : Trip F → Trip F) (r : Repository F) (t : Trip F)
      → get_elem? r.heap p ≡ some t
      → get_elem? (update p f r).heap q ≡ (if p == q then some (f t) else get_elem? r.heap q)
  unfolding update
  get_elem?-update p q f r t e =
      rw (e, update) (get_elem?-set r.heap p q (f t) (lt_of_get_elem? r.heap p t e))

  pub update-trips :
      (p : ℕ) (f : Trip F → Trip F) (r : Repository F)
      → ((update p f r).trips ≡ r.trips) × ((update p f r).order ≡ r.order)
  unfolding update
  update-trips p f r = ground arith

  pub update-IsSound :
      (p : ℕ) (f : Trip F → Trip F) (r : Repository F) → IsSound r → IsSound (update p f r)
  update-IsSound p f r v = record {
    ordered = cc ((update-trips p f r).0, (update-trips p f r).1, v.ordered);
    keyed = rw ((update-trips p f r).0) v.keyed;
    valid = rw ((update-trips p f r).0, length-update p f r) v.valid;
  }

  pub alloc-IsSound : (t : Trip F) (r : Repository F) → IsSound r → IsSound (alloc t r).0
  unfolding alloc
  alloc-IsSound t r v = record {
    ordered = v.ordered;
    keyed = v.keyed;
    valid =
        All-valid_mono (length r.heap) _ r.trips (omega (arith, length-append r.heap (t ∷ [])))
          v.valid;
  }

  pub find_of_get_by_id :
      (i : Bytes) (p : ℕ) (r : Repository F) → get_by_id i r ≡ ok p → find i r.trips ≡ some p
  unfolding get_by_id
  find_of_get_by_id i p r h = ground arith

  get_by_id-put :
      (i j : Bytes) (p : ℕ) (r r' : Repository F)
      → find j r'.trips ≡ (if bytes_eq i j then some p else find j r.trips)
      → get_by_id j r' ≡ (if bytes_eq i j then ok p else get_by_id j r)
  unfolding get_by_id
  get_by_id-put i j p r r' h = ground arith

  pub find-get_by_id :
      (i j : Bytes) (p : ℕ) (r r' : Repository F)
      → get_by_id j r' ≡ (if bytes_eq i j then ok p else get_by_id j r)
      → find j r'.trips ≡ (if bytes_eq i j then some p else find j r.trips)
  unfolding get_by_id
  find-get_by_id i j p r r' h = ground arith

  -- `Create` of an object under an ID that the map lacks (its own, or else the fresh one): the
  -- repository stays sound, `GetByID` finds the caller's own pointer under that ID and every other
  -- pointer where it was, the object is as it was but for the ID, and no other object changes.
  pub create-get_by_id :
      (fresh : Bytes) (p : ℕ) (r : Repository F) (t : Trip F)
      → IsSound r
      → get_elem? r.heap p ≡ some t
      → find (named fresh t).id r.trips ≡ none
      → (r' : Repository F) × (create fresh p r ≡ ok r')
        × IsSound r'
        × ((j : Bytes)
            → get_by_id j r' ≡ (if bytes_eq (named fresh t).id j then ok p else get_by_id j r))
        × ((q : ℕ)
            → get_elem? r'.heap q ≡ (if p == q then some (named fresh t) else get_elem? r.heap q))
        × (r'.order ≡ r.order ++ ((named fresh t).id ∷ []))
  unfolding create get_by_id
  create-get_by_id fresh p r t v e new =
      let i = (named fresh t).id in
      let r' = update p (named fresh) r in
      let (map_same, order_same) = update-trips p (named fresh) r in
      let v' = update-IsSound p (named fresh) r v in
      let new' : find i r'.trips ≡ none = rw map_same new in
      let grown : put i p r'.trips ≡ r'.trips ++ ((i, p) ∷ []) = put_new i p r'.trips new' in
      let made = record r' { trips = put i p r'.trips; order = r'.order ++ (i ∷ []) } in
      let room : p < length r'.heap =
        omega (arith, length-update p (named fresh) r, lt_of_get_elem? r.heap p t e) in
      (
        made,
        rw (e, create),
        record {
          ordered = rw (grown, keys-append) (ap (λ k. k ++ (i ∷ [])) v'.ordered);
          keyed = rw grown (IsKeyed-append i p r'.trips v'.keyed new');
          valid = rw grown (All-append _ r'.trips ((i, p) ∷ []) v'.valid (room, tt));
        },
        λ j. get_by_id-put i j p r made (rw (find-put, map_same)),
        λ q. get_elem?-update p q (named fresh) r t e,
        ap (λ o. o ++ (i ∷ [])) order_same,
      )

  -- What an update of the trip of ID `i` by `f` comes to: an unknown ID fails, a known one changes its
  -- object by `f` and nothing else.
  abbrev pub Updates : Bytes → (Trip F → Trip F) → Repository F → Outcome (Repository F) → Type 0
  Updates i f r result =
      ((find i r.trips ≡ none) × (result ≡ not_found i))
      ⊎ ((p : ℕ) × (t : Trip F) × (r' : Repository F) × (find i r.trips ≡ some p)
          × (get_elem? r.heap p ≡ some t)
          × (result ≡ ok r')
          × IsSound r'
          × (r'.trips ≡ r.trips)
          × (r'.order ≡ r.order)
          × ((q : ℕ) → get_elem? r'.heap q ≡ (if p == q then some (f t) else get_elem? r.heap q)))

  update-Updates :
      (i : Bytes) (f : Trip F → Trip F) (r : Repository F) (result : Outcome (Repository F))
      → IsSound r
      → (find i r.trips ≡ none → result ≡ not_found i)
      → ((p : ℕ) → find i r.trips ≡ some p → result ≡ ok (update p f r))
      → Updates i f r result
  update-Updates i f r result v failed done = elim (Option-cases (find i r.trips)) [
    | inl e ↦ inl (e, failed e)
    | inr (p, e) ↦
        let (t, here) = get_elem?_lt r.heap p (find-valid i p _ r.trips v.valid e) in
        let (map_same, order_same) = update-trips p f r in
        inr (
          p,
          t,
          update p f r,
          e,
          here,
          done p e,
          update-IsSound p f r v,
          map_same,
          order_same,
          λ q. get_elem?-update p q f r t here,
        )
  ]

  -- `UpdateStatus` on a sound repository: not found, or exactly that trip's status changes.
  update_status-Updates :
      (i : Bytes) (s : TripStatus) (r : Repository F)
      → IsSound r
      → Updates i (λ t. record t { status = s }) r (update_status i s r)
  unfolding update_status
  update_status-Updates i s r v =
      update-Updates i _ r _ v (λ e. rw (e, update_status)) (λ p e. rw (e, update_status))

  -- `UpdateDispatch` on a sound repository: not found, or exactly that trip's driver and status
  -- change, both at once.
  update_dispatch-Updates :
      (i : Bytes) (d : Option Bytes) (s : TripStatus) (r : Repository F)
      → IsSound r
      → Updates i (λ t. record t { driver_id = d; status = s }) r (update_dispatch i d s r)
  unfolding update_dispatch
  update_dispatch-Updates i d s r v =
      update-Updates i _ r _ v (λ e. rw (e, update_dispatch)) (λ p e. rw (e, update_dispatch))
