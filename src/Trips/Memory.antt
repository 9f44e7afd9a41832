-- ===== src/Trips/Memory.antt =====
-- `MemoryTripRepository` of backend/internal/repositories/trip_repository.go. Trips are objects on a
-- heap: a pointer is an index into it, and the repository shares its pointers with its callers.
use nyc_taxi_real_time_eta_p.Common.{
  ℕ, ◌+◌, ◌-◌, Bool, not, ◌&&◌, ◌||◌, List, [], ◌∷◌, ◌++◌, reverse, Option, none, some, ltb,
  if◌then◌else◌, length, take, drop, get_elem?, set,
}
use nyc_taxi_real_time_eta_p.Common.Bytes.{Bytes, bytes_eq}
use nyc_taxi_real_time_eta_p.Common.Int.{ℤ, pos, negsuc, ltb_ℤ, leb_ℤ, add_int}
use nyc_taxi_real_time_eta_p.Models.{Trip, TripStatus, trip_pending, trip_dispatched}

-- `panics` is a run-time panic.
pub data Outcome {ℓ} (A : Type ℓ) : Type ℓ where
  ok : A → Outcome A
  not_found : Bytes → Outcome A
  panics : Outcome A

infixl 5 ◌>>=◌
abbrev pub ◌>>=◌ {ℓ κ} : {A : Type ℓ} {B : Type κ} → Outcome A → (A → Outcome B) → Outcome B
ok a >>= f = f a
not_found i >>= f = not_found i
panics >>= f = panics

pub record Repository (F : Type 0) : Type 0 where
  pub heap : List (Trip F)
  -- The map from IDs to pointers, and the IDs in the order of insertion.
  pub trips : List (Bytes × ℕ)
  pub order : List Bytes

unfoldable pub find : Bytes → List (Bytes × ℕ) → Option ℕ
find i [] = none
find i ((j, p) ∷ m) = if bytes_eq j i then some p else find i m

-- `m[i] = p`.
unfoldable pub put : Bytes → ℕ → List (Bytes × ℕ) → List (Bytes × ℕ)
put i p [] = (i, p) ∷ []
put i p ((j, q) ∷ m) = if bytes_eq j i then (i, p) ∷ m else (j, q) ∷ put i p m

-- `result[lo:hi]`.
unfoldable pub slice : ℤ → ℤ → List ℕ → Outcome (List ℕ)
slice (pos lo) (pos hi) xs =
    if ltb hi lo || ltb (length xs) hi then panics else ok (take (hi - lo) (drop lo xs))
slice (pos lo) (negsuc hi) xs = panics
slice (negsuc lo) hi xs = panics

unfoldable pub page : ℤ → ℤ → List ℕ → Outcome (List ℕ)
unfolding slice
page limit offset result =
    let len = pos (length result) in
    let end = add_int offset limit in
    let stop = if ltb_ℤ len end || leb_ℤ limit (pos 0) then len else end in
    if leb_ℤ len offset then ok [] else slice offset stop result

module _ {F : Type 0} where
  -- A write to the object at `p`, which the callers of the repository make as well.
  unfoldable pub update : ℕ → (Trip F → Trip F) → Repository F → Repository F
  update p f r = elim (get_elem? r.heap p) [
    | none ↦ r
    | some t ↦ record r { heap = set r.heap p (f t) }
  ]

  -- A `&models.Trip{…}`: the repository with the new object, and the pointer to it.
  unfoldable pub alloc : Trip F → Repository F → Repository F × ℕ
  alloc t r = (record r { heap = r.heap ++ (t ∷ []) }, length r.heap)

  unfoldable pub named : Bytes → Trip F → Trip F
  named fresh t = record t { id = if bytes_eq t.id [] then fresh else t.id }

  -- `fresh` is what `idgen.NewID` returns if it is asked. A nil pointer panics.
  unfoldable pub create : Bytes → ℕ → Repository F → Outcome (Repository F)
  unfolding named update put
  create fresh p r = elim (get_elem? r.heap p) [
    | none ↦ panics
    | some t ↦
        let r' = update p (named fresh) r in
        let i = (named fresh t).id in
        ok (record r' { trips = put i p r'.trips; order = r'.order ++ (i ∷ []) })
  ]

  unfoldable pub get_by_id : Bytes → Repository F → Outcome ℕ
  unfolding find
  get_by_id i r = elim (find i r.trips) [ none ↦ not_found i | some p ↦ ok p ]

  -- `r.trips[id]` and its fields: a missing key gives nil, whose fields panic.
  unfoldable pub deref : Bytes → Repository F → Outcome (ℕ × Trip F)
  unfolding find
  deref i r = elim (find i r.trips) [
    | none ↦ panics
    | some p ↦ elim (get_elem? r.heap p) [ none ↦ panics | some t ↦ ok (p, t) ]
  ]

  -- `status != "" && string(t.Status) != status`.
  unfoldable pub is_skipped : Bytes → Trip F → Bool
  is_skipped status t = not (bytes_eq status []) && not (bytes_eq t.status status)

  -- The loop of `List` over the IDs that are left, newest first.
  unfoldable pub collect : Bytes → Repository F → List Bytes → Outcome (List ℕ)
  unfolding is_skipped
  collect status r [] = ok []
  collect status r (i ∷ is) = do
    (p, t) ← deref i r
    result ← collect status r is
    ok (if is_skipped status t then result else p ∷ result)

  unfoldable pub list : Bytes → ℤ → ℤ → Repository F → Outcome (List ℕ)
  list status limit offset r = do
    result ← collect status r (reverse r.order)
    page limit offset result

  unfoldable pub update_status : Bytes → TripStatus → Repository F → Outcome (Repository F)
  unfolding find update
  update_status i s r = elim (find i r.trips) [
    | none ↦ not_found i
    | some p ↦ ok (update p (λ t. record t { status = s }) r)
  ]

  unfoldable pub update_dispatch :
      Bytes → Option Bytes → TripStatus → Repository F → Outcome (Repository F)
  unfolding find update
  update_dispatch i d s r = elim (find i r.trips) [
    | none ↦ not_found i
    | some p ↦ ok (update p (λ t. record t { driver_id = d; status = s }) r)
  ]

  unfoldable pub is_active : Trip F → Bool
  is_active t = bytes_eq t.status trip_pending || bytes_eq t.status trip_dispatched

  -- The loop of `ActiveCount` over the entries of the map.
  unfoldable pub count_active : List (Trip F) → List (Bytes × ℕ) → Outcome ℕ
  unfolding is_active
  count_active heap [] = ok 0
  count_active heap ((i, p) ∷ m) = elim (get_elem? heap p) [
    | none ↦ panics
    | some t ↦ (do n ← count_active heap m; ok (if is_active t then n + 1 else n))
  ]

  unfoldable pub active_count : Repository F → Outcome ℕ
  unfolding count_active
  active_count r = count_active r.heap r.trips
