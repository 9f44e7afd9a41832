-- ===== src/Trips/Listing.antt =====
-- `List` and `ActiveCount` of backend/internal/repositories/trip_repository.go over a sound
-- repository.
use mathlib.Core.List.{reverse-cons}
use nyc_taxi_real_time_eta_p.Common.{
  ℕ, ◌+◌, ◌^◌, ◌<◌, ◌≡◌, refl, sym, ap, ◌∙◌, inl, inr, true, false, List, [], ◌∷◌, ◌++◌, reverse,
  none, some, arith, if◌then◌else◌, ◌==◌, length, length-append, get_elem?, take, drop, All,
  All-reverse, All-mono, Option-cases,
}
use nyc_taxi_real_time_eta_p.Common.Bytes.{Bytes, bytes_eq, bytes_eq_iff, bytes_eq_refl}
use nyc_taxi_real_time_eta_p.Common.Elements.{get_elem?_lt}
use nyc_taxi_real_time_eta_p.Common.Int.{pos}
use nyc_taxi_real_time_eta_p.Models.{Trip, trip_pending, trip_dispatched}
use nyc_taxi_real_time_eta_p.Trips.Memory.{
  Repository, ok, find, deref, is_skipped, collect, list, is_active, count_active, active_count,
}
use nyc_taxi_real_time_eta_p.Trips.Page.{page_in_range}
use nyc_taxi_real_time_eta_p.Trips.Records.{IsSound, IsKeyed, keys, keys-append}

keys_read : (m : List (Bytes × ℕ)) → IsKeyed m → All (λ e. find e.0 m ≡ some e.1) m
unfolding find
keys_read [] h = tt
keys_read ((i, p) ∷ m) h = (
  ground (arith, bytes_eq_refl i),
  All-mono (λ e. find e.0 m ≡ some e.1) (λ e. find e.0 ((i, p) ∷ m) ≡ some e.1)
      (λ e q. ground (arith, bytes_eq_iff i e.0)) m (keys_read m h.1),
)

zip_All :
    (P Q : Bytes × ℕ → Type 0) (m : List (Bytes × ℕ)) → All P m → All Q m → All (λ e. P e × Q e) m
zip_All P Q [] h k = tt
zip_All P Q (e ∷ m) h k = ((h.0, k.0), zip_All P Q m h.1 k.1)

keys-reverse : (m : List (Bytes × ℕ)) → keys (reverse m) ≡ reverse (keys m)
keys-reverse [] = refl
keys-reverse ((i, p) ∷ m) =
    rw (reverse-cons (i, p) m, keys-append, keys-reverse m) (sym (reverse-cons i (keys m)))

some_status : (bytes_eq trip_pending [] ≡ false) × (bytes_eq trip_dispatched [] ≡ false)
unfolding bytes_eq
some_status = (refl, refl)

pending_or_dispatched :
    (s : Bytes) → bytes_eq s trip_pending ≡ true → bytes_eq s trip_dispatched ≡ false
unfolding bytes_eq
pending_or_dispatched s h = rw ((bytes_eq_iff s trip_pending).0 h)

module _ {F : Type 0} where
  -- The pointers of the entries whose trip has the status asked for (any, if that is empty).
  unfoldable pub select : Bytes → List (Trip F) → List (Bytes × ℕ) → List ℕ
  select s heap [] = []
  select s heap ((i, p) ∷ m) = elim (get_elem? heap p) [
    | none ↦ select s heap m
    | some t ↦ if is_skipped s t then select s heap m else p ∷ select s heap m
  ]

  -- Entries that the map gives back, with objects behind their pointers.
  abbrev IsRead : Repository F → Bytes × ℕ → Type 0
  IsRead r e = (find e.0 r.trips ≡ some e.1) × (e.1 < length r.heap)

  collect-select :
      (s : Bytes) (r : Repository F) (m : List (Bytes × ℕ))
      → All (IsRead r) m
      → collect s r (keys m) ≡ ok (select s r.heap m)
  unfolding collect select deref
  collect-select s r [] h = refl
  collect-select s r ((i, p) ∷ m) h =
      let (t, e) = get_elem?_lt r.heap p h.0.1 in
      rw (h.0.0, deref) (rw (e, collect-select s r m h.1) (rw (e, select)))

  pub collect_sound :
      (s : Bytes) (r : Repository F)
      → IsSound r
      → collect s r (reverse r.order) ≡ ok (select s r.heap (reverse r.trips))
  collect_sound s r v =
      let read =
        All-reverse (IsRead r) r.trips (zip_All _ _ r.trips (keys_read r.trips v.keyed) v.valid) in
      ap (collect s r) (sym (keys-reverse r.trips ∙ ap reverse v.ordered))
      ∙ collect-select s r (reverse r.trips) read

  -- On a sound repository, with an offset and a limit from 0 on whose sum fits an `int`, `List`
  -- returns the trips of the status asked for (all, if it is empty), newest first: those behind the
  -- offset, as many as the limit says, or all of them for a limit of 0. It does not panic.
  pub list-select :
      (s : Bytes) (o l : ℕ) (r : Repository F)
      → IsSound r
      → o + l < 2 ^ 63
      → let newest = select s r.heap (reverse r.trips) in
        list s (pos l) (pos o) r ≡ ok (if l == 0 then drop o newest else take l (drop o newest))
  unfolding list
  list-select s o l r v h = rw (collect_sound s r v) (page_in_range o l _ h)

  select-append :
      (s : Bytes) (heap : List (Trip F)) (m n : List (Bytes × ℕ))
      → select s heap (m ++ n) ≡ select s heap m ++ select s heap n
  unfolding select
  select-append s heap [] n = refl
  select-append s heap ((i, p) ∷ m) n = elim (Option-cases (get_elem? heap p)) [
    | inl e ↦ rw (e, select) (select-append s heap m n)
    | inr (t, e) ↦ rw (e, select) (ground (arith, select-append s heap m n))
  ]

  length-select-reverse :
      (s : Bytes) (heap : List (Trip F)) (m : List (Bytes × ℕ))
      → length (select s heap (reverse m)) ≡ length (select s heap m)
  length-select-reverse s heap [] = refl
  length-select-reverse s heap (e ∷ m) =
      rw (reverse-cons e m, select-append, length-append)
        (omega (
          arith,
          length-select-reverse s heap m,
          ap length (select-append s heap (e ∷ []) m),
          length-append (select s heap (e ∷ [])) (select s heap m),
        ))

  -- A trip is pending, or dispatched, or neither, and is counted accordingly.
  status_once :
      (t : Trip F)
      → (if is_active t then 1 else 0)
        ≡ (if is_skipped trip_pending t then 0 else 1)
          + (if is_skipped trip_dispatched t then 0 else 1)
  unfolding is_active is_skipped
  status_once t = ground (arith, some_status, pending_or_dispatched t.status)

  count_active-select :
      (heap : List (Trip F)) (m : List (Bytes × ℕ))
      → All (λ e. e.1 < length heap) m
      → count_active heap m
        ≡ ok (length (select trip_pending heap m) + length (select trip_dispatched heap m))
  unfolding count_active select
  count_active-select heap [] h = refl
  count_active-select heap ((i, p) ∷ m) h =
      let (t, e) = get_elem?_lt heap p h.0 in
      ground (arith, e, count_active-select heap m h.1, status_once t)

  -- On a sound repository `ActiveCount` counts the trips that the lists of the two active statuses
  -- hold, which `List` returns without a limit.
  active_count-list :
      (r : Repository F)
      → IsSound r
      → (ps ds : List ℕ) × (list trip_pending (pos 0) (pos 0) r ≡ ok ps)
        × (list trip_dispatched (pos 0) (pos 0) r ≡ ok ds)
        × (active_count r ≡ ok (length ps + length ds))
  unfolding active_count
  active_count-list r v = (
    select trip_pending r.heap (reverse r.trips),
    select trip_dispatched r.heap (reverse r.trips),
    list-select trip_pending 0 0 r v (omega arith),
    list-select trip_dispatched 0 0 r v (omega arith),
    rw (length-select-reverse, length-select-reverse) (count_active-select r.heap r.trips v.valid),
  )
