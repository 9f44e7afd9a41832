-- ===== src/Handlers/Queries.antt =====
-- `GetTrip`, `ListTrips` and `parseIntDefault` of backend/internal/handlers/handlers.go over the
-- in-memory trips.
use nyc_taxi_real_time_eta_p.Common.{
  ℕ, ◌+◌, ◌^◌, ◌<◌, ◌≡◌, refl, ap, ◌∙◌, List, [], ◌∷◌, reverse, none, some, if◌then◌else◌, ◌==◌,
  take, drop,
}
use nyc_taxi_real_time_eta_p.Common.Bytes.{Bytes}
use nyc_taxi_real_time_eta_p.Common.Int.{ℤ, pos, negsuc}
use nyc_taxi_real_time_eta_p.Redis.Decimal.{atoi}
use nyc_taxi_real_time_eta_p.Trips.Memory
use nyc_taxi_real_time_eta_p.Trips.Memory.{Repository, find, get_by_id, list, page}
use nyc_taxi_real_time_eta_p.Trips.Page.{page_panics}
use nyc_taxi_real_time_eta_p.Trips.Records.{IsSound}
use nyc_taxi_real_time_eta_p.Trips.Listing.{select, collect_sound, list-select}

-- 200 with what the pointers lead to, 404, 500; `panics` is a run-time panic.
pub data Reply : Type 0 where
  trip : ℕ → Reply
  trips : List ℕ → Reply
  not_found server_error panics : Reply

-- `strconv.Atoi`, with the default for an empty string and for one that is no number.
unfoldable pub parse_int_default : Bytes → ℤ → ℤ
parse_int_default s fallback = elim s [
  | [] ↦ fallback
  | c ∷ t ↦ elim (atoi (c ∷ t)) [ none ↦ fallback | some n ↦ n ]
]

unfoldable pub answer_list : Memory.Outcome (List ℕ) → Reply
answer_list (Memory.ok ps) = trips ps
answer_list (Memory.not_found j) = server_error
answer_list Memory.panics = panics

module _ {F : Type 0} where
  unfoldable pub get_trip : Bytes → Repository F → Reply
  get_trip i r = elim (get_by_id i r) [
    | Memory.ok p ↦ trip p
    | Memory.not_found j ↦ not_found
    | Memory.panics ↦ panics
  ]

  -- The three parameters of the query, empty where they are missing.
  unfoldable pub list_trips : Bytes → Bytes → Bytes → Repository F → Reply
  unfolding parse_int_default answer_list
  list_trips status limit offset r =
      answer_list
        (list status (parse_int_default limit (pos 20)) (parse_int_default offset (pos 0)) r)

  listed :
      (status limit offset : Bytes) (r : Repository F) (l o : ℤ) (result : Memory.Outcome (List ℕ))
      → parse_int_default limit (pos 20) ≡ l
      → parse_int_default offset (pos 0) ≡ o
      → list status l o r ≡ result
      → list_trips status limit offset r ≡ answer_list result
  unfolding list_trips
  listed status limit offset r l o result a b e =
      ap (λ x. answer_list (list status x (parse_int_default offset (pos 0)) r)) a
      ∙ ap (λ x. answer_list (list status l x r)) b
      ∙ ap answer_list e

  list_negative :
      (status : Bytes) (l : ℤ) (k : ℕ) (r : Repository F)
      → IsSound r
      → list status l (negsuc k) r ≡ Memory.panics
  unfolding list
  list_negative status l k r v =
      rw (collect_sound status r v) (page_panics k l (select status r.heap (reverse r.trips)))

  -- `ListTrips` on a sound repository, with a limit and an offset that read as numbers from 0 on whose
  -- sum fits an `int` (20 and 0 where they are missing or no numbers), answers the page of the newest
  -- trips of that status.
  pub list_trips-select :
      (status limit offset : Bytes) (l o : ℕ) (r : Repository F)
      → IsSound r
      → parse_int_default limit (pos 20) ≡ pos l
      → parse_int_default offset (pos 0) ≡ pos o
      → o + l < 2 ^ 63
      → let newest = select status r.heap (reverse r.trips) in
        list_trips status limit offset r
        ≡ trips (if l == 0 then drop o newest else take l (drop o newest))
  unfolding answer_list
  list_trips-select status limit offset l o r v a b h =
      listed status limit offset r (pos l) (pos o) _ a b (list-select status o l r v h)

  -- `ListTrips` on a sound repository panics on an offset that reads as a number below 0.
  list_trips_panics :
      (status limit offset : Bytes) (k : ℕ) (r : Repository F)
      → IsSound r
      → parse_int_default offset (pos 0) ≡ negsuc k
      → list_trips status limit offset r ≡ panics
  unfolding answer_list
  list_trips_panics status limit offset k r v b =
      let l = parse_int_default limit (pos 20) in
      listed status limit offset r l (negsuc k) _ refl b (list_negative status l k r v)
