-- ===== src/Trips/Page.antt =====
-- The paging at the end of `List` of backend/internal/repositories/trip_repository.go, with Go's
-- 64-bit arithmetic and slice bounds.
use nyc_taxi_real_time_eta_p.Common.{
  ℕ, zero, suc, ◌+◌, ◌-◌, ◌^◌, ◌≤◌, ◌<◌, ◌≡◌, refl, ap, List, [], ◌∷◌, arith, ◌==◌, if◌then◌else◌,
  length, take, drop, length-drop,
}
use nyc_taxi_real_time_eta_p.Common.Int.{ℤ, pos, negsuc, add_int}
use nyc_taxi_real_time_eta_p.Trips.Memory.{ok, panics, page}

take_all : (n : ℕ) (xs : List ℕ) → length xs ≤ n → take n xs ≡ xs
take_all zero [] h = refl
take_all zero (x ∷ xs) h = absurd (omega arith)
take_all (suc n) [] h = refl
take_all (suc n) (x ∷ xs) h = ap (λ r. x ∷ r) (take_all n xs (omega arith))

drop_all : (n : ℕ) (xs : List ℕ) → length xs ≤ n → drop n xs ≡ []
drop_all zero [] h = refl
drop_all zero (x ∷ xs) h = absurd (omega arith)
drop_all (suc n) [] h = refl
drop_all (suc n) (x ∷ xs) h = drop_all n xs (omega arith)

add_small : (o l : ℕ) → o + l < 2 ^ 63 → add_int (pos o) (pos l) ≡ pos (o + l)
unfolding add_int
add_small o l h = ground arith

add_large :
    (o l : ℕ)
    → o < 2 ^ 63
    → l < 2 ^ 63
    → 2 ^ 63 ≤ o + l
    → add_int (pos o) (pos l) ≡ negsuc (2 ^ 64 - 1 - (o + l))
unfolding add_int
add_large o l ho hl h = ground arith

-- With an offset and a limit from 0 on whose sum fits an `int`, the page is what a limit of 0
-- leaves whole and any other cuts off, behind the offset.
pub page_in_range :
    (o l : ℕ) (xs : List ℕ)
    → o + l < 2 ^ 63
    → page (pos l) (pos o) xs ≡ ok (if l == 0 then drop o xs else take l (drop o xs))
unfolding page
page_in_range o l xs h =
    rw (add_small o l h, page)
      (ground (
        arith,
        drop_all o xs,
        take_all (length xs - o) (drop o xs),
        take_all l (drop o xs),
        length-drop o xs,
      ))

-- A limit below 0 is no limit.
pub page_no_limit : (o k : ℕ) (xs : List ℕ) → page (negsuc k) (pos o) xs ≡ ok (drop o xs)
unfolding page
page_no_limit o k xs =
    ground (arith, drop_all o xs, take_all (length xs - o) (drop o xs), length-drop o xs)

-- An offset below 0 panics, whatever the limit.
pub page_panics : (k : ℕ) (limit : ℤ) (xs : List ℕ) → page limit (negsuc k) xs ≡ panics
unfolding page
page_panics k limit xs = ground arith

-- An offset inside the list panics if its sum with the limit overflows.
page_overflow_panics :
    (o l : ℕ) (xs : List ℕ)
    → o < length xs
    → o < 2 ^ 63
    → l < 2 ^ 63
    → 2 ^ 63 ≤ o + l
    → page (pos l) (pos o) xs ≡ panics
unfolding page
page_overflow_panics o l xs hx ho hl h = rw (add_large o l ho hl h, page) (ground arith)
