-- ===== src/Trips/Table.antt =====
-- The table `trips` as an abstract value: its rows, the newest first and those of one time by
-- descending ID, and what a store of trips promises of its operations.
use nyc_taxi_real_time_eta_p.Common.{
  ℕ, zero, suc, ◌+◌, ◌≤◌, ◌≡◌, refl, ap, ◌∙◌, sym, ◌≢◌, true, false, ◌⊎◌, inl, inr, Bool, ◌&&◌,
  ◌||◌, List, [], ◌∷◌, Option, none, some, arith, ltb, ◌==◌, if◌then◌else◌, take, drop, Bool-cases,
}
use nyc_taxi_real_time_eta_p.Common.Bytes.{
  Bytes, codes, bytes_eq, bytes_eq_refl, bytes_eq_sound, bytes_eq-false, bytes_lt, or_else,
}
use nyc_taxi_real_time_eta_p.Common.Int.{ℤ, pos, negsuc}
use nyc_taxi_real_time_eta_p.Models.{Trip, TripStatus}

-- The time, or the other one where it is Go's zero time.
abbrev pub or_now : ℕ → ℕ → ℕ
or_now zero now = now
or_now (suc n) now = suc n

module _ {F : Type 0} where
  unfoldable pub row_of : Bytes → List (Trip F) → Option (Trip F)
  row_of i [] = none
  row_of i (t ∷ ts) = if bytes_eq t.id i then some t else row_of i ts

  -- Whether the row `t` comes before the row `u`.
  unfoldable pub is_newer : Trip F → Trip F → Bool
  is_newer t u =
      ltb u.created_at t.created_at || (u.created_at == t.created_at && bytes_lt u.id t.id)

  unfoldable pub insert_row : Trip F → List (Trip F) → List (Trip F)
  unfolding is_newer
  insert_row t [] = t ∷ []
  insert_row t (u ∷ ts) = if is_newer t u then t ∷ u ∷ ts else u ∷ insert_row t ts

  unfoldable pub update_rows : Bytes → (Trip F → Trip F) → List (Trip F) → List (Trip F)
  update_rows i f [] = []
  update_rows i f (t ∷ ts) = (if bytes_eq t.id i then f t else t) ∷ update_rows i f ts

  unfoldable pub matching : Bytes → List (Trip F) → ℕ
  matching i [] = 0
  matching i (t ∷ ts) = (if bytes_eq t.id i then 1 else 0) + matching i ts

  unfoldable pub with_status : Bytes → List (Trip F) → List (Trip F)
  with_status status [] = []
  with_status status (t ∷ ts) =
      if bytes_eq status [] || bytes_eq t.status status
      then t ∷ with_status status ts
      else with_status status ts

  -- The row that a trip becomes: where it has none, the fresh ID, the times of the clock and the
  -- status PENDING; and each time as the column keeps it.
  abbrev pub filled : (ℕ → ℕ) → Bytes → ℕ → ℕ → Trip F → Trip F
  filled rounded fresh requested_at created_at t = record {
    id = or_else t.id fresh;
    pickup_lat = t.pickup_lat;
    pickup_lng = t.pickup_lng;
    dropoff_lat = t.dropoff_lat;
    dropoff_lng = t.dropoff_lng;
    passenger_count = t.passenger_count;
    requested_at = rounded (or_now t.requested_at requested_at);
    predicted_duration_sec = t.predicted_duration_sec;
    actual_duration_sec = t.actual_duration_sec;
    status = or_else t.status (codes "PENDING");
    driver_id = t.driver_id;
    created_at = rounded (or_now t.created_at created_at);
  }

  unfoldable pub active_rows : List (Trip F) → ℕ
  active_rows [] = 0
  active_rows (t ∷ ts) =
      (if bytes_eq t.status (codes "PENDING") || bytes_eq t.status (codes "DISPATCHED")
        then 1
        else 0)
      + active_rows ts

-- A call of a store, and its answer. `creates` has the ID and the times that a trip gets where it has
-- none.
pub data Op (F : Type 0) : Type 0 where
  creates : Bytes → ℕ → ℕ → Trip F → Op F
  gets : Bytes → Op F
  lists : Bytes → ℤ → ℤ → Op F
  sets_status : Bytes → TripStatus → Op F
  sets_dispatch : Bytes → Option Bytes → TripStatus → Op F
  counts : Op F

pub data Answer (F : Type 0) : Type 0 where
  done not_found failed : Answer F
  trip : Trip F → Answer F
  trips : List (Trip F) → Answer F
  count : ℕ → Answer F

-- How many rows a page has at most, and how many it skips.
abbrev pub page_size : ℤ → ℕ
page_size (pos n) = if n == 0 then 100 else if ltb 500 n then 500 else n
page_size (negsuc n) = 100

abbrev pub skipped : ℤ → ℕ
skipped (pos n) = n
skipped (negsuc n) = 0

module _ {F : Type 0} where
  abbrev pub found : Option (Trip F) → Answer F
  found none = not_found
  found (some t) = trip t

  -- A second row of one ID is refused; a change of an unknown ID is not found.
  abbrev pub answer : (ℕ → ℕ) → List (Trip F) → Op F → Answer F
  answer rounded rows (creates fresh a b t) = elim (row_of (or_else t.id fresh) rows) [
    | none ↦ trip (filled rounded fresh a b t)
    | some u ↦ failed
  ]
  answer rounded rows (gets i) = found (row_of i rows)
  answer rounded rows (lists status limit offset) =
      trips (take (page_size limit) (drop (skipped offset) (with_status status rows)))
  answer rounded rows (sets_status i s) = elim (row_of i rows) [ none ↦ not_found | some t ↦ done ]
  answer rounded rows (sets_dispatch i d s) = elim (row_of i rows) [
    | none ↦ not_found
    | some t ↦ done
  ]
  answer rounded rows counts = count (active_rows rows)

  abbrev pub effect : (ℕ → ℕ) → List (Trip F) → Op F → List (Trip F)
  effect rounded rows (creates fresh a b t) = elim (row_of (or_else t.id fresh) rows) [
    | none ↦ insert_row (filled rounded fresh a b t) rows
    | some u ↦ rows
  ]
  effect rounded rows (gets i) = rows
  effect rounded rows (lists status limit offset) = rows
  effect rounded rows (sets_status i s) = update_rows i (λ t. record t { status = s }) rows
  effect rounded rows (sets_dispatch i d s) =
      update_rows i (λ t. record t { driver_id = d; status = s }) rows
  effect rounded rows counts = rows

  -- What a call answers that the database fails on.
  abbrev pub failure : Op F → Answer F
  failure counts = count 0
  failure (creates fresh a b t) = failed
  failure (gets i) = failed
  failure (lists status limit offset) = failed
  failure (sets_status i s) = failed
  failure (sets_dispatch i d s) = failed

  -- A call fails and changes no row, or it answers and does what it says.
  abbrev pub Does : (ℕ → ℕ) → List (Trip F) → Op F → Answer F → List (Trip F) → Type 0
  Does rounded rows op a rows' =
      ((a ≡ failure op) × (rows' ≡ rows))
      ⊎ ((a ≡ answer rounded rows op) × (rows' ≡ effect rounded rows op))

  abbrev pub DoesAll :
      (ℕ → ℕ) → List (Trip F) → List (Op F) → List (Answer F) → List (Trip F) → Type 0
  DoesAll rounded rows [] [] rows' = rows' ≡ rows
  DoesAll rounded rows [] (a ∷ answers) rows' = ⊥
  DoesAll rounded rows (op ∷ ops) [] rows' = ⊥
  DoesAll rounded rows (op ∷ ops) (a ∷ answers) rows' =
      (mid : List (Trip F)) × Does rounded rows op a mid × DoesAll rounded mid ops answers rows'

  -- As many rows have the ID as are found.
  pub matching-row_of :
      (i : Bytes) (rows : List (Trip F))
      → ((matching i rows ≡ 0) × (row_of i rows ≡ none))
        ⊎ ((1 ≤ matching i rows) × ((t : Trip F) × (row_of i rows ≡ some t)))
  unfolding matching row_of
  matching-row_of i [] = inl (refl, refl)
  matching-row_of i (t ∷ ts) = elim (Bool-cases (bytes_eq t.id i)) [
    | inl e ↦ inr (rw e (omega arith), (t, rw e))
    | inr e ↦ elim (matching-row_of i ts) [
      | inl (m, r) ↦ inl (rw e (omega (arith, m)), rw e r)
      | inr (m, (u, r)) ↦ inr (rw e (omega (arith, m)), (u, rw e r))
    ]
  ]

  -- A change of an ID that no row has changes no row.
  pub update_rows-none :
      (i : Bytes) (f : Trip F → Trip F) (rows : List (Trip F))
      → row_of i rows ≡ none
      → update_rows i f rows ≡ rows
  unfolding update_rows row_of
  update_rows-none i f [] h = refl
  update_rows-none i f (t ∷ ts) h = elim (Bool-cases (bytes_eq t.id i)) [
    | inl e ↦ cc (rw e at h)
    | inr e ↦ rw e (ap (λ r. t ∷ r) (update_rows-none i f ts (rw e at h)))
  ]

  -- What is found after an insertion under a new ID.
  pub row_of-insert_row :
      (t : Trip F) (rows : List (Trip F))
      → row_of t.id rows ≡ none
      → row_of t.id (insert_row t rows) ≡ some t
  unfolding row_of insert_row
  row_of-insert_row t [] h = rw (bytes_eq_refl t.id)
  row_of-insert_row t (u ∷ ts) h = elim (Bool-cases (bytes_eq u.id t.id)) [
    | inl e ↦ cc (rw e at h)
    | inr e ↦ elim (Bool-cases (is_newer t u)) [
      | inl n ↦ rw n (rw (bytes_eq_refl t.id))
      | inr n ↦ rw n (rw e (row_of-insert_row t ts (rw e at h)))
    ]
  ]

  -- What is found after a change that keeps the ID.
  pub row_of-update_rows :
      (i : Bytes) (f : Trip F → Trip F) (t : Trip F) (rows : List (Trip F))
      → ((u : Trip F) → (f u).id ≡ u.id)
      → row_of i rows ≡ some t
      → row_of i (update_rows i f rows) ≡ some (f t)
  unfolding row_of update_rows
  row_of-update_rows i f t [] keeps h = cc
  row_of-update_rows i f t (u ∷ ts) keeps h = elim (Bool-cases (bytes_eq u.id i)) [
    | inl e ↦
        let same : u ≡ t = cc (rw e at h) in
        let e' : bytes_eq (f u).id i ≡ true = ap (λ x. bytes_eq x i) (keeps u) ∙ e in
        rw e (rw e' (ap (λ x. some (f x)) same))
    | inr e ↦ rw e (rw e (row_of-update_rows i f t ts keeps (rw e at h)))
  ]

  -- Rows of other IDs.
  pub row_of-insert_other :
      (t : Trip F) (j : Bytes) (rows : List (Trip F))
      → bytes_eq t.id j ≡ false
      → row_of j (insert_row t rows) ≡ row_of j rows
  unfolding row_of insert_row
  row_of-insert_other t j [] h = rw h
  row_of-insert_other t j (u ∷ ts) h = elim (Bool-cases (is_newer t u)) [
    | inl n ↦ rw n (rw h)
    | inr n ↦ rw n (ap (λ r. if bytes_eq u.id j then some u else r) (row_of-insert_other t j ts h))
  ]

  pub row_of-update_other :
      (i j : Bytes) (f : Trip F → Trip F) (rows : List (Trip F))
      → ((u : Trip F) → (f u).id ≡ u.id)
      → i ≢ j
      → row_of j (update_rows i f rows) ≡ row_of j rows
  unfolding row_of update_rows
  row_of-update_other i j f [] keeps h = refl
  row_of-update_other i j f (u ∷ ts) keeps h =
      let rest = row_of-update_other i j f ts keeps h in
      elim (Bool-cases (bytes_eq u.id i)) [
        | inl e ↦
            let other : bytes_eq u.id j ≡ false =
              bytes_eq-false u.id j (λ q. h (sym (bytes_eq_sound u.id i e) ∙ q)) in
            let other' : bytes_eq (f u).id j ≡ false = ap (λ x. bytes_eq x j) (keeps u) ∙ other in
            rw e (rw other' (rw other rest))
        | inr e ↦ rw e (ap (λ r. if bytes_eq u.id j then some u else r) rest)
      ]
