-- ===== src/Simulator/Loading.antt =====
-- What `loadRows` of backend/simulator/cmd/simulator/simulator_main.go returns.
use mathlib.Core.List.{Perm}
use nyc_taxi_real_time_eta_p.Common.{
  ℕ, suc, ◌+◌, ◌≤◌, ◌<◌, ◌≡◌, ◌≢◌, refl, ap, ◌∙◌, inl, inr, ◌&&◌, List, [], ◌∷◌, ◌++◌, map,
  append-nil, Option, some, arith, ltb, length, length-take, take-drop, drop, All, Bool-cases,
  Option-cases,
}
use nyc_taxi_real_time_eta_p.Common.Bytes.{Bytes, codes, bytes_eq}
use nyc_taxi_real_time_eta_p.Common.Elements.{get_elem?_lt}
use nyc_taxi_real_time_eta_p.Common.Int.{ℤ, pos, negsuc}
use nyc_taxi_real_time_eta_p.Common.Sorting.{
  IsSorted, sort_by, sort_by-Perm, sort_by-IsSorted, length-sort_by,
}
use nyc_taxi_real_time_eta_p.Redis.Decimal.{atoi}
use nyc_taxi_real_time_eta_p.Simulator.{
  TripRow, Columns, assign, column, column_index_from, column_index, Parsed, row, malformed, panics,
  with_field, ok, keep, parse_row, read_rows, limited, sort_loaded, load_rows,
}

abbrev time_of : {F : Type 0} → TripRow F → ℕ
time_of r = r.pickup_datetime

-- No column lies behind the places of the header.
abbrev Fits : ℕ → Columns → Type 0
Fits m cols = All (λ c. c.1 < m) cols

assign-Fits :
    (name : Bytes) (i m : ℕ) (cols : Columns) → i < m → Fits m cols → Fits m (assign name i cols)
unfolding assign
assign-Fits name i m [] h k = (h, tt)
assign-Fits name i m ((n, j) ∷ cols) h k = elim (Bool-cases (bytes_eq n name)) [
  | inl e ↦ rw e (h, k.1)
  | inr e ↦ rw e (k.0, assign-Fits name i m cols h k.1)
]

column_lt : (name : Bytes) (m : ℕ) (cols : Columns) → 0 < m → Fits m cols → column name cols < m
unfolding column
column_lt name m [] h k = h
column_lt name m ((n, j) ∷ cols) h k = ground (arith, k.0, column_lt name m cols h k.1)

index-Fits :
    (i m : ℕ) (names : List Bytes) (cols : Columns)
    → i + length names ≤ m
    → Fits m cols
    → Fits m (column_index_from i names cols)
unfolding column_index_from
index-Fits i m [] cols h k = k
index-Fits i m (name ∷ names) cols h k =
    index-Fits (suc i) m names (assign name i cols) (omega (arith, h))
      (assign-Fits name i m cols (omega (arith, h)) k)

column_index-Fits : (header : List Bytes) → Fits (length header) (column_index header)
unfolding column_index
column_index-Fits header = index-Fits 0 (length header) header [] (omega arith) tt

module _ {F : Type 0} where
  with_field-ne-panics :
      {A : Type 0} (r : List Bytes) (cols : Columns) (name : Bytes) (parse : Bytes → Option A)
      (then_ : A → Parsed F)
      → column name cols < length r
      → ((a : A) → then_ a ≢ panics)
      → with_field r cols name parse then_ ≢ panics
  unfolding with_field
  with_field-ne-panics r cols name parse then_ h k =
      let (text, e) = get_elem?_lt r (column name cols) h in
      elim (Option-cases (parse text)) [
        | inl f ↦ rw (e, with_field) (rw f (λ q. cc))
        | inr (a, f) ↦ rw (e, with_field) (rw f (k a))
      ]

  module _ (parse_time : Bytes → Option ℕ) (parse_float : Bytes → Option F) where
    parse_row-ne-panics :
        (r : List Bytes) (cols : Columns)
        → 0 < length r
        → Fits (length r) cols
        → parse_row parse_time parse_float r cols ≢ panics
    unfolding parse_row
    parse_row-ne-panics r cols h fits =
        let at = λ (name : Bytes). column_lt name (length r) cols h fits in
        with_field-ne-panics r cols _ parse_time _ (at (codes "pickup_datetime")) λ time.
          with_field-ne-panics r cols _ atoi _ (at (codes "passenger_count")) λ n.
            with_field-ne-panics r cols _ parse_float _ (at (codes "pickup_longitude")) λ lng.
              with_field-ne-panics r cols _ parse_float _ (at (codes "pickup_latitude")) λ lat.
                with_field-ne-panics r cols _ parse_float _ (at (codes "dropoff_longitude")) λ lng'.
                  with_field-ne-panics r cols _ parse_float _ (at (codes "dropoff_latitude"))
                    λ lat'. with_field-ne-panics r cols _ some _ (at (codes "id")) λ i q. cc

    -- The rows of the records that parse.
    abbrev pub row_of : Parsed F → List (TripRow F)
    row_of (row r) = r ∷ []
    row_of malformed = []
    row_of panics = []

    abbrev pub rows_of : Columns → List (List Bytes) → List (TripRow F)
    rows_of cols [] = []
    rows_of cols (r ∷ rs) = row_of (parse_row parse_time parse_float r cols) ++ rows_of cols rs

    keep-row_of :
        (p : Parsed F) (rows : List (TripRow F))
        → p ≢ panics
        → keep p (ok rows) ≡ ok (row_of p ++ rows)
    unfolding keep
    keep-row_of (row r) rows h = refl
    keep-row_of malformed rows h = refl
    keep-row_of panics rows h = absurd (h refl)

    read_rows-rows_of :
        (cols : Columns) (m : ℕ) (rs : List (List Bytes))
        → 0 < m
        → Fits m cols
        → All (λ r. length r ≡ m) rs
        → read_rows parse_time parse_float cols (map some rs) ≡ ok (rows_of cols rs)
    unfolding read_rows
    read_rows-rows_of cols m [] h fits all = refl
    read_rows-rows_of cols m (r ∷ rs) h fits (e, all) =
        let p = parse_row parse_time parse_float r cols in
        ap (keep p) (read_rows-rows_of cols m rs h fits all)
        ∙ keep-row_of p (rows_of cols rs)
            (parse_row-ne-panics r cols (omega (arith, h, e)) (rw e fits))

    -- The first rows of a file in the order of their times, and what is left of it.
    abbrev pub IsSlice : List (TripRow F) → ℤ → List (TripRow F) → Type 0
    IsSlice all limit rows =
        (left : List (TripRow F)) × Perm (rows ++ left) all
        × IsSorted time_of (rows ++ left)
        × ((n : ℕ) → limit ≡ pos n → 0 < n → n < length all → length rows ≡ n)
        × ((left ≢ []) → (n : ℕ) × (limit ≡ pos n) × (0 < n) × (n < length all))

    limited-IsSlice :
        (all : List (TripRow F)) (limit : ℤ)
        → IsSlice all limit (limited parse_time parse_float limit (sort_by time_of all))
    unfolding limited
    limited-IsSlice all (negsuc n) = (
      [],
      rw (append-nil (sort_by time_of all)) (sort_by-Perm time_of all),
      rw (append-nil (sort_by time_of all)) (sort_by-IsSorted time_of all),
      λ k e. cc,
      λ h. absurd (h refl),
    )
    limited-IsSlice all (pos n) =
        let sorted = sort_by time_of all in
        let len = length-sort_by time_of all in
        elim (Bool-cases (ltb 0 n && ltb n (length sorted))) [
          | inl e ↦ rw e (
            drop n sorted,
            rw (take-drop n sorted) (sort_by-Perm time_of all),
            rw (take-drop n sorted) (sort_by-IsSorted time_of all),
            λ k q some_ less. ground (arith, length-take n sorted, e, pos_inj n k q),
            λ h. (n, refl, ground (arith, e), ground (arith, e, len)),
          )
          | inr e ↦ rw e (
            [],
            rw (append-nil sorted) (sort_by-Perm time_of all),
            rw (append-nil sorted) (sort_by-IsSorted time_of all),
            λ k q some_ less. absurd (ground (arith, e, len, some_, less, pos_inj n k q)),
            λ h. absurd (h refl),
          )
        ]
      where
        pos_inj : (a b : ℕ) → pos a ≡ pos b → a ≡ b
        pos_inj a b q = cc

    -- `loadRows` of a file that package csv reads without an error, each record as long as its header,
    -- never panics, whatever the columns are called: it returns rows that parse, in the order of their
    -- times, none of those left out earlier than any of them; if the limit is above 0 and below the
    -- number of those that parse, as many as the limit says, and all of them otherwise.
    pub load_rows-IsSlice :
        (header : List Bytes) (rs : List (List Bytes)) (limit : ℤ)
        → 0 < length header
        → All (λ r. length r ≡ length header) rs
        → (rows : List (TripRow F)) × (load_rows parse_time parse_float
              (some (some header ∷ map some rs))
              limit
            ≡ ok rows)
          × IsSlice (rows_of (column_index header) rs) limit rows
    unfolding load_rows sort_loaded
    load_rows-IsSlice header rs limit h all =
        let cols = column_index header in
        (
          limited parse_time parse_float limit (sort_by time_of (rows_of cols rs)),
          ap (sort_loaded parse_time parse_float limit)
              (read_rows-rows_of cols (length header) rs h (column_index-Fits header) all),
          limited-IsSlice (rows_of cols rs) limit,
        )
