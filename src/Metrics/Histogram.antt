-- ===== src/Metrics/Histogram.antt =====
-- `Counter`, `CounterVec`, `Histogram` and `HistogramVec` of backend/internal/metrics/metrics.go. An
-- int64 is its 64-bit word, which is its value below 2^63. A mutex makes each operation one step.
use nyc_taxi_real_time_eta_p.Common.{
  ℕ, ◌+◌, ◌%◌, ◌^◌, not, List, [], ◌∷◌, ◌++◌, Option, none, some, ◌==◌, if◌then◌else◌, length,
  replicate,
}
use nyc_taxi_real_time_eta_p.Common.Bytes.{Bytes, bytes_eq}
use nyc_taxi_real_time_eta_p.Common.Order.{LinearOrder}

-- `c.value + n` of `Counter.Add`, whose `Inc` is `Add` of 1.
unfoldable pub counter_add : ℕ → ℕ → ℕ
counter_add n value = (value + n) % 2 ^ 64

-- `strings.Join(values, "\x00")`.
unfoldable pub join_values : List Bytes → Bytes
join_values [] = []
join_values (v ∷ []) = v
join_values (v ∷ w ∷ vs) = v ++ (0 ∷ join_values (w ∷ vs))

-- The children of a vector by their keys.
abbrev pub Children : Type 0 → Type 0
Children A = List (Bytes × A)

-- `strings.Split(key, "\x00")`.
unfoldable pub split_values : Bytes → List Bytes
split_values [] = [] ∷ []
split_values (c ∷ s) =
    let rest = split_values s in
    if c == 0 then [] ∷ rest else elim rest [ [] ↦ (c ∷ []) ∷ [] | v ∷ vs ↦ (c ∷ v) ∷ vs ]

module _ {A : Type 0} where
  unfoldable pub child : Bytes → Children A → Option A
  child key [] = none
  child key ((k, a) ∷ cs) = if bytes_eq k key then some a else child key cs

  -- `WithLabelValues(values…)` and an update `f` of the child that it returns, which is `fresh` if
  -- there was none.
  unfoldable pub with_label_values : A → List Bytes → (A → A) → Children A → Children A
  unfolding join_values
  with_label_values fresh values f [] = (join_values values, f fresh) ∷ []
  with_label_values fresh values f ((k, a) ∷ cs) =
      if bytes_eq k (join_values values)
      then (k, f a) ∷ cs
      else (k, a) ∷ with_label_values fresh values f cs

-- `buckets` are upper bounds, ascending, with their counts; `sum` is left to float64.
pub record Histogram (F : Type 0) : Type 0 where
  pub buckets : List F
  pub counts : List ℕ
  pub sum : F
  pub total : ℕ

module _ {F : Type 0} (o : LinearOrder F) (add : F → F → F) (zero_sum : F) where
  -- `sort.Float64s`.
  unfoldable pub insert_bucket : F → List F → List F
  insert_bucket x [] = x ∷ []
  insert_bucket x (b ∷ bs) = if o.lt b x then b ∷ insert_bucket x bs else x ∷ b ∷ bs

  unfoldable pub sort_buckets : List F → List F
  sort_buckets [] = []
  sort_buckets (b ∷ bs) = insert_bucket b (sort_buckets bs)

  unfoldable pub new_histogram : List F → Histogram F
  new_histogram bs =
      let b = sort_buckets bs in
      record { buckets = b; counts = replicate (length b) 0; sum = zero_sum; total = 0 }

  -- The loop of `Observe`: `v <= bound` counts. There is a count for each bucket.
  unfoldable pub observe_counts : F → List F → List ℕ → List ℕ
  observe_counts v [] counts = counts
  observe_counts v (b ∷ bs) [] = []
  observe_counts v (b ∷ bs) (c ∷ cs) =
      (if not (o.lt b v) then (c + 1) % 2 ^ 64 else c) ∷ observe_counts v bs cs

  unfoldable pub observe : F → Histogram F → Histogram F
  observe v h = record h {
    counts = observe_counts v h.buckets h.counts;
    sum = add h.sum v;
    total = (h.total + 1) % 2 ^ 64;
  }

  unfoldable pub observe_all : List F → Histogram F → Histogram F
  observe_all [] h = h
  observe_all (v ∷ vs) h = observe_all vs (observe v h)
