-- ===== src/Metrics/Exposition.antt =====
-- `Gauge`, the registry and the text format of backend/internal/metrics/metrics.go. The registry holds
-- the metrics as they are when they are scraped; `S` is the state that the computed gauges read.
use nyc_taxi_real_time_eta_p.Common.{
  ℕ, suc, List, [], ◌∷◌, ◌++◌, Option, none, some, ◌==◌, if◌then◌else◌,
}
use nyc_taxi_real_time_eta_p.Common.Bytes.{Bytes, codes, concat, bytes_eq}
use nyc_taxi_real_time_eta_p.Common.Int.{pos, negsuc, of_word64}
use nyc_taxi_real_time_eta_p.Redis.Decimal.{format_decimal}
use nyc_taxi_real_time_eta_p.Metrics.Histogram.{Children, Histogram, split_values}

-- Package fmt: `%v` and `%f` of a float64, and `%q` of a string.
pub record Format (F : Type 0) : Type 0 where
  pub general : F → Bytes
  pub fixed : F → Bytes
  pub quote : Bytes → Bytes

pub record Gauge (S F : Type 0) : Type 0 where
  pub number : F
  pub fn : Option (S → F)

module _ {S F : Type 0} where
  unfoldable pub gauge_set : F → Gauge S F → Gauge S F
  gauge_set v g = record g { number = v }

  unfoldable pub set_func : (S → F) → Gauge S F → Gauge S F
  set_func f g = record g { fn = some f }

  unfoldable pub gauge_value : S → Gauge S F → F
  gauge_value s g = elim g.fn [ none ↦ g.number | some f ↦ f s ]

-- `any` of a `metricEntry`; vectors have their label names, and children in the order of the `range`.
pub data Metric (S F : Type 0) : Type 0 where
  counter : ℕ → Metric S F
  counter_vec : List Bytes → Children ℕ → Metric S F
  gauge : Gauge S F → Metric S F
  histogram : Histogram F → Metric S F
  histogram_vec : List Bytes → Children (Histogram F) → Metric S F

pub record MetricEntry (S F : Type 0) : Type 0 where
  pub name : Bytes
  pub help : Bytes
  pub typ : Bytes
  pub metric : Metric S F

abbrev pub Registry : Type 0 → Type 0 → Type 0
Registry S F = List (MetricEntry S F)

module _ {S F : Type 0} where
  unfoldable pub typ_of : Metric S F → Bytes
  typ_of (counter n) = codes "counter"
  typ_of (counter_vec names cs) = codes "counter"
  typ_of (gauge g) = codes "gauge"
  typ_of (histogram h) = codes "histogram"
  typ_of (histogram_vec names hs) = codes "histogram"

  -- The five `register…`.
  unfoldable pub register : Bytes → Bytes → Metric S F → Registry S F → Registry S F
  unfolding typ_of
  register name help m r =
      r ++ (record { name = name; help = help; typ = typ_of m; metric = m } ∷ [])

abbrev pub newline : Bytes
newline = 10 ∷ []

-- `%d` and `%v` of an int64, given by its word.
unfoldable pub format_int64 : ℕ → Bytes
format_int64 w = elim (of_word64 w) [
  | pos n ↦ format_decimal n
  | negsuc n ↦ 45 ∷ format_decimal (suc n)
]

-- `strings.TrimRight(s, c)` for one byte `c`.
unfoldable pub trim_right : ℕ → Bytes → Bytes
trim_right c [] = []
trim_right c (b ∷ s) =
    let rest = trim_right c s in
    elim rest [ [] ↦ if b == c then [] else b ∷ [] | d ∷ t ↦ b ∷ d ∷ t ]

-- `strings.TrimPrefix` and `strings.TrimSuffix` for one byte.
unfoldable pub trim_prefix : ℕ → Bytes → Bytes
trim_prefix c [] = []
trim_prefix c (b ∷ s) = if b == c then s else b ∷ s

unfoldable pub trim_suffix : ℕ → Bytes → Bytes
trim_suffix c [] = []
trim_suffix c (b ∷ []) = if b == c then [] else b ∷ []
trim_suffix c (b ∷ d ∷ s) = b ∷ trim_suffix c (d ∷ s)

-- `strings.Join(parts, ",")`.
unfoldable pub join_parts : List Bytes → Bytes
join_parts [] = []
join_parts (p ∷ []) = p
join_parts (p ∷ q ∷ ps) = p ++ (44 ∷ join_parts (q ∷ ps))

module _ {F : Type 0} (fmt : Format F) where
  unfoldable pub format_bound : F → Bytes
  unfolding trim_right
  format_bound f = trim_right 46 (trim_right 48 (fmt.fixed f))

  -- The loop of `labelString`: a name without a value gets the empty one.
  unfoldable pub label_parts : List Bytes → List Bytes → List Bytes
  label_parts [] values = []
  label_parts (n ∷ names) [] = (n ++ (61 ∷ fmt.quote [])) ∷ label_parts names []
  label_parts (n ∷ names) (v ∷ values) = (n ++ (61 ∷ fmt.quote v)) ∷ label_parts names values

  unfoldable pub label_string : List Bytes → Bytes → Bytes
  unfolding label_parts
  label_string names key = 123 ∷ (join_parts (label_parts names (split_values key)) ++ (125 ∷ []))

  -- The lines that `writeHistogram` prints. There is a count for each bucket.
  unfoldable pub plain_buckets : Bytes → List F → List ℕ → Bytes
  plain_buckets base [] counts = []
  plain_buckets base (b ∷ bs) [] = []
  plain_buckets base (b ∷ bs) (c ∷ cs) =
      concat (
        base
        ∷ codes "_bucket{le=\""
        ∷ format_bound b
        ∷ codes "\"} "
        ∷ format_int64 c
        ∷ newline
        ∷ [])
      ++ plain_buckets base bs cs

  unfoldable pub labelled_buckets : Bytes → Bytes → List F → List ℕ → Bytes
  labelled_buckets base inner [] counts = []
  labelled_buckets base inner (b ∷ bs) [] = []
  labelled_buckets base inner (b ∷ bs) (c ∷ cs) =
      concat (
        base
        ∷ codes "_bucket{"
        ∷ inner
        ∷ codes ",le=\""
        ∷ format_bound b
        ∷ codes "\"} "
        ∷ format_int64 c
        ∷ newline
        ∷ [])
      ++ labelled_buckets base inner bs cs

  unfoldable pub write_plain : Bytes → Histogram F → Bytes
  unfolding plain_buckets
  write_plain base h =
      plain_buckets base h.buckets h.counts
      ++ (concat (base ∷ codes "_bucket{le=\"+Inf\"} " ∷ format_int64 h.total ∷ newline ∷ [])
          ++ (concat (base ∷ codes "_sum " ∷ fmt.general h.sum ∷ newline ∷ [])
              ++ concat (base ∷ codes "_count " ∷ format_int64 h.total ∷ newline ∷ [])))

  unfoldable pub write_labelled : Bytes → Bytes → Histogram F → Bytes
  unfolding labelled_buckets trim_prefix trim_suffix
  write_labelled base labels h =
      let inner = trim_suffix 125 (trim_prefix 123 labels) in
      labelled_buckets base inner h.buckets h.counts
      ++ (concat (
            base
            ∷ codes "_bucket{"
            ∷ inner
            ∷ codes ",le=\"+Inf\"} "
            ∷ format_int64 h.total
            ∷ newline
            ∷ [])
          ++ (concat (base ∷ codes "_sum" ∷ labels ∷ codes " " ∷ fmt.general h.sum ∷ newline ∷ [])
              ++ concat (
                  base
                  ∷ codes "_count"
                  ∷ labels
                  ∷ codes " "
                  ∷ format_int64 h.total
                  ∷ newline
                  ∷ [])))

  unfoldable pub write_histogram : Bytes → Bytes → Histogram F → Bytes
  unfolding write_plain write_labelled
  write_histogram name labels h =
      if bytes_eq labels [] then write_plain name h else write_labelled name labels h

  -- The loops of `Gather` over the children of a vector.
  unfoldable pub write_counters : Bytes → List Bytes → Children ℕ → Bytes
  write_counters name names [] = []
  write_counters name names ((key, c) ∷ cs) =
      concat (name ∷ label_string names key ∷ codes " " ∷ format_int64 c ∷ newline ∷ [])
      ++ write_counters name names cs

  unfoldable pub write_histograms : Bytes → List Bytes → Children (Histogram F) → Bytes
  write_histograms name names [] = []
  write_histograms name names ((key, h) ∷ hs) =
      write_histogram name (label_string names key) h ++ write_histograms name names hs

  module _ {S : Type 0} (s : S) where
    unfoldable pub write_metric : Bytes → Metric S F → Bytes
    unfolding write_counters write_histograms gauge_value
    write_metric name (counter n) = concat (name ∷ codes " " ∷ format_int64 n ∷ newline ∷ [])
    write_metric name (counter_vec names cs) = write_counters name names cs
    write_metric name (gauge g) =
        concat (name ∷ codes " " ∷ fmt.general (gauge_value s g) ∷ newline ∷ [])
    write_metric name (histogram h) = write_histogram name [] h
    write_metric name (histogram_vec names hs) = write_histograms name names hs

    unfoldable pub gather : Registry S F → Bytes
    unfolding write_metric
    gather [] = []
    gather (e ∷ es) =
        concat (codes "# HELP " ∷ e.name ∷ codes " " ∷ e.help ∷ newline ∷ [])
        ++ (concat (codes "# TYPE " ∷ e.name ∷ codes " " ∷ e.typ ∷ newline ∷ [])
            ++ (write_metric e.name e.metric ++ gather es))
