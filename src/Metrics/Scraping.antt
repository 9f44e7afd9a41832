-- ===== src/Metrics/Scraping.antt =====
-- The text format of backend/internal/metrics/metrics.go against a description of it by samples: a
-- sample has a name, labels and a value, and is one line.
use nyc_taxi_real_time_eta_p.Common.{
  ℕ, ◌≡◌, refl, ap, ◌≢◌, List, [], ◌∷◌, ◌++◌, map, append-nil, All,
}
use nyc_taxi_real_time_eta_p.Common.Bytes.{Bytes, codes, concat}
use nyc_taxi_real_time_eta_p.Metrics.Histogram.{Children, Histogram, split_values}
use nyc_taxi_real_time_eta_p.Metrics.App.{App, app_registry}
use nyc_taxi_real_time_eta_p.Metrics.Exposition.{
  Format, Metric, counter, counter_vec, gauge, histogram, histogram_vec, Registry, gauge_value,
  format_int64, join_parts, newline, label_parts, label_string, write_counters, write_histograms,
  write_metric, gather,
}
use nyc_taxi_real_time_eta_p.Metrics.Samples.{
  Sample, part, labels_text, lines, lines-append, labels_of, histogram_samples,
  write_histogram-lines,
}

module _ {F : Type 0} (fmt : Format F) where
  label_parts-map :
      (names values : List Bytes)
      → label_parts fmt names values ≡ map part (labels_of fmt names values)
  unfolding label_parts
  label_parts-map [] values = refl
  label_parts-map (n ∷ names) [] =
      ap (λ r. (n ++ (61 ∷ fmt.quote [])) ∷ r) (label_parts-map names [])
  label_parts-map (n ∷ names) (v ∷ values) =
      ap (λ r. (n ++ (61 ∷ fmt.quote v)) ∷ r) (label_parts-map names values)

  label_string-labels_text :
      (names : List Bytes) (key : Bytes)
      → names ≢ []
      → label_string fmt names key ≡ labels_text (labels_of fmt names (split_values key))
  unfolding label_string
  label_string-labels_text names key h =
      rw (label_parts-map names (split_values key)) (wrap names (split_values key) h)
    where
      wrap :
          (ns vs : List Bytes)
          → ns ≢ []
          → 123 ∷ (join_parts (map part (labels_of fmt ns vs)) ++ (125 ∷ []))
            ≡ labels_text (labels_of fmt ns vs)
      wrap [] vs h = absurd (h refl)
      wrap (n ∷ ns) [] h = refl
      wrap (n ∷ ns) (v ∷ vs) h = refl

  -- The samples of a metric at a scrape: the children of a vector have the labels that their key gives
  -- back, and a computed gauge is read now.
  abbrev counter_samples : Bytes → List Bytes → Children ℕ → List Sample
  counter_samples name names [] = []
  counter_samples name names ((key, c) ∷ cs) =
      record {
        name = name;
        labels = labels_of fmt names (split_values key);
        value = format_int64 c;
      }
      ∷ counter_samples name names cs

  abbrev vec_samples : Bytes → List Bytes → Children (Histogram F) → List Sample
  vec_samples name names [] = []
  vec_samples name names ((key, h) ∷ hs) =
      histogram_samples fmt name (labels_of fmt names (split_values key)) h
      ++ vec_samples name names hs

  write_counters-lines :
      (name : Bytes) (names : List Bytes) (cs : Children ℕ)
      → names ≢ []
      → write_counters fmt name names cs ≡ lines (counter_samples name names cs)
  unfolding write_counters
  write_counters-lines name names [] h = refl
  write_counters-lines name names ((key, c) ∷ cs) h =
      cc (label_string-labels_text names key h, write_counters-lines name names cs h)

  write_histograms-lines :
      (name : Bytes) (names : List Bytes) (hs : Children (Histogram F))
      → names ≢ []
      → write_histograms fmt name names hs ≡ lines (vec_samples name names hs)
  unfolding write_histograms
  write_histograms-lines name names [] h = refl
  write_histograms-lines name names ((key, x) ∷ hs) h = rw (
    label_string-labels_text names key h,
    write_histogram-lines fmt name (labels_of fmt names (split_values key)) x,
    write_histograms-lines name names hs h,
    lines-append (histogram_samples fmt name (labels_of fmt names (split_values key)) x) _,
  )

  module _ {S : Type 0} (s : S) where
    abbrev pub samples : Bytes → Metric S F → List Sample
    samples name (counter n) = record { name = name; labels = []; value = format_int64 n } ∷ []
    samples name (counter_vec names cs) = counter_samples name names cs
    samples name (gauge g) =
        record { name = name; labels = []; value = fmt.general (gauge_value s g) } ∷ []
    samples name (histogram h) = histogram_samples fmt name [] h
    samples name (histogram_vec names hs) = vec_samples name names hs

    -- A vector has label names.
    abbrev pub HasNames : Metric S F → Type 0
    HasNames (counter_vec names cs) = names ≢ []
    HasNames (histogram_vec names hs) = names ≢ []
    HasNames (counter n) = Unit
    HasNames (gauge g) = Unit
    HasNames (histogram h) = Unit

    write_metric-lines :
        (name : Bytes) (m : Metric S F)
        → HasNames m
        → write_metric fmt s name m ≡ lines (samples name m)
    unfolding write_metric
    write_metric-lines name (counter n) h = simp append-nil
    write_metric-lines name (counter_vec names cs) h = write_counters-lines name names cs h
    write_metric-lines name (gauge g) h = simp append-nil
    write_metric-lines name (histogram x) h = write_histogram-lines fmt name [] x
    write_metric-lines name (histogram_vec names hs) h = write_histograms-lines name names hs h

    -- The page of a scrape: for each entry, in the order of the registration, its help, its type and
    -- its samples.
    abbrev pub page : Registry S F → Bytes
    page [] = []
    page (e ∷ es) =
        concat (codes "# HELP " ∷ e.name ∷ codes " " ∷ e.help ∷ newline ∷ [])
        ++ (concat (codes "# TYPE " ∷ e.name ∷ codes " " ∷ e.typ ∷ newline ∷ [])
            ++ (lines (samples e.name e.metric) ++ page es))

    -- `Gather` on a registry whose vectors have label names prints the page of its metrics: the text of
    -- the labels, taken apart and put together for the buckets, and the keys of the children come out
    -- as the labels of one sample on each line.
    pub gather-page : (r : Registry S F) → All (λ e. HasNames e.metric) r → gather fmt s r ≡ page r
    unfolding gather
    gather-page [] h = refl
    gather-page (e ∷ es) (h, hs) = rw (write_metric-lines e.name e.metric h, gather-page es hs)

    -- The vectors of the service have label names.
    pub app-HasNames : (a : App S F) → All (λ e. HasNames e.metric) (app_registry a)
    unfolding app_registry
    app-HasNames a = (λ e. cc, (λ e. cc, (λ e. cc, (tt, (tt, (tt, (tt, (tt, (tt, (tt, tt))))))))))
