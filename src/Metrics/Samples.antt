-- ===== src/Metrics/Samples.antt =====
-- The lines of the text format of backend/internal/metrics/metrics.go, and what `writeHistogram` prints.
use nyc_taxi_real_time_eta_p.Common.{
  ℕ, ◌≡◌, refl, ap, List, [], ◌∷◌, ◌++◌, map, append_assoc, arith,
}
use nyc_taxi_real_time_eta_p.Common.Bytes.{Bytes, codes, concat, bytes_eq}
use nyc_taxi_real_time_eta_p.Metrics.Histogram.{Histogram}
use nyc_taxi_real_time_eta_p.Metrics.Exposition.{
  Format, format_int64, trim_suffix, trim_prefix, join_parts, newline, format_bound, plain_buckets,
  labelled_buckets, write_histogram,
}

-- A label with the text of its value, quotes included.
abbrev pub Label : Type 0
Label = Bytes × Bytes

pub record Sample : Type 0 where
  pub name : Bytes
  pub labels : List Label
  pub value : Bytes

abbrev pub part : Label → Bytes
part (n, v) = n ++ (61 ∷ v)

abbrev pub labels_text : List Label → Bytes
labels_text [] = []
labels_text (l ∷ ls) = 123 ∷ (join_parts (map part (l ∷ ls)) ++ (125 ∷ []))

abbrev pub line : Sample → Bytes
line x = concat (x.name ∷ labels_text x.labels ∷ codes " " ∷ x.value ∷ newline ∷ [])

abbrev pub lines : List Sample → Bytes
lines [] = []
lines (x ∷ xs) = line x ++ lines xs

abbrev quoted : Bytes → Bytes
quoted s = 34 ∷ (s ++ (34 ∷ []))

pub lines-append : (xs ys : List Sample) → lines (xs ++ ys) ≡ lines xs ++ lines ys
lines-append [] ys = refl
lines-append (x ∷ xs) ys =
    rw (lines-append xs ys) (rw (append_assoc (line x) (lines xs) (lines ys)))

join-concat :
    (p : Bytes) (ps : List Bytes) (q : Bytes)
    → join_parts (p ∷ ps ++ (q ∷ [])) ≡ join_parts (p ∷ ps) ++ (44 ∷ q)
unfolding join_parts
join-concat p [] q = refl
join-concat p (r ∷ ps) q =
    rw (join-concat r ps q) (rw (append_assoc p (44 ∷ join_parts (r ∷ ps)) (44 ∷ q)))

map_concat :
    (l : Label) (ls : List Label) → map part (ls ++ (l ∷ [])) ≡ map part ls ++ (part l ∷ [])
map_concat l [] = refl
map_concat l (k ∷ ls) = ap (λ r. part k ∷ r) (map_concat l ls)

trim_suffix-append : (c : ℕ) (s : Bytes) → trim_suffix c (s ++ (c ∷ [])) ≡ s
unfolding trim_suffix
trim_suffix-append c [] = ground arith
trim_suffix-append c (b ∷ []) = ground arith
trim_suffix-append c (b ∷ d ∷ s) = ap (λ r. b ∷ r) (trim_suffix-append c (d ∷ s))

module _ {F : Type 0} (fmt : Format F) where
  -- The labels of a vector's child: each name with the value of the key at its place, and with the
  -- empty value where the key has none.
  abbrev pub labels_of : List Bytes → List Bytes → List Label
  labels_of [] values = []
  labels_of (n ∷ names) [] = (n, fmt.quote []) ∷ labels_of names []
  labels_of (n ∷ names) (v ∷ values) = (n, fmt.quote v) ∷ labels_of names values

  abbrev le_label : Bytes → Label
  le_label bound = (codes "le", quoted bound)

  abbrev pub bucket_samples : Bytes → List Label → List F → List ℕ → List Sample
  bucket_samples name ls [] cs = []
  bucket_samples name ls (b ∷ bs) [] = []
  bucket_samples name ls (b ∷ bs) (c ∷ cs) =
      record {
        name = name ++ codes "_bucket";
        labels = ls ++ (le_label (format_bound fmt b) ∷ []);
        value = format_int64 c;
      }
      ∷ bucket_samples name ls bs cs

  -- A histogram has a sample for each bucket, one for the bound +Inf, the sum and the count.
  abbrev pub histogram_samples : Bytes → List Label → Histogram F → List Sample
  histogram_samples name ls h =
      bucket_samples name ls h.buckets h.counts
      ++ (record {
        name = name ++ codes "_bucket";
        labels = ls ++ (le_label (codes "+Inf") ∷ []);
        value = format_int64 h.total;
      }
          ∷ record { name = name ++ codes "_sum"; labels = ls; value = fmt.general h.sum }
          ∷ record { name = name ++ codes "_count"; labels = ls; value = format_int64 h.total }
          ∷ [])

  labelled_bucket :
      (base bound value : Bytes) (l : Label) (ls : List Label)
      → concat (
          base
          ∷ codes "_bucket{"
          ∷ join_parts (map part (l ∷ ls))
          ∷ codes ",le=\""
          ∷ bound
          ∷ codes "\"} "
          ∷ value
          ∷ newline
          ∷ [])
        ≡ line (record {
          name = base ++ codes "_bucket";
          labels = l ∷ ls ++ (le_label bound ∷ []);
          value = value;
        })
  labelled_bucket base bound value l ls =
      rw
        (map_concat (le_label bound) ls, join-concat (part l) (map part ls) (part (le_label bound)))
        (simp append_assoc)

  labelled_buckets-lines :
      (base : Bytes) (l : Label) (ls : List Label) (bs : List F) (cs : List ℕ)
      → labelled_buckets fmt base (join_parts (map part (l ∷ ls))) bs cs
        ≡ lines (bucket_samples base (l ∷ ls) bs cs)
  unfolding labelled_buckets
  labelled_buckets-lines base l ls [] cs = refl
  labelled_buckets-lines base l ls (b ∷ bs) [] = refl
  labelled_buckets-lines base l ls (b ∷ bs) (c ∷ cs) = cc (
    labelled_bucket base (format_bound fmt b) (format_int64 c) l ls,
    labelled_buckets-lines base l ls bs cs,
  )

  plain_bucket :
      (base bound value : Bytes)
      → concat (base ∷ codes "_bucket{le=\"" ∷ bound ∷ codes "\"} " ∷ value ∷ newline ∷ [])
        ≡ line
            (record { name = base ++ codes "_bucket"; labels = le_label bound ∷ []; value = value })
  unfolding join_parts
  plain_bucket base bound value = simp append_assoc

  plain_buckets-lines :
      (base : Bytes) (bs : List F) (cs : List ℕ)
      → plain_buckets fmt base bs cs ≡ lines (bucket_samples base [] bs cs)
  unfolding plain_buckets
  plain_buckets-lines base [] cs = refl
  plain_buckets-lines base (b ∷ bs) [] = refl
  plain_buckets-lines base (b ∷ bs) (c ∷ cs) =
      cc (plain_bucket base (format_bound fmt b) (format_int64 c), plain_buckets-lines base bs cs)

  trim_labels :
      (l : Label) (ls : List Label)
      → trim_suffix 125 (trim_prefix 123 (labels_text (l ∷ ls))) ≡ join_parts (map part (l ∷ ls))
  unfolding trim_prefix
  trim_labels l ls = trim_suffix-append 125 (join_parts (map part (l ∷ ls)))

  -- `writeHistogram` takes the labels as text, and splices the bound in: with the text of any labels it
  -- prints the samples of the histogram, each line with those labels, and the buckets with their bound
  -- behind them.
  pub write_histogram-lines :
      (name : Bytes) (ls : List Label) (h : Histogram F)
      → write_histogram fmt name (labels_text ls) h ≡ lines (histogram_samples name ls h)
  unfolding write_histogram bytes_eq join_parts
  write_histogram-lines name [] h =
      rw
        (
          lines-append (bucket_samples name [] h.buckets h.counts) _,
          plain_buckets-lines name h.buckets h.counts,
        )
        (simp append_assoc)
  write_histogram-lines name (l ∷ ls) h =
      rw
        (
          lines-append (bucket_samples name (l ∷ ls) h.buckets h.counts) _,
          trim_labels l ls,
          labelled_buckets-lines name l ls h.buckets h.counts,
        )
        (rw
          (
            map_concat (le_label (codes "+Inf")) ls,
            join-concat (part l) (map part ls) (part (le_label (codes "+Inf"))),
          )
          (simp append_assoc))
