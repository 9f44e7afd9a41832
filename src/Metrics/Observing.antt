-- ===== src/Metrics/Observing.antt =====
-- `Observe` and `WithLabelValues` of backend/internal/metrics/metrics.go: what the counts count.
use mathlib.Core.List.{Perm}
use mathlib.Core.List.Perm
use nyc_taxi_real_time_eta_p.Common.{
  ℕ, ◌+◌, ◌%◌, ◌^◌, ◌≤◌, ◌<◌, ◌≡◌, refl, ap, ◌∙◌, false, not, List, [], ◌∷◌, ◌++◌, map, Option,
  none, some, arith, if◌then◌else◌, length, length-append, append_assoc, append-nil, replicate, All,
  All-mono, Bool-cases, inl, inr,
}
use nyc_taxi_real_time_eta_p.Common.Bytes.{Bytes, bytes_eq, bytes_eq_iff}
use nyc_taxi_real_time_eta_p.Common.Order.{LinearOrder, of_gt, not_lt_trans}
use nyc_taxi_real_time_eta_p.Metrics.Histogram.{
  Histogram, Children, join_values, split_values, child, with_label_values, insert_bucket,
  sort_buckets, new_histogram, observe_counts, observe, observe_all,
}

-- No value of a label holds the separator.
abbrev pub IsPlain : Bytes → Type 0
IsPlain v = All (λ c. 1 ≤ c) v

split-append : (v s : Bytes) → IsPlain v → split_values (v ++ (0 ∷ s)) ≡ v ∷ split_values s
unfolding split_values
split-append [] s h = refl
split-append (c ∷ v) s h = rw (split-append v s h.1) (ground (arith, h.0))

split_plain : (v : Bytes) → IsPlain v → split_values v ≡ v ∷ []
unfolding split_values
split_plain [] h = refl
split_plain (c ∷ v) h = rw (split_plain v h.1) (ground (arith, h.0))

-- The key of a child gives back the label values that it was made of, if there are any and none
-- holds the separator: `labelString` shows the labels that `WithLabelValues` was given, and two
-- tuples share no child.
split-join_values :
    (v : Bytes) (vs : List Bytes)
    → All IsPlain (v ∷ vs)
    → split_values (join_values (v ∷ vs)) ≡ v ∷ vs
unfolding join_values
split-join_values v [] h = split_plain v h.0
split-join_values v (w ∷ vs) h =
    split-append v (join_values (w ∷ vs)) h.0 ∙ ap (λ r. v ∷ r) (split-join_values w vs h.1)

module _ {A : Type 0} where
  abbrev pub or_fresh : A → Option A → A
  or_fresh fresh none = fresh
  or_fresh fresh (some a) = a

  -- An update through `WithLabelValues` changes the child of those values, a new one if they had
  -- none, and no other.
  pub child-with_label_values :
      (fresh : A) (values : List Bytes) (f : A → A) (cs : Children A) (key : Bytes)
      → child key (with_label_values fresh values f cs) ≡ (
          if bytes_eq (join_values values) key
          then some (f (or_fresh fresh (child key cs)))
          else child key cs)
  unfolding child with_label_values
  child-with_label_values fresh values f [] key = ground arith
  child-with_label_values fresh values f ((k, a) ∷ cs) key = ground (
    arith,
    bytes_eq_iff k (join_values values),
    bytes_eq_iff k key,
    bytes_eq_iff (join_values values) key,
    child-with_label_values fresh values f cs key,
  )

module _ {F : Type 0} (o : LinearOrder F) (add : F → F → F) (zero_sum : F) where
  -- How many of the observations are at most `b`.
  unfoldable pub at_most : F → List F → ℕ
  at_most b [] = 0
  at_most b (v ∷ vs) = (if not (o.lt b v) then 1 else 0) + at_most b vs

  pub at_most_le : (b : F) (vs : List F) → at_most b vs ≤ length vs
  unfolding at_most
  at_most_le b [] = omega arith
  at_most_le b (v ∷ vs) = ground (arith, at_most_le b vs)

  at_most_mono : (a b : F) (vs : List F) → o.lt b a ≡ false → at_most a vs ≤ at_most b vs
  unfolding at_most
  at_most_mono a b [] h = omega arith
  at_most_mono a b (v ∷ vs) h = elim (Bool-cases (o.lt b v)) [
    | inl e ↦ ground (arith, at_most_mono a b vs h, not_lt_trans o b a v h)
    | inr e ↦ ground (arith, at_most_mono a b vs h)
  ]

  at_most-concat :
      (b v : F) (seen : List F)
      → at_most b (seen ++ (v ∷ [])) ≡ at_most b seen + (if not (o.lt b v) then 1 else 0)
  unfolding at_most
  at_most-concat b v [] = omega arith
  at_most-concat b v (x ∷ seen) = omega (arith, at_most-concat b v seen)

  observe_counts-map :
      (v : F) (seen bs : List F)
      → length seen + 1 < 2 ^ 64
      → observe_counts o add zero_sum v bs (map (λ b. at_most b seen) bs)
        ≡ map (λ b. at_most b (seen ++ (v ∷ []))) bs
  unfolding observe_counts
  observe_counts-map v seen [] h = refl
  observe_counts-map v seen (b ∷ bs) h =
      let one : (if not (o.lt b v) then (at_most b seen + 1) % 2 ^ 64 else at_most b seen)
          ≡ at_most b (seen ++ (v ∷ [])) =
        ground (arith, at_most-concat b v seen, at_most_le b seen) in
      cc (one, observe_counts-map v seen bs h)

  -- The histogram `h` has seen the observations `seen`.
  abbrev Has : Histogram F → List F → List F → Type 0
  Has h bs seen =
      (h.buckets ≡ bs) × (h.counts ≡ map (λ b. at_most b seen) bs) × (h.total ≡ length seen)

  observe-Has :
      (v : F) (h : Histogram F) (bs seen : List F)
      → length seen + 1 < 2 ^ 64
      → Has h bs seen
      → Has (observe o add zero_sum v h) bs (seen ++ (v ∷ []))
  unfolding observe
  observe-Has v h bs seen few (same, counts, total) = (
    same,
    rw (same, counts) (observe_counts-map v seen bs few),
    omega (arith, total, length-append seen (v ∷ []), few),
  )

  observe_all-Has :
      (vs : List F) (h : Histogram F) (bs seen : List F)
      → length seen + length vs < 2 ^ 64
      → Has h bs seen
      → Has (observe_all o add zero_sum vs h) bs (seen ++ vs)
  unfolding observe_all
  observe_all-Has [] h bs seen few has = rw (append-nil seen) has
  observe_all-Has (v ∷ vs) h bs seen few has = rw⁻¹ (append_assoc seen (v ∷ []) vs) (
      observe_all-Has vs (observe o add zero_sum v h) bs (seen ++ (v ∷ []))
        (omega (arith, few, length-append seen (v ∷ [])))
        (observe-Has v h bs seen (omega (arith, few)) has))

  zero_counts : (bs : List F) → replicate (length bs) 0 ≡ map (λ b. at_most b []) bs
  unfolding at_most
  zero_counts [] = refl
  zero_counts (b ∷ bs) = ap (λ r. 0 ∷ r) (zero_counts bs)

  new_histogram-Has :
      (bs : List F) → Has (new_histogram o add zero_sum bs) (sort_buckets o add zero_sum bs) []
  unfolding new_histogram
  new_histogram-Has bs = (refl, zero_counts (sort_buckets o add zero_sum bs), refl)

  abbrev pub IsAscending : List ℕ → Type 0
  IsAscending [] = Unit
  IsAscending (c ∷ cs) = All (λ d. c ≤ d) cs × IsAscending cs

  abbrev pub IsSorted : List F → Type 0
  IsSorted [] = Unit
  IsSorted (b ∷ bs) = All (λ d. o.lt d b ≡ false) bs × IsSorted bs

  insert-All :
      (x b : F) (bs : List F)
      → o.lt x b ≡ false
      → All (λ d. o.lt d b ≡ false) bs
      → All (λ d. o.lt d b ≡ false) (insert_bucket o add zero_sum x bs)
  unfolding insert_bucket
  insert-All x b [] h a = (h, tt)
  insert-All x b (c ∷ bs) h a = elim (Bool-cases (o.lt c x)) [
    | inl e ↦ rw e (a.0, insert-All x b bs h a.1)
    | inr e ↦ rw e (h, a)
  ]

  insert-IsSorted :
      (x : F) (bs : List F) → IsSorted bs → IsSorted (insert_bucket o add zero_sum x bs)
  unfolding insert_bucket
  insert-IsSorted x [] h = (tt, tt)
  insert-IsSorted x (b ∷ bs) h = elim (Bool-cases (o.lt b x)) [
    | inl e ↦ rw e (insert-All x b bs (of_gt o x b e).0 h.0, insert-IsSorted x bs h.1)
    | inr e ↦ rw e (
      (
        e,
        All-mono (λ d. o.lt d b ≡ false) (λ d. o.lt d x ≡ false) (λ d q. not_lt_trans o d b x q e)
            bs h.0,
      ),
      h,
    )
  ]

  sort-IsSorted : (bs : List F) → IsSorted (sort_buckets o add zero_sum bs)
  unfolding sort_buckets
  sort-IsSorted [] = tt
  sort-IsSorted (b ∷ bs) = insert-IsSorted b (sort_buckets o add zero_sum bs) (sort-IsSorted bs)

  insert-Perm : (x : F) (bs : List F) → Perm (insert_bucket o add zero_sum x bs) (x ∷ bs)
  unfolding insert_bucket
  insert-Perm x [] = Perm.rfl
  insert-Perm x (b ∷ bs) = elim (Bool-cases (o.lt b x)) [
    | inl e ↦ rw e (Perm.trans (Perm.cons b (insert-Perm x bs)) (Perm.swap x b bs))
    | inr e ↦ rw e Perm.rfl
  ]

  sort-Perm : (bs : List F) → Perm (sort_buckets o add zero_sum bs) bs
  unfolding sort_buckets
  sort-Perm [] = Perm.rfl
  sort-Perm (b ∷ bs) =
      Perm.trans (insert-Perm b (sort_buckets o add zero_sum bs)) (Perm.cons b (sort-Perm bs))

  counts_above :
      (b : F) (bs vs : List F)
      → All (λ d. o.lt d b ≡ false) bs
      → All (λ c. at_most b vs ≤ c) (map (λ d. at_most d vs) bs)
  counts_above b [] vs h = tt
  counts_above b (d ∷ bs) vs h = (at_most_mono b d vs h.0, counts_above b bs vs h.1)

  counts_ascend : (bs vs : List F) → IsSorted bs → IsAscending (map (λ b. at_most b vs) bs)
  counts_ascend [] vs h = tt
  counts_ascend (b ∷ bs) vs h = (counts_above b bs vs h.0, counts_ascend bs vs h.1)

  counts_bounded : (bs vs : List F) → All (λ c. c ≤ length vs) (map (λ b. at_most b vs) bs)
  counts_bounded [] vs = tt
  counts_bounded (b ∷ bs) vs = (at_most_le b vs, counts_bounded bs vs)

  -- A new histogram of the bounds `bs` that observes fewer than 2^63 values, in order: its buckets
  -- are those bounds, sorted, each as often as it was given; each count is the number of values of
  -- at most its bucket's bound, the counts ascend with the buckets, and none exceeds the total,
  -- which is the number of values.
  pub observe_all-counts :
      (bs vs : List F)
      → length vs < 2 ^ 63
      → let h = observe_all o add zero_sum vs (new_histogram o add zero_sum bs) in
        Perm h.buckets bs
        × IsSorted h.buckets
        × (h.counts ≡ map (λ b. at_most b vs) h.buckets)
        × IsAscending h.counts
        × All (λ c. c ≤ h.total) h.counts
        × (h.total ≡ length vs)
  observe_all-counts bs vs few =
      let (same, counts, total) =
        observe_all-Has vs (new_histogram o add zero_sum bs) (sort_buckets o add zero_sum bs) []
          (omega (arith, few)) (new_histogram-Has bs) in
      (
        rw same (sort-Perm bs),
        rw same (sort-IsSorted bs),
        rw same counts,
        rw counts (counts_ascend _ vs (sort-IsSorted bs)),
        rw (counts, total) (counts_bounded _ vs),
        total,
      )
