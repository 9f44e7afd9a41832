-- ===== src/Handlers/Predicting.antt =====
-- What `Predict` of backend/internal/handlers/handlers.go answers and counts.
use nyc_taxi_real_time_eta_p.Common.{
  ℕ, ◌+◌, ◌%◌, ◌^◌, ◌≡◌, refl, ap, ◌∙◌, ◌⊎◌, Bool, true, false, none, some, inl, inr, Option-cases,
}
use nyc_taxi_real_time_eta_p.Common.Bytes.{Bytes}
use nyc_taxi_real_time_eta_p.Geo.{Float}
use nyc_taxi_real_time_eta_p.Models.{PredictionRequest, PredictionResponse}
use nyc_taxi_real_time_eta_p.Cache
use nyc_taxi_real_time_eta_p.Cache.{Codec, Store, StoreLaws, key, get-set}
use nyc_taxi_real_time_eta_p.Metrics.Histogram.{counter_add}
use nyc_taxi_real_time_eta_p.Handlers.Validation.{validate_prediction_request}
use nyc_taxi_real_time_eta_p.Handlers.Predict.{
  Outcome, refused, failed, gone, predicted, invalid, ok, Server, broadcast_prediction_event,
  count_hit, count_miss, cache_set, predict_sync, predict_pooled, predict_valid, predict,
}

module _ (fl : Float) (codec : Codec fl.F) (store : Store) where
  open fl use {F}

  pub predict_of_valid :
      (sync : Bool) (fresh : Bytes) (req : PredictionRequest F) (outcome : Outcome F)
      (w : Server fl codec store)
      → validate_prediction_request fl req ≡ none
      → predict fl codec store sync fresh (some req) outcome w
        ≡ predict_valid fl codec store sync fresh req outcome w
  unfolding predict
  predict_of_valid sync fresh req outcome w e = rw (e, predict)

  -- The miss of a valid request: what the mode makes of it.
  predict_miss :
      (sync : Bool) (fresh : Bytes) (req : PredictionRequest F) (r : PredictionResponse F)
      (w : Server fl codec store)
      → Cache.get codec store req w.store ≡ none
      → let (w', reply) = predict_valid fl codec store sync fresh req (predicted r) w in
        (reply ≡ ok (record r { cache_hit = false }))
        × (w'.store ≡ (Cache.set codec store req (record r { cache_hit = false }) w.store).1)
  unfolding predict_valid predict_sync predict_pooled cache_set
  predict_miss true fresh req r w e = rw (e, predict_valid) (refl, refl)
  predict_miss false fresh req r w e = rw (e, predict_valid) (refl, refl)

  predict_hit :
      (sync : Bool) (fresh : Bytes) (req : PredictionRequest F) (outcome : Outcome F)
      (resp : PredictionResponse F) (w : Server fl codec store)
      → Cache.get codec store req w.store ≡ some resp
      → (predict_valid fl codec store sync fresh req outcome w).1
        ≡ ok (record resp { cache_hit = true })
  unfolding predict_valid
  predict_hit sync fresh req outcome resp w e = rw (e, predict_valid)

  -- A valid request that misses, with a prediction and a write of the cache that succeed, is answered
  -- by the prediction; and the next valid request of the same key, in whatever mode and whatever the
  -- pool and the service would do, by the same prediction, marked as a hit of the cache.
  pub predict_twice :
      (laws : StoreLaws codec store) (sync sync' : Bool) (fresh fresh' : Bytes)
      (req again : PredictionRequest F) (r : PredictionResponse F) (outcome : Outcome F)
      (w : Server fl codec store)
      → validate_prediction_request fl req ≡ none
      → validate_prediction_request fl again ≡ none
      → key codec store again ≡ key codec store req
      → Cache.get codec store req w.store ≡ none
      → (Cache.set codec store req (record r { cache_hit = false }) w.store).0 ≡ true
      → let (w', first) = predict fl codec store sync fresh (some req) (predicted r) w in
        (first ≡ ok (record r { cache_hit = false }))
        × ((predict fl codec store sync' fresh' (some again) outcome w').1
            ≡ ok (record r { cache_hit = true }))
  predict_twice laws sync sync' fresh fresh' req again r outcome w valid valid' same miss stored =
      let resp = record r { cache_hit = false } in
      let result = predict_valid fl codec store sync fresh req (predicted r) w in
      let (first, kept) = predict_miss sync fresh req r w miss in
      let written : Cache.set codec store req resp w.store ≡ (true, result.0.store) =
        cc (stored, kept) in
      rw (predict_of_valid sync fresh req (predicted r) w valid) (
        first,
        ap (λ x. x.1) (predict_of_valid sync' fresh' again outcome result.0 valid')
            ∙ predict_hit sync' fresh' again outcome resp result.0
                (get-set codec store laws req again resp w.store result.0.store written same),
      )

  -- What one request adds to a counter.
  abbrev Adds : ℕ → ℕ → ℕ → Type 0
  Adds n before after = after ≡ (before + n) % 2 ^ 64

  hit_counts :
      (sync : Bool) (fresh : Bytes) (req : PredictionRequest F) (outcome : Outcome F)
      (resp : PredictionResponse F) (w : Server fl codec store)
      → Cache.get codec store req w.store ≡ some resp
      → let w' = (predict_valid fl codec store sync fresh req outcome w).0 in
        Adds 1 w.cache_hits w'.cache_hits
        × (w'.cache_misses ≡ w.cache_misses)
        × (w'.store ≡ w.store)
  unfolding predict_valid count_hit counter_add broadcast_prediction_event
  hit_counts sync fresh req outcome resp w e = rw (e, predict_valid) (refl, refl, refl)

  pooled_counts :
      (fresh : Bytes) (req : PredictionRequest F) (outcome : Outcome F) (w : Server fl codec store)
      → let w' = (predict_pooled fl codec store fresh req outcome w).0 in
        (w'.cache_misses ≡ w.cache_misses) × (w'.cache_hits ≡ w.cache_hits)
  unfolding predict_pooled broadcast_prediction_event cache_set
  pooled_counts fresh req refused w = (refl, refl)
  pooled_counts fresh req failed w = (refl, refl)
  pooled_counts fresh req gone w = (refl, refl)
  pooled_counts fresh req (predicted r) w = (refl, refl)

  sync_counts :
      (req : PredictionRequest F) (outcome : Outcome F) (w : Server fl codec store)
      → let w' = (predict_sync fl codec store req outcome w).0 in
        (w'.cache_misses ≡ w.cache_misses) × (w'.cache_hits ≡ w.cache_hits)
  unfolding predict_sync cache_set
  sync_counts req refused w = (refl, refl)
  sync_counts req failed w = (refl, refl)
  sync_counts req gone w = (refl, refl)
  sync_counts req (predicted r) w = (refl, refl)

  miss_counts :
      (sync : Bool) (fresh : Bytes) (req : PredictionRequest F) (outcome : Outcome F)
      (w : Server fl codec store)
      → Cache.get codec store req w.store ≡ none
      → let w' = (predict_valid fl codec store sync fresh req outcome w).0 in
        Adds 1 w.cache_misses w'.cache_misses × (w'.cache_hits ≡ w.cache_hits)
  unfolding predict_valid count_miss counter_add
  miss_counts true fresh req outcome w e =
      rw (e, predict_valid) (sync_counts req outcome (count_miss fl codec store w))
  miss_counts false fresh req outcome w e =
      rw (e, predict_valid) (pooled_counts fresh req outcome (count_miss fl codec store w))

  -- The accounting of one request: where the body decodes and is valid, exactly one of the hits and
  -- misses goes up by one, the hits if and only if the cache has an answer; otherwise nothing of the
  -- server changes and the answer is the message of the validation.
  pub predict-counts :
      (sync : Bool) (fresh : Bytes) (req : PredictionRequest F) (outcome : Outcome F)
      (w : Server fl codec store)
      → let (w', reply) = predict fl codec store sync fresh (some req) outcome w in
        ((msg : Bytes) × (validate_prediction_request fl req ≡ some msg)
          × (w' ≡ w)
          × (reply ≡ invalid msg))
        ⊎ ((validate_prediction_request fl req ≡ none)
            × (((resp : PredictionResponse F) × (Cache.get codec store req w.store ≡ some resp)
                  × Adds 1 w.cache_hits w'.cache_hits
                  × (w'.cache_misses ≡ w.cache_misses)
                  × (w'.store ≡ w.store)
                  × (reply ≡ ok (record resp { cache_hit = true })))
                ⊎ ((Cache.get codec store req w.store ≡ none)
                    × Adds 1 w.cache_misses w'.cache_misses
                    × (w'.cache_hits ≡ w.cache_hits))))
  unfolding predict
  predict-counts sync fresh req outcome w =
      elim (Option-cases (validate_prediction_request fl req)) [
        | inr (msg, e) ↦ inl (msg, e, rw (e, predict) refl, rw (e, predict) refl)
        | inl e ↦ inr (
          e,
          rw (e, predict)
              (elim (Option-cases (Cache.get codec store req w.store)) [
                | inr (resp, f) ↦ inl (
                  resp,
                  f,
                  (hit_counts sync fresh req outcome resp w f).0,
                  (hit_counts sync fresh req outcome resp w f).1,
                  (hit_counts sync fresh req outcome resp w f).2,
                  predict_hit sync fresh req outcome resp w f,
                )
                | inl f ↦ inr (
                  f,
                  (miss_counts sync fresh req outcome w f).0,
                  (miss_counts sync fresh req outcome w f).1,
                )
              ]),
        )
      ]
