-- ===== src/Handlers/Reporting.antt =====
-- What SystemStatus of backend/internal/handlers/handlers.go reports after requests of Predict.
use nyc_taxi_real_time_eta_p.Common.{
  ℕ, ◌+◌, ◌%◌, ◌^◌, ◌<◌, ◌≡◌, refl, inl, inr, Bool, true, false, List, [], ◌∷◌, Option, none, some,
  arith, if◌then◌else◌, length,
}
use nyc_taxi_real_time_eta_p.Common.Bytes.{Bytes}
use nyc_taxi_real_time_eta_p.Common.Sorting.{count, count_le}
use nyc_taxi_real_time_eta_p.Geo.{Float}
use nyc_taxi_real_time_eta_p.Models.{PredictionRequest}
use nyc_taxi_real_time_eta_p.Cache
use nyc_taxi_real_time_eta_p.Cache.{Codec, Store}
use nyc_taxi_real_time_eta_p.Workers.Pool.{Stats}
use nyc_taxi_real_time_eta_p.Handlers.Predict.{
  Outcome, refused, failed, gone, predicted, Reply, Server, count_miss, predict_sync,
  predict_pooled, predict_valid, predict,
}
use nyc_taxi_real_time_eta_p.Handlers.Predicting.{predict_of_valid, predict-counts}
use nyc_taxi_real_time_eta_p.Handlers.Status.{system_status, Call, predicts, is_valid, is_hit}

module _ (fl : Float) (codec : Codec fl.F) (store : Store) where
  open fl use {F, num, div}

  abbrev Miss : Reply F → Type 0
  Miss r = (is_valid fl codec store r ≡ true) × (is_hit fl codec store r ≡ false)

  sync_reply :
      (req : PredictionRequest F) (outcome : Outcome F) (w : Server fl codec store)
      → Miss (predict_sync fl codec store req outcome w).1
  unfolding predict_sync is_valid is_hit
  sync_reply req refused w = (refl, refl)
  sync_reply req failed w = (refl, refl)
  sync_reply req gone w = (refl, refl)
  sync_reply req (predicted r) w = (refl, refl)

  pooled_reply :
      (fresh : Bytes) (req : PredictionRequest F) (outcome : Outcome F) (w : Server fl codec store)
      → Miss (predict_pooled fl codec store fresh req outcome w).1
  unfolding predict_pooled is_valid is_hit
  pooled_reply fresh req refused w = (refl, refl)
  pooled_reply fresh req failed w = (refl, refl)
  pooled_reply fresh req gone w = (refl, refl)
  pooled_reply fresh req (predicted r) w = (refl, refl)

  reply-Miss :
      (sync : Bool) (fresh : Bytes) (req : PredictionRequest F) (outcome : Outcome F)
      (w : Server fl codec store)
      → Cache.get codec store req w.store ≡ none
      → Miss (predict_valid fl codec store sync fresh req outcome w).1
  unfolding predict_valid
  reply-Miss true fresh req outcome w e =
      rw (e, predict_valid) (sync_reply req outcome (count_miss fl codec store w))
  reply-Miss false fresh req outcome w e =
      rw (e, predict_valid) (pooled_reply fresh req outcome (count_miss fl codec store w))

  abbrev one_if : Bool → ℕ
  one_if b = if b then 1 else 0

  -- What one request adds to the two counters.
  abbrev Counts : Server fl codec store → Server fl codec store × Reply F → Type 0
  Counts w (w', r) =
      (w'.cache_hits ≡ w.cache_hits + one_if (is_hit fl codec store r))
      × (w'.cache_hits + w'.cache_misses
          ≡ w.cache_hits + w.cache_misses + one_if (is_valid fl codec store r))

  call-Counts :
      (sync : Bool) (fresh : Bytes) (body : Option (PredictionRequest F)) (outcome : Outcome F)
      (w : Server fl codec store)
      → w.cache_hits + w.cache_misses + 1 < 2 ^ 63
      → Counts w (predict fl codec store sync fresh body outcome w)
  unfolding is_valid is_hit
  call-Counts sync fresh none outcome w h = unfold predict in (omega arith, omega arith)
  call-Counts sync fresh (some req) outcome w h =
      elim (predict-counts fl codec store sync fresh req outcome w) [
        | inl (msg, e, same, r) ↦ rw (same, r) (omega arith, omega arith)
        | inr (e, inl (resp, f, hit, misses, st, r)) ↦
            rw r (ground (arith, hit, h), ground (arith, hit, misses, h))
        | inr (e, inr (f, misses, hits)) ↦
            let (v, n) = reply-Miss sync fresh req outcome w f in
            let same = predict_of_valid fl codec store sync fresh req outcome w e in
            let v' : is_valid fl codec store
                  (predict fl codec store sync fresh (some req) outcome w).1
                ≡ true =
              rw same v in
            let n' : is_hit fl codec store
                  (predict fl codec store sync fresh (some req) outcome w).1
                ≡ false =
              rw same n in
            (ground (arith, hits, n', h), ground (arith, hits, misses, v', h))
      ]

  predicts-count :
      (xs : List (Call fl codec store)) (w : Server fl codec store)
      → w.cache_hits + w.cache_misses + length xs < 2 ^ 63
      → let (w', rs) = predicts fl codec store xs w in
        (w'.cache_hits ≡ w.cache_hits + count (is_hit fl codec store) rs)
        × (w'.cache_hits + w'.cache_misses
            ≡ w.cache_hits + w.cache_misses + count (is_valid fl codec store) rs)
        × (length rs ≡ length xs)
  unfolding predicts count
  predicts-count [] w h = (omega arith, omega arith, refl)
  predicts-count (x ∷ xs) w h =
      let (w', r) = predict fl codec store x.sync_mode x.fresh x.body x.outcome w in
      let (hit, all) = call-Counts x.sync_mode x.fresh x.body x.outcome w (omega (arith, h)) in
      let (hits, total, len) = predicts-count xs w' (ground (arith, h, all)) in
      (omega (arith, hit, hits), omega (arith, all, total), omega (arith, len))

  -- Requests of Predict, fewer than 2^63, on counters of 0, whatever they ask and whatever becomes of
  -- them: SystemStatus then reports as hits the number of the answers that are marked as cache hits,
  -- and its hits and misses together are the requests that passed the validation; its hit rate is the
  -- quotient of these two, and 0 where no request passed.
  pub system_status-counts :
      (xs : List (Call fl codec store)) (pool : Stats) (w : Server fl codec store)
      → w.cache_hits ≡ 0
      → w.cache_misses ≡ 0
      → length xs < 2 ^ 63
      → let (w', rs) = predicts fl codec store xs w in
        let status = system_status fl codec store pool w' in
        let hits = count (is_hit fl codec store) rs in
        let valid = count (is_valid fl codec store) rs in
        (status.cache_hits ≡ hits)
        × (status.cache_hits + status.cache_misses ≡ valid)
        × (0 < valid → status.cache_hit_rate ≡ div (num hits) (num valid))
        × (valid ≡ 0 → status.cache_hit_rate ≡ num 0)
  unfolding system_status
  system_status-counts xs pool w h m few =
      let (w', rs) = predicts fl codec store xs w in
      let (hits, total, len) = predicts-count xs w (omega (arith, h, m, few)) in
      let all = count_le (is_valid fl codec store) rs in
      let hits' : w'.cache_hits ≡ count (is_hit fl codec store) rs = omega (arith, hits, h) in
      let total' : w'.cache_hits + w'.cache_misses ≡ count (is_valid fl codec store) rs =
        omega (arith, total, h, m) in
      let word : (w'.cache_hits + w'.cache_misses) % 2 ^ 64 ≡ count (is_valid fl codec store) rs =
        omega (arith, total', all, len, few) in
      (
        hits',
        total',
        λ some_. rw (word, hits') (ground (arith, some_, all, len, few)),
        λ none_. rw (word, none_) refl,
      )
