-- ===== src/Handlers/Predict.antt =====
-- `Predict` of backend/internal/handlers/handlers.go. The body decodes or not; the pool and the
-- prediction service answer as an argument says.
use nyc_taxi_real_time_eta_p.Common.{
  ℕ, Bool, true, false, List, [], ◌∷◌, ◌++◌, Option, none, some, if◌then◌else◌,
}
use nyc_taxi_real_time_eta_p.Common.Bytes.{Bytes, codes}
use nyc_taxi_real_time_eta_p.Geo.{Float}
use nyc_taxi_real_time_eta_p.Models.{PredictionRequest, PredictionResponse}
use nyc_taxi_real_time_eta_p.Cache
use nyc_taxi_real_time_eta_p.Cache.{Codec, Store}
use nyc_taxi_real_time_eta_p.Metrics.Histogram.{Children, counter_add, with_label_values}
use nyc_taxi_real_time_eta_p.Handlers.Validation.{validate_prediction_request}

-- What the worker pool does with the job, or the service with a call of its own: a refusal of
-- `Submit`, a result, or the end of the request's context before one.
pub data Outcome (F : Type 0) : Type 0 where
  refused failed gone : Outcome F
  predicted : PredictionResponse F → Outcome F

pub record Event (F : Type 0) : Type 0 where
  pub trip_id : Bytes
  pub eta_minutes : F
  pub cache_hit : Bool
  pub model_version : Bytes

-- The counters of `metrics.App`, as 64-bit words, the store of the cache and the events sent.
pub record World (F S : Type 0) : Type 0 where
  pub cache_hits : ℕ
  pub cache_misses : ℕ
  pub requests : Children ℕ
  pub prediction_errors : ℕ
  pub store : S
  pub sent : List (Event F)

-- 400 for a body that does not decode, 400 with the message of the validation, 200, 503, 502, and no
-- answer at all.
pub data Reply (F : Type 0) : Type 0 where
  bad_request : Reply F
  invalid : Bytes → Reply F
  ok : PredictionResponse F → Reply F
  unavailable bad_gateway no_answer : Reply F

module _ (fl : Float) (codec : Codec fl.F) (store : Store) where
  open fl use {F}

  abbrev pub Server : Type 0
  Server = World F store.S

  unfoldable pub broadcast_prediction_event : Bytes → PredictionResponse F → Server → Server
  broadcast_prediction_event job_id resp w = record w {
    sent =
        w.sent
        ++ (record {
          trip_id = job_id;
          eta_minutes = resp.predicted_duration_minutes;
          cache_hit = resp.cache_hit;
          model_version = resp.model_version;
        }
            ∷ []);
  }

  -- `Inc` of the counter of hits or misses, and of the vector's child.
  unfoldable pub count_hit : Server → Server
  count_hit w = record w {
    cache_hits = counter_add 1 w.cache_hits;
    requests = with_label_values 0 (codes "hit" ∷ []) (counter_add 1) w.requests;
  }

  unfoldable pub count_miss : Server → Server
  count_miss w = record w {
    cache_misses = counter_add 1 w.cache_misses;
    requests = with_label_values 0 (codes "miss" ∷ []) (counter_add 1) w.requests;
  }

  -- A failed write of the cache is only logged.
  unfoldable pub cache_set : PredictionRequest F → PredictionResponse F → Server → Server
  cache_set req resp w = record w { store = (Cache.set codec store req resp w.store).1 }

  unfoldable pub predict_sync : PredictionRequest F → Outcome F → Server → Server × Reply F
  unfolding cache_set
  predict_sync req (predicted r) w =
      let resp = record r { cache_hit = false } in (cache_set req resp w, ok resp)
  predict_sync req refused w =
      (record w { prediction_errors = counter_add 1 w.prediction_errors }, bad_gateway)
  predict_sync req failed w =
      (record w { prediction_errors = counter_add 1 w.prediction_errors }, bad_gateway)
  predict_sync req gone w =
      (record w { prediction_errors = counter_add 1 w.prediction_errors }, bad_gateway)

  -- The worker of a failed job has counted the error before it sends the result. Where the context ends
  -- first, what the worker then does is not part of the request.
  unfoldable pub predict_pooled :
      Bytes → PredictionRequest F → Outcome F → Server → Server × Reply F
  unfolding cache_set broadcast_prediction_event
  predict_pooled job_id req refused w = (w, unavailable)
  predict_pooled job_id req failed w =
      (record w { prediction_errors = counter_add 1 w.prediction_errors }, bad_gateway)
  predict_pooled job_id req gone w = (w, no_answer)
  predict_pooled job_id req (predicted r) w =
      let resp = record r { cache_hit = false } in
      (broadcast_prediction_event job_id resp (cache_set req resp w), ok resp)

  unfoldable pub predict_valid :
      Bool → Bytes → PredictionRequest F → Outcome F → Server → Server × Reply F
  unfolding count_hit count_miss broadcast_prediction_event predict_sync predict_pooled
  predict_valid sync_mode fresh req outcome w = elim (Cache.get codec store req w.store) [
    | some cached ↦
        let resp = record cached { cache_hit = true } in
        (broadcast_prediction_event fresh resp (count_hit w), ok resp)
    | none ↦
        if sync_mode
        then predict_sync req outcome (count_miss w)
        else predict_pooled fresh req outcome (count_miss w)
  ]

  -- `fresh` is what `idgen.NewID` returns.
  unfoldable pub predict :
      Bool → Bytes → Option (PredictionRequest F) → Outcome F → Server → Server × Reply F
  unfolding predict_valid
  predict sync_mode fresh none outcome w = (w, bad_request)
  predict sync_mode fresh (some req) outcome w = elim (validate_prediction_request fl req) [
    | some msg ↦ (w, invalid msg)
    | none ↦ predict_valid sync_mode fresh req outcome w
  ]
