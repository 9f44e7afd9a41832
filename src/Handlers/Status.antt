-- ===== src/Handlers/Status.antt =====
-- The handlers of backend/internal/handlers/handlers.go that report: Health, SystemStatus, Metrics and
-- Drivers; and WS, which hands a connection to the hub. The counters of the cache stay below 2^63, so
-- that their words are their values.
use nyc_taxi_real_time_eta_p.Common.{
  ℕ, ◌+◌, ◌%◌, ◌^◌, ◌&&◌, Bool, true, false, List, [], ◌∷◌, Option, none, some, ltb, if◌then◌else◌,
}
use nyc_taxi_real_time_eta_p.Common.Bytes.{Bytes, codes}
use nyc_taxi_real_time_eta_p.Geo.{Float}
use nyc_taxi_real_time_eta_p.Models.{PredictionRequest}
use nyc_taxi_real_time_eta_p.Cache.{Codec, Store}
use nyc_taxi_real_time_eta_p.Dispatch.Driver.{Driver}
use nyc_taxi_real_time_eta_p.Metrics.Exposition.{Format, Registry, gather}
use nyc_taxi_real_time_eta_p.Workers.Pool.{Stats}
use nyc_taxi_real_time_eta_p.Websocket.Frame.{Conn}
use nyc_taxi_real_time_eta_p.Websocket.Handshake.{
  Hijacking, upgraded, not_websocket, no_hijacker, not_hijacked, closed, upgrade,
}
use nyc_taxi_real_time_eta_p.Handlers.Predict.{
  Outcome, Reply, bad_request, invalid, ok, unavailable, bad_gateway, no_answer, Server, predict,
}

pub record Health : Type 0 where
  pub status : Bytes
  pub ml_service_up : Bool
  pub redis_up : Bool
  pub timestamp : Bytes

unfoldable pub health : Bool → Bool → Bytes → Health
health ml_up pinged now = record {
  status = codes "ok";
  ml_service_up = ml_up;
  redis_up = pinged;
  timestamp = now;
}

pub record Status (F : Type 0) : Type 0 where
  pub pool : Stats
  pub cache_hits : ℕ
  pub cache_misses : ℕ
  pub cache_hit_rate : F

-- 500, or 200 with the drivers.
unfoldable pub drivers : {F : Type 0} → Option (List (Driver F)) → ℕ × List (Driver F)
drivers none = (500, [])
drivers (some ds) = (200, ds)

-- The content type and the page.
unfoldable pub metrics_page : {S F : Type 0} → Format F → S → Registry S F → Bytes × Bytes
metrics_page fmt s r = (codes "text/plain; version=0.0.4", gather fmt s r)

-- What WS does: it registers the connection with the hub, answers 400, or, where the connection is
-- taken over already, no answer goes out.
pub data Serving : Type 0 where
  registers : Conn → Serving
  answers_400 answers_nothing : Serving

unfoldable pub ws : (Bytes → Bytes) → (Bytes → Bytes) → Hijacking → Serving
ws digest get h = elim (upgrade digest get h) [
  | upgraded c ↦ registers c
  | not_websocket ↦ answers_400
  | no_hijacker ↦ answers_400
  | not_hijacked ↦ answers_400
  | closed c ↦ answers_nothing
]

module _ (fl : Float) (codec : Codec fl.F) (store : Store) where
  open fl use {F, num, div}

  unfoldable pub system_status : Stats → Server fl codec store → Status F
  system_status pool w =
      let total = (w.cache_hits + w.cache_misses) % 2 ^ 64 in
      record {
        pool = pool;
        cache_hits = w.cache_hits;
        cache_misses = w.cache_misses;
        cache_hit_rate =
            if ltb 0 total && ltb total (2 ^ 63) then div (num w.cache_hits) (num total) else num 0;
      }

  -- A request of Predict, with what the rest of the server makes of it.
  pub record Call : Type 0 where
    pub sync_mode : Bool
    pub fresh : Bytes
    pub body : Option (PredictionRequest F)
    pub outcome : Outcome F

  unfoldable pub predicts :
      List Call → Server fl codec store → Server fl codec store × List (Reply F)
  predicts [] w = (w, [])
  predicts (x ∷ xs) w =
      let (w', r) = predict fl codec store x.sync_mode x.fresh x.body x.outcome w in
      let (w'', rs) = predicts xs w' in (w'', r ∷ rs)

  -- A request that passed the validation, and an answer that is marked as a cache hit.
  unfoldable pub is_valid : Reply F → Bool
  is_valid bad_request = false
  is_valid (invalid msg) = false
  is_valid (ok r) = true
  is_valid unavailable = true
  is_valid bad_gateway = true
  is_valid no_answer = true

  unfoldable pub is_hit : Reply F → Bool
  is_hit bad_request = false
  is_hit (invalid msg) = false
  is_hit (ok r) = r.cache_hit
  is_hit unavailable = false
  is_hit bad_gateway = false
  is_hit no_answer = false
