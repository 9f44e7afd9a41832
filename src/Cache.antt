-- ===== src/Cache.antt =====
-- backend/internal/cache/prediction_cache.go. What fmt, time, sha1 and json make of a value, and the
-- answers of Redis, are parameters.
pub mod Examples
use nyc_taxi_real_time_eta_p.Common.{
  ℕ, ◌≡◌, Bool, true, List, [], ◌∷◌, ◌++◌, Option, none, some, ap, ◌∙◌, inl, inr, Option-cases,
}
use nyc_taxi_real_time_eta_p.Common.Bytes.{Bytes, codes}
use nyc_taxi_real_time_eta_p.Common.Int.{ℤ}
use nyc_taxi_real_time_eta_p.Models.{PredictionRequest, PredictionResponse}

-- `%.4f`, `%d`, `time.Parse` of RFC 3339, `Truncate` to 10 minutes, `Format` to the minute, the hex
-- SHA-1, and JSON.
pub record Codec (F : Type 0) : Type 1 where
  pub Time : Type 0
  pub format_float : F → Bytes
  pub format_int : ℤ → Bytes
  pub parse_time : Bytes → Option Time
  pub truncate : Time → Time
  pub format_minute : Time → Bytes
  pub sha1_hex : Bytes → Bytes
  pub marshal : PredictionResponse F → Option Bytes
  pub unmarshal : Bytes → Option (PredictionResponse F)

-- A store: GET, none on an error, and SETEX, whether it succeeded.
pub record Store : Type 1 where
  pub S : Type 0
  pub get : Bytes → S → Option (Option Bytes)
  pub set_ex : Bytes → Bytes → S → Bool × S

module _ {F : Type 0} (codec : Codec F) (store : Store) where
  unfoldable pub time_bucket : Bytes → Bytes
  time_bucket pickup_datetime = elim (codec.parse_time pickup_datetime) [
    | none ↦ pickup_datetime
    | some t ↦ codec.format_minute (codec.truncate t)
  ]

  unfoldable pub key : PredictionRequest F → Bytes
  unfolding time_bucket
  key req =
      let bar = codes "|" in
      let raw =
        codec.format_float req.pickup_latitude
        ++ (bar
            ++ (codec.format_float req.pickup_longitude
                ++ (bar
                    ++ (codec.format_float req.dropoff_latitude
                        ++ (bar
                            ++ (codec.format_float req.dropoff_longitude
                                ++ (bar
                                    ++ (codec.format_int req.passenger_count
                                        ++ (bar ++ time_bucket req.pickup_datetime))))))))) in
      codes "prediction:" ++ codec.sha1_hex raw

  -- An error of Redis, or a value that does not decode, is a miss.
  unfoldable pub get : PredictionRequest F → store.S → Option (PredictionResponse F)
  get req s = elim (store.get (key req) s) [
    | none ↦ none
    | some found ↦ elim found [ none ↦ none | some raw ↦ codec.unmarshal raw ]
  ]

  unfoldable pub set : PredictionRequest F → PredictionResponse F → store.S → Bool × store.S
  set req resp s = elim (codec.marshal resp) [
    | none ↦ (Bool.false, s)
    | some raw ↦ store.set_ex (key req) raw s
  ]

  -- What SETEX promises before the expiry, and json of its own output.
  pub record StoreLaws : Type 0 where
    pub get_set :
        (k v : Bytes) (s s' : store.S)
        → store.set_ex k v s ≡ (true, s')
        → store.get k s' ≡ some (some v)
    pub unmarshal_marshal :
        (r : PredictionResponse F) (raw : Bytes)
        → codec.marshal r ≡ some raw
        → codec.unmarshal raw ≡ some r

  set_stored :
      (req : PredictionRequest F) (resp : PredictionResponse F) (s s' : store.S)
      → set req resp s ≡ (true, s')
      → (raw : Bytes) × (codec.marshal resp ≡ some raw)
        × (store.set_ex (key req) raw s ≡ (true, s'))
  unfolding set
  set_stored req resp s s' h = elim (Option-cases (codec.marshal resp)) [
    | inl e ↦ let q : (Bool.false, s) ≡ (true, s') = rw (e, set) at h in cc (ap (λ x. x.0) q)
    | inr (raw, e) ↦ (raw, e, rw (e, set) at h)
  ]

  -- Under those laws a response that `Set` stored is what `Get` finds for every request of the same
  -- key.
  pub get-set :
      (laws : StoreLaws) (req again : PredictionRequest F) (resp : PredictionResponse F)
      (s s' : store.S)
      → set req resp s ≡ (true, s')
      → key again ≡ key req
      → get again s' ≡ some resp
  unfolding get
  get-set laws req again resp s s' h same =
      let (raw, made, stored) = set_stored req resp s s' h in
      let found : store.get (key again) s' ≡ some (some raw) =
        ap (λ k. store.get k s') same ∙ laws.get_set (key req) raw s s' stored in
      rw (found, get) (laws.unmarshal_marshal resp raw made)
