-- ===== src/Cache/Examples.antt =====
-- backend/internal/cache/prediction_cache.go over a store that is a list, with whole numbers for
-- float64 and a plain encoding for JSON.
use nyc_taxi_real_time_eta_p.Common.{
  ℕ, ◌≡◌, refl, ap, Bool, true, false, List, [], ◌∷◌, ◌++◌, Option, none, some, if◌then◌else◌, ◌==◌,
  ◌/◌, ◌*◌, length, take, drop, take-append, drop-append,
}
use nyc_taxi_real_time_eta_p.Common.Bytes.{Bytes, codes, bytes_eq, bytes_eq_refl}
use nyc_taxi_real_time_eta_p.Common.Int.{ℤ, pos, negsuc}
use nyc_taxi_real_time_eta_p.Models.{PredictionRequest, PredictionResponse}
use nyc_taxi_real_time_eta_p.Cache.{Codec, Store, StoreLaws, key, set}

abbrev pub lookup : Bytes → List (Bytes × Bytes) → Option Bytes
lookup k [] = none
lookup k ((j, v) ∷ s) = if bytes_eq j k then some v else lookup k s

abbrev pub table : Store
table = record {
  S = List (Bytes × Bytes);
  get = λ k s. some (lookup k s);
  set_ex = λ k v s. (true, (k, v) ∷ s);
}

abbrev pub encode_int : ℤ → Bytes
encode_int (pos n) = 0 ∷ n ∷ []
encode_int (negsuc n) = 1 ∷ n ∷ []

abbrev pub encode_bool : Bool → ℕ
encode_bool true = 1
encode_bool false = 0

abbrev pub encode : PredictionResponse ℕ → Bytes
encode r =
    encode_int r.predicted_duration_seconds
    ++ (r.predicted_duration_minutes
        ∷ r.distance_km
        ∷ encode_bool r.cache_hit
        ∷ length r.model_version
        ∷ length r.request_id
        ∷ (r.model_version ++ (r.request_id ++ r.prediction_timestamp)))

abbrev pub decode : Bytes → Option (PredictionResponse ℕ)
decode (sign ∷ n ∷ minutes ∷ km ∷ hit ∷ a ∷ b ∷ rest) = some (record {
  predicted_duration_seconds = if sign == 0 then pos n else negsuc n;
  predicted_duration_minutes = minutes;
  distance_km = km;
  model_version = take a rest;
  request_id = take b (drop a rest);
  prediction_timestamp = drop b (drop a rest);
  cache_hit = hit == 1;
})
decode _ = none

abbrev pub plain : Codec ℕ
plain = record {
  Time = ℕ;
  format_float = λ x. x ∷ [];
  format_int = encode_int;
  parse_time = λ s. elim s [ [] ↦ none | c ∷ t ↦ some c ];
  truncate = λ t. t / 10 * 10;
  format_minute = λ t. t ∷ [];
  sha1_hex = λ s. s;
  marshal = λ r. some (encode r);
  unmarshal = decode;
}

-- The three strings, cut at their lengths.
cut_strings :
    (a b c : Bytes)
    → let rest = a ++ (b ++ c) in
      (take (length a) rest ≡ a)
      × (take (length b) (drop (length a) rest) ≡ b)
      × (drop (length b) (drop (length a) rest) ≡ c)
cut_strings a b c = (
  take-append a (b ++ c),
  rw (drop-append a (b ++ c)) (take-append b c),
  rw (drop-append a (b ++ c)) (drop-append b c),
)

decode_parts :
    (n : ℤ) (minutes km : ℕ) (h : Bool) (a b c : Bytes)
    → let r : PredictionResponse ℕ = record {
      predicted_duration_seconds = n;
      predicted_duration_minutes = minutes;
      distance_km = km;
      model_version = a;
      request_id = b;
      prediction_timestamp = c;
      cache_hit = h;
    } in
      decode (encode r) ≡ some r
decode_parts (pos n) minutes km true a b c = let (p, q, r) = cut_strings a b c in rw (p, q, r) refl
decode_parts (pos n) minutes km false a b c = let (p, q, r) = cut_strings a b c in rw (p, q, r) refl
decode_parts (negsuc n) minutes km true a b c =
    let (p, q, r) = cut_strings a b c in rw (p, q, r) refl
decode_parts (negsuc n) minutes km false a b c =
    let (p, q, r) = cut_strings a b c in rw (p, q, r) refl

decode-encode :
    (r : PredictionResponse ℕ) (raw : Bytes) → some (encode r) ≡ some raw → decode raw ≡ some r
decode-encode r raw e =
    let q : encode r ≡ raw = cc in
    rw⁻¹ q (
      decode_parts r.predicted_duration_seconds r.predicted_duration_minutes r.distance_km
        r.cache_hit r.model_version r.request_id r.prediction_timestamp)

lookup_put :
    (k v : Bytes) (s s' : List (Bytes × Bytes))
    → ◌≡◌ {A = Bool × List (Bytes × Bytes)} (true, (k, v) ∷ s) (true, s')
    → some (lookup k s') ≡ some (some v)
lookup_put k v s s' h =
    let q : (k, v) ∷ s ≡ s' = ap (λ x. x.1) h in rw⁻¹ q (rw (bytes_eq_refl k) refl)

pub plain_laws : StoreLaws plain table
plain_laws = record { get_set = lookup_put; unmarshal_marshal = decode-encode }

abbrev pub ride : PredictionRequest ℕ
ride = record {
  pickup_latitude = 40;
  pickup_longitude = 0;
  dropoff_latitude = 40;
  dropoff_longitude = 0;
  passenger_count = pos 2;
  pickup_datetime = 121 ∷ [];
  vendor_id = pos 1;
  store_and_fwd_flag = codes "N";
}

-- The same ride in the same ten minutes.
abbrev pub later : PredictionRequest ℕ
later = record ride { pickup_datetime = 125 ∷ [] }

abbrev pub answer : PredictionResponse ℕ
answer = record {
  predicted_duration_seconds = pos 600;
  predicted_duration_minutes = 10;
  distance_km = 5;
  model_version = codes "v1";
  request_id = codes "r";
  prediction_timestamp = codes "now";
  cache_hit = false;
}

pub one_key : key plain table later ≡ key plain table ride
unfolding key
one_key = refl

pub written : set plain table ride answer [] ≡ (true, (key plain table ride, encode answer) ∷ [])
unfolding set
written = refl
