-- ===== src/Middleware.antt =====
-- backend/internal/middleware/ratelimit.go. `split_host` is `net.SplitHostPort`, none on its error; the
-- handler behind the middleware is any function of its own state.
use nyc_taxi_real_time_eta_p.Common.{
  ℕ, suc, subst, ◌≡◌, ◌≢◌, refl, ap, Bool, true, false, List, [], ◌∷◌, ◌++◌, Option, none, some,
  ◌==◌, if◌then◌else◌, take, length, All, arith, ◌⊎◌, inl, inr, Bool-cases, take-append,
}
use nyc_taxi_real_time_eta_p.Common.Bytes.{Bytes, bytes_eq}
use nyc_taxi_real_time_eta_p.RateLimit.{Counters, Limiter, allow}
pub mod Wrapping
pub mod Responding
pub mod Serving
mod Examples

abbrev pub comma : ℕ
comma = 44

-- The header X-Forwarded-For, empty where it is absent, and the address of the connection.
pub record Request : Type 0 where
  pub forwarded : Bytes
  pub remote_addr : Bytes

pub data Reply (R : Type 0) : Type 0 where
  passed : R → Reply R
  too_many_requests panics : Reply R

-- `strings.IndexByte`.
unfoldable pub index_byte : ℕ → Bytes → Option ℕ
index_byte c [] = none
index_byte c (b ∷ s) =
    let rest = index_byte c s in
    if b == c then some 0 else elim rest [ none ↦ none | some i ↦ some (suc i) ]

unfoldable pub client_ip : (Bytes → Option Bytes) → Request → Bytes
unfolding index_byte
client_ip split_host r =
    if bytes_eq r.forwarded []
    then elim (split_host r.remote_addr) [ none ↦ r.remote_addr | some host ↦ host ]
    else elim (index_byte comma r.forwarded) [ some i ↦ take i r.forwarded | none ↦ r.forwarded ]

module _ (redis : Counters) (split_host : Bytes → Option Bytes) {S R : Type 0} where
  -- `RateLimit` at the time `now`, in front of `next`.
  unfoldable pub rate_limit :
      Limiter → ℕ → (S → S × R) → Request → redis.S × S → (redis.S × S) × Reply R
  unfolding client_ip
  rate_limit l now next r (s, w) = elim (allow redis l (client_ip split_host r) now s) [
    | none ↦ ((s, w), panics)
    | some (allowed, s') ↦
        if allowed
        then (let (w', answer) = next w in ((s', w'), passed answer))
        else ((s', w), too_many_requests)
  ]

index_byte-first :
    (c : ℕ) (s rest : Bytes) → All (λ b. b ≢ c) s → index_byte c (s ++ (c ∷ rest)) ≡ some (length s)
unfolding index_byte
index_byte-first c [] rest h = ground arith
index_byte-first c (b ∷ s) rest (h, hs) = let found = index_byte-first c s rest hs in ground arith

bytes_eq-append : (s : Bytes) (c : ℕ) (rest : Bytes) → bytes_eq (s ++ (c ∷ rest)) [] ≡ false
unfolding bytes_eq
bytes_eq-append [] c rest = refl
bytes_eq-append (b ∷ s) c rest = refl

client_ip-first :
    (split_host : Bytes → Option Bytes) (first rest remote : Bytes)
    → All (λ b. b ≢ comma) first
    → client_ip split_host (record { forwarded = first ++ (comma ∷ rest); remote_addr = remote })
      ≡ first
unfolding client_ip
client_ip-first split_host first rest remote h =
    rw (bytes_eq-append first comma rest, client_ip)
      (rw (index_byte-first comma first rest h, client_ip) (take-append first (comma ∷ rest)))

module _ (redis : Counters) (split_host : Bytes → Option Bytes) {S R : Type 0} where
  -- What a request counted for `ip` comes to: `Allow` lets it through, the handler behind runs, once,
  -- and answers; or the answer is 429 and the state of the handler is as it was; or `Allow` panics.
  abbrev IsLimited :
      Limiter → ℕ → (S → S × R) → Bytes → redis.S → S → (redis.S × S) × Reply R → Type 0
  IsLimited l now next ip s w result =
      ((s' : redis.S) × (allow redis l ip now s ≡ some (true, s'))
        × (result ≡ ((s', (next w).0), passed (next w).1)))
      ⊎ (((s' : redis.S) × (allow redis l ip now s ≡ some (false, s'))
            × (result ≡ ((s', w), too_many_requests)))
          ⊎ ((allow redis l ip now s ≡ none) × (result ≡ ((s, w), panics))))

  rate_limit_lem :
      (l : Limiter) (now : ℕ) (next : S → S × R) (r : Request) (s : redis.S) (w : S)
      → IsLimited l now next
          (client_ip split_host r)
          s
          w
          (rate_limit redis split_host l now next r (s, w))
  unfolding rate_limit
  rate_limit_lem l now next r s w = go (allow redis l (client_ip split_host r) now s) refl
    where
      go :
          (x : Option (Bool × redis.S))
          → allow redis l (client_ip split_host r) now s ≡ x
          → IsLimited l now next
              (client_ip split_host r)
              s
              w
              (rate_limit redis split_host l now next r (s, w))
      go none e = inr (inr (e, rw (e, rate_limit) refl))
      go (some (true, s')) e = inl (s', e, rw (e, rate_limit) refl)
      go (some (false, s')) e = inr (inl (s', e, rw (e, rate_limit) refl))

  -- A request with a chain of two entries or more in X-Forwarded-For is counted for the first entry,
  -- whatever the later entries and the address of the connection are.
  rate_limit-first :
      (l : Limiter) (now : ℕ) (next : S → S × R) (first rest remote : Bytes) (s : redis.S) (w : S)
      → All (λ b. b ≢ comma) first
      → let r : Request = record { forwarded = first ++ (comma ∷ rest); remote_addr = remote } in
        IsLimited l now next first s w (rate_limit redis split_host l now next r (s, w))
  rate_limit-first l now next first rest remote s w h =
      let r : Request = record { forwarded = first ++ (comma ∷ rest); remote_addr = remote } in
      subst (λ ip. IsLimited l now next ip s w (rate_limit redis split_host l now next r (s, w)))
        (client_ip-first split_host first rest remote h) (rate_limit_lem l now next r s w)
