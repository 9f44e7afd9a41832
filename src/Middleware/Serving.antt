-- ===== src/Middleware/Serving.antt =====
-- The wrappers of backend/internal/middleware together, in the order of backend/cmd/server/main.go,
-- round a handler that is given by what it does to its state and to its response.
use nyc_taxi_real_time_eta_p.Common.{
  ℕ, ◌+◌, ◌%◌, ◌^◌, if◌then◌else◌, ◌≡◌, ◌≢◌, refl, ◌∙◌, subst, ◌⊎◌, inl, inr, true, false, List, [],
  ◌∷◌, ◌++◌, map, Option, none, some, Bool-cases,
}
use nyc_taxi_real_time_eta_p.Common.Bytes.{Bytes, codes, bytes_eq, bytes_eq_iff, bytes_eq_sound}
use nyc_taxi_real_time_eta_p.Metrics.Histogram.{Histogram, join_values, child, counter_add}
use nyc_taxi_real_time_eta_p.Metrics.Observing.{or_fresh, child-with_label_values}
use nyc_taxi_real_time_eta_p.Redis.Decimal.{format_decimal}
use nyc_taxi_real_time_eta_p.Middleware.Wrapping.{
  Request, Writer, Ending, returned, panics, or_sent, set_header, write_header, wrap, unwrap,
  recorder_status, LogEntry, Site, Handler, count_request, count_ending, log_ending, recover_ending,
  metrics, logging, recover, allow_origin, cors, root,
}
use nyc_taxi_real_time_eta_p.Middleware.Responding.{
  Action, play, Leaf, sent_status, IsOrderly, final_status, last_status, play-recorded, play-sent,
  last_orderly,
}

abbrev entry : Bytes → Request → ℕ → LogEntry
entry request_id r status = record {
  request_id = request_id;
  method = r.method;
  path = r.path;
  status = status;
}

recorder_status_of :
    (w : Writer) (c : ℕ) (cs : List ℕ) → w.recorded ≡ c ∷ cs → recorder_status w ≡ c
unfolding recorder_status
recorder_status_of w c cs h = rw (h, recorder_status) refl

outer_status_of :
    (w : Writer) (c d : ℕ) (cs : List ℕ) → w.recorded ≡ c ∷ d ∷ cs → recorder_status (unwrap w) ≡ d
unfolding recorder_status unwrap
outer_status_of w c d cs h = rw (h, recorder_status, unwrap) refl

recovered_sent : (x y : Option ℕ) → x ≡ y → or_sent 200 (or_sent 500 x) ≡ or_sent 500 y
recovered_sent none y h = rw⁻¹ h refl
recovered_sent (some c) y h = rw⁻¹ h refl

module _ {S F : Type 0} where
  unfoldable pub serve : Leaf S → Handler S F
  unfolding play
  serve leaf r s w = let (a, acts, e) = leaf r s.app in (record s { app = a }, play acts w, e)

  module _ (route : Bytes) (observe : Histogram F → Histogram F) (fresh : Histogram F)
      (request_id : Bytes) (leaf : Leaf S) where
    abbrev pub stack : Handler S F
    stack = root request_id (metrics route observe fresh (serve leaf))

    -- The site `s'` has counted the request `r` once, with this status, and observed its time: the
    -- counter of the route, the method and the status is one more, the histogram of the route has
    -- one observation more, and no other child has changed.
    abbrev pub IsCounted : Request → ℕ → Site S F → Site S F → Type 0
    IsCounted r status s s' =
        ((key : Bytes)
          → child key s'.requests_total ≡ (
              if bytes_eq (join_values (route ∷ r.method ∷ format_decimal status ∷ [])) key
              then some ((or_fresh 0 (child key s.requests_total) + 1) % 2 ^ 64)
              else child key s.requests_total))
        × ((key : Bytes)
            → child key s'.request_duration ≡ (
                if bytes_eq route key
                then some (observe (or_fresh fresh (child key s.request_duration)))
                else child key s.request_duration))

    unfoldable pub Serves :
        Request → Site S F → S × List Action × Ending → Site S F × Writer × Ending → Type 0
    Serves r s (a, acts, end) (s', w, e) =
        (e ≡ returned)
        × (((r.method ≡ codes "OPTIONS") × (s' ≡ s) × (w.sent ≡ some 204))
            ⊎ (((r.method ≢ codes "OPTIONS")
                  × (end ≡ returned)
                  × (w.sent ≡ sent_status acts)
                  × (s'.app ≡ a)
                  × (s'.logged
                      ≡ s.logged ++ (entry request_id r (final_status (sent_status acts)) ∷ []))
                  × (s'.recovered ≡ s.recovered)
                  × IsCounted r (final_status (sent_status acts)) s s')
                ⊎ ((r.method ≢ codes "OPTIONS")
                    × (end ≡ panics)
                    × (w.sent ≡ or_sent 500 (sent_status acts))
                    × (s' ≡ record s { app = a; recovered = s.recovered ++ (r.path ∷ []) }))))

    count_request-IsCounted :
        (r : Request) (status : ℕ) (s s' : Site S F)
        → s'.requests_total ≡ s.requests_total
        → s'.request_duration ≡ s.request_duration
        → IsCounted r status s (count_request route observe fresh r status s')
    unfolding count_request counter_add join_values
    count_request-IsCounted r status s s' same same' = (
      λ key.
          child-with_label_values 0 (route ∷ r.method ∷ format_decimal status ∷ []) (counter_add 1)
            s'.requests_total key
          ∙ rw same refl,
      λ key.
          child-with_label_values fresh (route ∷ []) observe s'.request_duration key
          ∙ rw same' refl,
    )

    module _ (r : Request) (s : Site S F) (w : Writer) where
      -- The writer that the handler gets.
      abbrev inner : Writer
      inner = wrap (wrap (set_header (codes "X-Request-ID") request_id (allow_origin w)))

      behind_cors :
          bytes_eq r.method (codes "OPTIONS") ≡ false
          → stack r s w
            ≡ recover_ending r (
                log_ending request_id r (count_ending route observe fresh r (serve leaf r s inner)))
      unfolding root cors recover logging metrics
      behind_cors h = rw h refl

      preflight :
          bytes_eq r.method (codes "OPTIONS") ≡ true
          → w.sent ≡ none
          → Serves r s (leaf r s.app) (stack r s w)
      unfolding Serves root cors write_header allow_origin set_header
      preflight e blank =
          rw e (refl, inl (bytes_eq_sound r.method (codes "OPTIONS") e, refl, rw blank refl))

      statuses :
          (acts : List Action)
          → IsOrderly acts
          → let status = final_status (sent_status acts) in
            (recorder_status (play acts inner) ≡ status)
            × (recorder_status (unwrap (play acts inner)) ≡ status)
      unfolding wrap set_header allow_origin
      statuses acts good =
          let all = play-recorded acts inner in
          let c = last_status 200 acts in
          let rest = map (λ k. last_status k acts) w.recorded in
          (
            recorder_status_of (play acts inner) c (c ∷ rest) all ∙ last_orderly acts good,
            outer_status_of (play acts inner) c c rest all ∙ last_orderly acts good,
          )

      inner_sent : (acts : List Action) → w.sent ≡ none → (play acts inner).sent ≡ sent_status acts
      unfolding wrap set_header allow_origin
      inner_sent acts h = play-sent acts inner h

      -- The site that the counting leaves.
      abbrev counted_at : List Action → S → Site S F
      counted_at acts a =
          count_request route observe fresh r (recorder_status (play acts inner)) (record s {
            app = a;
            logged =
                s.logged ++ (entry request_id r (recorder_status (unwrap (play acts inner))) ∷ []);
          })

      outcome :
          (x : S × List Action × Ending)
          → w.sent ≡ none
          → r.method ≢ codes "OPTIONS"
          → IsOrderly x.1
          → Serves r s x (
              recover_ending r (
                log_ending request_id r (
                  count_ending route observe fresh r
                    (record s { app = x.0 }, play x.1 inner, x.2))))
      unfolding Serves recover_ending log_ending count_ending count_request
      outcome (a, acts, returned) blank other good =
          let (counted, logged) = statuses acts good in
          (
            refl,
            inr (
                inl (
                  other,
                  refl,
                  inner_sent acts blank,
                  refl,
                  rw logged refl,
                  refl,
                  subst (λ status. IsCounted r status s (counted_at acts a)) counted
                      (count_request-IsCounted r (recorder_status (play acts inner)) s
                        (record s {
                          app = a;
                          logged =
                              s.logged
                              ++ (entry request_id r (recorder_status (unwrap (play acts inner)))
                                  ∷ []);
                        })
                        refl refl),
                )),
          )
      outcome (a, acts, panics) blank other good = (
        refl,
        inr (
            inr (
              other,
              refl,
              recovered_sent (play acts inner).sent (sent_status acts) (inner_sent acts blank),
              refl,
            )),
      )

      -- A request whose handler sends its status, if at all, once and before it writes, on a fresh
      -- response, always ends without a panic. A preflight request never reaches the handler and is
      -- answered by 204. Any other that the handler returns from is logged once, under its request ID,
      -- and counted once, both with the status that goes out. One that panics is answered by 500 unless
      -- a status had gone out, and it is neither logged nor counted as a request, only as a panic.
      pub stack-Serves :
          w.sent ≡ none → IsOrderly (leaf r s.app).1 → Serves r s (leaf r s.app) (stack r s w)
      unfolding serve
      stack-Serves blank good = elim (Bool-cases (bytes_eq r.method (codes "OPTIONS"))) [
        | inl e ↦ preflight e blank
        | inr e ↦ rw (behind_cors e) (
            outcome (leaf r s.app) blank
              (λ q. cc (e, (bytes_eq_iff r.method (codes "OPTIONS")).1 q)) good)
      ]
