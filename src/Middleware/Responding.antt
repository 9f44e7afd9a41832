-- ===== src/Middleware/Responding.antt =====
-- What a handler does to its response, given by its calls on the writer of
-- backend/internal/middleware.
use nyc_taxi_real_time_eta_p.Common.{ℕ, ◌≡◌, refl, ap, ◌∙◌, List, [], ◌∷◌, map, Option, none, some}
use nyc_taxi_real_time_eta_p.Common.Bytes.{Bytes, codes}
use nyc_taxi_real_time_eta_p.Middleware.Wrapping.{
  Request, Writer, Ending, set_header, write_header, write,
}

-- The calls of a handler on its `http.ResponseWriter`.
pub data Action : Type 0 where
  sets : Bytes → Bytes → Action
  sends : ℕ → Action
  writes : Bytes → Action

unfoldable pub act : Action → Writer → Writer
unfolding set_header write_header write
act (sets k v) w = set_header k v w
act (sends code) w = write_header code w
act (writes b) w = write b w

unfoldable pub play : List Action → Writer → Writer
unfolding act
play [] w = w
play (a ∷ acts) w = play acts (act a w)

-- `writeJSON` of backend/internal/handlers/handlers.go; `body` is what the encoder makes.
unfoldable pub write_json : ℕ → Bytes → List Action
write_json status body =
    sets (codes "Content-Type") (codes "application/json") ∷ sends status ∷ writes body ∷ []

-- A handler as its next state, its calls and its ending.
abbrev pub Leaf : Type 0 → Type 0
Leaf S = Request → S → S × List Action × Ending

-- The status that goes out: the first that is sent, 200 with the first write; none where nothing is
-- sent before the handler ends.
unfoldable pub sent_status : List Action → Option ℕ
sent_status [] = none
sent_status (sets k v ∷ acts) = sent_status acts
sent_status (sends code ∷ acts) = some code
sent_status (writes b ∷ acts) = some 200

-- No status after one, and none after a write: the second would not go out.
unfoldable pub IsQuiet : List Action → Type 0
IsQuiet [] = Unit
IsQuiet (sets k v ∷ acts) = IsQuiet acts
IsQuiet (sends code ∷ acts) = ⊥
IsQuiet (writes b ∷ acts) = IsQuiet acts

unfoldable pub IsOrderly : List Action → Type 0
unfolding IsQuiet
IsOrderly [] = Unit
IsOrderly (sets k v ∷ acts) = IsOrderly acts
IsOrderly (sends code ∷ acts) = IsQuiet acts
IsOrderly (writes b ∷ acts) = IsQuiet acts

-- net/http answers 200 where a handler sends nothing.
abbrev pub final_status : Option ℕ → ℕ
final_status none = 200
final_status (some code) = code

pub last_status : ℕ → List Action → ℕ
last_status c [] = c
last_status c (sets k v ∷ acts) = last_status c acts
last_status c (sends code ∷ acts) = last_status code acts
last_status c (writes b ∷ acts) = last_status c acts

map-map : (f g : ℕ → ℕ) (xs : List ℕ) → map f (map g xs) ≡ map (λ x. f (g x)) xs
map-map f g [] = refl
map-map f g (x ∷ xs) = ap (λ r. f (g x) ∷ r) (map-map f g xs)

map_id : (xs : List ℕ) → map (λ x. x) xs ≡ xs
map_id [] = refl
map_id (x ∷ xs) = ap (λ r. x ∷ r) (map_id xs)

pub play-recorded :
    (acts : List Action) (w : Writer)
    → (play acts w).recorded ≡ map (λ c. last_status c acts) w.recorded
unfolding play act last_status
play-recorded [] w = rw (map_id w.recorded)
play-recorded (sets k v ∷ acts) w = play-recorded acts (set_header k v w)
play-recorded (sends code ∷ acts) w =
    play-recorded acts (write_header code w)
    ∙ map-map (λ c. last_status c acts) (λ c. code) w.recorded
play-recorded (writes b ∷ acts) w = play-recorded acts (write b w)

play-sent_some :
    (acts : List Action) (w : Writer) (c : ℕ) → w.sent ≡ some c → (play acts w).sent ≡ some c
unfolding play act
play-sent_some [] w c h = h
play-sent_some (sets k v ∷ acts) w c h = play-sent_some acts (set_header k v w) c h
play-sent_some (sends code ∷ acts) w c h = play-sent_some acts (write_header code w) c (rw h refl)
play-sent_some (writes b ∷ acts) w c h = play-sent_some acts (write b w) c (rw h refl)

pub play-sent :
    (acts : List Action) (w : Writer) → w.sent ≡ none → (play acts w).sent ≡ sent_status acts
unfolding play act sent_status
play-sent [] w h = h
play-sent (sets k v ∷ acts) w h = play-sent acts (set_header k v w) h
play-sent (sends code ∷ acts) w h = play-sent_some acts (write_header code w) code (rw h refl)
play-sent (writes b ∷ acts) w h = play-sent_some acts (write b w) 200 (rw h refl)

last_quiet : (acts : List Action) (c : ℕ) → IsQuiet acts → last_status c acts ≡ c
unfolding last_status IsQuiet
last_quiet [] c h = refl
last_quiet (sets k v ∷ acts) c h = last_quiet acts c h
last_quiet (sends code ∷ acts) c h = absurd h
last_quiet (writes b ∷ acts) c h = last_quiet acts c h

pub last_orderly :
    (acts : List Action) → IsOrderly acts → last_status 200 acts ≡ final_status (sent_status acts)
unfolding last_status IsOrderly sent_status
last_orderly [] h = refl
last_orderly (sets k v ∷ acts) h = last_orderly acts h
last_orderly (sends code ∷ acts) h = last_quiet acts code h
last_orderly (writes b ∷ acts) h = last_quiet acts 200 h
