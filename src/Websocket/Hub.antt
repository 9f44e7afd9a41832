-- ===== src/Websocket/Hub.antt =====
-- backend/internal/wsserver/hub.go as a state machine. One step is one action of one goroutine: a
-- critical section of the write lock, one turn of the loop of a `Broadcast` that holds the read lock,
-- or one receive of a `writePump`. A client is an index, as its pointer.
use nyc_taxi_real_time_eta_p.Common.{
  ℕ, ◌≡◌, Bool, true, false, List, [], ◌∷◌, ◌++◌, some, ltb, if◌then◌else◌, length, get_elem?, set,
  All,
}
use nyc_taxi_real_time_eta_p.Common.Bytes.{Bytes}
pub mod Delivery
pub mod Reachable
mod Runs

-- How far `Register` is: the client is in the map, or deleted from it, or its channel is closed too.
pub data Phase : Type 0 where
  listed removed closed : Phase

pub record Client : Type 0 where
  pub phase : Phase
  -- The buffer of `send`, and whether `writePump` still runs.
  pub buffer : List Bytes
  pub pumping : Bool
  -- The history: the messages that a `Broadcast` offered, and those passed to `WriteMessage`.
  pub offered : List Bytes
  pub written : List Bytes

-- A call of `Broadcast`: the clients that its loop has still to visit, and whether it is under way.
pub record Flight : Type 0 where
  pub message : Bytes
  pub left : List ℕ
  pub under_way : Bool

pub record Hub : Type 0 where
  pub clients : List Client
  pub flights : List Flight

pub data Outcome (A : Type 0) : Type 0 where
  ok : A → Outcome A
  panics : Outcome A

abbrev pub send_capacity : ℕ
send_capacity = 32

abbrev pub new_client : Client
new_client = record { phase = listed; buffer = []; pumping = true; offered = []; written = [] }

abbrev pub is_closed : Phase → Bool
is_closed listed = false
is_closed removed = false
is_closed closed = true

-- The `select` of `Broadcast`: a full buffer skips the message, a closed channel panics.
unfoldable pub offer : Bytes → Client → Outcome Client
offer m c =
    let c' = record c { offered = c.offered ++ (m ∷ []) } in
    if is_closed c.phase
    then panics
    else if ltb (length c.buffer) send_capacity
    then ok (record c' { buffer = c.buffer ++ (m ∷ []) })
    else ok c'

-- `delete(h.clients, c)`, and `close(c.send)`.
unfoldable pub remove : Client → Client
remove c = record c { phase = removed }

unfoldable pub close_send : Client → Client
close_send c = record c { phase = closed }

-- A client of the map.
pub record IsListed (h : Hub) (i : ℕ) : Type 0 where
  pub client : Client
  pub here : get_elem? h.clients i ≡ some client
  pub in_map : client.phase ≡ listed

-- The write lock is free to take: no `Broadcast` is under way.
abbrev pub IsUnlocked : Hub → Type 0
IsUnlocked h = All (λ f. f.under_way ≡ false) h.flights

pub data Step (h h' : Hub) : Type 0 where
  registers : IsUnlocked h → h' ≡ record h { clients = h.clients ++ (new_client ∷ []) } → Step h h'
  -- `range` visits clients of the map.
  broadcasts :
      (m : Bytes) (order : List ℕ)
      → All (IsListed h) order
      → h' ≡ record h {
        flights = h.flights ++ (record { message = m; left = order; under_way = true } ∷ []);
      }
      → Step h h'
  offers :
      (k i : ℕ) (f : Flight) (rest : List ℕ) (c c' : Client)
      → get_elem? h.flights k ≡ some f
      → f.under_way ≡ true
      → f.left ≡ i ∷ rest
      → get_elem? h.clients i ≡ some c
      → offer f.message c ≡ ok c'
      → h' ≡ record {
        clients = set h.clients i c';
        flights = set h.flights k (record f { left = rest });
      }
      → Step h h'
  returns :
      (k : ℕ) (f : Flight)
      → get_elem? h.flights k ≡ some f
      → f.left ≡ []
      → h' ≡ record h { flights = set h.flights k (record f { under_way = false }) }
      → Step h h'
  writes :
      (i : ℕ) (c : Client) (m : Bytes) (rest : List Bytes)
      → get_elem? h.clients i ≡ some c
      → c.pumping ≡ true
      → c.buffer ≡ m ∷ rest
      → h' ≡ record h {
        clients = set h.clients i (record c { buffer = rest; written = c.written ++ (m ∷ []) });
      }
      → Step h h'
  -- An error of `WriteMessage`, or `done`.
  stops :
      (i : ℕ) (c : Client)
      → get_elem? h.clients i ≡ some c
      → h' ≡ record h { clients = set h.clients i (record c { pumping = false }) }
      → Step h h'
  deletes :
      (i : ℕ) (c : Client)
      → IsUnlocked h
      → get_elem? h.clients i ≡ some c
      → c.phase ≡ listed
      → h' ≡ record h { clients = set h.clients i (remove c) }
      → Step h h'
  closes :
      (i : ℕ) (c : Client)
      → get_elem? h.clients i ≡ some c
      → c.phase ≡ removed
      → h' ≡ record h { clients = set h.clients i (close_send c) }
      → Step h h'

abbrev pub new_hub : Hub
new_hub = record { clients = []; flights = [] }

pub data Reaches : Hub → Type 0 where
  start : Reaches new_hub
  next : {h h' : Hub} → Reaches h → Step h h' → Reaches h'

-- `ClientCount`.
unfoldable pub client_count : List Client → ℕ
client_count [] = 0
client_count (c ∷ cs) =
    let n = client_count cs in elim c.phase [ listed ↦ ℕ.suc n | removed ↦ n | closed ↦ n ]
