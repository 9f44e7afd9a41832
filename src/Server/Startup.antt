-- ===== src/Server/Startup.antt =====
-- The start of `main` of backend/cmd/server/main.go, and its deferred calls: which stores are open. Whether
-- each constructor and the seeding succeed are arguments.
use nyc_taxi_real_time_eta_p.Common.{
  ◌≡◌, refl, ◌⊎◌, inl, inr, Bool, true, false, List, [], ◌∷◌, ◌++◌,
}
use nyc_taxi_real_time_eta_p.Server.{
  Phase, serving, stopping, draining, closing, waiting, returned, aborted,
}

pub data Store : Type 0 where
  trips drivers : Store

pub data Action : Type 0 where
  opens closes : Store → Action
  -- `os.Exit(1)`, which runs no deferred call.
  exits : Action
  -- The server runs from here on.
  runs : Action

unfoldable pub start_drivers : Bool → Bool → List Action
start_drivers false seeds = closes trips ∷ exits ∷ []
start_drivers true false = opens drivers ∷ closes drivers ∷ closes trips ∷ exits ∷ []
start_drivers true true = opens drivers ∷ runs ∷ []

unfoldable pub start_up : Bool → Bool → Bool → List Action
unfolding start_drivers
start_up false opens_drivers seeds = exits ∷ []
start_up true opens_drivers seeds = opens trips ∷ start_drivers opens_drivers seeds

-- What `main` does with the stores where its run ends.
unfoldable pub end_run : Phase → List Action
end_run serving = []
end_run stopping = []
end_run draining = []
end_run closing = []
end_run waiting = []
end_run returned = closes drivers ∷ closes trips ∷ []
end_run aborted = exits ∷ []

abbrev is_store : Store → Store → Bool
is_store trips trips = true
is_store trips drivers = false
is_store drivers trips = false
is_store drivers drivers = true

-- The stores that are open after some actions, the last one opened in front; each store is closed by
-- its own call.
abbrev pub without : Store → List Store → List Store
without x [] = []
without x (y ∷ ys) = elim (is_store x y) [ true ↦ ys | false ↦ y ∷ without x ys ]

abbrev pub open_after : List Action → List Store → List Store
open_after [] open_ = open_
open_after (opens x ∷ actions) open_ = open_after actions (x ∷ open_)
open_after (closes x ∷ actions) open_ = open_after actions (without x open_)
open_after (exits ∷ actions) open_ = open_after actions open_
open_after (runs ∷ actions) open_ = open_after actions open_

-- A start closes every store that it opened, unless both are open, the fleet is seeded and the server
-- runs; and a run that comes to its end closes both.
start_up-closes :
    (opens_trips opens_drivers seeds : Bool)
    → let actions = start_up opens_trips opens_drivers seeds in
      (((opens_trips ≡ true) × (opens_drivers ≡ true) × (seeds ≡ true))
        × (open_after actions [] ≡ drivers ∷ trips ∷ [])
        × (open_after (actions ++ end_run returned) [] ≡ []))
      ⊎ (open_after actions [] ≡ [])
unfolding start_up end_run
start_up-closes false b c = inr refl
start_up-closes true false c = inr refl
start_up-closes true true false = inr refl
start_up-closes true true true = inl ((refl, refl, refl), refl, refl)
