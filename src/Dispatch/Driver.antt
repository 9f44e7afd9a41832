-- ===== src/Dispatch/Driver.antt =====
-- backend/internal/dispatch/driver.go. A fleet is the list of the drivers of the map in an order in
-- which `range` may visit them, and a driver stands in it under its own ID.
use nyc_taxi_real_time_eta_p.Common.{
  Bool, not, ◌&&◌, ◌||◌, List, [], ◌∷◌, Option, none, some, if◌then◌else◌,
}
use nyc_taxi_real_time_eta_p.Common.Bytes.{Bytes, codes, bytes_eq, bytes_lt}
use nyc_taxi_real_time_eta_p.Common.Order.{LinearOrder}

-- `type Status string`.
abbrev pub Status : Type 0
Status = Bytes

abbrev pub available : Status
available = codes "AVAILABLE"

abbrev pub busy : Status
busy = codes "BUSY"

abbrev pub offline : Status
offline = codes "OFFLINE"

pub record Driver (F : Type 0) : Type 0 where
  pub id : Bytes
  pub latitude : F
  pub longitude : F
  pub status : Status

pub data Error : Type 0 where
  no_available_drivers : Error
  not_found : Bytes → Error

pub data Result {ℓ} (A : Type ℓ) : Type ℓ where
  ok : A → Result A
  err : Error → Result A

abbrev pub Fleet : Type 0 → Type 0
Fleet F = List (Driver F)

module _ {F : Type 0} where
  unfoldable pub is_available : Driver F → Bool
  is_available d = bytes_eq d.status available

  unfoldable pub find : Bytes → Fleet F → Option (Driver F)
  find i [] = none
  find i (d ∷ ds) = if bytes_eq d.id i then some d else find i ds

  -- `r.drivers[d.ID] = &d`.
  unfoldable pub put : Driver F → Fleet F → Fleet F
  put d [] = d ∷ []
  put d (e ∷ es) = if bytes_eq e.id d.id then d ∷ es else e ∷ put d es

  -- The defaults that `Seed` fills in; `fresh` is what `idgen.NewID` would return.
  unfoldable pub seeded : Bytes → Driver F → Driver F
  seeded fresh d = record d {
    id = if bytes_eq d.id [] then fresh else d.id;
    status = if bytes_eq d.status [] then available else d.status;
  }

  -- One position at a time, each with the ID that `idgen.NewID` returns for it if it is asked.
  unfoldable pub seed : List (Bytes × Driver F) → Fleet F → Fleet F
  seed [] r = r
  seed ((fresh, d) ∷ ps) r = seed ps (put (seeded fresh d) r)

  unfoldable pub assign_status : Bytes → Status → Fleet F → Fleet F
  assign_status i s [] = []
  assign_status i s (d ∷ ds) =
      if bytes_eq d.id i then record d { status = s } ∷ ds else d ∷ assign_status i s ds

  unfoldable pub set_status : Bytes → Status → Fleet F → Result (Fleet F)
  unfolding find assign_status
  set_status i s r = elim (find i r) [
    | none ↦ err (not_found i)
    | some d ↦ ok (assign_status i s r)
  ]

  module _ (o : LinearOrder F) (dist : Driver F → F) where
    -- Whether a driver at distance `x` replaces `n`, found at distance `y`.
    unfoldable pub is_closer : F → Driver F → F → Driver F → Bool
    is_closer x d y n = o.lt x y || (o.eq x y && bytes_lt d.id n.id)

    -- One round of the loop of `FindNearestAvailable`.
    unfoldable pub visit : Option (Driver F × F) → Driver F → Option (Driver F × F)
    visit best d = if not (is_available d) then best else elim best [
      | none ↦ some (d, dist d)
      | some (n, y) ↦ if is_closer (dist d) d y n then some (d, dist d) else some (n, y)
    ]

    unfoldable pub scan : Option (Driver F × F) → Fleet F → Option (Driver F × F)
    scan best [] = best
    scan best (d ∷ ds) = scan (visit best d) ds

    unfoldable pub find_nearest_available : Fleet F → Result (Driver F × F)
    find_nearest_available r = elim (scan none r) [
      | none ↦ err no_available_drivers
      | some x ↦ ok x
    ]
