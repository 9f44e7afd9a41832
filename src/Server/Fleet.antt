-- ===== src/Server/Fleet.antt =====
-- `seedDrivers` of backend/cmd/server/main.go, and the fleet that a start of the server leaves in the
-- database. What package rand returns is an argument.
use nyc_taxi_real_time_eta_p.Common.{
  ℕ, zero, suc, ◌≡◌, ◌≢◌, refl, ap, ◌∙◌, ◌⊎◌, inl, inr, true, List, [], ◌∷◌, ◌++◌, sym, map, Option,
  none, some, arith, All,
}
use nyc_taxi_real_time_eta_p.Common.Bytes.{Bytes, bytes_eq}
use nyc_taxi_real_time_eta_p.Common.Int.{ℤ, pos, negsuc}
use nyc_taxi_real_time_eta_p.Common.Sorting.{count, count-append}
use nyc_taxi_real_time_eta_p.Geo.{Float}
use nyc_taxi_real_time_eta_p.Dispatch.Driver.{Driver, available, offline, is_available, seeded}
use nyc_taxi_real_time_eta_p.Dispatch.Persistent.{DriverDb, seed_if_empty}
use nyc_taxi_real_time_eta_p.Dispatch.Seeding.{DriversInTx, seed_if_empty-IsSeeded, map-seeded}
use nyc_taxi_real_time_eta_p.Handlers.Validation.{nyc_lat_min, nyc_lon_min}

module _ (fl : Float) where
  open fl use {F, num, add, mul, div}

  -- The differences of the constants are constants, 0.4 and 0.35.
  unfoldable pub random_driver : F × F → Driver F
  random_driver (a, b) = record {
    id = [];
    latitude = add (nyc_lat_min fl) (mul a (div (num 4) (num 10)));
    longitude = add (nyc_lon_min fl) (mul b (div (num 35) (num 100)));
    status = available;
  }

  -- The loop, `n` rounds from the i-th on, each driver with the ID that `idgen.NewID` returns for it.
  unfoldable pub random_drivers : (ℕ → Bytes) → (ℕ → F × F) → ℕ → ℕ → List (Bytes × Driver F)
  unfolding random_driver
  random_drivers ids random i zero = []
  random_drivers ids random i (suc n) =
      (ids i, random_driver (random i)) ∷ random_drivers ids random (suc i) n

  -- `make` of a negative length panics.
  unfoldable pub seed_drivers : (ℕ → Bytes) → (ℕ → F × F) → ℤ → Option (List (Bytes × Driver F))
  unfolding random_drivers
  seed_drivers ids random (pos n) = some (random_drivers ids random 0 n)
  seed_drivers ids random (negsuc n) = none

  module _ (db : DriverDb F) (laws : DriversInTx db) where
    open db use {Db}
    open laws use {drivers}

    seeded_available :
        (ids : ℕ → Bytes) (random : ℕ → F × F) (i n : ℕ)
        → count is_available (map (λ p. seeded p.0 p.1) (random_drivers ids random i n)) ≡ n
    unfolding count is_available seeded random_drivers bytes_eq
    seeded_available ids random i zero = refl
    seeded_available ids random i (suc n) = omega (arith, seeded_available ids random (suc i) n)

    none_available :
        (ds : List (Driver F)) → All (λ d. d.status ≡ offline) ds → count is_available ds ≡ 0
    unfolding count is_available bytes_eq
    none_available [] h = refl
    none_available (d ∷ ds) h = rw h.0 (omega (arith, none_available ds h.1))

    -- A start with DRIVER_COUNT `n`, from 0 on, whose seeding succeeds: drivers that are there stay as
    -- they are; where there are none, exactly `n` drivers are available then.
    pub start_fleet :
        (ids : ℕ → Bytes) (random : ℕ → F × F) (n : ℕ) (ps : List (Bytes × Driver F)) (s : Db)
        → seed_drivers ids random (pos n) ≡ some ps
        → (seed_if_empty db ps s).1 ≡ true
        → ((drivers s ≢ []) × (drivers (seed_if_empty db ps s).0 ≡ drivers s))
          ⊎ ((drivers s ≡ []) × (count is_available (drivers (seed_if_empty db ps s).0) ≡ n))
    unfolding seed_drivers
    start_fleet ids random n ps s made done =
        let these : random_drivers ids random 0 n ≡ ps = cc in
        elim (seed_if_empty-IsSeeded db laws ps s) [
          | inl same ↦ cc (ap (λ x. x.1) same)
          | inr (_, inl kept) ↦ inl kept
          | inr (_, inr (empty, (extra, all, off))) ↦ inr (
            empty,
            ap (count is_available) (all ∙ ap (λ ds. ds ++ extra) (sym (map-seeded db laws ps)))
                ∙ count-append is_available (map (λ p. seeded p.0 p.1) ps) extra
                ∙ omega (
                  arith,
                  rw these at (seeded_available ids random 0 n),
                  none_available extra off,
                ),
          )
        ]
