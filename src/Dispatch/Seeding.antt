-- ===== src/Dispatch/Seeding.antt =====
-- `SeedIfEmpty` of backend/internal/dispatch/postgres_repository.go: it makes the fleet once.
use nyc_taxi_real_time_eta_p.Common.{
  ℕ, ◌<◌, ◌≡◌, ◌≢◌, refl, ap, ◌∙◌, ◌⊎◌, inl, inr, Bool, true, false, List, [], ◌∷◌, ◌++◌, map,
  Option, none, some, arith, ltb, length, append_assoc, append-nil, All, Bool-cases, Option-cases,
}
use nyc_taxi_real_time_eta_p.Common.Bytes.{Bytes, codes, or_else, or_else_lem}
use nyc_taxi_real_time_eta_p.Dispatch.Driver.{Driver, offline, seeded}
use nyc_taxi_real_time_eta_p.Dispatch.Persistent.{
  DriverDb, try_commit, insert_all, seed_preserved, seed_inserted, seed_counted, seed_locked,
  seed_if_empty,
}

-- What PostgreSQL says of the drivers that the statements of a transaction see.
pub record DriversInTx {F : Type 0} (db : DriverDb F) : Type 0 where
  pub drivers : db.Db → List (Driver F)
  pub seen : db.Tx → List (Driver F)
  pub begun : (s : db.Db) (tx : db.Tx) → db.begin s ≡ some tx → seen tx ≡ drivers s
  pub locked : (tx : db.Tx) → seen (db.lock tx).1 ≡ seen tx
  pub counted : (n : ℕ) (tx : db.Tx) → (db.count_drivers tx).0 ≡ some n → n ≡ length (seen tx)
  pub count_reads : (tx : db.Tx) → seen (db.count_drivers tx).1 ≡ seen tx
  pub inserted :
      (d : Driver F) (tx : db.Tx)
      → (db.insert_driver d tx).0 ≡ true
      → seen (db.insert_driver d tx).1 ≡ seen tx ++ (d ∷ [])
  pub preserved :
      (tx : db.Tx)
      → (db.preserve_references tx).0 ≡ true
      → (extra : List (Driver F)) × (seen (db.preserve_references tx).1 ≡ seen tx ++ extra)
        × All (λ d. d.status ≡ offline) extra
  pub committed : (s s' : db.Db) (tx : db.Tx) → db.commit s tx ≡ some s' → drivers s' ≡ seen tx

module _ {F : Type 0} (db : DriverDb F) (laws : DriversInTx db) where
  open db use {Db, Tx, begin, lock, count_drivers, insert_driver, preserve_references, commit}
  open laws use {drivers, seen}

  -- The driver that a position stands for: under the fresh ID if it has none, and AVAILABLE if it has
  -- no status.
  abbrev pub placed : Bytes → Driver F → Driver F
  placed fresh d = record {
    id = or_else d.id fresh;
    latitude = d.latitude;
    longitude = d.longitude;
    status = or_else d.status (codes "AVAILABLE");
  }

  abbrev pub fleet_of : List (Bytes × Driver F) → List (Driver F)
  fleet_of [] = []
  fleet_of ((fresh, d) ∷ ps) = placed fresh d ∷ fleet_of ps

  seeded-placed : (fresh : Bytes) (d : Driver F) → seeded fresh d ≡ placed fresh d
  unfolding seeded
  seeded-placed fresh d = rw (or_else_lem d.id fresh, or_else_lem d.status (codes "AVAILABLE")) refl

  pub map-seeded : (ps : List (Bytes × Driver F)) → map (λ p. seeded p.0 p.1) ps ≡ fleet_of ps
  map-seeded [] = refl
  map-seeded ((fresh, d) ∷ ps) = cc (seeded-placed fresh d, map-seeded ps)

  -- A start that leaves the database as it was and fails; or the drivers that were there are there,
  -- and no other; or there were none, and now there are those of the positions, and behind them
  -- drivers that are offline.
  abbrev pub IsSeeded : List (Bytes × Driver F) → Db → Db × Bool → Type 0
  IsSeeded ps s result =
      (result ≡ (s, false))
      ⊎ ((result.1 ≡ true)
          × (((drivers s ≢ []) × (drivers result.0 ≡ drivers s))
              ⊎ ((drivers s ≡ [])
                  × ((extra : List (Driver F)) × (drivers result.0 ≡ fleet_of ps ++ extra)
                      × All (λ d. d.status ≡ offline) extra))))

  insert_all-seen :
      (ps : List (Bytes × Driver F)) (tx : Tx)
      → (insert_all db ps tx).0 ≡ true
      → seen (insert_all db ps tx).1 ≡ seen tx ++ fleet_of ps
  unfolding insert_all
  insert_all-seen [] tx h = rw (append-nil (seen tx))
  insert_all-seen ((fresh, d) ∷ ps) tx h = elim (Bool-cases (insert_driver (seeded fresh d) tx).0) [
    | inl e ↦
        let tx' = (insert_driver (seeded fresh d) tx).1 in
        let h' : (insert_all db ps tx').0 ≡ true = rw (e, insert_all) at h in
        rw (e, insert_all)
          (insert_all-seen ps tx' h'
            ∙ ap (λ r. r ++ fleet_of ps) (laws.inserted (seeded fresh d) tx e)
            ∙ append_assoc (seen tx) (seeded fresh d ∷ []) (fleet_of ps)
            ∙ ap (λ x. seen tx ++ (x ∷ fleet_of ps)) (seeded-placed fresh d))
    | inr e ↦ cc (rw (e, insert_all) at h)
  ]

  commit-cases :
      (s : Db) (tx : Tx)
      → (try_commit db s tx ≡ (s, false))
        ⊎ (((try_commit db s tx).1 ≡ true) × (drivers (try_commit db s tx).0 ≡ seen tx))
  unfolding try_commit
  commit-cases s tx = elim (Option-cases (commit s tx)) [
    | inl e ↦ inl (rw (e, try_commit))
    | inr (s', e) ↦ inr (rw (e, try_commit) (refl, laws.committed s s' tx e))
  ]

  module _ (s : Db) (ps : List (Bytes × Driver F)) where
    preserved-IsSeeded :
        (x : Bool × Tx)
        → drivers s ≡ []
        → (x.0 ≡ true
            → (extra : List (Driver F)) × (seen x.1 ≡ fleet_of ps ++ extra)
              × All (λ d. d.status ≡ offline) extra)
        → IsSeeded ps s (seed_preserved db s x)
    unfolding seed_preserved
    preserved-IsSeeded (false, tx) h k = inl refl
    preserved-IsSeeded (true, tx) h k =
        let (extra, all, off) = k refl in
        elim (commit-cases s tx) [
          | inl e ↦ inl e
          | inr (e, c) ↦ inr (e, inr (h, (extra, c ∙ all, off)))
        ]

    inserted-IsSeeded :
        (x : Bool × Tx)
        → drivers s ≡ []
        → (x.0 ≡ true → seen x.1 ≡ fleet_of ps)
        → IsSeeded ps s (seed_inserted db s x)
    unfolding seed_inserted
    inserted-IsSeeded (false, tx) h k = inl refl
    inserted-IsSeeded (true, tx) h k = preserved-IsSeeded (preserve_references tx) h λ done.
        let (extra, all, off) = laws.preserved tx done in
        (extra, all ∙ ap (λ r. r ++ extra) (k refl), off)

    counted-IsSeeded :
        (x : Option ℕ × Tx)
        → seen x.1 ≡ drivers s
        → ((n : ℕ) → x.0 ≡ some n → n ≡ length (drivers s))
        → IsSeeded ps s (seed_counted db s ps x)
    unfolding seed_counted
    counted-IsSeeded (none, tx) e k = inl refl
    counted-IsSeeded (some n, tx) e k = elim (Bool-cases (ltb 0 n)) [
      | inl more ↦ rw more (elim (commit-cases s tx) [
        | inl f ↦ inl f
        | inr (f, c) ↦ inr (f, inl (nonempty (drivers s) (ground (arith, k n refl)), c ∙ e))
      ])
      | inr zero_ ↦
          let none_ : drivers s ≡ [] = empty (drivers s) (ground (arith, k n refl)) in
          rw zero_ (
            inserted-IsSeeded (insert_all db ps tx) none_
              λ done. insert_all-seen ps tx done ∙ ap (λ r. r ++ fleet_of ps) (e ∙ none_))
    ]
      where
        nonempty : (ds : List (Driver F)) → 0 < length ds → ds ≢ []
        nonempty [] h = absurd (omega arith)
        nonempty (d ∷ ds) h = λ q. cc

        empty : (ds : List (Driver F)) → length ds ≡ 0 → ds ≡ []
        empty [] h = refl
        empty (d ∷ ds) h = absurd (omega (arith, h))

    locked-IsSeeded : (x : Bool × Tx) → seen x.1 ≡ drivers s → IsSeeded ps s (seed_locked db s ps x)
    unfolding seed_locked
    locked-IsSeeded (false, tx) e = inl refl
    locked-IsSeeded (true, tx) e =
        counted-IsSeeded (count_drivers tx) (laws.count_reads tx ∙ e)
          λ n h. laws.counted n tx h ∙ ap length e

  -- A start never resets a fleet: `SeedIfEmpty` fails and leaves the database as it was, or it leaves
  -- the drivers that are there alone, or there were none and now there are those of the positions,
  -- AVAILABLE where they have no status and with a fresh ID where they have none, and behind them
  -- drivers that are offline.
  pub seed_if_empty-IsSeeded :
      (ps : List (Bytes × Driver F)) (s : Db) → IsSeeded ps s (seed_if_empty db ps s)
  unfolding seed_if_empty
  seed_if_empty-IsSeeded ps s = elim (Option-cases (begin s)) [
    | inl e ↦ inl (rw (e, seed_if_empty))
    | inr (tx, e) ↦
        rw (e, seed_if_empty) (locked-IsSeeded s ps (lock tx) (laws.locked tx ∙ laws.begun s tx e))
  ]
