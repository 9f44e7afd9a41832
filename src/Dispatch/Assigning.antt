-- ===== src/Dispatch/Assigning.antt =====
-- `AssignTrip` of backend/internal/dispatch/postgres_repository.go: it commits an assignment to the
-- nearest driver that it can claim, or leaves the database as it was.
use mathlib.Core.List.{Memᴰ}
use nyc_taxi_real_time_eta_p.Common.{
  ℕ, ◌≡◌, ◌≤◌, refl, ap, ◌∙◌, subst, ◌⊎◌, inl, inr, false, List, [], ◌∷◌, Option, none, some, arith,
  ◌==◌, Bool-cases, Option-cases, All, All-mono,
}
use nyc_taxi_real_time_eta_p.Common.Bytes.{Bytes}
use nyc_taxi_real_time_eta_p.Common.Order.{LinearOrder}
use nyc_taxi_real_time_eta_p.Dispatch.Driver.{Driver}
use nyc_taxi_real_time_eta_p.Dispatch.Assign.{
  Claim, claimed, no_rows, failed, Postgres, RankedDriver, Assignment, assigned, no_drivers,
  failure, rank, is_before, sort_ranked, finish, try_candidates, assign_in, assign_trip,
}
use nyc_taxi_real_time_eta_p.Dispatch.Ranking.{
  before_irrefl, IsSorted, sort-IsSorted, ranked, sort-All, sort-All_of,
}

module _ {F : Type 0} (pg : Postgres F) (o : LinearOrder F) (dist : Driver F → F) where
  open pg use {Db, Tx, begin, select_available, claim_driver, update_trip, commit}

  -- A claim of the driver returned no row.
  abbrev pub Passed : RankedDriver F → Type 0
  Passed e = (t : Tx) × ((claim_driver e.driver.id t).0 ≡ no_rows)

  -- The candidate `c` was claimed as `d`, the trip updated, and both committed.
  pub record IsAssigned (db : Db) (trip_id : Bytes) (c : RankedDriver F) (d : Driver F) (db' : Db)
      : Type 0 where
    pub before : Tx
    pub after : Tx
    pub last : Tx
    pub rows : ℕ
    pub claim : claim_driver c.driver.id before ≡ (claimed d, after)
    pub update : update_trip trip_id d.id after ≡ (some rows, last)
    pub some_row : 1 ≤ rows
    pub committed : commit db last ≡ some db'

  abbrev Tries :
      Db → Bytes → (RankedDriver F → Type 0) → List (RankedDriver F) → Db × Assignment F → Type 0
  Tries db trip_id P cs result =
      ((result ≡ (db, no_drivers)) × All Passed cs)
      ⊎ ((result ≡ (db, failure))
          ⊎ ((c : RankedDriver F) × (d : Driver F) × (db' : Db) × P c
              × (result ≡ (db', assigned d c.distance))
              × IsAssigned db trip_id c d db'
              × All (λ e. Passed e ⊎ (is_before pg o dist e c ≡ false)) cs))

  finish_cases :
      (db : Db) (trip_id : Bytes) (d : Driver F) (y : F) (tx : Tx)
      → (finish pg o dist db trip_id d y tx ≡ (db, failure))
        ⊎ ((db' : Db) × (rows : ℕ) × (last : Tx) × (finish pg o dist db trip_id d y tx
              ≡ (db', assigned d y))
            × (update_trip trip_id d.id tx ≡ (some rows, last))
            × (1 ≤ rows)
            × (commit db last ≡ some db'))
  unfolding finish
  finish_cases db trip_id d y tx = elim (Option-cases (update_trip trip_id d.id tx).0) [
    | inl e ↦ inl (rw (e, finish))
    | inr (n, e) ↦ elim (Bool-cases (n == 0)) [
      | inl z ↦ inl (rw (e, finish) (rw z))
      | inr z ↦ elim (Option-cases (commit db (update_trip trip_id d.id tx).1)) [
        | inl f ↦ inl (rw (e, finish) (rw z (rw f)))
        | inr (db', f) ↦ inr (
          db',
          n,
          (update_trip trip_id d.id tx).1,
          rw (e, finish) (rw z (rw f)),
          cc,
          ground arith,
          f,
        )
      ]
    ]
  ]

  Claim-cases : (x : Claim F) → (x ≡ no_rows) ⊎ ((x ≡ failed) ⊎ ((d : Driver F) × (x ≡ claimed d)))
  Claim-cases no_rows = inl refl
  Claim-cases failed = inr (inl refl)
  Claim-cases (claimed d) = inr (inr (d, refl))

  try-Tries :
      (db : Db) (trip_id : Bytes) (P : RankedDriver F → Type 0) (cs : List (RankedDriver F))
      (tx : Tx)
      → IsSorted pg o dist cs
      → All P cs
      → Tries db trip_id P cs (try_candidates pg o dist db trip_id cs tx)
  unfolding try_candidates
  try-Tries db trip_id P [] tx h a = inl (refl, tt)
  try-Tries db trip_id P (c ∷ cs) tx h a = elim (Claim-cases (claim_driver c.driver.id tx).0) [
    | inl e ↦
        rw (e, try_candidates)
          (elim (try-Tries db trip_id P cs (claim_driver c.driver.id tx).1 h.1 a.1) [
            | inl (q, passed) ↦ inl (q, ((tx, e), passed))
            | inr (inl q) ↦ inr (inl q)
            | inr (inr (b, d, db', p, q, done, best)) ↦
                inr (inr (b, d, db', p, q, done, (inl (tx, e), best)))
          ])
    | inr (inl e) ↦ inr (inl (rw (e, try_candidates)))
    | inr (inr (d, e)) ↦
        elim (finish_cases db trip_id d c.distance (claim_driver c.driver.id tx).1) [
          | inl q ↦ inr (inl (rw (e, try_candidates) q))
          | inr (db', rows, last, q, updated, some_row, committed) ↦ inr (
              inr (
                c,
                d,
                db',
                a.0,
                rw (e, try_candidates) q,
                record {
                  before = tx;
                  after = (claim_driver c.driver.id tx).1;
                  last = last;
                  rows = rows;
                  claim = cc;
                  update = updated;
                  some_row = some_row;
                  committed = committed;
                },
                (inr (before_irrefl pg o dist c), All-mono _ _ (λ x q. inr q) cs h.0),
              ))
        ]
  ]

  -- What `AssignTrip` comes to in a transaction that selected the available drivers `ds`: no
  -- candidate could be claimed and nothing changes; or some statement failed and nothing changes; or
  -- a selected driver was claimed, the trip updated, and both committed together, and every selected
  -- driver that ranks before it (closer, or as close with a smaller ID) had been tried and was gone.
  abbrev pub Assigns : Db → Bytes → List (Driver F) → Db × Assignment F → Type 0
  Assigns db trip_id ds result =
      ((result ≡ (db, no_drivers)) × All (λ e. Passed (ranked pg o dist e)) ds)
      ⊎ ((result ≡ (db, failure))
          ⊎ ((c d : Driver F) × (db' : Db) × Memᴰ c ds
              × (result ≡ (db', assigned d (dist c)))
              × IsAssigned db trip_id (ranked pg o dist c) d db'
              × All
                  (λ e.
                    Passed (ranked pg o dist e)
                    ⊎ (is_before pg o dist (ranked pg o dist e) (ranked pg o dist c) ≡ false))
                  ds))

  members :
      (ds es : List (Driver F)) → ((d : Driver F) → Memᴰ d es → Memᴰ d ds) → All (λ d. Memᴰ d ds) es
  members ds [] h = tt
  members ds (e ∷ es) h = (h e (Memᴰ.head refl), members ds es (λ d m. h d (Memᴰ.tail m)))

  assign_in-Assigns :
      (db : Db) (trip_id : Bytes) (ds : List (Driver F)) (tx : Tx)
      → Assigns db trip_id ds (assign_in pg o dist db trip_id (some ds, tx))
  unfolding assign_in
  assign_in-Assigns db trip_id [] tx = inl (refl, tt)
  assign_in-Assigns db trip_id (d ∷ ds) tx =
      let all = d ∷ ds in
      let cs = sort_ranked pg o dist (rank pg o dist all) in
      let P : RankedDriver F → Type 0 =
        λ c. (e : Driver F) × Memᴰ e all × (c ≡ ranked pg o dist e) in
      let own : All P cs =
        sort-All pg o dist P all
          (All-mono (λ e. Memᴰ e all) _ (λ e m. (e, m, refl)) all (members all all (λ e m. m))) in
      elim (try-Tries db trip_id P cs tx (sort-IsSorted pg o dist (rank pg o dist all)) own) [
        | inl (q, passed) ↦ inl (q, sort-All_of pg o dist Passed all passed)
        | inr (inl q) ↦ inr (inl q)
        | inr (inr (c, chosen, db', (e, m, same), q, done, best)) ↦ inr (
            inr (
              e,
              chosen,
              db',
              m,
              q ∙ ap (λ x. (db', assigned chosen x.distance)) same,
              rw⁻¹ same done,
              subst
                  (λ x.
                    All
                      (λ f.
                        Passed (ranked pg o dist f)
                        ⊎ (is_before pg o dist (ranked pg o dist f) x ≡ false))
                      all)
                  same
                  (sort-All_of pg o dist (λ x. Passed x ⊎ (is_before pg o dist x c ≡ false)) all
                    best),
            ))
      ]

  -- Whatever the statements of the transaction return, `AssignTrip` fails with the database as it was,
  -- or it selected the available drivers, and then: no candidate could be claimed and nothing changes;
  -- or some statement failed and nothing changes; or a selected driver was claimed, the trip updated,
  -- and both committed together, and every selected driver that ranks before it (closer, or as close
  -- with a smaller ID) was tried and was gone.
  pub assign_trip-Assigns :
      (db : Db) (trip_id : Bytes)
      → (assign_trip pg o dist db trip_id ≡ (db, failure))
        ⊎ ((ds : List (Driver F)) × (tx : Tx) × (begin db ≡ some tx)
            × ((select_available tx).0 ≡ some ds)
            × Assigns db trip_id ds (assign_trip pg o dist db trip_id))
  unfolding assign_trip assign_in
  assign_trip-Assigns db trip_id = elim (Option-cases (begin db)) [
    | inl e ↦ inl (rw (e, assign_trip))
    | inr (tx, e) ↦ elim (Option-cases (select_available tx).0) [
      | inl f ↦ inl (rw (e, assign_trip) (selected (select_available tx) f))
      | inr (ds, f) ↦ inr (ds, tx, e, f, rw (e, assign_trip) (chosen ds (select_available tx) f))
    ]
  ]
    where
      selected :
          (r : Option (List (Driver F)) × Tx)
          → r.0 ≡ none
          → assign_in pg o dist db trip_id r ≡ (db, failure)
      selected (none, tx) f = refl
      selected (some ds, tx) f = cc

      chosen :
          (ds : List (Driver F)) (r : Option (List (Driver F)) × Tx)
          → r.0 ≡ some ds
          → Assigns db trip_id ds (assign_in pg o dist db trip_id r)
      chosen ds (none, tx) f = cc
      chosen ds (some es, tx) f =
          let q : es ≡ ds = cc in rw⁻¹ q (assign_in-Assigns db trip_id es tx)
