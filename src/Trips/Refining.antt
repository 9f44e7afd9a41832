-- ===== src/Trips/Refining.antt =====
-- backend/internal/repositories/postgres_trip_repository.go refines the abstract table of trips, given
-- what PostgreSQL says of the single statements.
use nyc_taxi_real_time_eta_p.Common.{
  ℕ, zero, suc, ◌==◌, if◌then◌else◌, ◌∙◌, ◌≡◌, refl, ap, sym, ◌⊎◌, inl, inr, List, [], ◌∷◌, Option,
  none, some, arith, take, drop, Option-cases,
}
use nyc_taxi_real_time_eta_p.Common.Bytes.{Bytes, codes, or_else, or_else_lem}
use nyc_taxi_real_time_eta_p.Common.Int.{ℤ, pos, negsuc}
use nyc_taxi_real_time_eta_p.Models.{Trip, TripStatus}
use nyc_taxi_real_time_eta_p.Trips.Postgres.{
  Selected, row, no_rows, TripDb, Result, ok, completed, clamp_limit, clamp_offset, create,
  get_by_id, list, affected, update_status, update_dispatch, active_count,
}
use nyc_taxi_real_time_eta_p.Trips.Postgres
use nyc_taxi_real_time_eta_p.Trips.Table
use nyc_taxi_real_time_eta_p.Trips.Table.{
  Op, creates, gets, lists, sets_status, sets_dispatch, counts, Answer, done, trip, trips, count,
  row_of, insert_row, or_now, filled, update_rows, matching, with_status, active_rows, page_size,
  skipped, found, answer, effect, failure, Does, DoesAll, matching-row_of, update_rows-none,
}

-- What PostgreSQL says of each statement, `id` being the primary key: a statement that fails changes
-- nothing.
pub record TripDbLaws {F : Type 0} (db : TripDb F) : Type 0 where
  pub rows : db.Db → List (Trip F)
  -- A TIMESTAMPTZ keeps microseconds only; RETURNING gives the row as it is kept.
  pub rounded : ℕ → ℕ
  pub inserted :
      (t u : Trip F) (s : db.Db)
      → (db.insert t s).0 ≡ some u
      → (u ≡ record t { requested_at = rounded t.requested_at; created_at = rounded t.created_at })
        × (row_of t.id (rows s) ≡ none)
        × (rows (db.insert t s).1 ≡ insert_row u (rows s))
  pub insert_failed :
      (t : Trip F) (s : db.Db) → (db.insert t s).0 ≡ none → rows (db.insert t s).1 ≡ rows s
  pub selected :
      (i : Bytes) (t : Trip F) (s : db.Db)
      → db.select_by_id i s ≡ row t
      → row_of i (rows s) ≡ some t
  pub selected_none :
      (i : Bytes) (s : db.Db) → db.select_by_id i s ≡ no_rows → row_of i (rows s) ≡ none
  pub paged :
      (status : Bytes) (limit offset : ℕ) (ts : List (Trip F)) (s : db.Db)
      → db.select_page status (pos limit) (pos offset) s ≡ some ts
      → ts ≡ take limit (drop offset (with_status status (rows s)))
  pub status_updated :
      (i : Bytes) (status : TripStatus) (n : ℕ) (s : db.Db)
      → (db.update_status_of i status s).0 ≡ some n
      → (n ≡ matching i (rows s))
        × (rows (db.update_status_of i status s).1
            ≡ update_rows i (λ t. record t { status = status }) (rows s))
  pub status_failed :
      (i : Bytes) (status : TripStatus) (s : db.Db)
      → (db.update_status_of i status s).0 ≡ none
      → rows (db.update_status_of i status s).1 ≡ rows s
  pub dispatch_updated :
      (i : Bytes) (d : Option Bytes) (status : TripStatus) (n : ℕ) (s : db.Db)
      → (db.update_dispatch_of i d status s).0 ≡ some n
      → (n ≡ matching i (rows s))
        × (rows (db.update_dispatch_of i d status s).1
            ≡ update_rows i (λ t. record t { driver_id = d; status = status }) (rows s))
  pub dispatch_failed :
      (i : Bytes) (d : Option Bytes) (status : TripStatus) (s : db.Db)
      → (db.update_dispatch_of i d status s).0 ≡ none
      → rows (db.update_dispatch_of i d status s).1 ≡ rows s
  pub counted : (n : ℕ) (s : db.Db) → db.count_active_rows s ≡ some n → n ≡ active_rows (rows s)

or_now_lem : (n now : ℕ) → (if n == 0 then now else n) ≡ or_now n now
or_now_lem zero now = refl
or_now_lem (suc n) now = ground arith

completed_id :
    {F : Type 0} (fresh : Bytes) (a b : ℕ) (t : Trip F)
    → (completed fresh a b t).id ≡ or_else t.id fresh
unfolding completed
completed_id fresh a b t = or_else_lem t.id fresh

-- The trip that `Create` sends, as the row keeps it.
pub completed-filled :
    {F : Type 0} (rounded : ℕ → ℕ) (fresh : Bytes) (a b : ℕ) (t : Trip F)
    → record (completed fresh a b t) {
      requested_at = rounded (completed fresh a b t).requested_at;
      created_at = rounded (completed fresh a b t).created_at;
    }
      ≡ filled rounded fresh a b t
unfolding completed
completed-filled rounded fresh a b t =
    rw
      (
        or_else_lem t.id fresh,
        or_else_lem t.status (codes "PENDING"),
        or_now_lem t.requested_at a,
        or_now_lem t.created_at b,
      )
      refl

clamp_limit_lem : (limit : ℤ) → clamp_limit limit ≡ pos (page_size limit)
unfolding clamp_limit
clamp_limit_lem (pos n) = ground arith
clamp_limit_lem (negsuc n) = ground arith

clamp_offset_lem : (offset : ℤ) → clamp_offset offset ≡ pos (skipped offset)
unfolding clamp_offset
clamp_offset_lem (pos n) = ground arith
clamp_offset_lem (negsuc n) = ground arith

Selected-cases :
    {F : Type 0} (x : Selected F)
    → ((t : Trip F) × (x ≡ row t)) ⊎ ((x ≡ no_rows) ⊎ (x ≡ Selected.failed))
Selected-cases (row t) = inl (t, refl)
Selected-cases no_rows = inr (inl refl)
Selected-cases Selected.failed = inr (inr refl)

module _ {F : Type 0} (db : TripDb F) where
  open db use {Db}

  abbrev of_done : Result (Unit {0}) → Answer F
  of_done (ok x) = done
  of_done (Postgres.not_found i) = Table.not_found
  of_done Postgres.failed = Table.failed

  abbrev of_result : {A : Type 0} → (A → Answer F) → Result A → Answer F
  of_result f (ok a) = f a
  of_result f (Postgres.not_found i) = Table.not_found
  of_result f Postgres.failed = Table.failed

  -- A call of the repository: its answer, and the database after it.
  unfoldable pub call : Op F → Db → Answer F × Db
  call (creates fresh a b t) s =
      let (s', t', r) = create db fresh a b t s in (of_result (λ _. trip t') r, s')
  call (gets i) s = (of_result trip (get_by_id db i s), s)
  call (lists status limit offset) s = (of_result trips (list db status limit offset s), s)
  call (sets_status i status) s = let (s', r) = update_status db i status s in (of_done r, s')
  call (sets_dispatch i d status) s =
      let (s', r) = update_dispatch db i d status s in (of_done r, s')
  call counts s = (count (active_count db s), s)

  unfoldable pub calls : List (Op F) → Db → List (Answer F) × Db
  calls [] s = ([], s)
  calls (op ∷ ops) s =
      let (a, s') = call op s in let (answers, s'') = calls ops s' in (a ∷ answers, s'')

  module _ (laws : TripDbLaws db) where
    open laws use {rows, rounded}

    affected-Does :
        (op : Op F) (i : Bytes) (s : Db) (x : Option ℕ × Db) (f : Trip F → Trip F)
        → failure op ≡ Table.failed
        → answer rounded (rows s) op
          ≡ (elim (row_of i (rows s)) [ none ↦ Table.not_found | some t ↦ done ])
        → effect rounded (rows s) op ≡ update_rows i f (rows s)
        → (x.0 ≡ none → rows x.1 ≡ rows s)
        → ((n : ℕ)
            → x.0 ≡ some n
            → (n ≡ matching i (rows s)) × (rows x.1 ≡ update_rows i f (rows s)))
        → Does rounded (rows s) op (of_done (affected db i x).1) (rows (affected db i x).0)
    unfolding affected
    affected-Does op i s (none, s') f fail ans eff h k = inl (sym fail, h refl)
    affected-Does op i s (some n, s') f fail ans eff h k =
        let (n_rows, changed) = k n refl in
        elim (matching-row_of i (rows s)) [
          | inl (m, r) ↦ inr (rw (ans, r) (ground (arith, m, n_rows)), cc (changed, eff))
          | inr (m, (t, r)) ↦ inr (rw (ans, r) (ground (arith, m, n_rows)), cc (changed, eff))
        ]

    create-Does :
        (fresh : Bytes) (a b : ℕ) (t : Trip F) (s : Db)
        → Does rounded
            (rows s)
            (creates fresh a b t)
            (call (creates fresh a b t) s).0
            (rows (call (creates fresh a b t) s).1)
    unfolding call create
    create-Does fresh a b t s =
        let t' = completed fresh a b t in
        elim (Option-cases (db.insert t' s).0) [
          | inl e ↦ inl (rw (e, create) (refl, laws.insert_failed t' s e))
          | inr (u, e) ↦
              let (same, new, kept) = laws.inserted t' u s e in
              let row_is : u ≡ filled rounded fresh a b t =
                same ∙ completed-filled rounded fresh a b t in
              let new' : row_of (or_else t.id fresh) (rows s) ≡ none =
                ap (λ i. row_of i (rows s)) (sym (completed_id fresh a b t)) ∙ new in
              inr (
                rw (e, create)
                  (rw (new', answer, effect)
                    (ap trip row_is, kept ∙ ap (λ v. insert_row v (rows s)) row_is)))
        ]

    get-Does :
        (i : Bytes) (s : Db)
        → Does rounded (rows s) (gets i) (call (gets i) s).0 (rows (call (gets i) s).1)
    unfolding call get_by_id
    get-Does i s = elim (Selected-cases (db.select_by_id i s)) [
      | inl (t, e) ↦ inr (rw (e, get_by_id) (rw (laws.selected i t s e) (refl, refl)))
      | inr (inl e) ↦ inr (rw (e, get_by_id) (rw (laws.selected_none i s e) (refl, refl)))
      | inr (inr e) ↦ inl (rw (e, get_by_id) (refl, refl))
    ]

    list-Does :
        (status : Bytes) (limit offset : ℤ) (s : Db)
        → Does rounded
            (rows s)
            (lists status limit offset)
            (call (lists status limit offset) s).0
            (rows (call (lists status limit offset) s).1)
    unfolding call list
    list-Does status limit offset s =
        rw (clamp_limit_lem limit, clamp_offset_lem offset, list)
          (elim (Option-cases
            (db.select_page status (pos (page_size limit)) (pos (skipped offset)) s)) [
              | inl e ↦ inl (rw e (refl, refl))
              | inr (ts, e) ↦ inr (
                  rw e
                    (ap trips (laws.paged status (page_size limit) (skipped offset) ts s e), refl))
            ])

    count-Does : (s : Db) → Does rounded (rows s) counts (call counts s).0 (rows (call counts s).1)
    unfolding call active_count
    count-Does s = elim (Option-cases (db.count_active_rows s)) [
      | inl e ↦ inl (rw (e, active_count) (refl, refl))
      | inr (n, e) ↦ inr (rw (e, active_count) (ap count (laws.counted n s e), refl))
    ]

    -- One call of the repository does what the abstract table says, or fails without a change.
    call-Does : (op : Op F) (s : Db) → Does rounded (rows s) op (call op s).0 (rows (call op s).1)
    call-Does (creates fresh a b t) s = create-Does fresh a b t s
    call-Does (gets i) s = get-Does i s
    call-Does (lists status limit offset) s = list-Does status limit offset s
    call-Does (sets_status i status) s =
        unfold call update_status in
        affected-Does (sets_status i status) i s (db.update_status_of i status s) _ refl refl refl
          (laws.status_failed i status s) (λ n. laws.status_updated i status n s)
    call-Does (sets_dispatch i d status) s =
        unfold call update_dispatch in
        affected-Does (sets_dispatch i d status) i s (db.update_dispatch_of i d status s) _ refl
          refl refl (laws.dispatch_failed i d status s) (λ n. laws.dispatch_updated i d status n s)
    call-Does counts s = count-Does s

    -- The repository refines the abstract table. Whatever calls it takes, in whatever order and
    -- whichever of their statements fail, each is answered as the table of that moment says and has
    -- just the effect on it, or it is answered by its failure and has none: a creation fills in what
    -- is missing (the fresh ID, the times of the clock, the status PENDING), keeps the times as the
    -- database rounds them, and adds a row under a new ID; a page has at most 500 rows, 100 by default, newest
    -- first; a change is not found exactly if no row has the ID.
    pub calls-refine :
        (ops : List (Op F)) (s : Db)
        → DoesAll rounded (rows s) ops (calls ops s).0 (rows (calls ops s).1)
    unfolding calls
    calls-refine [] s = refl
    calls-refine (op ∷ ops) s = (rows (call op s).1, call-Does op s, calls-refine ops (call op s).1)
