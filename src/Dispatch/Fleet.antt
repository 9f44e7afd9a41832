-- ===== src/Dispatch/Fleet.antt =====
-- `Seed` and `SetStatus` of backend/internal/dispatch/driver.go on the map of drivers.
use mathlib.Core.List.{Memᴰ}
use nyc_taxi_real_time_eta_p.Common.{
  ◌≡◌, refl, ◌⊎◌, inl, inr, List, [], ◌∷◌, none, some, arith, if◌then◌else◌, Bool-cases,
  Option-cases,
}
use nyc_taxi_real_time_eta_p.Common.Bytes.{Bytes, bytes_eq, bytes_eq_iff, bytes_eq_refl}
use nyc_taxi_real_time_eta_p.Dispatch.Driver.{
  Driver, Fleet, Status, ok, err, not_found, find, put, seeded, seed, assign_status, set_status,
}

module _ {F : Type 0} where
  -- A write to the map: the key reads the new driver, every other key what it read before.
  pub find-put :
      (i : Bytes) (d : Driver F) (r : Fleet F)
      → find i (put d r) ≡ (if bytes_eq d.id i then some d else find i r)
  unfolding find put
  find-put i d [] = refl
  find-put i d (e ∷ es) =
      ground
        (arith, bytes_eq_iff e.id d.id, bytes_eq_iff d.id i, bytes_eq_iff e.id i, find-put i d es)

  find_id : (i : Bytes) (r : Fleet F) (d : Driver F) → find i r ≡ some d → d.id ≡ i
  unfolding find
  find_id i [] d h = cc
  find_id i (e ∷ es) d h = ground (arith, bytes_eq_iff e.id i, find_id i es d)

  pub find-assign_status :
      (i j : Bytes) (s : Status) (r : Fleet F) (d : Driver F)
      → find i r ≡ some d
      → find j (assign_status i s r)
        ≡ (if bytes_eq i j then some (record d { status = s }) else find j r)
  unfolding find assign_status
  find-assign_status i j s [] d h = cc
  find-assign_status i j s (e ∷ es) d h = ground (
    arith,
    bytes_eq_iff e.id i,
    bytes_eq_iff e.id j,
    bytes_eq_iff i j,
    find-assign_status i j s es d,
  )

  pub set_status_ok :
      (i : Bytes) (s : Status) (r : Fleet F) (d : Driver F)
      → find i r ≡ some d
      → set_status i s r ≡ ok (assign_status i s r)
  unfolding set_status
  set_status_ok i s r d e = rw (e, set_status)

  -- `SetStatus` of an unknown ID fails; of a known one it changes the status of that driver, leaves
  -- its other fields, and leaves every other driver.
  set_status-find :
      (i : Bytes) (s : Status) (r : Fleet F)
      → ((find i r ≡ none) × (set_status i s r ≡ err (not_found i)))
        ⊎ ((d : Driver F) × (r' : Fleet F) × (find i r ≡ some d)
            × (set_status i s r ≡ ok r')
            × ((j : Bytes)
                → find j r' ≡ (if bytes_eq i j then some (record d { status = s }) else find j r)))
  unfolding set_status
  set_status-find i s r = elim (Option-cases (find i r)) [
    | inl e ↦ inl (e, rw (e, set_status))
    | inr (d, e) ↦
        inr (d, assign_status i s r, e, rw (e, set_status), λ j. find-assign_status i j s r d e)
  ]

  -- No two drivers of the list share an ID, as the keys of a map.
  abbrev pub IsKeyed : Fleet F → Type 0
  IsKeyed [] = Unit
  IsKeyed (d ∷ ds) = (find d.id ds ≡ none) × IsKeyed ds

  put-IsKeyed : (d : Driver F) (r : Fleet F) → IsKeyed r → IsKeyed (put d r)
  unfolding put find
  put-IsKeyed d [] h = (refl, tt)
  put-IsKeyed d (e ∷ es) h =
      ground (
        arith,
        put-IsKeyed d es,
        bytes_eq_iff e.id d.id,
        bytes_eq_iff d.id e.id,
        find-put e.id d es,
      )

  -- Seeding, restarts of it included, never gives two drivers one ID.
  seed-IsKeyed : (ps : List (Bytes × Driver F)) (r : Fleet F) → IsKeyed r → IsKeyed (seed ps r)
  unfolding seed
  seed-IsKeyed [] r h = h
  seed-IsKeyed ((fresh, d) ∷ ps) r h =
      seed-IsKeyed ps (put (seeded fresh d) r) (put-IsKeyed (seeded fresh d) r h)

  find-assign_none :
      (i j : Bytes) (s : Status) (r : Fleet F)
      → find j r ≡ none
      → find j (assign_status i s r) ≡ none
  unfolding find assign_status
  find-assign_none i j s [] h = refl
  find-assign_none i j s (e ∷ es) h = ground (arith, find-assign_none i j s es)

  pub assign_status-IsKeyed :
      (i : Bytes) (s : Status) (r : Fleet F) → IsKeyed r → IsKeyed (assign_status i s r)
  unfolding assign_status
  assign_status-IsKeyed i s [] h = h
  assign_status-IsKeyed i s (d ∷ ds) h =
      ground (arith, assign_status-IsKeyed i s ds, find-assign_none i d.id s ds)

  pub find_of_mem : (r : Fleet F) (d : Driver F) → IsKeyed r → Memᴰ d r → find d.id r ≡ some d
  unfolding find
  find_of_mem [] d h m = elim m [ ]
  find_of_mem (e ∷ es) d h (Memᴰ.head p) = rw p (ground (arith, bytes_eq_refl e.id))
  find_of_mem (e ∷ es) d h (Memᴰ.tail m) =
      ground (arith, bytes_eq_iff e.id d.id, find_of_mem es d h.1 m)

  pub mem_of_find : (i : Bytes) (r : Fleet F) (d : Driver F) → find i r ≡ some d → Memᴰ d r
  unfolding find
  mem_of_find i [] d h = cc
  mem_of_find i (e ∷ es) d h = elim (Bool-cases (bytes_eq e.id i)) [
    | inl q ↦ Memᴰ.head (ground arith)
    | inr q ↦ Memᴰ.tail (mem_of_find i es d (ground arith))
  ]
