-- ===== src/Dispatch/Ranking.antt =====
-- The candidates of `AssignTrip` of backend/internal/dispatch/postgres_repository.go: the sorted list
-- holds the selected drivers, each behind none that ranks after it.
use nyc_taxi_real_time_eta_p.Common.{
  ◌≡◌, sym, ◌∙◌, inl, inr, true, false, List, [], ◌∷◌, arith, Bool-cases, All, All-mono,
}
use nyc_taxi_real_time_eta_p.Common.Bytes.{bytes_order}
use nyc_taxi_real_time_eta_p.Common.Order.{LinearOrder, lex, lex_irrefl, lex_asym, not_lex_trans}
use nyc_taxi_real_time_eta_p.Dispatch.Driver.{Driver}
use nyc_taxi_real_time_eta_p.Dispatch.Assign.{
  Postgres, RankedDriver, rank, is_before, insert_ranked, sort_ranked,
}

module _ {F : Type 0} (pg : Postgres F) (o : LinearOrder F) (dist : Driver F → F) where
  before_lem :
      (a b : RankedDriver F)
      → is_before pg o dist a b ≡ lex o bytes_order a.distance a.driver.id b.distance b.driver.id
  unfolding is_before
  before_lem a b = elim (Bool-cases (o.eq a.distance b.distance)) [
    | inl e ↦ ground (arith, (o.eq_iff a.distance b.distance).0 e, o.lt_irrefl a.distance)
    | inr e ↦ ground arith
  ]

  not_before_trans :
      (a b c : RankedDriver F)
      → is_before pg o dist a b ≡ false
      → is_before pg o dist b c ≡ false
      → is_before pg o dist a c ≡ false
  not_before_trans a b c h k =
      before_lem a c
      ∙ not_lex_trans o bytes_order a.distance b.distance c.distance a.driver.id b.driver.id
          c.driver.id (sym (before_lem a b) ∙ h) (sym (before_lem b c) ∙ k)

  before_asym :
      (a b : RankedDriver F) → is_before pg o dist a b ≡ true → is_before pg o dist b a ≡ false
  before_asym a b h =
      before_lem b a
      ∙ lex_asym o bytes_order a.distance b.distance a.driver.id b.driver.id
          (sym (before_lem a b) ∙ h)

  pub before_irrefl : (a : RankedDriver F) → is_before pg o dist a a ≡ false
  before_irrefl a = before_lem a a ∙ lex_irrefl o bytes_order a.distance a.driver.id

  abbrev pub IsSorted : List (RankedDriver F) → Type 0
  IsSorted [] = Unit
  IsSorted (b ∷ bs) = All (λ e. is_before pg o dist e b ≡ false) bs × IsSorted bs

  insert-All :
      (P : RankedDriver F → Type 0) (c : RankedDriver F) (bs : List (RankedDriver F))
      → P c
      → All P bs
      → All P (insert_ranked pg o dist c bs)
  unfolding insert_ranked
  insert-All P c [] p a = (p, tt)
  insert-All P c (b ∷ bs) p a = elim (Bool-cases (is_before pg o dist b c)) [
    | inl e ↦ rw e (a.0, insert-All P c bs p a.1)
    | inr e ↦ rw e (p, a)
  ]

  insert-IsSorted :
      (c : RankedDriver F) (bs : List (RankedDriver F))
      → IsSorted bs
      → IsSorted (insert_ranked pg o dist c bs)
  unfolding insert_ranked
  insert-IsSorted c [] h = (tt, tt)
  insert-IsSorted c (b ∷ bs) h = elim (Bool-cases (is_before pg o dist b c)) [
    | inl e ↦ rw e (
      insert-All (λ x. is_before pg o dist x b ≡ false) c bs (before_asym b c e) h.0,
      insert-IsSorted c bs h.1,
    )
    | inr e ↦ rw e ((e, All-mono _ _ (λ x q. not_before_trans x b c q e) bs h.0), h)
  ]

  pub sort-IsSorted : (cs : List (RankedDriver F)) → IsSorted (sort_ranked pg o dist cs)
  unfolding sort_ranked
  sort-IsSorted [] = tt
  sort-IsSorted (c ∷ cs) = insert-IsSorted c (sort_ranked pg o dist cs) (sort-IsSorted cs)

  insert-All_of :
      (P : RankedDriver F → Type 0) (c : RankedDriver F) (bs : List (RankedDriver F))
      → All P (insert_ranked pg o dist c bs)
      → P c × All P bs
  unfolding insert_ranked
  insert-All_of P c [] a = a
  insert-All_of P c (b ∷ bs) a = elim (Bool-cases (is_before pg o dist b c)) [
    | inr e ↦ let a' = rw e at a in (a'.0, a'.1)
    | inl e ↦ let a' = rw e at a in let (p, rest) = insert-All_of P c bs a'.1 in (p, (a'.0, rest))
  ]

  abbrev pub ranked : Driver F → RankedDriver F
  ranked d = record { driver = d; distance = dist d }

  -- The candidates are the selected drivers.
  pub sort-All :
      (P : RankedDriver F → Type 0) (ds : List (Driver F))
      → All (λ d. P (ranked d)) ds
      → All P (sort_ranked pg o dist (rank pg o dist ds))
  unfolding sort_ranked rank
  sort-All P [] a = tt
  sort-All P (d ∷ ds) a =
      insert-All P (ranked d) (sort_ranked pg o dist (rank pg o dist ds)) a.0 (sort-All P ds a.1)

  pub sort-All_of :
      (P : RankedDriver F → Type 0) (ds : List (Driver F))
      → All P (sort_ranked pg o dist (rank pg o dist ds))
      → All (λ d. P (ranked d)) ds
  unfolding sort_ranked rank
  sort-All_of P [] a = tt
  sort-All_of P (d ∷ ds) a =
      let (p, rest) = insert-All_of P (ranked d) (sort_ranked pg o dist (rank pg o dist ds)) a in
      (p, sort-All_of P ds rest)
