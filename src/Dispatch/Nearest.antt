-- ===== src/Dispatch/Nearest.antt =====
-- `FindNearestAvailable` of backend/internal/dispatch/driver.go: what it returns, and that the order
-- in which `range` visits the map does not matter.
use mathlib.Core.List.{Memᴰ}
use nyc_taxi_real_time_eta_p.Common.{
  ◌≡◌, ◌↔◌, refl, sym, ◌∙◌, ◌⊎◌, inl, inr, true, false, List, [], ◌∷◌, Option, none, some,
  Bool-cases, Option-cases,
}
use nyc_taxi_real_time_eta_p.Common.Bytes.{bytes_order}
use nyc_taxi_real_time_eta_p.Common.Order.{
  LinearOrder, lex_irrefl, lex_asym, lex_antisym, not_lex_trans,
}
use nyc_taxi_real_time_eta_p.Dispatch.Driver.{
  Driver, Fleet, ok, err, no_available_drivers, is_available, is_closer, visit, scan,
  find_nearest_available,
}

mem_cases : {A : Type 0} {e x : A} {ds : List A} → Memᴰ e (x ∷ ds) → (e ≡ x) ⊎ Memᴰ e ds
mem_cases (Memᴰ.head p) = inl p
mem_cases (Memᴰ.tail m) = inr m

module _ {F : Type 0} (o : LinearOrder F) (dist : Driver F → F) where
  -- A candidate of smallest distance, and of smallest ID among those.
  pub record IsNearest (r : Fleet F) (d : Driver F) : Type 0 where
    pub member : Memᴰ d r
    pub free : is_available d ≡ true
    pub least :
        (e : Driver F)
        → Memᴰ e r
        → is_available e ≡ true
        → is_closer o dist (dist e) e (dist d) d ≡ false

  -- What `scan` keeps of the candidate that it starts from.
  abbrev IsFrom : Option (Driver F × F) → Fleet F → Driver F → F → Type 0
  IsFrom best ds d y = (best ≡ some (d, y)) ⊎ (Memᴰ d ds × (is_available d ≡ true) × (y ≡ dist d))

  closer_trans :
      (a b c : Driver F) (x y z : F)
      → is_closer o dist x a y b ≡ false
      → is_closer o dist y b z c ≡ false
      → is_closer o dist x a z c ≡ false
  unfolding is_closer
  closer_trans a b c x y z h k = not_lex_trans o bytes_order x y z a.id b.id c.id h k

  closer_asym :
      (a b : Driver F) (x y : F)
      → is_closer o dist x a y b ≡ true
      → is_closer o dist y b x a ≡ false
  unfolding is_closer
  closer_asym a b x y h = lex_asym o bytes_order x y a.id b.id h

  closer_irrefl : (a : Driver F) (x : F) → is_closer o dist x a x a ≡ false
  unfolding is_closer
  closer_irrefl a x = lex_irrefl o bytes_order x a.id

  closer_antisym :
      (a b : Driver F) (x y : F)
      → is_closer o dist x a y b ≡ false
      → is_closer o dist y b x a ≡ false
      → (x ≡ y) × (a.id ≡ b.id)
  unfolding is_closer
  closer_antisym a b x y h k = lex_antisym o bytes_order x y a.id b.id h k

  -- The three ways of one round.
  data Visits (best : Option (Driver F × F)) (d : Driver F) : Type 0 where
    skips : is_available d ≡ false → visit o dist best d ≡ best → Visits best d
    takes :
        is_available d ≡ true
        → visit o dist best d ≡ some (d, dist d)
        → ((n : Driver F) (z : F) → best ≡ some (n, z) → is_closer o dist z n (dist d) d ≡ false)
        → Visits best d
    keeps :
        (n : Driver F) (z : F)
        → best ≡ some (n, z)
        → is_closer o dist (dist d) d z n ≡ false
        → visit o dist best d ≡ best
        → Visits best d

  visit-Visits : (best : Option (Driver F × F)) (d : Driver F) → Visits best d
  unfolding visit
  visit-Visits best d = elim (Bool-cases (is_available d)) [
    | inr e ↦ skips e (rw (e, visit))
    | inl e ↦ go best e
  ]
    where
      go : (b : Option (Driver F × F)) → is_available d ≡ true → Visits b d
      go none e = takes e (rw (e, visit)) (λ n z q. cc)
      go (some (n, z)) e = elim (Bool-cases (is_closer o dist (dist d) d z n)) [
        | inl c ↦ takes e (rw (e, visit) (rw c)) (λ n' z' q. cc (closer_asym d n (dist d) z c))
        | inr c ↦ keeps n z refl c (rw (e, visit) (rw c))
      ]

  -- What a scan that ends with a driver has seen: it came from somewhere, and nothing was closer.
  scan-some :
      (ds : Fleet F) (best : Option (Driver F × F)) (d : Driver F) (y : F)
      → scan o dist best ds ≡ some (d, y)
      → IsFrom best ds d y
        × ((n : Driver F) (z : F) → best ≡ some (n, z) → is_closer o dist z n y d ≡ false)
        × ((e : Driver F)
            → Memᴰ e ds
            → is_available e ≡ true
            → is_closer o dist (dist e) e y d ≡ false)
  unfolding scan
  scan-some [] best d y h = (inl h, (λ n z q. cc (closer_irrefl d y)), λ e m. elim m [ ])
  scan-some (x ∷ ds) best d y h =
      let (from, over, least) = scan-some ds (visit o dist best x) d y h in
      elim (visit-Visits best x) [
        | skips f e ↦ (
          later (elim from [ inl q ↦ inl (sym e ∙ q) | inr m ↦ inr m ]),
          λ n z q. over n z (e ∙ q),
          λ a m av. elim (mem_cases m) [ inl p ↦ cc | inr m' ↦ least a m' av ],
        )
        | takes f e g ↦ (
          elim from [
            | inl q ↦ inr (Memᴰ.head (cc (sym e ∙ q)), cc (sym e ∙ q), cc (sym e ∙ q))
            | inr (m, free, same) ↦ inr (Memᴰ.tail m, free, same)
          ],
          λ n z q. closer_trans n x d z (dist x) y (g n z q) (over x (dist x) e),
          λ a m av. elim (mem_cases m) [
            | inl p ↦ rw p (over x (dist x) e)
            | inr m' ↦ least a m' av
          ],
        )
        | keeps n z q c e ↦ (
          later (elim from [ inl q' ↦ inl (sym e ∙ q') | inr m ↦ inr m ]),
          λ n' z' q'. over n' z' (e ∙ q'),
          λ a m av. elim (mem_cases m) [
            | inl p ↦ rw p (closer_trans x n d (dist x) z y c (over n z (e ∙ q)))
            | inr m' ↦ least a m' av
          ],
        )
      ]
    where
      later : IsFrom best ds d y → IsFrom best (x ∷ ds) d y
      later (inl q) = inl q
      later (inr (m, free, same)) = inr (Memᴰ.tail m, free, same)

  scan-none :
      (ds : Fleet F) (best : Option (Driver F × F))
      → scan o dist best ds ≡ none
      → (best ≡ none) × ((e : Driver F) → Memᴰ e ds → is_available e ≡ false)
  unfolding scan
  scan-none [] best h = (h, λ e m. elim m [ ])
  scan-none (x ∷ ds) best h =
      let (start, rest) = scan-none ds (visit o dist best x) h in
      elim (visit-Visits best x) [
        | skips f e ↦
            (sym e ∙ start, λ a m. elim (mem_cases m) [ inl p ↦ rw p f | inr m' ↦ rest a m' ])
        | takes f e g ↦ cc
        | keeps n z q c e ↦ cc
      ]

  -- Where no distance is NaN, `FindNearestAvailable` returns a driver of the fleet that is available, with
  -- its distance, and no available driver is closer (or as close with a smaller ID). It fails only where
  -- no driver is available.
  pub find_nearest_available-IsNearest :
      (r : Fleet F)
      → ((d : Driver F) × (y : F) × (find_nearest_available o dist r ≡ ok (d, y))
          × (y ≡ dist d)
          × IsNearest r d)
        ⊎ ((find_nearest_available o dist r ≡ err no_available_drivers)
            × ((e : Driver F) → Memᴰ e r → is_available e ≡ false))
  unfolding find_nearest_available
  find_nearest_available-IsNearest r = elim (Option-cases (scan o dist none r)) [
    | inl e ↦ inr (rw (e, find_nearest_available), (scan-none r none e).1)
    | inr ((d, y), e) ↦
        let (from, _, least) = scan-some r none d y e in
        elim from [
          | inl q ↦ cc
          | inr (m, free, same) ↦ inl (
            d,
            y,
            rw (e, find_nearest_available),
            same,
            record { member = m; free = free; least = λ a m' av. rw same at (least a m' av) },
          )
        ]
  ]

  -- The IDs are the keys of a map.
  abbrev pub HasDistinctIds : Fleet F → Type 0
  HasDistinctIds r = (d e : Driver F) → Memᴰ d r → Memᴰ e r → d.id ≡ e.id → d ≡ e

  -- `range` visits a map in any order: where no distance is NaN, two fleets with the same drivers under
  -- distinct IDs, in whatever order, give the same result.
  pub find_nearest_available-any_order :
      (r s : Fleet F)
      → HasDistinctIds r
      → ((d : Driver F) → Memᴰ d r ↔ Memᴰ d s)
      → find_nearest_available o dist r ≡ find_nearest_available o dist s
  find_nearest_available-any_order r s ids same = elim (find_nearest_available-IsNearest r) [
    | inl (d, y, found, at_d, near) ↦ elim (find_nearest_available-IsNearest s) [
      | inl (e, z, found', at_e, near') ↦
          let (tie, id_tie) =
            closer_antisym e d (dist e) (dist d) (near.least e ((same e).1 near'.member) near'.free)
              (near'.least d ((same d).0 near.member) near.free) in
          let one : d ≡ e = ids d e near.member ((same e).1 near'.member) (sym id_tie) in cc
      | inr (failed, nobody) ↦ cc (nobody d ((same d).0 near.member), near.free)
    ]
    | inr (failed, nobody) ↦ elim (find_nearest_available-IsNearest s) [
      | inl (e, z, found', at_e, near') ↦ cc (nobody e ((same e).1 near'.member), near'.free)
      | inr (failed', _) ↦ failed ∙ sym failed'
    ]
  ]
