-- ===== src/Common/Sorting.antt =====
-- Sorting by a number, stably: what `sort.Slice` may return.
use Prim.Native.Nat.{ℕ, zero, suc, ◌+◌, ◌≤◌, ◌<◌}
use mathlib.Core.Path.{◌≡◌, refl, ap, ◌∙◌}
use mathlib.Core.Logic.{inl, inr}
use mathlib.Core.Bool.{Bool, not}
use mathlib.Core.List.{List, [], ◌∷◌, ◌++◌, Perm}
use mathlib.Core.List.Perm
use mathlib.Core.Option.{some}
use native.Mathlib.Omega.{arith}
use nyc_taxi_real_time_eta_p.Common.Tests.{ltb, leb, if◌then◌else◌, Bool-cases}
use nyc_taxi_real_time_eta_p.Common.Lists.{length, get_elem?, All, All-mono}

module _ {ℓ} {A : Type ℓ} where
  -- The number of elements that pass a test.
  unfoldable pub count : (A → Bool) → List A → ℕ
  count p [] = 0
  count p (x ∷ xs) = (if p x then 1 else 0) + count p xs

  pub count_le : (p : A → Bool) (xs : List A) → count p xs ≤ length xs
  unfolding count
  count_le p [] = omega arith
  count_le p (x ∷ xs) = ground (arith, count_le p xs)

  pub count-append : (p : A → Bool) (xs ys : List A) → count p (xs ++ ys) ≡ count p xs + count p ys
  unfolding count
  count-append p [] ys = omega arith
  count-append p (x ∷ xs) ys = omega (arith, count-append p xs ys)

  pub count-concat :
      (p : A → Bool) (xs : List A) (x : A)
      → count p (xs ++ (x ∷ [])) ≡ count p xs + (if p x then 1 else 0)
  unfolding count
  count-concat p xs x = omega (arith, count-append p xs (x ∷ []))

  pub count-not : (p : A → Bool) (xs : List A) → count p xs + count (λ x. not (p x)) xs ≡ length xs
  unfolding count
  count-not p [] = refl
  count-not p (x ∷ xs) = ground (arith, count-not p xs)

  module _ (key : A → ℕ) where
    unfoldable pub insert_by : A → List A → List A
    insert_by x [] = x ∷ []
    insert_by x (y ∷ ys) = if ltb (key y) (key x) then y ∷ insert_by x ys else x ∷ y ∷ ys

    unfoldable pub sort_by : List A → List A
    unfolding insert_by
    sort_by [] = []
    sort_by (x ∷ xs) = insert_by x (sort_by xs)

    abbrev pub IsSorted : List A → Type ℓ
    IsSorted [] = Unit
    IsSorted (x ∷ xs) = All (λ y. key x ≤ key y) xs × IsSorted xs

    length-insert_by : (x : A) (xs : List A) → length (insert_by x xs) ≡ suc (length xs)
    unfolding insert_by
    length-insert_by x [] = refl
    length-insert_by x (y ∷ ys) = ground (arith, length-insert_by x ys)

    pub length-sort_by : (xs : List A) → length (sort_by xs) ≡ length xs
    unfolding sort_by
    length-sort_by [] = refl
    length-sort_by (x ∷ xs) = length-insert_by x (sort_by xs) ∙ ap suc (length-sort_by xs)

    count-insert_by :
        (p : A → Bool) (x : A) (xs : List A) → count p (insert_by x xs) ≡ count p (x ∷ xs)
    unfolding insert_by count
    count-insert_by p x [] = refl
    count-insert_by p x (y ∷ ys) = ground (arith, count-insert_by p x ys)

    pub count-sort_by : (p : A → Bool) (xs : List A) → count p (sort_by xs) ≡ count p xs
    unfolding sort_by count
    count-sort_by p [] = refl
    count-sort_by p (x ∷ xs) =
        count-insert_by p x (sort_by xs) ∙ ap (λ n. (if p x then 1 else 0) + n) (count-sort_by p xs)

    insert_by-Perm : (x : A) (xs : List A) → Perm (insert_by x xs) (x ∷ xs)
    unfolding insert_by
    insert_by-Perm x [] = Perm.rfl
    insert_by-Perm x (y ∷ ys) = elim (Bool-cases (ltb (key y) (key x))) [
      | inl e ↦ rw e (Perm.trans (Perm.cons y (insert_by-Perm x ys)) (Perm.swap x y ys))
      | inr e ↦ rw e Perm.rfl
    ]

    pub sort_by-Perm : (xs : List A) → Perm (sort_by xs) xs
    unfolding sort_by
    sort_by-Perm [] = Perm.rfl
    sort_by-Perm (x ∷ xs) =
        Perm.trans (insert_by-Perm x (sort_by xs)) (Perm.cons x (sort_by-Perm xs))

    insert_by-All :
        (m : ℕ) (x : A) (xs : List A)
        → m ≤ key x
        → All (λ y. m ≤ key y) xs
        → All (λ y. m ≤ key y) (insert_by x xs)
    unfolding insert_by
    insert_by-All m x [] h k = (h, tt)
    insert_by-All m x (y ∷ ys) h k = elim (Bool-cases (ltb (key y) (key x))) [
      | inl e ↦ rw e (k.0, insert_by-All m x ys h k.1)
      | inr e ↦ rw e (h, k)
    ]

    insert_by-IsSorted : (x : A) (xs : List A) → IsSorted xs → IsSorted (insert_by x xs)
    unfolding insert_by
    insert_by-IsSorted x [] h = (tt, tt)
    insert_by-IsSorted x (y ∷ ys) h = elim (Bool-cases (ltb (key y) (key x))) [
      | inl e ↦
          rw e (insert_by-All (key y) x ys (ground (arith, e)) h.0, insert_by-IsSorted x ys h.1)
      | inr e ↦ rw e ((ground (arith, e), All-mono _ _ (λ z q. ground (arith, e, q)) ys h.0), h)
    ]

    pub sort_by-IsSorted : (xs : List A) → IsSorted (sort_by xs)
    unfolding sort_by
    sort_by-IsSorted [] = tt
    sort_by-IsSorted (x ∷ xs) = insert_by-IsSorted x (sort_by xs) (sort_by-IsSorted xs)

    count-All :
        (m : ℕ) (xs : List A) → All (λ y. m ≤ key y) xs → count (λ y. leb m (key y)) xs ≡ length xs
    unfolding count
    count-All m [] h = refl
    count-All m (x ∷ xs) h = ground (arith, h.0, count-All m xs h.1)

    -- The element at a place of a sorted list: as many as its place says are not above it, itself
    -- included, and all from there on are not below it.
    pub sorted_place :
        (xs : List A) (i : ℕ)
        → i < length xs
        → IsSorted xs
        → (x : A) × (get_elem? xs i ≡ some x)
          × (i < count (λ y. leb (key y) (key x)) xs)
          × (length xs ≤ i + count (λ y. leb (key x) (key y)) xs)
    unfolding count
    sorted_place [] i h s = absurd (omega (arith, h))
    sorted_place (x ∷ xs) zero h s =
        (x, refl, ground arith, ground (arith, count-All (key x) xs s.0))
    sorted_place (x ∷ xs) (suc i) h s =
        let (y, at_i, below, above) = sorted_place xs i (omega (arith, h)) s.1 in
        (y, at_i, ground (arith, below, head_le xs i y s.0 at_i), ground (arith, above))
      where
        head_le :
            (ys : List A) (j : ℕ) (z : A)
            → All (λ w. key x ≤ key w) ys
            → get_elem? ys j ≡ some z
            → key x ≤ key z
        head_le [] j z a e = cc
        head_le (w ∷ ys) zero z a e = let q : w ≡ z = cc in omega (arith, a.0, ap key q)
        head_le (w ∷ ys) (suc j) z a e = head_le ys j z a.1 e
