-- ===== src/Common/Order.antt =====
-- Interfaces of the values that the program compares: strict linear orders with Boolean tests, and
-- the order of pairs, first component first.
use mathlib.Core.Path.{◌≡◌, refl, sym}
use mathlib.Core.Logic.{◌⊎◌, ◌↔◌, inl, inr}
use mathlib.Core.Bool.{Bool, true, false, ◌&&◌, ◌||◌}
use native.Mathlib.Omega.{arith}
use nyc_taxi_real_time_eta_p.Common.Tests.{Bool-cases}

-- `<` and `==` of a type whose values are linearly ordered.
pub record LinearOrder {ℓ} (A : Type ℓ) : Type ℓ where
  pub lt : A → A → Bool
  pub eq : A → A → Bool
  pub eq_iff : (a b : A) → (eq a b ≡ true) ↔ (a ≡ b)
  pub lt_irrefl : (a : A) → lt a a ≡ false
  pub lt_trans : (a b c : A) → lt a b ≡ true → lt b c ≡ true → lt a c ≡ true
  pub lt_total : (a b : A) → (lt a b ≡ true) ⊎ ((a ≡ b) ⊎ (lt b a ≡ true))

module _ {ℓ} {A : Type ℓ} (o : LinearOrder A) where
  pub eq_refl : (a : A) → o.eq a a ≡ true
  eq_refl a = (o.eq_iff a a).1 refl

  -- What `b < a` excludes.
  pub of_gt : (a b : A) → o.lt b a ≡ true → (o.lt a b ≡ false) × (o.eq a b ≡ false)
  of_gt a b h = (asym, apart)
    where
      asym : o.lt a b ≡ false
      asym = elim (Bool-cases (o.lt a b)) [
        | inl e ↦ cc (o.lt_trans a b a e h, o.lt_irrefl a)
        | inr e ↦ e
      ]

      apart : o.eq a b ≡ false
      apart = elim (Bool-cases (o.eq a b)) [
        | inl e ↦ cc ((o.eq_iff a b).0 e, h, o.lt_irrefl a)
        | inr e ↦ e
      ]

  -- `a < b` or not: the two ways of the second.
  pub not_lt_cases : (a b : A) → o.lt a b ≡ false → (a ≡ b) ⊎ (o.lt b a ≡ true)
  not_lt_cases a b h = elim (o.lt_total a b) [ inl e ↦ cc (e, h) | inr c ↦ c ]

  pub not_lt_trans : (a b c : A) → o.lt a b ≡ false → o.lt b c ≡ false → o.lt a c ≡ false
  not_lt_trans a b c h k = elim (not_lt_cases a b h) [
    | inl e ↦ cc (e, k)
    | inr g ↦ elim (not_lt_cases b c k) [
      | inl e ↦ cc (e, h)
      | inr g' ↦ (of_gt a c (o.lt_trans c b a g' g)).0
    ]
  ]

module _ {ℓ κ} {A : Type ℓ} {B : Type κ} (o : LinearOrder A) (p : LinearOrder B) where
  -- `a < b || (a == b && c < d)`.
  abbrev pub lex : A → B → A → B → Bool
  lex a c b d = o.lt a b || (o.eq a b && p.lt c d)

  pub lex_irrefl : (a : A) (c : B) → lex a c a c ≡ false
  lex_irrefl a c = ground (arith, o.lt_irrefl a, p.lt_irrefl c)

  pub lex_of_eq : (a : A) (c d : B) → lex a c a d ≡ p.lt c d
  lex_of_eq a c d = ground (arith, o.lt_irrefl a, eq_refl o a)

  pub lex_asym : (a b : A) (c d : B) → lex a c b d ≡ true → lex b d a c ≡ false
  lex_asym a b c d h = elim (o.lt_total a b) [
    | inl e ↦ ground (arith, of_gt o b a e)
    | inr (inr e) ↦ ground (arith, of_gt o a b e)
    | inr (inl e) ↦ ground (arith, o.lt_irrefl a, (o.eq_iff a b).1 e, p.lt_irrefl c, of_gt p d c)
  ]

  -- Neither of two pairs before the other: they are equal.
  pub lex_antisym :
      (a b : A) (c d : B) → lex a c b d ≡ false → lex b d a c ≡ false → (a ≡ b) × (c ≡ d)
  lex_antisym a b c d h k = elim (o.lt_total a b) [
    | inl e ↦ ground arith
    | inr (inr e) ↦ ground arith
    | inr (inl e) ↦ (
      e,
      elim (p.lt_total c d) [
        | inl l ↦ ground (arith, (o.eq_iff a b).1 e)
        | inr (inl q) ↦ q
        | inr (inr l) ↦ ground (arith, (o.eq_iff b a).1 (sym e))
      ],
    )
  ]

  pub not_lex_trans :
      (a b c : A) (x y z : B) → lex a x b y ≡ false → lex b y c z ≡ false → lex a x c z ≡ false
  not_lex_trans a b c x y z h k = elim (o.lt_total a b) [
    | inl e ↦ ground arith
    | inr (inr e) ↦ elim (o.lt_total b c) [
      | inl e' ↦ ground arith
      | inr (inl e') ↦ ground (arith, of_gt o a b e, of_gt o a c (cc (e, e')))
      | inr (inr e') ↦ ground (arith, of_gt o a c (o.lt_trans c b a e' e))
    ]
    | inr (inl e) ↦ elim (o.lt_total b c) [
      | inl e' ↦ ground arith
      | inr (inr e') ↦ ground (arith, of_gt o a c (cc (e, e')))
      | inr (inl e') ↦
          ground
            (arith, o.lt_irrefl a, (o.eq_iff a b).1 e, (o.eq_iff b c).1 e', not_lt_trans p x y z)
    ]
  ]
