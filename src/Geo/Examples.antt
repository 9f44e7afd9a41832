-- ===== src/Geo/Examples.antt =====
-- backend/pkg/geo/geo.go over whole numbers in place of float64.
use Prim.Native.Nat.{ℕ, zero, suc, ◌+◌, ◌-◌, ◌*◌, ◌/◌}
use nyc_taxi_real_time_eta_p.Common.{
  ◌≡◌, refl, arith, ltb, leb, ◌==◌, ==_iff, if◌then◌else◌, ◌⊎◌, true, false,
}
use nyc_taxi_real_time_eta_p.Common.Order.{LinearOrder}
use nyc_taxi_real_time_eta_p.Geo.{Float, SignLaws}

pub ltb_irrefl : (a : ℕ) → ltb a a ≡ false
ltb_irrefl a = ground arith

pub ltb_trans : (a b c : ℕ) → ltb a b ≡ true → ltb b c ≡ true → ltb a c ≡ true
ltb_trans a b c h k = ground arith

pub ltb_total : (a b : ℕ) → (ltb a b ≡ true) ⊎ ((a ≡ b) ⊎ (ltb b a ≡ true))
ltb_total a b = ground arith

abbrev pub whole_order : LinearOrder ℕ
whole_order = record {
  lt = ltb;
  eq = λ a b. a == b;
  eq_iff = ==_iff;
  lt_irrefl = ltb_irrefl;
  lt_trans = ltb_trans;
  lt_total = ltb_total;
}

-- Whole numbers, with the distance of two as their difference and angles as their own sines.
abbrev pub whole : Float
whole = record {
  F = ℕ;
  order = whole_order;
  num = λ n. n;
  pi = 3;
  add = λ a b. a + b;
  sub = λ a b. if leb a b then b - a else a - b;
  mul = λ a b. a * b;
  div = λ a b. a / b;
  sin = λ a. a;
  cos = λ a. 1;
  asin = λ a. a;
  sqrt = λ a. a;
}

zero_div : (x : ℕ) → 0 / x ≡ 0
zero_div zero = refl
zero_div (suc x) = omega arith

gap_swap : (x y : ℕ) → whole.sub y x ≡ whole.sub x y
gap_swap x y = ground arith

gap_self : (x : ℕ) → whole.sub x x ≡ 0
gap_self x = ground arith

abbrev whole_laws : SignLaws whole
whole_laws = record {
  neg = λ a. a;
  sub_swap = gap_swap;
  sub_self = gap_self;
  div_neg = λ x y. refl;
  sin_neg = λ x. refl;
  mul_neg_left = λ x y. refl;
  mul_neg_right = λ x y. refl;
  neg_neg = λ x. refl;
  mul_comm = λ x y. omega arith;
  zero_div = zero_div;
  sin_zero = refl;
  mul_zero = λ x. omega arith;
  add_zero = refl;
  sqrt_zero = refl;
  asin_zero = refl;
}
