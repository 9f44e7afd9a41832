-- ===== src/Redis/Decimal.antt =====
-- `%d` and `strconv.Atoi` as backend/internal/cache/redis_client.go uses them.
use nyc_taxi_real_time_eta_p.Common.{
  ℕ, zero, suc, ◌+◌, ◌-◌, ◌*◌, ◌/◌, ◌%◌, ◌^◌, ◌<◌, ◌≡◌, refl, ap, ◌∙◌, Bool, true, false, ◌&&◌, [],
  ◌∷◌, ◌++◌, Option, none, some, arith, ltb, leb, ◌==◌, if◌then◌else◌, inl, inr, ◌≢◌, Bool-cases,
  All, All-append,
}
use nyc_taxi_real_time_eta_p.Common.Bytes.{Bytes}
use nyc_taxi_real_time_eta_p.Common.Int.{ℤ, pos, negsuc, IsInt}

unfoldable pub decimal_digits : ℕ → ℕ → Bytes
decimal_digits zero n = []
decimal_digits (suc fuel) n =
    let high = decimal_digits fuel (n / 10) in
    if ltb n 10 then (48 + n) ∷ [] else high ++ ((48 + n % 10) ∷ [])

-- `%d` of a length. A number has no more digits than its own value, plus one.
unfoldable pub format_decimal : ℕ → Bytes
unfolding decimal_digits
format_decimal n = decimal_digits (n + 1) n

abbrev pub is_digit : ℕ → Bool
is_digit c = leb 48 c && leb c 57

-- The value of the digits behind the value `acc`.
unfoldable pub digits_value : ℕ → Bytes → Option ℕ
digits_value acc [] = some acc
digits_value acc (c ∷ s) =
    let rest = digits_value (acc * 10 + (c - 48)) s in if is_digit c then rest else none

unfoldable pub atoi_digits : Bool → Bytes → Option ℤ
unfolding digits_value
atoi_digits negative [] = none
atoi_digits negative (c ∷ s) = elim (digits_value 0 (c ∷ s)) [
  | none ↦ none
  | some v ↦
      if negative
      then if leb v (2 ^ 63) then some (if v == 0 then pos 0 else negsuc (v - 1)) else none
      else if ltb v (2 ^ 63)
      then some (pos v)
      else none
]

unfoldable pub atoi : Bytes → Option ℤ
unfolding atoi_digits
atoi [] = none
atoi (c ∷ s) =
    if c == 43
    then atoi_digits false s
    else if c == 45
    then atoi_digits true s
    else atoi_digits false (c ∷ s)

digits_value-concat :
    (s : Bytes) (acc v d : ℕ)
    → digits_value acc s ≡ some v
    → d < 10
    → digits_value acc (s ++ ((48 + d) ∷ [])) ≡ some (v * 10 + d)
unfolding digits_value
digits_value-concat [] acc v d h small = ground arith
digits_value-concat (c ∷ s) acc v d h small =
    ground (arith, digits_value-concat s (acc * 10 + (c - 48)) v d)

digits_value-decimal : (fuel n : ℕ) → n < fuel → digits_value 0 (decimal_digits fuel n) ≡ some n
unfolding digits_value decimal_digits
digits_value-decimal zero n h = absurd (omega arith)
digits_value-decimal (suc fuel) n h = elim (Bool-cases (ltb n 10)) [
  | inl e ↦ rw (e, decimal_digits) (ground arith)
  | inr e ↦
      rw (e, decimal_digits)
        (digits_value-concat (decimal_digits fuel (n / 10)) 0 (n / 10) (n % 10)
            (digits_value-decimal fuel (n / 10) (ground arith)) (omega arith)
          ∙ ap some (omega arith))
]

-- Digits only, and one at least: no sign, and no line end.
abbrev pub IsDecimal : Bytes → Type 0
IsDecimal s = All (λ c. is_digit c ≡ true) s × (s ≢ [])

decimal-digits : (fuel n : ℕ) → All (λ c. is_digit c ≡ true) (decimal_digits fuel n)
unfolding decimal_digits
decimal-digits zero n = tt
decimal-digits (suc fuel) n = elim (Bool-cases (ltb n 10)) [
  | inl e ↦ rw (e, decimal_digits) (ground arith, tt)
  | inr e ↦
      rw (e, decimal_digits)
        (All-append (λ c. is_digit c ≡ true) (decimal_digits fuel (n / 10)) ((48 + n % 10) ∷ [])
          (decimal-digits fuel (n / 10)) (ground arith, tt))
]

append-ne_nil : (s : Bytes) (c : ℕ) → s ++ (c ∷ []) ≢ []
append-ne_nil [] c e = cc
append-ne_nil (x ∷ s) c e = cc

decimal-ne_nil : (fuel n : ℕ) → decimal_digits (suc fuel) n ≢ []
unfolding decimal_digits
decimal-ne_nil fuel n = elim (Bool-cases (ltb n 10)) [
  | inl e ↦ rw (e, decimal_digits) (append-ne_nil [] (48 + n))
  | inr e ↦ rw (e, decimal_digits) (append-ne_nil (decimal_digits fuel (n / 10)) (48 + n % 10))
]

pub format_decimal-IsDecimal : (n : ℕ) → IsDecimal (format_decimal n)
unfolding format_decimal
format_decimal-IsDecimal n = (decimal-digits (n + 1) n, rw (suc_of n) (decimal-ne_nil n n))
  where
    suc_of : (n : ℕ) → n + 1 ≡ suc n
    suc_of n = omega arith

atoi-digits :
    (s : Bytes) (v : ℕ)
    → IsDecimal s
    → digits_value 0 s ≡ some v
    → v < 2 ^ 63
    → atoi s ≡ some (pos v)
unfolding atoi atoi_digits
atoi-digits [] v (d, n) e h = absurd (n refl)
atoi-digits (c ∷ s) v (d, n) e h = ground (arith, d.0)

atoi-minus :
    (s : Bytes) (k : ℕ)
    → s ≢ []
    → digits_value 0 s ≡ some (k + 1)
    → k < 2 ^ 63
    → atoi (45 ∷ s) ≡ some (negsuc k)
unfolding atoi atoi_digits
atoi-minus [] k n e h = absurd (n refl)
atoi-minus (c ∷ s) k n e h = ground arith

-- `%d` of an `int`: below 0 the minus sign and the digits of the magnitude.
abbrev pub format_int : ℤ → Bytes
format_int (pos n) = format_decimal n
format_int (negsuc k) = 45 ∷ format_decimal (k + 1)

-- A printed length is read back, as long as it fits an `int`.
pub atoi-format_decimal : (n : ℕ) → n < 2 ^ 63 → atoi (format_decimal n) ≡ some (pos n)
unfolding format_decimal
atoi-format_decimal n h =
    atoi-digits (format_decimal n) n (format_decimal-IsDecimal n)
      (digits_value-decimal (n + 1) n (omega arith)) h

-- A printed `int` is read back.
pub atoi-format_int : (z : ℤ) → IsInt z → atoi (format_int z) ≡ some z
unfolding format_decimal
atoi-format_int (pos n) h = atoi-format_decimal n h.0
atoi-format_int (negsuc k) h =
    atoi-minus (format_decimal (k + 1)) k (format_decimal-IsDecimal (k + 1)).1
      (digits_value-decimal (k + 1 + 1) (k + 1) (omega arith)) (omega (arith, h.1))
