-- ===== src/Common/Bytes.antt =====
-- Go strings and byte slices as lists of bytes: literals, equality, order.
use Prim.Native.Nat.{ℕ}
use Prim.Native.Char.{code}
use Prim.Native.String.{String}
use mathlib.Core.Path.{◌≡◌, refl}
use mathlib.Core.Logic.{◌≢◌, ◌↔◌, ◌⊎◌, inl, inr}
use mathlib.Core.Bool.{Bool, true, false, ◌&&◌, ◌||◌}
use mathlib.Core.List.{List, [], ◌∷◌, ◌++◌}
use native.Mathlib.Omega.{arith}
use nyc_taxi_real_time_eta_p.Common.Tests.{ltb, ◌==◌, if◌then◌else◌, Bool-cases}
use nyc_taxi_real_time_eta_p.Common.Order.{LinearOrder}

abbrev pub Bytes : Type 0
Bytes = List ℕ

-- The code points of a literal, its bytes where it is ASCII.
abbrev pub codes : String → Bytes
codes String.[] = []
codes (String.◌∷◌ c s) = code c ∷ codes s

-- Texts one after the other, as a call of `fmt.Fprintf` prints its parts.
abbrev pub concat : List Bytes → Bytes
concat [] = []
concat (s ∷ ss) = s ++ concat ss

-- `s == t` on strings.
unfoldable pub bytes_eq : Bytes → Bytes → Bool
bytes_eq [] [] = true
bytes_eq [] (c ∷ t) = false
bytes_eq (c ∷ s) [] = false
bytes_eq (c ∷ s) (d ∷ t) = c == d && bytes_eq s t

-- `s < t` on strings, which compares byte by byte.
unfoldable pub bytes_lt : Bytes → Bytes → Bool
bytes_lt [] [] = false
bytes_lt [] (c ∷ t) = true
bytes_lt (c ∷ s) [] = false
bytes_lt (c ∷ s) (d ∷ t) = ltb c d || (c == d && bytes_lt s t)

-- The text, or the other one where it is empty.
abbrev pub or_else : Bytes → Bytes → Bytes
or_else [] other = other
or_else (c ∷ s) other = c ∷ s

pub or_else_lem : (s other : Bytes) → (if bytes_eq s [] then other else s) ≡ or_else s other
unfolding bytes_eq
or_else_lem [] other = refl
or_else_lem (c ∷ s) other = refl

pub bytes_eq_sound : (s t : Bytes) → bytes_eq s t ≡ true → s ≡ t
unfolding bytes_eq
bytes_eq_sound [] [] h = refl
bytes_eq_sound [] (c ∷ t) h = cc
bytes_eq_sound (c ∷ s) [] h = cc
bytes_eq_sound (c ∷ s) (d ∷ t) h = ground (arith, bytes_eq_sound s t)

pub bytes_eq_refl : (s : Bytes) → bytes_eq s s ≡ true
unfolding bytes_eq
bytes_eq_refl [] = refl
bytes_eq_refl (c ∷ s) = ground (arith, bytes_eq_refl s)

pub bytes_eq_iff : (s t : Bytes) → (bytes_eq s t ≡ true) ↔ (s ≡ t)
bytes_eq_iff s t = (bytes_eq_sound s t, λ e. cc (e, bytes_eq_refl s))

pub bytes_eq-false : (s t : Bytes) → s ≢ t → bytes_eq s t ≡ false
bytes_eq-false s t h = elim (Bool-cases (bytes_eq s t)) [
  | inl e ↦ absurd (h (bytes_eq_sound s t e))
  | inr e ↦ e
]

pub bytes_lt_irrefl : (s : Bytes) → bytes_lt s s ≡ false
unfolding bytes_lt
bytes_lt_irrefl [] = refl
bytes_lt_irrefl (c ∷ s) = ground (arith, bytes_lt_irrefl s)

pub bytes_lt_trans :
    (s t u : Bytes) → bytes_lt s t ≡ true → bytes_lt t u ≡ true → bytes_lt s u ≡ true
unfolding bytes_lt
bytes_lt_trans [] [] u h k = cc
bytes_lt_trans [] (d ∷ t) [] h k = cc
bytes_lt_trans [] (d ∷ t) (e ∷ u) h k = refl
bytes_lt_trans (c ∷ s) [] u h k = cc
bytes_lt_trans (c ∷ s) (d ∷ t) [] h k = cc
bytes_lt_trans (c ∷ s) (d ∷ t) (e ∷ u) h k = ground (arith, bytes_lt_trans s t u)

pub bytes_lt_total : (s t : Bytes) → (bytes_lt s t ≡ true) ⊎ ((s ≡ t) ⊎ (bytes_lt t s ≡ true))
unfolding bytes_lt
bytes_lt_total [] [] = inr (inl refl)
bytes_lt_total [] (d ∷ t) = inl refl
bytes_lt_total (c ∷ s) [] = inr (inr refl)
bytes_lt_total (c ∷ s) (d ∷ t) = ground (arith, bytes_lt_total s t)

abbrev pub bytes_order : LinearOrder Bytes
bytes_order = record {
  lt = bytes_lt;
  eq = bytes_eq;
  eq_iff = bytes_eq_iff;
  lt_irrefl = bytes_lt_irrefl;
  lt_trans = bytes_lt_trans;
  lt_total = bytes_lt_total;
}
