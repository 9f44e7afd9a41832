-- ===== src/Identifiers.antt =====
-- backend/pkg/idgen/idgen.go. What `crypto/rand` reads is an argument, none on its error.
pub mod Stamping
mod Examples
use Prim.Native.Nat.add
use Prim.Native.Nat.{bit_and, bit_or}
use nyc_taxi_real_time_eta_p.Common.{
  ℕ, zero, suc, ◌+◌, ◌-◌, ◌*◌, ◌/◌, ◌%◌, ◌≤◌, ◌<◌, ◌≡◌, refl, ap, ◌∙◌, Bool, true, List, [], ◌∷◌,
  ◌++◌, Option, none, some, ltb, leb, ◌==◌, ◌&&◌, if◌then◌else◌, length, take, drop, get_elem?, set,
  arith, All, append-nil, length-drop, take-drop, Option-cases, inl, inr,
}
use mathlib.Core.Option
use nyc_taxi_real_time_eta_p.Common.Bits.{version_bits, variant_bits}
use nyc_taxi_real_time_eta_p.Common.Bytes.{Bytes, codes, concat}

-- `panics` is the panic where the random bytes cannot be read.
pub data Outcome : Type 0 where
  id : Bytes → Outcome
  panics : Outcome

unfoldable pub hex_digit : ℕ → ℕ
hex_digit n = if ltb n 10 then 48 + n else 87 + n

-- `%x` of a byte slice.
unfoldable pub hex : Bytes → Bytes
unfolding hex_digit
hex [] = []
hex (b ∷ bs) = hex_digit (b / 16) ∷ hex_digit (b % 16) ∷ hex bs

-- `b[i] = f(b[i])`; `i` is in range.
unfoldable pub change : ℕ → (ℕ → ℕ) → Bytes → Bytes
change i f [] = []
change zero f (x ∷ b) = f x ∷ b
change (suc i) f (x ∷ b) = x ∷ change i f b

-- The version and the variant of RFC 4122.
unfoldable pub stamp : Bytes → Bytes
unfolding change
stamp b =
    change 8 (λ x. bit_or (bit_and x 0x3f) 0x80) (change 6 (λ x. bit_or (bit_and x 0x0f) 0x40) b)

unfoldable pub id_text : Bytes → Bytes
unfolding hex
id_text b = concat (
    hex (take 4 b)
    ∷ codes "-"
    ∷ hex (take 2 (drop 4 b))
    ∷ codes "-"
    ∷ hex (take 2 (drop 6 b))
    ∷ codes "-"
    ∷ hex (take 2 (drop 8 b))
    ∷ codes "-"
    ∷ hex (take 6 (drop 10 b))
    ∷ [])

unfoldable pub new_id : Option Bytes → Outcome
unfolding id_text stamp
new_id none = panics
new_id (some b) = id (id_text (stamp b))
