-- ===== src/Common/Bits.antt =====
-- The bit operations on bytes that the frame codec uses.
use Prim.Native.Nat.{ℕ, zero, suc, ◌+◌, ◌*◌, ◌/◌, ◌%◌, ◌<◌, bit_and, bit_or, bit_xor}
use mathlib.Core.Path.{◌≡◌, refl}
use mathlib.Core.Bool.{Bool, true, ◌&&◌}
use native.Mathlib.Omega.{arith}
use nyc_taxi_real_time_eta_p.Common.Tests.{◌==◌, ==_iff}

-- Whether a test holds of every number under a bound.
holds_under : (ℕ → Bool) → ℕ → Bool
holds_under test zero = true
holds_under test (suc bound) = holds_under test bound && test bound

holds_at :
    (test : ℕ → Bool) (bound k : ℕ) → k < bound → holds_under test bound ≡ true → test k ≡ true
unfolding holds_under
holds_at test zero k below all = absurd (omega arith)
holds_at test (suc bound) k below all = ground (arith, holds_at test bound k)

low_four_table : holds_under (λ x. bit_and x 0x0f == x % 16) 256 ≡ true
unfolding holds_under
low_four_table = refl

-- `b & 0x0F` of a byte.
pub low_four : (x : ℕ) → x < 256 → bit_and x 0x0f ≡ x % 16
low_four x h = (==_iff _ _).0 (holds_at _ 256 x h low_four_table)

low_seven_table : holds_under (λ x. bit_and x 0x7f == x % 128) 256 ≡ true
unfolding holds_under
low_seven_table = refl

pub low_seven : (x : ℕ) → x < 256 → bit_and x 0x7f ≡ x % 128
low_seven x h = (==_iff _ _).0 (holds_at _ 256 x h low_seven_table)

top_bit_table : holds_under (λ x. bit_and x 0x80 == x / 128 * 128) 256 ≡ true
unfolding holds_under
top_bit_table = refl

pub top_bit : (x : ℕ) → x < 256 → bit_and x 0x80 ≡ x / 128 * 128
top_bit x h = (==_iff _ _).0 (holds_at _ 256 x h top_bit_table)

set_top_table : holds_under (λ x. bit_or 0x80 x == 128 + x) 128 ≡ true
unfolding holds_under
set_top_table = refl

pub set_top : (x : ℕ) → x < 128 → bit_or 0x80 x ≡ 128 + x
set_top x h = (==_iff _ _).0 (holds_at _ 128 x h set_top_table)

xor_table : holds_under (λ k. holds_under (λ x. bit_xor (bit_xor x k) k == x) 256) 256 ≡ true
unfolding holds_under
xor_table = refl

-- Masking a byte twice with the same key gives it back.
pub xor_twice : (x k : ℕ) → x < 256 → k < 256 → bit_xor (bit_xor x k) k ≡ x
xor_twice x k hx hk = (==_iff _ _).0 (holds_at _ 256 x hx (holds_at _ 256 k hk xor_table))

xor_range_table : holds_under (λ k. holds_under (λ x. bit_xor x k / 256 == 0) 256) 256 ≡ true
unfolding holds_under
xor_range_table = refl

pub xor_range : (x k : ℕ) → x < 256 → k < 256 → bit_xor x k < 256
xor_range x k hx hk =
    let q = (==_iff _ _).0 (holds_at _ 256 x hx (holds_at _ 256 k hk xor_range_table)) in
    omega (arith, q)

version_table : holds_under (λ x. bit_or (bit_and x 0x0f) 0x40 == 64 + x % 16) 256 ≡ true
unfolding holds_under
version_table = refl

-- `(b & 0x0F) | 0x40` and `(b & 0x3F) | 0x80` of a byte.
pub version_bits : (x : ℕ) → x < 256 → bit_or (bit_and x 0x0f) 0x40 ≡ 64 + x % 16
version_bits x h = (==_iff _ _).0 (holds_at _ 256 x h version_table)

variant_table : holds_under (λ x. bit_or (bit_and x 0x3f) 0x80 == 128 + x % 64) 256 ≡ true
unfolding holds_under
variant_table = refl

pub variant_bits : (x : ℕ) → x < 256 → bit_or (bit_and x 0x3f) 0x80 ≡ 128 + x % 64
variant_bits x h = (==_iff _ _).0 (holds_at _ 256 x h variant_table)
