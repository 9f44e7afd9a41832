-- ===== src/Identifiers/Stamping.antt =====
-- What the texts of backend/pkg/idgen/idgen.go tell of the random bytes.
use Prim.Native.Nat.add
use Prim.Native.Nat.{bit_and, bit_or}
use nyc_taxi_real_time_eta_p.Common.{
  ℕ, zero, suc, ◌+◌, ◌-◌, ◌*◌, ◌/◌, ◌%◌, ◌<◌, ◌≡◌, refl, ap, ◌∙◌, [], ◌∷◌, ◌++◌, some, ltb, ◌==◌,
  if◌then◌else◌, length, take, drop, get_elem?, arith, All, append-nil, length-drop, take-drop,
}
use mathlib.Core.Option
use nyc_taxi_real_time_eta_p.Common.Bits.{version_bits, variant_bits}
use nyc_taxi_real_time_eta_p.Common.Bytes.{Bytes}
use nyc_taxi_real_time_eta_p.Identifiers.{id, hex_digit, hex, change, stamp, id_text, new_id}

abbrev pub IsBytes : Bytes → Type 0
IsBytes b = All (λ x. x < 256) b

-- The bytes that the digits of an ID stand for, its dashes left out.
unfoldable pub strip : Bytes → Bytes
strip [] = []
strip (c ∷ s) = if c == 45 then strip s else c ∷ strip s

abbrev digit_value : ℕ → ℕ
digit_value c = if ltb c 58 then c - 48 else c - 87

unfoldable pub unhex : Bytes → Bytes
unhex [] = []
unhex (c ∷ []) = []
unhex (c ∷ d ∷ s) = (digit_value c * 16 + digit_value d) ∷ unhex s

strip-append : (s t : Bytes) → strip (s ++ t) ≡ strip s ++ strip t
unfolding strip
strip-append [] t = refl
strip-append (c ∷ s) t = ground (arith, strip-append s t)

dash : (s : Bytes) → strip (45 ∷ s) ≡ strip s
unfolding strip
dash s = refl

strip-hex : (b : Bytes) → IsBytes b → strip (hex b) ≡ hex b
unfolding strip hex
strip-hex [] h = refl
strip-hex (x ∷ b) h = ground (arith, strip-hex b h.1, h.0)

hex-append : (b c : Bytes) → hex (b ++ c) ≡ hex b ++ hex c
unfolding hex
hex-append [] c = refl
hex-append (x ∷ b) c = ap (λ r. hex_digit (x / 16) ∷ hex_digit (x % 16) ∷ r) (hex-append b c)

unhex-hex : (b : Bytes) → IsBytes b → unhex (hex b) ≡ b
unfolding unhex hex
unhex-hex [] h = refl
unhex-hex (x ∷ b) h = cc (byte x h.0, unhex-hex b h.1)
  where
    byte :
        (x : ℕ)
        → x < 256
        → digit_value (hex_digit (x / 16)) * 16 + digit_value (hex_digit (x % 16)) ≡ x
    byte x h = ground arith

length-hex : (b : Bytes) → length (hex b) ≡ 2 * length b
unfolding hex
length-hex [] = omega arith
length-hex (x ∷ b) = omega (arith, length-hex b)

All-take : (n : ℕ) (b : Bytes) → IsBytes b → IsBytes (take n b)
All-take zero b h = tt
All-take (suc n) [] h = tt
All-take (suc n) (x ∷ b) h = (h.0, All-take n b h.1)

All-drop : (n : ℕ) (b : Bytes) → IsBytes b → IsBytes (drop n b)
All-drop zero b h = h
All-drop (suc n) [] h = tt
All-drop (suc n) (x ∷ b) h = All-drop n b h.1

take-nil : (n : ℕ) → take {A = ℕ} n [] ≡ []
take-nil zero = refl
take-nil (suc n) = refl

take_then : (n m : ℕ) (b : Bytes) → take m (drop n b) ++ drop (n + m) b ≡ drop n b
take_then zero m b = rw (add.zero m) (take-drop m b)
take_then (suc n) m [] = rw (add.suc n m, take-nil m) refl
take_then (suc n) m (x ∷ b) = rw (add.suc n m) (take_then n m b)

take_whole : (n : ℕ) (b : Bytes) → length b ≡ n → take n b ≡ b
take_whole zero [] h = refl
take_whole zero (x ∷ b) h = absurd (omega (arith, h))
take_whole (suc n) [] h = refl
take_whole (suc n) (x ∷ b) h = ap (λ r. x ∷ r) (take_whole n b (omega (arith, h)))

-- The five groups of an ID are its bytes in their order.
groups :
    (b : Bytes)
    → length b ≡ 16
    → take 4 b
        ++ (take 2 (drop 4 b) ++ (take 2 (drop 6 b) ++ (take 2 (drop 8 b) ++ take 6 (drop 10 b))))
      ≡ b
groups b h =
    rw
      (
        take_whole 6 (drop 10 b) (omega (arith, h, length-drop 10 b)),
        take_then 8 2 b,
        take_then 6 2 b,
        take_then 4 2 b,
      )
      (take-drop 4 b)

strip-id_text : (b : Bytes) → length b ≡ 16 → IsBytes b → strip (id_text b) ≡ hex b
unfolding id_text
strip-id_text b h good =
    let part =
      λ (n m : ℕ). strip-hex (take m (drop n b)) (All-take m (drop n b) (All-drop n b good)) in
    simp (strip-append, dash, part 0 4, part 4 2, part 6 2, part 8 2, part 10 6, append-nil)
      (simp hex-append at (ap hex (groups b h)))

length-change : (i : ℕ) (f : ℕ → ℕ) (b : Bytes) → length (change i f b) ≡ length b
unfolding change
length-change i f [] = refl
length-change zero f (x ∷ b) = refl
length-change (suc i) f (x ∷ b) = ap suc (length-change i f b)

change-IsBytes :
    (i : ℕ) (f : ℕ → ℕ) (b : Bytes)
    → ((x : ℕ) → x < 256 → f x < 256)
    → IsBytes b
    → IsBytes (change i f b)
unfolding change
change-IsBytes i f [] k good = tt
change-IsBytes zero f (x ∷ b) k good = (k x good.0, good.1)
change-IsBytes (suc i) f (x ∷ b) k good = (good.0, change-IsBytes i f b k good.1)

-- The byte at `i` is changed, and no other.
change-get :
    (i j : ℕ) (f : ℕ → ℕ) (b : Bytes)
    → get_elem? (change i f b) j ≡ (if i == j then Option.map f (get_elem? b j) else get_elem? b j)
unfolding change
change-get i j f [] = ground arith
change-get zero zero f (x ∷ b) = refl
change-get zero (suc j) f (x ∷ b) = ground arith
change-get (suc i) zero f (x ∷ b) = ground arith
change-get (suc i) (suc j) f (x ∷ b) = ground (arith, change-get i j f b)

version : (x : ℕ) → x < 256 → bit_or (bit_and x 0x0f) 0x40 < 256
version x h = omega (arith, version_bits x h)

variant : (x : ℕ) → x < 256 → bit_or (bit_and x 0x3f) 0x80 < 256
variant x h = omega (arith, variant_bits x h)

stamp_good : (b : Bytes) → IsBytes b → IsBytes (stamp b) × (length (stamp b) ≡ length b)
unfolding stamp
stamp_good b good = (
  change-IsBytes 8 _ _ variant (change-IsBytes 6 _ b version good),
  length-change 8 _ _ ∙ length-change 6 _ b,
)

-- The 16 random bytes with the version 4 and the variant of RFC 4122 in place of six of their bits.
abbrev pub IsStamped : Bytes → Bytes → Type 0
IsStamped b c =
    (length c ≡ length b)
    × ((i : ℕ)
        → get_elem? c i ≡ (
            if i == 6
            then Option.map (λ x. 64 + x % 16) (get_elem? b 6)
            else if i == 8
            then Option.map (λ x. 128 + x % 64) (get_elem? b 8)
            else get_elem? b i))

map_at :
    (i : ℕ) (f g : ℕ → ℕ) (b : Bytes)
    → ((x : ℕ) → x < 256 → f x ≡ g x)
    → IsBytes b
    → Option.map f (get_elem? b i) ≡ Option.map g (get_elem? b i)
map_at i f g [] k good = refl
map_at zero f g (x ∷ b) k good = ap some (k x good.0)
map_at (suc i) f g (x ∷ b) k good = map_at i f g b k good.1

stamp-IsStamped : (b : Bytes) → IsBytes b → IsStamped b (stamp b)
unfolding stamp
stamp-IsStamped b good = (
  (stamp_good b good).1,
  λ i. ground (
    arith,
    change-get 8 i (λ x. bit_or (bit_and x 0x3f) 0x80)
        (change 6 (λ x. bit_or (bit_and x 0x0f) 0x40) b),
    change-get 6 i (λ x. bit_or (bit_and x 0x0f) 0x40) b,
    map_at 6 (λ x. bit_or (bit_and x 0x0f) 0x40) (λ x. 64 + x % 16) b version_bits good,
    map_at 8 (λ x. bit_or (bit_and x 0x3f) 0x80) (λ x. 128 + x % 64) b variant_bits good,
  ),
)

-- `NewID` of 16 random bytes returns a text whose digits, read back without the dashes, are those bytes
-- with the version and the variant in their places: all the other 122 bits can be told from the ID.
pub new_id-IsStamped :
    (b : Bytes)
    → length b ≡ 16
    → IsBytes b
    → (text : Bytes) × (new_id (some b) ≡ id text) × IsStamped b (unhex (strip text))
unfolding new_id
new_id-IsStamped b h good =
    let (bytes, same) = stamp_good b good in
    (
      id_text (stamp b),
      refl,
      rw (strip-id_text (stamp b) (same ∙ h) bytes, unhex-hex (stamp b) bytes)
          (stamp-IsStamped b good),
    )
