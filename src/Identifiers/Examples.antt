-- ===== src/Identifiers/Examples.antt =====
-- backend/pkg/idgen/idgen.go on one text.
use nyc_taxi_real_time_eta_p.Common.{◌≡◌, refl, [], ◌∷◌, some, arith}
use nyc_taxi_real_time_eta_p.Common.Bytes.{Bytes, codes}
use nyc_taxi_real_time_eta_p.Identifiers.{id, hex, id_text, new_id}
use nyc_taxi_real_time_eta_p.Identifiers.Stamping.{IsStamped, unhex, strip, new_id-IsStamped}

abbrev random : Bytes
random = 1 ∷ 2 ∷ 3 ∷ 4 ∷ 5 ∷ 6 ∷ 255 ∷ 8 ∷ 255 ∷ 10 ∷ 11 ∷ 12 ∷ 13 ∷ 14 ∷ 15 ∷ 16 ∷ []

text_of_bytes : id_text random ≡ codes "01020304-0506-ff08-ff0a-0b0c0d0e0f10"
unfolding id_text hex
text_of_bytes = refl

new_id-IsStamped_example :
    (text : Bytes) × (new_id (some random) ≡ id text) × IsStamped random (unhex (strip text))
new_id-IsStamped_example = new_id-IsStamped random refl (
  omega arith,
  (
    omega arith,
    (
      omega arith,
      (
        omega arith,
        (
          omega arith,
          (
            omega arith,
            (
              omega arith,
              (
                omega arith,
                (
                  omega arith,
                  (
                    omega arith,
                    (
                      omega arith,
                      (omega arith, (omega arith, (omega arith, (omega arith, (omega arith, tt))))),
                    ),
                  ),
                ),
              ),
            ),
          ),
        ),
      ),
    ),
  ),
)
