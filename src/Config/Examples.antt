-- ===== src/Config/Examples.antt =====
-- backend/internal/config/config.go in an environment of one variable.
use nyc_taxi_real_time_eta_p.Common.{◌≡◌, refl, true, [], some, arith, if◌then◌else◌}
use nyc_taxi_real_time_eta_p.Common.Bytes.{Bytes, codes, bytes_eq}
use nyc_taxi_real_time_eta_p.Common.Int.{pos, negsuc}
use nyc_taxi_real_time_eta_p.Redis.Decimal.{atoi, format_decimal}
use nyc_taxi_real_time_eta_p.Config.{
  Env, get_env_int, load, window, drivers, setting, parse_bool, load-format_int,
}

abbrev only : Bytes → Bytes → Env
only key value k = if bytes_eq k key then value else []

word_is_no_number : (load (only (codes "QUEUE_SIZE") (codes "many"))).queue_size ≡ pos 100
unfolding load get_env_int bytes_eq atoi
word_is_no_number = refl

capital_true : parse_bool (codes "True") ≡ some true
unfolding parse_bool bytes_eq
capital_true = refl

-- A window of 0 seconds, by which the rate limiter divides.
window_of_zero :
    setting window (load (only (codes "RATE_LIMIT_WINDOW_SECONDS") (codes "0"))) ≡ pos 0
unfolding bytes_eq format_decimal
window_of_zero =
    load-format_int (only (codes "RATE_LIMIT_WINDOW_SECONDS") (codes "0")) window (pos 0)
      (omega arith, omega arith) refl

-- A negative number of drivers, for which `seedDrivers` makes a slice.
load-format_int_example :
    setting drivers (load (only (codes "DRIVER_COUNT") (codes "-5"))) ≡ negsuc 4
unfolding bytes_eq format_decimal
load-format_int_example =
    load-format_int (only (codes "DRIVER_COUNT") (codes "-5")) drivers (negsuc 4)
      (omega arith, omega arith) refl
