-- ===== src/Text/Tests.antt =====
-- The theorem on printed numbers at one number.
use geo_ns_core.Common.{◌≡◌, refl, arith, [], ◌∷◌, ◌++◌, some}
use geo_ns_core.Text.Decimal.{decimal}
use geo_ns_core.Text.Strtol.{strtol, strtol-decimal}

strtol-decimal_example : strtol (decimal 1024 ++ 13 ∷ []) ≡ some 1024
strtol-decimal_example = strtol-decimal 1024 (13 ∷ []) (omega arith) refl
