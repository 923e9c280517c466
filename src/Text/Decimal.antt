-- ===== src/Text/Decimal.antt =====
-- Decimal numbers: what `%d` and `%zu` print.
use geo_ns_core.Common.{
  ℕ, zero, suc, ◌+◌, ◌/◌, ◌%◌, ◌<◌, ◌≤◌, ◌≡◌, [], ◌∷◌, arith, length, ltb, if◌then◌else◌,
}
use geo_ns_core.Text.{Text}

-- The digits of `n` in front of `acc`; fuel above `n` is enough, since each round divides by ten.
unfoldable pub decimal_from : ℕ → ℕ → Text → Text
decimal_from zero n acc = acc
decimal_from (suc fuel) n acc =
    let rest = decimal_from fuel (n / 10) ((48 + n % 10) ∷ acc) in
    if ltb n 10 then (48 + n) ∷ acc else rest

unfoldable pub decimal : ℕ → Text
unfolding decimal_from
decimal n = decimal_from (suc n) n []

decimal_three :
    (fuel n : ℕ) → 100 ≤ n → n < 1000 → length (decimal_from (suc (suc (suc fuel))) n []) ≡ 3
unfolding decimal_from
decimal_three fuel n h k = ground arith

-- A status code prints to three bytes.
pub length-decimal_three : (n : ℕ) → 100 ≤ n → n < 1000 → length (decimal n) ≡ 3
unfolding decimal
length-decimal_three zero h k = absurd (omega arith)
length-decimal_three (suc zero) h k = absurd (omega arith)
length-decimal_three (suc (suc n)) h k = decimal_three n (suc (suc n)) h k
