-- ===== src/Text/Strtol.antt =====
-- `strtol(text, &end, 10)`, stored in a `size_t`, of a machine whose `long` has 64 bits.
use geo_ns_core.Common.{
  ℕ, zero, suc, ◌+◌, ◌-◌, ◌*◌, ◌/◌, ◌%◌, ◌^◌, ◌<◌, ◌≤◌, ◌≡◌, refl, ◌∙◌, ap, Bool, true, false, ◌&&◌,
  ◌||◌, [], ◌∷◌, ◌++◌, Option, none, some, arith, inl, inr, Bool-cases, leb, ◌==◌, if◌then◌else◌,
}
use native.Mathlib.Decide.{dec_lt}
use geo_ns_core.Text.{Text}
use geo_ns_core.Text.Decimal.{decimal_from, decimal}

-- `isspace` of the C locale.
abbrev pub isspace : ℕ → Bool
isspace c = leb 9 c && leb c 13 || c == 32

unfoldable pub skip_spaces : Text → Text
skip_spaces [] = []
skip_spaces (c ∷ s) = if isspace c then skip_spaces s else c ∷ s

abbrev pub isdigit : ℕ → Bool
isdigit c = leb b'0' c && leb c b'9'

-- The value of the digits in front.
unfoldable pub digits_value : ℕ → Text → ℕ
digits_value v [] = v
digits_value v (c ∷ s) = elim (isdigit c) [ true ↦ digits_value (v * 10 + (c - 48)) s | false ↦ v ]

abbrev pub long_max : ℕ
long_max = 2 ^ 63 - 1

abbrev pub size_mod : ℕ
size_mod = 2 ^ 64

-- Out of range values are cut to the nearest `long`.
abbrev clamp_pos : ℕ → ℕ
clamp_pos v = if leb v long_max then v else long_max

abbrev clamp_neg : ℕ → ℕ
clamp_neg v = (size_mod - (if leb v (2 ^ 63) then v else 2 ^ 63)) % size_mod

-- `none`: no digit, and `end` is the start of the text.
abbrev unsigned : Text → Option ℕ
unsigned [] = none
unsigned (c ∷ s) = if isdigit c then some (digits_value 0 (c ∷ s)) else none

abbrev mapped : (ℕ → ℕ) → Option ℕ → Option ℕ
mapped f none = none
mapped f (some v) = some (f v)

abbrev signed : Text → Option ℕ
signed [] = none
signed (c ∷ s) =
    if c == b'-'
    then mapped clamp_neg (unsigned s)
    else if c == b'+'
    then mapped clamp_pos (unsigned s)
    else mapped clamp_pos (unsigned (c ∷ s))

unfoldable pub strtol : Text → Option ℕ
unfolding skip_spaces digits_value
strtol text = signed (skip_spaces text)

-- A text that does not begin with a digit.
abbrev pub EndsNumber : Text → Type 0
EndsNumber [] = Unit
EndsNumber (c ∷ s) = isdigit c ≡ false

abbrev pub StartsNumber : Text → Type 0
StartsNumber [] = ⊥
StartsNumber (c ∷ s) = isdigit c ≡ true

digits_value_end : (v : ℕ) (rest : Text) → EndsNumber rest → digits_value v rest ≡ v
unfolding digits_value
digits_value_end v [] h = refl
digits_value_end v (c ∷ s) h = ground arith

digits_value_digit :
    (v c : ℕ) (s : Text)
    → isdigit c ≡ true
    → digits_value v (c ∷ s) ≡ digits_value (v * 10 + (c - 48)) s
unfolding digits_value
digits_value_digit v c s h = ground arith

decimal_from_small :
    (fuel n : ℕ) (acc : Text) → n < 10 → decimal_from (suc fuel) n acc ≡ (48 + n) ∷ acc
unfolding decimal_from
decimal_from_small fuel n acc h = ground arith

decimal_from_large :
    (fuel n : ℕ) (acc : Text)
    → 10 ≤ n
    → decimal_from (suc fuel) n acc ≡ decimal_from fuel (n / 10) ((48 + n % 10) ∷ acc)
unfolding decimal_from
decimal_from_large fuel n acc h = ground arith

isdigit_of_digit : (d : ℕ) → d < 10 → isdigit (48 + d) ≡ true
isdigit_of_digit d h = ground arith

digits_value-decimal_from :
    (fuel n : ℕ) (acc : Text)
    → n < fuel
    → digits_value 0 (decimal_from fuel n acc) ≡ digits_value n acc
digits_value-decimal_from zero n acc h = absurd (omega arith)
digits_value-decimal_from (suc fuel) n acc h = elim (dec_lt n 10) [
  | yes small ↦
      rw
        (
          decimal_from_small fuel n acc small,
          digits_value_digit 0 (48 + n) acc (isdigit_of_digit n small),
        )
        (ap (λ v. digits_value v acc) (omega arith))
  | no large ↦
      rw
        (
          decimal_from_large fuel n acc (omega arith),
          digits_value-decimal_from fuel (n / 10) ((48 + n % 10) ∷ acc) (omega arith),
          digits_value_digit (n / 10) (48 + n % 10) acc (isdigit_of_digit (n % 10) (omega arith)),
        )
        (ap (λ v. digits_value v acc) (omega arith))
]

decimal_from-StartsNumber :
    (fuel n : ℕ) (acc : Text) → n < fuel → StartsNumber (decimal_from fuel n acc)
decimal_from-StartsNumber zero n acc h = absurd (omega arith)
decimal_from-StartsNumber (suc fuel) n acc h = elim (dec_lt n 10) [
  | yes small ↦ rw (decimal_from_small fuel n acc small) (isdigit_of_digit n small)
  | no large ↦
      rw (decimal_from_large fuel n acc (omega arith))
        (decimal_from-StartsNumber fuel (n / 10) ((48 + n % 10) ∷ acc) (omega arith))
]

decimal_from-append :
    (fuel n : ℕ) (acc rest : Text)
    → decimal_from fuel n acc ++ rest ≡ decimal_from fuel n (acc ++ rest)
decimal_from-append zero n acc rest = unfold decimal_from in refl
decimal_from-append (suc fuel) n acc rest = elim (dec_lt n 10) [
  | yes small ↦
      rw (decimal_from_small fuel n acc small, decimal_from_small fuel n (acc ++ rest) small)
  | no large ↦
      rw
        (
          decimal_from_large fuel n acc (omega arith),
          decimal_from_large fuel n (acc ++ rest) (omega arith),
        )
        (decimal_from-append fuel (n / 10) ((48 + n % 10) ∷ acc) rest)
]

strtol-StartsNumber :
    (s : Text) → StartsNumber s → digits_value 0 s ≤ long_max → strtol s ≡ some (digits_value 0 s)
unfolding strtol
strtol-StartsNumber [] h b = absurd h
strtol-StartsNumber (c ∷ s) h b = ground arith

skip_spaces_idem : (s : Text) → skip_spaces (skip_spaces s) ≡ skip_spaces s
unfolding skip_spaces
skip_spaces_idem [] = refl
skip_spaces_idem (c ∷ s) = elim (Bool-cases (isspace c)) [
  | inl space ↦ rw space (skip_spaces_idem s)
  | inr other ↦ rw (other, other) refl
]

pub strtol-skip_spaces : (s : Text) → strtol (skip_spaces s) ≡ strtol s
strtol-skip_spaces s = unfold strtol in ap signed (skip_spaces_idem s)

-- `strtol` reads back a printed number that fits a `long`, where no digit follows it.
pub strtol-decimal :
    (n : ℕ) (rest : Text) → n ≤ long_max → EndsNumber rest → strtol (decimal n ++ rest) ≡ some n
unfolding decimal
strtol-decimal n rest h e =
    let s = decimal_from (suc n) n rest in
    let value : digits_value 0 s ≡ n =
      digits_value-decimal_from (suc n) n rest (omega arith) ∙ digits_value_end n rest e in
    rw (decimal_from-append (suc n) n [] rest) (
      strtol-StartsNumber s (decimal_from-StartsNumber (suc n) n rest (omega arith)) (rw value h)
      ∙ ap some value)
