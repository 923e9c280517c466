-- ===== src/Text/Laws.antt =====
-- What the comparisons of strings decide.
use geo_ns_core.Common.{ℕ, zero, suc, ◌≡◌, refl, ◌↔◌, true, [], ◌∷◌, ◌++◌, arith, length, take}
use geo_ns_core.Text.{Text, str_eq, strn_eq}

pub str_eq_iff : (a b : Text) → (str_eq a b ≡ true) ↔ (a ≡ b)
unfolding str_eq
str_eq_iff [] [] = ground arith
str_eq_iff [] (y ∷ ys) = ground arith
str_eq_iff (x ∷ xs) [] = ground arith
str_eq_iff (x ∷ xs) (y ∷ ys) = ground (arith, str_eq_iff xs ys)

-- `strncmp` with a bound compares the strings cut to it.
pub strn_eq_iff : (n : ℕ) (a b : Text) → (strn_eq n a b ≡ true) ↔ (take n a ≡ take n b)
unfolding strn_eq
strn_eq_iff zero a b = ground arith
strn_eq_iff (suc n) [] [] = ground arith
strn_eq_iff (suc n) [] (y ∷ ys) = ground arith
strn_eq_iff (suc n) (x ∷ xs) [] = ground arith
strn_eq_iff (suc n) (x ∷ xs) (y ∷ ys) = ground (arith, strn_eq_iff n xs ys)

-- `strncmp` over the length of the second string looks for a prefix.
pub strn_eq-append : (name rest : Text) → strn_eq (length name) (name ++ rest) name ≡ true
unfolding strn_eq
strn_eq-append [] rest = refl
strn_eq-append (d ∷ name) rest = ground (arith, strn_eq-append name rest)

pub prefix_of_strn_eq :
    (s name : Text) → strn_eq (length name) s name ≡ true → (rest : Text) × (s ≡ name ++ rest)
unfolding strn_eq
prefix_of_strn_eq s [] e = (s, refl)
prefix_of_strn_eq [] (d ∷ name) e = cc
prefix_of_strn_eq (c ∷ s) (d ∷ name) e =
    let (rest, p) = prefix_of_strn_eq s name (ground arith) in (rest, ground arith)
