-- ===== src/Text/Find.antt =====
-- What `strstr` finds: the needle stands at the offset, and no earlier.
use geo_ns_core.Common.{
  ℕ, zero, suc, ◌+◌, ◌≤◌, ◌≡◌, refl, ap, ◌∙◌, true, false, [], ◌∷◌, ◌++◌, Option, none, some, arith,
  length, drop, Bool-cases, inl, inr,
}
use geo_ns_core.Text.{Text, strn_eq, find, later}
use geo_ns_core.Text.Tokens.{IsClear}

pub find_sound :
    (text needle : Text) (i : ℕ)
    → find text needle ≡ some i
    → strn_eq (length needle) (drop i text) needle ≡ true
unfolding find
find_sound [] needle zero e = ground arith
find_sound [] needle (suc i) e = ground arith
find_sound (c ∷ text) needle zero e = ground arith
find_sound (c ∷ text) needle (suc i) e = ground (arith, find_sound text needle i)

pub find_complete :
    (text needle : Text) (j : ℕ)
    → strn_eq (length needle) (drop j text) needle ≡ true
    → (i : ℕ) × (find text needle ≡ some i) × (i ≤ j)
unfolding find
find_complete [] needle zero h = (0, rw h, omega arith)
find_complete [] needle (suc j) h = (0, rw h, omega arith)
find_complete (c ∷ text) needle zero h = (0, rw h, omega arith)
find_complete (c ∷ text) needle (suc j) h =
    elim (Bool-cases (strn_eq (length needle) (c ∷ text) needle)) [
      | inl now ↦ (0, rw now, omega arith)
      | inr no_match ↦
          let (i, e, b) = find_complete text needle j h in (suc i, rw (no_match, e), omega arith)
    ]

-- The first line feed stands behind the first line.
pub find_line_feed : (t s : Text) → IsClear 10 t → find (t ++ 10 ∷ s) (10 ∷ []) ≡ some (length t)
unfolding find strn_eq
find_line_feed [] s h = refl
find_line_feed (c ∷ t) s h = ground (arith, find_line_feed t s h.1)

-- The two bytes that end a line.
abbrev pub StartsBlank : Text → Type 0
StartsBlank s = strn_eq 2 s (13 ∷ 10 ∷ []) ≡ true

abbrev pub blank_line : Text
blank_line = 13 ∷ 10 ∷ 13 ∷ 10 ∷ []

abbrev pub shifted : ℕ → Option ℕ → Option ℕ
shifted n none = none
shifted n (some i) = some (n + i)

later-shifted : (n : ℕ) (o : Option ℕ) → later (shifted n o) ≡ shifted (suc n) o
later-shifted n none = refl
later-shifted n (some i) = ap some (omega arith)

later_one : (o : Option ℕ) → later o ≡ shifted 1 o
later_one none = refl
later_one (some i) = ap some (omega arith)

find_skip :
    (c : ℕ) (text needle : Text)
    → strn_eq (length needle) (c ∷ text) needle ≡ false
    → find (c ∷ text) needle ≡ later (find text needle)
unfolding find
find_skip c text needle h = rw h

-- No blank line begins inside a line that no blank line follows.
blank_in_line :
    (c : ℕ) (t s : Text)
    → IsClear 10 t
    → ¬ StartsBlank s
    → strn_eq 4 (c ∷ (t ++ 10 ∷ s)) blank_line ≡ false
unfolding strn_eq
blank_in_line c [] s h n = elim (Bool-cases (strn_eq 2 s (13 ∷ 10 ∷ []))) [
  | inl starts ↦ absurd (n starts)
  | inr no_match ↦ ground arith
]
blank_in_line c (d ∷ t) s h n = ground arith

-- The blank line is looked for behind a line that no blank line follows.
pub find_behind_line :
    (t s : Text)
    → IsClear 10 t
    → ¬ StartsBlank s
    → find (t ++ 10 ∷ s) blank_line ≡ shifted (length t + 1) (find s blank_line)
find_behind_line [] s h n =
    find_skip 10 s blank_line (unfold strn_eq in refl)
    ∙ later_one (find s blank_line)
    ∙ ap (λ k. shifted k (find s blank_line)) (omega arith)
find_behind_line (c ∷ t) s h n =
    find_skip c (t ++ 10 ∷ s) blank_line (blank_in_line c t s h.1 n)
    ∙ ap later (find_behind_line t s h.1 n)
    ∙ later-shifted (length t + 1) (find s blank_line)
    ∙ ap (λ k. shifted k (find s blank_line)) (omega arith)

blank_ahead : (c : ℕ) (t s : Text) → IsClear 10 t → strn_eq 4 (c ∷ (t ++ 13 ∷ s)) blank_line ≡ false
unfolding strn_eq
blank_ahead c [] s h = ground arith
blank_ahead c (d ∷ t) s h = ground arith

-- The blank line right behind a line.
pub find-blank_line :
    (t s : Text) → IsClear 10 t → find (t ++ (blank_line ++ s)) blank_line ≡ some (length t)
find-blank_line [] s h = unfold find strn_eq in refl
find-blank_line (c ∷ t) s h =
    find_skip c (t ++ (blank_line ++ s)) blank_line (blank_ahead c t _ h.1)
    ∙ ap later (find-blank_line t s h.1)
