-- ===== src/Text/Tokens.antt =====
-- What `strtok_r` gives: tokens are never empty and hold no delimiter, and splitting a path that is
-- put together from tokens gives these back.
use geo_ns_core.Common.{
  ℕ, ◌≡◌, refl, ◌≢◌, Bool, true, false, List, [], ◌∷◌, ◌++◌, arith, All, ◌==◌, append-nil,
}
use geo_ns_core.Text.{Text, flush, push_byte, scan, strtok}

abbrev pub IsClear : ℕ → Text → Type 0
IsClear d s = All (λ c. c ≢ d) s

abbrev pub IsToken : ℕ → Text → Type 0
IsToken d s = (s ≢ []) × IsClear d s

-- Each token behind a delimiter.
abbrev pub join : ℕ → List Text → Text
join d [] = []
join d (t ∷ ts) = d ∷ (t ++ join d ts)

flush-IsToken :
    (d : ℕ) (run : Text) (toks : List Text)
    → IsClear d run
    → All (IsToken d) toks
    → All (IsToken d) (flush run toks)
flush-IsToken d [] toks h k = k
flush-IsToken d (c ∷ run) toks h k = (((λ e. cc), h), k)

push_byte_tokens :
    (d c : ℕ) (b : Bool) (p : Text × List Text)
    → (c == d) ≡ b
    → IsClear d p.0 × All (IsToken d) p.1
    → IsClear d (push_byte b c p).0 × All (IsToken d) (push_byte b c p).1
push_byte_tokens d c true (run, toks) e (h, k) = (tt, flush-IsToken d run toks h k)
push_byte_tokens d c false (run, toks) e (h, k) = ((ground arith, h), k)

scan_tokens : (d : ℕ) (s : Text) → IsClear d (scan d s).0 × All (IsToken d) (scan d s).1
unfolding scan
scan_tokens d [] = (tt, tt)
scan_tokens d (c ∷ s) = push_byte_tokens d c (c == d) (scan d s) refl (scan_tokens d s)

pub strtok-IsToken : (d : ℕ) (s : Text) → All (IsToken d) (strtok d s)
unfolding strtok
strtok-IsToken d s = let (h, k) = scan_tokens d s in flush-IsToken d (scan d s).0 (scan d s).1 h k

scan-append :
    (d : ℕ) (t s : Text) → IsClear d t → scan d (t ++ s) ≡ (t ++ (scan d s).0, (scan d s).1)
unfolding scan
scan-append d [] s h = refl
scan-append d (c ∷ t) s h = ground (arith, scan-append d t s h.1)

scan_delimiter : (d : ℕ) (s : Text) → scan d (d ∷ s) ≡ ([], flush (scan d s).0 (scan d s).1)
unfolding scan
scan_delimiter d s = ground arith

scan-join : (d : ℕ) (ts : List Text) → All (IsToken d) ts → scan d (join d ts) ≡ ([], ts)
scan-join d [] h = unfold scan in refl
scan-join d ([] ∷ ts) h = absurd (h.0.0 refl)
scan-join d ((c ∷ t) ∷ ts) h = rw (
  scan_delimiter d ((c ∷ t) ++ join d ts),
  scan-append d (c ∷ t) (join d ts) h.0.1,
  scan-join d ts h.1,
  append-nil (c ∷ t),
)

pub strtok-join : (d : ℕ) (ts : List Text) → All (IsToken d) ts → strtok d (join d ts) ≡ ts
unfolding strtok
strtok-join d ts h = rw (scan-join d ts h)

scan-line : (d : ℕ) (t s : Text) → IsClear d t → scan d (t ++ d ∷ s) ≡ (t, strtok d s)
unfolding strtok
scan-line d t s h = rw (scan-append d t (d ∷ s) h, scan_delimiter d s, append-nil t)

-- A token that a delimiter ends is given first.
pub strtok-line : (d : ℕ) (t s : Text) → IsToken d t → strtok d (t ++ d ∷ s) ≡ t ∷ strtok d s
strtok-line d [] s h = absurd (h.0 refl)
strtok-line d (c ∷ t) s h = unfold strtok in rw (scan-line d (c ∷ t) s h.1)

scan_clear : (d : ℕ) (t : Text) → IsClear d t → scan d t ≡ (t, [])
unfolding scan
scan_clear d [] h = refl
scan_clear d (c ∷ t) h = ground (arith, scan_clear d t h.1)

-- A text with no delimiter is its only token.
pub strtok-token : (d : ℕ) (t : Text) → IsToken d t → strtok d t ≡ t ∷ []
strtok-token d [] h = absurd (h.0 refl)
strtok-token d (c ∷ t) h = unfold strtok in rw (scan_clear d (c ∷ t) h.1)
