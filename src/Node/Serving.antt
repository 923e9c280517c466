-- ===== src/Node/Serving.antt =====
-- The loop of `serve_geons` and the signal that ends it.
use geo_ns_core.Common.{
  ℕ, zero, suc, ◌+◌, ◌≡◌, refl, ◌∙◌, ap, Bool, true, false, List, [], ◌∷◌, ◌++◌, none, some, arith,
}
use geo_ns_core.Node.{serve_geons, slept}

abbrev pub quiet : ℕ → List Bool
quiet zero = []
quiet (suc n) = false ∷ quiet n

-- When the signal comes after `n` seconds without one, the loop ends in the second in which it comes,
-- whatever comes later; and without a signal it runs on.
pub serve_geons-signal :
    (n : ℕ) (later : List Bool)
    → (serve_geons (quiet n ++ true ∷ later) ≡ some (n + 1)) × (serve_geons (quiet n) ≡ none)
unfolding serve_geons
serve_geons-signal zero later = (ap some (omega arith), refl)
serve_geons-signal (suc n) later =
    let (ends, runs) = serve_geons-signal n later in
    (ap slept ends ∙ ap some (omega arith), ap slept runs)
