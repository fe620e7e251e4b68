-- ===== src/Tests/Pings.antt =====
-- A connection that pongs once and then falls silent.
use wavekat_sip.Base.{ℕ, ◌+◌, ◌≡◌, refl, inl, inr, true, false, List, [], ◌∷◌, ◌++◌, some, arith}
use wavekat_sip.Keepalive.{Round, no_answer, pinged, run}
use wavekat_sip.Keepalive.Rounds.{run_detects}

abbrev round : ℕ → ℕ → Round
round before after = record {
  cancelled_first = false;
  before = before;
  written = true;
  cancelled_then = false;
  after = after;
}

abbrev answered : List Round
answered = round 0 1 ∷ round 1 2 ∷ []

run_detects_example : run (answered ++ round 2 2 ∷ []) ≡ pinged (2 + 1) (some no_answer)
run_detects_example =
    run_detects answered (round 2 2) []
      ((refl, refl, inl refl), ((refl, refl, inr (refl, omega arith)), omega arith))
      (refl, refl, refl, omega arith, refl)
