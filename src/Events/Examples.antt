-- ===== src/Events/Examples.antt =====
-- A queue of three handlers on a counter: the second one is not ready, and the third one fails.
use pimc_toolkit.Common.{ℕ, ◌+◌, ◌≡◌, refl, [], ◌∷◌, true, false, arith}
use pimc_toolkit.Core.Result.{ok, err}
use pimc_toolkit.Events.FixedEventQueue.{EventHandler, run_once}
use pimc_toolkit.Events.Rounds.{Round, run_once-Round}

abbrev tick : EventHandler ℕ ℕ
tick = record { ready = λ s. (s, true); fire = λ s. (s + 1, ok tt) }

abbrev idle : EventHandler ℕ ℕ
idle = record { ready = λ s. (s, false); fire = λ s. (s, ok tt) }

abbrev broken : EventHandler ℕ ℕ
broken = record { ready = λ s. (s, true); fire = λ s. (s, err 7) }

round_of_two : run_once (tick ∷ idle ∷ tick ∷ []) 10 ≡ (12, ok 2)
unfolding run_once
round_of_two = refl

round_that_fails : run_once (tick ∷ idle ∷ broken ∷ tick ∷ []) 10 ≡ (11, err 7)
unfolding run_once
round_that_fails = refl

run_once-Round_example :
    Round
      (tick ∷ idle ∷ broken ∷ tick ∷ [])
      10
      (run_once (tick ∷ idle ∷ broken ∷ tick ∷ []) 10).0
      (run_once (tick ∷ idle ∷ broken ∷ tick ∷ []) 10).1
run_once-Round_example = run_once-Round (tick ∷ idle ∷ broken ∷ tick ∷ []) 10 (omega arith)
