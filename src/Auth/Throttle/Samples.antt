-- ===== src/Auth/Throttle/Samples.antt =====
-- Concrete runs of the throttle, and the hypotheses of its laws at concrete inputs.
use temporal_agent.Common.{
  ℕ, ◌+◌, ◌-◌, ◌≡◌, false, List, [], ◌∷◌, arith, leb, if◌then◌else◌, Text, text, text_equality,
  number_equality,
}
use temporal_agent.Auth.Throttle.{fail, blocked, new_throttle}
use temporal_agent.Auth.Throttle.Window.{window_of-new}
use temporal_agent.Auth.Throttle.Limits.{fail_all, fail_all-blocks, count}

abbrev attacker : Text
attacker = text "10.0.0.1"

abbrev other : Text
other = text "10.0.0.2"

abbrev attempts : List (ℕ × Text)
attempts = (12, attacker) ∷ (13, other) ∷ (15, attacker) ∷ []

-- Three failures of a limit of three block the key until its window closes, ten after the first.
fail_all-blocks_example :
    (blocked (fail_all (fail (new_throttle 3 10) 11 attacker) attempts) 20 attacker).1
    ≡ (if leb 10 (20 - 11) then false else leb 3 (1 + count attacker attempts))
unfolding new_throttle
fail_all-blocks_example =
    fail_all-blocks attempts (new_throttle 3 10) attacker 11 16 20 (window_of-new 3 10 11 attacker)
      (omega arith, (omega arith, (omega arith, omega arith))) (omega arith) (omega arith)
