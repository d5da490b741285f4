-- ===== src/Workflow/Agent/Route/Waits.antt =====
-- workflow/agent_llm.go: how long a step waits before another attempt on the same machine.
use native.Mathlib.Nat.{pow-suc, mul_assoc}
use temporal_agent.Common.{
  ℕ, zero, suc, ◌-◌, ◌*◌, ◌^◌, ◌≤◌, ◌<◌, min, ◌≡◌, refl, sym, ap, ◌∙◌, ◌≢◌, ◌⊎◌, inl, inr, true,
  false, arith, ltb, if◌then◌else◌, Bool-cases, ◌==◌, text, text_eq_iff, text_equality,
  number_equality,
}
use temporal_agent.Workflow.Agent.Inputs.{ActivityError}
use temporal_agent.Workflow.Agent.Route.{grown_wait, retry_wait}
use temporal_agent.Workflow.Agent.Choice.{machine_llm_first_wait, machine_llm_max_wait}

grown_wait-le : (rounds wait : ℕ) → 0 < wait → 0 < grown_wait rounds wait
unfolding grown_wait
grown_wait-le zero wait h = h
grown_wait-le (suc rounds) wait h =
    grown_wait-le rounds (if ltb wait machine_llm_max_wait then wait * 3 else wait) (ground arith)

-- The wait before another attempt is never zero, nor longer than two minutes, whatever the provider asked for and
-- however many attempts were made.
pub retry_wait-bounds :
    (err : ActivityError) (attempt : ℕ)
    → (0 < retry_wait err attempt) × (retry_wait err attempt ≤ 120 * 10 ^ 9)
unfolding retry_wait
retry_wait-bounds err attempt =
    let grows : 0 < grown_wait (attempt - 1) machine_llm_first_wait =
      grown_wait-le (attempt - 1) machine_llm_first_wait (omega arith) in
    ground (arith, grows)

-- What the loop's growth comes to.
triple : (wait rounds : ℕ) → wait * 3 ^ suc rounds ≡ wait * 3 ^ rounds * 3
triple wait rounds = ap (λ p. wait * p) (pow-suc 3 rounds) ∙ sym (mul_assoc wait (3 ^ rounds) 3)

grows : (rounds wait : ℕ) → wait ≤ wait * 3 ^ rounds
grows zero wait = omega arith
grows (suc rounds) wait = omega (arith, triple wait rounds, grows rounds wait)

tripled_first : (wait rounds : ℕ) → wait * 3 * 3 ^ rounds ≡ wait * 3 ^ suc rounds
tripled_first wait rounds =
    let swap : 3 * 3 ^ rounds ≡ 3 ^ rounds * 3 = omega arith in
    mul_assoc wait 3 (3 ^ rounds)
    ∙ (ap (λ p. wait * p) swap ∙ (sym (mul_assoc wait (3 ^ rounds) 3) ∙ sym (triple wait rounds)))

past-grown_wait : (rounds wait : ℕ) → machine_llm_max_wait ≤ wait → grown_wait rounds wait ≡ wait
unfolding grown_wait
past-grown_wait zero wait h = refl
past-grown_wait (suc rounds) wait h =
    let same : (if ltb wait machine_llm_max_wait then wait * 3 else wait) ≡ wait =
      ground (arith, h) in
    ap (grown_wait rounds) same ∙ past-grown_wait rounds wait h

grown_wait-power :
    (rounds wait : ℕ)
    → min (grown_wait rounds wait) machine_llm_max_wait
      ≡ min (wait * 3 ^ rounds) machine_llm_max_wait
grown_wait-power zero wait =
    unfold grown_wait in ap (λ w. min w machine_llm_max_wait) (times-one wait)
  where
    times-one : (w : ℕ) → w ≡ w * 3 ^ 0
    times-one w = omega arith
grown_wait-power (suc rounds) wait = elim (Bool-cases (ltb wait machine_llm_max_wait)) [
  | inl e ↦
      let step : grown_wait (suc rounds) wait ≡ grown_wait rounds (wait * 3) =
        unfold grown_wait in rw e refl in
      ap (λ w. min w machine_llm_max_wait) step
      ∙ (grown_wait-power rounds (wait * 3)
          ∙ ap (λ w. min w machine_llm_max_wait) (tripled_first wait rounds))
  | inr e ↦
      let high : machine_llm_max_wait ≤ wait = ground (arith, e) in
      let more : wait ≤ wait * 3 ^ suc rounds = grows (suc rounds) wait in
      ap (λ w. min w machine_llm_max_wait) (past-grown_wait (suc rounds) wait high)
      ∙ omega (arith, high, more)
]

-- After an error of another type than RetryAfterError, which tells a wait, the wait before an attempt is that of the policy on the server's key: five
-- seconds first, three times the last one each time after it, two minutes at most.
pub retry_wait-power :
    (err : ActivityError) (attempt : ℕ)
    → err.type ≢ text "RetryAfterError"
    → retry_wait err attempt ≡ min (5 * 10 ^ 9 * 3 ^ (attempt - 1)) (120 * 10 ^ 9)
unfolding retry_wait
retry_wait-power err attempt other =
    rw (not_asked (Bool-cases (err.type == text "RetryAfterError")))
      (grown_wait-power (attempt - 1) machine_llm_first_wait)
  where
    not_asked :
        ((err.type == text "RetryAfterError") ≡ true)
          ⊎ ((err.type == text "RetryAfterError") ≡ false)
        → (err.type == text "RetryAfterError") ≡ false
    not_asked (inl e) = absurd (other ((text_eq_iff err.type (text "RetryAfterError")).0 e))
    not_asked (inr e) = e
