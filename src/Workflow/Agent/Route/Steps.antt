-- ===== src/Workflow/Agent/Route/Steps.antt =====
-- workflow/agent_llm.go: what the route does to a run: it writes no message, and asks the model at most once for each
-- attempt on a machine, and six times with the server's key.
use temporal_agent.Common.{
  ℕ, zero, suc, ◌+◌, ◌-◌, ◌≤◌, refl, ◌⊎◌, inl, inr, Bool, true, false, not, ◌&&◌, ◌||◌, Option,
  none, some, [], arith, eqb, if◌then◌else◌, length, ◌==◌, Text, text_equality, number_equality,
}
use temporal_agent.Workflow.Agent.Inputs.{AgentInput, LlmMachine, LlmResponse, ActivityError}
use temporal_agent.Workflow.Agent.Quiet.{Quiet, told, asked_model, rerouted, wider, Quiet-if}
use temporal_agent.Workflow.Agent.Route.{
  Request, on_server, to_server, exclude, FailureKind, failure_passing, failure_final,
  failure_machine, failure_refused, failure_worker, machine_failure, Attempt, ended, again,
  elsewhere, slept, wait_again, on_failure, after_attempt, attempt_on, given_up, then_attempt,
  attempts, call, Answered, gone_quiet, worker_cannot_reach, never_answered, name_of,
}
use temporal_agent.Workflow.Agent.Choice.{
  note, clear_note, choose, note_machine, settle_machine, start_llm_route, is_require, is_never,
  machine_llm_attempts, llm_max_attempts, machine_llm_max_attempts,
}
use temporal_agent.Workflow.Agent.{
  LlmMode, AgentEnvironment, AgentRun, ask, choose_machine, set_machine_aside, show_notice,
  call_llm, call_llm_on_machine, sleep,
}

module _ {n : ℕ} {s t : AgentRun} where
  pub note-Quiet : (message : Text) → Quiet n s t → Quiet n s (note message t)
  unfolding note ask
  note-Quiet message q = Quiet-if (not t.route.noting || ((message == []) && not t.route.noted)) q (
      rerouted (record t.route { noted = not (message == []) })
        (told (show_notice t.route.session_id t.route.participant t.route.agent message) refl q))

  pub choose-Quiet :
      (env : AgentEnvironment) (user : Text) → Quiet n s t → Quiet n s (choose env user t).0
  unfolding choose ask
  choose-Quiet env user q = rerouted _ (told (choose_machine user t.route.excluded) refl q)

  exclude-Quiet :
      (id : Text) (aside : Bool) (err : ActivityError)
      → Quiet n s t
      → Quiet n s (exclude id aside err t)
  unfolding exclude ask
  exclude-Quiet id aside err q = rerouted _ (Quiet-if aside (told (set_machine_aside id) refl q) q)

  on_server-Quiet :
      (env : AgentEnvironment) (request : Request)
      → Quiet n s t
      → Quiet (6 + n) s (on_server env request t).0
  unfolding on_server ask
  on_server-Quiet env request q = asked_model (call_llm (request t) llm_max_attempts) 6 refl q

module _ {n : ℕ} {s t : AgentRun} where
  pub clear_note-Quiet : Quiet n s t → Quiet n s (clear_note t)
  unfolding clear_note
  clear_note-Quiet q = Quiet-if (not t.route.noted) q (note-Quiet [] q)

  pub note_machine-Quiet : (m : Option LlmMachine) → Quiet n s t → Quiet n s (note_machine m t)
  unfolding note_machine
  note_machine-Quiet none q = q
  note_machine-Quiet (some m) q = note-Quiet _ q

  to_server-Quiet :
      (env : AgentEnvironment) (request : Request) (why : Text)
      → Quiet n s t
      → Quiet (6 + n) s (to_server env request why t).0
  unfolding to_server
  to_server-Quiet env request why q = on_server-Quiet env request (note-Quiet why (rerouted _ q))

-- The first of a pair that a test chooses.
Quiet-branch :
    {n : ℕ} {s : AgentRun} {A : Type 0} (b : Bool) (p q : AgentRun × A)
    → Quiet n s p.0
    → Quiet n s q.0
    → Quiet n s (if b then p else q).0
Quiet-branch true p q h k = h
Quiet-branch false p q h k = k

settle_machine-Quiet :
    {n : ℕ} {s t : AgentRun} (env : AgentEnvironment) (input : AgentInput) (m : Option LlmMachine)
    → Quiet n s t
    → Quiet n s (settle_machine env input m t).0
unfolding settle_machine
settle_machine-Quiet env input (some m) q = note_machine-Quiet (some m) (rerouted _ q)
settle_machine-Quiet {t = t} env input none q =
    let found = choose-Quiet env input.user_id q in
    Quiet-branch (choose env input.user_id t).1 _ _
      (note_machine-Quiet (choose env input.user_id t).0.route.machine found) found

pub start_llm_route-Quiet :
    {n : ℕ} {s t : AgentRun} (env : AgentEnvironment) (input : AgentInput) (mode : LlmMode)
    (signer : Text)
    → Quiet n s t
    → Quiet n s (start_llm_route env input mode signer t).0
unfolding start_llm_route
start_llm_route-Quiet env input mode signer q =
    Quiet-branch (is_never mode || ((input.turn_key == []) && eqb (length input.agent_chain) 0)) _ _
      (rerouted _ q) (settle_machine-Quiet env input input.llm_machine (rerouted _ q))

-- An attempt leads to a further one with `n` calls made, or ends with six more at most.
abbrev AttemptQuiet : ℕ → AgentRun → Attempt → Type 0
AttemptQuiet n s (ended r) = Quiet (6 + n) s r.0
AttemptQuiet n s (again err t) = Quiet n s t

Attempt-if :
    (n : ℕ) (s : AgentRun) (b : Bool) (p q : Attempt)
    → AttemptQuiet n s p
    → AttemptQuiet n s q
    → AttemptQuiet n s (if b then p else q)
Attempt-if n s true p q h k = h
Attempt-if n s false p q h k = k

with_server : {n : ℕ} {s t : AgentRun} → Quiet n s t → Quiet (6 + n) s t
with_server {n = n} q = wider {m = n} {n = 6 + n} (omega arith) q

module _ {n : ℕ} {s : AgentRun} (env : AgentEnvironment) (user : Text) (request : Request) where
  elsewhere-Quiet :
      {t : AgentRun} (m : LlmMachine) (err : ActivityError)
      → Quiet n s t
      → AttemptQuiet n s (elsewhere env user request m err t)
  unfolding elsewhere
  elsewhere-Quiet {t = t} m err q =
      let found = choose-Quiet env user q in
      Attempt-if n s (is_require t.route.mode) _ _
        (Attempt-if n s (choose env user t).1 _ _
          (note_machine-Quiet (choose env user t).0.route.machine found) (with_server found))
        (to_server-Quiet env request (gone_quiet m.name) q)

  slept-Quiet :
      {t : AgentRun} (cut : Option ActivityError) (err : ActivityError)
      → Quiet n s t
      → AttemptQuiet n s (slept cut err t)
  unfolding slept
  slept-Quiet (some cut) err q = with_server q
  slept-Quiet none err q = q

  wait_again-Quiet :
      {t : AgentRun} (is_last : Bool) (attempt : ℕ) (err : ActivityError)
      → Quiet n s t
      → AttemptQuiet n s (wait_again env is_last attempt err t)
  unfolding wait_again ask
  wait_again-Quiet {t = t} is_last attempt err q =
      Attempt-if n s is_last (again err t) _ q
        (slept-Quiet (env.sleep_result _) err (told (sleep _) refl q))

  on_failure-Quiet :
      {t : AgentRun} (is_last : Bool) (attempt : ℕ) (m : LlmMachine) (err : ActivityError)
      (kind : FailureKind × Bool)
      → Quiet n s t
      → AttemptQuiet n s (on_failure env user request is_last attempt m err kind t)
  unfolding on_failure
  on_failure-Quiet is_last attempt m err (failure_final, aside) q = with_server q
  on_failure-Quiet {t = t} is_last attempt m err (failure_worker, aside) q =
      Attempt-if n s (is_require t.route.mode) _ _ (with_server q)
        (to_server-Quiet env request worker_cannot_reach q)
  on_failure-Quiet is_last attempt m err (failure_machine, aside) q =
      elsewhere-Quiet m err (exclude-Quiet m.id aside err q)
  on_failure-Quiet is_last attempt m err (failure_refused, aside) q =
      elsewhere-Quiet m err (exclude-Quiet m.id aside err q)
  on_failure-Quiet is_last attempt m err (failure_passing, aside) q =
      wait_again-Quiet is_last attempt err q

  after_attempt-Quiet :
      {t : AgentRun} (is_last : Bool) (attempt : ℕ) (m : LlmMachine)
      (result : ActivityError ⊎ LlmResponse)
      → Quiet n s t
      → AttemptQuiet n s (after_attempt env user request is_last attempt m result t)
  unfolding after_attempt
  after_attempt-Quiet is_last attempt m (inr response) q = with_server q
  after_attempt-Quiet {t = t} is_last attempt m (inl err) q =
      Attempt-if n s (env.is_cancelled t.history || err.canceled) _ _ (with_server q)
        (on_failure-Quiet is_last attempt m err (machine_failure err) q)

attempt_on-Quiet :
    {n : ℕ} {s t : AgentRun} (env : AgentEnvironment) (user : Text) (request : Request) (step : ℕ)
    (is_last : Bool) (attempt : ℕ) (m : LlmMachine)
    → Quiet n s t
    → AttemptQuiet (suc n) s (attempt_on env user request step is_last attempt m t)
unfolding attempt_on ask
attempt_on-Quiet {n = n} {t = t} env user request step is_last attempt m q =
    after_attempt-Quiet env user request is_last attempt m (env.llm_result _) (
      wider {m = 1 + n} {n = suc n} (omega arith) (
        asked_model (call_llm_on_machine (request t) m.id step attempt machine_llm_max_attempts) 1
          refl q))

given_up-Quiet :
    (n : ℕ) {s : AgentRun} (env : AgentEnvironment) (request : Request) (a : Attempt)
    → AttemptQuiet n s a
    → Quiet (6 + n) s (given_up env request a).0
unfolding given_up
given_up-Quiet n env request (ended r) q = q
given_up-Quiet n env request (again err t) q =
    Quiet-branch (is_require t.route.mode) _ _ (with_server q)
      (to_server-Quiet env request (never_answered (name_of t.route.machine)) q)

then_attempt-Quiet :
    {m n : ℕ} {s : AgentRun} (a : Attempt) (next : AgentRun → AgentRun × Answered)
    → AttemptQuiet n s a
    → 6 + n ≤ m
    → ((t : AgentRun) → Quiet n s t → Quiet m s (next t).0)
    → Quiet m s (then_attempt a next).0
unfolding then_attempt
then_attempt-Quiet (ended r) next q le goes = wider le q
then_attempt-Quiet (again err t) next q le goes = goes t q

attempts-Quiet :
    {n : ℕ} {s t : AgentRun} (env : AgentEnvironment) (user : Text) (request : Request)
    (step left : ℕ) (m : Option LlmMachine)
    → Quiet n s t
    → Quiet (n + left + 7) s (attempts env user request step left m t).0
unfolding attempts
attempts-Quiet {n = n} env user request step zero none q =
    wider {m = 6 + n} {n = n + 0 + 7} (omega arith) (on_server-Quiet env request q)
attempts-Quiet {n = n} env user request step (suc left) none q =
    wider {m = 6 + n} {n = n + suc left + 7} (omega arith) (on_server-Quiet env request q)
attempts-Quiet {n = n} {t = t} env user request step zero (some m) q =
    wider {m = 6 + suc n} {n = n + 0 + 7} (omega arith) (
      given_up-Quiet (suc n) env request
        (attempt_on env user request step true machine_llm_attempts m t)
        (attempt_on-Quiet env user request step true machine_llm_attempts m q))
attempts-Quiet {n = n} {s = s} {t = t} env user request step (suc left) (some m) q =
    then_attempt-Quiet {m = n + suc left + 7} {n = suc n}
      (attempt_on env user request step false (machine_llm_attempts - suc left) m t) _
      (attempt_on-Quiet env user request step false (machine_llm_attempts - suc left) m q)
      (omega arith)
      (λ (u : AgentRun) (r : Quiet (suc n) s u).
        wider {m = suc n + left + 7} {n = n + suc left + 7} (omega arith)
          (attempts-Quiet env user request step left u.route.machine r))

pub call-Quiet :
    {n : ℕ} {s t : AgentRun} (env : AgentEnvironment) (user : Text) (request : Request) (step : ℕ)
    → Quiet n s t
    → Quiet (n + 12) s (call env user request step t).0
unfolding call
call-Quiet {n = n} {t = t} env user request step q =
    wider {m = n + 5 + 7} {n = n + 12} (omega arith)
      (attempts-Quiet env user request step 5 t.route.machine q)
