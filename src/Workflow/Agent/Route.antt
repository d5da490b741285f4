-- ===== src/Workflow/Agent/Route.antt =====
-- workflow/agent_llm.go: a step's call to the model, on a machine of the author or with the server's key.
pub mod Waits
pub mod Steps
use temporal_agent.Common.{
  take, Perm, ℕ, zero, suc, ◌+◌, ◌-◌, ◌*◌, ◌/◌, ◌^◌, ◌<◌, min, max, ap, ◌⊎◌, inl, inr, Bool, true,
  false, not, ◌&&◌, ◌||◌, Option, none, some, [], ◌∷◌, ◌++◌, ltb, leb, eqb, if◌then◌else◌, length,
  all, In, ◌==◌, contains, Text, text, text_eq, text_equality, number_equality, put,
}
use temporal_agent.Store.Messages.{Message}
use temporal_agent.Workflow.Ids.{participant_of_workflow}
use temporal_agent.Workflow.Agent.Inputs.{
  AgentInput, LlmMachine, LlmRequest, LlmResponse, no_response, ActivityError, Timeout, no_timeout,
  heartbeat, schedule_to_start, other_timeout,
}
use temporal_agent.Workflow.Agent.{
  LlmMode, never, prefer, require, LlmRoute, no_route, AgentEnvironment, AgentRun, ask,
  choose_machine, set_machine_aside, show_notice, call_llm, call_llm_on_machine, sleep,
}
use temporal_agent.Workflow.Agent.Choice.{
  llm_max_attempts, machine_llm_max_attempts, machine_llm_attempts, machine_llm_first_wait,
  machine_llm_max_wait, machine_llm_absurd_wait, is_require, note, choose, no_machine, note_machine,
}

pub data FailureKind : Type 0 where
  failure_passing : FailureKind
  failure_final : FailureKind
  failure_machine : FailureKind
  failure_refused : FailureKind
  failure_worker : FailureKind

unfoldable pub is_heartbeat : Timeout → Bool
is_heartbeat heartbeat = true
is_heartbeat no_timeout = false
is_heartbeat schedule_to_start = false
is_heartbeat other_timeout = false

-- What a failed attempt on a machine calls for, and whether to set the machine aside.
unfoldable pub machine_failure : ActivityError → FailureKind × Bool
unfolding is_heartbeat
machine_failure err =
    if is_heartbeat err.timeout
    then (failure_machine, true)
    else if (err.type == text "PermanentAPIError") || (err.type == text "ContextTooLong")
    then (failure_final, false)
    else if (err.type == text "MachineUnreachable")
        || (err.type == text "MachineStopping")
        || (err.type == text "MachineRevoked")
    then (failure_machine, true)
    else if (err.type == text "DirectiveLost") || (err.type == text "HandoffFailed")
    then (failure_machine, false)
    else if err.type == text "DirectiveRefused"
    then (failure_refused, false)
    else if err.type == text "WorkerNoGateway"
    then (failure_worker, false)
    else (failure_passing, false)

-- `for i := 1; i < attempt && wait < machineLLMMaxWait; i++ { wait *= 3 }`
unfoldable pub grown_wait : ℕ → ℕ → ℕ
grown_wait zero wait = wait
grown_wait (suc rounds) wait =
    grown_wait rounds (if ltb wait machine_llm_max_wait then wait * 3 else wait)

unfoldable pub retry_wait : ActivityError → ℕ → ℕ
unfolding grown_wait
retry_wait err attempt =
    if (err.type == text "RetryAfterError")
      && (ltb 0 err.retry_after && leb err.retry_after machine_llm_absurd_wait)
    then min err.retry_after machine_llm_max_wait
    else min (grown_wait (attempt - 1) machine_llm_first_wait) machine_llm_max_wait

pub data Answered : Type 0 where
  failed : ActivityError → Answered
  answered : LlmResponse → Option LlmMachine → Answered

unfoldable pub answer_on : Option LlmMachine → ActivityError ⊎ LlmResponse → Answered
answer_on m (inl err) = failed err
answer_on m (inr response) = answered response m

abbrev pub Request : Type 0
Request = AgentRun → LlmRequest

unfoldable pub on_server : AgentEnvironment → Request → AgentRun → AgentRun × Answered
unfolding ask answer_on
on_server env request s =
    let asked = ask (call_llm (request s) llm_max_attempts) s in
    (asked, answer_on none (env.llm_result asked.history))

-- The rest of the turn on the server's key, with a note that says why.
unfoldable pub to_server : AgentEnvironment → Request → Text → AgentRun → AgentRun × Answered
unfolding note on_server
to_server env request why s =
    on_server env request (note why (record s { route = record s.route { machine = none } }))

abbrev pub worker_cannot_reach : Text
worker_cannot_reach = text "modèle de l'installation : ce worker n'atteint pas les machines"

unfoldable pub gone_quiet : Text → Text
gone_quiet name =
    text "modèle de l'installation : la machine « " ++ (name ++ text " » ne répond plus")

unfoldable pub never_answered : Text → Text
never_answered name =
    text "modèle de l'installation : la machine « " ++ (name ++ text " » n'a pas répondu")

-- A machine that failed the turn is excluded from it, and set aside for the turns to come if `aside`.
unfoldable pub exclude : Text → Bool → ActivityError → AgentRun → AgentRun
unfolding ask
exclude id aside err s =
    let told = if aside then ask (set_machine_aside id) s else s in
    record told {
      route = record s.route {
        excluded = s.route.excluded ++ (id ∷ []);
        unreached =
            if err.type == text "HandoffFailed"
            then s.route.unreached ++ (id ∷ [])
            else s.route.unreached;
      };
    }

-- What a failed attempt leads to: the step's end, or another attempt, with the error of this one.
pub data Attempt : Type 0 where
  ended : AgentRun × Answered → Attempt
  again : ActivityError → AgentRun → Attempt

-- The step without an answer: an error, or, when the run is cancelled meanwhile, an empty response.
unfoldable pub no_answer : Option ActivityError → Answered
no_answer (some err) = failed err
no_answer none = answered no_response none

unfoldable pub elsewhere :
    AgentEnvironment → Text → Request → LlmMachine → ActivityError → AgentRun → Attempt
unfolding choose note_machine no_answer no_machine to_server is_require gone_quiet
elsewhere env user request m err s =
    let (found, goes_on) = choose env user s in
    if is_require s.route.mode
    then (if goes_on
        then again err (note_machine found.route.machine found)
        else ended (found, no_answer (no_machine env found)))
    else ended (to_server env request (gone_quiet m.name) s)

unfoldable pub slept : Option ActivityError → ActivityError → AgentRun → Attempt
slept (some cut) err s = ended (s, failed cut)
slept none err s = again err s

unfoldable pub wait_again : AgentEnvironment → Bool → ℕ → ActivityError → AgentRun → Attempt
unfolding ask retry_wait slept
wait_again env is_last attempt err s =
    let waited = ask (sleep (retry_wait err attempt)) s in
    if is_last then again err s else slept (env.sleep_result waited.history) err waited

unfoldable pub on_failure :
    AgentEnvironment
    → Text
    → Request
    → Bool
    → ℕ
    → LlmMachine
    → ActivityError
    → FailureKind × Bool
    → AgentRun
    → Attempt
unfolding to_server exclude elsewhere wait_again is_require
on_failure env user request is_last attempt m err (failure_final, aside) s = ended (s, failed err)
on_failure env user request is_last attempt m err (failure_worker, aside) s =
    if is_require s.route.mode
    then ended (s, failed err)
    else ended (to_server env request worker_cannot_reach s)
on_failure env user request is_last attempt m err (failure_machine, aside) s =
    elsewhere env user request m err (exclude m.id aside err s)
on_failure env user request is_last attempt m err (failure_refused, aside) s =
    elsewhere env user request m err (exclude m.id aside err s)
on_failure env user request is_last attempt m err (failure_passing, aside) s =
    wait_again env is_last attempt err s

unfoldable pub after_attempt :
    AgentEnvironment
    → Text
    → Request
    → Bool
    → ℕ
    → LlmMachine
    → ActivityError ⊎ LlmResponse
    → AgentRun
    → Attempt
unfolding on_failure machine_failure
after_attempt env user request is_last attempt m (inr response) s =
    ended (s, answered response (some m))
after_attempt env user request is_last attempt m (inl err) s =
    if env.is_cancelled s.history || err.canceled
    then ended (s, failed err)
    else on_failure env user request is_last attempt m err (machine_failure err) s

unfoldable pub attempt_on :
    AgentEnvironment → Text → Request → ℕ → Bool → ℕ → LlmMachine → AgentRun → Attempt
unfolding ask after_attempt
attempt_on env user request step is_last attempt m s =
    let asked =
      ask (call_llm_on_machine (request s) m.id step attempt machine_llm_max_attempts) s in
    after_attempt env user request is_last attempt m (env.llm_result asked.history) asked

unfoldable pub name_of : Option LlmMachine → Text
name_of none = []
name_of (some m) = m.name

-- Past the last attempt.
unfoldable pub given_up : AgentEnvironment → Request → Attempt → AgentRun × Answered
unfolding to_server is_require never_answered name_of
given_up env request (ended r) = r
given_up env request (again err s) =
    if is_require s.route.mode
    then (s, failed err)
    else to_server env request (never_answered (name_of s.route.machine)) s

unfoldable pub then_attempt : Attempt → (AgentRun → AgentRun × Answered) → AgentRun × Answered
then_attempt (ended r) next = r
then_attempt (again err s) next = next s

-- The loop over the attempts, `left` of them after this one, on the machine that the route holds: each reads it
-- again. Without one the call is the server's.
unfoldable pub attempts :
    AgentEnvironment
    → Text
    → Request
    → ℕ
    → (left : ℕ) → Option LlmMachine
    → AgentRun
    → AgentRun × Answered
unfolding on_server attempt_on given_up then_attempt
attempts env user request step zero none s = on_server env request s
attempts env user request step (suc left) none s = on_server env request s
attempts env user request step zero (some m) s =
    given_up env request (attempt_on env user request step true machine_llm_attempts m s)
attempts env user request step (suc left) (some m) s =
    then_attempt (attempt_on env user request step false (machine_llm_attempts - suc left) m s)
      (λ t. attempts env user request step left t.route.machine t)

-- One step's call to the model.
unfoldable pub call : AgentEnvironment → Text → Request → ℕ → AgentRun → AgentRun × Answered
unfolding attempts
call env user request step s =
    attempts env user request step (machine_llm_attempts - 1) s.route.machine s

-- Writes on an assistant's message what wrote it.
unfoldable pub stamp_answer : LlmResponse → Option LlmMachine → Message → Message
stamp_answer response none msg = record msg { model = response.model; usage = response.usage }
stamp_answer response (some m) msg = record msg {
  model = if response.model == [] then m.model else response.model;
  usage = response.usage;
  machine_id = m.id;
  machine = m.name;
}
