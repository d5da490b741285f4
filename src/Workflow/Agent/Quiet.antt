-- ===== src/Workflow/Agent/Quiet.antt =====
-- workflow/agent.go: the steps of a run that write no message and leave its turn as it is, with how many calls of the
-- model they make.
use temporal_agent.Common.{
  ℕ, ◌+◌, ◌≤◌, ◌≡◌, Bool, true, false, List, [], ◌∷◌, arith, if◌then◌else◌, text, text_equality,
  number_equality,
}
use temporal_agent.Workflow.Agent.{
  AgentEffect, load_skills, list_tools, persist, choose_machine, set_machine_aside, show_notice,
  call_llm, call_llm_on_machine, sleep, respond, tell_tool_calls, tell_files, start_tool,
  start_child, await_call, register_task, start_task, drop_task, tell_task_started, LlmRoute,
  AgentRun, ask,
}

-- What an effect is here: a write of messages, a call of the model in so many attempts at most, or neither.
pub data EffectKind : Type 0 where
  writing : EffectKind
  asking : (attempts : ℕ) → EffectKind
  telling : EffectKind

abbrev pub kind_of : AgentEffect → EffectKind
kind_of (load_skills agent) = telling
kind_of (list_tools agent user) = telling
kind_of (persist start messages) = writing
kind_of (choose_machine user excluded) = telling
kind_of (set_machine_aside machine) = telling
kind_of (show_notice session participant agent text) = telling
kind_of (call_llm request max_attempts) = asking max_attempts
kind_of (call_llm_on_machine request machine step attempt max_attempts) = asking max_attempts
kind_of (sleep wait) = telling
kind_of (respond session channel channel_id signer content) = telling
kind_of (tell_tool_calls session channel channel_id calls) = telling
kind_of (tell_files turn agent files) = telling
kind_of (start_tool given queue timeout) = telling
kind_of (start_child id queue workflow input) = telling
kind_of (await_call place) = telling
kind_of (register_task task) = telling
kind_of (start_task input id queue) = telling
kind_of (drop_task id) = telling
kind_of (tell_task_started session id participant) = telling

-- `Quiet n s t`: from `s` the run came to `t` in such steps, with `n` calls of the model at most.
pub data Quiet : ℕ → AgentRun → AgentRun → Type 0 where
  still : {n : ℕ} {s : AgentRun} → Quiet n s s
  told :
      {n : ℕ} {s t : AgentRun} (e : AgentEffect)
      → kind_of e ≡ telling
      → Quiet n s t
      → Quiet n s (ask e t)
  asked_model :
      {n : ℕ} {s t : AgentRun} (e : AgentEffect) (attempts : ℕ)
      → kind_of e ≡ asking attempts
      → Quiet n s t
      → Quiet (attempts + n) s (ask e t)
  rerouted :
      {n : ℕ} {s t : AgentRun} (r : LlmRoute) → Quiet n s t → Quiet n s (record t { route = r })
  wider : {m n : ℕ} {s t : AgentRun} → m ≤ n → Quiet m s t → Quiet n s t

pub Quiet-if :
    {n : ℕ} {s t u : AgentRun} (b : Bool)
    → Quiet n s t
    → Quiet n s u
    → Quiet n s (if b then t else u)
Quiet-if true p q = p
Quiet-if false p q = q

-- The calls of the model that a history makes at most, each attempt at one counted.
abbrev pub count_of : EffectKind → ℕ
count_of writing = 0
count_of (asking attempts) = attempts
count_of telling = 0

abbrev pub model_calls : List AgentEffect → ℕ
model_calls [] = 0
model_calls (e ∷ es) = count_of (kind_of e) + model_calls es

pub model_calls-Quiet :
    {n : ℕ} {s t : AgentRun} → Quiet n s t → model_calls t.history ≤ n + model_calls s.history
unfolding ask
model_calls-Quiet still = omega arith
model_calls-Quiet {s = s} (told {n = n} {t = t} e plain q) =
    let before : model_calls t.history ≤ n + model_calls s.history = model_calls-Quiet q in
    rw plain (omega (arith, before))
model_calls-Quiet {s = s} (asked_model {n = n} {t = t} e attempts asks q) =
    let before : model_calls t.history ≤ n + model_calls s.history = model_calls-Quiet q in
    rw asks (omega (arith, before))
model_calls-Quiet (rerouted r q) = model_calls-Quiet q
model_calls-Quiet {n = n} {s = s} {t = t} (wider {m = m} le q) =
    let before : model_calls t.history ≤ m + model_calls s.history = model_calls-Quiet q in
    omega (arith, before, le)
