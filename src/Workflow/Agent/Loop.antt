-- ===== src/Workflow/Agent/Loop.antt =====
-- workflow/agent.go: AgentWorkflow, from its input to its output.
pub mod Sound
pub mod Transcript
pub mod Invariant
pub mod Outcomes
pub mod Refused
use temporal_agent.Common.{
  take, ℕ, zero, suc, ◌+◌, ◌-◌, ◌/◌, min, max, ap, ◌⊎◌, inl, inr, Bool, true, false, not, ◌||◌,
  Option, none, some, List, [], ◌∷◌, ◌++◌, map, eqb, if◌then◌else◌, length, all, In, ◌==◌, Text,
  text, text_eq, text_equality, number_equality, lookup, put,
}
use temporal_agent.Store.Decimal.{decimal}
use temporal_agent.Store.Messages.{Message, ToolCall, Role, user, assistant, tool, blank}
use temporal_agent.Workflow.Agent.Json.{Json}
use temporal_agent.Workflow.Agent.Inputs.{
  AgentInput, AgentOutput, no_output, ActivityError, CallContext, LlmMachine, LlmRequest,
  LlmResponse, PromptRef, TurnHistory, TurnRef, Resolution,
}
use temporal_agent.Workflow.Agent.Route.{Answered, failed, answered, call, stamp_answer}
use temporal_agent.Workflow.Agent.Choice.{start_llm_route, clear_note, machine_required}
use temporal_agent.Workflow.Agent.Tools.{call_context, display_input}
use temporal_agent.Workflow.Agent.Results.{context_too_long, agent_not_open}
use temporal_agent.Workflow.Agent.Dispatch.{Calls, dispatch_all}
use temporal_agent.Workflow.Agent.Collect.{collect}
use temporal_agent.Workflow.Agent.{
  AgentEnvironment, AgentRun, AgentEffect, SkillsOutput, ToolsOutput, no_route, ask, produce, flush,
  pending, load_skills, list_tools, respond, tell_tool_calls, tell_files,
}
use temporal_agent.Workflow.Agent.Outputs.{
  max_react_iterations, Prepared, cancelled_output, exhausted_output, failure_output,
  agent_not_open_message, llm_request, notify_response, notify_tool_calls, notify_files,
  answer_message, run_context,
}

pub data Iterated : Type 0 where
  finished : AgentRun → AgentOutput → Iterated
  goes_on : AgentRun → Iterated

unfoldable pub final_answer : Prepared → LlmResponse → Option LlmMachine → AgentRun → Iterated
unfolding produce flush answer_message notify_response
final_answer p response on s =
    let said =
      if response.content == [] then s else produce (answer_message p response on ∷ []) s in
    finished (notify_response p response.content (flush p.env p.input said)) (record no_output {
      response = response.content;
      new_messages = said.turn;
      goal_achieved = response.stop_reason == text "end_turn";
    })

unfoldable pub calls_of : Prepared → ℕ → LlmResponse → Calls
unfolding run_context
calls_of p i response = record {
  json = p.json;
  env = p.env;
  input = p.input;
  chain = p.input.agent_chain ++ (p.input.agent_id ∷ []);
  resolutions = p.list.resolutions;
  context = run_context p response;
  iteration = i;
}

-- The answer and its calls' results enter the turn together here; nothing reads it between them.
unfoldable pub run_tools : Prepared → ℕ → LlmResponse → Option LlmMachine → AgentRun → AgentRun
unfolding produce flush answer_message notify_tool_calls notify_files calls_of dispatch_all collect
run_tools p i response on s =
    let c = calls_of p i response in
    let begun = dispatch_all c response.tool_calls 0 (notify_tool_calls p response.tool_calls s) in
    let collected = collect c begun.1 0 begun.0 in
    notify_files p c.context.turn collected.1.1
      (flush p.env p.input (produce (answer_message p response on ∷ collected.1.0) collected.0))

unfoldable pub answered_step : Prepared → ℕ → AgentRun × Answered → Iterated
unfolding flush cancelled_output failure_output final_answer run_tools
answered_step p i (t, failed err) =
    let written = flush p.env p.input t in
    finished written (
      if p.env.is_cancelled written.history
      then cancelled_output t.turn
      else failure_output err t.turn)
answered_step p i (t, answered response on) =
    if eqb (length response.tool_calls) 0
    then final_answer p response on t
    else goes_on (run_tools p i response on t)

unfoldable pub iterate : Prepared → ℕ → AgentRun → Iterated
unfolding flush cancelled_output answered_step call llm_request
iterate p i s =
    if p.env.is_cancelled s.history
    then finished (flush p.env p.input s) (cancelled_output s.turn)
    else answered_step p i (call p.env p.input.user_id (llm_request p) i s)

unfoldable pub then_iterate :
    Iterated → (AgentRun → AgentRun × AgentOutput) → AgentRun × AgentOutput
then_iterate (finished s output) next = (s, output)
then_iterate (goes_on s) next = next s

-- `left` iterations are left.
unfoldable pub react : Prepared → ℕ → AgentRun → AgentRun × AgentOutput
unfolding iterate then_iterate flush exhausted_output
react p zero s = (flush p.env p.input s, exhausted_output s.turn)
react p (suc left) s = then_iterate (iterate p (max_react_iterations - suc left) s) (react p left)

unfoldable pub routed : Prepared → AgentRun × Option ActivityError → AgentRun × AgentOutput
unfolding flush failure_output cancelled_output react
routed p (s, some err) = (flush p.env p.input s, failure_output err s.turn)
routed p (s, none) =
    if p.env.is_cancelled s.history
    then (s, cancelled_output s.turn)
    else react p max_react_iterations s

-- From the route on, whatever ends the run takes its note off.
unfoldable pub run_prepared : Prepared → AgentRun → AgentRun × AgentOutput
unfolding start_llm_route routed clear_note
run_prepared p s =
    let (t, output) = routed p (start_llm_route p.env p.input p.skills.llm_on_machine p.signed s) in
    (clear_note t, output)

-- A load that failed: the run's error, unless it was cancelled.
unfoldable pub load_failed :
    AgentEnvironment → Text → ActivityError → AgentRun → AgentRun × (Text ⊎ AgentOutput)
unfolding cancelled_output
load_failed env what err s = (
  s,
  (if env.is_cancelled s.history then inr (cancelled_output s.turn) else inl (what ++ err.shown)),
)

unfoldable pub returned : AgentRun × AgentOutput → AgentRun × (Text ⊎ AgentOutput)
returned (s, output) = (s, inr output)

-- The name that signs an agent's messages.
unfoldable pub agent_name_of : AgentInput → SkillsOutput → Text
agent_name_of input skills = if skills.name == [] then input.agent_id else skills.name

unfoldable pub prepare :
    Json → AgentEnvironment → AgentInput → SkillsOutput → ToolsOutput → Prepared
unfolding agent_name_of
prepare json env input skills list = record {
  json = json;
  env = env;
  input = input;
  agent_name = agent_name_of input skills;
  signed = if input.sign_reply then agent_name_of input skills else [];
  skills = skills;
  list = list;
}

unfoldable pub refused_output : AgentInput → SkillsOutput → AgentOutput
unfolding agent_not_open_message agent_name_of
refused_output input skills = record no_output {
  error = agent_not_open_message (agent_name_of input skills) input.user_name;
  error_type = agent_not_open;
}

unfoldable pub with_tools :
    Json
    → AgentEnvironment
    → AgentInput
    → SkillsOutput
    → ActivityError ⊎ ToolsOutput
    → AgentRun
    → AgentRun × (Text ⊎ AgentOutput)
unfolding load_failed refused_output prepare run_prepared returned
with_tools json env input skills (inl err) s = load_failed env (text "list tools: ") err s
with_tools json env input skills (inr list) s =
    if not (list.refused == [])
    then (s, inr (refused_output input skills))
    else returned (run_prepared (prepare json env input skills list) s)

unfoldable pub with_skills :
    Json
    → AgentEnvironment
    → AgentInput
    → ActivityError ⊎ SkillsOutput
    → AgentRun
    → AgentRun × (Text ⊎ AgentOutput)
unfolding ask load_failed with_tools
with_skills json env input (inl err) s = load_failed env (text "load skills: ") err s
with_skills json env input (inr skills) s =
    let asked = ask (list_tools input.agent_id input.user_id) s in
    with_tools json env input skills (env.tools_result asked.history) asked

unfoldable pub first_messages : Json → AgentInput → List Message
first_messages json input =
    if input.turn_key == []
    then record (blank user) {
      content = json.quote input.user_message;
      user_id = input.user_id;
      author = input.user_name;
    }
      ∷ []
    else []

abbrev pub fresh_run : List Message → AgentRun
fresh_run messages = record { turn = messages; persisted = 0; route = no_route; history = [] }

unfoldable pub agent_workflow :
    Json → AgentEnvironment → AgentInput → AgentRun × (Text ⊎ AgentOutput)
unfolding ask flush with_skills first_messages
agent_workflow json env input =
    let begun = flush env input (fresh_run (first_messages json input)) in
    let asked = ask (load_skills input.agent_id) begun in
    if input.agent_id == []
    then (fresh_run [], inl (text "agent_id is required"))
    else with_skills json env input (env.skills_result asked.history) asked
