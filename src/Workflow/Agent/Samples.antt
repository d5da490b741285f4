-- ===== src/Workflow/Agent/Samples.antt =====
-- A turn whose model calls one tool, then answers; the calls that are refused; a result cut short.
use temporal_agent.Common.{
  IsBoundary, ◌-◌, ◌*◌, ◌/◌, ◌^◌, ◌≤◌, ◌<◌, min, ◌≡◌, refl, ◌⊎◌, inl, inr, Bool, true, false, none,
  some, List, [], ◌∷◌, ◌++◌, arith, if◌then◌else◌, length, any, All, ◌==◌, Text, text, text_eq,
  text_equality, number_equality, lookup,
}
use temporal_agent.Store.Decimal.{decimal}
use temporal_agent.Store.Messages.{ToolCall}
use temporal_agent.Workflow.Agent.Json.{Json}
use temporal_agent.Workflow.Agent.Inputs.{
  AgentInput, AgentOutput, no_output, ActivityError, CallContext, no_response, Resolution,
  activity_kind, workflow_kind,
}
use temporal_agent.Workflow.Agent.Quiet.{model_calls}
use temporal_agent.Workflow.Agent.Route.{retry_wait}
use temporal_agent.Workflow.Agent.Choice.{refusal}
use temporal_agent.Workflow.Agent.Route.Waits.{retry_wait-bounds, retry_wait-power}
use temporal_agent.Workflow.Agent.Tools.{is_call_context_key, merge_context, with_call_context}
use temporal_agent.Workflow.Agent.Results.{truncate_to}
use temporal_agent.Workflow.Agent.Tools.Context.{with_call_context-unforged}
use temporal_agent.Workflow.Agent.Tools.Truncation.{truncate_to-cut}
use temporal_agent.Workflow.Agent.Dispatch.{Calls, unavailable, dispatch, runs_workflow}
use temporal_agent.Workflow.Agent.Dispatch.Delegation.{dispatch-delegation}
use temporal_agent.Workflow.Agent.Loop.{fresh_run, agent_workflow}
use temporal_agent.Workflow.Agent.Loop.Transcript.{Complete}
use temporal_agent.Workflow.Agent.Loop.Invariant.{Fits}
use temporal_agent.Workflow.Agent.Loop.Outcomes.{
  agent_workflow-Complete, agent_workflow-writes, model_calls-agent_workflow,
}
use temporal_agent.Workflow.Agent.Loop.Refused.{agent_workflow-refused}
use temporal_agent.Workflow.Agent.{
  never, AgentEffect, tool_returned, AgentEnvironment, load_skills, list_tools, await_call,
}

-- The model's own fields: a forged signer, whose key differs in nothing, and the tool's task.
abbrev forged_fields : List (Text × Text)
forged_fields = (text "agent", text "\"root\"") ∷ (text "task", text "\"look\"") ∷ []

abbrev context_json : CallContext → List (Text × Text)
context_json cc = if cc.agent == [] then [] else (text "agent", cc.agent) ∷ []

abbrev sample_input : AgentInput
sample_input = record {
  session_id = text "s";
  user_id = text "u";
  user_name = text "Eve";
  agent_id = text "ada";
  user_message = [];
  system_prompt = [];
  model = [];
  turn_key = text "m1.ada";
  earlier_turns = [];
  load_user_memory = false;
  agent_chain = [];
  channel = text "web";
  channel_id = [];
  session_turn = none;
  part_note = [];
  sign_reply = false;
  llm_machine = none;
  llm_excluded = [];
  call_prefix = [];
}

abbrev sample_context : CallContext
sample_context = record {
  agent_chain = text "ada" ∷ [];
  channel = text "web";
  channel_id = [];
  agent = [];
  notify_queue = text "main";
  memory_version = none;
  memory_unread = false;
  turn = none;
  call_id = text "c1";
  user_id = text "u";
  run_skills = [];
}

abbrev sample_json : Json
sample_json = record {
  quote = λ t. text "\"" ++ (t ++ text "\"");
  fields = λ t.
      if t == text "merged"
      then some (some ((text "task", text "\"look\"") ∷ []))
      else some (some forged_fields);
  object = λ fields. text "merged";
  boolean = λ t. if t == text "true" then some true else none;
  context_fields = context_json;
  task_call = λ t. some (t, []);
  complaint = λ t. text "invalid character";
  equal_fold = λ a b. a == b;
  trim_space = λ t. t;
  go_quote = λ t. text "\"" ++ (t ++ text "\"");
  task_summary = λ t. t;
}

abbrev exec_tool : Resolution
exec_tool = record {
  kind = activity_kind;
  workflow_name = [];
  task_queue = text "tools";
  background = false;
  agent_id = [];
  private_input = false;
  needs_call_context = false;
  timeout = 0;
}

abbrev bob_tool : Resolution
bob_tool = record exec_tool { kind = workflow_kind; agent_id = text "bob" }

abbrev exec_call : ToolCall
exec_call = record { id = text "c1"; name = text "exec"; input = text "{}" }

abbrev bob_call : ToolCall
bob_call = record { id = text "c2"; name = text "agent_bob"; input = text "look" }

abbrev no_error : ActivityError
no_error = refusal [] []

is_wait : AgentEffect → Bool
is_wait (await_call place) = true
is_wait other = false

-- The model calls the tool until it has waited for its result.
abbrev sample_env : (refused : Text) → AgentEnvironment
sample_env refused = record {
  workflow_id = text "s:p:ada:m1";
  task_queue = text "main";
  queues = [];
  is_cancelled = λ history. false;
  skills_result =
      λ history. inr (record { name = text "Ada"; llm_on_machine = never; run_skills = [] });
  tools_result = λ history. inr (record {
    tools = text "exec" ∷ [];
    resolutions = (text "exec", exec_tool) ∷ [];
    refused = refused;
    closed = [];
  });
  persist_fails = λ history. false;
  machine_choice = λ history. record { machine = none; machines_off = false };
  llm_result = λ history. inr (
      if any is_wait history
      then record no_response { content = text "done"; stop_reason = text "end_turn" }
      else record no_response { tool_calls = exec_call ∷ [] });
  sleep_result = λ history. none;
  register_result = λ history. inr [];
  call_result =
      λ history. tool_returned (record { content = text "ok"; is_error = false; files = [] });
}

abbrev returned_output : Text ⊎ AgentOutput → AgentOutput
returned_output (inl why) = no_output
returned_output (inr output) = output

answered_turn : AgentOutput
unfolding agent_workflow
answered_turn = returned_output (agent_workflow sample_json (sample_env []) sample_input).1

-- Three messages: the call, its result, and the answer.
answered_turn_messages : length answered_turn.new_messages ≡ 3
unfolding answered_turn is_wait text_eq
answered_turn_messages = refl

agent_workflow-Complete_example : Complete [] answered_turn.new_messages
unfolding answered_turn is_wait text_eq
agent_workflow-Complete_example =
    agent_workflow-Complete sample_json (sample_env []) sample_input answered_turn refl

agent_workflow-writes_example :
    All
      (Fits (agent_workflow sample_json (sample_env []) sample_input).0.turn)
      (agent_workflow sample_json (sample_env []) sample_input).0.history
agent_workflow-writes_example = agent_workflow-writes sample_json (sample_env []) sample_input

model_calls-agent_workflow_example :
    model_calls (agent_workflow sample_json (sample_env []) sample_input).0.history ≤ 600
model_calls-agent_workflow_example =
    model_calls-agent_workflow sample_json (sample_env []) sample_input

agent_workflow-refused_example :
    (output : AgentOutput) × ((agent_workflow sample_json
        (sample_env (text "closed"))
        sample_input).1
      ≡ inr output)
    × (output.error_type ≡ text "AgentNotOpen")
    × (output.new_messages ≡ [])
    × ((agent_workflow sample_json (sample_env (text "closed")) sample_input).0.history
        ≡ list_tools (text "ada") (text "u") ∷ load_skills (text "ada") ∷ [])
agent_workflow-refused_example =
    agent_workflow-refused sample_json (sample_env (text "closed")) sample_input _ _ (ground arith)
      refl refl (ground arith)

retry_wait-bounds_example : (0 < retry_wait no_error 4) × (retry_wait no_error 4 ≤ 120 * 10 ^ 9)
retry_wait-bounds_example = retry_wait-bounds no_error 4

truncate_to-cut_example :
    (head : Text) × (omitted : Text) × (tail : Text) × (text "abcdefgh" ≡ head ++ (omitted ++ tail))
    × (truncate_to (text "abcdefgh") 3
        ≡ head
          ++ (text "\n\n[... "
              ++ (decimal (length omitted)
                  ++ (text " bytes omitted, output too large ...]\n\n" ++ tail))))
    × (0 < length omitted)
    × (length head ≤ 3 * 2 / 3)
    × IsBoundary (text "abcdefgh") (length head)
    × ((tail ≡ []) ⊎ IsBoundary (text "abcdefgh") (length (text "abcdefgh") - length tail))
truncate_to-cut_example = truncate_to-cut (text "abcdefgh") 3 (omega arith)

with_call_context-unforged_example :
    (out : Text) × (read : List (Text × Text)) × (with_call_context sample_json
        (text "{}")
        sample_context
      ≡ inr out)
    × (sample_json.fields out ≡ some (some read))
    × (lookup (text "agent") read ≡ (
        if is_call_context_key sample_json (text "agent")
        then lookup (text "agent") (sample_json.context_fields sample_context)
        else lookup (text "agent") forged_fields))
unfolding merge_context is_call_context_key text_eq
with_call_context-unforged_example =
    with_call_context-unforged sample_json sample_context (text "{}") forged_fields (text "agent")
      tt refl refl

abbrev sample_calls : Calls
sample_calls = record {
  json = sample_json;
  env = sample_env [];
  input = sample_input;
  chain = text "bob" ∷ text "ada" ∷ [];
  resolutions = (text "agent_bob", bob_tool) ∷ [];
  context = sample_context;
  iteration = 0;
}

dispatch-delegation_example :
    (why : Text) × (dispatch sample_calls bob_call 0 (fresh_run [])
      ≡ (fresh_run [], unavailable why))
unfolding text_eq runs_workflow
dispatch-delegation_example =
    dispatch-delegation sample_calls bob_call 0 bob_tool (fresh_run []) refl refl (ground arith)
      (inl refl)

retry_wait-power_example : retry_wait no_error 3 ≡ min (5 * 10 ^ 9 * 3 ^ (3 - 1)) (120 * 10 ^ 9)
retry_wait-power_example = retry_wait-power no_error 3 (ground arith)
