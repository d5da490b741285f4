-- ===== src/Workflow/Agent/Background.antt =====
-- workflow/background.go: the start of a background task by the turn that launches it.
use temporal_agent.Common.{
  ℕ, ◌⊎◌, inl, inr, Bool, true, false, not, Option, none, some, [], ◌++◌, if◌then◌else◌, ◌==◌, Text,
  text, text_equality, number_equality,
}
use temporal_agent.Store.Messages.{ToolCall}
use temporal_agent.Workflow.Agent.Json.{Json}
use temporal_agent.Workflow.Agent.Inputs.{
  AgentInput, ActivityError, CallContext, BackgroundTask, BackgroundTaskInput,
}
use temporal_agent.Workflow.Agent.Tools.{Child}
use temporal_agent.Workflow.Agent.{
  AgentEnvironment, AgentRun, CallResult, call_failed, tool_returned, child_returned, task_started,
  ask, register_task, start_task, drop_task, tell_task_started, await_call,
}

pub record BackgroundStart : Type 0 where
  pub task : BackgroundTask
  pub input : BackgroundTaskInput

unfoldable pub new_background_start :
    Json → AgentInput → ToolCall → Text → CallContext → Text → Text → Child → Bool → BackgroundStart
new_background_start json input tc tool_input cc task_id child_id child is_agent = record {
  task = record {
    id = task_id;
    session_id = input.session_id;
    participant = input.agent_id;
    user_id = input.user_id;
    user_name = input.user_name;
    tool = tc.name;
    summary = json.task_summary tool_input;
    turn_key = input.turn_key;
    call_id = cc.call_id;
    channel = input.channel;
    channel_id = input.channel_id;
  };
  input = record {
    session_id = input.session_id;
    agent_id = input.agent_id;
    tool = tc.name;
    workflow = child.workflow;
    child_id = child_id;
    task_queue = child.queue;
    input = child.input;
    is_sub_agent = is_agent;
  };
}

unfoldable pub registered :
    AgentEnvironment → BackgroundStart → ActivityError ⊎ Text → AgentRun → AgentRun × Option Text
unfolding ask
registered env start (inl err) s =
    (s, some (text "The background task could not be recorded: " ++ err.message))
registered env start (inr refused) s =
    if not (refused == [])
    then (s, some refused)
    else (ask (start_task start.input start.task.id env.task_queue) s, none)

-- Records the task, then starts its workflow; `some` is why it is refused, for the model.
unfoldable pub launch : AgentEnvironment → BackgroundStart → AgentRun → AgentRun × Option Text
unfolding ask registered
launch env start s =
    let recorded = ask (register_task start.task) s in
    registered env start (env.register_result recorded.history) recorded

unfoldable pub runs : BackgroundStart → AgentRun → AgentRun × (Text × Bool)
unfolding ask
runs start s = (
  ask (tell_task_started start.task.session_id start.task.id start.task.participant) s,
  (
    text "Background task started, ID "
        ++ (start.task.id
            ++ text
                ". Its result will reach you in a message when it ends, in a new turn: do not wait for it, nor start it again. Tell the user it runs."),
    false,
  ),
)

unfoldable pub start_settled : BackgroundStart → CallResult → AgentRun → AgentRun × (Text × Bool)
unfolding ask runs
start_settled start (call_failed err) s = (
  ask (drop_task start.task.id) s,
  (text "The background task could not start: " ++ err.message, true),
)
start_settled start (tool_returned out) s = runs start s
start_settled start (child_returned out) s = runs start s
start_settled start task_started s = runs start s

-- Waits for its start, the call at that place, and says what the model reads of it.
unfoldable pub await_start :
    AgentEnvironment → ℕ → BackgroundStart → AgentRun → AgentRun × (Text × Bool)
unfolding ask start_settled
await_start env place start s =
    let asked = ask (await_call place) s in
    start_settled start (env.call_result asked.history) asked
