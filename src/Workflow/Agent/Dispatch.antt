-- ===== src/Workflow/Agent/Dispatch.antt =====
-- workflow/agent.go: the calls of one answer of the model, each started in its order.
pub mod Effects
pub mod Delegation
use temporal_agent.Common.{
  take, ℕ, suc, ◌+◌, ◌-◌, ◌/◌, ◌<◌, max, ◌⊎◌, inl, inr, Bool, true, false, not, ◌&&◌, Option, none,
  some, List, [], ◌∷◌, ◌++◌, eqb, if◌then◌else◌, all, In, ◌==◌, Text, text, text_eq, text_equality,
  number_equality, lookup, put,
}
use temporal_agent.Store.Messages.{Message, ToolCall, ToolResult, tool, blank}
use temporal_agent.Workflow.Agent.Json.{Json}
use temporal_agent.Workflow.Agent.Inputs.{
  AgentInput, ActivityError, CallContext, Resolution, ToolKind, activity_kind, workflow_kind,
  mcp_kind, ExecuteToolInput, Timeout, no_timeout, heartbeat, schedule_to_start, other_timeout,
}
use temporal_agent.Workflow.Agent.Choice.{seconds}
use temporal_agent.Workflow.Agent.Tools.{
  Child, take_background, call_key, child_workflow_id, background_task_id, build_child_input,
  delegation_refusal,
}
use temporal_agent.Workflow.Agent.Results.{
  sub_agent_content, decode_result, truncate_to, max_tool_result_bytes,
}
use temporal_agent.Workflow.Agent.Background.{
  BackgroundStart, new_background_start, launch, await_start,
}
use temporal_agent.Workflow.Agent.{
  AgentEnvironment, AgentRun, CallResult, call_failed, tool_returned, child_returned, task_started,
  ask, start_tool, start_child, await_call,
}

-- What the calls of a run share: its input, who calls, and what it may call.
pub record Calls : Type 0 where
  pub json : Json
  pub env : AgentEnvironment
  pub input : AgentInput
  pub chain : List Text
  pub resolutions : List (Text × Resolution)
  pub context : CallContext
  pub iteration : ℕ

-- What a call became: an error for the model, or what is waited for.
pub data ToolDispatch : Type 0 where
  unavailable : Text → ToolDispatch
  in_background : BackgroundStart → ToolDispatch
  in_child : (is_agent : Bool) → ToolDispatch
  in_activity : (queue : Text) → ToolDispatch

abbrev pub default_timeout : ℕ
default_timeout = seconds 120

unfoldable pub runs_workflow : ToolKind → Bool
runs_workflow activity_kind = false
runs_workflow workflow_kind = true
runs_workflow mcp_kind = false

unfoldable pub own_context : Calls → ToolCall → ℕ → CallContext
unfolding call_key
own_context c tc place = record c.context {
  call_id = c.input.call_prefix ++ call_key tc.id c.iteration place;
}

unfoldable pub start_activity :
    Calls → ToolCall → ℕ → Resolution → Text → AgentRun → AgentRun × ToolDispatch
unfolding ask own_context
start_activity c tc place res tool_input s =
    let given : ExecuteToolInput = record {
      name = tc.name;
      input = tool_input;
      session_id = c.input.session_id;
      agent_id = c.input.agent_id;
      user_id = c.input.user_id;
      call = if res.needs_call_context then some (own_context c tc place) else none;
    } in
    (
      ask
          (start_tool given res.task_queue
            (if eqb res.timeout 0 then default_timeout else res.timeout))
          s,
      in_activity res.task_queue,
    )

unfoldable pub launched : BackgroundStart → AgentRun × Option Text → AgentRun × ToolDispatch
launched start (s, none) = (s, in_background start)
launched start (s, some refused) = (s, unavailable refused)

-- The sub-agent's model runs where this turn's does now.
unfoldable pub parent_of : AgentInput → AgentRun → AgentInput
parent_of input s = record input { llm_machine = s.route.machine; llm_excluded = s.route.excluded }

unfoldable pub task_id_of : Calls → ToolCall → ℕ → Text
unfolding background_task_id call_key
task_id_of c tc place = background_task_id c.env.workflow_id (call_key tc.id c.iteration place)

-- In the background it runs under its task: "<turn>:bg:<call>:tool:…".
unfoldable pub child_id_of : Calls → ToolCall → ℕ → Bool → Text
unfolding child_workflow_id task_id_of
child_id_of c tc place background =
    child_workflow_id (if background then task_id_of c tc place else c.env.workflow_id) tc.name
      tc.id c.iteration place

unfoldable pub is_agent_tool : Resolution → Bool
is_agent_tool res = not (res.agent_id == [])

unfoldable pub start_built :
    Calls
    → ToolCall
    → ℕ
    → Resolution
    → Bool
    → Text
    → Child
    → Option Text
    → AgentRun
    → AgentRun × ToolDispatch
unfolding ask own_context task_id_of child_id_of is_agent_tool new_background_start launch launched
start_built c tc place res background tool_input child (some refused) s = (s, unavailable refused)
start_built c tc place res background tool_input child none s =
    let start =
      new_background_start c.json c.input tc tool_input (own_context c tc place)
        (task_id_of c tc place) (child_id_of c tc place background) child (is_agent_tool res) in
    if background then launched start (launch c.env start s) else (
      ask (start_child (child_id_of c tc place background) child.queue child.workflow child.input)
          s,
      in_child (is_agent_tool res),
    )

unfoldable pub with_child :
    Calls
    → ToolCall
    → ℕ
    → Resolution
    → Bool
    → Text
    → Text ⊎ Child
    → AgentRun
    → AgentRun × ToolDispatch
unfolding is_agent_tool delegation_refusal start_built
with_child c tc place res background tool_input (inl refused) s = (s, unavailable refused)
with_child c tc place res background tool_input (inr child) s =
    start_built c tc place res background tool_input child
      (if is_agent_tool res then delegation_refusal c.json c.chain res.agent_id else none) s

unfoldable pub start_workflow :
    Calls → ToolCall → ℕ → Resolution → Bool → Text → AgentRun → AgentRun × ToolDispatch
unfolding own_context child_id_of build_child_input parent_of with_child
start_workflow c tc place res background tool_input s =
    with_child c tc place res background tool_input
      (build_child_input c.json tool_input (parent_of c.input s) (child_id_of c tc place background)
        res (own_context c tc place) c.input.agent_id c.env.task_queue)
      s

unfoldable pub start_call :
    Calls → ToolCall → ℕ → Resolution → Bool → Text → AgentRun → AgentRun × ToolDispatch
unfolding start_activity start_workflow runs_workflow
start_call c tc place res background tool_input s =
    if runs_workflow res.kind
    then start_workflow c tc place res background tool_input s
    else start_activity c tc place res tool_input s

unfoldable pub start_taken :
    Calls → ToolCall → ℕ → Resolution → Text ⊎ (Text × Bool) → AgentRun → AgentRun × ToolDispatch
unfolding start_call
start_taken c tc place res (inl refused) s = (s, unavailable refused)
start_taken c tc place res (inr (tool_input, background)) s =
    if background && (c.input.turn_key == [])
    then (
      s,
      unavailable (
          text
            "background tasks are launched from a session's turn only: make this call without background, and wait for its result"),
    )
    else start_call c tc place res background tool_input s

-- The call of a tool that the agent may use, or of one that it may not.
unfoldable pub start_allowed :
    Calls → ToolCall → ℕ → Option Resolution → AgentRun → AgentRun × ToolDispatch
unfolding take_background start_taken start_call
start_allowed c tc place none s = (
  s,
  unavailable
      (text "Tool " ++ (c.json.go_quote tc.name ++ text " is not available to this agent.")),
)
start_allowed c tc place (some res) s =
    if res.background
    then start_taken c tc place res (take_background c.json tc.input) s
    else start_call c tc place res false tc.input s

unfoldable pub dispatch : Calls → ToolCall → ℕ → AgentRun → AgentRun × ToolDispatch
unfolding start_allowed
dispatch c tc place s = start_allowed c tc place (lookup tc.name c.resolutions) s

unfoldable pub dispatch_all :
    Calls → List ToolCall → ℕ → AgentRun → AgentRun × List (ToolCall × ToolDispatch)
unfolding dispatch
dispatch_all c [] place s = (s, [])
dispatch_all c (tc ∷ tcs) place s =
    let (begun, d) = dispatch c tc place s in
    let (rest, ds) = dispatch_all c tcs (suc place) begun in (rest, (tc, d) ∷ ds)
