-- ===== src/Workflow/Agent/Collect.antt =====
-- workflow/agent.go: the results of an answer's calls, waited for in their order.
use temporal_agent.Common.{
  ℕ, suc, Bool, true, false, some, List, [], ◌∷◌, ◌++◌, if◌then◌else◌, Text, text, text_equality,
  number_equality,
}
use temporal_agent.Store.Messages.{Message, ToolCall, tool, blank}
use temporal_agent.Workflow.Agent.Json.{Json}
use temporal_agent.Workflow.Agent.Inputs.{
  Timeout, no_timeout, heartbeat, schedule_to_start, other_timeout,
}
use temporal_agent.Workflow.Agent.Results.{
  sub_agent_content, decode_result, truncate_to, max_tool_result_bytes,
}
use temporal_agent.Workflow.Agent.Background.{await_start}
use temporal_agent.Workflow.Agent.{
  AgentRun, CallResult, call_failed, tool_returned, child_returned, task_started, ask, await_call,
}
use temporal_agent.Workflow.Agent.Dispatch.{
  Calls, ToolDispatch, unavailable, in_background, in_child, in_activity,
}

-- What the model reads of a call: the content, whether it is an error, and the files it published.
pub record Collected : Type 0 where
  pub content : Text
  pub is_error : Bool
  pub files : List Text

unfoldable pub plain : Text × Bool → Collected
plain (content, is_error) = record { content = content; is_error = is_error; files = [] }

pub is_schedule_to_start : Timeout → Bool
is_schedule_to_start schedule_to_start = true
is_schedule_to_start no_timeout = false
is_schedule_to_start heartbeat = false
is_schedule_to_start other_timeout = false

-- A result of another kind than the call's is not there to read.
unfoldable pub child_content : Bool → CallResult → Collected
unfolding plain sub_agent_content decode_result
child_content is_agent (call_failed err) = plain (text "Workflow failed: " ++ err.shown, true)
child_content is_agent (child_returned result) =
    plain (if is_agent then sub_agent_content result else decode_result result)
child_content is_agent (tool_returned out) = plain ([], false)
child_content is_agent task_started = plain ([], false)

unfoldable pub activity_content : Json → ToolCall → Text → CallResult → Collected
unfolding plain is_schedule_to_start
activity_content json tc queue (call_failed err) = plain (why, true)
  where
    why : Text
    why =
        if is_schedule_to_start err.timeout
        then text "Tool "
          ++ (json.go_quote tc.name
              ++ (text " is unavailable: no worker is serving task queue "
                  ++ (json.go_quote queue ++ text ".")))
        else text "Tool execution failed: " ++ err.shown
activity_content json tc queue (tool_returned out) = record {
  content = out.content;
  is_error = out.is_error;
  files = out.files;
}
activity_content json tc queue (child_returned result) = plain ([], false)
activity_content json tc queue task_started = plain ([], false)

unfoldable pub collect_one : Calls → ToolCall → ToolDispatch → ℕ → AgentRun → AgentRun × Collected
unfolding ask await_start plain child_content activity_content
collect_one c tc (unavailable why) place s = (s, plain (why, true))
collect_one c tc (in_background start) place s =
    let (t, said) = await_start c.env place start s in (t, plain said)
collect_one c tc (in_child is_agent) place s =
    let asked = ask (await_call place) s in
    (asked, child_content is_agent (c.env.call_result asked.history))
collect_one c tc (in_activity queue) place s =
    let asked = ask (await_call place) s in
    (asked, activity_content c.json tc queue (c.env.call_result asked.history))

unfoldable pub tool_message : ToolCall → Collected → Message
unfolding truncate_to
tool_message tc got = record (blank tool) {
  tool_result = some (record {
    tool_call_id = tc.id;
    content = truncate_to got.content max_tool_result_bytes;
    is_error = got.is_error;
  });
}

-- The results, in the order of the calls, and the files that activities published.
unfoldable pub collect :
    Calls → List (ToolCall × ToolDispatch) → ℕ → AgentRun → AgentRun × (List Message × List Text)
unfolding collect_one tool_message
collect c [] place s = (s, ([], []))
collect c ((tc, d) ∷ ds) place s =
    let (t, got) = collect_one c tc d place s in
    let (rest, more) = collect c ds (suc place) t in
    (rest, (tool_message tc got ∷ more.0, got.files ++ more.1))
