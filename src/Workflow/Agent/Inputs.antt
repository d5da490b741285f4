-- ===== src/Workflow/Agent/Inputs.antt =====
-- workflow/agent.go, activity/llm.go, activity/tool_exec.go, tool/metadata.go: what the workflow of a turn is given, and
-- what it gives the model, the tools and the workflows it starts.
use temporal_agent.Common.{
  ℕ, Bool, false, Option, none, List, [], Text, text_equality, number_equality,
}
use temporal_agent.Store.Messages.{Message, ToolCall, Usage}

pub record LlmMachine : Type 0 where
  pub id : Text
  pub name : Text
  pub model : Text

pub record TurnRef : Type 0 where
  pub session_id : Text
  pub turn_key : Text

pub record AgentInput : Type 0 where
  pub session_id : Text
  pub user_id : Text
  pub user_name : Text
  pub agent_id : Text
  pub user_message : Text
  pub system_prompt : Text
  pub model : Text
  pub turn_key : Text
  pub earlier_turns : List Text
  pub load_user_memory : Bool
  pub agent_chain : List Text
  pub channel : Text
  pub channel_id : Text
  pub session_turn : Option TurnRef
  pub part_note : Text
  pub sign_reply : Bool
  pub llm_machine : Option LlmMachine
  pub llm_excluded : List Text
  pub call_prefix : Text

pub record AgentOutput : Type 0 where
  pub response : Text
  pub new_messages : List Message
  pub goal_achieved : Bool
  pub cancelled : Bool
  pub error : Text
  pub error_type : Text

abbrev pub no_output : AgentOutput
no_output = record {
  response = [];
  new_messages = [];
  goal_achieved = false;
  cancelled = false;
  error = [];
  error_type = [];
}

pub record CallContext : Type 0 where
  pub agent_chain : List Text
  pub channel : Text
  pub channel_id : Text
  pub agent : Text
  pub notify_queue : Text
  pub memory_version : Option ℕ
  pub memory_unread : Bool
  pub turn : Option TurnRef
  pub call_id : Text
  pub user_id : Text
  pub run_skills : List Text

pub data ToolKind : Type 0 where
  activity_kind : ToolKind
  workflow_kind : ToolKind
  mcp_kind : ToolKind

pub record Resolution : Type 0 where
  pub kind : ToolKind
  pub workflow_name : Text
  pub task_queue : Text
  pub background : Bool
  pub agent_id : Text
  pub private_input : Bool
  pub needs_call_context : Bool
  pub timeout : ℕ

pub record PromptRef : Type 0 where
  pub override : Text
  pub user_name : Text
  pub part_note : Text
  pub memory_of : Text
  pub closed : List Text

pub record TurnHistory : Type 0 where
  pub session_id : Text
  pub earlier_turns : List Text
  pub turn_key : Text
  pub tail : List Message
  pub tail_start : ℕ

pub record LlmRequest : Type 0 where
  pub model : Text
  pub agent_id : Text
  pub user_id : Text
  pub tools : List Text
  pub prompt : PromptRef
  pub messages : List Message
  pub history : Option TurnHistory

pub record LlmResponse : Type 0 where
  pub content : Text
  pub tool_calls : List ToolCall
  pub stop_reason : Text
  pub model : Text
  pub usage : Option Usage
  pub memory_version : Option ℕ
  pub memory_unread : Bool

abbrev pub no_response : LlmResponse
no_response = record {
  content = [];
  tool_calls = [];
  stop_reason = [];
  model = [];
  usage = none;
  memory_version = none;
  memory_unread = false;
}

-- An activity's error: whether it is a cancellation, the kind of timeout, the type of the application error it
-- carries ("" if none), its message without Temporal's envelope and with it, and the wait that a provider asked for (0 if none).
pub data Timeout : Type 0 where
  no_timeout : Timeout
  heartbeat : Timeout
  schedule_to_start : Timeout
  other_timeout : Timeout

pub record ActivityError : Type 0 where
  pub canceled : Bool
  pub timeout : Timeout
  pub type : Text
  pub message : Text
  pub shown : Text
  pub retry_after : ℕ

pub record ExecuteToolInput : Type 0 where
  pub name : Text
  pub input : Text
  pub session_id : Text
  pub agent_id : Text
  pub user_id : Text
  pub call : Option CallContext

-- A workflow tool's input: a sub-agent's, or the JSON of any other's.
pub data ChildInput : Type 0 where
  sub_agent : AgentInput → ChildInput
  raw_input : Text → ChildInput

pub record BackgroundTask : Type 0 where
  pub id : Text
  pub session_id : Text
  pub participant : Text
  pub user_id : Text
  pub user_name : Text
  pub tool : Text
  pub summary : Text
  pub turn_key : Text
  pub call_id : Text
  pub channel : Text
  pub channel_id : Text

pub record BackgroundTaskInput : Type 0 where
  pub session_id : Text
  pub agent_id : Text
  pub tool : Text
  pub workflow : Text
  pub child_id : Text
  pub task_queue : Text
  pub input : ChildInput
  pub is_sub_agent : Bool
