-- ===== src/Store/Messages.antt =====
-- store/message.go, store/background_task.go: a stored message, and what it carries.
-- A JSON value is its bytes. A time is its nanoseconds, `none` the zero time.
use temporal_agent.Common.{
  ℕ, Bool, Option, none, List, [], Text, text_equality, number_equality, text,
}

pub data Role : Type 0 where
  user : Role
  assistant : Role
  tool : Role

pub record ToolCall : Type 0 where
  pub id : Text
  pub name : Text
  pub input : Text

pub record ToolResult : Type 0 where
  pub tool_call_id : Text
  pub content : Text
  pub is_error : Bool

pub record ForkRef : Type 0 where
  pub session_id : Text
  pub title : Text
  pub up_to_message_id : ℕ

pub record TaskFollowUp : Type 0 where
  pub user_name : Text
  pub text : Text

pub record TaskFile : Type 0 where
  pub id : Text
  pub name : Text
  pub size : ℕ

pub record TaskRef : Type 0 where
  pub id : Text
  pub tool : Text
  pub summary : Text
  pub turn_key : Text
  pub call_id : Text
  pub state : Text
  pub requested_by : Text
  pub started_at : Option ℕ
  pub ended_at : Option ℕ
  pub cancelled_by : Text
  pub follow_ups : List TaskFollowUp
  pub file : Option TaskFile

pub record Usage : Type 0 where
  pub input_tokens : ℕ
  pub output_tokens : ℕ
  pub cache_creation_input_tokens : ℕ
  pub cache_read_input_tokens : ℕ

pub record Message : Type 0 where
  pub role : Role
  pub content : Text
  pub user_id : Text
  pub agent_id : Text
  pub author : Text
  pub kind : Text
  pub tool_calls : List ToolCall
  pub tool_result : Option ToolResult
  pub fork : Option ForkRef
  pub task : Option TaskRef
  pub model : Text
  pub usage : Option Usage
  pub machine_id : Text
  pub machine : Text

-- The zero value, of a role.
abbrev pub blank : Role → Message
blank role = record {
  role = role;
  content = [];
  user_id = [];
  agent_id = [];
  author = [];
  kind = [];
  tool_calls = [];
  tool_result = none;
  fork = none;
  task = none;
  model = [];
  usage = none;
  machine_id = [];
  machine = [];
}

abbrev pub kind_fork_summary : Text
kind_fork_summary = text "fork_summary"

abbrev pub kind_turn_end : Text
kind_turn_end = text "turn_end"

abbrev pub kind_fork_report : Text
kind_fork_report = text "fork_report"

abbrev pub kind_task_result : Text
kind_task_result = text "task_result"
