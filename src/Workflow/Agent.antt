-- ===== src/Workflow/Agent.antt =====
-- workflow/agent.go, workflow/agent_llm.go: the workflow of a turn, which calls the model, and the tools that it asks
-- for, until it answers.
--
-- It runs in an environment, as a participant does: what an activity, a tool or the model returns, and whether
-- the run is cancelled, depend on what the workflow asked for so far (`history`, newest first). A step in a context
-- that is disconnected from a cancelled one is the same step here.
pub mod Outputs
pub mod Collect
pub mod Results
pub mod Choice
pub mod Json
pub mod Inputs
pub mod Route
pub mod Tools
pub mod Background
pub mod Dispatch
pub mod Quiet
pub mod Loop
mod Samples
use temporal_agent.Common.{
  drop, ℕ, ◌+◌, ◌-◌, ◌/◌, ap, ◌⊎◌, Bool, false, not, ◌||◌, Option, none, List, [], ◌∷◌, ◌++◌, eqb,
  if◌then◌else◌, length, any, all, In, ◌==◌, Text, text, text_equality, number_equality, put,
}
use temporal_agent.Store.Messages.{Message, ToolCall}
use temporal_agent.Workflow.Agent.Inputs.{
  AgentInput, AgentOutput, LlmMachine, LlmRequest, LlmResponse, ActivityError, Resolution, TurnRef,
  ExecuteToolInput, ChildInput, BackgroundTask, BackgroundTaskInput,
}

pub data LlmMode : Type 0 where
  never : LlmMode
  prefer : LlmMode
  require : LlmMode

pub record LlmRoute : Type 0 where
  pub mode : LlmMode
  pub machine : Option LlmMachine
  pub excluded : List Text
  pub off : Bool
  pub unreached : List Text
  pub noting : Bool
  pub noted : Bool
  pub session_id : Text
  pub participant : Text
  pub agent : Text

abbrev pub no_route : LlmRoute
no_route = record {
  mode = never;
  machine = none;
  excluded = [];
  off = false;
  unreached = [];
  noting = false;
  noted = false;
  session_id = [];
  participant = [];
  agent = [];
}

-- What the workflow asks of its environment. A tool's call is waited for apart from its start, by its place among
-- the calls of its answer.
pub data AgentEffect : Type 0 where
  load_skills : (agent : Text) → AgentEffect
  list_tools : (agent user : Text) → AgentEffect
  persist : (start : ℕ) (messages : List Message) → AgentEffect
  choose_machine : (user : Text) (excluded : List Text) → AgentEffect
  set_machine_aside : (machine : Text) → AgentEffect
  show_notice : (session participant agent text : Text) → AgentEffect
  -- A call of the model, with how many attempts Temporal makes of it at most.
  call_llm : LlmRequest → (max_attempts : ℕ) → AgentEffect
  call_llm_on_machine :
      LlmRequest → (machine : Text) (step attempt : ℕ) (max_attempts : ℕ) → AgentEffect
  sleep : ℕ → AgentEffect
  respond : (session channel channel_id signer content : Text) → AgentEffect
  tell_tool_calls : (session channel channel_id : Text) → List ToolCall → AgentEffect
  tell_files : TurnRef → (agent : Text) (files : List Text) → AgentEffect
  start_tool : ExecuteToolInput → (queue : Text) (timeout : ℕ) → AgentEffect
  start_child : (id queue workflow : Text) → ChildInput → AgentEffect
  await_call : ℕ → AgentEffect
  register_task : BackgroundTask → AgentEffect
  start_task : BackgroundTaskInput → (id queue : Text) → AgentEffect
  drop_task : (id : Text) → AgentEffect
  tell_task_started : (session id participant : Text) → AgentEffect

-- An agent that says nothing of machines is on `never`.
pub record SkillsOutput : Type 0 where
  pub name : Text
  pub llm_on_machine : LlmMode
  pub run_skills : List Text

pub record ToolsOutput : Type 0 where
  pub tools : List Text
  pub resolutions : List (Text × Resolution)
  pub refused : Text
  pub closed : List Text

pub record ChosenMachine : Type 0 where
  pub machine : Option LlmMachine
  pub machines_off : Bool

-- What a tool's activity returns.
pub record ToolOutput : Type 0 where
  pub content : Text
  pub is_error : Bool
  pub files : List Text

-- A workflow tool's result is JSON; a sub-agent's is its output too, when it reads as one.
pub record ChildResult : Type 0 where
  pub raw : Text
  pub as_output : Option AgentOutput
  pub as_result : Option (Text × Bool)

-- What a call that is waited for ends with, by what was started for it.
pub data CallResult : Type 0 where
  call_failed : ActivityError → CallResult
  tool_returned : ToolOutput → CallResult
  child_returned : ChildResult → CallResult
  task_started : CallResult

-- `none` for a result is no error; a task's registration answers why it is refused, or the empty text.
pub record AgentEnvironment : Type 0 where
  pub workflow_id : Text
  pub task_queue : Text
  pub queues : List (Text × Text)
  pub is_cancelled : List AgentEffect → Bool
  pub skills_result : List AgentEffect → ActivityError ⊎ SkillsOutput
  pub tools_result : List AgentEffect → ActivityError ⊎ ToolsOutput
  pub persist_fails : List AgentEffect → Bool
  pub machine_choice : List AgentEffect → ChosenMachine
  pub llm_result : List AgentEffect → ActivityError ⊎ LlmResponse
  pub sleep_result : List AgentEffect → Option ActivityError
  pub register_result : List AgentEffect → ActivityError ⊎ Text
  pub call_result : List AgentEffect → CallResult

-- `turn` is what the run produced, `persisted` how many of those messages are written.
pub record AgentRun : Type 0 where
  pub turn : List Message
  pub persisted : ℕ
  pub route : LlmRoute
  pub history : List AgentEffect

unfoldable pub ask : AgentEffect → AgentRun → AgentRun
ask e s = record s { history = e ∷ s.history }

unfoldable pub produce : List Message → AgentRun → AgentRun
produce messages s = record s { turn = s.turn ++ messages }

-- The messages that are not written yet.
abbrev pub pending : AgentRun → List Message
pending s = drop s.persisted s.turn

-- Writes them; a failed write is made again with the next.
unfoldable pub flush : AgentEnvironment → AgentInput → AgentRun → AgentRun
unfolding ask
flush env input s =
    let asked = ask (persist s.persisted (pending s)) s in
    if (input.turn_key == []) || eqb (length (pending s)) 0
    then s
    else if env.persist_fails asked.history
    then asked
    else record asked { persisted = s.persisted + length (pending s) }
