-- ===== src/Workflow/Task.antt =====
-- workflow/background.go: the workflow of a background task, from its tool's run to the wake of its participant.
--
-- It runs in an environment, as a turn does: what its child, an activity or the relay returns depends on what the
-- workflow asked for so far (`history`, newest first).
pub mod Wakes
mod Samples
use temporal_agent.Common.{
  take, ℕ, ◌+◌, ◌-◌, ◌/◌, ◌^◌, min, max, ap, ◌⊎◌, inl, inr, Bool, true, false, ◌&&◌, ◌||◌, Option,
  none, some, List, [], ◌∷◌, ◌++◌, eqb, if◌then◌else◌, In, Text, text, text_equality,
  number_equality, put,
}
use temporal_agent.Store.Keys.{turn_key}
use temporal_agent.Workflow.Ids.{participant_workflow_id}
use temporal_agent.Workflow.Messages.{ParticipantMessage, ParticipantInput}
use temporal_agent.Workflow.Agent.{ChildResult}
use temporal_agent.Workflow.Agent.Inputs.{AgentOutput, BackgroundTaskInput, TurnRef}
use temporal_agent.Workflow.Agent.Results.{sub_agent_content, decode_result, truncate_to}

-- Why a child workflow failed.
pub data ChildError : Type 0 where
  child_cancelled : (shown : Text) → ChildError
  application : (message : Text) → ChildError
  timed_out : ChildError
  terminated : ChildError
  other_error : (shown : Text) → ChildError

pub record TaskEnd : Type 0 where
  pub task_id : Text
  pub end_state : Text
  pub content : Text

-- What writing the end answers: its message (0 when the sweep ended the task), and what waking takes.
pub record TaskPosted : Type 0 where
  pub gone : Bool
  pub message_id : ℕ
  pub wake : Bool
  pub session_id : Text
  pub turn_key : Text
  pub user_id : Text
  pub user_name : Text
  pub channel : Text
  pub channel_id : Text
  pub session_channel : Text
  pub session_channel_id : Text
  pub sign_reply : Bool
  pub file : Option Text

pub data TaskEffect : Type 0 where
  run_tool : BackgroundTaskInput → TaskEffect
  post_result : TaskEnd → TaskEffect
  tell_file : TurnRef → (agent file : Text) → TaskEffect
  tell_result : (session task agent : Text) (message : ℕ) → TaskEffect
  relay_message : (workflow : Text) → ParticipantMessage → ParticipantInput → TaskEffect
  write_turn_end : (session turn agent reason : Text) → TaskEffect
  answer_channel : (session channel channel_id signer content : Text) → TaskEffect
  task_woken : (id : Text) → TaskEffect

-- `stopped` says whether the task was cancelled when its child ended.
pub record TaskEnvironment : Type 0 where
  pub task_id : Text
  pub stopped : Bool
  pub child_result : ChildError ⊎ ChildResult
  pub post_answer : List TaskEffect → Text ⊎ TaskPosted
  pub relay_failure : List TaskEffect → Option Text

unfoldable pub child_failure : ChildError → Text
child_failure (child_cancelled shown) = shown
child_failure (application message) = message
child_failure timed_out = text "it ran out of time"
child_failure terminated = text "it was terminated"
child_failure (other_error shown) = shown

unfoldable pub is_cancellation : ChildError → Bool
is_cancellation (child_cancelled shown) = true
is_cancellation (application message) = false
is_cancellation timed_out = false
is_cancellation terminated = false
is_cancellation (other_error shown) = false

unfoldable pub sub_agent_cancelled : ChildResult → Bool
sub_agent_cancelled result = read result.as_output
  where
    read : Option AgentOutput → Bool
    read none = false
    read (some out) = out.cancelled

-- A tool that ended on the stop: in error, or a sub-agent that returned what it had, cancelled.
unfoldable pub task_cancelled : Bool → Bool → ChildError ⊎ ChildResult → Bool
unfolding is_cancellation sub_agent_cancelled
task_cancelled stopped is_sub_agent (inl err) = stopped || is_cancellation err
task_cancelled stopped is_sub_agent (inr result) =
    stopped && (is_sub_agent && sub_agent_cancelled result)

abbrev pub max_task_result_bytes : ℕ
max_task_result_bytes = 2 ^ 20

unfoldable pub task_content : Bool → ChildError ⊎ ChildResult → Text × Bool
unfolding child_failure sub_agent_content decode_result
task_content is_sub_agent (inl err) = (text "The task failed: " ++ child_failure err, true)
task_content is_sub_agent (inr result) =
    if is_sub_agent then sub_agent_content result else decode_result result

unfoldable pub task_end : TaskEnvironment → BackgroundTaskInput → TaskEnd
unfolding task_cancelled task_content truncate_to
task_end env input =
    let said = task_content input.is_sub_agent env.child_result in
    if task_cancelled env.stopped input.is_sub_agent env.child_result
    then record { task_id = env.task_id; end_state = text "cancelled"; content = [] }
    else record {
      task_id = env.task_id;
      end_state = if said.1 then text "failed" else text "done";
      content = truncate_to said.0 max_task_result_bytes;
    }

unfoldable pub wake_message : TaskPosted → ParticipantMessage
wake_message out = record {
  message_id = out.message_id;
  user_id = out.user_id;
  user_name = out.user_name;
  next = [];
  earlier_turns = [];
  sign_reply = out.sign_reply;
  part = none;
  channel = out.channel;
  channel_id = out.channel_id;
}

-- Past the relay's attempts: an end under the turn that would have answered, and the channel is told.
unfoldable pub wake_failed : Text → TaskPosted → Option Text → List TaskEffect → List TaskEffect
unfolding turn_key
wake_failed agent out none history = history
wake_failed agent out (some failure) history =
    let reason =
      text "la fin de la tâche n'a pas pu réveiller @" ++ (agent ++ (text " : " ++ failure)) in
    answer_channel out.session_id out.channel out.channel_id (if out.sign_reply then agent else [])
      (text "Error processing message: " ++ reason)
    ∷ write_turn_end out.session_id (turn_key out.message_id agent) agent reason
    ∷ history

unfoldable pub wake_participant :
    TaskEnvironment → Text → TaskPosted → List TaskEffect → List TaskEffect
unfolding participant_workflow_id wake_message wake_failed
wake_participant env agent out history =
    let start : ParticipantInput = record {
      session_id = out.session_id;
      agent_id = agent;
      channel = out.session_channel;
      channel_id = out.session_channel_id;
      inbox = [];
    } in
    let asked =
      relay_message (participant_workflow_id out.session_id agent) (wake_message out) start
      ∷ history in
    wake_failed agent out (env.relay_failure asked) asked

unfoldable pub tell_posted_file :
    Text → TaskPosted → Option Text → List TaskEffect → List TaskEffect
tell_posted_file agent out none history = history
tell_posted_file agent out (some file) history =
    tell_file (record { session_id = out.session_id; turn_key = out.turn_key }) agent file ∷ history

unfoldable pub posted :
    TaskEnvironment
    → BackgroundTaskInput
    → Text ⊎ TaskPosted
    → List TaskEffect
    → List TaskEffect × Option Text
unfolding tell_posted_file wake_participant
posted env input (inl err) history = (history, some err)
posted env input (inr out) history =
    let filed = tell_posted_file input.agent_id out out.file history in
    let told =
      if eqb out.message_id 0
      then filed
      else tell_result input.session_id env.task_id input.agent_id out.message_id ∷ filed in
    let woken = task_woken env.task_id ∷ wake_participant env input.agent_id out told in
    (if out.gone then history else if out.wake then woken else told, none)

-- What the workflow asks for, newest first, and the error that it fails with.
unfoldable pub background_task :
    TaskEnvironment → BackgroundTaskInput → List TaskEffect × Option Text
unfolding task_end posted
background_task env input =
    let ended = post_result (task_end env input) ∷ run_tool input ∷ [] in
    posted env input (env.post_answer ended) ended
