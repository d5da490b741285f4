-- ===== src/Workflow/Participant.antt =====
-- workflow/participant.go: the workflow that answers a participant's messages, one at a time.
--
-- The workflow runs in an environment: what an activity or the turn's workflow returns, and the signals
-- that are delivered meanwhile, depend on what the workflow asked for so far (`history`, newest first).
pub mod Relay
pub mod Turn
pub mod Answer
pub mod Tally
pub mod Clearing
pub mod Growth
pub mod Ending
mod Samples
use temporal_agent.Common.{
  ℕ, zero, suc, ◌+◌, ◌-◌, ◌/◌, ◌⊎◌, inl, inr, Bool, true, false, not, ◌&&◌, ◌||◌, Option, none,
  some, List, [], ◌∷◌, ◌++◌, ltb, if◌then◌else◌, length, any, all, select, In, ◌==◌, Text, text,
  text_eq, text_equality, number_equality, put,
}
use temporal_agent.Store.Keys.{turn_key}
use temporal_agent.Workflow.Ids.{participant_workflow_id, turn_workflow_id}
use temporal_agent.Workflow.Messages.{
  AddressedAgent, Part, ParticipantMessage, ParticipantInput, ParticipantState, CurrentMessage,
  TurnEvent, or_else, note_for,
}

pub data TurnEventType : Type 0 where
  turn_started : TurnEventType
  turn_done : TurnEventType

-- AgentWorkflowInput, in what the participant sets.
pub record TurnInput : Type 0 where
  pub workflow_id : Text
  pub session_id : Text
  pub user_id : Text
  pub user_name : Text
  pub agent_id : Text
  pub turn : Text
  pub earlier_turns : List Text
  pub channel : Text
  pub channel_id : Text
  pub part_note : Text
  pub sign_reply : Bool

-- AgentWorkflowOutput, in what the participant reads; a message is its JSON.
pub record TurnOutput : Type 0 where
  pub new_messages : List Text
  pub error : Text
  pub error_type : Text

-- What the workflow asks of its environment. An end names its agent and why the turn failed (store.TurnEnd).
pub data Effect : Type 0 where
  check_turn : (turn : Text) → Effect
  start_turn : TurnInput → Effect
  cancel_turn : Effect
  persist_context : (turn : Text) (messages : List Text) → Effect
  write_end : (turn agent reason : Text) → Effect
  notify_turn : TurnEventType → TurnEvent → Effect
  notify_response : (channel channel_id signer content : Text) → Effect
  send_relay : (workflow_id : Text) → ParticipantMessage → ParticipantInput → Effect

pub record Arrivals : Type 0 where
  pub messages : List ParticipantMessage
  pub stops : List Text
  pub clears : ℕ

-- What checking a turn ends with: `answered` and the agent's name, or one of the errors.
pub data CheckResult : Type 0 where
  session_gone : CheckResult
  check_failed : (failure : Text) → CheckResult
  checked : (answered : Bool) (agent_name : Text) → CheckResult

-- What the selector runs while the turn's workflow does: a signal taken from its channel, or some delivered.
pub data Selected : Type 0 where
  take_stop : Selected
  take_clear : Selected
  take_message : Selected
  deliver : Arrivals → Selected

-- `turn_steps` is what is selected until the turn's workflow ends, `turn_result` what it ends with: the
-- text of its error, and its output.
pub record Environment : Type 0 where
  pub arrivals : List Effect → Arrivals
  pub now : List Effect → ℕ
  pub check_result : List Effect → CheckResult
  pub turn_steps : List Effect → List Selected
  pub turn_result : List Effect → Option Text × TurnOutput
  pub relay_result : List Effect → Option Text
  pub history_is_large : List Effect → Bool

pub record Participant : Type 0 where
  pub inbox : List ParticipantMessage
  pub current : Option CurrentMessage
  pub gone : Bool
  -- the signals delivered and not received
  pub messages : List ParticipantMessage
  pub stops : List Text
  pub clears : ℕ
  pub history : List Effect

unfoldable pub delivered : Arrivals → Participant → Participant
delivered a p = record p {
  messages = p.messages ++ a.messages;
  stops = p.stops ++ a.stops;
  clears = p.clears + a.clears;
}

-- Asks for an effect and waits for it.
unfoldable pub perform : Environment → Effect → Participant → Participant
unfolding delivered
perform env e p = delivered (env.arrivals (e ∷ p.history)) (record p { history = e ∷ p.history })

unfoldable pub state : Participant → ParticipantState
state p = record { current = p.current; queued = length p.inbox + length p.messages }

unfoldable pub receive : Participant → Participant
receive p = record p { inbox = p.inbox ++ p.messages; messages = [] }

unfoldable pub drained_clears : Participant → Participant × Bool
drained_clears p = (record p { clears = 0 }, ltb 0 p.clears)

unfoldable pub stops_for : Text → Participant → Participant × Bool
stops_for turn p = (record p { stops = [] }, any (λ stop. stop == turn) p.stops)

unfoldable pub end_turn : Environment → Text → Text → Text → Participant → Participant
unfolding perform
end_turn env turn agent reason p = perform env (write_end turn agent reason) p

abbrev pub cleared_reason : Text
cleared_reason = text "Annulé avant d'être traité : la file de l'agent a été vidée."

abbrev pub stopped_before_reason : Text
stopped_before_reason = text "Interrompu avant de commencer : un membre a arrêté ce tour."

-- A message that a clear drops: its end, and the event that says so.
unfoldable pub drop_message :
    Environment → ParticipantInput → ParticipantMessage → Participant → Participant
unfolding end_turn perform
drop_message env input m p =
    let turn = turn_key m.message_id input.agent_id in
    if m.message_id == 0
    then p
    else perform env
        (notify_turn turn_done (record {
          agent_id = input.agent_id;
          agent_name = [];
          turn = turn;
          user_id = [];
          user_name = [];
        }))
        (end_turn env turn input.agent_id cleared_reason p)

unfoldable pub drop_messages :
    Environment → ParticipantInput → List ParticipantMessage → Participant → Participant
unfolding drop_message
drop_messages env input [] p = p
drop_messages env input (m ∷ ms) p = drop_messages env input ms (drop_message env input m p)

unfoldable pub clear : Environment → ParticipantInput → Participant → Participant
unfolding receive drop_messages
clear env input p = drop_messages env input (receive p).inbox (record (receive p) { inbox = [] })
