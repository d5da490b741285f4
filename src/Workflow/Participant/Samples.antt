-- ===== src/Workflow/Participant/Samples.antt =====
-- A message answered, handed on, or stopped before its turn starts.
use temporal_agent.Common.{
  ◌+◌, ◌≡◌, refl, inl, true, false, none, some, [], ◌∷◌, ◌++◌, arith, leb, if◌then◌else◌, leb_iff,
  length, In, text, text_eq, text_equality, number_equality,
}
use temporal_agent.Store.Keys.{turn_key}
use temporal_agent.Workflow.Messages.{AddressedAgent, ParticipantMessage, ParticipantInput}
use temporal_agent.Workflow.Participant.{
  cleared_reason, write_end, clear, TurnOutput, Arrivals, Environment, Participant, checked,
}
use temporal_agent.Workflow.Participant.Relay.{Reply}
use temporal_agent.Workflow.Participant.Turn.{Ran, turn_ran}
use temporal_agent.Workflow.Participant.Answer.{check, answer}
use temporal_agent.Workflow.Participant.Tally.{tally}
use temporal_agent.Workflow.Participant.Tally.Starts.{starts, may_start, answer-starts}
use temporal_agent.Workflow.Participant.Tally.Relays.{relays, may_relay, has_next, turn_ran-relays}
use temporal_agent.Workflow.Participant.Clearing.{clear-ends}
use temporal_agent.Workflow.Participant.Ending.{Ends, run-Ends}
use temporal_agent.Workflow.Ids.{session_of, participant_of_workflow, participant_workflow_id}
use temporal_agent.Workflow.Ids.Belonging.{
  after_colon, participant_of_workflow-participant_workflow_id,
}

abbrev nothing_new : Arrivals
nothing_new = record { messages = []; stops = []; clears = 0 }

abbrev done_output : TurnOutput
done_output = record { new_messages = text "hello" ∷ []; error = []; error_type = [] }

-- A turn that ends well; nothing is delivered meanwhile.
abbrev calm : Environment
calm = record {
  arrivals = λ history. nothing_new;
  now = λ history. 0;
  check_result = λ history. checked false (text "Ada");
  turn_steps = λ history. [];
  turn_result = λ history. (none, done_output);
  relay_result = λ history. none;
  history_is_large = λ history. false;
}

abbrev member : ParticipantInput
member = record {
  session_id = text "s";
  agent_id = text "ada";
  channel = text "web";
  channel_id = text "1";
  inbox = [];
}

abbrev bob : AddressedAgent
bob = record { id = text "bob"; name = text "Bob"; mention = text "bob" }

abbrev question : ParticipantMessage
question = record {
  message_id = 7;
  user_id = text "u";
  user_name = text "Eve";
  next = bob ∷ [];
  earlier_turns = [];
  sign_reply = true;
  channel = [];
  channel_id = [];
  part = none;
}

abbrev ready : Participant
ready = record {
  inbox = [];
  current = none;
  gone = false;
  messages = [];
  stops = [];
  clears = 0;
  history = [];
}

answer-starts_example :
    starts (answer calm member question ready).history
    ≡ (if may_start
          (turn_key question.message_id member.agent_id)
          (calm.check_result (check calm member question ready).history)
          (check calm member question ready).stops
        then 1
        else 0)
      + starts ready.history
answer-starts_example = answer-starts calm member question ready (λ e. omega arith)

abbrev ended_well : Ran
ended_well = record {
  running = record { participant = ready; stopped = false; cleared = true };
  output = done_output;
  reason = [];
}

abbrev signed : Reply
signed = record { channel = text "web"; channel_id = text "1"; signer = text "Ada" }

turn_ran-relays_example :
    relays (turn_ran calm member question (text "m7.ada") signed ended_well).history ≡ 1
unfolding may_relay has_next relays tally text_eq
turn_ran-relays_example = turn_ran-relays calm member question signed (text "m7.ada") ended_well

participant_of_workflow_example :
    (session_of (participant_workflow_id (text "s") (text "ada") ++ text ":m7") ≡ some (text "s"))
    × (participant_of_workflow (participant_workflow_id (text "s") (text "ada") ++ text ":m7")
        ≡ some (text "ada"))
participant_of_workflow_example =
    participant_of_workflow-participant_workflow_id (text "s") (text "ada") (text ":m7") refl refl
      (λ e. ground arith) (λ e. ground arith) (after_colon (text "m7"))

abbrev waiting_one : Participant
waiting_one = record ready { messages = question ∷ [] }

clear-ends_example :
    ((clear calm member waiting_one).inbox ≡ [])
    × In
        (write_end (turn_key 7 (text "ada")) (text "ada") cleared_reason)
        (clear calm member waiting_one).history
clear-ends_example = clear-ends calm member waiting_one question (inl refl) (λ e. omega arith)

abbrev limited : Environment
limited = record calm { history_is_large = λ history. leb 2 (length history) }

run-Ends_example : Ends limited member waiting_one
run-Ends_example = run-Ends limited member 2 (λ h le. (leb_iff 2 (length h)).1 le) waiting_one
