-- ===== src/Workflow/Participant/Turn.antt =====
-- workflow/participant.go: the turn's workflow, run until it ends.
use temporal_agent.Common.{
  ℕ, zero, suc, Bool, true, false, not, ◌&&◌, ◌||◌, Option, none, some, List, [], ◌∷◌, ◌++◌,
  if◌then◌else◌, ◌==◌, Text, text, text_equality, number_equality,
}
use temporal_agent.Workflow.Ids.{participant_workflow_id, turn_workflow_id}
use temporal_agent.Workflow.Messages.{ParticipantMessage, ParticipantInput, note_for}
use temporal_agent.Workflow.Participant.{
  TurnInput, TurnOutput, Effect, Selected, Environment, Participant, delivered, perform, end_turn,
  clear, start_turn, cancel_turn, persist_context, take_stop, take_clear, take_message, deliver,
}
use temporal_agent.Workflow.Participant.Relay.{Reply, respond, notify_error, relay}

pub record Running : Type 0 where
  pub participant : Participant
  pub stopped : Bool
  pub cleared : Bool

-- What is asked without waiting.
unfoldable pub ask : Effect → Participant → Participant
ask e p = record p { history = e ∷ p.history }

unfoldable pub stop : Bool → Running → Running
unfolding ask
stop clear r = record {
  participant = if r.stopped then r.participant else ask cancel_turn r.participant;
  stopped = true;
  cleared = r.cleared || clear;
}

unfoldable pub got_stop : Text → Text → Running → Running
unfolding stop
got_stop turn aimed_at r =
    if not (aimed_at == []) && not (aimed_at == turn) then r else stop false r

unfoldable pub receive_stop : Text → List Text → Running → Running
unfolding got_stop
receive_stop turn [] r = r
receive_stop turn (aimed_at ∷ stops) r =
    got_stop turn aimed_at (record r { participant = record r.participant { stops = stops } })

unfoldable pub receive_message : List ParticipantMessage → Running → Running
receive_message [] r = r
receive_message (m ∷ ms) r = record r {
  participant = record r.participant { inbox = r.participant.inbox ++ (m ∷ []); messages = ms };
}

unfoldable pub receive_clear : ℕ → Running → Running
unfolding stop
receive_clear zero r = r
receive_clear (suc n) r = stop true (record r { participant = record r.participant { clears = n } })

unfoldable pub selected : Text → Selected → Running → Running
unfolding receive_stop receive_message receive_clear delivered
selected turn take_stop r = receive_stop turn r.participant.stops r
selected turn take_clear r = receive_clear r.participant.clears r
selected turn take_message r = receive_message r.participant.messages r
selected turn (deliver a) r = record r { participant = delivered a r.participant }

unfoldable pub select_all : Text → List Selected → Running → Running
unfolding selected
select_all turn [] r = r
select_all turn (s ∷ steps) r = select_all turn steps (selected turn s r)

-- A turn's workflow that failed leaves the output empty.
unfoldable pub output_of : Option Text × TurnOutput → TurnOutput
output_of (none, output) = output
output_of (some failure, output) = record { new_messages = []; error = []; error_type = [] }

unfoldable pub reason_of : Bool → Option Text × TurnOutput → Text
reason_of true result = []
reason_of false (some failure, output) = text "agent workflow: " ++ failure
reason_of false (none, output) = output.error

pub record Ran : Type 0 where
  pub running : Running
  pub output : TurnOutput
  pub reason : Text

unfoldable pub turn_input : ParticipantInput → ParticipantMessage → Text → Reply → TurnInput
unfolding turn_workflow_id participant_workflow_id note_for
turn_input input msg turn reply = record {
  workflow_id =
      turn_workflow_id (participant_workflow_id input.session_id input.agent_id) msg.message_id;
  session_id = input.session_id;
  user_id = msg.user_id;
  user_name = msg.user_name;
  agent_id = input.agent_id;
  turn = turn;
  earlier_turns = msg.earlier_turns;
  channel = reply.channel;
  channel_id = reply.channel_id;
  part_note = note_for msg.part input.agent_id msg.user_name;
  sign_reply = msg.sign_reply;
}

unfoldable pub run_turn :
    Environment → ParticipantInput → ParticipantMessage → Text → Reply → Participant → Ran
unfolding ask select_all output_of reason_of turn_input
run_turn env input msg turn reply p =
    let started = ask (start_turn (turn_input input msg turn reply)) p in
    let r =
      select_all turn (env.turn_steps started.history)
        (record { participant = started; stopped = false; cleared = false }) in
    let result = env.turn_result r.participant.history in
    record { running = r; output = output_of result; reason = reason_of r.stopped result }

unfoldable pub rewrite_turn : Environment → Text → List Text → Participant → Participant
unfolding perform
rewrite_turn env turn [] p = p
rewrite_turn env turn (m ∷ ms) p = perform env (persist_context turn (m ∷ ms)) p

abbrev pub agent_not_open : Text
agent_not_open = text "AgentNotOpen"

abbrev pub interrupted : Text
interrupted = text "Agent interrupted by user."

-- What follows a turn's end: the switch of `answer`.
unfoldable pub after_end :
    Environment
    → ParticipantInput
    → ParticipantMessage
    → Text
    → Reply
    → Ran
    → Participant
    → Participant
unfolding respond notify_error relay
after_end env input msg turn reply ran p =
    if ran.running.stopped
    then respond env reply interrupted p
    else if ran.output.error_type == agent_not_open
    then relay env input msg [] reply (notify_error env reply ran.reason p)
    else if not (ran.reason == [])
    then notify_error env reply ran.reason p
    else relay env input msg turn reply p

unfoldable pub turn_ran :
    Environment → ParticipantInput → ParticipantMessage → Text → Reply → Ran → Participant
unfolding rewrite_turn end_turn after_end clear
turn_ran env input msg turn reply ran =
    let written = rewrite_turn env turn ran.output.new_messages ran.running.participant in
    let over =
      after_end env input msg turn reply ran
        (end_turn env turn input.agent_id ran.reason written) in
    if ran.running.cleared then clear env input over else over
