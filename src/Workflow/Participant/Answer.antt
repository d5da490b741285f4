-- ===== src/Workflow/Participant/Answer.antt =====
-- workflow/participant.go: the answer to a message, and the loop.
use temporal_agent.Common.{
  ℕ, zero, suc, ◌⊎◌, inl, inr, true, false, Option, none, some, List, [], ◌∷◌, ◌++◌, if◌then◌else◌,
  ◌==◌, Text, text, text_equality, number_equality,
}
use temporal_agent.Store.Keys.{turn_key}
use temporal_agent.Workflow.Messages.{ParticipantMessage, ParticipantInput, TurnEvent, or_else}
use temporal_agent.Workflow.Participant.{
  CheckResult, Environment, Participant, perform, receive, drained_clears, stops_for, end_turn,
  stopped_before_reason, clear, turn_started, turn_done, check_turn, notify_turn, session_gone,
  check_failed, checked,
}
use temporal_agent.Workflow.Participant.Relay.{Reply, respond, notify_error}
use temporal_agent.Workflow.Participant.Turn.{run_turn, interrupted, turn_ran}

-- From a check that found the turn to be run.
unfoldable pub start_checked :
    Environment
    → ParticipantInput
    → ParticipantMessage
    → TurnEvent
    → Reply
    → Text
    → Participant
    → Participant × TurnEvent
unfolding stops_for end_turn respond perform run_turn turn_ran
start_checked env input msg event reply agent_name p =
    let (unstopped, stopped) = stops_for event.turn p in
    let named = record event { agent_name = agent_name } in
    if stopped
    then (
      respond env reply interrupted
          (end_turn env event.turn input.agent_id stopped_before_reason unstopped),
      event,
    )
    else (
      turn_ran env input msg event.turn reply (
          run_turn env input msg event.turn reply
            (perform env (notify_turn turn_started named) unstopped)),
      named,
    )

-- What the check's result leads to, with the event that says that the message is done with.
unfoldable pub act_on :
    Environment
    → ParticipantInput
    → ParticipantMessage
    → TurnEvent
    → Reply
    → CheckResult
    → Participant
    → Participant × TurnEvent
unfolding end_turn notify_error start_checked or_else
act_on env input msg event reply session_gone p = (record p { gone = true }, event)
act_on env input msg event reply (check_failed failure) p =
    let reason = text "the agent could not answer: " ++ failure in
    (notify_error env reply reason (end_turn env event.turn input.agent_id reason p), event)
act_on env input msg event reply (checked true agent_name) p = (p, event)
act_on env input msg event reply (checked false agent_name) p =
    start_checked env input msg event
      (if msg.sign_reply
        then record reply { signer = or_else agent_name input.agent_id }
        else reply)
      agent_name p

unfoldable pub event_of : ParticipantInput → ParticipantMessage → TurnEvent
event_of input msg = record {
  agent_id = input.agent_id;
  agent_name = [];
  turn = turn_key msg.message_id input.agent_id;
  user_id = msg.user_id;
  user_name = msg.user_name;
}

unfoldable pub reply_of : ParticipantInput → ParticipantMessage → Reply
reply_of input msg = record {
  channel = if msg.channel == [] then input.channel else msg.channel;
  channel_id = if msg.channel == [] then input.channel_id else msg.channel_id;
  signer = if msg.sign_reply then input.agent_id else [];
}

-- The deferred calls: the event, then no current message.
unfoldable pub finish : Environment → Participant × TurnEvent → Participant
unfolding perform
finish env (p, event) = record (perform env (notify_turn turn_done event) p) { current = none }

unfoldable pub check :
    Environment → ParticipantInput → ParticipantMessage → Participant → Participant
unfolding perform event_of
check env input msg p =
    let event = event_of input msg in
    perform env (check_turn event.turn) (record p {
      current = some (record {
        message_id = msg.message_id;
        turn = event.turn;
        user_id = msg.user_id;
        user_name = msg.user_name;
        since = env.now p.history;
      });
    })

unfoldable pub answer :
    Environment → ParticipantInput → ParticipantMessage → Participant → Participant
unfolding check act_on event_of reply_of finish
answer env input msg p =
    let q = check env input msg p in
    if msg.message_id == 0
    then p
    else finish env (
        act_on env input msg (event_of input msg) (reply_of input msg) (env.check_result q.history)
          q)

-- What a run ends with: nothing left to do, or a new run with the inbox.
pub data Ended : Type 0 where
  closed : Participant → Ended
  continued : ParticipantInput → Participant → Ended

-- The loop from its test of the inbox on.
unfoldable pub next_message :
    Environment → ParticipantInput → Participant → List ParticipantMessage → Ended ⊎ Participant
unfolding answer
next_message env input q [] = inl (closed (record q { stops = [] }))
next_message env input q (msg ∷ rest) =
    if q.gone
    then inl (closed (record q { stops = [] }))
    else if env.history_is_large q.history
    then inl (continued (record input { inbox = q.inbox }) (record q { stops = [] }))
    else inr (answer env input msg (record q { inbox = rest }))

-- One pass of the loop: the run's end, or the state that the next pass starts from.
unfoldable pub pass : Environment → ParticipantInput → Participant → Ended ⊎ Participant
unfolding receive drained_clears clear next_message
pass env input p =
    let (read, held) = drained_clears (receive p) in
    let q = if held then clear env input read else read in next_message env input q q.inbox

unfoldable pub go_on : Ended ⊎ Participant → Option Ended → Option Ended
go_on (inl ended) rest = some ended
go_on (inr q) rest = rest

unfoldable pub after_pass : Ended ⊎ Participant → Participant → Participant
after_pass (inl ended) p = p
after_pass (inr q) p = q

-- ParticipantWorkflow's loop, in at most `fuel` passes.
unfoldable pub run : ℕ → Environment → ParticipantInput → Participant → Option Ended
unfolding pass go_on after_pass
run zero env input p = none
run (suc fuel) env input p =
    let rest = run fuel env input (after_pass (pass env input p) p) in go_on (pass env input p) rest

pub started : ParticipantInput → Participant
started input = record {
  inbox = input.inbox;
  current = none;
  gone = false;
  messages = [];
  stops = [];
  clears = 0;
  history = [];
}
