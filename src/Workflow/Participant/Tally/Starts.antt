-- ===== src/Workflow/Participant/Tally/Starts.antt =====
-- How many turns an answer starts.
use temporal_agent.Common.{
  ℕ, ◌+◌, ◌≡◌, refl, ◌∙◌, ◌≢◌, Bool, true, false, not, List, [], ◌∷◌, ◌++◌, arith, if◌then◌else◌,
  eqb_iff, any, ◌==◌, Text, text, text_equality, number_equality,
}
use temporal_agent.Store.Keys.{turn_key}
use temporal_agent.Workflow.Messages.{
  AddressedAgent, ParticipantMessage, ParticipantInput, TurnEvent, or_else,
}
use temporal_agent.Workflow.Participant.{
  Effect, CheckResult, Environment, Participant, perform, stops_for, end_turn,
  stopped_before_reason, clear, turn_started, turn_done, check_turn, start_turn, cancel_turn,
  persist_context, write_end, notify_turn, notify_response, send_relay, session_gone, check_failed,
  checked,
}
use temporal_agent.Workflow.Participant.Relay.{Reply, respond, notify_error, relay_to, relay}
use temporal_agent.Workflow.Participant.Turn.{
  ask, Ran, turn_input, run_turn, rewrite_turn, agent_not_open, interrupted, after_end, turn_ran,
}
use temporal_agent.Workflow.Participant.Answer.{
  start_checked, act_on, event_of, reply_of, finish, check, answer,
}
use temporal_agent.Workflow.Participant.Tally.{
  tally, weight, IsSilent, weightless, respond-weight, end_turn-weight, event-weight,
  notify_error-weight, clear-weight, rewrite_turn-weight, select_all-weight, relay_failed-weight,
}

unfoldable pub is_start : Effect → ℕ
is_start (start_turn input) = 1
is_start (check_turn turn) = 0
is_start cancel_turn = 0
is_start (persist_context turn messages) = 0
is_start (write_end turn agent reason) = 0
is_start (notify_turn type event) = 0
is_start (notify_response channel channel_id signer content) = 0
is_start (send_relay id message input) = 0

start-IsSilent : IsSilent is_start
unfolding is_start
start-IsSilent = record {
  checks = λ turn. refl;
  cancels = refl;
  persists = λ turn messages. refl;
  ends = λ turn agent reason. refl;
  events = λ type event. refl;
  responses = λ channel channel_id signer content. refl;
}

-- The turns that a history started.
unfoldable pub starts : List Effect → ℕ
unfolding tally
starts history = tally is_start history

-- Whether a check lets a turn run, given the stops delivered.
unfoldable pub may_start : Text → CheckResult → List Text → Bool
may_start turn session_gone stops = false
may_start turn (check_failed failure) stops = false
may_start turn (checked true agent_name) stops = false
may_start turn (checked false agent_name) stops = not (any (λ stop. stop == turn) stops)

module _ (env : Environment) (input : ParticipantInput) where
  relay_to-starts :
      (msg : ParticipantMessage) (turn : Text) (reply : Reply) (next : List AddressedAgent)
      (p : Participant)
      → weight is_start (relay_to env input msg turn reply next p) ≡ weight is_start p
  unfolding relay_to is_start
  relay_to-starts msg turn reply [] p = refl
  relay_to-starts msg turn reply (next ∷ rest) p =
      relay_failed-weight is_start start-IsSilent env input msg next reply _ _
      ∙ weightless is_start start-IsSilent env input _ p refl

  after_end-starts :
      (msg : ParticipantMessage) (turn : Text) (reply : Reply) (ran : Ran) (p : Participant)
      → weight is_start (after_end env input msg turn reply ran p) ≡ weight is_start p
  unfolding after_end relay
  after_end-starts msg turn reply ran p =
      branches ran.running.stopped (ran.output.error_type == agent_not_open)
        (not (ran.reason == []))
    where
      failed : Participant
      failed = notify_error env reply ran.reason p

      branches :
          (a b c : Bool)
          → weight is_start (
              if a
              then respond env reply interrupted p
              else if b
              then relay env input msg [] reply failed
              else if c
              then failed
              else relay env input msg turn reply p)
            ≡ weight is_start p
      branches true b c = respond-weight is_start start-IsSilent env input reply interrupted p
      branches false true c =
          relay_to-starts msg [] reply msg.next failed
          ∙ notify_error-weight is_start start-IsSilent env input reply ran.reason p
      branches false false true =
          notify_error-weight is_start start-IsSilent env input reply ran.reason p
      branches false false false = relay_to-starts msg turn reply msg.next p

  turn_ran-starts :
      (msg : ParticipantMessage) (turn : Text) (reply : Reply) (ran : Ran)
      → weight is_start (turn_ran env input msg turn reply ran)
        ≡ weight is_start ran.running.participant
  unfolding turn_ran
  turn_ran-starts msg turn reply ran = cleared ran.running.cleared ∙ over
    where
      written : Participant
      written = rewrite_turn env turn ran.output.new_messages ran.running.participant

      ended : Participant
      ended = end_turn env turn input.agent_id ran.reason written

      over :
          weight is_start (after_end env input msg turn reply ran ended)
          ≡ weight is_start ran.running.participant
      over =
          after_end-starts msg turn reply ran ended
          ∙ end_turn-weight is_start start-IsSilent env input turn input.agent_id ran.reason written
          ∙ rewrite_turn-weight is_start start-IsSilent env input turn ran.output.new_messages
              ran.running.participant

      cleared :
          (b : Bool)
          → weight is_start (
              if b
              then clear env input (after_end env input msg turn reply ran ended)
              else after_end env input msg turn reply ran ended)
            ≡ weight is_start (after_end env input msg turn reply ran ended)
      cleared true =
          clear-weight is_start start-IsSilent env input
            (after_end env input msg turn reply ran ended)
      cleared false = refl

  run_turn-starts :
      (msg : ParticipantMessage) (turn : Text) (reply : Reply) (p : Participant)
      → weight is_start (run_turn env input msg turn reply p).running.participant
        ≡ 1 + weight is_start p
  unfolding run_turn ask is_start tally
  run_turn-starts msg turn reply p =
      select_all-weight is_start start-IsSilent env input turn
        (env.turn_steps (started_by p).history)
        (record { participant = started_by p; stopped = false; cleared = false })
    where
      started_by : Participant → Participant
      started_by p = ask (start_turn (turn_input input msg turn reply)) p

  act_on-starts :
      (msg : ParticipantMessage) (event : TurnEvent) (reply : Reply) (result : CheckResult)
      (p : Participant)
      → weight is_start (act_on env input msg event reply result p).0
        ≡ (if may_start event.turn result p.stops then 1 else 0) + weight is_start p
  unfolding act_on start_checked stops_for may_start
  act_on-starts msg event reply session_gone p = omega arith
  act_on-starts msg event reply (check_failed failure) p = omega (
    arith,
    notify_error-weight is_start start-IsSilent env input reply
        (text "the agent could not answer: " ++ failure)
        (end_turn env event.turn input.agent_id (text "the agent could not answer: " ++ failure) p),
    end_turn-weight is_start start-IsSilent env input event.turn input.agent_id
        (text "the agent could not answer: " ++ failure) p,
  )
  act_on-starts msg event reply (checked true agent_name) p = omega arith
  act_on-starts msg event reply (checked false agent_name) p =
      stopped (any (λ stop. stop == event.turn) p.stops)
    where
      named : TurnEvent
      named = record event { agent_name = agent_name }

      signed : Reply
      signed =
          if msg.sign_reply
          then record reply { signer = or_else agent_name input.agent_id }
          else reply

      unstopped : Participant
      unstopped = record p { stops = [] }

      told : Participant
      told = perform env (notify_turn turn_started named) unstopped

      branch : Bool → Participant × TurnEvent
      branch b =
          if b
          then (
            respond env signed interrupted
                (end_turn env event.turn input.agent_id stopped_before_reason unstopped),
            event,
          )
          else (
            turn_ran env input msg event.turn signed
                (run_turn env input msg event.turn signed told),
            named,
          )

      stopped :
          (b : Bool) → weight is_start (branch b).0 ≡ (if not b then 1 else 0) + weight is_start p
      stopped true = omega (
        arith,
        respond-weight is_start start-IsSilent env input signed interrupted
            (end_turn env event.turn input.agent_id stopped_before_reason unstopped),
        end_turn-weight is_start start-IsSilent env input event.turn input.agent_id
            stopped_before_reason unstopped,
      )
      stopped false = omega (
        arith,
        turn_ran-starts msg event.turn signed (run_turn env input msg event.turn signed told),
        run_turn-starts msg event.turn signed told,
        event-weight is_start start-IsSilent env input turn_started named unstopped,
      )

-- An answer to a message that has an ID starts exactly one turn when its check found the turn neither
-- answered nor impossible and no stop delivered by then names it, and none otherwise.
pub answer-starts :
    (env : Environment) (input : ParticipantInput) (msg : ParticipantMessage) (p : Participant)
    → msg.message_id ≢ 0
    → starts (answer env input msg p).history
      ≡ (if may_start
            (turn_key msg.message_id input.agent_id)
            (env.check_result (check env input msg p).history)
            (check env input msg p).stops
          then 1
          else 0)
        + starts p.history
unfolding answer starts finish event_of check is_start
answer-starts env input msg p present = rw (numbered) (
    omega (
      arith,
      act_on-starts env input msg (event_of input msg) (reply_of input msg)
          (env.check_result q.history) q,
      check-weight,
      told_done,
    ))
  where
    numbered : (msg.message_id == 0) ≡ false
    numbered = ground (arith, eqb_iff msg.message_id 0)

    q : Participant
    q = check env input msg p

    acted : Participant × TurnEvent
    acted =
        act_on env input msg (event_of input msg) (reply_of input msg) (env.check_result q.history)
          q

    check-weight : weight is_start q ≡ weight is_start p
    check-weight = omega arith

    told_done :
        weight is_start (perform env (notify_turn turn_done acted.1) acted.0)
        ≡ weight is_start acted.0
    told_done = event-weight is_start start-IsSilent env input turn_done acted.1 acted.0
