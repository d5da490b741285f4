-- ===== src/Workflow/Participant/Tally/Relays.antt =====
-- How many messages a participant hands on after a turn.
use temporal_agent.Common.{
  ℕ, ◌+◌, ◌≡◌, refl, ap, ◌∙◌, Bool, true, false, not, ◌&&◌, ◌||◌, List, [], ◌∷◌, arith,
  if◌then◌else◌, ◌==◌, Text, text_equality, number_equality,
}
use temporal_agent.Workflow.Messages.{AddressedAgent, ParticipantMessage, ParticipantInput}
use temporal_agent.Workflow.Participant.{
  Effect, Environment, Participant, end_turn, clear, check_turn, start_turn, cancel_turn,
  persist_context, write_end, notify_turn, notify_response, send_relay,
}
use temporal_agent.Workflow.Participant.Relay.{Reply, respond, notify_error, relay_to, relay}
use temporal_agent.Workflow.Participant.Turn.{
  Ran, rewrite_turn, agent_not_open, interrupted, after_end, turn_ran,
}
use temporal_agent.Workflow.Participant.Tally.{
  tally, weight, IsSilent, perform-weight, respond-weight, end_turn-weight, notify_error-weight,
  clear-weight, rewrite_turn-weight, relay_failed-weight,
}

unfoldable pub is_relay : Effect → ℕ
is_relay (send_relay id message input) = 1
is_relay (start_turn input) = 0
is_relay (check_turn turn) = 0
is_relay cancel_turn = 0
is_relay (persist_context turn messages) = 0
is_relay (write_end turn agent reason) = 0
is_relay (notify_turn type event) = 0
is_relay (notify_response channel channel_id signer content) = 0

relay-IsSilent : IsSilent is_relay
unfolding is_relay
relay-IsSilent = record {
  checks = λ turn. refl;
  cancels = refl;
  persists = λ turn messages. refl;
  ends = λ turn agent reason. refl;
  events = λ type event. refl;
  responses = λ channel channel_id signer content. refl;
}

-- The messages that a history handed on.
unfoldable pub relays : List Effect → ℕ
unfolding tally
relays history = tally is_relay history

-- Whether a turn that ran leaves its message to the next agents.
unfoldable pub may_relay : Ran → Bool
may_relay ran =
    if ran.running.stopped
    then false
    else (ran.output.error_type == agent_not_open) || (ran.reason == [])

unfoldable pub has_next : List AddressedAgent → Bool
has_next [] = false
has_next (next ∷ rest) = true

module _ (env : Environment) (input : ParticipantInput) (msg : ParticipantMessage)
    (reply : Reply) where
  relay_to-relays :
      (turn : Text) (next : List AddressedAgent) (p : Participant)
      → weight is_relay (relay_to env input msg turn reply next p)
        ≡ (if has_next next then 1 else 0) + weight is_relay p
  unfolding relay_to is_relay has_next
  relay_to-relays turn [] p = omega arith
  relay_to-relays turn (next ∷ rest) p =
      relay_failed-weight is_relay relay-IsSilent env input msg next reply _ _
      ∙ perform-weight is_relay relay-IsSilent env input _ p

  after_end-relays :
      (turn : Text) (ran : Ran) (p : Participant)
      → weight is_relay (after_end env input msg turn reply ran p)
        ≡ (if may_relay ran && has_next msg.next then 1 else 0) + weight is_relay p
  unfolding after_end relay may_relay
  after_end-relays turn ran p =
      branches ran.running.stopped (ran.output.error_type == agent_not_open) (ran.reason == [])
    where
      failed : Participant
      failed = notify_error env reply ran.reason p

      branches :
          (a b c : Bool)
          → weight is_relay (
              if a
              then respond env reply interrupted p
              else if b
              then relay env input msg [] reply failed
              else if not c
              then failed
              else relay env input msg turn reply p)
            ≡ (if (if a then false else b || c) && has_next msg.next then 1 else 0)
              + weight is_relay p
      branches true b c =
          omega (arith, respond-weight is_relay relay-IsSilent env input reply interrupted p)
      branches false true c =
          relay_to-relays [] msg.next failed
          ∙ ap (λ n. (if has_next msg.next then 1 else 0) + n)
              (notify_error-weight is_relay relay-IsSilent env input reply ran.reason p)
      branches false false false =
          omega (arith, notify_error-weight is_relay relay-IsSilent env input reply ran.reason p)
      branches false false true = relay_to-relays turn msg.next p

  -- After a turn that ran, the message is handed on exactly once when another agent is to answer it and the
  -- turn was not stopped and either did not fail or was refused because its agent is not open; otherwise it is
  -- not handed on, a clear or a failed relay included.
  pub turn_ran-relays :
      (turn : Text) (ran : Ran)
      → relays (turn_ran env input msg turn reply ran).history
        ≡ (if may_relay ran && has_next msg.next then 1 else 0)
          + relays ran.running.participant.history
  unfolding turn_ran relays
  turn_ran-relays turn ran = cleared ran.running.cleared ∙ over
    where
      written : Participant
      written = rewrite_turn env turn ran.output.new_messages ran.running.participant

      ended : Participant
      ended = end_turn env turn input.agent_id ran.reason written

      written-weight : weight is_relay ended ≡ weight is_relay ran.running.participant
      written-weight =
          end_turn-weight is_relay relay-IsSilent env input turn input.agent_id ran.reason written
          ∙ rewrite_turn-weight is_relay relay-IsSilent env input turn ran.output.new_messages
              ran.running.participant

      over :
          weight is_relay (after_end env input msg turn reply ran ended)
          ≡ (if may_relay ran && has_next msg.next then 1 else 0)
            + weight is_relay ran.running.participant
      over =
          after_end-relays turn ran ended
          ∙ ap (λ n. (if may_relay ran && has_next msg.next then 1 else 0) + n) written-weight

      cleared :
          (b : Bool)
          → weight is_relay (
              if b
              then clear env input (after_end env input msg turn reply ran ended)
              else after_end env input msg turn reply ran ended)
            ≡ weight is_relay (after_end env input msg turn reply ran ended)
      cleared true =
          clear-weight is_relay relay-IsSilent env input
            (after_end env input msg turn reply ran ended)
      cleared false = refl
