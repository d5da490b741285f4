-- ===== src/Workflow/Participant/Relay.antt =====
-- workflow/participant.go: what a participant says on the channel, and how it hands a message on.
use temporal_agent.Common.{
  Option, none, some, List, [], ◌∷◌, ◌++◌, Text, text, text_equality, number_equality,
}
use temporal_agent.Store.Keys.{turn_key}
use temporal_agent.Workflow.Ids.{participant_workflow_id}
use temporal_agent.Workflow.Messages.{AddressedAgent, ParticipantMessage, ParticipantInput, or_else}
use temporal_agent.Workflow.Participant.{
  Environment, Participant, perform, end_turn, notify_response, send_relay,
}

-- Where an answer goes, and the agent that signs it.
pub record Reply : Type 0 where
  pub channel : Text
  pub channel_id : Text
  pub signer : Text

unfoldable pub respond : Environment → Reply → Text → Participant → Participant
unfolding perform
respond env reply content p =
    perform env (notify_response reply.channel reply.channel_id reply.signer content) p

unfoldable pub notify_error : Environment → Reply → Text → Participant → Participant
unfolding respond
notify_error env reply reason p = respond env reply (text "Error processing message: " ++ reason) p

-- The message as it is handed on, with the turn among those that answered it, none when it is "".
unfoldable pub relayed_message :
    ParticipantMessage → List AddressedAgent → Text → ParticipantMessage
relayed_message msg rest [] = record msg { next = rest }
relayed_message msg rest (c ∷ cs) = record msg {
  next = rest;
  earlier_turns = msg.earlier_turns ++ ((c ∷ cs) ∷ []);
}

unfoldable pub relay_failed :
    Environment
    → ParticipantInput
    → ParticipantMessage
    → AddressedAgent
    → Reply
    → Option Text
    → Participant
    → Participant
unfolding end_turn notify_error
relay_failed env input msg next reply none p = p
relay_failed env input msg next reply (some failure) p =
    let reason =
      text "le relais vers @"
      ++ (or_else next.mention next.id ++ (text " a échoué : " ++ failure)) in
    notify_error env reply reason (end_turn env (turn_key msg.message_id next.id) next.id reason p)

unfoldable pub relay_to :
    Environment
    → ParticipantInput
    → ParticipantMessage
    → Text
    → Reply
    → List AddressedAgent
    → Participant
    → Participant
unfolding perform relay_failed relayed_message participant_workflow_id
relay_to env input msg turn reply [] p = p
relay_to env input msg turn reply (next ∷ rest) p =
    let start : ParticipantInput = record {
      session_id = input.session_id;
      agent_id = next.id;
      channel = input.channel;
      channel_id = input.channel_id;
      inbox = [];
    } in
    let asked =
      perform env
        (send_relay (participant_workflow_id input.session_id next.id)
          (relayed_message msg rest turn) start)
        p in
    relay_failed env input msg next reply (env.relay_result asked.history) asked

-- Hands the message to the first of `next`, if any.
unfoldable pub relay :
    Environment → ParticipantInput → ParticipantMessage → Text → Reply → Participant → Participant
unfolding relay_to
relay env input msg turn reply p = relay_to env input msg turn reply msg.next p
