-- ===== src/Workflow/Participant/Clearing.antt =====
-- workflow/participant.go: what a clear leaves of the inbox.
use temporal_agent.Common.{
  ◌≡◌, refl, ◌∙◌, subst, ◌≢◌, inl, inr, false, List, [], ◌∷◌, ◌++◌, arith, eqb_iff, Bool-cases, In,
  ◌==◌, text_equality, number_equality,
}
use temporal_agent.Store.Keys.{turn_key}
use temporal_agent.Workflow.Messages.{ParticipantMessage, ParticipantInput}
use temporal_agent.Workflow.Participant.{
  Effect, Environment, Participant, perform, receive, end_turn, cleared_reason, drop_message,
  drop_messages, clear, write_end, delivered,
}

module _ (env : Environment) (input : ParticipantInput) where
  drop_message-kept :
      (m : ParticipantMessage) (p : Participant) (x : Effect)
      → In x p.history
      → In x (drop_message env input m p).history
  unfolding drop_message perform end_turn delivered
  drop_message-kept m p x h = elim (Bool-cases (m.message_id == 0)) [
    | inl e ↦ rw (e) h
    | inr e ↦ rw (e) (inr (inr h))
  ]

  drop_messages-kept :
      (ms : List ParticipantMessage) (p : Participant) (x : Effect)
      → In x p.history
      → In x (drop_messages env input ms p).history
  unfolding drop_messages
  drop_messages-kept [] p x h = h
  drop_messages-kept (m ∷ ms) p x h =
      drop_messages-kept ms (drop_message env input m p) x (drop_message-kept m p x h)

  drop_message-end :
      (m : ParticipantMessage) (p : Participant)
      → m.message_id ≢ 0
      → In
          (write_end (turn_key m.message_id input.agent_id) input.agent_id cleared_reason)
          (drop_message env input m p).history
  unfolding drop_message perform end_turn delivered
  drop_message-end m p present = rw (numbered) (inr (inl refl))
    where
      numbered : (m.message_id == 0) ≡ false
      numbered = ground (arith, eqb_iff m.message_id 0)

  drop_messages-end :
      (ms : List ParticipantMessage) (p : Participant) (m : ParticipantMessage)
      → In m ms
      → m.message_id ≢ 0
      → In
          (write_end (turn_key m.message_id input.agent_id) input.agent_id cleared_reason)
          (drop_messages env input ms p).history
  unfolding drop_messages
  drop_messages-end [] p m i present = absurd i
  drop_messages-end (n ∷ ms) p m (inl e) present =
      drop_messages-kept ms (drop_message env input n p) _ (
        subst
          (λ x.
            In (write_end (turn_key m.message_id input.agent_id) input.agent_id cleared_reason)
              (drop_message env input x p).history)
          e (drop_message-end m p present))
  drop_messages-end (n ∷ ms) p m (inr i) present =
      drop_messages-end ms (drop_message env input n p) m i present

  drop_message-inbox :
      (m : ParticipantMessage) (p : Participant) → (drop_message env input m p).inbox ≡ p.inbox
  unfolding drop_message perform end_turn delivered
  drop_message-inbox m p = elim (Bool-cases (m.message_id == 0)) [
    | inl e ↦ rw (e) refl
    | inr e ↦ rw (e) refl
  ]

  drop_messages-inbox :
      (ms : List ParticipantMessage) (p : Participant)
      → (drop_messages env input ms p).inbox ≡ p.inbox
  unfolding drop_messages
  drop_messages-inbox [] p = refl
  drop_messages-inbox (m ∷ ms) p =
      drop_messages-inbox ms (drop_message env input m p) ∙ drop_message-inbox m p

  pub clear-inbox : (p : Participant) → (clear env input p).inbox ≡ []
  unfolding clear receive
  clear-inbox p = drop_messages-inbox (receive p).inbox (record (receive p) { inbox = [] })

  -- A clear empties the inbox, and every message with an ID that waited in it, or was delivered and not received yet,
  -- gets an end that says that it was dropped, under the key of its turn.
  pub clear-ends :
      (p : Participant) (m : ParticipantMessage)
      → In m (p.inbox ++ p.messages)
      → m.message_id ≢ 0
      → ((clear env input p).inbox ≡ [])
        × In
            (write_end (turn_key m.message_id input.agent_id) input.agent_id cleared_reason)
            (clear env input p).history
  unfolding clear receive
  clear-ends p m i present = (
    drop_messages-inbox (receive p).inbox (record (receive p) { inbox = [] }),
    drop_messages-end (receive p).inbox (record (receive p) { inbox = [] }) m i present,
  )
