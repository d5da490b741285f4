-- ===== src/Workflow/Participant/Tally.antt =====
-- How many turns an answer starts, and how many messages it hands on.
pub mod Starts
pub mod Relays
use temporal_agent.Common.{
  ℕ, zero, suc, ◌+◌, ◌-◌, ◌≡◌, refl, ◌∙◌, inl, inr, Bool, true, false, not, ◌&&◌, Option, none,
  some, List, [], ◌∷◌, ◌++◌, arith, Bool-cases, any, all, select, In, ◌==◌, Text, text, text_eq,
  text_equality, number_equality, put,
}
use temporal_agent.Store.Keys.{turn_key}
use temporal_agent.Workflow.Messages.{
  AddressedAgent, ParticipantMessage, ParticipantInput, TurnEvent, or_else,
}
use temporal_agent.Workflow.Participant.{
  TurnEventType, TurnInput, TurnOutput, Effect, Arrivals, CheckResult, Selected, Environment,
  Participant, delivered, perform, state, receive, drained_clears, stops_for, end_turn,
  cleared_reason, stopped_before_reason, drop_message, drop_messages, clear, turn_started,
  turn_done, check_turn, start_turn, cancel_turn, persist_context, write_end, notify_turn,
  notify_response, send_relay, session_gone, check_failed, checked, take_stop, take_clear,
  take_message, deliver,
}
use temporal_agent.Workflow.Participant.Relay.{
  Reply, respond, notify_error, relayed_message, relay_failed, relay_to, relay,
}
use temporal_agent.Workflow.Participant.Turn.{
  Running, ask, stop, got_stop, receive_stop, receive_message, receive_clear, selected, select_all,
  output_of, reason_of, Ran, turn_input, run_turn, rewrite_turn, agent_not_open, interrupted,
  after_end, turn_ran,
}
use temporal_agent.Workflow.Participant.Answer.{
  start_checked, act_on, event_of, reply_of, finish, check, answer, Ended, pass, go_on, after_pass,
  run, started, closed, continued,
}

-- The weight of a history, whose effects each weigh what `w` says.
unfoldable pub tally : (Effect → ℕ) → List Effect → ℕ
tally w [] = 0
tally w (e ∷ history) = w e + tally w history

-- Only starting a turn and handing a message on weigh anything.
pub record IsSilent (w : Effect → ℕ) : Type 0 where
  pub checks : (turn : Text) → w (check_turn turn) ≡ 0
  pub cancels : w cancel_turn ≡ 0
  pub persists : (turn : Text) (messages : List Text) → w (persist_context turn messages) ≡ 0
  pub ends : (turn agent reason : Text) → w (write_end turn agent reason) ≡ 0
  pub events : (type : TurnEventType) (event : TurnEvent) → w (notify_turn type event) ≡ 0
  pub responses :
      (channel channel_id signer content : Text)
      → w (notify_response channel channel_id signer content) ≡ 0

abbrev pub weight : (Effect → ℕ) → Participant → ℕ
weight w p = tally w p.history

module _ (w : Effect → ℕ) (silent : IsSilent w) (env : Environment) (input : ParticipantInput) where
  pub perform-weight :
      (e : Effect) (p : Participant) → weight w (perform env e p) ≡ w e + weight w p
  unfolding perform delivered tally
  perform-weight e p = refl

  pub weightless :
      (e : Effect) (p : Participant) → w e ≡ 0 → weight w (perform env e p) ≡ weight w p
  weightless e p h = omega (arith, h, perform-weight e p)

  pub respond-weight :
      (reply : Reply) (content : Text) (p : Participant)
      → weight w (respond env reply content p) ≡ weight w p
  unfolding respond
  respond-weight reply content p =
      weightless _ p (silent.responses reply.channel reply.channel_id reply.signer content)

  pub end_turn-weight :
      (turn agent reason : Text) (p : Participant)
      → weight w (end_turn env turn agent reason p) ≡ weight w p
  unfolding end_turn
  end_turn-weight turn agent reason p = weightless _ p (silent.ends turn agent reason)

  pub event-weight :
      (type : TurnEventType) (event : TurnEvent) (p : Participant)
      → weight w (perform env (notify_turn type event) p) ≡ weight w p
  event-weight type event p = weightless _ p (silent.events type event)

  pub notify_error-weight :
      (reply : Reply) (reason : Text) (p : Participant)
      → weight w (notify_error env reply reason p) ≡ weight w p
  unfolding notify_error
  notify_error-weight reply reason p = respond-weight reply _ p

  pub drop_message-weight :
      (m : ParticipantMessage) (p : Participant)
      → weight w (drop_message env input m p) ≡ weight w p
  unfolding drop_message
  drop_message-weight m p = elim (Bool-cases (m.message_id == 0)) [
    | inl e ↦ rw (e) refl
    | inr e ↦ rw (e) (
        event-weight turn_done _
          (end_turn env (turn_key m.message_id input.agent_id) input.agent_id cleared_reason p)
        ∙ end_turn-weight _ _ _ p)
  ]

  pub drop_messages-weight :
      (ms : List ParticipantMessage) (p : Participant)
      → weight w (drop_messages env input ms p) ≡ weight w p
  unfolding drop_messages
  drop_messages-weight [] p = refl
  drop_messages-weight (m ∷ ms) p =
      drop_messages-weight ms (drop_message env input m p) ∙ drop_message-weight m p

  pub clear-weight : (p : Participant) → weight w (clear env input p) ≡ weight w p
  unfolding clear receive
  clear-weight p = drop_messages-weight (receive p).inbox (record (receive p) { inbox = [] })

  pub rewrite_turn-weight :
      (turn : Text) (ms : List Text) (p : Participant)
      → weight w (rewrite_turn env turn ms p) ≡ weight w p
  unfolding rewrite_turn
  rewrite_turn-weight turn [] p = refl
  rewrite_turn-weight turn (m ∷ ms) p = weightless _ p (silent.persists turn (m ∷ ms))

  pub stop-weight :
      (clearing : Bool) (r : Running)
      → weight w (stop clearing r).participant ≡ weight w r.participant
  unfolding stop ask tally
  stop-weight clearing r = elim (Bool-cases r.stopped) [
    | inl e ↦ rw (e) refl
    | inr e ↦ rw (e) (omega (arith, silent.cancels))
  ]

  pub selected-weight :
      (turn : Text) (s : Selected) (r : Running)
      → weight w (selected turn s r).participant ≡ weight w r.participant
  unfolding selected delivered receive_stop got_stop receive_clear receive_message
  selected-weight turn take_stop r = of_stops r.participant.stops
    where
      of_stops :
          (stops : List Text)
          → weight w (receive_stop turn stops r).participant ≡ weight w r.participant
      of_stops [] = refl
      of_stops (s ∷ stops) = elim (Bool-cases (not (s == []) && not (s == turn))) [
        | inl e ↦ rw (e) refl
        | inr e ↦
            rw (e) (
              stop-weight false (record r { participant = record r.participant { stops = stops } }))
      ]
  selected-weight turn take_clear r = of_clears r.participant.clears
    where
      of_clears : (n : ℕ) → weight w (receive_clear n r).participant ≡ weight w r.participant
      of_clears zero = refl
      of_clears (suc n) =
          stop-weight true (record r { participant = record r.participant { clears = n } })
  selected-weight turn take_message r = of_messages r.participant.messages
    where
      of_messages :
          (ms : List ParticipantMessage)
          → weight w (receive_message ms r).participant ≡ weight w r.participant
      of_messages [] = refl
      of_messages (m ∷ ms) = refl
  selected-weight turn (deliver a) r = refl

  pub select_all-weight :
      (turn : Text) (steps : List Selected) (r : Running)
      → weight w (select_all turn steps r).participant ≡ weight w r.participant
  unfolding select_all
  select_all-weight turn [] r = refl
  select_all-weight turn (s ∷ steps) r =
      select_all-weight turn steps (selected turn s r) ∙ selected-weight turn s r

  pub relay_failed-weight :
      (msg : ParticipantMessage) (next : AddressedAgent) (reply : Reply) (o : Option Text)
      (p : Participant)
      → weight w (relay_failed env input msg next reply o p) ≡ weight w p
  unfolding relay_failed
  relay_failed-weight msg next reply none p = refl
  relay_failed-weight msg next reply (some failure) p =
      let reason =
        text "le relais vers @"
        ++ (or_else next.mention next.id ++ (text " a échoué : " ++ failure)) in
      notify_error-weight reply reason
        (end_turn env (turn_key msg.message_id next.id) next.id reason p)
      ∙ end_turn-weight (turn_key msg.message_id next.id) next.id reason p
