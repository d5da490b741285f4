-- ===== src/Workflow/Participant/Growth.antt =====
-- workflow/participant.go: how the effects asked for grow.
use temporal_agent.Common.{
  ℕ, zero, suc, ◌+◌, ◌≤◌, ◌<◌, ◌≡◌, inl, inr, Bool, true, false, not, ◌&&◌, Option, none, some,
  List, [], ◌∷◌, ◌++◌, arith, if◌then◌else◌, Bool-cases, length, any, ◌==◌, Text, text,
  text_equality, number_equality,
}
use temporal_agent.Workflow.Ids.{participant_workflow_id}
use temporal_agent.Workflow.Messages.{
  AddressedAgent, ParticipantMessage, ParticipantInput, TurnEvent, or_else,
}
use temporal_agent.Workflow.Participant.{
  Effect, CheckResult, Selected, Environment, Participant, delivered, perform, receive, stops_for,
  end_turn, stopped_before_reason, drop_message, drop_messages, clear, turn_started, turn_done,
  start_turn, persist_context, write_end, notify_turn, notify_response, send_relay, session_gone,
  check_failed, checked, take_stop, take_clear, take_message, deliver,
}
use temporal_agent.Workflow.Participant.Relay.{
  Reply, respond, notify_error, relayed_message, relay_failed, relay_to, relay,
}
use temporal_agent.Workflow.Participant.Turn.{
  Running, ask, stop, got_stop, receive_stop, receive_message, receive_clear, selected, select_all,
  Ran, turn_input, run_turn, rewrite_turn, agent_not_open, interrupted, after_end, turn_ran,
}
use temporal_agent.Workflow.Participant.Answer.{
  start_checked, act_on, event_of, reply_of, finish, check, answer,
}

-- How much the workflow asked for so far.
abbrev pub asked : Participant → ℕ
asked p = length p.history

module _ (env : Environment) (input : ParticipantInput) where
  pub perform-asked : (e : Effect) (p : Participant) → asked (perform env e p) ≡ 1 + asked p
  unfolding perform delivered
  perform-asked e p = omega arith

  respond-grows :
      (reply : Reply) (content : Text) (p : Participant)
      → asked p ≤ asked (respond env reply content p)
  unfolding respond
  respond-grows reply content p =
      omega (
        arith,
        perform-asked (notify_response reply.channel reply.channel_id reply.signer content) p,
      )

  end_turn-grows :
      (turn agent reason : Text) (p : Participant)
      → asked p ≤ asked (end_turn env turn agent reason p)
  unfolding end_turn
  end_turn-grows turn agent reason p = omega (arith, perform-asked (write_end turn agent reason) p)

  notify_error-grows :
      (reply : Reply) (reason : Text) (p : Participant)
      → asked p ≤ asked (notify_error env reply reason p)
  unfolding notify_error
  notify_error-grows reply reason p =
      respond-grows reply (text "Error processing message: " ++ reason) p

  drop_message-grows :
      (m : ParticipantMessage) (p : Participant) → asked p ≤ asked (drop_message env input m p)
  unfolding drop_message perform end_turn delivered
  drop_message-grows m p = elim (Bool-cases (m.message_id == 0)) [
    | inl e ↦ rw (e) (omega arith)
    | inr e ↦ rw (e) (omega arith)
  ]

  drop_messages-grows :
      (ms : List ParticipantMessage) (p : Participant)
      → asked p ≤ asked (drop_messages env input ms p)
  unfolding drop_messages
  drop_messages-grows [] p = omega arith
  drop_messages-grows (m ∷ ms) p =
      omega (arith, drop_message-grows m p, drop_messages-grows ms (drop_message env input m p))

  clear-grows : (p : Participant) → asked p ≤ asked (clear env input p)
  unfolding clear receive
  clear-grows p = drop_messages-grows (receive p).inbox (record (receive p) { inbox = [] })

  rewrite_turn-grows :
      (turn : Text) (ms : List Text) (p : Participant)
      → asked p ≤ asked (rewrite_turn env turn ms p)
  unfolding rewrite_turn
  rewrite_turn-grows turn [] p = omega arith
  rewrite_turn-grows turn (m ∷ ms) p =
      omega (arith, perform-asked (persist_context turn (m ∷ ms)) p)

  relay_failed-grows :
      (msg : ParticipantMessage) (next : AddressedAgent) (reply : Reply) (o : Option Text)
      (p : Participant)
      → asked p ≤ asked (relay_failed env input msg next reply o p)
  unfolding relay_failed end_turn notify_error respond perform delivered
  relay_failed-grows msg next reply none p = omega arith
  relay_failed-grows msg next reply (some failure) p = omega arith

  relay_to-grows :
      (msg : ParticipantMessage) (turn : Text) (reply : Reply) (next : List AddressedAgent)
      (p : Participant)
      → asked p ≤ asked (relay_to env input msg turn reply next p)
  unfolding relay_to
  relay_to-grows msg turn reply [] p = omega arith
  relay_to-grows msg turn reply (next ∷ rest) p =
      let sent =
        send_relay (participant_workflow_id input.session_id next.id)
          (relayed_message msg rest turn) (record input { agent_id = next.id; inbox = [] }) in
      omega (
        arith,
        perform-asked sent p,
        relay_failed-grows msg next reply (env.relay_result (sent ∷ p.history))
            (perform env sent p),
      )

  stop-grows :
      (clearing : Bool) (r : Running) → asked r.participant ≤ asked (stop clearing r).participant
  unfolding stop ask
  stop-grows clearing r = elim (Bool-cases r.stopped) [
    | inl e ↦ rw (e) (omega arith)
    | inr e ↦ rw (e) (omega arith)
  ]

  selected-grows :
      (turn : Text) (s : Selected) (r : Running)
      → asked r.participant ≤ asked (selected turn s r).participant
  unfolding selected delivered receive_stop got_stop receive_clear receive_message
  selected-grows turn take_stop r = of_stops r.participant.stops
    where
      of_stops :
          (stops : List Text) → asked r.participant ≤ asked (receive_stop turn stops r).participant
      of_stops [] = omega arith
      of_stops (s ∷ stops) = elim (Bool-cases (not (s == []) && not (s == turn))) [
        | inl e ↦ rw (e) (omega arith)
        | inr e ↦
            rw (e)
              (stop-grows false (record r { participant = record r.participant { stops = stops } }))
      ]
  selected-grows turn take_clear r = of_clears r.participant.clears
    where
      of_clears : (n : ℕ) → asked r.participant ≤ asked (receive_clear n r).participant
      of_clears zero = omega arith
      of_clears (suc n) =
          stop-grows true (record r { participant = record r.participant { clears = n } })
  selected-grows turn take_message r = of_messages r.participant.messages
    where
      of_messages :
          (ms : List ParticipantMessage)
          → asked r.participant ≤ asked (receive_message ms r).participant
      of_messages [] = omega arith
      of_messages (m ∷ ms) = omega arith
  selected-grows turn (deliver a) r = omega arith

  select_all-grows :
      (turn : Text) (steps : List Selected) (r : Running)
      → asked r.participant ≤ asked (select_all turn steps r).participant
  unfolding select_all
  select_all-grows turn [] r = omega arith
  select_all-grows turn (s ∷ steps) r =
      omega (arith, selected-grows turn s r, select_all-grows turn steps (selected turn s r))

  after_end-grows :
      (msg : ParticipantMessage) (turn : Text) (reply : Reply) (ran : Ran) (p : Participant)
      → asked p ≤ asked (after_end env input msg turn reply ran p)
  unfolding after_end relay
  after_end-grows msg turn reply ran p =
      branches ran.running.stopped (ran.output.error_type == agent_not_open)
        (not (ran.reason == []))
    where
      failed : Participant
      failed = notify_error env reply ran.reason p

      branches :
          (a b c : Bool)
          → asked p
            ≤ asked (
                if a
                then respond env reply interrupted p
                else if b
                then relay env input msg [] reply failed
                else if c
                then failed
                else relay env input msg turn reply p)
      branches true b c = respond-grows reply interrupted p
      branches false true c = omega (
        arith,
        notify_error-grows reply ran.reason p,
        relay_to-grows msg [] reply msg.next failed,
      )
      branches false false true = notify_error-grows reply ran.reason p
      branches false false false = relay_to-grows msg turn reply msg.next p

  turn_ran-grows :
      (msg : ParticipantMessage) (turn : Text) (reply : Reply) (ran : Ran)
      → asked ran.running.participant ≤ asked (turn_ran env input msg turn reply ran)
  unfolding turn_ran
  turn_ran-grows msg turn reply ran = cleared ran.running.cleared
    where
      written : Participant
      written = rewrite_turn env turn ran.output.new_messages ran.running.participant

      ended : Participant
      ended = end_turn env turn input.agent_id ran.reason written

      over : Participant
      over = after_end env input msg turn reply ran ended

      over-grows : asked ran.running.participant ≤ asked over
      over-grows = omega (
        arith,
        rewrite_turn-grows turn ran.output.new_messages ran.running.participant,
        end_turn-grows turn input.agent_id ran.reason written,
        after_end-grows msg turn reply ran ended,
      )

      cleared :
          (b : Bool)
          → asked ran.running.participant ≤ asked (if b then clear env input over else over)
      cleared true = omega (arith, over-grows, clear-grows over)
      cleared false = over-grows

  run_turn-grows :
      (msg : ParticipantMessage) (turn : Text) (reply : Reply) (p : Participant)
      → asked p ≤ asked (run_turn env input msg turn reply p).running.participant
  unfolding run_turn ask
  run_turn-grows msg turn reply p = omega (
    arith,
    select_all-grows turn (env.turn_steps begun.history)
        (record { participant = begun; stopped = false; cleared = false }),
  )
    where
      begun : Participant
      begun = ask (start_turn (turn_input input msg turn reply)) p

  act_on-grows :
      (msg : ParticipantMessage) (event : TurnEvent) (reply : Reply) (result : CheckResult)
      (p : Participant)
      → asked p ≤ asked (act_on env input msg event reply result p).0
  unfolding act_on start_checked stops_for
  act_on-grows msg event reply session_gone p = omega arith
  act_on-grows msg event reply (check_failed failure) p =
      let reason = text "the agent could not answer: " ++ failure in
      omega (
        arith,
        end_turn-grows event.turn input.agent_id reason p,
        notify_error-grows reply reason (end_turn env event.turn input.agent_id reason p),
      )
  act_on-grows msg event reply (checked true agent_name) p = omega arith
  act_on-grows msg event reply (checked false agent_name) p =
      stopped (any (λ stop. stop == event.turn) p.stops)
    where
      named : TurnEvent
      named = record event { agent_name = agent_name }

      signed : Reply
      signed =
          if msg.sign_reply
          then record reply { signer = or_else agent_name input.agent_id }
          else reply

      unstopped : Participant
      unstopped = record p { stops = [] }

      told : Participant
      told = perform env (notify_turn turn_started named) unstopped

      branch : Bool → Participant × TurnEvent
      branch b =
          if b
          then (
            respond env signed interrupted
                (end_turn env event.turn input.agent_id stopped_before_reason unstopped),
            event,
          )
          else (
            turn_ran env input msg event.turn signed
                (run_turn env input msg event.turn signed told),
            named,
          )

      stopped : (b : Bool) → asked p ≤ asked (branch b).0
      stopped true = omega (
        arith,
        end_turn-grows event.turn input.agent_id stopped_before_reason unstopped,
        respond-grows signed interrupted
            (end_turn env event.turn input.agent_id stopped_before_reason unstopped),
      )
      stopped false = omega (
        arith,
        perform-asked (notify_turn turn_started named) unstopped,
        run_turn-grows msg event.turn signed told,
        turn_ran-grows msg event.turn signed (run_turn env input msg event.turn signed told),
      )

  pub answer-grows :
      (msg : ParticipantMessage) (p : Participant)
      → (msg.message_id == 0) ≡ false
      → asked p < asked (answer env input msg p)
  unfolding answer finish check
  answer-grows msg p numbered = rw (numbered) (
      omega (
        arith,
        act_on-grows msg (event_of input msg) (reply_of input msg) (env.check_result q.history) q,
        perform-asked (notify_turn turn_done acted.1) acted.0,
      ))
    where
      q : Participant
      q = check env input msg p

      acted : Participant × TurnEvent
      acted =
          act_on env input msg (event_of input msg) (reply_of input msg)
            (env.check_result q.history) q
