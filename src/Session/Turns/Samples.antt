-- ===== src/Session/Turns/Samples.antt =====
-- A turn started, and an event that says that another one is done.
use temporal_agent.Common.{
  ◌≡◌, true, false, ◌&&◌, [], arith, if◌then◌else◌, ◌==◌, Text, text, text_equality,
  number_equality,
}
use temporal_agent.Workflow.Messages.{TurnEvent}
use temporal_agent.Session.Turns.{Turns, set_turn, current_message, anchor_of, event_participant}
use temporal_agent.Session.Turns.Events.{current_message-set_turn}

abbrev nothing_known : Turns
nothing_known = record { m = []; task_notes = [] }

abbrev event_on : Text → TurnEvent
event_on turn = record {
  agent_id = text "ada";
  agent_name = text "Ada";
  turn = turn;
  user_id = text "u";
  user_name = [];
}

current_message-set_turn_example :
    current_message 30 (text "s") (event_participant (event_on (text "m7.ada"))) (
      set_turn 20
        (text "s")
        false
        (event_on (text "m5.ada"))
        (set_turn 10 (text "s") true (event_on (text "m7.ada")) nothing_known))
    ≡ (if (event_participant (event_on (text "m5.ada"))
            == event_participant (event_on (text "m7.ada")))
          && (text "m7.ada" == text "m5.ada")
        then 0
        else anchor_of (text "m7.ada"))
current_message-set_turn_example =
    current_message-set_turn nothing_known (text "s") (event_on (text "m7.ada"))
      (event_on (text "m5.ada")) 10 20 30 (omega arith) (omega arith)
