-- ===== src/Store/Samples.antt =====
-- The keys of a session in which jarvis answers message 10, and the theorems at them.
use temporal_agent.Common.{
  ℕ, ◌≡◌, refl, ◌↔◌, true, false, none, some, List, [], ◌∷◌, arith, Text, text, text_eq,
  text_equality, number_equality,
}
use temporal_agent.Store.Keys.Cuts.{contains_any}
use temporal_agent.Store.Decimal.{decimal}
use temporal_agent.Store.Keys.{
  human_message_key, fork_report_key, scheduled_message_key, task_result_key, turn_key,
  turn_end_key, turn_message_key, parse_turn, turn_of, is_turn_end,
}
use temporal_agent.Store.Keys.RoundTrip.{
  IsParticipant, parse_turn-turn_key, turn_keys, turn_key-injective,
}
use temporal_agent.Store.Keys.Writers.{turn_of-no_turn}
use temporal_agent.Store.Reads.{TurnScope, turn_reads}
use temporal_agent.Store.Reads.Laws.{ReadsTurn, turn_reads-whole, turn_reads_iff}

abbrev jarvis : Text
jarvis = text "jarvis"

abbrev turn : Text
turn = text "m10.jarvis"

key_text : turn_message_key (turn_key 10 jarvis) 2 ≡ text "m10.jarvis:2"
unfolding turn_message_key turn_key decimal
key_text = refl

participant_with_dot : parse_turn (text "m10.a.b") ≡ none
unfolding parse_turn text_eq
participant_with_dot = refl

jarvis-IsParticipant : IsParticipant jarvis
unfolding contains_any
jarvis-IsParticipant = record { named = λ e. cc; plain = refl }

parse_turn-turn_key_example : parse_turn (turn_key 10 jarvis) ≡ some (10, jarvis)
parse_turn-turn_key_example = parse_turn-turn_key 10 jarvis (omega arith) jarvis-IsParticipant

turn_keys_example :
    let t = turn_key 10 jarvis in
    (turn_of (turn_message_key t 0) ≡ some t)
    × (is_turn_end (turn_message_key t 0) ≡ false)
    × (turn_of (turn_end_key t) ≡ some t)
    × (is_turn_end (turn_end_key t) ≡ true)
turn_keys_example = turn_keys 10 jarvis 0 (omega arith) jarvis-IsParticipant

turn_key-injective_example : ◌≡◌ {A = ℕ} 10 10 × (jarvis ≡ jarvis)
turn_key-injective_example =
    turn_key-injective 10 10 jarvis jarvis (omega arith) (omega arith) jarvis-IsParticipant
      jarvis-IsParticipant refl

turn_of-no_turn_example :
    (turn_of (human_message_key (text "10.jarvis:end")) ≡ none)
    × (turn_of (scheduled_message_key (text "m1.a") 5) ≡ none)
    × (turn_of (fork_report_key (text "f") 1 2) ≡ none)
    × (turn_of (task_result_key (text "m1.a:0")) ≡ none)
turn_of-no_turn_example =
    turn_of-no_turn (text "10.jarvis:end") (text "f") (text "m1.a") (text "m1.a:0") 1 2 5

abbrev smith_scope : TurnScope
smith_scope = record { up_to = 12; participant = text "smith"; turns = text "m12.smith" ∷ [] }

abbrev jarvis_ended : List (Text × ℕ)
jarvis_ended = (turn, 40) ∷ []

first_of_turn : turn_of (text "m10.jarvis:0") ≡ some turn
unfolding turn_of text_eq
first_of_turn = refl

second_of_turn : turn_of (text "m10.jarvis:1") ≡ some turn
unfolding turn_of text_eq
second_of_turn = refl

first_not_end : is_turn_end (text "m10.jarvis:0") ≡ false
unfolding is_turn_end turn_of turn_end_key
first_not_end = refl

second_not_end : is_turn_end (text "m10.jarvis:1") ≡ false
unfolding is_turn_end turn_of turn_end_key
second_not_end = refl

turn_reads-whole_example :
    turn_reads 11 (text "m10.jarvis:0") smith_scope jarvis_ended
    ≡ turn_reads 12 (text "m10.jarvis:1") smith_scope jarvis_ended
turn_reads-whole_example =
    turn_reads-whole smith_scope jarvis_ended turn (text "m10.jarvis:0") (text "m10.jarvis:1") 11 12
      first_of_turn second_of_turn first_not_end second_not_end

turn_reads_iff_example :
    (turn_reads 11 (text "m10.jarvis:0") smith_scope jarvis_ended ≡ true)
    ↔ ((is_turn_end (text "m10.jarvis:0") ≡ false) × ReadsTurn smith_scope jarvis_ended turn)
turn_reads_iff_example =
    turn_reads_iff smith_scope jarvis_ended turn (text "m10.jarvis:0") 11 first_of_turn
