-- ===== src/Store/Keys.antt =====
-- The keys of a session's messages, by writer, and the turns' keys: printed and parsed.
-- A message's ID is a number of the database's sequence, never negative.
pub mod Cuts
pub mod RoundTrip
pub mod Writers
use temporal_agent.Common.{
  ℕ, ◌+◌, ◌-◌, ◌/◌, ◌<◌, Bool, false, not, ◌&&◌, ◌||◌, Option, none, some, [], ◌∷◌, ◌++◌,
  if◌then◌else◌, any, ◌==◌, contains, Text, text, text_eq, text_equality, number_equality,
}
use temporal_agent.Store.Decimal.{decimal, digits, parse_int}
use Cuts.{cut, last_cut, cut_prefix, contains_any, starts_with}

abbrev pub human_key_prefix : Text
human_key_prefix = text "msg:"

abbrev pub scheduled_key_prefix : Text
scheduled_key_prefix = text "sched:"

abbrev pub report_key_prefix : Text
report_key_prefix = text "report:"

abbrev pub turn_end_suffix : Text
turn_end_suffix = text "end"

pub human_message_key : Text → Text
human_message_key id = human_key_prefix ++ id

pub fork_report_key : Text → ℕ → ℕ → Text
fork_report_key fork from up_to =
    report_key_prefix ++ (fork ++ (text ":" ++ (decimal from ++ (text "-" ++ decimal up_to))))

pub scheduled_message_key : Text → ℕ → Text
scheduled_message_key schedule run = scheduled_key_prefix ++ (schedule ++ (text ":" ++ decimal run))

-- store/background_task.go, TaskResultKey
pub task_result_key : Text → Text
task_result_key task = text "task:" ++ task

-- "m<message id>.<participant>"
unfoldable pub turn_key : ℕ → Text → Text
unfolding decimal
turn_key message participant = text "m" ++ (decimal message ++ (text "." ++ participant))

-- The participant, or nothing when it is empty or holds a dot or a colon.
participant_of : ℕ → Text → Option (ℕ × Text)
participant_of anchor participant =
    if participant == [] || contains_any participant (b'.' ∷ b':' ∷ [])
    then none
    else some (anchor, participant)

anchor_and_participant : Text → Text → Option (ℕ × Text)
anchor_and_participant digits_of participant =
    if digits digits_of
    then elim (parse_int digits_of) [
      | none ↦ none
      | some anchor ↦ participant_of anchor participant
    ]
    else none

unfoldable pub parse_turn : Text → Option (ℕ × Text)
unfolding anchor_and_participant participant_of cut cut_prefix contains_any parse_int digits
parse_turn turn = elim (cut_prefix turn b'm') [
  | none ↦ none
  | some rest ↦ elim (cut b'.' rest) [
    | none ↦ none
    | some (digits_of, participant) ↦ anchor_and_participant digits_of participant
  ]
]

-- `i <= 0`: no colon, or nothing before it.
turn_before : Text → Text → Option Text
turn_before turn suffix =
    if turn == []
    then none
    else if not (suffix == turn_end_suffix) && not (digits suffix)
    then none
    else elim (parse_turn turn) [ none ↦ none | some _ ↦ some turn ]

unfoldable pub turn_of : Text → Option Text
unfolding turn_before last_cut parse_turn
turn_of msg_key = elim (last_cut b':' msg_key) [
  | none ↦ none
  | some (turn, suffix) ↦ turn_before turn suffix
]

unfoldable pub turn_anchor : Text → Option ℕ
unfolding parse_turn
turn_anchor turn = elim (parse_turn turn) [ none ↦ none | some (anchor, _) ↦ some anchor ]

unfoldable pub turn_participant : Text → Text
unfolding parse_turn
turn_participant turn = elim (parse_turn turn) [ none ↦ [] | some (_, participant) ↦ participant ]

unfoldable pub turn_end_key : Text → Text
turn_end_key turn = turn ++ (text ":" ++ turn_end_suffix)

unfoldable pub turn_message_key : Text → ℕ → Text
unfolding decimal
turn_message_key turn index = turn ++ (text ":" ++ decimal index)

unfoldable pub is_turn_end : Text → Bool
unfolding turn_of turn_end_key text_eq
is_turn_end msg_key = elim (turn_of msg_key) [
  | none ↦ false
  | some turn ↦ msg_key == turn_end_key turn
]

pub is_scheduled_result : Text → Bool
is_scheduled_result msg_key = starts_with msg_key scheduled_key_prefix
