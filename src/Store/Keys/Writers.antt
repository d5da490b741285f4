-- ===== src/Store/Keys/Writers.antt =====
-- store/message.go: the keys of messages that no turn wrote, read as turns' keys.
use temporal_agent.Common.{
  ℕ, ◌≡◌, refl, inl, inr, false, none, [], ◌∷◌, arith, eqb, Option-cases, Text, text_equality,
  number_equality,
}
use temporal_agent.Store.Decimal.{is_digit, digits}
use temporal_agent.Store.Keys.Cuts.{cut, last_cut, cut_prefix}
use temporal_agent.Store.Keys.{
  human_message_key, fork_report_key, scheduled_message_key, task_result_key, parse_turn,
  anchor_and_participant, turn_before, turn_of,
}

turn_before-unparsed :
    (turn suffix : Text) → parse_turn turn ≡ none → turn_before turn suffix ≡ none
unfolding turn_before
turn_before-unparsed turn suffix h = ground arith

-- Only what begins with "m" is a turn's.
turn_of-other : (c : ℕ) (s : Text) → eqb c b'm' ≡ false → turn_of (c ∷ s) ≡ none
unfolding turn_of last_cut parse_turn cut_prefix
turn_of-other c s h = elim (Option-cases (last_cut b':' s)) [
  | inl e ↦ ground (arith, e, turn_before-unparsed [] s refl)
  | inr ((p, q), e) ↦ ground (arith, e, turn_before-unparsed (c ∷ p) q (ground arith))
]

-- The text before the first dot begins with no digit.
parse_turn-letter :
    (c : ℕ) (s : Text) → is_digit c ≡ false → eqb c b'.' ≡ false → parse_turn (b'm' ∷ c ∷ s) ≡ none
unfolding parse_turn cut_prefix cut anchor_and_participant digits
parse_turn-letter c s h d = ground arith

turn_of-letter :
    (c : ℕ) (s : Text)
    → is_digit c ≡ false
    → eqb c b'.' ≡ false
    → eqb c b':' ≡ false
    → turn_of (b'm' ∷ c ∷ s) ≡ none
unfolding turn_of last_cut
turn_of-letter c s h d k = elim (Option-cases (last_cut b':' s)) [
  | inl e ↦ ground arith
  | inr ((p, q), e) ↦
      ground (arith, e, turn_before-unparsed (b'm' ∷ c ∷ p) q (parse_turn-letter c p h d))
]

-- The keys of a person's message, of a scheduled result, of a fork's report and of a background
-- task's result are no turn's, whatever the IDs in them.
pub turn_of-no_turn :
    (id fork schedule task : Text) (from up_to run : ℕ)
    → (turn_of (human_message_key id) ≡ none)
      × (turn_of (scheduled_message_key schedule run) ≡ none)
      × (turn_of (fork_report_key fork from up_to) ≡ none)
      × (turn_of (task_result_key task) ≡ none)
unfolding human_message_key scheduled_message_key fork_report_key task_result_key
turn_of-no_turn id fork schedule task from up_to run = (
  turn_of-letter b's' _ refl refl refl,
  turn_of-other b's' _ refl,
  turn_of-other b'r' _ refl,
  turn_of-other b't' _ refl,
)
