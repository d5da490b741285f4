-- ===== src/Store/Reads.antt =====
-- What a turn reads of the session's messages: TurnScope, TurnReads, TurnEndIDs.
pub mod Laws
use temporal_agent.Common.{
  ℕ, zero, ◌+◌, ◌-◌, Bool, true, false, not, Option, none, some, List, [], ◌∷◌, ◌++◌, ltb, leb,
  if◌then◌else◌, ◌==◌, contains, Text, text, text_eq, text_equality, number_equality, lookup, put,
}
use temporal_agent.Store.Keys.{parse_turn, turn_of, is_turn_end, turn_anchor, turn_participant}

pub record TurnScope : Type 0 where
  pub up_to : ℕ
  pub participant : Text
  pub turns : List Text

-- A key that is no turn's gives the anchor 0 and no participant.
unfoldable pub anchor_or_zero : Text → ℕ
unfolding turn_anchor
anchor_or_zero turn = elim (turn_anchor turn) [ none ↦ 0 | some anchor ↦ anchor ]

pub scope_of : Text → List Text → TurnScope
unfolding anchor_or_zero
scope_of turn earlier = record {
  up_to = anchor_or_zero turn;
  participant = turn_participant turn;
  turns = earlier ++ turn ∷ [];
}

-- A stored message; what it says is of no concern here.
pub record MessageWithId {ℓ} (Message : Type ℓ) : Type ℓ where
  pub id : ℕ
  pub key : Text
  pub message : Message

ended_by : Option ℕ → ℕ → Bool
ended_by none up_to = false
ended_by (some end) up_to = leb end up_to

-- Of a message of a turn that is not among the scope's own: by its anchor, its participant, its end.
reads_other : Text → TurnScope → List (Text × ℕ) → Bool
unfolding anchor_or_zero ended_by
reads_other turn scope ends =
    if ltb scope.up_to (anchor_or_zero turn)
    then false
    else if turn_participant turn == scope.participant
    then true
    else ended_by (lookup turn ends) scope.up_to

pub turn_reads : ℕ → Text → TurnScope → List (Text × ℕ) → Bool
unfolding reads_other
turn_reads id key scope ends = elim (turn_of key) [
  | none ↦ leb id scope.up_to
  | some turn ↦
      if is_turn_end key
      then false
      else if contains scope.turns turn
      then true
      else reads_other turn scope ends
]

-- `turn, _ := TurnOf(m.Key)`: an end's key is always a turn's.
put_end : Option Text → ℕ → List (Text × ℕ) → List (Text × ℕ)
put_end none id ends = ends
put_end (some turn) id ends = put turn id ends

module _ {ℓ} {Message : Type ℓ} where
  end_ids_from : List (Text × ℕ) → List (MessageWithId Message) → List (Text × ℕ)
  end_ids_from ends [] = ends
  end_ids_from ends (m ∷ msgs) =
      end_ids_from (if is_turn_end m.key then put_end (turn_of m.key) m.id ends else ends) msgs

  pub turn_end_ids : List (MessageWithId Message) → List (Text × ℕ)
  unfolding end_ids_from put_end
  turn_end_ids msgs = end_ids_from [] msgs
