-- ===== src/Conversation/Order.antt =====
-- conversation/order.go: each turn, as one block, right after the message it answers. `byTurn` holds
-- pointers to the blocks of `blocks`: a block carries its turn, and is found and changed in place.
pub mod Groups
pub mod Placement
pub mod Contents
mod Samples
use temporal_agent.Common.{
  sort, ℕ, zero, ◌+◌, ◌-◌, ◌/◌, min, Bool, not, none, some, List, [], ◌∷◌, ◌++◌, ltb, leb, eqb,
  if◌then◌else◌, all, ◌==◌, Text, text_equality, number_equality,
}
use temporal_agent.Store.Keys.{turn_of}
use temporal_agent.Store.Reads.{MessageWithId, anchor_or_zero}

-- `block`, with the key of `byTurn` it stands under.
pub record Block (Message : Type 0) : Type 0 where
  pub turn : Text
  pub anchor : ℕ
  pub first : ℕ
  pub msgs : List (MessageWithId Message)

module _ {Message : Type 0} where
  abbrev pub by_id : MessageWithId Message → MessageWithId Message → Bool
  by_id a b = leb a.id b.id

  -- cmp.Or(cmp.Compare(a.anchor, b.anchor), cmp.Compare(a.first, b.first)) is not above 0.
  abbrev pub by_anchor : Block Message → Block Message → Bool
  by_anchor a b = if eqb a.anchor b.anchor then leb a.first b.first else ltb a.anchor b.anchor

  add_to_block : MessageWithId Message → Block Message → Block Message
  add_to_block m b = record b { first = min b.first m.id; msgs = b.msgs ++ m ∷ [] }

  new_block : Text → MessageWithId Message → Block Message
  new_block turn m = record {
    turn = turn;
    anchor = anchor_or_zero turn;
    first = min m.id m.id;
    msgs = m ∷ [];
  }

  -- The message goes to its turn's block, or to a new one at the end.
  pub add_message : Text → MessageWithId Message → List (Block Message) → List (Block Message)
  unfolding add_to_block new_block
  add_message turn m [] = new_block turn m ∷ []
  add_message turn m (b ∷ blocks) =
      if b.turn == turn then add_to_block m b ∷ blocks else b ∷ add_message turn m blocks

  -- The first loop: the messages no turn wrote, and the blocks, as far as read.
  pub group :
      List (MessageWithId Message)
      → List (Block Message)
      → List (MessageWithId Message)
      → List (MessageWithId Message) × List (Block Message)
  group plain blocks [] = (plain, blocks)
  group plain blocks (m ∷ msgs) = elim (turn_of m.key) [
    | none ↦ group (plain ++ m ∷ []) blocks msgs
    | some turn ↦ group plain (add_message turn m blocks) msgs
  ]

  pub sorted_block : List (MessageWithId Message) → List (MessageWithId Message)
  sorted_block msgs = sort by_id msgs

  -- The blocks anchored before `id`, written out, and those left.
  pub emit : ℕ → List (Block Message) → List (MessageWithId Message) × List (Block Message)
  emit id [] = ([], [])
  emit id (b ∷ blocks) =
      let rest = emit id blocks in
      if ltb b.anchor id then (sorted_block b.msgs ++ rest.0, rest.1) else ([], b ∷ blocks)

  pub emit_all : List (Block Message) → List (MessageWithId Message)
  emit_all [] = []
  emit_all (b ∷ blocks) = sorted_block b.msgs ++ emit_all blocks

  -- The last two loops.
  pub place : List (MessageWithId Message) → List (Block Message) → List (MessageWithId Message)
  unfolding emit emit_all
  place [] blocks = emit_all blocks
  place (p ∷ plain) blocks = let before = emit p.id blocks in before.0 ++ (p ∷ place plain before.1)

  pub order : List (MessageWithId Message) → List (MessageWithId Message)
  order messages =
      let (plain, blocks) = group [] [] messages in place (sort by_id plain) (sort by_anchor blocks)
