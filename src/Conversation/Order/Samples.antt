-- ===== src/Conversation/Order/Samples.antt =====
-- Two participants answering in parallel, and the theorems at their messages.
use temporal_agent.Common.{
  Perm, sort, Sorted, ℕ, ◌≡◌, refl, List, [], ◌∷◌, map, select, Text, text, text_eq, text_equality,
  number_equality,
}
use temporal_agent.Store.Keys.{turn_of}
use temporal_agent.Store.Reads.{MessageWithId, anchor_or_zero}
use temporal_agent.Conversation.Order.{by_id, order, group, add_message, place, sorted_block}
use temporal_agent.Conversation.Order.Groups.{no_turn, is_of}
use temporal_agent.Conversation.Order.Placement.{Placed, order-Placed}
use temporal_agent.Conversation.Order.Contents.{order-perm, order-plain}

abbrev at : ℕ → Text → MessageWithId (Unit {0})
at id key = record { id = id; key = key; message = tt }

-- Jarvis answers message 10 while Smith answers message 12.
abbrev parallel : List (MessageWithId (Unit {0}))
parallel =
    at 10 (text "msg:a")
    ∷ at 11 (text "m10.jarvis:0")
    ∷ at 12 (text "msg:b")
    ∷ at 13 (text "m12.smith:0")
    ∷ at 14 (text "m10.jarvis:1")
    ∷ []

parallel_ordered : map (λ m. m.id) (order parallel) ≡ 10 ∷ 11 ∷ 14 ∷ 12 ∷ 13 ∷ []
unfolding order group add_message place sorted_block turn_of anchor_or_zero sort text_eq
parallel_ordered = refl

order-Placed_example :
    Placed
      (anchor_or_zero (text "m10.jarvis"))
      (sort by_id (select (is_of (text "m10.jarvis")) parallel))
      (order parallel)
unfolding is_of turn_of text_eq
order-Placed_example = order-Placed (text "m10.jarvis") parallel (λ e. cc)

order-perm_example : Perm (order parallel) parallel
order-perm_example = order-perm parallel

order-plain_example :
    (select no_turn (order parallel) ≡ sort by_id (select no_turn parallel))
    × Sorted by_id (select no_turn (order parallel))
order-plain_example = order-plain parallel
