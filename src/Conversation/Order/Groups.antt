-- ===== src/Conversation/Order/Groups.antt =====
-- conversation/order.go: what the first loop of Order gathers.
use temporal_agent.Common.{
  ◌≡◌, refl, sym, ap, ◌∙◌, ◌≢◌, inl, inr, Bool, true, false, Option, none, some, List, [], ◌∷◌,
  ◌++◌, arith, if◌then◌else◌, Bool-cases, Option-cases, select, All, In, ◌==◌, Text, text_eq_iff,
  text_equality, number_equality,
}
use mathlib.Core.List.{append-nil, append_assoc}
use temporal_agent.Store.Keys.{turn_of}
use temporal_agent.Store.Reads.{MessageWithId, anchor_or_zero}
use temporal_agent.Conversation.Order.{Block, add_message, add_to_block, new_block, group}

-- Whether no turn wrote the message; whether the given turn did.
unfoldable pub no_turn : {Message : Type 0} → MessageWithId Message → Bool
no_turn m = elim (turn_of m.key) [ none ↦ true | some _ ↦ false ]

unfoldable pub is_of : {Message : Type 0} → Text → MessageWithId Message → Bool
is_of turn m = elim (turn_of m.key) [ none ↦ false | some t ↦ t == turn ]

module _ {Message : Type 0} where
  find : Text → List (Block Message) → Option (Block Message)
  find turn [] = none
  find turn (b ∷ blocks) = if b.turn == turn then some b else find turn blocks

  grown : Text → MessageWithId Message → Option (Block Message) → Block Message
  grown turn m none = new_block turn m
  grown turn m (some b) = add_to_block m b

  find-add_message :
      (t turn : Text) (m : MessageWithId Message) (blocks : List (Block Message))
      → find t (add_message turn m blocks)
        ≡ (if turn == t then some (grown turn m (find turn blocks)) else find t blocks)
  unfolding find grown add_message
  find-add_message t turn m [] = ground (arith, text_eq_iff turn t)
  find-add_message t turn m (b ∷ blocks) = ground (
    arith,
    text_eq_iff turn t,
    text_eq_iff b.turn turn,
    text_eq_iff b.turn t,
    find-add_message t turn m blocks,
  )

  find-In :
      (t : Text) (blocks : List (Block Message)) (b : Block Message)
      → find t blocks ≡ some b
      → In b blocks
  unfolding find
  find-In t [] b h = cc
  find-In t (c ∷ blocks) b h = ground (arith, find-In t blocks b)

  -- The messages a found block holds; none where there is no block.
  msgs_of : Option (Block Message) → List (MessageWithId Message)
  msgs_of none = []
  msgs_of (some b) = b.msgs

  msgs_of-add_message :
      (t turn : Text) (m : MessageWithId Message) (blocks : List (Block Message))
      → msgs_of (find t (add_message turn m blocks))
        ≡ (if turn == t then msgs_of (find t blocks) ++ m ∷ [] else msgs_of (find t blocks))
  unfolding msgs_of grown add_to_block new_block
  msgs_of-add_message t turn m blocks =
      rw (find-add_message t turn m blocks) (elim (Bool-cases (turn == t)) [
        | inl e ↦ rw (e, (text_eq_iff turn t).0 e) (grown-msgs (find t blocks))
        | inr e ↦ rw e
      ])
    where
      grown-msgs : (o : Option (Block Message)) → msgs_of (some (grown t m o)) ≡ msgs_of o ++ m ∷ []
      grown-msgs none = refl
      grown-msgs (some b) = refl

  -- The block of a turn gathers the turn's messages, in the order given.
  msgs_of-group :
      (t : Text) (plain : List (MessageWithId Message)) (blocks : List (Block Message))
      (msgs : List (MessageWithId Message))
      → msgs_of (find t (group plain blocks msgs).1)
        ≡ msgs_of (find t blocks) ++ select (is_of t) msgs
  unfolding group is_of
  msgs_of-group t plain blocks [] = sym (append-nil _)
  msgs_of-group t plain blocks (m ∷ msgs) = elim (Option-cases (turn_of m.key)) [
    | inl e ↦ rw (e, group, is_of) (msgs_of-group t (plain ++ m ∷ []) blocks msgs)
    | inr (turn, e) ↦
        rw (e, group, is_of)
          (ground (
            arith,
            msgs_of-group t plain (add_message turn m blocks) msgs,
            msgs_of-add_message t turn m blocks,
            append_assoc (msgs_of (find t blocks)) (m ∷ []) (select (is_of t) msgs),
          ))
  ]

  pub plain-group :
      (plain : List (MessageWithId Message)) (blocks : List (Block Message))
      (msgs : List (MessageWithId Message))
      → (group plain blocks msgs).0 ≡ plain ++ select no_turn msgs
  unfolding group no_turn
  plain-group plain blocks [] = sym (append-nil _)
  plain-group plain blocks (m ∷ msgs) = elim (Option-cases (turn_of m.key)) [
    | inl e ↦
        rw (e, group, no_turn)
          (plain-group (plain ++ m ∷ []) blocks msgs
            ∙ append_assoc plain (m ∷ []) (select no_turn msgs))
    | inr (turn, e) ↦ rw (e, group, no_turn) (plain-group plain (add_message turn m blocks) msgs)
  ]

  -- A block is its turn's: its anchor, its messages.
  pub record IsBlock (b : Block Message) : Type 0 where
    pub anchored : b.anchor ≡ anchor_or_zero b.turn
    pub its_own : All (λ m. turn_of m.key ≡ some b.turn) b.msgs

  All-append_one :
      (P : MessageWithId Message → Type 0) (xs : List (MessageWithId Message))
      (m : MessageWithId Message)
      → All P xs
      → P m
      → All P (xs ++ m ∷ [])
  All-append_one P [] m a p = (p, tt)
  All-append_one P (x ∷ xs) m a p = (a.0, All-append_one P xs m a.1 p)

  add_message-IsBlock :
      (turn : Text) (m : MessageWithId Message) (blocks : List (Block Message))
      → turn_of m.key ≡ some turn
      → All IsBlock blocks
      → All IsBlock (add_message turn m blocks)
  unfolding add_message new_block add_to_block
  add_message-IsBlock turn m [] e a = (record { anchored = refl; its_own = (e, tt) }, tt)
  add_message-IsBlock turn m (b ∷ blocks) e a = elim (Bool-cases (b.turn == turn)) [
    | inl s ↦ rw s (
      record {
        anchored = (a.0).anchored;
        its_own =
            All-append_one (λ m. turn_of m.key ≡ some b.turn) b.msgs m (a.0).its_own
              (e ∙ ap some (sym ((text_eq_iff b.turn turn).0 s)));
      },
      a.1,
    )
    | inr s ↦ rw s (a.0, add_message-IsBlock turn m blocks e a.1)
  ]

  pub group-IsBlock :
      (plain : List (MessageWithId Message)) (blocks : List (Block Message))
      (msgs : List (MessageWithId Message))
      → All IsBlock blocks
      → All IsBlock (group plain blocks msgs).1
  unfolding group
  group-IsBlock plain blocks [] a = a
  group-IsBlock plain blocks (m ∷ msgs) a = elim (Option-cases (turn_of m.key)) [
    | inl e ↦ rw (e, group) (group-IsBlock (plain ++ m ∷ []) blocks msgs a)
    | inr (turn, e) ↦
        rw (e, group)
          (group-IsBlock plain (add_message turn m blocks) msgs
            (add_message-IsBlock turn m blocks e a))
  ]

  find-turn :
      (t : Text) (blocks : List (Block Message)) (b : Block Message)
      → find t blocks ≡ some b
      → b.turn ≡ t
  unfolding find
  find-turn t [] b h = cc
  find-turn t (c ∷ blocks) b h = ground (arith, find-turn t blocks b, text_eq_iff c.turn t)

  -- A turn that wrote a message has its block among those gathered.
  pub group-block :
      (t : Text) (msgs : List (MessageWithId Message))
      → select (is_of t) msgs ≢ []
      → (b : Block Message) × In b (group [] [] msgs).1
        × (b.turn ≡ t)
        × (b.msgs ≡ select (is_of t) msgs)
  unfolding msgs_of find
  group-block t msgs some_of = found (find t (group [] [] msgs).1) refl
    where
      found :
          (o : Option (Block Message))
          → find t (group [] [] msgs).1 ≡ o
          → (b : Block Message) × In b (group [] [] msgs).1
            × (b.turn ≡ t)
            × (b.msgs ≡ select (is_of t) msgs)
      found none e = absurd (some_of (sym (msgs_of-group t [] [] msgs) ∙ ap msgs_of e))
      found (some b) e =
          (b, find-In t _ b e, find-turn t _ b e, sym (ap msgs_of e) ∙ msgs_of-group t [] [] msgs)
