-- ===== src/Conversation/Order/Contents.antt =====
-- conversation/order.go: the messages of the order, against those it is given.
use temporal_agent.Common.{
  Perm, insert, sort, sort-perm, All-sort, Sorted, sort-Sorted, ℕ, ◌≡◌, refl, sym, ap, ◌∙◌, subst,
  inl, inr, Bool, true, List, [], ◌∷◌, ◌++◌, arith, ltb, Bool-cases, Option-cases, select, All,
  ◌==◌, Text, text_equality, number_equality,
}
use mathlib.Core.List.{append-nil, append_assoc, perm_append_comm, perm_middle}
use mathlib.Core.List.Perm
use temporal_agent.Store.Keys.{turn_of}
use temporal_agent.Store.Reads.{MessageWithId}
use temporal_agent.Conversation.Order.{
  Block, by_id, by_anchor, add_message, add_to_block, new_block, group, sorted_block, emit,
  emit_all, place, order,
}
use temporal_agent.Conversation.Order.Groups.{no_turn, plain-group, group-IsBlock, IsBlock}
use temporal_agent.Conversation.Order.Placement.{
  ByTurn, emit_all-ByTurn, emit-parts, by_id-total, by_id_trans,
}

module _ {Message : Type 0} where
  -- The blocks' messages, one block after another.
  flat : List (Block Message) → List (MessageWithId Message)
  flat [] = []
  flat (b ∷ blocks) = b.msgs ++ flat blocks

  flat-add_message :
      (turn : Text) (m : MessageWithId Message) (blocks : List (Block Message))
      → Perm (flat (add_message turn m blocks)) (m ∷ flat blocks)
  unfolding flat add_message add_to_block new_block
  flat-add_message turn m [] = Perm.refl _
  flat-add_message turn m (b ∷ blocks) = elim (Bool-cases (b.turn == turn)) [
    | inl e ↦
        rw (e, flat)
          (rw (append_assoc b.msgs (m ∷ []) (flat blocks)) (perm_middle b.msgs (flat blocks)))
    | inr e ↦
        rw (e, flat)
          (Perm.trans (Perm.append_left b.msgs (flat-add_message turn m blocks))
            (perm_middle b.msgs (flat blocks)))
  ]

  flat-group :
      (plain : List (MessageWithId Message)) (blocks : List (Block Message))
      (msgs : List (MessageWithId Message))
      → Perm
          ((group plain blocks msgs).0 ++ flat (group plain blocks msgs).1)
          ((plain ++ flat blocks) ++ msgs)
  unfolding group
  flat-group plain blocks [] = rw (append-nil (plain ++ flat blocks)) (Perm.refl _)
  flat-group plain blocks (m ∷ msgs) = elim (Option-cases (turn_of m.key)) [
    | inl e ↦ rw (e, group) (Perm.trans (flat-group (plain ++ m ∷ []) blocks msgs) moved)
    | inr (turn, e) ↦
        rw (e, group)
          (Perm.trans (flat-group plain (add_message turn m blocks) msgs) (
            Perm.trans
              (Perm.append_right msgs (Perm.append_left plain (flat-add_message turn m blocks)))
              (rw
                (
                  append_assoc plain (m ∷ flat blocks) msgs,
                  append_assoc plain (flat blocks) (m ∷ msgs),
                )
                (Perm.append_left plain (Perm.symm (perm_middle (flat blocks) msgs))))))
  ]
    where
      moved :
          Perm (((plain ++ m ∷ []) ++ flat blocks) ++ msgs) ((plain ++ flat blocks) ++ (m ∷ msgs))
      moved =
          rw
            (
              append_assoc plain (m ∷ []) (flat blocks),
              append_assoc plain (m ∷ flat blocks) msgs,
              append_assoc plain (flat blocks) (m ∷ msgs),
            )
            (Perm.append_left plain (Perm.symm (perm_middle (flat blocks) msgs)))

  flat-insert :
      (b : Block Message) (blocks : List (Block Message))
      → Perm (flat (insert by_anchor b blocks)) (b.msgs ++ flat blocks)
  unfolding flat insert
  flat-insert b [] = Perm.refl _
  flat-insert b (c ∷ blocks) = elim (Bool-cases (by_anchor b c)) [
    | inl e ↦ rw (e, flat) (Perm.refl _)
    | inr e ↦
        rw (e, flat)
          (Perm.trans (Perm.append_left c.msgs (flat-insert b blocks)) (
            rw
              (
                sym (append_assoc c.msgs b.msgs (flat blocks)),
                sym (append_assoc b.msgs c.msgs (flat blocks)),
              )
              (Perm.append_right (flat blocks) (perm_append_comm c.msgs b.msgs))))
  ]

  flat-sort : (blocks : List (Block Message)) → Perm (flat (sort by_anchor blocks)) (flat blocks)
  unfolding flat sort
  flat-sort [] = Perm.refl _
  flat-sort (b ∷ blocks) =
      Perm.trans (flat-insert b (sort by_anchor blocks))
        (Perm.append_left b.msgs (flat-sort blocks))

  emit_all-flat : (blocks : List (Block Message)) → Perm (emit_all blocks) (flat blocks)
  unfolding emit_all flat sorted_block
  emit_all-flat [] = Perm.refl _
  emit_all-flat (b ∷ blocks) = Perm.append (sort-perm by_id b.msgs) (emit_all-flat blocks)

  emit-rest :
      (id : ℕ) (blocks : List (Block Message))
      → (emit id blocks).0 ++ emit_all (emit id blocks).1 ≡ emit_all blocks
  unfolding emit emit_all
  emit-rest id [] = refl
  emit-rest id (b ∷ blocks) = elim (Bool-cases (ltb b.anchor id)) [
    | inl e ↦
        rw (e, emit)
          (append_assoc (sorted_block b.msgs) _ _
            ∙ ap (λ l. sorted_block b.msgs ++ l) (emit-rest id blocks))
    | inr e ↦ rw (e, emit)
  ]

  place-perm :
      (plain : List (MessageWithId Message)) (blocks : List (Block Message))
      → Perm (place plain blocks) (plain ++ emit_all blocks)
  unfolding place
  place-perm [] blocks = Perm.refl _
  place-perm (p ∷ plain) blocks =
      let e = emit p.id blocks in
      Perm.trans (perm_middle e.0 (place plain e.1)) (
        Perm.cons p (
          Perm.trans (Perm.append_left e.0 (place-perm plain e.1))
            (regroup e.0 (emit_all e.1) (emit-rest p.id blocks))))
    where
      regroup :
          (o r : List (MessageWithId Message))
          → o ++ r ≡ emit_all blocks
          → Perm (o ++ (plain ++ r)) (plain ++ emit_all blocks)
      regroup o r h =
          rw (sym (append_assoc o plain r), sym h, sym (append_assoc plain o r))
            (Perm.append_right r (perm_append_comm o plain))

  -- The order is a permutation of the messages given.
  pub order-perm : (messages : List (MessageWithId Message)) → Perm (order messages) messages
  unfolding order flat
  order-perm messages =
      let g = group [] [] messages in
      Perm.trans (place-perm (sort by_id g.0) (sort by_anchor g.1)) (
        Perm.trans
          (Perm.append (sort-perm by_id g.0)
            (Perm.trans (emit_all-flat (sort by_anchor g.1)) (flat-sort g.1)))
          (flat-group [] [] messages))

  select-append :
      (f : MessageWithId Message → Bool) (xs ys : List (MessageWithId Message))
      → select f (xs ++ ys) ≡ select f xs ++ select f ys
  select-append f [] ys = refl
  select-append f (x ∷ xs) ys = ground (arith, select-append f xs ys)

  select-ByTurn : (xs : List (MessageWithId Message)) → All ByTurn xs → select no_turn xs ≡ []
  select-ByTurn [] a = refl
  select-ByTurn (x ∷ xs) a = rw (a.0) (select-ByTurn xs a.1)

  select-plain :
      (xs : List (MessageWithId Message)) → All (λ m. no_turn m ≡ true) xs → select no_turn xs ≡ xs
  select-plain [] a = refl
  select-plain (x ∷ xs) a = rw (a.0) (ap (λ l. x ∷ l) (select-plain xs a.1))

  All-select : (xs : List (MessageWithId Message)) → All (λ m. no_turn m ≡ true) (select no_turn xs)
  All-select [] = tt
  All-select (x ∷ xs) = elim (Bool-cases (no_turn x)) [
    | inl e ↦ rw e (e, All-select xs)
    | inr e ↦ rw e (All-select xs)
  ]

  place-plain :
      (plain : List (MessageWithId Message)) (blocks : List (Block Message))
      → All IsBlock blocks
      → All (λ m. no_turn m ≡ true) plain
      → select no_turn (place plain blocks) ≡ plain
  unfolding place
  place-plain [] blocks a h = select-ByTurn (emit_all blocks) (emit_all-ByTurn blocks a)
  place-plain (p ∷ plain) blocks a h =
      let (o, r) = emit-parts p.id blocks a in
      select-append no_turn (emit p.id blocks).0 (p ∷ place plain (emit p.id blocks).1)
      ∙ rw (select-ByTurn (emit p.id blocks).0 o)
          (rw (h.0) (ap (λ l. p ∷ l) (place-plain plain (emit p.id blocks).1 r h.1)))

  -- The messages no turn wrote stand in the order of their IDs, whatever stands between them.
  pub order-plain :
      (messages : List (MessageWithId Message))
      → (select no_turn (order messages) ≡ sort by_id (select no_turn messages))
        × Sorted by_id (select no_turn (order messages))
  unfolding order
  order-plain messages =
      let plain = plain-group [] [] messages in
      let same =
        place-plain (sort by_id (group [] [] messages).0) (sort by_anchor (group [] [] messages).1)
          (All-sort by_anchor IsBlock _ (group-IsBlock [] [] messages tt))
          (All-sort by_id (λ m. no_turn m ≡ true) _
            (subst (All (λ m. no_turn m ≡ true)) (sym plain) (All-select messages)))
        ∙ ap (sort by_id) plain in
      (same, subst (Sorted by_id) (sym same) (sort-Sorted by_id by_id-total by_id_trans _))
