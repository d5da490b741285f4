-- ===== src/Conversation/Order/Placement.antt =====
-- conversation/order.go: where Order puts the turns of a message.
use temporal_agent.Common.{
  sort, All-sort, Sorted, sort-Sorted, In-sort, ℕ, ◌≤◌, ◌<◌, ◌≡◌, sym, ap, ◌∙◌, subst, ◌≢◌, inl,
  inr, true, false, some, List, [], ◌∷◌, ◌++◌, arith, ltb, ltb_iff, Bool-cases, select, All, In,
  Text, text_equality, number_equality,
}
use mathlib.Core.List.{append_assoc}
use temporal_agent.Store.Keys.{turn_of}
use temporal_agent.Store.Reads.{MessageWithId, anchor_or_zero}
use temporal_agent.Conversation.Order.{
  Block, by_id, by_anchor, group, sorted_block, emit, emit_all, place, order,
}
use temporal_agent.Conversation.Order.Groups.{no_turn, is_of, IsBlock, group-IsBlock, group-block}

module _ {Message : Type 0} where
  -- A message no turn wrote that stands before, or after, a turn of that anchor.
  abbrev pub Before : ℕ → MessageWithId Message → Type 0
  Before anchor m = no_turn m ≡ true → m.id ≤ anchor

  abbrev pub After : ℕ → MessageWithId Message → Type 0
  After anchor m = no_turn m ≡ true → anchor < m.id

  -- The messages stand in one piece, behind what is not above the anchor and before what is.
  abbrev pub Placed : ℕ → List (MessageWithId Message) → List (MessageWithId Message) → Type 0
  Placed anchor msgs out =
      (before : List (MessageWithId Message)) × (after : List (MessageWithId Message)) × (out
        ≡ before ++ (msgs ++ after))
      × All (Before anchor) before
      × All (After anchor) after

  abbrev pub ByTurn : MessageWithId Message → Type 0
  ByTurn m = no_turn m ≡ false

  All-append :
      (P : MessageWithId Message → Type 0) (xs ys : List (MessageWithId Message))
      → All P xs
      → All P ys
      → All P (xs ++ ys)
  All-append P [] ys a b = b
  All-append P (x ∷ xs) ys a b = (a.0, All-append P xs ys a.1 b)

  All-map :
      (P Q : MessageWithId Message → Type 0) (xs : List (MessageWithId Message))
      → ((m : MessageWithId Message) → P m → Q m)
      → All P xs
      → All Q xs
  All-map P Q [] f a = tt
  All-map P Q (x ∷ xs) f a = (f x a.0, All-map P Q xs f a.1)

  turns-Before : (n : ℕ) (xs : List (MessageWithId Message)) → All ByTurn xs → All (Before n) xs
  turns-Before n xs = All-map ByTurn (Before n) xs (λ m f. λ t. cc)

  turns-After : (n : ℕ) (xs : List (MessageWithId Message)) → All ByTurn xs → All (After n) xs
  turns-After n xs = All-map ByTurn (After n) xs (λ m f. λ t. cc)

  own→ByTurn : (t : Text) (m : MessageWithId Message) → turn_of m.key ≡ some t → ByTurn m
  unfolding no_turn
  own→ByTurn t m e = rw (e, no_turn)

  sorted_block-ByTurn : (b : Block Message) → IsBlock b → All ByTurn (sorted_block b.msgs)
  unfolding sorted_block
  sorted_block-ByTurn b ok =
      All-sort by_id ByTurn b.msgs
        (All-map (λ m. turn_of m.key ≡ some b.turn) ByTurn b.msgs (own→ByTurn b.turn) ok.its_own)

  pub emit_all-ByTurn :
      (blocks : List (Block Message)) → All IsBlock blocks → All ByTurn (emit_all blocks)
  unfolding emit_all
  emit_all-ByTurn [] a = tt
  emit_all-ByTurn (b ∷ blocks) a =
      All-append ByTurn (sorted_block b.msgs) (emit_all blocks) (sorted_block-ByTurn b a.0)
        (emit_all-ByTurn blocks a.1)

  -- What `emit` writes and what it leaves.
  pub emit-parts :
      (id : ℕ) (blocks : List (Block Message))
      → All IsBlock blocks
      → All ByTurn (emit id blocks).0 × All IsBlock (emit id blocks).1
  unfolding emit
  emit-parts id [] a = (tt, tt)
  emit-parts id (b ∷ blocks) a = elim (Bool-cases (ltb b.anchor id)) [
    | inl e ↦
        let (o, r) = emit-parts id blocks a.1 in
        rw e (
          All-append ByTurn (sorted_block b.msgs) (emit id blocks).0 (sorted_block-ByTurn b a.0) o,
          r,
        )
    | inr e ↦ rw e (tt, a)
  ]

  All_In :
      (P : Block Message → Type 0) (blocks : List (Block Message)) (b : Block Message)
      → All P blocks
      → In b blocks
      → P b
  All_In P [] b a m = absurd m
  All_In P (c ∷ blocks) b a (inl e) = subst P (sym e) a.0
  All_In P (c ∷ blocks) b a (inr m) = All_In P blocks b a.1 m

  head-le :
      (c : Block Message) (blocks : List (Block Message)) (b : Block Message)
      → Sorted by_anchor (c ∷ blocks)
      → In b (c ∷ blocks)
      → c.anchor ≤ b.anchor
  head-le c blocks b s (inl e) = ground arith
  head-le c blocks b s (inr m) = ground (arith, All_In (λ d. by_anchor c d ≡ true) blocks b s.0 m)

  -- A block anchored before `id` is written out whole; any other is left.
  emit-early :
      (id : ℕ) (blocks : List (Block Message)) (b : Block Message)
      → All IsBlock blocks
      → Sorted by_anchor blocks
      → In b blocks
      → b.anchor < id
      → (before : List (MessageWithId Message)) × (after : List (MessageWithId Message)) × ((emit id
            blocks).0
          ≡ before ++ (sorted_block b.msgs ++ after))
        × All ByTurn before
        × All ByTurn after
  unfolding emit
  emit-early id [] b a s m h = absurd m
  emit-early id (c ∷ blocks) b a s (inl e) h =
      let early : ltb c.anchor id ≡ true = ground arith in
      ([], (emit id blocks).0, rw (early, e, emit), tt, (emit-parts id blocks a.1).0)
  emit-early id (c ∷ blocks) b a s (inr m) h =
      let early : ltb c.anchor id ≡ true = ground (arith, head-le c blocks b s (inr m)) in
      let (before, after, e, p, q) = emit-early id blocks b a.1 s.1 m h in
      (
        sorted_block c.msgs ++ before,
        after,
        rw (early, emit)
            (ap (λ l. sorted_block c.msgs ++ l) e
              ∙ sym (append_assoc (sorted_block c.msgs) before _)),
        All-append ByTurn (sorted_block c.msgs) before (sorted_block-ByTurn c a.0) p,
        q,
      )

  emit-late :
      (id : ℕ) (blocks : List (Block Message)) (b : Block Message)
      → In b blocks
      → id ≤ b.anchor
      → In b (emit id blocks).1
  unfolding emit
  emit-late id [] b m h = absurd m
  emit-late id (c ∷ blocks) b (inl e) h =
      let late : ltb c.anchor id ≡ false = ground arith in rw (late, emit) (inl e)
  emit-late id (c ∷ blocks) b (inr m) h = elim (Bool-cases (ltb c.anchor id)) [
    | inl e ↦ rw (e, emit) (emit-late id blocks b m h)
    | inr e ↦ rw (e, emit) (inr m)
  ]

  emit-Sorted :
      (id : ℕ) (blocks : List (Block Message))
      → Sorted by_anchor blocks
      → Sorted by_anchor (emit id blocks).1
  unfolding emit
  emit-Sorted id [] s = tt
  emit-Sorted id (c ∷ blocks) s = elim (Bool-cases (ltb c.anchor id)) [
    | inl e ↦ rw (e, emit) (emit-Sorted id blocks s.1)
    | inr e ↦ rw (e, emit) s
  ]

  -- Every message from here on is above a number that the first is above.
  later-After :
      (n : ℕ) (p : MessageWithId Message) (plain : List (MessageWithId Message))
      → Sorted by_id (p ∷ plain)
      → n < p.id
      → All (λ m. n < m.id) (p ∷ plain)
  later-After n p [] s h = (h, tt)
  later-After n p (q ∷ plain) s h = (h, later-After n q plain s.1 (ground arith))

  place-After :
      (n : ℕ) (plain : List (MessageWithId Message)) (blocks : List (Block Message))
      → All IsBlock blocks
      → All (λ m. n < m.id) plain
      → All (After n) (place plain blocks)
  unfolding place
  place-After n [] blocks a h = turns-After n (emit_all blocks) (emit_all-ByTurn blocks a)
  place-After n (p ∷ plain) blocks a h =
      let (o, r) = emit-parts p.id blocks a in
      All-append (After n) (emit p.id blocks).0 (p ∷ place plain (emit p.id blocks).1)
        (turns-After n (emit p.id blocks).0 o)
        ((λ _. h.0), place-After n plain (emit p.id blocks).1 r h.1)

  emit_all-Placed :
      (n : ℕ) (blocks : List (Block Message)) (b : Block Message)
      → All IsBlock blocks
      → In b blocks
      → Placed n (sorted_block b.msgs) (emit_all blocks)
  unfolding emit_all
  emit_all-Placed n [] b a m = absurd m
  emit_all-Placed n (c ∷ blocks) b a (inl e) =
      ([], emit_all blocks, rw e, tt, turns-After n (emit_all blocks) (emit_all-ByTurn blocks a.1))
  emit_all-Placed n (c ∷ blocks) b a (inr m) =
      let (before, after, e, p, q) = emit_all-Placed n blocks b a.1 m in
      (
        sorted_block c.msgs ++ before,
        after,
        ap (λ l. sorted_block c.msgs ++ l) e ∙ sym (append_assoc (sorted_block c.msgs) before _),
        All-append (Before n) (sorted_block c.msgs) before
            (turns-Before n (sorted_block c.msgs) (sorted_block-ByTurn c a.0)) p,
        q,
      )

  place-Placed :
      (plain : List (MessageWithId Message)) (blocks : List (Block Message)) (b : Block Message)
      → All IsBlock blocks
      → Sorted by_id plain
      → Sorted by_anchor blocks
      → In b blocks
      → Placed b.anchor (sorted_block b.msgs) (place plain blocks)
  unfolding place
  place-Placed [] blocks b a sp sb m = emit_all-Placed b.anchor blocks b a m
  place-Placed (p ∷ plain) blocks b a sp sb m = elim (Bool-cases (ltb b.anchor p.id)) [
    | inl early ↦ early_case early
    | inr late ↦ late_case late (
        place-Placed plain (emit p.id blocks).1 b (emit-parts p.id blocks a).1 sp.1
          (emit-Sorted p.id blocks sb))
  ]
    where
      rest : List (MessageWithId Message)
      rest = p ∷ place plain (emit p.id blocks).1

      early_case :
          ltb b.anchor p.id ≡ true
          → Placed b.anchor (sorted_block b.msgs) ((emit p.id blocks).0 ++ rest)
      early_case early =
          let h : b.anchor < p.id = (ltb_iff b.anchor p.id).0 early in
          let (before, after, e, x, y) = emit-early p.id blocks b a sb m h in
          let later = later-After b.anchor p plain sp h in
          (
            before,
            after ++ rest,
            rw e (
                append_assoc before _ rest
                ∙ ap (λ l. before ++ l) (append_assoc (sorted_block b.msgs) after rest)),
            turns-Before b.anchor before x,
            All-append (After b.anchor) after rest (turns-After b.anchor after y) (
              (λ _. h),
              place-After b.anchor plain (emit p.id blocks).1 (emit-parts p.id blocks a).1 later.1,
            ),
          )

      late_case :
          ltb b.anchor p.id ≡ false
          → (In b (emit p.id blocks).1
              → Placed b.anchor (sorted_block b.msgs) (place plain (emit p.id blocks).1))
          → Placed b.anchor (sorted_block b.msgs) ((emit p.id blocks).0 ++ rest)
      late_case late ih =
          let h : p.id ≤ b.anchor = ground arith in
          let (before, after, e, x, y) = ih (emit-late p.id blocks b m h) in
          (
            (emit p.id blocks).0 ++ (p ∷ before),
            after,
            ap (λ l. (emit p.id blocks).0 ++ (p ∷ l)) e
                ∙ sym (append_assoc (emit p.id blocks).0 (p ∷ before) _),
            All-append (Before b.anchor) (emit p.id blocks).0 (p ∷ before)
                (turns-Before b.anchor (emit p.id blocks).0 (emit-parts p.id blocks a).0)
                ((λ _. h), x),
            y,
          )

  pub by_id-total : (a b : MessageWithId Message) → by_id a b ≡ false → by_id b a ≡ true
  by_id-total a b h = ground arith

  pub by_id_trans :
      (a b c : MessageWithId Message) → by_id a b ≡ true → by_id b c ≡ true → by_id a c ≡ true
  by_id_trans a b c h k = ground arith

  by_anchor-total : (a b : Block Message) → by_anchor a b ≡ false → by_anchor b a ≡ true
  by_anchor-total a b h = ground arith

  by_anchor_trans :
      (a b c : Block Message) → by_anchor a b ≡ true → by_anchor b c ≡ true → by_anchor a c ≡ true
  by_anchor_trans a b c h k = ground arith

  -- The messages a turn wrote, if any, stand in one piece, sorted by ID: the messages no turn wrote
  -- that precede them are not above the turn's anchor, and those that follow are above it.
  pub order-Placed :
      (turn : Text) (messages : List (MessageWithId Message))
      → select (is_of turn) messages ≢ []
      → Placed (anchor_or_zero turn) (sort by_id (select (is_of turn) messages)) (order messages)
  unfolding order sorted_block
  order-Placed turn messages wrote =
      let gathered = group [] [] messages in
      let (b, m, t, own) = group-block turn messages wrote in
      let ok = group-IsBlock [] [] messages tt in
      let is_block = All_In IsBlock gathered.1 b ok m in
      let placed =
        place-Placed (sort by_id gathered.0) (sort by_anchor gathered.1) b
          (All-sort by_anchor IsBlock gathered.1 ok)
          (sort-Sorted by_id by_id-total by_id_trans gathered.0)
          (sort-Sorted by_anchor by_anchor-total by_anchor_trans gathered.1)
          ((In-sort by_anchor b gathered.1).1 m) in
      subst (λ n. Placed n (sort by_id (select (is_of turn) messages)) (order messages))
        (is_block.anchored ∙ ap anchor_or_zero t)
        (subst (λ l. Placed b.anchor (sort by_id l) (order messages)) own placed)
