-- ===== src/Store/Reads/Laws.antt =====
-- store/message.go: what decides whether a turn is read.
use temporal_agent.Common.{
  ℕ, ◌≤◌, ◌≡◌, refl, ◌↔◌, ◌⊎◌, inl, inr, true, false, Option, none, some, List, arith, Bool-cases,
  In, ◌==◌, contains, contains_iff, Text, text_eq_iff, text_equality, number_equality, lookup,
}
use temporal_agent.Store.Keys.{turn_of, is_turn_end, turn_participant}
use temporal_agent.Store.Reads.{TurnScope, anchor_or_zero, turn_reads, reads_other, ended_by}

-- Two messages of one turn, neither of them its end, are both read or both left out, whatever their
-- IDs: no turn is read half written.
pub turn_reads-whole :
    (scope : TurnScope) (ends : List (Text × ℕ)) (turn k l : Text) (i j : ℕ)
    → turn_of k ≡ some turn
    → turn_of l ≡ some turn
    → is_turn_end k ≡ false
    → is_turn_end l ≡ false
    → turn_reads i k scope ends ≡ turn_reads j l scope ends
unfolding turn_reads
turn_reads-whole scope ends turn k l i j hk hl ek el = ground arith

-- What a turn of a scope reads of a message of `turn`.
abbrev pub ReadsTurn : TurnScope → List (Text × ℕ) → Text → Type 0
ReadsTurn scope ends turn =
    In turn scope.turns
    ⊎ ((anchor_or_zero turn ≤ scope.up_to)
        × ((turn_participant turn ≡ scope.participant)
            ⊎ ((end : ℕ) × (lookup turn ends ≡ some end) × (end ≤ scope.up_to))))

ended_by_iff :
    (o : Option ℕ) (up_to : ℕ)
    → (ended_by o up_to ≡ true) ↔ ((end : ℕ) × (o ≡ some end) × (end ≤ up_to))
unfolding ended_by
ended_by_iff none up_to = ((λ h. cc), λ (_, e, _). cc)
ended_by_iff (some end) up_to = ((λ h. (end, refl, ground arith)), λ (n, e, h). ground arith)

reads_other_iff :
    (turn : Text) (scope : TurnScope) (ends : List (Text × ℕ))
    → (reads_other turn scope ends ≡ true) ↔ (
        (anchor_or_zero turn ≤ scope.up_to)
        × ((turn_participant turn ≡ scope.participant)
            ⊎ ((end : ℕ) × (lookup turn ends ≡ some end) × (end ≤ scope.up_to))))
unfolding reads_other
reads_other_iff turn scope ends =
    let same = text_eq_iff (turn_participant turn) scope.participant in
    let over = ended_by_iff (lookup turn ends) scope.up_to in
    (
      λ h. elim (Bool-cases (turn_participant turn == scope.participant)) [
        | inl t ↦ (ground arith, inl (same.0 t))
        | inr n ↦ (ground arith, inr (over.0 (ground arith)))
      ],
      λ h. elim h.1 [
        | inl e ↦ ground (arith, same.1 e, h.0)
        | inr e ↦ ground (arith, over.1 e, h.0)
      ],
    )

-- A message of a turn is read exactly when it is not the turn's end and the turn is one of the
-- scope's own, or is anchored up to its message and is its participant's or has an end up to it.
pub turn_reads_iff :
    (scope : TurnScope) (ends : List (Text × ℕ)) (turn k : Text) (i : ℕ)
    → turn_of k ≡ some turn
    → (turn_reads i k scope ends ≡ true) ↔ ((is_turn_end k ≡ false) × ReadsTurn scope ends turn)
unfolding turn_reads
turn_reads_iff scope ends turn k i h =
    let own = contains_iff scope.turns turn in
    let other = reads_other_iff turn scope ends in
    (
      λ r. elim (Bool-cases (contains scope.turns turn)) [
        | inl t ↦ (ground arith, inl (own.0 t))
        | inr n ↦ (ground arith, inr (other.0 (ground arith)))
      ],
      λ (e, r). elim r [ inl t ↦ ground (arith, own.1 t) | inr t ↦ ground (arith, other.1 t) ],
    )
