-- ===== src/Session/Turns/Events.antt =====
-- session/turns.go: what a turn's events tell of a participant's current message.
use temporal_agent.Common.{
  ℕ, ◌+◌, ◌-◌, ◌<◌, ◌≡◌, refl, ap, ◌∙◌, inl, inr, Bool, true, false, not, ◌&&◌, ◌||◌, none, some,
  List, [], ◌∷◌, arith, leb, eqb, if◌then◌else◌, Bool-cases, length, ◌==◌, Text, text_eq_iff,
  text_equality, number_equality, lookup, put, delete, lookup-put,
}
use temporal_agent.Workflow.Messages.{TurnEvent}
use temporal_agent.Session.Turns.{
  ParticipantTurns, Turns, entries, or_empty, participant_at, put_participant, passed,
  prune_pending, forgotten, prune_participants, prune_sessions, prune, anchor_of, event_participant,
  told, set_turn, current_message, turn_forget,
}

lookup-prune_participants :
    (now : ℕ) (name : Text) (p : ParticipantTurns) (ps : List (Text × ParticipantTurns))
    → lookup name ps ≡ some p
    → forgotten now (prune_pending now p) ≡ false
    → lookup name (prune_participants now ps) ≡ some (prune_pending now p)
unfolding prune_participants
lookup-prune_participants now name p [] h k = ground (arith, h)
lookup-prune_participants now name p ((n, q) ∷ ps) h k = elim (Bool-cases (n == name)) [
  | inl same ↦ first same (rw (same) at h)
  | inr other ↦ elim (Bool-cases (forgotten now (prune_pending now q))) [
    | inl gone ↦ rw (gone) (lookup-prune_participants now name p ps (rw (other) at h) k)
    | inr kept ↦
        rw (kept) (rw (other) (lookup-prune_participants now name p ps (rw (other) at h) k))
  ]
]
  where
    first :
        (n == name) ≡ true
        → some q ≡ some p
        → lookup name (
            if forgotten now (prune_pending now q)
            then prune_participants now ps
            else (n, prune_pending now q) ∷ prune_participants now ps)
          ≡ some (prune_pending now p)
    first same e = rw (value e, k, same) refl
      where
        value : some q ≡ some p → q ≡ p
        value e = ap (λ o. elim o [ none ↦ q | some x ↦ x ]) e

lookup-length :
    {V : Type 0} (name : Text) (v : V) (xs : List (Text × V))
    → lookup name xs ≡ some v
    → eqb (length xs) 0 ≡ false
lookup-length name v [] h = ground (arith, h)
lookup-length name v (x ∷ xs) h = ground arith

lookup-prune_sessions :
    (now : ℕ) (sid name : Text) (p : ParticipantTurns)
    (m : List (Text × List (Text × ParticipantTurns)))
    → lookup name (entries sid m) ≡ some p
    → forgotten now (prune_pending now p) ≡ false
    → lookup name (entries sid (prune_sessions now m)) ≡ some (prune_pending now p)
unfolding prune_sessions entries
lookup-prune_sessions now sid name p [] h k = ground (arith, h)
lookup-prune_sessions now sid name p ((s, ps) ∷ m) h k = elim (Bool-cases (s == sid)) [
  | inl same ↦
      (let found = lookup-prune_participants now name p ps (rw (same) at h) k in
        rw (lookup-length name (prune_pending now p) (prune_participants now ps) found)
          (rw (same) found))
  | inr other ↦ elim (Bool-cases (eqb (length (prune_participants now ps)) 0)) [
    | inl gone ↦ rw (gone) (lookup-prune_sessions now sid name p m (rw (other) at h) k)
    | inr kept ↦ rw (kept) (rw (other) (lookup-prune_sessions now sid name p m (rw (other) at h) k))
  ]
]

lookup-put_participant :
    (sid name j : Text) (p : ParticipantTurns) (t : Turns)
    → lookup j (entries sid (put_participant sid name p t).m)
      ≡ (if name == j then some p else lookup j (entries sid t.m))
unfolding put_participant entries
lookup-put_participant sid name j p t =
    ap (λ o. lookup j (or_empty o))
      (lookup-put sid sid (put name p (entries sid t.m)) t.m
        ∙ ap (λ b. if b then some (put name p (entries sid t.m)) else lookup sid t.m)
            ((text_eq_iff sid sid).1 refl))
    ∙ lookup-put name j p (entries sid t.m)

participant_at-lookup :
    (sid name : Text) (p : ParticipantTurns) (t : Turns)
    → lookup name (entries sid t.m) ≡ some p
    → participant_at sid name t ≡ p
unfolding participant_at
participant_at-lookup sid name p t h = rw (h) refl

current_message-lookup :
    (now : ℕ) (sid name : Text) (p : ParticipantTurns) (t : Turns)
    → lookup name (entries sid t.m) ≡ some p
    → current_message now sid name t
      ≡ (if not p.working || passed turn_forget now p.at then 0 else anchor_of p.event.turn)
unfolding current_message
current_message-lookup now sid name p t h = rw (participant_at-lookup sid name p t h) refl

lookup-set_turn :
    (now : ℕ) (sid : Text) (is_started : Bool) (e : TurnEvent) (t : Turns) (j : Text)
    → lookup j (entries sid (set_turn now sid is_started e t).m) ≡ (
        if event_participant e == j
        then some (
            told is_started e now (record (participant_at sid (event_participant e) (prune now t)) {
              pending =
                  delete
                    (anchor_of e.turn)
                    (participant_at sid (event_participant e) (prune now t)).pending;
            }))
        else lookup j (entries sid (prune now t).m))
unfolding set_turn
lookup-set_turn now sid is_started e t j =
    lookup-put_participant sid (event_participant e) j _ (prune now t)

-- One event of the session's turns, that a turn has started, then a second one, that a turn is done, with nothing in
-- between, the latter recorded and the message read less than a day after the start: the participant of the first turn
-- answers that turn's message, but none (0) when the second event names the same participant and the same turn.
pub current_message-set_turn :
    (t : Turns) (sid : Text) (e e' : TurnEvent) (start now at : ℕ)
    → now < start + turn_forget
    → at < start + turn_forget
    → current_message at sid
        (event_participant e)
        (set_turn now sid false e' (set_turn start sid true e t))
      ≡ (if (event_participant e' == event_participant e) && (e.turn == e'.turn)
          then 0
          else anchor_of e.turn)
unfolding told passed prune_pending forgotten prune
current_message-set_turn t sid e e' start now at h k =
    elim (Bool-cases (event_participant e' == name)) [
      | inl same ↦ current_message-lookup at sid name _ over (ended same) ∙ of_event same
      | inr other ↦
          current_message-lookup at sid name (prune_pending now working) over
            (lookup-set_turn now sid false e' begun name ∙ rw (other) pruned)
          ∙ rw (other, recent at k) refl
    ]
  where
    name : Text
    name = event_participant e

    begun : Turns
    begun = set_turn start sid true e t

    working : ParticipantTurns
    working = record {
      working = true;
      event = e;
      at = some start;
      note = [];
      pending = delete (anchor_of e.turn) (participant_at sid name (prune start t)).pending;
    }

    at_start : lookup name (entries sid begun.m) ≡ some working
    at_start = lookup-set_turn start sid true e t name ∙ rw ((text_eq_iff name name).1 refl) refl

    recent : (when : ℕ) → when < start + turn_forget → leb turn_forget (when - start) ≡ false
    recent when h = ground arith

    never : (b : Bool) → (b && false) ≡ false
    never true = refl
    never false = refl

    none_pending : Bool
    none_pending = eqb (length (prune_pending now working).pending) 0

    remembered : forgotten now (prune_pending now working) ≡ false
    remembered = ap (λ b. none_pending && b) (recent now h) ∙ never none_pending

    pruned : lookup name (entries sid (prune now begun).m) ≡ some (prune_pending now working)
    pruned = lookup-prune_sessions now sid name working begun.m at_start remembered

    over : Turns
    over = set_turn now sid false e' begun

    done : ParticipantTurns → ParticipantTurns
    done p = told false e' now (record p { pending = delete (anchor_of e'.turn) p.pending })

    ended :
        (event_participant e' == name) ≡ true
        → lookup name (entries sid over.m) ≡ some (done (prune_pending now working))
    ended same =
        lookup-set_turn now sid false e' begun name
        ∙ ap
            (λ b.
              if b
              then some (done (participant_at sid (event_participant e') (prune now begun)))
              else lookup name (entries sid (prune now begun).m))
            same
        ∙ ap (λ n. some (done (participant_at sid n (prune now begun))))
            ((text_eq_iff (event_participant e') name).0 same)
        ∙ ap (λ p. some (done p))
            (participant_at-lookup sid name (prune_pending now working) (prune now begun) pruned)

    of_event :
        (event_participant e' == name) ≡ true
        → (if not (done (prune_pending now working)).working
              || passed turn_forget at (done (prune_pending now working)).at
            then 0
            else anchor_of (done (prune_pending now working)).event.turn)
          ≡ (if (event_participant e' == event_participant e) && (e.turn == e'.turn)
              then 0
              else anchor_of e.turn)
    of_event same = elim (Bool-cases (e.turn == e'.turn)) [
      | inl its_turn ↦ rw (same, its_turn) refl
      | inr another ↦ rw (same, another, recent at k) refl
    ]
