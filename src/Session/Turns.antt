-- ===== src/Session/Turns.antt =====
-- session/turns.go: what the server knows of the sessions' participants, from the turn events and from the
-- messages it delivered. A call holds the lock and reads the clock once. `none` is the zero time, that of no event.
pub mod Events
mod Samples
use temporal_agent.Common.{
  sort, ℕ, zero, ◌+◌, ◌-◌, ◌*◌, ◌/◌, ◌^◌, ap, Bool, true, false, not, ◌&&◌, ◌||◌, Option, none,
  some, List, [], ◌∷◌, ◌++◌, map, ltb, leb, eqb, if◌then◌else◌, length, all, select, ◌==◌, contains,
  Text, text_eq, text_equality, number_equality, lookup, put, delete,
}
use temporal_agent.Store.Keys.{turn_anchor, turn_participant}
use temporal_agent.Tool.Registry.{text_leb}
use temporal_agent.Workflow.Messages.{TurnEvent, or_else}

abbrev pub turn_trust : ℕ
turn_trust = 30 * 10 ^ 9

abbrev pub turn_forget : ℕ
turn_forget = 24 * 3600 * 10 ^ 9

pub record ParticipantTurns : Type 0 where
  pub working : Bool
  pub event : TurnEvent
  pub at : Option ℕ
  pub note : Text
  pub pending : List (ℕ × ℕ)

pub record TaskNote : Type 0 where
  pub text : Text
  pub at : ℕ

pub record Turns : Type 0 where
  pub m : List (Text × List (Text × ParticipantTurns))
  pub task_notes : List (Text × List (Text × TaskNote))

abbrev pub no_event : TurnEvent
no_event = record { agent_id = []; agent_name = []; turn = []; user_id = []; user_name = [] }

abbrev pub new_participant : ParticipantTurns
new_participant = record { working = false; event = no_event; at = none; note = []; pending = [] }

-- A missing map is an empty one.
unfoldable pub or_empty : {A : Type 0} → Option (List A) → List A
or_empty none = []
or_empty (some xs) = xs

unfoldable pub entries : {V : Type 0} → Text → List (Text × List (Text × V)) → List (Text × V)
unfolding or_empty
entries sid m = or_empty (lookup sid m)

unfoldable pub participant_at : Text → Text → Turns → ParticipantTurns
unfolding entries
participant_at sid name t = or_new (lookup name (entries sid t.m))
  where
    or_new : Option ParticipantTurns → ParticipantTurns
    or_new none = new_participant
    or_new (some p) = p

unfoldable pub put_participant : Text → Text → ParticipantTurns → Turns → Turns
unfolding entries
put_participant sid name p t = record t { m = put sid (put name p (entries sid t.m)) t.m }

-- Whether so long passed since then; since no event, forever.
unfoldable pub passed : ℕ → ℕ → Option ℕ → Bool
passed long now none = true
passed long now (some at) = leb long (now - at)

unfoldable pub prune_pending : ℕ → ParticipantTurns → ParticipantTurns
prune_pending now p = record p {
  pending = select (λ (q : ℕ × ℕ). not (leb turn_forget (now - q.1))) p.pending;
}

unfoldable pub forgotten : ℕ → ParticipantTurns → Bool
unfolding passed
forgotten now p = eqb (length p.pending) 0 && passed turn_forget now p.at

unfoldable pub prune_participants :
    ℕ → List (Text × ParticipantTurns) → List (Text × ParticipantTurns)
unfolding prune_pending forgotten
prune_participants now [] = []
prune_participants now ((name, p) ∷ ps) =
    let rest = prune_participants now ps in
    if forgotten now (prune_pending now p) then rest else (name, prune_pending now p) ∷ rest

unfoldable pub prune_sessions :
    ℕ → List (Text × List (Text × ParticipantTurns)) → List (Text × List (Text × ParticipantTurns))
unfolding prune_participants
prune_sessions now [] = []
prune_sessions now ((sid, ps) ∷ m) =
    let rest = prune_sessions now m in
    let kept = prune_participants now ps in if eqb (length kept) 0 then rest else (sid, kept) ∷ rest

unfoldable pub prune : ℕ → Turns → Turns
unfolding prune_sessions
prune now t = record t { m = prune_sessions now t.m }

unfoldable pub anchor_of : Text → ℕ
anchor_of turn = or_zero (turn_anchor turn)
  where
    or_zero : Option ℕ → ℕ
    or_zero none = 0
    or_zero (some n) = n

unfoldable pub event_participant : TurnEvent → Text
event_participant e = or_else (turn_participant e.turn) e.agent_id

-- The switch of `set`.
unfoldable pub told : Bool → TurnEvent → ℕ → ParticipantTurns → ParticipantTurns
told true e now p = record {
  working = true;
  event = e;
  at = some now;
  note = [];
  pending = p.pending;
}
told false e now p =
    if not p.working || (p.event.turn == e.turn)
    then record p { working = false; event = e; at = some now; note = [] }
    else p

unfoldable pub set_turn : ℕ → Text → Bool → TurnEvent → Turns → Turns
unfolding prune participant_at put_participant told event_participant anchor_of
set_turn now sid is_started e t =
    let pruned = prune now t in
    let p = participant_at sid (event_participant e) pruned in
    put_participant sid (event_participant e)
      (told is_started e now (record p { pending = delete (anchor_of e.turn) p.pending })) pruned

unfoldable pub expect : ℕ → Text → Text → ℕ → Turns → Turns
unfolding prune participant_at put_participant
expect now sid name message t =
    let pruned = prune now t in
    let p = participant_at sid name pruned in
    put_participant sid name (record p { pending = put message now p.pending }) pruned

unfoldable pub unexpect : Text → Text → ℕ → Turns → Turns
unfolding put_participant entries
unexpect sid name message t = if_known (lookup name (entries sid t.m))
  where
    if_known : Option ParticipantTurns → Turns
    if_known none = t
    if_known (some p) = put_participant sid name (record p { pending = delete message p.pending }) t

unfoldable pub queued : ℕ → Text → Text → Turns → ℕ
unfolding participant_at
queued now sid name t =
    length (select (λ (q : ℕ × ℕ). ltb (now - q.1) turn_forget) (participant_at sid name t).pending)

unfoldable pub current_message : ℕ → Text → Text → Turns → ℕ
unfolding participant_at passed anchor_of
current_message now sid name t =
    let p = participant_at sid name t in
    if not p.working || passed turn_forget now p.at then 0 else anchor_of p.event.turn

unfoldable pub note_participants :
    Text → Text → List (Text × ParticipantTurns) → List (Text × ParticipantTurns)
note_participants named note [] = []
note_participants named note ((name, p) ∷ ps) =
    (
      name,
      (if p.working && ((named == []) || (name == named)) then record p { note = note } else p),
    )
    ∷ note_participants named note ps

unfoldable pub set_note : Text → Text → Text → Turns → Turns
unfolding note_participants entries
set_note sid named note t =
    if eqb (length (entries sid t.m)) 0
    then t
    else record t { m = put sid (note_participants named note (entries sid t.m)) t.m }

unfoldable pub forget : Text → Turns → Turns
forget sid t = record { m = delete sid t.m; task_notes = delete sid t.task_notes }

unfoldable pub prune_notes :
    ℕ → List (Text × List (Text × TaskNote)) → List (Text × List (Text × TaskNote))
prune_notes now [] = []
prune_notes now ((sid, notes) ∷ m) =
    let rest = prune_notes now m in
    let kept = select (λ (n : Text × TaskNote). not (leb turn_forget (now - n.1.at))) notes in
    if eqb (length kept) 0 then rest else (sid, kept) ∷ rest

unfoldable pub drop_note :
    Text → Text → List (Text × List (Text × TaskNote)) → List (Text × List (Text × TaskNote))
drop_note sid task m = in_session (lookup sid m)
  where
    in_session : Option (List (Text × TaskNote)) → List (Text × List (Text × TaskNote))
    in_session none = m
    in_session (some notes) = put sid (delete task notes) m

unfoldable pub set_task_note : ℕ → Text → Text → Text → Turns → Turns
unfolding prune_notes drop_note entries
set_task_note now sid task note t =
    let kept = prune_notes now t.task_notes in
    if note == [] then record t { task_notes = drop_note sid task kept } else record t {
      task_notes = put sid (put task (record { text = note; at = now }) (entries sid kept)) kept;
    }

unfoldable pub task_note : Text → Text → Turns → Text
unfolding entries
task_note sid task t = text_of (lookup task (entries sid t.task_notes))
  where
    text_of : Option TaskNote → Text
    text_of none = []
    text_of (some n) = n.text

-- The sessions that the events told of.
unfoldable pub sessions : Turns → List Text
sessions t = map name_of t.m
  where
    name_of : Text × List (Text × ParticipantTurns) → Text
    name_of (sid, ps) = sid

-- Where a participant stands; `since` is none when it is not known.
pub record Participant : Type 0 where
  pub participant : Text
  pub agent_id : Text
  pub name : Text
  pub working : Bool
  pub turn : Text
  pub user_id : Text
  pub user_name : Text
  pub since : Option ℕ
  pub note : Text
  pub queued : ℕ
  pub known : Bool

waits : ℕ → Bool → Bool → ℕ × ℕ → Bool
waits now trusted is_running (_, at) =
    ltb (now - at) turn_forget && (trusted || is_running || ltb (now - at) turn_trust)

-- One that the events told of.
standing : ℕ → List Text → Text × ParticipantTurns → Participant
unfolding passed waits
standing now running (name, p) =
    let trusted = not (passed turn_trust now p.at) in
    let is_running = contains running name in
    let works =
      if trusted then p.working else is_running && (p.working || not (eqb (length p.pending) 0)) in
    let on_turn = works && p.working && not (passed turn_forget now p.at) in
    record {
      participant = name;
      agent_id = if on_turn then or_else p.event.agent_id name else name;
      name = if on_turn then p.event.agent_name else [];
      working = works;
      turn = if on_turn then p.event.turn else [];
      user_id = if on_turn then p.event.user_id else [];
      user_name = if on_turn then p.event.user_name else [];
      since = if on_turn then p.at else none;
      note = if on_turn then p.note else [];
      queued = length (select (waits now trusted is_running) p.pending);
      known = true;
    }

only_running : List (Text × ParticipantTurns) → List Text → List Participant
only_running known [] = []
only_running known (name ∷ names) =
    let rest = only_running known names in
    elim (lookup name known) [
      | some p ↦ rest
      | none ↦
          record {
            participant = name;
            agent_id = name;
            name = [];
            working = true;
            turn = [];
            user_id = [];
            user_name = [];
            since = none;
            note = [];
            queued = 0;
            known = false;
          }
          ∷ rest
    ]

unfoldable pub snapshot : ℕ → Text → List Text → Turns → List Participant
unfolding standing only_running entries text_leb
snapshot now sid running t =
    sort (λ (a b : Participant). text_leb a.participant b.participant)
      (map (standing now running) (entries sid t.m) ++ only_running (entries sid t.m) running)

-- The participants of a session that work.
unfoldable pub working_in : ℕ → Text → List Text → Turns → List Participant
unfolding snapshot
working_in now sid running t = select (λ (p : Participant). p.working) (snapshot now sid running t)
