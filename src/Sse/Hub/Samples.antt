-- ===== src/Sse/Hub/Samples.antt =====
-- A hub that keeps two events a topic, and the theorems at it.
use temporal_agent.Common.{
  Perm, Sorted, ℕ, ◌≡◌, refl, ◌↔◌, false, ◌&&◌, none, some, List, [], ◌∷◌, map, arith, leb,
  if◌then◌else◌, ◌==◌, Text, text, text_eq, text_equality, number_equality,
}
use temporal_agent.Sse.Hub.{
  Hub, Event, SseEvent, event_id, parse, sweep, publish, subscribe, position_of, position,
  unsubscribe, by_seq,
}
use temporal_agent.Sse.Hub.Invariant.{Faithful, published, publish-Faithful}
use temporal_agent.Sse.Hub.Subscribers.{subscribers-Faithful}
use temporal_agent.Sse.Hub.Replay.{Distinct, Known, entries_of_any, subscribe-replays}
use temporal_agent.Sse.Hub.Ids.{parse-event_id}

abbrev empty : Hub
empty = record {
  epoch = text "k3";
  keep = 2;
  idle = 100;
  seq = 0;
  topics = [];
  swept = 0;
  dropped = 0;
  subscribers = [];
  next_subscriber = 0;
}

abbrev ring : SseEvent
ring = record { type = text "message"; payload = [] }

empty-Faithful : Faithful empty []
empty-Faithful = record {
  keeps = omega arith;
  rising = omega arith;
  dropped_le = omega arith;
  each = tt;
  missing = λ name _. refl;
}

publish-Faithful_example :
    Faithful (publish empty 5 (text "s") ring) (published empty (text "s") ring [])
publish-Faithful_example = publish-Faithful empty [] 5 (text "s") ring empty-Faithful (omega arith)

subscribers-Faithful_example :
    Faithful (subscribe empty 5 [] (text "s" ∷ [])).0 []
    × Faithful (unsubscribe empty 5 (subscribe empty 5 [] (text "s" ∷ [])).1) []
    × Faithful (position empty 5 (text "s" ∷ [])).0 []
subscribers-Faithful_example =
    subscribers-Faithful empty [] 5 [] (text "s" ∷ []) (subscribe empty 5 [] (text "s" ∷ [])).1
      empty-Faithful

abbrev two_topics : List Text
two_topics = text "s" ∷ text "t" ∷ []

at_start : position_of (sweep empty 5) (text "k3-0") ≡ some (some 0)
unfolding position_of sweep parse text_eq
at_start = refl

two_topics-Distinct : Distinct two_topics
unfolding text_eq
two_topics-Distinct = (refl, (refl, tt))

subscribe-replays_example :
    let s = (subscribe empty 5 (text "k3-0") two_topics).1 in
    ((s.stale ≡ false) ↔ Known (sweep empty 5) 5 0 two_topics)
    × (s.stale ≡ false
        → (missed : List (ℕ × Event)) × (s.missed ≡ map (λ m. m.1) missed)
          × Sorted by_seq missed
          × Perm missed (entries_of_any two_topics 0 []))
subscribe-replays_example =
    subscribe-replays empty [] 5 0 (text "k3-0") two_topics empty-Faithful two_topics-Distinct
      at_start

parse-event_id_example :
    parse empty (event_id empty 0)
    ≡ (if empty.epoch == empty.epoch && leb 0 empty.seq then some 0 else none)
parse-event_id_example = parse-event_id empty empty 0 refl refl (omega arith)
