-- ===== src/Sse/Hub/Subscribers.antt =====
-- sse/hub.go: subscribing, leaving and reading the position, against the history.
use temporal_agent.Common.{
  ℕ, ◌≡◌, refl, inl, inr, Option, List, [], ◌∷◌, Option-cases, Text, text_equality, number_equality,
  lookup, All-lookup,
}
use temporal_agent.Sse.Hub.{
  Hub, Topic, Subscriber, Subscription, topic, join, subscribe, leave, leave_topic, unsubscribe,
  unsubscribe_known, touch, position,
}
use temporal_agent.Sse.Hub.History.{History}
use temporal_agent.Sse.Hub.Invariant.{
  Covers, Faithful, topic-Covers, set_topic-Faithful, sweep-Faithful,
}

-- A topic whose subscribers or time of use alone change covers what it covered.
pub kept-Covers :
    (seq keep : ℕ) (log : History) (name : Text) (t u : Topic)
    → u.recent ≡ t.recent
    → u.floor ≡ t.floor
    → Covers seq keep log (name, t)
    → Covers seq keep log (name, u)
kept-Covers seq keep log name t u r f c = record {
  recent = rw (r, f) c.recent;
  floor_le = rw f c.floor_le;
  bounded = rw r c.bounded;
}

join-Faithful :
    (names : List Text) (h : Hub) (log : History) (now n : ℕ) (at : Option (Option ℕ))
    → Faithful h log
    → Faithful (join h now n at names).0 log
unfolding join
join-Faithful [] h log now n at v = v
join-Faithful (name ∷ names) h log now n at v = join-Faithful names _ log now n at (
    set_topic-Faithful h log name _ v (
      kept-Covers h.seq h.keep log name (topic h now name) _ refl refl
        (topic-Covers h log now name v)))

with_subscribers :
    (h : Hub) (log : History) (subscribers : List (ℕ × Subscriber)) (n : ℕ)
    → Faithful h log
    → Faithful (record h { subscribers = subscribers; next_subscriber = n }) log
with_subscribers h log subscribers n v = record {
  keeps = v.keeps;
  rising = v.rising;
  dropped_le = v.dropped_le;
  each = v.each;
  missing = v.missing;
}

subscribe-Faithful :
    (h : Hub) (log : History) (now : ℕ) (last_id : Text) (names : List Text)
    → Faithful h log
    → Faithful (subscribe h now last_id names).0 log
unfolding subscribe
subscribe-Faithful h log now last_id names v =
    with_subscribers _ log _ _ (join-Faithful names _ log now _ _ (sweep-Faithful h log now v))

abbrev with_topics : Hub → List (Text × Topic) → Hub
with_topics h topics = record h { topics = topics }

leave-Faithful :
    (names : List Text) (h : Hub) (log : History) (now n : ℕ) (topics : List (Text × Topic))
    → Faithful (with_topics h topics) log
    → Faithful (with_topics h (leave now n names topics)) log
unfolding leave
leave-Faithful [] h log now n topics v = v
leave-Faithful (name ∷ names) h log now n topics v = elim (Option-cases (lookup name topics)) [
  | inl e ↦ rw (e, leave, leave_topic) (leave-Faithful names h log now n topics v)
  | inr (t, e) ↦
      rw (e, leave, leave_topic)
        (leave-Faithful names h log now n _ (
          set_topic-Faithful (with_topics h topics) log name _ v (
            kept-Covers h.seq h.keep log name t _ refl refl
              (All-lookup (Covers h.seq h.keep log) name topics t v.each e))))
]

unsubscribe-Faithful :
    (h : Hub) (log : History) (now : ℕ) (s : Subscription)
    → Faithful h log
    → Faithful (unsubscribe h now s) log
unfolding unsubscribe
unsubscribe-Faithful h log now s v = elim (Option-cases (lookup s.sub h.subscribers)) [
  | inl e ↦ rw (e, unsubscribe, unsubscribe_known) v
  | inr (sub, e) ↦
      rw (e, unsubscribe, unsubscribe_known)
        (with_subscribers _ log _ _ (leave-Faithful sub.topics h log now s.sub h.topics v))
]

touch-Faithful :
    (names : List Text) (h : Hub) (log : History) (now : ℕ)
    → Faithful h log
    → Faithful (touch h now names) log
unfolding touch
touch-Faithful [] h log now v = v
touch-Faithful (name ∷ names) h log now v = touch-Faithful names _ log now (
    set_topic-Faithful h log name _ v (
      kept-Covers h.seq h.keep log name (topic h now name) _ refl refl
        (topic-Covers h log now name v)))

-- Subscribing, unsubscribing and reading the position, each with its sweep, leave a hub that is
-- faithful to a history faithful to the same history: no event is lost from what a topic keeps
-- without its floor saying so.
pub subscribers-Faithful :
    (h : Hub) (log : History) (now : ℕ) (last_id : Text) (names : List Text) (s : Subscription)
    → Faithful h log
    → Faithful (subscribe h now last_id names).0 log
      × Faithful (unsubscribe h now s) log
      × Faithful (position h now names).0 log
unfolding position
subscribers-Faithful h log now last_id names s v = (
  subscribe-Faithful h log now last_id names v,
  unsubscribe-Faithful h log now s v,
  touch-Faithful names _ log now (sweep-Faithful h log now v),
)
