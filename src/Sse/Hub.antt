-- ===== src/Sse/Hub.antt =====
-- sse/hub.go: topics that keep their latest events for the clients that reconnect.
--
-- A subscriber is a pointer that several topics share: the hub holds the subscribers in a store, by
-- a number each, and a topic the numbers. A channel is the events buffered in it, oldest first. Times
-- are numbers of nanoseconds, and every call reads the clock once.
pub mod History
pub mod Invariant
pub mod Replay
pub mod Ids
pub mod Subscribers
mod Samples
use temporal_agent.Common.{
  sort, ℕ, ◌+◌, ◌-◌, ◌*◌, ◌/◌, ◌%◌, ◌^◌, ◌<◌, min, max, ap, Bool, true, false, not, ◌&&◌, ◌||◌,
  Option, none, some, List, [], ◌∷◌, ◌++◌, map, ltb, leb, eqb, if◌then◌else◌, length, all, select,
  In, ◌==◌, Text, text, text_eq, text_equality, number_equality, lookup, put,
}
use temporal_agent.Store.Decimal.{decimal, digits, value}
use temporal_agent.Store.Keys.Cuts.{cut}

-- activity.SSEEvent
pub record SseEvent : Type 0 where
  pub type : Text
  pub payload : Text

pub record Event : Type 0 where
  pub id : Text
  pub event : SseEvent

pub record Topic : Type 0 where
  pub subs : List ℕ
  -- `recent` with `seqs`, one list of the pairs, oldest first
  pub recent : List (ℕ × Event)
  pub floor : ℕ
  pub used : ℕ

pub record Subscriber : Type 0 where
  pub ch : List Event
  pub closed : Bool
  pub topics : List Text

pub record Hub : Type 0 where
  pub epoch : Text
  pub keep : ℕ
  pub idle : ℕ
  pub seq : ℕ
  pub topics : List (Text × Topic)
  pub swept : ℕ
  pub dropped : ℕ
  -- the subscribers by their numbers, and the next number
  pub subscribers : List (ℕ × Subscriber)
  pub next_subscriber : ℕ

abbrev pub default_keep : ℕ
default_keep = 100

abbrev pub minute : ℕ
minute = 60 * 10 ^ 9

abbrev pub default_idle : ℕ
default_idle = 10 * minute

abbrev pub subscriber_buffer : ℕ
subscriber_buffer = 64

pub new_hub : Text → Hub
new_hub epoch = record {
  epoch = epoch;
  keep = default_keep;
  idle = default_idle;
  seq = 0;
  topics = [];
  swept = 0;
  dropped = 0;
  subscribers = [];
  next_subscriber = 0;
}

pub event_id : Hub → ℕ → Text
event_id h seq = h.epoch ++ (text "-" ++ decimal seq)

abbrev pub max_uint64 : ℕ
max_uint64 = 2 ^ 64 - 1

-- strconv.ParseUint(s, 10, 64)
pub parse_uint : Text → Option ℕ
parse_uint s =
    let n = value s 0 in if digits s then (if leb n max_uint64 then some n else none) else none

known_seq : Hub → Option ℕ → Option ℕ
known_seq h none = none
known_seq h (some n) = if leb n h.seq then some n else none

-- The seq of an ID of this hub, if it gave it.
pub parse : Hub → Text → Option ℕ
unfolding known_seq parse_uint cut value digits
parse h id = elim (cut b'-' id) [
  | none ↦ none
  | some (epoch, seq) ↦ if epoch == h.epoch then known_seq h (parse_uint seq) else none
]

-- h.topic(name): the topic, and the hub that holds it.
fresh_topic : Hub → ℕ → Topic
fresh_topic h now = record { subs = []; recent = []; floor = h.dropped; used = now }

pub topic : Hub → ℕ → Text → Topic
unfolding fresh_topic
topic h now name = elim (lookup name h.topics) [ some t ↦ t | none ↦ fresh_topic h now ]

abbrev pub set_topic : Hub → Text → Topic → Hub
set_topic h name t = record h { topics = put name t h.topics }

-- sweep's test of a topic
pub idle_for_long : Hub → ℕ → Topic → Bool
idle_for_long h now t = eqb (length t.subs) 0 && leb h.idle (now - t.used)

-- The last seq a topic knows to have had events up to.
pub last_seq : List (ℕ × Event) → ℕ → ℕ
last_seq [] floor = floor
last_seq ((n, _) ∷ recent) floor = last_seq recent n

pub sweep_topics : Hub → ℕ → List (Text × Topic) → ℕ → List (Text × Topic) × ℕ
sweep_topics h now [] dropped = ([], dropped)
sweep_topics h now ((name, t) ∷ topics) dropped =
    let gone = sweep_topics h now topics (max (max dropped t.floor) (last_seq t.recent 0)) in
    let kept = sweep_topics h now topics dropped in
    if idle_for_long h now t then gone else ((name, t) ∷ kept.0, kept.1)

pub sweep : Hub → ℕ → Hub
unfolding sweep_topics idle_for_long last_seq
sweep h now =
    if ltb (now - h.swept) minute
    then h
    else (let (topics, dropped) = sweep_topics h now h.topics h.dropped in
        record h { swept = now; topics = topics; dropped = dropped })

-- `for len(t.recent) >= h.keep`: the oldest events go, and the floor follows them.
pub trim : ℕ → List (ℕ × Event) → ℕ → List (ℕ × Event) × ℕ
trim keep [] floor = ([], floor)
trim keep ((n, e) ∷ recent) floor =
    let rest = trim keep recent n in
    if leb keep (length ((n, e) ∷ recent)) then rest else ((n, e) ∷ recent, floor)

-- `select { case sub.ch <- ev: … default: sub.end() }`, unless it is closed already.
pub offer : Event → Subscriber → Subscriber × Bool
offer ev sub =
    if sub.closed
    then (sub, false)
    else if ltb (length sub.ch) subscriber_buffer
    then (record sub { ch = sub.ch ++ ev ∷ [] }, true)
    else (record sub { closed = true }, false)

-- Sends to the topic's subscribers; those that took the event stay.
offer_to : Event → ℕ → Option Subscriber → List (ℕ × Subscriber) → List (ℕ × Subscriber) × Bool
offer_to ev n none subscribers = (subscribers, false)
offer_to ev n (some sub) subscribers =
    let (sub', took) = offer ev sub in (put n sub' subscribers, took)

pub send : Event → List ℕ → List (ℕ × Subscriber) → List ℕ × List (ℕ × Subscriber)
unfolding offer_to offer
send ev [] subscribers = ([], subscribers)
send ev (n ∷ subs) subscribers =
    let (subscribers', took) = offer_to ev n (lookup n subscribers) subscribers in
    let rest = send ev subs subscribers' in (if took then n ∷ rest.0 else rest.0, rest.1)

-- Publish once the hub is swept, under the next seq.
publish_at : Hub → ℕ → Text → SseEvent → ℕ → Hub
publish_at h now name event seq =
    let t = topic h now name in
    let ev : Event = record { id = event_id h seq; event = event } in
    let (recent, floor) = trim h.keep t.recent t.floor in
    let (subs, subscribers) = send ev t.subs h.subscribers in
    let t' : Topic = record {
      subs = subs;
      recent = recent ++ (seq, ev) ∷ [];
      floor = floor;
      used = now;
    } in
    record h { seq = seq; topics = put name t' h.topics; subscribers = subscribers }

-- Publish, from the lock on: the observers, which run before, are the callers'.
pub publish : Hub → ℕ → Text → SseEvent → Hub
unfolding publish_at sweep topic event_id trim send
publish h now name event =
    let swept = sweep h now in publish_at swept now name event ((swept.seq + 1) % 2 ^ 64)

pub record Subscription : Type 0 where
  pub missed : List Event
  pub stale : Bool
  pub at : Text
  pub sub : ℕ

-- The events of a topic after a seq.
pub after : ℕ → List (ℕ × Event) → List (ℕ × Event)
after last [] = []
after last ((n, e) ∷ recent) = if ltb last n then (n, e) ∷ after last recent else after last recent

-- What one topic adds: nothing for a client that missed nothing, the events after its last one, or
-- that it must reload.
catch_up : Option (Option ℕ) → Topic → List (ℕ × Event) × Bool
catch_up none t = ([], false)
catch_up (some none) t = ([], true)
catch_up (some (some last)) t =
    if ltb last t.floor then ([], true) else (after last t.recent, false)

-- The loop of `Subscribe` over the names. `position` is where the client stands: `none` for an empty
-- ID, `some none` for one that this hub does not know.
pub join : Hub → ℕ → ℕ → Option (Option ℕ) → List Text → Hub × List (ℕ × Event) × Bool
unfolding catch_up topic after
join h now n position [] = (h, [], false)
join h now n position (name ∷ names) =
    let t = topic h now name in
    let (more, lost) = catch_up position t in
    let rest =
      join (set_topic h name (record t { subs = t.subs ++ n ∷ [] })) now n position names in
    (rest.0, more ++ rest.1, lost || rest.2)

pub position_of : Hub → Text → Option (Option ℕ)
position_of h [] = none
position_of h (c ∷ id) = some (parse h (c ∷ id))

abbrev pub by_seq : ℕ × Event → ℕ × Event → Bool
by_seq a b = leb a.0 b.0

pub subscribe : Hub → ℕ → Text → List Text → Hub × Subscription
unfolding join sweep position_of
subscribe h₀ now last_id names =
    let h = sweep h₀ now in
    let n = h.next_subscriber in
    let sub : Subscriber = record { ch = []; closed = false; topics = names } in
    let (joined, all_missed, stale) = join h now n (position_of h last_id) names in
    (
      record joined { subscribers = put n sub joined.subscribers; next_subscriber = n + 1 },
      record {
        missed = if stale then [] else map (λ m. m.1) (sort by_seq all_missed);
        stale = stale;
        at = event_id h h.seq;
        sub = n;
      },
    )

-- t.subs without the subscriber; a topic that is gone stays so.
leave_topic : ℕ → ℕ → Option Topic → Text → List (Text × Topic) → List (Text × Topic)
leave_topic now n none name topics = topics
leave_topic now n (some t) name topics =
    put name (record t { subs = select (λ m. not (eqb m n)) t.subs; used = now }) topics

pub leave : ℕ → ℕ → List Text → List (Text × Topic) → List (Text × Topic)
unfolding leave_topic
leave now n [] topics = topics
leave now n (name ∷ names) topics =
    leave now n names (leave_topic now n (lookup name topics) name topics)

-- `end`: closes the channel, once.
pub end_subscriber : Subscriber → Subscriber
end_subscriber sub = record sub { closed = true }

unsubscribe_known : Hub → ℕ → ℕ → Option Subscriber → Hub
unsubscribe_known h now n none = h
unsubscribe_known h now n (some sub) = record h {
  topics = leave now n sub.topics h.topics;
  subscribers = put n (end_subscriber sub) h.subscribers;
}

pub unsubscribe : Hub → ℕ → Subscription → Hub
unfolding unsubscribe_known leave end_subscriber
unsubscribe h now s = unsubscribe_known h now s.sub (lookup s.sub h.subscribers)

touch : Hub → ℕ → List Text → Hub
unfolding topic
touch h now [] = h
touch h now (name ∷ names) =
    touch (set_topic h name (record (topic h now name) { used = now })) now names

pub position : Hub → ℕ → List Text → Hub × Text
unfolding sweep touch event_id
position h₀ now names = let h = sweep h₀ now in (touch h now names, event_id h h.seq)
