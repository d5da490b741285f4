-- ===== src/Sse/Hub/Invariant.antt =====
-- sse/hub.go: the hub's topics, against the end of the history.
use temporal_agent.Common.{
  ℕ, ◌+◌, ◌-◌, ◌%◌, ◌^◌, ◌≤◌, ◌<◌, max, ◌≡◌, refl, sym, ap, ◌∙◌, subst, inl, inr, false, none, some,
  List, [], ◌∷◌, ◌++◌, arith, ltb, if◌then◌else◌, Bool-cases, Option-cases, length, length-append,
  All, ◌==◌, Text, text_eq_iff, text_equality, number_equality, lookup, put, lookup-put, All-delete,
  All-lookup,
}
use mathlib.Core.List.{append-nil}
use temporal_agent.Sse.Hub.{
  Hub, Topic, Event, SseEvent, topic, fresh_topic, set_topic, sweep, sweep_topics, idle_for_long,
  last_seq, minute, publish_at, publish, trim, event_id, max_uint64,
}
use temporal_agent.Sse.Hub.History.{
  History, entries, Rising, Rising-append, entries-append, entries-swept, entries_mono, last_seq-le,
  trim-entries, length-trim,
}

-- A topic's recent events are those of the history after its floor, and no more than are kept.
pub record Covers (seq keep : ℕ) (log : History) (entry : Text × Topic) : Type 0 where
  pub recent : (entry.1).recent ≡ entries entry.0 (entry.1).floor log
  pub floor_le : (entry.1).floor ≤ seq
  pub bounded : length (entry.1).recent ≤ keep

-- A hub after the history: a topic it does not hold had no event after `dropped`.
pub record Faithful (h : Hub) (log : History) : Type 0 where
  pub keeps : 0 < h.keep
  pub rising : Rising 0 log h.seq
  pub dropped_le : h.dropped ≤ h.seq
  pub each : All (Covers h.seq h.keep log) h.topics
  pub missing : (name : Text) → lookup name h.topics ≡ none → entries name h.dropped log ≡ []

All-map {κ} :
    (P Q : Text × Topic → Type κ) (topics : List (Text × Topic))
    → ((entry : Text × Topic) → P entry → Q entry)
    → All P topics
    → All Q topics
All-map P Q [] f a = tt
All-map P Q (x ∷ topics) f a = (f x a.0, All-map P Q topics f a.1)

fresh-Covers :
    (h : Hub) (log : History) (now : ℕ) (name : Text)
    → Faithful h log
    → entries name h.dropped log ≡ []
    → Covers h.seq h.keep log (name, fresh_topic h now)
unfolding fresh_topic
fresh-Covers h log now name v e = record {
  recent = sym e;
  floor_le = v.dropped_le;
  bounded = omega arith;
}

-- The topic that a call works on, held or new.
pub topic-Covers :
    (h : Hub) (log : History) (now : ℕ) (name : Text)
    → Faithful h log
    → Covers h.seq h.keep log (name, topic h now name)
unfolding topic
topic-Covers h log now name v = elim (Option-cases (lookup name h.topics)) [
  | inl e ↦ rw (e, topic) (fresh-Covers h log now name v (v.missing name e))
  | inr (t, e) ↦ rw (e, topic) (All-lookup (Covers h.seq h.keep log) name h.topics t v.each e)
]

pub set_topic-Faithful :
    (h : Hub) (log : History) (name : Text) (t : Topic)
    → Faithful h log
    → Covers h.seq h.keep log (name, t)
    → Faithful (set_topic h name t) log
set_topic-Faithful h log name t v c = record {
  keeps = v.keeps;
  rising = v.rising;
  dropped_le = v.dropped_le;
  each = (
    c,
    All-delete (Covers h.seq h.keep log) name h.topics (
        All-map (Covers h.seq h.keep log)
          (λ entry. (entry.0 ≡ name → ⊥) → Covers h.seq h.keep log entry) h.topics (λ _ p _. p)
          v.each),
  );
  missing = λ m e. v.missing m (ground (arith, lookup-put name m t h.topics));
}

-- sweep
sweep_topics-Covers :
    (h : Hub) (log : History) (now : ℕ) (topics : List (Text × Topic)) (dropped : ℕ)
    → Rising 0 log h.seq
    → dropped ≤ h.seq
    → All (Covers h.seq h.keep log) topics
    → (dropped ≤ (sweep_topics h now topics dropped).1)
      × ((sweep_topics h now topics dropped).1 ≤ h.seq)
      × All (Covers h.seq h.keep log) (sweep_topics h now topics dropped).0
unfolding sweep_topics
sweep_topics-Covers h log now [] dropped r d a = (omega arith, d, tt)
sweep_topics-Covers h log now ((name, t) ∷ topics) dropped r d a =
    elim (Bool-cases (idle_for_long h now t)) [
      | inl e ↦
          let top : last_seq t.recent 0 ≤ h.seq =
            subst (λ l. last_seq l 0 ≤ h.seq) (sym (a.0).recent)
              (last_seq-le name 0 t.floor log h.seq 0 r (omega arith)) in
          let (up, le, kept) =
            sweep_topics-Covers h log now topics (max (max dropped t.floor) (last_seq t.recent 0)) r
              (omega (arith, (a.0).floor_le)) a.1 in
          rw (e, sweep_topics) (omega arith, le, kept)
      | inr e ↦
          let (up, le, kept) = sweep_topics-Covers h log now topics dropped r d a.1 in
          rw (e, sweep_topics) (up, le, (a.0, kept))
    ]

-- A topic that is not held had no event after `dropped`: so too once the sweep has raised it.
sweep_topics-missing :
    (h : Hub) (log : History) (now : ℕ) (name : Text) (topics : List (Text × Topic)) (dropped : ℕ)
    → Rising 0 log h.seq
    → All (Covers h.seq h.keep log) topics
    → (lookup name topics ≡ none → entries name dropped log ≡ [])
    → lookup name (sweep_topics h now topics dropped).0 ≡ none
    → entries name (sweep_topics h now topics dropped).1 log ≡ []
unfolding sweep_topics
sweep_topics-missing h log now name [] dropped r a q e = q refl
sweep_topics-missing h log now name ((m, u) ∷ topics) dropped r a q e =
    elim (Bool-cases (idle_for_long h now u)) [
      | inl gone ↦
          rw (gone, sweep_topics)
            (sweep_topics-missing h log now name topics raised r a.1 after_gone
              (rw (gone, sweep_topics) at e))
      | inr kept ↦
          rw (kept, sweep_topics)
            (after_kept (rw (kept, sweep_topics) at e)
              (sweep_topics-missing h log now name topics dropped r a.1))
    ]
  where
    raised : ℕ
    raised = max (max dropped u.floor) (last_seq u.recent 0)

    after_gone : lookup name topics ≡ none → entries name raised log ≡ []
    after_gone none_left = elim (Bool-cases (m == name)) [
      | inl same ↦ entries-swept name 0 u.floor log h.seq 0 raised r (omega arith) (
          subst (λ l. last_seq l 0 ≤ raised)
            ((a.0).recent ∙ ap (λ n. entries n u.floor log) ((text_eq_iff m name).0 same))
            (omega arith))
      | inr other ↦ entries_mono name dropped raised log (q (rw other none_left)) (omega arith)
    ]

    after_kept :
        (if m == name then some u else lookup name (sweep_topics h now topics dropped).0) ≡ none
        → ((lookup name topics ≡ none → entries name dropped log ≡ [])
            → lookup name (sweep_topics h now topics dropped).0 ≡ none
            → entries name (sweep_topics h now topics dropped).1 log ≡ [])
        → entries name (sweep_topics h now topics dropped).1 log ≡ []
    after_kept none_left ih = elim (Bool-cases (m == name)) [
      | inl same ↦ ground arith
      | inr other ↦ ih (λ left. q (rw other left)) (rw other at none_left)
    ]

pub sweep-Faithful :
    (h : Hub) (log : History) (now : ℕ) → Faithful h log → Faithful (sweep h now) log
unfolding sweep
sweep-Faithful h log now v = elim (Bool-cases (ltb (now - h.swept) minute)) [
  | inl e ↦ rw (e, sweep) v
  | inr e ↦
      let (up, le, kept) =
        sweep_topics-Covers h log now h.topics h.dropped v.rising v.dropped_le v.each in
      rw (e, sweep)
        (record {
          keeps = v.keeps;
          rising = v.rising;
          dropped_le = le;
          each = kept;
          missing = λ name.
              sweep_topics-missing h log now name h.topics h.dropped v.rising v.each
                (v.missing name);
        })
]

others-entries :
    (name m : Text) (n next : ℕ) (log : History) (e : Event)
    → (m ≡ name → ⊥)
    → entries m n (log ++ (next, name, e) ∷ []) ≡ entries m n log
others-entries name m n next log e other =
    let differs : (name == m) ≡ false = ground (arith, text_eq_iff name m, other) in
    entries-append m n log next name e ∙ rw differs (append-nil (entries m n log))

grown-Covers :
    (seq keep next : ℕ) (log : History) (name : Text) (e : Event) (topics : List (Text × Topic))
    → seq < next
    → All (Covers seq keep log) topics
    → All
        (λ entry. (entry.0 ≡ name → ⊥) → Covers next keep (log ++ (next, name, e) ∷ []) entry)
        topics
grown-Covers seq keep next log name e topics h =
    All-map (Covers seq keep log)
      (λ entry. (entry.0 ≡ name → ⊥) → Covers next keep (log ++ (next, name, e) ∷ []) entry) topics
      λ (m, t) c other. record {
        recent = c.recent ∙ sym (others-entries name m t.floor next log e other);
        floor_le = omega (arith, c.floor_le);
        bounded = c.bounded;
      }

-- The topic published on: trimmed, then grown by the event.
published-Covers :
    (h : Hub) (log : History) (name : Text) (t : Topic) (subs : List ℕ) (now : ℕ) (e : Event)
    → Faithful h log
    → Covers h.seq h.keep log (name, t)
    → Covers (h.seq + 1) h.keep (log ++ (h.seq + 1, name, e) ∷ []) (
      name,
      record {
        subs = subs;
        recent = (trim h.keep t.recent t.floor).0 ++ (h.seq + 1, e) ∷ [];
        floor = (trim h.keep t.recent t.floor).1;
        used = now;
      },
    )
published-Covers h log name t subs now e v c =
    let (kept, le) =
      trim-entries h.keep name 0 log h.seq t.recent t.floor v.rising c.recent c.floor_le in
    let floor = (trim h.keep t.recent t.floor).1 in
    record {
      recent =
          ap (λ l. l ++ (h.seq + 1, e) ∷ []) kept
          ∙ sym (
              ground (
                arith,
                entries-append name floor log (h.seq + 1) name e,
                text_eq_iff name name,
                le,
              ));
      floor_le = omega (arith, le);
      bounded = omega (
        arith,
        length-append (trim h.keep t.recent t.floor).0 ((h.seq + 1, e) ∷ []),
        length-trim h.keep t.recent t.floor v.keeps,
      );
    }

-- The history once an event is published.
abbrev pub published : Hub → Text → SseEvent → History → History
published h name event log =
    log ++ (h.seq + 1, name, record { id = event_id h (h.seq + 1); event = event }) ∷ []

publish_at-Faithful :
    (h : Hub) (log : History) (now : ℕ) (name : Text) (event : SseEvent)
    → Faithful h log
    → Faithful (publish_at h now name event (h.seq + 1)) (published h name event log)
unfolding publish_at
publish_at-Faithful h log now name event v =
    let e : Event = record { id = event_id h (h.seq + 1); event = event } in
    record {
      keeps = v.keeps;
      rising = Rising-append 0 log h.seq (h.seq + 1) name e v.rising (omega arith);
      dropped_le = omega (arith, v.dropped_le);
      each = (
        published-Covers h log name (topic h now name) _ now e v (topic-Covers h log now name v),
        All-delete (Covers (h.seq + 1) h.keep (published h name event log)) name h.topics
            (grown-Covers h.seq h.keep (h.seq + 1) log name e h.topics (omega arith) v.each),
      );
      missing = missing_after _;
    }
  where
    missing_after :
        (t : Topic) (m : Text)
        → lookup m (put name t h.topics) ≡ none
        → entries m h.dropped (published h name event log) ≡ []
    missing_after t m left =
        let other : (name == m) ≡ false = ground (arith, lookup-put name m t h.topics) in
        others-entries name m h.dropped (h.seq + 1) log _
          (λ same. ground (arith, text_eq_iff name m))
        ∙ v.missing m (ground (arith, lookup-put name m t h.topics))

sweep-seq : (h : Hub) (now : ℕ) → ((sweep h now).seq ≡ h.seq) × ((sweep h now).epoch ≡ h.epoch)
unfolding sweep
sweep-seq h now = ground arith

published-sweep :
    (h : Hub) (now : ℕ) (name : Text) (event : SseEvent) (log : History)
    → published (sweep h now) name event log ≡ published h name event log
unfolding event_id
published-sweep h now name event log = rw ((sweep-seq h now).0, (sweep-seq h now).1)

-- A hub faithful to a history is, once an event is published, faithful to the history with it: each
-- topic keeps the end of its own events, at most `keep` of them, and knows from which seq on. The
-- hub has not given every 64-bit seq.
pub publish-Faithful :
    (h : Hub) (log : History) (now : ℕ) (name : Text) (event : SseEvent)
    → Faithful h log
    → h.seq < max_uint64
    → Faithful (publish h now name event) (published h name event log)
unfolding publish
publish-Faithful h log now name event v room =
    let s = sweep h now in
    let next : s.seq + 1 ≡ (s.seq + 1) % 2 ^ 64 = omega (arith, (sweep-seq h now).0) in
    subst (Faithful (publish h now name event)) (published-sweep h now name event log) (
      subst (λ n. Faithful (publish_at s now name event n) (published s name event log)) next
        (publish_at-Faithful s log now name event (sweep-Faithful h log now v)))
