-- ===== src/Sse/Hub/Replay.antt =====
-- sse/hub.go: what a client that reconnects is sent.
use temporal_agent.Common.{
  Perm, sort, sort-perm, Sorted, sort-Sorted, ℕ, ◌≤◌, ◌<◌, ◌≡◌, refl, sym, ap, ◌∙◌, subst, ◌↔◌, inl,
  inr, Bool, true, false, ◌&&◌, ◌||◌, some, List, [], ◌∷◌, ◌++◌, map, arith, ltb, if◌then◌else◌,
  ltb_iff, Bool-cases, ◌==◌, contains, Text, text_eq_iff, text_equality, number_equality,
  lookup-put,
}
use mathlib.Core.Path.{ap₂}
use mathlib.Core.List.{perm_middle}
use mathlib.Core.List.Perm
use temporal_agent.Sse.Hub.{
  Hub, Event, topic, fresh_topic, set_topic, sweep, join, catch_up, after, subscribe, position_of,
  by_seq,
}
use temporal_agent.Sse.Hub.History.{History, entries, after-entries}
use temporal_agent.Sse.Hub.Invariant.{Faithful, topic-Covers, set_topic-Faithful, sweep-Faithful}
use temporal_agent.Sse.Hub.Subscribers.{kept-Covers}

-- The events of several topics after a seq, in the order of the history.
abbrev pub entries_of_any : List Text → ℕ → History → List (ℕ × Event)
entries_of_any names n [] = []
entries_of_any names n ((s, m, e) ∷ log) =
    if contains names m && ltb n s
    then (s, e) ∷ entries_of_any names n log
    else entries_of_any names n log

-- Each topic once.
abbrev pub Distinct : List Text → Type 0
Distinct [] = Unit
Distinct (name ∷ names) = (contains names name ≡ false) × Distinct names

-- One topic's events after another's.
one_by_one : List Text → ℕ → History → List (ℕ × Event)
one_by_one [] n log = []
one_by_one (name ∷ names) n log = entries name n log ++ one_by_one names n log

-- An event of one topic or of the others goes to the front of either.
perm_either :
    (a c l : Bool) (x : ℕ × Event) (p q r : List (ℕ × Event))
    → (a ≡ true → c ≡ false)
    → Perm (p ++ q) r
    → Perm
        ((if a && l then x ∷ p else p) ++ (if c && l then x ∷ q else q))
        (if (a || c) && l then x ∷ r else r)
perm_either true true l x p q r d h = cc (d refl)
perm_either true false true x p q r d h = Perm.cons x h
perm_either true false false x p q r d h = h
perm_either false true true x p q r d h = Perm.trans (perm_middle p q) (Perm.cons x h)
perm_either false true false x p q r d h = h
perm_either false false l x p q r d h = h

entries_of_any-cons :
    (name : Text) (names : List Text) (n : ℕ) (log : History)
    → contains names name ≡ false
    → Perm (entries name n log ++ entries_of_any names n log) (entries_of_any (name ∷ names) n log)
entries_of_any-cons name names n [] h = Perm.refl _
entries_of_any-cons name names n ((s, m, e) ∷ log) h =
    perm_either (m == name) (contains names m) (ltb n s) (s, e) (entries name n log)
      (entries_of_any names n log) (entries_of_any (name ∷ names) n log)
      (λ same. subst (λ k. contains names k ≡ false) (sym ((text_eq_iff m name).0 same)) h)
      (entries_of_any-cons name names n log h)

entries_of_any-nil : (n : ℕ) (log : History) → entries_of_any [] n log ≡ []
entries_of_any-nil n [] = refl
entries_of_any-nil n ((s, m, e) ∷ log) = entries_of_any-nil n log

one_by_one-perm :
    (names : List Text) (n : ℕ) (log : History)
    → Distinct names
    → Perm (one_by_one names n log) (entries_of_any names n log)
unfolding one_by_one
one_by_one-perm [] n log d = rw (entries_of_any-nil n log) (Perm.refl _)
one_by_one-perm (name ∷ names) n log d =
    Perm.trans (Perm.append_left (entries name n log) (one_by_one-perm names n log d.1))
      (entries_of_any-cons name names n log d.0)

-- The topics' floors, which joining does not move.
abbrev pub Known : Hub → ℕ → ℕ → List Text → Type 0
Known h now last [] = Unit
Known h now last (name ∷ names) = ((topic h now name).floor ≤ last) × Known h now last names

floor-set_topic :
    (h : Hub) (now : ℕ) (name m : Text) (subs : List ℕ)
    → (topic (set_topic h name (record (topic h now name) { subs = subs })) now m).floor
      ≡ (topic h now m).floor
unfolding topic fresh_topic
floor-set_topic h now name m subs = ground (
  arith,
  lookup-put name m (record (topic h now name) { subs = subs }) h.topics,
  text_eq_iff name m,
)

Known-set_topic :
    (h : Hub) (now last : ℕ) (name : Text) (subs : List ℕ) (names : List Text)
    → Known (set_topic h name (record (topic h now name) { subs = subs })) now last names
      ↔ Known h now last names
Known-set_topic h now last name subs [] = (λ k. k, λ k. k)
Known-set_topic h now last name subs (m ∷ names) =
    let rest = Known-set_topic h now last name subs names in
    let same = floor-set_topic h now name m subs in
    (λ k. (omega (arith, k.0, same), rest.0 k.1), λ k. (omega (arith, k.0, same), rest.1 k.1))

-- The loop's verdict: it lost nothing exactly when every topic knows what came after `last`.
join-stale :
    (names : List Text) (h : Hub) (now n last : ℕ)
    → ((join h now n (some (some last)) names).2 ≡ false) ↔ Known h now last names
unfolding join catch_up
join-stale [] h now n last = (λ _. tt, λ _. refl)
join-stale (name ∷ names) h now n last =
    let t = topic h now name in
    let rest =
      join-stale names (set_topic h name (record t { subs = t.subs ++ n ∷ [] })) now n last in
    let same = Known-set_topic h now last name (t.subs ++ n ∷ []) names in
    elim (Bool-cases (ltb last t.floor)) [
      | inl lost ↦
          rw (lost, join, catch_up)
            ((λ e. cc), λ k. absurd (lt_not_le ((ltb_iff last t.floor).0 lost) k.0))
      | inr kept ↦
          rw (kept, join, catch_up)
            ((λ e. (ground arith, same.0 (rest.0 e))), λ k. rest.1 (same.1 k.1))
    ]
  where
    lt_not_le : {a b : ℕ} → a < b → b ≤ a → ⊥
    lt_not_le h k = omega arith

join-missed :
    (names : List Text) (h : Hub) (log : History) (now n last : ℕ)
    → Faithful h log
    → Known h now last names
    → (join h now n (some (some last)) names).1 ≡ one_by_one names last log
unfolding join catch_up one_by_one
join-missed [] h log now n last v k = refl
join-missed (name ∷ names) h log now n last v k =
    let t = topic h now name in
    let c = topic-Covers h log now name v in
    let u = record t { subs = t.subs ++ n ∷ [] } in
    let kept : ltb last t.floor ≡ false = ground (arith, k.0) in
    let rest =
      join-missed names (set_topic h name u) log now n last
        (set_topic-Faithful h log name u v (kept-Covers h.seq h.keep log name t u refl refl c))
        ((Known-set_topic h now last name (t.subs ++ n ∷ []) names).1 k.1) in
    rw (kept, join, catch_up)
      (ap₂ ◌++◌ (ap (after last) c.recent ∙ after-entries name t.floor last log k.0) rest)

by_seq-total : (a b : ℕ × Event) → by_seq a b ≡ false → by_seq b a ≡ true
by_seq-total a b h = ground arith

by_seq_trans : (a b c : ℕ × Event) → by_seq a b ≡ true → by_seq b c ≡ true → by_seq a c ≡ true
by_seq_trans a b c h k = ground arith

-- A client that gives the ID of an event this hub published, whose seq is `last`, on topics each
-- named once: it is told to reload exactly when, once swept, a topic no longer knows everything
-- after `last`; otherwise it is sent all of the events of its topics published after its own, no
-- other and each once, in the order of their seqs.
pub subscribe-replays :
    (h : Hub) (log : History) (now last : ℕ) (last_id : Text) (names : List Text)
    → Faithful h log
    → Distinct names
    → position_of (sweep h now) last_id ≡ some (some last)
    → let s = (subscribe h now last_id names).1 in
      ((s.stale ≡ false) ↔ Known (sweep h now) now last names)
      × (s.stale ≡ false
          → (missed : List (ℕ × Event)) × (s.missed ≡ map (λ m. m.1) missed)
            × Sorted by_seq missed
            × Perm missed (entries_of_any names last log))
unfolding subscribe
subscribe-replays h log now last last_id names v d at =
    let s = sweep h now in
    let verdict = join-stale names s now s.next_subscriber last in
    let gathered = λ (k : Known s now last names).
      join-missed names s log now s.next_subscriber last (sweep-Faithful h log now v) k in
    rw (at, subscribe)
      (
        verdict,
        λ fresh. (
          sort by_seq (join s now s.next_subscriber (some (some last)) names).1,
          rw fresh,
          sort-Sorted by_seq by_seq-total by_seq_trans _,
          Perm.trans (sort-perm by_seq _)
              (rw (gathered (verdict.0 fresh)) (one_by_one-perm names last log d)),
        ),
      )
