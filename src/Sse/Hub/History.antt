-- ===== src/Sse/Hub/History.antt =====
-- Every event ever published, in order: what the topics' recent events are compared with.
use temporal_agent.Common.{
  ℕ, ◌≤◌, ◌<◌, ◌≡◌, refl, sym, inl, inr, ◌&&◌, List, [], ◌∷◌, ◌++◌, arith, ltb, leb, if◌then◌else◌,
  Bool-cases, length, ◌==◌, Text, text_equality, number_equality,
}
use temporal_agent.Sse.Hub.{Event, last_seq, after, trim}

-- An event, with its seq and its topic.
abbrev pub History : Type 0
History = List (ℕ × Text × Event)

-- A topic's events after a seq.
abbrev pub entries : Text → ℕ → History → List (ℕ × Event)
entries name n [] = []
entries name n ((s, m, e) ∷ log) =
    if m == name && ltb n s then (s, e) ∷ entries name n log else entries name n log

-- The seqs rise from above `lo` up to `hi`.
abbrev pub Rising : ℕ → History → ℕ → Type 0
Rising lo [] hi = lo ≤ hi
Rising lo ((s, m, e) ∷ log) hi = (lo < s) × Rising s log hi

pub Rising-le : (lo : ℕ) (log : History) (hi : ℕ) → Rising lo log hi → lo ≤ hi
Rising-le lo [] hi r = r
Rising-le lo ((s, m, e) ∷ log) hi r = omega (arith, r.0, Rising-le s log hi r.1)

pub Rising-append :
    (lo : ℕ) (log : History) (hi s : ℕ) (m : Text) (e : Event)
    → Rising lo log hi
    → hi < s
    → Rising lo (log ++ (s, m, e) ∷ []) s
Rising-append lo [] hi s m e r h = (omega arith, omega arith)
Rising-append lo ((t, n, f) ∷ log) hi s m e r h = (r.0, Rising-append t log hi s m e r.1 h)

pub entries-append :
    (name : Text) (n : ℕ) (log : History) (s : ℕ) (m : Text) (e : Event)
    → entries name n (log ++ (s, m, e) ∷ [])
      ≡ entries name n log ++ (if m == name && ltb n s then (s, e) ∷ [] else [])
entries-append name n [] s m e = ground arith
entries-append name n ((t, k, f) ∷ log) s m e = ground (arith, entries-append name n log s m e)

-- Nothing is after the last seq.
pub entries-none :
    (name : Text) (lo : ℕ) (log : History) (hi n : ℕ)
    → Rising lo log hi
    → hi ≤ n
    → entries name n log ≡ []
entries-none name lo [] hi n r h = refl
entries-none name lo ((s, m, e) ∷ log) hi n r h =
    ground (arith, Rising-le s log hi r.1, entries-none name s log hi n r.1 h)

-- Below the first seq, where one starts does not matter.
entries-below :
    (name : Text) (lo : ℕ) (log : History) (hi n k : ℕ)
    → Rising lo log hi
    → n ≤ lo
    → k ≤ lo
    → entries name n log ≡ entries name k log
entries-below name lo [] hi n k r h j = refl
entries-below name lo ((s, m, e) ∷ log) hi n k r h j =
    ground
      (arith, r.0, entries-below name s log hi n k r.1 (omega (arith, r.0)) (omega (arith, r.0)))

entries-head :
    (name : Text) (f : ℕ) (log : History) (n : ℕ) (e : Event) (rest : List (ℕ × Event))
    → entries name f log ≡ (n, e) ∷ rest
    → f < n
entries-head name f [] n e rest h = ground arith
entries-head name f ((s, m, x) ∷ log) n e rest h = elim (Bool-cases (m == name && ltb f s)) [
  | inl t ↦ ground arith
  | inr t ↦ entries-head name f log n e rest (rw t at h)
]

-- The events after the first one found are the others.
pub entries-drop :
    (name : Text) (lo f : ℕ) (log : History) (hi n : ℕ) (e : Event) (rest : List (ℕ × Event))
    → Rising lo log hi
    → entries name f log ≡ (n, e) ∷ rest
    → entries name n log ≡ rest
entries-drop name lo f [] hi n e rest r h = ground arith
entries-drop name lo f ((s, m, x) ∷ log) hi n e rest r h =
    elim (Bool-cases (m == name && ltb f s)) [
      | inl t ↦ ground (arith, entries-below name s log hi n f r.1)
      | inr t ↦
          let h' : entries name f log ≡ (n, e) ∷ rest = rw t at h in
          ground (
            arith,
            entries-drop name s f log hi n e rest r.1 h',
            entries-head name f log n e rest h',
          )
    ]

entries-le :
    (name : Text) (lo f : ℕ) (log : History) (hi n : ℕ) (e : Event) (rest : List (ℕ × Event))
    → Rising lo log hi
    → entries name f log ≡ (n, e) ∷ rest
    → n ≤ hi
entries-le name lo f [] hi n e rest r h = ground arith
entries-le name lo f ((s, m, x) ∷ log) hi n e rest r h = elim (Bool-cases (m == name && ltb f s)) [
  | inl t ↦ ground (arith, Rising-le s log hi r.1)
  | inr t ↦ entries-le name s f log hi n e rest r.1 (rw t at h)
]

-- Trimming keeps what is after the new floor, and moves the floor no further than the last seq.
pub trim-entries :
    (keep : ℕ) (name : Text) (lo : ℕ) (log : History) (hi : ℕ) (recent : List (ℕ × Event))
    (floor : ℕ)
    → Rising lo log hi
    → recent ≡ entries name floor log
    → floor ≤ hi
    → ((trim keep recent floor).0 ≡ entries name (trim keep recent floor).1 log)
      × ((trim keep recent floor).1 ≤ hi)
unfolding trim
trim-entries keep name lo log hi [] floor r h b = (h, b)
trim-entries keep name lo log hi ((n, e) ∷ recent) floor r h b =
    elim (Bool-cases (leb keep (length ((n, e) ∷ recent)))) [
      | inl t ↦
          rw (t, trim)
            (trim-entries keep name lo log hi recent n r
              (sym (entries-drop name lo floor log hi n e recent r (sym h)))
              (entries-le name lo floor log hi n e recent r (sym h)))
      | inr t ↦ rw (t, trim) (h, b)
    ]

-- `after` reads a topic's events as the history holds them, from its floor on.
pub after-entries :
    (name : Text) (floor n : ℕ) (log : History)
    → floor ≤ n
    → after n (entries name floor log) ≡ entries name n log
unfolding after
after-entries name floor n [] h = refl
after-entries name floor n ((s, m, e) ∷ log) h = ground (arith, after-entries name floor n log h)

last_seq-ge :
    (name : Text) (lo f : ℕ) (log : History) (hi d : ℕ)
    → Rising lo log hi
    → d ≤ lo
    → d ≤ last_seq (entries name f log) d
unfolding last_seq
last_seq-ge name lo f [] hi d r h = omega arith
last_seq-ge name lo f ((s, m, e) ∷ log) hi d r h = elim (Bool-cases (m == name && ltb f s)) [
  | inl t ↦ rw t (omega (arith, last_seq-ge name s f log hi s r.1 (omega arith), r.0))
  | inr t ↦ rw t (last_seq-ge name s f log hi d r.1 (omega (arith, r.0)))
]

-- Nothing is after a topic's floor and the last seq it knows.
pub entries-swept :
    (name : Text) (lo f : ℕ) (log : History) (hi d k : ℕ)
    → Rising lo log hi
    → f ≤ k
    → last_seq (entries name f log) d ≤ k
    → entries name k log ≡ []
unfolding last_seq
entries-swept name lo f [] hi d k r h l = refl
entries-swept name lo f ((s, m, e) ∷ log) hi d k r h l = elim (Bool-cases (m == name && ltb f s)) [
  | inl t ↦
      let l' : last_seq (entries name f log) s ≤ k = rw t at l in
      ground (
        arith,
        last_seq-ge name s f log hi s r.1 (omega arith),
        entries-swept name s f log hi s k r.1 h l',
      )
  | inr t ↦
      let l' : last_seq (entries name f log) d ≤ k = rw t at l in
      ground (arith, entries-swept name s f log hi d k r.1 h l')
]

pub last_seq-le :
    (name : Text) (lo f : ℕ) (log : History) (hi d : ℕ)
    → Rising lo log hi
    → d ≤ hi
    → last_seq (entries name f log) d ≤ hi
unfolding last_seq
last_seq-le name lo f [] hi d r h = h
last_seq-le name lo f ((s, m, e) ∷ log) hi d r h = elim (Bool-cases (m == name && ltb f s)) [
  | inl t ↦ rw t (last_seq-le name s f log hi s r.1 (Rising-le s log hi r.1))
  | inr t ↦ rw t (last_seq-le name s f log hi d r.1 h)
]

pub length-trim :
    (keep : ℕ) (recent : List (ℕ × Event)) (floor : ℕ)
    → 0 < keep
    → length (trim keep recent floor).0 < keep
unfolding trim
length-trim keep [] floor h = h
length-trim keep ((n, e) ∷ recent) floor h =
    elim (Bool-cases (leb keep (length ((n, e) ∷ recent)))) [
      | inl t ↦ rw (t, trim) (length-trim keep recent n h)
      | inr t ↦ rw (t, trim) (ground arith)
    ]

pub entries_mono :
    (name : Text) (n k : ℕ) (log : History)
    → entries name n log ≡ []
    → n ≤ k
    → entries name k log ≡ []
entries_mono name n k [] e h = refl
entries_mono name n k ((s, m, x) ∷ log) e h = elim (Bool-cases (m == name && ltb n s)) [
  | inl t ↦ ground arith
  | inr t ↦ ground (arith, entries_mono name n k log (rw t at e) h)
]
