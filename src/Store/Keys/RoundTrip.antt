-- ===== src/Store/Keys/RoundTrip.antt =====
-- store/message.go: the keys that a turn writes, read back.
use temporal_agent.Common.{
  ℕ, ◌≤◌, ◌≡◌, refl, ◌∙◌, subst, ◌≢◌, ◌⊎◌, inl, inr, true, false, some, [], ◌∷◌, ◌++◌, arith,
  Bool-cases, all, Text, text_eq, text_eq_iff, text_equality, number_equality,
}
use temporal_agent.Store.Decimal.{
  is_digit, decimal, digits, digits-decimal, parse_int-decimal, max_int64,
}
use temporal_agent.Store.Keys.Cuts.{cut-append, last_cut-append, lacks, cut_prefix, contains_any}
use temporal_agent.Store.Keys.{
  turn_key, turn_end_key, turn_message_key, turn_end_suffix, parse_turn, anchor_and_participant,
  participant_of, turn_before, turn_of, is_turn_end,
}

-- What the callers give as a participant: an agent's ID, not empty, with neither dot nor colon.
pub record IsParticipant (p : Text) : Type 0 where
  pub named : p ≢ []
  pub plain : contains_any p (b'.' ∷ b':' ∷ []) ≡ false

digits-lacks : (b : ℕ) (s : Text) → is_digit b ≡ false → all is_digit s ≡ true → lacks b s ≡ true
digits-lacks b [] h d = refl
digits-lacks b (c ∷ s) h d = ground (arith, digits-lacks b s)

digits→all : (s : Text) → digits s ≡ true → all is_digit s ≡ true
unfolding digits
digits→all [] d = refl
digits→all (c ∷ s) d = d

-- For a message ID that is a natural number an int64 holds, and a participant that is not empty and has neither dot
-- nor colon: a turn's key is read back as the message and the participant it was printed of.
pub parse_turn-turn_key :
    (m : ℕ) (p : Text) → m ≤ max_int64 → IsParticipant p → parse_turn (turn_key m p) ≡ some (m, p)
unfolding parse_turn turn_key cut_prefix anchor_and_participant participant_of
parse_turn-turn_key m p small ok = ground (
  arith,
  cut-append b'.' (decimal m) p
      (digits-lacks b'.' (decimal m) refl (digits→all (decimal m) (digits-decimal m))),
  digits-decimal m,
  parse_int-decimal m small,
  text_eq_iff p [],
  ok.named,
  ok.plain,
)

-- What may follow a turn's key in the key of a message.
abbrev IsSuffix : Text → Type 0
IsSuffix s = (s ≡ turn_end_suffix) ⊎ (digits s ≡ true)

suffix-lacks : (s : Text) → IsSuffix s → lacks b':' s ≡ true
suffix-lacks s (inl e) = rw e
suffix-lacks s (inr d) = digits-lacks b':' s refl (digits→all s d)

parse_turn-nil : (a : ℕ × Text) → parse_turn [] ≡ some a → ⊥
unfolding parse_turn cut_prefix
parse_turn-nil a h = cc

turn_before-parsed :
    (turn suffix : Text) (a : ℕ × Text)
    → parse_turn turn ≡ some a
    → IsSuffix suffix
    → turn_before turn suffix ≡ some turn
unfolding turn_before
turn_before-parsed [] suffix a h ok = absurd (parse_turn-nil a h)
turn_before-parsed (c ∷ turn) suffix a h (inl e) =
    ground (arith, h, e, text_eq_iff suffix turn_end_suffix, text_eq_iff (c ∷ turn) [])
turn_before-parsed (c ∷ turn) suffix a h (inr d) = ground (arith, h, d, text_eq_iff (c ∷ turn) [])

turn_of-parsed :
    (turn suffix : Text) (a : ℕ × Text)
    → parse_turn turn ≡ some a
    → IsSuffix suffix
    → turn_of (turn ++ b':' ∷ suffix) ≡ some turn
unfolding turn_of
turn_of-parsed turn suffix a h ok =
    rw (last_cut-append b':' turn suffix (suffix-lacks suffix ok), turn_of)
      (turn_before-parsed turn suffix a h ok)

text_eq-append : (p s t : Text) → text_eq (p ++ s) (p ++ t) ≡ text_eq s t
unfolding text_eq
text_eq-append [] s t = refl
text_eq-append (c ∷ p) s t = ground (arith, text_eq-append p s t)

text_eq-suffix : (turn s t : Text) → text_eq (turn ++ b':' ∷ s) (turn ++ b':' ∷ t) ≡ text_eq s t
unfolding text_eq
text_eq-suffix turn s t = text_eq-append turn (b':' ∷ s) (b':' ∷ t)

decimal-ne-end : (i : ℕ) → text_eq (decimal i) turn_end_suffix ≡ false
unfolding digits
decimal-ne-end i = elim (Bool-cases (text_eq (decimal i) turn_end_suffix)) [
  | inl e ↦
      absurd (end-digits (subst (λ s. digits s ≡ true) ((text_eq_iff _ _).0 e) (digits-decimal i)))
  | inr n ↦ n
]
  where
    end-digits : digits turn_end_suffix ≡ true → ⊥
    end-digits h = cc

-- For a message ID that is a natural number an int64 holds, and a participant that is not empty and has neither dot
-- nor colon: the turn reads its key back from its message's key and from its end's key, and only the latter is an end.
pub turn_keys :
    (m : ℕ) (p : Text) (i : ℕ)
    → m ≤ max_int64
    → IsParticipant p
    → let turn = turn_key m p in
      (turn_of (turn_message_key turn i) ≡ some turn)
      × (is_turn_end (turn_message_key turn i) ≡ false)
      × (turn_of (turn_end_key turn) ≡ some turn)
      × (is_turn_end (turn_end_key turn) ≡ true)
unfolding is_turn_end turn_message_key turn_end_key
turn_keys m p i small ok =
    let parsed = parse_turn-turn_key m p small ok in
    let message =
      turn_of-parsed (turn_key m p) (decimal i) (m, p) parsed (inr (digits-decimal i)) in
    let ending = turn_of-parsed (turn_key m p) turn_end_suffix (m, p) parsed (inl refl) in
    (
      message,
      rw (message, is_turn_end)
          (text_eq-suffix (turn_key m p) (decimal i) turn_end_suffix ∙ decimal-ne-end i),
      ending,
      rw (ending, is_turn_end)
          ((text_eq_iff (turn_end_key (turn_key m p)) (turn_end_key (turn_key m p))).1 refl),
    )

-- So two such turns have one key only if they are one participant's on one message.
pub turn_key-injective :
    (m n : ℕ) (p q : Text)
    → m ≤ max_int64
    → n ≤ max_int64
    → IsParticipant p
    → IsParticipant q
    → turn_key m p ≡ turn_key n q
    → (m ≡ n) × (p ≡ q)
turn_key-injective m n p q hm hn hp hq e =
    ground (arith, parse_turn-turn_key m p hm hp, parse_turn-turn_key n q hn hq, e)
