-- ===== src/Workflow/Participant/Ending.antt =====
-- workflow/participant.go: how many passes the loop takes.
use temporal_agent.Common.{
  ℕ, zero, suc, ◌+◌, ◌≤◌, ◌<◌, ◌≡◌, refl, ap, ◌∙◌, ◌⊎◌, inl, inr, Bool, true, false, some, List, [],
  ◌∷◌, arith, ltb, leb, if◌then◌else◌, leb_iff, Bool-cases, length, length-append, ◌==◌,
  text_equality, number_equality,
}
use temporal_agent.Workflow.Messages.{ParticipantMessage, ParticipantInput}
use temporal_agent.Workflow.Participant.{
  Effect, Environment, Participant, receive, drained_clears, clear,
}
use temporal_agent.Workflow.Participant.Answer.{
  Ended, answer, next_message, pass, go_on, after_pass, run, closed, continued,
}
use temporal_agent.Workflow.Participant.Growth.{asked, answer-grows}
use temporal_agent.Workflow.Participant.Clearing.{clear-inbox}

abbrev load : Participant → ℕ
load p = length p.inbox + length p.messages

-- A pass that goes on asked for something, or took a message that has no ID.
Progress : ℕ → Participant → Participant → Type 0
Progress n p q = ((asked p < asked q) ⊎ ((asked q ≡ asked p) × (load q < load p))) × (asked p < n)

Passed : ℕ → Participant → Ended ⊎ Participant → Type 0
Passed n p result =
    ((ended : Ended) × (result ≡ inl ended))
    ⊎ ((q : Participant) × (result ≡ inr q) × Progress n p q)

abbrev pub Ends : Environment → ParticipantInput → Participant → Type 0
Ends env input p = (fuel : ℕ) × (ended : Ended) × (run fuel env input p ≡ some ended)

module _ (env : Environment) (input : ParticipantInput) where
  answer-empty :
      (msg : ParticipantMessage) (p : Participant)
      → (msg.message_id == 0) ≡ true
      → answer env input msg p ≡ p
  unfolding answer
  answer-empty msg p e = rw (e) refl

  module _ (n : ℕ)
      (bounded : (h : List Effect) → n ≤ length h → env.history_is_large h ≡ true) where
    next_message-Passed :
        (p : Participant) (ms : List ParticipantMessage)
        → p.inbox ≡ ms
        → Passed n p (next_message env input p ms)
    unfolding next_message Passed Progress
    next_message-Passed p [] e = inl (closed (record p { stops = [] }), refl)
    next_message-Passed p (msg ∷ rest) e = chosen p.gone (env.history_is_large p.history) refl
      where
        answered_one : Participant
        answered_one = answer env input msg (record p { inbox = rest })

        left : Ended
        left = closed (record p { stops = [] })

        renewed : Ended
        renewed = continued (record input { inbox = p.inbox }) (record p { stops = [] })

        within : env.history_is_large p.history ≡ false → asked p < n
        within small = elim (Bool-cases (leb n (asked p))) [
          | inl le ↦ ground (arith, bounded p.history ((leb_iff n (asked p)).0 le), small)
          | inr gt ↦ ground (arith, gt)
        ]

        answered :
            (b : Bool)
            → (msg.message_id == 0) ≡ b
            → (asked p < asked answered_one)
              ⊎ ((asked answered_one ≡ asked p) × (load answered_one < load p))
        answered true z = inr (
          ap asked (answer-empty msg (record p { inbox = rest }) z),
          omega (arith, ap load (answer-empty msg (record p { inbox = rest }) z), ap length e),
        )
        answered false z = inl (answer-grows env input msg (record p { inbox = rest }) z)

        chosen :
            (g l : Bool)
            → env.history_is_large p.history ≡ l
            → Passed n p (if g then inl left else if l then inl renewed else inr answered_one)
        chosen true l h = inl (left, refl)
        chosen false true h = inl (renewed, refl)
        chosen false false h =
            inr (answered_one, refl, (answered (msg.message_id == 0) refl, within h))

    pass-Passed : (p : Participant) → Passed n p (pass env input p)
    unfolding pass drained_clears receive Passed Progress
    pass-Passed p = branch (ltb 0 p.clears)
      where
        read : Participant
        read = (drained_clears (receive p)).0

        received : (r : Ended ⊎ Participant) → Passed n read r → Passed n p r
        received r (inl ended) = inl ended
        received r (inr (q, e, (inl more, small))) = inr (q, e, (inl more, small))
        received r (inr (q, e, (inr (same, less), small))) =
            inr (q, e, (inr (same, omega (arith, less, length-append p.inbox p.messages)), small))

        branch :
            (b : Bool)
            → Passed n p (
                next_message env input
                  (if b then clear env input read else read)
                  (if b then clear env input read else read).inbox)
        branch true = inl (
          closed (record (clear env input read) { stops = [] }),
          ap (next_message env input (clear env input read)) (clear-inbox env input read),
        )
        branch false = received _ (next_message-Passed read read.inbox refl)

    Ends-now : (p : Participant) (ended : Ended) → pass env input p ≡ inl ended → Ends env input p
    unfolding run go_on after_pass
    Ends-now p ended e = (1, ended, ap (λ r. go_on r (run 0 env input (after_pass r p))) e)

    Ends-later :
        (p q : Participant) → pass env input p ≡ inr q → Ends env input q → Ends env input p
    unfolding run go_on after_pass
    Ends-later p q e (fuel, ended, found) =
        (suc fuel, ended, ap (λ r. go_on r (run fuel env input (after_pass r p))) e ∙ found)

    Ends-load :
        (d : ℕ)
        → ((q : Participant) → n ≤ asked q + d → Ends env input q)
        → (l : ℕ) (p : Participant) → n ≤ asked p + suc d
        → load p ≤ l
        → Passed n p (pass env input p)
        → Ends env input p
    unfolding Passed Progress
    Ends-load d ih l p h k (inl (ended, e)) = Ends-now p ended e
    Ends-load d ih l p h k (inr (q, e, (inl more, small))) =
        Ends-later p q e (ih q (omega (arith, more, h)))
    Ends-load d ih zero p h k (inr (q, e, (inr (same, less), small))) =
        absurd (omega (arith, less, k))
    Ends-load d ih (suc l) p h k (inr (q, e, (inr (same, less), small))) =
        Ends-later p q e
          (Ends-load d ih l q (omega (arith, same, h)) (omega (arith, less, k)) (pass-Passed q))

    Ends-within : (d : ℕ) (p : Participant) → n ≤ asked p + d → Ends env input p
    unfolding Passed Progress
    Ends-within zero p h = at_bound (pass-Passed p)
      where
        at_bound : Passed n p (pass env input p) → Ends env input p
        at_bound (inl (ended, e)) = Ends-now p ended e
        at_bound (inr (q, e, (more, small))) = absurd (omega (arith, small, h))
    Ends-within (suc d) p h = Ends-load d (Ends-within d) (load p) p h (omega arith) (pass-Passed p)

-- The participant's loop ends, from any state and whatever its environment does, when a history of some number of
-- effects is large enough for it to continue as a new run: a number of passes is enough to close or continue.
pub run-Ends :
    (env : Environment) (input : ParticipantInput) (n : ℕ)
    → ((h : List Effect) → n ≤ length h → env.history_is_large h ≡ true)
    → (p : Participant) → Ends env input p
run-Ends env input n bounded p = Ends-within env input n bounded n p (omega arith)
