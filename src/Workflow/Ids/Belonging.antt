-- ===== src/Workflow/Ids/Belonging.antt =====
-- workflow/participant.go: what the IDs of a session's workflows belong to.
use temporal_agent.Common.{
  ℕ, ◌≡◌, refl, ap, ◌∙◌, ◌≢◌, true, false, none, some, [], ◌∷◌, ◌++◌, arith, length, ◌==◌, Text,
  text, text_eq_iff, text_equality, number_equality,
}
use temporal_agent.Store.Keys.Cuts.{cut-append, lacks}
use temporal_agent.Workflow.Ids.{
  colon, participant_workflow_id, session_of, session_length, drop, before_colon,
  participant_of_workflow, cut_prefix, agent_in,
}
use temporal_agent.Store.Keys.Cuts.{cut}

drop-append : (s t : Text) → drop (length s) (s ++ t) ≡ t
unfolding drop
drop-append [] t = refl
drop-append (c ∷ cs) t = drop-append cs t

session_of-append :
    (c : ℕ) (cs rest : Text)
    → lacks colon (c ∷ cs) ≡ true
    → session_of ((c ∷ cs) ++ (colon ∷ rest)) ≡ some (c ∷ cs)
unfolding session_of
session_of-append c cs rest h = rw (cut-append colon (c ∷ cs) rest h) refl

-- What may follow the participant's ID in the ID of a workflow of its: nothing, or a colon.
pub data Suffix : Text → Type 0 where
  whole : Suffix []
  after_colon : (rest : Text) → Suffix (colon ∷ rest)

cut-lacks : (b : ℕ) (s : Text) → lacks b s ≡ true → cut b s ≡ none
unfolding cut
cut-lacks b [] h = refl
cut-lacks b (c ∷ s) h = ground (arith, cut-lacks b s)

append_nil : (s : Text) → s ++ [] ≡ s
append_nil [] = refl
append_nil (c ∷ s) = ap (λ t. c ∷ t) (append_nil s)

before_colon-append :
    (agent tail : Text)
    → lacks colon agent ≡ true
    → Suffix tail
    → before_colon (agent ++ tail) ≡ agent
unfolding before_colon
before_colon-append agent tail h whole = rw (append_nil agent, cut-lacks colon agent h) refl
before_colon-append agent tail h (after_colon rest) = rw (cut-append colon agent rest h) refl

-- For a session and an agent that are not empty and hold no colon, the ID of the participant, and that of
-- anything a turn of it starts, belong to the session and to the agent.
pub participant_of_workflow-participant_workflow_id :
    (session agent tail : Text)
    → lacks colon session ≡ true
    → lacks colon agent ≡ true
    → session ≢ []
    → agent ≢ []
    → Suffix tail
    → (session_of (participant_workflow_id session agent ++ tail) ≡ some session)
      × (participant_of_workflow (participant_workflow_id session agent ++ tail) ≡ some agent)
unfolding participant_of_workflow participant_workflow_id session_length cut_prefix
participant_of_workflow-participant_workflow_id [] agent tail h k n m t = absurd (n refl)
participant_of_workflow-participant_workflow_id (c ∷ cs) agent tail h k n m t =
    (in_session, in_agent)
  where
    assoc : (s u v : Text) → (s ++ u) ++ v ≡ s ++ (u ++ v)
    assoc [] u v = refl
    assoc (x ∷ s) u v = ap (λ t. x ∷ t) (assoc s u v)

    in_session : session_of (((c ∷ cs) ++ (text ":p:" ++ agent)) ++ tail) ≡ some (c ∷ cs)
    in_session =
        ap session_of (assoc (c ∷ cs) (text ":p:" ++ agent) tail)
        ∙ (session_of-append c cs (text "p:" ++ (agent ++ tail)) h)

    nonempty_agent : (agent ≢ []) → (agent == []) ≡ false
    nonempty_agent m = ground (arith, text_eq_iff agent [])

    rest_of :
        cut_prefix
          (text ":p:")
          (drop (length (c ∷ cs)) (((c ∷ cs) ++ (text ":p:" ++ agent)) ++ tail))
        ≡ some (agent ++ tail)
    rest_of =
        ap (λ t. cut_prefix (text ":p:") (drop (length (c ∷ cs)) t))
          (assoc (c ∷ cs) (text ":p:" ++ agent) tail)
        ∙ ap (cut_prefix (text ":p:")) (drop-append (c ∷ cs) (text ":p:" ++ (agent ++ tail)))

    named : agent_in (some (c ∷ cs)) (some (agent ++ tail)) ≡ some agent
    named = rw (agent_in, before_colon-append agent tail k t, nonempty_agent m) refl

    in_agent : participant_of_workflow (((c ∷ cs) ++ (text ":p:" ++ agent)) ++ tail) ≡ some agent
    in_agent =
        ap
          (λ o. agent_in o (
            cut_prefix (text ":p:")
              (drop (session_length o) (((c ∷ cs) ++ (text ":p:" ++ agent)) ++ tail))))
          in_session
        ∙ ap (agent_in (some (c ∷ cs))) rest_of
        ∙ named
