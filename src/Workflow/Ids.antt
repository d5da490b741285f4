-- ===== src/Workflow/Ids.antt =====
-- workflow/participant.go: the IDs of the workflows of a session, and what they belong to.
pub mod Belonging
use temporal_agent.Common.{
  ℕ, zero, suc, ◌+◌, ◌-◌, ◌/◌, not, Option, none, some, [], ◌∷◌, ◌++◌, eqb, if◌then◌else◌, length,
  all, ◌==◌, Text, text, text_eq, text_equality, number_equality,
}
use temporal_agent.Store.Decimal.{decimal}
use temporal_agent.Store.Keys.Cuts.{cut}

abbrev pub colon : ℕ
colon = 58

unfoldable pub participant_workflow_id : Text → Text → Text
participant_workflow_id session agent = session ++ (text ":p:" ++ agent)

unfoldable pub turn_workflow_id : Text → ℕ → Text
unfolding decimal
turn_workflow_id participant message = participant ++ (text ":m" ++ decimal message)

-- What precedes the first colon; `none` when there is none, or nothing precedes it.
unfoldable pub session_of : Text → Option Text
unfolding cut
session_of id = nonempty (cut colon id)
  where
    nonempty : Option (Text × Text) → Option Text
    nonempty none = none
    nonempty (some ([], rest)) = none
    nonempty (some (c ∷ cs, rest)) = some (c ∷ cs)

unfoldable pub session_length : Option Text → ℕ
session_length none = 0
session_length (some s) = length s

pub drop : ℕ → Text → Text
drop zero t = t
drop (suc n) [] = []
drop (suc n) (c ∷ cs) = drop n cs

-- strings.CutPrefix.
unfoldable pub cut_prefix : Text → Text → Option Text
cut_prefix [] t = some t
cut_prefix (p ∷ ps) [] = none
cut_prefix (p ∷ ps) (c ∷ cs) = if eqb p c then cut_prefix ps cs else none

-- strings.Cut at a colon: what precedes the first, or all of it.
unfoldable pub before_colon : Text → Text
unfolding cut
before_colon t = first (cut colon t)
  where
    first : Option (Text × Text) → Text
    first none = t
    first (some (before, after)) = before

agent_in : Option Text → Option Text → Option Text
unfolding before_colon
agent_in none rest = none
agent_in (some s) none = none
agent_in (some s) (some rest) = if before_colon rest == [] then none else some (before_colon rest)

unfoldable pub participant_of_workflow : Text → Option Text
unfolding session_of session_length drop cut_prefix agent_in
participant_of_workflow id =
    agent_in (session_of id) (cut_prefix (text ":p:") (drop (session_length (session_of id)) id))
