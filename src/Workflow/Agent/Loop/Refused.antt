-- ===== src/Workflow/Agent/Loop/Refused.antt =====
-- workflow/agent.go: the turn of an agent that is closed to its user.
use temporal_agent.Common.{
  ◌≡◌, refl, ap, ◌≢◌, inl, inr, true, false, ◌||◌, [], ◌∷◌, eqb, Bool-cases, length, ◌==◌, Text,
  text, text_eq_iff, text_equality, number_equality,
}
use temporal_agent.Workflow.Agent.Json.{Json}
use temporal_agent.Workflow.Agent.Inputs.{AgentInput, AgentOutput}
use temporal_agent.Workflow.Agent.Loop.{
  with_tools, with_skills, first_messages, fresh_run, refused_output, agent_workflow,
}
use temporal_agent.Workflow.Agent.{
  SkillsOutput, ToolsOutput, load_skills, list_tools, AgentEnvironment, AgentRun, ask, flush,
  pending,
}

flush-idle :
    (env : AgentEnvironment) (input : AgentInput) (s : AgentRun)
    → ((input.turn_key == []) || eqb (length (pending s)) 0) ≡ true
    → flush env input s ≡ s
unfolding flush
flush-idle env input s e = rw e refl

-- A run has nothing to write before it starts: its task is kept for a run that writes nothing.
nothing-pending :
    (json : Json) (input : AgentInput)
    → ((input.turn_key == []) || eqb (length (pending (fresh_run (first_messages json input)))) 0)
      ≡ true
unfolding first_messages
nothing-pending json input = elim (Bool-cases (input.turn_key == [])) [
  | inl e ↦ rw e refl
  | inr e ↦ rw e refl
]

is_empty-false : (t : Text) → t ≢ [] → (t == []) ≡ false
is_empty-false t h = elim (Bool-cases (t == [])) [
  | inl e ↦ absurd (h ((text_eq_iff t []).0 e))
  | inr e ↦ e
]

with_tools-refused :
    (json : Json) (env : AgentEnvironment) (input : AgentInput) (skills : SkillsOutput)
    (list : ToolsOutput) (s : AgentRun)
    → list.refused ≢ []
    → with_tools json env input skills (inr list) s ≡ (s, inr (refused_output input skills))
unfolding with_tools
with_tools-refused json env input skills list s h = rw (is_empty-false list.refused h) refl

module _ (json : Json) (env : AgentEnvironment) (input : AgentInput) where
  -- What the run has done once it has its tools.
  listed : AgentRun
  unfolding ask
  listed =
      ask (list_tools input.agent_id input.user_id)
        (ask (load_skills input.agent_id) (fresh_run (first_messages json input)))

  refused-run :
      (skills : SkillsOutput) (list : ToolsOutput)
      → input.agent_id ≢ []
      → env.skills_result (load_skills input.agent_id ∷ []) ≡ inr skills
      → env.tools_result (list_tools input.agent_id input.user_id ∷ load_skills input.agent_id ∷ [])
        ≡ inr list
      → list.refused ≢ []
      → agent_workflow json env input ≡ (listed, inr (refused_output input skills))
  unfolding agent_workflow with_skills ask listed
  refused-run skills list named loads lists refuses = rw (is_empty-false input.agent_id named) (
      rw (flush-idle env input (fresh_run (first_messages json input)) (nothing-pending json input))
        (rw loads (rw lists (with_tools-refused json env input skills list listed refuses))))

-- An agent that is not open to the turn's user: the run asks for the agent's skills and its tools, and nothing else;
-- it returns the refusal, and no message.
pub agent_workflow-refused :
    (json : Json) (env : AgentEnvironment) (input : AgentInput) (skills : SkillsOutput)
    (list : ToolsOutput)
    → input.agent_id ≢ []
    → env.skills_result (load_skills input.agent_id ∷ []) ≡ inr skills
    → env.tools_result (list_tools input.agent_id input.user_id ∷ load_skills input.agent_id ∷ [])
      ≡ inr list
    → list.refused ≢ []
    → (output : AgentOutput) × ((agent_workflow json env input).1 ≡ inr output)
      × (output.error_type ≡ text "AgentNotOpen")
      × (output.new_messages ≡ [])
      × ((agent_workflow json env input).0.history
          ≡ list_tools input.agent_id input.user_id ∷ load_skills input.agent_id ∷ [])
unfolding refused_output listed ask
agent_workflow-refused json env input skills list named loads lists refuses =
    let run = refused-run json env input skills list named loads lists refuses in
    (refused_output input skills, ap (λ r. r.1) run, refl, refl, ap (λ r. r.0.history) run)
