-- ===== src/Workflow/Agent/Dispatch/Delegation.antt =====
-- workflow/agent.go: the delegations that are refused, to an agent that is already calling or too deep.
use temporal_agent.Common.{
  ℕ, ◌<◌, ◌≡◌, refl, ◌≢◌, ◌⊎◌, inl, inr, Bool, true, false, ◌&&◌, none, some, List, [], arith, ltb,
  if◌then◌else◌, ltb_iff, Bool-cases, length, ◌==◌, contains, Text, text_eq_iff, text_equality,
  number_equality, lookup,
}
use temporal_agent.Store.Messages.{ToolCall}
use temporal_agent.Workflow.Agent.Json.{Json}
use temporal_agent.Workflow.Agent.Inputs.{Resolution}
use temporal_agent.Workflow.Agent.Tools.{Child, delegation_refusal, take_background}
use temporal_agent.Workflow.Agent.Dispatch.{
  Calls, ToolDispatch, unavailable, start_built, with_child, start_workflow, start_call,
  start_taken, start_allowed, dispatch, runs_workflow, is_agent_tool,
}
use temporal_agent.Workflow.Agent.{AgentRun}

-- The call came to nothing but an error for the model.
abbrev Refused : AgentRun → AgentRun × ToolDispatch → Type 0
Refused s r = (why : Text) × (r ≡ (s, unavailable why))

Refused-if :
    (s : AgentRun) (b : Bool) (p q : AgentRun × ToolDispatch)
    → Refused s p
    → Refused s q
    → Refused s (if b then p else q)
Refused-if s true p q h k = h
Refused-if s false p q h k = k

Refused-then :
    (s : AgentRun) (b : Bool) (p q : AgentRun × ToolDispatch)
    → b ≡ true
    → Refused s p
    → Refused s (if b then p else q)
Refused-then s true p q e h = h
Refused-then s false p q e h = absurd (ground (arith, e))

some-either :
    (b c : Bool) (x y : Text)
    → (b ≡ true) ⊎ (c ≡ true)
    → (why : Text) × ((if b then some x else if c then some y else none) ≡ some why)
some-either true c x y h = (x, refl)
some-either false true x y h = (y, refl)
some-either false false x y h = absurd (ground (arith, h))

delegation-refused :
    (json : Json) (chain : List Text) (agent : Text)
    → (contains chain agent ≡ true) ⊎ (3 < length chain)
    → (why : Text) × (delegation_refusal json chain agent ≡ some why)
unfolding delegation_refusal
delegation-refused json chain agent h =
    some-either (contains chain agent) (ltb 3 (length chain)) _ _ (tested h)
  where
    tested :
        (contains chain agent ≡ true) ⊎ (3 < length chain)
        → (contains chain agent ≡ true) ⊎ (ltb 3 (length chain) ≡ true)
    tested (inl c) = inl c
    tested (inr d) = inr ((ltb_iff 3 (length chain)).1 d)

is_agent_tool-true : (res : Resolution) → res.agent_id ≢ [] → is_agent_tool res ≡ true
unfolding is_agent_tool
is_agent_tool-true res h = elim (Bool-cases (res.agent_id == [])) [
  | inl e ↦ absurd (h ((text_eq_iff res.agent_id []).0 e))
  | inr e ↦ rw e refl
]

module _ (c : Calls) (tc : ToolCall) (place : ℕ) (res : Resolution) (s : AgentRun)
    (named : res.agent_id ≢ [])
    (looping : (contains c.chain res.agent_id ≡ true) ⊎ (3 < length c.chain)) where
  with_child-Refused :
      (background : Bool) (tool_input : Text) (built : Text ⊎ Child)
      → Refused s (with_child c tc place res background tool_input built s)
  unfolding with_child start_built
  with_child-Refused background tool_input (inl refused) = (refused, refl)
  with_child-Refused background tool_input (inr child) =
      let (why, e) = delegation-refused c.json c.chain res.agent_id looping in
      (why, rw (is_agent_tool-true res named) (rw e refl))

  start_call-Refused :
      (background : Bool) (tool_input : Text)
      → runs_workflow res.kind ≡ true
      → Refused s (start_call c tc place res background tool_input s)
  unfolding start_call start_workflow
  start_call-Refused background tool_input workflow =
      Refused-then s (runs_workflow res.kind) _ _ workflow
        (with_child-Refused background tool_input _)

  start_taken-Refused :
      (taken : Text ⊎ (Text × Bool))
      → runs_workflow res.kind ≡ true
      → Refused s (start_taken c tc place res taken s)
  unfolding start_taken
  start_taken-Refused (inl refused) workflow = (refused, refl)
  start_taken-Refused (inr (tool_input, background)) workflow =
      Refused-if s (background && (c.input.turn_key == [])) _ _ (_, refl)
        (start_call-Refused background tool_input workflow)

-- A call of a sub-agent that is already in the chain of the agents calling, or that four agents call already, starts
-- nothing, in the background or not: the run is as it was, and the model reads an error.
pub dispatch-delegation :
    (c : Calls) (tc : ToolCall) (place : ℕ) (res : Resolution) (s : AgentRun)
    → lookup tc.name c.resolutions ≡ some res
    → runs_workflow res.kind ≡ true
    → res.agent_id ≢ []
    → (contains c.chain res.agent_id ≡ true) ⊎ (3 < length c.chain)
    → (why : Text) × (dispatch c tc place s ≡ (s, unavailable why))
unfolding dispatch start_allowed
dispatch-delegation c tc place res s resolved workflow named looping =
    let (why, e) =
      Refused-if s res.background _ _
        (start_taken-Refused c tc place res s named looping (take_background c.json tc.input)
          workflow)
        (start_call-Refused c tc place res s named looping false tc.input workflow) in
    (why, rw resolved e)
