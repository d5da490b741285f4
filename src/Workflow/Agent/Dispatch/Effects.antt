-- ===== src/Workflow/Agent/Dispatch/Effects.antt =====
-- workflow/agent.go, workflow/background.go: starting the calls of an answer and waiting for them writes no message and
-- asks no model; the results come in the order of the calls, one each.
use temporal_agent.Common.{
  ℕ, suc, refl, ◌⊎◌, inl, inr, Bool, true, false, not, ◌&&◌, Option, none, some, List, [], ◌∷◌,
  if◌then◌else◌, ◌==◌, Text, text_equality, number_equality, lookup,
}
use temporal_agent.Store.Messages.{ToolCall}
use temporal_agent.Workflow.Agent.Inputs.{ActivityError, Resolution}
use temporal_agent.Workflow.Agent.Quiet.{Quiet, told}
use temporal_agent.Workflow.Agent.Tools.{Child}
use temporal_agent.Workflow.Agent.Background.{
  BackgroundStart, registered, launch, runs, start_settled, await_start,
}
use temporal_agent.Workflow.Agent.Dispatch.{
  Calls, ToolDispatch, unavailable, in_background, in_child, in_activity, start_activity, launched,
  start_built, with_child, start_workflow, start_call, start_taken, start_allowed, runs_workflow,
  dispatch, dispatch_all,
}
use temporal_agent.Workflow.Agent.Collect.{collect_one, collect}
use temporal_agent.Workflow.Agent.{
  AgentEnvironment, AgentRun, CallResult, call_failed, tool_returned, child_returned, task_started,
  ask, start_tool, start_child, await_call, register_task, start_task, drop_task, tell_task_started,
}

pair-Quiet :
    {n : ℕ} {s : AgentRun} {A : Type 0} (b : Bool) (p q : AgentRun × A)
    → Quiet n s p.0
    → Quiet n s q.0
    → Quiet n s (if b then p else q).0
pair-Quiet true p q h k = h
pair-Quiet false p q h k = k

module _ {n : ℕ} {s t : AgentRun} where
  registered-Quiet :
      (env : AgentEnvironment) (start : BackgroundStart) (answer : ActivityError ⊎ Text)
      → Quiet n s t
      → Quiet n s (registered env start answer t).0
  unfolding registered ask
  registered-Quiet env start (inl err) q = q
  registered-Quiet env start (inr refused) q =
      pair-Quiet (not (refused == [])) _ _ q (told (start_task _ _ _) refl q)

  start_settled-Quiet :
      (start : BackgroundStart) (result : CallResult)
      → Quiet n s t
      → Quiet n s (start_settled start result t).0
  unfolding start_settled runs ask
  start_settled-Quiet start (call_failed err) q = told (drop_task start.task.id) refl q
  start_settled-Quiet start (tool_returned out) q = told (tell_task_started _ _ _) refl q
  start_settled-Quiet start (child_returned out) q = told (tell_task_started _ _ _) refl q
  start_settled-Quiet start task_started q = told (tell_task_started _ _ _) refl q

  start_activity-Quiet :
      (c : Calls) (tc : ToolCall) (place : ℕ) (res : Resolution) (tool_input : Text)
      → Quiet n s t
      → Quiet n s (start_activity c tc place res tool_input t).0
  unfolding start_activity ask
  start_activity-Quiet c tc place res tool_input q = told (start_tool _ _ _) refl q

launched-Quiet :
    {n : ℕ} {s : AgentRun} (start : BackgroundStart) (r : AgentRun × Option Text)
    → Quiet n s r.0
    → Quiet n s (launched start r).0
unfolding launched
launched-Quiet start (u, none) q = q
launched-Quiet start (u, some refused) q = q

module _ {n : ℕ} {s t : AgentRun} where
  launch-Quiet :
      (env : AgentEnvironment) (start : BackgroundStart)
      → Quiet n s t
      → Quiet n s (launch env start t).0
  unfolding launch ask
  launch-Quiet env start q =
      registered-Quiet env start (env.register_result _) (told (register_task start.task) refl q)

  await_start-Quiet :
      (env : AgentEnvironment) (place : ℕ) (start : BackgroundStart)
      → Quiet n s t
      → Quiet n s (await_start env place start t).0
  unfolding await_start ask
  await_start-Quiet env place start q =
      start_settled-Quiet start (env.call_result _) (told (await_call place) refl q)

  module _ (c : Calls) (tc : ToolCall) (place : ℕ) (res : Resolution) where
    start_built-Quiet :
        (background : Bool) (tool_input : Text) (child : Child) (refused : Option Text)
        → Quiet n s t
        → Quiet n s (start_built c tc place res background tool_input child refused t).0
    unfolding start_built ask
    start_built-Quiet background tool_input child (some refused) q = q
    start_built-Quiet background tool_input child none q =
        pair-Quiet background _ _ (launched-Quiet _ _ (launch-Quiet c.env _ q))
          (told (start_child _ _ _ _) refl q)

    with_child-Quiet :
        (background : Bool) (tool_input : Text) (built : Text ⊎ Child)
        → Quiet n s t
        → Quiet n s (with_child c tc place res background tool_input built t).0
    unfolding with_child
    with_child-Quiet background tool_input (inl refused) q = q
    with_child-Quiet background tool_input (inr child) q =
        start_built-Quiet background tool_input child _ q

    start_call-Quiet :
        (background : Bool) (tool_input : Text)
        → Quiet n s t
        → Quiet n s (start_call c tc place res background tool_input t).0
    unfolding start_call start_workflow
    start_call-Quiet background tool_input q =
        pair-Quiet (runs_workflow res.kind) _ _ (with_child-Quiet background tool_input _ q)
          (start_activity-Quiet c tc place res tool_input q)

    start_taken-Quiet :
        (taken : Text ⊎ (Text × Bool))
        → Quiet n s t
        → Quiet n s (start_taken c tc place res taken t).0
    unfolding start_taken
    start_taken-Quiet (inl refused) q = q
    start_taken-Quiet (inr (tool_input, background)) q =
        pair-Quiet (background && (c.input.turn_key == [])) _ _ q
          (start_call-Quiet background tool_input q)

  start_allowed-Quiet :
      (c : Calls) (tc : ToolCall) (place : ℕ) (res : Option Resolution)
      → Quiet n s t
      → Quiet n s (start_allowed c tc place res t).0
  unfolding start_allowed
  start_allowed-Quiet c tc place none q = q
  start_allowed-Quiet c tc place (some res) q =
      pair-Quiet res.background _ _ (start_taken-Quiet c tc place res _ q)
        (start_call-Quiet c tc place res false tc.input q)

  collect_one-Quiet :
      (c : Calls) (tc : ToolCall) (d : ToolDispatch) (place : ℕ)
      → Quiet n s t
      → Quiet n s (collect_one c tc d place t).0
  unfolding collect_one ask
  collect_one-Quiet c tc (unavailable why) place q = q
  collect_one-Quiet c tc (in_background start) place q = await_start-Quiet c.env place start q
  collect_one-Quiet c tc (in_child is_agent) place q = told (await_call place) refl q
  collect_one-Quiet c tc (in_activity queue) place q = told (await_call place) refl q

pub dispatch_all-Quiet :
    {n : ℕ} {s : AgentRun} (c : Calls) (tcs : List ToolCall) (place : ℕ) (t : AgentRun)
    → Quiet n s t
    → Quiet n s (dispatch_all c tcs place t).0
unfolding dispatch_all dispatch
dispatch_all-Quiet c [] place t q = q
dispatch_all-Quiet c (tc ∷ tcs) place t q =
    dispatch_all-Quiet c tcs (suc place) (dispatch c tc place t).0
      (start_allowed-Quiet c tc place (lookup tc.name c.resolutions) q)

pub collect-Quiet :
    {n : ℕ} {s : AgentRun} (c : Calls) (ds : List (ToolCall × ToolDispatch)) (place : ℕ)
    (t : AgentRun)
    → Quiet n s t
    → Quiet n s (collect c ds place t).0
unfolding collect
collect-Quiet c [] place t q = q
collect-Quiet c ((tc, d) ∷ ds) place t q =
    collect-Quiet c ds (suc place) (collect_one c tc d place t).0 (collect_one-Quiet c tc d place q)
