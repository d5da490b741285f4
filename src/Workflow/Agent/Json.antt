-- ===== src/Workflow/Agent/Json.antt =====
-- encoding/json on the values that the workflow reads and writes, and the few texts of other libraries: parameters.
use temporal_agent.Common.{Bool, Option, List, Text, text_equality, number_equality}
use temporal_agent.Workflow.Agent.Inputs.{CallContext}

-- `fields` reads an object: `none` is the error, `some none` the value null. `context_fields` are what a call's
-- context marshals to, `task_call` reads a sub-agent's task and model.
pub record Json : Type 0 where
  pub quote : Text → Text
  pub fields : Text → Option (Option (List (Text × Text)))
  pub object : List (Text × Text) → Text
  pub boolean : Text → Option Bool
  pub context_fields : CallContext → List (Text × Text)
  pub task_call : Text → Option (Text × Text)
  -- what it says of an input that is not what it should be
  pub complaint : Text → Text
  -- strings.EqualFold, strings.TrimSpace, fmt's %q
  pub equal_fold : Text → Text → Bool
  pub trim_space : Text → Text
  pub go_quote : Text → Text
  -- activity.TaskSummary, what the members read of a task's input
  pub task_summary : Text → Text
