-- ===== src/Workflow/Task/Samples.antt =====
-- A task whose end is written and wakes its participant.
use temporal_agent.Common.{
  ◌≡◌, refl, ◌↔◌, inl, inr, true, false, none, some, [], ◌∷◌, text, text_equality, number_equality,
}
use temporal_agent.Workflow.Agent.Inputs.{BackgroundTaskInput, raw_input}
use temporal_agent.Workflow.Task.{
  TaskPosted, TaskEnvironment, task_end, post_result, run_tool, background_task,
}
use temporal_agent.Workflow.Task.Wakes.{Wakes, counts, background_task-Wakes}

abbrev sample_posted : TaskPosted
sample_posted = record {
  gone = false;
  message_id = 9;
  wake = true;
  session_id = text "s";
  turn_key = text "m1.ada";
  user_id = text "u";
  user_name = text "Eve";
  channel = text "web";
  channel_id = [];
  session_channel = text "web";
  session_channel_id = [];
  sign_reply = false;
  file = none;
}

-- The relay gives up.
abbrev sample_task : TaskEnvironment
sample_task = record {
  task_id = text "s:p:ada:m1:bg:c1";
  stopped = false;
  child_result =
      inr (record { raw = text "\"ok\""; as_output = none; as_result = some (text "ok", false) });
  post_answer = λ history. inr sample_posted;
  relay_failure = λ history. some (text "timeout");
}

abbrev sample_task_input : BackgroundTaskInput
sample_task_input = record {
  session_id = text "s";
  agent_id = text "ada";
  tool = text "look";
  workflow = text "Look";
  child_id = text "s:p:ada:m1:bg:c1:tool:look:c1";
  task_queue = text "tools";
  input = raw_input (text "{}");
  is_sub_agent = false;
}

given_up-once : (counts (background_task sample_task sample_task_input).0).ends ≡ 1
unfolding background_task
given_up-once = refl

background_task-Wakes_example :
    Wakes 1 (background_task sample_task sample_task_input).0
    × (((background_task sample_task sample_task_input).1 ≡ some []) ↔ (
        sample_task.post_answer
          (post_result (task_end sample_task sample_task_input) ∷ run_tool sample_task_input ∷ [])
        ≡ inl []))
background_task-Wakes_example = background_task-Wakes sample_task sample_task_input []
