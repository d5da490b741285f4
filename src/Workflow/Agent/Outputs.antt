-- ===== src/Workflow/Agent/Outputs.antt =====
-- workflow/agent.go: what a run gives the model, its outputs, and what it tells the members.
use temporal_agent.Common.{
  ℕ, Bool, true, false, not, ◌||◌, Option, none, some, List, [], ◌∷◌, ◌++◌, map, eqb, if◌then◌else◌,
  length, ◌==◌, Text, text, text_equality, number_equality, lookup,
}
use temporal_agent.Store.Decimal.{decimal}
use temporal_agent.Store.Messages.{Message, ToolCall, assistant, blank}
use temporal_agent.Workflow.Agent.Json.{Json}
use temporal_agent.Workflow.Agent.Inputs.{
  AgentInput, AgentOutput, no_output, ActivityError, CallContext, LlmMachine, LlmRequest,
  LlmResponse, TurnRef, Resolution,
}
use temporal_agent.Workflow.Agent.Route.{stamp_answer}
use temporal_agent.Workflow.Agent.Choice.{machine_required}
use temporal_agent.Workflow.Agent.Tools.{call_context, display_input}
use temporal_agent.Workflow.Agent.Results.{context_too_long}
use temporal_agent.Workflow.Agent.{
  AgentEnvironment, AgentRun, SkillsOutput, ToolsOutput, ask, pending, respond, tell_tool_calls,
  tell_files,
}

abbrev pub max_react_iterations : ℕ
max_react_iterations = 50

-- What the run settled before its loop.
pub record Prepared : Type 0 where
  pub json : Json
  pub env : AgentEnvironment
  pub input : AgentInput
  pub agent_name : Text
  pub signed : Text
  pub skills : SkillsOutput
  pub list : ToolsOutput

unfoldable pub cancelled_output : List Message → AgentOutput
cancelled_output messages = record no_output {
  response = text "Agent cancelled.";
  new_messages = messages;
  cancelled = true;
}

unfoldable pub exhausted_output : List Message → AgentOutput
unfolding decimal
exhausted_output messages = record no_output {
  new_messages = messages;
  error =
      text "stopped after "
      ++ (decimal max_react_iterations ++ text " iterations without a final answer");
}

abbrev pub context_too_long_message : Text
context_too_long_message =
    text
      "La conversation est trop longue pour le modèle : forke-la à partir d'un message récent pour repartir d'un résumé."

unfoldable pub llm_failure : ActivityError → Text
llm_failure err =
    if err.type == context_too_long
    then context_too_long_message
    else if err.type == machine_required
    then err.message
    else text "call LLM: " ++ err.message

unfoldable pub failure_output : ActivityError → List Message → AgentOutput
unfolding llm_failure
failure_output err messages = record no_output {
  new_messages = messages;
  error = llm_failure err;
  error_type = err.type;
}

unfoldable pub agent_not_open_message : Text → Text → Text
agent_not_open_message agent name =
    if name == []
    then text "L'agent "
      ++ (agent ++ text " ne t'est pas ouvert : un admin peut t'en donner l'accès.")
    else text "L'agent "
      ++ (agent
          ++ (text " n'est pas ouvert à "
              ++ (name ++ text " : un admin peut lui en donner l'accès.")))

unfoldable pub llm_request : Prepared → AgentRun → LlmRequest
llm_request p s = record {
  model = p.input.model;
  agent_id = p.input.agent_id;
  user_id = p.input.user_id;
  tools = p.list.tools;
  prompt = record {
    override = p.input.system_prompt;
    user_name = p.input.user_name;
    part_note = p.input.part_note;
    memory_of =
        if not (p.input.turn_key == []) || p.input.load_user_memory then p.input.user_id else [];
    closed = p.list.closed;
  };
  messages = if p.input.turn_key == [] then s.turn else [];
  history =
      if p.input.turn_key == []
      then none
      else some (record {
        session_id = p.input.session_id;
        earlier_turns = p.input.earlier_turns;
        turn_key = p.input.turn_key;
        tail = pending s;
        tail_start = s.persisted;
      });
}

-- "" off a session's own turn: a sub-agent's answer is for its parent.
unfoldable pub to_channel : AgentInput → Text → Text
to_channel input t = if input.turn_key == [] then [] else t

unfoldable pub notify_response : Prepared → Text → AgentRun → AgentRun
unfolding ask to_channel
notify_response p content = ask (
    respond p.input.session_id (to_channel p.input p.input.channel)
      (to_channel p.input p.input.channel_id) p.signed content)

unfoldable pub is_private : Option Resolution → Bool
is_private none = false
is_private (some res) = res.private_input

unfoldable pub notify_tool_calls : Prepared → List ToolCall → AgentRun → AgentRun
unfolding ask to_channel display_input is_private
notify_tool_calls p calls = ask (
    tell_tool_calls p.input.session_id (to_channel p.input p.input.channel)
      (to_channel p.input p.input.channel_id) (map shown calls))
  where
    shown : ToolCall → ToolCall
    shown tc = record tc {
      input = display_input (is_private (lookup tc.name p.list.resolutions)) tc.input;
    }

unfoldable pub notify_files : Prepared → Option TurnRef → List Text → AgentRun → AgentRun
unfolding ask
notify_files p none files s = s
notify_files p (some turn) files s =
    if eqb (length files) 0 then s else ask (tell_files turn p.input.agent_id files) s

-- What the model wrote, as a message of the turn.
unfoldable pub answer_message : Prepared → LlmResponse → Option LlmMachine → Message
unfolding stamp_answer
answer_message p response on = stamp_answer response on (record (blank assistant) {
  content = if response.content == [] then [] else p.json.quote response.content;
  tool_calls = response.tool_calls;
  user_id = p.input.user_id;
  agent_id = p.input.agent_id;
  author = p.agent_name;
})

unfoldable pub run_context : Prepared → LlmResponse → CallContext
unfolding call_context
run_context p response =
    record (call_context p.input (p.input.agent_chain ++ (p.input.agent_id ∷ [])) p.signed
      p.env.task_queue) {
        run_skills = p.skills.run_skills;
        memory_version = response.memory_version;
        memory_unread = response.memory_unread;
      }
