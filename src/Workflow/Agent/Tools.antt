-- ===== src/Workflow/Agent/Tools.antt =====
-- workflow/agent.go, activity/background.go, tool/metadata.go: what a turn's call of a tool gives the tool.
pub mod Context
pub mod Truncation
use temporal_agent.Common.{
  take, drop, back_up, ℕ, ◌+◌, ◌-◌, ◌*◌, ◌/◌, max, ◌⊎◌, inl, inr, Bool, true, false, not, ◌&&◌,
  ◌||◌, Option, none, some, List, [], ◌∷◌, ◌++◌, ltb, leb, if◌then◌else◌, length, any, all, select,
  In, ◌==◌, contains, Text, text, text_equality, number_equality, lookup, put, delete,
}
use temporal_agent.Store.Decimal.{decimal}
use temporal_agent.Workflow.Ids.{cut_prefix}
use temporal_agent.Workflow.Agent.Json.{Json}
use temporal_agent.Workflow.Agent.Inputs.{
  AgentInput, AgentOutput, CallContext, Resolution, ChildInput, sub_agent, raw_input, TurnRef,
}
use temporal_agent.Workflow.Agent.Choice.{machine_required, machines_off_message}
use temporal_agent.Workflow.Agent.{ChildResult}

-- bytes.Contains
unfoldable pub contains_bytes : Text → Text → Bool
unfolding cut_prefix
contains_bytes mark [] = starts (cut_prefix mark [])
  where
    starts : Option Text → Bool
    starts none = false
    starts (some rest) = true
contains_bytes mark (c ∷ s) = starts (cut_prefix mark (c ∷ s)) || contains_bytes mark s
  where
    starts : Option Text → Bool
    starts none = false
    starts (some rest) = true

abbrev pub background_field : Text
background_field = text "background"

unfoldable pub asked_background :
    Json → Text → List (Text × Text) → Option Text → Text ⊎ (Text × Bool)
asked_background json input fields none = inr (input, false)
asked_background json input fields (some raw) = read (json.boolean raw)
  where
    read : Option Bool → Text ⊎ (Text × Bool)
    read none = inl (background_field ++ text " must be true or false")
    read (some background) = inr (json.object (delete background_field fields), background)

-- Takes the field out of a call's input: the input that the tool reads, and whether the model asked for it.
unfoldable pub take_background : Json → Text → Text ⊎ (Text × Bool)
unfolding contains_bytes asked_background
take_background json input =
    if not (contains_bytes (text "\"background\"") input)
    then inr (input, false)
    else read (json.fields input)
  where
    read : Option (Option (List (Text × Text))) → Text ⊎ (Text × Bool)
    read none = inr (input, false)
    read (some none) = inr (input, false)
    read (some (some fields)) = asked_background json input fields (lookup background_field fields)

-- The keys that its fields decode from: its JSON names.
abbrev pub call_context_keys : List Text
call_context_keys =
    text "agent_chain"
    ∷ text "channel"
    ∷ text "channel_id"
    ∷ text "agent"
    ∷ text "notify_queue"
    ∷ text "memory_version"
    ∷ text "memory_unread"
    ∷ text "turn"
    ∷ text "call_id"
    ∷ text "user_id"
    ∷ text "run_skills"
    ∷ []

unfoldable pub is_call_context_key : Json → Text → Bool
is_call_context_key json key = any (json.equal_fold key) call_context_keys

-- `for k, v := range ccFields { fields[k] = v }`
unfoldable pub put_all : List (Text × Text) → List (Text × Text) → List (Text × Text)
put_all [] fields = fields
put_all ((k, v) ∷ more) fields = put k v (put_all more fields)

-- The input's own fields but those that a context's field decodes from, and the context's.
unfoldable pub merge_context : Json → CallContext → List (Text × Text) → List (Text × Text)
unfolding is_call_context_key put_all
merge_context json cc fields =
    put_all (json.context_fields cc)
      (select (λ field. not (is_call_context_key json field.0)) fields)

unfoldable pub with_call_context : Json → Text → CallContext → Text ⊎ Text
unfolding merge_context
with_call_context json input cc = read (json.fields input)
  where
    read : Option (Option (List (Text × Text))) → Text ⊎ Text
    read none = inl (text "invalid input: " ++ json.complaint input)
    read (some none) = inr (json.object (merge_context json cc []))
    read (some (some fields)) = inr (json.object (merge_context json cc fields))

unfoldable pub display_input : Bool → Text → Text
display_input private input = if private then text "{\"content\":\"(private)\"}" else input

unfoldable pub call_key : Text → ℕ → ℕ → Text
unfolding decimal
call_key call_id iteration index =
    if call_id == [] then decimal iteration ++ (text "-" ++ decimal index) else call_id

unfoldable pub child_workflow_id : Text → Text → Text → ℕ → ℕ → Text
unfolding call_key
child_workflow_id parent tool call_id iteration index =
    parent ++ (text ":tool:" ++ (tool ++ (text ":" ++ call_key call_id iteration index)))

unfoldable pub background_task_id : Text → Text → Text
background_task_id turn call_id = turn ++ (text ":bg:" ++ call_id)

-- The context of a run's calls, but the call's own ID.
unfoldable pub call_context : AgentInput → List Text → Text → Text → CallContext
call_context input chain signer queue = record {
  agent_chain = chain;
  channel = input.channel;
  channel_id = input.channel_id;
  agent = signer;
  notify_queue = queue;
  memory_version = none;
  memory_unread = false;
  turn =
      if not (input.turn_key == [])
      then some (record { session_id = input.session_id; turn_key = input.turn_key })
      else input.session_turn;
  call_id = [];
  user_id = input.user_id;
  run_skills = [];
}

abbrev pub max_delegation_depth : ℕ
max_delegation_depth = 3

-- strings.Join
unfoldable pub join_texts : Text → List Text → Text
join_texts mark [] = []
join_texts mark (t ∷ []) = t
join_texts mark (t ∷ (u ∷ ts)) = t ++ (mark ++ join_texts mark (u ∷ ts))

unfoldable pub delegation_refusal : Json → List Text → Text → Option Text
unfolding join_texts decimal
delegation_refusal json chain agent =
    if contains chain agent
    then some (
        text "agent "
        ++ (json.go_quote agent
            ++ (text " is already in the call chain ("
                ++ (join_texts (text " → ") chain
                    ++ text "): delegating to it would loop; answer with what you have"))))
    else if ltb max_delegation_depth (length chain)
    then some (
        text "sub-agents are limited to "
        ++ (decimal max_delegation_depth ++ text " levels: do the work in this turn"))
    else none

-- A workflow tool's child: the workflow, its input, and the queue it runs on.
pub record Child : Type 0 where
  pub workflow : Text
  pub input : ChildInput
  pub queue : Text

unfoldable pub sub_agent_of :
    AgentInput → Text → Resolution → CallContext → Text × Text → AgentInput
sub_agent_of parent child_id res call (task, model) = record {
  session_id = child_id;
  user_id = parent.user_id;
  user_name = [];
  agent_id = res.agent_id;
  user_message = task;
  system_prompt = [];
  model = if model == [] then parent.model else model;
  turn_key = [];
  earlier_turns = [];
  load_user_memory = false;
  agent_chain = call.agent_chain;
  channel = parent.channel;
  channel_id = parent.channel_id;
  session_turn = call.turn;
  part_note = [];
  sign_reply = parent.sign_reply;
  llm_machine = parent.llm_machine;
  llm_excluded = parent.llm_excluded;
  call_prefix = call.call_id ++ text "/";
}

unfoldable pub sub_agent_input :
    Json → Text → AgentInput → Text → Resolution → CallContext → Text → Text → Text ⊎ Child
unfolding sub_agent_of
sub_agent_input json raw parent child_id res call current queue = read (json.task_call raw)
  where
    read : Option (Text × Text) → Text ⊎ Child
    read none = inl (text "invalid input: " ++ json.complaint raw)
    read (some (task, model)) =
        if json.trim_space task == []
        then inl (text "task is required: describe what the agent should do")
        else if res.agent_id == current
        then inl (text "an agent cannot delegate to itself: do the work in this turn")
        else inr (record {
          workflow = text "AgentWorkflow";
          input = sub_agent (sub_agent_of parent child_id res call (task, model));
          queue = queue;
        })

unfoldable pub build_child_input :
    Json → Text → AgentInput → Text → Resolution → CallContext → Text → Text → Text ⊎ Child
unfolding sub_agent_input with_call_context
build_child_input json raw parent child_id res call current queue =
    if not (res.agent_id == [])
    then sub_agent_input json raw parent child_id res call current queue
    else if res.needs_call_context
    then given (with_call_context json raw call)
    else inr
        (record { workflow = res.workflow_name; input = raw_input raw; queue = res.task_queue })
  where
    given : Text ⊎ Text → Text ⊎ Child
    given (inl refused) = inl refused
    given (inr input) =
        inr
          (record { workflow = res.workflow_name; input = raw_input input; queue = res.task_queue })
