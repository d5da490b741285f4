-- ===== src/Workflow/Agent/Loop/Outcomes.antt =====
-- workflow/agent.go: a whole run: the transcript it returns, what it writes, and how often it asks the model.
use temporal_agent.Common.{
  ◌≤◌, ◌≡◌, refl, sym, subst, ◌⊎◌, inl, inr, Bool, true, false, not, List, [], ◌∷◌, ◌++◌, arith,
  if◌then◌else◌, All, ◌==◌, Text, text, text_equality, number_equality,
}
use temporal_agent.Store.Messages.{Message, user, blank}
use temporal_agent.Workflow.Agent.Json.{Json}
use temporal_agent.Workflow.Agent.Inputs.{AgentInput, AgentOutput, ActivityError}
use temporal_agent.Workflow.Agent.Quiet.{still, told, model_calls}
use temporal_agent.Workflow.Agent.Loop.{
  prepare, refused_output, load_failed, returned, with_tools, with_skills, first_messages,
  fresh_run, agent_workflow,
}
use temporal_agent.Workflow.Agent.Outputs.{cancelled_output}
use temporal_agent.Workflow.Agent.Loop.Transcript.{Complete, over, said}
use temporal_agent.Workflow.Agent.Loop.Invariant.{Fits, turn-Complete, fresh-Kept}
use temporal_agent.Workflow.Agent.{
  SkillsOutput, ToolsOutput, load_skills, list_tools, AgentEnvironment, AgentRun,
}
use temporal_agent.Workflow.Agent.Loop.Sound.{
  Sound, Sound-quietly, Sound-wider, flush-Sound, Ended, returned-turn, run_prepared-Ended,
}

abbrev ReturnsComplete : Text ⊎ AgentOutput → Type 0
ReturnsComplete (inl why) = Unit {0}
ReturnsComplete (inr output) = Complete [] output.new_messages

-- The run of the whole workflow.
record Over (r : AgentRun × (Text ⊎ AgentOutput)) : Type 0 where
  sound : Sound 600 r.0
  returns : ReturnsComplete r.1

Over-if :
    (b : Bool) (p q : AgentRun × (Text ⊎ AgentOutput)) → Over p → Over q → Over (if b then p else q)
Over-if true p q h k = h
Over-if false p q h k = k

ReturnsComplete-if :
    (b : Bool) (output : AgentOutput) (why : Text)
    → Complete [] output.new_messages
    → ReturnsComplete (if b then inr output else inl why)
ReturnsComplete-if true output why c = c
ReturnsComplete-if false output why c = tt

load_failed-Over :
    (env : AgentEnvironment) (what : Text) (err : ActivityError) (s : AgentRun)
    → Sound 0 s
    → Over (load_failed env what err s)
unfolding load_failed
load_failed-Over env what err s sound = record {
  sound = Sound-wider {m = 0} {n = 600} (omega arith) sound;
  returns =
      ReturnsComplete-if (env.is_cancelled s.history) (cancelled_output s.turn) (what ++ err.shown)
        (cancelled-Complete s sound);
}
  where
    cancelled-Complete :
        (t : AgentRun) → Sound 0 t → Complete [] (cancelled_output t.turn).new_messages
    cancelled-Complete t k =
        subst (λ ms. Complete [] ms) (sym (returned-turn true err t.turn)) (turn-Complete t k.kept)

returned-Over : (r : AgentRun × AgentOutput) → Ended 600 r → Over (returned r)
unfolding returned
returned-Over (s, output) e = record {
  sound = e.sound;
  returns = subst (λ ms. Complete [] ms) (sym e.all_returned) (turn-Complete s e.sound.kept);
}

refused-Complete :
    (input : AgentInput) (skills : SkillsOutput)
    → Complete [] (refused_output input skills).new_messages
unfolding refused_output
refused-Complete input skills = over

with_tools-Over :
    (json : Json) (env : AgentEnvironment) (input : AgentInput) (skills : SkillsOutput)
    (list : ActivityError ⊎ ToolsOutput) (s : AgentRun)
    → Sound 0 s
    → Over (with_tools json env input skills list s)
unfolding with_tools
with_tools-Over json env input skills (inl err) s sound =
    load_failed-Over env (text "list tools: ") err s sound
with_tools-Over json env input skills (inr list) s sound =
    Over-if (not (list.refused == [])) _ _
      (record {
        sound = Sound-wider {m = 0} {n = 600} (omega arith) sound;
        returns = refused-Complete input skills;
      })
      (returned-Over _ (run_prepared-Ended (prepare json env input skills list) s sound))

with_skills-Over :
    (json : Json) (env : AgentEnvironment) (input : AgentInput)
    (skills : ActivityError ⊎ SkillsOutput) (s : AgentRun)
    → Sound 0 s
    → Over (with_skills json env input skills s)
unfolding with_skills
with_skills-Over json env input (inl err) s sound =
    load_failed-Over env (text "load skills: ") err s sound
with_skills-Over json env input (inr skills) s sound =
    with_tools-Over json env input skills _ _
      (Sound-quietly (told (list_tools _ _) refl still) sound)

fresh-Sound : (ms : List Message) → Complete [] ms → Sound 0 (fresh_run ms)
fresh-Sound ms c = record { kept = fresh-Kept (fresh_run ms) refl refl c; calls = omega arith }

first_messages-Complete :
    (json : Json) (input : AgentInput) → Complete [] (first_messages json input)
unfolding first_messages
first_messages-Complete json input = chosen (input.turn_key == [])
  where
    chosen :
        (b : Bool)
        → Complete [] (
            if b
            then record (blank user) {
              content = json.quote input.user_message;
              user_id = input.user_id;
              author = input.user_name;
            }
              ∷ []
            else [])
    chosen true = said refl over
    chosen false = over

agent_workflow-Over :
    (json : Json) (env : AgentEnvironment) (input : AgentInput)
    → Over (agent_workflow json env input)
unfolding agent_workflow
agent_workflow-Over json env input =
    let begun = flush-Sound env input _ (fresh-Sound _ (first_messages-Complete json input)) in
    Over-if (input.agent_id == []) _ _
      (record {
        sound = Sound-wider {m = 0} {n = 600} (omega arith) (fresh-Sound [] over);
        returns = tt;
      })
      (with_skills-Over json env input (env.skills_result _) _
        (Sound-quietly (told (load_skills _) refl still) begun))

-- Whatever the model, the tools and the store answer, the messages that a run returns are a complete transcript: each
-- call of an assistant's message is answered by its own result, in the order of the calls, before anything else.
pub agent_workflow-Complete :
    (json : Json) (env : AgentEnvironment) (input : AgentInput) (output : AgentOutput)
    → (agent_workflow json env input).1 ≡ inr output
    → Complete [] output.new_messages
agent_workflow-Complete json env input output e =
    subst ReturnsComplete e (agent_workflow-Over json env input).returns

-- Each write of a run's messages writes a block of the run's turn at its place, so that what precedes it in the turn
-- and the block itself are complete transcripts: no stored call lacks its result.
pub agent_workflow-writes :
    (json : Json) (env : AgentEnvironment) (input : AgentInput)
    → let run = (agent_workflow json env input).0 in All (Fits run.turn) run.history
agent_workflow-writes json env input = (agent_workflow-Over json env input).sound.kept.each_fits

-- A run calls the model 600 times at most, the attempts that Temporal makes again included: each of 50 iterations makes 6 on
-- machines and then 6 with the server's key at most.
pub model_calls-agent_workflow :
    (json : Json) (env : AgentEnvironment) (input : AgentInput)
    → model_calls (agent_workflow json env input).0.history ≤ 600
model_calls-agent_workflow json env input = (agent_workflow-Over json env input).sound.calls
