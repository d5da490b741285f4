-- ===== src/Workflow/Agent/Loop/Sound.antt =====
-- workflow/agent.go: the steps of the loop keep the transcript, and count the calls of the model.
use temporal_agent.Common.{
  ℕ, zero, suc, ◌+◌, ◌-◌, ◌*◌, ◌≤◌, ◌≡◌, refl, sym, ◌∙◌, inl, inr, Bool, true, false, Option, none,
  some, List, [], ◌∷◌, arith, eqb, if◌then◌else◌, eqb_iff, Bool-cases, length, ◌==◌, Text,
  text_equality, number_equality,
}
use temporal_agent.Store.Messages.{Message, ToolCall}
use temporal_agent.Workflow.Agent.Inputs.{
  AgentInput, AgentOutput, ActivityError, LlmMachine, LlmResponse, TurnRef,
}
use temporal_agent.Workflow.Agent.Quiet.{
  Quiet, still, told, asked_model, rerouted, wider, Quiet-if, model_calls, model_calls-Quiet,
}
use temporal_agent.Workflow.Agent.Route.{Answered, failed, answered, call}
use temporal_agent.Workflow.Agent.Choice.{start_llm_route}
use temporal_agent.Workflow.Agent.Route.Steps.{call-Quiet, start_llm_route-Quiet, clear_note-Quiet}
use temporal_agent.Workflow.Agent.Dispatch.{dispatch_all}
use temporal_agent.Workflow.Agent.Collect.{collect}
use temporal_agent.Workflow.Agent.Dispatch.Effects.{dispatch_all-Quiet, collect-Quiet}
use temporal_agent.Workflow.Agent.Loop.{
  calls_of, Iterated, finished, goes_on, final_answer, run_tools, answered_step, iterate,
  then_iterate, react, routed, run_prepared,
}
use temporal_agent.Workflow.Agent.Outputs.{
  Prepared, notify_response, notify_tool_calls, notify_files, cancelled_output, failure_output,
  exhausted_output, llm_request, max_react_iterations,
}
use temporal_agent.Workflow.Agent.Loop.Transcript.{call_ids, Complete, over}
use temporal_agent.Workflow.Agent.Loop.Invariant.{
  Kept, Kept-Quiet, produce-Kept, flush-Kept, step-Complete, answer-calls,
}
use temporal_agent.Workflow.Agent.{
  respond, tell_tool_calls, tell_files, AgentEnvironment, AgentRun, ask, produce, flush,
}

-- A run that has kept its transcript with `n` calls of the model at most.
pub record Sound (n : ℕ) (s : AgentRun) : Type 0 where
  pub kept : Kept s
  pub calls : model_calls s.history ≤ n

pub Sound-Quiet : {k n : ℕ} {s t : AgentRun} → Quiet k s t → Sound n s → Sound (n + k) t
Sound-Quiet {k} {n} {s} {t} q sound = record {
  kept = Kept-Quiet q sound.kept;
  calls = omega (arith, model_calls-Quiet q, sound.calls);
}

pub Sound-quietly : {n : ℕ} {s t : AgentRun} → Quiet 0 s t → Sound n s → Sound n t
Sound-quietly {n = n} {s = s} {t = t} q sound = record {
  kept = Kept-Quiet q sound.kept;
  calls = omega (arith, model_calls-Quiet q, sound.calls);
}

pub Sound-wider : {m n : ℕ} {s : AgentRun} → m ≤ n → Sound m s → Sound n s
Sound-wider {m = m} {n = n} {s = s} le sound = record {
  kept = sound.kept;
  calls = omega (arith, le, sound.calls);
}

pub flush-calls :
    (env : AgentEnvironment) (input : AgentInput) (s : AgentRun)
    → model_calls (flush env input s).history ≡ model_calls s.history
unfolding flush ask
flush-calls env input s = ground arith

pub flush-turn :
    (env : AgentEnvironment) (input : AgentInput) (s : AgentRun) → (flush env input s).turn ≡ s.turn
unfolding flush ask
flush-turn env input s = ground arith

pub flush-Sound :
    {n : ℕ} (env : AgentEnvironment) (input : AgentInput) (s : AgentRun)
    → Sound n s
    → Sound n (flush env input s)
flush-Sound {n} env input s sound = record {
  kept = flush-Kept env input s sound.kept;
  calls = rw (flush-calls env input s) sound.calls;
}

pub produce-Sound :
    {n : ℕ} (block : List Message) (s : AgentRun)
    → Complete [] block
    → Sound n s
    → Sound n (produce block s)
unfolding produce
produce-Sound block s c sound = record {
  kept = produce-Kept block s c sound.kept;
  calls = sound.calls;
}

-- A run and the output it ends with, which holds the messages of its turn.
pub record Ended (n : ℕ) (r : AgentRun × AgentOutput) : Type 0 where
  pub sound : Sound n r.0
  pub all_returned : r.1.new_messages ≡ r.0.turn

abbrev pub Goes : ℕ → Iterated → Type 0
Goes n (finished s output) = Ended n (s, output)
Goes n (goes_on s) = Sound n s

pub Goes-if :
    (n : ℕ) (b : Bool) (i j : Iterated) → Goes n i → Goes n j → Goes n (if b then i else j)
Goes-if n true i j h k = h
Goes-if n false i j h k = k

pub notify_files-Quiet :
    {s t : AgentRun} (p : Prepared) (turn : Option TurnRef) (files : List Text)
    → Quiet 0 s t
    → Quiet 0 s (notify_files p turn files t)
unfolding notify_files ask
notify_files-Quiet p none files q = q
notify_files-Quiet p (some turn) files q =
    Quiet-if (eqb (length files) 0) q (told (tell_files turn _ files) refl q)

pub run_tools-Sound :
    {n : ℕ} (p : Prepared) (i : ℕ) (response : LlmResponse) (on : Option LlmMachine) (s : AgentRun)
    → Sound n s
    → Sound n (run_tools p i response on s)
unfolding run_tools notify_tool_calls ask
run_tools-Sound p i response on s sound =
    let c = calls_of p i response in
    let shown = notify_tool_calls p response.tool_calls s in
    let begun = dispatch_all c response.tool_calls 0 shown in
    let quiet : Quiet 0 s (collect c begun.1 0 begun.0).0 = collect-Quiet c begun.1 0 begun.0 (
      dispatch_all-Quiet c response.tool_calls 0 shown
        (told (tell_tool_calls _ _ _ _) refl still)) in
    Sound-quietly (notify_files-Quiet p c.context.turn (collect c begun.1 0 begun.0).1.1 still) (
      flush-Sound p.env p.input _ (
        produce-Sound _ (collect c begun.1 0 begun.0).0 (step-Complete p c response on shown)
          (Sound-quietly quiet sound)))

pub uncalled-Complete : (tcs : List ToolCall) → length tcs ≡ 0 → Complete (call_ids tcs) []
uncalled-Complete [] e = over
uncalled-Complete (tc ∷ tcs) e = absurd (omega (arith, e))

pub Sound-if :
    {n : ℕ} {s t : AgentRun} (b : Bool) → Sound n s → Sound n t → Sound n (if b then s else t)
Sound-if true h k = h
Sound-if false h k = k

pub final_answer-Goes :
    (n : ℕ) (p : Prepared) (response : LlmResponse) (on : Option LlmMachine) (s : AgentRun)
    → length response.tool_calls ≡ 0
    → Sound n s
    → Goes n (final_answer p response on s)
unfolding final_answer notify_response ask
final_answer-Goes n p response on s none_called sound = record {
  sound = Sound-quietly (told (respond _ _ _ _ _) refl still) (
      flush-Sound p.env p.input _ (
        Sound-if (response.content == []) sound (
          produce-Sound _ s
            (answer-calls p response on [] (uncalled-Complete response.tool_calls none_called))
            sound)));
  all_returned = sym (flush-turn p.env p.input _);
}

pub returned-turn :
    (b : Bool) (err : ActivityError) (turn : List Message)
    → (if b then cancelled_output turn else failure_output err turn).new_messages ≡ turn
unfolding cancelled_output failure_output
returned-turn true err turn = refl
returned-turn false err turn = refl

pub answered_step-Goes :
    (n : ℕ) (p : Prepared) (i : ℕ) (r : AgentRun × Answered)
    → Sound n r.0
    → Goes n (answered_step p i r)
unfolding answered_step
answered_step-Goes n p i (t, failed err) sound = record {
  sound = flush-Sound p.env p.input t sound;
  all_returned =
      returned-turn (p.env.is_cancelled (flush p.env p.input t).history) err t.turn
      ∙ sym (flush-turn p.env p.input t);
}
answered_step-Goes n p i (t, answered response on) sound =
    elim (Bool-cases (eqb (length response.tool_calls) 0)) [
      | inl e ↦ rw e (final_answer-Goes n p response on t ((eqb_iff _ 0).0 e) sound)
      | inr e ↦ rw e (run_tools-Sound p i response on t sound)
    ]

pub iterate-Goes :
    (n : ℕ) (p : Prepared) (i : ℕ) (s : AgentRun) → Sound n s → Goes (n + 12) (iterate p i s)
unfolding iterate cancelled_output
iterate-Goes n p i s sound =
    Goes-if (n + 12) (p.env.is_cancelled s.history) _ _
      (record {
        sound = Sound-wider {m = n} {n = n + 12} (omega arith) (flush-Sound p.env p.input s sound);
        all_returned = sym (flush-turn p.env p.input s);
      })
      (answered_step-Goes (n + 12) p i (call p.env p.input.user_id (llm_request p) i s) (
        Sound-Quiet {k = 12} (call-Quiet {n = 0} p.env p.input.user_id (llm_request p) i still)
          sound))

pub then_iterate-Ended :
    {m n : ℕ} (i : Iterated) (next : AgentRun → AgentRun × AgentOutput)
    → Goes m i
    → m ≤ n
    → ((s : AgentRun) → Sound m s → Ended n (next s))
    → Ended n (then_iterate i next)
unfolding then_iterate
then_iterate-Ended (finished s output) next g le goes = record {
  sound = Sound-wider le g.sound;
  all_returned = g.all_returned;
}
then_iterate-Ended (goes_on s) next g le goes = goes s g

pub react-Ended :
    (n : ℕ) (p : Prepared) (left : ℕ) (s : AgentRun)
    → Sound n s
    → Ended (n + 12 * left) (react p left s)
unfolding react exhausted_output
react-Ended n p zero s sound = record {
  sound = Sound-wider {m = n} {n = n + 12 * 0} (omega arith) (flush-Sound p.env p.input s sound);
  all_returned = sym (flush-turn p.env p.input s);
}
react-Ended n p (suc left) s sound =
    then_iterate-Ended {m = n + 12} {n = n + 12 * suc left}
      (iterate p (max_react_iterations - suc left) s) _
      (iterate-Goes n p (max_react_iterations - suc left) s sound) (omega arith)
      (λ (t : AgentRun) (g : Sound (n + 12) t).
        let goes_on : Ended (n + 12 + 12 * left) (react p left t) =
          react-Ended (n + 12) p left t g in
        record {
          sound =
              Sound-wider {m = n + 12 + 12 * left} {n = n + 12 * suc left} (omega arith)
                goes_on.sound;
          all_returned = goes_on.all_returned;
        })

pub Ended-if :
    {n : ℕ} (b : Bool) (p q : AgentRun × AgentOutput)
    → Ended n p
    → Ended n q
    → Ended n (if b then p else q)
Ended-if true p q h k = h
Ended-if false p q h k = k

-- Such steps leave the turn as it is.
pub turn-Quiet : {n : ℕ} {s t : AgentRun} → Quiet n s t → t.turn ≡ s.turn
unfolding ask
turn-Quiet still = refl
turn-Quiet (told e plain q) = turn-Quiet q
turn-Quiet (asked_model e attempts asks q) = turn-Quiet q
turn-Quiet (rerouted r q) = turn-Quiet q
turn-Quiet (wider le q) = turn-Quiet q

pub routed-Ended :
    (n : ℕ) (p : Prepared) (r : AgentRun × Option ActivityError)
    → Sound n r.0
    → Ended (n + 12 * 50) (routed p r)
unfolding routed cancelled_output failure_output
routed-Ended n p (s, some err) sound = record {
  sound = Sound-wider {m = n} {n = n + 12 * 50} (omega arith) (flush-Sound p.env p.input s sound);
  all_returned = sym (flush-turn p.env p.input s);
}
routed-Ended n p (s, none) sound =
    Ended-if (p.env.is_cancelled s.history) _ _
      (record {
        sound = Sound-wider {m = n} {n = n + 12 * 50} (omega arith) sound;
        all_returned = refl;
      })
      (react-Ended n p 50 s sound)

pub run_prepared-Ended : (p : Prepared) (s : AgentRun) → Sound 0 s → Ended 600 (run_prepared p s)
unfolding run_prepared
run_prepared-Ended p s sound =
    let ran : Ended (0 + 12 * 50)
        (routed p (start_llm_route p.env p.input p.skills.llm_on_machine p.signed s)) =
      routed-Ended 0 p _ (
        Sound-quietly (start_llm_route-Quiet p.env p.input p.skills.llm_on_machine p.signed still)
          sound) in
    record {
      sound = Sound-quietly (clear_note-Quiet still) ran.sound;
      all_returned = ran.all_returned ∙ sym (turn-Quiet {n = 0} (clear_note-Quiet still));
    }
