-- ===== src/Workflow/Agent/Loop/Invariant.antt =====
-- workflow/agent.go: what a run keeps through its steps: its turn is a complete transcript, the part of it that is
-- written too, and each write was of a complete block at its place in the turn.
use mathlib.Core.List.{append-nil, append_assoc}
use temporal_agent.Common.{
  drop, ℕ, suc, ◌+◌, ◌≡◌, refl, sym, ap, ◌∙◌, subst, Bool, true, false, ◌||◌, Option, none, some,
  List, [], ◌∷◌, ◌++◌, map, eqb, if◌then◌else◌, length, length-append, All, ◌==◌, text_equality,
  number_equality,
}
use temporal_agent.Store.Messages.{Message, ToolCall}
use temporal_agent.Workflow.Agent.Inputs.{AgentInput, LlmMachine, LlmResponse}
use temporal_agent.Workflow.Agent.Quiet.{
  Quiet, still, told, asked_model, rerouted, wider, EffectKind, writing, asking, telling, kind_of,
}
use temporal_agent.Workflow.Agent.Dispatch.{Calls, ToolDispatch, dispatch_all}
use temporal_agent.Workflow.Agent.Collect.{collect, tool_message}
use temporal_agent.Workflow.Agent.Route.{stamp_answer}
use temporal_agent.Workflow.Agent.Outputs.{Prepared, answer_message}
use temporal_agent.Workflow.Agent.Loop.Transcript.{
  call_ids, Complete, over, said, resulted, append-Complete, drop-append,
}
use temporal_agent.Workflow.Agent.{
  AgentEffect, persist, AgentEnvironment, LlmRoute, AgentRun, ask, produce, flush, pending,
}

-- `messages` stand in the turn from `start` on, both they and what precedes them complete.
pub record WrittenIn (turn : List Message) (start : ℕ) (messages : List Message) : Type 0 where
  pub before : List Message
  pub after : List Message
  pub placed : turn ≡ before ++ (messages ++ after)
  pub from_start : length before ≡ start
  pub before_complete : Complete [] before
  pub messages_complete : Complete [] messages

abbrev pub writes : EffectKind → Bool
writes writing = true
writes (asking attempts) = false
writes telling = false

-- Of an effect that writes messages; nothing of any other.
pub data Fits (turn : List Message) : AgentEffect → Type 0 where
  fits_write :
      {start : ℕ} {messages : List Message}
      → WrittenIn turn start messages
      → Fits turn (persist start messages)
  fits_other : {e : AgentEffect} → writes (kind_of e) ≡ false → Fits turn e

-- The turn's written part and the rest of it, both complete.
pub record Split (s : AgentRun) : Type 0 where
  pub written : List Message
  pub rest : List Message
  pub turn_split : s.turn ≡ written ++ rest
  pub written_length : length written ≡ s.persisted
  pub written_complete : Complete [] written
  pub rest_complete : Complete [] rest

pub record Kept (s : AgentRun) : Type 0 where
  pub split : Split s
  pub each_fits : All (Fits s.turn) s.history

pub turn-Complete : (s : AgentRun) → Kept s → Complete [] s.turn
turn-Complete s k =
    rw k.split.turn_split (append-Complete k.split.written_complete k.split.rest_complete)

ask-Kept : (e : AgentEffect) {t : AgentRun} → writes (kind_of e) ≡ false → Kept t → Kept (ask e t)
unfolding ask
ask-Kept e plain k = record {
  split = record {
    written = k.split.written;
    rest = k.split.rest;
    turn_split = k.split.turn_split;
    written_length = k.split.written_length;
    written_complete = k.split.written_complete;
    rest_complete = k.split.rest_complete;
  };
  each_fits = (fits_other plain, k.each_fits);
}

reroute-Kept : (r : LlmRoute) {t : AgentRun} → Kept t → Kept (record t { route = r })
reroute-Kept r k = record {
  split = record {
    written = k.split.written;
    rest = k.split.rest;
    turn_split = k.split.turn_split;
    written_length = k.split.written_length;
    written_complete = k.split.written_complete;
    rest_complete = k.split.rest_complete;
  };
  each_fits = k.each_fits;
}

pub Kept-Quiet : {n : ℕ} {s t : AgentRun} → Quiet n s t → Kept s → Kept t
Kept-Quiet still k = k
Kept-Quiet (told e plain q) k = ask-Kept e (ap writes plain) (Kept-Quiet q k)
Kept-Quiet (asked_model e attempts asks q) k = ask-Kept e (ap writes asks) (Kept-Quiet q k)
Kept-Quiet (rerouted r q) k = reroute-Kept r (Kept-Quiet q k)
Kept-Quiet (wider le q) k = Kept-Quiet q k

Fits-append :
    {turn : List Message} (more : List Message) {e : AgentEffect}
    → Fits turn e
    → Fits (turn ++ more) e
Fits-append {turn} more (fits_other plain) = fits_other plain
Fits-append {turn} more (fits_write {start} {messages} w) = fits_write (record {
  before = w.before;
  after = w.after ++ more;
  placed =
      ap (λ l. l ++ more) w.placed
      ∙ (append_assoc w.before _ more
          ∙ ap (λ l. w.before ++ l) (append_assoc messages w.after more));
  from_start = w.from_start;
  before_complete = w.before_complete;
  messages_complete = w.messages_complete;
})

All-Fits-append :
    (turn more : List Message) (es : List AgentEffect)
    → All (Fits turn) es
    → All (Fits (turn ++ more)) es
All-Fits-append turn more [] a = tt
All-Fits-append turn more (e ∷ es) a = (Fits-append more a.0, All-Fits-append turn more es a.1)

-- A complete block added to the turn.
pub produce-Kept :
    (block : List Message) (s : AgentRun) → Complete [] block → Kept s → Kept (produce block s)
unfolding produce
produce-Kept block s c k = record {
  split = record {
    written = k.split.written;
    rest = k.split.rest ++ block;
    turn_split =
        ap (λ l. l ++ block) k.split.turn_split ∙ append_assoc k.split.written k.split.rest block;
    written_length = k.split.written_length;
    written_complete = k.split.written_complete;
    rest_complete = append-Complete k.split.rest_complete c;
  };
  each_fits = All-Fits-append s.turn block s.history k.each_fits;
}

pending-rest : (s : AgentRun) (w : Split s) → pending s ≡ w.rest
pending-rest s w =
    ap (λ n. drop n s.turn) (sym w.written_length)
    ∙ (ap (λ l. drop (length w.written) l) w.turn_split ∙ drop-append w.written w.rest)

flush_asked-Kept : (s : AgentRun) → Kept s → Kept (ask (persist s.persisted (pending s)) s)
unfolding ask
flush_asked-Kept s k = record {
  split = record {
    written = k.split.written;
    rest = k.split.rest;
    turn_split = k.split.turn_split;
    written_length = k.split.written_length;
    written_complete = k.split.written_complete;
    rest_complete = k.split.rest_complete;
  };
  each_fits = (
    fits_write (record {
      before = k.split.written;
      after = [];
      placed =
          k.split.turn_split
          ∙ ap (λ l. k.split.written ++ l) (sym (append-nil (pending s) ∙ pending-rest s k.split));
      from_start = k.split.written_length;
      before_complete = k.split.written_complete;
      messages_complete = rw (pending-rest s k.split) k.split.rest_complete;
    }),
    k.each_fits,
  );
}

all_written-Kept :
    (s : AgentRun)
    → Kept s
    → (w : Split s) → Kept (record s { persisted = s.persisted + length (pending s) })
all_written-Kept s k w =
    let total : length w.written + length w.rest ≡ s.persisted + length (pending s) =
      rw w.written_length (ap (λ l. s.persisted + length l) (sym (pending-rest s w))) in
    record {
      split = record {
        written = s.turn;
        rest = [];
        turn_split = sym (append-nil s.turn);
        written_length = ap length w.turn_split ∙ (length-append w.written w.rest ∙ total);
        written_complete = turn-Complete s k;
        rest_complete = over;
      };
      each_fits = k.each_fits;
    }

Kept-if : {s t : AgentRun} (b : Bool) → Kept s → Kept t → Kept (if b then s else t)
Kept-if true k l = k
Kept-if false k l = l

pub flush-Kept :
    (env : AgentEnvironment) (input : AgentInput) (s : AgentRun) → Kept s → Kept (flush env input s)
unfolding flush
flush-Kept env input s k =
    let asked = flush_asked-Kept s k in
    Kept-if ((input.turn_key == []) || eqb (length (pending s)) 0) k (
      Kept-if (env.persist_fails (ask (persist s.persisted (pending s)) s).history) asked
        (all_written-Kept (ask (persist s.persisted (pending s)) s) asked asked.split))

-- A run's first messages: none, or the task of a run that has no session turn.
pub fresh-Kept : (s : AgentRun) → s.persisted ≡ 0 → s.history ≡ [] → Complete [] s.turn → Kept s
fresh-Kept s none_written quiet c = record {
  split = record {
    written = [];
    rest = s.turn;
    turn_split = refl;
    written_length = sym none_written;
    written_complete = over;
    rest_complete = c;
  };
  each_fits = subst (λ es. All (Fits s.turn) es) (sym quiet) tt;
}

-- The answer with its results is such a block.
pub results-Complete :
    (c : Calls) (ds : List (ToolCall × ToolDispatch)) (place : ℕ) (s : AgentRun)
    → Complete (call_ids (map (λ d. d.0) ds)) (collect c ds place s).1.0
unfolding collect tool_message
results-Complete c [] place s = over
results-Complete c ((tc, d) ∷ ds) place s =
    resulted (record { result = _; is_tool_message = refl; holds_it = refl; same_call = refl })
      (results-Complete c ds (suc place) _)

dispatched-calls :
    (c : Calls) (tcs : List ToolCall) (place : ℕ) (s : AgentRun)
    → map (λ d. d.0) (dispatch_all c tcs place s).1 ≡ tcs
unfolding dispatch_all
dispatched-calls c [] place s = refl
dispatched-calls c (tc ∷ tcs) place s = ap (λ l. tc ∷ l) (dispatched-calls c tcs (suc place) _)

pub answer-calls :
    (p : Prepared) (response : LlmResponse) (on : Option LlmMachine) (ms : List Message)
    → Complete (call_ids response.tool_calls) ms
    → Complete [] (answer_message p response on ∷ ms)
unfolding answer_message stamp_answer
answer-calls p response none ms c = said refl c
answer-calls p response (some m) ms c = said refl c

pub step-Complete :
    (p : Prepared) (c : Calls) (response : LlmResponse) (on : Option LlmMachine) (s : AgentRun)
    → let begun = dispatch_all c response.tool_calls 0 s in
      Complete [] (answer_message p response on ∷ (collect c begun.1 0 begun.0).1.0)
step-Complete p c response on s =
    let begun = dispatch_all c response.tool_calls 0 s in
    answer-calls p response on _ (
      subst (λ tcs. Complete (call_ids tcs) (collect c begun.1 0 begun.0).1.0)
        (dispatched-calls c response.tool_calls 0 s) (results-Complete c begun.1 0 begun.0))
