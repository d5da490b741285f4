-- ===== src/Workflow/Agent/Choice.antt =====
-- workflow/agent_llm.go: the choice of where a turn's model runs, and the note that says so.
use temporal_agent.Common.{
  ℕ, ◌*◌, ◌^◌, Bool, true, false, not, ◌&&◌, ◌||◌, Option, none, some, [], ◌++◌, eqb, if◌then◌else◌,
  length, all, ◌==◌, contains, Text, text, text_equality, number_equality,
}
use temporal_agent.Workflow.Ids.{participant_of_workflow}
use temporal_agent.Workflow.Agent.Inputs.{AgentInput, LlmMachine, ActivityError, no_timeout}
use temporal_agent.Workflow.Agent.{
  LlmMode, never, prefer, require, no_route, AgentEnvironment, AgentRun, ask, choose_machine,
  show_notice,
}

-- The attempts that Temporal makes of the two calls of the model, by their options.
abbrev pub llm_max_attempts : ℕ
llm_max_attempts = 6

abbrev pub machine_llm_max_attempts : ℕ
machine_llm_max_attempts = 1

-- Those that the run itself makes on a machine.
abbrev pub machine_llm_attempts : ℕ
machine_llm_attempts = 6

abbrev pub seconds : ℕ → ℕ
seconds n = n * 10 ^ 9

abbrev pub machine_llm_first_wait : ℕ
machine_llm_first_wait = seconds 5

abbrev pub machine_llm_max_wait : ℕ
machine_llm_max_wait = seconds 120

abbrev pub machine_llm_absurd_wait : ℕ
machine_llm_absurd_wait = seconds 3600

abbrev pub machine_required : Text
machine_required = text "MachineRequired"

abbrev pub machine_required_message : Text
machine_required_message =
    text
      "Cet agent fait tourner son modèle sur la machine de l'auteur du message seulement, et aucune de tes machines n'en offre un en ce moment : lance agent connect avec ton modèle (--llm-provider, --llm-model, AGENT_CONNECT_LLM_API_KEY), puis renvoie ton message."

abbrev pub machines_off_message : Text
machines_off_message =
    text
      "Cet agent fait tourner son modèle sur la machine de l'auteur du message seulement, et les machines sont désactivées sur cette installation (MACHINES_ENABLED=false) : un admin doit le régler sur « jamais » ou « de préférence » dans /admin."

abbrev pub server_unreachable_message : Text
server_unreachable_message =
    text
      "Cet agent fait tourner son modèle sur la machine de l'auteur du message seulement, et le serveur n'a pas pu joindre la passerelle des machines (redémarrage ou panne du serveur) : ta machine n'y est pour rien, renvoie ton message dans un instant."

-- An application error of that type.
abbrev pub refusal : Text → Text → ActivityError
refusal type message = record {
  canceled = false;
  timeout = no_timeout;
  type = type;
  message = message;
  shown = message;
  retry_after = 0;
}

unfoldable pub is_require : LlmMode → Bool
is_require never = false
is_require prefer = false
is_require require = true

unfoldable pub is_never : LlmMode → Bool
is_never never = true
is_never prefer = false
is_never require = false

unfoldable pub on_machine_note : LlmMachine → Text
on_machine_note m =
    text "modèle sur la machine « "
    ++ (m.name ++ (text " »" ++ (if m.model == [] then [] else text " (" ++ (m.model ++ text ")"))))

-- Shows a text on the turn's line; "" takes it off.
unfoldable pub note : Text → AgentRun → AgentRun
unfolding ask
note message s =
    let shown = ask (show_notice s.route.session_id s.route.participant s.route.agent message) s in
    if not s.route.noting || ((message == []) && not s.route.noted)
    then s
    else record shown { route = record s.route { noted = not (message == []) } }

unfoldable pub clear_note : AgentRun → AgentRun
unfolding note
clear_note s = if not s.route.noted then s else note [] s

pub is_some : Option LlmMachine → Bool
is_some none = false
is_some (some m) = true

-- Looks for a machine; false on require, where none stops the turn.
unfoldable pub choose : AgentEnvironment → Text → AgentRun → AgentRun × Bool
unfolding ask is_require is_some
choose env user s =
    let asked = ask (choose_machine user s.route.excluded) s in
    let chosen = env.machine_choice asked.history in
    (
      record asked {
        route = record s.route { machine = chosen.machine; off = chosen.machines_off };
      },
      is_some chosen.machine || not (is_require s.route.mode),
    )

-- The error that stops a turn that requires a machine and has none.
unfoldable pub no_machine : AgentEnvironment → AgentRun → Option ActivityError
unfolding is_require
no_machine env s =
    if not (is_require s.route.mode) || env.is_cancelled s.history
    then none
    else if s.route.off
    then some (refusal machine_required machines_off_message)
    else if not (eqb (length s.route.excluded) 0)
        && all (contains s.route.unreached) s.route.excluded
    then some (refusal machine_required server_unreachable_message)
    else some (refusal machine_required machine_required_message)

unfoldable pub or_empty : Option Text → Text
or_empty none = []
or_empty (some t) = t

unfoldable pub note_machine : Option LlmMachine → AgentRun → AgentRun
unfolding note on_machine_note
note_machine none s = s
note_machine (some m) s = note (on_machine_note m) s

unfoldable pub settle_machine :
    AgentEnvironment → AgentInput → Option LlmMachine → AgentRun → AgentRun × Option ActivityError
unfolding choose no_machine note_machine
settle_machine env input (some m) s =
    (note_machine (some m) (record s { route = record s.route { machine = some m } }), none)
settle_machine env input none s =
    let (found, goes_on) = choose env input.user_id s in
    if goes_on
    then (note_machine found.route.machine found, none)
    else (found, no_machine env found)

-- Settles where the turn's model runs, at its start.
unfoldable pub start_llm_route :
    AgentEnvironment → AgentInput → LlmMode → Text → AgentRun → AgentRun × Option ActivityError
unfolding settle_machine is_never participant_of_workflow or_empty
start_llm_route env input mode signer s =
    let begun = record no_route { mode = mode; excluded = input.llm_excluded } in
    let route = if input.turn_key == [] then begun else record begun {
      session_id = input.session_id;
      noting = true;
      participant = or_empty (participant_of_workflow env.workflow_id);
      agent = signer;
    } in
    if is_never mode || ((input.turn_key == []) && eqb (length input.agent_chain) 0)
    then (record s { route = begun }, none)
    else settle_machine env input input.llm_machine (record s { route = route })
