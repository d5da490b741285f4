-- ===== src/Workflow/Agent/Results.antt =====
-- workflow/agent.go, tool/metadata.go: what the model reads of a tool's result.
use temporal_agent.Common.{
  take, drop, back_up, ℕ, ◌-◌, ◌*◌, ◌/◌, Bool, true, false, not, ◌&&◌, Option, none, some, [], ◌++◌,
  leb, if◌then◌else◌, length, ◌==◌, Text, text, text_equality, number_equality,
}
use temporal_agent.Store.Decimal.{decimal}
use temporal_agent.Workflow.Agent.Inputs.{AgentOutput}
use temporal_agent.Workflow.Agent.Choice.{machine_required, machines_off_message}
use temporal_agent.Workflow.Agent.{ChildResult}

abbrev pub context_too_long : Text
context_too_long = text "ContextTooLong"

abbrev pub agent_not_open : Text
agent_not_open = text "AgentNotOpen"

-- Why a sub-agent stopped without an answer; `none` when it says nothing.
unfoldable pub sub_agent_stop : AgentOutput → Option Text
sub_agent_stop out =
    if out.error_type == context_too_long
    then some (
        text
          "The agent stopped without an answer: its conversation grew too long for its model. Give it a smaller task, or fewer and shorter tool outputs to read.")
    else if (out.error_type == machine_required) && (out.error == machines_off_message)
    then some (
        text
          "The agent stopped without an answer: it runs its model on the user's machine only, and this installation has its machines off.")
    else if out.error_type == machine_required
    then some (
        text
          "The agent stopped without an answer: it runs its model on the user's machine only, and none of the user's machines offers one now.")
    else if out.error_type == agent_not_open
    then some (text "This agent is not open to the user you are answering: do the work without it.")
    else if not (out.error == [])
    then some (text "The agent stopped without an answer: " ++ out.error)
    else none

-- What the parent reads of a sub-agent's run.
unfoldable pub sub_agent_content : ChildResult → Text × Bool
unfolding sub_agent_stop
sub_agent_content result = read result.as_output
  where
    stopped : Option Text → Text × Bool
    stopped none = (result.raw, false)
    stopped (some why) = (why, true)

    read : Option AgentOutput → Text × Bool
    read none = (result.raw, false)
    read (some out) =
        if not (out.response == []) then (out.response, false) else stopped (sub_agent_stop out)

-- What it reads of any other workflow tool's result.
unfoldable pub decode_result : ChildResult → Text × Bool
decode_result result = read result.as_result
  where
    read : Option (Text × Bool) → Text × Bool
    read none = (result.raw, false)
    read (some r) = r

abbrev pub max_tool_result_bytes : ℕ
max_tool_result_bytes = 96 * 1024

-- Backs `i` up to the first byte of the rune it falls inside.
unfoldable pub rune_start : Text → ℕ → ℕ
unfolding back_up
rune_start s i = if leb (length s) i then length s else back_up s i

unfoldable pub truncated : Text → ℕ → ℕ → Text
unfolding decimal
truncated content head tail =
    take head content
    ++ (text "\n\n[... "
        ++ (decimal (tail - head)
            ++ (text " bytes omitted, output too large ...]\n\n" ++ drop tail content)))

-- The part left out: from `head` to `tail`.
unfoldable pub cut_head : Text → ℕ → ℕ
unfolding rune_start
cut_head content most = rune_start content (most * 2 / 3)

unfoldable pub cut_tail : Text → ℕ → ℕ
unfolding rune_start cut_head
cut_tail content most =
    let tail = rune_start content (length content - (most - cut_head content most)) in
    if leb tail (cut_head content most) then length content else tail

unfoldable pub truncate_to : Text → ℕ → Text
unfolding truncated cut_head cut_tail
truncate_to content most =
    if leb (length content) most
    then content
    else truncated content (cut_head content most) (cut_tail content most)
