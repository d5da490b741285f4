-- ===== src/Workflow/Agent/Loop/Transcript.antt =====
-- workflow/agent.go: transcripts that the model's API takes: each call of an assistant's message is answered by its
-- result, in the order of the calls, before anything else is said.
use temporal_agent.Common.{
  drop, ◌≡◌, refl, Bool, true, false, some, List, [], ◌∷◌, ◌++◌, length, Text, text_equality,
  number_equality,
}
use temporal_agent.Store.Messages.{Message, ToolCall, ToolResult, Role, user, assistant, tool}

abbrev pub is_tool : Role → Bool
is_tool user = false
is_tool assistant = false
is_tool tool = true

abbrev pub call_ids : List ToolCall → List Text
call_ids [] = []
call_ids (tc ∷ tcs) = tc.id ∷ call_ids tcs

-- The result of the call of that ID.
pub record IsResultOf (id : Text) (m : Message) : Type 0 where
  pub result : ToolResult
  pub is_tool_message : m.role ≡ tool
  pub holds_it : m.tool_result ≡ some result
  pub same_call : result.tool_call_id ≡ id

-- `Complete ids ms`: `ms` starts with the results of the calls `ids`, in their order, and goes on with messages whose
-- calls are each answered so.
pub data Complete : List Text → List Message → Type 0 where
  over : Complete [] []
  said :
      {m : Message} {ms : List Message}
      → is_tool m.role ≡ false
      → Complete (call_ids m.tool_calls) ms
      → Complete [] (m ∷ ms)
  resulted :
      {id : Text} {ids : List Text} {m : Message} {ms : List Message}
      → IsResultOf id m
      → Complete ids ms
      → Complete (id ∷ ids) (m ∷ ms)

pub append-Complete :
    {ids : List Text} {xs ys : List Message}
    → Complete ids xs
    → Complete [] ys
    → Complete ids (xs ++ ys)
append-Complete over q = q
append-Complete (said role p) q = said role (append-Complete p q)
append-Complete (resulted r p) q = resulted r (append-Complete p q)

pub drop-append : {A : Type 0} (xs ys : List A) → drop (length xs) (xs ++ ys) ≡ ys
drop-append [] ys = refl
drop-append (x ∷ xs) ys = drop-append xs ys
