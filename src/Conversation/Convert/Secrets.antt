-- ===== src/Conversation/Convert/Secrets.antt =====
-- conversation/convert.go: which calls and results of a session are private to its reader, said of the messages alone.
use temporal_agent.Common.{
  Bool, true, false, not, ◌&&◌, ◌||◌, Option, none, some, List, [], ◌∷◌, ◌++◌, if◌then◌else◌, any,
  ◌==◌, contains, Text, text_equality, number_equality,
}
use temporal_agent.Store.Messages.{Role, user, assistant, tool, Message, ToolCall}
use temporal_agent.Conversation.Texts.{View}

abbrev pub of_agent : Role → Bool
of_agent user = false
of_agent assistant = true
of_agent tool = false

-- An agent's message, where one without an agent's ID is the reader's own.
abbrev pub is_of_another : View → Message → Bool
is_of_another v m = of_agent m.role && not (contains ([] ∷ v.self ∷ []) m.agent_id)

-- A message of the reader's that answered another user than the one it answers now.
abbrev pub is_for_another : View → Message → Bool
is_for_another v m =
    of_agent m.role
    && (contains ([] ∷ v.self ∷ []) m.agent_id && not (contains ([] ∷ v.user_id ∷ []) m.user_id))

-- The reader may not see the input of a private tool's call in such messages.
abbrev pub is_private_call : View → Message → ToolCall → Bool
is_private_call v m tc = (is_of_another v m || is_for_another v m) && v.private_input tc.name

-- The calls of the messages that a test chooses.
abbrev pub calls_of : (Message → Bool) → List Message → List ToolCall
calls_of chosen [] = []
calls_of chosen (m ∷ ms) = (if chosen m then m.tool_calls else []) ++ calls_of chosen ms

abbrev pub any_message : Message → Bool
any_message m = true

abbrev pub later {ℓ} : {A : Type ℓ} → Option A → Option A → Option A
later none before = before
later (some a) before = some a

-- The tool of the last call with that ID.
abbrev pub last_tool : Text → List ToolCall → Option Text
last_tool id [] = none
last_tool id (tc ∷ tcs) = later (last_tool id tcs) (if tc.id == id then some tc.name else none)

-- Whether the result of a call that no other agent made is private: that of a private tool's call for another user,
-- and that of no call at all.
abbrev pub is_own_secret : View → List Message → Text → Bool
is_own_secret v ms id =
    any (λ tc. id == tc.id && v.private_input tc.name) (calls_of (is_for_another v) ms)
    || not (any (λ tc. id == tc.id) (calls_of any_message ms))

abbrev pub private_by : View → Option Text → Bool → Bool
private_by v none own = own
private_by v (some name) own = v.private_input name

-- Whether the result of the call with that ID is private: with its tool where another agent called it.
abbrev pub is_private_result : View → List Message → Text → Bool
is_private_result v ms id =
    private_by v (last_tool id (calls_of (is_of_another v) ms)) (is_own_secret v ms id)
