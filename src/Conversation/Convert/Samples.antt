-- ===== src/Conversation/Convert/Samples.antt =====
-- A session of two people and two agents: a private call for one is not read when the agent answers the other.
use temporal_agent.Common.{
  on_some, ◌≡◌, refl, false, Option, none, some, List, [], ◌∷◌, map, eqb, if◌then◌else◌, length,
  ◌==◌, Text, text, text_eq, text_equality, number_equality,
}
use temporal_agent.Store.Messages.{user, assistant, tool, ToolCall, ToolResult, Message, blank}
use temporal_agent.Conversation.Convert.{convert}
use temporal_agent.Conversation.Texts.{View}
use temporal_agent.Conversation.Convert.Privacy.{convert-altered}
use temporal_agent.Conversation.Convert.Altered.{altered}

-- A text is written with an equals sign before it.
abbrev sample_view : View
sample_view = record {
  json = record { quote = λ t. b'=' ∷ t; unquote = read; minute_text = λ at. text "noon" };
  self = text "ada";
  user_id = text "bea";
  agents = [];
  private_input = λ name. name == text "save_memory";
}
  where
    read : Text → Option Text
    read [] = none
    read (c ∷ t) = if eqb c 61 then some t else none

abbrev said_by : Text → Text → Message
said_by who words = record (blank user) { content = words; user_id = who; author = who }

abbrev memory_call : ToolCall
memory_call = record {
  id = text "c1";
  name = text "save_memory";
  input = text "{\"text\":\"Al is ill\"}";
}

abbrev memory_result : Message
memory_result = record (blank tool) {
  tool_result =
      some
        (record { tool_call_id = text "c1"; content = text "saved: Al is ill"; is_error = false });
}

-- Al's turn of the agent, then Bea's question.
abbrev shared_session : List Message
shared_session =
    said_by (text "al") (text "=I am ill")
    ∷ record (blank assistant) {
      tool_calls = memory_call ∷ [];
      user_id = text "al";
      agent_id = text "ada";
    }
    ∷ memory_result
    ∷ record (blank assistant) {
      content = text "=noted";
      agent_id = text "bob";
      author = text "Bob";
    }
    ∷ said_by (text "bea") (text "=hello")
    ∷ []

-- The call, its result, and one text: the other agent's words and Bea's.
shared_session-length : length (convert sample_view shared_session) ≡ 4
unfolding convert text_eq
shared_session-length = refl

other_input : ToolCall → Text
other_input tc = text "{\"text\":\"Al is well\"}"

other_content : ToolResult → Text
other_content r = text "saved: Al is well"

-- The call and its result are both private to Bea's reader, and the altered session is another one.
altered_texts :
    (map
        (λ m. map (λ tc. tc.input) m.tool_calls)
        (altered sample_view other_input other_content shared_session)
      ≡ [] ∷ (text "{\"text\":\"Al is well\"}" ∷ []) ∷ [] ∷ [] ∷ [] ∷ [])
    × (map
          (λ m. on_some (λ r. r.content) m.tool_result)
          (altered sample_view other_input other_content shared_session)
        ≡ none ∷ none ∷ some (text "saved: Al is well") ∷ none ∷ none ∷ [])
unfolding altered other_input other_content text_eq
altered_texts = (refl, refl)

convert-altered_example :
    convert sample_view (altered sample_view other_input other_content shared_session)
    ≡ convert sample_view shared_session
convert-altered_example = convert-altered sample_view other_input other_content shared_session
