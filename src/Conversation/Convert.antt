-- ===== src/Conversation/Convert.antt =====
-- conversation/convert.go: what an agent's model reads of a session's messages. The result is built newest first and turned
-- round at the end.
pub mod Hidden
pub mod Secrets
pub mod Agreement
pub mod Altered
pub mod Alternation
pub mod Privacy
mod Samples
use temporal_agent.Common.{
  take, back_up, ℕ, ◌+◌, ◌-◌, ◌*◌, ◌/◌, ◌%◌, ◌^◌, min, max, ap, Bool, true, false, not, ◌&&◌, ◌||◌,
  Option, none, some, List, [], ◌∷◌, ◌++◌, map, ltb, leb, eqb, if◌then◌else◌, length, any, all, In,
  ◌==◌, contains, Text, text, text_eq, text_equality, number_equality, lookup, put,
}
use temporal_agent.Store.Decimal.{decimal}
use temporal_agent.Store.Messages.{
  Role, user, assistant, tool, Message, ToolCall, ToolResult, ForkRef, TaskRef, TaskFollowUp,
  TaskFile, kind_fork_summary, kind_turn_end, kind_fork_report, kind_task_result,
}
use temporal_agent.Conversation.Texts.{
  View, ChatMessage, OtherCall, text_or, is_user, is_other, for_another_user, label_of_message,
  shown_input, shown_result, other_turn, other_result, task_result,
}

unfoldable pub plain_user_text : View → ChatMessage → Option Text
unfolding is_user
plain_user_text v cm =
    if is_user cm.role && alone cm.tool_result cm.tool_calls then read cm.content else none
  where
    alone : Option ToolResult → List ToolCall → Bool
    alone none [] = true
    alone none (tc ∷ tcs) = false
    alone (some r) tcs = false

    read : Option Text → Option Text
    read none = none
    read (some content) = v.json.unquote content

unfoldable pub user_message : View → Text → ChatMessage
user_message v t = record {
  role = user;
  content = some (v.json.quote t);
  tool_calls = [];
  tool_result = none;
}

unfoldable pub joined :
    View → Text → ChatMessage → List ChatMessage → Option Text → List ChatMessage
unfolding user_message
joined v t last rest none = user_message v t ∷ last ∷ rest
joined v t last rest (some before) = user_message v (before ++ (text "\n\n" ++ t)) ∷ rest

unfoldable pub joined_onto : View → Text → List ChatMessage → List ChatMessage
unfolding user_message joined plain_user_text
joined_onto v t [] = user_message v t ∷ []
joined_onto v t (last ∷ rest) = joined v t last rest (plain_user_text v last)

-- Adds a text, joined to the last message when that is a user's text too.
unfoldable pub append_user_text : View → Text → List ChatMessage → List ChatMessage
unfolding joined_onto
append_user_text v t result = if t == [] then result else joined_onto v t result

unfoldable pub framed : View → Text → Option Text → Option Text
framed v before none = none
framed v before (some content) = read (v.json.unquote content)
  where
    read : Option Text → Option Text
    read none = some content
    read (some t) = some (v.json.quote (before ++ t))

unfoldable pub as_fork_context : View → Option Text → Option Text
unfolding framed
as_fork_context v = framed v (
    text
      "[Context carried over from an earlier conversation this one was forked from. A summary, not a message from the user.]\n\n")

unfoldable pub fork_title : Option ForkRef → Text
unfolding text_or
fork_title none = text "untitled"
fork_title (some f) = text_or f.title (text "untitled")

unfoldable pub as_fork_report : View → Message → Option Text → Option Text
unfolding framed fork_title text_or
as_fork_report v m = framed v (
    text "[Report from fork « "
    ++ (fork_title m.fork
        ++ (text " » by "
            ++ (text_or m.author (text "a member")
                ++ text
                    ". A summary of the work done in that forked conversation, posted here for the record; not a request to you.]\n\n"))))

-- A person's message, with their name.
unfoldable pub with_author : View → Text → Option Text → Option Text
with_author v author none = none
with_author v author (some content) = read (v.json.unquote content)
  where
    read : Option Text → Option Text
    read none = some content
    read (some t) =
        if t == []
        then some content
        else some (v.json.quote (text "[" ++ (author ++ (text "] " ++ t))))

-- What the conversation's calls say of its results.
pub record Seen : Type 0 where
  pub others : List (Text × OtherCall)
  pub hidden : List Text
  pub called : List Text

unfoldable pub see_call : View → Message → ToolCall → Seen → Seen
unfolding is_other for_another_user label_of_message
see_call v m tc s = record {
  others =
      if is_other v m
      then put tc.id (record { tool_name = tc.name; agent_label = label_of_message v m }) s.others
      else s.others;
  hidden = if for_another_user v m && v.private_input tc.name then tc.id ∷ s.hidden else s.hidden;
  called = tc.id ∷ s.called;
}

unfoldable pub see_calls : View → Message → List ToolCall → Seen → Seen
unfolding see_call
see_calls v m [] s = s
see_calls v m (tc ∷ tcs) s = see_calls v m tcs (see_call v m tc s)

unfoldable pub see_all : View → List Message → Seen → Seen
unfolding see_calls
see_all v [] s = s
see_all v (m ∷ ms) s = see_all v ms (see_calls v m m.tool_calls s)

abbrev pub nothing_seen : Seen
nothing_seen = record { others = []; hidden = []; called = [] }

unfoldable pub content_of : View → Message → Option Text
unfolding as_fork_context as_fork_report with_author is_user
content_of v m =
    let content = if m.content == [] then none else some m.content in
    if m.kind == kind_fork_summary
    then as_fork_context v content
    else if m.kind == kind_fork_report
    then as_fork_report v m content
    else if is_user m.role && not (m.author == [])
    then with_author v m.author content
    else content

unfoldable pub shown_call : Seen → ToolCall → ToolCall
unfolding shown_input
shown_call seen tc = record tc { input = shown_input (contains seen.hidden tc.id) tc.input }

-- A result whose call is nowhere is private too.
unfoldable pub secret_result : Seen → Text → Bool
secret_result seen id = contains seen.hidden id || not (contains seen.called id)

unfoldable pub shown_tool_result : Seen → Option ToolResult → Option ToolResult
unfolding shown_result secret_result
shown_tool_result seen none = none
shown_tool_result seen (some r) =
    some (record r { content = shown_result (secret_result seen r.tool_call_id) r.content })

unfoldable pub own_message : View → Seen → Message → ChatMessage
unfolding content_of shown_call shown_tool_result
own_message v seen m = record {
  role = m.role;
  content = content_of v m;
  tool_calls = map (shown_call seen) m.tool_calls;
  tool_result = shown_tool_result seen m.tool_result;
}

unfoldable pub add_own : View → ChatMessage → Option Text → List ChatMessage → List ChatMessage
unfolding append_user_text
add_own v cm none result = cm ∷ result
add_own v cm (some t) result = append_user_text v t result

unfoldable pub read_other : View → ToolResult → Option OtherCall → Option Text
unfolding other_result
read_other v r none = none
read_other v r (some c) = some (other_result c r (v.private_input c.tool_name))

-- The result of another agent's call, if the message is one.
unfoldable pub others_result : View → Seen → Option ToolResult → Option Text
unfolding read_other
others_result v seen none = none
others_result v seen (some r) = read_other v r (lookup r.tool_call_id seen.others)

unfoldable pub add_kept : View → Seen → Message → Option Text → List ChatMessage → List ChatMessage
unfolding add_own own_message plain_user_text append_user_text
add_kept v seen m (some t) result = append_user_text v t result
add_kept v seen m none result =
    let cm = own_message v seen m in add_own v cm (plain_user_text v cm) result

unfoldable pub convert_message : View → Seen → Message → List ChatMessage → List ChatMessage
unfolding task_result append_user_text is_other other_turn others_result add_kept
convert_message v seen m result =
    if m.kind == kind_turn_end
    then result
    else if m.kind == kind_task_result
    then append_user_text v (task_result v m) result
    else if is_other v m
    then append_user_text v (other_turn v m) result
    else add_kept v seen m (others_result v seen m.tool_result) result

unfoldable pub convert_all : View → Seen → List Message → List ChatMessage → List ChatMessage
unfolding convert_message
convert_all v seen [] result = result
convert_all v seen (m ∷ ms) result = convert_all v seen ms (convert_message v seen m result)

unfoldable pub reverse_onto : List ChatMessage → List ChatMessage → List ChatMessage
reverse_onto [] done = done
reverse_onto (cm ∷ cms) done = reverse_onto cms (cm ∷ done)

unfoldable pub convert : View → List Message → List ChatMessage
unfolding convert_all see_all reverse_onto
convert v messages = reverse_onto (convert_all v (see_all v messages nothing_seen) messages []) []
