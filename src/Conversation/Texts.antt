-- ===== src/Conversation/Texts.antt =====
-- conversation/convert.go: how an agent's model is told of the other agents, their calls and the background tasks.
--
-- JSON of a text is a parameter: `quote` writes it, `unquote` reads it and fails on anything else.
use temporal_agent.Common.{
  take, back_up, ℕ, ◌+◌, ◌-◌, ◌*◌, ◌/◌, ◌%◌, ◌^◌, Bool, true, false, not, ◌&&◌, ◌||◌, Option, none,
  some, List, [], ◌∷◌, ◌++◌, map, ltb, leb, eqb, if◌then◌else◌, length, ◌==◌, Text, text,
  text_equality, number_equality, lookup,
}
use temporal_agent.Store.Decimal.{decimal}
use temporal_agent.Store.Messages.{
  Role, user, assistant, tool, Message, ToolCall, ToolResult, TaskRef, TaskFollowUp, TaskFile,
}

pub record Label : Type 0 where
  pub name : Text
  pub mention : Text

pub record TextJson : Type 0 where
  pub quote : Text → Text
  pub unquote : Text → Option Text
  -- the time, as the model reads it
  pub minute_text : ℕ → Text

pub record View : Type 0 where
  pub json : TextJson
  pub self : Text
  pub user_id : Text
  pub agents : List (Text × Label)
  pub private_input : Text → Bool

-- A message of the request to the model. Its calls and its result are those of the store.
pub record ChatMessage : Type 0 where
  pub role : Role
  pub content : Option Text
  pub tool_calls : List ToolCall
  pub tool_result : Option ToolResult

pub record OtherCall : Type 0 where
  pub tool_name : Text
  pub agent_label : Text

-- cmp.Or
unfoldable pub text_or : Text → Text → Text
text_or a b = if a == [] then b else a

unfoldable pub is_assistant : Role → Bool
is_assistant user = false
is_assistant assistant = true
is_assistant tool = false

unfoldable pub is_user : Role → Bool
is_user user = true
is_user assistant = false
is_user tool = false

-- Another agent's turn. One without an agent predates the agents' signatures.
unfoldable pub is_other : View → Message → Bool
unfolding is_assistant
is_other v m = is_assistant m.role && (not (m.agent_id == []) && not (m.agent_id == v.self))

-- The reader's own turn, for another user than the one it answers now.
unfoldable pub for_another_user : View → Message → Bool
unfolding is_assistant is_other
for_another_user v m =
    is_assistant m.role
    && (not (is_other v m) && (not (m.user_id == []) && not (m.user_id == v.user_id)))

unfoldable pub agent_label_text : Text → Text → Text
agent_label_text name mention =
    if mention == []
    then text "agent " ++ name
    else text "agent " ++ (name ++ (text " (@" ++ (mention ++ text ")")))

unfoldable pub labelled : Option Label → Text → Text
unfolding agent_label_text
labelled none name = agent_label_text name []
labelled (some l) name = agent_label_text l.name l.mention

unfoldable pub label_of_message : View → Message → Text
unfolding labelled text_or
label_of_message v m = labelled (lookup m.agent_id v.agents) (text_or m.author m.agent_id)

unfoldable pub label_of_agent : View → Text → Text
unfolding labelled
label_of_agent v id = labelled (lookup id v.agents) id

abbrev pub hidden_input : Text
hidden_input = text "{\"content\":\"(private)\"}"

abbrev pub hidden_result : Text
hidden_result = text "(private)"

unfoldable pub shown_input : Bool → Text → Text
shown_input private input = if private then hidden_input else input

unfoldable pub shown_result : Bool → Text → Text
shown_result private content = if private then hidden_result else content

-- Shortens to `n` bytes at most, on a rune boundary.
unfoldable pub clip : Text → ℕ → Text
unfolding back_up
clip s n = if leb (length s) n then s else take (back_up s n) s ++ text "…"

abbrev pub max_other_tool_input_bytes : ℕ
max_other_tool_input_bytes = 500

abbrev pub max_other_tool_result_bytes : ℕ
max_other_tool_result_bytes = 1500

-- A stored content as text: a JSON string, or what it is.
unfoldable pub message_text : View → Text → Text
message_text v content = read (v.json.unquote content)
  where
    read : Option Text → Text
    read none = content
    read (some t) = t

-- strings.Join with line ends
unfoldable pub join_lines : List Text → Text
join_lines [] = []
join_lines (l ∷ []) = l
join_lines (l ∷ (k ∷ ls)) = l ++ (text "\n" ++ join_lines (k ∷ ls))

unfoldable pub call_line : View → Text → ToolCall → Text
unfolding clip shown_input text_or
call_line v who tc =
    text "["
    ++ (who
        ++ (text " called "
            ++ (tc.name
                ++ (text " "
                    ++ (clip (text_or (shown_input (v.private_input tc.name) tc.input) (text "{}"))
                          max_other_tool_input_bytes
                        ++ text "]")))))

unfoldable pub other_turn : View → Message → Text
unfolding label_of_message message_text join_lines call_line
other_turn v m = join_lines (said ++ map (call_line v (label_of_message v m)) m.tool_calls)
  where
    said : List Text
    said =
        if message_text v m.content == []
        then []
        else (text "[" ++ (label_of_message v m ++ (text "] " ++ message_text v m.content))) ∷ []

unfoldable pub other_result : OtherCall → ToolResult → Bool → Text
unfolding clip shown_result
other_result c r private =
    text "["
    ++ ((if r.is_error then text "error from" else text "result of")
        ++ (text " "
            ++ (c.tool_name
                ++ (text ", called by "
                    ++ (c.agent_label
                        ++ (text "] "
                            ++ clip (shown_result private r.content)
                                max_other_tool_result_bytes))))))

abbrev pub second : ℕ
second = 10 ^ 9

abbrev pub minute : ℕ
minute = 60 * 10 ^ 9

-- d.Round(time.Minute) / time.Minute
unfoldable pub rounded_minutes : ℕ → ℕ
rounded_minutes d =
    if ltb (d % minute + d % minute) minute
    then (d - d % minute) / minute
    else (d + (minute - d % minute)) / minute

unfoldable pub duration_text : ℕ → Text
unfolding rounded_minutes decimal
duration_text d =
    if ltb d minute
    then text " after " ++ (decimal (d / second) ++ text " s")
    else text " after " ++ (decimal (rounded_minutes d) ++ text " min")

unfoldable pub elapsed : Option ℕ → Option ℕ → Text
unfolding duration_text
elapsed none end = []
elapsed (some start) none = []
elapsed (some start) (some end) = if ltb start end then duration_text (end - start) else []

unfoldable pub task_outcome : TaskRef → Text
unfolding elapsed text_or
task_outcome t =
    let after = elapsed t.started_at t.ended_at in
    if t.state == text "failed"
    then text "failed" ++ after
    else if t.state == text "cancelled"
    then text "cancelled by "
      ++ (text_or t.cancelled_by (text "a member") ++ (after ++ text ": it was not finished"))
    else text "done" ++ after

abbrev pub no_task : TaskRef
no_task = record {
  id = [];
  tool = [];
  summary = [];
  turn_key = [];
  call_id = [];
  state = [];
  requested_by = [];
  started_at = none;
  ended_at = none;
  cancelled_by = [];
  follow_ups = [];
  file = none;
}

unfoldable pub task_of : Option TaskRef → TaskRef
task_of none = no_task
task_of (some t) = t

-- A prefix and a text, or nothing for the empty text.
unfoldable pub put_text : Text → Text → Text → Text
put_text before t after = if t == [] then [] else before ++ (t ++ after)

unfoldable pub follow_up_lines : List TaskFollowUp → Text
unfolding put_text
follow_up_lines [] = []
follow_up_lines (f ∷ fs) =
    text "\n- " ++ (put_text (text "(") f.user_name (text ") ") ++ (f.text ++ follow_up_lines fs))

unfoldable pub started_text : View → Option ℕ → Text
started_text v none = []
started_text v (some at) = text " at " ++ v.json.minute_text at

unfoldable pub file_text : Option TaskFile → Text
unfolding decimal
file_text none = []
file_text (some f) =
    text "\n[The whole result ("
    ++ (decimal f.size
        ++ (text " bytes) is the file "
            ++ (f.name
                ++ (text " (id "
                    ++ (f.id ++ text "), published in this session: above is its start.]")))))

-- A background task's end: whole for its own agent, clipped for another.
unfoldable pub task_result : View → Message → Text
unfolding text_or put_text task_outcome follow_up_lines started_text file_text message_text
    label_of_agent clip task_of
task_result v m =
    let t = task_of m.task in
    let mine = (m.agent_id == []) || (m.agent_id == v.self) in
    let body = message_text v m.content in
    text "[Task result: "
    ++ (text_or t.tool (text "a tool")
        ++ (put_text (text " (") t.summary (text ")")
            ++ (text ", a background task "
                ++ ((if mine then text "you" else label_of_agent v m.agent_id)
                    ++ (text " started"
                        ++ (put_text (text " for ") t.requested_by []
                            ++ (started_text v t.started_at
                                ++ (text ", "
                                    ++ (task_outcome t
                                        ++ (text ". Not a message from a person.]"
                                            ++ ((if mine && not (eqb (length t.follow_ups) 0)
                                                  then text
                                                      "\nInstructions to apply now, attached while it ran:"
                                                    ++ follow_up_lines t.follow_ups
                                                  else [])
                                                ++ (put_text (text "\n")
                                                      (if mine
                                                        then body
                                                        else clip body max_other_tool_result_bytes)
                                                      []
                                                    ++ (if mine
                                                        then file_text t.file
                                                        else [])))))))))))))
