-- ===== src/Conversation/Convert/Privacy.antt =====
-- conversation/convert.go: what a model reads of a session with other private texts.
use temporal_agent.Common.{
  ◌≡◌, refl, sym, ap, ◌∙◌, ◌⊎◌, inl, inr, Bool, true, false, Option, none, some, List, [], ◌∷◌, map,
  if◌then◌else◌, Bool-cases, All, ◌==◌, Text, text_equality, number_equality, lookup,
}
use mathlib.Core.Path.{fun_ext}
use temporal_agent.Store.Messages.{Message, ToolCall, ToolResult, kind_turn_end, kind_task_result}
use temporal_agent.Conversation.Convert.{
  Seen, see_all, nothing_seen, read_other, others_result, shown_call, shown_tool_result,
  secret_result, own_message, content_of, add_own, add_kept, plain_user_text, append_user_text,
  convert_message, convert_all, reverse_onto, convert,
}
use temporal_agent.Conversation.Texts.{
  View, ChatMessage, OtherCall, is_other, other_turn, other_result, task_result,
}
use temporal_agent.Conversation.Convert.Hidden.{Covers, see_all-Covers}
use temporal_agent.Conversation.Convert.Secrets.{private_by}
use temporal_agent.Conversation.Convert.Agreement.{tool_in, private_by-is_private_result}
use temporal_agent.Conversation.Convert.Altered.{
  alter_call, alter_result, altered_by, altered, result-altered, see_all-altered,
  other_turn-altered, shown_call-altered,
}

-- A message with other calls and another result.
abbrev holding : Message → List ToolCall → Option ToolResult → Message
holding m tcs r = record m { tool_calls = tcs; tool_result = r }

own-equal :
    (v : View) (seen : Seen) (m : Message) (tcs us : List ToolCall) (r q : Option ToolResult)
    → map (shown_call seen) tcs ≡ map (shown_call seen) us
    → shown_tool_result seen r ≡ shown_tool_result seen q
    → own_message v seen (holding m tcs r) ≡ own_message v seen (holding m us q)
unfolding own_message content_of
own-equal v seen m tcs us r q e f = cc

kept-equal :
    (v : View) (seen : Seen) (m n : Message) (result : List ChatMessage)
    → own_message v seen m ≡ own_message v seen n
    → add_kept v seen m none result ≡ add_kept v seen n none result
unfolding add_kept
kept-equal v seen m n result e = ap (λ cm. add_own v cm (plain_user_text v cm) result) e

text-equal :
    (v : View) (seen : Seen) (m n : Message) (t : Text) (result : List ChatMessage)
    → add_kept v seen m (some t) result ≡ add_kept v seen n (some t) result
unfolding add_kept
text-equal v seen m n t result = refl

-- The results that the calls seen hide.
abbrev hides : View → Seen → Text → Bool
hides v seen id = private_by v (tool_in seen id) (secret_result seen id)

module _ (v : View) (input : ToolCall → Text) (content : ToolResult → Text) where
  result-kept :
      (seen : Seen) (r : ToolResult)
      → lookup r.tool_call_id seen.others ≡ none
      → shown_tool_result seen (alter_result (hides v seen) content (some r))
        ≡ shown_tool_result seen (some r)
  unfolding shown_tool_result alter_result
  result-kept seen r e =
      rw e (rw (result-altered (secret_result seen r.tool_call_id) r.content (content r)) refl)

  others_result-altered :
      (seen : Seen) (r : ToolResult) (c : OtherCall)
      → lookup r.tool_call_id seen.others ≡ some c
      → others_result v seen (alter_result (hides v seen) content (some r))
        ≡ others_result v seen (some r)
  unfolding others_result read_other other_result alter_result
  others_result-altered seen r c e =
      rw e (rw (result-altered (v.private_input c.tool_name) r.content (content r)) refl)

  others_result-none :
      (seen : Seen) (r : ToolResult)
      → lookup r.tool_call_id seen.others ≡ none
      → (others_result v seen (some r) ≡ none)
        × (others_result v seen (alter_result (hides v seen) content (some r)) ≡ none)
  unfolding others_result read_other alter_result
  others_result-none seen r e = (rw e refl, rw e refl)

  others_result-some :
      (seen : Seen) (r : ToolResult) (c : OtherCall)
      → lookup r.tool_call_id seen.others ≡ some c
      → (t : Text) × (others_result v seen (some r) ≡ some t)
  unfolding others_result read_other
  others_result-some seen r c e = (other_result c r (v.private_input c.tool_name), rw e refl)

  module _ (seen : Seen) (m : Message) (tcs us : List ToolCall)
      (calls : map (shown_call seen) tcs ≡ map (shown_call seen) us) where
    -- A result enters the conversation as the same message.
    result-enters :
        (r : ToolResult) (result : List ChatMessage) (o : Option OtherCall)
        → lookup r.tool_call_id seen.others ≡ o
        → add_kept v seen
            (holding m tcs (alter_result (hides v seen) content (some r)))
            (others_result v seen (alter_result (hides v seen) content (some r)))
            result
          ≡ add_kept v seen (holding m us (some r)) (others_result v seen (some r)) result
    result-enters r result none e =
        let gone = others_result-none seen r e in
        rw gone.0 (
          rw gone.1 (
            kept-equal v seen _ _ result
              (own-equal v seen m tcs us _ _ calls (result-kept seen r e))))
    result-enters r result (some c) e =
        let (t, said) = others_result-some seen r c e in
        rw (others_result-altered seen r c e) (rw said (text-equal v seen _ _ t result))

    add_kept-altered :
        (r : Option ToolResult) (result : List ChatMessage)
        → add_kept v seen
            (holding m tcs (alter_result (hides v seen) content r))
            (others_result v seen (alter_result (hides v seen) content r))
            result
          ≡ add_kept v seen (holding m us r) (others_result v seen r) result
    unfolding alter_result others_result
    add_kept-altered none result =
        kept-equal v seen _ _ result (own-equal v seen m tcs us none none calls refl)
    add_kept-altered (some r) result =
        result-enters r result (lookup r.tool_call_id seen.others) refl

  own-altered :
      (seen : Seen) (m : Message) (result : List ChatMessage)
      → is_other v m ≡ false
      → Covers v seen.hidden m m.tool_calls
      → let n = altered_by v (hides v seen) input content m in
        add_kept v seen n (others_result v seen n.tool_result) result
        ≡ add_kept v seen m (others_result v seen m.tool_result) result
  unfolding altered_by
  own-altered seen m result e c =
      add_kept-altered seen m (map (alter_call v input m) m.tool_calls) m.tool_calls
        (shown_call-altered v input content seen m m.tool_calls e c) m.tool_result result

  altered-is_other :
      (h : Text → Bool) (m : Message) → is_other v (altered_by v h input content m) ≡ is_other v m
  unfolding is_other altered_by
  altered-is_other h m = refl

  task_result-altered :
      (h : Text → Bool) (m : Message)
      → task_result v (altered_by v h input content m) ≡ task_result v m
  unfolding task_result altered_by
  task_result-altered h m = refl

  convert_message-altered :
      (seen : Seen) (m : Message) (result : List ChatMessage)
      → Covers v seen.hidden m m.tool_calls
      → convert_message v seen (altered_by v (hides v seen) input content m) result
        ≡ convert_message v seen m result
  unfolding convert_message altered_by
  convert_message-altered seen m result c = elim (Bool-cases (m.kind == kind_turn_end)) [
    | inl e ↦ rw e refl
    | inr e ↦ rw e (elim (Bool-cases (m.kind == kind_task_result)) [
      | inl t ↦
          rw t (ap (λ text. append_user_text v text result) (task_result-altered (hides v seen) m))
      | inr t ↦ rw t (by_agent (Bool-cases (is_other v m)))
    ])
  ]
    where
      n : Message
      n = altered_by v (hides v seen) input content m

      by_agent :
          (is_other v m ≡ true) ⊎ (is_other v m ≡ false)
          → (if is_other v n
              then append_user_text v (other_turn v n) result
              else add_kept v seen n (others_result v seen n.tool_result) result)
            ≡ (if is_other v m
                then append_user_text v (other_turn v m) result
                else add_kept v seen m (others_result v seen m.tool_result) result)
      by_agent (inl o) = rw (altered-is_other (hides v seen) m) (
          rw o (
            ap (λ text. append_user_text v text result)
              (other_turn-altered v input content (hides v seen) m)))
      by_agent (inr o) =
          rw (altered-is_other (hides v seen) m) (rw o (own-altered seen m result o c))

  convert_all-altered :
      (seen : Seen) (ms : List Message) (result : List ChatMessage)
      → All (λ m. Covers v seen.hidden m m.tool_calls) ms
      → convert_all v seen (map (altered_by v (hides v seen) input content) ms) result
        ≡ convert_all v seen ms result
  unfolding convert_all
  convert_all-altered seen [] result c = refl
  convert_all-altered seen (m ∷ ms) result c =
      ap (λ l. convert_all v seen (map (altered_by v (hides v seen) input content) ms) l)
        (convert_message-altered seen m result c.0)
      ∙ convert_all-altered seen ms (convert_message v seen m result) c.1

  convert-altered_by :
      (messages : List Message)
      → let seen = see_all v messages nothing_seen in
        convert v (map (altered_by v (hides v seen) input content) messages) ≡ convert v messages
  unfolding convert
  convert-altered_by messages =
      let seen = see_all v messages nothing_seen in
      rw (see_all-altered v input content (hides v seen) messages nothing_seen) (
        ap (λ l. reverse_onto l [])
          (convert_all-altered seen messages [] (see_all-Covers v messages nothing_seen)))

-- What a model reads of a session does not depend on the session's private texts. The private inputs are those of the
-- calls of private tools in two kinds of assistant's messages: another agent's, and the reader's own (or without an
-- agent's ID) that carry the ID of another user than the one it answers now. Whether a result's content is private is
-- decided by its call's ID: where another agent made calls with that ID, it is when the last of them is of a private
-- tool; otherwise when a private input's call has that ID, or no call of the session has it.
pub convert-altered :
    (v : View) (input : ToolCall → Text) (content : ToolResult → Text) (messages : List Message)
    → convert v (altered v input content messages) ≡ convert v messages
unfolding altered
convert-altered v input content messages =
    ap (λ h. convert v (map (altered_by v h input content) messages))
      (sym (fun_ext (λ id. private_by-is_private_result v id messages)))
    ∙ convert-altered_by v input content messages
