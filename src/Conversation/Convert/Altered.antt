-- ===== src/Conversation/Convert/Altered.antt =====
-- conversation/convert.go: a session with other private texts, and what the calls and the turns of other agents tell of
-- it: the same.
use temporal_agent.Common.{
  ◌≡◌, refl, ap, ◌∙◌, Bool, true, false, Option, none, some, List, [], ◌∷◌, map, arith,
  if◌then◌else◌, contains, Text, text_equality, number_equality,
}
use temporal_agent.Store.Messages.{Message, ToolCall, ToolResult}
use temporal_agent.Conversation.Convert.{Seen, see_call, see_calls, see_all, shown_call}
use temporal_agent.Conversation.Texts.{
  View, shown_input, shown_result, is_other, other_turn, call_line, label_of_message,
}
use temporal_agent.Conversation.Convert.Hidden.{Covers}
use temporal_agent.Conversation.Convert.Secrets.{is_private_call, is_private_result}
use temporal_agent.Conversation.Convert.Agreement.{
  is_other-is_of_another, for_another_user-is_for_another,
}

unfoldable pub alter_call : View → (ToolCall → Text) → Message → ToolCall → ToolCall
alter_call v input m tc = record tc {
  input = if is_private_call v m tc then input tc else tc.input;
}

unfoldable pub alter_result :
    (Text → Bool) → (ToolResult → Text) → Option ToolResult → Option ToolResult
alter_result hides content none = none
alter_result hides content (some r) =
    some (record r { content = if hides r.tool_call_id then content r else r.content })

-- The message with other inputs of its private calls, and other contents of the results that `hides` tells.
unfoldable pub altered_by :
    View → (Text → Bool) → (ToolCall → Text) → (ToolResult → Text) → Message → Message
unfolding alter_call alter_result
altered_by v hides input content m = record m {
  tool_calls = map (alter_call v input m) m.tool_calls;
  tool_result = alter_result hides content m.tool_result;
}

-- The session with other inputs of its private calls and other contents of their results.
unfoldable pub altered :
    View → (ToolCall → Text) → (ToolResult → Text) → List Message → List Message
unfolding altered_by
altered v input content messages =
    map (altered_by v (is_private_result v messages) input content) messages

-- A text that a test replaces is not read where the test, or one that it implies, hides it.
pub input-altered :
    (b c : Bool) (t u : Text)
    → (b ≡ true → c ≡ true)
    → shown_input c (if b then u else t) ≡ shown_input c t
unfolding shown_input
input-altered b true t u h = refl
input-altered false false t u h = refl
input-altered true false t u h = let e : false ≡ true = h refl in absurd (ground (arith, e))

pub result-altered :
    (b : Bool) (t u : Text) → shown_result b (if b then u else t) ≡ shown_result b t
unfolding shown_result
result-altered true t u = refl
result-altered false t u = refl

module _ (v : View) (input : ToolCall → Text) (content : ToolResult → Text) where
  see_calls-altered :
      (h : Text → Bool) (m : Message) (tcs : List ToolCall) (s : Seen)
      → see_calls v (altered_by v h input content m) (map (alter_call v input m) tcs) s
        ≡ see_calls v m tcs s
  unfolding see_calls see_call altered_by alter_call is_other label_of_message
  see_calls-altered h m [] s = refl
  see_calls-altered h m (tc ∷ tcs) s = see_calls-altered h m tcs (see_call v m tc s)

  pub see_all-altered :
      (h : Text → Bool) (ms : List Message) (s : Seen)
      → see_all v (map (altered_by v h input content) ms) s ≡ see_all v ms s
  unfolding see_all altered_by
  see_all-altered h [] s = refl
  see_all-altered h (m ∷ ms) s =
      ap (λ t. see_all v (map (altered_by v h input content) ms) t)
        (see_calls-altered h m m.tool_calls s)
      ∙ see_all-altered h ms (see_calls v m m.tool_calls s)

  -- Another agent's turn.
  call_line-altered :
      (m : Message) (who : Text) (tc : ToolCall)
      → call_line v who (alter_call v input m tc) ≡ call_line v who tc
  unfolding call_line alter_call
  call_line-altered m who tc =
      let shown : shown_input (v.private_input tc.name)
            (if is_private_call v m tc then input tc else tc.input)
          ≡ shown_input (v.private_input tc.name) tc.input =
        input-altered (is_private_call v m tc) (v.private_input tc.name) tc.input (input tc)
          (λ h. ground (arith, h)) in
      rw shown refl

  call_lines-altered :
      (m : Message) (who : Text) (tcs : List ToolCall)
      → map (call_line v who) (map (alter_call v input m) tcs) ≡ map (call_line v who) tcs
  call_lines-altered m who [] = refl
  call_lines-altered m who (tc ∷ tcs) =
      ap (λ l. l ∷ map (call_line v who) (map (alter_call v input m) tcs))
        (call_line-altered m who tc)
      ∙ ap (λ ls. call_line v who tc ∷ ls) (call_lines-altered m who tcs)

  pub other_turn-altered :
      (h : Text → Bool) (m : Message)
      → other_turn v (altered_by v h input content m) ≡ other_turn v m
  unfolding other_turn altered_by label_of_message
  other_turn-altered h m = rw (call_lines-altered m (label_of_message v m) m.tool_calls) refl

  -- The reader's own messages, and people's.
  pub shown_call-altered :
      (seen : Seen) (m : Message) (tcs : List ToolCall)
      → is_other v m ≡ false
      → Covers v seen.hidden m tcs
      → map (shown_call seen) (map (alter_call v input m) tcs) ≡ map (shown_call seen) tcs
  unfolding shown_call alter_call
  shown_call-altered seen m [] e c = refl
  shown_call-altered seen m (tc ∷ tcs) e c =
      ap (λ t. record tc { input = t } ∷ map (shown_call seen) (map (alter_call v input m) tcs))
        (input-altered (is_private_call v m tc) (contains seen.hidden tc.id) tc.input (input tc)
          covered)
      ∙ ap (λ l. shown_call seen tc ∷ l) (shown_call-altered seen m tcs e c.1)
    where
      covered : is_private_call v m tc ≡ true → contains seen.hidden tc.id ≡ true
      covered h =
          let others = is_other-is_of_another v m in
          let for_others = for_another_user-is_for_another v m in
          c.0 (ground (arith, h, e, others, for_others))
