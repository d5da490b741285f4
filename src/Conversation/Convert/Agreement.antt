-- ===== src/Conversation/Convert/Agreement.antt =====
-- conversation/convert.go: what the conversation's calls say of its results is what the messages say of them.
use temporal_agent.Common.{
  ◌≡◌, refl, sym, ap, ◌∙◌, ◌⊎◌, inl, inr, Bool, true, false, not, ◌&&◌, ◌||◌, Option, none, some,
  List, [], ◌∷◌, ◌++◌, arith, if◌then◌else◌, on_some, Bool-cases, any, any-append, ◌==◌, contains,
  Text, text_equality, number_equality, lookup, lookup-put,
}
use temporal_agent.Store.Messages.{Role, user, assistant, tool, Message, ToolCall}
use temporal_agent.Conversation.Texts.{
  View, OtherCall, is_other, for_another_user, is_assistant, label_of_message,
}
use temporal_agent.Conversation.Convert.{
  Seen, see_call, see_calls, see_all, nothing_seen, secret_result,
}
use temporal_agent.Conversation.Convert.Secrets.{
  of_agent, is_of_another, is_for_another, calls_of, any_message, later, last_tool, is_own_secret,
  private_by, is_private_result,
}

pub is_other-is_of_another : (v : View) (m : Message) → is_other v m ≡ is_of_another v m
unfolding is_other is_assistant
is_other-is_of_another v m = of_role m.role
  where
    of_role :
        (r : Role)
        → (is_assistant r && (not (m.agent_id == []) && not (m.agent_id == v.self)))
          ≡ (of_agent r && not (contains ([] ∷ v.self ∷ []) m.agent_id))
    of_role user = refl
    of_role tool = refl
    of_role assistant = ground arith

pub for_another_user-is_for_another :
    (v : View) (m : Message) → for_another_user v m ≡ is_for_another v m
unfolding for_another_user is_other is_assistant
for_another_user-is_for_another v m = of_role m.role
  where
    of_role :
        (r : Role)
        → (is_assistant r
            && (not (is_assistant r && (not (m.agent_id == []) && not (m.agent_id == v.self)))
                && (not (m.user_id == []) && not (m.user_id == v.user_id))))
          ≡ (of_agent r
              && (contains ([] ∷ v.self ∷ []) m.agent_id
                  && not (contains ([] ∷ v.user_id ∷ []) m.user_id)))
    of_role user = refl
    of_role tool = refl
    of_role assistant = ground arith

later-none : {A : Type 0} (a : Option A) → later a none ≡ a
later-none none = refl
later-none (some a) = refl

later_assoc : {A : Type 0} (a b c : Option A) → later a (later b c) ≡ later (later a b) c
later_assoc none b c = refl
later_assoc (some a) b c = refl

last_tool-append :
    (id : Text) (tcs us : List ToolCall)
    → last_tool id (tcs ++ us) ≡ later (last_tool id us) (last_tool id tcs)
last_tool-append id [] us = sym (later-none (last_tool id us))
last_tool-append id (tc ∷ tcs) us =
    ap (λ o. later o (if tc.id == id then some tc.name else none)) (last_tool-append id tcs us)
    ∙ sym (later_assoc (last_tool id us) (last_tool id tcs) _)

abbrev pub tool_of : OtherCall → Text
tool_of c = c.tool_name

-- The tool that the calls seen tell of an ID.
abbrev pub tool_in : Seen → Text → Option Text
tool_in s id = on_some tool_of (lookup id s.others)

tool_of-if :
    (b : Bool) (c : OtherCall) (o : Option OtherCall)
    → on_some tool_of (if b then some c else o)
      ≡ later (if b then some c.tool_name else none) (on_some tool_of o)
tool_of-if true c o = refl
tool_of-if false c o = refl

module _ (v : View) (id : Text) where
  tool_in-see_call :
      (m : Message) (tc : ToolCall) (s : Seen)
      → tool_in (see_call v m tc s) id ≡ (
          if is_other v m
          then later (if tc.id == id then some tc.name else none) (tool_in s id)
          else tool_in s id)
  unfolding see_call
  tool_in-see_call m tc s = elim (Bool-cases (is_other v m)) [
    | inl o ↦
        (let entry : OtherCall = record {
          tool_name = tc.name;
          agent_label = label_of_message v m;
        } in
          rw o (
            ap (λ c. on_some tool_of c) (lookup-put tc.id id entry s.others)
            ∙ tool_of-if (tc.id == id) entry (lookup id s.others)))
    | inr n ↦ rw n refl
  ]

  tool_in-see_calls :
      (m : Message) (tcs : List ToolCall) (s : Seen)
      → tool_in (see_calls v m tcs s) id
        ≡ later (last_tool id (if is_other v m then tcs else [])) (tool_in s id)
  unfolding see_calls
  tool_in-see_calls m [] s = elim (Bool-cases (is_other v m)) [
    | inl o ↦ rw o refl
    | inr n ↦ rw n refl
  ]
  tool_in-see_calls m (tc ∷ tcs) s =
      tool_in-see_calls m tcs (see_call v m tc s)
      ∙ ap (λ o. later (last_tool id (if is_other v m then tcs else [])) o)
          (tool_in-see_call m tc s)
      ∙ joined (Bool-cases (is_other v m))
    where
      joined :
          (is_other v m ≡ true) ⊎ (is_other v m ≡ false)
          → later (last_tool id (if is_other v m then tcs else [])) (
              if is_other v m
              then later (if tc.id == id then some tc.name else none) (tool_in s id)
              else tool_in s id)
            ≡ later (last_tool id (if is_other v m then tc ∷ tcs else [])) (tool_in s id)
      joined (inl o) = rw o (later_assoc (last_tool id tcs) _ (tool_in s id))
      joined (inr n) = rw n refl

  tool_in-see_all :
      (ms : List Message) (s : Seen)
      → tool_in (see_all v ms s) id
        ≡ later (last_tool id (calls_of (is_of_another v) ms)) (tool_in s id)
  unfolding see_all
  tool_in-see_all [] s = refl
  tool_in-see_all (m ∷ ms) s =
      let own = if is_of_another v m then m.tool_calls else [] in
      let others = calls_of (is_of_another v) ms in
      tool_in-see_all ms (see_calls v m m.tool_calls s)
      ∙ ap (λ o. later (last_tool id others) o)
          (tool_in-see_calls m m.tool_calls s
            ∙ ap (λ b. later (last_tool id (if b then m.tool_calls else [])) (tool_in s id))
                (is_other-is_of_another v m))
      ∙ later_assoc (last_tool id others) (last_tool id own) (tool_in s id)
      ∙ ap (λ o. later o (tool_in s id)) (sym (last_tool-append id own others))

  hidden-see_calls :
      (m : Message) (tcs : List ToolCall) (s : Seen)
      → contains (see_calls v m tcs s).hidden id ≡ (
          any
            (λ tc. id == tc.id && v.private_input tc.name)
            (if for_another_user v m then tcs else [])
          || contains s.hidden id)
  unfolding see_calls see_call
  hidden-see_calls m [] s = ground arith
  hidden-see_calls m (tc ∷ tcs) s =
      let rest = hidden-see_calls m tcs (see_call v m tc s) in ground (arith, rest)

  hidden-see_all :
      (ms : List Message) (s : Seen)
      → contains (see_all v ms s).hidden id ≡ (
          any (λ tc. id == tc.id && v.private_input tc.name) (calls_of (is_for_another v) ms)
          || contains s.hidden id)
  unfolding see_all
  hidden-see_all [] s = refl
  hidden-see_all (m ∷ ms) s =
      let own = if is_for_another v m then m.tool_calls else [] in
      let others = calls_of (is_for_another v) ms in
      hidden-see_all ms (see_calls v m m.tool_calls s)
      ∙ ap (λ b. any asked others || b)
          (hidden-see_calls m m.tool_calls s
            ∙ ap (λ b. any asked (if b then m.tool_calls else []) || contains s.hidden id)
                (for_another_user-is_for_another v m))
      ∙ or_assoc (any asked others) (any asked own) (contains s.hidden id)
      ∙ ap (λ b. b || contains s.hidden id) (sym (any-append asked own others))
    where
      asked : ToolCall → Bool
      asked tc = id == tc.id && v.private_input tc.name

      or_assoc : (a b c : Bool) → (a || (b || c)) ≡ ((a || b) || c)
      or_assoc true b c = refl
      or_assoc false b c = refl

  called-see_calls :
      (m : Message) (tcs : List ToolCall) (s : Seen)
      → contains (see_calls v m tcs s).called id
        ≡ (any (λ tc. id == tc.id) tcs || contains s.called id)
  unfolding see_calls see_call
  called-see_calls m [] s = refl
  called-see_calls m (tc ∷ tcs) s =
      let rest = called-see_calls m tcs (see_call v m tc s) in ground (arith, rest)

  called-see_all :
      (ms : List Message) (s : Seen)
      → contains (see_all v ms s).called id
        ≡ (any (λ tc. id == tc.id) (calls_of any_message ms) || contains s.called id)
  unfolding see_all
  called-see_all [] s = refl
  called-see_all (m ∷ ms) s =
      let rest = called-see_all ms (see_calls v m m.tool_calls s) in
      let here = called-see_calls m m.tool_calls s in
      let both = any-append (λ tc. id == tc.id) m.tool_calls (calls_of any_message ms) in
      ground (arith, rest, here, both)

  -- The result of a call that no other agent made is hidden from the reader where the messages say so.
  secret_result-is_own_secret :
      (ms : List Message) → secret_result (see_all v ms nothing_seen) id ≡ is_own_secret v ms id
  unfolding secret_result
  secret_result-is_own_secret ms =
      let hidden = hidden-see_all ms nothing_seen in
      let called = called-see_all ms nothing_seen in ground (arith, hidden, called)

  tool_in-last_tool :
      (ms : List Message)
      → tool_in (see_all v ms nothing_seen) id ≡ last_tool id (calls_of (is_of_another v) ms)
  tool_in-last_tool ms =
      tool_in-see_all ms nothing_seen ∙ later-none (last_tool id (calls_of (is_of_another v) ms))

  pub private_by-is_private_result :
      (ms : List Message)
      → private_by v
          (tool_in (see_all v ms nothing_seen) id)
          (secret_result (see_all v ms nothing_seen) id)
        ≡ is_private_result v ms id
  private_by-is_private_result ms =
      ap (λ o. private_by v o (secret_result (see_all v ms nothing_seen) id)) (tool_in-last_tool ms)
      ∙ ap (λ b. private_by v (last_tool id (calls_of (is_of_another v) ms)) b)
          (secret_result-is_own_secret ms)
