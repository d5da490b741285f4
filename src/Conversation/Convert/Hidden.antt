-- ===== src/Conversation/Convert/Hidden.antt =====
-- conversation/convert.go: the private calls of the reader's turns for another user are among the hidden ones.
use temporal_agent.Common.{
  ◌≡◌, refl, inl, true, ◌&&◌, List, [], ◌∷◌, arith, All, contains, contains_iff, Text,
  text_equality, number_equality,
}
use temporal_agent.Store.Messages.{Message, ToolCall}
use temporal_agent.Conversation.Convert.{Seen, see_call, see_calls, see_all}
use temporal_agent.Conversation.Texts.{View, for_another_user}

pub contains-head : (id : Text) (ids : List Text) → contains (id ∷ ids) id ≡ true
contains-head id ids = (contains_iff (id ∷ ids) id).1 (inl refl)

module _ (v : View) where
  -- The private calls of the reader's turns for another user are among the hidden ones.
  abbrev pub Covers : List Text → Message → List ToolCall → Type 0
  Covers hidden m tcs =
      All
        (λ tc.
          (for_another_user v m && v.private_input tc.name) ≡ true → contains hidden tc.id ≡ true)
        tcs

  hidden-see_call :
      (m : Message) (tc : ToolCall) (s : Seen) (id : Text)
      → contains s.hidden id ≡ true
      → contains (see_call v m tc s).hidden id ≡ true
  unfolding see_call
  hidden-see_call m tc s id h = ground (arith, h)

  hidden-see_calls :
      (m : Message) (tcs : List ToolCall) (s : Seen) (id : Text)
      → contains s.hidden id ≡ true
      → contains (see_calls v m tcs s).hidden id ≡ true
  unfolding see_calls
  hidden-see_calls m [] s id h = h
  hidden-see_calls m (tc ∷ tcs) s id h =
      hidden-see_calls m tcs (see_call v m tc s) id (hidden-see_call m tc s id h)

  hidden-see_all :
      (ms : List Message) (s : Seen) (id : Text)
      → contains s.hidden id ≡ true
      → contains (see_all v ms s).hidden id ≡ true
  unfolding see_all
  hidden-see_all [] s id h = h
  hidden-see_all (m ∷ ms) s id h =
      hidden-see_all ms (see_calls v m m.tool_calls s) id (hidden-see_calls m m.tool_calls s id h)

  see_call-hides :
      (m : Message) (tc : ToolCall) (s : Seen)
      → (for_another_user v m && v.private_input tc.name) ≡ true
      → contains (see_call v m tc s).hidden tc.id ≡ true
  unfolding see_call
  see_call-hides m tc s h = rw h (contains-head tc.id s.hidden)

  see_calls-Covers :
      (m : Message) (tcs : List ToolCall) (s : Seen) → Covers (see_calls v m tcs s).hidden m tcs
  unfolding see_calls
  see_calls-Covers m [] s = tt
  see_calls-Covers m (tc ∷ tcs) s = (
    λ h. hidden-see_calls m tcs (see_call v m tc s) tc.id (see_call-hides m tc s h),
    see_calls-Covers m tcs (see_call v m tc s),
  )

  Covers-see_all :
      (ms : List Message) (s : Seen) (m : Message) (tcs : List ToolCall)
      → Covers s.hidden m tcs
      → Covers (see_all v ms s).hidden m tcs
  Covers-see_all ms s m [] c = tt
  Covers-see_all ms s m (tc ∷ tcs) c =
      (λ h. hidden-see_all ms s tc.id (c.0 h), Covers-see_all ms s m tcs c.1)

  pub see_all-Covers :
      (ms : List Message) (s : Seen) → All (λ m. Covers (see_all v ms s).hidden m m.tool_calls) ms
  unfolding see_all
  see_all-Covers [] s = tt
  see_all-Covers (m ∷ ms) s =
      let seen = see_calls v m m.tool_calls s in
      (
        Covers-see_all ms seen m m.tool_calls (see_calls-Covers m m.tool_calls s),
        see_all-Covers ms seen,
      )
