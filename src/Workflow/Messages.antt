-- ===== src/Workflow/Messages.antt =====
-- workflow/participant.go: what is delivered to a participant, and the part it is told.
-- strings.Fields, and strings.TrimPrefix's cut of "agent " (Ids.cut_prefix), come from the standard library.
use temporal_agent.Common.{
  ℕ, zero, suc, ◌-◌, Bool, Option, none, some, List, [], ◌∷◌, ◌++◌, map, ltb, if◌then◌else◌,
  on_some, length, ◌==◌, Text, text, text_equality, number_equality,
}
use temporal_agent.Workflow.Ids.{cut_prefix}

pub record AddressedAgent : Type 0 where
  pub id : Text
  pub name : Text
  pub mention : Text

pub record Part : Type 0 where
  pub agents : List AddressedAgent
  pub quote : Text

-- `message_id` is 0 for an ID that is 0 or below.
pub record ParticipantMessage : Type 0 where
  pub message_id : ℕ
  pub user_id : Text
  pub user_name : Text
  pub next : List AddressedAgent
  pub earlier_turns : List Text
  pub sign_reply : Bool
  pub channel : Text
  pub channel_id : Text
  pub part : Option Part

pub record ParticipantInput : Type 0 where
  pub session_id : Text
  pub agent_id : Text
  pub channel : Text
  pub channel_id : Text
  pub inbox : List ParticipantMessage

pub record CurrentMessage : Type 0 where
  pub message_id : ℕ
  pub turn : Text
  pub user_id : Text
  pub user_name : Text
  pub since : ℕ

pub record ParticipantState : Type 0 where
  pub current : Option CurrentMessage
  pub queued : ℕ

pub record TurnEvent : Type 0 where
  pub agent_id : Text
  pub agent_name : Text
  pub turn : Text
  pub user_id : Text
  pub user_name : Text

-- cmp.Or of two strings.
unfoldable pub or_else : Text → Text → Text
or_else [] t = t
or_else (c ∷ cs) t = c ∷ cs

unfoldable pub agent_label : Text → Text → Text
agent_label name mention =
    if mention == []
    then text "agent " ++ name
    else text "agent " ++ (name ++ (text " (@" ++ (mention ++ text ")")))

abbrev trim_prefix : Text → Text → Text
trim_prefix prefix t = cut_or_whole (cut_prefix prefix t)
  where
    cut_or_whole : Option Text → Text
    cut_or_whole none = t
    cut_or_whole (some rest) = rest

unfoldable pub label_of : AddressedAgent → Text
unfolding or_else agent_label cut_prefix
label_of a =
    trim_prefix (text "agent ") (agent_label (or_else a.name a.id) (or_else a.mention a.id))

unfoldable pub join : Text → List Text → Text
join separator [] = []
join separator (t ∷ []) = t
join separator (t ∷ u ∷ ts) = t ++ (separator ++ join separator (u ∷ ts))

unfoldable pub name_at : ℕ → List Text → Text
name_at i [] = []
name_at zero (n ∷ names) = n
name_at (suc i) (n ∷ names) = name_at i names

unfoldable pub part_note : List AddressedAgent → ℕ → Text → Text → Text
unfolding label_of join name_at
part_note agents i quote user_name =
    let names = map label_of agents in
    let from = if user_name == [] then [] else text " from " ++ user_name in
    if ltb (length agents) 2
    then []
    else text "\n## Several agents addressed\n\n"
      ++ (text "You are answering the message"
          ++ (from
              ++ (text " that reads “"
                  ++ (quote
                      ++ (text
                            "”. It addresses several agents, who answer it one after another, in this order: "
                          ++ (join (text ", ") names
                              ++ (text ". You are "
                                  ++ (name_at i names
                                      ++ (text ": answer only the part meant for you."
                                          ++ ((if ltb 0 i
                                                then text
                                                    " The agents before you have answered already, above, in their [agent …] blocks: build on what they said rather than repeat it."
                                                else [])
                                              ++ ((if ltb i (length agents - 1)
                                                    then text
                                                        " The agents after you answer next and will see your reply: leave their part to them."
                                                    else [])
                                                  ++ text
                                                      " Messages written after it get their own turn: answer this one.\n")))))))))))

-- slices.IndexFunc.
unfoldable pub index_of : Text → List AddressedAgent → Option ℕ
index_of agent [] = none
index_of agent (a ∷ agents) = if a.id == agent then some 0 else on_some suc (index_of agent agents)

unfoldable pub note_for : Option Part → Text → Text → Text
unfolding index_of part_note
note_for none agent user_name = []
note_for (some part) agent user_name = note_at (index_of agent part.agents)
  where
    note_at : Option ℕ → Text
    note_at none = []
    note_at (some i) = part_note part.agents i part.quote user_name
